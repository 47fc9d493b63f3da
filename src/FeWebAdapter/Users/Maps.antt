-- ===== src/FeWebAdapter/Users/Maps.antt =====
-- The users of a channel as a map from nicks in lower case: what sortChannelUsers and a nick change of
-- server/feWebClient/feWebAdapter.ts do to it.
use thelounge.Common.{
  ap, ◌≡◌, refl, ◌∙◌, sym, String, Bool, inl, inr, Option, none, some, List, [], ◌∷◌, find?, str_eq,
  if◌then◌else◌, is_some, arith, eq_iff, Bool-cases,
}
use thelounge.Common.Dict.{Dict, get, set, delete, values, get-set, get-delete}
use thelounge.Common.Sort.{sort, insert_sorted}
use thelounge.Models.User.{User}
use thelounge.Models.Chan.{Chan}
use thelounge.FeWebAdapter.Network.{Runtime}
use thelounge.FeWebAdapter.Users.{
  set_users, sort_channel_users, user_le, rename_in_channel, rename_user,
}

module _ (runtime : Runtime) where
  abbrev key : User → String
  key u = runtime.lower u.nick

  -- Each user stands under its nick in lower case, and once.
  abbrev pub IsKeyed : Dict User → Type 0
  IsKeyed [] = Unit
  IsKeyed ((k, u) ∷ m) = (runtime.lower u.nick ≡ k) × (get k m ≡ none) × IsKeyed m

  abbrev with_nick : String → List User → Option User
  with_nick k us = find? (λ u. str_eq (key u) k) us

  abbrev AreDistinct : List User → Type 0
  AreDistinct [] = Unit
  AreDistinct (u ∷ us) = (with_nick (key u) us ≡ none) × AreDistinct us

  get-set_users :
      (k : String) (m : Dict User) (us : List User)
      → AreDistinct us
      → get k (set_users runtime m us)
        ≡ (if is_some (with_nick k us) then with_nick k us else get k m)
  unfolding set_users
  get-set_users k m [] h = refl
  get-set_users k m (u ∷ us) (fresh, h) =
      ground
        (arith, get-set_users k (set (key u) u m) us h, get-set (key u) k u m, eq_iff (key u) k)

  with_nick-values : (k : String) (m : Dict User) → IsKeyed m → with_nick k (values m) ≡ get k m
  unfolding get
  with_nick-values k [] h = refl
  with_nick-values k ((j, u) ∷ m) (p, fresh, h) =
      ground (arith, with_nick-values k m h, eq_iff (key u) k, eq_iff j k)

  AreDistinct-values : (m : Dict User) → IsKeyed m → AreDistinct (values m)
  AreDistinct-values [] h = tt
  AreDistinct-values ((j, u) ∷ m) (p, fresh, h) =
      (with_nick-values (key u) m h ∙ rw p fresh, AreDistinct-values m h)

  module _ (le : User → User → Bool) where
    with_nick-insert_sorted :
        (k : String) (u : User) (us : List User)
        → with_nick (key u) us ≡ none
        → with_nick k (insert_sorted le u us) ≡ with_nick k (u ∷ us)
    unfolding insert_sorted
    with_nick-insert_sorted k u [] h = refl
    with_nick-insert_sorted k u (v ∷ vs) h =
        let later : with_nick (key u) vs ≡ none = ground (arith, h) in
        let inserted = with_nick-insert_sorted k u vs later in
        elim (Bool-cases (le u v)) [
          | inl first ↦ rw first refl
          | inr after ↦ rw after (
              ground
                (arith, h, inserted, eq_iff (key u) k, eq_iff (key v) k, eq_iff (key v) (key u)))
        ]

    AreDistinct-insert_sorted :
        (u : User) (us : List User) → AreDistinct (u ∷ us) → AreDistinct (insert_sorted le u us)
    unfolding insert_sorted
    AreDistinct-insert_sorted u [] h = h
    AreDistinct-insert_sorted u (v ∷ vs) (p, (q, h)) =
        let later : with_nick (key u) vs ≡ none = ground (arith, p) in
        elim (Bool-cases (le u v)) [
          | inl first ↦ rw first (p, (q, h))
          | inr after ↦ rw after (
            with_nick-insert_sorted (key v) u vs later
                ∙ ground (arith, p, q, eq_iff (key v) (key u), eq_iff (key u) (key v)),
            AreDistinct-insert_sorted u vs (later, h),
          )
        ]

    with_nick-sort :
        (k : String) (us : List User)
        → AreDistinct us
        → (with_nick k (sort le us) ≡ with_nick k us) × AreDistinct (sort le us)
    unfolding sort
    with_nick-sort k [] h = (refl, tt)
    with_nick-sort k (u ∷ us) (p, h) =
        let (same, distinct) = with_nick-sort k us h in
        let apart = (with_nick-sort (key u) us h).0 ∙ p in
        (
          rw (with_nick-insert_sorted k u (sort le us) apart) (rw same refl),
          AreDistinct-insert_sorted u (sort le us) (apart, distinct),
        )

  IsKeyed-set : (u : User) (m : Dict User) → IsKeyed m → IsKeyed (set (key u) u m)
  unfolding set get
  IsKeyed-set u [] h = (refl, refl, tt)
  IsKeyed-set u ((j, v) ∷ m) (p, fresh, h) = elim (Bool-cases (str_eq j (key u))) [
    | inl same ↦ rw same (sym ((eq_iff j (key u)).0 same), fresh, h)
    | inr other ↦ rw other (
      p,
      ground (arith, get-set (key u) j u m, eq_iff j (key u), eq_iff (key u) j, fresh),
      IsKeyed-set u m h,
    )
  ]

  IsKeyed-delete : (k : String) (m : Dict User) → IsKeyed m → IsKeyed (delete k m)
  unfolding delete
  IsKeyed-delete k [] h = h
  IsKeyed-delete k ((j, v) ∷ m) (p, fresh, h) = elim (Bool-cases (str_eq j k)) [
    | inl gone ↦ rw gone (IsKeyed-delete k m h)
    | inr kept ↦ rw kept (p, ground (arith, get-delete k j m, fresh), IsKeyed-delete k m h)
  ]

  IsKeyed-set_users :
      (m : Dict User) (us : List User) → IsKeyed m → IsKeyed (set_users runtime m us)
  unfolding set_users
  IsKeyed-set_users m [] h = h
  IsKeyed-set_users m (u ∷ us) h = IsKeyed-set_users (set (key u) u m) us (IsKeyed-set u m h)

  if_some : (o : Option User) → (if is_some o then o else none) ≡ o
  if_some none = refl
  if_some (some u) = refl

  -- Where each user of a channel stands under its nick, sorting them keeps who is found under a nick, and
  -- the keys.
  pub sort_channel_users_lem :
      (k : String) (c : Chan)
      → IsKeyed c.users
      → (get k (sort_channel_users runtime c).users ≡ get k c.users)
        × IsKeyed (sort_channel_users runtime c).users
  unfolding sort_channel_users get
  sort_channel_users_lem k c h =
      let le = user_le runtime in
      let us = values c.users in
      let (same, distinct) = with_nick-sort le k us (AreDistinct-values c.users h) in
      (
        get-set_users k [] (sort le us) distinct
            ∙ (ap (λ o. if is_some o then o else none) (same ∙ with_nick-values k c.users h)
                ∙ if_some (get k c.users)),
        IsKeyed-set_users [] (sort le us) tt,
      )

  rename_in_channel_found :
      (old_nick new_nick : String) (user : User) (c : Chan)
      → get (runtime.lower old_nick) c.users ≡ some user
      → rename_in_channel runtime old_nick new_nick c
        ≡ sort_channel_users runtime (rename_user runtime old_nick new_nick (some user) c)
  unfolding rename_in_channel
  rename_in_channel_found old_nick new_nick user c found = rw found refl

  -- Where each user of a channel stands under its nick, a channel that had a user has it after a nick
  -- change under the new nick, with that nick and its modes, and not under the old one unless the two
  -- are one in lower case; under every other nick it has whom it had. The map stays keyed by nicks.
  pub rename_in_channel_lem :
      (old_nick new_nick k : String) (user : User) (c : Chan)
      → IsKeyed c.users
      → get (runtime.lower old_nick) c.users ≡ some user
      → (get k (rename_in_channel runtime old_nick new_nick c).users ≡ (
          if str_eq (runtime.lower new_nick) k
          then some (record user { nick = new_nick })
          else if str_eq (runtime.lower old_nick) k
          then none
          else get k c.users))
        × IsKeyed (rename_in_channel runtime old_nick new_nick c).users
  unfolding rename_in_channel rename_user
  rename_in_channel_lem old_nick new_nick k user c h found =
      let renamed = rename_user runtime old_nick new_nick (some user) c in
      let moved = record user { nick = new_nick } in
      let left = delete (runtime.lower old_nick) c.users in
      let keyed = IsKeyed-set moved left (IsKeyed-delete (runtime.lower old_nick) c.users h) in
      let (same, sorted) = sort_channel_users_lem k renamed keyed in
      rw (rename_in_channel_found old_nick new_nick user c found) (
        same
            ∙ get-set (runtime.lower new_nick) k moved left
            ∙ rw (get-delete (runtime.lower old_nick) k c.users) refl,
        sorted,
      )
