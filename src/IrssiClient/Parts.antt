-- ===== src/IrssiClient/Parts.antt =====
-- Closing a channel from several browsers, in server/irssiClient.ts.
use thelounge.Common.{
  ℕ, ◌≡◌, refl, String, Bool, true, false, none, some, List, [], ◌∷◌, All, find?, arith, str_eq,
  ◌==◌, Bool-cases, inl, inr, Option-cases, eq_iff, ==_iff, subst, sym,
}
use thelounge.Models.Chan.{Chan}
use thelounge.FeWebAdapter.Network.{NetworkData, change_first}
use thelounge.IrssiClient.State.{IrssiClient, find_network, find_chan}
use thelounge.IrssiClient.Callbacks.{remove_first, change_network}
use thelounge.IrssiClient.Commands.{handle_part_channel, part_of, part_found}

-- No two channels of a list have one id.
abbrev pub AreApart : List Chan → Type 0
AreApart [] = Unit
AreApart (c ∷ cs) = All (λ (d : Chan). (d.id == c.id) ≡ false) cs × AreApart cs

find?-absent :
    (id other : ℕ) (cs : List Chan)
    → (id == other) ≡ true
    → All (λ (d : Chan). (d.id == id) ≡ false) cs
    → find? (λ (d : Chan). d.id == other) cs ≡ none
find?-absent id other [] e h = refl
find?-absent id other (c ∷ cs) e (h, hs) = ground (arith, h, e, find?-absent id other cs e hs)

find?-remove_first :
    (id : ℕ) (cs : List Chan)
    → AreApart cs
    → find? (λ (d : Chan). d.id == id) (remove_first (λ (d : Chan). d.id == id) cs) ≡ none
unfolding remove_first
find?-remove_first id [] h = refl
find?-remove_first id (c ∷ cs) (h, hs) = elim (Bool-cases (c.id == id)) [
  | inl e ↦ rw e (find?-absent c.id id cs e h)
  | inr e ↦ rw e (rw e (find?-remove_first id cs hs))
]

module _ (p : NetworkData → Bool) (f : NetworkData → NetworkData)
    (same : (n : NetworkData) → p (f n) ≡ p n) where
  find?-change_first :
      (ns : List NetworkData) (network : NetworkData)
      → find? p ns ≡ some network
      → find? p (change_first p f ns) ≡ some (f network)
  unfolding change_first
  find?-change_first [] network e = cc
  find?-change_first (n ∷ ns) network e = ground (arith, same n, e, find?-change_first ns network)

find?-holds {ℓ} :
    {A : Type ℓ} (p : A → Bool) (xs : List A) (a : A) → find? p xs ≡ some a → p a ≡ true
find?-holds p [] a e = cc
find?-holds p (x ∷ xs) a e = ground (arith, e, find?-holds p xs a)

-- The channel is closed in the network of its UUID.
abbrev closed : ℕ → NetworkData → NetworkData
closed id n = record n { channels = remove_first (λ (c : Chan). c.id == id) n.channels }

part_none :
    (uuid : String) (id : ℕ) (this : IrssiClient) (network : NetworkData)
    → find_network uuid this.networks ≡ some network
    → find_chan id network.channels ≡ none
    → handle_part_channel uuid id this ≡ (this, [])
unfolding handle_part_channel part_of part_found
part_none uuid id this network n c = simp (n, c) refl

part_some :
    (uuid : String) (id : ℕ) (this : IrssiClient) (network : NetworkData) (chan : Chan)
    → find_network uuid this.networks ≡ some network
    → find_chan id network.channels ≡ some chan
    → (handle_part_channel uuid id this).0 ≡ record this {
      networks =
          change_first
            (λ (n : NetworkData). str_eq n.uuid network.uuid)
            (closed chan.id)
            this.networks;
    }
unfolding handle_part_channel part_of part_found change_network
part_some uuid id this network chan n c = simp (n, c) refl

part_some-network :
    (uuid : String) (id : ℕ) (this : IrssiClient) (network : NetworkData) (chan : Chan)
    → find_network uuid this.networks ≡ some network
    → find_chan id network.channels ≡ some chan
    → find_network uuid (handle_part_channel uuid id this).0.networks ≡ some (closed id network)
unfolding find_network find_chan
part_some-network uuid id this network chan n c =
    let same_uuid : network.uuid ≡ uuid =
      (eq_iff network.uuid uuid).0
        (find?-holds (λ (m : NetworkData). str_eq m.uuid uuid) this.networks network n) in
    let same_id : chan.id ≡ id =
      (==_iff chan.id id).0 (find?-holds (λ (d : Chan). d.id == id) network.channels chan c) in
    rw (part_some uuid id this network chan n c) (
      subst
        (λ v.
          find? (λ (m : NetworkData). str_eq m.uuid uuid)
            (change_first (λ (m : NetworkData). str_eq m.uuid v) (closed chan.id) this.networks)
          ≡ some (closed id network))
        (sym same_uuid)
        (subst
          (λ k.
            find? (λ (m : NetworkData). str_eq m.uuid uuid)
              (change_first (λ (m : NetworkData). str_eq m.uuid uuid) (closed k) this.networks)
            ≡ some (closed id network))
          (sym same_id)
          (find?-change_first (λ (m : NetworkData). str_eq m.uuid uuid) (closed id) (λ m. refl)
            this.networks network n)))

-- Closing a channel again does nothing: the first request has taken it from its network, and a
-- second one, from whichever browser, changes nothing and sends nothing. No two channels of the
-- network have one id.
pub handle_part_channel-again :
    (uuid : String) (id : ℕ) (this : IrssiClient) (network : NetworkData)
    → find_network uuid this.networks ≡ some network
    → AreApart network.channels
    → handle_part_channel uuid id (handle_part_channel uuid id this).0
      ≡ ((handle_part_channel uuid id this).0, [])
unfolding find_chan
handle_part_channel-again uuid id this network n apart =
    elim (Option-cases (find_chan id network.channels)) [
      | inl absent ↦
          let first : handle_part_channel uuid id this ≡ (this, []) =
            part_none uuid id this network n absent in
          rw first first
      | inr (chan, found) ↦
          part_none uuid id (handle_part_channel uuid id this).0 (closed id network)
            (part_some-network uuid id this network chan n found)
            (find?-remove_first id network.channels apart)
    ]
