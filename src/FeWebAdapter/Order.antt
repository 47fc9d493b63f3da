-- ===== src/FeWebAdapter/Order.antt =====
-- The order of a network's channels: addChannelSorted of server/feWebClient/feWebAdapter.ts.
use mathlib.Core.List.{Perm}
use mathlib.Core.List.Perm
use thelounge.Common.{
  ℕ, ◌≡◌, refl, String, Bool, true, false, ◌||◌, List, [], ◌∷◌, All, arith, if◌then◌else◌, ltb,
  ◌==◌,
}
use thelounge.Common.Sort.{
  insert_sorted, IsSorted, insert_sorted-perm, All-insert_sorted, insert_sorted-IsSorted,
}
use thelounge.Models.Chan.{Chan, ChanType, is_channel, is_query, is_lobby}
use thelounge.FeWebAdapter.Network.{Runtime, insert_channel, add_channel_sorted, stops_before}

-- Channels come before queries.
abbrev pub rank : ChanType → ℕ
rank ChanType.channel = 0
rank ChanType.query = 1
rank _ = 2

-- The promised order: channels by name, then queries by name.
abbrev pub chan_le : Runtime → Chan → Chan → Bool
chan_le runtime a b =
    if rank a.type == rank b.type
    then runtime.base_le a.name b.name
    else ltb (rank a.type) (rank b.type)

abbrev pub IsListed : Chan → Type 0
IsListed c = (is_channel c.type || is_query c.type) ≡ true

-- A lobby, and after it channels and queries in order.
abbrev pub IsOrdered : Runtime → List Chan → Type 0
IsOrdered runtime [] = ⊥
IsOrdered runtime (lobby ∷ cs) =
    (is_lobby lobby.type ≡ true) × All IsListed cs × IsSorted (chan_le runtime) cs

-- A locale compares names as a total preorder.
abbrev pub IsPreorder : (String → String → Bool) → Type 0
IsPreorder le =
    ((a b : String) → le a b ≡ false → le b a ≡ true)
    × ((a b c : String) → le a b ≡ true → le b c ≡ true → le a c ≡ true)

module _ (runtime : Runtime) where
  stops_before-chan_le :
      (a b : Chan) → IsListed a → IsListed b → stops_before runtime a b ≡ chan_le runtime a b
  unfolding stops_before
  stops_before-chan_le a b p q = ground arith

  insert_channel-insert_sorted :
      (a : Chan) (cs : List Chan)
      → IsListed a
      → All IsListed cs
      → insert_channel runtime a cs ≡ insert_sorted (chan_le runtime) a cs
  unfolding insert_channel insert_sorted
  insert_channel-insert_sorted a [] p h = refl
  insert_channel-insert_sorted a (c ∷ cs) p (q, h) =
      rw (stops_before-chan_le a c p q, insert_channel-insert_sorted a cs p h) refl

  chan_le-total :
      IsPreorder runtime.base_le
      → (a b : Chan) → chan_le runtime a b ≡ false
      → chan_le runtime b a ≡ true
  chan_le-total (total, trans) a b h = ground (arith, total a.name b.name)

  chan_le_trans :
      IsPreorder runtime.base_le
      → (a b c : Chan) → chan_le runtime a b ≡ true
      → chan_le runtime b c ≡ true
      → chan_le runtime a c ≡ true
  chan_le_trans (total, trans) a b c h k = ground (arith, trans a.name b.name c.name)

  -- A channel or a query that is put into a network whose lobby comes first, then its channels by
  -- name, then its queries by name, leaves it in this order, and adds itself and nothing else; names
  -- are compared by the locale, which orders them totally.
  pub add_channel_sorted-IsOrdered :
      IsPreorder runtime.base_le
      → (new_chan : Chan) (channels : List Chan) → IsListed new_chan
      → IsOrdered runtime channels
      → IsOrdered runtime (add_channel_sorted runtime new_chan channels)
        × Perm (add_channel_sorted runtime new_chan channels) (new_chan ∷ channels)
  unfolding add_channel_sorted
  add_channel_sorted-IsOrdered locale new_chan [] p none_there = elim none_there [ ]
  add_channel_sorted-IsOrdered locale new_chan (lobby ∷ cs) p (first, listed, sorted) =
      let le = chan_le runtime in
      let at_end = insert_channel-insert_sorted new_chan cs p listed in
      rw p (
        rw at_end (
          (
            first,
            All-insert_sorted le IsListed new_chan cs p listed,
            insert_sorted-IsSorted le (chan_le-total locale) (chan_le_trans locale) new_chan cs
                sorted,
          ),
          Perm.trans (Perm.cons lobby (insert_sorted-perm le new_chan cs))
              (Perm.swap new_chan lobby cs),
        ))
