-- ===== src/Networks/Channels.antt =====
-- `addChannel` of server/models/network.ts, which gives the index, and `addChannelSorted` of
-- server/feWebClient/feWebAdapter.ts, which does not.
use thelounge.Common.{
  ℕ, ◌+◌, ◌≡◌, refl, ap, List, [], ◌∷◌, ◌++◌, take, drop, length, arith, Bool-cases, ◌≤◌,
  take_of_length-le, inl, ◌||◌, drop_of_length-le, inr, ◌∙◌,
}
use thelounge.Models.Chan.{Chan, is_channel, is_query}
use thelounge.FeWebAdapter.Network.{Runtime, add_channel_sorted, insert_channel, stops_before}
use thelounge.Networks.State.{Locale, breaks_at, index_from, splice_in, add_channel, channel_index}

abbrev pub locale_of : Runtime → Locale
locale_of runtime = record { lower = runtime.lower; base_le = runtime.base_le }

breaks_at_lem :
    (runtime : Runtime) (new_chan c : Chan)
    → breaks_at (locale_of runtime) new_chan c ≡ stops_before runtime new_chan c
unfolding breaks_at stops_before
breaks_at_lem runtime new_chan c = ground arith

index_from-add :
    (locale : Locale) (new_chan : Chan) (i : ℕ) (cs : List Chan)
    → index_from locale new_chan i cs ≡ i + index_from locale new_chan 0 cs
unfolding index_from
index_from-add locale new_chan i [] = omega arith
index_from-add locale new_chan i (c ∷ cs) =
    ground
      (arith, index_from-add locale new_chan (i + 1) cs, index_from-add locale new_chan (0 + 1) cs)

splice_in_later :
    (new_chan c : Chan) (cs : List Chan) (n : ℕ)
    → splice_in (1 + n) new_chan (c ∷ cs) ≡ c ∷ splice_in n new_chan cs
unfolding splice_in
splice_in_later new_chan c cs n = ground arith

splice_in_first : (new_chan : Chan) (cs : List Chan) → splice_in 0 new_chan cs ≡ new_chan ∷ cs
unfolding splice_in
splice_in_first new_chan cs = refl

splice_in-insert_channel :
    (runtime : Runtime) (new_chan : Chan) (cs : List Chan)
    → splice_in (index_from (locale_of runtime) new_chan 0 cs) new_chan cs
      ≡ insert_channel runtime new_chan cs
unfolding index_from insert_channel
splice_in-insert_channel runtime new_chan [] = splice_in_first new_chan []
splice_in-insert_channel runtime new_chan (c ∷ cs) =
    elim (Bool-cases (stops_before runtime new_chan c)) [
      | inl e ↦ rw (breaks_at_lem runtime new_chan c) (rw e (splice_in_first new_chan (c ∷ cs)))
      | inr e ↦ rw (breaks_at_lem runtime new_chan c) (
          rw e (
            rw (index_from-add (locale_of runtime) new_chan (0 + 1) cs) (
              splice_in_later new_chan c cs (index_from (locale_of runtime) new_chan 0 cs)
              ∙ ap (◌∷◌ c) (splice_in-insert_channel runtime new_chan cs))))
    ]

splice_in_last :
    (new_chan : Chan) (cs : List Chan) (n : ℕ)
    → length cs ≤ n
    → splice_in n new_chan cs ≡ cs ++ new_chan ∷ []
unfolding splice_in
splice_in_last new_chan cs n short =
    rw (take_of_length-le n cs short) (rw (drop_of_length-le n cs short) refl)

splice_in-channel_index :
    (runtime : Runtime) (new_chan : Chan) (cs : List Chan)
    → splice_in (channel_index (locale_of runtime) new_chan cs) new_chan cs
      ≡ add_channel_sorted runtime new_chan cs
unfolding channel_index add_channel_sorted
splice_in-channel_index runtime new_chan [] = splice_in_first new_chan []
splice_in-channel_index runtime new_chan (lobby ∷ cs) =
    elim (Bool-cases (is_channel new_chan.type || is_query new_chan.type)) [
      | inl e ↦ rw e (
          rw (index_from-add (locale_of runtime) new_chan 1 cs) (
            splice_in_later new_chan lobby cs (index_from (locale_of runtime) new_chan 0 cs)
            ∙ ap (◌∷◌ lobby) (splice_in-insert_channel runtime new_chan cs)))
      | inr e ↦ rw e (splice_in_last new_chan (lobby ∷ cs) (length cs + 1) (omega arith))
    ]

-- The channels after `addChannel` of a network are those that `addChannelSorted` of the adapter makes,
-- and the index is where the new one stands: before it are the first channels, behind it the others.
pub add_channel-sorted :
    (runtime : Runtime) (new_chan : Chan) (channels : List Chan)
    → ((add_channel (locale_of runtime) new_chan channels).0
        ≡ add_channel_sorted runtime new_chan channels)
      × (take (add_channel (locale_of runtime) new_chan channels).1 channels
            ++ new_chan ∷ drop (add_channel (locale_of runtime) new_chan channels).1 channels
          ≡ add_channel_sorted runtime new_chan channels)
unfolding add_channel splice_in
add_channel-sorted runtime new_chan channels = (
  splice_in-channel_index runtime new_chan channels,
  splice_in-channel_index runtime new_chan channels,
)
