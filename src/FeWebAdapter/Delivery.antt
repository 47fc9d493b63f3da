-- ===== src/FeWebAdapter/Delivery.antt =====
-- Where a message goes: handleMessage of server/feWebClient/feWebAdapter.ts.
use thelounge.Common.{
  ℕ, ◌≡◌, refl, ap, sym, String, Bool, true, ◌||◌, Option, none, some, List, [], ◌∷◌, find?,
  if◌then◌else◌, is_some, arith, inl, inr, Bool-cases, Option-cases, eq_iff, ◌==◌,
}
use thelounge.Common.Dict.{get, get-set_same}
use thelounge.Models.Chan.{Chan, is_channel, is_query}
use thelounge.FeWebAdapter.Network.{
  Runtime, NetworkData, is_named, find_channel, insert_channel, add_channel_sorted, query_channel,
}
use thelounge.FeWebAdapter.State.{
  FeWebAdapter, FeWebMessage, Moment, send_message, put_network, get_next_channel_id,
}
use thelounge.FeWebAdapter.Talk.{handle_message, add_channel}
use thelounge.FeWebAdapter.Tells.{told}

find-insert_channel :
    (runtime : Runtime) (p : Chan → Bool) (new_chan : Chan) (cs : List Chan)
    → p new_chan ≡ true
    → find? p cs ≡ none
    → find? p (insert_channel runtime new_chan cs) ≡ some new_chan
unfolding insert_channel
find-insert_channel runtime p new_chan [] h absent = rw h refl
find-insert_channel runtime p new_chan (c ∷ cs) h absent =
    ground (arith, h, absent, find-insert_channel runtime p new_chan cs h)

find-add_channel_sorted :
    (runtime : Runtime) (p : Chan → Bool) (new_chan : Chan) (cs : List Chan)
    → (is_channel new_chan.type || is_query new_chan.type) ≡ true
    → p new_chan ≡ true
    → find? p cs ≡ none
    → find? p (add_channel_sorted runtime new_chan cs) ≡ some new_chan
unfolding add_channel_sorted
find-add_channel_sorted runtime p new_chan [] listed h absent = rw h refl
find-add_channel_sorted runtime p new_chan (c ∷ cs) listed h absent =
    ground (arith, listed, h, absent, find-insert_channel runtime p new_chan cs h)

-- Where the adapter finds a name among the channels of a server.
abbrev pub found_in : Runtime → String → String → FeWebAdapter → Option Chan
found_in runtime tag name this = found (get tag this.server_tag_to_network)
  where
    found : Option NetworkData → Option Chan
    found none = none
    found (some network) = find_channel runtime name network.channels

abbrev pub id_of : Option Chan → List ℕ
id_of none = []
id_of (some channel) = channel.id ∷ []

found_in-add_channel :
    (runtime : Runtime) (channel : Chan) (network : NetworkData) (this : FeWebAdapter)
    (name : String)
    → (is_channel channel.type || is_query channel.type) ≡ true
    → is_named runtime name channel ≡ true
    → find_channel runtime name network.channels ≡ none
    → found_in runtime network.server_tag name (add_channel runtime channel network this)
      ≡ some channel
unfolding add_channel put_network find_channel
found_in-add_channel runtime channel network this name listed named absent =
    rw
      (get-set_same network.server_tag
        (record network { channels = add_channel_sorted runtime channel network.channels })
        this.server_tag_to_network)
      (find-add_channel_sorted runtime (is_named runtime name) channel network.channels listed named
        absent)

-- A message goes to the channel of its name, once: if there is one, or if its level is 2 or 128, for
-- which the code opens a query, the adapter finds the channel afterwards under that name; any other
-- message goes nowhere, one of level 8 included, which the protocol's documents have for private
-- messages. The network is the one that the adapter has under its tag.
pub handle_message_lem :
    (runtime : Runtime) (moment : Moment) (msg : FeWebMessage) (this : FeWebAdapter)
    (network : NetworkData)
    → get network.server_tag this.server_tag_to_network ≡ some network
    → told (handle_message runtime moment msg this network).1 ≡ (
        if is_some (find_channel runtime msg.channel network.channels)
          || (msg.level == 2 || msg.level == 128)
        then id_of (
            found_in runtime network.server_tag msg.channel
              (handle_message runtime moment msg this network).0)
        else [])
unfolding handle_message send_message query_channel is_named get_next_channel_id
handle_message_lem runtime moment msg this network filed =
    elim (Option-cases (find_channel runtime msg.channel network.channels)) [
      | inr (channel, found) ↦ rw found (rw filed (rw found refl))
      | inl absent ↦ rw absent (elim (Bool-cases (msg.level == 2 || msg.level == 128)) [
        | inl secret ↦ rw secret (
            sym (
              ap id_of (
                found_in-add_channel runtime (query_channel msg.channel this.channel_id_counter)
                  network (get_next_channel_id this).0 msg.channel refl
                  ((eq_iff (runtime.lower msg.channel) (runtime.lower msg.channel)).1 refl)
                  absent)))
        | inr open_to_all ↦ rw open_to_all refl
      ])
    ]
