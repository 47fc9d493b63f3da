-- ===== src/IrssiClient/Callbacks.antt =====
-- server/irssiClient.ts: what the adapter and the connection call. `handleMessage`,
-- `handleNetworkUpdate`, `handleChannelJoin`, `handleChannelPart`, `handleNicklistUpdate`,
-- `handleTopicUpdate`, `handleNickChange`, `handleQueryClosed` and the handler of `disconnected`.
use thelounge.Common.{
  ℕ, String, Bool, true, false, not, ◌&&◌, ◌||◌, Option, none, some, List, [], ◌∷◌, ◌++◌, find?,
  ◌==◌, str_eq, if◌then◌else◌, or_default, codes, is_some,
}
use thelounge.Models.Chan.{Chan, is_query}
use thelounge.Models.Chan.Messages.{Active, get_filtered_clone}
use thelounge.Models.Msg.{Msg, is_loggable}
use thelounge.Models.User.{User}
use thelounge.FeWebAdapter.Network.{Runtime, NetworkData, is_named, change_first}
use thelounge.FeWebAdapter.State.{FeWebMessage}
use thelounge.IrssiClient.State.{
  IrssiClient, Packet, Effect, broadcast_to_all_browsers, or_text, get_marker_key,
  is_channel_open_in_any_browser, find_network, find_by_tag, find_chan, shared_network,
}
use thelounge.IrssiClient.Markers.{mark_as_read}

-- `getMessageCount` of the message storage, none where it fails.
abbrev pub Counts : Type 0
Counts = String → String → Option ℕ

put_network : NetworkData → List NetworkData → List NetworkData
put_network network [] = network ∷ []
put_network network (n ∷ ns) =
    let rest = n ∷ put_network network ns in
    if str_eq n.uuid network.uuid then network ∷ ns else rest

unfoldable pub handle_network_update : NetworkData → IrssiClient → IrssiClient × List Effect
unfolding put_network broadcast_to_all_browsers
handle_network_update network this =
    let is_new = not (is_some (find_network network.uuid this.networks)) in
    (
      record this { networks = put_network network this.networks },
      (if is_new && network.connected
            then broadcast_to_all_browsers (Packet.new_network (shared_network network)) this
            else [])
          ++ broadcast_to_all_browsers (Packet.network_status network.uuid network.connected) this,
    )

-- `String.prototype.includes`
starts_with : List ℕ → List ℕ → Bool
starts_with [] text = true
starts_with (c ∷ cs) [] = false
starts_with (c ∷ cs) (d ∷ text) = c == d && starts_with cs text

unfoldable pub includes : List ℕ → List ℕ → Bool
unfolding starts_with
includes part [] = starts_with part []
includes part (d ∷ text) = starts_with part (d ∷ text) || includes part text

mentions : Runtime → Msg → Option NetworkData → Bool
unfolding includes
mentions runtime msg none = false
mentions runtime msg (some network) =
    not (str_eq msg.text "")
    && includes (codes (runtime.lower network.nick)) (codes (runtime.lower msg.text))

-- `a === b` on texts that may be null
unfoldable pub same_text : Option String → Option String → Bool
same_text none none = true
same_text (some a) (some b) = str_eq a b
same_text _ _ = false

chan_in : ℕ → Option NetworkData → Option Chan
unfolding find_chan
chan_in id none = none
chan_in id (some network) = find_chan id network.channels

-- Where network and channel are there: both; then what is done with them.
both : Option NetworkData → Option Chan → Option (NetworkData × Chan)
both (some network) (some channel) = some (network, channel)
both _ _ = none

unfoldable pub key_of : Runtime → Option (NetworkData × Chan) → Option String
key_of runtime none = none
key_of runtime (some (network, channel)) = some (get_marker_key runtime network.uuid channel.name)

unfoldable pub save_message : Msg → IrssiClient → Option (NetworkData × Chan) → List Effect
save_message msg this none = []
save_message msg this (some (network, channel)) =
    if this.has_storage && is_loggable msg
    then Effect.index network.uuid network.name channel.name msg ∷ []
    else []

unfoldable pub read_if :
    Runtime → ℕ → Bool → Option (NetworkData × Chan) → IrssiClient → IrssiClient × List Effect
unfolding mark_as_read
read_if runtime now wanted none this = (this, [])
read_if runtime now wanted (some (network, channel)) this =
    if wanted then mark_as_read runtime now network.uuid channel.name false this else (this, [])

-- Where a message arrives: its network and channel.
unfoldable pub place_of : String → ℕ → IrssiClient → Option (NetworkData × Chan)
unfolding both chan_in find_network
place_of uuid channel_id this =
    let network = find_network uuid this.networks in both network (chan_in channel_id network)

unfoldable pub is_highlight : Runtime → String → Msg → IrssiClient → Bool
unfolding mentions find_network
is_highlight runtime uuid msg this = mentions runtime msg (find_network uuid this.networks)

unfoldable pub is_channel_active_in_irssi : Runtime → String → ℕ → IrssiClient → Bool
unfolding same_text key_of
is_channel_active_in_irssi runtime uuid channel_id this =
    same_text (key_of runtime (place_of uuid channel_id this)) this.active_window_in_irssi

unfoldable pub handle_message :
    Runtime → ℕ → String → ℕ → Msg → IrssiClient → IrssiClient × List Effect
unfolding save_message read_if broadcast_to_all_browsers
handle_message runtime now uuid channel_id msg this =
    let place = place_of uuid channel_id this in
    let in_browser = is_channel_open_in_any_browser channel_id this in
    let in_irssi = is_channel_active_in_irssi runtime uuid channel_id this in
    let (read, reads) =
      read_if runtime now (in_browser && not in_irssi && not msg.self) place this in
    (
      read,
      save_message msg this place
          ++ broadcast_to_all_browsers
              (Packet.chan_msg channel_id msg
                (if msg.self || (in_browser || in_irssi) then 0 else 1)
                (if is_highlight runtime uuid msg this && not msg.self then 1 else 0))
              this
          ++ reads,
    )

unfoldable pub change_network : String → (NetworkData → NetworkData) → IrssiClient → IrssiClient
unfolding change_first
change_network uuid f this = record this {
  networks = change_first (λ n. str_eq n.uuid uuid) f this.networks;
}

-- The channel as it goes to the browsers, without messages and with their number in the storage.
joined : Counts → String → Bool → Chan → Chan
joined counts uuid has_storage channel = record channel {
  messages = [];
  total_messages_in_storage =
      if has_storage
      then some (or_default (counts uuid channel.name) 0)
      else channel.total_messages_in_storage;
}

-- The channel is an object of its network, so what changes in it changes there.
unfoldable pub handle_channel_join :
    Counts → String → Chan → IrssiClient → IrssiClient × List Effect
unfolding joined change_network broadcast_to_all_browsers
handle_channel_join counts uuid channel this =
    let chan = joined counts uuid this.has_storage channel in
    (
      change_network uuid
          (λ n. record n {
            channels = change_first (λ c. c.id == channel.id) (λ _. chan) n.channels;
          })
          this,
      broadcast_to_all_browsers
          (Packet.chan_join false chan.id uuid (get_filtered_clone Active.this_one 0 chan)) this,
    )

unfoldable pub handle_channel_part : ℕ → IrssiClient → IrssiClient × List Effect
unfolding broadcast_to_all_browsers
handle_channel_part id this = (this, broadcast_to_all_browsers (Packet.chan_part id) this)

unfoldable pub handle_nicklist_update : ℕ → List User → IrssiClient → IrssiClient × List Effect
unfolding broadcast_to_all_browsers
handle_nicklist_update id users this =
    (this, broadcast_to_all_browsers (Packet.chan_names id users) this)

unfoldable pub handle_topic_update : ℕ → String → IrssiClient → IrssiClient × List Effect
unfolding broadcast_to_all_browsers
handle_topic_update id topic this =
    (this, broadcast_to_all_browsers (Packet.chan_topic id topic) this)

unfoldable pub handle_nick_change : String → String → IrssiClient → IrssiClient × List Effect
unfolding broadcast_to_all_browsers
handle_nick_change uuid nick this =
    (this, broadcast_to_all_browsers (Packet.own_nick uuid nick) this)

-- `splice` of the channel that `find` gave.
unfoldable pub remove_first {ℓ} : {A : Type ℓ} → (A → Bool) → List A → List A
remove_first p [] = []
remove_first p (x ∷ xs) = let rest = x ∷ remove_first p xs in if p x then xs else rest

unfoldable pub close_found :
    (NetworkData → NetworkData) → String → Option Chan → IrssiClient → IrssiClient × List Effect
unfolding change_first broadcast_to_all_browsers
close_found removed server_tag none this = (this, [])
close_found removed server_tag (some query) this = (
  record this {
    networks = change_first (λ n. str_eq n.server_tag server_tag) removed this.networks;
  },
  broadcast_to_all_browsers (Packet.chan_part query.id) this,
)

unfoldable pub is_query_named : Runtime → String → Chan → Bool
unfolding is_named
is_query_named runtime nick c = is_query c.type && is_named runtime nick c

unfoldable pub queries_in : Runtime → String → Option NetworkData → Option Chan
unfolding is_query_named
queries_in runtime nick none = none
queries_in runtime nick (some network) = find? (is_query_named runtime nick) network.channels

unfoldable pub handle_query_closed :
    Runtime → FeWebMessage → IrssiClient → IrssiClient × List Effect
unfolding close_found is_query_named queries_in find_by_tag remove_first
handle_query_closed runtime msg this =
    let server_tag = or_text msg.server msg.server_tag in
    let removed = λ (n : NetworkData). record n {
      channels = remove_first (is_query_named runtime msg.nick) n.channels;
    } in
    if str_eq server_tag "" || str_eq msg.nick ""
    then (this, [])
    else close_found removed server_tag
        (queries_in runtime msg.nick (find_by_tag server_tag this.networks)) this

-- The handler of `disconnected`, less the adapter's own reset.
unfoldable pub disconnected : IrssiClient → IrssiClient × List Effect
unfolding broadcast_to_all_browsers
disconnected this = (
  record this { networks = []; last_active_channel = none },
  broadcast_to_all_browsers (Packet.irssi_status false) this
      ++ broadcast_to_all_browsers (Packet.networks_init [] none none) this,
)
