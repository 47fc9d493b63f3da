-- ===== src/IrssiClient/Markers.antt =====
-- server/irssiClient.ts: the unread markers. `handleActivityUpdate` and the answer of the storage that
-- it waits for, `markAsRead`, `handleMarkReadFromIrssi` and `open`.
use thelounge.Common.{
  ℕ, ◌+◌, String, Bool, true, false, not, ◌&&◌, ◌||◌, Option, none, some, List, [], ◌∷◌, ◌++◌,
  length, ◌==◌, str_eq, if◌then◌else◌, is_some,
}
use thelounge.Common.Dict.{get, set}
use thelounge.Models.Chan.{Chan}
use thelounge.FeWebAdapter.Network.{Runtime, NetworkData}
use thelounge.FeWebAdapter.State.{FeWebMessage}
use thelounge.IrssiClient.State.{
  UnreadMarker, IrssiClient, PendingCount, Packet, Effect, broadcast_to_all_browsers, or_text,
  get_marker_key, is_channel_open_in_any_browser, change_marker, set_marker, marker_of, find_target,
  find_named, find_by_uuid,
}

-- The marker that is made where the map has none.
new_marker : ℕ → NetworkData → Chan → UnreadMarker
new_marker now network channel = record {
  network = network.uuid;
  channel = channel.name;
  unread_count = 0;
  last_read_time = 0;
  last_message_time = now;
  data_level = 0;
}

-- `this.unreadMarkers.get(key) || {...}`: the place of the object. A new one is not yet in the map.
unfoldable pub marker_object : ℕ → NetworkData → Chan → Option ℕ → IrssiClient → IrssiClient × ℕ
unfolding new_marker
marker_object now network channel (some marker) this = (this, marker)
marker_object now network channel none this =
    (record this { heap = this.heap ++ new_marker now network channel ∷ [] }, length this.heap)

unfoldable pub activity : ℕ → ℕ → ℕ → Packet
activity chan level count = Packet.activity_update chan count (if level == 3 then count else 0)

is_text : Option String → String → Bool
is_text none text = false
is_text (some other) text = str_eq other text

-- The count that a marker shows, 0 where there is no such marker.
unfoldable pub unread_of : Option UnreadMarker → ℕ
unread_of none = 0
unread_of (some m) = m.unread_count

last_read_of : Option UnreadMarker → ℕ
last_read_of none = 0
last_read_of (some m) = m.last_read_time

-- Level 0: the user switched to this window in irssi.
unfoldable pub read_in_irssi : ℕ → String → ℕ → ℕ → IrssiClient → IrssiClient × List Effect
unfolding change_marker set_marker broadcast_to_all_browsers
read_in_irssi now key marker chan this =
    let cleared =
      change_marker marker
        (λ m. record m {
          data_level = 0;
          last_message_time = now;
          last_read_time = now;
          unread_count = 0;
        })
        this in
    let kept = set_marker key marker cleared in
    (
      record kept { active_window_in_irssi = some key },
      broadcast_to_all_browsers (Packet.activity_update chan 0 0) this,
    )

-- `marker.unreadCount++`, the map and the broadcast, where the storage gives no count.
unfoldable pub count_one_more : String → ℕ → ℕ → ℕ → IrssiClient → IrssiClient × List Effect
unfolding change_marker set_marker broadcast_to_all_browsers activity marker_of unread_of
count_one_more key marker chan level this =
    let counted = change_marker marker (λ m. record m { unread_count = m.unread_count + 1 }) this in
    let kept = set_marker key marker counted in
    (kept, broadcast_to_all_browsers (activity chan level (unread_of (marker_of key kept))) this)

unfoldable pub left_window : String → IrssiClient → IrssiClient
unfolding is_text
left_window key this = record this {
  active_window_in_irssi =
      if is_text this.active_window_in_irssi key then none else this.active_window_in_irssi;
}

-- A level above 0: the count comes from the storage, or is one more.
unfoldable pub new_activity :
    ℕ → ℕ → NetworkData → Chan → String → ℕ → IrssiClient → IrssiClient × List Effect
unfolding change_marker left_window count_one_more last_read_of
new_activity now level network channel key marker this =
    let marked =
      left_window key (
        change_marker marker (λ m. record m { data_level = level; last_message_time = now })
          this) in
    if this.has_storage
    then (
      marked,
      Effect.get_unread_count (record {
        marker = marker;
        key = key;
        network = network.uuid;
        channel = channel.name;
        since = last_read_of (marker_of key this);
        chan = channel.id;
        level = level;
      })
          ∷ [],
    )
    else count_one_more key marker channel.id level marked

unfoldable pub activity_in :
    Runtime → ℕ → ℕ → IrssiClient → Option (NetworkData × Chan) → IrssiClient × List Effect
unfolding marker_object read_in_irssi new_activity
activity_in runtime now level this none = (this, [])
activity_in runtime now level this (some (network, channel)) =
    let key = get_marker_key runtime network.uuid channel.name in
    let (held, marker) = marker_object now network channel (get key this.unread_markers) this in
    if is_channel_open_in_any_browser channel.id this
    then (this, [])
    else if level == 0
    then read_in_irssi now key marker channel.id held
    else new_activity now level network channel key marker held

unfoldable pub handle_activity_update :
    Runtime → ℕ → FeWebMessage → IrssiClient → IrssiClient × List Effect
unfolding activity_in
handle_activity_update runtime now msg this =
    let server_tag = or_text msg.server msg.server_tag in
    let channel_name = or_text msg.channel msg.target in
    if str_eq server_tag "" || str_eq channel_name ""
    then (this, [])
    else activity_in runtime now msg.level this
        (find_named runtime server_tag channel_name this.networks)

-- The answer of the storage: the count, or none where it failed.
unfoldable pub unread_counted : PendingCount → Option ℕ → IrssiClient → IrssiClient × List Effect
unfolding count_one_more activity broadcast_to_all_browsers change_marker set_marker
unread_counted pending none this =
    count_one_more pending.key pending.marker pending.chan pending.level this
unread_counted pending (some count) this = (
  set_marker pending.key pending.marker
      (change_marker pending.marker (λ m. record m { unread_count = count }) this),
  broadcast_to_all_browsers (activity pending.chan pending.level count) this,
)

-- The marker of `markAsRead`, if there is one, and its way to the storage.
unfoldable pub clear_marker :
    ℕ → String → String → String → Option ℕ → IrssiClient → IrssiClient × List Effect
unfolding change_marker set_marker
clear_marker now network channel key none this = (this, [])
clear_marker now network channel key (some marker) this = (
  set_marker key marker (
      change_marker marker
        (λ m. record m { data_level = 0; unread_count = 0; last_read_time = now }) this),
  (if this.has_storage then Effect.save_unread_marker network channel now ∷ [] else []),
)

unfoldable pub is_connected : Option Bool → Bool
is_connected none = false
is_connected (some connected) = connected

unfoldable pub tell_read : Bool → IrssiClient → Option (NetworkData × Chan) → List Effect
unfolding is_connected broadcast_to_all_browsers
tell_read from_irssi this none = []
tell_read from_irssi this (some (net, chan)) =
    broadcast_to_all_browsers (Packet.activity_update chan.id 0 0) this
    ++ (if is_connected this.irssi_connection && not from_irssi
        then Effect.mark_read net.server_tag chan.name ∷ []
        else [])

unfoldable pub mark_as_read :
    Runtime → ℕ → String → String → Bool → IrssiClient → IrssiClient × List Effect
unfolding clear_marker tell_read
mark_as_read runtime now network channel from_irssi this =
    let key = get_marker_key runtime network channel in
    let (cleared, saves) =
      clear_marker now network channel key (get key this.unread_markers) this in
    (
      record cleared {
        active_window_in_irssi = if from_irssi then some key else this.active_window_in_irssi;
      },
      saves ++ tell_read from_irssi this (find_by_uuid runtime network channel this.networks),
    )

unfoldable pub handle_mark_read_from_irssi :
    Runtime → ℕ → String → String → IrssiClient → IrssiClient × List Effect
unfolding mark_as_read
handle_mark_read_from_irssi runtime now uuid name this =
    mark_as_read runtime now uuid name true this

unfoldable pub read_target :
    Runtime → ℕ → Option (NetworkData × Chan) → IrssiClient → IrssiClient × List Effect
unfolding mark_as_read
read_target runtime now none this = (this, [])
read_target runtime now (some (network, channel)) this =
    mark_as_read runtime now network.uuid channel.name false this

unfoldable pub open_channel : Runtime → ℕ → String → ℕ → IrssiClient → IrssiClient × List Effect
unfolding read_target
open_channel runtime now socket_id channel_id this =
    let opened = record this {
      attached_browsers = set socket_id (some channel_id) this.attached_browsers;
    } in
    if is_some (get socket_id this.attached_browsers)
    then read_target runtime now (find_target channel_id this.networks) opened
    else (this, [])
