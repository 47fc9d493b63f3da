-- ===== src/FeWebAdapter/Talk.antt =====
-- server/feWebClient/feWebAdapter.ts: the handlers of what happens in a channel. Each one is given the
-- network of its message, which `Dispatch` finds first.
use thelounge.Common.{
  ℕ, ◌*◌, String, not, ◌&&◌, ◌||◌, Option, none, some, List, [], ◌∷◌, filter, str_eq, ◌==◌,
  if◌then◌else◌,
}
use thelounge.Models.Chan.{Chan}
use thelounge.Models.Msg.{Msg, MessageType, new_msg}
use thelounge.FeWebAdapter.Network.{
  Runtime, NetworkData, find_channel, change_channel, add_channel_sorted, joined_channel,
  query_channel,
}
use thelounge.FeWebAdapter.Users.{add_user_to_channel, remove_user_from_channel}
use thelounge.FeWebAdapter.State.{
  FeWebAdapter, FeWebMessage, Moment, Event, on_network_update, on_channel_join, on_channel_part,
  put_network, send_message, get_next_channel_id,
}

-- The channel goes into the network, and the network into the map.
unfoldable pub add_channel : Runtime → Chan → NetworkData → FeWebAdapter → FeWebAdapter
unfolding add_channel_sorted put_network
add_channel runtime channel network this =
    put_network (record network { channels = add_channel_sorted runtime channel network.channels })
      this

-- `new Msg({type, time, from})`
abbrev pub msg_from : MessageType → ℕ → String → Msg
msg_from type time nick = record (new_msg type time) { from = nick }

-- MSGLEVEL_MSGS is 2 (its comment says 8), MSGLEVEL_ACTIONS 128.
unfoldable pub received : Moment → FeWebMessage → Msg
received moment msg =
    record (msg_from (if msg.level == 128 then MessageType.action else MessageType.message)
      (if msg.timestamp == 0 then moment.now else msg.timestamp * 1000) msg.nick) {
        text = msg.text;
        self = msg.is_own;
        highlight = msg.is_highlight;
      }

unfoldable pub message_in :
    Runtime
    → Moment
    → FeWebMessage
    → FeWebAdapter
    → NetworkData
    → Option Chan
    → FeWebAdapter × List Event
unfolding add_channel received send_message get_next_channel_id query_channel
message_in runtime moment msg this network (some channel) =
    send_message network.uuid channel.id (received moment msg) this
message_in runtime moment msg this network none =
    if msg.level == 2 || msg.level == 128
    then (let (numbered, id) = get_next_channel_id this in
        let channel = query_channel msg.channel id in
        let added = add_channel runtime channel network numbered in
        send_message network.uuid channel.id (received moment msg) added)
    else (this, [])

unfoldable pub handle_message :
    Runtime → Moment → FeWebMessage → FeWebAdapter → NetworkData → FeWebAdapter × List Event
unfolding message_in
handle_message runtime moment msg this network =
    message_in runtime moment msg this network (find_channel runtime msg.channel network.channels)

unfoldable pub handle_server_status :
    FeWebMessage → FeWebAdapter → NetworkData → FeWebAdapter × List Event
unfolding put_network
handle_server_status msg this network =
    let changed = record network { connected = str_eq msg.text "connected" } in
    (put_network changed this, on_network_update changed ∷ [])

join_in :
    Runtime
    → Moment
    → FeWebMessage
    → FeWebAdapter
    → NetworkData
    → Option Chan
    → FeWebAdapter × List Event
unfolding add_channel send_message get_next_channel_id joined_channel add_user_to_channel
    change_channel put_network
join_in runtime moment msg this network none =
    let (numbered, id) = get_next_channel_id this in
    let nick = if str_eq network.nick "" then msg.nick else network.nick in
    let channel = joined_channel msg.channel id in
    (
      add_channel runtime channel (record network { nick = nick }) numbered,
      on_channel_join network.uuid channel ∷ [],
    )
join_in runtime moment msg this network (some channel) =
    if not (str_eq msg.nick "") && not (str_eq msg.nick network.nick)
    then (let changed =
          change_channel runtime msg.channel (add_user_to_channel runtime msg.nick) network in
        let join_msg = record (msg_from MessageType.join moment.now msg.nick) {
          hostmask = msg.extra.hostname;
        } in
        send_message network.uuid channel.id join_msg (put_network changed this))
    else (this, [])

unfoldable pub handle_channel_join :
    Runtime → Moment → FeWebMessage → FeWebAdapter → NetworkData → FeWebAdapter × List Event
unfolding join_in
handle_channel_join runtime moment msg this network =
    join_in runtime moment msg this network (find_channel runtime msg.channel network.channels)

-- `network.channels.filter((c) => c.id !== channel.id)`
unfoldable pub without_channel : ℕ → NetworkData → NetworkData
without_channel id network = record network {
  channels = filter (λ c. not (c.id == id)) network.channels;
}

unfoldable pub remove_in : Runtime → String → Chan → Chan
unfolding remove_user_from_channel
remove_in runtime nick channel = (remove_user_from_channel runtime nick channel).0

part_in :
    Runtime
    → Moment
    → FeWebMessage
    → FeWebAdapter
    → NetworkData
    → Option Chan
    → FeWebAdapter × List Event
unfolding without_channel remove_in change_channel put_network send_message
part_in runtime moment msg this network none = (this, [])
part_in runtime moment msg this network (some channel) =
    if str_eq msg.nick network.nick
    then (
      put_network (without_channel channel.id network) this,
      on_channel_part network.uuid channel.id ∷ [],
    )
    else (let changed = change_channel runtime msg.channel (remove_in runtime msg.nick) network in
        let part_msg = record (msg_from MessageType.part moment.now msg.nick) {
          text = msg.text;
          hostmask = msg.extra.hostname;
        } in
        send_message network.uuid channel.id part_msg (put_network changed this))

unfoldable pub handle_channel_part :
    Runtime → Moment → FeWebMessage → FeWebAdapter → NetworkData → FeWebAdapter × List Event
unfolding part_in
handle_channel_part runtime moment msg this network =
    part_in runtime moment msg this network (find_channel runtime msg.channel network.channels)

kick_in :
    Runtime
    → Moment
    → FeWebMessage
    → FeWebAdapter
    → NetworkData
    → Option Chan
    → FeWebAdapter × List Event
unfolding without_channel remove_in change_channel put_network send_message
kick_in runtime moment msg this network none = (this, [])
kick_in runtime moment msg this network (some channel) =
    let kicker = if str_eq msg.extra.kicker "" then "Server" else msg.extra.kicker in
    let kick_msg = record (msg_from MessageType.kick moment.now kicker) {
      target = msg.nick;
      text = msg.text;
    } in
    let removed = put_network (without_channel channel.id network) this in
    let changed = change_channel runtime msg.channel (remove_in runtime msg.nick) network in
    if str_eq msg.nick network.nick
    then (let (sent, events) = send_message network.uuid channel.id kick_msg removed in
        (sent, on_channel_part network.uuid channel.id ∷ events))
    else send_message network.uuid channel.id kick_msg (put_network changed this)

unfoldable pub handle_channel_kick :
    Runtime → Moment → FeWebMessage → FeWebAdapter → NetworkData → FeWebAdapter × List Event
unfolding kick_in
handle_channel_kick runtime moment msg this network =
    kick_in runtime moment msg this network (find_channel runtime msg.channel network.channels)
