-- ===== src/FeWebAdapter/Notices.antt =====
-- server/feWebClient/feWebAdapter.ts: the handlers of quits, topics, modes, away marks and answers.
use Prim.Native.String.{◌++◌ as append}
use thelounge.Common.{
  ℕ, ◌+◌, String, true, Option, none, some, List, [], ◌∷◌, map, find?, if◌then◌else◌,
}
use thelounge.Common.Dict.{get, set}
use thelounge.Models.Chan.{Chan, is_lobby}
use thelounge.Models.Msg.{Msg, MessageType, Whois, new_msg}
use thelounge.Models.User.{User}
use thelounge.FeWebAdapter.Network.{Runtime, NetworkData, find_channel, change_channel}
use thelounge.FeWebAdapter.Users.{remove_user_from_channel}
use thelounge.FeWebAdapter.State.{
  FeWebAdapter, FeWebMessage, Moment, Event, on_message, on_topic_update, put_network, send_message,
}
use thelounge.FeWebAdapter.Talk.{msg_from}

-- The loop of `handleUserQuit`, from the next message id on.
unfoldable pub quit_channels :
    Runtime → String → String → Msg → ℕ → List Chan → List Chan × ℕ × List Event
unfolding remove_user_from_channel
quit_channels runtime uuid nick quit_msg id [] = ([], id, [])
quit_channels runtime uuid nick quit_msg id (c ∷ cs) =
    let (removed, was_there) = remove_user_from_channel runtime nick c in
    let next = if was_there then id + 1 else id in
    let (rest, last, events) = quit_channels runtime uuid nick quit_msg next cs in
    (
      removed ∷ rest,
      last,
      (if was_there then on_message uuid c.id (record quit_msg { id = id }) ∷ events else events),
    )

unfoldable pub handle_user_quit :
    Runtime → Moment → FeWebMessage → FeWebAdapter → NetworkData → FeWebAdapter × List Event
unfolding quit_channels put_network
handle_user_quit runtime moment msg this network =
    let quit_msg = record (msg_from MessageType.quit moment.now msg.nick) {
      text = msg.text;
      hostmask = msg.extra.hostname;
    } in
    let (channels, next, events) =
      quit_channels runtime network.uuid msg.nick quit_msg this.message_id_counter
        network.channels in
    (
      put_network (record network { channels = channels })
          (record this { message_id_counter = next }),
      events,
    )

topic_in :
    Runtime
    → Moment
    → FeWebMessage
    → FeWebAdapter
    → NetworkData
    → Option Chan
    → FeWebAdapter × List Event
unfolding change_channel put_network send_message
topic_in runtime moment msg this network none = (this, [])
topic_in runtime moment msg this network (some channel) =
    let changed = change_channel runtime msg.channel (λ c. record c { topic = msg.text }) network in
    let topic_msg = record (msg_from MessageType.topic moment.now msg.nick) { text = msg.text } in
    let (sent, events) =
      send_message network.uuid channel.id topic_msg (put_network changed this) in
    (sent, on_topic_update network.uuid channel.id msg.text ∷ events)

unfoldable pub handle_topic :
    Runtime → Moment → FeWebMessage → FeWebAdapter → NetworkData → FeWebAdapter × List Event
unfolding topic_in
handle_topic runtime moment msg this network =
    topic_in runtime moment msg this network (find_channel runtime msg.channel network.channels)

-- `params.join(" ")` after a space, or nothing where there are none.
params_text : List String → String
params_text [] = ""
params_text (p ∷ ps) = append " " (append p (params_text ps))

-- A message about the channel of `msg`, or nothing where there is no such channel.
tell_channel : FeWebAdapter → NetworkData → Msg → Option Chan → FeWebAdapter × List Event
unfolding send_message
tell_channel this network m none = (this, [])
tell_channel this network m (some channel) = send_message network.uuid channel.id m this

unfoldable pub handle_channel_mode :
    Runtime → Moment → FeWebMessage → FeWebAdapter → NetworkData → FeWebAdapter × List Event
unfolding tell_channel params_text
handle_channel_mode runtime moment msg this network =
    let mode_msg = record (msg_from MessageType.mode_channel moment.now msg.nick) {
      text = append msg.extra.mode (params_text msg.extra.params);
    } in
    tell_channel this network mode_msg (find_channel runtime msg.channel network.channels)

find_lobby : List Chan → Option Chan
find_lobby channels = find? (λ c. is_lobby c.type) channels

unfoldable pub handle_user_mode :
    Moment → FeWebMessage → FeWebAdapter → NetworkData → FeWebAdapter × List Event
unfolding tell_channel find_lobby
handle_user_mode moment msg this network =
    let mode_msg = record (msg_from MessageType.mode moment.now network.nick) {
      text = msg.text;
      self = true;
    } in
    tell_channel this network mode_msg (find_lobby network.channels)

away_in : Runtime → String → String → Chan → Option User → Chan
away_in runtime nick away channel none = channel
away_in runtime nick away channel (some user) = record channel {
  users = set (runtime.lower nick) (record user { away = away }) channel.users;
}

unfoldable pub handle_away :
    Runtime → FeWebMessage → FeWebAdapter → NetworkData → FeWebAdapter × List Event
unfolding away_in put_network
handle_away runtime msg this network =
    let mark : Chan → Chan =
      λ c. away_in runtime msg.nick msg.text c (get (runtime.lower msg.nick) c.users) in
    (put_network (record network { channels = map mark network.channels }) this, [])

unfoldable pub handle_whois :
    Moment → FeWebMessage → FeWebAdapter → NetworkData → FeWebAdapter × List Event
unfolding tell_channel find_lobby
handle_whois moment msg this network =
    let whois : Whois = record {
      nick = msg.nick;
      ident = msg.extra.user;
      hostname = msg.extra.host;
      real_name = msg.extra.realname;
      channels = msg.extra.channels;
      server = msg.extra.server;
      account = msg.extra.account;
    } in
    let whois_msg = record (new_msg MessageType.whois moment.now) { whois = some whois } in
    tell_channel this network whois_msg (find_lobby network.channels)

unfoldable pub handle_channel_list :
    Runtime → Moment → FeWebMessage → FeWebAdapter → NetworkData → FeWebAdapter × List Event
unfolding tell_channel
handle_channel_list runtime moment msg this network =
    let list_msg = record (new_msg MessageType.mode_channel moment.now) {
      text = append msg.extra.list_type (append " list: " msg.extra.entries);
    } in
    tell_channel this network list_msg (find_channel runtime msg.channel network.channels)
