-- ===== src/FeWebAdapter/NickChange.antt =====
-- server/feWebClient/feWebAdapter.ts: nick changes.
use thelounge.Common.{ℕ, ◌+◌, String, Bool, ◌||◌, List, [], ◌∷◌, ◌++◌, str_eq, if◌then◌else◌}
use thelounge.Common.Dict.{values, has}
use thelounge.Models.Chan.{Chan}
use thelounge.Models.Msg.{Msg, MessageType}
use thelounge.FeWebAdapter.Network.{Runtime, NetworkData}
use thelounge.FeWebAdapter.Users.{rename_in_channel}
use thelounge.FeWebAdapter.State.{
  FeWebAdapter, FeWebMessage, Moment, Event, on_message, on_nicklist_update, on_nick_change,
  put_network,
}
use thelounge.FeWebAdapter.Talk.{msg_from}

unfoldable pub is_self : String → String → NetworkData → Bool
is_self old_nick new_nick network = str_eq network.nick old_nick || str_eq network.nick new_nick

unfoldable pub with_own_nick : String → String → NetworkData → NetworkData
unfolding is_self
with_own_nick old_nick new_nick network =
    if is_self old_nick new_nick network then record network { nick = new_nick } else network

unfoldable pub own_nick_event : String → String → NetworkData → List Event
unfolding is_self
own_nick_event old_nick new_nick network =
    if is_self old_nick new_nick network then on_nick_change network.uuid new_nick ∷ [] else []

-- The loop of `handleNickChange`, from the next message id on.
unfoldable pub nick_channels :
    Runtime → String → String → String → Msg → ℕ → List Chan → List Chan × ℕ × List Event
unfolding rename_in_channel
nick_channels runtime uuid old_nick new_nick nick_msg id [] = ([], id, [])
nick_channels runtime uuid old_nick new_nick nick_msg id (c ∷ cs) =
    let is_there = has (runtime.lower old_nick) c.users in
    let renamed = rename_in_channel runtime old_nick new_nick c in
    let next = if is_there then id + 1 else id in
    let (rest, last, events) = nick_channels runtime uuid old_nick new_nick nick_msg next cs in
    (
      renamed ∷ rest,
      last,
      (if is_there
          then on_message uuid c.id (record nick_msg { id = id })
            ∷ on_nicklist_update uuid c.id (values renamed.users)
            ∷ events
          else events),
    )

unfoldable pub handle_nick_change :
    Runtime → Moment → FeWebMessage → FeWebAdapter → NetworkData → FeWebAdapter × List Event
unfolding with_own_nick own_nick_event nick_channels put_network
handle_nick_change runtime moment msg this network =
    let nick_msg = record (msg_from MessageType.nick moment.now msg.nick) {
      new_nick = msg.text;
      self = is_self msg.nick msg.text network;
    } in
    let (channels, next, events) =
      nick_channels runtime network.uuid msg.nick msg.text nick_msg this.message_id_counter
        network.channels in
    (
      put_network (record (with_own_nick msg.nick msg.text network) { channels = channels })
          (record this { message_id_counter = next }),
      own_nick_event msg.nick msg.text network ++ events,
    )
