-- ===== src/FeWebAdapter/Quiet/Handlers.antt =====
-- Every handler of server/feWebClient/feWebAdapter.ts is quiet.
use thelounge.Common.{
  ℕ, ◌+◌, ◌≡◌, refl, String, Option, none, some, List, [], ◌∷◌, ◌++◌, arith, inl, inr, Bool-cases,
  map, str_eq,
}
use thelounge.Common.Dict.{has}
use thelounge.Models.Chan.{Chan}
use thelounge.Models.Msg.{Msg, MessageType}
use thelounge.FeWebAdapter.Network.{Runtime, NetworkData, find_channel}
use thelounge.FeWebAdapter.Users.{remove_user_from_channel, rename_in_channel}
use thelounge.FeWebAdapter.State.{
  FeWebAdapter, Event, FeWebMessage, Moment, send_message, put_network, get_next_channel_id,
}
use thelounge.FeWebAdapter.Quiet.{IsNumbered, IsQuiet, inits}
use thelounge.FeWebAdapter.Talk.{
  handle_message, handle_server_status, handle_channel_join, handle_channel_part,
  handle_channel_kick,
}
use thelounge.FeWebAdapter.Notices.{
  handle_topic, handle_channel_mode, handle_user_mode, handle_away, handle_whois,
  handle_channel_list, quit_channels, handle_user_quit,
}
use thelounge.FeWebAdapter.Talk.{msg_from}
use thelounge.FeWebAdapter.Nicklist.{
  Task, add_mode, remove_mode, task_of, run_task, change_task, updates_of, mode_change_in,
  handle_nicklist, handle_nicklist_update,
}
use thelounge.FeWebAdapter.NickChange.{own_nick_event, is_self, nick_channels, handle_nick_change}
use thelounge.FeWebAdapter.Lifecycle.{handle_state_dump, handle_query_opened, handle_query_closed}

module _ (runtime : Runtime) (moment : Moment) (msg : FeWebMessage) (this : FeWebAdapter)
    (network : NetworkData) where
  pub handle_message-IsQuiet : IsQuiet this (handle_message runtime moment msg this network)
  unfolding handle_message put_network send_message get_next_channel_id
  handle_message-IsQuiet = ground arith

  pub handle_server_status-IsQuiet : IsQuiet this (handle_server_status msg this network)
  unfolding handle_server_status put_network send_message get_next_channel_id
  handle_server_status-IsQuiet = ground arith

  pub handle_channel_join-IsQuiet :
      IsQuiet this (handle_channel_join runtime moment msg this network)
  unfolding handle_channel_join put_network send_message get_next_channel_id
  handle_channel_join-IsQuiet = ground arith

  pub handle_channel_part-IsQuiet :
      IsQuiet this (handle_channel_part runtime moment msg this network)
  unfolding handle_channel_part put_network send_message get_next_channel_id
  handle_channel_part-IsQuiet = ground arith

  pub handle_channel_kick-IsQuiet :
      IsQuiet this (handle_channel_kick runtime moment msg this network)
  unfolding handle_channel_kick put_network send_message get_next_channel_id
  handle_channel_kick-IsQuiet = ground arith

  pub handle_topic-IsQuiet : IsQuiet this (handle_topic runtime moment msg this network)
  unfolding handle_topic put_network send_message get_next_channel_id
  handle_topic-IsQuiet = ground arith

  pub handle_channel_mode-IsQuiet :
      IsQuiet this (handle_channel_mode runtime moment msg this network)
  unfolding handle_channel_mode put_network send_message get_next_channel_id
  handle_channel_mode-IsQuiet = ground arith

  pub handle_user_mode-IsQuiet : IsQuiet this (handle_user_mode moment msg this network)
  unfolding handle_user_mode put_network send_message get_next_channel_id
  handle_user_mode-IsQuiet = ground arith

  pub handle_away-IsQuiet : IsQuiet this (handle_away runtime msg this network)
  unfolding handle_away put_network send_message get_next_channel_id
  handle_away-IsQuiet = ground arith

  pub handle_whois-IsQuiet : IsQuiet this (handle_whois moment msg this network)
  unfolding handle_whois put_network send_message get_next_channel_id
  handle_whois-IsQuiet = ground arith

  pub handle_channel_list-IsQuiet :
      IsQuiet this (handle_channel_list runtime moment msg this network)
  unfolding handle_channel_list put_network send_message get_next_channel_id
  handle_channel_list-IsQuiet = ground arith

  pub handle_nicklist-IsQuiet : IsQuiet this (handle_nicklist runtime msg this network)
  unfolding handle_nicklist put_network send_message get_next_channel_id
  handle_nicklist-IsQuiet = ground arith

  pub handle_state_dump-IsQuiet : IsQuiet this (handle_state_dump moment msg this network)
  unfolding handle_state_dump put_network send_message get_next_channel_id
  handle_state_dump-IsQuiet = ground arith

  pub handle_query_opened-IsQuiet : IsQuiet this (handle_query_opened runtime msg this network)
  unfolding handle_query_opened put_network send_message get_next_channel_id
  handle_query_opened-IsQuiet = ground arith

  pub handle_query_closed-IsQuiet : IsQuiet this (handle_query_closed runtime msg this network)
  unfolding handle_query_closed put_network send_message get_next_channel_id
  handle_query_closed-IsQuiet = ground arith

  quit_channels-IsNumbered :
      (uuid nick : String) (m : Msg) (id : ℕ) (cs : List Chan)
      → IsNumbered id
          (quit_channels runtime uuid nick m id cs).2
          (quit_channels runtime uuid nick m id cs).1
        × (inits (quit_channels runtime uuid nick m id cs).2 ≡ 0)
  unfolding quit_channels remove_user_from_channel
  quit_channels-IsNumbered uuid nick m id [] = (refl, refl)
  quit_channels-IsNumbered uuid nick m id (c ∷ cs) =
      elim (Bool-cases (has (runtime.lower nick) c.users)) [
        | inl there ↦ rw there (
          (refl, (quit_channels-IsNumbered uuid nick m (id + 1) cs).0),
          (quit_channels-IsNumbered uuid nick m (id + 1) cs).1,
        )
        | inr absent ↦ rw absent (quit_channels-IsNumbered uuid nick m id cs)
      ]

  pub handle_user_quit-IsQuiet : IsQuiet this (handle_user_quit runtime moment msg this network)
  unfolding handle_user_quit put_network
  handle_user_quit-IsQuiet =
      let quit_msg : Msg = record (msg_from MessageType.quit moment.now msg.nick) {
        text = msg.text;
        hostmask = msg.extra.hostname;
      } in
      let (numbered, none_init) =
        quit_channels-IsNumbered network.uuid msg.nick quit_msg this.message_id_counter
          network.channels in
      (numbered, refl, refl, none_init)

  updates_of-lem :
      (uuid nick : String) (id : ℕ) (cs : List Chan)
      → IsNumbered id (updates_of runtime uuid nick cs) id
        × (inits (updates_of runtime uuid nick cs) ≡ 0)
  unfolding updates_of
  updates_of-lem uuid nick id [] = (refl, refl)
  updates_of-lem uuid nick id (c ∷ cs) = ground (arith, updates_of-lem uuid nick id cs)

  own_nick_event-append :
      (old_nick new_nick : String) (id to : ℕ) (es : List Event)
      → IsNumbered id es to
      → inits es ≡ 0
      → IsNumbered id (own_nick_event old_nick new_nick network ++ es) to
        × (inits (own_nick_event old_nick new_nick network ++ es) ≡ 0)
  unfolding own_nick_event
  own_nick_event-append old_nick new_nick id to es h k =
      elim (Bool-cases (is_self old_nick new_nick network)) [
        | inl own ↦ rw own (h, k)
        | inr other ↦ rw other (h, k)
      ]

  change_task-IsQuiet : IsQuiet this (change_task runtime msg this network)
  unfolding change_task put_network own_nick_event
  change_task-IsQuiet =
      let channels = map (rename_in_channel runtime msg.nick msg.extra.new_nick) network.channels in
      let updates =
        updates_of-lem network.uuid msg.extra.new_nick this.message_id_counter channels in
      let (numbered, none_init) =
        own_nick_event-append msg.nick msg.extra.new_nick this.message_id_counter _ _ updates.0
          updates.1 in
      elim (Bool-cases (str_eq msg.extra.new_nick "")) [
        | inl missing ↦ rw missing (refl, refl, refl, refl)
        | inr given ↦ rw given (numbered, refl, refl, none_init)
      ]

  run_task-IsQuiet :
      (task : Task) (found : Option Chan)
      → IsQuiet this (run_task runtime msg task this network found)
  unfolding run_task put_network mode_change_in
  run_task-IsQuiet task none = (refl, refl, refl, refl)
  run_task-IsQuiet Task.add (some c) = (refl, refl, refl, refl)
  run_task-IsQuiet Task.remove (some c) = (refl, refl, refl, refl)
  run_task-IsQuiet Task.change (some c) = change_task-IsQuiet
  run_task-IsQuiet (add_mode m) (some c) = ground arith
  run_task-IsQuiet (remove_mode m) (some c) = ground arith
  run_task-IsQuiet Task.unknown (some c) = (refl, refl, refl, refl)

  pub handle_nicklist_update-IsQuiet :
      IsQuiet this (handle_nicklist_update runtime msg this network)
  unfolding handle_nicklist_update
  handle_nicklist_update-IsQuiet =
      run_task-IsQuiet (task_of msg.task) (find_channel runtime msg.channel network.channels)

  nick_channels-IsNumbered :
      (uuid old_nick new_nick : String) (m : Msg) (id : ℕ) (cs : List Chan)
      → IsNumbered id
          (nick_channels runtime uuid old_nick new_nick m id cs).2
          (nick_channels runtime uuid old_nick new_nick m id cs).1
        × (inits (nick_channels runtime uuid old_nick new_nick m id cs).2 ≡ 0)
  unfolding nick_channels
  nick_channels-IsNumbered uuid old_nick new_nick m id [] = (refl, refl)
  nick_channels-IsNumbered uuid old_nick new_nick m id (c ∷ cs) =
      elim (Bool-cases (has (runtime.lower old_nick) c.users)) [
        | inl there ↦
            let (numbered, none_init) =
              nick_channels-IsNumbered uuid old_nick new_nick m (id + 1) cs in
            rw there ((refl, numbered), none_init)
        | inr absent ↦ rw absent (nick_channels-IsNumbered uuid old_nick new_nick m id cs)
      ]

  pub handle_nick_change-IsQuiet : IsQuiet this (handle_nick_change runtime moment msg this network)
  unfolding handle_nick_change put_network own_nick_event
  handle_nick_change-IsQuiet =
      let nick_msg : Msg = record (msg_from MessageType.nick moment.now msg.nick) {
        new_nick = msg.text;
        self = is_self msg.nick msg.text network;
      } in
      let sent =
        nick_channels-IsNumbered network.uuid msg.nick msg.text nick_msg this.message_id_counter
          network.channels in
      let (numbered, none_init) =
        own_nick_event-append msg.nick msg.text this.message_id_counter _ _ sent.0 sent.1 in
      (numbered, refl, refl, none_init)
