-- ===== src/IrssiClient/Run.antt =====
-- server/irssiClient.ts: everything that a client is given, one after another. The adapter, the
-- connection, the browsers and the storage call its handlers; what the client asked the storage and
-- has no answer to yet is kept beside it, and answers come in any order.
use thelounge.Common.{ℕ, zero, suc, String, Bool, Option, none, some, List, [], ◌∷◌, ◌++◌}
use thelounge.Common.Dict.{Dict}
use thelounge.Models.Chan.{Chan}
use thelounge.Models.Msg.{Msg}
use thelounge.Models.User.{User}
use thelounge.FeWebAdapter.Network.{Runtime, NetworkData}
use thelounge.FeWebAdapter.State.{FeWebMessage}
use thelounge.IrssiClient.State.{IrssiClient, PendingCount, Effect}
use thelounge.IrssiClient.Markers.{
  handle_activity_update, unread_counted, handle_mark_read_from_irssi, open_channel,
}
use thelounge.IrssiClient.Callbacks.{
  handle_network_update, handle_message, handle_channel_join, handle_channel_part,
  handle_nicklist_update, handle_topic_update, handle_nick_change, handle_query_closed,
  disconnected,
}
use thelounge.IrssiClient.Commands.{handle_input, handle_names_request, handle_part_channel}
use thelounge.IrssiClient.Loading.{MessageStorage}
use thelounge.IrssiClient.Browsers.{attach_browser, detach_browser, handle_init, quit}
use thelounge.IrssiClient.History.{more}

-- `new IrssiClient(...)`, and the connection, the storage and the adapter that `login` makes.
abbrev pub new_client : Option Bool → Bool → Option ℕ → IrssiClient
new_client connection has_storage channel_id = record {
  networks = [];
  attached_browsers = [];
  has_storage = has_storage;
  unread_markers = [];
  heap = [];
  active_window_in_irssi = none;
  irssi_connection = connection;
  id_msg = 1;
  last_active_channel = none;
  next_channel_id = channel_id;
}

-- `networks_changed` is a change of the network objects by the adapter, which shares them.
pub data Input : Type 0 where
  activity_update query_closed : FeWebMessage → Input
  answered : ℕ → Option ℕ → Input
  network_update : NetworkData → Input
  message : String → ℕ → Msg → Input
  channel_join : String → Chan → Input
  channel_part : ℕ → Input
  nicklist_update : ℕ → List User → Input
  topic_update : ℕ → String → Input
  nick_change : String → String → Input
  init : Option (Dict String) → List NetworkData → Input
  mark_read_from_irssi : String → String → Input
  lost_irssi : Input
  attach : String → Option ℕ → Option String → Input
  detach : String → Input
  opened : String → ℕ → Input
  input_text : ℕ → String → Input
  names_request : ℕ → Input
  part_channel : String → ℕ → Input
  more_messages : ℕ → Option ℕ → Input
  quit_client : Bool → Input
  networks_changed : List NetworkData → Input

-- What a handler finds: the time, and what the storage has.
pub record Given : Type 0 where
  pub now : ℕ
  pub storage : MessageStorage

pub record System : Type 0 where
  pub client : IrssiClient
  pub asked : List PendingCount

abbrev pub new_system : Option Bool → Bool → Option ℕ → System
new_system connection has_storage id = record {
  client = new_client connection has_storage id;
  asked = [];
}

unfoldable pub nth : ℕ → List PendingCount → Option PendingCount
nth n [] = none
nth zero (p ∷ ps) = some p
nth (suc n) (p ∷ ps) = nth n ps

unfoldable pub without_nth : ℕ → List PendingCount → List PendingCount
without_nth n [] = []
without_nth zero (p ∷ ps) = ps
without_nth (suc n) (p ∷ ps) = p ∷ without_nth n ps

unfoldable pub answer : Option PendingCount → Option ℕ → IrssiClient → IrssiClient × List Effect
unfolding unread_counted
answer none count this = (this, [])
answer (some p) count this = unread_counted p count this

-- The requests among the effects.
unfoldable pub asked_in : List Effect → List PendingCount
asked_in [] = []
asked_in (Effect.get_unread_count p ∷ es) = p ∷ asked_in es
asked_in (_ ∷ es) = asked_in es

unfoldable pub handle :
    Runtime → Given → List PendingCount → Input → IrssiClient → IrssiClient × List Effect
unfolding answer nth
handle runtime given asked (activity_update msg) this =
    handle_activity_update runtime given.now msg this
handle runtime given asked (query_closed msg) this = handle_query_closed runtime msg this
handle runtime given asked (answered n count) this = answer (nth n asked) count this
handle runtime given asked (network_update network) this = handle_network_update network this
handle runtime given asked (message uuid id msg) this =
    handle_message runtime given.now uuid id msg this
handle runtime given asked (channel_join uuid channel) this =
    handle_channel_join given.storage.get_message_count uuid channel this
handle runtime given asked (channel_part id) this = handle_channel_part id this
handle runtime given asked (nicklist_update id users) this = handle_nicklist_update id users this
handle runtime given asked (topic_update id topic) this = handle_topic_update id topic this
handle runtime given asked (nick_change uuid nick) this = handle_nick_change uuid nick this
handle runtime given asked (init uuids networks) this =
    handle_init runtime given.storage uuids networks this
handle runtime given asked (mark_read_from_irssi uuid name) this =
    handle_mark_read_from_irssi runtime given.now uuid name this
handle runtime given asked lost_irssi this = disconnected this
handle runtime given asked (attach socket id token) this =
    attach_browser runtime given.storage socket id token this
handle runtime given asked (detach socket) this = detach_browser socket this
handle runtime given asked (opened socket id) this = open_channel runtime given.now socket id this
handle runtime given asked (input_text target text) this = handle_input runtime target text this
handle runtime given asked (names_request target) this = handle_names_request target this
handle runtime given asked (part_channel uuid id) this = handle_part_channel uuid id this
handle runtime given asked (more_messages target time) this =
    let (read, history) = more given.storage target time this in (read, [])
handle runtime given asked (quit_client should_save) this = quit should_save this
handle runtime given asked (networks_changed networks) this =
    (record this { networks = networks }, [])

unfoldable pub still_asked : Input → List PendingCount → List PendingCount
unfolding without_nth
still_asked (answered n count) asked = without_nth n asked
still_asked _ asked = asked

unfoldable pub step : Runtime → Given → Input → System → System × List Effect
unfolding still_asked asked_in
step runtime given input system =
    let (client, effects) = handle runtime given system.asked input system.client in
    (
      record { client = client; asked = still_asked input system.asked ++ asked_in effects },
      effects,
    )

unfoldable pub run : Runtime → List (Given × Input) → System → System × List Effect
run runtime [] system = (system, [])
run runtime ((given, input) ∷ rest) system =
    let (next, now) = step runtime given input system in
    let (last, later) = run runtime rest next in (last, now ++ later)
