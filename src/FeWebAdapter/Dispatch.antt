-- ===== src/FeWebAdapter/Dispatch.antt =====
-- server/feWebClient/feWebAdapter.ts: `registerHandlers`, and the steps of the adapter.
use thelounge.Common.{List, [], ◌∷◌, ◌++◌, Bool, true, false, if◌then◌else◌}
use thelounge.FeWebAdapter.Network.{Runtime, NetworkData}
use thelounge.FeWebAdapter.State.{
  FeWebAdapter, FeWebMessage, Moment, Event, get_or_create_network, get_next_channel_id,
  reset_state_dump_tracking,
}
use thelounge.FeWebAdapter.Talk.{
  handle_message, handle_server_status, handle_channel_join, handle_channel_part,
  handle_channel_kick,
}
use thelounge.FeWebAdapter.Notices.{
  handle_user_quit, handle_topic, handle_channel_mode, handle_user_mode, handle_away, handle_whois,
  handle_channel_list,
}
use thelounge.FeWebAdapter.NickChange.{handle_nick_change}
use thelounge.FeWebAdapter.Nicklist.{handle_nicklist, handle_nicklist_update}
use thelounge.FeWebAdapter.Lifecycle.{
  handle_state_dump, emit_init, handle_query_opened, handle_query_closed, handle_mark_read,
}

-- The message types that have a handler.
pub data ServerMessageType : Type 0 where
  auth_ok message server_status channel_join channel_part channel_kick user_quit topic :
      ServerMessageType
  channel_mode nicklist nicklist_update nick_change user_mode away whois : ServerMessageType
  channel_list state_dump query_opened query_closed error pong mark_read : ServerMessageType

-- The handler of a type, given the network that it finds or makes first. `auth_ok`, `error` and
-- `pong` only write to the log; `mark_read` makes no network.
unfoldable pub handle :
    Runtime
    → Moment
    → ServerMessageType
    → FeWebMessage
    → FeWebAdapter
    → NetworkData
    → FeWebAdapter × List Event
handle runtime moment ServerMessageType.message msg this network =
    handle_message runtime moment msg this network
handle runtime moment ServerMessageType.server_status msg this network =
    handle_server_status msg this network
handle runtime moment ServerMessageType.channel_join msg this network =
    handle_channel_join runtime moment msg this network
handle runtime moment ServerMessageType.channel_part msg this network =
    handle_channel_part runtime moment msg this network
handle runtime moment ServerMessageType.channel_kick msg this network =
    handle_channel_kick runtime moment msg this network
handle runtime moment ServerMessageType.user_quit msg this network =
    handle_user_quit runtime moment msg this network
handle runtime moment ServerMessageType.topic msg this network =
    handle_topic runtime moment msg this network
handle runtime moment ServerMessageType.channel_mode msg this network =
    handle_channel_mode runtime moment msg this network
handle runtime moment ServerMessageType.nicklist msg this network =
    handle_nicklist runtime msg this network
handle runtime moment ServerMessageType.nicklist_update msg this network =
    handle_nicklist_update runtime msg this network
handle runtime moment ServerMessageType.nick_change msg this network =
    handle_nick_change runtime moment msg this network
handle runtime moment ServerMessageType.user_mode msg this network =
    handle_user_mode moment msg this network
handle runtime moment ServerMessageType.away msg this network = handle_away runtime msg this network
handle runtime moment ServerMessageType.whois msg this network =
    handle_whois moment msg this network
handle runtime moment ServerMessageType.channel_list msg this network =
    handle_channel_list runtime moment msg this network
handle runtime moment ServerMessageType.state_dump msg this network =
    handle_state_dump moment msg this network
handle runtime moment ServerMessageType.query_opened msg this network =
    handle_query_opened runtime msg this network
handle runtime moment ServerMessageType.query_closed msg this network =
    handle_query_closed runtime msg this network
handle runtime moment _ msg this network = (this, [])

-- Whether the handler starts with `getOrCreateNetwork`.
unfoldable pub needs_network : ServerMessageType → Bool
needs_network ServerMessageType.auth_ok = false
needs_network ServerMessageType.error = false
needs_network ServerMessageType.pong = false
needs_network ServerMessageType.mark_read = false
needs_network _ = true

unfoldable pub handle_alone :
    Runtime → ServerMessageType → FeWebMessage → FeWebAdapter → FeWebAdapter × List Event
handle_alone runtime ServerMessageType.mark_read msg this = handle_mark_read runtime msg this
handle_alone runtime _ msg this = (this, [])

unfoldable pub receive :
    Runtime → Moment → ServerMessageType → FeWebMessage → FeWebAdapter → FeWebAdapter × List Event
unfolding needs_network handle handle_alone
receive runtime moment type msg this =
    if needs_network type
    then (let (known, network) = get_or_create_network moment msg.server this in
        handle runtime moment type msg known network)
    else handle_alone runtime type msg this

-- What happens to an adapter: a message, the timer of a state dump, a disconnect, and the client
-- taking a channel id.
pub data Input : Type 0 where
  message_received : Moment → ServerMessageType → FeWebMessage → Input
  init_timer disconnected channel_id_taken : Input

unfoldable pub step : Runtime → Input → FeWebAdapter → FeWebAdapter × List Event
unfolding receive
step runtime (message_received moment type msg) this = receive runtime moment type msg this
step runtime init_timer this = emit_init this
step runtime disconnected this = (reset_state_dump_tracking this, [])
step runtime channel_id_taken this = ((get_next_channel_id this).0, [])

-- A sequence of inputs, with all that it emits.
unfoldable pub run : Runtime → List Input → FeWebAdapter → FeWebAdapter × List Event
unfolding step
run runtime [] this = (this, [])
run runtime (input ∷ inputs) this =
    let (next, events) = step runtime input this in
    let (last, later) = run runtime inputs next in (last, events ++ later)
