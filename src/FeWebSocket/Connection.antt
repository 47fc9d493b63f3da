-- ===== src/FeWebSocket/Connection.antt =====
-- server/feWebClient/feWebSocket.ts: connecting, authentication, the end of a connection, reconnection
-- and the messages that arrive. Every call of `connect` is an attempt with a number; its promise is
-- settled by the first of the effects `resolved` and `rejected`.
use thelounge.Common.{
  any, is_some, ℕ, ◌+◌, ◌*◌, ◌==◌, min, String, Bool, true, false, not, ◌&&◌, Option, none, some,
  List, [], ◌∷◌, ◌++◌, str_eq, if◌then◌else◌, or_default,
}
use thelounge.Common.Dict.{get}
use thelounge.FeWebEncryption.{Crypto, FeWebEncryption, derive_key, decrypt}
use thelounge.FeWebSocket.Sending.{
  on_message, off_message, Request, FeWebSocket, Effect, ReadyState, connecting, ready, closed,
  send, sync_server, ping, create_socket, close_socket, resolved, rejected, notify_disconnect,
  schedule_reconnect, call_handler, emitted,
}

-- What the code takes from outside: `crypto`, and `JSON.parse` of a message, which gives its type, none
-- where it throws.
pub record Surroundings : Type 0 where
  pub crypto : Crypto
  pub message_type : String → Option String

create : Bool → FeWebSocket → FeWebSocket × List Effect
create created this =
    let attempt = this.attempts in
    if created
    then (
      record this {
        ws = some connecting;
        ws_attempt = attempt;
        auth_listeners = this.auth_listeners ++ attempt ∷ [];
        attempts = attempt + 1;
      },
      create_socket attempt ∷ [],
    )
    else (record this { attempts = attempt + 1 }, rejected attempt ∷ [])

create_with_key : Bool → FeWebSocket → Option FeWebEncryption → FeWebSocket × List Effect
unfolding create
create_with_key created this none =
    (record this { attempts = this.attempts + 1 }, rejected this.attempts ∷ [])
create_with_key created this (some encryption) =
    create created (record this { encryption = some encryption })

connect_with :
    Surroundings → Bool → FeWebSocket → Option FeWebEncryption → FeWebSocket × List Effect
unfolding create create_with_key
connect_with env created this none = create created this
connect_with env created this (some encryption) =
    create_with_key created this (derive_key env.crypto encryption)

-- `connect`. `created` is false where `new WebSocket` throws.
unfoldable pub connect : Surroundings → Bool → FeWebSocket → FeWebSocket × List Effect
unfolding connect_with
connect env created this = connect_with env created this this.encryption

-- The callback of `once("auth_ok")` of one attempt.
unfoldable pub authenticate_one : ℕ → ℕ → FeWebSocket → FeWebSocket × List Effect
unfolding sync_server
authenticate_one now attempt this =
    let started = record this { is_authenticated = true; ping_interval_timer = true } in
    let (synced, sends) = sync_server now this.config.default_server started in
    if str_eq this.config.default_server ""
    then (started, resolved attempt ∷ [])
    else (synced, sends ++ resolved attempt ∷ [])

-- The callbacks of all attempts that wait, in turn.
unfoldable pub authenticate : ℕ → List ℕ → FeWebSocket → FeWebSocket × List Effect
unfolding authenticate_one
authenticate now [] this = (this, [])
authenticate now (attempt ∷ attempts) this =
    let (next, effects) = authenticate_one now attempt this in
    let (last, later) = authenticate now attempts next in (last, effects ++ later)

-- `ws.readyState` after an event of the socket of an attempt: `ws` is the last one that was made, or
-- null.
ready_state : ReadyState → ℕ → FeWebSocket → Option ReadyState
ready_state state attempt this =
    if is_some this.ws && attempt == this.ws_attempt then some state else this.ws

-- The callback of the socket's "open".
unfoldable pub opened : ℕ → FeWebSocket → FeWebSocket
unfolding ready_state
opened attempt this = record this {
  ws = ready_state ready attempt this;
  is_connected = true;
  current_reconnect_delay = this.config.reconnect_delay;
}

unfoldable pub schedule : FeWebSocket → FeWebSocket × List Effect
schedule this = if this.reconnect_timer then (this, []) else (
  record this { reconnect_timer = true },
  schedule_reconnect this.current_reconnect_delay ∷ [],
)

-- The callback of the socket's "close", for the attempt that made it.
unfoldable pub handle_close : ℕ → ℕ → FeWebSocket → FeWebSocket × List Effect
unfolding schedule ready_state
handle_close attempt code this =
    let ended = record this {
      ws = ready_state closed attempt this;
      is_connected = false;
      is_authenticated = false;
      ping_interval_timer = false;
    } in
    let (retried, retries) = schedule ended in
    if code == 1002
    then (ended, notify_disconnect code ∷ rejected attempt ∷ [])
    else if this.config.reconnect
    then (retried, notify_disconnect code ∷ retries)
    else (ended, notify_disconnect code ∷ [])

-- The callback of the timer of `scheduleReconnect`, and of the `catch` in it.
unfoldable pub reconnect : Surroundings → Bool → FeWebSocket → FeWebSocket × List Effect
unfolding connect
reconnect env created this = connect env created (record this { reconnect_timer = false })

unfoldable pub back_off : FeWebSocket → FeWebSocket
back_off this = record this {
  current_reconnect_delay = min (this.current_reconnect_delay * 2) this.config.max_reconnect_delay;
}

close_of : Option ReadyState → List Effect
close_of none = []
close_of (some _) = close_socket ∷ []

unfoldable pub disconnect : FeWebSocket → FeWebSocket × List Effect
unfolding close_of
disconnect this = (
  record this {
    config = record this.config { reconnect = false };
    reconnect_timer = false;
    ping_interval_timer = false;
    ws = none;
    is_connected = false;
    is_authenticated = false;
  },
  close_of this.ws,
)

-- The timer of `startPing`.
unfoldable pub ping_tick : ℕ → FeWebSocket → FeWebSocket × List Effect
unfolding ping
ping_tick now this =
    if this.ping_interval_timer && this.is_connected then ping now this else (this, [])

pub data Frame : Type 0 where
  binary : List ℕ → Frame
  text : String → Frame
  other : Frame

decrypted : Surroundings → List ℕ → Option FeWebEncryption → Option String
decrypted env bytes none = none
decrypted env bytes (some encryption) = decrypt env.crypto bytes encryption

-- The JSON of a frame, none where the handler gives up.
unfoldable pub frame_text : Surroundings → Frame → FeWebSocket → Option String
unfolding decrypted
frame_text env (binary bytes) this = decrypted env bytes this.encryption
frame_text env (text json) this = some json
frame_text env other this = none

unfoldable pub calls : List ℕ → String → List Effect
calls [] json = []
calls (h ∷ hs) json = call_handler h json ∷ calls hs json

-- `emit`, to the client's listeners and those of the attempts, and the handlers of the type.
unfoldable pub dispatch : ℕ → String → String → FeWebSocket → FeWebSocket × List Effect
unfolding authenticate calls
dispatch now type json this =
    let handled = calls (or_default (get type this.message_handlers) []) json in
    let (authenticated, effects) =
      authenticate now this.auth_listeners (record this { auth_listeners = [] }) in
    if str_eq type "auth_ok"
    then (authenticated, emitted type json ∷ (effects ++ handled))
    else (this, emitted type json ∷ handled)

parsed_message : ℕ → String → FeWebSocket → Option String → FeWebSocket × List Effect
unfolding dispatch
parsed_message now json this none = (this, [])
parsed_message now json this (some type) = dispatch now type json this

json_message : Surroundings → ℕ → FeWebSocket → Option String → FeWebSocket × List Effect
unfolding parsed_message
json_message env now this none = (this, [])
json_message env now this (some json) = parsed_message now json this (env.message_type json)

unfoldable pub handle_message : Surroundings → ℕ → Frame → FeWebSocket → FeWebSocket × List Effect
unfolding json_message frame_text
handle_message env now frame this = json_message env now this (frame_text env frame this)

-- The callback of the timer of an attempt, which its authentication stops.
unfoldable pub auth_timeout : ℕ → FeWebSocket → List Effect
auth_timeout attempt this =
    if any (◌==◌ attempt) this.auth_listeners && not this.is_authenticated
    then rejected attempt ∷ []
    else []

-- What happens to a socket: the calls of the client, the events of the web socket, and the timers.
pub data Input : Type 0 where
  connect_called : Bool → Input
  socket_opened socket_failed : ℕ → Input
  socket_closed : ℕ → ℕ → Input
  frame_received : ℕ → Frame → Input
  reconnect_timer_fired : Bool → Input
  reconnect_rejected : Input
  ping_timer_fired : ℕ → Input
  auth_timer_fired : ℕ → Input
  disconnect_called : Input
  message_sent : ℕ → Request → Input
  handler_added handler_removed : String → ℕ → Input

unfoldable pub step : Surroundings → Input → FeWebSocket → FeWebSocket × List Effect
step env (connect_called created) this = connect env created this
step env (socket_opened attempt) this = (opened attempt this, [])
step env (socket_failed attempt) this = (this, rejected attempt ∷ [])
step env (socket_closed attempt code) this = handle_close attempt code this
step env (frame_received now frame) this = handle_message env now frame this
step env (reconnect_timer_fired created) this = reconnect env created this
step env reconnect_rejected this = (back_off this, [])
step env (ping_timer_fired now) this = ping_tick now this
step env (auth_timer_fired attempt) this = (this, auth_timeout attempt this)
step env disconnect_called this = disconnect this
step env (message_sent now message) this = send now message this
step env (handler_added type handler) this = (on_message type handler this, [])
step env (handler_removed type handler) this = (off_message type handler this, [])

unfoldable pub run : Surroundings → List Input → FeWebSocket → FeWebSocket × List Effect
unfolding step
run env [] this = (this, [])
run env (input ∷ inputs) this =
    let (next, effects) = step env input this in
    let (last, later) = run env inputs next in (last, effects ++ later)
