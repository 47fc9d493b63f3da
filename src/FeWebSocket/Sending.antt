-- ===== src/FeWebSocket/Sending.antt =====
-- server/feWebClient/feWebSocket.ts: the state of a socket, the handlers by message type, and what is
-- sent.
use Prim.Native.String.{◌++◌ as append}
use thelounge.Common.{
  ℕ, ◌+◌, ◌==◌, String, Bool, true, false, not, ◌&&◌, Option, none, some, List, [], ◌∷◌, ◌++◌,
  str_eq, if◌then◌else◌, or_default, is_some, codes,
}
use thelounge.Common.Dict.{Dict, get, set}
use thelounge.FeWebEncryption.{FeWebEncryption}

-- `ws.readyState`, as far as the code asks.
pub data ReadyState : Type 0 where
  connecting ready closed : ReadyState

-- The configuration. `reconnect` is the one field that changes.
pub record InternalFeWebConfig : Type 0 where
  pub default_server : String
  pub reconnect : Bool
  pub reconnect_delay : ℕ
  pub max_reconnect_delay : ℕ

-- `ws_attempt` is the attempt that made `ws`; `auth_listeners` are the attempts whose `once("auth_ok")` has not run, oldest first; handlers are
-- numbers, as the code only compares them.
pub record FeWebSocket : Type 0 where
  pub config : InternalFeWebConfig
  pub ws : Option ReadyState
  pub ws_attempt : ℕ
  pub reconnect_timer : Bool
  pub ping_interval_timer : Bool
  pub current_reconnect_delay : ℕ
  pub message_handlers : Dict (List ℕ)
  pub is_connected : Bool
  pub is_authenticated : Bool
  pub message_id_counter : ℕ
  pub encryption : Option FeWebEncryption
  pub auth_listeners : List ℕ
  pub attempts : ℕ

pub data MessageId : Type 0 where
  absent : MessageId
  msg_id : ℕ → ℕ → MessageId
  ping_id : ℕ → MessageId

-- A message to irssi; texts that are absent are empty.
pub record Request : Type 0 where
  pub id : MessageId
  pub type : String
  pub server : String
  pub nick : String
  pub command : String

abbrev pub request : String → Request
request type = record { id = absent; type = type; server = ""; nick = ""; command = "" }

pub data Effect : Type 0 where
  sent : Request → Bool → Effect
  create_socket : ℕ → Effect
  close_socket : Effect
  resolved rejected : ℕ → Effect
  notify_disconnect : ℕ → Effect
  schedule_reconnect : ℕ → Effect
  call_handler : ℕ → String → Effect
  emitted : String → String → Effect

-- `connected` and `isReady`
unfoldable pub is_ready : FeWebSocket → Bool
is_ready this = this.is_connected && this.is_authenticated

unfoldable pub is_open : Option ReadyState → Bool
is_open none = false
is_open (some connecting) = false
is_open (some ready) = true
is_open (some closed) = false

-- The method `isConnected`.
unfoldable pub socket_is_connected : FeWebSocket → Bool
unfolding is_open
socket_is_connected this = this.is_connected && is_open this.ws

needs_id : MessageId → String → Bool
needs_id absent type = not (str_eq type "pong")
needs_id _ type = false

-- `send`, at the time `now`: the message, and whether it is encrypted.
unfoldable pub send : ℕ → Request → FeWebSocket → FeWebSocket × List Effect
unfolding is_open needs_id
send now message this =
    let n = this.message_id_counter + 1 in
    let numbered = record message { id = msg_id now n } in
    if not (is_open this.ws)
    then (this, [])
    else if needs_id message.id message.type
    then (record this { message_id_counter = n }, sent numbered (is_some this.encryption) ∷ [])
    else (this, sent message (is_some this.encryption) ∷ [])

unfoldable pub sync_server : ℕ → String → FeWebSocket → FeWebSocket × List Effect
unfolding send
sync_server now server_tag this =
    send now (record (request "sync_server") { server = server_tag }) this

starts_with_slash : List ℕ → Bool
starts_with_slash [] = false
starts_with_slash (c ∷ _) = c == 47

unfoldable pub with_slash : String → String
unfolding starts_with_slash
with_slash command = if starts_with_slash (codes command) then command else append "/" command

unfoldable pub execute_command : ℕ → String → String → FeWebSocket → FeWebSocket × List Effect
unfolding send with_slash
execute_command now command server this =
    send now (record (request "command") { command = with_slash command; server = server }) this

unfoldable pub ping : ℕ → FeWebSocket → FeWebSocket × List Effect
unfolding send
ping now this = send now (record (request "ping") { id = ping_id now }) this

unfoldable pub close_query : ℕ → String → String → FeWebSocket → FeWebSocket × List Effect
unfolding send
close_query now server nick this =
    send now (record (request "close_query") { server = server; nick = nick }) this

unfoldable pub on_message : String → ℕ → FeWebSocket → FeWebSocket
on_message type handler this = record this {
  message_handlers =
      set type (or_default (get type this.message_handlers) [] ++ handler ∷ [])
        this.message_handlers;
}

-- `indexOf` and `splice(index, 1)`
unfoldable pub without_handler : ℕ → List ℕ → List ℕ
without_handler handler [] = []
without_handler handler (h ∷ hs) =
    let rest = h ∷ without_handler handler hs in if h == handler then hs else rest

off_handlers : String → ℕ → FeWebSocket → Option (List ℕ) → FeWebSocket
unfolding without_handler
off_handlers type handler this none = this
off_handlers type handler this (some handlers) = record this {
  message_handlers = set type (without_handler handler handlers) this.message_handlers;
}

unfoldable pub off_message : String → ℕ → FeWebSocket → FeWebSocket
unfolding off_handlers
off_message type handler this = off_handlers type handler this (get type this.message_handlers)
