-- ===== src/FeWebSocket/Handlers.antt =====
-- The handlers of server/feWebClient/feWebSocket.ts, and what an authentication sends.
use thelounge.Common.{
  ℕ, ◌+◌, ◌≡◌, ◌≢◌, refl, ◌∙◌, ap, sym, String, true, false, Option, List, [], ◌∷◌, ◌++◌, length,
  str_eq, if◌then◌else◌, or_default, arith, inl, inr, Bool-cases, any, ◌==◌, eq_iff,
}
use thelounge.Common.Dict.{get, set, get-set, get-set_same}
use thelounge.FeWebSocket.Sending.{
  InternalFeWebConfig, FeWebSocket, Effect, sent, create_socket, close_socket, resolved, rejected,
  notify_disconnect, schedule_reconnect, call_handler, emitted, send, sync_server, on_message,
  off_message, without_handler, is_open,
}
use thelounge.FeWebSocket.Connection.{authenticate, authenticate_one, calls, dispatch}

-- The handlers of a type, in the order of their calls.
abbrev pub handlers_of : String → FeWebSocket → List ℕ
handlers_of type this = or_default (get type this.message_handlers) []

without_handler-append :
    (handler : ℕ) (hs : List ℕ)
    → any (◌==◌ handler) hs ≡ false
    → without_handler handler (hs ++ handler ∷ []) ≡ hs
unfolding without_handler
without_handler-append handler [] new = ground arith
without_handler-append handler (h ∷ hs) new = ground (arith, new, without_handler-append handler hs)

-- A handler that is registered and taken away again leaves the handlers of every type as they were, in
-- their order, if it was not among those of its type.
off_message-on_message :
    (type other : String) (handler : ℕ) (this : FeWebSocket)
    → any (◌==◌ handler) (handlers_of type this) ≡ false
    → handlers_of other (off_message type handler (on_message type handler this))
      ≡ handlers_of other this
unfolding off_message on_message
off_message-on_message type other handler this new =
    let added = handlers_of type this ++ handler ∷ [] in
    let registered = set type added this.message_handlers in
    let removed = without_handler handler added in
    rw (get-set_same type added this.message_handlers) (
      ap (λ (o : Option (List ℕ)). or_default o []) (get-set type other removed registered)
      ∙ elim (Bool-cases (str_eq type other)) [
        | inl same ↦ rw same (
            without_handler-append handler (handlers_of type this) new
            ∙ ap (λ t. handlers_of t this) ((eq_iff type other).0 same))
        | inr apart ↦ rw (apart, get-set type other added this.message_handlers) (simp apart refl)
      ])

-- The number of requests to synchronise a server.
abbrev pub syncs : List Effect → ℕ
syncs [] = 0
syncs (sent message _ ∷ es) = if str_eq message.type "sync_server" then syncs es + 1 else syncs es
syncs (_ ∷ es) = syncs es

syncs-append : (es fs : List Effect) → syncs (es ++ fs) ≡ syncs es + syncs fs
syncs-append [] fs = omega arith
syncs-append (sent message _ ∷ es) fs = ground (arith, syncs-append es fs)
syncs-append (schedule_reconnect _ ∷ es) fs = syncs-append es fs
syncs-append (create_socket _ ∷ es) fs = syncs-append es fs
syncs-append (close_socket ∷ es) fs = syncs-append es fs
syncs-append (resolved _ ∷ es) fs = syncs-append es fs
syncs-append (rejected _ ∷ es) fs = syncs-append es fs
syncs-append (notify_disconnect _ ∷ es) fs = syncs-append es fs
syncs-append (call_handler _ _ ∷ es) fs = syncs-append es fs
syncs-append (emitted _ _ ∷ es) fs = syncs-append es fs

syncs-calls : (hs : List ℕ) (json : String) → syncs (calls hs json) ≡ 0
unfolding calls
syncs-calls [] json = refl
syncs-calls (h ∷ hs) json = syncs-calls hs json

authenticate_one-syncs :
    (now attempt : ℕ) (this : FeWebSocket)
    → is_open this.ws ≡ true
    → this.config.default_server ≢ ""
    → (syncs (authenticate_one now attempt this).1 ≡ 1)
      × ((authenticate_one now attempt this).0.ws ≡ this.ws)
      × ((authenticate_one now attempt this).0.config ≡ this.config)
unfolding authenticate_one sync_server send
authenticate_one-syncs now attempt this connected given =
    ground (arith, connected, given, eq_iff this.config.default_server "")

authenticate-syncs :
    (now : ℕ) (attempts : List ℕ) (this : FeWebSocket)
    → is_open this.ws ≡ true
    → this.config.default_server ≢ ""
    → syncs (authenticate now attempts this).1 ≡ length attempts
unfolding authenticate
authenticate-syncs now [] this connected given = refl
authenticate-syncs now (attempt ∷ attempts) this connected given =
    let (next, effects) = authenticate_one now attempt this in
    let (one, same, config) = authenticate_one-syncs now attempt this connected given in
    let given' : next.config.default_server ≢ "" =
      λ e. given (sym (ap (λ (c : InternalFeWebConfig). c.default_server) config) ∙ e) in
    omega (
      arith,
      one,
      syncs-append effects (authenticate now attempts next).1,
      authenticate-syncs now attempts next (ap is_open same ∙ connected) given',
    )

-- An authentication on an open socket with a default server asks to synchronise it once for each
-- attempt to connect whose listener has not run, so once more for each attempt that failed before.
pub dispatch-syncs :
    (now : ℕ) (json : String) (this : FeWebSocket)
    → is_open this.ws ≡ true
    → this.config.default_server ≢ ""
    → syncs (dispatch now "auth_ok" json this).1 ≡ length this.auth_listeners
unfolding dispatch
dispatch-syncs now json this connected given =
    let handled = calls (or_default (get "auth_ok" this.message_handlers) []) json in
    let waiting : FeWebSocket = record this { auth_listeners = [] } in
    let effects = (authenticate now this.auth_listeners waiting).1 in
    omega (
      arith,
      syncs-append effects handled,
      syncs-calls (or_default (get "auth_ok" this.message_handlers) []) json,
      authenticate-syncs now this.auth_listeners waiting connected given,
    )
