-- ===== src/FeWebSocket/Laws.antt =====
-- Runs of the socket of server/feWebClient/feWebSocket.ts.
use thelounge.Common.{
  ℕ, ◌≤◌, ◌≡◌, refl, ◌∙◌, ap, String, Bool, false, List, [], ◌∷◌, str_eq, or_default, arith, inl,
  inr, Bool-cases, Option-cases, All, All-append,
}
use thelounge.Common.Dict.{get}
use thelounge.FeWebSocket.Scheduled.{
  schedules, schedules-append, delays, delays-append, delays-schedules,
}
use thelounge.FeWebSocket.Sending.{
  InternalFeWebConfig, FeWebSocket, Effect, Request, send, sync_server, ping, on_message,
  off_message,
}
use thelounge.FeWebSocket.Connection.{
  Surroundings, Frame, connect, opened, handle_close, handle_message, reconnect, back_off,
  ping_tick, auth_timeout, disconnect, frame_text, authenticate_one, authenticate, calls, dispatch,
  schedule, Input, connect_called, socket_opened, socket_failed, socket_closed, frame_received,
  reconnect_timer_fired, reconnect_rejected, ping_timer_fired, auth_timer_fired, disconnect_called,
  message_sent, handler_added, handler_removed, step, run,
}

-- Between the configured first delay and the largest one.
abbrev pub IsWithin : InternalFeWebConfig → ℕ → Type 0
IsWithin config delay = (config.reconnect_delay ≤ delay) × (delay ≤ config.max_reconnect_delay)

-- So is the delay of the next reconnection.
abbrev pub IsDelay : FeWebSocket → Type 0
IsDelay this = IsWithin this.config this.current_reconnect_delay

-- A step that schedules nothing, and leaves the configuration and the delay alone.
abbrev IsCalm : FeWebSocket → FeWebSocket × List Effect → Type 0
IsCalm this (next, effects) =
    (schedules effects ≡ 0)
    × (next.config ≡ this.config)
    × (next.current_reconnect_delay ≡ this.current_reconnect_delay)

send-IsCalm :
    (now : ℕ) (message : Request) (this : FeWebSocket) → IsCalm this (send now message this)
unfolding send
send-IsCalm now message this = ground arith

ping_tick-IsCalm : (now : ℕ) (this : FeWebSocket) → IsCalm this (ping_tick now this)
unfolding ping_tick ping send
ping_tick-IsCalm now this = ground arith

connect-IsCalm :
    (env : Surroundings) (created : Bool) (this : FeWebSocket)
    → IsCalm this (connect env created this)
unfolding connect
connect-IsCalm env created this = ground arith

schedules-calls : (hs : List ℕ) (json : String) → schedules (calls hs json) ≡ 0
unfolding calls
schedules-calls [] json = refl
schedules-calls (h ∷ hs) json = schedules-calls hs json

authenticate_one-IsCalm :
    (now attempt : ℕ) (this : FeWebSocket) → IsCalm this (authenticate_one now attempt this)
unfolding authenticate_one sync_server send
authenticate_one-IsCalm now attempt this = ground arith

authenticate-IsCalm :
    (now : ℕ) (attempts : List ℕ) (this : FeWebSocket)
    → IsCalm this (authenticate now attempts this)
unfolding authenticate
authenticate-IsCalm now [] this = (refl, refl, refl)
authenticate-IsCalm now (attempt ∷ attempts) this =
    let (next, effects) = authenticate_one now attempt this in
    let (none_now, config, delay) = authenticate_one-IsCalm now attempt this in
    let (none_later, config', delay') = authenticate-IsCalm now attempts next in
    (
      omega (
        arith,
        none_now,
        none_later,
        schedules-append effects (authenticate now attempts next).1,
      ),
      config' ∙ config,
      delay' ∙ delay,
    )

dispatch-IsCalm :
    (now : ℕ) (type json : String) (this : FeWebSocket) → IsCalm this (dispatch now type json this)
unfolding dispatch
dispatch-IsCalm now type json this =
    let handlers = or_default (get type this.message_handlers) [] in
    let waiting = record this { auth_listeners = [] } in
    let (calm, config, delay) = authenticate-IsCalm now this.auth_listeners waiting in
    let effects = (authenticate now this.auth_listeners waiting).1 in
    elim (Bool-cases (str_eq type "auth_ok")) [
      | inl authenticated ↦ rw authenticated (
        omega (
          arith,
          calm,
          schedules-append effects (calls handlers json),
          schedules-calls handlers json,
        ),
        config,
        delay,
      )
      | inr other ↦ rw other (schedules-calls handlers json, refl, refl)
    ]

handle_message-IsCalm :
    (env : Surroundings) (now : ℕ) (frame : Frame) (this : FeWebSocket)
    → IsCalm this (handle_message env now frame this)
unfolding handle_message
handle_message-IsCalm env now frame this = elim (Option-cases (frame_text env frame this)) [
  | inl missing ↦ rw missing (refl, refl, refl)
  | inr (json, given) ↦ rw given (elim (Option-cases (env.message_type json)) [
    | inl broken ↦ rw broken (refl, refl, refl)
    | inr (type, parsed) ↦ rw parsed (dispatch-IsCalm now type json this)
  ])
]

-- The same limits of the delay.
abbrev HasLimits : InternalFeWebConfig → InternalFeWebConfig → Type 0
HasLimits next config =
    (next.reconnect_delay ≡ config.reconnect_delay)
    × (next.max_reconnect_delay ≡ config.max_reconnect_delay)

-- A step keeps the limits of the delay, a delay within them, and the end of reconnections; it schedules
-- only within the limits.
abbrev Keeps : FeWebSocket → FeWebSocket × List Effect → Type 0
Keeps this (next, effects) =
    (IsDelay this → IsDelay next × All (IsWithin this.config) (delays effects))
    × (this.config.reconnect ≡ false → (next.config.reconnect ≡ false) × (schedules effects ≡ 0))
    × HasLimits next.config this.config

Keeps-of_IsCalm :
    (this : FeWebSocket) (result : FeWebSocket × List Effect)
    → IsCalm this result
    → Keeps this result
Keeps-of_IsCalm this (next, effects) (calm, config, delay) =
    let first : next.config.reconnect_delay ≡ this.config.reconnect_delay =
      ap (λ (c : InternalFeWebConfig). c.reconnect_delay) config in
    let most : next.config.max_reconnect_delay ≡ this.config.max_reconnect_delay =
      ap (λ (c : InternalFeWebConfig). c.max_reconnect_delay) config in
    let again : next.config.reconnect ≡ this.config.reconnect =
      ap (λ (c : InternalFeWebConfig). c.reconnect) config in
    (
      λ (low, high). (
        (omega (arith, low, first, delay), omega (arith, high, most, delay)),
        rw (delays-schedules effects calm) tt,
      ),
      λ ended. (again ∙ ended, calm),
      (first, most),
    )

handle_close-Keeps :
    (attempt code : ℕ) (this : FeWebSocket) → Keeps this (handle_close attempt code this)
unfolding handle_close schedule
handle_close-Keeps attempt code this =
    (λ (low, high). ground (arith, low, high), λ ended. ground (arith, ended), ground arith)

step-Keeps :
    (env : Surroundings) (input : Input) (this : FeWebSocket) → Keeps this (step env input this)
unfolding step ping_tick ping opened reconnect back_off auth_timeout disconnect on_message
    off_message
step-Keeps env (connect_called created) this =
    Keeps-of_IsCalm this (connect env created this) (connect-IsCalm env created this)
step-Keeps env (socket_opened attempt) this = (
  λ (low, high). ((omega arith, omega (arith, low, high)), tt),
  λ ended. (ended, refl),
  (refl, refl),
)
step-Keeps env (socket_failed attempt) this = (λ h. (h, tt), λ ended. (ended, refl), (refl, refl))
step-Keeps env (socket_closed attempt code) this = handle_close-Keeps attempt code this
step-Keeps env (frame_received now frame) this =
    Keeps-of_IsCalm this (handle_message env now frame this)
      (handle_message-IsCalm env now frame this)
step-Keeps env (reconnect_timer_fired created) this =
    let fired : FeWebSocket = record this { reconnect_timer = false } in
    Keeps-of_IsCalm this (connect env created fired) (connect-IsCalm env created fired)
step-Keeps env reconnect_rejected this = (
  λ (low, high). ((omega (arith, low, high), omega (arith, high)), tt),
  λ ended. (ended, refl),
  (refl, refl),
)
step-Keeps env (ping_timer_fired now) this =
    Keeps-of_IsCalm this (ping_tick now this) (ping_tick-IsCalm now this)
step-Keeps env (auth_timer_fired attempt) this =
    Keeps-of_IsCalm this (this, auth_timeout attempt this) (ground arith)
step-Keeps env disconnect_called this =
    let calm : schedules (disconnect this).1 ≡ 0 = ground arith in
    (
      λ h. (h, rw (delays-schedules (disconnect this).1 calm) tt),
      λ ended. (refl, calm),
      (refl, refl),
    )
step-Keeps env (message_sent now message) this =
    Keeps-of_IsCalm this (send now message this) (send-IsCalm now message this)
step-Keeps env (handler_added type handler) this =
    (λ h. (h, tt), λ ended. (ended, refl), (refl, refl))
step-Keeps env (handler_removed type handler) this =
    Keeps-of_IsCalm this (off_message type handler this, []) (ground arith)

IsWithin-of_HasLimits :
    (config next : InternalFeWebConfig) (ds : List ℕ)
    → HasLimits next config
    → All (IsWithin next) ds
    → All (IsWithin config) ds
IsWithin-of_HasLimits config next [] h a = tt
IsWithin-of_HasLimits config next (d ∷ ds) (first, most) ((low, high), a) = (
  (omega (arith, first, low), omega (arith, most, high)),
  IsWithin-of_HasLimits config next ds (first, most) a,
)

-- From a socket whose next delay is between the configured first delay and the largest one, whatever
-- happens to the socket, every reconnection that is scheduled is scheduled after a delay between them,
-- and so is the next one.
pub run-IsDelay :
    (env : Surroundings) (inputs : List Input) (this : FeWebSocket)
    → IsDelay this
    → All (IsWithin this.config) (delays (run env inputs this).1) × IsDelay (run env inputs this).0
unfolding run
run-IsDelay env [] this h = (tt, h)
run-IsDelay env (input ∷ inputs) this h =
    let (next, effects) = step env input this in
    let (delay, _, limits) = step-Keeps env input this in
    let (held, now) = delay h in
    let (later, last) = run-IsDelay env inputs next held in
    (
      rw (delays-append effects (run env inputs next).1) (
          All-append (IsWithin this.config) (delays effects) (delays (run env inputs next).1) now (
            IsWithin-of_HasLimits this.config next.config (delays (run env inputs next).1) limits
              later)),
      last,
    )

-- After `disconnect` no run of events ever schedules a reconnection.
pub run-disconnect :
    (env : Surroundings) (inputs : List Input) (this : FeWebSocket)
    → schedules (run env inputs (disconnect this).0).1 ≡ 0
unfolding disconnect run
run-disconnect env inputs this = silent inputs (disconnect this).0 refl
  where
    silent :
        (rest : List Input) (socket : FeWebSocket)
        → socket.config.reconnect ≡ false
        → schedules (run env rest socket).1 ≡ 0
    silent [] socket ended = refl
    silent (input ∷ rest) socket ended =
        let (next, effects) = step env input socket in
        let (still, none_now) = (step-Keeps env input socket).1 ended in
        omega
          (arith, none_now, silent rest next still, schedules-append effects (run env rest next).1)
