-- ===== src/IrssiClient/Settled.antt =====
-- How the promises of server/irssiClient.ts for answers of irssi are settled.
pub mod Timers
use thelounge.Common.{
  ℕ, ◌+◌, ◌≡◌, refl, String, Bool, true, false, not, ◌&&◌, ◌||◌, List, [], ◌∷◌, ◌++◌, if◌then◌else◌,
  str_eq, arith, eq_iff, ◌==◌, ◌∙◌, ◌≤◌,
}
use thelounge.Common.Dict.{Dict, get, set, delete, has, get-set, get-delete}
use thelounge.IrssiClient.Requests.{
  Requests, Input, Outcome, CommandResult, step, run, send_irssi_request, send_irssi_list_request,
  handle_command_result, handle_list_response, request_timed_out, list_timed_out, no_requests,
}

unfoldable pub once : Bool → ℕ
once b = if b then 1 else 0

-- How often an id was sent, and how often its promise was settled.
unfoldable pub sent : String → List Outcome → ℕ
unfolding once
sent id [] = 0
sent id (Outcome.send_request type k ∷ os) = once (str_eq k id) + sent id os
sent id (_ ∷ os) = sent id os

unfoldable pub settled : String → List Outcome → ℕ
unfolding once
settled id [] = 0
settled id (Outcome.resolve k result ∷ os) = once (str_eq k id) + settled id os
settled id (Outcome.resolve_list k entries ∷ os) = once (str_eq k id) + settled id os
settled id (Outcome.reject k type ∷ os) = once (str_eq k id) + settled id os
settled id (Outcome.send_request type k ∷ os) = settled id os

unfoldable pub waiting : String → Requests → ℕ
unfolding once
waiting id this = once (has id this.pending_requests) + once (has id this.pending_list_requests)

-- A request has an id that no promise waits under.
abbrev pub is_fresh : Input → Requests → Bool
is_fresh (Input.request type id) this = waiting id this == 0
is_fresh (Input.list_request type id) this = waiting id this == 0
is_fresh _ this = true

abbrev pub AreFresh : List (Bool × Input) → Requests → Type 0
AreFresh [] this = Unit
AreFresh ((is_ready, input) ∷ rest) this =
    (is_fresh input this ≡ true) × AreFresh rest (step is_ready input this).0

pub sent-append :
    (id : String) (os ps : List Outcome) → sent id (os ++ ps) ≡ sent id os + sent id ps
unfolding sent
sent-append id [] ps = omega arith
sent-append id (Outcome.send_request _ _ ∷ os) ps = omega (arith, sent-append id os ps)
sent-append id (Outcome.resolve _ _ ∷ os) ps = sent-append id os ps
sent-append id (Outcome.resolve_list _ _ ∷ os) ps = sent-append id os ps
sent-append id (Outcome.reject _ _ ∷ os) ps = sent-append id os ps

pub settled-append :
    (id : String) (os ps : List Outcome) → settled id (os ++ ps) ≡ settled id os + settled id ps
unfolding settled
settled-append id [] ps = omega arith
settled-append id (Outcome.send_request _ _ ∷ os) ps = settled-append id os ps
settled-append id (Outcome.resolve _ _ ∷ os) ps = omega (arith, settled-append id os ps)
settled-append id (Outcome.resolve_list _ _ ∷ os) ps = omega (arith, settled-append id os ps)
settled-append id (Outcome.reject _ _ ∷ os) ps = omega (arith, settled-append id os ps)

step-waiting :
    (id : String) (is_ready : Bool) (input : Input) (this : Requests)
    → is_fresh input this ≡ true
    → sent id (step is_ready input this).1 + waiting id this
      ≡ settled id (step is_ready input this).1 + waiting id (step is_ready input this).0
unfolding step send_irssi_request send_irssi_list_request handle_command_result handle_list_response
    request_timed_out list_timed_out sent settled waiting once
step-waiting id is_ready (Input.request type k) this f =
    ground (arith, f, get-set k id type this.pending_requests, eq_iff k id)
step-waiting id is_ready (Input.list_request type k) this f =
    ground (arith, f, get-set k id type this.pending_list_requests, eq_iff k id)
step-waiting id is_ready (Input.command_result k result) this f =
    ground (arith, get-delete k id this.pending_requests, eq_iff k id)
step-waiting id is_ready (Input.list_response k entries) this f =
    ground (arith, get-delete k id this.pending_list_requests, eq_iff k id)
step-waiting id is_ready (Input.request_timeout k) this f =
    ground (arith, get-delete k id this.pending_requests, eq_iff k id)
step-waiting id is_ready (Input.list_timeout k) this f =
    ground (arith, get-delete k id this.pending_list_requests, eq_iff k id)

pub run-waiting :
    (id : String) (inputs : List (Bool × Input)) (this : Requests)
    → AreFresh inputs this
    → sent id (run inputs this).1 + waiting id this
      ≡ settled id (run inputs this).1 + waiting id (run inputs this).0
unfolding run sent settled
run-waiting id [] this f = refl
run-waiting id ((is_ready, input) ∷ rest) this (f, fs) =
    let next : Requests = (step is_ready input this).0 in
    let now : List Outcome = (step is_ready input this).1 in
    omega (
      arith,
      step-waiting id is_ready input this f,
      run-waiting id rest next fs,
      sent-append id now (run rest next).1,
      settled-append id now (run rest next).1,
    )
