-- ===== src/IrssiClient/Settled/Timers.antt =====
-- The timers of the requests of server/irssiClient.ts, and what is settled once they ran out.
use thelounge.Common.{
  ◌+◌, ◌≡◌, refl, String, Bool, true, false, List, [], ◌∷◌, ◌++◌, if◌then◌else◌, str_eq, arith,
  eq_iff, ◌∙◌, ◌≤◌,
}
use thelounge.Common.Dict.{Dict, get, has, get-delete}
use thelounge.IrssiClient.Requests.{
  Requests, Input, step, run, request_timed_out, list_timed_out, no_requests,
}
use thelounge.IrssiClient.Settled.{sent, waiting, AreFresh, sent-append, once, settled, run-waiting}

-- The timers that are armed: one for each promise.
request_timers : Dict String → List (Bool × Input)
request_timers [] = []
request_timers ((id, type) ∷ m) = (true, Input.request_timeout id) ∷ request_timers m

list_timers : Dict String → List (Bool × Input)
list_timers [] = []
list_timers ((id, type) ∷ m) = (true, Input.list_timeout id) ∷ list_timers m

unfoldable pub armed : Requests → List (Bool × Input)
unfolding request_timers list_timers
armed this = request_timers this.pending_requests ++ list_timers this.pending_list_requests

run-append :
    (xs ys : List (Bool × Input)) (this : Requests)
    → (run (xs ++ ys) this).0 ≡ (run ys (run xs this).0).0
unfolding run
run-append [] ys this = refl
run-append ((is_ready, input) ∷ xs) ys this = run-append xs ys (step is_ready input this).0

timeout-has :
    (k id : String) (this : Requests)
    → has id (step true (Input.request_timeout k) this).0.pending_requests
      ≡ (if str_eq k id then false else has id this.pending_requests)
unfolding step request_timed_out
timeout-has k id this = ground (arith, get-delete k id this.pending_requests, eq_iff k id)

timeout-lists :
    (k : String) (this : Requests)
    → (step true (Input.request_timeout k) this).0.pending_list_requests
      ≡ this.pending_list_requests
unfolding step request_timed_out
timeout-lists k this = ground arith

list_timeout-has :
    (k id : String) (this : Requests)
    → has id (step true (Input.list_timeout k) this).0.pending_list_requests
      ≡ (if str_eq k id then false else has id this.pending_list_requests)
unfolding step list_timed_out
list_timeout-has k id this = ground (arith, get-delete k id this.pending_list_requests, eq_iff k id)

list_timeout-requests :
    (k : String) (this : Requests)
    → (step true (Input.list_timeout k) this).0.pending_requests ≡ this.pending_requests
unfolding step list_timed_out
list_timeout-requests k this = ground arith

-- After the timers of some ids no promise waits under them, and the other map is as it was.
run-request_timers :
    (id : String) (m : Dict String) (this : Requests)
    → (has id this.pending_requests ≡ true → has id m ≡ true)
    → (has id (run (request_timers m) this).0.pending_requests ≡ false)
      × ((run (request_timers m) this).0.pending_list_requests ≡ this.pending_list_requests)
unfolding run request_timers get
run-request_timers id [] this h = (ground (arith, h), refl)
run-request_timers id ((k, type) ∷ m) this h =
    let next : Requests = (step true (Input.request_timeout k) this).0 in
    let (gone, same) =
      run-request_timers id m next (λ e. ground (arith, h, e, timeout-has k id this)) in
    (gone, same ∙ timeout-lists k this)

run-list_timers :
    (id : String) (m : Dict String) (this : Requests)
    → (has id this.pending_list_requests ≡ true → has id m ≡ true)
    → (has id (run (list_timers m) this).0.pending_list_requests ≡ false)
      × ((run (list_timers m) this).0.pending_requests ≡ this.pending_requests)
unfolding run list_timers get
run-list_timers id [] this h = (ground (arith, h), refl)
run-list_timers id ((k, type) ∷ m) this h =
    let next : Requests = (step true (Input.list_timeout k) this).0 in
    let (gone, same) =
      run-list_timers id m next (λ e. ground (arith, h, e, list_timeout-has k id this)) in
    (gone, same ∙ list_timeout-requests k this)

request_timers-AreFresh : (m : Dict String) (this : Requests) → AreFresh (request_timers m) this
unfolding request_timers
request_timers-AreFresh [] this = tt
request_timers-AreFresh ((k, type) ∷ m) this =
    (refl, request_timers-AreFresh m (step true (Input.request_timeout k) this).0)

list_timers-AreFresh : (m : Dict String) (this : Requests) → AreFresh (list_timers m) this
unfolding list_timers
list_timers-AreFresh [] this = tt
list_timers-AreFresh ((k, type) ∷ m) this =
    (refl, list_timers-AreFresh m (step true (Input.list_timeout k) this).0)

AreFresh-append :
    (xs ys : List (Bool × Input)) (this : Requests)
    → AreFresh xs this
    → AreFresh ys (run xs this).0
    → AreFresh (xs ++ ys) this
unfolding run
AreFresh-append [] ys this f g = g
AreFresh-append ((is_ready, input) ∷ xs) ys this (f, fs) g =
    (f, AreFresh-append xs ys (step is_ready input this).0 fs g)

-- Timers send nothing.
timeout-sent :
    (id k : String) (this : Requests) → sent id (step true (Input.request_timeout k) this).1 ≡ 0
unfolding step request_timed_out sent
timeout-sent id k this = ground arith

list_timeout-sent :
    (id k : String) (this : Requests) → sent id (step true (Input.list_timeout k) this).1 ≡ 0
unfolding step list_timed_out sent
list_timeout-sent id k this = ground arith

timers-sent :
    (id : String) (m l : Dict String) (this : Requests)
    → sent id (run (request_timers m ++ list_timers l) this).1 ≡ 0
unfolding run request_timers list_timers sent
timers-sent id [] [] this = refl
timers-sent id [] ((k, type) ∷ l) this =
    let next : Requests = (step true (Input.list_timeout k) this).0 in
    omega (
      arith,
      list_timeout-sent id k this,
      timers-sent id [] l next,
      sent-append id (step true (Input.list_timeout k) this).1 (run (list_timers l) next).1,
    )
timers-sent id ((k, type) ∷ m) l this =
    let next : Requests = (step true (Input.request_timeout k) this).0 in
    omega (
      arith,
      timeout-sent id k this,
      timers-sent id m l next,
      sent-append id (step true (Input.request_timeout k) this).1
          (run (request_timers m ++ list_timers l) next).1,
    )

armed-waiting : (id : String) (this : Requests) → waiting id (run (armed this) this).0 ≡ 0
unfolding armed waiting once
armed-waiting id this =
    let m : Dict String = this.pending_requests in
    let l : Dict String = this.pending_list_requests in
    let mid : Requests = (run (request_timers m) this).0 in
    let (gone, same) = run-request_timers id m this (λ e. e) in
    let (gone_too, kept) = run-list_timers id l mid (λ e. ground (arith, e, same)) in
    ground (arith, run-append (request_timers m) (list_timers l) this, gone, gone_too, kept)

armed-AreFresh : (this : Requests) → AreFresh (armed this) this
unfolding armed
armed-AreFresh this =
    AreFresh-append (request_timers this.pending_requests) (list_timers this.pending_list_requests)
      this (request_timers-AreFresh this.pending_requests this)
      (list_timers-AreFresh this.pending_list_requests _)

armed-sent : (id : String) (this : Requests) → sent id (run (armed this) this).1 ≡ 0
unfolding armed
armed-sent id this = timers-sent id this.pending_requests this.pending_list_requests this

-- From no promises on, whatever is asked, answered and timed out: no id is settled more often than
-- it was sent, and once the armed timers ran out every id was settled as often as it was sent. No
-- request had an id under which a promise was waiting.
pub run-settled :
    (inputs : List (Bool × Input)) (id : String)
    → AreFresh inputs no_requests
    → (settled id (run inputs no_requests).1 ≤ sent id (run inputs no_requests).1)
      × (settled id (run inputs no_requests).1
            + settled id (run (armed (run inputs no_requests).0) (run inputs no_requests).0).1
          ≡ sent id (run inputs no_requests).1)
unfolding waiting once get
run-settled inputs id f =
    let this : Requests = (run inputs no_requests).0 in
    let before = run-waiting id inputs no_requests f in
    let after = run-waiting id (armed this) this (armed-AreFresh this) in
    let quiet = armed-sent id this in
    let none_waits = armed-waiting id this in
    let start : waiting id no_requests ≡ 0 = refl in
    (omega (arith, before, start), omega (arith, before, after, quiet, none_waits, start))
