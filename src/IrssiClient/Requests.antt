-- ===== src/IrssiClient/Requests.antt =====
-- server/irssiClient.ts: the requests about networks and servers of irssi's configuration.
-- `sendIrssiRequest`, `sendIrssiListRequest`, their timers and the answers; and `CommandResult` of
-- server/types/irssi-network.ts.
use thelounge.Common.{
  ℕ, ◌+◌, String, Bool, not, ◌&&◌, Option, none, some, List, [], ◌∷◌, ◌++◌, str_eq, if◌then◌else◌,
}
use thelounge.Common.Dict.{Dict, get, set, delete, has}

pub record CommandResult : Type 0 where
  pub success : Bool
  pub message : String
  pub error_code : String

-- The promises by the id of the request: `pending_requests` and `pending_list_requests`, each with
-- the type of its request, as its timer knows it. A promise and its timer are made and dropped as one.
pub record Requests : Type 0 where
  pub pending_requests : Dict String
  pub pending_list_requests : Dict String

abbrev pub no_requests : Requests
no_requests = record { pending_requests = []; pending_list_requests = [] }

-- `send_request` is what goes to irssi; the others settle the promise of an id.
pub data Outcome : Type 0 where
  send_request : String → String → Outcome
  resolve : String → CommandResult → Outcome
  resolve_list : String → List String → Outcome
  reject : String → String → Outcome

-- A request with its type and its id, an answer with the id that it is for (the empty text where it
-- has none), and a timer that runs out.
pub data Input : Type 0 where
  request list_request : String → String → Input
  command_result : String → CommandResult → Input
  list_response : String → List String → Input
  request_timeout list_timeout : String → Input

-- The ids are random; `is_ready` is whether the connection is there and connected. A request throws,
-- and makes nothing, where it is not.
unfoldable pub send_irssi_request : Bool → String → String → Requests → Requests × List Outcome
send_irssi_request is_ready type id this =
    if is_ready
    then (
      record this { pending_requests = set id type this.pending_requests },
      send_request type id ∷ [],
    )
    else (this, [])

unfoldable pub send_irssi_list_request : Bool → String → String → Requests → Requests × List Outcome
send_irssi_list_request is_ready type id this =
    if is_ready
    then (
      record this { pending_list_requests = set id type this.pending_list_requests },
      send_request type id ∷ [],
    )
    else (this, [])

unfoldable pub handle_command_result : String → CommandResult → Requests → Requests × List Outcome
handle_command_result response_to result this =
    if not (str_eq response_to "") && has response_to this.pending_requests
    then (
      record this { pending_requests = delete response_to this.pending_requests },
      resolve response_to result ∷ [],
    )
    else (this, [])

-- `handleNetworkListResponse` and `handleServerListResponse`: the list that the answer has, or none.
unfoldable pub handle_list_response : String → List String → Requests → Requests × List Outcome
handle_list_response response_to entries this =
    if not (str_eq response_to "") && has response_to this.pending_list_requests
    then (
      record this { pending_list_requests = delete response_to this.pending_list_requests },
      resolve_list response_to entries ∷ [],
    )
    else (this, [])

-- The timers of 10 seconds. One that was cleared does not run.
unfoldable pub request_timed_out : String → Option String → Requests → Requests × List Outcome
request_timed_out id none this = (this, [])
request_timed_out id (some type) this =
    (record this { pending_requests = delete id this.pending_requests }, reject id type ∷ [])

unfoldable pub list_timed_out : String → Option String → Requests → Requests × List Outcome
list_timed_out id none this = (this, [])
list_timed_out id (some type) this = (
  record this { pending_list_requests = delete id this.pending_list_requests },
  reject id type ∷ [],
)

unfoldable pub step : Bool → Input → Requests → Requests × List Outcome
unfolding request_timed_out list_timed_out
step is_ready (request type id) this = send_irssi_request is_ready type id this
step is_ready (list_request type id) this = send_irssi_list_request is_ready type id this
step is_ready (command_result id result) this = handle_command_result id result this
step is_ready (list_response id entries) this = handle_list_response id entries this
step is_ready (request_timeout id) this = request_timed_out id (get id this.pending_requests) this
step is_ready (list_timeout id) this = list_timed_out id (get id this.pending_list_requests) this

-- Inputs, each with whether the connection is ready then.
unfoldable pub run : List (Bool × Input) → Requests → Requests × List Outcome
run [] this = (this, [])
run ((is_ready, input) ∷ inputs) this =
    let (next, now) = step is_ready input this in
    let (last, later) = run inputs next in (last, now ++ later)

-- `addIrssiNetwork` from the answer about the network on: what each server's request gave, none
-- where it failed. The numbers are those of the message.
unfoldable pub count_servers : List (Option CommandResult) → ℕ × ℕ
count_servers [] = (0, 0)
count_servers (none ∷ rest) = let (good, bad) = count_servers rest in (good, bad + 1)
count_servers (some result ∷ rest) =
    let (good, bad) = count_servers rest in
    if result.success then (good + 1, bad) else (good, bad + 1)
