-- ===== src/FeWebSocket/Tests.antt =====
-- Runs of the socket of server/feWebClient/feWebSocket.ts.
use thelounge.Common.{
  ◌≡◌, ◌≢◌, refl, String, true, false, none, some, List, [], ◌∷◌, codes, arith, eq_iff, All,
}
use thelounge.Common.Dict.{get}
use thelounge.FeWebSocket.Sending.{FeWebSocket, ready, send, sync_server, with_slash, is_open}
use thelounge.FeWebSocket.Connection.{
  Surroundings, text, Input, connect_called, socket_opened, socket_closed, frame_received,
  reconnect_timer_fired, step, run, connect, opened, handle_close, schedule, reconnect, disconnect,
  dispatch, authenticate, authenticate_one, handle_message, frame_text, calls,
}
use thelounge.FeWebSocket.Scheduled.{delays, schedules}
use thelounge.FeWebSocket.Laws.{IsWithin, IsDelay, run-IsDelay, run-disconnect}
use thelounge.FeWebSocket.Handlers.{syncs, dispatch-syncs}

abbrev env : Surroundings
env = record {
  crypto = record {
    pbkdf2 = λ password salt iterations size. none;
    seal = λ key iv message. (message, []);
    unseal = λ key iv ciphertext tag. some ciphertext;
    to_utf8 = codes;
    of_utf8 = λ bytes. "";
  };
  message_type = λ json. some "auth_ok";
}

abbrev fresh : FeWebSocket
fresh = record {
  config = record {
    default_server = "*";
    reconnect = true;
    reconnect_delay = 1000;
    max_reconnect_delay = 30000;
  };
  ws = none;
  ws_attempt = 0;
  reconnect_timer = false;
  ping_interval_timer = false;
  current_reconnect_delay = 1000;
  message_handlers = [];
  is_connected = false;
  is_authenticated = false;
  message_id_counter = 0;
  encryption = none;
  auth_listeners = [];
  attempts = 0;
}

-- A first attempt that is closed before it is authenticated, and a second one that succeeds.
abbrev inputs : List Input
inputs =
    connect_called true
    ∷ socket_opened 0
    ∷ socket_closed 0 1006
    ∷ reconnect_timer_fired true
    ∷ socket_opened 1
    ∷ frame_received 5 (text "{}")
    ∷ []

-- The default server is synchronised twice.
synced_twice : syncs (run env inputs fresh).1 ≡ 2
unfolding run step connect opened handle_close schedule reconnect handle_message frame_text dispatch
    authenticate authenticate_one sync_server send calls get
synced_twice = refl

slash : with_slash "join #a" ≡ "/join #a"
unfolding with_slash
slash = refl

run-IsDelay_example :
    All (IsWithin fresh.config) (delays (run env inputs fresh).1) × IsDelay (run env inputs fresh).0
run-IsDelay_example = run-IsDelay env inputs fresh (omega arith, omega arith)

run-disconnect_example : schedules (run env inputs (disconnect fresh).0).1 ≡ 0
run-disconnect_example = run-disconnect env inputs fresh

abbrev connected : FeWebSocket
connected = record fresh {
  ws = some ready;
  auth_listeners = 0 ∷ 1 ∷ [];
  ws_attempt = 1;
  attempts = 2;
}

dispatch-syncs_example : syncs (dispatch 5 "auth_ok" "{}" connected).1 ≡ 2
unfolding is_open
dispatch-syncs_example = dispatch-syncs 5 "{}" connected refl given
  where
    given : ◌≢◌ {A = String} "*" ""
    given = ground (arith, eq_iff "*" "")
