-- ===== src/IrssiClient/Tests.antt =====
-- Runs of the client of server/irssiClient.ts with two browsers and one network.
use thelounge.Common.{ℕ, ◌≡◌, refl, true, none, some, List, [], ◌∷◌, Bool, All, ◌↔◌, ◌≤◌, ◌⊎◌, ◌+◌}
use thelounge.Models.Chan.{Chan, ChanType, ChanState, new_chan}
use thelounge.Models.Msg.{Msg, MessageType, new_msg}
use thelounge.FeWebAdapter.Network.{Runtime, NetworkData, default_prefix}
use thelounge.IrssiClient.Loading.{MessageStorage}
use thelounge.IrssiClient.Requests
use thelounge.IrssiClient.Run.{Input, Given, run, step, new_client, new_system}
use thelounge.IrssiClient.Broadcasts.{Told}
use thelounge.Common.Texts.{has_char}
use thelounge.IrssiClient.State.{IrssiClient, find_network, find_chan, get_marker_key}
use thelounge.Common.Dict.{get, set, delete}
use thelounge.IrssiClient.Settled.{waiting, once, settled, sent}
use thelounge.IrssiClient.OneLine.{AreLines, IsNamed}
use thelounge.IrssiClient.Commands.{handle_part_channel, handle_input}
use thelounge.IrssiClient.Uniform.Steps.{step-Told}
use thelounge.IrssiClient.Callbacks.{place_of, handle_message}
use thelounge.IrssiClient.Parts.{handle_part_channel-again}
use thelounge.IrssiClient.Seen.{counts_for, IsOpen}
use thelounge.IrssiClient.OneLine.Input.{handle_input-lines}
use thelounge.IrssiClient.Requests.{no_requests}
use thelounge.IrssiClient.Settled.Timers.{armed, run-settled}
use thelounge.IrssiClient.Seen.Unread.{handle_message-unread}

-- Texts without capitals.
abbrev runtime : Runtime
runtime = record {
  lower = λ s. s;
  compare_le = λ a b. true;
  base_le = λ a b. true;
  parse_nicklist = λ s. none;
}

abbrev storage : MessageStorage
storage = record {
  load_unread_markers = some (("u:#a", 5) ∷ []);
  get_message_count = λ u c. some 1;
  get_last_messages = λ u c n. some (new_msg MessageType.message 7 ∷ []);
  get_messages_before = λ u c t n. some [];
  get_unread_count = λ u c t. some 1;
}

abbrev at : ℕ → Given
at now = record { now = now; storage = storage }

abbrev network : NetworkData
network = record {
  uuid = "u";
  name = "net";
  nick = "me";
  server_tag = "net";
  channels =
      new_chan 1 "net" ChanType.lobby ChanState.joined
      ∷ new_chan 2 "#a" ChanType.channel ChanState.joined
      ∷ [];
  connected = true;
  server_options = record { chantypes = []; prefix = default_prefix; network = "net" };
}

abbrev hello : Msg
hello = record (new_msg MessageType.message 9) { from = "bob"; text = "hello" }

abbrev inputs : List (Given × Input)
inputs =
    (at 1, Input.attach "s" none none)
    ∷ (at 2, Input.attach "t" none none)
    ∷ (at 3, Input.init none (network ∷ []))
    ∷ (at 4, Input.opened "s" 2)
    ∷ []

step-Told_example :
    let system = (run runtime inputs (new_system (some true) true (some 3))).0 in
    Told system.client.attached_browsers (step runtime (at 5) (Input.message "u" 2 hello) system).1
step-Told_example =
    step-Told runtime inputs (some true) true (some 3) (at 5) (Input.message "u" 2 hello) refl

-- Both browsers are attached at the end.
abbrev client : IrssiClient
client = record (new_client (some true) true (some 3)) {
  networks = network ∷ [];
  attached_browsers = ("s", some 2) ∷ ("t", none) ∷ [];
}

abbrev chan : Chan
chan = new_chan 2 "#a" ChanType.channel ChanState.joined

handle_message-unread_example :
    (n : ℕ) × (counts_for "t" (handle_message runtime 5 "u" chan.id hello client).1 ≡ n ∷ [])
    × ((n ≡ 0) ↔ (
        (hello.self ≡ true)
        ⊎ (IsOpen chan.id client.attached_browsers
            ⊎ (client.active_window_in_irssi
                ≡ some (get_marker_key runtime network.uuid chan.name)))))
unfolding get place_of find_network find_chan
handle_message-unread_example =
    handle_message-unread "t" runtime 5 "u" hello client network chan (refl, (refl, tt)) refl refl

abbrev requested : List (Bool × Requests.Input)
requested =
    (true, Requests.Input.request "network_add" "req-1")
    ∷ (true, Requests.Input.list_request "network_list" "req-2")
    ∷ (
      true,
      Requests.Input.command_result "req-1"
          (record { success = true; message = ""; error_code = "" }),
    )
    ∷ []

run-settled_example :
    (settled "req-2" (Requests.run requested no_requests).1
      ≤ sent "req-2" (Requests.run requested no_requests).1)
    × (settled "req-2" (Requests.run requested no_requests).1
          + settled "req-2"
              (Requests.run
                (armed (Requests.run requested no_requests).0)
                (Requests.run requested no_requests).0).1
        ≡ sent "req-2" (Requests.run requested no_requests).1)
unfolding waiting once get set delete Requests.step Requests.send_irssi_request
run-settled_example = run-settled requested "req-2" (refl, (refl, (refl, tt)))

handle_input-lines_example :
    AreLines (handle_input runtime 2 "hi\n/kick bob" client).1
    × All IsNamed (handle_input runtime 2 "hi\n/kick bob" client).0.networks
unfolding has_char
handle_input-lines_example =
    handle_input-lines runtime (λ s h. h) 2 "hi\n/kick bob" client ((refl, (refl, (refl, tt))), tt)

handle_part_channel-again_example :
    handle_part_channel "u" 2 (handle_part_channel "u" 2 client).0
    ≡ ((handle_part_channel "u" 2 client).0, [])
unfolding find_network
handle_part_channel-again_example =
    handle_part_channel-again "u" 2 client network refl ((refl, tt), (tt, tt))
