-- ===== src/IrssiClient/Commands.antt =====
-- server/irssiClient.ts: what a browser asks for. `handleInput`, `handleNamesRequest`,
-- `handlePartChannel` and `executeIrssiCommand`.
use Prim.Native.String.{◌++◌ as append}
use thelounge.Common.{
  ℕ, String, Bool, true, false, not, Option, none, some, List, [], ◌∷◌, ◌++◌, any, ◌==◌,
  if◌then◌else◌, codes, is_some,
}
use thelounge.Common.Texts.{split, after_first}
use thelounge.Message.Style.Clean.{is_space}
use thelounge.Models.Chan.{Chan, is_channel, is_query}
use thelounge.FeWebAdapter.Network.{Runtime, NetworkData}
use thelounge.IrssiClient.State.{
  IrssiClient, Packet, Effect, broadcast_to_all_browsers, find_network, find_chan, find_target,
}
use thelounge.IrssiClient.Callbacks.{change_network, remove_first}
use thelounge.IrssiClient.Translate.{
  Translation, send_window_command, is_one_of, words, translate_command,
}

-- `!line.trim()`
unfoldable pub is_blank : String → Bool
is_blank line = not (any (λ c. not (is_space c)) (codes line))

slashes : List ℕ → ℕ
slashes (c ∷ d ∷ _) = if c == 47 then (if d == 47 then 2 else 1) else 0
slashes (c ∷ []) = if c == 47 then 1 else 0
slashes [] = 0

-- A line that starts with one slash is a command, with two an escaped message.
unfoldable pub is_command : String → Bool
unfolding slashes
is_command line = slashes (codes line) == 1

unfoldable pub message_text : String → String
unfolding slashes
message_text line = if slashes (codes line) == 2 then after_first line else line

unfoldable pub first_word : List String → String
first_word [] = ""
first_word (w ∷ _) = w

unfoldable pub other_words : List String → List String
other_words [] = []
other_words (_ ∷ ws) = ws

manages_windows : Runtime → String → Bool
unfolding first_word
manages_windows runtime command =
    is_one_of (runtime.lower (first_word (split 32 command)))
      ("join" ∷ "part" ∷ "quit" ∷ "disconnect" ∷ "close" ∷ "wc" ∷ [])

unfoldable pub send_command : Runtime → String → NetworkData → IrssiClient → List Effect
unfolding manages_windows
send_command runtime command network this =
    Effect.execute_command command network.server_tag
    ∷ (if manages_windows runtime command then send_window_command network.server_tag this else [])

unfoldable pub send_translated :
    Runtime → String → NetworkData → IrssiClient → Translation → List Effect
unfolding send_command
send_translated runtime line network this Translation.handled = []
send_translated runtime line network this Translation.as_it_is =
    send_command runtime (after_first line) network this
send_translated runtime line network this (Translation.changed text) =
    send_command runtime text network this

-- One line for a channel of a network.
unfoldable pub line_in :
    Runtime → String → NetworkData → Chan → IrssiClient → IrssiClient × List Effect
unfolding send_translated first_word other_words
line_in runtime line network channel this =
    let parts = split 32 (after_first line) in
    let (translated, translation, effects) =
      translate_command runtime (runtime.lower (first_word parts)) (other_words parts) channel
        network this in
    if is_command line
    then (translated, effects ++ send_translated runtime line network translated translation)
    else (
      this,
      Effect.execute_command (words ("msg" ∷ channel.name ∷ message_text line ∷ []))
            network.server_tag
          ∷ [],
    )

-- A line with text for a target that is not there ends the loop.
unfoldable pub line_for :
    Runtime → String → Option (NetworkData × Chan) → IrssiClient → IrssiClient × Bool × List Effect
line_for runtime line none this = (this, false, [])
line_for runtime line (some (network, channel)) this =
    let (sent, effects) = line_in runtime line network channel this in (sent, true, effects)

unfoldable pub input_lines : Runtime → ℕ → List String → IrssiClient → IrssiClient × List Effect
unfolding line_for
input_lines runtime target [] this = (this, [])
input_lines runtime target (line ∷ lines) this =
    let (sent, goes_on, effects) =
      if is_blank line
      then (this, true, [])
      else line_for runtime line (find_target target this.networks) this in
    let (last, later) = input_lines runtime target lines sent in
    if goes_on then (last, effects ++ later) else (sent, effects)

unfoldable pub handle_input : Runtime → ℕ → String → IrssiClient → IrssiClient × List Effect
handle_input runtime target text this =
    if is_some this.irssi_connection
    then input_lines runtime target (split 10 text) this
    else (this, [])

unfoldable pub names_of : Option (NetworkData × Chan) → List Effect
names_of none = []
names_of (some (network, channel)) =
    Effect.execute_command (append "names " channel.name) network.server_tag ∷ []

unfoldable pub handle_names_request : ℕ → IrssiClient → IrssiClient × List Effect
unfolding names_of
handle_names_request target this = (
  this,
  (if is_some this.irssi_connection then names_of (find_target target this.networks) else []),
)

unfoldable pub part_in_irssi : NetworkData → Chan → IrssiClient → List Effect
part_in_irssi network channel this =
    if is_some this.irssi_connection
    then (if is_channel channel.type
        then Effect.execute_command (append "part " channel.name) network.server_tag ∷ []
        else if is_query channel.type
        then Effect.close_query network.server_tag channel.name ∷ []
        else [])
      ++ send_window_command network.server_tag this
    else []

unfoldable pub part_found : Option Chan → NetworkData → IrssiClient → IrssiClient × List Effect
unfolding part_in_irssi change_network remove_first broadcast_to_all_browsers
part_found none network this = (this, [])
part_found (some channel) network this = (
  change_network network.uuid
      (λ n. record n { channels = remove_first (λ c. c.id == channel.id) n.channels }) this,
  broadcast_to_all_browsers (Packet.chan_part channel.id) this
      ++ part_in_irssi network channel this,
)

unfoldable pub part_of : ℕ → Option NetworkData → IrssiClient → IrssiClient × List Effect
unfolding part_found find_chan
part_of id none this = (this, [])
part_of id (some network) this = part_found (find_chan id network.channels) network this

-- What other handlers do while the source waits for an import, between finding the channel and taking
-- it out, is left out: the handler is one step.
unfoldable pub handle_part_channel : String → ℕ → IrssiClient → IrssiClient × List Effect
unfolding part_of find_network
handle_part_channel uuid id this = part_of id (find_network uuid this.networks) this

-- The effects, or none where it throws.
unfoldable pub execute_irssi_command : String → String → IrssiClient → Option (List Effect)
execute_irssi_command command server this =
    if is_some this.irssi_connection
    then some (Effect.execute_command command server ∷ [])
    else none
