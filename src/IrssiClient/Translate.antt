-- ===== src/IrssiClient/Translate.antt =====
-- server/irssiClient.ts: `translateCommand` and `sendWindowCommand`.
use Prim.Native.String.{◌++◌ as append}
use thelounge.Common.{
  ℕ, ◌+◌, String, Bool, true, false, ◌&&◌, ◌||◌, Option, none, some, List, [], ◌∷◌, ◌++◌, length,
  any, find?, ltb, ◌==◌, str_eq, if◌then◌else◌, codes, is_some,
}
use thelounge.Common.Texts.{join}
use thelounge.Models.Chan.{Chan, is_channel, is_query, is_lobby}
use thelounge.Models.Chan.Messages.{Active, get_filtered_clone}
use thelounge.FeWebAdapter.Network.{Runtime, NetworkData, query_channel}
use thelounge.IrssiClient.State.{IrssiClient, Packet, Effect, broadcast_to_all_browsers}
use thelounge.IrssiClient.Callbacks.{change_network, is_query_named}

-- The result: null, a command, or false.
pub data Translation : Type 0 where
  as_it_is handled : Translation
  changed : String → Translation

has_browsers : IrssiClient → Bool
has_browsers this = ltb 0 (length this.attached_browsers)

unfoldable pub send_window_command : String → IrssiClient → List Effect
unfolding has_browsers
send_window_command server_tag this =
    if has_browsers this && is_some this.irssi_connection
    then Effect.execute_command "window 1" server_tag ∷ []
    else []

-- Words with blanks between them.
abbrev pub words : List String → String
words ws = join " " ws

-- `a ∈ [...]`, as `includes` of an array and as the labels of one `case`.
unfoldable pub is_one_of : String → List String → Bool
is_one_of text texts = any (str_eq text) texts

unfoldable pub close_command : Chan → NetworkData → IrssiClient → Translation × List Effect
close_command channel network this =
    if is_channel channel.type
    then (Translation.changed (append "part " channel.name), [])
    else if is_query channel.type
    then (
      Translation.handled,
      (if is_some this.irssi_connection
            then Effect.close_query network.server_tag channel.name ∷ []
            else [])
          ++ send_window_command network.server_tag this,
    )
    else (Translation.as_it_is, [])

-- `modeMap`, for its six keys.
unfoldable pub mode_string : String → String
mode_string command =
    if str_eq command "op"
    then "+o"
    else if str_eq command "deop"
    then "-o"
    else if str_eq command "voice"
    then "+v"
    else if str_eq command "devoice"
    then "-v"
    else if str_eq command "hop"
    then "+h"
    else "-h"

signed_from : List ℕ → Bool
signed_from [] = false
signed_from (c ∷ _) = c == 43 || c == 45

-- A first argument that starts with + or -.
unfoldable pub is_mode_change : List String → Bool
unfolding signed_from
is_mode_change [] = false
is_mode_change (arg ∷ args) = signed_from (codes arg)

unfoldable pub has_arguments : List String → Bool
has_arguments [] = false
has_arguments (_ ∷ _) = true

unfoldable pub is_one : List String → Bool
is_one (_ ∷ []) = true
is_one _ = false

unfoldable pub action_text : String → List String → String
action_text command [] = words []
action_text command (arg ∷ args) =
    if str_eq command "slap"
    then append "slaps " (append arg " around a bit with a large trout")
    else words (arg ∷ args)

-- The cases that need no more than the channel. A channel stands before the arguments of a command.
unfoldable pub translate_text : String → List String → Chan → NetworkData → Translation
unfolding action_text
translate_text command args channel network =
    let channel_first = words (command ∷ channel.name ∷ args) in
    let in_channel = is_channel channel.type && has_arguments args in
    if is_one_of command ("kick" ∷ "kickban" ∷ "ban" ∷ "unban" ∷ [])
    then (if in_channel then Translation.changed channel_first else Translation.as_it_is)
    else if str_eq command "invite"
    then (if is_channel channel.type && is_one args
        then Translation.changed (words ("invite" ∷ words args ∷ channel.name ∷ []))
        else Translation.as_it_is)
    else if str_eq command "banlist"
    then Translation.changed (words ("mode" ∷ channel.name ∷ "+b" ∷ []))
    else if str_eq command "mode"
    then (if in_channel && is_mode_change args
        then Translation.changed (words ("mode" ∷ channel.name ∷ args))
        else Translation.as_it_is)
    else if is_one_of command ("op" ∷ "deop" ∷ "voice" ∷ "devoice" ∷ "hop" ∷ "dehop" ∷ [])
    then (if in_channel
        then Translation.changed (words ("mode" ∷ channel.name ∷ mode_string command ∷ args))
        else Translation.as_it_is)
    else if is_one_of command ("me" ∷ "slap" ∷ [])
    then (if is_channel channel.type || is_query channel.type
        then Translation.changed (words ("action" ∷ channel.name ∷ action_text command args ∷ []))
        else Translation.as_it_is)
    else if str_eq command "quit"
    then (if is_lobby channel.type
        then Translation.changed (words ("disconnect" ∷ network.server_tag ∷ []))
        else Translation.as_it_is)
    else if is_one_of command ("whois" ∷ "wii" ∷ [])
    then (if is_one args
        then Translation.changed (words ("whois" ∷ words args ∷ words args ∷ []))
        else Translation.as_it_is)
    else Translation.as_it_is

-- A query window that is not there yet: in the network, in the browsers and in irssi.
unfoldable pub create_query :
    Bool → String → NetworkData → ℕ → IrssiClient → IrssiClient × List Effect
unfolding change_network broadcast_to_all_browsers
create_query should_open nick network id this =
    let chan = query_channel nick id in
    (
      change_network network.uuid (λ n. record n { channels = n.channels ++ chan ∷ [] })
          (record this { next_channel_id = some (id + 1) }),
      broadcast_to_all_browsers
            (Packet.chan_join should_open id network.uuid
              (get_filtered_clone Active.this_one 0 chan))
            this
          ++ (if is_some this.irssi_connection
              then Effect.execute_command (append "query " nick) network.server_tag ∷ []
              else [])
          ++ send_window_command network.server_tag this,
    )

-- What is sent once the query is there.
unfoldable pub private_message : String → List String → Translation
private_message nick message =
    if str_eq (words message) ""
    then Translation.handled
    else Translation.changed (words ("msg" ∷ nick ∷ words message ∷ []))

unfoldable pub query_missing :
    String
    → String
    → List String
    → NetworkData
    → Option ℕ
    → IrssiClient
    → IrssiClient × Translation × List Effect
unfolding create_query private_message
query_missing command nick message network none this = (this, Translation.as_it_is, [])
query_missing command nick message network (some id) this =
    let (created, effects) = create_query (str_eq command "query") nick network id this in
    (created, private_message nick message, effects)

unfoldable pub translate_query :
    Runtime
    → String
    → List String
    → NetworkData
    → IrssiClient
    → IrssiClient × Translation × List Effect
unfolding query_missing private_message is_query_named
translate_query runtime command [] network this = (this, Translation.as_it_is, [])
translate_query runtime command (nick ∷ message) network this =
    if is_some (find? (is_query_named runtime nick) network.channels)
    then (this, private_message nick message, [])
    else query_missing command nick message network this.next_channel_id this

unfoldable pub translate_command :
    Runtime
    → String
    → List String
    → Chan
    → NetworkData
    → IrssiClient
    → IrssiClient × Translation × List Effect
unfolding close_command translate_query
translate_command runtime command args channel network this =
    if str_eq command "close"
    then (let (closing, effects) = close_command channel network this in (this, closing, effects))
    else if is_one_of command ("msg" ∷ "query" ∷ [])
    then translate_query runtime command args network this
    else (this, translate_text command args channel network, [])
