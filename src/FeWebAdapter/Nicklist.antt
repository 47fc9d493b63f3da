-- ===== src/FeWebAdapter/Nicklist.antt =====
-- server/feWebClient/feWebAdapter.ts: the handlers of nicklists and of their updates.
use thelounge.Common.{
  String, Bool, true, false, not, Option, none, some, List, [], ◌∷◌, ◌++◌, map, filter, any, str_eq,
  if◌then◌else◌,
}
use thelounge.Common.Dict.{Dict, get, set, values, has}
use thelounge.Models.Chan.{Chan}
use thelounge.Models.Prefix.{Prefix}
use thelounge.Models.User.{User, new_user}
use thelounge.FeWebAdapter.Network.{Runtime, NetworkData, find_channel, change_channel}
use thelounge.FeWebAdapter.Users.{
  add_user_to_channel, prefix_to_mode, sort_channel_users, rename_in_channel,
}
use thelounge.FeWebAdapter.State.{
  FeWebAdapter, FeWebMessage, Event, on_nicklist_update, put_network,
}
use thelounge.FeWebAdapter.Talk.{remove_in}
use thelounge.FeWebAdapter.NickChange.{with_own_nick, own_nick_event}

listed_user : Prefix → String → String → User
unfolding prefix_to_mode
listed_user table nick prefix =
    let mode = prefix_to_mode prefix table in
    new_user nick (if str_eq mode "" then [] else mode ∷ []) table

-- The loop over the nicklist.
unfoldable pub add_listed : Runtime → Prefix → Dict User → List (String × String) → Dict User
unfolding listed_user
add_listed runtime table users [] = users
add_listed runtime table users ((nick, prefix) ∷ rest) =
    add_listed runtime table (set (runtime.lower nick) (listed_user table nick prefix) users) rest

unfoldable pub replace_users : Runtime → Prefix → List (String × String) → Chan → Chan
unfolding add_listed sort_channel_users
replace_users runtime table nicklist channel =
    sort_channel_users runtime (record channel { users = add_listed runtime table [] nicklist })

-- `JSON.parse(msg.text || "[]")`
parsed_nicklist : Runtime → String → Option (List (String × String))
parsed_nicklist runtime text = if str_eq text "" then some [] else runtime.parse_nicklist text

-- The network with the changed channel, and the update that the browsers get of it.
update_users :
    Runtime
    → FeWebMessage
    → FeWebAdapter
    → NetworkData
    → Chan
    → (Chan → Chan)
    → FeWebAdapter × List Event
unfolding change_channel put_network
update_users runtime msg this network channel f = (
  put_network (change_channel runtime msg.channel f network) this,
  on_nicklist_update network.uuid channel.id (values (f channel).users) ∷ [],
)

nicklist_in :
    Runtime
    → FeWebMessage
    → FeWebAdapter
    → NetworkData
    → Option Chan
    → Option (List (String × String))
    → FeWebAdapter × List Event
unfolding update_users replace_users
nicklist_in runtime msg this network none nicklist = (this, [])
nicklist_in runtime msg this network (some channel) none = (this, [])
nicklist_in runtime msg this network (some channel) (some nicklist) =
    update_users runtime msg this network channel
      (replace_users runtime network.server_options.prefix nicklist)

unfoldable pub handle_nicklist :
    Runtime → FeWebMessage → FeWebAdapter → NetworkData → FeWebAdapter × List Event
unfolding nicklist_in parsed_nicklist
handle_nicklist runtime msg this network =
    nicklist_in runtime msg this network (find_channel runtime msg.channel network.channels)
      (parsed_nicklist runtime msg.text)

-- The tasks of a nicklist update. A task that is missing or unknown changes nothing.
pub data Task : Type 0 where
  add remove change : Task
  add_mode remove_mode : String → Task
  unknown : Task

unfoldable pub task_of : String → Task
task_of task =
    if str_eq task "add"
    then Task.add
    else if str_eq task "remove"
    then Task.remove
    else if str_eq task "change"
    then Task.change
    else if str_eq task "+o"
    then add_mode "o"
    else if str_eq task "-o"
    then remove_mode "o"
    else if str_eq task "+v"
    then add_mode "v"
    else if str_eq task "-v"
    then remove_mode "v"
    else if str_eq task "+h"
    then add_mode "h"
    else if str_eq task "-h"
    then remove_mode "h"
    else Task.unknown

has_symbol : String → Option String → Bool
has_symbol symbol none = false
has_symbol symbol (some s) = str_eq s symbol

unfoldable pub with_symbol : Bool → String → User → User
unfolding has_symbol
with_symbol is_adding symbol user =
    if is_adding
    then (if any (has_symbol symbol) user.modes
        then user
        else record user { modes = some symbol ∷ user.modes })
    else record user { modes = filter (λ m. not (has_symbol symbol m)) user.modes }

-- The mode change of a user that is there, by the symbol of the mode; nothing without either.
unfoldable pub mode_change_in :
    Runtime
    → FeWebMessage
    → Bool
    → FeWebAdapter
    → NetworkData
    → Chan
    → Option User
    → Option String
    → FeWebAdapter × List Event
unfolding with_symbol sort_channel_users update_users
mode_change_in runtime msg is_adding this network channel none symbol = (this, [])
mode_change_in runtime msg is_adding this network channel (some user) none = (this, [])
mode_change_in runtime msg is_adding this network channel (some user) (some symbol) =
    if str_eq symbol ""
    then (this, [])
    else update_users runtime msg this network channel (λ c. sort_channel_users runtime (record c {
      users = set (runtime.lower msg.nick) (with_symbol is_adding symbol user) c.users;
    }))

-- The update of every channel that has the new nick.
unfoldable pub updates_of : Runtime → String → String → List Chan → List Event
updates_of runtime uuid new_nick [] = []
updates_of runtime uuid new_nick (c ∷ cs) =
    let rest = updates_of runtime uuid new_nick cs in
    if has (runtime.lower new_nick) c.users
    then on_nicklist_update uuid c.id (values c.users) ∷ rest
    else rest

-- The task "change".
unfoldable pub change_task :
    Runtime → FeWebMessage → FeWebAdapter → NetworkData → FeWebAdapter × List Event
unfolding with_own_nick own_nick_event rename_in_channel updates_of put_network
change_task runtime msg this network =
    let new_nick = msg.extra.new_nick in
    let channels = map (rename_in_channel runtime msg.nick new_nick) network.channels in
    if str_eq new_nick "" then (this, []) else (
      put_network (record (with_own_nick msg.nick new_nick network) { channels = channels }) this,
      own_nick_event msg.nick new_nick network ++ updates_of runtime network.uuid new_nick channels,
    )

unfoldable pub run_task :
    Runtime
    → FeWebMessage
    → Task
    → FeWebAdapter
    → NetworkData
    → Option Chan
    → FeWebAdapter × List Event
unfolding add_user_to_channel remove_in sort_channel_users update_users change_task mode_change_in
run_task runtime msg task this network none = (this, [])
run_task runtime msg Task.add this network (some channel) =
    update_users runtime msg this network channel
      (λ c. sort_channel_users runtime (add_user_to_channel runtime msg.nick c))
run_task runtime msg Task.remove this network (some channel) =
    update_users runtime msg this network channel
      (λ c. sort_channel_users runtime (remove_in runtime msg.nick c))
run_task runtime msg Task.change this network (some channel) = change_task runtime msg this network
run_task runtime msg (add_mode m) this network (some channel) =
    mode_change_in runtime msg true this network channel
      (get (runtime.lower msg.nick) channel.users)
      (get m network.server_options.prefix.mode_to_symbol)
run_task runtime msg (remove_mode m) this network (some channel) =
    mode_change_in runtime msg false this network channel
      (get (runtime.lower msg.nick) channel.users)
      (get m network.server_options.prefix.mode_to_symbol)
run_task runtime msg Task.unknown this network (some channel) = (this, [])

unfoldable pub handle_nicklist_update :
    Runtime → FeWebMessage → FeWebAdapter → NetworkData → FeWebAdapter × List Event
unfolding run_task task_of
handle_nicklist_update runtime msg this network =
    run_task runtime msg (task_of msg.task) this network
      (find_channel runtime msg.channel network.channels)
