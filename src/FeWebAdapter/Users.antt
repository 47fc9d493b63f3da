-- ===== src/FeWebAdapter/Users.antt =====
-- server/feWebClient/feWebAdapter.ts: the users of a channel.
pub mod Maps
use thelounge.Common.{
  ℕ, String, Bool, Option, none, some, List, [], ◌∷◌, str_eq, if◌then◌else◌, ltb, ◌==◌, is_some,
}
use thelounge.Common.Sort.{sort}
use thelounge.Common.Dict.{Dict, get, set, delete, values, has}
use thelounge.Models.Chan.{Chan}
use thelounge.Models.Prefix.{Prefix, PrefixObject, new_prefix}
use thelounge.Models.User.{User, new_user, mode}
use thelounge.FeWebAdapter.Network.{Runtime}

unfoldable pub add_user_to_channel : Runtime → String → Chan → Chan
add_user_to_channel runtime nick channel =
    if has (runtime.lower nick) channel.users then channel else record channel {
      users = set (runtime.lower nick) (new_user nick [] (new_prefix [])) channel.users;
    }

-- The channel, and whether the user was there.
unfoldable pub remove_user_from_channel : Runtime → String → Chan → Chan × Bool
remove_user_from_channel runtime nick channel = (
  record channel { users = delete (runtime.lower nick) channel.users },
  has (runtime.lower nick) channel.users,
)

mode_of : String → List PrefixObject → String
mode_of prefix [] = ""
mode_of prefix (p ∷ ps) = if str_eq p.symbol prefix then p.mode else mode_of prefix ps

unfoldable pub prefix_to_mode : String → Prefix → String
unfolding mode_of
prefix_to_mode prefix table = if str_eq prefix "" then "" else mode_of prefix table.prefix

-- One more than `modeOrder.indexOf(mode)`, so 0 where that is -1.
unfoldable pub mode_index : String → ℕ
mode_index mode =
    if str_eq mode "q"
    then 1
    else if str_eq mode "a"
    then 2
    else if str_eq mode "o"
    then 3
    else if str_eq mode "h"
    then 4
    else if str_eq mode "v"
    then 5
    else if str_eq mode ""
    then 6
    else 0

-- Whether the comparator of `sortChannelUsers` gives at most 0.
unfoldable pub user_le : Runtime → User → User → Bool
unfolding mode_index
user_le runtime a b =
    if mode_index (mode a) == mode_index (mode b)
    then runtime.compare_le (runtime.lower a.nick) (runtime.lower b.nick)
    else ltb (mode_index (mode a)) (mode_index (mode b))

-- The loop that fills the map again.
unfoldable pub set_users : Runtime → Dict User → List User → Dict User
set_users runtime users [] = users
set_users runtime users (u ∷ us) = set_users runtime (set (runtime.lower u.nick) u users) us

unfoldable pub sort_channel_users : Runtime → Chan → Chan
unfolding user_le set_users
sort_channel_users runtime channel = record channel {
  users = set_users runtime [] (sort (user_le runtime) (values channel.users));
}

-- A user gets a new nick, and moves to the end of the map under it.
unfoldable pub rename_user : Runtime → String → String → Option User → Chan → Chan
rename_user runtime old_nick new_nick none channel = channel
rename_user runtime old_nick new_nick (some user) channel = record channel {
  users =
      set (runtime.lower new_nick) (record user { nick = new_nick })
        (delete (runtime.lower old_nick) channel.users);
}

-- What `nick_change` and the task "change" do to each channel.
unfoldable pub rename_in_channel : Runtime → String → String → Chan → Chan
unfolding rename_user sort_channel_users
rename_in_channel runtime old_nick new_nick channel =
    let user = get (runtime.lower old_nick) channel.users in
    if is_some user
    then sort_channel_users runtime (rename_user runtime old_nick new_nick user channel)
    else channel
