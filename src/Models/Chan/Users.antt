-- ===== src/Models/Chan/Users.antt =====
-- server/models/chan.ts: the users of a channel, under their nicks in lower case.
use thelounge.Common.{String, Option, [], or_default}
use thelounge.Common.Dict.{get, set, delete}
use thelounge.Models.Prefix.{new_prefix}
use thelounge.Models.User.{User, new_user}
use thelounge.Models.Chan.{Chan}

-- `lower` is `String.prototype.toLowerCase`.
module _ (lower : String → String) where
  unfoldable pub find_user : String → Chan → Option User
  find_user nick this = get (lower nick) this.users

  unfoldable pub get_user : String → Chan → User
  unfolding find_user
  get_user nick this = or_default (find_user nick this) (new_user nick [] (new_prefix []))

  unfoldable pub set_user : User → Chan → Chan
  set_user user this = record this { users = set (lower user.nick) user this.users }

  unfoldable pub remove_user : User → Chan → Chan
  remove_user user this = record this { users = delete (lower user.nick) this.users }
