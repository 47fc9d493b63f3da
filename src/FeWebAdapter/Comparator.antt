-- ===== src/FeWebAdapter/Comparator.antt =====
-- The comparator of sortChannelUsers of server/feWebClient/feWebAdapter.ts, on the modes that the
-- users of a network have.
use thelounge.Common.{refl, ◌≡◌, ◌⊎◌, inl, inr, true, false, str_eq, if◌then◌else◌, arith, String}
use thelounge.Models.User.{User, mode}
use thelounge.FeWebAdapter.Network.{Runtime}
use thelounge.FeWebAdapter.Users.{user_le, mode_index}

-- The modes of users are shown by the symbols of the default prefixes, or by nothing.
abbrev pub IsShown : String → Type 0
IsShown m = (m ≡ "") ⊎ (m ≡ "!") ⊎ (m ≡ "@") ⊎ (m ≡ "%") ⊎ (m ≡ "+")

mode_index-IsShown : (m : String) → IsShown m → mode_index m ≡ (if str_eq m "" then 6 else 0)
unfolding mode_index
mode_index-IsShown m (inl e) = rw e refl
mode_index-IsShown m (inr (inl e)) = rw e refl
mode_index-IsShown m (inr (inr (inl e))) = rw e refl
mode_index-IsShown m (inr (inr (inr (inl e)))) = rw e refl
mode_index-IsShown m (inr (inr (inr (inr e)))) = rw e refl

-- Where modes are shown by the symbols of the default prefixes, users with a mode come before users
-- without one, and two users with modes are compared by their nicks alone, whatever the modes: an
-- operator does not come before a voiced user. So are two users without modes.
pub user_le_lem :
    (runtime : Runtime) (a b : User)
    → IsShown (mode a)
    → IsShown (mode b)
    → user_le runtime a b ≡ (
        if str_eq (mode a) ""
        then (if str_eq (mode b) ""
            then runtime.compare_le (runtime.lower a.nick) (runtime.lower b.nick)
            else false)
        else if str_eq (mode b) ""
        then true
        else runtime.compare_le (runtime.lower a.nick) (runtime.lower b.nick))
unfolding user_le
user_le_lem runtime a b p q =
    ground (arith, mode_index-IsShown (mode a) p, mode_index-IsShown (mode b) q)
