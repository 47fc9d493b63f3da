-- ===== src/Models/User.antt =====
-- server/models/user.ts: a user of a channel.
use thelounge.Common.{ℕ, String, Option, none, some, List, [], ◌∷◌, map}
use thelounge.Common.Dict.{get}
use thelounge.Models.Prefix.{Prefix}

-- `modes` holds the symbols; a mode that the network's prefixes do not have is `undefined`.
pub record User : Type 0 where
  pub nick : String
  pub modes : List (Option String)
  pub away : String
  pub last_message : ℕ

-- `this.modes[0] || ""`
first_mode : List (Option String) → String
first_mode [] = ""
first_mode (none ∷ modes) = ""
first_mode (some symbol ∷ modes) = symbol

unfoldable pub mode : User → String
unfolding first_mode
mode user = first_mode user.modes

-- `setModes`, of mode characters.
unfoldable pub set_modes : List String → Prefix → User → User
set_modes modes prefix user = record user { modes = map (λ m. get m prefix.mode_to_symbol) modes }

-- `new User({nick, modes}, prefix)`
unfoldable pub new_user : String → List String → Prefix → User
unfolding set_modes
new_user nick modes prefix =
    set_modes modes prefix (record { nick = nick; modes = []; away = ""; last_message = 0 })
