-- ===== src/Models/Chan.antt =====
-- server/models/chan.ts: a channel, a query or the lobby, and `ChanType`, `ChanState` of
-- shared/types/chan.ts.
pub mod Messages
pub mod Users
use thelounge.Common.{
  ℕ, ◌+◌, ◌-◌, String, Bool, true, false, not, ◌&&◌, ◌||◌, Option, none, some, List, [], ◌∷◌, ◌++◌,
  map, length, take, drop, any, filter, find?, ltb, leb, ◌==◌, str_eq, if◌then◌else◌, or_default,
  is_some,
}
use thelounge.Common.Dict.{Dict, get, set, delete, values}
use thelounge.Models.Msg.{Msg, MessageType, is_loggable}
use thelounge.Models.Prefix.{new_prefix}
use thelounge.Models.User.{User, new_user, mode}

pub data ChanType : Type 0 where
  channel lobby query special : ChanType

pub data ChanState : Type 0 where
  parted joined : ChanState

pub record Chan : Type 0 where
  pub id : ℕ
  pub messages : List Msg
  pub name : String
  pub key : String
  pub topic : String
  pub first_unread : ℕ
  pub unread : ℕ
  pub highlight : ℕ
  pub users : Dict User
  pub muted : Bool
  pub type : ChanType
  pub state : ChanState
  pub total_messages_in_storage : Option ℕ

-- `new Chan({name, type, state})`, with the id that its maker sets.
abbrev pub new_chan : ℕ → String → ChanType → ChanState → Chan
new_chan id name type state = record {
  id = id;
  messages = [];
  name = name;
  key = "";
  topic = "";
  first_unread = 0;
  unread = 0;
  highlight = 0;
  users = [];
  muted = false;
  type = type;
  state = state;
  total_messages_in_storage = none;
}

abbrev pub is_channel : ChanType → Bool
is_channel ChanType.channel = true
is_channel _ = false

abbrev pub is_query : ChanType → Bool
is_query ChanType.query = true
is_query _ = false

abbrev pub is_lobby : ChanType → Bool
is_lobby ChanType.lobby = true
is_lobby _ = false

abbrev pub is_special : ChanType → Bool
is_special ChanType.special = true
is_special _ = false

unfoldable pub chan_is_loggable : Chan → Bool
chan_is_loggable chan = is_channel chan.type || is_query chan.type
