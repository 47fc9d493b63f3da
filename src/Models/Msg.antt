-- ===== src/Models/Msg.antt =====
-- server/models/msg.ts, and `MessageType` of shared/types/msg.ts.
use thelounge.Common.{ℕ, String, Bool, true, false, not, Option, none, List, [], str_eq}

pub data MessageType : Type 0 where
  unhandled action away back error invite join kick login logout message mode mode_channel :
      MessageType
  mode_user monospace_block nick notice part quit ctcp ctcp_request chghost topic topic_set_by :
      MessageType
  whois raw plugin wallops : MessageType

-- The answer to WHOIS that a message may carry.
pub record Whois : Type 0 where
  pub nick : String
  pub ident : String
  pub hostname : String
  pub real_name : String
  pub channels : String
  pub server : String
  pub account : String

-- A text that is absent is the empty one. `thumbs` are the stored thumbnails of the previews.
pub record Msg : Type 0 where
  pub id : ℕ
  pub type : MessageType
  pub time : ℕ
  pub from : String
  pub target : String
  pub text : String
  pub self : Bool
  pub highlight : Bool
  pub show_in_active : Bool
  pub hostmask : String
  pub new_nick : String
  pub whois : Option Whois
  pub thumbs : List String

-- `new Msg({type, time})`: the defaults of the constructor.
abbrev pub new_msg : MessageType → ℕ → Msg
new_msg type time = record {
  id = 0;
  type = type;
  time = time;
  from = "";
  target = "";
  text = "";
  self = false;
  highlight = false;
  show_in_active = false;
  hostmask = "";
  new_nick = "";
  whois = none;
  thumbs = [];
}

is_loggable_type : MessageType → Bool
is_loggable_type MessageType.monospace_block = false
is_loggable_type MessageType.error = false
is_loggable_type MessageType.topic_set_by = false
is_loggable_type MessageType.mode_channel = false
is_loggable_type MessageType.mode_user = false
is_loggable_type MessageType.raw = false
is_loggable_type MessageType.whois = false
is_loggable_type MessageType.plugin = false
is_loggable_type _ = true

-- The topic that is sent on a join has no sender, and is not logged.
is_loggable_as : MessageType → String → Bool
unfolding is_loggable_type
is_loggable_as MessageType.topic from = not (str_eq from "")
is_loggable_as type from = is_loggable_type type

unfoldable pub is_loggable : Msg → Bool
unfolding is_loggable_as
is_loggable msg = is_loggable_as msg.type msg.from
