-- ===== src/Models/Chan/Messages.antt =====
-- server/models/chan.ts: the messages and the counters of a channel. What a method does elsewhere
-- (the browsers, the logs, the stored thumbnails) is a list of effects in order.
pub mod Laws
pub mod Logs
pub mod Counters
mod Tests
use thelounge.Common.{
  ℕ, ◌+◌, ◌-◌, String, Bool, true, false, not, ◌&&◌, ◌||◌, Option, none, some, List, [], ◌∷◌, ◌++◌,
  map, length, take, drop, any, filter, find?, ltb, leb, ◌==◌, str_eq, if◌then◌else◌, or_default,
  is_some,
}
use thelounge.Common.Dict.{Dict, values}
use thelounge.Models.Msg.{Msg, MessageType, is_loggable}
use thelounge.Models.User.{User}
use thelounge.Models.Chan.{Chan, ChanType, ChanState, chan_is_loggable}

-- What the methods read of `Config.values` and of the client. `max_history` is none where the
-- configured number is below 0; `keeps_previews` is `prefetch && prefetchStorage`.
pub record Context : Type 0 where
  pub public_mode : Bool
  pub max_history : Option ℕ
  pub keeps_previews : Bool
  pub open_channels : List ℕ
  pub storages : List ℕ
  pub has_network : Bool

pub data Effect : Type 0 where
  emit_msg : ℕ → Msg → ℕ → ℕ → Effect
  index : ℕ → String → Msg → Effect
  dereference : String → Effect

is_notice : MessageType → Bool
is_notice MessageType.notice = true
is_notice _ = false

-- The loop over `client.messageStorage`.
index_all : List ℕ → String → Msg → List Effect
index_all [] name msg = []
index_all (storage ∷ rest) name msg = index storage name msg ∷ index_all rest name msg

index_in_network : Context → Chan → Msg → List Effect
unfolding index_all
index_in_network ctx chan msg = if ctx.has_network then index_all ctx.storages chan.name msg else []

has_no_storage : List ℕ → Bool
has_no_storage [] = true
has_no_storage _ = false

pub write_user_log : Context → Msg → Chan → Chan × List Effect
unfolding is_notice index_in_network has_no_storage
write_user_log ctx msg this =
    let logged = record this { messages = this.messages ++ msg ∷ [] } in
    let renamed = record logged { name = msg.from } in
    if has_no_storage ctx.storages
    then (logged, [])
    else if not (is_loggable msg) || not (chan_is_loggable this)
    then (if is_notice msg.type && msg.show_in_active
        then (renamed, index_in_network ctx renamed msg)
        else (logged, []))
    else (logged, index_in_network ctx logged msg)

-- The thumbnails of one message, or none where the preview has none.
dereference_thumbs : List String → List Effect
dereference_thumbs [] = []
dereference_thumbs (thumb ∷ thumbs) =
    let rest = dereference_thumbs thumbs in
    if str_eq thumb "" then rest else dereference thumb ∷ rest

dereference_messages : List Msg → List Effect
unfolding dereference_thumbs
dereference_messages [] = []
dereference_messages (m ∷ ms) = dereference_thumbs m.thumbs ++ dereference_messages ms

pub dereference_previews : Context → List Msg → List Effect
unfolding dereference_messages
dereference_previews ctx messages = if ctx.keeps_previews then dereference_messages messages else []

-- The messages above `maxHistory` go from the front.
pub trim_history : Context → Option ℕ → Chan → Chan × List Effect
trim_history ctx none this = (this, [])
trim_history ctx (some most) this =
    let surplus = length this.messages - most in
    if ltb most (length this.messages)
    then (
      record this { messages = drop surplus this.messages },
      (if ltb 0 most then dereference_previews ctx (take surplus this.messages) else []),
    )
    else (this, [])

-- The counters and the marker of the first unread message.
pub count_message : Bool → Msg → Bool → Chan → Chan
count_message is_open msg increases_unread this =
    if msg.self
    then record this { unread = 0; first_unread = msg.id; highlight = 0 }
    else if not is_open
    then record this {
      first_unread = if this.first_unread == 0 then msg.id else this.first_unread;
      unread = if increases_unread || msg.highlight then this.unread + 1 else this.unread;
      highlight = if msg.highlight then this.highlight + 1 else this.highlight;
    }
    else this

pub store_message : Context → Msg → Chan → Chan × List Effect
unfolding trim_history
store_message ctx msg this =
    if ctx.public_mode
    then (this, [])
    else (let (logged, writes) = write_user_log ctx (record msg { show_in_active = false }) this in
        let (trimmed, frees) = trim_history ctx ctx.max_history logged in
        (trimmed, writes ++ frees))

-- The channel, the client's next `idMsg`, and the effects.
pub push_message : Context → ℕ → Msg → Bool → Chan → Chan × ℕ × List Effect
unfolding count_message store_message
push_message ctx id_msg msg increases_unread this =
    let numbered = record msg { id = id_msg } in
    let is_open = any (◌==◌ this.id) ctx.open_channels in
    let counted = count_message is_open numbered increases_unread this in
    let (stored, effects) = store_message ctx numbered counted in
    (stored, id_msg + 1, emit_msg this.id numbered counted.unread counted.highlight ∷ effects)

pub find_message : ℕ → Chan → Option Msg
find_message msg_id this = find? (λ m. m.id == msg_id) this.messages

-- `slice(-count)`
unfoldable pub last_messages : ℕ → List Msg → List Msg
last_messages count messages = drop (length messages - count) messages

-- Which channel the browser had open: a number, or true for "this one".
pub data Active : Type 0 where
  unknown this_one : Active
  channel_id : ℕ → Active

unfoldable pub is_active : Active → ℕ → Bool
is_active unknown id = false
is_active this_one id = true
is_active (channel_id n) id = id == n

-- The messages of `getFilteredClone`. `last_message` is 0 where it is absent or below 0.
unfoldable pub filtered_messages : Active → ℕ → Chan → List Msg
unfolding last_messages is_active
filtered_messages active last_message this =
    if ltb 0 last_message
    then last_messages 100 (filter (λ m. ltb last_message m.id) this.messages)
    else last_messages (if is_active active this.id then 100 else 1) this.messages

-- `getFilteredClone`: the shared copy, with its messages and their total.
pub record SharedNetworkChan : Type 0 where
  pub id : ℕ
  pub messages : List Msg
  pub total_messages : ℕ
  pub name : String
  pub key : String
  pub topic : String
  pub first_unread : ℕ
  pub unread : ℕ
  pub highlight : ℕ
  pub muted : Bool
  pub type : ChanType
  pub state : ChanState
  pub users : List User

pub get_filtered_clone : Active → ℕ → Chan → SharedNetworkChan
get_filtered_clone active last_message this = record {
  id = this.id;
  messages = filtered_messages active last_message this;
  total_messages = or_default this.total_messages_in_storage (length this.messages);
  name = this.name;
  key = this.key;
  topic = this.topic;
  first_unread = this.first_unread;
  unread = this.unread;
  highlight = this.highlight;
  muted = this.muted;
  type = this.type;
  state = this.state;
  users = values this.users;
}

pub set_mute_status : Bool → Chan → Chan
set_mute_status muted this = record this { muted = muted }
