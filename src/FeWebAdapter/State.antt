-- ===== src/FeWebAdapter/State.antt =====
-- server/feWebClient/feWebAdapter.ts: the state of the adapter, the callbacks as events, and the
-- networks by server tag; and `FeWebMessage` of server/feWebClient/feWebSocket.ts.
use thelounge.Common.{
  ℕ, ◌+◌, String, Bool, false, Option, none, some, List, [], ◌∷◌, str_eq, if◌then◌else◌, or_default,
}
use thelounge.Common.Dict.{Dict, get, set}
use thelounge.Models.Chan.{Chan}
use thelounge.Models.Msg.{Msg}
use thelounge.Models.User.{User}
use thelounge.FeWebAdapter.Network.{NetworkData, new_network}

-- The fields of `extra` that the handlers read.
pub record Extra : Type 0 where
  pub hostname : String
  pub kicker : String
  pub mode : String
  pub params : List String
  pub new_nick : String
  pub user : String
  pub host : String
  pub realname : String
  pub channels : String
  pub server : String
  pub account : String
  pub list_type : String
  pub entries : String

-- A text that is absent is the empty one, an absent number 0 and an absent mark false. The fields
-- that a handler takes without a test (`msg.server!`, `msg.channel!`) are there.
pub record FeWebMessage : Type 0 where
  pub timestamp : ℕ
  pub server : String
  pub server_tag : String
  pub channel : String
  pub target : String
  pub nick : String
  pub text : String
  pub level : ℕ
  pub is_own : Bool
  pub is_highlight : Bool
  pub task : String
  pub extra : Extra

-- The calls of the callbacks, and the timer that calls `emitInit`.
pub data Event : Type 0 where
  on_network_update : NetworkData → Event
  on_message : String → ℕ → Msg → Event
  on_channel_join : String → Chan → Event
  on_channel_part : String → ℕ → Event
  on_nicklist_update : String → ℕ → List User → Event
  on_topic_update : String → ℕ → String → Event
  on_nick_change : String → String → Event
  on_init : List NetworkData → Event
  on_mark_read : String → String → Event
  schedule_init : Event

pub record FeWebAdapter : Type 0 where
  pub server_tag_to_network : Dict NetworkData
  pub message_id_counter : ℕ
  pub channel_id_counter : ℕ
  pub init_emitted : Bool
  pub network_uuids : Dict String
  pub state_dump_received : Dict ℕ

-- `new FeWebAdapter(socket, callbacks, existingUuidMap)`
abbrev pub new_adapter : Dict String → FeWebAdapter
new_adapter existing = record {
  server_tag_to_network = [];
  message_id_counter = 1;
  channel_id_counter = 1;
  init_emitted = false;
  network_uuids = existing;
  state_dump_received = [];
}

-- What a handler finds when it runs: `Date.now()`, and the next random UUID.
pub record Moment : Type 0 where
  pub now : ℕ
  pub fresh_uuid : String

unfoldable pub reset_state_dump_tracking : FeWebAdapter → FeWebAdapter
reset_state_dump_tracking this = record this { state_dump_received = []; init_emitted = false }

-- The id, and the adapter after it.
unfoldable pub get_next_channel_id : FeWebAdapter → FeWebAdapter × ℕ
get_next_channel_id this =
    (record this { channel_id_counter = this.channel_id_counter + 1 }, this.channel_id_counter)

unfoldable pub get_or_create_network_uuid : Moment → String → FeWebAdapter → FeWebAdapter × String
get_or_create_network_uuid moment server_tag this =
    let known = or_default (get server_tag this.network_uuids) "" in
    if str_eq known ""
    then (
      record this { network_uuids = set server_tag moment.fresh_uuid this.network_uuids },
      moment.fresh_uuid,
    )
    else (this, known)

-- The network goes into the map. As the map holds the object itself, every change of a network is one.
unfoldable pub put_network : NetworkData → FeWebAdapter → FeWebAdapter
put_network network this = record this {
  server_tag_to_network = set network.server_tag network this.server_tag_to_network;
}

create_network : Moment → String → FeWebAdapter → FeWebAdapter × NetworkData
unfolding get_or_create_network_uuid get_next_channel_id put_network
create_network moment server_tag this =
    let (numbered, lobby_id) = get_next_channel_id this in
    let (known, uuid) = get_or_create_network_uuid moment server_tag numbered in
    let network = new_network uuid server_tag lobby_id in (put_network network known, network)

found_network : Moment → String → FeWebAdapter → Option NetworkData → FeWebAdapter × NetworkData
unfolding create_network
found_network moment server_tag this none = create_network moment server_tag this
found_network moment server_tag this (some network) = (this, network)

unfoldable pub get_or_create_network : Moment → String → FeWebAdapter → FeWebAdapter × NetworkData
unfolding found_network
get_or_create_network moment server_tag this =
    found_network moment server_tag this (get server_tag this.server_tag_to_network)

-- A message gets the next id and goes to `onMessage`.
unfoldable pub send_message : String → ℕ → Msg → FeWebAdapter → FeWebAdapter × List Event
send_message uuid channel_id msg this = (
  record this { message_id_counter = this.message_id_counter + 1 },
  on_message uuid channel_id (record msg { id = this.message_id_counter }) ∷ [],
)
