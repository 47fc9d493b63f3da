-- ===== src/FeWebAdapter/Quiet/Messages.antt =====
-- What one message of irssi does to the numbering, the UUIDs and the init event of the adapter.
use thelounge.Common.{
  ◌≡◌, ◌≢◌, refl, String, some, arith, ◌∙◌, Bool-cases, inl, inr, if◌then◌else◌, or_default, eq_iff,
  subst,
}
use thelounge.Common.Dict.{get, get-set}
use thelounge.FeWebAdapter.Network.{Runtime, NetworkData}
use thelounge.FeWebAdapter.State.{
  FeWebAdapter, FeWebMessage, Moment, get_or_create_network, get_or_create_network_uuid,
  get_next_channel_id, put_network,
}
use thelounge.FeWebAdapter.Lifecycle.{handle_mark_read}
use thelounge.FeWebAdapter.Dispatch.{
  ServerMessageType, handle, needs_network, receive, handle_alone,
}
use thelounge.FeWebAdapter.Quiet.{IsNumbered, IsQuiet, inits}
use thelounge.FeWebAdapter.Quiet.Handlers

module _ (runtime : Runtime) (moment : Moment) (msg : FeWebMessage) where
  handle-IsQuiet :
      (type : ServerMessageType) (this : FeWebAdapter) (network : NetworkData)
      → IsQuiet this (handle runtime moment type msg this network)
  unfolding handle
  handle-IsQuiet ServerMessageType.message this network =
      Handlers.handle_message-IsQuiet runtime moment msg this network
  handle-IsQuiet ServerMessageType.server_status this network =
      Handlers.handle_server_status-IsQuiet runtime moment msg this network
  handle-IsQuiet ServerMessageType.channel_join this network =
      Handlers.handle_channel_join-IsQuiet runtime moment msg this network
  handle-IsQuiet ServerMessageType.channel_part this network =
      Handlers.handle_channel_part-IsQuiet runtime moment msg this network
  handle-IsQuiet ServerMessageType.channel_kick this network =
      Handlers.handle_channel_kick-IsQuiet runtime moment msg this network
  handle-IsQuiet ServerMessageType.user_quit this network =
      Handlers.handle_user_quit-IsQuiet runtime moment msg this network
  handle-IsQuiet ServerMessageType.topic this network =
      Handlers.handle_topic-IsQuiet runtime moment msg this network
  handle-IsQuiet ServerMessageType.channel_mode this network =
      Handlers.handle_channel_mode-IsQuiet runtime moment msg this network
  handle-IsQuiet ServerMessageType.nicklist this network =
      Handlers.handle_nicklist-IsQuiet runtime moment msg this network
  handle-IsQuiet ServerMessageType.nicklist_update this network =
      Handlers.handle_nicklist_update-IsQuiet runtime moment msg this network
  handle-IsQuiet ServerMessageType.nick_change this network =
      Handlers.handle_nick_change-IsQuiet runtime moment msg this network
  handle-IsQuiet ServerMessageType.user_mode this network =
      Handlers.handle_user_mode-IsQuiet runtime moment msg this network
  handle-IsQuiet ServerMessageType.away this network =
      Handlers.handle_away-IsQuiet runtime moment msg this network
  handle-IsQuiet ServerMessageType.whois this network =
      Handlers.handle_whois-IsQuiet runtime moment msg this network
  handle-IsQuiet ServerMessageType.channel_list this network =
      Handlers.handle_channel_list-IsQuiet runtime moment msg this network
  handle-IsQuiet ServerMessageType.state_dump this network =
      Handlers.handle_state_dump-IsQuiet runtime moment msg this network
  handle-IsQuiet ServerMessageType.query_opened this network =
      Handlers.handle_query_opened-IsQuiet runtime moment msg this network
  handle-IsQuiet ServerMessageType.query_closed this network =
      Handlers.handle_query_closed-IsQuiet runtime moment msg this network
  handle-IsQuiet ServerMessageType.mark_read this network = (refl, refl, refl, refl)
  handle-IsQuiet ServerMessageType.auth_ok this network = (refl, refl, refl, refl)
  handle-IsQuiet ServerMessageType.error this network = (refl, refl, refl, refl)
  handle-IsQuiet ServerMessageType.pong this network = (refl, refl, refl, refl)

  handle_alone-IsQuiet :
      (type : ServerMessageType) (this : FeWebAdapter)
      → IsQuiet this (handle_alone runtime type msg this)
  unfolding handle_alone handle_mark_read
  handle_alone-IsQuiet type this = ground arith

-- Finding or making the network of a message.
get_or_create_network-same :
    (moment : Moment) (tag : String) (this : FeWebAdapter)
    → ((get_or_create_network moment tag this).0.message_id_counter ≡ this.message_id_counter)
      × ((get_or_create_network moment tag this).0.init_emitted ≡ this.init_emitted)
unfolding get_or_create_network get_or_create_network_uuid put_network get_next_channel_id
get_or_create_network-same moment tag this = ground arith

get_or_create_network_uuid-keeps :
    (moment : Moment) (tag other uuid : String) (this : FeWebAdapter)
    → uuid ≢ ""
    → get other this.network_uuids ≡ some uuid
    → get other (get_or_create_network_uuid moment tag this).0.network_uuids ≡ some uuid
unfolding get_or_create_network_uuid
get_or_create_network_uuid-keeps moment tag other uuid this given known = ground (
  arith,
  eq_iff tag other,
  get-set tag other moment.fresh_uuid this.network_uuids,
  eq_iff uuid "",
  eq_iff (or_default (get tag this.network_uuids) "") "",
)

pub get_or_create_network-keeps :
    (moment : Moment) (tag other uuid : String) (this : FeWebAdapter)
    → uuid ≢ ""
    → get other this.network_uuids ≡ some uuid
    → get other (get_or_create_network moment tag this).0.network_uuids ≡ some uuid
unfolding get_or_create_network put_network get_next_channel_id
get_or_create_network-keeps moment tag other uuid this given known =
    let numbered = (get_next_channel_id this).0 in
    ground (arith, get_or_create_network_uuid-keeps moment tag other uuid numbered given known)

-- A message: the numbering, the init event and the UUIDs.
pub receive-lem :
    (runtime : Runtime) (moment : Moment) (type : ServerMessageType) (msg : FeWebMessage)
    (this : FeWebAdapter)
    → IsNumbered this.message_id_counter
        (receive runtime moment type msg this).1
        (receive runtime moment type msg this).0.message_id_counter
      × ((receive runtime moment type msg this).0.init_emitted ≡ this.init_emitted)
      × (inits (receive runtime moment type msg this).1 ≡ 0)
      × ((receive runtime moment type msg this).0.network_uuids ≡ (
          if needs_network type
          then (get_or_create_network moment msg.server this).0.network_uuids
          else this.network_uuids))
unfolding receive
receive-lem runtime moment type msg this =
    let (known, network) = get_or_create_network moment msg.server this in
    let (counter, emitted) = get_or_create_network-same moment msg.server this in
    let (numbered, uuids, mark, none_init) = handle-IsQuiet runtime moment msg type known network in
    let (numbered', uuids', mark', none_init') =
      handle_alone-IsQuiet runtime moment msg type this in
    elim (Bool-cases (needs_network type)) [
      | inl needed ↦ rw needed (
        subst
            (λ n.
              IsNumbered n (handle runtime moment type msg known network).1
                (handle runtime moment type msg known network).0.message_id_counter)
            counter numbered,
        mark ∙ emitted,
        none_init,
        uuids,
      )
      | inr alone ↦ rw alone (numbered', mark', none_init', uuids')
    ]
