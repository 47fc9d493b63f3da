-- ===== src/FeWebAdapter/Tells.antt =====
-- Quits and state dumps: handleUserQuit and handleStateDump of server/feWebClient/feWebAdapter.ts.
use thelounge.Common.{
  ℕ, ◌+◌, ◌<◌, ◌≡◌, ◌≢◌, refl, String, Bool, true, false, inl, inr, some, List, [], ◌∷◌, arith,
  Bool-cases, Option-cases, if◌then◌else◌, ap, map, find?, subst,
}
use thelounge.Common.Dict.{get-set_same, get, set, delete, has}
use thelounge.Models.Chan.{Chan, is_lobby}
use thelounge.Models.Msg.{Msg, MessageType}
use thelounge.FeWebAdapter.Network.{Runtime, NetworkData, new_network}
use thelounge.FeWebAdapter.Users.{remove_user_from_channel}
use thelounge.FeWebAdapter.Talk.{msg_from}
use thelounge.FeWebAdapter.Notices.{quit_channels, handle_user_quit}
use thelounge.FeWebAdapter.Lifecycle.{handle_state_dump, is_duplicate, only_lobby}
use thelounge.FeWebAdapter.Dispatch.{ServerMessageType, receive}
use thelounge.FeWebAdapter.State.{
  FeWebAdapter, FeWebMessage, Moment, Event, on_message, put_network, get_or_create_network,
  get_or_create_network_uuid, get_next_channel_id,
}

if_false {ℓ} : {A : Type ℓ} (test : Bool) (x y : A) → test ≡ false → (if test then x else y) ≡ y
if_false test x y h = rw h refl

-- The channels that the messages among the events go to.
abbrev pub told : List Event → List ℕ
told [] = []
told (on_message _ id _ ∷ es) = id ∷ told es
told (_ ∷ es) = told es

abbrev pub ids_with : Runtime → String → List Chan → List ℕ
ids_with runtime nick [] = []
ids_with runtime nick (c ∷ cs) =
    let rest = ids_with runtime nick cs in
    if has (runtime.lower nick) c.users then c.id ∷ rest else rest

abbrev pub without_nick : Runtime → String → Chan → Chan
without_nick runtime nick c = record c { users = delete (runtime.lower nick) c.users }

module _ (runtime : Runtime) (uuid nick : String) (quit_msg : Msg) where
  quit_channels-told :
      (id : ℕ) (cs : List Chan)
      → told (quit_channels runtime uuid nick quit_msg id cs).2 ≡ ids_with runtime nick cs
  unfolding quit_channels remove_user_from_channel
  quit_channels-told id [] = refl
  quit_channels-told id (c ∷ cs) = elim (Bool-cases (has (runtime.lower nick) c.users)) [
    | inl there ↦ rw there (ap (◌∷◌ c.id) (quit_channels-told (id + 1) cs))
    | inr absent ↦ rw absent (quit_channels-told id cs)
  ]

  quit_channels-users :
      (id : ℕ) (cs : List Chan)
      → (quit_channels runtime uuid nick quit_msg id cs).0 ≡ map (without_nick runtime nick) cs
  unfolding quit_channels remove_user_from_channel
  quit_channels-users id [] = refl
  quit_channels-users id (c ∷ cs) =
      ap (◌∷◌ (without_nick runtime nick c))
        (quit_channels-users (if has (runtime.lower nick) c.users then id + 1 else id) cs)

-- Whoever quits is gone from each channel of the network, and nobody else is; the message goes to the
-- channels that had the user, in their order, and to no other.
pub handle_user_quit_lem :
    (runtime : Runtime) (moment : Moment) (msg : FeWebMessage) (this : FeWebAdapter)
    (network : NetworkData)
    → (told (handle_user_quit runtime moment msg this network).1
        ≡ ids_with runtime msg.nick network.channels)
      × (get network.server_tag
            (handle_user_quit runtime moment msg this network).0.server_tag_to_network
          ≡ some
              (record network { channels = map (without_nick runtime msg.nick) network.channels }))
unfolding handle_user_quit put_network
handle_user_quit_lem runtime moment msg this network =
    let quit_msg : Msg = record (msg_from MessageType.quit moment.now msg.nick) {
      text = msg.text;
      hostmask = msg.extra.hostname;
    } in
    let id = this.message_id_counter in
    (
      quit_channels-told runtime network.uuid msg.nick quit_msg id network.channels,
      rw (quit_channels-users runtime network.uuid msg.nick quit_msg id network.channels)
          (get-set_same network.server_tag _ this.server_tag_to_network),
    )

-- Each network stands in the map under its own tag.
abbrev pub IsFiled : String → FeWebAdapter → Type 0
IsFiled tag this =
    (network : NetworkData)
    → get tag this.server_tag_to_network ≡ some network
    → network.server_tag ≡ tag

get_or_create_network-found :
    (moment : Moment) (tag : String) (this : FeWebAdapter) (network : NetworkData)
    → get tag this.server_tag_to_network ≡ some network
    → get_or_create_network moment tag this ≡ (this, network)
unfolding get_or_create_network
get_or_create_network-found moment tag this network found = rw found refl

get_or_create_network-tag :
    (moment : Moment) (tag : String) (this : FeWebAdapter)
    → IsFiled tag this
    → (get_or_create_network moment tag this).1.server_tag ≡ tag
unfolding get_or_create_network new_network
get_or_create_network-tag moment tag this filed =
    elim (Option-cases (get tag this.server_tag_to_network)) [
      | inl missing ↦ rw missing refl
      | inr (network, found) ↦
          rw (get_or_create_network-found moment tag this network found) (filed network found)
    ]

get_or_create_network-received :
    (moment : Moment) (tag : String) (this : FeWebAdapter)
    → (get_or_create_network moment tag this).0.state_dump_received ≡ this.state_dump_received
unfolding get_or_create_network get_or_create_network_uuid put_network get_next_channel_id
get_or_create_network-received moment tag this = ground arith

-- A state dump that is no duplicate.
module _ (moment : Moment) (msg : FeWebMessage) (this : FeWebAdapter) (network : NetworkData)
    (accepted : is_duplicate moment.now (get msg.server this.state_dump_received) ≡ false) where
  abbrev dumped : FeWebAdapter
  dumped = (handle_state_dump moment msg this network).0

  abbrev cleared : NetworkData
  cleared = record network {
    channels = only_lobby (find? (λ c. is_lobby c.type) network.channels);
    connected = true;
  }

  dumped-lem :
      dumped
      ≡ put_network cleared
          (record this { state_dump_received = set msg.server moment.now this.state_dump_received })
  unfolding handle_state_dump
  dumped-lem = ap (λ (r : FeWebAdapter × List Event). r.0) (if_false _ _ _ accepted)

  dumped-received : get msg.server dumped.state_dump_received ≡ some moment.now
  unfolding put_network
  dumped-received = rw dumped-lem (get-set_same msg.server moment.now this.state_dump_received)

  dumped-found :
      network.server_tag ≡ msg.server → get msg.server dumped.server_tag_to_network ≡ some cleared
  unfolding put_network
  dumped-found same = rw dumped-lem (
      subst
        (λ tag. get tag (set network.server_tag cleared this.server_tag_to_network) ≡ some cleared)
        same (get-set_same network.server_tag cleared this.server_tag_to_network))

handle_state_dump-again :
    (later : Moment) (msg : FeWebMessage) (this : FeWebAdapter) (other : NetworkData) (received : ℕ)
    → received ≢ 0
    → later.now < received + 2000
    → get msg.server this.state_dump_received ≡ some received
    → handle_state_dump later msg this other ≡ (this, [])
unfolding handle_state_dump is_duplicate
handle_state_dump-again later msg this other received there soon known = rw known (ground arith)

-- A state dump that comes within two seconds after one that was accepted for the same server is
-- ignored: the adapter stays as it is, and nothing is emitted. The clock is past 0, and the network
-- of the server, if there is one, stands under its own tag.
pub state_dump-again :
    (runtime : Runtime) (moment later : Moment) (msg : FeWebMessage) (this : FeWebAdapter)
    → IsFiled msg.server this
    → moment.now ≢ 0
    → later.now < moment.now + 2000
    → is_duplicate moment.now (get msg.server this.state_dump_received) ≡ false
    → receive runtime later ServerMessageType.state_dump msg
        (receive runtime moment ServerMessageType.state_dump msg this).0
      ≡ ((receive runtime moment ServerMessageType.state_dump msg this).0, [])
unfolding receive
state_dump-again runtime moment later msg this filed there soon accepted =
    let (known, network) = get_or_create_network moment msg.server this in
    let fresh : is_duplicate moment.now (get msg.server known.state_dump_received) ≡ false =
      rw (get_or_create_network-received moment msg.server this) accepted in
    let tag = get_or_create_network-tag moment msg.server this filed in
    rw
      (get_or_create_network-found later msg.server (dumped moment msg known network fresh)
        (cleared moment msg known network fresh) (dumped-found moment msg known network fresh tag))
      (handle_state_dump-again later msg _ _ moment.now there soon
        (dumped-received moment msg known network fresh))
