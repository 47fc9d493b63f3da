-- ===== src/IrssiClient/Loading.antt =====
-- server/irssiClient.ts: what the storage has for the channels and the markers, in the loops of
-- `handleInit` and `sendInitialState`.
use thelounge.Common.{
  ℕ, zero, suc, ◌+◌, String, Option, none, some, List, [], ◌∷◌, ◌++◌, length, find?, ltb,
  if◌then◌else◌, or_default,
}
use thelounge.Common.Dict.{set, values}
use thelounge.Common.Texts.{split}
use thelounge.Models.Chan.{Chan, is_lobby}
use thelounge.Models.Msg.{Msg}
use thelounge.FeWebAdapter.Network.{Runtime, NetworkData}
use thelounge.IrssiClient.State.{UnreadMarker, IrssiClient, Packet, get_marker_key, marker_of}

-- What the message storage answers, none where it throws; texts are the UUID of the network and the
-- name of the channel.
pub record MessageStorage : Type 0 where
  pub load_unread_markers : Option (List (String × ℕ))
  pub get_message_count : String → String → Option ℕ
  pub get_last_messages : String → String → ℕ → Option (List Msg)
  pub get_messages_before : String → String → ℕ → ℕ → Option (List Msg)
  pub get_unread_count : String → String → ℕ → Option ℕ

piece : ℕ → List String → String
piece n [] = ""
piece zero (p ∷ ps) = p
piece (suc n) (p ∷ ps) = piece n ps

-- A marker as `handleInit` makes it of a stored one.
unfoldable pub stored_marker : String → ℕ → UnreadMarker
unfolding piece
stored_marker key last_read_time = record {
  network = piece 0 (split 58 key);
  channel = piece 1 (split 58 key);
  unread_count = 0;
  last_read_time = last_read_time;
  last_message_time = 0;
  data_level = 0;
}

unfoldable pub add_markers : List (String × ℕ) → IrssiClient → IrssiClient
unfolding stored_marker
add_markers [] this = this
add_markers ((key, time) ∷ rest) this = add_markers rest (record this {
  heap = this.heap ++ stored_marker key time ∷ [];
  unread_markers = set key (length this.heap) this.unread_markers;
})

unfoldable pub load_markers : MessageStorage → IrssiClient → IrssiClient
unfolding add_markers
load_markers storage this = add_markers (or_default storage.load_unread_markers []) this

-- `msg.id = this.nextMessageId()` for each message, from the counter on.
unfoldable pub number_messages : ℕ → List Msg → List Msg
number_messages id [] = []
number_messages id (m ∷ ms) = record m { id = id } ∷ number_messages (id + 1) ms

last_id : ℕ → List Msg → ℕ
last_id id [] = id
last_id id (m ∷ ms) = last_id m.id ms

id_or_last : List Msg → Option Msg → ℕ
unfolding last_id
id_or_last messages none = last_id 0 messages
id_or_last messages (some m) = m.id

read_until : Option UnreadMarker → ℕ
read_until none = 0
read_until (some m) = m.last_read_time

-- The first message after the time of the marker, the last one if there is none, or the first of all
-- where no time is known; what it was where there are no messages.
unfoldable pub first_unread : ℕ → ℕ → List Msg → ℕ
unfolding id_or_last
first_unread before last_read [] = before
first_unread before last_read (m ∷ ms) =
    if ltb 0 last_read
    then id_or_last (m ∷ ms) (find? (λ n. ltb last_read n.time) (m ∷ ms))
    else m.id

-- A channel with messages of the storage, and the counter of the ids after them.
unfoldable pub with_messages : Runtime → IrssiClient → String → List Msg → ℕ → Chan → Chan × ℕ
unfolding first_unread read_until marker_of
with_messages runtime this uuid messages id channel =
    let numbered = number_messages id messages in
    let marker = marker_of (get_marker_key runtime uuid channel.name) this in
    (
      record channel {
        messages = numbered;
        first_unread = first_unread channel.first_unread (read_until marker) numbered;
      },
      id + length messages,
    )

init_of_channel : Runtime → IrssiClient → String → Option (List Msg) → ℕ → Chan → Chan × ℕ
unfolding with_messages
init_of_channel runtime this uuid none id channel = (record channel { messages = [] }, id)
init_of_channel runtime this uuid (some messages) id channel =
    with_messages runtime this uuid messages id channel

-- `handleInit`: every channel but the lobby.
unfoldable pub init_channel : Runtime → MessageStorage → IrssiClient → String → ℕ → Chan → Chan × ℕ
unfolding init_of_channel
init_channel runtime storage this uuid id channel =
    if is_lobby channel.type
    then (channel, id)
    else init_of_channel runtime this uuid (storage.get_last_messages uuid channel.name 100) id
        channel

state_of_channel :
    Runtime → IrssiClient → String → Option ℕ → Option (List Msg) → ℕ → Chan → Chan × ℕ
unfolding with_messages
state_of_channel runtime this uuid (some count) (some messages) id channel =
    let (loaded, next) = with_messages runtime this uuid messages id channel in
    (record loaded { total_messages_in_storage = some count }, next)
state_of_channel runtime this uuid _ _ id channel =
    (record channel { messages = []; total_messages_in_storage = some 0 }, id)

-- `sendInitialState`: every channel, with the number of its messages.
unfoldable pub state_channel : Runtime → MessageStorage → IrssiClient → String → ℕ → Chan → Chan × ℕ
unfolding state_of_channel
state_channel runtime storage this uuid id channel =
    state_of_channel runtime this uuid (storage.get_message_count uuid channel.name)
      (storage.get_last_messages uuid channel.name 100) id channel

-- The loops over the channels of a network and over the networks.
unfoldable pub load_channels : (ℕ → Chan → Chan × ℕ) → ℕ → List Chan → List Chan × ℕ
load_channels load id [] = ([], id)
load_channels load id (c ∷ cs) =
    let (loaded, next) = load id c in
    let (rest, last) = load_channels load next cs in (loaded ∷ rest, last)

unfoldable pub load_networks :
    (String → ℕ → Chan → Chan × ℕ) → ℕ → List NetworkData → List NetworkData × ℕ
unfolding load_channels
load_networks load id [] = ([], id)
load_networks load id (n ∷ ns) =
    let (channels, next) = load_channels (load n.uuid) id n.channels in
    let (rest, last) = load_networks load next ns in (record n { channels = channels } ∷ rest, last)

-- The `names` events: one for each channel with users.
names_of_channels : List Chan → List Packet
names_of_channels [] = []
names_of_channels (c ∷ cs) =
    let rest = names_of_channels cs in
    if ltb 0 (length c.users) then Packet.chan_names c.id (values c.users) ∷ rest else rest

unfoldable pub names_packets : List NetworkData → List Packet
unfolding names_of_channels
names_packets [] = []
names_packets (n ∷ ns) = names_of_channels n.channels ++ names_packets ns
