-- ===== src/IrssiClient/State.antt =====
-- server/irssiClient.ts: the state of `IrssiClient`, what it sends, and finding networks and channels.
-- The unread markers are objects that the map and the pending answers of the storage share: they
-- stand in `heap`, and the map holds their places there.
use Prim.Native.String.{◌++◌ as append}
use thelounge.Common.{
  ℕ, zero, suc, String, Bool, false, ◌||◌, Option, none, some, List, [], ◌∷◌, map, find?, ◌==◌,
  str_eq, if◌then◌else◌,
}
use thelounge.Common.Dict.{Dict, get, set}
use thelounge.Models.Chan.{Chan}
use thelounge.Models.Chan.Messages.{Active, SharedNetworkChan, get_filtered_clone}
use thelounge.Models.Msg.{Msg}
use thelounge.Models.User.{User}
use thelounge.FeWebAdapter.Network.{Runtime, ServerOptions, NetworkData, find_channel}

pub record UnreadMarker : Type 0 where
  pub network : String
  pub channel : String
  pub unread_count : ℕ
  pub last_read_time : ℕ
  pub last_message_time : ℕ
  pub data_level : ℕ

-- A browser is named by the id of its socket and kept with the channel that it has open, none for
-- -1. `irssi_connection` is none where it is null, else what its `isConnected()` answers.
-- `next_channel_id` is the counter that `getNextChannelId` of the adapter has, none where there is no
-- adapter.
pub record IrssiClient : Type 0 where
  pub networks : List NetworkData
  pub attached_browsers : Dict (Option ℕ)
  pub has_storage : Bool
  pub unread_markers : Dict ℕ
  pub heap : List UnreadMarker
  pub active_window_in_irssi : Option String
  pub irssi_connection : Option Bool
  pub id_msg : ℕ
  pub last_active_channel : Option ℕ
  pub next_channel_id : Option ℕ

-- What the answer of `getUnreadCount` finds in its closure.
pub record PendingCount : Type 0 where
  pub marker : ℕ
  pub key : String
  pub network : String
  pub channel : String
  pub since : ℕ
  pub chan : ℕ
  pub level : ℕ

-- The copy of a network for the browsers.
pub record SharedNetwork : Type 0 where
  pub uuid : String
  pub name : String
  pub nick : String
  pub server_options : ServerOptions
  pub connected : Bool
  pub channels : List SharedNetworkChan

-- The events for a browser.
pub data Packet : Type 0 where
  activity_update : ℕ → ℕ → ℕ → Packet
  chan_msg : ℕ → Msg → ℕ → ℕ → Packet
  chan_join : Bool → ℕ → String → SharedNetworkChan → Packet
  chan_part : ℕ → Packet
  chan_names : ℕ → List User → Packet
  chan_topic : ℕ → String → Packet
  own_nick : String → String → Packet
  new_network : SharedNetwork → Packet
  network_status : String → Bool → Packet
  irssi_status : Bool → Packet
  networks_init : List SharedNetwork → Option ℕ → Option String → Packet

-- What the client does elsewhere: at a browser, at irssi and at the message storage.
pub data Effect : Type 0 where
  emit : String → Packet → Effect
  disconnect_socket : String → Effect
  execute_command : String → String → Effect
  mark_read : String → String → Effect
  close_query : String → String → Effect
  disconnect_irssi : Effect
  close_storage : Effect
  save_user : Effect
  save_network_uuids : Dict String → Effect
  index : String → String → String → Msg → Effect
  get_unread_count : PendingCount → Effect
  save_unread_marker : String → String → ℕ → Effect

unfoldable pub keys {ℓ} : {V : Type ℓ} → Dict V → List String
keys [] = []
keys ((k, v) ∷ m) = k ∷ keys m

unfoldable pub emit_all : Packet → List String → List Effect
emit_all packet [] = []
emit_all packet (id ∷ ids) = emit id packet ∷ emit_all packet ids

unfoldable pub broadcast_to_all_browsers : Packet → IrssiClient → List Effect
unfolding keys emit_all
broadcast_to_all_browsers packet this = emit_all packet (keys this.attached_browsers)

-- `a || b` on texts
abbrev pub or_text : String → String → String
or_text a b = if str_eq a "" then b else a

unfoldable pub get_marker_key : Runtime → String → String → String
get_marker_key runtime network channel = append network (append ":" (runtime.lower channel))

unfoldable pub is_open_at : ℕ → Dict (Option ℕ) → Bool
is_open_at id [] = false
is_open_at id ((k, none) ∷ m) = is_open_at id m
is_open_at id ((k, some n) ∷ m) = n == id || is_open_at id m

unfoldable pub is_channel_open_in_any_browser : ℕ → IrssiClient → Bool
unfolding is_open_at
is_channel_open_in_any_browser id this = is_open_at id this.attached_browsers

-- The store of the marker objects.
unfoldable pub load : ℕ → List UnreadMarker → Option UnreadMarker
load n [] = none
load zero (m ∷ ms) = some m
load (suc n) (m ∷ ms) = load n ms

unfoldable pub change_at : ℕ → (UnreadMarker → UnreadMarker) → List UnreadMarker → List UnreadMarker
change_at n f [] = []
change_at zero f (m ∷ ms) = f m ∷ ms
change_at (suc n) f (m ∷ ms) = m ∷ change_at n f ms

unfoldable pub change_marker : ℕ → (UnreadMarker → UnreadMarker) → IrssiClient → IrssiClient
unfolding change_at
change_marker marker f this = record this { heap = change_at marker f this.heap }

-- `this.unreadMarkers.set(key, marker)`
unfoldable pub set_marker : String → ℕ → IrssiClient → IrssiClient
set_marker key marker this = record this { unread_markers = set key marker this.unread_markers }

unfoldable pub loaded : List UnreadMarker → Option ℕ → Option UnreadMarker
unfolding load
loaded heap none = none
loaded heap (some n) = load n heap

-- The marker that the map has for a key.
unfoldable pub marker_of : String → IrssiClient → Option UnreadMarker
unfolding loaded
marker_of key this = loaded this.heap (get key this.unread_markers)

unfoldable pub find_network : String → List NetworkData → Option NetworkData
find_network uuid networks = find? (λ n. str_eq n.uuid uuid) networks

unfoldable pub find_by_tag : String → List NetworkData → Option NetworkData
find_by_tag server_tag networks = find? (λ n. str_eq n.server_tag server_tag) networks

unfoldable pub find_chan : ℕ → List Chan → Option Chan
find_chan id channels = find? (λ c. c.id == id) channels

unfoldable pub with_network : NetworkData → Option Chan → Option (NetworkData × Chan)
with_network network none = none
with_network network (some c) = some (network, c)

unfoldable pub or_later {ℓ} : {A : Type ℓ} → Option A → Option A → Option A
or_later none later = later
or_later (some a) later = some a

-- The loop over all networks for the channel of an id.
unfoldable pub find_target : ℕ → List NetworkData → Option (NetworkData × Chan)
unfolding with_network or_later find_chan
find_target id [] = none
find_target id (n ∷ ns) = or_later (with_network n (find_chan id n.channels)) (find_target id ns)

named_in : Runtime → String → Option NetworkData → Option (NetworkData × Chan)
unfolding with_network find_channel
named_in runtime name none = none
named_in runtime name (some network) =
    with_network network (find_channel runtime name network.channels)

-- The channel of a name in the network of a server tag, and in the network of a UUID.
unfoldable pub find_named :
    Runtime → String → String → List NetworkData → Option (NetworkData × Chan)
unfolding named_in find_by_tag
find_named runtime server_tag name networks =
    named_in runtime name (find_by_tag server_tag networks)

unfoldable pub find_by_uuid :
    Runtime → String → String → List NetworkData → Option (NetworkData × Chan)
unfolding named_in find_network
find_by_uuid runtime uuid name networks = named_in runtime name (find_network uuid networks)

unfoldable pub shared_network : NetworkData → SharedNetwork
shared_network net = record {
  uuid = net.uuid;
  name = net.name;
  nick = net.nick;
  server_options = net.server_options;
  connected = net.connected;
  channels = map (get_filtered_clone Active.this_one 0) net.channels;
}
