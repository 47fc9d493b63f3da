-- ===== src/IrssiClient/Browsers.antt =====
-- server/irssiClient.ts: the browsers. `attachBrowser`, `detachBrowser`, `sendInitialState`,
-- `handleInit` and `quit`. The storage answers what it has when the handler starts: nothing
-- else runs while a handler waits for it.
use thelounge.Common.{
  ℕ, zero, suc, String, Bool, false, not, ◌&&◌, Option, none, some, List, [], ◌∷◌, ◌++◌, map,
  length, ltb, if◌then◌else◌, or_default, is_some,
}
use thelounge.Common.Dict.{Dict, get, set, delete}
use thelounge.Models.Chan.{Chan}
use thelounge.FeWebAdapter.Network.{Runtime, NetworkData}
use thelounge.IrssiClient.State.{
  UnreadMarker, IrssiClient, Packet, Effect, broadcast_to_all_browsers, get_marker_key,
  change_marker, marker_of, shared_network,
}
use thelounge.IrssiClient.Markers.{activity}
use thelounge.IrssiClient.Loading.{
  MessageStorage, load_markers, init_channel, state_channel, load_networks, names_packets,
}

-- The messages of the cache and their number are dropped.
without_messages : NetworkData → NetworkData
without_messages net = record net {
  channels =
      map (λ (c : Chan). record c { messages = []; total_messages_in_storage = none }) net.channels;
}

emits : String → List Packet → List Effect
emits socket [] = []
emits socket (p ∷ ps) = Effect.emit socket p ∷ emits socket ps

-- The count of a marker with activity, as `sendInitialState` sends it, and the marker with it.
unfoldable pub counted :
    MessageStorage
    → NetworkData
    → Chan
    → String
    → ℕ
    → UnreadMarker
    → IrssiClient
    → IrssiClient × List Packet
unfolding activity change_marker
counted storage net channel key place marker this =
    let count =
      if this.has_storage
      then or_default (storage.get_unread_count net.uuid channel.name marker.last_read_time)
          marker.unread_count
      else marker.unread_count in
    if ltb 0 marker.data_level
    then (
      change_marker place (λ m. record m { unread_count = count }) this,
      activity channel.id marker.data_level count ∷ [],
    )
    else (this, [])

unfoldable pub count_marker :
    MessageStorage
    → NetworkData
    → Chan
    → String
    → Option ℕ
    → Option UnreadMarker
    → IrssiClient
    → IrssiClient × List Packet
unfolding counted
count_marker storage net channel key (some place) (some marker) this =
    counted storage net channel key place marker this
count_marker storage net channel key _ _ this = (this, [])

unfoldable pub activities_of :
    Runtime → MessageStorage → NetworkData → List Chan → IrssiClient → IrssiClient × List Packet
unfolding count_marker
activities_of runtime storage net [] this = (this, [])
activities_of runtime storage net (c ∷ cs) this =
    let key = get_marker_key runtime net.uuid c.name in
    let (one, packets) =
      count_marker storage net c key (get key this.unread_markers) (marker_of key this) this in
    let (last, rest) = activities_of runtime storage net cs one in (last, packets ++ rest)

unfoldable pub activities :
    Runtime → MessageStorage → List NetworkData → IrssiClient → IrssiClient × List Packet
unfolding activities_of
activities runtime storage [] this = (this, [])
activities runtime storage (n ∷ ns) this =
    let (one, packets) = activities_of runtime storage n n.channels this in
    let (last, rest) = activities runtime storage ns one in (last, packets ++ rest)

-- `x || -1`, with none for -1
nonzero : Option ℕ → Option ℕ
nonzero none = none
nonzero (some zero) = none
nonzero (some (suc n)) = some (suc n)

-- The networks with their messages, where there is a storage.
unfoldable pub loaded_state : Runtime → MessageStorage → IrssiClient → List NetworkData × ℕ
loaded_state runtime storage this =
    if this.has_storage
    then load_networks (state_channel runtime storage this) this.id_msg this.networks
    else (this.networks, this.id_msg)

-- Markers that were not read yet are read now.
unfoldable pub with_stored_markers : MessageStorage → IrssiClient → IrssiClient
with_stored_markers storage this =
    if this.has_storage && not (ltb 0 (length this.unread_markers))
    then load_markers storage this
    else this

-- The cache after the networks were copied for a browser.
unfoldable pub cleared : List NetworkData → ℕ → IrssiClient → IrssiClient
unfolding without_messages
cleared networks next this = record this { networks = map without_messages networks; id_msg = next }

unfoldable pub send_initial_state :
    Runtime → MessageStorage → String → Option String → IrssiClient → IrssiClient × List Effect
unfolding nonzero emits
send_initial_state runtime storage socket token this =
    let marked = with_stored_markers storage this in
    let (networks, next) = loaded_state runtime storage marked in
    let cache = cleared networks next marked in
    let (counted, updates) = activities runtime storage cache.networks cache in
    (
      counted,
      emits socket (
          Packet.networks_init (map shared_network networks) (nonzero this.last_active_channel)
              token
            ∷ names_packets cache.networks
          ++ updates),
    )

unfoldable pub attach_browser :
    Runtime
    → MessageStorage
    → String
    → Option ℕ
    → Option String
    → IrssiClient
    → IrssiClient × List Effect
unfolding send_initial_state
attach_browser runtime storage socket open_channel token this =
    let attached = record this {
      attached_browsers = set socket open_channel this.attached_browsers;
    } in
    if ltb 0 (length this.networks)
    then send_initial_state runtime storage socket token attached
    else (attached, Effect.emit socket (Packet.networks_init [] none token) ∷ [])

unfoldable pub detach_browser : String → IrssiClient → IrssiClient × List Effect
detach_browser socket this =
    (record this { attached_browsers = delete socket this.attached_browsers }, [])

unfoldable pub broadcasts : IrssiClient → List Packet → List Effect
unfolding broadcast_to_all_browsers
broadcasts this [] = []
broadcasts this (p ∷ ps) = broadcast_to_all_browsers p this ++ broadcasts this ps

unfoldable pub save_uuids : Option (Dict String) → List Effect
save_uuids none = []
save_uuids (some uuids) = Effect.save_network_uuids uuids ∷ Effect.save_user ∷ []

-- What `handleInit` sends of the networks, and the UUIDs that it saves.
unfoldable pub announce : Option (Dict String) → List NetworkData → IrssiClient → List Effect
unfolding broadcasts save_uuids
announce uuids networks this =
    broadcasts this
      (Packet.networks_init (map shared_network networks) none none ∷ names_packets networks)
    ++ save_uuids uuids

-- `uuids` is `getNetworkUuidMap()` of the adapter, none where there is no adapter.
unfoldable pub handle_init :
    Runtime
    → MessageStorage
    → Option (Dict String)
    → List NetworkData
    → IrssiClient
    → IrssiClient × List Effect
unfolding announce
handle_init runtime storage uuids networks this =
    let given = record this { networks = networks } in
    let marked = if this.has_storage then load_markers storage given else given in
    let (loaded, next) =
      if this.has_storage
      then load_networks (init_channel runtime storage marked) this.id_msg networks
      else (networks, this.id_msg) in
    (record marked { networks = loaded; id_msg = next }, announce uuids loaded this)

unfoldable pub disconnects : Dict (Option ℕ) → List Effect
disconnects [] = []
disconnects ((socket, open_channel) ∷ m) = Effect.disconnect_socket socket ∷ disconnects m

-- `quit`, less the keys and passwords that it overwrites.
unfoldable pub quit : Bool → IrssiClient → IrssiClient × List Effect
unfolding disconnects
quit should_save this = (
  record this { attached_browsers = []; irssi_connection = none; has_storage = false },
  disconnects this.attached_browsers
      ++ (if is_some this.irssi_connection then Effect.disconnect_irssi ∷ [] else [])
      ++ (if this.has_storage then Effect.close_storage ∷ [] else [])
      ++ (if should_save then Effect.save_user ∷ [] else []),
)
