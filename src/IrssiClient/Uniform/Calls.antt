-- ===== src/IrssiClient/Uniform/Calls.antt =====
-- What the browsers get of the callbacks of server/irssiClient.ts.
use thelounge.Common.{false, ℕ, refl, String, Bool, Option, none, some, List, [], ◌∷◌, false, map}
use thelounge.Common.Dict.{Dict}
use thelounge.Models.Chan.{Chan}
use thelounge.Models.Msg.{Msg}
use thelounge.FeWebAdapter.Network.{Runtime, NetworkData}
use thelounge.IrssiClient.Uniform.{
  Keeps, Keeps-if, Keeps-nothing, Told-if, Keeps-mark_as_read, keep, FeWebMessage,
}
use thelounge.IrssiClient.Callbacks.{
  handle_message, handle_network_update, handle_query_closed, handle_channel_join, disconnected,
  read_if, save_message, close_found, place_of,
}
use thelounge.IrssiClient.State.{IrssiClient, Packet, Effect, shared_network}
use thelounge.IrssiClient.Broadcasts.{
  Told, packets_of, IsDistinct, Told-broadcast, Told-append, Told-nil, Told-quiet,
}
use thelounge.IrssiClient.Callbacks.{
  save_message, close_found, read_if, handle_channel_join, handle_query_closed, disconnected,
  change_network, Counts,
}
use thelounge.IrssiClient.Browsers.{broadcasts, handle_init, save_uuids, announce}
use thelounge.IrssiClient.Loading.{MessageStorage, names_packets}
use thelounge.IrssiClient.Uniform.Attached.{loaded-attached_browsers}

module _ (this : IrssiClient) (distinct : IsDistinct this.attached_browsers) where
  pub Keeps-handle_network_update :
      (network : NetworkData) → Keeps this (handle_network_update network this)
  unfolding handle_network_update
  Keeps-handle_network_update network = keep refl (
      Told-append _ _ _ (Told-if this _ _ _ (Told-broadcast _ this distinct) (Told-nil _))
        (Told-broadcast _ this distinct))

  Keeps-read_if :
      (runtime : Runtime) (now : ℕ) (wanted : Bool) (place : Option (NetworkData × Chan))
      → Keeps this (read_if runtime now wanted place this)
  unfolding read_if
  Keeps-read_if runtime now wanted none = Keeps-nothing this
  Keeps-read_if runtime now wanted (some (network, chan)) =
      Keeps-if this wanted _ _
        (Keeps-mark_as_read this distinct runtime now network.uuid chan.name false)
        (Keeps-nothing this)

  Told-save_message :
      (msg : Msg) (place : Option (NetworkData × Chan))
      → Told this.attached_browsers (save_message msg this place)
  unfolding save_message packets_of
  Told-save_message msg none = Told-nil _
  Told-save_message msg (some (network, chan)) =
      Told-if this _ _ _
        (Told-quiet _ (Effect.index network.uuid network.name chan.name msg ∷ []) (λ s. refl))
        (Told-nil _)

  pub Keeps-handle_message :
      (runtime : Runtime) (now : ℕ) (uuid : String) (id : ℕ) (msg : Msg)
      → Keeps this (handle_message runtime now uuid id msg this)
  unfolding handle_message
  Keeps-handle_message runtime now uuid id msg =
      let h = Keeps-read_if runtime now _ (place_of uuid id this) in
      keep h.same (
        Told-append _ _ _
          (Told-append _ _ _ (Told-save_message msg _) (Told-broadcast _ this distinct)) h.told)

  Keeps-close_found :
      (removed : NetworkData → NetworkData) (tag : String) (query : Option Chan)
      → Keeps this (close_found removed tag query this)
  unfolding close_found
  Keeps-close_found removed tag none = Keeps-nothing this
  Keeps-close_found removed tag (some query) = keep refl (Told-broadcast _ this distinct)

  pub Keeps-handle_query_closed :
      (runtime : Runtime) (msg : FeWebMessage) → Keeps this (handle_query_closed runtime msg this)
  unfolding handle_query_closed
  Keeps-handle_query_closed runtime msg =
      Keeps-if this _ _ _ (Keeps-nothing this) (Keeps-close_found _ _ _)

  pub Keeps-handle_channel_join :
      (counts : Counts) (uuid : String) (chan : Chan)
      → Keeps this (handle_channel_join counts uuid chan this)
  unfolding handle_channel_join change_network
  Keeps-handle_channel_join counts uuid chan = keep refl (Told-broadcast _ this distinct)

  pub Keeps-disconnected : Keeps this (disconnected this)
  unfolding disconnected
  Keeps-disconnected =
      keep refl
        (Told-append _ _ _ (Told-broadcast _ this distinct) (Told-broadcast _ this distinct))

  Told-broadcasts : (ps : List Packet) → Told this.attached_browsers (broadcasts this ps)
  unfolding broadcasts
  Told-broadcasts [] = Told-nil _
  Told-broadcasts (p ∷ ps) = Told-append _ _ _ (Told-broadcast p this distinct) (Told-broadcasts ps)

  Told-save_uuids : (uuids : Option (Dict String)) → Told this.attached_browsers (save_uuids uuids)
  unfolding save_uuids packets_of
  Told-save_uuids none = Told-nil _
  Told-save_uuids (some uuids) =
      Told-quiet _ (Effect.save_network_uuids uuids ∷ Effect.save_user ∷ []) (λ s. refl)

  Told-announce :
      (uuids : Option (Dict String)) (networks : List NetworkData)
      → Told this.attached_browsers (announce uuids networks this)
  unfolding announce
  Told-announce uuids networks =
      Told-append _ _ _
        (Told-broadcasts
          (Packet.networks_init (map shared_network networks) none none ∷ names_packets networks))
        (Told-save_uuids uuids)

  pub Keeps-handle_init :
      (runtime : Runtime) (storage : MessageStorage) (uuids : Option (Dict String))
      (networks : List NetworkData)
      → Keeps this (handle_init runtime storage uuids networks this)
  unfolding handle_init
  Keeps-handle_init runtime storage uuids networks =
      keep (loaded-attached_browsers storage this.has_storage (record this { networks = networks }))
        (Told-announce uuids _)
