-- ===== src/IrssiClient/Uniform.antt =====
-- The handlers of server/irssiClient.ts that the adapter, irssi and the browsers call leave the
-- browsers as they are and tell them all the same.
pub mod Asked
pub mod Calls
pub mod Attached
pub mod Steps
pub mod Lines
use thelounge.Common.{
  ℕ, ◌≡◌, refl, ◌∙◌, String, Bool, true, false, not, ◌&&◌, ◌||◌, Option, none, some, List, [], ◌∷◌,
  ◌++◌, str_eq, if◌then◌else◌, arith, is_some, ◌==◌,
}
use thelounge.Common.Dict.{get}
use thelounge.Models.Chan.{Chan}
use thelounge.Models.Msg.{Msg}
use thelounge.FeWebAdapter.Network.{Runtime, NetworkData}
use thelounge.FeWebAdapter.State.{FeWebMessage}
use thelounge.IrssiClient.State.{
  UnreadMarker, IrssiClient, PendingCount, Packet, Effect, broadcast_to_all_browsers,
  get_marker_key, is_channel_open_in_any_browser, find_network, find_by_uuid, find_named, or_text,
  shared_network, change_marker,
}
use thelounge.IrssiClient.Markers.{
  handle_activity_update, unread_counted, mark_as_read, handle_mark_read_from_irssi, marker_object,
  count_one_more, activity_in, new_activity, clear_marker, tell_read, read_in_irssi, left_window,
}
use thelounge.IrssiClient.Callbacks.{handle_network_update, handle_message}
use thelounge.IrssiClient.Broadcasts.{
  IsDistinct, Told, Told-append, Told-nil, Told-quiet, Told-broadcast, packets_of,
}

-- The browsers stay, and each is told the same.
pub record Keeps (this : IrssiClient) (result : IrssiClient × List Effect) : Type 0 where
  pub same : result.0.attached_browsers ≡ this.attached_browsers
  pub told : Told this.attached_browsers result.1

pub keep :
    {this next : IrssiClient} {es : List Effect}
    → next.attached_browsers ≡ this.attached_browsers
    → Told this.attached_browsers es
    → Keeps this (next, es)
keep same told = record { same = same; told = told }

pub Keeps-if :
    (this : IrssiClient) (b : Bool) (x y : IrssiClient × List Effect)
    → Keeps this x
    → Keeps this y
    → Keeps this (if b then x else y)
Keeps-if this true x y h k = h
Keeps-if this false x y h k = k

pub Told-if :
    (this : IrssiClient) (b : Bool) (x y : List Effect)
    → Told this.attached_browsers x
    → Told this.attached_browsers y
    → Told this.attached_browsers (if b then x else y)
Told-if this true x y h k = h
Told-if this false x y h k = k

pub Keeps-nothing : (this : IrssiClient) → Keeps this (this, [])
Keeps-nothing this = keep refl (Told-nil this.attached_browsers)

module _ (this : IrssiClient) (distinct : IsDistinct this.attached_browsers) where
  pub Keeps-broadcast :
      (next : IrssiClient) (p : Packet)
      → next.attached_browsers ≡ this.attached_browsers
      → Keeps this (next, broadcast_to_all_browsers p this)
  Keeps-broadcast next p e = keep e (Told-broadcast p this distinct)

  pub Keeps-unread_counted :
      (p : PendingCount) (count : Option ℕ) → Keeps this (unread_counted p count this)
  unfolding unread_counted count_one_more
  Keeps-unread_counted p none = keep refl (Told-broadcast _ this distinct)
  Keeps-unread_counted p (some count) = keep refl (Told-broadcast _ this distinct)

  Told-asked : (p : PendingCount) → Told this.attached_browsers (Effect.get_unread_count p ∷ [])
  unfolding packets_of
  Told-asked p = Told-quiet this.attached_browsers (Effect.get_unread_count p ∷ []) (λ s. refl)

  Keeps-new_activity :
      (now level : ℕ) (network : NetworkData) (chan : Chan) (key : String) (marker : ℕ)
      (heap : List UnreadMarker)
      → Keeps this (new_activity now level network chan key marker (record this { heap = heap }))
  unfolding new_activity count_one_more left_window change_marker
  Keeps-new_activity now level network chan key marker heap =
      Keeps-if this this.has_storage _ _ (keep refl (Told-asked _))
        (keep refl (Told-broadcast _ this distinct))

  Keeps-activity_found :
      (runtime : Runtime) (now level : ℕ) (network : NetworkData) (chan : Chan) (held : Option ℕ)
      → Keeps this (
          let key = get_marker_key runtime network.uuid chan.name in
          let (made, marker) = marker_object now network chan held this in
          if is_channel_open_in_any_browser chan.id this
          then (this, [])
          else if level == 0
          then read_in_irssi now key marker chan.id made
          else new_activity now level network chan key marker made)
  unfolding marker_object read_in_irssi
  Keeps-activity_found runtime now level network chan none =
      Keeps-if this (is_channel_open_in_any_browser chan.id this) _ _ (Keeps-nothing this) (
        Keeps-if this (level == 0) _ _ (keep refl (Told-broadcast _ this distinct))
          (Keeps-new_activity now level network chan _ _ _))
  Keeps-activity_found runtime now level network chan (some marker) =
      Keeps-if this (is_channel_open_in_any_browser chan.id this) _ _ (Keeps-nothing this) (
        Keeps-if this (level == 0) _ _ (keep refl (Told-broadcast _ this distinct))
          (Keeps-new_activity now level network chan _ marker this.heap))

  Keeps-activity_in :
      (runtime : Runtime) (now level : ℕ) (target : Option (NetworkData × Chan))
      → Keeps this (activity_in runtime now level this target)
  unfolding activity_in
  Keeps-activity_in runtime now level none = Keeps-nothing this
  Keeps-activity_in runtime now level (some (network, chan)) =
      Keeps-activity_found runtime now level network chan _

  pub Keeps-handle_activity_update :
      (runtime : Runtime) (now : ℕ) (msg : FeWebMessage)
      → Keeps this (handle_activity_update runtime now msg this)
  unfolding handle_activity_update
  Keeps-handle_activity_update runtime now msg =
      Keeps-if this _ _ _ (Keeps-nothing this) (Keeps-activity_in runtime now msg.level _)

  Told-tell_read :
      (from_irssi : Bool) (target : Option (NetworkData × Chan))
      → Told this.attached_browsers (tell_read from_irssi this target)
  unfolding tell_read packets_of
  Told-tell_read from_irssi none = Told-nil this.attached_browsers
  Told-tell_read from_irssi (some (net, chan)) =
      Told-append this.attached_browsers _ _ (Told-broadcast _ this distinct) (
        Told-if this _ _ _
          (Told-quiet this.attached_browsers (Effect.mark_read net.server_tag chan.name ∷ [])
            (λ s. refl))
          (Told-nil this.attached_browsers))

  Keeps-cleared :
      (now : ℕ) (network channel key : String) (held : Option ℕ)
      → Keeps this (clear_marker now network channel key held this)
  unfolding clear_marker packets_of
  Keeps-cleared now network channel key none = Keeps-nothing this
  Keeps-cleared now network channel key (some marker) = keep refl (
      Told-if this this.has_storage _ _
        (Told-quiet this.attached_browsers (Effect.save_unread_marker network channel now ∷ [])
          (λ s. refl))
        (Told-nil this.attached_browsers))

  pub Keeps-mark_as_read :
      (runtime : Runtime) (now : ℕ) (network channel : String) (from_irssi : Bool)
      → Keeps this (mark_as_read runtime now network channel from_irssi this)
  unfolding mark_as_read
  Keeps-mark_as_read runtime now network channel from_irssi =
      keep (Keeps-cleared now network channel key held).same (
        Told-append this.attached_browsers _ _ (Keeps-cleared now network channel key held).told
          (Told-tell_read from_irssi _))
    where
      key : String
      key = get_marker_key runtime network channel

      held : Option ℕ
      held = get key this.unread_markers
