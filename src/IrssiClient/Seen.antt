-- ===== src/IrssiClient/Seen.antt =====
-- The messages of a channel that the browsers get of server/irssiClient.ts, with their counts.
pub mod Unread
use thelounge.Common.{
  ℕ, ◌+◌, ◌≡◌, refl, ◌↔◌, ◌⊎◌, inl, inr, String, Bool, true, false, not, ◌&&◌, ◌||◌, Option, none,
  some, List, [], ◌∷◌, ◌++◌, if◌then◌else◌, str_eq, arith, eq_iff, ap, Bool-cases, ◌==◌, ◌∙◌,
}
use thelounge.Common.Dict.{Dict, get, has}
use thelounge.Models.Chan.{Chan}
use thelounge.Models.Msg.{Msg}
use thelounge.FeWebAdapter.Network.{Runtime, NetworkData}
use thelounge.IrssiClient.State.{
  IrssiClient, Packet, Effect, is_open_at, broadcast_to_all_browsers,
  is_channel_open_in_any_browser, get_marker_key, find_by_uuid,
}
use thelounge.IrssiClient.Broadcasts.{
  IsDistinct, packets_of, packets_of-append, packets_of-broadcast,
}
use thelounge.IrssiClient.Callbacks.{
  read_if, save_message, handle_message, is_channel_active_in_irssi, place_of, same_text, key_of,
}
use thelounge.IrssiClient.Markers.{tell_read, clear_marker, mark_as_read, is_connected}

-- The messages of a channel among events, with their counts of unread messages.
unfoldable pub unread_counts : List Packet → List ℕ
unread_counts [] = []
unread_counts (Packet.chan_msg id msg unread highlight ∷ ps) = unread ∷ unread_counts ps
unread_counts (_ ∷ ps) = unread_counts ps

unread_counts-append :
    (ps qs : List Packet) → unread_counts (ps ++ qs) ≡ unread_counts ps ++ unread_counts qs
unfolding unread_counts
unread_counts-append [] qs = refl
unread_counts-append (Packet.chan_msg id msg unread highlight ∷ ps) qs =
    ap (◌∷◌ unread) (unread_counts-append ps qs)
unread_counts-append (Packet.activity_update _ _ _ ∷ ps) qs = unread_counts-append ps qs
unread_counts-append (Packet.chan_join _ _ _ _ ∷ ps) qs = unread_counts-append ps qs
unread_counts-append (Packet.chan_part _ ∷ ps) qs = unread_counts-append ps qs
unread_counts-append (Packet.chan_names _ _ ∷ ps) qs = unread_counts-append ps qs
unread_counts-append (Packet.chan_topic _ _ ∷ ps) qs = unread_counts-append ps qs
unread_counts-append (Packet.own_nick _ _ ∷ ps) qs = unread_counts-append ps qs
unread_counts-append (Packet.new_network _ ∷ ps) qs = unread_counts-append ps qs
unread_counts-append (Packet.network_status _ _ ∷ ps) qs = unread_counts-append ps qs
unread_counts-append (Packet.irssi_status _ ∷ ps) qs = unread_counts-append ps qs
unread_counts-append (Packet.networks_init _ _ _ ∷ ps) qs = unread_counts-append ps qs

-- Some attached browser has the channel open.
abbrev pub IsOpen : ℕ → Dict (Option ℕ) → Type 0
IsOpen id m = (s : String) × (get s m ≡ some (some id))

get-absent :
    (s : String) (m : Dict (Option ℕ)) (v : Option ℕ)
    → has s m ≡ false
    → get s m ≡ some v
    → Path Bool true false
get-absent s m v h e = ground (arith, h, e)

pub IsOpen-is_open_at :
    (id : ℕ) (m : Dict (Option ℕ)) (s : String) → get s m ≡ some (some id) → is_open_at id m ≡ true
unfolding is_open_at get
IsOpen-is_open_at id [] s e = ground (arith, e)
IsOpen-is_open_at id ((k, none) ∷ m) s e = ground (arith, e, IsOpen-is_open_at id m s)
IsOpen-is_open_at id ((k, some n) ∷ m) s e = ground (arith, e, IsOpen-is_open_at id m s)

pub is_open_at-IsOpen :
    (id : ℕ) (m : Dict (Option ℕ)) → IsDistinct m → is_open_at id m ≡ true → IsOpen id m
unfolding is_open_at get
is_open_at-IsOpen id [] d e = cc
is_open_at-IsOpen id ((k, none) ∷ m) (new, d) e =
    let (s, h) = is_open_at-IsOpen id m d e in (s, ground (arith, h, new, eq_iff k s))
is_open_at-IsOpen id ((k, some n) ∷ m) (new, d) e = elim (Bool-cases (n == id)) [
  | inl same ↦ (k, ground (arith, same, eq_iff k k))
  | inr other ↦
      let (s, h) = is_open_at-IsOpen id m d (rw other at e) in
      (s, ground (arith, h, new, eq_iff k s))
]

-- The counts for one browser among effects.
abbrev pub counts_for : String → List Effect → List ℕ
counts_for s es = unread_counts (packets_of s es)

pub counts_for-append :
    (s : String) (es fs : List Effect)
    → counts_for s (es ++ fs) ≡ counts_for s es ++ counts_for s fs
counts_for-append s es fs =
    rw (packets_of-append s es fs) (unread_counts-append (packets_of s es) (packets_of s fs))

pub counts_for-update :
    (s : String) (chan unread highlight : ℕ) (this : IrssiClient)
    → IsDistinct this.attached_browsers
    → counts_for s (broadcast_to_all_browsers (Packet.activity_update chan unread highlight) this)
      ≡ []
unfolding unread_counts
counts_for-update s chan unread highlight this d =
    ground (arith, packets_of-broadcast s (Packet.activity_update chan unread highlight) this d)

pub counts_for-tell_read :
    (s : String) (from_irssi : Bool) (this : IrssiClient) (target : Option (NetworkData × Chan))
    → IsDistinct this.attached_browsers
    → counts_for s (tell_read from_irssi this target) ≡ []
unfolding tell_read packets_of unread_counts
counts_for-tell_read s from_irssi this none d = refl
counts_for-tell_read s from_irssi this (some (net, chan)) d = ground (
  arith,
  counts_for-append s (broadcast_to_all_browsers (Packet.activity_update chan.id 0 0) this) (
      if is_connected this.irssi_connection && not from_irssi
      then Effect.mark_read net.server_tag chan.name ∷ []
      else []),
  counts_for-update s chan.id 0 0 this d,
)

pub counts_for-clear_marker :
    (s : String) (now : ℕ) (network channel key : String) (held : Option ℕ) (this : IrssiClient)
    → counts_for s (clear_marker now network channel key held this).1 ≡ []
unfolding clear_marker packets_of unread_counts
counts_for-clear_marker s now network channel key none this = refl
counts_for-clear_marker s now network channel key (some marker) this = ground arith

pub counts_for-mark_as_read :
    (s : String) (runtime : Runtime) (now : ℕ) (network channel : String) (from_irssi : Bool)
    (this : IrssiClient)
    → IsDistinct this.attached_browsers
    → counts_for s (mark_as_read runtime now network channel from_irssi this).1 ≡ []
unfolding mark_as_read
counts_for-mark_as_read s runtime now network channel from_irssi this d =
    let key : String = get_marker_key runtime network channel in
    let held : Option ℕ = get key this.unread_markers in
    let target : Option (NetworkData × Chan) = find_by_uuid runtime network channel this.networks in
    counts_for-append s (clear_marker now network channel key held this).1
      (tell_read from_irssi this target)
    ∙ (rw (counts_for-clear_marker s now network channel key held this)
        (counts_for-tell_read s from_irssi this target d))

pub counts_for-read_if :
    (s : String) (runtime : Runtime) (now : ℕ) (wanted : Bool) (place : Option (NetworkData × Chan))
    (this : IrssiClient)
    → IsDistinct this.attached_browsers
    → counts_for s (read_if runtime now wanted place this).1 ≡ []
unfolding read_if packets_of unread_counts
counts_for-read_if s runtime now wanted none this d = refl
counts_for-read_if s runtime now true (some (network, chan)) this d =
    counts_for-mark_as_read s runtime now network.uuid chan.name false this d
counts_for-read_if s runtime now false (some (network, chan)) this d = refl

pub counts_for-save_message :
    (s : String) (msg : Msg) (this : IrssiClient) (place : Option (NetworkData × Chan))
    → counts_for s (save_message msg this place) ≡ []
unfolding save_message packets_of unread_counts
counts_for-save_message s msg this none = refl
counts_for-save_message s msg this (some (network, chan)) = ground arith
