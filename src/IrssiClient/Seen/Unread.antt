-- ===== src/IrssiClient/Seen/Unread.antt =====
-- When a message counts as unread in server/irssiClient.ts.
use thelounge.Common.{
  ℕ, ◌≡◌, ◌↔◌, ◌⊎◌, inl, inr, String, Bool, true, ◌||◌, Option, none, some, List, [], ◌∷◌, ◌++◌,
  if◌then◌else◌, arith, eq_iff,
}
use thelounge.Common.Dict.{has}
use thelounge.Models.Chan.{Chan}
use thelounge.Models.Msg.{Msg}
use thelounge.FeWebAdapter.Network.{Runtime, NetworkData}
use thelounge.IrssiClient.State.{
  IrssiClient, Packet, Effect, is_open_at, broadcast_to_all_browsers,
  is_channel_open_in_any_browser, get_marker_key,
}
use thelounge.IrssiClient.Broadcasts.{IsDistinct, packets_of-broadcast}
use thelounge.IrssiClient.Callbacks.{
  handle_message, is_channel_active_in_irssi, place_of, same_text, key_of,
}
use thelounge.IrssiClient.Seen.{
  unread_counts, IsOpen, counts_for, counts_for-append, counts_for-save_message, is_open_at-IsOpen,
  IsOpen-is_open_at, counts_for-read_if,
}

-- Whether a message is seen where it arrives.
unfoldable pub is_seen : Runtime → String → ℕ → Msg → IrssiClient → Bool
is_seen runtime uuid id msg this =
    msg.self
    || (is_channel_open_in_any_browser id this || is_channel_active_in_irssi runtime uuid id this)

counts_for-message :
    (s : String) (id : ℕ) (msg : Msg) (unread highlight : ℕ) (this : IrssiClient)
    → IsDistinct this.attached_browsers
    → has s this.attached_browsers ≡ true
    → counts_for s (broadcast_to_all_browsers (Packet.chan_msg id msg unread highlight) this)
      ≡ unread ∷ []
unfolding unread_counts
counts_for-message s id msg unread highlight this d h =
    ground (arith, packets_of-broadcast s (Packet.chan_msg id msg unread highlight) this d, h)

-- What is saved, the message, and what is read: only the message counts.
counts_for-three :
    (s : String) (a b c : List Effect) (n : ℕ)
    → counts_for s a ≡ []
    → counts_for s b ≡ n ∷ []
    → counts_for s c ≡ []
    → counts_for s (a ++ b ++ c) ≡ n ∷ []
counts_for-three s a b c n ha hb hc =
    ground (arith, counts_for-append s a b, counts_for-append s (a ++ b) c, ha, hb, hc)

handle_message-counts :
    (s : String) (runtime : Runtime) (now : ℕ) (uuid : String) (id : ℕ) (msg : Msg)
    (this : IrssiClient)
    → IsDistinct this.attached_browsers
    → has s this.attached_browsers ≡ true
    → counts_for s (handle_message runtime now uuid id msg this).1
      ≡ (if is_seen runtime uuid id msg this then 0 else 1) ∷ []
unfolding handle_message is_seen
handle_message-counts s runtime now uuid id msg this d h =
    counts_for-three s _ _ _ _ (counts_for-save_message s msg this (place_of uuid id this))
      (counts_for-message s id msg _ _ this d h)
      (counts_for-read_if s runtime now _ (place_of uuid id this) this d)

same_text-some :
    (key : String) (a : Option String) → (same_text (some key) a ≡ true) ↔ (a ≡ some key)
unfolding same_text
same_text-some key none = ground arith
same_text-some key (some b) = ground (arith, eq_iff key b)

is_channel_active_in_irssi_iff :
    (runtime : Runtime) (uuid : String) (id : ℕ) (this : IrssiClient) (network : NetworkData)
    (chan : Chan)
    → place_of uuid id this ≡ some (network, chan)
    → (is_channel_active_in_irssi runtime uuid id this ≡ true)
      ↔ (this.active_window_in_irssi ≡ some (get_marker_key runtime network.uuid chan.name))
unfolding is_channel_active_in_irssi key_of
is_channel_active_in_irssi_iff runtime uuid id this network chan p =
    rw p
      (same_text-some (get_marker_key runtime network.uuid chan.name) this.active_window_in_irssi)

abbrev unread_if : Bool → ℕ
unread_if seen = if seen then 0 else 1

count-zero : (b : Bool) → (unread_if b ≡ 0) ↔ (b ≡ true)
count-zero b = ground arith

either : (a b c : Bool) → ((a || (b || c)) ≡ true) ↔ ((a ≡ true) ⊎ ((b ≡ true) ⊎ (c ≡ true)))
either a b c = ground arith

is_seen_iff :
    (runtime : Runtime) (uuid : String) (msg : Msg) (this : IrssiClient) (network : NetworkData)
    (chan : Chan)
    → IsDistinct this.attached_browsers
    → place_of uuid chan.id this ≡ some (network, chan)
    → (unread_if (is_seen runtime uuid chan.id msg this) ≡ 0) ↔ (
        (msg.self ≡ true)
        ⊎ (IsOpen chan.id this.attached_browsers
            ⊎ (this.active_window_in_irssi ≡ some (get_marker_key runtime network.uuid chan.name))))
unfolding is_seen is_channel_open_in_any_browser
is_seen_iff runtime uuid msg this network chan d p =
    let open_now : Bool = is_open_at chan.id this.attached_browsers in
    let active : Bool = is_channel_active_in_irssi runtime uuid chan.id this in
    let (to, from) = is_channel_active_in_irssi_iff runtime uuid chan.id this network chan p in
    let (zero_then, zero_if) = count-zero (msg.self || (open_now || active)) in
    let (one_of, all_of) = either msg.self open_now active in
    (
      λ e. elim (one_of (zero_then e)) [
        | inl own ↦ inl own
        | inr (inl shown) ↦ inr (inl (is_open_at-IsOpen chan.id this.attached_browsers d shown))
        | inr (inr there) ↦ inr (inr (to there))
      ],
      λ e. zero_if (
          all_of (elim e [
            | inl own ↦ inl own
            | inr (inl (s, shown)) ↦
                inr (inl (IsOpen-is_open_at chan.id this.attached_browsers s shown))
            | inr (inr there) ↦ inr (inr (from there))
          ])),
    )

-- A message reaches an attached browser once, and counts as read exactly if it is the user's own, or
-- some attached browser has its channel open, or its channel is the active one in irssi; in a network
-- and a channel that the client has. No browser is attached twice.
pub handle_message-unread :
    (s : String) (runtime : Runtime) (now : ℕ) (uuid : String) (msg : Msg) (this : IrssiClient)
    (network : NetworkData) (chan : Chan)
    → IsDistinct this.attached_browsers
    → has s this.attached_browsers ≡ true
    → place_of uuid chan.id this ≡ some (network, chan)
    → (n : ℕ) × (counts_for s (handle_message runtime now uuid chan.id msg this).1 ≡ n ∷ [])
      × ((n ≡ 0) ↔ (
          (msg.self ≡ true)
          ⊎ (IsOpen chan.id this.attached_browsers
              ⊎ (this.active_window_in_irssi
                  ≡ some (get_marker_key runtime network.uuid chan.name)))))
handle_message-unread s runtime now uuid msg this network chan d h p = (
  unread_if (is_seen runtime uuid chan.id msg this),
  handle_message-counts s runtime now uuid chan.id msg this d h,
  is_seen_iff runtime uuid msg this network chan d p,
)
