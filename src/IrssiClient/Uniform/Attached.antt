-- ===== src/IrssiClient/Uniform/Attached.antt =====
-- What the storage has for a browser leaves the browsers of server/irssiClient.ts as they are.
use thelounge.Common.{
  ℕ, refl, String, Bool, Option, none, some, List, [], ◌∷◌, ◌≡◌, ◌∙◌, Bool-cases, inl, ltb, inr,
  arith, ◌&&◌, if◌then◌else◌, or_default, not, true, length, false,
}
use thelounge.Models.Chan.{Chan}
use thelounge.Models.Msg.{Msg}
use thelounge.FeWebAdapter.Network.{Runtime, NetworkData}
use thelounge.IrssiClient.State.{
  IrssiClient, Effect, UnreadMarker, change_marker, get_marker_key, marker_of, Packet,
}
use thelounge.IrssiClient.Browsers.{
  count_marker, activities, activities_of, counted, send_initial_state, attach_browser,
  with_stored_markers, cleared, loaded_state,
}
use thelounge.IrssiClient.Loading.{MessageStorage, load_markers, add_markers}
use thelounge.IrssiClient.Broadcasts.{IsDistinct, set-IsDistinct}
use thelounge.Common.Dict.{get, set}
use thelounge.IrssiClient.Uniform.Asked.{IsDistinct-same}
use thelounge.IrssiClient.History.{more_in, read_history, requested, numbered_history}

read_history-attached_browsers :
    (target : ℕ) (messages : Option (List Msg)) (total : Option ℕ) (this : IrssiClient)
    → (read_history target messages total this).0.attached_browsers ≡ this.attached_browsers
unfolding read_history numbered_history
read_history-attached_browsers target none total this = refl
read_history-attached_browsers target (some messages) none this = refl
read_history-attached_browsers target (some messages) (some total) this = refl

pub more_in-attached_browsers :
    (this : IrssiClient) (storage : MessageStorage) (target : ℕ) (time : Option ℕ)
    (found : Option (NetworkData × Chan))
    → (more_in storage target time found this).0.attached_browsers ≡ this.attached_browsers
unfolding more_in
more_in-attached_browsers this storage target time none = refl
more_in-attached_browsers this storage target time (some (network, chan)) = ground (
  arith,
  read_history-attached_browsers target (requested storage network.uuid chan.name time)
      (storage.get_message_count network.uuid chan.name) this,
)

count_marker-attached_browsers :
    (storage : MessageStorage) (net : NetworkData) (chan : Chan) (key : String) (place : Option ℕ)
    (marker : Option UnreadMarker) (this : IrssiClient)
    → (count_marker storage net chan key place marker this).0.attached_browsers
      ≡ this.attached_browsers
unfolding count_marker counted change_marker
count_marker-attached_browsers storage net chan key (some place) (some marker) this =
    elim (Bool-cases (ltb 0 marker.data_level)) [ inl e ↦ rw e refl | inr e ↦ rw e refl ]
count_marker-attached_browsers storage net chan key none marker this = refl
count_marker-attached_browsers storage net chan key (some place) none this = refl

activities_of-attached_browsers :
    (runtime : Runtime) (storage : MessageStorage) (net : NetworkData) (chans : List Chan)
    (this : IrssiClient)
    → (activities_of runtime storage net chans this).0.attached_browsers ≡ this.attached_browsers
unfolding activities_of
activities_of-attached_browsers runtime storage net [] this = refl
activities_of-attached_browsers runtime storage net (c ∷ cs) this =
    activities_of-attached_browsers runtime storage net cs
      (count_marker storage net c key held marker this).0
    ∙ count_marker-attached_browsers storage net c key held marker this
  where
    key : String
    key = get_marker_key runtime net.uuid c.name

    held : Option ℕ
    held = get key this.unread_markers

    marker : Option UnreadMarker
    marker = marker_of key this

pub activities-attached_browsers :
    (runtime : Runtime) (storage : MessageStorage) (nets : List NetworkData) (this : IrssiClient)
    → (activities runtime storage nets this).0.attached_browsers ≡ this.attached_browsers
unfolding activities
activities-attached_browsers runtime storage [] this = refl
activities-attached_browsers runtime storage (n ∷ ns) this =
    activities-attached_browsers runtime storage ns
      (activities_of runtime storage n n.channels this).0
    ∙ activities_of-attached_browsers runtime storage n n.channels this

add_markers-attached_browsers :
    (stored : List (String × ℕ)) (this : IrssiClient)
    → (add_markers stored this).attached_browsers ≡ this.attached_browsers
unfolding add_markers
add_markers-attached_browsers [] this = refl
add_markers-attached_browsers ((key, time) ∷ rest) this = add_markers-attached_browsers rest _

pub loaded-attached_browsers :
    (storage : MessageStorage) (b : Bool) (this : IrssiClient)
    → (if b then load_markers storage this else this).attached_browsers ≡ this.attached_browsers
unfolding load_markers
loaded-attached_browsers storage true this =
    add_markers-attached_browsers (or_default storage.load_unread_markers []) this
loaded-attached_browsers storage false this = refl

pub send_initial_state-attached_browsers :
    (runtime : Runtime) (storage : MessageStorage) (socket : String) (token : Option String)
    (this : IrssiClient)
    → (send_initial_state runtime storage socket token this).0.attached_browsers
      ≡ this.attached_browsers
unfolding send_initial_state with_stored_markers cleared
send_initial_state-attached_browsers runtime storage socket token this =
    activities-attached_browsers runtime storage (cache this).networks (cache this)
    ∙ loaded-attached_browsers storage
        (this.has_storage && not (ltb 0 (length this.unread_markers))) this
  where
    marked : IrssiClient → IrssiClient
    marked this = with_stored_markers storage this

    cache : IrssiClient → IrssiClient
    cache this =
        cleared (loaded_state runtime storage (marked this)).0
          (loaded_state runtime storage (marked this)).1 (marked this)

attached-IsDistinct :
    (b : Bool) (this : IrssiClient) (x y : IrssiClient × List Effect)
    → x.0.attached_browsers ≡ this.attached_browsers
    → y.0.attached_browsers ≡ this.attached_browsers
    → IsDistinct this.attached_browsers
    → IsDistinct (if b then x else y).0.attached_browsers
attached-IsDistinct true this x y h k d = IsDistinct-same this x.0 h d
attached-IsDistinct false this x y h k d = IsDistinct-same this y.0 k d

pub attach_browser-IsDistinct :
    (runtime : Runtime) (storage : MessageStorage) (socket : String) (id : Option ℕ)
    (token : Option String) (this : IrssiClient)
    → IsDistinct this.attached_browsers
    → IsDistinct (attach_browser runtime storage socket id token this).0.attached_browsers
unfolding attach_browser
attach_browser-IsDistinct runtime storage socket id token this d =
    let attached : IrssiClient = record this {
      attached_browsers = set socket id this.attached_browsers;
    } in
    attached-IsDistinct (ltb 0 (length this.networks)) attached
      (send_initial_state runtime storage socket token attached)
      (attached, Effect.emit socket (Packet.networks_init [] none token) ∷ [])
      (send_initial_state-attached_browsers runtime storage socket token attached) refl
      (set-IsDistinct socket id this.attached_browsers d)
