-- ===== src/IrssiClient/Uniform/Steps.antt =====
-- What the browsers get of everything that server/irssiClient.ts is given.
use thelounge.Common.{
  ℕ, refl, String, Bool, Option, none, some, List, [], ◌∷◌, true, ◌≡◌, false, Bool-cases, inl,
  if◌then◌else◌, inr,
}
use thelounge.Models.Chan.{Chan}
use thelounge.FeWebAdapter.Network.{Runtime, NetworkData}
use thelounge.IrssiClient.State.{IrssiClient, Effect, PendingCount, find_target, Packet}
use thelounge.IrssiClient.Run.{Input, Given, System, handle, step, run, nth, answer, new_system}
use thelounge.IrssiClient.Uniform.{
  Keeps, Keeps-nothing, Told-if, keep, Keeps-mark_as_read, Keeps-unread_counted,
  Keeps-handle_activity_update, Keeps-broadcast,
}
use thelounge.IrssiClient.Markers.{open_channel, read_target, handle_mark_read_from_irssi}
use thelounge.IrssiClient.Browsers.{disconnects, quit, detach_browser}
use thelounge.IrssiClient.Broadcasts.{
  packets_of, IsDistinct, Told, Told-append, Told-quiet, set-IsDistinct, Told-nil, Told-set,
  delete-IsDistinct,
}
use thelounge.IrssiClient.Uniform.Asked.{IsDistinct-same}
use thelounge.Common.Dict.{Dict, has, set}
use thelounge.IrssiClient.Uniform.Calls.{
  Keeps-handle_query_closed, Keeps-handle_network_update, Keeps-handle_message,
  Keeps-handle_channel_join, Keeps-handle_init, Keeps-disconnected,
}
use thelounge.IrssiClient.Loading.{MessageStorage}
use thelounge.IrssiClient.Uniform.Attached.{more_in-attached_browsers, attach_browser-IsDistinct}
use thelounge.IrssiClient.Uniform.Lines.{
  Keeps-handle_input, Keeps-handle_names_request, Keeps-handle_part_channel,
}
use thelounge.IrssiClient.Callbacks.{
  handle_channel_part, handle_nicklist_update, handle_topic_update, handle_nick_change,
}
use thelounge.IrssiClient.History.{more}

-- The browsers afterwards, and what those of before are told.
record Uniform (this : IrssiClient) (result : IrssiClient × List Effect) : Type 0 where
  distinct : IsDistinct result.0.attached_browsers
  told : Told this.attached_browsers result.1

Uniform-Keeps :
    (this : IrssiClient) (result : IrssiClient × List Effect)
    → IsDistinct this.attached_browsers
    → Keeps this result
    → Uniform this result
Uniform-Keeps this result d k = record {
  distinct = IsDistinct-same this result.0 k.same d;
  told = k.told;
}

Keeps-answer :
    (this : IrssiClient) (p : Option PendingCount) (count : Option ℕ)
    → IsDistinct this.attached_browsers
    → Keeps this (answer p count this)
unfolding answer
Keeps-answer this none count d = Keeps-nothing this
Keeps-answer this (some p) count d = Keeps-unread_counted this d p count

Keeps-read_target :
    (this : IrssiClient) (runtime : Runtime) (now : ℕ) (target : Option (NetworkData × Chan))
    → IsDistinct this.attached_browsers
    → Keeps this (read_target runtime now target this)
unfolding read_target
Keeps-read_target this runtime now none d = Keeps-nothing this
Keeps-read_target this runtime now (some (network, chan)) d =
    Keeps-mark_as_read this d runtime now network.uuid chan.name false

Uniform-opened :
    (this : IrssiClient) (socket : String) (id : Option ℕ) (result : IrssiClient × List Effect)
    → IsDistinct this.attached_browsers
    → has socket this.attached_browsers ≡ true
    → Keeps (record this { attached_browsers = set socket id this.attached_browsers }) result
    → Uniform this result
Uniform-opened this socket id result d h k = record {
  distinct =
      IsDistinct-same (record this { attached_browsers = set socket id this.attached_browsers })
        result.0 k.same (set-IsDistinct socket id this.attached_browsers d);
  told = Told-set socket id this.attached_browsers result.1 h k.told;
}

Uniform-open_channel :
    (this : IrssiClient) (runtime : Runtime) (now : ℕ) (socket : String) (id : ℕ)
    → IsDistinct this.attached_browsers
    → Uniform this (open_channel runtime now socket id this)
unfolding open_channel
Uniform-open_channel this runtime now socket id d =
    elim (Bool-cases (has socket this.attached_browsers)) [
      | inl e ↦ rw e (
          Uniform-opened this socket (some id) _ d e (
            Keeps-read_target
              (record this { attached_browsers = set socket (some id) this.attached_browsers })
              runtime now (find_target id this.networks)
              (set-IsDistinct socket (some id) this.attached_browsers d)))
      | inr e ↦ rw e (Uniform-Keeps this (this, []) d (Keeps-nothing this))
    ]

disconnects-packets_of : (s : String) (m : Dict (Option ℕ)) → packets_of s (disconnects m) ≡ []
unfolding disconnects packets_of
disconnects-packets_of s [] = refl
disconnects-packets_of s ((socket, id) ∷ m) = disconnects-packets_of s m

Told-one :
    (this : IrssiClient) (b : Bool) (e : Effect)
    → ((s : String) → packets_of s (e ∷ []) ≡ [])
    → Told this.attached_browsers (if b then e ∷ [] else [])
Told-one this b e h = Told-if this b _ _ (Told-quiet _ (e ∷ []) h) (Told-nil _)

Told-quit :
    (this : IrssiClient) (should_save : Bool)
    → Told this.attached_browsers (quit should_save this).1
unfolding quit packets_of
Told-quit this should_save =
    Told-append _ _ _
      (Told-append _ _ _
        (Told-append _ _ _
          (Told-quiet _ (disconnects this.attached_browsers)
            (λ s. disconnects-packets_of s this.attached_browsers))
          (Told-one this _ Effect.disconnect_irssi (λ s. refl)))
        (Told-one this _ Effect.close_storage (λ s. refl)))
      (Told-one this _ Effect.save_user (λ s. refl))

abbrev pub attaches : Input → Bool
attaches (Input.attach _ _ _) = true
attaches _ = false

Uniform-more :
    (this : IrssiClient) (storage : MessageStorage) (target : ℕ) (time : Option ℕ)
    → (more storage target time this).0.attached_browsers ≡ this.attached_browsers
unfolding more
Uniform-more this storage target time = more_in-attached_browsers this storage target time _

quit-Uniform : (this : IrssiClient) (should_save : Bool) → Uniform this (quit should_save this)
unfolding quit
quit-Uniform this should_save = record { distinct = tt; told = Told-quit this should_save }

handle-Uniform :
    (runtime : Runtime) (given : Given) (asked : List PendingCount) (input : Input)
    (this : IrssiClient)
    → attaches input ≡ false
    → IsDistinct this.attached_browsers
    → Uniform this (handle runtime given asked input this)
unfolding handle handle_channel_part handle_nicklist_update handle_topic_update handle_nick_change
    handle_mark_read_from_irssi detach_browser
handle-Uniform runtime given asked (Input.activity_update msg) this a d =
    Uniform-Keeps this _ d (Keeps-handle_activity_update this d runtime given.now msg)
handle-Uniform runtime given asked (Input.query_closed msg) this a d =
    Uniform-Keeps this _ d (Keeps-handle_query_closed this d runtime msg)
handle-Uniform runtime given asked (Input.answered n count) this a d =
    Uniform-Keeps this _ d (Keeps-answer this (nth n asked) count d)
handle-Uniform runtime given asked (Input.network_update network) this a d =
    Uniform-Keeps this _ d (Keeps-handle_network_update this d network)
handle-Uniform runtime given asked (Input.message uuid id msg) this a d =
    Uniform-Keeps this _ d (Keeps-handle_message this d runtime given.now uuid id msg)
handle-Uniform runtime given asked (Input.channel_join uuid chan) this a d =
    Uniform-Keeps this _ d (Keeps-handle_channel_join this d _ uuid chan)
handle-Uniform runtime given asked (Input.channel_part id) this a d =
    Uniform-Keeps this _ d (Keeps-broadcast this d this (Packet.chan_part id) refl)
handle-Uniform runtime given asked (Input.nicklist_update id users) this a d =
    Uniform-Keeps this _ d (Keeps-broadcast this d this (Packet.chan_names id users) refl)
handle-Uniform runtime given asked (Input.topic_update id topic) this a d =
    Uniform-Keeps this _ d (Keeps-broadcast this d this (Packet.chan_topic id topic) refl)
handle-Uniform runtime given asked (Input.nick_change uuid nick) this a d =
    Uniform-Keeps this _ d (Keeps-broadcast this d this (Packet.own_nick uuid nick) refl)
handle-Uniform runtime given asked (Input.init uuids networks) this a d =
    Uniform-Keeps this _ d (Keeps-handle_init this d runtime given.storage uuids networks)
handle-Uniform runtime given asked (Input.mark_read_from_irssi uuid name) this a d =
    Uniform-Keeps this _ d (Keeps-mark_as_read this d runtime given.now uuid name true)
handle-Uniform runtime given asked Input.lost_irssi this a d =
    Uniform-Keeps this _ d (Keeps-disconnected this d)
handle-Uniform runtime given asked (Input.attach socket id token) this a d = cc
handle-Uniform runtime given asked (Input.detach socket) this a d = record {
  distinct = delete-IsDistinct socket this.attached_browsers d;
  told = Told-nil _;
}
handle-Uniform runtime given asked (Input.opened socket id) this a d =
    Uniform-open_channel this runtime given.now socket id d
handle-Uniform runtime given asked (Input.input_text target text) this a d =
    Uniform-Keeps this _ d (Keeps-handle_input this runtime target text d)
handle-Uniform runtime given asked (Input.names_request target) this a d =
    Uniform-Keeps this _ d (Keeps-handle_names_request this target)
handle-Uniform runtime given asked (Input.part_channel uuid id) this a d =
    Uniform-Keeps this _ d (Keeps-handle_part_channel this uuid id d)
handle-Uniform runtime given asked (Input.more_messages target time) this a d = record {
  distinct =
      IsDistinct-same this (more given.storage target time this).0
        (Uniform-more this given.storage target time) d;
  told = Told-nil _;
}
handle-Uniform runtime given asked (Input.quit_client should_save) this a d =
    quit-Uniform this should_save
handle-Uniform runtime given asked (Input.networks_changed networks) this a d =
    Uniform-Keeps this _ d (keep refl (Told-nil _))

handle-IsDistinct :
    (runtime : Runtime) (given : Given) (asked : List PendingCount) (input : Input)
    (this : IrssiClient)
    → IsDistinct this.attached_browsers
    → IsDistinct (handle runtime given asked input this).0.attached_browsers
unfolding handle
handle-IsDistinct runtime given asked (Input.attach socket id token) this d =
    attach_browser-IsDistinct runtime given.storage socket id token this d
handle-IsDistinct runtime given asked input this d =
    (handle-Uniform runtime given asked input this refl d).distinct

run-IsDistinct :
    (runtime : Runtime) (inputs : List (Given × Input)) (system : System)
    → IsDistinct system.client.attached_browsers
    → IsDistinct (run runtime inputs system).0.client.attached_browsers
unfolding run step
run-IsDistinct runtime [] system d = d
run-IsDistinct runtime ((given, input) ∷ rest) system d =
    run-IsDistinct runtime rest (step runtime given input system).0
      (handle-IsDistinct runtime given system.asked input system.client d)

-- Whatever a new client was given, the next input, unless it attaches a browser, gives every
-- attached browser the same events in the same order, and no other browser any.
pub step-Told :
    (runtime : Runtime) (inputs : List (Given × Input)) (connection : Option Bool)
    (has_storage : Bool) (id : Option ℕ) (given : Given) (input : Input)
    → attaches input ≡ false
    → let system = (run runtime inputs (new_system connection has_storage id)).0 in
      Told system.client.attached_browsers (step runtime given input system).1
unfolding step
step-Told runtime inputs connection has_storage id given input a =
    (handle-Uniform runtime given (reached runtime).asked input (reached runtime).client a
      (run-IsDistinct runtime inputs (new_system connection has_storage id) tt)).told
  where
    reached : Runtime → System
    reached runtime = (run runtime inputs (new_system connection has_storage id)).0
