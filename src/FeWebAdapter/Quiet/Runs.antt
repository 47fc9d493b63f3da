-- ===== src/FeWebAdapter/Quiet/Runs.antt =====
-- Runs of the adapter: the ids of its messages, its UUIDs, and how often it announces the networks.
use thelounge.Common.{
  ℕ, ◌+◌, ◌≤◌, ◌≡◌, ◌≢◌, refl, String, some, List, [], ◌∷◌, ◌++◌, arith, if◌then◌else◌,
}
use thelounge.Common.Dict.{get}
use thelounge.FeWebAdapter.Network.{Runtime}
use thelounge.FeWebAdapter.State.{
  FeWebAdapter, Event, on_network_update, on_message, on_channel_join, on_channel_part,
  on_nicklist_update, on_topic_update, on_nick_change, on_init, on_mark_read, schedule_init,
  get_next_channel_id, reset_state_dump_tracking,
}
use thelounge.FeWebAdapter.Lifecycle.{emit_init}
use thelounge.FeWebAdapter.Dispatch.{
  receive, Input, message_received, init_timer, disconnected, channel_id_taken, step, run,
}
use thelounge.FeWebAdapter.Quiet.{IsNumbered, IsNumbered-append, inits}
use thelounge.FeWebAdapter.Quiet.Messages.{receive-lem, get_or_create_network-keeps}

-- What one input does to the ids, the UUIDs and the init event.
step-IsNumbered :
    (runtime : Runtime) (input : Input) (this : FeWebAdapter)
    → IsNumbered this.message_id_counter
        (step runtime input this).1
        (step runtime input this).0.message_id_counter
unfolding step receive emit_init reset_state_dump_tracking get_next_channel_id
step-IsNumbered runtime (message_received moment type msg) this =
    (receive-lem runtime moment type msg this).0
step-IsNumbered runtime init_timer this = ground arith
step-IsNumbered runtime disconnected this = refl
step-IsNumbered runtime channel_id_taken this = refl

-- The messages of a run are numbered one after the other from the counter of the adapter on, so no
-- two have one id, and the counter then stands after the last.
pub run-IsNumbered :
    (runtime : Runtime) (inputs : List Input) (this : FeWebAdapter)
    → IsNumbered this.message_id_counter
        (run runtime inputs this).1
        (run runtime inputs this).0.message_id_counter
unfolding run
run-IsNumbered runtime [] this = refl
run-IsNumbered runtime (input ∷ inputs) this =
    let (next, events) = step runtime input this in
    IsNumbered-append _ next.message_id_counter _ events _ (step-IsNumbered runtime input this)
      (run-IsNumbered runtime inputs next)

inits-append : (es fs : List Event) → inits (es ++ fs) ≡ inits es + inits fs
inits-append [] fs = omega arith
inits-append (on_init _ ∷ es) fs = omega (arith, inits-append es fs)
inits-append (on_network_update _ ∷ es) fs = inits-append es fs
inits-append (on_message _ _ _ ∷ es) fs = inits-append es fs
inits-append (on_channel_join _ _ ∷ es) fs = inits-append es fs
inits-append (on_channel_part _ _ ∷ es) fs = inits-append es fs
inits-append (on_nicklist_update _ _ _ ∷ es) fs = inits-append es fs
inits-append (on_topic_update _ _ _ ∷ es) fs = inits-append es fs
inits-append (on_nick_change _ _ ∷ es) fs = inits-append es fs
inits-append (on_mark_read _ _ ∷ es) fs = inits-append es fs
inits-append (schedule_init ∷ es) fs = inits-append es fs

abbrev pub disconnects : List Input → ℕ
disconnects [] = 0
disconnects (disconnected ∷ inputs) = disconnects inputs + 1
disconnects (_ ∷ inputs) = disconnects inputs

abbrev announced : FeWebAdapter → ℕ
announced this = if this.init_emitted then 1 else 0

step-inits-le :
    (runtime : Runtime) (input : Input) (this : FeWebAdapter)
    → inits (step runtime input this).1 + announced this
      ≤ announced (step runtime input this).0 + disconnects (input ∷ [])
unfolding step receive emit_init reset_state_dump_tracking get_next_channel_id
step-inits-le runtime (message_received moment type msg) this =
    let (numbered, mark, none_init, uuids) = receive-lem runtime moment type msg this in
    ground (arith, mark, none_init)
step-inits-le runtime init_timer this = ground arith
step-inits-le runtime disconnected this = ground arith
step-inits-le runtime channel_id_taken this = ground arith

disconnects-cons :
    (input : Input) (inputs : List Input)
    → disconnects (input ∷ inputs) ≡ disconnects (input ∷ []) + disconnects inputs
disconnects-cons (message_received _ _ _) inputs = omega arith
disconnects-cons init_timer inputs = omega arith
disconnects-cons disconnected inputs = omega arith
disconnects-cons channel_id_taken inputs = omega arith

-- In a run the networks are announced at most once more than there are disconnects, and at most as
-- often as there are disconnects if they had been announced before.
pub run-inits-le :
    (runtime : Runtime) (inputs : List Input) (this : FeWebAdapter)
    → inits (run runtime inputs this).1 + (if this.init_emitted then 1 else 0)
      ≤ disconnects inputs + 1
unfolding run
run-inits-le runtime [] this = ground arith
run-inits-le runtime (input ∷ inputs) this =
    let (next, events) = step runtime input this in
    omega (
      arith,
      inits-append events (run runtime inputs next).1,
      step-inits-le runtime input this,
      run-inits-le runtime inputs next,
      disconnects-cons input inputs,
    )

step-uuid :
    (runtime : Runtime) (input : Input) (this : FeWebAdapter) (tag uuid : String)
    → uuid ≢ ""
    → get tag this.network_uuids ≡ some uuid
    → get tag (step runtime input this).0.network_uuids ≡ some uuid
unfolding step receive emit_init reset_state_dump_tracking get_next_channel_id
step-uuid runtime (message_received moment type msg) this tag uuid given known =
    let (numbered, mark, none_init, uuids) = receive-lem runtime moment type msg this in
    ground (arith, uuids, get_or_create_network-keeps moment msg.server tag uuid this given known)
step-uuid runtime init_timer this tag uuid given known = ground arith
step-uuid runtime disconnected this tag uuid given known = known
step-uuid runtime channel_id_taken this tag uuid given known = known

-- A server tag that has a UUID, not the empty text, keeps it whatever the adapter is given.
pub run-uuid :
    (runtime : Runtime) (inputs : List Input) (this : FeWebAdapter) (tag uuid : String)
    → uuid ≢ ""
    → get tag this.network_uuids ≡ some uuid
    → get tag (run runtime inputs this).0.network_uuids ≡ some uuid
unfolding run
run-uuid runtime [] this tag uuid given known = known
run-uuid runtime (input ∷ inputs) this tag uuid given known =
    run-uuid runtime inputs (step runtime input this).0 tag uuid given
      (step-uuid runtime input this tag uuid given known)
