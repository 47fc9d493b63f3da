-- ===== src/FeWebAdapter/Quiet.antt =====
-- What every handler of server/feWebClient/feWebAdapter.ts leaves alone, and how it numbers messages.
pub mod Handlers
pub mod Messages
pub mod Runs
use thelounge.Common.{
  ℕ, suc, ◌+◌, ◌≡◌, refl, String, Bool, true, false, Option, none, some, List, [], ◌∷◌, ◌++◌, arith,
  inl, inr, Bool-cases, if◌then◌else◌,
}
use thelounge.Models.Chan.{Chan}
use thelounge.Models.Msg.{Msg}
use thelounge.FeWebAdapter.Network.{Runtime, NetworkData}
use thelounge.FeWebAdapter.State.{
  FeWebAdapter, FeWebMessage, Moment, Event, on_network_update, on_message, on_channel_join,
  on_channel_part, on_nicklist_update, on_topic_update, on_nick_change, on_init, on_mark_read,
  schedule_init, send_message, put_network, get_next_channel_id,
}
use thelounge.FeWebAdapter.Talk.{
  handle_message, handle_server_status, handle_channel_join, handle_channel_part,
  handle_channel_kick,
}
use thelounge.FeWebAdapter.Notices.{
  quit_channels, handle_user_quit, handle_topic, handle_channel_mode, handle_user_mode, handle_away,
  handle_whois, handle_channel_list,
}

-- The messages among the events have the ids from `from` on, one after the other, and `to` is next.
abbrev pub IsNumbered : ℕ → List Event → ℕ → Type 0
IsNumbered from [] to = from ≡ to
IsNumbered from (on_message _ _ msg ∷ es) to = (msg.id ≡ from) × IsNumbered (from + 1) es to
IsNumbered from (on_network_update _ ∷ es) to = IsNumbered from es to
IsNumbered from (on_channel_join _ _ ∷ es) to = IsNumbered from es to
IsNumbered from (on_channel_part _ _ ∷ es) to = IsNumbered from es to
IsNumbered from (on_nicklist_update _ _ _ ∷ es) to = IsNumbered from es to
IsNumbered from (on_topic_update _ _ _ ∷ es) to = IsNumbered from es to
IsNumbered from (on_nick_change _ _ ∷ es) to = IsNumbered from es to
IsNumbered from (on_init _ ∷ es) to = IsNumbered from es to
IsNumbered from (on_mark_read _ _ ∷ es) to = IsNumbered from es to
IsNumbered from (schedule_init ∷ es) to = IsNumbered from es to

-- The number of init events.
abbrev pub inits : List Event → ℕ
inits [] = 0
inits (on_init _ ∷ es) = suc (inits es)
inits (_ ∷ es) = inits es

pub IsNumbered-append :
    (a b c : ℕ) (es fs : List Event)
    → IsNumbered a es b
    → IsNumbered b fs c
    → IsNumbered a (es ++ fs) c
IsNumbered-append a b c [] fs h k = rw h k
IsNumbered-append a b c (on_message _ _ _ ∷ es) fs (p, h) k =
    (p, IsNumbered-append (a + 1) b c es fs h k)
IsNumbered-append a b c (on_network_update _ ∷ es) fs h k = IsNumbered-append a b c es fs h k
IsNumbered-append a b c (on_channel_join _ _ ∷ es) fs h k = IsNumbered-append a b c es fs h k
IsNumbered-append a b c (on_channel_part _ _ ∷ es) fs h k = IsNumbered-append a b c es fs h k
IsNumbered-append a b c (on_nicklist_update _ _ _ ∷ es) fs h k = IsNumbered-append a b c es fs h k
IsNumbered-append a b c (on_topic_update _ _ _ ∷ es) fs h k = IsNumbered-append a b c es fs h k
IsNumbered-append a b c (on_nick_change _ _ ∷ es) fs h k = IsNumbered-append a b c es fs h k
IsNumbered-append a b c (on_init _ ∷ es) fs h k = IsNumbered-append a b c es fs h k
IsNumbered-append a b c (on_mark_read _ _ ∷ es) fs h k = IsNumbered-append a b c es fs h k
IsNumbered-append a b c (schedule_init ∷ es) fs h k = IsNumbered-append a b c es fs h k

-- The handler numbers its messages, keeps the UUIDs and the mark of the init event, and emits no init.
abbrev pub IsQuiet : FeWebAdapter → FeWebAdapter × List Event → Type 0
IsQuiet this (next, events) =
    IsNumbered this.message_id_counter events next.message_id_counter
    × (next.network_uuids ≡ this.network_uuids)
    × (next.init_emitted ≡ this.init_emitted)
    × (inits events ≡ 0)
