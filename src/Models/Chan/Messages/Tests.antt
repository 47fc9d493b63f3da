-- ===== src/Models/Chan/Messages/Tests.antt =====
-- Runs of the methods of server/models/chan.ts on small channels.
use thelounge.Common.{ℕ, ◌≤◌, ◌≡◌, refl, true, false, some, [], ◌∷◌, length, All, arith, List}
use thelounge.Models.Msg.{Msg, MessageType, new_msg, is_loggable}
use thelounge.Models.Chan.{Chan, ChanType, ChanState, new_chan, chan_is_loggable}
use thelounge.Models.Chan.Messages.{
  Context, push_message, last_messages, filtered_messages, this_one, find_message, write_user_log,
}
use thelounge.Models.Chan.Messages.Laws.{push_message-history, logged}
use thelounge.Models.Chan.Messages.Counters.{Push, push_all, push_all-counters}
use thelounge.Models.Chan.Messages.Logs.{push_message-logged, filtered_messages_lem, IsNew}

abbrev context : Context
context = record {
  public_mode = false;
  max_history = some 2;
  keeps_previews = true;
  open_channels = 9 ∷ [];
  storages = 0 ∷ 1 ∷ [];
  has_network = true;
}

abbrev hello : Msg
hello = record (new_msg MessageType.notice 60) {
  from = "alice";
  text = "hello";
  highlight = true;
  show_in_active = true;
}

abbrev old : ℕ → Msg
old id = record (new_msg MessageType.message 50) { id = id; thumbs = "thumb" ∷ [] }

abbrev channel : Chan
channel = record (new_chan 3 "#lounge" ChanType.channel ChanState.joined) {
  messages = old 5 ∷ old 6 ∷ [];
  unread = 1;
}

trimmed : length (push_message context 7 hello false channel).0.messages ≡ 2
unfolding push_message write_user_log is_loggable chan_is_loggable
trimmed = refl

counted : (push_message context 7 hello false channel).0.unread ≡ 2
unfolding push_message write_user_log is_loggable chan_is_loggable
counted = refl

found : find_message 6 channel ≡ some (old 6)
unfolding find_message
found = refl

-- A message while the channel is closed, one of the user's own, two more, and one while it is open.
abbrev pushes : List Push
pushes =
    record { ctx = context; msg = hello; increases_unread = true }
    ∷ record { ctx = context; msg = record hello { self = true }; increases_unread = false }
    ∷ record { ctx = context; msg = hello; increases_unread = false }
    ∷ record { ctx = context; msg = record hello { highlight = false }; increases_unread = true }
    ∷ record {
      ctx = record context { open_channels = 3 ∷ [] };
      msg = hello;
      increases_unread = true;
    }
    ∷ []

push_all-counters_example :
    ((push_all 7 pushes channel).unread ≡ 2)
    × ((push_all 7 pushes channel).highlight ≡ 1)
    × ((push_all 7 pushes channel).first_unread ≡ 8)
push_all-counters_example = push_all-counters 7 pushes channel (omega arith)

push_message-history_example :
    ((push_message context 7 hello false channel).0.messages
      ≡ old 6 ∷ record hello { id = 7; show_in_active = false } ∷ [])
    × (length (push_message context 7 hello false channel).0.messages ≤ 2)
unfolding last_messages
push_message-history_example = push_message-history context 7 hello false channel

push_message-logged_example :
    logged (push_message context 7 hello false channel).2
    ≡ (0, "#lounge", record hello { id = 7; show_in_active = false })
      ∷ (1, "#lounge", record hello { id = 7; show_in_active = false })
      ∷ []
unfolding is_loggable chan_is_loggable
push_message-logged_example = push_message-logged context 7 hello false channel

filtered_messages_lem_example :
    (length (filtered_messages this_one 5 channel) ≤ 100)
    × All (IsNew 5) (filtered_messages this_one 5 channel)
filtered_messages_lem_example = filtered_messages_lem this_one 5 channel
