-- ===== src/IrssiClient/History.antt =====
-- server/irssiClient.ts: `more`, the messages before those that a browser has.
use thelounge.Common.{ℕ, ◌+◌, String, Option, none, some, List, [], length, if◌then◌else◌}
use thelounge.Models.Chan.{Chan}
use thelounge.Models.Msg.{Msg}
use thelounge.FeWebAdapter.Network.{NetworkData}
use thelounge.IrssiClient.State.{IrssiClient, find_target}
use thelounge.IrssiClient.Loading.{MessageStorage, number_messages}

-- The answer to `more`: the channel, the messages and their number in the storage.
pub record History : Type 0 where
  pub chan : ℕ
  pub messages : List Msg
  pub total_messages : ℕ

unfoldable pub requested : MessageStorage → String → String → Option ℕ → Option (List Msg)
requested storage uuid name none = storage.get_last_messages uuid name 100
requested storage uuid name (some time) = storage.get_messages_before uuid name time 100

no_history : ℕ → History
no_history target = record { chan = target; messages = []; total_messages = 0 }

unfoldable pub numbered_history : ℕ → List Msg → Option ℕ → IrssiClient → IrssiClient × History
unfolding no_history
numbered_history target messages none this =
    (record this { id_msg = this.id_msg + length messages }, no_history target)
numbered_history target messages (some total) this = (
  record this { id_msg = this.id_msg + length messages },
  record { chan = target; messages = number_messages this.id_msg messages; total_messages = total },
)

unfoldable pub read_history : ℕ → Option (List Msg) → Option ℕ → IrssiClient → IrssiClient × History
unfolding numbered_history no_history
read_history target none total this = (this, no_history target)
read_history target (some messages) total this = numbered_history target messages total this

unfoldable pub more_in :
    MessageStorage
    → ℕ
    → Option ℕ
    → Option (NetworkData × Chan)
    → IrssiClient
    → IrssiClient × Option History
unfolding read_history no_history requested
more_in storage target time none this = (this, none)
more_in storage target time (some (network, channel)) this =
    let (read, history) =
      read_history target (requested storage network.uuid channel.name time)
        (storage.get_message_count network.uuid channel.name) this in
    if this.has_storage then (read, some history) else (this, some (no_history target))

-- `last_time` is none where it is below 0.
unfoldable pub more : MessageStorage → ℕ → Option ℕ → IrssiClient → IrssiClient × Option History
unfolding more_in
more storage target last_time this =
    more_in storage target last_time (find_target target this.networks) this
