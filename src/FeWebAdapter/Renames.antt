-- ===== src/FeWebAdapter/Renames.antt =====
-- Nick changes in a network: handleNickChange of server/feWebClient/feWebAdapter.ts.
use thelounge.Common.{
  ℕ, ◌+◌, ◌≡◌, refl, ◌∙◌, ap, String, ◌||◌, some, List, [], ◌∷◌, ◌++◌, map, str_eq, if◌then◌else◌,
  inl, inr, Bool-cases,
}
use thelounge.Common.Dict.{get, has, get-set_same}
use thelounge.Models.Chan.{Chan}
use thelounge.Models.Msg.{Msg, MessageType}
use thelounge.FeWebAdapter.Network.{Runtime, NetworkData}
use thelounge.FeWebAdapter.Users.{rename_in_channel}
use thelounge.FeWebAdapter.State.{FeWebAdapter, FeWebMessage, Moment, Event, put_network}
use thelounge.FeWebAdapter.Talk.{msg_from}
use thelounge.FeWebAdapter.NickChange.{
  is_self, with_own_nick, own_nick_event, nick_channels, handle_nick_change,
}
use thelounge.FeWebAdapter.Tells.{told, ids_with}

module _ (runtime : Runtime) (uuid old_nick new_nick : String) (nick_msg : Msg) where
  nick_channels-told :
      (id : ℕ) (cs : List Chan)
      → told (nick_channels runtime uuid old_nick new_nick nick_msg id cs).2
        ≡ ids_with runtime old_nick cs
  unfolding nick_channels
  nick_channels-told id [] = refl
  nick_channels-told id (c ∷ cs) = elim (Bool-cases (has (runtime.lower old_nick) c.users)) [
    | inl there ↦ rw there (ap (◌∷◌ c.id) (nick_channels-told (id + 1) cs))
    | inr absent ↦ rw absent (nick_channels-told id cs)
  ]

  nick_channels-map :
      (id : ℕ) (cs : List Chan)
      → (nick_channels runtime uuid old_nick new_nick nick_msg id cs).0
        ≡ map (rename_in_channel runtime old_nick new_nick) cs
  unfolding nick_channels
  nick_channels-map id [] = refl
  nick_channels-map id (c ∷ cs) =
      ap (◌∷◌ (rename_in_channel runtime old_nick new_nick c))
        (nick_channels-map (if has (runtime.lower old_nick) c.users then id + 1 else id) cs)

told-own_nick_event :
    (old_nick new_nick : String) (network : NetworkData) (es : List Event)
    → told (own_nick_event old_nick new_nick network ++ es) ≡ told es
unfolding own_nick_event
told-own_nick_event old_nick new_nick network es =
    elim (Bool-cases (is_self old_nick new_nick network)) [
      | inl own ↦ rw own refl
      | inr other ↦ rw other refl
    ]

with_own_nick_lem :
    (old_nick new_nick : String) (network : NetworkData)
    → with_own_nick old_nick new_nick network ≡ record network {
      nick =
          if str_eq network.nick old_nick || str_eq network.nick new_nick
          then new_nick
          else network.nick;
    }
unfolding with_own_nick is_self
with_own_nick_lem old_nick new_nick network =
    elim (Bool-cases (str_eq network.nick old_nick || str_eq network.nick new_nick)) [
      | inl own ↦ simp own refl
      | inr other ↦ simp other refl
    ]

-- A nick change is told to the channels that had the user, in their order, and to no other, and it
-- renames the user in every channel; the user's own nick changes if it was the old or the new one.
pub handle_nick_change_lem :
    (runtime : Runtime) (moment : Moment) (msg : FeWebMessage) (this : FeWebAdapter)
    (network : NetworkData)
    → (told (handle_nick_change runtime moment msg this network).1
        ≡ ids_with runtime msg.nick network.channels)
      × (get network.server_tag
            (handle_nick_change runtime moment msg this network).0.server_tag_to_network
          ≡ some (record network {
            nick =
                if str_eq network.nick msg.nick || str_eq network.nick msg.text
                then msg.text
                else network.nick;
            channels = map (rename_in_channel runtime msg.nick msg.text) network.channels;
          }))
unfolding handle_nick_change put_network
handle_nick_change_lem runtime moment msg this network =
    let nick_msg : Msg = record (msg_from MessageType.nick moment.now msg.nick) {
      new_nick = msg.text;
      self = is_self msg.nick msg.text network;
    } in
    let id = this.message_id_counter in
    (
      told-own_nick_event msg.nick msg.text network _
          ∙ nick_channels-told runtime network.uuid msg.nick msg.text nick_msg id network.channels,
      rw
          (
            with_own_nick_lem msg.nick msg.text network,
            nick_channels-map runtime network.uuid msg.nick msg.text nick_msg id network.channels,
          )
          (get-set_same network.server_tag _ this.server_tag_to_network),
    )
