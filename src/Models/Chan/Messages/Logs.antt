-- ===== src/Models/Chan/Messages/Logs.antt =====
-- What a new message puts into the logs, and what a browser gets of a history.
use mathlib.Core.List.{append-nil}
use thelounge.Common.{
  zero, suc, ◌⊎◌, ◌<◌, ◌||◌, ℕ, ◌≤◌, ◌≡◌, refl, Bool, false, not, inl, inr, List, [], ◌∷◌, ◌++◌,
  All, filter, length, Bool-cases, if◌then◌else◌, ◌&&◌, ◌∙◌, arith, any, ltb, ap, ◌==◌, drop,
}
use thelounge.Models.Msg.{Msg, is_loggable}
use thelounge.Models.Chan.{Chan, chan_is_loggable}
use thelounge.Models.Chan.Messages.{
  Context, write_user_log, trim_history, count_message, store_message, push_message, Active,
  filtered_messages, last_messages, is_active,
}
use thelounge.Models.Chan.Messages.Laws.{
  logged, logged-append, logged-trim_history, logged-write_user_log, is_logged, to_all,
  count_message-same, length-last_messages-le,
}

store_message-logged :
    (ctx : Context) (msg : Msg) (this : Chan)
    → logged (store_message ctx msg this).1 ≡ (
        if ctx.public_mode
        then []
        else if is_logged ctx (record msg { show_in_active = false }) this
        then to_all ctx.storages this.name (record msg { show_in_active = false })
        else [])
unfolding store_message
store_message-logged ctx msg this =
    let stored : Msg = record msg { show_in_active = false } in
    let written = write_user_log ctx stored this in
    let logs =
      logged-append written.1 (trim_history ctx ctx.max_history written.0).1
      ∙ ap (◌++◌ (logged written.1)) (logged-trim_history ctx ctx.max_history written.0)
      ∙ append-nil (logged written.1)
      ∙ (logged-write_user_log ctx stored this refl).0 in
    elim (Bool-cases ctx.public_mode) [ inl shown ↦ simp shown | inr kept ↦ simp kept logs ]

guarded {ℓ} :
    {A : Type ℓ} (hidden allowed : Bool) (xs : List A)
    → (if hidden then [] else if allowed then xs else [])
      ≡ (if not hidden && allowed then xs else [])
guarded hidden allowed xs = elim (Bool-cases hidden) [
  | inl shown ↦ simp shown
  | inr kept ↦ simp kept refl
]

-- Outside public mode a message goes to every log in turn, under the name of the channel, if the
-- network is there and both the message and the channel are loggable, and to none otherwise; in
-- public mode no log gets it. The mark for the active channel plays no part: a notice that is shown
-- in the active channel is logged as any other message.
pub push_message-logged :
    (ctx : Context) (id_msg : ℕ) (msg : Msg) (increases_unread : Bool) (this : Chan)
    → logged (push_message ctx id_msg msg increases_unread this).2 ≡ (
        if not ctx.public_mode && (ctx.has_network && is_loggable msg && chan_is_loggable this)
        then to_all ctx.storages this.name (record msg { id = id_msg; show_in_active = false })
        else [])
unfolding push_message chan_is_loggable is_loggable
push_message-logged ctx id_msg msg increases_unread this =
    let is_open = any (◌==◌ this.id) ctx.open_channels in
    let numbered : Msg = record msg { id = id_msg } in
    let counted = count_message is_open numbered increases_unread this in
    let (messages, name, type) = count_message-same is_open numbered increases_unread this in
    let loggable : chan_is_loggable counted ≡ chan_is_loggable this = simp type in
    store_message-logged ctx numbered counted
    ∙ rw (name, loggable)
        (guarded ctx.public_mode (is_logged ctx msg this)
          (to_all ctx.storages this.name (record msg { id = id_msg; show_in_active = false })))

-- What a message is to a browser that saw `last_message` last, where 0 says that it saw none.
abbrev pub IsNew : ℕ → Msg → Type 0
IsNew last_message m = (last_message ≡ 0) ⊎ (last_message < m.id)

All-filter : (last : ℕ) (ms : List Msg) → All (IsNew last) (filter (λ m. ltb last m.id) ms)
All-filter last [] = tt
All-filter last (m ∷ ms) = elim (Bool-cases (ltb last m.id)) [
  | inl newer ↦ rw newer (inr (ground arith), All-filter last ms)
  | inr older ↦ rw older (All-filter last ms)
]

All-always {ℓ κ} : {A : Type ℓ} (P : A → Type κ) (always : (x : A) → P x) (xs : List A) → All P xs
All-always P always [] = tt
All-always P always (x ∷ xs) = (always x, All-always P always xs)

All-drop {ℓ κ} : {A : Type ℓ} (P : A → Type κ) (n : ℕ) (xs : List A) → All P xs → All P (drop n xs)
All-drop P zero xs h = h
All-drop P (suc n) [] h = h
All-drop P (suc n) (x ∷ xs) (p, h) = All-drop P n xs h

-- A browser gets at most 100 messages of a channel, and at most one where it neither says which
-- message it saw last nor has the channel open. If it says one, all that it gets are later.
pub filtered_messages_lem :
    (active : Active) (last_message : ℕ) (this : Chan)
    → (length (filtered_messages active last_message this)
        ≤ (if ltb 0 last_message || is_active active this.id then 100 else 1))
      × All (IsNew last_message) (filtered_messages active last_message this)
unfolding filtered_messages last_messages
filtered_messages_lem active last_message this = elim (Bool-cases (ltb 0 last_message)) [
  | inl seen ↦
      let newer = filter (λ m. ltb last_message m.id) this.messages in
      rw seen (
        length-last_messages-le 100 newer,
        All-drop (IsNew last_message) _ newer (All-filter last_message this.messages),
      )
  | inr unseen ↦
      let none_seen : last_message ≡ 0 = ground arith in
      rw unseen (
        length-last_messages-le (if is_active active this.id then 100 else 1) this.messages,
        All-always (IsNew last_message) (λ m. inl none_seen) _,
      )
]
