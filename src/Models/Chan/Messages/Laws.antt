-- ===== src/Models/Chan/Messages/Laws.antt =====
-- What a new message does to a channel.
use thelounge.Common.{
  ℕ, ◌+◌, ◌-◌, ◌≤◌, ◌≡◌, inl, inr, refl, Bool, true, false, Option, none, some, List, [], ◌∷◌, ◌++◌,
  length, take, arith, any, ltb, ◌==◌, length-append, length-drop, Bool-cases, if◌then◌else◌, ◌||◌,
  ◌&&◌, ap, ◌∙◌, String, str_eq, or_default,
}
use thelounge.Models.Msg.{Msg, is_loggable}
use thelounge.Models.Chan.{Chan, chan_is_loggable}
use thelounge.Models.Chan.Messages.{
  Context, Effect, emit_msg, index, write_user_log, trim_history, count_message, store_message,
  push_message, dereference, dereference_thumbs, dereference_messages, dereference_previews,
  index_all, last_messages, index_in_network, has_no_storage,
}

-- The counters of a channel, as they are in another.
abbrev HasCounters : Chan → Chan → Type 0
HasCounters after before =
    (after.unread ≡ before.unread)
    × (after.highlight ≡ before.highlight)
    × (after.first_unread ≡ before.first_unread)

write_user_log-HasCounters :
    (ctx : Context) (msg : Msg) (this : Chan) → HasCounters (write_user_log ctx msg this).0 this
unfolding write_user_log
write_user_log-HasCounters ctx msg this = ground arith

trim_history-HasCounters :
    (ctx : Context) (limit : Option ℕ) (this : Chan)
    → HasCounters (trim_history ctx limit this).0 this
unfolding trim_history
trim_history-HasCounters ctx none this = (refl, refl, refl)
trim_history-HasCounters ctx (some most) this =
    elim (Bool-cases (ltb most (length this.messages))) [
      | inl over ↦ rw over (refl, refl, refl)
      | inr fits ↦ rw fits (refl, refl, refl)
    ]

-- Writing a message to the logs and trimming the history leave the counters alone.
store_message-counters :
    (ctx : Context) (msg : Msg) (this : Chan) → HasCounters (store_message ctx msg this).0 this
unfolding store_message
store_message-counters ctx msg this =
    let stored : Msg = record msg { show_in_active = false } in
    let logged = (write_user_log ctx stored this).0 in
    let (u, h, f) = write_user_log-HasCounters ctx stored this in
    let (u', h', f') = trim_history-HasCounters ctx ctx.max_history logged in
    elim (Bool-cases ctx.public_mode) [
      | inl shown ↦ simp shown (refl, refl, refl)
      | inr kept ↦ simp kept (u' ∙ u, h' ∙ h, f' ∙ f)
    ]

module _ (ctx : Context) (id_msg : ℕ) (msg : Msg) (increases_unread : Bool) (this : Chan) where
  abbrev after : Chan
  after = (push_message ctx id_msg msg increases_unread this).0

  abbrev is_open : Bool
  is_open = any (◌==◌ this.id) ctx.open_channels

  -- What the counters of the channel are after a message: 0 after one of the user's own, which also
  -- becomes the first unread one; as before if a browser has the channel open; else one more unread
  -- if the message counts or is a highlight, one more highlight if it is one, and the first unread
  -- message set if none was.
  pub push_message-counters :
      (after.unread ≡ (
        if msg.self
        then 0
        else if is_open
        then this.unread
        else if increases_unread || msg.highlight
        then this.unread + 1
        else this.unread))
      × (after.highlight ≡ (
          if msg.self
          then 0
          else if is_open
          then this.highlight
          else if msg.highlight
          then this.highlight + 1
          else this.highlight))
      × (after.first_unread ≡ (
          if msg.self
          then id_msg
          else if is_open
          then this.first_unread
          else if this.first_unread == 0
          then id_msg
          else this.first_unread))
  unfolding push_message count_message
  push_message-counters =
      let counted = count_message is_open (record msg { id = id_msg }) increases_unread this in
      ground (arith, store_message-counters ctx (record msg { id = id_msg }) counted)

  pub push_message-id : after.id ≡ this.id
  unfolding push_message count_message store_message write_user_log trim_history
  push_message-id = ground arith

  -- If there were at most as many highlights as unread messages, then so there are after a message.
  push_message-highlight-le : this.highlight ≤ this.unread → after.highlight ≤ after.unread
  push_message-highlight-le h = ground (arith, push_message-counters)

-- The part of a history that a limit leaves.
abbrev pub within : Option ℕ → List Msg → List Msg
within none messages = messages
within (some most) messages = last_messages most messages

trim_history-within :
    (ctx : Context) (limit : Option ℕ) (this : Chan)
    → (trim_history ctx limit this).0.messages ≡ within limit this.messages
unfolding trim_history last_messages
trim_history-within ctx none this = refl
trim_history-within ctx (some most) this = elim (Bool-cases (ltb most (length this.messages))) [
  | inl over ↦ rw over
  | inr fits ↦ let e : length this.messages - most ≡ 0 = ground arith in rw (fits, e)
]

write_user_log-messages :
    (ctx : Context) (msg : Msg) (this : Chan)
    → (write_user_log ctx msg this).0.messages ≡ this.messages ++ msg ∷ []
unfolding write_user_log
write_user_log-messages ctx msg this = ground arith

pub length-last_messages-le : (n : ℕ) (ms : List Msg) → length (last_messages n ms) ≤ n
unfolding last_messages
length-last_messages-le n ms = omega (arith, length-drop (length ms - n) ms)

store_message-history :
    (ctx : Context) (msg : Msg) (this : Chan)
    → (store_message ctx msg this).0.messages ≡ (
        if ctx.public_mode
        then this.messages
        else within ctx.max_history (this.messages ++ record msg { show_in_active = false } ∷ []))
unfolding store_message
store_message-history ctx msg this = elim (Bool-cases ctx.public_mode) [
  | inl shown ↦ simp shown
  | inr kept ↦ simp kept (
      trim_history-within ctx ctx.max_history (write_user_log ctx stored this).0
      ∙ ap (within ctx.max_history) (write_user_log-messages ctx stored this))
]
  where
    stored : Msg
    stored = record msg { show_in_active = false }

pub count_message-same :
    (is_open : Bool) (msg : Msg) (increases_unread : Bool) (this : Chan)
    → ((count_message is_open msg increases_unread this).messages ≡ this.messages)
      × ((count_message is_open msg increases_unread this).name ≡ this.name)
      × ((count_message is_open msg increases_unread this).type ≡ this.type)
unfolding count_message
count_message-same is_open msg increases_unread this = ground arith

length-kept :
    (hidden : Bool) (limit : Option ℕ) (ms : List Msg) (m : Msg)
    → length (if hidden then ms else within limit (ms ++ m ∷ []))
      ≤ (if hidden then length ms else or_default limit (length ms + 1))
length-kept true limit ms m = omega arith
length-kept false none ms m = omega (arith, length-append ms (m ∷ []))
length-kept false (some most) ms m = length-last_messages-le most (ms ++ m ∷ [])

-- A message is added at the end, with its number and without the mark for the active channel; then
-- only the newest messages stay, as many as the limit allows. In public mode nothing changes. So
-- with a limit, outside public mode, a channel holds no more messages than that after a push.
pub push_message-history :
    (ctx : Context) (id_msg : ℕ) (msg : Msg) (increases_unread : Bool) (this : Chan)
    → ((push_message ctx id_msg msg increases_unread this).0.messages ≡ (
        if ctx.public_mode
        then this.messages
        else within ctx.max_history
            (this.messages ++ record msg { id = id_msg; show_in_active = false } ∷ [])))
      × (length (push_message ctx id_msg msg increases_unread this).0.messages ≤ (
          if ctx.public_mode
          then length this.messages
          else or_default ctx.max_history (length this.messages + 1)))
unfolding push_message
push_message-history ctx id_msg msg increases_unread this =
    let is_open = any (◌==◌ this.id) ctx.open_channels in
    let numbered : Msg = record msg { id = id_msg } in
    let counted = count_message is_open numbered increases_unread this in
    let same =
      store_message-history ctx numbered counted
      ∙ ap
          (λ ms.
            if ctx.public_mode
            then ms
            else within ctx.max_history (ms ++ record numbered { show_in_active = false } ∷ []))
          (count_message-same is_open numbered increases_unread this).0 in
    (
      same,
      rw same (
          length-kept ctx.public_mode ctx.max_history this.messages
            (record numbered { show_in_active = false })),
    )

-- What the message storages are given, in order: the storage, the name of the channel, the message.
abbrev pub logged : List Effect → List (ℕ × String × Msg)
logged [] = []
logged (index storage name msg ∷ es) = (storage, name, msg) ∷ logged es
logged (emit_msg _ _ _ _ ∷ es) = logged es
logged (dereference _ ∷ es) = logged es

pub logged-append : (es fs : List Effect) → logged (es ++ fs) ≡ logged es ++ logged fs
logged-append [] fs = refl
logged-append (index storage name msg ∷ es) fs = ap (◌∷◌ (storage, name, msg)) (logged-append es fs)
logged-append (emit_msg _ _ _ _ ∷ es) fs = logged-append es fs
logged-append (dereference _ ∷ es) fs = logged-append es fs

logged-dereference_thumbs : (thumbs : List String) → logged (dereference_thumbs thumbs) ≡ []
unfolding dereference_thumbs
logged-dereference_thumbs [] = refl
logged-dereference_thumbs (thumb ∷ thumbs) = elim (Bool-cases (str_eq thumb "")) [
  | inl missing ↦ rw missing (logged-dereference_thumbs thumbs)
  | inr stored ↦ rw stored (logged-dereference_thumbs thumbs)
]

logged-dereference_messages : (ms : List Msg) → logged (dereference_messages ms) ≡ []
unfolding dereference_messages
logged-dereference_messages [] = refl
logged-dereference_messages (m ∷ ms) =
    logged-append (dereference_thumbs m.thumbs) (dereference_messages ms)
    ∙ cc (logged-dereference_thumbs m.thumbs, logged-dereference_messages ms)

logged-dereference_previews :
    (ctx : Context) (ms : List Msg) → logged (dereference_previews ctx ms) ≡ []
unfolding dereference_previews
logged-dereference_previews ctx ms = ground (arith, logged-dereference_messages ms)

pub logged-trim_history :
    (ctx : Context) (limit : Option ℕ) (this : Chan) → logged (trim_history ctx limit this).1 ≡ []
unfolding trim_history
logged-trim_history ctx none this = refl
logged-trim_history ctx (some most) this =
    ground
      (arith, logged-dereference_previews ctx (take (length this.messages - most) this.messages))

abbrev pub to_all : List ℕ → String → Msg → List (ℕ × String × Msg)
to_all [] name msg = []
to_all (storage ∷ rest) name msg = (storage, name, msg) ∷ to_all rest name msg

logged-index_all :
    (storages : List ℕ) (name : String) (msg : Msg)
    → logged (index_all storages name msg) ≡ to_all storages name msg
unfolding index_all
logged-index_all [] name msg = refl
logged-index_all (storage ∷ rest) name msg =
    ap (◌∷◌ (storage, name, msg)) (logged-index_all rest name msg)

abbrev pub is_logged : Context → Msg → Chan → Bool
is_logged ctx msg this = ctx.has_network && is_loggable msg && chan_is_loggable this

pub logged-write_user_log :
    (ctx : Context) (msg : Msg) (this : Chan)
    → msg.show_in_active ≡ false
    → (logged (write_user_log ctx msg this).1
        ≡ (if is_logged ctx msg this then to_all ctx.storages this.name msg else []))
      × ((write_user_log ctx msg this).0.name ≡ this.name)
unfolding write_user_log has_no_storage index_in_network
logged-write_user_log ctx msg this h = ground (arith, logged-index_all ctx.storages this.name msg)
