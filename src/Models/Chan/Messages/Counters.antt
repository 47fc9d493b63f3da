-- ===== src/Models/Chan/Messages/Counters.antt =====
-- server/models/chan.ts: the counters of a channel over any number of new messages.
use thelounge.Common.{
  ℕ, ◌+◌, ◌≤◌, ◌≡◌, refl, Bool, false, not, ◌&&◌, ◌||◌, Option, none, some, List, [], ◌∷◌, length,
  filter, any, arith, ◌==◌, if◌then◌else◌, or_default,
}
use thelounge.Models.Msg.{Msg}
use thelounge.Models.Chan.{Chan}
use thelounge.Models.Chan.Messages.{Context, push_message}
use thelounge.Models.Chan.Messages.Laws.{push_message-counters, push_message-id}

-- The arguments of a call of `pushMessage`, and the client as it is then.
pub record Push : Type 0 where
  pub ctx : Context
  pub msg : Msg
  pub increases_unread : Bool

-- Pushes one after the other, the numbers going up from the client's next one.
abbrev pub push_all : ℕ → List Push → Chan → Chan
push_all id_msg [] this = this
push_all id_msg (p ∷ ps) this =
    let (next, id_next, _) = push_message p.ctx id_msg p.msg p.increases_unread this in
    push_all id_next ps next

abbrev pub is_own : Push → Bool
is_own p = p.msg.self

-- No browser had the channel of this id open.
abbrev pub is_unseen : ℕ → Push → Bool
is_unseen id p = not (any (◌==◌ id) p.ctx.open_channels)

abbrev pub is_counted : ℕ → Push → Bool
is_counted id p = is_unseen id p && (p.increases_unread || p.msg.highlight)

abbrev pub is_highlight : ℕ → Push → Bool
is_highlight id p = is_unseen id p && p.msg.highlight

-- What came after the last message of the user's own, everything if there is none.
abbrev pub since_own : List Push → List Push
since_own [] = []
since_own (p ∷ ps) =
    let later = since_own ps in if any is_own ps then later else if is_own p then ps else p ∷ ps

-- The numbers of the last push and of the first one with a property, counted from a first number.
abbrev pub last_number : (Push → Bool) → ℕ → List Push → Option ℕ
last_number test n [] = none
last_number test n (p ∷ ps) = elim (last_number test (n + 1) ps) [
  | none ↦ if test p then some n else none
  | some later ↦ some later
]

abbrev pub first_number : (Push → Bool) → ℕ → List Push → Option ℕ
first_number test n [] = none
first_number test n (p ∷ ps) =
    let later = first_number test (n + 1) ps in if test p then some n else later

since_own_lem : (ps : List Push) → any is_own ps ≡ false → since_own ps ≡ ps
since_own_lem [] h = refl
since_own_lem (p ∷ ps) h =
    let (mine, later) : ((is_own p ≡ false) × (any is_own ps ≡ false)) =
      (ground (arith, h), ground (arith, h)) in
    rw (later, mine) refl

module _ (id : ℕ) where
  push_all-unread :
      (n : ℕ) (ps : List Push) (this : Chan)
      → this.id ≡ id
      → (push_all n ps this).unread
        ≡ (if any is_own ps then 0 else this.unread)
          + length (filter (is_counted id) (since_own ps))
  unfolding push_message
  push_all-unread n [] this h = omega arith
  push_all-unread n (p ∷ ps) this h = ground (
    arith,
    h,
    push_message-id p.ctx n p.msg p.increases_unread this,
    push_message-counters p.ctx n p.msg p.increases_unread this,
    since_own_lem ps,
    push_all-unread (n + 1) ps (push_message p.ctx n p.msg p.increases_unread this).0,
  )

  push_all-highlight :
      (n : ℕ) (ps : List Push) (this : Chan)
      → this.id ≡ id
      → (push_all n ps this).highlight
        ≡ (if any is_own ps then 0 else this.highlight)
          + length (filter (is_highlight id) (since_own ps))
  unfolding push_message
  push_all-highlight n [] this h = omega arith
  push_all-highlight n (p ∷ ps) this h = ground (
    arith,
    h,
    push_message-id p.ctx n p.msg p.increases_unread this,
    push_message-counters p.ctx n p.msg p.increases_unread this,
    since_own_lem ps,
    push_all-highlight (n + 1) ps (push_message p.ctx n p.msg p.increases_unread this).0,
  )

  push_all-first_unread :
      (n : ℕ) (ps : List Push) (this : Chan)
      → 1 ≤ n
      → this.id ≡ id
      → (push_all n ps this).first_unread
        ≡ or_default (last_number is_own n ps) (
            if this.first_unread == 0
            then or_default (first_number (is_unseen id) n ps) 0
            else this.first_unread)
  unfolding push_message
  push_all-first_unread n [] this k h = ground arith
  push_all-first_unread n (p ∷ ps) this k h = ground (
    arith,
    k,
    h,
    push_message-id p.ctx n p.msg p.increases_unread this,
    push_message-counters p.ctx n p.msg p.increases_unread this,
    push_all-first_unread (n + 1) ps (push_message p.ctx n p.msg p.increases_unread this).0,
  )

-- After any number of new messages the unread messages of a channel are those that count among what came
-- after the last message of the user's own, or, where no message was the user's own, as many more than
-- before; a message counts if no browser had the channel open and it increases the count or is a
-- highlight. The highlights are likewise those messages, or as many more than before, that are a
-- highlight and came while no browser had the channel open. The first unread message is the last one of
-- the user's own; if there is none, the one that was, or, if there was none, the first one that came
-- while no browser had the channel open. The client's numbers begin at 1.
pub push_all-counters :
    (id_msg : ℕ) (ps : List Push) (this : Chan)
    → 1 ≤ id_msg
    → ((push_all id_msg ps this).unread
        ≡ (if any is_own ps then 0 else this.unread)
          + length (filter (is_counted this.id) (since_own ps)))
      × ((push_all id_msg ps this).highlight
          ≡ (if any is_own ps then 0 else this.highlight)
            + length (filter (is_highlight this.id) (since_own ps)))
      × ((push_all id_msg ps this).first_unread
          ≡ or_default (last_number is_own id_msg ps) (
              if this.first_unread == 0
              then or_default (first_number (is_unseen this.id) id_msg ps) 0
              else this.first_unread))
push_all-counters id_msg ps this k = (
  push_all-unread this.id id_msg ps this refl,
  push_all-highlight this.id id_msg ps this refl,
  push_all-first_unread this.id id_msg ps this k refl,
)
