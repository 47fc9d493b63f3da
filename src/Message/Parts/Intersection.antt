-- ===== src/Message/Parts/Intersection.antt =====
-- What `anyIntersection` decides.
use thelounge.Common.{ℕ, ◌≤◌, ◌<◌, ◌≡◌, ◌↔◌, ◌⊎◌, true, false, max, arith}
use thelounge.Message.Parts.{any_intersection}

-- Two ranges that are not empty intersect, as `anyIntersection` says, exactly when some position
-- lies in both.
any_intersection_iff :
    (a_start a_end b_start b_end : ℕ)
    → a_start < a_end
    → b_start < b_end
    → (any_intersection a_start a_end b_start b_end ≡ true)
      ↔ ((p : ℕ) × (a_start ≤ p) × (p < a_end) × (b_start ≤ p) × (p < b_end))
unfolding any_intersection
any_intersection_iff s e s' e' h h' = (
  λ meet. (max s s', ground arith, ground arith, ground arith, ground arith),
  λ (p, a, b, c, d). ground arith,
)

-- Of two ranges in order that do not intersect, the second begins behind the first.
pub le_of_not_any_intersection :
    (s e s' e' : ℕ) → s < e → s' < e' → s ≤ s' → any_intersection s e s' e' ≡ false → e ≤ s'
unfolding any_intersection
le_of_not_any_intersection s e s' e' h h' k n = ground arith

-- Ranges that are apart do not intersect.
pub not_any_intersection_apart :
    (s e s' e' : ℕ) → s < e → s' < e' → e ≤ s' → any_intersection s e s' e' ≡ false
unfolding any_intersection
not_any_intersection_apart s e s' e' h h' k = ground arith

pub any_intersection_self : (s e : ℕ) → s < e → any_intersection s e s e ≡ true
unfolding any_intersection
any_intersection_self s e h = ground arith

pub apart_of_not_any_intersection :
    (s e s' e' : ℕ) → s < e → s' < e' → any_intersection s e s' e' ≡ false → (e ≤ s') ⊎ (e' ≤ s)
unfolding any_intersection
apart_of_not_any_intersection s e s' e' h h' n = ground arith

pub overlap_of_any_intersection :
    (s e s' e' : ℕ) → s < e → s' < e' → any_intersection s e s' e' ≡ true → (s < e') × (s' < e)
unfolding any_intersection
overlap_of_any_intersection s e s' e' h h' n = ground arith
