-- ===== src/Message/Merge/Kept.antt =====
-- The parts that `merge` keeps: in order, apart from one another, and with every part that it drops
-- meeting one of them.
use thelounge.Common.{
  ℕ, ◌≤◌, ◌<◌, ◌≡◌, refl, sym, subst, true, false, List, [], ◌∷◌, ◌++◌, arith, All, All-append, any,
  Bool-cases, inl, inr,
}
use thelounge.Common.Sort.{sort, sort-IsSorted, All-sort, All-of_sort}
use thelounge.Message.Parts.{Part, parts_intersect, part_le}
use thelounge.Message.Parts.Intersection.{any_intersection_self}
use thelounge.Message.Parts.Tiles.{Spaced, IsRange, Ascending, IsSorted-Ascending, Spaced-concat}
use thelounge.Message.Merge.{drop_overlaps, kept_parts}

part_le_total : (a b : Part) → part_le a b ≡ false → part_le b a ≡ true
part_le_total a b h = ground arith

part_le_trans : (a b c : Part) → part_le a b ≡ true → part_le b c ≡ true → part_le a c ≡ true
part_le_trans a b c h k = ground arith

Below : ℕ → List Part → Type 0
Below n = All (λ p. p.start ≤ n)

Below-mono : (m n : ℕ) (ps : List Part) → m ≤ n → Below m ps → Below n ps
unfolding Below
Below-mono m n [] h b = tt
Below-mono m n (p ∷ ps) h (a, b) = (omega arith, Below-mono m n ps h b)

drop_overlaps-Spaced :
    (prev rest : List Part) (lo hi : ℕ)
    → Spaced 0 prev hi
    → Below lo prev
    → Ascending lo rest
    → All (IsRange hi) rest
    → Spaced 0 (drop_overlaps prev rest) hi
unfolding drop_overlaps Below
drop_overlaps-Spaced prev [] lo hi s b a r = s
drop_overlaps-Spaced prev (c ∷ cs) lo hi s b (a, as') (r, rs) =
    let b' = Below-mono lo c.start prev a b in
    elim (Bool-cases (any (λ p. parts_intersect p c) prev)) [
      | inl meeting ↦ rw meeting (drop_overlaps-Spaced prev cs c.start hi s b' as' rs)
      | inr apart ↦ rw apart (
          drop_overlaps-Spaced (prev ++ c ∷ []) cs c.start hi
            (Spaced-concat 0 prev c hi s (omega arith) b' r apart)
            (All-append (λ p. p.start ≤ c.start) prev (c ∷ []) b' (omega arith, tt)) as' rs)
    ]

pub kept_parts-Spaced :
    (parts : List Part) (hi : ℕ) → All (IsRange hi) parts → Spaced 0 (kept_parts parts) hi
unfolding kept_parts Below
kept_parts-Spaced parts hi r =
    drop_overlaps-Spaced [] (sort part_le parts) 0 hi (omega arith) tt
      (IsSorted-Ascending 0 (sort part_le parts) (from_zero (sort part_le parts))
        (sort-IsSorted part_le part_le_total part_le_trans parts))
      (All-sort part_le (IsRange hi) parts r)
  where
    from_zero : (ps : List Part) → All (λ p. 0 ≤ p.start) ps
    from_zero [] = tt
    from_zero (p ∷ ps) = (omega arith, from_zero ps)

-- Some member of the list meets the part.
abbrev pub IsMet : List Part → Part → Type 0
IsMet ps p = any (λ q. parts_intersect q p) ps ≡ true

any-append_left : (p : Part) (ps qs : List Part) → IsMet ps p → IsMet (ps ++ qs) p
any-append_left p [] qs h = cc
any-append_left p (q ∷ ps) qs h = ground (arith, any-append_left p ps qs)

any-append_last : (p : Part) (ps : List Part) → p.start < p.end → IsMet (ps ++ p ∷ []) p
any-append_last p [] h = rw (any_intersection_self p.start p.end h)
any-append_last p (q ∷ ps) h = ground (arith, any-append_last p ps h)

IsMet-drop_overlaps :
    (p : Part) (prev rest : List Part) → IsMet prev p → IsMet (drop_overlaps prev rest) p
unfolding drop_overlaps
IsMet-drop_overlaps p prev [] h = h
IsMet-drop_overlaps p prev (c ∷ cs) h = elim (Bool-cases (any (λ q. parts_intersect q c) prev)) [
  | inl meeting ↦ rw meeting (IsMet-drop_overlaps p prev cs h)
  | inr apart ↦
      rw apart (IsMet-drop_overlaps p (prev ++ c ∷ []) cs (any-append_left p prev (c ∷ []) h))
]

module _ (prev : List Part) (c : Part) (cs : List Part) where
  drop_overlaps_meeting :
      any (λ q. parts_intersect q c) prev ≡ true
      → drop_overlaps prev (c ∷ cs) ≡ drop_overlaps prev cs
  unfolding drop_overlaps
  drop_overlaps_meeting h = rw h refl

  drop_overlaps_apart :
      any (λ q. parts_intersect q c) prev ≡ false
      → drop_overlaps prev (c ∷ cs) ≡ drop_overlaps (prev ++ c ∷ []) cs
  unfolding drop_overlaps
  drop_overlaps_apart h = rw h refl

drop_overlaps-All-IsMet :
    (prev rest : List Part) (hi : ℕ)
    → All (IsRange hi) rest
    → All (IsMet (drop_overlaps prev rest)) rest
drop_overlaps-All-IsMet prev [] hi r = tt
drop_overlaps-All-IsMet prev (c ∷ cs) hi (r, rs) =
    elim (Bool-cases (any (λ q. parts_intersect q c) prev)) [
      | inl meeting ↦
          subst All_met (sym (drop_overlaps_meeting prev c cs meeting))
            (IsMet-drop_overlaps c prev cs meeting, drop_overlaps-All-IsMet prev cs hi rs)
      | inr apart ↦ subst All_met (sym (drop_overlaps_apart prev c cs apart)) (
        IsMet-drop_overlaps c (prev ++ c ∷ []) cs (any-append_last c prev r.0),
        drop_overlaps-All-IsMet (prev ++ c ∷ []) cs hi rs,
      )
    ]
  where
    All_met : List Part → Type 0
    All_met kept = All (IsMet kept) (c ∷ cs)

-- Every part meets one that is kept.
pub kept_parts-All-IsMet :
    (parts : List Part) (hi : ℕ) → All (IsRange hi) parts → All (IsMet (kept_parts parts)) parts
unfolding kept_parts
kept_parts-All-IsMet parts hi r =
    All-of_sort part_le (IsMet (kept_parts parts)) parts
      (drop_overlaps-All-IsMet [] (sort part_le parts) hi (All-sort part_le (IsRange hi) parts r))

drop_overlaps-All {ℓ} :
    (P : Part → Type ℓ) (prev rest : List Part)
    → All P prev
    → All P rest
    → All P (drop_overlaps prev rest)
unfolding drop_overlaps
drop_overlaps-All P prev [] h k = h
drop_overlaps-All P prev (c ∷ cs) h (k, ks) =
    elim (Bool-cases (any (λ q. parts_intersect q c) prev)) [
      | inl meeting ↦ rw meeting (drop_overlaps-All P prev cs h ks)
      | inr apart ↦
          rw apart
            (drop_overlaps-All P (prev ++ c ∷ []) cs (All-append P prev (c ∷ []) h (k, tt)) ks)
    ]

-- What is kept was given.
pub kept_parts-All {ℓ} :
    (P : Part → Type ℓ) (parts : List Part) → All P parts → All P (kept_parts parts)
unfolding kept_parts
kept_parts-All P parts h =
    drop_overlaps-All P [] (sort part_le parts) tt (All-sort part_le P parts h)
