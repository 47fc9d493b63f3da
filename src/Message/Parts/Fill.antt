-- ===== src/Message/Parts/Fill.antt =====
-- What `fill` adds to parts that do not overlap: the two sorted together tile the text.
use thelounge.Common.{
  ℕ, ◌<◌, ◌≡◌, ap, refl, true, false, List, [], ◌∷◌, ◌++◌, arith, ltb, if◌then◌else◌, Bool-cases,
  inl, inr,
}
use thelounge.Common.Sort.{insert_sorted, sort, sort_of_IsSorted}
use thelounge.Message.Parts.{Part, text_from, fill_from, part_le}
use thelounge.Message.Parts.Tiles.{Tiles, Spaced, Spaced-of_le, Spaced-IsSorted}

-- The parts with the gaps between them filled.
weave : ℕ → List Part → ℕ → List Part
weave lo [] hi = if ltb lo hi then text_from lo hi ∷ [] else []
weave lo (p ∷ ps) hi =
    let rest = p ∷ weave p.end ps hi in if ltb lo p.start then text_from lo p.start ∷ rest else rest

weave-Tiles : (lo : ℕ) (ps : List Part) (hi : ℕ) → Spaced lo ps hi → Tiles lo (weave lo ps hi) hi
unfolding weave
weave-Tiles lo [] hi h = ground arith
weave-Tiles lo (p ∷ ps) hi (a, b, c) = ground (arith, weave-Tiles p.end ps hi c)

fill_from-Spaced :
    (lo : ℕ) (ps : List Part) (hi : ℕ) → Spaced lo ps hi → Spaced lo (fill_from lo ps hi) hi
unfolding fill_from
fill_from-Spaced lo [] hi h = ground arith
fill_from-Spaced lo (p ∷ ps) hi (a, b, c) = elim (Bool-cases (ltb lo p.start)) [
  | inl gap ↦ rw gap (
    omega arith,
    ground arith,
    Spaced-of_le p.start p.end _ hi (omega arith) (fill_from-Spaced p.end ps hi c),
  )
  | inr tight ↦ rw tight (Spaced-of_le lo p.end _ hi (omega arith) (fill_from-Spaced p.end ps hi c))
]

insert_all : List Part → List Part → List Part
insert_all [] qs = qs
insert_all (p ∷ ps) qs = insert_sorted part_le p (insert_all ps qs)

sort-append : (ps qs : List Part) → sort part_le (ps ++ qs) ≡ insert_all ps (sort part_le qs)
unfolding sort insert_all
sort-append [] qs = refl
sort-append (p ∷ ps) qs = ap (insert_sorted part_le p) (sort-append ps qs)

-- A part ahead of all of `ps` stays ahead.
insert_all-cons :
    (g : Part) (lo : ℕ) (ps qs : List Part) (hi : ℕ)
    → g.start < lo
    → Spaced lo ps hi
    → insert_all ps (g ∷ qs) ≡ g ∷ insert_all ps qs
unfolding insert_all insert_sorted
insert_all-cons g lo [] qs hi h s = refl
insert_all-cons g lo (p ∷ ps) qs hi h (a, b, c) =
    rw (insert_all-cons g p.end ps qs hi (omega arith) c)
      (let later : part_le p g ≡ false = ground arith in rw later refl)

insert_ahead :
    (p : Part) (lo : ℕ) (qs : List Part) (hi : ℕ)
    → p.start < lo
    → Tiles lo qs hi
    → insert_sorted part_le p qs ≡ p ∷ qs
unfolding insert_sorted
insert_ahead p lo [] hi h t = refl
insert_ahead p lo (q ∷ qs) hi h (a, b, c) =
    let first : part_le p q ≡ true = ground arith in rw first refl

insert_behind :
    (g p : Part) (qs : List Part)
    → part_le p g ≡ false
    → insert_sorted part_le p (g ∷ qs) ≡ g ∷ insert_sorted part_le p qs
unfolding insert_sorted
insert_behind g p qs later = rw later refl

insert_all-fill_from :
    (lo : ℕ) (ps : List Part) (hi : ℕ)
    → Spaced lo ps hi
    → insert_all ps (fill_from lo ps hi) ≡ weave lo ps hi
unfolding insert_all fill_from weave
insert_all-fill_from lo [] hi s = refl
insert_all-fill_from lo (p ∷ ps) hi (a, b, c) = elim (Bool-cases (ltb lo p.start)) [
  | inl gap ↦ rw gap (
      cc (
        insert_all-cons (text_from lo p.start) p.end ps (fill_from p.end ps hi) hi (omega arith) c,
        insert_all-fill_from p.end ps hi c,
        insert_ahead p p.end (weave p.end ps hi) hi b (weave-Tiles p.end ps hi c),
        insert_behind (text_from lo p.start) p (weave p.end ps hi) (ground arith),
      ))
  | inr tight ↦ rw tight (
      cc (
        insert_all-fill_from p.end ps hi c,
        insert_ahead p p.end (weave p.end ps hi) hi b (weave-Tiles p.end ps hi c),
      ))
]

-- Parts that do not overlap, sorted together with what `fill` adds, tile the text.
pub sort_fill-Tiles :
    (lo : ℕ) (ps : List Part) (hi : ℕ)
    → Spaced lo ps hi
    → Tiles lo (sort part_le (ps ++ fill_from lo ps hi)) hi
sort_fill-Tiles lo ps hi s = rw (sort-append ps (fill_from lo ps hi)) (
    rw
      (sort_of_IsSorted part_le (fill_from lo ps hi)
        (Spaced-IsSorted lo _ hi (fill_from-Spaced lo ps hi s)))
      (rw (insert_all-fill_from lo ps hi s) (weave-Tiles lo ps hi s)))
