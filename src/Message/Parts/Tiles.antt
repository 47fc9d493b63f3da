-- ===== src/Message/Parts/Tiles.antt =====
-- Parts in order, with gaps (`Spaced`) and without (`Tiles`).
use thelounge.Common.{ℕ, ◌≤◌, ◌<◌, ◌≡◌, true, false, List, [], ◌∷◌, ◌++◌, arith, All, any}
use thelounge.Common.Sort.{IsSorted}
use thelounge.Message.Parts.{Part, parts_intersect, part_le}
use thelounge.Message.Parts.Intersection.{le_of_not_any_intersection}

-- The parts are not empty, follow one another, and cover exactly the positions from `lo` to `hi`.
abbrev pub Tiles : ℕ → List Part → ℕ → Type 0
Tiles lo [] hi = lo ≡ hi
Tiles lo (p ∷ ps) hi = (p.start ≡ lo) × (p.start < p.end) × Tiles p.end ps hi

-- The parts are not empty, do not overlap, are in order, and lie between `lo` and `hi`.
abbrev pub Spaced : ℕ → List Part → ℕ → Type 0
Spaced lo [] hi = lo ≤ hi
Spaced lo (p ∷ ps) hi = (lo ≤ p.start) × (p.start < p.end) × Spaced p.end ps hi

abbrev pub IsRange : ℕ → Part → Type 0
IsRange hi p = (p.start < p.end) × (p.end ≤ hi)

-- The starts do not fall.
abbrev pub Ascending : ℕ → List Part → Type 0
Ascending lo [] = Unit
Ascending lo (p ∷ ps) = (lo ≤ p.start) × Ascending p.start ps

pub Spaced-le : (lo : ℕ) (ps : List Part) (hi : ℕ) → Spaced lo ps hi → lo ≤ hi
Spaced-le lo [] hi h = h
Spaced-le lo (p ∷ ps) hi h = omega (arith, Spaced-le p.end ps hi h.2)

pub Spaced-of_le :
    (lo' lo : ℕ) (ps : List Part) (hi : ℕ) → lo' ≤ lo → Spaced lo ps hi → Spaced lo' ps hi
Spaced-of_le lo' lo [] hi k h = omega arith
Spaced-of_le lo' lo (p ∷ ps) hi k (a, b, c) = (omega arith, b, c)

pub Spaced-All_le :
    (p : Part) (lo : ℕ) (ps : List Part) (hi : ℕ)
    → p.start < lo
    → Spaced lo ps hi
    → All (λ q. part_le p q ≡ true) ps
Spaced-All_le p lo [] hi h s = tt
Spaced-All_le p lo (q ∷ qs) hi h (a, b, c) =
    (ground arith, Spaced-All_le p q.end qs hi (omega arith) c)

pub Spaced-IsSorted : (lo : ℕ) (ps : List Part) (hi : ℕ) → Spaced lo ps hi → IsSorted part_le ps
Spaced-IsSorted lo [] hi h = tt
Spaced-IsSorted lo (p ∷ ps) hi (a, b, c) =
    (Spaced-All_le p p.end ps hi b c, Spaced-IsSorted p.end ps hi c)

pub IsSorted-Ascending :
    (lo : ℕ) (ps : List Part) → All (λ p. lo ≤ p.start) ps → IsSorted part_le ps → Ascending lo ps
IsSorted-Ascending lo [] h s = tt
IsSorted-Ascending lo (p ∷ ps) (h, _) (least, s) =
    (h, IsSorted-Ascending p.start ps (starts ps least) s)
  where
    starts : (qs : List Part) → All (λ q. part_le p q ≡ true) qs → All (λ q. p.start ≤ q.start) qs
    starts [] k = tt
    starts (q ∷ qs) (k, ks) = (ground arith, starts qs ks)

-- A part that meets none of `ps` and begins no earlier than any of them can be put at the end.
pub Spaced-concat :
    (lo : ℕ) (ps : List Part) (c : Part) (hi : ℕ)
    → Spaced lo ps hi
    → lo ≤ c.start
    → All (λ p. p.start ≤ c.start) ps
    → IsRange hi c
    → any (λ p. parts_intersect p c) ps ≡ false
    → Spaced lo (ps ++ c ∷ []) hi
Spaced-concat lo [] c hi s k a r n = (k, r.0, r.1)
Spaced-concat lo (p ∷ ps) c hi (x, y, z) k (a, as') r n = (
  x,
  y,
  Spaced-concat p.end ps c hi z
      (le_of_not_any_intersection p.start p.end c.start c.end y r.0 a (ground arith)) as' r
      (ground arith),
)
