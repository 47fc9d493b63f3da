-- ===== src/Common/Texts.antt =====
-- Texts taken apart and put together: `split` with a separator of one character, `join`, `charAt` and
-- `substring(1)`.
use Prim.Native.Char.{Char, code}
use Prim.Native.Nat.{ℕ}
use Prim.Native.String.{String, ◌++◌ as append}
use Prim.Native.String.append.{nil, cons}
use mathlib.Core.Path.{◌≡◌, refl, ap}
use mathlib.Core.Bool.{Bool, false, ◌||◌}
use mathlib.Core.Logic.{inl, inr}
use mathlib.Core.List.{List, [], ◌∷◌}
use native.Mathlib.Omega.{arith}
use thelounge.Common.Tests.{if◌then◌else◌, ◌==◌, Bool-cases}
use thelounge.Common.Lists.{All}
use thelounge.Common.{suc, zero, length, any, codes, ◌≤◌}

unfoldable pub extend_first : Char → List String → List String
extend_first c [] = String.◌∷◌ c String.[] ∷ []
extend_first c (piece ∷ pieces) = String.◌∷◌ c piece ∷ pieces

unfoldable pub split : ℕ → String → List String
unfolding extend_first
split sep String.[] = "" ∷ []
split sep (String.◌∷◌ c s) =
    let rest = split sep s in if code c == sep then "" ∷ rest else extend_first c rest

-- `Array.prototype.join`
unfoldable pub join : String → List String → String
join separator [] = ""
join separator (piece ∷ []) = piece
join separator (piece ∷ next ∷ pieces) =
    append piece (append separator (join separator (next ∷ pieces)))

-- Whether a text has a character of this code.
unfoldable pub has_char : ℕ → String → Bool
has_char sep String.[] = false
has_char sep (String.◌∷◌ c s) = code c == sep || has_char sep s

-- `substring(1)`
unfoldable pub after_first : String → String
after_first String.[] = ""
after_first (String.◌∷◌ c s) = s

-- There is a first piece.
pub split-cases :
    (sep : ℕ) (s : String) → (first : String) × (rest : List String) × (split sep s ≡ first ∷ rest)
unfolding split extend_first
split-cases sep String.[] = ("", [], refl)
split-cases sep (String.◌∷◌ c s) =
    let (first, rest, e) = split-cases sep s in
    elim (Bool-cases (code c == sep)) [
      | inl here ↦ ("", split sep s, rw here refl)
      | inr other ↦ (String.◌∷◌ c first, rest, rw (other, e) refl)
    ]

All-extend_first :
    (sep : ℕ) (c : Char) (xs : List String)
    → (code c == sep) ≡ false
    → All (λ s. has_char sep s ≡ false) xs
    → All (λ s. has_char sep s ≡ false) (extend_first c xs)
unfolding extend_first has_char
All-extend_first sep c [] h a = (rw h refl, tt)
All-extend_first sep c (x ∷ xs) h (a, b) = (rw h a, b)

-- No piece has the separator.
pub split-has_char : (sep : ℕ) (s : String) → All (λ p. has_char sep p ≡ false) (split sep s)
unfolding split has_char
split-has_char sep String.[] = (refl, tt)
split-has_char sep (String.◌∷◌ c s) = elim (Bool-cases (code c == sep)) [
  | inl here ↦ rw here (refl, split-has_char sep s)
  | inr other ↦ rw other (All-extend_first sep c (split sep s) other (split-has_char sep s))
]

pub has_char-append :
    (sep : ℕ) (a b : String) → has_char sep (append a b) ≡ (has_char sep a || has_char sep b)
unfolding has_char
has_char-append sep String.[] b = ap (has_char sep) (nil b)
has_char-append sep (String.◌∷◌ c a) b = rw (cons c a b) (ground (arith, has_char-append sep a b))

-- What is joined has a character only if a piece or the separator has it.
pub has_char-join :
    (sep : ℕ) (between : String) (pieces : List String)
    → has_char sep between ≡ false
    → All (λ p. has_char sep p ≡ false) pieces
    → has_char sep (join between pieces) ≡ false
unfolding join has_char
has_char-join sep between [] h a = refl
has_char-join sep between (p ∷ []) h (a, _) = a
has_char-join sep between (p ∷ q ∷ ps) h (a, rest_ok) =
    let rest : String = join between (q ∷ ps) in
    ground (
      arith,
      has_char-append sep p (append between rest),
      has_char-append sep between rest,
      has_char-join sep between (q ∷ ps) h rest_ok,
      h,
      a,
    )

-- The pieces of a text without a character have it not.
pub has_char-split :
    (sep other : ℕ) (s : String)
    → has_char other s ≡ false
    → All (λ p. has_char other p ≡ false) (split sep s)
unfolding split has_char
has_char-split sep other String.[] h = (refl, tt)
has_char-split sep other (String.◌∷◌ c s) h =
    let (first, later) : (((code c == other) ≡ false) × (has_char other s ≡ false)) =
      (ground (arith, h), ground (arith, h)) in
    elim (Bool-cases (code c == sep)) [
      | inl here ↦ rw here (refl, has_char-split sep other s later)
      | inr there ↦
          rw there (All-extend_first other c (split sep s) first (has_char-split sep other s later))
    ]

pub has_char-after_first :
    (other : ℕ) (s : String) → has_char other s ≡ false → has_char other (after_first s) ≡ false
unfolding after_first has_char
has_char-after_first other String.[] h = h
has_char-after_first other (String.◌∷◌ c s) h = ground (arith, h)

-- `replace(/[...]/g, "")` and `replace(/[...]/g, c)` by a class of characters, and `substring(0, n)`.
unfoldable pub remove_chars : (ℕ → Bool) → String → String
remove_chars is_in String.[] = ""
remove_chars is_in (String.◌∷◌ c s) =
    let rest = remove_chars is_in s in if is_in (code c) then rest else String.◌∷◌ c rest

unfoldable pub replace_chars : (ℕ → Bool) → Char → String → String
replace_chars is_in by String.[] = ""
replace_chars is_in by (String.◌∷◌ c s) =
    let rest = replace_chars is_in by s in String.◌∷◌ (if is_in (code c) then by else c) rest

unfoldable pub first_chars : ℕ → String → String
first_chars zero s = ""
first_chars (suc n) String.[] = ""
first_chars (suc n) (String.◌∷◌ c s) = String.◌∷◌ c (first_chars n s)

-- A text has no character of a class.
abbrev pub IsFree : (ℕ → Bool) → String → Type 0
IsFree p s = any p (codes s) ≡ false

pub remove_chars-IsFree : (p : ℕ → Bool) (s : String) → IsFree p (remove_chars p s)
unfolding remove_chars
remove_chars-IsFree p String.[] = refl
remove_chars-IsFree p (String.◌∷◌ c s) = elim (Bool-cases (p (code c))) [
  | inl e ↦ rw e (remove_chars-IsFree p s)
  | inr e ↦ rw e (rw e (remove_chars-IsFree p s))
]

pub replace_chars-IsFree :
    (p : ℕ → Bool) (by : Char) (s : String) → p (code by) ≡ false → IsFree p (replace_chars p by s)
unfolding replace_chars
replace_chars-IsFree p by String.[] h = refl
replace_chars-IsFree p by (String.◌∷◌ c s) h = elim (Bool-cases (p (code c))) [
  | inl e ↦ rw e (rw h (replace_chars-IsFree p by s h))
  | inr e ↦ rw e (rw e (replace_chars-IsFree p by s h))
]

pub IsFree-of_IsFree :
    (p q : ℕ → Bool)
    → ((c : ℕ) → p c ≡ false → q c ≡ false)
    → (s : String) → IsFree p s
    → IsFree q s
IsFree-of_IsFree p q k String.[] h = refl
IsFree-of_IsFree p q k (String.◌∷◌ c s) h = elim (Bool-cases (p (code c))) [
  | inl e ↦ ground (arith, h, e)
  | inr e ↦ rw (k (code c) e) (IsFree-of_IsFree p q k s (rw e at h))
]

pub first_chars-IsFree :
    (p : ℕ → Bool) (n : ℕ) (s : String) → IsFree p s → IsFree p (first_chars n s)
unfolding first_chars
first_chars-IsFree p zero s h = refl
first_chars-IsFree p (suc n) String.[] h = refl
first_chars-IsFree p (suc n) (String.◌∷◌ c s) h = elim (Bool-cases (p (code c))) [
  | inl e ↦ ground (arith, h, e)
  | inr e ↦ rw e (first_chars-IsFree p n s (rw e at h))
]

pub length-first_chars : (n : ℕ) (s : String) → length (codes (first_chars n s)) ≤ n
unfolding first_chars
length-first_chars zero s = omega arith
length-first_chars (suc n) String.[] = omega arith
length-first_chars (suc n) (String.◌∷◌ c s) = omega (arith, length-first_chars n s)
