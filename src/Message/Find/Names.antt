-- ===== src/Message/Find/Names.antt =====
-- What `findNames` returns.
use mathlib.Core.List.{append_assoc}
use thelounge.Common.{
  ℕ, ◌+◌, ◌-◌, ◌≤◌, ◌<◌, ◌≡◌, refl, ap, ◌∙◌, true, List, [], ◌∷◌, ◌++◌, length, arith, any, All,
  All-append, slice, drop, take, length-append, Bool-cases, inl, inr,
}
use thelounge.Message.Parts.{Part, Found, nick}
use thelounge.Message.Style.Equality.{text_eq}
use thelounge.Message.Find.{is_nick_char, part_at, close_run, names_from, find_names}

drop-length : (a xs : List ℕ) → drop (length a) (a ++ xs) ≡ xs
drop-length [] xs = refl
drop-length (c ∷ a) xs = drop-length a xs

take-length : (a xs : List ℕ) → take (length a) (a ++ xs) ≡ a
take-length [] xs = refl
take-length (c ∷ a) xs = ap (◌∷◌ c) (take-length a xs)

-- The piece of a text between what stands before it and behind it.
pub slice_middle :
    (a name b : List ℕ) → slice (a ++ (name ++ b)) (length a) (length a + length name) ≡ name
slice_middle a name b =
    let e : length a + length name - length a ≡ length name = omega arith in
    rw (drop-length a (name ++ b), e) (take-length name b)

-- The part is a range of the text that is not empty, and holds the name that it shows.
abbrev pub Shows : List ℕ → Part → List ℕ → Type 0
Shows text p name = (p.start < p.end) × (p.end ≤ length text) × (slice text p.start p.end ≡ name)

pub part_at-Shows :
    (a name b : List ℕ) (found : Found)
    → 0 < length name
    → Shows (a ++ (name ++ b)) (part_at (length a) name found) name
part_at-Shows a name b found h = (
  omega arith,
  omega (arith, length-append a (name ++ b), length-append name b),
  slice_middle a name b,
)

-- A name found in the text: one of the nicks, of nick characters only.
abbrev pub IsName : List ℕ → List (List ℕ) → Part → Type 0
IsName text nicks p =
    (name : List ℕ) × (p.found ≡ nick name)
    × Shows text p name
    × (any (text_eq name) nicks ≡ true)
    × All (λ c. is_nick_char c ≡ true) name

close_run-IsName :
    (nicks : List (List ℕ)) (a run b : List ℕ)
    → All (λ c. is_nick_char c ≡ true) run
    → All (IsName (a ++ (run ++ b)) nicks) (close_run nicks (length a) run)
unfolding close_run
close_run-IsName nicks a [] b h = tt
close_run-IsName nicks a (c ∷ run) b h = elim (Bool-cases (any (text_eq (c ∷ run)) nicks)) [
  | inl known ↦
      rw known
        ((c ∷ run, refl, part_at-Shows a (c ∷ run) b (nick (c ∷ run)) (omega arith), known, h), tt)
  | inr unknown ↦ rw unknown tt
]

names_from-IsName :
    (nicks : List (List ℕ)) (text a : List ℕ) (start : ℕ) (run rest : List ℕ)
    → text ≡ a ++ (run ++ rest)
    → length a ≡ start
    → All (λ c. is_nick_char c ≡ true) run
    → All (IsName text nicks) (names_from nicks start run rest)
unfolding names_from
names_from-IsName nicks text a start run [] e n h = rw (e, ← n) (close_run-IsName nicks a run [] h)
names_from-IsName nicks text a start run (c ∷ rest) e n h = elim (Bool-cases (is_nick_char c)) [
  | inl more ↦ rw more (
      names_from-IsName nicks text a start (run ++ c ∷ []) rest (e ∙ simp append_assoc) n
        (All-append (λ d. is_nick_char d ≡ true) run (c ∷ []) h (more, tt)))
  | inr done ↦ rw done (
      All-append (IsName text nicks) (close_run nicks start run) _
        (rw (e, ← n) (close_run-IsName nicks a run (c ∷ rest) h))
        (names_from-IsName nicks text (a ++ (run ++ c ∷ [])) (start + length run + 1) [] rest
          (e ∙ simp append_assoc)
          (omega (arith, length-append a (run ++ c ∷ []), length-append run (c ∷ []))) tt))
]

-- Every part that `findNames` returns is a range of the text that is not empty, holds the nick that
-- it names, and this is one of the nicks asked for and has only the characters of a nick.
pub find_names-IsName :
    (text : List ℕ) (nicks : List (List ℕ)) → All (IsName text nicks) (find_names text nicks)
unfolding find_names
find_names-IsName text [] = tt
find_names-IsName text (n ∷ ns) = names_from-IsName (n ∷ ns) text [] 0 [] text refl refl tt
