-- ===== src/Hostmask/Wildcards.antt =====
-- What `compareWithWildcard` of server/helper.ts decides: a relation of a pattern, read from left to
-- right, and a text.
use Prim.Native.Char.{Char, code}
use Prim.Native.String.{String}
use thelounge.Common.{
  ℕ, ◌≡◌, ◌≢◌, ◌↔◌, inl, inr, refl, true, false, List, [], ◌∷◌, ◌++◌, map, codes, ◌==◌,
  if◌then◌else◌, arith, Bool-cases, ap, ◌∙◌, ℕ_discrete,
}
use thelounge.Common.Texts.{split, extend_first, split-cases}
use thelounge.Hostmask.{
  Item, literal, any_one, any_many, join_items, escape, wild_one, user_regex, is_line_end,
  skip_many, test, Folding, compare_with_wildcard,
}

-- A star (42) stands for any characters of one line, a question mark (63) for one such character, and
-- any other character for one that folds to the same.
pub data Matches (canonicalize : ℕ → ℕ) : List ℕ → List ℕ → Type 0 where
  done : Matches canonicalize [] []
  star_ends : {ps cs : List ℕ} → Matches canonicalize ps cs → Matches canonicalize (42 ∷ ps) cs
  star_takes :
      {c : ℕ} {ps cs : List ℕ}
      → is_line_end c ≡ false
      → Matches canonicalize (42 ∷ ps) cs
      → Matches canonicalize (42 ∷ ps) (c ∷ cs)
  one :
      {c : ℕ} {ps cs : List ℕ}
      → is_line_end c ≡ false
      → Matches canonicalize ps cs
      → Matches canonicalize (63 ∷ ps) (c ∷ cs)
  same :
      {p c : ℕ} {ps cs : List ℕ}
      → p ≢ 42
      → p ≢ 63
      → canonicalize p ≡ canonicalize c
      → Matches canonicalize ps cs
      → Matches canonicalize (p ∷ ps) (c ∷ cs)

-- The item of one character of a pattern.
unfoldable pub item_of : ℕ → Item
item_of p = if p == 42 then any_many else if p == 63 then any_one else literal p

join_items-first :
    (between : List Item) (item : Item) (piece : List Item) (pieces : List (List Item))
    → join_items between ((item ∷ piece) ∷ pieces) ≡ item ∷ join_items between (piece ∷ pieces)
unfolding join_items
join_items-first between item piece [] = refl
join_items-first between item piece (next ∷ pieces) = refl

-- A text taken apart at a separator, its pieces translated and joined, by its first character.
module _ (sep : ℕ) (between : List Item) (f : String → List Item) where
  abbrev joined : String → List Item
  joined s = join_items between (map f (split sep s))

  joined-separator :
      (c : Char) (s : String)
      → f "" ≡ []
      → (code c == sep) ≡ true
      → joined (String.◌∷◌ c s) ≡ between ++ joined s
  unfolding split join_items
  joined-separator c s h e = let (first, rest, k) = split-cases sep s in rw (e, k, h) refl

  joined-other :
      (item : Item) (c : Char) (s : String)
      → ((s : String) → f (String.◌∷◌ c s) ≡ item ∷ f s)
      → (code c == sep) ≡ false
      → joined (String.◌∷◌ c s) ≡ item ∷ joined s
  unfolding split extend_first
  joined-other item c s h e =
      let (first, rest, k) = split-cases sep s in
      rw (e, k, h first) (join_items-first between item (f first) (map f rest))

wild_one-cons :
    (c : Char) (s : String)
    → wild_one (String.◌∷◌ c s) ≡ (if code c == 63 then any_one else literal (code c)) ∷ wild_one s
unfolding wild_one escape
wild_one-cons c s = elim (Bool-cases (code c == 63)) [
  | inl e ↦ rw e (joined-separator 63 (any_one ∷ []) escape c s refl e)
  | inr e ↦ rw e (joined-other 63 (any_one ∷ []) escape (literal (code c)) c s (λ t. refl) e)
]

user_regex-empty : user_regex "" ≡ []
unfolding user_regex wild_one escape join_items split
user_regex-empty = refl

wild_one-empty : wild_one "" ≡ []
unfolding wild_one escape join_items split
wild_one-empty = refl

-- The expression of a pattern has one item for each of its characters.
user_regex_lem : (a : String) → user_regex a ≡ map item_of (codes a)
unfolding user_regex item_of
user_regex_lem String.[] = user_regex-empty
user_regex_lem (String.◌∷◌ c a) = elim (Bool-cases (code c == 42)) [
  | inl e ↦
      rw (e, joined-separator 42 (any_many ∷ []) wild_one c a wild_one-empty e, user_regex_lem a)
        refl
  | inr e ↦ rw e (
      joined-other 42 (any_many ∷ []) wild_one (if code c == 63 then any_one else literal (code c))
        c a (wild_one-cons c) e
      ∙ ap (λ items. (if code c == 63 then any_one else literal (code c)) ∷ items)
          (user_regex_lem a))
]

-- `.*` matches what it skips: a run of one line, and then the rest.
module _ (canonicalize : ℕ → ℕ) where
  skip_many→Matches :
      (ps : List ℕ) (cs : List ℕ)
      → ((ds : List ℕ) → test canonicalize (map item_of ps) ds ≡ true → Matches canonicalize ps ds)
      → skip_many (test canonicalize (map item_of ps)) cs ≡ true
      → Matches canonicalize (42 ∷ ps) cs
  unfolding skip_many
  skip_many→Matches ps [] k h = star_ends (k [] h)
  skip_many→Matches ps (c ∷ cs) k h =
      elim (Bool-cases (test canonicalize (map item_of ps) (c ∷ cs))) [
        | inl e ↦ star_ends (k (c ∷ cs) e)
        | inr e ↦
            star_takes (ground (arith, h, e)) (skip_many→Matches ps cs k (ground (arith, h, e)))
      ]

  any_one→Matches :
      (ps cs : List ℕ)
      → ((ds : List ℕ) → test canonicalize (map item_of ps) ds ≡ true → Matches canonicalize ps ds)
      → test canonicalize (any_one ∷ map item_of ps) cs ≡ true
      → Matches canonicalize (63 ∷ ps) cs
  unfolding test
  any_one→Matches ps [] k h = ground (arith, h)
  any_one→Matches ps (c ∷ cs) k h = one (ground (arith, h)) (k cs (ground (arith, h)))

  literal→Matches :
      (p : ℕ) (ps cs : List ℕ)
      → p ≢ 42
      → p ≢ 63
      → ((ds : List ℕ) → test canonicalize (map item_of ps) ds ≡ true → Matches canonicalize ps ds)
      → test canonicalize (literal p ∷ map item_of ps) cs ≡ true
      → Matches canonicalize (p ∷ ps) cs
  unfolding test
  literal→Matches p ps [] n n' k h = ground (arith, h)
  literal→Matches p ps (c ∷ cs) n n' k h = same n n' (ground (arith, h)) (k cs (ground (arith, h)))

  item_of-other : (p : ℕ) → p ≢ 42 → p ≢ 63 → item_of p ≡ literal p
  unfolding item_of
  item_of-other p n n' = ground arith

  test→Matches :
      (ps cs : List ℕ) → test canonicalize (map item_of ps) cs ≡ true → Matches canonicalize ps cs
  unfolding test item_of
  test→Matches [] [] h = done
  test→Matches [] (c ∷ cs) h = ground (arith, h)
  test→Matches (p ∷ ps) cs h = elim (ℕ_discrete p 42) [
    | yes e ↦ rw e (skip_many→Matches ps cs (test→Matches ps) (rw e at h))
    | no n ↦ elim (ℕ_discrete p 63) [
      | yes e ↦ rw e (any_one→Matches ps cs (test→Matches ps) (rw e at h))
      | no n' ↦ literal→Matches p ps cs n n' (test→Matches ps) (rw (item_of-other p n n') at h)
    ]
  ]

  Matches→test :
      {ps cs : List ℕ} → Matches canonicalize ps cs → test canonicalize (map item_of ps) cs ≡ true
  unfolding test skip_many item_of
  Matches→test done = refl
  Matches→test (star_ends {cs = []} m) = Matches→test m
  Matches→test (star_ends {cs = c ∷ cs} m) = rw (Matches→test m) refl
  Matches→test (star_takes e m) = ground (arith, e, Matches→test m)
  Matches→test (one e m) = rw (e, Matches→test m) refl
  Matches→test (same {p} n n' e m) = rw (item_of-other p n n', e, Matches→test m) (ground arith)

-- `compareWithWildcard(a, b)` is true exactly when the pattern a matches the text b: a star stands for
-- any characters without an end of a line, a question mark for one such character, and any other
-- character for one that folds to the same code unit.
pub compare_with_wildcard_iff :
    (folding : Folding) (a b : String)
    → (compare_with_wildcard folding a b ≡ true) ↔ Matches folding.canonicalize (codes a) (codes b)
unfolding compare_with_wildcard
compare_with_wildcard_iff folding a b = (
  λ h. test→Matches folding.canonicalize (codes a) (codes b) (rw (user_regex_lem a) at h),
  λ m. rw (user_regex_lem a) (Matches→test folding.canonicalize m),
)
