-- ===== src/Message/Fragment.antt =====
-- Styled fragments of a text: the type `ParsedStyle` of parseStyle.ts, and `assign` of merge.ts.
use thelounge.Common.{
  ℕ, ◌+◌, ◌-◌, ◌<◌, ◌≡◌, refl, sym, ◌∙◌, Bool, Option, List, [], ◌∷◌, ◌++◌, map, arith, length,
  filter, slice, leb, if◌then◌else◌, max, min, Bool-cases, inl, inr, length-append, slice-append,
  slice_past, slice_none, slice_until_length,
}
use thelounge.Message.Parts.{Part, any_intersection}
use thelounge.Message.Parts.Intersection.{
  apart_of_not_any_intersection, overlap_of_any_intersection,
}

pub record Style : Type 0 where
  pub bold : Bool
  pub text_color : Option ℕ
  pub bg_color : Option ℕ
  pub hex_color : Option (List ℕ)
  pub hex_bg_color : Option (List ℕ)
  pub italic : Bool
  pub underline : Bool
  pub strikethrough : Bool
  pub monospace : Bool

pub record Fragment : Type 0 where
  pub style : Style
  pub text : List ℕ
  pub start : ℕ
  pub end : ℕ

abbrev pub meets : Part → Fragment → Bool
meets part fragment = any_intersection part.start part.end fragment.start fragment.end

-- The second argument of `slice` as an offset: below 0 it counts from the end of the text.
slice_end : List ℕ → ℕ → ℕ → ℕ
slice_end text frag_start end =
    if leb frag_start end then end - frag_start else length text - (frag_start - end)

unfoldable pub assign : Part → Fragment → Fragment
unfolding slice_end
assign part fragment =
    let start = max fragment.start part.start in
    let end = min fragment.end part.end in
    record {
      style = fragment.style;
      text =
          slice fragment.text (start - fragment.start) (slice_end fragment.text fragment.start end);
      start = start;
      end = end;
    }

-- The text of all fragments, in order.
abbrev pub texts : List Fragment → List ℕ
texts [] = []
texts (f ∷ fs) = f.text ++ texts fs

-- The fragments are not empty, have texts of their lengths, and cover the positions from `lo` to `hi`.
abbrev pub FragmentsTile : ℕ → List Fragment → ℕ → Type 0
FragmentsTile lo [] hi = lo ≡ hi
FragmentsTile lo (f ∷ fs) hi =
    (f.start ≡ lo) × (f.start < f.end) × (lo + length f.text ≡ f.end) × FragmentsTile f.end fs hi

pub length-texts :
    (lo : ℕ) (fs : List Fragment) (hi : ℕ) → FragmentsTile lo fs hi → lo + length (texts fs) ≡ hi
length-texts lo [] hi t = omega arith
length-texts lo (f ∷ fs) hi (a, b, c, d) =
    omega (arith, length-texts f.end fs hi d, length-append f.text (texts fs))

pub FragmentsTile-concat :
    (lo : ℕ) (fs : List Fragment) (mid : ℕ) (f : Fragment)
    → FragmentsTile lo fs mid
    → f.start ≡ mid
    → f.start < f.end
    → mid + length f.text ≡ f.end
    → FragmentsTile lo (fs ++ f ∷ []) f.end
FragmentsTile-concat lo [] mid f t a b c = (omega arith, b, omega arith, refl)
FragmentsTile-concat lo (g ∷ gs) mid f (p, q, r, t) a b c =
    (p, q, r, FragmentsTile-concat g.end gs mid f t a b c)

-- The fragments that meet a part, cut to it.
abbrev pub cut : Part → List Fragment → List Fragment
cut part fs = map (assign part) (filter (meets part) fs)

slice-min : (xs : List ℕ) (a b : ℕ) → slice xs a (min b (length xs)) ≡ slice xs a b
slice-min xs a b = elim (Bool-cases (leb b (length xs))) [
  | inl within ↦ let e : min b (length xs) ≡ b = ground arith in rw e
  | inr beyond ↦
      let e : min b (length xs) ≡ length xs = ground arith in
      rw e (
        slice_until_length xs a (length xs) (omega arith)
        ∙ sym (slice_until_length xs a b (ground arith)))
]

module _ (part : Part) (range : part.start < part.end) where
  texts-cut_cons :
      (f : Fragment) (fs : List Fragment)
      → texts (cut part (f ∷ fs))
        ≡ (if meets part f then (assign part f).text else []) ++ texts (cut part fs)
  texts-cut_cons f fs = elim (Bool-cases (meets part f)) [ inl e ↦ rw e | inr e ↦ rw e ]

  module _ (f : Fragment) (lo : ℕ) (at : f.start ≡ lo) where
    first_offset :
        part.start < f.end → f.start < part.end → max f.start part.start - f.start ≡ part.start - lo
    first_offset u v = omega arith

    last_offset :
        lo + length f.text ≡ f.end
        → part.start < f.end
        → f.start < part.end
        → slice_end f.text f.start (min f.end part.end) ≡ min (part.end - lo) (length f.text)
    unfolding slice_end
    last_offset c u v = ground arith

  -- What one fragment gives to the part: the piece of its text that lies there, if any.
  texts-cut_one :
      (lo : ℕ) (f : Fragment)
      → f.start ≡ lo
      → f.start < f.end
      → lo + length f.text ≡ f.end
      → (if meets part f then (assign part f).text else [])
        ≡ slice f.text (part.start - lo) (part.end - lo)
  unfolding assign
  texts-cut_one lo f a b c = elim (Bool-cases (meets part f)) [
    | inl meeting ↦
        let (u, v) = overlap_of_any_intersection _ _ _ _ range b meeting in
        rw (meeting, first_offset f lo a u v, last_offset f lo a c u v)
          (slice-min f.text (part.start - lo) (part.end - lo))
    | inr apart ↦ rw apart (elim (apart_of_not_any_intersection _ _ _ _ range b apart) [
      | inl before ↦ sym (slice_none f.text _ _ (omega arith))
      | inr behind ↦ sym (slice_past f.text _ _ (omega arith))
    ])
  ]

  pub texts-cut :
      (lo : ℕ) (fs : List Fragment) (hi : ℕ)
      → FragmentsTile lo fs hi
      → texts (cut part fs) ≡ slice (texts fs) (part.start - lo) (part.end - lo)
  texts-cut lo [] hi t = sym (slice_past [] _ _ (omega arith))
  texts-cut lo (f ∷ fs) hi (a, b, c, t) =
      texts-cut_cons f fs
      ∙ cc (
        texts-cut_one lo f a b c,
        texts-cut f.end fs hi t,
        slice-append f.text (texts fs) (part.start - lo) (part.end - lo) (omega arith),
        rest_offset part.start,
        rest_offset part.end,
      )
    where
      rest_offset : (n : ℕ) → n - lo - length f.text ≡ n - f.end
      rest_offset n = omega arith
