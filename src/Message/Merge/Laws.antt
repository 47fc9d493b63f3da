-- ===== src/Message/Merge/Laws.antt =====
-- What `merge` gives: parts that tile the text, with fragments that show all of it.
use thelounge.Common.{
  ℕ, ◌+◌, ◌-◌, drop-drop, drop_of_length-le, take-append-drop, ◌≤◌, ◌≡◌, refl, sym, ap, ◌∙◌, List,
  [], ◌∷◌, ◌++◌, map, arith, All, length, slice, drop,
}
use thelounge.Message.Parts.{Part, fill}
use thelounge.Message.Parts.Tiles.{Tiles, Spaced, IsRange}
use thelounge.Message.Parts.Fill.{sort_fill-Tiles}
use thelounge.Message.Fragment.{Fragment, FragmentsTile, texts, cut, texts-cut, length-texts}
use thelounge.Message.Merge.{PartWithFragments, merge, kept_parts}
use thelounge.Message.Merge.Kept.{kept_parts-Spaced, kept_parts-All-IsMet, kept_parts-All, IsMet}

abbrev pub parts_of : List PartWithFragments → List Part
parts_of [] = []
parts_of (m ∷ ms) = m.part ∷ parts_of ms

-- The text that the fragments of all parts show, in order.
abbrev pub shown : List PartWithFragments → List ℕ
shown [] = []
shown (m ∷ ms) = texts m.fragments ++ shown ms

abbrev with_fragments : List Fragment → List Part → List PartWithFragments
with_fragments fs = map (λ part. record { part = part; fragments = cut part fs })

parts_of-with_fragments :
    (fs : List Fragment) (ps : List Part) → parts_of (with_fragments fs ps) ≡ ps
parts_of-with_fragments fs [] = refl
parts_of-with_fragments fs (p ∷ ps) = ap (◌∷◌ p) (parts_of-with_fragments fs ps)

-- If the recognised parts are ranges of the text, the parts of the result follow one another
-- without a gap or an overlap from 0 to the end of the text, and none is empty.
pub merge-Tiles :
    (parts : List Part) (fs : List Fragment) (clean_text : List ℕ)
    → All (IsRange (length clean_text)) parts
    → Tiles 0 (parts_of (merge parts fs clean_text)) (length clean_text)
unfolding merge fill
merge-Tiles parts fs clean_text r = rw (parts_of-with_fragments fs _) (
    sort_fill-Tiles 0 (kept_parts parts) (length clean_text)
      (kept_parts-Spaced parts (length clean_text) r))

-- A piece of a text and what follows it.
slice-drop :
    (text : List ℕ) (lo mid : ℕ) → lo ≤ mid → slice text lo mid ++ drop mid text ≡ drop lo text
slice-drop text lo mid h =
    let e : lo + (mid - lo) ≡ mid = omega arith in
    ap (λ rest. slice text lo mid ++ rest) (rw (← drop-drop lo (mid - lo) text, e))
    ∙ take-append-drop (mid - lo) (drop lo text)

shown-with_fragments :
    (fs : List Fragment) (lo : ℕ) (ps : List Part) (hi : ℕ)
    → FragmentsTile 0 fs hi
    → Tiles lo ps hi
    → shown (with_fragments fs ps) ≡ drop lo (texts fs)
shown-with_fragments fs lo [] hi f t =
    sym (drop_of_length-le lo (texts fs) (omega (arith, length-texts 0 fs hi f)))
shown-with_fragments fs lo (p ∷ ps) hi f (a, b, c) = cc (
  texts-cut p b 0 fs hi f,
  shown-with_fragments fs p.end ps hi f c,
  slice-drop (texts fs) p.start p.end (omega arith),
  minus_zero p.start,
  minus_zero p.end,
)
  where
    minus_zero : (n : ℕ) → n - 0 ≡ n
    minus_zero n = omega arith

-- If the style fragments tile the text and the parts are ranges of it, then what the result shows,
-- part by part and fragment by fragment, is the text: no character is lost, doubled or moved.
pub shown-merge :
    (parts : List Part) (fs : List Fragment)
    → FragmentsTile 0 fs (length (texts fs))
    → All (IsRange (length (texts fs))) parts
    → shown (merge parts fs (texts fs)) ≡ texts fs
unfolding merge fill
shown-merge parts fs f r = shown-with_fragments fs 0 _ (length (texts fs)) f (
    sort_fill-Tiles 0 (kept_parts parts) (length (texts fs))
      (kept_parts-Spaced parts (length (texts fs)) r))

-- Every recognised part that is a range of the text meets a part of the result that was itself
-- recognised, and whatever holds of all recognised parts holds of those kept; so a part is dropped
-- only for another that overlaps it.
kept_parts_lem {ℓ} :
    (P : Part → Type ℓ) (parts : List Part) (text_length : ℕ)
    → All (IsRange text_length) parts
    → All P parts
    → All (IsMet (kept_parts parts)) parts
      × All P (kept_parts parts)
      × Spaced 0 (kept_parts parts) text_length
kept_parts_lem P parts text_length r h = (
  kept_parts-All-IsMet parts text_length r,
  kept_parts-All P parts h,
  kept_parts-Spaced parts text_length r,
)
