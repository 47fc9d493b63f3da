-- ===== src/Message/Merge.antt =====
-- client/js/helpers/ircmessageparser/merge.ts: the styled fragments of a message distributed over
-- the recognised parts of its text.
pub mod Kept
pub mod Laws
use thelounge.Common.{ℕ, List, [], ◌∷◌, ◌++◌, map, any, length, if◌then◌else◌}
use thelounge.Common.Sort.{sort}
use thelounge.Message.Parts.{Part, parts_intersect, part_le, fill}
use thelounge.Message.Fragment.{Fragment, cut}

pub record PartWithFragments : Type 0 where
  pub part : Part
  pub fragments : List Fragment

-- The `reduce` that keeps a part only if it meets none of those kept before it.
unfoldable pub drop_overlaps : List Part → List Part → List Part
drop_overlaps prev [] = prev
drop_overlaps prev (curr ∷ rest) =
    drop_overlaps (if any (λ p. parts_intersect p curr) prev then prev else prev ++ curr ∷ []) rest

unfoldable pub kept_parts : List Part → List Part
kept_parts parts = drop_overlaps [] (sort part_le parts)

unfoldable pub merge : List Part → List Fragment → List ℕ → List PartWithFragments
merge parts style_fragments clean_text =
    let kept = kept_parts parts in
    let filled = fill kept (length clean_text) in
    let all_parts = sort part_le (kept ++ filled) in
    map (λ part. record { part = part; fragments = cut part style_fragments }) all_parts
