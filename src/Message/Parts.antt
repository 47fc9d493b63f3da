-- ===== src/Message/Parts.antt =====
-- client/js/helpers/ircmessageparser: anyIntersection.ts, fill.ts and the types of merge.ts.
pub mod Intersection
pub mod Tiles
pub mod Fill
use thelounge.Common.{
  ℕ, ◌+◌, ◌-◌, String, Bool, ◌&&◌, ◌||◌, Option, List, [], ◌∷◌, ◌++◌, ltb, leb, ◌==◌, if◌then◌else◌,
  any, filter, map, length, max, min, slice,
}
use thelounge.Common.Sort.{sort}

-- What was recognised in a range of the text; `text_part` is a range with nothing in it.
pub data Found : Type 0 where
  text_part : Found
  link channel emoji nick : List ℕ → Found

pub record Part : Type 0 where
  pub start : ℕ
  pub end : ℕ
  pub found : Found

unfoldable pub any_intersection : ℕ → ℕ → ℕ → ℕ → Bool
any_intersection a_start a_end b_start b_end =
    (leb a_start b_start && ltb b_start a_end)
    || (ltb a_start b_end && leb b_end a_end)
    || (leb b_start a_start && ltb a_start b_end)
    || (ltb b_start a_end && leb a_end b_end)

abbrev pub parts_intersect : Part → Part → Bool
parts_intersect a b = any_intersection a.start a.end b.start b.end

-- `sortParts(a, b) <= 0`, for `a.start - b.start || b.end - a.end`.
abbrev pub part_le : Part → Part → Bool
part_le a b = if a.start == b.start then leb b.end a.end else ltb a.start b.start

abbrev pub text_from : ℕ → ℕ → Part
text_from start end = record { start = start; end = end; found = text_part }

-- The `reduce` of `fill` from the given position, and the end of the text.
unfoldable pub fill_from : ℕ → List Part → ℕ → List Part
fill_from position [] text_length =
    if ltb position text_length then text_from position text_length ∷ [] else []
fill_from position (segment ∷ rest) text_length =
    let gaps = fill_from segment.end rest text_length in
    if ltb position segment.start then text_from position segment.start ∷ gaps else gaps

unfoldable pub fill : List Part → ℕ → List Part
unfolding fill_from
fill existing text_length = fill_from 0 existing text_length
