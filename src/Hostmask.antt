-- ===== src/Hostmask.antt =====
-- server/helper.ts: `parseHostmask`, `compareHostmask` and `compareWithWildcard`. The expression that
-- is built for a pattern is kept as the list of its items, each of which matches one code unit or, for
-- `.*`, any number of them.
pub mod Wildcards
pub mod Same
pub mod Ignore
mod Tests
use Prim.Native.Char.{Char, code}
use thelounge.Common.{
  ℕ, String, Bool, true, false, not, ◌&&◌, ◌||◌, List, [], ◌∷◌, ◌++◌, map, codes, ◌==◌, str_eq,
  if◌then◌else◌,
}
use thelounge.Common.Texts.{split}

pub record Hostmask : Type 0 where
  pub nick : String
  pub ident : String
  pub hostname : String

-- What the code takes of the language's texts: `toLowerCase`, `trim`, and the code unit that an
-- expression with the flag "i" compares in place of another.
pub record Folding : Type 0 where
  pub lower : String → String
  pub trim : String → String
  pub canonicalize : ℕ → ℕ

-- A character, `.` and `.*`.
pub data Item : Type 0 where
  literal : ℕ → Item
  any_one : Item
  any_many : Item

-- `Array.prototype.join` on pieces of an expression.
unfoldable pub join_items : List Item → List (List Item) → List Item
join_items between [] = []
join_items between (piece ∷ []) = piece
join_items between (piece ∷ next ∷ pieces) = piece ++ between ++ join_items between (next ∷ pieces)

-- `_.escapeRegExp(p)`: every character stands for itself.
unfoldable pub escape : String → List Item
escape p = map literal (codes p)

unfoldable pub wild_one : String → List Item
unfolding escape join_items
wild_one sub = join_items (any_one ∷ []) (map escape (split 63 sub))

unfoldable pub user_regex : String → List Item
unfolding wild_one join_items
user_regex a = join_items (any_many ∷ []) (map wild_one (split 42 a))

-- What `.` does not match: the ends of lines.
unfoldable pub is_line_end : ℕ → Bool
is_line_end c = c == 10 || c == 13 || c == 0x2028 || c == 0x2029

-- `.*` and what follows it.
unfoldable pub skip_many : (List ℕ → Bool) → List ℕ → Bool
unfolding is_line_end
skip_many after [] = after []
skip_many after (c ∷ cs) =
    let later = skip_many after cs in after (c ∷ cs) || (not (is_line_end c) && later)

-- `^...$` on the code units of a text.
unfoldable pub test : (ℕ → ℕ) → List Item → List ℕ → Bool
unfolding is_line_end skip_many
test canonicalize [] [] = true
test canonicalize [] (c ∷ cs) = false
test canonicalize (literal x ∷ items) [] = false
test canonicalize (literal x ∷ items) (c ∷ cs) =
    canonicalize x == canonicalize c && test canonicalize items cs
test canonicalize (any_one ∷ items) [] = false
test canonicalize (any_one ∷ items) (c ∷ cs) = not (is_line_end c) && test canonicalize items cs
test canonicalize (any_many ∷ items) cs = skip_many (test canonicalize items) cs

unfoldable pub compare_with_wildcard : Folding → String → String → Bool
unfolding user_regex test
compare_with_wildcard folding a b = test folding.canonicalize (user_regex a) (codes b)

unfoldable pub compare_hostmask : Folding → Hostmask → Hostmask → Bool
unfolding compare_with_wildcard
compare_hostmask folding a b =
    compare_with_wildcard folding a.nick b.nick
    && compare_with_wildcard folding a.ident b.ident
    && compare_with_wildcard folding a.hostname b.hostname

-- `text || "*"`
unfoldable pub or_star : String → String
or_star text = if str_eq text "" then "*" else text

-- `parts[1] || "*"` and `parts[0]` where there are two parts, else the star and the text itself.
unfoldable pub take_part : String → List String → String × String
unfolding or_star
take_part hostmask (first ∷ second ∷ parts) = (or_star second, first)
take_part hostmask (first ∷ []) = ("*", hostmask)
take_part hostmask [] = ("*", hostmask)

unfoldable pub parse_hostmask : Folding → String → Hostmask
unfolding take_part or_star
parse_hostmask folding hostmask =
    let (hostname, before) = take_part hostmask (split 64 hostmask) in
    let (ident, nick) = take_part before (split 33 before) in
    record {
      nick = or_star (folding.lower nick);
      ident = folding.lower ident;
      hostname = folding.lower hostname;
    }
