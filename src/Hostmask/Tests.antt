-- ===== src/Hostmask/Tests.antt =====
-- Hostmasks of server/helper.ts as test/tests/hostmask.ts has them, and the commands of
-- server/plugins/inputs/ignore.ts on a list of one of them.
use thelounge.Common.{◌≡◌, refl, leb, ◌&&◌, if◌then◌else◌, true, false, [], ◌∷◌, codes, ◌-◌}
use thelounge.Common.Texts.{split, extend_first}
use thelounge.Hostmask.{
  Folding, Hostmask, parse_hostmask, compare_hostmask, compare_with_wildcard, user_regex, wild_one,
  escape, join_items, test, skip_many, is_line_end, take_part, or_star,
}
use thelounge.Hostmask.Wildcards.{Matches, compare_with_wildcard_iff}
use thelounge.Hostmask.Ignore.{shown, Ignoring, ignore, unignore, should_ignore, input, run}
use thelounge.Hostmask.Ignore.Shown.{IsLower, parse_hostmask-shown}
use thelounge.Hostmask.Ignore.Laws.{IsIrredundant, run-IsIrredundant, unignore-ignore}

-- `canonicalize` as it is on ASCII; the texts here are in lower case and without blanks.
abbrev folding : Folding
folding = record {
  lower = λ s. s;
  trim = λ s. s;
  canonicalize = λ c. if leb 97 c && leb c 122 then c - 32 else c;
}

parsed :
    parse_hostmask folding "nick!user@host"
    ≡ record { nick = "nick"; ident = "user"; hostname = "host" }
unfolding parse_hostmask take_part or_star split extend_first
parsed = refl

parsed_host : parse_hostmask folding "@host" ≡ record { nick = "*"; ident = "*"; hostname = "host" }
unfolding parse_hostmask take_part or_star split extend_first
parsed_host = refl

case_insensitive : compare_with_wildcard folding "AsDf" "asdf" ≡ true
unfolding compare_with_wildcard user_regex wild_one escape join_items split extend_first test
    skip_many is_line_end
case_insensitive = refl

middle : compare_with_wildcard folding "a?df*" "asdf" ≡ true
unfolding compare_with_wildcard user_regex wild_one escape join_items split extend_first test
    skip_many is_line_end
middle = refl

one_at_least : compare_with_wildcard folding "*?*" "" ≡ false
unfolding compare_with_wildcard user_regex wild_one escape join_items split extend_first test
    skip_many is_line_end
one_at_least = refl

compare_with_wildcard_iff_example : Matches folding.canonicalize (codes "a?d*") (codes "asdf")
unfolding compare_with_wildcard user_regex wild_one escape join_items split extend_first test
    skip_many is_line_end
compare_with_wildcard_iff_example = (compare_with_wildcard_iff folding "a?d*" "asdf").0 refl

abbrev nobody : Ignoring
nobody = record {
  nick = "me";
  ignore_list =
      record { mask = record { nick = "spam*"; ident = "*"; hostname = "*" }; when = 5 } ∷ [];
}

abbrev eve : Hostmask
eve = record { nick = "eve"; ident = "*"; hostname = "bad.host" }

unignore-ignore_example :
    (should_ignore folding (input folding 8 ignore ("eve@bad.host" ∷ []) nobody).0.ignore_list eve
      ≡ true)
    × ((input folding 9 unignore
          ("eve@bad.host" ∷ [])
          (input folding 8 ignore ("eve@bad.host" ∷ []) nobody).0).0
        ≡ nobody)
unfolding parse_hostmask take_part or_star should_ignore compare_hostmask split
unignore-ignore_example = unignore-ignore folding 8 9 "eve@bad.host" [] nobody refl refl refl

run-IsIrredundant_example :
    IsIrredundant folding
      (run folding
        ((8, ignore, "eve@bad.host" ∷ [])
          ∷ (9, ignore, "eve@bad.host" ∷ [])
          ∷ (10, unignore, "spammer" ∷ [])
          ∷ [])
        nobody).ignore_list
run-IsIrredundant_example =
    run-IsIrredundant folding
      ((8, ignore, "eve@bad.host" ∷ [])
        ∷ (9, ignore, "eve@bad.host" ∷ [])
        ∷ (10, unignore, "spammer" ∷ [])
        ∷ [])
      nobody (tt, tt)

same_text-IsLower : IsLower (λ s. s)
same_text-IsLower = record {
  again = λ s. refl;
  star = refl;
  no_mark = λ s h. h;
  no_at = λ s h. h;
  some_text = λ s h. h;
}

parse_hostmask-shown_example :
    parse_hostmask folding (shown (parse_hostmask folding "eve@a@b!c"))
    ≡ parse_hostmask folding "eve@a@b!c"
parse_hostmask-shown_example = parse_hostmask-shown folding "eve@a@b!c" same_text-IsLower
