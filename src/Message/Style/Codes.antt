-- ===== src/Message/Style/Codes.antt =====
-- The styling codes, and the regular expressions for their arguments.
use thelounge.Common.{
  ℕ, ◌+◌, ◌-◌, ◌*◌, Bool, ◌&&◌, ◌||◌, Option, none, some, List, [], ◌∷◌, length, leb, ◌==◌,
  if◌then◌else◌, drop,
}

pub data Control : Type 0 where
  reset bold color hex_color reverse italic underline strikethrough monospace : Control

unfoldable pub control_of : ℕ → Option Control
control_of c =
    if c == 0x0f
    then some reset
    else if c == 0x02
    then some bold
    else if c == 0x03
    then some color
    else if c == 0x04
    then some hex_color
    else if c == 0x16
    then some reverse
    else if c == 0x1d
    then some italic
    else if c == 0x1f
    then some underline
    else if c == 0x1e
    then some strikethrough
    else if c == 0x11
    then some monospace
    else none

abbrev pub is_digit : ℕ → Bool
is_digit c = leb b'0' c && leb c b'9'

-- `\d{1,2}` at the head of a text: the digits.
unfoldable pub match_digits : List ℕ → Option (List ℕ)
match_digits [] = none
match_digits (c ∷ []) = if is_digit c then some (c ∷ []) else none
match_digits (c ∷ d ∷ rest) =
    if is_digit c then (if is_digit d then some (c ∷ d ∷ []) else some (c ∷ [])) else none

-- With the flag `i`.
abbrev pub is_hex : ℕ → Bool
is_hex c = is_digit c || (leb b'a' c && leb c b'f') || (leb b'A' c && leb c b'F')

-- `[0-9a-f]{6}` at the head of a text.
unfoldable pub match_six : List ℕ → Option (List ℕ)
match_six (a ∷ b ∷ c ∷ d ∷ e ∷ f ∷ rest) =
    if is_hex a && is_hex b && is_hex c && is_hex d && is_hex e && is_hex f
    then some (a ∷ b ∷ c ∷ d ∷ e ∷ f ∷ [])
    else none
match_six _ = none

-- The groups of a match, and its length.
pub record ColorCodes : Type 0 where
  pub first : List ℕ
  pub second : Option (List ℕ)
  pub matched : ℕ

no_second : List ℕ → ColorCodes
no_second first = record { first = first; second = none; matched = length first }

match_second : (List ℕ → Option (List ℕ)) → List ℕ → List ℕ → ColorCodes
unfolding no_second
match_second item first (c ∷ rest) =
    if c == b','
    then elim (item rest) [
      | none ↦ no_second first
      | some second ↦ record {
        first = first;
        second = some second;
        matched = length first + 1 + length second;
      }
    ]
    else no_second first
match_second item first [] = no_second first

-- `^(item)(?:,(item))?`
unfoldable pub match_pair : (List ℕ → Option (List ℕ)) → List ℕ → Option ColorCodes
unfolding match_second
match_pair item text = elim (item text) [
  | none ↦ none
  | some first ↦ some (match_second item first (drop (length first) text))
]

-- `colorRx` and `hexColorRx`
unfoldable pub match_color : List ℕ → Option ColorCodes
unfolding match_pair match_digits
match_color text = match_pair match_digits text

unfoldable pub match_hex_color : List ℕ → Option ColorCodes
unfolding match_pair match_six
match_hex_color text = match_pair match_six text

-- `Number` of a text of digits.
number_from : ℕ → List ℕ → ℕ
number_from n [] = n
number_from n (c ∷ cs) = number_from (n * 10 + (c - b'0')) cs

unfoldable pub number : List ℕ → ℕ
unfolding number_from
number digits = number_from 0 digits

-- `toUpperCase` of a hexadecimal digit.
unfoldable pub to_upper : ℕ → ℕ
to_upper c = if leb b'a' c && leb c b'z' then c - 32 else c
