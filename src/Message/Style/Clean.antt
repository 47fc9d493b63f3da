-- ===== src/Message/Style/Clean.antt =====
-- `cleanIrcMessage` of shared/irc.ts, which other parts of the program use to get at the text of a
-- message, against the fragments of `parseStyle`.
use mathlib.Core.List.{map-append, reverse}
use thelounge.Common.{
  ℕ, zero, suc, ◌≡◌, refl, sym, ap, ◌∙◌, Bool, ◌||◌, Option, none, some, List, [], ◌∷◌, map, arith,
  ◌==◌, ◌&&◌, leb, All, Option-cases, inl, inr, if◌then◌else◌,
}
use thelounge.Message.Fragment.{Style, Fragment, texts}
use thelounge.Message.Style.Codes.{Control, control_of, match_color, match_hex_color, ColorCodes}
use thelounge.Message.Style.{reset_style, blank_control, restyle, prepare}
use thelounge.Message.Style.Characters.{
  Styled, styled, characters, with_style, characters_skip, characters_plain, characters_code,
}
use thelounge.Message.Style.Prepare.{prepare_lem}

-- The length of an argument that the expression makes optional.
argument_length : Option ColorCodes → ℕ
argument_length none = 0
argument_length (some m) = m.matched

-- `matchFormatting` at a position: the length of the match behind its first character.
unfoldable pub match_formatting : ℕ → List ℕ → Option ℕ
unfolding argument_length
match_formatting c rest =
    if c == 0x02 || c == 0x1d || c == 0x1f || c == 0x16 || c == 0x0f || c == 0x11 || c == 0x1e
    then some 0
    else if c == 0x03
    then some (argument_length (match_color rest))
    else if c == 0x04
    then some (argument_length (match_hex_color rest))
    else none

-- `message.replace(matchFormatting, "")`; the first argument counts what is left of a match.
unfoldable pub strip_formatting : ℕ → List ℕ → List ℕ
strip_formatting skip [] = []
strip_formatting (suc skip) (c ∷ rest) = strip_formatting skip rest
strip_formatting zero (c ∷ rest) = elim (match_formatting c rest) [
  | none ↦ c ∷ strip_formatting zero rest
  | some more ↦ strip_formatting more rest
]

-- White space, as `\s` and `trim` know it.
unfoldable pub is_space : ℕ → Bool
is_space c =
    (leb 9 c && leb c 13)
    || c == 32
    || c == 0xa0
    || c == 0x1680
    || (leb 0x2000 c && leb c 0x200a)
    || c == 0x2028
    || c == 0x2029
    || c == 0x202f
    || c == 0x205f
    || c == 0x3000
    || c == 0xfeff

drop_spaces : List ℕ → List ℕ
drop_spaces [] = []
drop_spaces (c ∷ cs) = if is_space c then drop_spaces cs else c ∷ cs

unfoldable pub trim : List ℕ → List ℕ
unfolding drop_spaces
trim text = reverse (drop_spaces (reverse (drop_spaces text)))

unfoldable pub clean_irc_message : List ℕ → List ℕ
clean_irc_message message = trim (strip_formatting 0 message)

module _ (c : ℕ) (rest : List ℕ) where
  strip_plain :
      match_formatting c rest ≡ none → strip_formatting 0 (c ∷ rest) ≡ c ∷ strip_formatting 0 rest
  unfolding strip_formatting
  strip_plain e = rw (e, strip_formatting)

  strip_code :
      (more : ℕ)
      → match_formatting c rest ≡ some more
      → strip_formatting 0 (c ∷ rest) ≡ strip_formatting more rest
  unfolding strip_formatting
  strip_code more e = rw (e, strip_formatting)

  strip_skip : (skip : ℕ) → strip_formatting (suc skip) (c ∷ rest) ≡ strip_formatting skip rest
  unfolding strip_formatting
  strip_skip skip = refl

text-with_style :
    (style : Style) (text : List ℕ) → map (λ (p : Styled). p.0) (with_style style text) ≡ text
text-with_style style [] = refl
text-with_style style (c ∷ cs) = ap (◌∷◌ c) (text-with_style style cs)

agree_none : (c : ℕ) (rest : List ℕ) → control_of c ≡ none → match_formatting c rest ≡ none
unfolding control_of match_formatting
agree_none c rest e = ground arith

agree_some :
    (c : ℕ) (rest : List ℕ) (k : Control) (style : Style)
    → control_of c ≡ some k
    → match_formatting c rest ≡ some (restyle k rest style).1
unfolding control_of match_formatting restyle
agree_some c rest k style e = ground arith

-- The characters of the reader, without their styles, are what is left by the expression.
text-characters :
    (skip : ℕ) (style : Style) (text : List ℕ)
    → map (λ (p : Styled). p.0) (characters skip style text)
      ≡ map blank_control (strip_formatting skip text)
text-characters skip style [] = unfold characters strip_formatting in refl
text-characters (suc skip) style (c ∷ rest) =
    ap (map (λ (p : Styled). p.0)) (characters_skip c rest (suc skip) skip style refl)
    ∙ text-characters skip style rest
    ∙ ap (map blank_control) (sym (strip_skip c rest skip))
text-characters zero style (c ∷ rest) = elim (Option-cases (control_of c)) [
  | inl plain ↦
      rw (characters_plain c rest 0 style refl plain, strip_plain c rest (agree_none c rest plain))
        (ap (◌∷◌ (blank_control c)) (text-characters 0 style rest))
  | inr (k, code) ↦
      rw
        (
          characters_code c rest 0 style k refl code,
          strip_code c rest (restyle k rest style).1 (agree_some c rest k style code),
        )
        (text-characters (restyle k rest style).1 (restyle k rest style).0 rest)
]

text-styled : (fs : List Fragment) → map (λ (p : Styled). p.0) (styled fs) ≡ texts fs
text-styled [] = refl
text-styled (f ∷ fs) = cc (
  map-append (λ (p : Styled). p.0) (with_style f.style f.text) (styled fs),
  text-with_style f.style f.text,
  text-styled fs,
)

-- The text that a message shows is the message without its styling codes, with control characters as
-- spaces.
pub texts-prepare :
    (text : List ℕ) → texts (prepare text) ≡ map blank_control (strip_formatting 0 text)
texts-prepare text =
    sym (text-styled (prepare text))
    ∙ ap (map (λ (p : Styled). p.0)) (prepare_lem text).0
    ∙ text-characters 0 reset_style text

map_fixed : (cs : List ℕ) → All (λ c. blank_control c ≡ c) cs → map blank_control cs ≡ cs
map_fixed [] h = refl
map_fixed (c ∷ cs) (e, h) = cc (e, map_fixed cs h)

-- Where no control character is left beside the styling codes, the text that a message shows is what
-- `cleanIrcMessage` makes of it, up to the blanks at its ends.
pub clean_irc_message-prepare :
    (text : List ℕ)
    → All (λ c. blank_control c ≡ c) (strip_formatting 0 text)
    → trim (texts (prepare text)) ≡ clean_irc_message text
unfolding clean_irc_message
clean_irc_message-prepare text plain =
    ap trim (texts-prepare text ∙ map_fixed (strip_formatting 0 text) plain)
