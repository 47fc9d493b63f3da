-- ===== src/Message/Style/Characters.antt =====
-- The characters that a message shows, each with its style, read one by one; and the fragments of
-- `parseStyle` against them.
use mathlib.Core.List.{append_assoc, append-nil, map-append}
use thelounge.Common.{
  ℕ, zero, suc, ◌≡◌, refl, sym, ap, subst, ◌∙◌, Option, none, some, List, [], ◌∷◌, ◌++◌, map, arith,
}
use thelounge.Message.Fragment.{Style, Fragment}
use thelounge.Message.Style.Codes.{Control, control_of}
use thelounge.Message.Style.{
  Cursor, reset_style, blank_control, add_fragment, emit_fragment, restyle, read_char, parse_loop,
  start_cursor, parse_style,
}

abbrev pub Styled : Type 0
Styled = ℕ × Style

-- The characters of the fragments, each with the style of its fragment.
abbrev pub with_style : Style → List ℕ → List Styled
with_style s = map (λ c. (c, s))

abbrev pub styled : List Fragment → List Styled
styled [] = []
styled (f ∷ fs) = with_style f.style f.text ++ styled fs

-- A reader with no fragments: it passes the argument of a code, changes the style at a code, and
-- gives any other character the style in force.
unfoldable pub characters : ℕ → Style → List ℕ → List Styled
characters skip style [] = []
characters (suc skip) style (c ∷ rest) = characters skip style rest
characters zero style (c ∷ rest) = elim (control_of c) [
  | none ↦ (blank_control c, style) ∷ characters zero style rest
  | some k ↦ let (style', skip) = restyle k rest style in characters skip style' rest
]

styled-append : (fs gs : List Fragment) → styled (fs ++ gs) ≡ styled fs ++ styled gs
styled-append [] gs = refl
styled-append (f ∷ fs) gs =
    cc (styled-append fs gs, append_assoc (with_style f.style f.text) (styled fs) (styled gs))

-- What the fragments so far and the pending text show.
abbrev seen : Cursor → List Styled
seen s = styled s.result ++ with_style s.style (map blank_control s.pending)

styled-add_fragment :
    (style : Style) (text : List ℕ) (result : List Fragment)
    → styled (add_fragment style text result) ≡ styled result ++ with_style style text
unfolding add_fragment
styled-add_fragment style [] result = sym (append-nil (styled result))
styled-add_fragment style (c ∷ cs) result =
    styled-append result _
    ∙ ap (λ rest. styled result ++ (c, style) ∷ rest) (append-nil (with_style style cs))

styled-emit_fragment : (s : Cursor) → styled (emit_fragment s).result ≡ seen s
unfolding emit_fragment
styled-emit_fragment s = styled-add_fragment s.style (map blank_control s.pending) s.result

seen-emit_fragment :
    (s : Cursor) (style : Style) (skip : ℕ)
    → seen (record (emit_fragment s) { style = style; skip = skip }) ≡ seen s
unfolding emit_fragment
seen-emit_fragment s style skip =
    append-nil _ ∙ styled-add_fragment s.style (map blank_control s.pending) s.result

-- A character that is no code joins the pending text.
seen-push :
    (s : Cursor) (c : ℕ) (tail : List Styled)
    → seen (record s { pending = s.pending ++ c ∷ [] }) ++ tail
      ≡ seen s ++ (blank_control c, s.style) ∷ tail
seen-push s c tail = simp (map-append, append_assoc)

-- One step of each reader, by what it meets.
module _ (c : ℕ) (rest : List ℕ) where
  pub characters_skip :
      (n k : ℕ) (style : Style)
      → n ≡ suc k
      → characters n style (c ∷ rest) ≡ characters k style rest
  characters_skip n k style e = rw e (unfold characters in refl)

  pub characters_plain :
      (n : ℕ) (style : Style)
      → n ≡ 0
      → control_of c ≡ none
      → characters n style (c ∷ rest) ≡ (blank_control c, style) ∷ characters 0 style rest
  characters_plain n style e f = rw e (unfold characters in rw (f, characters))

  pub characters_code :
      (n : ℕ) (style : Style) (k : Control)
      → n ≡ 0
      → control_of c ≡ some k
      → characters n style (c ∷ rest)
        ≡ characters (restyle k rest style).1 (restyle k rest style).0 rest
  characters_code n style k e f = rw e (unfold characters in rw (f, characters))

  module _ (s : Cursor) where
    pub read_char_skip : (k : ℕ) → s.skip ≡ suc k → read_char c rest s ≡ record s { skip = k }
    unfolding read_char
    read_char_skip k e = ground arith

    pub read_char_plain :
        s.skip ≡ 0
        → control_of c ≡ none
        → read_char c rest s ≡ record s { pending = s.pending ++ c ∷ [] }
    unfolding read_char
    read_char_plain e f = ground arith

    pub read_char_code :
        (k : Control)
        → s.skip ≡ 0
        → control_of c ≡ some k
        → read_char c rest s ≡ record (emit_fragment s) {
          style = (restyle k rest s.style).0;
          skip = (restyle k rest s.style).1;
        }
    unfolding read_char
    read_char_code k e f = ground arith

    -- Whatever the next character is, what was seen and what is still to be read stay together.
    seen-read_char :
        (seen (read_char c rest s)
          ++ characters (read_char c rest s).skip (read_char c rest s).style rest)
        ≡ seen s ++ characters s.skip s.style (c ∷ rest)
    seen-read_char = step s.skip refl (control_of c) refl
      where
        Agrees : Cursor → Type 0
        Agrees t =
            (seen t ++ characters t.skip t.style rest)
            ≡ seen s ++ characters s.skip s.style (c ∷ rest)

        step :
            (n : ℕ)
            → s.skip ≡ n
            → (o : Option Control) → control_of c ≡ o
            → Agrees (read_char c rest s)
        step (suc k) e o f =
            subst Agrees (sym (read_char_skip k e))
              (ap (λ tail. seen s ++ tail) (sym (characters_skip s.skip k s.style e)))
        step zero e none f = subst Agrees (sym (read_char_plain e f)) (
            rw (characters_plain s.skip s.style e f) (
              cc (
                seen-push s c (characters s.skip s.style rest),
                ap (λ n. characters n s.style rest) e,
              )))
        step zero e (some k) f = subst Agrees (sym (read_char_code k e f)) (
            rw (characters_code s.skip s.style k e f) (
              ap (λ l. l ++ characters (restyle k rest s.style).1 (restyle k rest s.style).0 rest)
                (seen-emit_fragment s (restyle k rest s.style).0 (restyle k rest s.style).1)))

seen-parse_loop :
    (text : List ℕ) (s : Cursor)
    → seen (parse_loop text s) ≡ seen s ++ characters s.skip s.style text
unfolding parse_loop characters
seen-parse_loop [] s = sym (append-nil (seen s))
seen-parse_loop (c ∷ rest) s = seen-parse_loop rest (read_char c rest s) ∙ seen-read_char c rest s

-- The fragments of `parseStyle` show, in order, exactly the characters of the message that are no
-- part of a styling code, a control character as a space, each in the style that the codes before
-- it have set.
pub styled-parse_style : (text : List ℕ) → styled (parse_style text) ≡ characters 0 reset_style text
unfolding parse_style
styled-parse_style text =
    styled-emit_fragment (parse_loop text start_cursor) ∙ seen-parse_loop text start_cursor
