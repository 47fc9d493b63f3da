-- ===== src/Message/Style/Tiling.antt =====
-- The positions of the fragments of `parseStyle`.
use thelounge.Common.{
  ℕ, zero, suc, ◌≡◌, refl, sym, subst, Option, none, some, List, [], ◌∷◌, ◌++◌, map, length, arith,
}
use thelounge.Message.Fragment.{
  Style, Fragment, texts, length-texts, FragmentsTile, FragmentsTile-concat,
}
use thelounge.Message.Style.Codes.{Control, control_of}
use thelounge.Message.Style.{
  Cursor, blank_control, last_end, add_fragment, emit_fragment, read_char, parse_loop, start_cursor,
  parse_style,
}
use thelounge.Message.Style.Characters.{read_char_skip, read_char_plain, read_char_code}

-- The fragments tile the positions up to the end of the last one.
abbrev IsTiled : List Fragment → Type 0
IsTiled result = FragmentsTile 0 result (last_end 0 result)

last_end-concat : (n : ℕ) (fs : List Fragment) (f : Fragment) → last_end n (fs ++ f ∷ []) ≡ f.end
unfolding last_end
last_end-concat n [] f = refl
last_end-concat n (g ∷ gs) f = last_end-concat g.end gs f

FragmentsTile-add_fragment :
    (style : Style) (text : List ℕ) (result : List Fragment)
    → IsTiled result
    → IsTiled (add_fragment style text result)
unfolding add_fragment
FragmentsTile-add_fragment style [] result t = t
FragmentsTile-add_fragment style (c ∷ cs) result t =
    subst (FragmentsTile 0 _) (sym (last_end-concat 0 result _))
      (FragmentsTile-concat 0 result (last_end 0 result) _ t refl (omega arith) (omega arith))

FragmentsTile-emit_fragment : (s : Cursor) → IsTiled s.result → IsTiled (emit_fragment s).result
unfolding emit_fragment
FragmentsTile-emit_fragment s t =
    FragmentsTile-add_fragment s.style (map blank_control s.pending) s.result t

FragmentsTile-read_char :
    (c : ℕ) (rest : List ℕ) (s : Cursor) → IsTiled s.result → IsTiled (read_char c rest s).result
FragmentsTile-read_char c rest s t = step s.skip refl (control_of c) refl
  where
    Keeps : Cursor → Type 0
    Keeps s' = IsTiled s'.result

    step :
        (n : ℕ) → s.skip ≡ n → (o : Option Control) → control_of c ≡ o → Keeps (read_char c rest s)
    step (suc k) e o f = subst Keeps (sym (read_char_skip c rest s k e)) t
    step zero e none f = subst Keeps (sym (read_char_plain c rest s e f)) t
    step zero e (some k) f =
        subst Keeps (sym (read_char_code c rest s k e f)) (FragmentsTile-emit_fragment s t)

FragmentsTile-parse_loop :
    (text : List ℕ) (s : Cursor) → IsTiled s.result → IsTiled (parse_loop text s).result
unfolding parse_loop
FragmentsTile-parse_loop [] s t = t
FragmentsTile-parse_loop (c ∷ rest) s t =
    FragmentsTile-parse_loop rest (read_char c rest s) (FragmentsTile-read_char c rest s t)

-- The fragments of `parseStyle` follow one another from position 0 with no gap, none is empty, and
-- the length of each is that of its text.
pub parse_style-FragmentsTile :
    (text : List ℕ) → FragmentsTile 0 (parse_style text) (length (texts (parse_style text)))
unfolding parse_style
parse_style-FragmentsTile text = subst (FragmentsTile 0 (parse_style text)) total tiled
  where
    tiled : IsTiled (parse_style text)
    tiled =
        FragmentsTile-emit_fragment (parse_loop text start_cursor)
          (FragmentsTile-parse_loop text start_cursor (unfold last_end in refl))

    total : last_end 0 (parse_style text) ≡ length (texts (parse_style text))
    total = omega (arith, length-texts 0 (parse_style text) _ tiled)
