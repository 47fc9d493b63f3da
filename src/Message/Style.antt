-- ===== src/Message/Style.antt =====
-- client/js/helpers/ircmessageparser/parseStyle.ts: the styling codes of a message.
pub mod Codes
pub mod Characters
pub mod Tiling
pub mod Equality
pub mod Prepare
pub mod Clean
use thelounge.Common.{
  ℕ, ◌+◌, ◌-◌, ◌*◌, Bool, true, false, not, ◌&&◌, ◌||◌, Option, none, some, List, [], ◌∷◌, ◌++◌,
  map, length, ltb, leb, ◌==◌, if◌then◌else◌,
}
use thelounge.Message.Fragment.{Style, Fragment}
use thelounge.Message.Style.Codes.{
  Control, reset, bold, color, hex_color, reverse, italic, underline, strikethrough, monospace,
  control_of, match_color, match_hex_color, ColorCodes, number, to_upper,
}
use thelounge.Message.Style.Equality.{style_eq}

abbrev pub reset_style : Style
reset_style = record {
  bold = false;
  text_color = none;
  bg_color = none;
  hex_color = none;
  hex_bg_color = none;
  italic = false;
  underline = false;
  strikethrough = false;
  monospace = false;
}

-- The local variables of `parseStyle`. `pending` is `text.slice(start, position)`, and `skip` counts
-- the characters that `position += colorCodes[0].length` has still to pass.
pub record Cursor : Type 0 where
  pub style : Style
  pub pending : List ℕ
  pub skip : ℕ
  pub result : List Fragment

-- `controlCodesRx`, replaced by a space.
unfoldable pub blank_control : ℕ → ℕ
blank_control c = if leb c 9 || (leb 11 c && leb c 31) then b' ' else c

-- `result.length ? result[result.length - 1].end : 0`
unfoldable pub last_end : ℕ → List Fragment → ℕ
last_end n [] = n
last_end n (f ∷ fs) = last_end f.end fs

add_fragment : Style → List ℕ → List Fragment → List Fragment
add_fragment style [] result = result
add_fragment style (c ∷ cs) result =
    let start = last_end 0 result in
    result
    ++ record { style = style; text = c ∷ cs; start = start; end = start + length (c ∷ cs) } ∷ []

unfoldable pub emit_fragment : Cursor → Cursor
unfolding add_fragment
emit_fragment s = record s {
  result = add_fragment s.style (map blank_control s.pending) s.result;
  pending = [];
}

with_color : Option ColorCodes → Style → Style × ℕ
with_color none s = (record s { text_color = none; bg_color = none }, 0)
with_color (some m) s = elim m.second [
  | none ↦ (record s { text_color = some (number m.first) }, m.matched)
  | some bg ↦
      (record s { text_color = some (number m.first); bg_color = some (number bg) }, m.matched)
]

with_hex_color : Option ColorCodes → Style → Style × ℕ
with_hex_color none s = (record s { hex_color = none; hex_bg_color = none }, 0)
with_hex_color (some m) s = elim m.second [
  | none ↦ (record s { hex_color = some (map to_upper m.first) }, m.matched)
  | some bg ↦ (
    record s { hex_color = some (map to_upper m.first); hex_bg_color = some (map to_upper bg) },
    m.matched,
  )
]

-- What a styling code does after `emitFragment`: the new style, and the length of its argument.
unfoldable pub restyle : Control → List ℕ → Style → Style × ℕ
unfolding with_color with_hex_color
restyle reset rest s = (reset_style, 0)
restyle bold rest s = (record s { bold = not s.bold }, 0)
restyle color rest s = with_color (match_color rest) s
restyle hex_color rest s = with_hex_color (match_hex_color rest) s
restyle reverse rest s = (record s { bg_color = s.text_color; text_color = s.bg_color }, 0)
restyle italic rest s = (record s { italic = not s.italic }, 0)
restyle underline rest s = (record s { underline = not s.underline }, 0)
restyle strikethrough rest s = (record s { strikethrough = not s.strikethrough }, 0)
restyle monospace rest s = (record s { monospace = not s.monospace }, 0)

-- The `switch` on `text[position]`; `rest` is the text behind it.
read_control : Option Control → ℕ → List ℕ → Cursor → Cursor
read_control none c rest s = record s { pending = s.pending ++ c ∷ [] }
read_control (some k) c rest s =
    let (style, skip) = restyle k rest s.style in
    record (emit_fragment s) { style = style; skip = skip }

unfoldable pub read_char : ℕ → List ℕ → Cursor → Cursor
unfolding read_control
read_char c rest s =
    if ltb 0 s.skip then record s { skip = s.skip - 1 } else read_control (control_of c) c rest s

unfoldable pub parse_loop : List ℕ → Cursor → Cursor
parse_loop [] s = s
parse_loop (c ∷ rest) s = parse_loop rest (read_char c rest s)

abbrev pub start_cursor : Cursor
start_cursor = record { style = reset_style; pending = []; skip = 0; result = [] }

unfoldable pub parse_style : List ℕ → List Fragment
parse_style text = (emit_fragment (parse_loop text start_cursor)).result

-- One round of the `reduce` of `prepare`: a fragment of the style of the last one joins it.
unfoldable pub join_last : List Fragment → Fragment → List Fragment
join_last [] curr = curr ∷ []
join_last (last ∷ []) curr =
    if style_eq curr.style last.style
    then record last { text = last.text ++ curr.text; end = last.end + length curr.text } ∷ []
    else last ∷ curr ∷ []
join_last (f ∷ g ∷ fs) curr = f ∷ join_last (g ∷ fs) curr

unfoldable pub join_all : List Fragment → List Fragment → List Fragment
join_all prev [] = prev
join_all prev (curr ∷ rest) = join_all (join_last prev curr) rest

unfoldable pub prepare : List ℕ → List Fragment
prepare text = join_all [] (parse_style text)
