-- ===== src/Message/Style/Equality.antt =====
-- `properties.every((key) => curr[key] === lastEntry[key])`
use mathlib.Core.Bool.{and-eq-true_iff}
use thelounge.Common.{
  subst, ℕ, ◌≡◌, ◌↔◌, refl, Bool, true, false, ◌&&◌, Option, none, some, List, [], ◌∷◌, ◌==◌, arith,
}
use thelounge.Message.Fragment.{Style}

unfoldable pub flag_eq : Bool → Bool → Bool
flag_eq true b = b
flag_eq false true = false
flag_eq false false = true

unfoldable pub text_eq : List ℕ → List ℕ → Bool
text_eq [] [] = true
text_eq (a ∷ as') (b ∷ bs) = a == b && text_eq as' bs
text_eq _ _ = false

unfoldable pub color_eq : Option ℕ → Option ℕ → Bool
color_eq none none = true
color_eq (some a) (some b) = a == b
color_eq _ _ = false

unfoldable pub hex_eq : Option (List ℕ) → Option (List ℕ) → Bool
hex_eq none none = true
hex_eq (some a) (some b) = text_eq a b
hex_eq _ _ = false

unfoldable pub style_eq : Style → Style → Bool
style_eq a b =
    flag_eq a.bold b.bold
    && color_eq a.text_color b.text_color
    && color_eq a.bg_color b.bg_color
    && hex_eq a.hex_color b.hex_color
    && hex_eq a.hex_bg_color b.hex_bg_color
    && flag_eq a.italic b.italic
    && flag_eq a.underline b.underline
    && flag_eq a.strikethrough b.strikethrough
    && flag_eq a.monospace b.monospace

flag_eq_iff : (a b : Bool) → (flag_eq a b ≡ true) ↔ (a ≡ b)
unfolding flag_eq
flag_eq_iff a b = ground arith

text_eq_iff : (a b : List ℕ) → (text_eq a b ≡ true) ↔ (a ≡ b)
unfolding text_eq
text_eq_iff [] [] = ground arith
text_eq_iff (a ∷ as') (b ∷ bs) = ground (arith, text_eq_iff as' bs)
text_eq_iff _ _ = ground arith

color_eq_iff : (a b : Option ℕ) → (color_eq a b ≡ true) ↔ (a ≡ b)
unfolding color_eq
color_eq_iff none none = ground arith
color_eq_iff (some a) (some b) = ground arith
color_eq_iff _ _ = ground arith

hex_eq_iff : (a b : Option (List ℕ)) → (hex_eq a b ≡ true) ↔ (a ≡ b)
unfolding hex_eq
hex_eq_iff none none = ground arith
hex_eq_iff (some a) (some b) = ground (arith, text_eq_iff a b)
hex_eq_iff _ _ = ground arith

style_eq_refl : (a : Style) → style_eq a a ≡ true
unfolding style_eq
style_eq_refl a =
    rw
      (
        (flag_eq_iff a.bold a.bold).1 refl,
        (color_eq_iff a.text_color a.text_color).1 refl,
        (color_eq_iff a.bg_color a.bg_color).1 refl,
        (hex_eq_iff a.hex_color a.hex_color).1 refl,
        (hex_eq_iff a.hex_bg_color a.hex_bg_color).1 refl,
        (flag_eq_iff a.italic a.italic).1 refl,
        (flag_eq_iff a.underline a.underline).1 refl,
        (flag_eq_iff a.strikethrough a.strikethrough).1 refl,
      )
      ((flag_eq_iff a.monospace a.monospace).1 refl)

style_eq_sound : (a b : Style) → style_eq a b ≡ true → a ≡ b
unfolding style_eq
style_eq_sound a b h =
    let (h₁, monospace) = (and-eq-true_iff _ _).0 h in
    let (h₂, strikethrough) = (and-eq-true_iff _ _).0 h₁ in
    let (h₃, underline) = (and-eq-true_iff _ _).0 h₂ in
    let (h₄, italic) = (and-eq-true_iff _ _).0 h₃ in
    let (h₅, hex_bg_color) = (and-eq-true_iff _ _).0 h₄ in
    let (h₆, hex_color) = (and-eq-true_iff _ _).0 h₅ in
    let (h₇, bg_color) = (and-eq-true_iff _ _).0 h₆ in
    let (bold, text_color) = (and-eq-true_iff _ _).0 h₇ in
    λ i. record {
      bold = (flag_eq_iff a.bold b.bold).0 bold i;
      text_color = (color_eq_iff a.text_color b.text_color).0 text_color i;
      bg_color = (color_eq_iff a.bg_color b.bg_color).0 bg_color i;
      hex_color = (hex_eq_iff a.hex_color b.hex_color).0 hex_color i;
      hex_bg_color = (hex_eq_iff a.hex_bg_color b.hex_bg_color).0 hex_bg_color i;
      italic = (flag_eq_iff a.italic b.italic).0 italic i;
      underline = (flag_eq_iff a.underline b.underline).0 underline i;
      strikethrough = (flag_eq_iff a.strikethrough b.strikethrough).0 strikethrough i;
      monospace = (flag_eq_iff a.monospace b.monospace).0 monospace i;
    }

-- The comparison decides equality of styles.
pub style_eq_iff : (a b : Style) → (style_eq a b ≡ true) ↔ (a ≡ b)
style_eq_iff a b = (style_eq_sound a b, λ e. subst (λ c. style_eq a c ≡ true) e (style_eq_refl a))
