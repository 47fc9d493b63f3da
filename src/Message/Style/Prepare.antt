-- ===== src/Message/Style/Prepare.antt =====
-- What `prepare` does to the fragments of `parseStyle`: joins those of one style, and no more.
use mathlib.Core.List.{append_assoc, append-nil, map-append}
use thelounge.Common.{
  ℕ, ◌+◌, ◌≡◌, ◌≢◌, refl, sym, ap, ◌∙◌, subst, List, [], ◌∷◌, ◌++◌, map, length, arith, Bool-cases,
  inl, inr, length-append,
}
use thelounge.Message.Fragment.{Fragment, texts, FragmentsTile, length-texts}
use thelounge.Message.Style.{reset_style, parse_style, join_last, join_all, prepare}
use thelounge.Message.Style.Characters.{styled, characters, styled-parse_style}
use thelounge.Message.Style.Tiling.{parse_style-FragmentsTile}
use thelounge.Message.Style.Equality.{style_eq, style_eq_iff}

-- Of two fragments that follow one another, the styles differ.
abbrev pub Alternates : List Fragment → Type 0
Alternates [] = Unit
Alternates (f ∷ []) = Unit
Alternates (f ∷ g ∷ fs) = (g.style ≢ f.style) × Alternates (g ∷ fs)

-- The first fragment stays, or grows under its style.
join_last_head :
    (f : Fragment) (fs : List Fragment) (curr : Fragment)
    → (g : Fragment) × (gs : List Fragment) × (join_last (f ∷ fs) curr ≡ g ∷ gs)
      × (g.style ≡ f.style)
unfolding join_last
join_last_head f [] curr = elim (Bool-cases (style_eq curr.style f.style)) [
  | inl same ↦
      (record f { text = f.text ++ curr.text; end = f.end + length curr.text }, [], rw same, refl)
  | inr other ↦ (f, curr ∷ [], rw other, refl)
]
join_last_head f (g ∷ fs) curr = (f, join_last (g ∷ fs) curr, refl, refl)

join_last-Alternates :
    (prev : List Fragment) (curr : Fragment) → Alternates prev → Alternates (join_last prev curr)
unfolding join_last
join_last-Alternates [] curr a = tt
join_last-Alternates (f ∷ []) curr a = elim (Bool-cases (style_eq curr.style f.style)) [
  | inl same ↦ rw same tt
  | inr other ↦ rw other (λ e. cc (other, (style_eq_iff curr.style f.style).1 e), tt)
]
join_last-Alternates (f ∷ g ∷ fs) curr (ne, a) =
    let (h, hs, e, style) = join_last_head g fs curr in
    subst (λ l. Alternates (f ∷ l)) (sym e)
      (λ s. ne (sym style ∙ s), subst Alternates e (join_last-Alternates (g ∷ fs) curr a))

styled-join_last :
    (prev : List Fragment) (curr : Fragment)
    → styled (join_last prev curr) ≡ styled prev ++ styled (curr ∷ [])
unfolding join_last
styled-join_last [] curr = refl
styled-join_last (f ∷ []) curr = elim (Bool-cases (style_eq curr.style f.style)) [
  | inl same ↦
      rw same
        (simp (map-append, append_assoc, append-nil, (style_eq_iff curr.style f.style).0 same))
  | inr other ↦ rw other (simp append-nil)
]
styled-join_last (f ∷ g ∷ fs) curr = cc (
  styled-join_last (g ∷ fs) curr,
  append_assoc (map (λ c. (c, f.style)) f.text) (styled (g ∷ fs)) (styled (curr ∷ [])),
)

join_last-FragmentsTile :
    (lo mid : ℕ) (prev : List Fragment) (curr : Fragment)
    → FragmentsTile lo prev mid
    → FragmentsTile mid (curr ∷ []) curr.end
    → FragmentsTile lo (join_last prev curr) curr.end
unfolding join_last
join_last-FragmentsTile lo mid [] curr t u = omega arith
join_last-FragmentsTile lo mid (f ∷ []) curr t u = elim (Bool-cases (style_eq curr.style f.style)) [
  | inl same ↦ rw same (omega (arith, length-append f.text curr.text))
  | inr other ↦ rw other (omega arith)
]
join_last-FragmentsTile lo mid (f ∷ g ∷ fs) curr (a, b, c, t) u =
    (a, b, c, join_last-FragmentsTile f.end mid (g ∷ fs) curr t u)

styled-join_all :
    (prev rest : List Fragment) → styled (join_all prev rest) ≡ styled prev ++ styled rest
unfolding join_all
styled-join_all prev [] = sym (append-nil (styled prev))
styled-join_all prev (f ∷ fs) =
    styled-join_all (join_last prev f) fs
    ∙ ap (λ l. l ++ styled fs) (styled-join_last prev f)
    ∙ simp (append_assoc, append-nil)

join_all-FragmentsTile :
    (mid : ℕ) (prev rest : List Fragment) (hi : ℕ)
    → FragmentsTile 0 prev mid
    → FragmentsTile mid rest hi
    → FragmentsTile 0 (join_all prev rest) hi
unfolding join_all
join_all-FragmentsTile mid prev [] hi t u = subst (FragmentsTile 0 prev) u t
join_all-FragmentsTile mid prev (f ∷ fs) hi t (a, b, c, u) =
    join_all-FragmentsTile f.end (join_last prev f) fs hi
      (join_last-FragmentsTile 0 mid prev f t (a, b, c, refl)) u

join_all-Alternates :
    (prev rest : List Fragment) → Alternates prev → Alternates (join_all prev rest)
unfolding join_all
join_all-Alternates prev [] a = a
join_all-Alternates prev (f ∷ fs) a =
    join_all-Alternates (join_last prev f) fs (join_last-Alternates prev f a)

-- The fragments that `prepare` returns show each character of the message that is no part of a
-- styling code, in the style in force there, and no two neighbours have the same style.
pub prepare_lem :
    (text : List ℕ)
    → (styled (prepare text) ≡ characters 0 reset_style text) × Alternates (prepare text)
unfolding prepare
prepare_lem text = (
  styled-join_all [] (parse_style text) ∙ styled-parse_style text,
  join_all-Alternates [] (parse_style text) tt,
)

-- They too follow one another from position 0 with no gap, with texts of their lengths.
pub prepare-FragmentsTile :
    (text : List ℕ) → FragmentsTile 0 (prepare text) (length (texts (prepare text)))
unfolding prepare
prepare-FragmentsTile text =
    subst (FragmentsTile 0 (prepare text))
      (sym (omega (arith, length-texts 0 (prepare text) _ tiled))) tiled
  where
    tiled : FragmentsTile 0 (prepare text) (length (texts (parse_style text)))
    tiled = join_all-FragmentsTile 0 [] (parse_style text) _ refl (parse_style-FragmentsTile text)
