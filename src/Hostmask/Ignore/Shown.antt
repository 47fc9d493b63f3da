-- ===== src/Hostmask/Ignore/Shown.antt =====
-- server/helper.ts and server/plugins/inputs/ignore.ts: what /ignore shows of a mask, parsed again.
use Prim.Native.Char.{Char, code}
use Prim.Native.String.{String, ◌++◌ as append}
use Prim.Native.String.append.{nil, cons}
use thelounge.Common.{
  ℕ, ◌≡◌, refl, ap, true, false, List, [], ◌∷◌, All, Bool-cases, arith, str_eq, ◌==◌, inl, inr,
  subst, ◌∙◌,
}
use thelounge.Common.Texts.{
  split, extend_first, has_char, split-has_char, split-cases, has_char-append, has_char-split,
  split-cases,
}
use thelounge.Hostmask.{Folding, Hostmask, or_star, take_part, parse_hostmask}
use thelounge.Hostmask.Ignore.{shown}

split-free : (sep : ℕ) (s : String) → has_char sep s ≡ false → split sep s ≡ s ∷ []
unfolding split has_char extend_first
split-free sep String.[] h = refl
split-free sep (String.◌∷◌ c s) h = elim (Bool-cases (code c == sep)) [
  | inl e ↦ ground (arith, h, e)
  | inr e ↦ rw (e, split-free sep s (rw e at h)) refl
]

split-append :
    (sep : Char) (a b : String)
    → has_char (code sep) a ≡ false
    → split (code sep) (append a (String.◌∷◌ sep b)) ≡ a ∷ split (code sep) b
unfolding split has_char extend_first
split-append sep String.[] b h = rw (nil (String.◌∷◌ sep b)) (ground arith)
split-append sep (String.◌∷◌ c a) b h = elim (Bool-cases (code c == code sep)) [
  | inl e ↦ ground (arith, h, e)
  | inr e ↦ rw (cons c a (String.◌∷◌ sep b), e, split-append sep a b (rw e at h)) refl
]

take_part-free :
    (sep : ℕ) (s : String) → has_char sep s ≡ false → take_part s (split sep s) ≡ ("*", s)
unfolding take_part
take_part-free sep s h = rw (split-free sep s h) refl

take_part-append :
    (sep : Char) (a b : String)
    → has_char (code sep) a ≡ false
    → has_char (code sep) b ≡ false
    → str_eq b "" ≡ false
    → take_part (append a (String.◌∷◌ sep b)) (split (code sep) (append a (String.◌∷◌ sep b)))
      ≡ (b, a)
unfolding take_part or_star
take_part-append sep a b h h' n = rw (split-append sep a b h, split-free (code sep) b h', n) refl

-- What is documented of `toLowerCase`: it does not change its own result, nor a star; no character
-- becomes an exclamation mark or an at sign, and no text becomes empty.
pub record IsLower (lower : String → String) : Type 0 where
  pub again : (s : String) → lower (lower s) ≡ lower s
  pub star : lower "*" ≡ "*"
  pub no_mark : (s : String) → has_char 33 s ≡ false → has_char 33 (lower s) ≡ false
  pub no_at : (s : String) → has_char 64 s ≡ false → has_char 64 (lower s) ≡ false
  pub some_text : (s : String) → str_eq s "" ≡ false → str_eq (lower s) "" ≡ false

-- The masks that the code can tell the parts of.
record IsPlain (lower : String → String) (mask : Hostmask) : Type 0 where
  nick_lower : lower mask.nick ≡ mask.nick
  ident_lower : lower mask.ident ≡ mask.ident
  hostname_lower : lower mask.hostname ≡ mask.hostname
  nick_mark : has_char 33 mask.nick ≡ false
  nick_at : has_char 64 mask.nick ≡ false
  ident_mark : has_char 33 mask.ident ≡ false
  ident_at : has_char 64 mask.ident ≡ false
  hostname_at : has_char 64 mask.hostname ≡ false
  nick_some : str_eq mask.nick "" ≡ false
  ident_some : str_eq mask.ident "" ≡ false
  hostname_some : str_eq mask.hostname "" ≡ false

append-one : (c : Char) (s : String) → append (String.◌∷◌ c String.[]) s ≡ String.◌∷◌ c s
append-one c s = cons c String.[] s ∙ ap (String.◌∷◌ c) (nil s)

shown-cons :
    (mask : Hostmask)
    → shown mask
      ≡ append (append mask.nick (String.◌∷◌ "!" mask.ident)) (String.◌∷◌ "@" mask.hostname)
unfolding shown
shown-cons mask = rw (append-one "!" mask.ident, append-one "@" mask.hostname) refl

nick_ident-no_at :
    (nick ident : String)
    → has_char 64 nick ≡ false
    → has_char 64 ident ≡ false
    → has_char 64 (append nick (String.◌∷◌ "!" ident)) ≡ false
unfolding has_char
nick_ident-no_at nick ident h h' =
    ground (arith, has_char-append 64 nick (String.◌∷◌ "!" ident), h, h')

parse_hostmask-of_IsPlain :
    (folding : Folding) (mask : Hostmask)
    → IsPlain folding.lower mask
    → parse_hostmask folding (shown mask) ≡ mask
unfolding parse_hostmask or_star
parse_hostmask-of_IsPlain folding mask p =
    rw
      (
        shown-cons mask,
        take_part-append "@" (append mask.nick (String.◌∷◌ "!" mask.ident)) mask.hostname
            (nick_ident-no_at mask.nick mask.ident p.nick_at p.ident_at) p.hostname_at
            p.hostname_some,
        take_part-append "!" mask.nick mask.ident p.nick_mark p.ident_mark p.ident_some,
        p.nick_lower,
        p.ident_lower,
        p.hostname_lower,
        p.nick_some,
      )
      refl

or_star-some : (s : String) → str_eq (or_star s) "" ≡ false
unfolding or_star
or_star-some s = elim (Bool-cases (str_eq s "")) [ inl e ↦ rw e refl | inr e ↦ rw e e ]

has_char-or_star :
    (c : ℕ) (s : String) → (42 == c) ≡ false → has_char c s ≡ false → has_char c (or_star s) ≡ false
unfolding or_star has_char
has_char-or_star c s n h = elim (Bool-cases (str_eq s "")) [
  | inl e ↦ rw e (ground (arith, n))
  | inr e ↦ rw e h
]

-- Neither part has a character that the text, or its pieces, have not.
has_char-take_part :
    (c : ℕ) (s : String) (parts : List String)
    → (42 == c) ≡ false
    → has_char c s ≡ false
    → All (λ p. has_char c p ≡ false) parts
    → (has_char c (take_part s parts).0 ≡ false) × (has_char c (take_part s parts).1 ≡ false)
unfolding take_part has_char
has_char-take_part c s [] n h a = (ground (arith, n), h)
has_char-take_part c s (p ∷ []) n h a = (ground (arith, n), h)
has_char-take_part c s (p ∷ q ∷ ps) n h (a, (b, _)) = (has_char-or_star c q n b, a)

split-twice :
    (sep : ℕ) (s : String)
    → has_char sep s ≡ true
    → (first second : String) × (rest : List String) × (split sep s ≡ first ∷ second ∷ rest)
unfolding split extend_first has_char
split-twice sep String.[] h = ground (arith, h)
split-twice sep (String.◌∷◌ c s) h = elim (Bool-cases (code c == sep)) [
  | inl e ↦ let (first, rest, k) = split-cases sep s in ("", first, rest, rw (e, k) refl)
  | inr e ↦
      let (first, second, rest, k) = split-twice sep s (rw e at h) in
      (String.◌∷◌ c first, second, rest, rw (e, k) refl)
]

-- Nor the separator.
has_char-take_part-split :
    (sep : ℕ) (s : String)
    → (42 == sep) ≡ false
    → (has_char sep (take_part s (split sep s)).0 ≡ false)
      × (has_char sep (take_part s (split sep s)).1 ≡ false)
unfolding take_part
has_char-take_part-split sep s n = elim (Bool-cases (has_char sep s)) [
  | inr e ↦ has_char-take_part sep s (split sep s) n e (split-has_char sep s)
  | inl e ↦
      let (first, second, rest, k) = split-twice sep s e in
      let (a, (b, _)) = subst (All (λ p. has_char sep p ≡ false)) k (split-has_char sep s) in
      rw k (has_char-or_star sep second n b, a)
]

take_part-some : (s : String) (parts : List String) → str_eq (take_part s parts).0 "" ≡ false
unfolding take_part
take_part-some s [] = refl
take_part-some s (p ∷ []) = refl
take_part-some s (p ∷ q ∷ ps) = or_star-some q

or_star-lower :
    (lower : String → String) (s : String)
    → IsLower lower
    → lower (or_star (lower s)) ≡ or_star (lower s)
unfolding or_star
or_star-lower lower s l = elim (Bool-cases (str_eq (lower s) "")) [
  | inl e ↦ rw e l.star
  | inr e ↦ rw e (l.again s)
]

IsPlain-of :
    (lower : String → String) (nick ident hostname : String)
    → IsLower lower
    → (has_char 33 nick ≡ false) × (has_char 64 nick ≡ false)
    → (has_char 33 ident ≡ false) × (has_char 64 ident ≡ false)
    → has_char 64 hostname ≡ false
    → (str_eq ident "" ≡ false) × (str_eq hostname "" ≡ false)
    → IsPlain lower
        (record { nick = or_star (lower nick); ident = lower ident; hostname = lower hostname })
IsPlain-of lower nick ident hostname l (a, b) (c, d) e (f, g) = record {
  nick_lower = or_star-lower lower nick l;
  ident_lower = l.again ident;
  hostname_lower = l.again hostname;
  nick_mark = has_char-or_star 33 (lower nick) refl (l.no_mark nick a);
  nick_at = has_char-or_star 64 (lower nick) refl (l.no_at nick b);
  ident_mark = l.no_mark ident c;
  ident_at = l.no_at ident d;
  hostname_at = l.no_at hostname e;
  nick_some = or_star-some (lower nick);
  ident_some = l.some_text ident f;
  hostname_some = l.some_text hostname g;
}

parse_hostmask-IsPlain :
    (folding : Folding) (s : String)
    → IsLower folding.lower
    → IsPlain folding.lower (parse_hostmask folding s)
unfolding parse_hostmask
parse_hostmask-IsPlain folding s l =
    let parts = take_part s (split 64 s) in
    let before : String = parts.1 in
    let (host_at, before_at) = has_char-take_part-split 64 s refl in
    let (ident_mark, nick_mark) = has_char-take_part-split 33 before refl in
    let (ident_at, nick_at) =
      has_char-take_part 64 before (split 33 before) refl before_at
        (has_char-split 33 64 before before_at) in
    IsPlain-of folding.lower (take_part before (split 33 before)).1
      (take_part before (split 33 before)).0 parts.0 l (nick_mark, nick_at) (ident_mark, ident_at)
      host_at (take_part-some before (split 33 before), take_part-some s (split 64 s))

-- Whatever text a mask was read from, the text nick!ident@hostname that the commands show of it is read
-- as the same mask again.
pub parse_hostmask-shown :
    (folding : Folding) (s : String)
    → IsLower folding.lower
    → parse_hostmask folding (shown (parse_hostmask folding s)) ≡ parse_hostmask folding s
parse_hostmask-shown folding s l =
    parse_hostmask-of_IsPlain folding (parse_hostmask folding s)
      (parse_hostmask-IsPlain folding s l)
