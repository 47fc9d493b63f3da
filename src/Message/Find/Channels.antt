-- ===== src/Message/Find/Channels.antt =====
-- What `findChannels` returns.
use mathlib.Core.List.{append_assoc}
use mathlib.Core.Option.{some-injective}
use mathlib.Core.Path.{subst₂}
use thelounge.Message.Style.Clean.{is_space}
use thelounge.Common.{
  ℕ, zero, suc, ◌+◌, ◌-◌, ◌<◌, ◌≡◌, ◌≢◌, refl, sym, ap, ◌∙◌, subst, Bool, true, false, ◌||◌, Option,
  none, some, List, [], ◌∷◌, ◌++◌, length, arith, ◌==◌, any, All, length-append, Bool-cases,
  Option-cases, inl, inr, if◌then◌else◌,
}
use thelounge.Message.Parts.{Part, channel}
use thelounge.Message.Find.{
  part_at, channel_tail, Match, named, match_channel, further, or_else, match_modes, match_at,
  channels_from, find_channels,
}
use thelounge.Message.Find.Names.{Shows, part_at-Shows}

-- No blank and no BEL.
abbrev pub IsUnbroken : ℕ → Type 0
IsUnbroken c = (c ≢ 32) × (c ≢ 7)

-- A channel: a prefix character, and at least one more character, none a blank or a BEL.
abbrev pub IsChannelName : List ℕ → List ℕ → Type 0
IsChannelName prefixes [] = ⊥
IsChannelName prefixes (c ∷ rest) =
    (any (◌==◌ c) prefixes ≡ true) × (0 < length rest) × All IsUnbroken rest

abbrev pub IsChannel : List ℕ → List ℕ → Part → Type 0
IsChannel text prefixes p =
    (name : List ℕ) × (p.found ≡ channel name) × Shows text p name × IsChannelName prefixes name

-- A match cuts its text into what is passed, the channel, and the rest.
record IsMatch (prefixes text : List ℕ) (m : Match) : Type 0 where
  before : List ℕ
  after : List ℕ
  cut : text ≡ before ++ (m.1 ++ after)
  offset : length before ≡ m.0
  named : IsChannelName prefixes m.1

channel_tail-prefix : (text : List ℕ) → (after : List ℕ) × (text ≡ channel_tail text ++ after)
unfolding channel_tail
channel_tail-prefix [] = ([], refl)
channel_tail-prefix (c ∷ rest) =
    let (after, e) = channel_tail-prefix rest in
    elim (Bool-cases (c == b' ' || c == 7)) [
      | inl stop ↦ (c ∷ rest, rw stop)
      | inr more ↦ (after, rw more (ap (◌∷◌ c) e))
    ]

channel_tail-All : (text : List ℕ) → All IsUnbroken (channel_tail text)
unfolding channel_tail
channel_tail-All [] = tt
channel_tail-All (c ∷ rest) = elim (Bool-cases (c == b' ' || c == 7)) [
  | inl stop ↦ rw stop tt
  | inr more ↦ rw more ((ground arith, ground arith), channel_tail-All rest)
]

match_channel-IsMatch :
    (prefixes : List ℕ) (c : ℕ) (rest : List ℕ) (m : Match)
    → match_channel prefixes c rest ≡ some m
    → IsMatch prefixes (c ∷ rest) m
unfolding match_channel named
match_channel-IsMatch prefixes c rest m e = elim (Bool-cases (any (◌==◌ c) prefixes)) [
  | inl known ↦
      go known (channel_tail rest) (channel_tail-prefix rest) (channel_tail-All rest)
        (rw known at e)
  | inr other ↦ let f : ◌≡◌ {A = Option Match} none (some m) = (rw other at e) in cc f
]
  where
    go :
        any (◌==◌ c) prefixes ≡ true
        → (tail : List ℕ) → (after : List ℕ) × (rest ≡ tail ++ after)
        → All IsUnbroken tail
        → named c tail ≡ some m
        → IsMatch prefixes (c ∷ rest) m
    go known [] p h f = cc f
    go known (d ∷ name) (after, p) h f =
        let same : ◌≡◌ {A = Match} (0, c ∷ d ∷ name) m = some-injective _ m f in
        subst (IsMatch prefixes (c ∷ rest)) same (record {
          before = [];
          after = after;
          cut = ap (◌∷◌ c) p;
          offset = refl;
          named = (known, omega arith, h);
        })

further-IsMatch :
    (prefixes : List ℕ) (c : ℕ) (rest : List ℕ) (o : Option Match) (m : Match)
    → ((n : Match) → o ≡ some n → IsMatch prefixes rest n)
    → further o ≡ some m
    → IsMatch prefixes (c ∷ rest) m
unfolding further
further-IsMatch prefixes c rest none m h e = cc e
further-IsMatch prefixes c rest (some (n, name)) m h e =
    let r = h (n, name) refl in
    let same : ◌≡◌ {A = Match} (n + 1, name) m = some-injective _ m e in
    subst (IsMatch prefixes (c ∷ rest)) same (record {
      before = c ∷ r.before;
      after = r.after;
      cut = ap (◌∷◌ c) r.cut;
      offset = omega (arith, r.offset);
      named = r.named;
    })

or_else-IsMatch :
    (prefixes text : List ℕ) (a b : Option Match) (m : Match)
    → (a ≡ some m → IsMatch prefixes text m)
    → (b ≡ some m → IsMatch prefixes text m)
    → or_else a b ≡ some m
    → IsMatch prefixes text m
unfolding or_else
or_else-IsMatch prefixes text none b m h k e = k e
or_else-IsMatch prefixes text (some a) b m h k e = h e

if-IsMatch :
    (prefixes text : List ℕ) (test : Bool) (a b : Option Match) (m : Match)
    → (a ≡ some m → IsMatch prefixes text m)
    → (b ≡ some m → IsMatch prefixes text m)
    → (if test then a else b) ≡ some m
    → IsMatch prefixes text m
if-IsMatch prefixes text true a b m h k e = h e
if-IsMatch prefixes text false a b m h k e = k e

match_modes-IsMatch :
    (modes prefixes text : List ℕ) (m : Match)
    → match_modes modes prefixes text ≡ some m
    → IsMatch prefixes text m
unfolding match_modes
match_modes-IsMatch modes prefixes [] m e = cc e
match_modes-IsMatch modes prefixes (c ∷ rest) m e =
    if-IsMatch prefixes (c ∷ rest) (any (◌==◌ c) modes) _ _ m
      (or_else-IsMatch prefixes (c ∷ rest) _ _ m
        (further-IsMatch prefixes c rest _ m (match_modes-IsMatch modes prefixes rest))
        (match_channel-IsMatch prefixes c rest m))
      (match_channel-IsMatch prefixes c rest m) e

match_at-IsMatch :
    (modes prefixes : List ℕ) (at_start : Bool) (c : ℕ) (rest : List ℕ) (m : Match)
    → match_at modes prefixes at_start c rest ≡ some m
    → IsMatch prefixes (c ∷ rest) m
unfolding match_at
match_at-IsMatch modes prefixes at_start c rest m e =
    if-IsMatch prefixes (c ∷ rest) at_start _ _ m
      (or_else-IsMatch prefixes (c ∷ rest) _ _ m (match_modes-IsMatch modes prefixes (c ∷ rest) m)
        blank)
      blank e
  where
    blank :
        (if is_space c then further (match_modes modes prefixes rest) else none) ≡ some m
        → IsMatch prefixes (c ∷ rest) m
    blank =
        if-IsMatch prefixes (c ∷ rest) (is_space c) _ none m
          (further-IsMatch prefixes c rest _ m (match_modes-IsMatch modes prefixes rest))
          (λ f. cc f)

IsChannelName-pos : (prefixes name : List ℕ) → IsChannelName prefixes name → 0 < length name
IsChannelName-pos prefixes [] h = absurd h
IsChannelName-pos prefixes (c ∷ rest) h = omega arith

IsMatch-IsChannel :
    (prefixes a text : List ℕ) (m : Match)
    → IsMatch prefixes text m
    → IsChannel (a ++ text) prefixes (part_at (length a + m.0) m.1 (channel m.1))
IsMatch-IsChannel prefixes a text m r = (
  m.1,
  refl,
  subst₂ (λ t n. Shows t (part_at n m.1 (channel m.1)) m.1) whole place shows,
  r.named,
)
  where
    shows :
        Shows
          ((a ++ r.before) ++ (m.1 ++ r.after))
          (part_at (length (a ++ r.before)) m.1 (channel m.1))
          m.1
    shows =
        part_at-Shows (a ++ r.before) m.1 r.after (channel m.1)
          (IsChannelName-pos prefixes m.1 r.named)

    whole : ((a ++ r.before) ++ (m.1 ++ r.after)) ≡ a ++ text
    whole = append_assoc a r.before (m.1 ++ r.after) ∙ ap (λ t. a ++ t) (sym r.cut)

    place : length (a ++ r.before) ≡ length a + m.0
    place = omega (arith, length-append a r.before, r.offset)

channels_from-IsChannel :
    (modes prefixes text a : List ℕ) (skip position : ℕ) (rest : List ℕ)
    → text ≡ a ++ rest
    → length a ≡ position
    → All (IsChannel text prefixes) (channels_from modes prefixes skip position rest)
unfolding channels_from
channels_from-IsChannel modes prefixes text a skip position [] e n = tt
channels_from-IsChannel modes prefixes text a (suc skip) position (c ∷ rest) e n =
    channels_from-IsChannel modes prefixes text (a ++ c ∷ []) skip (position + 1) rest
      (e ∙ simp append_assoc) (omega (arith, length-append a (c ∷ [])))
channels_from-IsChannel modes prefixes text a zero position (c ∷ rest) e n =
    elim (Option-cases (match_at modes prefixes (position == 0) c rest)) [
      | inl missed ↦
          rw (missed, channels_from)
            (channels_from-IsChannel modes prefixes text (a ++ c ∷ []) 0 (position + 1) rest
              (e ∙ simp append_assoc) (omega (arith, length-append a (c ∷ []))))
      | inr (m, found) ↦
          rw (found, channels_from)
            (
              rw (e, ← n)
                  (IsMatch-IsChannel prefixes a (c ∷ rest) m
                    (match_at-IsMatch modes prefixes (position == 0) c rest m found)),
              channels_from-IsChannel modes prefixes text (a ++ c ∷ []) (m.0 + length m.1 - 1)
                  (position + 1) rest (e ∙ simp append_assoc)
                  (omega (arith, length-append a (c ∷ []))),
            )
    ]

-- Every part that `findChannels` returns is a range of the text, holds the channel that it names,
-- and this begins with one of the prefixes, has another character behind it, and no blank and no BEL.
pub find_channels-IsChannel :
    (text channel_prefixes user_modes : List ℕ)
    → All (IsChannel text channel_prefixes) (find_channels text channel_prefixes user_modes)
unfolding find_channels
find_channels-IsChannel text channel_prefixes user_modes =
    channels_from-IsChannel user_modes channel_prefixes text [] 0 0 text refl refl
