-- ===== src/Message/Find.antt =====
-- What is recognised in the plain text of a message: findChannels.ts and findNames.ts of
-- client/js/helpers/ircmessageparser.
pub mod Names
pub mod Channels
use thelounge.Common.{
  ℕ, zero, suc, ◌+◌, ◌-◌, Bool, true, false, ◌&&◌, ◌||◌, not, Option, none, some, List, [], ◌∷◌,
  ◌++◌, length, leb, ◌==◌, any, if◌then◌else◌,
}
use thelounge.Message.Parts.{Part, Found, channel, nick}
use thelounge.Message.Style.Clean.{is_space}
use thelounge.Message.Style.Equality.{text_eq}

-- `[\w[\]\\`^{|}-]`
unfoldable pub is_nick_char : ℕ → Bool
is_nick_char c =
    (leb b'a' c && leb c b'z')
    || (leb b'A' c && leb c b'Z')
    || (leb b'0' c && leb c b'9')
    || c == b'_'
    || c == b'['
    || c == b']'
    || c == 0x5c
    || c == b'`'
    || c == b'^'
    || c == b'{'
    || c == b'|'
    || c == b'}'
    || c == b'-'

abbrev pub part_at : ℕ → List ℕ → Found → Part
part_at start name found = record { start = start; end = start + length name; found = found }

-- A match of `nickRegExp`, kept if `nicks.indexOf(match[1]) > -1`.
unfoldable pub close_run : List (List ℕ) → ℕ → List ℕ → List Part
close_run nicks start [] = []
close_run nicks start (c ∷ run) =
    if any (text_eq (c ∷ run)) nicks then part_at start (c ∷ run) (nick (c ∷ run)) ∷ [] else []

-- The matches from a position on; `run` holds the characters of the match that has begun at `start`.
unfoldable pub names_from : List (List ℕ) → ℕ → List ℕ → List ℕ → List Part
names_from nicks start run [] = close_run nicks start run
names_from nicks start run (c ∷ rest) =
    let longer = names_from nicks start (run ++ c ∷ []) rest in
    let closed = close_run nicks start run ++ names_from nicks (start + length run + 1) [] rest in
    if is_nick_char c then longer else closed

unfoldable pub find_names : List ℕ → List (List ℕ) → List Part
unfolding names_from
find_names text [] = []
find_names text (n ∷ ns) = names_from (n ∷ ns) 0 [] text

-- `[^ \u0007]+`, greedily; the text may be empty here.
unfoldable pub channel_tail : List ℕ → List ℕ
channel_tail [] = []
channel_tail (c ∷ rest) =
    let more = c ∷ channel_tail rest in if c == b' ' || c == 7 then [] else more

-- A match of `[modes]*([prefixes][^ \u0007]+)`: the number of mode characters and the channel.
abbrev pub Match : Type 0
Match = ℕ × List ℕ

unfoldable pub named : ℕ → List ℕ → Option Match
named c [] = none
named c (d ∷ name) = some (0, c ∷ d ∷ name)

unfoldable pub match_channel : List ℕ → ℕ → List ℕ → Option Match
unfolding named channel_tail
match_channel prefixes c rest = if any (◌==◌ c) prefixes then named c (channel_tail rest) else none

unfoldable pub further : Option Match → Option Match
further none = none
further (some (n, name)) = some (n + 1, name)

unfoldable pub or_else : Option Match → Option Match → Option Match
or_else none b = b
or_else (some a) b = some a

-- The mode characters are taken greedily, and given back where no channel follows.
unfoldable pub match_modes : List ℕ → List ℕ → List ℕ → Option Match
unfolding match_channel
match_modes modes prefixes [] = none
match_modes modes prefixes (c ∷ rest) =
    let deeper = match_modes modes prefixes rest in
    let here = match_channel prefixes c rest in
    if any (◌==◌ c) modes then or_else (further deeper) here else here

-- `(?:^|\s)` before it: the start of the text, or one blank.
unfoldable pub match_at : List ℕ → List ℕ → Bool → ℕ → List ℕ → Option Match
unfolding further or_else
match_at modes prefixes at_start c rest =
    let blank = if is_space c then further (match_modes modes prefixes rest) else none in
    if at_start then or_else (match_modes modes prefixes (c ∷ rest)) blank else blank

-- The matches from a position on, outside the one that has still `skip` characters.
unfoldable pub channels_from : List ℕ → List ℕ → ℕ → ℕ → List ℕ → List Part
unfolding match_at
channels_from modes prefixes skip position [] = []
channels_from modes prefixes (suc skip) position (c ∷ rest) =
    channels_from modes prefixes skip (position + 1) rest
channels_from modes prefixes zero position (c ∷ rest) =
    elim (match_at modes prefixes (position == 0) c rest) [
      | none ↦ channels_from modes prefixes 0 (position + 1) rest
      | some (offset, name) ↦
          part_at (position + offset) name (channel name)
          ∷ channels_from modes prefixes (offset + length name - 1) (position + 1) rest
    ]

unfoldable pub find_channels : List ℕ → List ℕ → List ℕ → List Part
find_channels text channel_prefixes user_modes = channels_from user_modes channel_prefixes 0 0 text
