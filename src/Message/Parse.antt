-- ===== src/Message/Parse.antt =====
-- client/js/helpers/parse.ts up to the virtual nodes: the recognised parts of a message with their
-- styled fragments, in the order in which they are rendered. With it `findLinks` and `makeLinkPart`
-- of shared/linkify.ts and findEmoji.ts.
mod Tests
use thelounge.Common.{
  ℕ, ◌+◌, ◌≤◌, ◌<◌, ◌≡◌, ◌∙◌, ap, subst, List, [], ◌∷◌, ◌++◌, map, length, All, All-append, arith,
}
use thelounge.Message.Parts.{Part, Found, link, emoji}
use thelounge.Message.Parts.Tiles.{Tiles, IsRange}
use thelounge.Message.Fragment.{texts}
use thelounge.Message.Style.{blank_control, prepare}
use thelounge.Message.Style.Prepare.{prepare-FragmentsTile}
use thelounge.Message.Style.Clean.{strip_formatting, texts-prepare}
use thelounge.Message.Find.{find_channels, find_names}
use thelounge.Message.Find.Names.{IsName, find_names-IsName}
use thelounge.Message.Find.Channels.{IsChannel, find_channels-IsChannel}
use thelounge.Message.Merge.{PartWithFragments, merge}
use thelounge.Message.Merge.Laws.{parts_of, shown, merge-Tiles, shown-merge}

pub record LinkMatch : Type 0 where
  pub index : ℕ
  pub last_index : ℕ
  pub url : List ℕ

pub record EmojiMatch : Type 0 where
  pub index : ℕ
  pub match : List ℕ

-- The packages linkify-it and emoji-regex: what they find in a text, which is in the text and not
-- empty.
pub record Recognizers : Type 0 where
  pub linkify : List ℕ → List LinkMatch
  pub emoji_regex : List ℕ → List EmojiMatch
  pub links_in_text :
      (text : List ℕ)
      → All (λ m. (m.index < m.last_index) × (m.last_index ≤ length text)) (linkify text)
  pub emojis_in_text :
      (text : List ℕ)
      → All
          (λ m. (0 < length m.match) × (m.index + length m.match ≤ length text))
          (emoji_regex text)

module _ (r : Recognizers) where
  unfoldable pub find_links : List ℕ → List Part
  find_links text =
      map (λ m. record { start = m.index; end = m.last_index; found = link m.url }) (r.linkify text)

  unfoldable pub find_emoji : List ℕ → List Part
  find_emoji text =
      map (λ m. record { start = m.index; end = m.index + length m.match; found = emoji m.match })
        (r.emoji_regex text)

  -- The parts of the plain text, in the order in which `parse` concatenates them.
  unfoldable pub found_parts : List ℕ → List ℕ → List (List ℕ) → List ℕ → List Part
  found_parts channel_prefixes user_modes nicks clean_text =
      find_channels clean_text channel_prefixes user_modes
      ++ (find_links clean_text ++ (find_emoji clean_text ++ find_names clean_text nicks))

  unfoldable pub parse : List ℕ → List ℕ → List (List ℕ) → List ℕ → List PartWithFragments
  parse channel_prefixes user_modes nicks text =
      let style_fragments = prepare text in
      let clean_text = texts style_fragments in
      merge (found_parts channel_prefixes user_modes nicks clean_text) style_fragments clean_text

  channels-IsRange :
      (text prefixes : List ℕ) (ps : List Part)
      → All (IsChannel text prefixes) ps
      → All (IsRange (length text)) ps
  channels-IsRange text prefixes [] h = tt
  channels-IsRange text prefixes (p ∷ ps) ((_, _, s, _), h) =
      ((s.0, s.1), channels-IsRange text prefixes ps h)

  names-IsRange :
      (text : List ℕ) (nicks : List (List ℕ)) (ps : List Part)
      → All (IsName text nicks) ps
      → All (IsRange (length text)) ps
  names-IsRange text nicks [] h = tt
  names-IsRange text nicks (p ∷ ps) ((_, _, s, _, _), h) =
      ((s.0, s.1), names-IsRange text nicks ps h)

  links-IsRange :
      (n : ℕ) (ms : List LinkMatch)
      → All (λ m. (m.index < m.last_index) × (m.last_index ≤ n)) ms
      → All
          (IsRange n)
          (map (λ m. record { start = m.index; end = m.last_index; found = link m.url }) ms)
  links-IsRange n [] h = tt
  links-IsRange n (m ∷ ms) (a, h) = (a, links-IsRange n ms h)

  emojis-IsRange :
      (n : ℕ) (ms : List EmojiMatch)
      → All (λ m. (0 < length m.match) × (m.index + length m.match ≤ n)) ms
      → All (IsRange n) (
          map
            (λ m. record { start = m.index; end = m.index + length m.match; found = emoji m.match })
            ms)
  emojis-IsRange n [] h = tt
  emojis-IsRange n (m ∷ ms) ((a, b), h) = ((omega arith, b), emojis-IsRange n ms h)

  found_parts-IsRange :
      (channel_prefixes user_modes : List ℕ) (nicks : List (List ℕ)) (text : List ℕ)
      → All (IsRange (length text)) (found_parts channel_prefixes user_modes nicks text)
  unfolding found_parts find_links find_emoji
  found_parts-IsRange channel_prefixes user_modes nicks text =
      All-append (IsRange (length text)) (find_channels text channel_prefixes user_modes) _
        (channels-IsRange text channel_prefixes _
          (find_channels-IsChannel text channel_prefixes user_modes))
        (All-append (IsRange (length text)) (find_links text) _
          (links-IsRange (length text) _ (r.links_in_text text))
          (All-append (IsRange (length text)) (find_emoji text) _
            (emojis-IsRange (length text) _ (r.emojis_in_text text))
            (names-IsRange text nicks _ (find_names-IsName text nicks))))

  -- Whatever is recognised in a message, what is rendered of it, part by part and fragment by
  -- fragment, is the message without its styling codes, control characters as spaces; and the parts
  -- follow one another from 0 to the end of that text with no gap and no overlap.
  pub parse_lem :
      (channel_prefixes user_modes : List ℕ) (nicks : List (List ℕ)) (text : List ℕ)
      → (shown (parse channel_prefixes user_modes nicks text)
          ≡ map blank_control (strip_formatting 0 text))
        × Tiles 0
            (parts_of (parse channel_prefixes user_modes nicks text))
            (length (map blank_control (strip_formatting 0 text)))
  unfolding parse
  parse_lem channel_prefixes user_modes nicks text =
      let clean_text = texts (prepare text) in
      let ranges = found_parts-IsRange channel_prefixes user_modes nicks clean_text in
      let same = texts-prepare text in
      (
        shown-merge _ (prepare text) (prepare-FragmentsTile text) ranges ∙ same,
        subst (λ t. Tiles 0 (parts_of (parse channel_prefixes user_modes nicks text)) (length t))
            same (merge-Tiles _ (prepare text) clean_text ranges),
      )
