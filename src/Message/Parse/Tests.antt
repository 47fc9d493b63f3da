-- ===== src/Message/Parse/Tests.antt =====
-- A message in bold with a channel, a nick and a link, and the theorems about messages at it.
use thelounge.Common.{
  ℕ, ◌≤◌, ◌<◌, ◌≡◌, refl, true, some, List, [], ◌∷◌, ◌++◌, map, length, All, codes, arith,
}
use thelounge.Common.Sort.{sort}
use thelounge.Message.Parts.{Part, channel, nick, link, any_intersection}
use thelounge.Message.Parts.Tiles.{Tiles}
use thelounge.Message.Fragment.{Style, Fragment, FragmentsTile, texts}
use thelounge.Message.Style.{
  reset_style, blank_control, parse_style, prepare, parse_loop, read_char, restyle, emit_fragment,
  last_end,
}
use thelounge.Message.Style.Codes.{control_of, match_color, number}
use thelounge.Message.Style.Equality.{text_eq}
use thelounge.Message.Style.Characters.{styled, characters}
use thelounge.Message.Style.Tiling.{parse_style-FragmentsTile}
use thelounge.Message.Style.Prepare.{prepare_lem, Alternates}
use thelounge.Message.Style.Clean.{
  strip_formatting, match_formatting, clean_irc_message, trim, texts-prepare,
  clean_irc_message-prepare, is_space,
}
use thelounge.Message.Find.{
  find_names, find_channels, close_run, channels_from, match_modes, match_at, is_nick_char,
}
use thelounge.Message.Find.Names.{IsName, find_names-IsName}
use thelounge.Message.Find.Channels.{IsChannel, find_channels-IsChannel}
use thelounge.Message.Merge.{merge, kept_parts, drop_overlaps}
use thelounge.Message.Merge.Laws.{parts_of, shown, shown-merge, merge-Tiles}
use thelounge.Message.Parse.{Recognizers, LinkMatch, parse, parse_lem}

-- "+#ab bob", with the code for bold round the channel and one for colour 4 ahead of the nick.
abbrev message : List ℕ
message = 43 ∷ 2 ∷ (codes "#ab" ++ 2 ∷ 32 ∷ 3 ∷ (codes "04bob"))

abbrev bold_style : Style
bold_style = record reset_style { bold = true }

parse_style_test :
    parse_style message
    ≡ record { style = reset_style; text = codes "+"; start = 0; end = 1 }
      ∷ record { style = bold_style; text = codes "#ab"; start = 1; end = 4 }
      ∷ record { style = reset_style; text = codes " "; start = 4; end = 5 }
      ∷ record {
        style = record reset_style { text_color = some 4 };
        text = codes "bob";
        start = 5;
        end = 8;
      }
      ∷ []
unfolding parse_style parse_loop read_char restyle emit_fragment control_of blank_control last_end
    match_color number
parse_style_test = refl

strip_formatting_test : clean_irc_message message ≡ codes "+#ab bob"
unfolding clean_irc_message trim strip_formatting match_formatting is_space match_color
strip_formatting_test = refl

-- A package that takes the first character of a text for a link.
abbrev one_link : List ℕ → List LinkMatch
one_link [] = []
one_link (c ∷ cs) = record { index = 0; last_index = 1; url = codes "http://a.b" } ∷ []

one_link_in_text :
    (text : List ℕ)
    → All (λ m. (m.index < m.last_index) × (m.last_index ≤ length text)) (one_link text)
one_link_in_text [] = tt
one_link_in_text (c ∷ cs) = ((omega arith, omega arith), tt)

abbrev recognizer : Recognizers
recognizer = record {
  linkify = one_link;
  emoji_regex = λ text. [];
  links_in_text = one_link_in_text;
  emojis_in_text = λ text. tt;
}

abbrev nicks : List (List ℕ)
nicks = codes "bob" ∷ []

abbrev found : List Part
found =
    record { start = 1; end = 4; found = channel (codes "#ab") }
    ∷ record { start = 0; end = 2; found = link (codes "http://a.b") }
    ∷ record { start = 5; end = 8; found = nick (codes "bob") }
    ∷ []

find_names_test :
    find_names (codes "+#ab bob") nicks
    ≡ record { start = 5; end = 8; found = nick (codes "bob") } ∷ []
unfolding find_names close_run is_nick_char text_eq
find_names_test = refl

find_channels_test :
    find_channels (codes "+#ab bob") (codes "#&!") (codes "!@%+")
    ≡ record { start = 1; end = 4; found = channel (codes "#ab") } ∷ []
unfolding find_channels channels_from match_modes match_at is_space
find_channels_test = refl

-- The channel meets the link before it and is dropped; the nick is kept.
kept_parts_test :
    kept_parts found
    ≡ record { start = 0; end = 2; found = link (codes "http://a.b") }
      ∷ record { start = 5; end = 8; found = nick (codes "bob") }
      ∷ []
unfolding kept_parts drop_overlaps any_intersection sort
kept_parts_test = refl

prepare_lem_example :
    (styled (prepare message) ≡ characters 0 reset_style message) × Alternates (prepare message)
prepare_lem_example = prepare_lem message

parse_style-FragmentsTile_example :
    FragmentsTile 0 (parse_style message) (length (texts (parse_style message)))
parse_style-FragmentsTile_example = parse_style-FragmentsTile message

texts-prepare_example : texts (prepare message) ≡ map blank_control (strip_formatting 0 message)
texts-prepare_example = texts-prepare message

clean_irc_message-prepare_example : trim (texts (prepare message)) ≡ clean_irc_message message
unfolding strip_formatting match_formatting match_color blank_control
clean_irc_message-prepare_example =
    clean_irc_message-prepare message
      (refl, (refl, (refl, (refl, (refl, (refl, (refl, (refl, tt))))))))

find_names-IsName_example :
    All (IsName (codes "+#ab bob") nicks) (find_names (codes "+#ab bob") nicks)
find_names-IsName_example = find_names-IsName (codes "+#ab bob") nicks

find_channels-IsChannel_example :
    All
      (IsChannel (codes "+#ab bob") (codes "#&!"))
      (find_channels (codes "+#ab bob") (codes "#&!") (codes "!@%+"))
find_channels-IsChannel_example =
    find_channels-IsChannel (codes "+#ab bob") (codes "#&!") (codes "!@%+")

abbrev fragments : List Fragment
fragments =
    record { style = reset_style; text = codes "+#"; start = 0; end = 2 }
    ∷ record { style = bold_style; text = codes "ab bob"; start = 2; end = 8 }
    ∷ []

merge-Tiles_example : Tiles 0 (parts_of (merge found fragments (codes "+#ab bob"))) 8
merge-Tiles_example = merge-Tiles found fragments (codes "+#ab bob") (omega arith)

shown-merge_example : shown (merge found fragments (codes "+#ab bob")) ≡ codes "+#ab bob"
shown-merge_example = shown-merge found fragments (omega arith) (omega arith)

parse_lem_example :
    (shown (parse recognizer (codes "#&!") (codes "!@%+") nicks message)
      ≡ map blank_control (strip_formatting 0 message))
    × Tiles 0
        (parts_of (parse recognizer (codes "#&!") (codes "!@%+") nicks message))
        (length (map blank_control (strip_formatting 0 message)))
parse_lem_example = parse_lem recognizer (codes "#&!") (codes "!@%+") nicks message
