-- ===== src/IrssiClient/OneLine/Input.antt =====
-- All lines of an input of a browser in server/irssiClient.ts.
use thelounge.Common.{
  ℕ, refl, String, Bool, true, false, Option, none, some, List, [], ◌∷◌, ◌++◌, All, All-append,
  if◌then◌else◌, arith, Bool-cases, inl, inr, is_some,
}
use thelounge.Models.Chan.{Chan}
use thelounge.FeWebAdapter.Network.{Runtime, NetworkData}
use thelounge.IrssiClient.State.{IrssiClient, Effect, find_target}
use thelounge.IrssiClient.OneLine.{
  IsOneLine, AreLines, IsNamed, IsTarget, words-IsOneLine, IsLineEffect, find_target-IsTarget,
}
use thelounge.IrssiClient.OneLine.Sent.{
  Lined, LinedTranslation, send_translated-AreLines, translate_command-Lined,
}
use thelounge.IrssiClient.Commands.{
  first_word, other_words, line_in, message_text, send_translated, is_command, handle_input,
  line_for, input_lines, is_blank,
}
use thelounge.IrssiClient.Translate.{Translation, translate_command}
use thelounge.Common.Texts.{
  has_char, has_char-after_first, split, after_first, has_char-split, split-has_char,
}

message_text-IsOneLine : (line : String) → IsOneLine line → IsOneLine (message_text line)
unfolding message_text has_char
message_text-IsOneLine line h = ground (arith, h, has_char-after_first 10 line h)

first_word-IsOneLine : (ws : List String) → All IsOneLine ws → IsOneLine (first_word ws)
unfolding first_word has_char
first_word-IsOneLine [] h = refl
first_word-IsOneLine (w ∷ ws) (h, hs) = h

other_words-IsOneLine : (ws : List String) → All IsOneLine ws → All IsOneLine (other_words ws)
unfolding other_words
other_words-IsOneLine [] h = tt
other_words-IsOneLine (w ∷ ws) (h, hs) = hs

module _ (runtime : Runtime)
    (lower-IsOneLine : (s : String) → IsOneLine s → IsOneLine (runtime.lower s)) where
  translated-Lined :
      (line : String) (network : NetworkData) (r : IrssiClient × Translation × List Effect)
      → IsOneLine line
      → LinedTranslation r
      → Lined (r.0, r.2 ++ send_translated runtime line network r.0 r.1)
  translated-Lined line network (next, text, es) l h = record {
    named = h.named;
    lines =
        All-append IsLineEffect es _ h.lines
          (send_translated-AreLines runtime line network next text l h.text);
  }

  line_in-Lined :
      (line : String) (network : NetworkData) (chan : Chan) (this : IrssiClient)
      → IsOneLine line
      → IsNamed network
      → IsOneLine chan.name
      → All IsNamed this.networks
      → Lined (line_in runtime line network chan this)
  unfolding line_in has_char
  line_in-Lined line network chan this l (tag, names) n ns = elim (Bool-cases (is_command line)) [
    | inl e ↦ rw e (
        translated-Lined line network
          (translate_command runtime (runtime.lower (first_word (parts line)))
            (other_words (parts line)) chan network this)
          l
          (translate_command-Lined runtime (runtime.lower (first_word (parts line)))
            (other_words (parts line)) chan network this
            (lower-IsOneLine _ (first_word-IsOneLine (parts line) (pieces line l)))
            (other_words-IsOneLine (parts line) (pieces line l)) n tag ns))
    | inr e ↦ rw e (record {
      named = ns;
      lines = (
        words-IsOneLine ("msg" ∷ chan.name ∷ message_text line ∷ [])
            (refl, (n, (message_text-IsOneLine line l, tt))),
        tt,
      );
    })
  ]
    where
      parts : String → List String
      parts line = split 32 (after_first line)

      pieces : (line : String) → IsOneLine line → All IsOneLine (parts line)
      pieces line h = has_char-split 32 10 (after_first line) (has_char-after_first 10 line h)

  -- The line's client and effects.
  abbrev sent_by : IrssiClient × Bool × List Effect → IrssiClient × List Effect
  sent_by (sent, goes_on, es) = (sent, es)

  line_for-Lined :
      (line : String) (target : Option (NetworkData × Chan)) (this : IrssiClient)
      → IsOneLine line
      → IsTarget target
      → All IsNamed this.networks
      → Lined (sent_by (line_for runtime line target this))
  unfolding line_for
  line_for-Lined line none this l t ns = record { named = ns; lines = tt }
  line_for-Lined line (some (network, chan)) this l (named, n) ns =
      line_in-Lined line network chan this l named n ns

  abbrev then_lines : ℕ → List String → IrssiClient × Bool × List Effect → IrssiClient × List Effect
  then_lines target lines (sent, goes_on, es) =
      let (last, later) = input_lines runtime target lines sent in
      if goes_on then (last, es ++ later) else (sent, es)

  then_lines-Lined :
      (target : ℕ) (lines : List String)
      → ((sent : IrssiClient)
          → All IsNamed sent.networks
          → Lined (input_lines runtime target lines sent))
      → (r : IrssiClient × Bool × List Effect) → Lined (sent_by r)
      → Lined (then_lines target lines r)
  then_lines-Lined target lines rest (sent, true, es) h = record {
    named = (rest sent h.named).named;
    lines = All-append IsLineEffect es _ h.lines (rest sent h.named).lines;
  }
  then_lines-Lined target lines rest (sent, false, es) h = h

  input_lines-Lined :
      (target : ℕ) (lines : List String) (this : IrssiClient)
      → All IsOneLine lines
      → All IsNamed this.networks
      → Lined (input_lines runtime target lines this)
  unfolding input_lines
  input_lines-Lined target [] this l ns = record { named = ns; lines = tt }
  input_lines-Lined target (line ∷ lines) this (l, ls) ns =
      let rest = λ (sent : IrssiClient) (h : All IsNamed sent.networks).
        input_lines-Lined target lines sent ls h in
      elim (Bool-cases (is_blank line)) [
        | inl e ↦ rw e (
            then_lines-Lined target lines rest (this, true, []) (record { named = ns; lines = tt }))
        | inr e ↦ rw e (
            then_lines-Lined target lines rest _ (
              line_for-Lined line (find_target target this.networks) this l
                (find_target-IsTarget target this.networks ns) ns))
      ]

  -- Whatever text a browser sends, each command that irssi gets for it is of one line, and the names
  -- of the channels stay so. Server tags and the names of channels were of one line, and lower case
  -- adds no line feed.
  pub handle_input-lines :
      (target : ℕ) (text : String) (this : IrssiClient)
      → All IsNamed this.networks
      → AreLines (handle_input runtime target text this).1
        × All IsNamed (handle_input runtime target text this).0.networks
  unfolding handle_input
  handle_input-lines target text this ns = elim (Bool-cases (is_some this.irssi_connection)) [
    | inl e ↦
        let h : Lined (input_lines runtime target (split 10 text) this) =
          input_lines-Lined target (split 10 text) this (split-has_char 10 text) ns in
        simp e (h.lines, h.named)
    | inr e ↦ simp e (tt, ns)
  ]
