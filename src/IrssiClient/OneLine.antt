-- ===== src/IrssiClient/OneLine.antt =====
-- The commands that an input of a browser becomes in server/irssiClient.ts: each of one line.
pub mod Sent
pub mod Input
use thelounge.Common.{
  ℕ, ◌≡◌, refl, String, Bool, true, false, ◌&&◌, Option, none, some, List, [], ◌∷◌, ◌++◌, All,
  if◌then◌else◌, arith, find?, Bool-cases, inl, ◌==◌, str_eq, inr, ◌||◌,
}
use thelounge.Common.Texts.{has_char, join, has_char-join, has_char-append}
use thelounge.Models.Chan.{Chan, is_channel, is_query, is_lobby}
use thelounge.FeWebAdapter.Network.{NetworkData}
use thelounge.IrssiClient.State.{Effect, or_later, find_target, find_chan, with_network}
use thelounge.IrssiClient.Translate.{
  Translation, words, mode_string, action_text, translate_text, has_arguments, is_one_of, is_one,
  is_mode_change,
}
use Prim.Native.String.{◌++◌ as append}

abbrev pub IsOneLine : String → Type 0
IsOneLine s = has_char 10 s ≡ false

abbrev pub IsLineEffect : Effect → Type 0
IsLineEffect (Effect.execute_command command server_tag) = IsOneLine command
IsLineEffect _ = Unit

abbrev pub AreLines : List Effect → Type 0
AreLines es = All IsLineEffect es

-- Names of channels and server tags of one line.
abbrev pub IsNamed : NetworkData → Type 0
IsNamed n = IsOneLine n.server_tag × All (λ (c : Chan). IsOneLine c.name) n.channels

abbrev pub IsTarget : Option (NetworkData × Chan) → Type 0
IsTarget none = Unit
IsTarget (some (n, c)) = IsNamed n × IsOneLine c.name

abbrev pub LineOf : Translation → Type 0
LineOf (Translation.changed text) = IsOneLine text
LineOf _ = Unit

pub record IsLineTranslation (translation : Translation) : Type 0 where
  pub fits : LineOf translation

pub changed-IsLine : (text : String) → IsOneLine text → IsLineTranslation (Translation.changed text)
changed-IsLine text h = record { fits = h }

pub as_it_is-IsLine : IsLineTranslation Translation.as_it_is
as_it_is-IsLine = record { fits = tt }

pub words-IsOneLine : (ws : List String) → All IsOneLine ws → IsOneLine (words ws)
unfolding has_char
words-IsOneLine ws h = has_char-join 10 " " ws refl h

pub append-IsOneLine : (a b : String) → IsOneLine a → IsOneLine b → IsOneLine (append a b)
append-IsOneLine a b h k = ground (arith, has_char-append 10 a b, h, k)

module _ {ℓ} {A : Type ℓ} (P : A → Type 0) where
  abbrev pub Found : Option A → Type 0
  Found none = Unit
  Found (some a) = P a

  pub Found-find? : (p : A → Bool) (xs : List A) → All P xs → Found (find? p xs)
  Found-find? p [] h = tt
  Found-find? p (x ∷ xs) (h, hs) = elim (Bool-cases (p x)) [
    | inl e ↦ rw e h
    | inr e ↦ rw e (Found-find? p xs hs)
  ]

either :
    (b : Bool) (x y : Translation)
    → IsLineTranslation x
    → IsLineTranslation y
    → IsLineTranslation (if b then x else y)
either true x y h k = h
either false x y h k = k

may :
    (b : Bool) (text : String)
    → IsOneLine text
    → IsLineTranslation (if b then Translation.changed text else Translation.as_it_is)
may true text h = changed-IsLine text h
may false text h = as_it_is-IsLine

pub AreLines-if :
    (b : Bool) (x y : List Effect) → AreLines x → AreLines y → AreLines (if b then x else y)
AreLines-if true x y h k = h
AreLines-if false x y h k = k

find-IsTarget_or :
    (n : NetworkData) (found : Option Chan) (later : Option (NetworkData × Chan))
    → IsNamed n
    → Found (λ (c : Chan). IsOneLine c.name) found
    → IsTarget later
    → IsTarget (or_later (with_network n found) later)
unfolding or_later with_network
find-IsTarget_or n none later named f h = h
find-IsTarget_or n (some c) later named f h = (named, f)

pub find_target-IsTarget :
    (id : ℕ) (ns : List NetworkData) → All IsNamed ns → IsTarget (find_target id ns)
unfolding find_target
find_target-IsTarget id [] h = tt
find_target-IsTarget id (n ∷ ns) (h, hs) =
    find-IsTarget_or n (find_chan id n.channels) (find_target id ns) h
      (Found-find? (λ (c : Chan). IsOneLine c.name) (λ c. c.id == id) n.channels h.1)
      (find_target-IsTarget id ns hs)

modes-IsOneLine :
    (a b c d e : Bool)
    → IsOneLine (
        if a
        then "+o"
        else if b
        then "-o"
        else if c
        then "+v"
        else if d
        then "-v"
        else if e
        then "+h"
        else "-h")
unfolding has_char
modes-IsOneLine true b c d e = refl
modes-IsOneLine false true c d e = refl
modes-IsOneLine false false true d e = refl
modes-IsOneLine false false false true e = refl
modes-IsOneLine false false false false true = refl
modes-IsOneLine false false false false false = refl

-- The mode of a command is of one line.
mode_string-IsOneLine : (command : String) → IsOneLine (mode_string command)
unfolding mode_string
mode_string-IsOneLine command =
    modes-IsOneLine (str_eq command "op") (str_eq command "deop") (str_eq command "voice")
      (str_eq command "devoice") (str_eq command "hop")

action_text-IsOneLine :
    (command : String) (args : List String)
    → All IsOneLine args
    → IsOneLine (action_text command args)
unfolding action_text has_char join
action_text-IsOneLine command [] h = refl
action_text-IsOneLine command (arg ∷ args) (h, hs) = elim (Bool-cases (str_eq command "slap")) [
  | inl e ↦ rw e (
      append-IsOneLine "slaps " (append arg " around a bit with a large trout") refl
        (append-IsOneLine arg " around a bit with a large trout" h refl))
  | inr e ↦ rw e (words-IsOneLine (arg ∷ args) (h, hs))
]

pub translate_text-IsLine :
    (command : String) (args : List String) (chan : Chan) (network : NetworkData)
    → IsOneLine command
    → All IsOneLine args
    → IsOneLine chan.name
    → IsOneLine network.server_tag
    → IsLineTranslation (translate_text command args chan network)
unfolding translate_text has_char
translate_text-IsLine command args chan network c a n t =
    let channel : Bool = is_channel chan.type in
    let in_channel : Bool = channel && has_arguments args in
    let all : String = words args in
    let all_line : IsOneLine all = words-IsOneLine args a in
    either (is_one_of command ("kick" ∷ "kickban" ∷ "ban" ∷ "unban" ∷ [])) _ _
      (may in_channel _ (words-IsOneLine (command ∷ chan.name ∷ args) (c, (n, a))))
      (either (str_eq command "invite") _ _
        (may (channel && is_one args) _
          (words-IsOneLine ("invite" ∷ all ∷ chan.name ∷ []) (refl, (all_line, (n, tt)))))
        (either (str_eq command "banlist") _ _
          (changed-IsLine _
            (words-IsOneLine ("mode" ∷ chan.name ∷ "+b" ∷ []) (refl, (n, (refl, tt)))))
          (either (str_eq command "mode") _ _
            (may (in_channel && is_mode_change args) _
              (words-IsOneLine ("mode" ∷ chan.name ∷ args) (refl, (n, a))))
            (either (is_one_of command ("op" ∷ "deop" ∷ "voice" ∷ "devoice" ∷ "hop" ∷ "dehop" ∷ []))
              _ _
              (may in_channel _ (
                words-IsOneLine ("mode" ∷ chan.name ∷ mode_string command ∷ args)
                  (refl, (n, (mode_string-IsOneLine command, a)))))
              (either (is_one_of command ("me" ∷ "slap" ∷ [])) _ _
                (may (channel || is_query chan.type) _ (
                  words-IsOneLine ("action" ∷ chan.name ∷ action_text command args ∷ [])
                    (refl, (n, (action_text-IsOneLine command args a, tt)))))
                (either (str_eq command "quit") _ _
                  (may (is_lobby chan.type) _
                    (words-IsOneLine ("disconnect" ∷ network.server_tag ∷ []) (refl, (t, tt))))
                  (either (is_one_of command ("whois" ∷ "wii" ∷ [])) _ _
                    (may (is_one args) _ (
                      words-IsOneLine ("whois" ∷ all ∷ all ∷ [])
                        (refl, (all_line, (all_line, tt)))))
                    as_it_is-IsLine)))))))
