-- ===== src/IrssiClient/OneLine/Sent.antt =====
-- The lines of an input of a browser in server/irssiClient.ts, and what is sent for each.
use thelounge.Common.{
  ℕ, refl, String, Bool, Option, none, some, List, [], ◌∷◌, ◌++◌, All, All-append, Bool-cases,
  str_eq, inl, inr, is_some, find?,
}
use thelounge.Models.Chan.{Chan, is_channel, is_query}
use thelounge.FeWebAdapter.Network.{Runtime, NetworkData, change_first, query_channel}
use thelounge.IrssiClient.State.{
  IrssiClient, Effect, broadcast_to_all_browsers, emit_all, Packet, keys,
}
use thelounge.IrssiClient.OneLine.{
  IsOneLine, AreLines, IsNamed, IsLineTranslation, AreLines-if, words-IsOneLine, append-IsOneLine,
  IsLineEffect, changed-IsLine, as_it_is-IsLine, translate_text-IsLine,
}
use thelounge.IrssiClient.Translate.{
  query_missing, private_message, send_window_command, Translation, create_query, words,
  close_command, translate_command, translate_query, is_one_of,
}
use thelounge.IrssiClient.Commands.{send_command, send_translated}
use thelounge.Common.Texts.{has_char, after_first, has_char-after_first}
use thelounge.IrssiClient.Callbacks.{change_network, is_query_named}
use Prim.Native.String.{◌++◌ as append}

-- The networks have names of one line, and what is sent is of one line.
pub record Lined (result : IrssiClient × List Effect) : Type 0 where
  pub named : All IsNamed result.0.networks
  pub lines : AreLines result.1

window-AreLines : (tag : String) (this : IrssiClient) → AreLines (send_window_command tag this)
unfolding send_window_command has_char
window-AreLines tag this =
    AreLines-if _ (Effect.execute_command "window 1" tag ∷ []) [] (refl, tt) tt

send_command-AreLines :
    (runtime : Runtime) (command : String) (network : NetworkData) (this : IrssiClient)
    → IsOneLine command
    → AreLines (send_command runtime command network this)
unfolding send_command
send_command-AreLines runtime command network this h =
    (h, AreLines-if _ _ [] (window-AreLines network.server_tag this) tt)

pub send_translated-AreLines :
    (runtime : Runtime) (line : String) (network : NetworkData) (this : IrssiClient)
    (t : Translation)
    → IsOneLine line
    → IsLineTranslation t
    → AreLines (send_translated runtime line network this t)
unfolding send_translated
send_translated-AreLines runtime line network this Translation.handled l h = tt
send_translated-AreLines runtime line network this Translation.as_it_is l h =
    send_command-AreLines runtime (after_first line) network this (has_char-after_first 10 line l)
send_translated-AreLines runtime line network this (Translation.changed text) l h =
    send_command-AreLines runtime text network this h.fits

emit_all-AreLines : (p : Packet) (ids : List String) → AreLines (emit_all p ids)
unfolding emit_all
emit_all-AreLines p [] = tt
emit_all-AreLines p (id ∷ ids) = (tt, emit_all-AreLines p ids)

broadcast-AreLines : (p : Packet) (this : IrssiClient) → AreLines (broadcast_to_all_browsers p this)
unfolding broadcast_to_all_browsers
broadcast-AreLines p this = emit_all-AreLines p (keys this.attached_browsers)

-- A translation: the names afterwards, the text that is sent, and what was sent on the way.
pub record LinedTranslation (result : IrssiClient × Translation × List Effect) : Type 0 where
  pub named : All IsNamed result.0.networks
  pub text : IsLineTranslation result.1
  pub lines : AreLines result.2

All-change_first :
    {A : Type 0} (P : A → Type 0) (p : A → Bool) (f : A → A) (xs : List A)
    → ((x : A) → P x → P (f x))
    → All P xs
    → All P (change_first p f xs)
unfolding change_first
All-change_first P p f [] k h = tt
All-change_first P p f (x ∷ xs) k (h, hs) = elim (Bool-cases (p x)) [
  | inl e ↦ rw e (k x h, hs)
  | inr e ↦ rw e (h, All-change_first P p f xs k hs)
]

private_message-IsLine :
    (nick : String) (message : List String)
    → IsOneLine nick
    → All IsOneLine message
    → IsLineTranslation (private_message nick message)
unfolding private_message has_char
private_message-IsLine nick message n h = elim (Bool-cases (str_eq (words message) "")) [
  | inl e ↦ rw e (record { fits = tt })
  | inr e ↦ rw e (
      changed-IsLine (words ("msg" ∷ nick ∷ words message ∷ [])) (
        words-IsOneLine ("msg" ∷ nick ∷ words message ∷ [])
          (refl, (n, (words-IsOneLine message h, tt)))))
]

query_missing-Lined :
    (command nick : String) (message : List String) (network : NetworkData) (id : Option ℕ)
    (this : IrssiClient)
    → IsOneLine nick
    → All IsOneLine message
    → All IsNamed this.networks
    → LinedTranslation (query_missing command nick message network id this)
unfolding query_missing create_query change_network has_char query_channel
query_missing-Lined command nick message network none this n h ns = record {
  named = ns;
  text = as_it_is-IsLine;
  lines = tt;
}
query_missing-Lined command nick message network (some id) this n h ns = record {
  named =
      All-change_first IsNamed (λ m. str_eq m.uuid network.uuid)
        (λ m. record m { channels = m.channels ++ query_channel nick id ∷ [] }) this.networks
        (λ m k. (k.0, All-append (λ (c : Chan). IsOneLine c.name) m.channels _ k.1 (n, tt))) ns;
  text = private_message-IsLine nick message n h;
  lines =
      All-append IsLineEffect _ _
        (All-append IsLineEffect _ _ (broadcast-AreLines _ this) (
          AreLines-if (is_some this.irssi_connection)
            (Effect.execute_command (append "query " nick) network.server_tag ∷ []) []
            (append-IsOneLine "query " nick refl n, tt) tt))
        (window-AreLines network.server_tag this);
}

translate_query-Lined :
    (runtime : Runtime) (command : String) (args : List String) (network : NetworkData)
    (this : IrssiClient)
    → All IsOneLine args
    → All IsNamed this.networks
    → LinedTranslation (translate_query runtime command args network this)
unfolding translate_query
translate_query-Lined runtime command [] network this h ns = record {
  named = ns;
  text = as_it_is-IsLine;
  lines = tt;
}
translate_query-Lined runtime command (nick ∷ message) network this (n, h) ns =
    elim (Bool-cases (is_some (find? (is_query_named runtime nick) network.channels))) [
      | inl e ↦
          rw e (record { named = ns; text = private_message-IsLine nick message n h; lines = tt })
      | inr e ↦
          rw e (query_missing-Lined command nick message network this.next_channel_id this n h ns)
    ]

close_command-Lined :
    (chan : Chan) (network : NetworkData) (this : IrssiClient)
    → IsOneLine chan.name
    → IsLineTranslation (close_command chan network this).0
      × AreLines (close_command chan network this).1
unfolding close_command has_char
close_command-Lined chan network this n = elim (Bool-cases (is_channel chan.type)) [
  | inl e ↦
      rw e
        (changed-IsLine (append "part " chan.name) (append-IsOneLine "part " chan.name refl n), tt)
  | inr e ↦ rw e (elim (Bool-cases (is_query chan.type)) [
    | inl f ↦ rw f (
      record { fits = tt },
      All-append IsLineEffect _ _
          (AreLines-if _ (Effect.close_query network.server_tag chan.name ∷ []) [] (tt, tt) tt)
          (window-AreLines network.server_tag this),
    )
    | inr f ↦ rw f (as_it_is-IsLine, tt)
  ])
]

pub translate_command-Lined :
    (runtime : Runtime) (command : String) (args : List String) (chan : Chan)
    (network : NetworkData) (this : IrssiClient)
    → IsOneLine command
    → All IsOneLine args
    → IsOneLine chan.name
    → IsOneLine network.server_tag
    → All IsNamed this.networks
    → LinedTranslation (translate_command runtime command args chan network this)
unfolding translate_command
translate_command-Lined runtime command args chan network this c a n t ns =
    elim (Bool-cases (str_eq command "close")) [
      | inl e ↦ rw e (
          let (text, lines) = close_command-Lined chan network this n in
          record { named = ns; text = text; lines = lines })
      | inr e ↦ rw e (elim (Bool-cases (is_one_of command ("msg" ∷ "query" ∷ []))) [
        | inl f ↦ rw f (translate_query-Lined runtime command args network this a ns)
        | inr f ↦ rw f (record {
          named = ns;
          text = translate_text-IsLine command args chan network c a n t;
          lines = tt;
        })
      ])
    ]
