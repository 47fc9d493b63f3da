-- ===== src/IrssiClient/Uniform/Asked.antt =====
-- What the browsers get of their requests to server/irssiClient.ts.
use thelounge.Common.{
  ℕ, refl, String, Bool, Option, none, some, List, [], ◌∷◌, ◌++◌, is_some, ◌≡◌, Bool-cases, find?,
  str_eq, inl, inr,
}
use thelounge.Models.Chan.{Chan, is_channel, is_query}
use thelounge.FeWebAdapter.Network.{Runtime, NetworkData}
use thelounge.IrssiClient.Uniform.{Keeps, Keeps-nothing, Told-if, keep}
use thelounge.IrssiClient.Commands.{send_translated, send_command, line_in, is_command}
use thelounge.IrssiClient.Translate.{
  close_command, send_window_command, Translation, query_missing, create_query, translate_command,
  translate_query, is_one_of,
}
use thelounge.IrssiClient.State.{IrssiClient, Effect}
use thelounge.IrssiClient.Broadcasts.{
  packets_of, Told, Told-nil, Told-append, Told-quiet, IsDistinct, Told-broadcast,
}
use thelounge.IrssiClient.Callbacks.{change_network, is_query_named}

module _ (this : IrssiClient) where
  pub Told-command :
      (command tag : String) → Told this.attached_browsers (Effect.execute_command command tag ∷ [])
  unfolding packets_of
  Told-command command tag = Told-quiet _ (Effect.execute_command command tag ∷ []) (λ s. refl)

  pub Told-query :
      (tag nick : String) → Told this.attached_browsers (Effect.close_query tag nick ∷ [])
  unfolding packets_of
  Told-query tag nick = Told-quiet _ (Effect.close_query tag nick ∷ []) (λ s. refl)

  pub Told-window : (tag : String) → Told this.attached_browsers (send_window_command tag this)
  unfolding send_window_command
  Told-window tag = Told-if this _ _ _ (Told-command _ _) (Told-nil _)

  Told-send_command :
      (runtime : Runtime) (command : String) (network : NetworkData)
      → Told this.attached_browsers (send_command runtime command network this)
  unfolding send_command
  Told-send_command runtime command network =
      Told-append _ (Effect.execute_command command network.server_tag ∷ []) _ (Told-command _ _)
        (Told-if this _ _ _ (Told-window _) (Told-nil _))

  Told-translated :
      (runtime : Runtime) (line : String) (network : NetworkData) (t : Translation)
      → Told this.attached_browsers (send_translated runtime line network this t)
  unfolding send_translated
  Told-translated runtime line network Translation.handled = Told-nil _
  Told-translated runtime line network Translation.as_it_is = Told-send_command runtime _ network
  Told-translated runtime line network (Translation.changed text) =
      Told-send_command runtime text network

  Told-close :
      (chan : Chan) (network : NetworkData)
      → Told this.attached_browsers (close_command chan network this).1
  unfolding close_command
  Told-close chan network = elim (Bool-cases (is_channel chan.type)) [
    | inl e ↦ rw e (Told-nil _)
    | inr e ↦ rw e (elim (Bool-cases (is_query chan.type)) [
      | inl f ↦
          rw f
            (Told-append _ _ _ (Told-if this _ _ _ (Told-query _ _) (Told-nil _)) (Told-window _))
      | inr f ↦ rw f (Told-nil _)
    ])
  ]

  Keeps-create_query :
      (should_open : Bool) (nick : String) (network : NetworkData) (id : ℕ)
      → IsDistinct this.attached_browsers
      → Keeps this (create_query should_open nick network id this)
  unfolding create_query change_network
  Keeps-create_query should_open nick network id distinct = keep refl (
      Told-append _ _ _
        (Told-append _ _ _ (Told-broadcast _ this distinct)
          (Told-if this _ _ _ (Told-command _ _) (Told-nil _)))
        (Told-window _))

  -- A translation: the client, and the effects that come with it.
  abbrev pub untranslated : IrssiClient × Translation × List Effect → IrssiClient × List Effect
  untranslated (next, translation, effects) = (next, effects)

  Keeps-query_missing :
      (command nick : String) (message : List String) (network : NetworkData) (id : Option ℕ)
      → IsDistinct this.attached_browsers
      → Keeps this (untranslated (query_missing command nick message network id this))
  unfolding query_missing
  Keeps-query_missing command nick message network none distinct = Keeps-nothing this
  Keeps-query_missing command nick message network (some id) distinct =
      Keeps-create_query _ nick network id distinct

  Keeps-translate_query :
      (runtime : Runtime) (command : String) (args : List String) (network : NetworkData)
      → IsDistinct this.attached_browsers
      → Keeps this (untranslated (translate_query runtime command args network this))
  unfolding translate_query
  Keeps-translate_query runtime command [] network distinct = Keeps-nothing this
  Keeps-translate_query runtime command (nick ∷ message) network distinct =
      elim (Bool-cases (is_some (find? (is_query_named runtime nick) network.channels))) [
        | inl e ↦ rw e (Keeps-nothing this)
        | inr e ↦ rw e (Keeps-query_missing command nick message network _ distinct)
      ]

  Keeps-translate_command :
      (runtime : Runtime) (command : String) (args : List String) (chan : Chan)
      (network : NetworkData)
      → IsDistinct this.attached_browsers
      → Keeps this (untranslated (translate_command runtime command args chan network this))
  unfolding translate_command
  Keeps-translate_command runtime command args chan network distinct =
      elim (Bool-cases (str_eq command "close")) [
        | inl e ↦ rw e (keep refl (Told-close chan network))
        | inr e ↦ rw e (elim (Bool-cases (is_one_of command ("msg" ∷ "query" ∷ []))) [
          | inl f ↦ rw f (Keeps-translate_query runtime command args network distinct)
          | inr f ↦ rw f (Keeps-nothing this)
        ])
      ]

pub Told-same :
    (this next : IrssiClient) (es : List Effect)
    → next.attached_browsers ≡ this.attached_browsers
    → Told next.attached_browsers es
    → Told this.attached_browsers es
Told-same this next es e h = rw e at h

pub IsDistinct-same :
    (this next : IrssiClient)
    → next.attached_browsers ≡ this.attached_browsers
    → IsDistinct this.attached_browsers
    → IsDistinct next.attached_browsers
IsDistinct-same this next e h = rw e h

Keeps-translated :
    (this : IrssiClient) (runtime : Runtime) (line : String) (network : NetworkData)
    (next : IrssiClient) (translation : Translation) (es : List Effect)
    → Keeps this (next, es)
    → Keeps this (next, es ++ send_translated runtime line network next translation)
Keeps-translated this runtime line network next translation es k = keep k.same (
    Told-append _ es _ k.told
      (Told-same this next _ k.same (Told-translated next runtime line network translation)))

pub Keeps-line_in :
    (this : IrssiClient) (runtime : Runtime) (line : String) (network : NetworkData) (chan : Chan)
    → IsDistinct this.attached_browsers
    → Keeps this (line_in runtime line network chan this)
unfolding line_in
Keeps-line_in this runtime line network chan distinct = elim (Bool-cases (is_command line)) [
  | inl e ↦ rw e (
      Keeps-translated this runtime line network _ _ _
        (Keeps-translate_command this runtime _ _ chan network distinct))
  | inr e ↦ rw e (keep refl (Told-command this _ _))
]
