-- ===== src/IrssiClient/Uniform/Lines.antt =====
-- What the browsers get of the lines of an input and of parts, in server/irssiClient.ts.
use thelounge.Common.{
  ℕ, refl, String, Bool, Option, none, some, List, [], ◌∷◌, ◌++◌, if◌then◌else◌, ◌∙◌, Bool-cases,
  inl, true, inr,
}
use thelounge.Models.Chan.{Chan}
use thelounge.FeWebAdapter.Network.{Runtime, NetworkData}
use thelounge.IrssiClient.Uniform.{Keeps, Keeps-if, Keeps-nothing, Told-if, keep}
use thelounge.IrssiClient.Commands.{
  line_for, input_lines, handle_names_request, part_found, handle_part_channel, part_in_irssi,
  names_of, handle_input, part_of, is_blank,
}
use thelounge.IrssiClient.State.{IrssiClient, Effect, find_target}
use thelounge.IrssiClient.Broadcasts.{IsDistinct, Told-append, Told, Told-broadcast, Told-nil}
use thelounge.IrssiClient.Uniform.Asked.{
  Keeps-line_in, Told-same, IsDistinct-same, Told-command, Told-query, Told-window,
}
use thelounge.IrssiClient.Callbacks.{change_network}
use thelounge.Common.Texts.{split}

-- A step, and what follows it if it goes on.
Keeps-next :
    (this sent last : IrssiClient) (goes_on : Bool) (es later : List Effect)
    → Keeps this (sent, es)
    → Keeps sent (last, later)
    → Keeps this (if goes_on then (last, es ++ later) else (sent, es))
Keeps-next this sent last goes_on es later h k =
    Keeps-if this goes_on _ _
      (keep (k.same ∙ h.same)
        (Told-append _ es later h.told (Told-same this sent later h.same k.told)))
      h

-- The line's client and effects, without the word on whether the loop goes on.
abbrev line_result : IrssiClient × Bool × List Effect → IrssiClient × List Effect
line_result (sent, goes_on, es) = (sent, es)

Keeps-line_for :
    (this : IrssiClient) (runtime : Runtime) (line : String) (target : Option (NetworkData × Chan))
    → IsDistinct this.attached_browsers
    → Keeps this (line_result (line_for runtime line target this))
unfolding line_for
Keeps-line_for this runtime line none distinct = Keeps-nothing this
Keeps-line_for this runtime line (some (network, chan)) distinct =
    Keeps-line_in this runtime line network chan distinct

abbrev after_line :
    Runtime → ℕ → List String → IrssiClient × Bool × List Effect → IrssiClient × List Effect
after_line runtime target lines (sent, goes_on, es) =
    let (last, later) = input_lines runtime target lines sent in
    if goes_on then (last, es ++ later) else (sent, es)

Keeps-after_line :
    (this : IrssiClient) (runtime : Runtime) (target : ℕ) (lines : List String)
    → ((sent : IrssiClient)
        → IsDistinct sent.attached_browsers
        → Keeps sent (input_lines runtime target lines sent))
    → IsDistinct this.attached_browsers
    → (r : IrssiClient × Bool × List Effect) → Keeps this (line_result r)
    → Keeps this (after_line runtime target lines r)
Keeps-after_line this runtime target lines rest distinct (sent, goes_on, es) k =
    Keeps-next this sent _ goes_on es _ k (rest sent (IsDistinct-same this sent k.same distinct))

pub Keeps-input_lines :
    (this : IrssiClient) (runtime : Runtime) (target : ℕ) (lines : List String)
    → IsDistinct this.attached_browsers
    → Keeps this (input_lines runtime target lines this)
unfolding input_lines
Keeps-input_lines this runtime target [] distinct = Keeps-nothing this
Keeps-input_lines this runtime target (line ∷ lines) distinct =
    let rest = λ (sent : IrssiClient) (d : IsDistinct sent.attached_browsers).
      Keeps-input_lines sent runtime target lines d in
    elim (Bool-cases (is_blank line)) [
      | inl e ↦ rw e (
          Keeps-after_line this runtime target lines rest distinct (this, true, [])
            (Keeps-nothing this))
      | inr e ↦ rw e (
          Keeps-after_line this runtime target lines rest distinct _
            (Keeps-line_for this runtime line (find_target target this.networks) distinct))
    ]

pub Keeps-handle_input :
    (this : IrssiClient) (runtime : Runtime) (target : ℕ) (text : String)
    → IsDistinct this.attached_browsers
    → Keeps this (handle_input runtime target text this)
unfolding handle_input
Keeps-handle_input this runtime target text distinct =
    Keeps-if this _ _ _ (Keeps-input_lines this runtime target (split 10 text) distinct)
      (Keeps-nothing this)

Told-names_of :
    (this : IrssiClient) (found : Option (NetworkData × Chan))
    → Told this.attached_browsers (names_of found)
unfolding names_of
Told-names_of this none = Told-nil _
Told-names_of this (some (network, chan)) = Told-command this _ _

pub Keeps-handle_names_request :
    (this : IrssiClient) (target : ℕ) → Keeps this (handle_names_request target this)
unfolding handle_names_request
Keeps-handle_names_request this target =
    keep refl
      (Told-if this _ _ _ (Told-names_of this (find_target target this.networks)) (Told-nil _))

Told-part_in_irssi :
    (this : IrssiClient) (network : NetworkData) (chan : Chan)
    → Told this.attached_browsers (part_in_irssi network chan this)
unfolding part_in_irssi
Told-part_in_irssi this network chan =
    Told-if this _ _ _
      (Told-append _ _ _
        (Told-if this _ _ _ (Told-command this _ _)
          (Told-if this _ _ _ (Told-query this _ _) (Told-nil _)))
        (Told-window this _))
      (Told-nil _)

Keeps-part_found :
    (this : IrssiClient) (network : NetworkData) (chan : Option Chan)
    → IsDistinct this.attached_browsers
    → Keeps this (part_found chan network this)
unfolding part_found change_network
Keeps-part_found this network none distinct = Keeps-nothing this
Keeps-part_found this network (some chan) distinct =
    keep refl
      (Told-append _ _ _ (Told-broadcast _ this distinct) (Told-part_in_irssi this network chan))

Keeps-part_of :
    (this : IrssiClient) (id : ℕ) (network : Option NetworkData)
    → IsDistinct this.attached_browsers
    → Keeps this (part_of id network this)
unfolding part_of
Keeps-part_of this id none distinct = Keeps-nothing this
Keeps-part_of this id (some network) distinct = Keeps-part_found this network _ distinct

pub Keeps-handle_part_channel :
    (this : IrssiClient) (uuid : String) (id : ℕ)
    → IsDistinct this.attached_browsers
    → Keeps this (handle_part_channel uuid id this)
unfolding handle_part_channel
Keeps-handle_part_channel this uuid id distinct = Keeps-part_of this id _ distinct
