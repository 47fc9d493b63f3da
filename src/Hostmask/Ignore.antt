-- ===== src/Hostmask/Ignore.antt =====
-- server/plugins/inputs/ignore.ts: the commands /ignore and /unignore, and the test of the handlers of
-- plugins/irc-events that leave out what an ignored user sends.
pub mod Laws
pub mod Shown
use Prim.Native.String.{◌++◌ as append}
use thelounge.Common.{
  ℕ, ◌+◌, String, Bool, true, false, ◌&&◌, Option, none, some, List, [], ◌∷◌, ◌++◌, take, drop, any,
  str_eq, if◌then◌else◌, suc,
}
use thelounge.Hostmask.{Folding, Hostmask, parse_hostmask, compare_hostmask}

-- `{...hostmask, when}`
pub record IgnoreEntry : Type 0 where
  pub mask : Hostmask
  pub when : ℕ

-- The fields of the network that the commands read or write.
pub record Ignoring : Type 0 where
  pub nick : String
  pub ignore_list : List IgnoreEntry

-- A message of type error to the channel, and `client.save()`.
pub data Effect : Type 0 where
  push_error : String → Effect
  save : Effect

pub data Command : Type 0 where
  ignore : Command
  unignore : Command

-- `network.ignoreList.some(...)`
unfoldable pub should_ignore : Folding → List IgnoreEntry → Hostmask → Bool
should_ignore folding list from = any (λ entry. compare_hostmask folding entry.mask from) list

-- `network.ignoreList.findIndex(...)`, none for -1
unfoldable pub find_entry : Folding → Hostmask → List IgnoreEntry → Option ℕ
find_entry folding mask [] = none
find_entry folding mask (entry ∷ entries) =
    let later = find_entry folding mask entries in
    if compare_hostmask folding entry.mask mask
    then some 0
    else elim later [ none ↦ none | some n ↦ some (n + 1) ]

-- `${nick}!${ident}@${hostname}`
unfoldable pub shown : Hostmask → String
shown mask = append (append mask.nick (append "!" mask.ident)) (append "@" mask.hostname)

mask_text : Hostmask → String
unfolding shown
mask_text mask = append "\u{2}" (append (shown mask) "\u{f}")

unfoldable pub usage : Command → Effect
usage ignore = push_error "Usage: /ignore <nick>[!ident][@host]"
usage unignore = push_error "Usage: /unignore <nick>[!ident][@host]"

unfoldable pub ignore_mask : Folding → ℕ → Hostmask → Ignoring → Ignoring × List Effect
unfolding should_ignore mask_text
ignore_mask folding now mask this =
    if str_eq (folding.lower mask.nick) (folding.lower this.nick)
    then (this, push_error "You can't ignore yourself" ∷ [])
    else if should_ignore folding this.ignore_list mask
    then (this, push_error "The specified user/hostmask is already ignored" ∷ [])
    else (
      record this { ignore_list = this.ignore_list ++ (record { mask = mask; when = now }) ∷ [] },
      save ∷ push_error (append (mask_text mask) " added to ignorelist") ∷ [],
    )

-- `splice(idx, 1)`, where there is such an entry.
unfoldable pub unignore_at : Hostmask → Option ℕ → Ignoring → Ignoring × List Effect
unfolding mask_text
unignore_at mask none this = (this, push_error "The specified user/hostmask is not ignored" ∷ [])
unignore_at mask (some idx) this = (
  record this { ignore_list = take idx this.ignore_list ++ drop (suc idx) this.ignore_list },
  save
      ∷ push_error (append "Successfully removed " (append (mask_text mask) " from ignorelist"))
      ∷ [],
)

unfoldable pub change_list : Folding → ℕ → Command → Hostmask → Ignoring → Ignoring × List Effect
unfolding ignore_mask unignore_at find_entry
change_list folding now ignore mask this = ignore_mask folding now mask this
change_list folding now unignore mask this =
    unignore_at mask (find_entry folding mask this.ignore_list) this

-- The handler, on the words behind the command.
unfoldable pub input : Folding → ℕ → Command → List String → Ignoring → Ignoring × List Effect
unfolding usage change_list
input folding now cmd [] this = (this, usage cmd ∷ [])
input folding now cmd (arg ∷ args) this =
    if str_eq (folding.trim arg) ""
    then (this, usage cmd ∷ [])
    else change_list folding now cmd (parse_hostmask folding (folding.trim arg)) this

-- Commands one after the other, each at its time.
unfoldable pub run : Folding → List (ℕ × Command × List String) → Ignoring → Ignoring
unfolding input
run folding [] this = this
run folding ((now, cmd, args) ∷ rest) this = run folding rest (input folding now cmd args this).0
