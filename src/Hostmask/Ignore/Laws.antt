-- ===== src/Hostmask/Ignore/Laws.antt =====
-- server/plugins/inputs/ignore.ts: the list of ignored masks, over the commands that change it.
use thelounge.Common.{
  ℕ, ◌≡◌, refl, String, true, false, Option, none, some, List, [], ◌∷◌, ◌++◌, take, drop, All,
  length, Bool-cases, arith, str_eq, suc, zero, inl, ap, All-append, inr,
}
use thelounge.Hostmask.{Folding, Hostmask, parse_hostmask, compare_hostmask}
use thelounge.Hostmask.Same.{compare_hostmask-same}
use thelounge.Hostmask.Ignore.{
  IgnoreEntry, Ignoring, Command, ignore, unignore, should_ignore, find_entry, ignore_mask,
  unignore_at, change_list, input, run,
}

-- No entry stands for a later one.
abbrev pub IsIrredundant : Folding → List IgnoreEntry → Type 0
IsIrredundant folding [] = Unit
IsIrredundant folding (entry ∷ entries) =
    All (λ later. compare_hostmask folding entry.mask later.mask ≡ false) entries
    × IsIrredundant folding entries

should_ignore-append :
    (folding : Folding) (list : List IgnoreEntry) (entry : IgnoreEntry) (mask : Hostmask)
    → compare_hostmask folding entry.mask mask ≡ true
    → should_ignore folding (list ++ entry ∷ []) mask ≡ true
unfolding should_ignore
should_ignore-append folding [] entry mask h = rw h refl
should_ignore-append folding (x ∷ list) entry mask h =
    ground (arith, should_ignore-append folding list entry mask h)

find_entry-append :
    (folding : Folding) (list : List IgnoreEntry) (entry : IgnoreEntry) (mask : Hostmask)
    → should_ignore folding list mask ≡ false
    → compare_hostmask folding entry.mask mask ≡ true
    → find_entry folding mask (list ++ entry ∷ []) ≡ some (length list)
unfolding should_ignore find_entry
find_entry-append folding [] entry mask h k = rw k refl
find_entry-append folding (x ∷ list) entry mask h k =
    elim (Bool-cases (compare_hostmask folding x.mask mask)) [
      | inl e ↦ ground (arith, h, e)
      | inr e ↦ rw (e, find_entry-append folding list entry mask (rw e at h) k) (ground arith)
    ]

without_last :
    (list : List IgnoreEntry) (entry : IgnoreEntry)
    → take (length list) (list ++ entry ∷ []) ++ drop (suc (length list)) (list ++ entry ∷ [])
      ≡ list
without_last [] entry = refl
without_last (x ∷ list) entry = ap (◌∷◌ x) (without_last list entry)

IsIrredundant-append :
    (folding : Folding) (list : List IgnoreEntry) (entry : IgnoreEntry)
    → IsIrredundant folding list
    → should_ignore folding list entry.mask ≡ false
    → IsIrredundant folding (list ++ entry ∷ [])
unfolding should_ignore
IsIrredundant-append folding [] entry r h = (tt, tt)
IsIrredundant-append folding (x ∷ list) entry (a, r) h = (
  All-append _ list (entry ∷ []) a (ground (arith, h), tt),
  IsIrredundant-append folding list entry r (ground (arith, h)),
)

All-without :
    (P : IgnoreEntry → Type 0) (n : ℕ) (list : List IgnoreEntry)
    → All P list
    → All P (take n list ++ drop (suc n) list)
All-without P zero [] a = tt
All-without P (suc n) [] a = tt
All-without P zero (x ∷ list) (a, rest) = rest
All-without P (suc n) (x ∷ list) (a, rest) = (a, All-without P n list rest)

IsIrredundant-without :
    (folding : Folding) (n : ℕ) (list : List IgnoreEntry)
    → IsIrredundant folding list
    → IsIrredundant folding (take n list ++ drop (suc n) list)
IsIrredundant-without folding zero [] r = tt
IsIrredundant-without folding (suc n) [] r = tt
IsIrredundant-without folding zero (x ∷ list) (a, r) = r
IsIrredundant-without folding (suc n) (x ∷ list) (a, r) =
    (All-without _ n list a, IsIrredundant-without folding n list r)

ignore_mask-IsIrredundant :
    (folding : Folding) (now : ℕ) (mask : Hostmask) (this : Ignoring)
    → IsIrredundant folding this.ignore_list
    → IsIrredundant folding (ignore_mask folding now mask this).0.ignore_list
unfolding ignore_mask
ignore_mask-IsIrredundant folding now mask this r =
    elim (Bool-cases (str_eq (folding.lower mask.nick) (folding.lower this.nick))) [
      | inl own ↦ rw own r
      | inr other ↦ elim (Bool-cases (should_ignore folding this.ignore_list mask)) [
        | inl already ↦ rw (other, already) r
        | inr new ↦ rw (other, new) (IsIrredundant-append folding this.ignore_list _ r new)
      ]
    ]

unignore_at-IsIrredundant :
    (folding : Folding) (mask : Hostmask) (found : Option ℕ) (this : Ignoring)
    → IsIrredundant folding this.ignore_list
    → IsIrredundant folding (unignore_at mask found this).0.ignore_list
unfolding unignore_at
unignore_at-IsIrredundant folding mask none this r = r
unignore_at-IsIrredundant folding mask (some n) this r =
    IsIrredundant-without folding n this.ignore_list r

change_list-IsIrredundant :
    (folding : Folding) (now : ℕ) (cmd : Command) (mask : Hostmask) (this : Ignoring)
    → IsIrredundant folding this.ignore_list
    → IsIrredundant folding (change_list folding now cmd mask this).0.ignore_list
unfolding change_list
change_list-IsIrredundant folding now ignore mask this r =
    ignore_mask-IsIrredundant folding now mask this r
change_list-IsIrredundant folding now unignore mask this r =
    unignore_at-IsIrredundant folding mask _ this r

input-IsIrredundant :
    (folding : Folding) (now : ℕ) (cmd : Command) (args : List String) (this : Ignoring)
    → IsIrredundant folding this.ignore_list
    → IsIrredundant folding (input folding now cmd args this).0.ignore_list
unfolding input
input-IsIrredundant folding now cmd [] this r = r
input-IsIrredundant folding now cmd (arg ∷ args) this r =
    elim (Bool-cases (str_eq (folding.trim arg) "")) [
      | inl e ↦ rw e r
      | inr e ↦ rw e (
          change_list-IsIrredundant folding now cmd (parse_hostmask folding (folding.trim arg)) this
            r)
    ]

-- From a list in which no entry stands for a later one, /ignore and /unignore, however often and in
-- whatever order they are given, keep it so: no mask is ignored twice.
pub run-IsIrredundant :
    (folding : Folding) (commands : List (ℕ × Command × List String)) (this : Ignoring)
    → IsIrredundant folding this.ignore_list
    → IsIrredundant folding (run folding commands this).ignore_list
unfolding run
run-IsIrredundant folding [] this r = r
run-IsIrredundant folding ((now, cmd, args) ∷ rest) this r =
    run-IsIrredundant folding rest (input folding now cmd args this).0
      (input-IsIrredundant folding now cmd args this r)

-- A target that /ignore took into the list, with no error, is ignored from then on, and /unignore of
-- the same target gives the list back as it was.
pub unignore-ignore :
    (folding : Folding) (now later : ℕ) (arg : String) (args : List String) (this : Ignoring)
    → str_eq (folding.trim arg) "" ≡ false
    → str_eq
        (folding.lower (parse_hostmask folding (folding.trim arg)).nick)
        (folding.lower this.nick)
      ≡ false
    → should_ignore folding this.ignore_list (parse_hostmask folding (folding.trim arg)) ≡ false
    → (should_ignore folding
          (input folding now ignore (arg ∷ args) this).0.ignore_list
          (parse_hostmask folding (folding.trim arg))
        ≡ true)
      × ((input folding later unignore
            (arg ∷ args)
            (input folding now ignore (arg ∷ args) this).0).0
          ≡ this)
unfolding input change_list ignore_mask unignore_at
unignore-ignore folding now later arg args this given other new =
    let mask : Hostmask = parse_hostmask folding (folding.trim arg) in
    let entry : IgnoreEntry = record { mask = mask; when = now } in
    let itself = compare_hostmask-same folding mask in
    rw (given, other, new)
      (
        should_ignore-append folding this.ignore_list entry mask itself,
        rw
            (
              find_entry-append folding this.ignore_list entry mask new itself,
              without_last this.ignore_list entry,
            )
            refl,
      )
