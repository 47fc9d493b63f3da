-- ===== src/Storage/References.antt =====
-- The references of server/plugins/storage.ts as a counter for each file.
use thelounge.Common.{
  ℕ, ◌+◌, ◌-◌, ◌==◌, ◌≡◌, refl, ◌∙◌, ap, String, ◌&&◌, List, [], ◌∷◌, ◌++◌, str_eq, if◌then◌else◌,
  arith, eq_iff,
}
use thelounge.Common.Dict.{get-set, get-delete}
use thelounge.Storage.{
  Storage, FileEffect, write_file, unlink_file, call_back, count, store, dereference, Operation,
  stored, dereferenced, operate, run,
}

-- The promise for one file: a number that goes up with each `store` of it and down, not below 0, with
-- each `dereference`.
abbrev next_count : String → Operation → ℕ → ℕ
next_count url (stored u exists) n = if str_eq u url then n + 1 else n
next_count url (dereferenced u) n = if str_eq u url then n - 1 else n

abbrev pub final_count : String → List Operation → ℕ → ℕ
final_count url [] n = n
final_count url (operation ∷ operations) n = final_count url operations (next_count url operation n)

-- How often the file goes: each time that the number falls to 0.
abbrev falls : String → Operation → ℕ → ℕ
falls url (stored u exists) n = 0
falls url (dereferenced u) n = if str_eq u url && n == 1 then 1 else 0

abbrev pub all_falls : String → List Operation → ℕ → ℕ
all_falls url [] n = 0
all_falls url (operation ∷ operations) n =
    falls url operation n + all_falls url operations (next_count url operation n)

abbrev pub unlinks : String → List FileEffect → ℕ
unlinks url [] = 0
unlinks url (unlink_file u ∷ es) = if str_eq u url then unlinks url es + 1 else unlinks url es
unlinks url (write_file _ ∷ es) = unlinks url es
unlinks url (call_back _ ∷ es) = unlinks url es

unlinks-append :
    (url : String) (es fs : List FileEffect)
    → unlinks url (es ++ fs) ≡ unlinks url es + unlinks url fs
unlinks-append url [] fs = omega arith
unlinks-append url (unlink_file u ∷ es) fs = ground (arith, unlinks-append url es fs)
unlinks-append url (write_file _ ∷ es) fs = unlinks-append url es fs
unlinks-append url (call_back _ ∷ es) fs = unlinks-append url es fs

operate-count :
    (url : String) (operation : Operation) (this : Storage)
    → (count url (operate operation this).0 ≡ next_count url operation (count url this))
      × (unlinks url (operate operation this).1 ≡ falls url operation (count url this))
unfolding operate store dereference
operate-count url (stored u exists) this =
    ground (arith, get-set u url (1 + count u this) this.references, eq_iff u url)
operate-count url (dereferenced u) this = ground (
  arith,
  get-set u url (count u this - 1) this.references,
  get-delete u url this.references,
  eq_iff u url,
)

-- Whatever is stored and dereferenced, in any order, the storage has for every file the number of the
-- counter that goes up with each `store` and down, not below 0, with each `dereference`; and the file
-- is deleted exactly as often as this counter falls to 0.
pub run-count :
    (url : String) (operations : List Operation) (this : Storage)
    → (count url (run operations this).0 ≡ final_count url operations (count url this))
      × (unlinks url (run operations this).1 ≡ all_falls url operations (count url this))
unfolding run
run-count url [] this = (refl, refl)
run-count url (operation ∷ operations) this =
    let (next, effects) = operate operation this in
    let (same, fallen) = operate-count url operation this in
    let (later, later_fallen) = run-count url operations next in
    (
      later ∙ ap (final_count url operations) same,
      unlinks-append url effects (run operations next).1 ∙ cc (fallen, later_fallen, same),
    )
