-- ===== src/Storage.antt =====
-- server/plugins/storage.ts: the stored files, each kept as long as something refers to it. The address
-- of a file, which the code makes of the hash of its data, is an argument; whether the file is there
-- already is what the file system says when `store` asks.
pub mod References
mod Tests
use thelounge.Common.{
  ℕ, ◌+◌, ◌-◌, ◌==◌, String, Bool, Option, none, some, List, [], ◌∷◌, ◌++◌, if◌then◌else◌,
  or_default,
}
use thelounge.Common.Dict.{Dict, get, set, delete}

pub record Storage : Type 0 where
  pub references : Dict ℕ

abbrev pub new_storage : Storage
new_storage = record { references = [] }

-- What is asked of the file system, and the calls of the callback of `store`.
pub data FileEffect : Type 0 where
  write_file unlink_file call_back : String → FileEffect

abbrev pub count : String → Storage → ℕ
count url this = or_default (get url this.references) 0

unfoldable pub dereference : String → Storage → Storage × List FileEffect
dereference url this =
    if count url this == 0
    then (this, [])
    else if count url this == 1
    then (record this { references = delete url this.references }, unlink_file url ∷ [])
    else (record this { references = set url (count url this - 1) this.references }, [])

unfoldable pub store : String → Bool → Storage → Storage × List FileEffect
store url exists this = (
  record this { references = set url (1 + count url this) this.references },
  (if exists then call_back url ∷ [] else write_file url ∷ []),
)

-- The end of the writing of a file, or of the making of its folder.
unfoldable pub written : String → Bool → List FileEffect
written url failed = if failed then call_back "" ∷ [] else call_back url ∷ []

pub data Operation : Type 0 where
  stored : String → Bool → Operation
  dereferenced : String → Operation

unfoldable pub operate : Operation → Storage → Storage × List FileEffect
unfolding store dereference
operate (stored url exists) this = store url exists this
operate (dereferenced url) this = dereference url this

unfoldable pub run : List Operation → Storage → Storage × List FileEffect
unfolding operate
run [] this = (this, [])
run (operation ∷ operations) this =
    let (next, effects) = operate operation this in
    let (last, later) = run operations next in (last, effects ++ later)
