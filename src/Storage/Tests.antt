-- ===== src/Storage/Tests.antt =====
-- Runs of server/plugins/storage.ts.
use thelounge.Common.{◌≡◌, true, false, List, [], ◌∷◌}
use thelounge.Common.Dict.{get}
use thelounge.Storage.{new_storage, count, Operation, stored, dereferenced, run}
use thelounge.Storage.References.{run-count, unlinks}

abbrev operations : List Operation
operations =
    stored "a" false
    ∷ stored "a" true
    ∷ dereferenced "a"
    ∷ dereferenced "b"
    ∷ dereferenced "a"
    ∷ stored "b" false
    ∷ []

run-count_example :
    (count "a" (run operations new_storage).0 ≡ 0)
    × (unlinks "a" (run operations new_storage).1 ≡ 1)
unfolding get
run-count_example = run-count "a" operations new_storage
