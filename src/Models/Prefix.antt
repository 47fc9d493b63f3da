-- ===== src/Models/Prefix.antt =====
-- server/models/prefix.ts: the symbols that the user modes of a network show.
use thelounge.Common.{String, List, [], ◌∷◌, map}
use thelounge.Common.Dict.{Dict, set}

pub record PrefixObject : Type 0 where
  pub symbol : String
  pub mode : String

pub record Prefix : Type 0 where
  pub prefix : List PrefixObject
  pub mode_to_symbol : Dict String
  pub symbols : List String

-- The loop of `_update_internals`, from the table so far.
modes_from : Dict String → List PrefixObject → Dict String
modes_from table [] = table
modes_from table (p ∷ ps) = modes_from (set p.mode p.symbol table) ps

unfoldable pub new_prefix : List PrefixObject → Prefix
unfolding modes_from
new_prefix prefix = record {
  prefix = prefix;
  mode_to_symbol = modes_from [] prefix;
  symbols = map (λ p. p.symbol) prefix;
}

-- `update` sets the list and does the rest as the constructor does.
unfoldable pub update : Prefix → List PrefixObject → Prefix
unfolding new_prefix
update p prefix = new_prefix prefix
