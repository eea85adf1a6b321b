-- ===== src/Elf/Externals.antt =====
-- externalSymbols of elf/write.go: the names that relocations use and no section defines. The maps
-- that the source uses as sets are lists of their keys, in the order in which a loop over the map
-- may or may not visit them; sorting makes the result the same for every order.
pub mod Laws
use objectfile.Prelude.{Bool, true, false, not, ◌&&◌, List, [], ◌∷◌, length, ltb, if◌then◌else◌}
use objectfile.Prelude.Bytes.{Bytes, bytes_eq}
use objectfile.Prelude.Sorting.{contains, sort_strings}
use objectfile.Object.{Section, Symbol, Reloc}

-- set[s] = true
unfoldable pub add_key : Bytes → List Bytes → List Bytes
add_key s m = if contains s m then m else s ∷ m

unfoldable pub define_symbols : List Symbol → List Bytes → List Bytes
define_symbols [] m = m
define_symbols (s ∷ ss) m = define_symbols ss (add_key s.name m)

-- The first loop: the names of all symbols, local or not.
unfoldable pub defined_names : List Section → List Bytes → List Bytes
defined_names [] m = m
defined_names (s ∷ ss) m = defined_names ss (define_symbols s.symbols m)

-- r.Symbol != "" && !defined[r.Symbol]
unfoldable pub is_external : List Bytes → Bytes → Bool
is_external defined s = not (bytes_eq s []) && not (contains s defined)

-- The second loop, with the test on a name as a parameter.
module _ (wanted : Bytes → Bool) where
  unfoldable pub see_relocs : List Reloc → List Bytes → List Bytes
  see_relocs [] m = m
  see_relocs (r ∷ rs) m = see_relocs rs (if wanted r.symbol then add_key r.symbol m else m)

  unfoldable pub seen_names : List Section → List Bytes → List Bytes
  seen_names [] m = m
  seen_names (s ∷ ss) m = seen_names ss (see_relocs s.relocs m)

unfoldable pub external_symbols : List Section → List Bytes
external_symbols sections =
    sort_strings (seen_names (is_external (defined_names sections [])) sections [])
