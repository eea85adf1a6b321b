-- ===== src/Elf/Externals/Laws.antt =====
-- What `externalSymbols` returns: in ascending order, each once, the names that some relocation
-- uses, that are not empty, and that no section defines.
use objectfile.Prelude.{
  Bool, true, false, not, ◌&&◌, ◌||◌, ◌≡◌, refl, ap, Bool-cases, inl, inr, List, [], ◌∷◌, arith,
  if◌then◌else◌,
}
use objectfile.Prelude.Bytes.{Bytes, bytes_eq, bytes_eq_iff}
use objectfile.Prelude.Sorting.{
  contains, Ascending, Distinct, sort_strings-Ascending, contains-sort_strings,
}
use objectfile.Object.{Section, Symbol, Reloc}
use objectfile.Elf.Externals.{
  add_key, define_symbols, defined_names, is_external, see_relocs, seen_names, external_symbols,
}

-- A symbol of the list has the name.
abbrev pub names_symbol : Bytes → List Symbol → Bool
names_symbol k [] = false
names_symbol k (s ∷ ss) = bytes_eq s.name k || names_symbol k ss

-- A section defines the name.
abbrev pub defines : Bytes → List Section → Bool
defines k [] = false
defines k (s ∷ ss) = names_symbol k s.symbols || defines k ss

abbrev pub relocates : Bytes → List Reloc → Bool
relocates k [] = false
relocates k (r ∷ rs) = bytes_eq r.symbol k || relocates k rs

-- A relocation of a section uses the name.
abbrev pub references : Bytes → List Section → Bool
references k [] = false
references k (s ∷ ss) = relocates k s.relocs || references k ss

pub contains-add_key :
    (k s : Bytes) (m : List Bytes) → contains k (add_key s m) ≡ (bytes_eq s k || contains k m)
unfolding add_key contains
contains-add_key k s m = ground (arith, bytes_eq_iff s k)

contains-define_symbols :
    (k : Bytes) (ss : List Symbol) (m : List Bytes)
    → contains k (define_symbols ss m) ≡ (names_symbol k ss || contains k m)
unfolding define_symbols
contains-define_symbols k [] m = refl
contains-define_symbols k (s ∷ ss) m =
    ground (arith, contains-define_symbols k ss (add_key s.name m), contains-add_key k s.name m)

pub contains-defined_names :
    (k : Bytes) (ss : List Section) (m : List Bytes)
    → contains k (defined_names ss m) ≡ (defines k ss || contains k m)
unfolding defined_names
contains-defined_names k [] m = refl
contains-defined_names k (s ∷ ss) m = ground (
  arith,
  contains-defined_names k ss (define_symbols s.symbols m),
  contains-define_symbols k s.symbols m,
)

add_key-Distinct : (s : Bytes) (m : List Bytes) → Distinct m → Distinct (add_key s m)
unfolding add_key
add_key-Distinct s m d = ground arith

-- A loop that keeps the names with a property keeps those that relocations use, each once.
module _ (wanted : Bytes → Bool) where
  same_name : (k s : Bytes) → bytes_eq s k ≡ true → wanted s ≡ wanted k
  same_name k s h = ap wanted ((bytes_eq_iff s k).0 h)

  contains-see_relocs :
      (k : Bytes) (rs : List Reloc) (m : List Bytes)
      → contains k (see_relocs wanted rs m) ≡ ((relocates k rs && wanted k) || contains k m)
  unfolding see_relocs
  contains-see_relocs k [] m = refl
  contains-see_relocs k (r ∷ rs) m = elim (Bool-cases (wanted r.symbol)) [
    | inl external ↦ rw external (
        ground (
          arith,
          external,
          same_name k r.symbol,
          contains-see_relocs k rs (add_key r.symbol m),
          contains-add_key k r.symbol m,
        ))
    | inr known ↦ rw known (ground (arith, known, same_name k r.symbol, contains-see_relocs k rs m))
  ]

  pub contains-seen_names :
      (k : Bytes) (ss : List Section) (m : List Bytes)
      → contains k (seen_names wanted ss m) ≡ ((references k ss && wanted k) || contains k m)
  unfolding seen_names
  contains-seen_names k [] m = refl
  contains-seen_names k (s ∷ ss) m = ground (
    arith,
    contains-seen_names k ss (see_relocs wanted s.relocs m),
    contains-see_relocs k s.relocs m,
  )

  see_relocs-Distinct :
      (rs : List Reloc) (m : List Bytes) → Distinct m → Distinct (see_relocs wanted rs m)
  unfolding see_relocs
  see_relocs-Distinct [] m d = d
  see_relocs-Distinct (r ∷ rs) m d =
      see_relocs-Distinct rs (if wanted r.symbol then add_key r.symbol m else m)
        (elim (Bool-cases (wanted r.symbol)) [
          | inl external ↦ rw external (add_key-Distinct r.symbol m d)
          | inr known ↦ rw known d
        ])

  pub seen_names-Distinct :
      (ss : List Section) (m : List Bytes) → Distinct m → Distinct (seen_names wanted ss m)
  unfolding seen_names
  seen_names-Distinct [] m d = d
  seen_names-Distinct (s ∷ ss) m d =
      seen_names-Distinct ss (see_relocs wanted s.relocs m) (see_relocs-Distinct s.relocs m d)

-- The names come in strictly ascending order, so none comes twice.
pub external_symbols-Ascending : (sections : List Section) → Ascending (external_symbols sections)
unfolding external_symbols
external_symbols-Ascending sections =
    sort_strings-Ascending _
      (seen_names-Distinct (is_external (defined_names sections [])) sections [] tt)

-- A name is among them exactly when a relocation uses it, it is not empty, and no symbol has it.
pub contains-external_symbols :
    (k : Bytes) (sections : List Section)
    → contains k (external_symbols sections)
      ≡ (references k sections && (not (bytes_eq k []) && not (defines k sections)))
unfolding external_symbols is_external contains
contains-external_symbols k sections = ground (
  arith,
  contains-sort_strings k (seen_names (is_external (defined_names sections [])) sections []),
  contains-seen_names (is_external (defined_names sections [])) k sections [],
  contains-defined_names k sections [],
)
