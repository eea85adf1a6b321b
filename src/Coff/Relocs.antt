-- ===== src/Coff/Relocs.antt =====
-- Phase 5 of build in coff/write.go: the relocation records.
pub mod Laws
use objectfile.Prelude.{ℕ, Option, none, some, List, [], ◌∷◌}
use objectfile.Prelude.Bytes.{Bytes}
use objectfile.Prelude.Result.{Result, ok, err, ◌>>=◌}
use objectfile.Prelude.Table.{Table, lookup}
use objectfile.Object.{Section, Reloc, RelocKind}
use objectfile.Coff.File.{File, Error, no_symbol_entry, in_section, reloc_type}
use objectfile.Coff.Format.{CoffReloc}
use objectfile.Coff.Sections.{section_meta}

-- si, ok := symIdx[r.Symbol], with the error for a symbol that is not there.
unfoldable pub symbol_of : Table ℕ → Bytes → Bytes → Result Error ℕ
symbol_of sym_idx section name = elim (lookup name sym_idx) [
  | some si ↦ ok si
  | none ↦ err (no_symbol_entry section name)
]

-- relocType, its error wrapped with the section.
unfoldable pub type_of : File → Bytes → RelocKind → Result Error ℕ
type_of f section k = elim (reloc_type f k) [ ok t ↦ ok t | err e ↦ err (in_section section e) ]

-- recs and rtyps, the records and the types beside them.
unfoldable pub reloc_records :
    File → Table ℕ → Bytes → List Reloc → Result Error (List CoffReloc × List ℕ)
reloc_records f sym_idx section [] = ok ([], [])
reloc_records f sym_idx section (r ∷ rs) = do
  si ← symbol_of sym_idx section r.symbol
  rt ← type_of f section r.kind
  rest ← reloc_records f sym_idx section rs
  ok (
    record { virtual_address = r.offset; symbol_table_index = si; typ = rt } ∷ rest.0,
    rt ∷ rest.1,
  )

-- A section with its entry of secRel.
pub record SecWork : Type 0 where
  pub sec : Section
  pub records : List CoffReloc
  pub rtypes : List ℕ

unfoldable pub section_relocs : File → Table ℕ → List Section → Result Error (List SecWork)
section_relocs f sym_idx [] = ok []
section_relocs f sym_idx (s ∷ ss) = do
  found ← reloc_records f sym_idx (section_meta s).name s.relocs
  rest ← section_relocs f sym_idx ss
  ok (record { sec = s; records = found.0; rtypes = found.1 } ∷ rest)
