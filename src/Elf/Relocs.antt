-- ===== src/Elf/Relocs.antt =====
-- Phase 2 of build64 and build32 in elf/write.go: the data of the RELA sections.
pub mod Laws
use objectfile.Prelude.{
  ℕ, suc, Bool, true, false, Option, none, some, List, [], ◌∷◌, ◌++◌, length, ◌==◌, if◌then◌else◌,
}
use objectfile.Prelude.Bytes.{Bytes}
use objectfile.Prelude.Result.{Result, ok, err, ◌>>=◌}
use objectfile.Prelude.Table.{Table, lookup}
use objectfile.Object.{Section, Reloc, RelocKind}
use objectfile.Elf.File.{File, Error, symbol_not_in_table, in_section, reloc_type}
use objectfile.Elf.Format.{Class}

-- si, ok := symIndex[r.Symbol], with the error for a symbol that is not there.
unfoldable pub symbol_of : Table ℕ → ℕ → Bytes → Result Error ℕ
symbol_of sym_index i name = elim (lookup name sym_index) [
  | some si ↦ ok si
  | none ↦ err (symbol_not_in_table i name)
]

-- relocType, its error wrapped with the section.
unfoldable pub type_of : File → ℕ → RelocKind → Result Error ℕ
type_of f i k = elim (reloc_type f k) [ ok t ↦ ok t | err e ↦ err (in_section i e) ]

unfoldable pub rela_bytes : Class → File → Table ℕ → ℕ → List Reloc → Result Error Bytes
rela_bytes c f sym_index i [] = ok []
rela_bytes c f sym_index i (r ∷ rs) = do
  si ← symbol_of sym_index i r.symbol
  rtype ← type_of f i r.kind
  rest ← rela_bytes c f sym_index i rs
  ok (
      c.encode_rela (record { offset = r.offset; sym = si; typ = rtype; addend = r.addend })
      ++ rest)

pub record RelaEntry : Type 0 where
  pub content_idx : ℕ
  pub bytes : Bytes

-- relaWork, for the sections from index `i` on.
unfoldable pub rela_work : Class → File → Table ℕ → ℕ → List Section → Result Error (List RelaEntry)
rela_work c f sym_index i [] = ok []
rela_work c f sym_index i (s ∷ ss) =
    if length s.relocs == 0 then rela_work c f sym_index (suc i) ss else do
      bytes ← rela_bytes c f sym_index i s.relocs
      rest ← rela_work c f sym_index (suc i) ss
      ok (record { content_idx = i; bytes = bytes } ∷ rest)
