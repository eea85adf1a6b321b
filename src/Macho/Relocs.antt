-- ===== src/Macho/Relocs.antt =====
-- Phases 1, 2 and 4 of build in macho/write.go: the descriptors of the relocations, the metadata of
-- the sections, and the relocation records.
pub mod Laws
pub mod Totality
pub mod Targets
use objectfile.Prelude.{
  ℕ, suc, ◌+◌, Bool, true, false, not, ◌&&◌, ◌||◌, Option, none, some, List, [], ◌∷◌, ◌==◌,
  if◌then◌else◌,
}
use objectfile.Prelude.Bits.{u32}
use objectfile.Prelude.Bytes.{Bytes}
use objectfile.Prelude.Result.{Result, ok, err, ◌>>=◌}
use objectfile.Prelude.Table.{Table, lookup}
use objectfile.Object.{Section, Reloc, RelocKind, is_local}
use objectfile.Macho.File.{
  File, Error, in_relocation, index_panic, not_in_symbol_table, RelocDesc, reloc_desc,
  cpu_type_arm64, arm64_reloc_page21, arm64_reloc_pageoff12,
}
use objectfile.Macho.Format.{RelocInfo, pack_reloc_info}
use objectfile.Macho.Sections.{SecMeta, section_meta}
use objectfile.Macho.Symbols.{SymEntry}

-- relocDesc, its error wrapped with the indices.
unfoldable pub desc_of : File → ℕ → ℕ → RelocKind → Result Error RelocDesc
desc_of f i j k = elim (reloc_desc f k) [ ok d ↦ ok d | err e ↦ err (in_relocation i j e) ]

-- descs, for the relocations of section `i` from index `j` on.
unfoldable pub reloc_descs : File → ℕ → ℕ → List Reloc → Result Error (List RelocDesc)
reloc_descs f i j [] = ok []
reloc_descs f i j (r ∷ rs) = do
  d ← desc_of f i j r.kind
  rest ← reloc_descs f i (suc j) rs
  ok (d ∷ rest)

-- Phase 1, for the sections from index `i` on: a section with its descriptors.
unfoldable pub section_descs :
    File → ℕ → List Section → Result Error (List (Section × List RelocDesc))
section_descs f i [] = ok []
section_descs f i (s ∷ ss) = do
  descs ← reloc_descs f i 0 s.relocs
  rest ← section_descs f (suc i) ss
  ok ((s, descs) ∷ rest)

-- A section with its descriptors and its entry of meta.
pub record Described : Type 0 where
  pub sec : Section
  pub descs : List RelocDesc
  pub meta : SecMeta

-- Phase 2, for the sections from index `i` on.
unfoldable pub section_metas : ℕ → List (Section × List RelocDesc) → Result Error (List Described)
section_metas i [] = ok []
section_metas i ((s, descs) ∷ ss) = do
  meta ← section_meta i s
  rest ← section_metas (suc i) ss
  ok (record { sec = s; descs = descs; meta = meta } ∷ rest)

-- arm64PageReloc
unfoldable pub is_arm64_page : File → RelocDesc → Bool
is_arm64_page f d =
    (f.cpu_type == cpu_type_arm64)
    && ((d.rtype == arm64_reloc_page21) || (d.rtype == arm64_reloc_pageoff12))

-- isExternal and rSymNum.
unfoldable pub target_of : File → RelocDesc → SymEntry → Bool × ℕ
target_of f d def = elim def.sect_idx [
  | none ↦ (true, def.nlist_idx)
  | some i ↦
      if is_local def.binding && not (is_arm64_page f d)
      then (false, u32 (1 + i))
      else (true, def.nlist_idx)
]

unfoldable pub record_of : File → Reloc → RelocDesc → SymEntry → RelocInfo
record_of f r d def =
    let target = target_of f d def in
    record {
      r_address = r.offset;
      r_info = pack_reloc_info target.1 d.pcrel d.width target.0 d.rtype;
    }

-- def, ok := symDefs[r.Symbol], with the error for a symbol that is not there.
unfoldable pub entry_for : Table SymEntry → ℕ → ℕ → Bytes → Result Error SymEntry
entry_for sym_defs i j name = elim (lookup name sym_defs) [
  | some def ↦ ok def
  | none ↦ err (not_in_symbol_table i j name)
]

-- records, for the relocations of section `i` from index `j` on.
unfoldable pub reloc_records :
    File → Table SymEntry → ℕ → ℕ → List Reloc → List RelocDesc → Result Error (List RelocInfo)
reloc_records f sym_defs i j [] descs = ok []
reloc_records f sym_defs i j (r ∷ rs) [] = err index_panic
reloc_records f sym_defs i j (r ∷ rs) (d ∷ ds) = do
  def ← entry_for sym_defs i j r.symbol
  rest ← reloc_records f sym_defs i (suc j) rs ds
  ok (record_of f r d def ∷ rest)

-- A section with its entries of meta and secRel.
pub record SecWork : Type 0 where
  pub sec : Section
  pub descs : List RelocDesc
  pub meta : SecMeta
  pub records : List RelocInfo

-- Phase 4, for the sections from index `i` on.
unfoldable pub section_records :
    File → Table SymEntry → ℕ → List Described → Result Error (List SecWork)
section_records f sym_defs i [] = ok []
section_records f sym_defs i (s ∷ ss) = do
  records ← reloc_records f sym_defs i 0 s.sec.relocs s.descs
  rest ← section_records f sym_defs (suc i) ss
  ok (record { sec = s.sec; descs = s.descs; meta = s.meta; records = records } ∷ rest)
