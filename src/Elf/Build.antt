-- ===== src/Elf/Build.antt =====
-- build64 and build32 of elf/write.go, and WriteTo and Serialize of elf/elf.go.
pub mod Totality
pub mod Output
pub mod Reading
pub mod Tables
use objectfile.Prelude.{
  ℕ, ◌+◌, Bool, true, false, Option, none, some, List, [], ◌∷◌, ◌++◌, length, if◌then◌else◌,
}
use objectfile.Prelude.Bits.{u16, u32}
use objectfile.Prelude.Bytes.{Bytes, pad_to}
use objectfile.Prelude.Result.{Result, ok, err, ◌>>=◌}
use objectfile.Prelude.Writer.{Writer, buffer_writer}
use objectfile.Elf.Align.{align_up}
use objectfile.Elf.File.{File, Error}
use objectfile.Elf.Format.{Class, Ehdr, class64, class32}
use objectfile.Elf.Layout.{layout, write_contents, header_table}
use objectfile.Elf.Relocs.{RelaEntry, rela_work}
use objectfile.Elf.Sections.{SecDesc, DescState, symtab_idx_of, section_descs}
use objectfile.Elf.Strtab.{StrTab}
use objectfile.Elf.Symbols.{symbol_table}

-- shoff, behind the position at which the contents end
unfoldable pub table_offset : Class → ℕ → ℕ
table_offset c pos = align_up pos c.word_align

unfoldable pub file_header : Class → File → ℕ → ℕ → ℕ → Ehdr
file_header c f shoff n_descs shstrtab_idx = record {
  class = c.elf_class;
  osabi = f.osabi;
  machine = f.machine;
  shoff = shoff;
  shnum = u16 n_descs;
  shstrndx = u16 shstrtab_idx;
}

-- Phases 4 and 5.
unfoldable pub emit_file : Class → File → ℕ → DescState → Bytes
emit_file c f shstrtab_idx st =
    let laid = layout c st.descs in
    let shoff = table_offset c laid.1 in
    let header = c.encode_ehdr (file_header c f shoff (length st.descs) shstrtab_idx) in
    pad_to (write_contents header laid.0) shoff ++ header_table c st.shstrtab laid.0

unfoldable pub build : Class → File → Result Error Bytes
build c f = do
  let table = symbol_table f.sections
  work ← rela_work c f table.sym_index 0 f.sections
  st ← section_descs c f table work
  ok (emit_file c f (u32 (u32 (symtab_idx_of f work + 1) + 1)) st)

unfoldable pub build64 : File → Result Error Bytes
build64 f = build class64 f

unfoldable pub build32 : File → Result Error Bytes
build32 f = build class32 f

-- The choice that WriteTo makes.
unfoldable pub build_file : File → Result Error Bytes
build_file f = if f.is64 then build64 f else build32 f

-- An error of the package, or the writer's own.
pub data WriteError (E : Type 0) : Type 0 where
  build_error : Error → WriteError E
  write_error : E → WriteError E

unfoldable pub write_to : {W E : Type 0} → Writer W E → W → File → ℕ × Option (WriteError E) × W
write_to w st f = elim (build_file f) [
  | err e ↦ (0, some (build_error e), st)
  | ok b ↦
      let r = w.write st b in (r.0, elim r.1 [ some e ↦ some (write_error e) | none ↦ none ], r.2)
]

unfoldable pub serialize : File → Result (WriteError ⊥) Bytes
serialize f = let r = write_to buffer_writer [] f in elim r.1 [ some e ↦ err e | none ↦ ok r.2 ]
