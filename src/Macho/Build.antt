-- ===== src/Macho/Build.antt =====
-- build of macho/write.go, its phases in their order, and Serialize and WriteTo of macho/macho.go.
pub mod Totality
pub mod Parts
pub mod Output
pub mod Reading
use objectfile.Prelude.{
  ℕ, ◌+◌, ◌*◌, Bool, true, false, Option, none, some, List, [], ◌∷◌, ◌++◌, length, if◌then◌else◌,
}
use objectfile.Prelude.Bits.{u32}
use objectfile.Prelude.Bytes.{Bytes}
use objectfile.Prelude.Result.{Result, ok, err, ◌>>=◌}
use objectfile.Prelude.Writer.{Writer, buffer_writer}
use objectfile.Object.{Section}
use objectfile.Offsets.{pad_to}
use objectfile.Elf.Strtab.{StrTab}
use objectfile.Macho.File.{File, Error}
use objectfile.Macho.Format.{
  MachHeader, encode_mach_header, encode_segment, SectionHdr, encode_section, encode_symtab,
  encode_build_version, Nlist, encode_nlist, nlist_size64, copy_padded_name, log2,
}
use objectfile.Macho.Layout.{
  lc_seg_size, total_lc_size, data_start, zero_filled, SecLaid, layout, segment_sizes, write_blocks,
}
use objectfile.Macho.Relocs.{SecWork, section_descs, section_metas, section_records}
use objectfile.Macho.Symbols.{SymState, symbol_table}

-- nCmds and the header.
unfoldable pub file_header : File → ℕ → MachHeader
file_header f n_sec = record {
  cpu_type = f.cpu_type;
  cpu_subtype = f.cpu_subtype;
  n_cmds = if f.build_version then 3 else 2;
  size_of_cmds = total_lc_size f.build_version n_sec;
}

unfoldable pub segment_command : File → List SecWork → Bytes
segment_command f works =
    let sizes = segment_sizes works (0, 0) in
    encode_segment (record {
      cmd_size = lc_seg_size (length works);
      vm_size = sizes.0;
      file_off = data_start f.build_version (length works);
      file_size = sizes.1;
      n_sects = u32 (length works);
    })

-- The section64 entry of a section.
unfoldable pub header_of : SecLaid → SectionHdr
header_of l =
    let m = l.work.meta in
    record {
      sect_name = copy_padded_name m.sect_name;
      seg_name = copy_padded_name m.seg_name;
      size = if zero_filled l.work then m.bss_size else m.raw_size;
      offset = if zero_filled l.work then 0 else l.data_off;
      align = log2 m.align;
      rel_off = if zero_filled l.work then 0 else l.reloc_off;
      n_reloc = if zero_filled l.work then 0 else l.n_reloc;
      flags = m.flags;
    }

unfoldable pub section_headers : List SecLaid → Bytes
section_headers [] = []
section_headers (l ∷ ls) = encode_section (header_of l) ++ section_headers ls

unfoldable pub build_version_command : File → Bytes
build_version_command f =
    if f.build_version then encode_build_version f.bv_platform f.bv_min_os f.bv_sdk else []

unfoldable pub nlist_bytes : List Nlist → Bytes
nlist_bytes [] = []
nlist_bytes (s ∷ ss) = encode_nlist s ++ nlist_bytes ss

-- strOff
unfoldable pub str_off : ℕ → ℕ → ℕ
str_off sym_off n_syms = u32 (sym_off + u32 (u32 n_syms * nlist_size64))

unfoldable pub symtab_command : SymState → ℕ → Bytes
symtab_command table sym_off = encode_symtab (record {
  sym_off = sym_off;
  n_syms = u32 (length table.syms);
  str_off = str_off sym_off (length table.syms);
  str_size = u32 (length table.strtab.payload);
})

-- The header and the load commands.
unfoldable pub front : File → SymState → List SecWork → List SecLaid → ℕ → Bytes
front f table works laid sym_off =
    encode_mach_header (file_header f (length works))
    ++ (segment_command f works
        ++ (section_headers laid ++ (build_version_command f ++ symtab_command table sym_off)))

-- Phases 5 to 8.
unfoldable pub emit_file : File → SymState → List SecWork → Result Error Bytes
emit_file f table works = do
  let laid = layout (data_start f.build_version (length works)) works
  contents ← write_blocks (front f table works laid.0 laid.1) laid.0
  let symbols = pad_to contents laid.1 ++ nlist_bytes table.syms
  ok (pad_to symbols (str_off laid.1 (length table.syms)) ++ table.strtab.payload)

unfoldable pub build : File → Result Error Bytes
build f = do
  descs ← section_descs f 0 f.sections
  described ← section_metas 0 descs
  let table = symbol_table f.sections
  works ← section_records f table.sym_defs 0 described
  emit_file f table works

-- An error of the package, or the writer's own.
pub data WriteError (E : Type 0) : Type 0 where
  build_error : Error → WriteError E
  write_error : E → WriteError E

unfoldable pub write_to : {W E : Type 0} → Writer W E → W → File → ℕ × Option (WriteError E) × W
write_to w st f = elim (build f) [
  | err e ↦ (0, some (build_error e), st)
  | ok b ↦
      let r = w.write st b in (r.0, elim r.1 [ some e ↦ some (write_error e) | none ↦ none ], r.2)
]

unfoldable pub serialize : File → Result (WriteError ⊥) Bytes
serialize f = let r = write_to buffer_writer [] f in elim r.1 [ some e ↦ err e | none ↦ ok r.2 ]
