-- ===== src/Coff/Build.antt =====
-- build of coff/write.go, its phases in their order, and Serialize and WriteTo of coff/coff.go.
pub mod Totality
pub mod Headers
pub mod Output
pub mod Reading
pub mod RoundTrip
use objectfile.Prelude.{
  ℕ, suc, ◌+◌, ◌*◌, Bool, true, false, ◌&&◌, Option, none, some, List, [], ◌∷◌, ◌++◌, length, ltb,
  leb, if◌then◌else◌,
}
use objectfile.Prelude.Bits.{u16, u32}
use objectfile.Prelude.Bytes.{Bytes, bytes_eq}
use objectfile.Prelude.Result.{Result, ok, err, ◌>>=◌}
use objectfile.Prelude.Writer.{Writer, buffer_writer}
use objectfile.Object.{Section}
use objectfile.Offsets.{pad_to}
use objectfile.Elf.Strtab.{StrTab}
use objectfile.Coff.File.{File, Error, too_many_sections, empty_custom_name}
use objectfile.Coff.Format.{
  FileHdr, encode_file_hdr, SecHdr, encode_sec_hdr, coff_file_hdr_size, coff_sec_hdr_size,
}
use objectfile.Coff.Layout.{SecLaid, layout, write_blocks}
use objectfile.Coff.Relocs.{section_relocs}
use objectfile.Coff.Sections.{section_meta, is_bss_like, is_custom, with_drectve}
use objectfile.Coff.Strtab.{table_bytes, set_section_name}
use objectfile.Coff.Symbols.{SymState, symbol_table}

-- The first check of phase 1.
unfoldable pub check_count : List Section → Result Error (Unit {0})
check_count sections =
    if ltb 0xffff (length sections) then err (too_many_sections (length sections)) else ok tt

-- The second, for the sections from index `i` on.
unfoldable pub check_names : ℕ → List Section → Result Error (Unit {0})
check_names i [] = ok tt
check_names i (s ∷ ss) =
    if is_custom s.kind && bytes_eq s.custom []
    then err (empty_custom_name i)
    else check_names (suc i) ss

-- The header of a section, its name to be encoded.
unfoldable pub header_of : SecLaid → Bytes → SecHdr
header_of l name =
    let m = section_meta l.work.sec in
    record {
      name = name;
      size_of_raw_data = if is_bss_like l.work.sec then m.res_size else m.raw_size;
      pointer_to_raw_data = if is_bss_like l.work.sec then 0 else l.raw_off;
      pointer_to_relocations = l.reloc_off;
      number_of_relocations = l.n_relocs;
      characteristics = m.chars;
    }

-- The section headers, and the string table after them.
unfoldable pub section_headers : StrTab → List SecLaid → StrTab × Bytes
section_headers t [] = (t, [])
section_headers t (l ∷ ls) =
    let named = set_section_name t (section_meta l.work.sec).name in
    let rest = section_headers named.0 ls in
    (rest.0, encode_sec_hdr (header_of l named.1) ++ rest.1)

unfoldable pub slot_bytes : List Bytes → Bytes
slot_bytes [] = []
slot_bytes (slot ∷ slots) = slot ++ slot_bytes slots

-- headerEnd
unfoldable pub header_end : ℕ → ℕ
header_end n_sec = u32 (coff_file_hdr_size + n_sec * coff_sec_hdr_size)

unfoldable pub file_header : File → ℕ → ℕ → ℕ → FileHdr
file_header f n_sec sym_tab_off n_syms = record {
  machine = f.machine;
  number_of_sections = u16 n_sec;
  pointer_to_symbol_table = sym_tab_off;
  number_of_symbols = u32 n_syms;
}

-- Phase 7, where the sections are laid out and the contents end at `sym_tab_off`.
unfoldable pub emit_file : File → SymState → List SecLaid → ℕ → Result Error Bytes
emit_file f table laid sym_tab_off = do
  let header = encode_file_hdr (file_header f (length laid) sym_tab_off (length table.slots))
  let headers = section_headers table.strtab laid
  contents ← write_blocks f.machine (header ++ headers.1) laid
  ok (pad_to contents sym_tab_off ++ (slot_bytes table.slots ++ table_bytes headers.0))

-- The phases from 2 on.
unfoldable pub build_sections : File → List Section → Result Error Bytes
build_sections f sections = do
  let table = symbol_table sections
  works ← section_relocs f table.sym_idx sections
  laid ← layout (header_end (length sections)) works
  emit_file f table laid.0 laid.1

unfoldable pub build : File → Result Error Bytes
build f = do
  let sections = with_drectve f.sections
  counted ← check_count sections
  named ← check_names 0 sections
  build_sections f sections

-- An error of the package, or the writer's own.
pub data WriteError (E : Type 0) : Type 0 where
  build_error : Error → WriteError E
  write_error : E → WriteError E

unfoldable pub write_to : {W E : Type 0} → Writer W E → W → File → ℕ × Option (WriteError E) × W
write_to w st f = elim (build f) [
  | err e ↦ (0, some (build_error e), st)
  | ok b ↦
      let r = w.write st b in (r.0, elim r.1 [ some e ↦ some (write_error e) | none ↦ none ], r.2)
]

unfoldable pub serialize : File → Result (WriteError ⊥) Bytes
serialize f = let r = write_to buffer_writer [] f in elim r.1 [ some e ↦ err e | none ↦ ok r.2 ]
