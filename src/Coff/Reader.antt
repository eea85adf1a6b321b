-- ===== src/Coff/Reader.antt =====
-- A reader of COFF object files, stated apart from the package: it follows the offsets in the
-- headers as a linker does.
use objectfile.Prelude.{ℕ, ◌+◌, ◌*◌, slice, drop}
use objectfile.Prelude.Bytes.{Bytes}
use objectfile.Coff.Format.{FileHdr, SecHdr, CoffReloc, CoffSym}
use objectfile.Coff.Format.Decode.{decode_file_hdr, decode_sec_hdr, decode_reloc, decode_symbol}
use objectfile.Coff.Strtab.Reading.{read_sym_name}
use objectfile.Coff.Strtab.SectionNames.{read_section_name}

abbrev pub file_hdr : Bytes → FileHdr
file_hdr file = decode_file_hdr file

abbrev pub section_hdr : Bytes → ℕ → SecHdr
section_hdr file i = decode_sec_hdr (slice (20 + i * 40) 40 file)

-- The string table stands behind the symbol table.
abbrev pub strings : Bytes → Bytes
strings file =
    drop ((file_hdr file).pointer_to_symbol_table + 18 * (file_hdr file).number_of_symbols) file

abbrev pub section_name : Bytes → SecHdr → Bytes
section_name file h = read_section_name (strings file) h.name

abbrev pub raw_data : Bytes → SecHdr → Bytes
raw_data file h = slice h.pointer_to_raw_data h.size_of_raw_data file

abbrev pub reloc_at : Bytes → SecHdr → ℕ → CoffReloc
reloc_at file h k = decode_reloc (slice (h.pointer_to_relocations + k * 10) 10 file)

abbrev pub symbol_at : Bytes → ℕ → CoffSym
symbol_at file idx =
    decode_symbol (slice ((file_hdr file).pointer_to_symbol_table + idx * 18) 18 file)

abbrev pub symbol_name : Bytes → CoffSym → Bytes
symbol_name file s = read_sym_name (strings file) s.name
