-- ===== src/Macho/Reader.antt =====
-- A reader of Mach-O object files, stated apart from the package: it takes the entry of a section from
-- behind the header and the segment command, and follows its offsets as a linker does.
use objectfile.Prelude.{ℕ, ◌+◌, ◌*◌, slice}
use objectfile.Prelude.Bytes.{Bytes}
use objectfile.Macho.Format.{SectionHdr, RelocInfo}
use objectfile.Macho.Format.Decode.{decode_section, decode_reloc}

abbrev pub section_at : Bytes → ℕ → SectionHdr
section_at file i = decode_section (slice (104 + i * 80) 80 file)

abbrev pub raw_data : Bytes → SectionHdr → Bytes
raw_data file h = slice h.offset h.size file

abbrev pub reloc_at : Bytes → SectionHdr → ℕ → RelocInfo
reloc_at file h k = decode_reloc (slice (h.rel_off + k * 8) 8 file)
