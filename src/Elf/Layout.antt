-- ===== src/Elf/Layout.antt =====
-- Phases 4 and 5 of build64 and build32 in elf/write.go on the descriptors: file offsets, and the
-- bytes of the section data and of the section headers.
pub mod Bounds
pub mod Placement
use objectfile.Prelude.{
  ℕ, suc, ◌+◌, Bool, true, false, ◌||◌, List, [], ◌∷◌, ◌++◌, length, ◌==◌, if◌then◌else◌,
}
use objectfile.Prelude.Bits.{u64}
use objectfile.Prelude.Bytes.{Bytes, pad_to}
use objectfile.Prelude.Table.{lookup, get_or}
use objectfile.Elf.Align.{align_up}
use objectfile.Elf.Consts.{sht_no_bits}
use objectfile.Elf.Format.{Class, Shdr, zero_shdr}
use objectfile.Elf.Sections.{SecDesc}
use objectfile.Elf.Strtab.{StrTab}

-- The offset of a section at `pos`, and the position after it. A section without file bytes takes
-- the aligned position, and one with no data the position as it is.
unfoldable pub place : ℕ → SecDesc → ℕ × ℕ
place pos d =
    if d.sh_type == sht_no_bits
    then (align_up pos d.align, align_up pos d.align)
    else if length d.bytes == 0
    then (pos, pos)
    else (align_up pos d.align, u64 (align_up pos d.align + length d.bytes))

-- The loop of phase 4: the descriptors with their offsets, and the position at the end.
unfoldable pub layout_from : ℕ → List SecDesc → List SecDesc × ℕ
layout_from pos [] = ([], pos)
layout_from pos (d ∷ ds) =
    let placed = place pos d in
    let rest = layout_from placed.1 ds in (record d { file_off = placed.0 } ∷ rest.0, rest.1)

-- Phase 4; the NULL section is passed over.
unfoldable pub layout : Class → List SecDesc → List SecDesc × ℕ
layout c [] = ([], c.ehdr_size)
layout c (d ∷ ds) = let rest = layout_from c.ehdr_size ds in (d ∷ rest.0, rest.1)

-- The data of one section, at its offset.
unfoldable pub write_desc : Bytes → SecDesc → Bytes
write_desc out d =
    if (d.sh_type == sht_no_bits) || (length d.bytes == 0)
    then out
    else pad_to out d.file_off ++ d.bytes

unfoldable pub write_descs : Bytes → List SecDesc → Bytes
write_descs out [] = out
write_descs out (d ∷ ds) = write_descs (write_desc out d) ds

-- for i := 1; i < len(descs); i++
unfoldable pub write_contents : Bytes → List SecDesc → Bytes
write_contents out [] = out
write_contents out (d ∷ ds) = write_descs out ds

-- The header of a section past the first.
unfoldable pub header_of : StrTab → SecDesc → Shdr
header_of shstrtab d = record {
  name = get_or 0 (lookup d.name shstrtab.offsets);
  sh_type = d.sh_type;
  flags = d.flags;
  offset = d.file_off;
  size = if d.sh_type == sht_no_bits then d.no_size else length d.bytes;
  link = d.link;
  info = d.info;
  addralign = d.align;
  entsize = d.ent_size;
}

unfoldable pub headers_from : Class → StrTab → List SecDesc → Bytes
headers_from c shstrtab [] = []
headers_from c shstrtab (d ∷ ds) =
    c.encode_shdr (header_of shstrtab d) ++ headers_from c shstrtab ds

-- The section header table; that of the NULL section is all zeros.
unfoldable pub header_table : Class → StrTab → List SecDesc → Bytes
header_table c shstrtab [] = []
header_table c shstrtab (d ∷ ds) = c.encode_shdr zero_shdr ++ headers_from c shstrtab ds
