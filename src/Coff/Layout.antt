-- ===== src/Coff/Layout.antt =====
-- Phase 6 of build in coff/write.go, the file offsets, and the loop of phase 7 over the contents.
pub mod Bounds
pub mod Placement
use objectfile.Prelude.{
  ℕ, ◌+◌, ◌*◌, Bool, true, false, Option, none, some, List, [], ◌∷◌, ◌++◌, length, ltb,
  if◌then◌else◌,
}
use objectfile.Prelude.Bits.{u16, u32}
use objectfile.Prelude.Bytes.{Bytes}
use objectfile.Prelude.Result.{Result, ok, err, ◌>>=◌}
use objectfile.Offsets.{align_up, pad_to}
use objectfile.Coff.Addends.{apply_implicit_addends}
use objectfile.Coff.File.{Error, too_many_relocations, index_panic}
use objectfile.Coff.Format.{CoffReloc, encode_reloc, coff_reloc_size}
use objectfile.Coff.Relocs.{SecWork}
use objectfile.Coff.Sections.{section_meta, is_bss_like}

-- A section with its entry of the slice `layout`.
pub record SecLaid : Type 0 where
  pub work : SecWork
  pub raw_off : ℕ
  pub reloc_off : ℕ
  pub n_relocs : ℕ

-- The offsets of a section with raw bytes, and the position behind it.
unfoldable pub placed : ℕ → SecWork → SecLaid × ℕ
placed pos w =
    let m = section_meta w.sec in
    let raw_off = align_up pos m.align in
    let end = u32 (raw_off + m.raw_size) in
    let nr = length w.records in
    if ltb 0 nr
    then (
      record { work = w; raw_off = raw_off; reloc_off = end; n_relocs = u16 nr },
      u32 (end + u32 (u32 nr * coff_reloc_size)),
    )
    else (record { work = w; raw_off = raw_off; reloc_off = 0; n_relocs = 0 }, end)

-- One round of phase 6.
unfoldable pub place : ℕ → SecWork → Result Error (SecLaid × ℕ)
place pos w =
    if is_bss_like w.sec
    then ok (record { work = w; raw_off = 0; reloc_off = 0; n_relocs = 0 }, pos)
    else if ltb 0xffff (length w.records)
    then err (too_many_relocations (section_meta w.sec).name (length w.records))
    else ok (placed pos w)

unfoldable pub layout : ℕ → List SecWork → Result Error (List SecLaid × ℕ)
layout pos [] = ok ([], pos)
layout pos (w ∷ ws) = do here ← place pos w; rest ← layout here.1 ws; ok (here.0 ∷ rest.0, rest.1)

unfoldable pub reloc_bytes : List CoffReloc → Bytes
reloc_bytes [] = []
reloc_bytes (r ∷ rs) = encode_reloc r ++ reloc_bytes rs

-- The contents of a section with raw bytes: the code with its addends, and the relocation records.
unfoldable pub block : ℕ → SecWork → Result Error Bytes
block machine w = elim (apply_implicit_addends w.sec.code w.sec.relocs w.rtypes machine) [
  | none ↦ err index_panic
  | some code ↦ ok (code ++ reloc_bytes w.records)
]

-- One round of the loop over the contents.
unfoldable pub write_block : ℕ → Bytes → SecLaid → Result Error Bytes
write_block machine out l =
    if is_bss_like l.work.sec
    then ok out
    else do bytes ← block machine l.work; ok (pad_to out l.raw_off ++ bytes)

unfoldable pub write_blocks : ℕ → Bytes → List SecLaid → Result Error Bytes
write_blocks machine out [] = ok out
write_blocks machine out (l ∷ ls) = do
  next ← write_block machine out l
  write_blocks machine next ls
