-- ===== src/Macho/Layout.antt =====
-- Phases 5, 6 and 7 of build in macho/write.go, the sizes and the file offsets, and the loop of
-- phase 8 over the contents.
pub mod Bounds
pub mod Placement
use objectfile.Prelude.{
  ℕ, ◌+◌, ◌*◌, Bool, true, false, none, some, List, [], ◌∷◌, ◌++◌, length, ltb, if◌then◌else◌,
}
use objectfile.Prelude.Bits.{u32, u64}
use objectfile.Prelude.Bytes.{Bytes}
use objectfile.Prelude.Result.{Result, ok, err, ◌>>=◌}
use objectfile.Offsets.{align_up, pad_to}
use objectfile.Macho.Addends.{apply_implicit_addends}
use objectfile.Macho.File.{Error, index_panic}
use objectfile.Macho.Format.{
  RelocInfo, encode_reloc, reloc_size, mh_size64, seg_cmd_size64, section_size64, symtab_cmd_size,
  build_ver_cmd_size,
}
use objectfile.Macho.Relocs.{SecWork}

-- Phase 5.
unfoldable pub lc_seg_size : ℕ → ℕ
lc_seg_size n_sec = u32 (seg_cmd_size64 + n_sec * section_size64)

unfoldable pub total_lc_size : Bool → ℕ → ℕ
total_lc_size build_version n_sec =
    u32 (
      u32 (lc_seg_size n_sec + (if build_version then build_ver_cmd_size else 0)) + symtab_cmd_size)

unfoldable pub data_start : Bool → ℕ → ℕ
data_start build_version n_sec = u32 (mh_size64 + total_lc_size build_version n_sec)

-- meta[i].isZerofill
unfoldable pub zero_filled : SecWork → Bool
zero_filled w = w.meta.is_zerofill

-- A section with its entry of the slice `layout`.
pub record SecLaid : Type 0 where
  pub work : SecWork
  pub data_off : ℕ
  pub reloc_off : ℕ
  pub n_reloc : ℕ

-- One round of phase 6: the offsets of a section, and the position behind it.
unfoldable pub place : ℕ → SecWork → SecLaid × ℕ
place pos w =
    let data_off = align_up pos w.meta.align in
    let end = u32 (data_off + w.meta.raw_size) in
    let nr = u32 (length w.records) in
    if zero_filled w
    then (record { work = w; data_off = 0; reloc_off = 0; n_reloc = 0 }, pos)
    else if ltb 0 nr
    then (
      record { work = w; data_off = data_off; reloc_off = end; n_reloc = nr },
      u32 (end + u32 (nr * reloc_size)),
    )
    else (record { work = w; data_off = data_off; reloc_off = 0; n_reloc = 0 }, end)

unfoldable pub layout : ℕ → List SecWork → List SecLaid × ℕ
layout pos [] = ([], pos)
layout pos (w ∷ ws) =
    let here = place pos w in let rest = layout here.1 ws in (here.0 ∷ rest.0, rest.1)

-- Phase 7: segVMSize and segFileSize.
unfoldable pub segment_sizes : List SecWork → ℕ × ℕ → ℕ × ℕ
segment_sizes [] sizes = sizes
segment_sizes (w ∷ ws) (vm, file) = segment_sizes ws (
    if zero_filled w
    then (u64 (vm + w.meta.bss_size), file)
    else (u64 (vm + w.meta.raw_size), u64 (file + w.meta.raw_size)))

unfoldable pub reloc_bytes : List RelocInfo → Bytes
reloc_bytes [] = []
reloc_bytes (r ∷ rs) = encode_reloc r ++ reloc_bytes rs

-- The contents of a section: the code with its addends, and the relocation records.
unfoldable pub block : SecWork → Result Error Bytes
block w = elim (apply_implicit_addends w.sec.code w.sec.relocs w.descs) [
  | none ↦ err index_panic
  | some code ↦ ok (code ++ reloc_bytes w.records)
]

-- One round of the loop over the contents.
unfoldable pub write_block : Bytes → SecLaid → Result Error Bytes
write_block out l =
    if zero_filled l.work
    then ok out
    else do bytes ← block l.work; ok (pad_to out l.data_off ++ bytes)

unfoldable pub write_blocks : Bytes → List SecLaid → Result Error Bytes
write_blocks out [] = ok out
write_blocks out (l ∷ ls) = do next ← write_block out l; write_blocks next ls
