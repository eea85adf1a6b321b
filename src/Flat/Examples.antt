-- ===== src/Flat/Examples.antt =====
-- Runs of flat/flat.go on a boot sector of two sections, and the theorems of the results there.
use objectfile.Prelude.{◌≡◌, refl, [], ◌∷◌, arith, length, slice, take-length}
use objectfile.Prelude.Bytes.{codes}
use objectfile.Prelude.Int.{pos}
use objectfile.Prelude.Result.{ok, err}
use objectfile.Prelude.Writer.{IsWriter, buffer_writer}
use objectfile.Object.{Section, section_text, section_bss, reloc_abs32}
use objectfile.Flat.{
  File, new_file, add_section, set_base_address, relocations, section_chunk, tail_pad, serialize,
  write_to, write_chunks, first_with_relocs,
}
use objectfile.Flat.Chunk.{contents, IsPadded, section_chunk-IsPadded}
use objectfile.Flat.Image.{
  image, serialize-image, serialize-relocations, slice-serialize, Wrote, write_to-Wrote,
}

abbrev boot : Section
boot = record {
  kind = section_text;
  custom = [];
  align = 4;
  code = 0xfa ∷ 0xf4 ∷ 0xeb ∷ 0xfd ∷ 0x90 ∷ [];
  v_size = 0;
  symbols = [];
  relocs = [];
  flags = 0;
}

abbrev stack : Section
stack = record boot { kind = section_bss; align = 2; code = []; v_size = 3 }

abbrev unresolved : Section
unresolved = record boot {
  relocs = record { offset = 1; symbol = codes "x"; kind = reloc_abs32; addend = pos 0 } ∷ [];
}

abbrev disk : File
disk = record { base = 0x7c00; sections = boot ∷ stack ∷ [] }

built_by_calls : add_section (add_section (set_base_address new_file 0x7c00) boot) stack ≡ disk
unfolding add_section set_base_address
built_by_calls = refl

serialize-disk :
    serialize disk ≡ ok (0xfa ∷ 0xf4 ∷ 0xeb ∷ 0xfd ∷ 0x90 ∷ 0 ∷ 0 ∷ 0 ∷ 0 ∷ 0 ∷ 0 ∷ 0 ∷ [])
unfolding serialize write_to write_chunks first_with_relocs section_chunk tail_pad
serialize-disk = refl

section_chunk-IsPadded_example : IsPadded (contents boot) (section_chunk boot) 4
section_chunk-IsPadded_example = section_chunk-IsPadded boot (omega arith)

serialize-image_example : serialize disk ≡ ok (image (boot ∷ stack ∷ []))
serialize-image_example = serialize-image disk (refl, (refl, tt))

serialize-relocations_example :
    serialize (record disk { sections = boot ∷ unresolved ∷ [] }) ≡ err (relocations 1 1)
serialize-relocations_example =
    serialize-relocations (record disk { sections = boot ∷ unresolved ∷ [] }) (boot ∷ []) unresolved
      [] refl (refl, tt) (omega arith)

slice-serialize_example :
    slice
      (length (image (boot ∷ [])))
      (length (contents stack))
      (0xfa ∷ 0xf4 ∷ 0xeb ∷ 0xfd ∷ 0x90 ∷ 0 ∷ 0 ∷ 0 ∷ 0 ∷ 0 ∷ 0 ∷ 0 ∷ [])
    ≡ contents stack
slice-serialize_example =
    slice-serialize disk (boot ∷ []) stack [] refl (omega arith) serialize-disk

-- A buffer keeps the contract of a writer.
buffer_contract : IsWriter buffer_writer (λ st. st)
buffer_contract = record {
  takes = λ st chunk. rw (take-length (length chunk) chunk refl);
  takes_all = λ st chunk h. refl;
  at_most = λ st chunk. omega arith;
}

write_to-Wrote_example :
    Wrote
      (λ st. st)
      (0x55 ∷ [])
      0
      (image (boot ∷ stack ∷ []))
      (write_to buffer_writer (0x55 ∷ []) disk)
write_to-Wrote_example =
    write_to-Wrote buffer_writer (λ st. st) buffer_contract (0x55 ∷ []) disk (refl, (refl, tt))
