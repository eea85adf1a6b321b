-- ===== src/Macho/Addends/Laws.antt =====
-- What `applyImplicitAddends` of macho/write.go leaves in the code.
use objectfile.Prelude.{◌≡◌, sym, ap, ◌∙◌, some, List, [], ◌∷◌, length, arith}
use mathlib.Core.Option.{some-injective}
use objectfile.Prelude.Bits.{u32}
use objectfile.Prelude.Bytes.{Bytes, length-put_le}
use objectfile.Prelude.Int.{int64_bits}
use objectfile.Object.{Reloc}
use objectfile.Coff.Addends.{length-poke}
use objectfile.Macho.Addends.{addend_size, addend_bytes, apply_addend, apply_implicit_addends}
use objectfile.Macho.File.{RelocDesc}

length-addend_bytes : (r : Reloc) (d : RelocDesc) → length (addend_bytes r d) ≡ addend_size d
unfolding addend_bytes addend_size
length-addend_bytes r d =
    ground
      (arith, length-put_le 8 (int64_bits r.addend), length-put_le 4 (u32 (int64_bits r.addend)))

pub length-apply_addend :
    (code : Bytes) (r : Reloc) (d : RelocDesc) → length (apply_addend code r d) ≡ length code
unfolding apply_addend
length-apply_addend code r d = ground (arith, length-poke code r.offset (addend_bytes r d))

pub length-apply_implicit_addends :
    (relocs : List Reloc) (descs : List RelocDesc) (code : Bytes) {out : Bytes}
    → apply_implicit_addends code relocs descs ≡ some out
    → length out ≡ length code
unfolding apply_implicit_addends
length-apply_implicit_addends [] descs code h = ap length (sym (some-injective _ _ h))
length-apply_implicit_addends (r ∷ relocs) [] code h = absurd (ground arith)
length-apply_implicit_addends (r ∷ relocs) (d ∷ descs) code h =
    length-apply_implicit_addends relocs descs (apply_addend code r d) h
    ∙ length-apply_addend code r d
