-- ===== src/Macho/Addends.antt =====
-- macho/write.go: `addendSize` and `applyImplicitAddends`. An addend of zero leaves the code as it
-- is.
pub mod Laws
use objectfile.Prelude.{
  ℕ, ◌+◌, true, false, Option, none, some, List, [], ◌∷◌, length, ltb, ◌==◌, if◌then◌else◌,
}
use objectfile.Prelude.Bits.{u32}
use objectfile.Prelude.Bytes.{Bytes, put_le}
use objectfile.Prelude.Int.{int64_bits}
use objectfile.Object.{Reloc}
use objectfile.Coff.Addends.{poke}
use objectfile.Macho.File.{RelocDesc, r_length8}

-- addendSize
unfoldable pub addend_size : RelocDesc → ℕ
addend_size d = if d.width == r_length8 then 8 else 4

-- The bytes that the switch on the size writes: uint64(r.Addend), or uint32(int32(r.Addend)).
unfoldable pub addend_bytes : Reloc → RelocDesc → Bytes
addend_bytes r d =
    if addend_size d == 8
    then put_le 8 (int64_bits r.addend)
    else put_le 4 (u32 (int64_bits r.addend))

-- One round of the loop; a zero addend and a field that ends past the code are skipped.
unfoldable pub apply_addend : Bytes → Reloc → RelocDesc → Bytes
apply_addend patched r d =
    if int64_bits r.addend == 0
    then patched
    else if ltb (length patched) (r.offset + addend_size d)
    then patched
    else poke patched r.offset (addend_bytes r d)

-- applyImplicitAddends; `none` is the panic where `descs` is too short.
unfoldable pub apply_implicit_addends : Bytes → List Reloc → List RelocDesc → Option Bytes
apply_implicit_addends code [] descs = some code
apply_implicit_addends code (r ∷ relocs) [] = none
apply_implicit_addends code (r ∷ relocs) (d ∷ descs) =
    apply_implicit_addends (apply_addend code r d) relocs descs
