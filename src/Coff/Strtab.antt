-- ===== src/Coff/Strtab.antt =====
-- coff/strtab.go, and `encodeSymName` and `setSectionName` of coff/write.go. The struct and `intern`
-- are those of elf/strtab.go, so the model of that file is used; the table starts empty, and is
-- written with its size in front.
pub mod Reading
pub mod SectionNames
use objectfile.Prelude.{
  ℕ, ◌+◌, ◌-◌, Bool, List, [], ◌∷◌, ◌++◌, length, take, replicate, leb, if◌then◌else◌,
}
use objectfile.Prelude.Bits.{u32}
use objectfile.Prelude.Bytes.{Bytes, put_le}
use objectfile.Prelude.Decimal.{decimal}
use objectfile.Elf.Strtab.{StrTab, intern}

-- newStrTab
abbrev pub new_str_tab : StrTab
new_str_tab = record { payload = []; offsets = [] }

-- bytes: the table with its size prefix. The source takes the 32-bit size for the capacity of a slice
-- of length 4, so it panics where 4 + len wraps to less than 4; a table of that size, 4 GiB, is
-- outside the model.
unfoldable pub table_bytes : StrTab → Bytes
table_bytes t = put_le 4 (u32 (4 + length t.payload)) ++ t.payload

-- encodeSymName: the table after the call, and the field.
unfoldable pub encode_sym_name : StrTab → Bytes → StrTab × Bytes
encode_sym_name t name =
    if leb (length name) 8
    then (t, name ++ replicate (8 - length name) 0)
    else ((intern t name).0, replicate 4 0 ++ put_le 4 (u32 ((intern t name).1 + 4)))

-- setSectionName on a field of zeros: the table after the call, and the field. `copy` cuts a text
-- that is longer than the field.
unfoldable pub set_section_name : StrTab → Bytes → StrTab × Bytes
set_section_name t name =
    if leb (length name) 8 then (t, name ++ replicate (8 - length name) 0) else (
      (intern t name).0,
      take 8 ((b'/' ∷ decimal (u32 ((intern t name).1 + 4))) ++ replicate 8 0),
    )
