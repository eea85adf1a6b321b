-- ===== src/Elf/Strtab.antt =====
-- elf/strtab.go: the string table builder. `Reading` says what a reader finds in a table.
pub mod Reading
use objectfile.Prelude.{ℕ, zero, suc, List, [], ◌∷◌, ◌++◌, Option, none, some, length}
use objectfile.Prelude.Bits.{u32}
use objectfile.Prelude.Bytes.{Bytes}
use objectfile.Prelude.Table.{Table, lookup, insert}

-- strTab; `payload` is the field `data`.
pub record StrTab : Type 0 where
  pub payload : Bytes
  pub offsets : Table ℕ

abbrev pub new_str_tab : StrTab
new_str_tab = record { payload = 0 ∷ []; offsets = insert [] 0 [] }

-- intern, on a string that the table has at `found` or not at all.
abbrev intern_at : Option ℕ → StrTab → Bytes → StrTab × ℕ
intern_at (some off) t s = (t, off)
intern_at none t s =
    let off = u32 (length t.payload) in
    (record { payload = (t.payload ++ s) ++ (0 ∷ []); offsets = insert s off t.offsets }, off)

-- intern: the table after the call, and the offset of the string.
unfoldable pub intern : StrTab → Bytes → StrTab × ℕ
intern t s = intern_at (lookup s t.offsets) t s
