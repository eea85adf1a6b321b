-- ===== src/Coff/Strtab/Reading.antt =====
-- What a reader of symbol records finds for the fields that `encodeSymName` of coff/write.go gives.
use objectfile.Prelude.{
  ℕ, zero, suc, ◌+◌, ◌-◌, ◌^◌, ◌≤◌, ◌<◌, ◌≡◌, ◌≢◌, refl, sym, ap, ◌∙◌, Bool-cases, inl, inr, some,
  List, [], ◌∷◌, ◌++◌, append-nil, arith, length, length-append, length-replicate, take, drop,
  drop_add, replicate, leb, ◌==◌, if◌then◌else◌,
}
use objectfile.Prelude.Bits.{u32}
use objectfile.Prelude.Bytes.{
  Bytes, put_le, get_le, get_le-put_le, length-put_le, NoNul, cstr, cstr-append,
}
use objectfile.Prelude.Table.{lookup}
use objectfile.Elf.Strtab.{StrTab, intern}
use objectfile.Elf.Strtab.Reading.{
  IsValid, Grows, Grows-refl, intern-Grows, lookup-intern, intern-IsValid, intern_all,
  intern_all-Grows, intern_all-IsValid, cstr-stored, starts_at,
}
use objectfile.Coff.Strtab.{new_str_tab, table_bytes, encode_sym_name}

-- The name that a reader of symbol records finds: in the string table if the first four bytes of
-- the field are zero, at the offset in the last four, and else in the field.
unfoldable pub read_sym_name : Bytes → Bytes → Bytes
read_sym_name table field =
    if get_le (take 4 field) == 0 then cstr (drop (get_le (drop 4 field)) table) else cstr field

pub new_str_tab-IsValid : IsValid new_str_tab
unfolding lookup
new_str_tab-IsValid = record { stored = λ s off h. absurd (ground arith) }

cstr-NoNul : (s : Bytes) → NoNul s → cstr s ≡ s
unfolding cstr
cstr-NoNul [] h = refl
cstr-NoNul (b ∷ s) h = ground (arith, cstr-NoNul s h.1)

pub cstr-padded : (s : Bytes) (k : ℕ) → NoNul s → cstr (s ++ replicate k 0) ≡ s
cstr-padded s zero h = ap cstr (append-nil s) ∙ cstr-NoNul s h
cstr-padded s (suc k) h = cstr-append s (replicate k 0) h

read_short :
    (table s : Bytes) (k : ℕ) → NoNul s → s ≢ [] → read_sym_name table (s ++ replicate k 0) ≡ s
unfolding read_sym_name get_le
read_short table [] k h p = absurd (p refl)
read_short table (b ∷ s) k h p = ground (arith, cstr-padded (b ∷ s) k h)

read_long :
    (table : Bytes) (v : ℕ)
    → v < 2 ^ 32
    → read_sym_name table (replicate 4 0 ++ put_le 4 v) ≡ cstr (drop v table)
unfolding read_sym_name get_le
read_long table v h = ap (λ n. cstr (drop n table)) (get_le-put_le 4 v (omega arith))

pub drop-table_bytes : (t : StrTab) (off : ℕ) → drop (4 + off) (table_bytes t) ≡ drop off t.payload
unfolding table_bytes
drop-table_bytes t off =
    let size = u32 (4 + length t.payload) in
    drop_add 4 off (put_le 4 size) t.payload (sym (length-put_le 4 size))

pub length-table_bytes : (t : StrTab) → length (table_bytes t) ≡ 4 + length t.payload
unfolding table_bytes
length-table_bytes t =
    let size = u32 (4 + length t.payload) in
    omega (arith, length-append (put_le 4 size) t.payload, length-put_le 4 size)

-- A string of the table is read behind the size prefix.
read_stored :
    (t : StrTab) (s : Bytes) (off : ℕ)
    → IsValid t
    → NoNul s
    → length t.payload + 4 < 2 ^ 32
    → lookup s t.offsets ≡ some off
    → read_sym_name (table_bytes t) (replicate 4 0 ++ put_le 4 (u32 (off + 4))) ≡ s
read_stored t s off valid clean small h =
    let found = valid.stored s off h in
    let start =
      starts_at t.payload s off found.before found.after (omega arith) found.shape found.start in
    let end : u32 (off + 4) ≡ 4 + off =
      omega (
        arith,
        ap length found.shape,
        length-append found.before (s ++ (0 ∷ found.after)),
        start,
      ) in
    read_long (table_bytes t) (u32 (off + 4)) (omega arith)
    ∙ ap (λ n. cstr (drop n (table_bytes t))) end
    ∙ ap cstr (drop-table_bytes t off)
    ∙ cstr-stored t s off valid clean (omega arith) h

-- The field of a name: the name with zeros behind it, or its offset behind the size prefix.
pub data Encoded (t : StrTab) (name field : Bytes) : Type 0 where
  inline : length name ≤ 8 → field ≡ name ++ replicate (8 - length name) 0 → Encoded t name field
  by_offset :
      (off : ℕ)
      → lookup name t.offsets ≡ some off
      → field ≡ replicate 4 0 ++ put_le 4 (u32 (off + 4))
      → Encoded t name field

pub encode_sym_name-Encoded :
    (t : StrTab) (name : Bytes) → Encoded (encode_sym_name t name).0 name (encode_sym_name t name).1
unfolding encode_sym_name
encode_sym_name-Encoded t name = elim (Bool-cases (leb (length name) 8)) [
  | inl short ↦ rw short (inline (ground arith) refl)
  | inr long ↦ rw long (by_offset (intern t name).1 (lookup-intern t name) refl)
]

pub encode_sym_name-Grows : (t : StrTab) (name : Bytes) → Grows t (encode_sym_name t name).0
unfolding encode_sym_name
encode_sym_name-Grows t name = elim (Bool-cases (leb (length name) 8)) [
  | inl short ↦ rw short (Grows-refl t)
  | inr long ↦ rw long (intern-Grows t name)
]

pub encode_sym_name-IsValid :
    (t : StrTab) (name : Bytes) → IsValid t → IsValid (encode_sym_name t name).0
unfolding encode_sym_name
encode_sym_name-IsValid t name h = elim (Bool-cases (leb (length name) 8)) [
  | inl short ↦ rw short h
  | inr long ↦ rw long (intern-IsValid t name h)
]

pub Encoded-Grows :
    {t u : StrTab} {name field : Bytes} → Grows t u → Encoded t name field → Encoded u name field
Encoded-Grows g (inline short e) = inline short e
Encoded-Grows {name = name} g (by_offset off found e) = by_offset off (g.keeps name off found) e

pub length-Encoded : {t : StrTab} {name field : Bytes} → Encoded t name field → length field ≡ 8
length-Encoded {name = name} (inline short e) = omega (
  arith,
  ap length e,
  length-append name (replicate (8 - length name) 0),
  length-replicate {A = ℕ} (8 - length name) 0,
)
length-Encoded (by_offset off found e) = omega (
  arith,
  ap length e,
  length-append (replicate 4 0) (put_le 4 (u32 (off + 4))),
  length-put_le 4 (u32 (off + 4)),
)

-- The field of a name reads back the name in any table of less than 4 GiB that has the name.
pub read_sym_name-Encoded :
    (t : StrTab) (name field : Bytes)
    → IsValid t
    → NoNul name
    → name ≢ []
    → length t.payload + 4 < 2 ^ 32
    → Encoded t name field
    → read_sym_name (table_bytes t) field ≡ name
read_sym_name-Encoded t name field valid clean some_byte small (inline short e) =
    rw e (read_short (table_bytes t) name (8 - length name) clean some_byte)
read_sym_name-Encoded t name field valid clean some_byte small (by_offset off found e) =
    rw e (read_stored t name off valid clean small found)

-- The field that encodeSymName gives for a name that is not empty and has no NUL byte reads back
-- that name with the table as it is written after later strings, if that is below 4 GiB.
pub read_sym_name-encode_sym_name :
    (earlier later : List Bytes) (name : Bytes)
    → NoNul name
    → name ≢ []
    → let encoded = encode_sym_name (intern_all earlier new_str_tab) name in
      length (intern_all later encoded.0).payload + 4 < 2 ^ 32
      → read_sym_name (table_bytes (intern_all later encoded.0)) encoded.1 ≡ name
read_sym_name-encode_sym_name earlier later name clean some_byte small =
    let t = intern_all earlier new_str_tab in
    let valid = intern_all-IsValid earlier new_str_tab new_str_tab-IsValid in
    let u = (encode_sym_name t name).0 in
    read_sym_name-Encoded (intern_all later u) name (encode_sym_name t name).1
      (intern_all-IsValid later u (encode_sym_name-IsValid t name valid)) clean some_byte small
      (Encoded-Grows (intern_all-Grows later u) (encode_sym_name-Encoded t name))
