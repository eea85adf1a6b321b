-- ===== src/Coff/Strtab/SectionNames.antt =====
-- What a reader of section headers finds for the fields that `setSectionName` of coff/write.go
-- gives.
use objectfile.Prelude.{
  ℕ, zero, suc, ◌+◌, ◌-◌, ◌^◌, ◌≤◌, ◌<◌, ◌≡◌, ◌≢◌, refl, ap, ◌∙◌, Bool-cases, inl, inr, some, [],
  ◌∷◌, ◌++◌, arith, length, length-append, length-replicate, length-take_le, take, drop, replicate,
  leb, ◌==◌, if◌then◌else◌,
}
use objectfile.Prelude.Bits.{u32}
use objectfile.Prelude.Bytes.{Bytes, NoNul, cstr}
use objectfile.Prelude.Decimal.{
  decimal, read_decimal, read_decimal_lem, length-decimal, decimal-NoNul,
}
use objectfile.Prelude.Table.{lookup}
use objectfile.Elf.Strtab.{StrTab, intern}
use objectfile.Elf.Strtab.Reading.{
  IsValid, Grows, Grows-refl, intern-Grows, lookup-intern, intern-IsValid, cstr-stored, starts_at,
}
use objectfile.Coff.Strtab.{table_bytes, set_section_name}
use objectfile.Coff.Strtab.Reading.{cstr-padded, drop-table_bytes}

-- The name that a reader of section headers finds: behind a slash stands the offset in the string
-- table as decimal digits.
unfoldable pub read_section_name : Bytes → Bytes → Bytes
read_section_name table [] = []
read_section_name table (b ∷ field) =
    if b == b'/' then cstr (drop (read_decimal (cstr field)) table) else cstr (b ∷ field)

-- The field of a section name.
pub data SectionEncoded (t : StrTab) (name field : Bytes) : Type 0 where
  inline :
      length name ≤ 8 → field ≡ name ++ replicate (8 - length name) 0 → SectionEncoded t name field
  by_offset :
      (off : ℕ)
      → lookup name t.offsets ≡ some off
      → field ≡ take 8 ((b'/' ∷ decimal (u32 (off + 4))) ++ replicate 8 0)
      → SectionEncoded t name field

pub set_section_name-Encoded :
    (t : StrTab) (name : Bytes)
    → SectionEncoded (set_section_name t name).0 name (set_section_name t name).1
unfolding set_section_name
set_section_name-Encoded t name = elim (Bool-cases (leb (length name) 8)) [
  | inl short ↦ rw short (inline (ground arith) refl)
  | inr long ↦ rw long (by_offset (intern t name).1 (lookup-intern t name) refl)
]

pub set_section_name-Grows : (t : StrTab) (name : Bytes) → Grows t (set_section_name t name).0
unfolding set_section_name
set_section_name-Grows t name = elim (Bool-cases (leb (length name) 8)) [
  | inl short ↦ rw short (Grows-refl t)
  | inr long ↦ rw long (intern-Grows t name)
]

pub set_section_name-IsValid :
    (t : StrTab) (name : Bytes) → IsValid t → IsValid (set_section_name t name).0
unfolding set_section_name
set_section_name-IsValid t name h = elim (Bool-cases (leb (length name) 8)) [
  | inl short ↦ rw short h
  | inr long ↦ rw long (intern-IsValid t name h)
]

pub SectionEncoded-Grows :
    {t u : StrTab} {name field : Bytes}
    → Grows t u
    → SectionEncoded t name field
    → SectionEncoded u name field
SectionEncoded-Grows g (inline short e) = inline short e
SectionEncoded-Grows {name = name} g (by_offset off found e) =
    by_offset off (g.keeps name off found) e

take-replicate : (n k : ℕ) → n ≤ k → take n (replicate {A = ℕ} k 0) ≡ replicate n 0
take-replicate zero k h = refl
take-replicate (suc n) zero h = absurd (omega arith)
take-replicate (suc n) (suc k) h = ap (λ t. 0 ∷ t) (take-replicate n k (omega arith))

take-padded :
    (n k : ℕ) (xs : Bytes)
    → length xs ≤ n
    → n ≤ length xs + k
    → take n (xs ++ replicate k 0) ≡ xs ++ replicate (n - length xs) 0
take-padded n k [] h p = take-replicate n k (omega arith) ∙ ap (λ m. replicate m 0) (omega arith)
take-padded zero k (x ∷ xs) h p = absurd (omega arith)
take-padded (suc n) k (x ∷ xs) h p =
    let e : suc n - suc (length xs) ≡ n - length xs = omega arith in
    rw e (ap (λ t. x ∷ t) (take-padded n k xs (omega arith) (omega arith)))

length-take_8 : (xs : Bytes) → length (take 8 (xs ++ replicate 8 0)) ≡ 8
length-take_8 xs =
    length-take_le 8 (xs ++ replicate 8 0)
      (omega (arith, length-append xs (replicate 8 0), length-replicate {A = ℕ} 8 0))

pub length-SectionEncoded :
    {t : StrTab} {name field : Bytes} → SectionEncoded t name field → length field ≡ 8
length-SectionEncoded {name = name} (inline short e) = omega (
  arith,
  ap length e,
  length-append name (replicate (8 - length name) 0),
  length-replicate {A = ℕ} (8 - length name) 0,
)
length-SectionEncoded (by_offset off found e) =
    ap length e ∙ length-take_8 (b'/' ∷ decimal (u32 (off + 4)))

-- A name that starts with no slash.
abbrev pub NoSlash : Bytes → Type 0
NoSlash [] = Unit {0}
NoSlash (b ∷ bs) = b ≢ b'/'

read_inline :
    (table name : Bytes) (k : ℕ)
    → NoNul name
    → NoSlash name
    → read_section_name table (name ++ replicate k 0) ≡ name
unfolding read_section_name cstr
read_inline table [] zero clean s = refl
read_inline table [] (suc k) clean s = refl
read_inline table (b ∷ name) k clean s = ground (arith, cstr-padded (b ∷ name) k clean)

read_digits :
    (table : Bytes) (n k : ℕ)
    → n < 2 ^ 32
    → read_section_name table (b'/' ∷ (decimal n ++ replicate k 0)) ≡ cstr (drop n table)
unfolding read_section_name
read_digits table n k h =
    ap (λ m. cstr (drop m table))
      (ap read_decimal (cstr-padded (decimal n) k (decimal-NoNul n)) ∙ read_decimal_lem n h)

-- In a string table of at most 9,999,999 bytes with its size prefix the field of a section name
-- that has no NUL byte and starts with no slash reads back the name.
pub read_section_name-Encoded :
    (t : StrTab) (name field : Bytes)
    → IsValid t
    → NoNul name
    → NoSlash name
    → length t.payload + 4 < 10 ^ 7
    → SectionEncoded t name field
    → read_section_name (table_bytes t) field ≡ name
read_section_name-Encoded t name field valid clean plain small (inline short e) =
    rw e (read_inline (table_bytes t) name (8 - length name) clean plain)
read_section_name-Encoded t name field valid clean plain small (by_offset off found e) =
    let stored = valid.stored name off found in
    let start =
      starts_at t.payload name off stored.before stored.after (omega arith) stored.shape
        stored.start in
    let end : u32 (off + 4) ≡ 4 + off = omega (
      arith,
      ap length stored.shape,
      length-append stored.before (name ++ (0 ∷ stored.after)),
      start,
    ) in
    let digits = decimal (u32 (off + 4)) in
    let few = length-decimal 6 (u32 (off + 4)) (
      omega (
        arith,
        ap length stored.shape,
        length-append stored.before (name ++ (0 ∷ stored.after)),
        start,
      )) in
    ap (read_section_name (table_bytes t))
      (e ∙ take-padded 8 8 (b'/' ∷ digits) (omega arith) (omega arith))
    ∙ read_digits (table_bytes t) (u32 (off + 4)) (8 - length (b'/' ∷ digits)) (omega arith)
    ∙ ap (λ n. cstr (drop n (table_bytes t))) end
    ∙ ap cstr (drop-table_bytes t off)
    ∙ cstr-stored t name off valid clean (omega arith) found
