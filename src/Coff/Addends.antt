-- ===== src/Coff/Addends.antt =====
-- coff/write.go: `relocAddendSize` and `applyImplicitAddends`, which writes the addends of
-- relocations into the code. Slices of bytes are overwritten in place.
use objectfile.Prelude.{
  ℕ, zero, suc, ◌+◌, ◌-◌, ◌%◌, ◌^◌, ◌≤◌, ◌<◌, ◌≡◌, refl, sym, ap, ◌∙◌, Bool, true, false, ◌&&◌,
  ◌||◌, ◌⊎◌, inl, inr, Option, none, some, List, [], ◌∷◌, ◌++◌, length, get_elem?, arith, ltb,
  Bool-cases, ◌==◌, if◌then◌else◌,
}
use mathlib.Core.Option.{some-injective}
use objectfile.Prelude.Bits.{u32, u64}
use objectfile.Prelude.Bytes.{Bytes, put_le, length-put_le, get_le, get_le-put_le}
use objectfile.Prelude.Int.{int64_bits}
use objectfile.Prelude.Result.{ok}
use objectfile.Object.{Reloc, RelocKind, reloc_abs64, reloc_abs32}
use objectfile.Coff.File.{
  File, reloc_type, type_for_machine, amd64_type, arm64_type, machine_arm64, machine_amd64,
  rel_amd64_addr64, rel_amd64_rel32, rel_arm64_addr64,
}

-- relocAddendSize
unfoldable pub reloc_addend_size : ℕ → ℕ
reloc_addend_size t = if (t == rel_amd64_addr64) || (t == rel_arm64_addr64) then 8 else 4

-- PutUint32 and PutUint64 at an offset: the bytes replace those that stand there.
unfoldable pub poke : Bytes → ℕ → Bytes → Bytes
poke [] off bs = []
poke (c ∷ code) (suc off) bs = c ∷ poke code off bs
poke (c ∷ code) zero [] = c ∷ code
poke (c ∷ code) zero (b ∷ bs) = b ∷ poke code zero bs

-- The bits of `addend`, an int64 that wraps around.
unfoldable pub addend_bits : ℕ → Reloc → ℕ → ℕ
addend_bits machine r t =
    if (machine == machine_amd64) && (t == rel_amd64_rel32)
    then u64 (int64_bits r.addend + 4)
    else int64_bits r.addend

-- The bytes that the switch on the size writes: uint64(addend), or uint32(int32(addend)).
unfoldable pub addend_bytes : ℕ → Reloc → ℕ → Bytes
addend_bytes machine r t =
    if reloc_addend_size t == 8
    then put_le 8 (addend_bits machine r t)
    else put_le 4 (u32 (addend_bits machine r t))

-- One round of the loop; a field that ends past the code is skipped.
unfoldable pub apply_addend : ℕ → Bytes → Reloc → ℕ → Bytes
apply_addend machine patched r t =
    if ltb (length patched) (r.offset + reloc_addend_size t)
    then patched
    else poke patched r.offset (addend_bytes machine r t)

-- applyImplicitAddends; `none` is the panic where `rtypes` is too short.
unfoldable pub apply_implicit_addends : Bytes → List Reloc → List ℕ → ℕ → Option Bytes
apply_implicit_addends code [] rtypes machine = some code
apply_implicit_addends code (r ∷ relocs) [] machine = none
apply_implicit_addends code (r ∷ relocs) (t ∷ rtypes) machine =
    apply_implicit_addends (apply_addend machine code r t) relocs rtypes machine

le→not_ltb : (a b : ℕ) → b ≤ a → ltb a b ≡ false
le→not_ltb a b h = ground arith

-- The kinds that the width of the field depends on.
pub is_abs64 : RelocKind → Bool
is_abs64 reloc_abs64 = true
is_abs64 _ = false

pub is_abs32 : RelocKind → Bool
is_abs32 reloc_abs32 = true
is_abs32 _ = false

pub length-poke : (code : Bytes) (off : ℕ) (bs : Bytes) → length (poke code off bs) ≡ length code
unfolding poke
length-poke [] off bs = refl
length-poke (c ∷ code) (suc off) bs = ap suc (length-poke code off bs)
length-poke (c ∷ code) zero [] = refl
length-poke (c ∷ code) zero (b ∷ bs) = ap suc (length-poke code zero bs)

-- The position stands before the field or behind it.
abbrev pub Outside : ℕ → ℕ → ℕ → Type 0
Outside off size i = (i < off) ⊎ (off + size ≤ i)

pub get_elem?-poke-Outside :
    (code : Bytes) (off : ℕ) (bs : Bytes) (i : ℕ)
    → Outside off (length bs) i
    → get_elem? (poke code off bs) i ≡ get_elem? code i
unfolding poke
get_elem?-poke-Outside [] off bs i h = refl
get_elem?-poke-Outside (c ∷ code) (suc off) bs zero h = refl
get_elem?-poke-Outside (c ∷ code) (suc off) bs (suc i) h =
    get_elem?-poke-Outside code off bs i (ground arith)
get_elem?-poke-Outside (c ∷ code) zero [] i h = refl
get_elem?-poke-Outside (c ∷ code) zero (b ∷ bs) zero h = absurd (ground arith)
get_elem?-poke-Outside (c ∷ code) zero (b ∷ bs) (suc i) h =
    get_elem?-poke-Outside code zero bs i (ground arith)

pub get_elem?-poke-inside :
    (code : Bytes) (off : ℕ) (bs : Bytes) (i j : ℕ)
    → off + length bs ≤ length code
    → j < length bs
    → i ≡ off + j
    → get_elem? (poke code off bs) i ≡ get_elem? bs j
unfolding poke
get_elem?-poke-inside [] off bs i j h p e = absurd (omega arith)
get_elem?-poke-inside (c ∷ code) (suc off) bs zero j h p e = absurd (omega arith)
get_elem?-poke-inside (c ∷ code) (suc off) bs (suc i) j h p e =
    get_elem?-poke-inside code off bs i j (omega arith) p (omega arith)
get_elem?-poke-inside (c ∷ code) zero [] i j h p e = absurd (omega arith)
get_elem?-poke-inside (c ∷ code) zero (b ∷ bs) zero zero h p e = refl
get_elem?-poke-inside (c ∷ code) zero (b ∷ bs) zero (suc j) h p e = absurd (omega arith)
get_elem?-poke-inside (c ∷ code) zero (b ∷ bs) (suc i) zero h p e = absurd (omega arith)
get_elem?-poke-inside (c ∷ code) zero (b ∷ bs) (suc i) (suc j) h p e =
    get_elem?-poke-inside code zero bs i j (omega arith) (omega arith) (omega arith)

length-addend_bytes :
    (machine : ℕ) (r : Reloc) (t : ℕ) → length (addend_bytes machine r t) ≡ reloc_addend_size t
unfolding addend_bytes reloc_addend_size
length-addend_bytes machine r t = ground (
  arith,
  length-put_le 8 (addend_bits machine r t),
  length-put_le 4 (u32 (addend_bits machine r t)),
)

length-apply_addend :
    (machine : ℕ) (code : Bytes) (r : Reloc) (t : ℕ)
    → length (apply_addend machine code r t) ≡ length code
unfolding apply_addend
length-apply_addend machine code r t =
    ground (arith, length-poke code r.offset (addend_bytes machine r t))

pub length-apply_implicit_addends :
    (relocs : List Reloc) (rtypes : List ℕ) (machine : ℕ) (code : Bytes) {out : Bytes}
    → apply_implicit_addends code relocs rtypes machine ≡ some out
    → length out ≡ length code
unfolding apply_implicit_addends
length-apply_implicit_addends [] rtypes machine code h = ap length (sym (some-injective _ _ h))
length-apply_implicit_addends (r ∷ relocs) [] machine code h = absurd (ground arith)
length-apply_implicit_addends (r ∷ relocs) (t ∷ rtypes) machine code h =
    length-apply_implicit_addends relocs rtypes machine (apply_addend machine code r t) h
    ∙ length-apply_addend machine code r t

apply_addend-Outside :
    (machine : ℕ) (code : Bytes) (r : Reloc) (t i : ℕ)
    → Outside r.offset (reloc_addend_size t) i
    → get_elem? (apply_addend machine code r t) i ≡ get_elem? code i
unfolding apply_addend
apply_addend-Outside machine code r t i h =
    elim (Bool-cases (ltb (length code) (r.offset + reloc_addend_size t))) [
      | inl skipped ↦ rw skipped refl
      | inr written ↦ rw written (
          get_elem?-poke-Outside code r.offset (addend_bytes machine r t) i
            (rw (length-addend_bytes machine r t) h))
    ]

-- The position stands in the field of none of the relocations.
abbrev pub AllOutside : List Reloc → List ℕ → ℕ → Type 0
AllOutside (r ∷ relocs) (t ∷ rtypes) i =
    Outside r.offset (reloc_addend_size t) i × AllOutside relocs rtypes i
AllOutside _ _ i = Unit {0}

-- With a type for each relocation the addends are applied to the code, which keeps its length, and
-- its bytes that stand in the field of no relocation.
pub apply_implicit_addends-outside :
    (relocs : List Reloc) (rtypes : List ℕ) (machine : ℕ) (code : Bytes)
    → length relocs ≡ length rtypes
    → (out : Bytes) × (apply_implicit_addends code relocs rtypes machine ≡ some out)
      × (length out ≡ length code)
      × ((i : ℕ) → AllOutside relocs rtypes i → get_elem? out i ≡ get_elem? code i)
unfolding apply_implicit_addends
apply_implicit_addends-outside [] rtypes machine code h = (code, refl, refl, λ i o. refl)
apply_implicit_addends-outside (r ∷ relocs) [] machine code h = absurd (omega arith)
apply_implicit_addends-outside (r ∷ relocs) (t ∷ rtypes) machine code h =
    let (out, e, len, same) =
      apply_implicit_addends-outside relocs rtypes machine (apply_addend machine code r t)
        (omega arith) in
    (
      out,
      e,
      len ∙ length-apply_addend machine code r t,
      λ i o. same i o.1 ∙ apply_addend-Outside machine code r t i o.0,
    )

apply_addend-inside :
    (machine : ℕ) (code : Bytes) (r : Reloc) (t j : ℕ)
    → r.offset + reloc_addend_size t ≤ length code
    → j < reloc_addend_size t
    → get_elem? (apply_addend machine code r t) (r.offset + j)
      ≡ get_elem? (addend_bytes machine r t) j
unfolding apply_addend
apply_addend-inside machine code r t j h p =
    let size = length-addend_bytes machine r t in
    rw (le→not_ltb (length code) (r.offset + reloc_addend_size t) h) (
      get_elem?-poke-inside code r.offset (addend_bytes machine r t) (r.offset + j) j
        (omega (arith, size)) (omega (arith, size)) refl)

-- A relocation whose field lies in the code and meets the field of no later relocation has the
-- bytes of its addend at its offset in the code that is written, whatever earlier ones wrote.
pub apply_implicit_addends-field :
    (earlier : List Reloc) (earlier_types : List ℕ) (r : Reloc) (t : ℕ) (later : List Reloc)
    (later_types : List ℕ) (machine : ℕ) (code : Bytes) (j : ℕ)
    → length earlier ≡ length earlier_types
    → length later ≡ length later_types
    → r.offset + reloc_addend_size t ≤ length code
    → j < reloc_addend_size t
    → AllOutside later later_types (r.offset + j)
    → (out : Bytes) × (apply_implicit_addends code
          (earlier ++ (r ∷ later))
          (earlier_types ++ (t ∷ later_types))
          machine
        ≡ some out)
      × (get_elem? out (r.offset + j) ≡ get_elem? (addend_bytes machine r t) j)
unfolding apply_implicit_addends
apply_implicit_addends-field [] [] r t later later_types machine code j he hl inside p outside =
    let (out, e, _, same) =
      apply_implicit_addends-outside later later_types machine (apply_addend machine code r t) hl in
    (out, e, same (r.offset + j) outside ∙ apply_addend-inside machine code r t j inside p)
apply_implicit_addends-field [] (u ∷ us) r t later later_types machine code j he hl inside p o =
    absurd (omega arith)
apply_implicit_addends-field (q ∷ qs) [] r t later later_types machine code j he hl inside p o =
    absurd (omega arith)
apply_implicit_addends-field (q ∷ qs) (u ∷ us) r t later later_types machine code j he hl inside p
      o =
    apply_implicit_addends-field qs us r t later later_types machine (apply_addend machine code q u)
      j (omega arith) hl (omega (arith, length-apply_addend machine code q u)) p o

-- On AMD64 the field that receives an addend is 8 bytes wide for an Abs64 relocation, and 4 bytes
-- for every other kind; on ARM64 it is 8 bytes wide for the kinds Abs64 and Abs32.
pub reloc_addend_size-reloc_type :
    (f : File) (k : RelocKind) (t : ℕ)
    → reloc_type f k ≡ ok t
    → (f.machine ≡ machine_amd64 → reloc_addend_size t ≡ (if is_abs64 k then 8 else 4))
      × (f.machine ≡ machine_arm64
          → reloc_addend_size t ≡ (if is_abs64 k || is_abs32 k then 8 else 4))
unfolding reloc_type type_for_machine amd64_type arm64_type reloc_addend_size is_abs64 is_abs32
reloc_addend_size-reloc_type f k t h = ground arith

-- The field of an AMD64 REL32 relocation: a linker that computes S + field - (P + 4) on 32 bits
-- gets S + A - P for the addend A, whatever the addend is.
pub addend_bytes-rel32 :
    (r : Reloc) (s p : ℕ)
    → p + 4 ≤ 2 ^ 32
    → (s + get_le (addend_bytes machine_amd64 r rel_amd64_rel32) + (2 ^ 32 - (p + 4))) % 2 ^ 32
      ≡ (s + int64_bits r.addend + (2 ^ 32 - p)) % 2 ^ 32
unfolding addend_bytes addend_bits reloc_addend_size
addend_bytes-rel32 r s p h =
    omega (arith, get_le-put_le 4 (u32 (u64 (int64_bits r.addend + 4))) (omega arith))
