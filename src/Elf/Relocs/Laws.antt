-- ===== src/Elf/Relocs/Laws.antt =====
-- The records of a RELA section: one for each relocation, in order, with the index and the type
-- that the relocation translates to; and when there are such records.
use objectfile.Prelude.{
  ℕ, zero, suc, ◌*◌, ◌≡◌, refl, sym, ap, ◌∙◌, Bool, true, false, Bool-cases, inl, inr, none, some,
  Option-cases, List, [], ◌∷◌, ◌++◌, arith, length, length-append, All, get_elem?, slice,
  slice-front, slice-append_right, ◌==◌,
}
use mathlib.Core.Option.{some-injective}
use objectfile.Prelude.Bytes.{Bytes}
use objectfile.Prelude.Result.{ok, >>=-eq-ok}
use objectfile.Prelude.Table.{Table, lookup}
use objectfile.Loops.{has_key}
use objectfile.Object.{Section, Reloc, RelocKind}
use objectfile.Elf.File.{File, reloc_type, type_for_machine}
use objectfile.Elf.Format.{Class, Rela}
use objectfile.Elf.Format.Headers.{HasSizes}
use objectfile.Elf.Relocs.{symbol_of, type_of, rela_bytes, RelaEntry, rela_work}

symbol_of-eq-ok :
    (m : Table ℕ) (i : ℕ) (name : Bytes) {si : ℕ}
    → symbol_of m i name ≡ ok si
    → lookup name m ≡ some si
unfolding symbol_of
symbol_of-eq-ok m i name h = ground arith

type_of-eq-ok :
    (f : File) (i : ℕ) (k : RelocKind) {t : ℕ} → type_of f i k ≡ ok t → reloc_type f k ≡ ok t
unfolding type_of
type_of-eq-ok f i k h = ground arith

-- The record that a relocation becomes.
abbrev pub rela_of : Reloc → ℕ → ℕ → Rela
rela_of r si t = record { offset = r.offset; sym = si; typ = t; addend = r.addend }

-- What one round of the loop has found.
record Round (c : Class) (f : File) (m : Table ℕ) (i : ℕ) (r : Reloc) (rs : List Reloc) (b : Bytes)
    : Type 0 where
  index : ℕ
  typ : ℕ
  rest : Bytes
  indexed : lookup r.symbol m ≡ some index
  typed : reloc_type f r.kind ≡ ok typ
  later : rela_bytes c f m i rs ≡ ok rest
  shape : b ≡ c.encode_rela (rela_of r index typ) ++ rest

round :
    (c : Class) (f : File) (m : Table ℕ) (i : ℕ) (r : Reloc) (rs : List Reloc) {b : Bytes}
    → rela_bytes c f m i (r ∷ rs) ≡ ok b
    → Round c f m i r rs b
unfolding rela_bytes
round c f m i r rs h =
    let (si, has_index, h₁) = >>=-eq-ok (symbol_of m i r.symbol) _ h in
    let (t, has_type, h₂) = >>=-eq-ok (type_of f i r.kind) _ h₁ in
    let (rest, has_rest, h₃) = >>=-eq-ok (rela_bytes c f m i rs) _ h₂ in
    record {
      index = si;
      typ = t;
      rest = rest;
      indexed = symbol_of-eq-ok m i r.symbol has_index;
      typed = type_of-eq-ok f i r.kind has_type;
      later = has_rest;
      shape = cc h₃;
    }

no_round :
    (c : Class) (f : File) (m : Table ℕ) (i : ℕ) {b : Bytes} → rela_bytes c f m i [] ≡ ok b → b ≡ []
unfolding rela_bytes
no_round c f m i h = cc

pub length-rela_bytes :
    (c : Class) (f : File) (m : Table ℕ) (i : ℕ) (rs : List Reloc) {b : Bytes}
    → HasSizes c
    → rela_bytes c f m i rs ≡ ok b
    → length b ≡ length rs * c.rela_size
length-rela_bytes c f m i [] sizes h = rw (no_round c f m i h) (omega arith)
length-rela_bytes c f m i (r ∷ rs) sizes h =
    let step = round c f m i r rs h in
    let rest = length-rela_bytes c f m i rs sizes step.later in
    rw step.shape (
      rw (length-append (c.encode_rela (rela_of r step.index step.typ)) step.rest)
        (grind (arith, rest, sizes.rela (rela_of r step.index step.typ))))

-- In the data of a RELA section the record at position `k` is that of the relocation `k`: its
-- symbol's index is the one in the map, its type the one that `relocType` gives.
pub rela_bytes-record :
    (c : Class) (f : File) (m : Table ℕ) (i : ℕ) (rs : List Reloc) (k : ℕ) (r : Reloc) {b : Bytes}
    → HasSizes c
    → rela_bytes c f m i rs ≡ ok b
    → get_elem? rs k ≡ some r
    → (si : ℕ) × (t : ℕ) × (lookup r.symbol m ≡ some si)
      × (reloc_type f r.kind ≡ ok t)
      × (slice (k * c.rela_size) c.rela_size b ≡ c.encode_rela (rela_of r si t))
rela_bytes-record c f m i [] k r sizes h at = absurd (ground arith)
rela_bytes-record c f m i (q ∷ rs) zero r sizes h at =
    let step = round c f m i q rs h in
    let same : q ≡ r = some-injective _ _ at in
    let size = sym (sizes.rela (rela_of q step.index step.typ)) in
    (
      step.index,
      step.typ,
      rw (← same) step.indexed,
      rw (← same) step.typed,
      ap (slice (0 * c.rela_size) c.rela_size) step.shape
          ∙ slice-front c.rela_size (c.encode_rela (rela_of q step.index step.typ)) step.rest size
          ∙ ap (λ x. c.encode_rela (rela_of x step.index step.typ)) same,
    )
rela_bytes-record c f m i (q ∷ rs) (suc k) r sizes h at =
    let step = round c f m i q rs h in
    let (si, t, indexed, typed, later) = rela_bytes-record c f m i rs k r sizes step.later at in
    let size = sym (sizes.rela (rela_of q step.index step.typ)) in
    (
      si,
      t,
      indexed,
      typed,
      ap (slice (suc k * c.rela_size) c.rela_size) step.shape
          ∙ slice-append_right k c.rela_size (c.encode_rela (rela_of q step.index step.typ))
              step.rest size
          ∙ later,
    )

-- A relocation kind that the machine of the file has.
abbrev pub is_supported : File → RelocKind → Bool
is_supported f k = elim (type_for_machine f.machine k) [ none ↦ false | some t ↦ true ]

abbrev pub IsResolvable : File → Table ℕ → Reloc → Type 0
IsResolvable f m r = (has_key r.symbol m ≡ true) × (is_supported f r.kind ≡ true)

symbol_of-total :
    (m : Table ℕ) (i : ℕ) (name : Bytes)
    → has_key name m ≡ true
    → (si : ℕ) × (symbol_of m i name ≡ ok si)
unfolding symbol_of
symbol_of-total m i name h = elim (Option-cases (lookup name m)) [
  | inl missing ↦ absurd (ground arith)
  | inr (si, found) ↦ (si, rw (found, symbol_of))
]

type_of-total :
    (f : File) (i : ℕ) (k : RelocKind) → is_supported f k ≡ true → (t : ℕ) × (type_of f i k ≡ ok t)
unfolding type_of reloc_type
type_of-total f i k h = elim (Option-cases (type_for_machine f.machine k)) [
  | inl missing ↦ absurd (ground arith)
  | inr (t, found) ↦ (t, rw (found, type_of, reloc_type))
]

pub rela_bytes-total :
    (c : Class) (f : File) (m : Table ℕ) (i : ℕ) (rs : List Reloc)
    → All (IsResolvable f m) rs
    → (b : Bytes) × (rela_bytes c f m i rs ≡ ok b)
unfolding rela_bytes
rela_bytes-total c f m i [] h = ([], refl)
rela_bytes-total c f m i (r ∷ rs) h =
    let (si, indexed) = symbol_of-total m i r.symbol h.0.0 in
    let (t, typed) = type_of-total f i r.kind h.0.1 in
    let (rest, later) = rela_bytes-total c f m i rs h.1 in
    (c.encode_rela (rela_of r si t) ++ rest, rw indexed (rw typed (rw later)))

-- Every relocation of every section can be translated.
abbrev pub AllResolvable : File → Table ℕ → List Section → Type 0
AllResolvable f m ss = All (λ s. All (IsResolvable f m) s.relocs) ss

pub rela_work-total :
    (c : Class) (f : File) (m : Table ℕ) (i : ℕ) (ss : List Section)
    → AllResolvable f m ss
    → (work : List RelaEntry) × (rela_work c f m i ss ≡ ok work)
unfolding rela_work
rela_work-total c f m i [] h = ([], refl)
rela_work-total c f m i (s ∷ ss) h =
    let (rest, later) = rela_work-total c f m (suc i) ss h.1 in
    let (b, here) = rela_bytes-total c f m i s.relocs h.0 in
    elim (Bool-cases (length s.relocs == 0)) [
      | inl bare ↦ (rest, rw (bare, rela_work) later)
      | inr relocated ↦ (
        record { content_idx = i; bytes = b } ∷ rest,
        rw (relocated, rela_work) (rw here (rw later)),
      )
    ]
