-- ===== src/Coff/Relocs/Laws.antt =====
-- The relocation records of the sections: one for each relocation, in order, with the slot and the
-- type that the relocation translates to; and when there are such records.
use objectfile.Prelude.{
  ℕ, zero, suc, ◌≡◌, refl, sym, ap, ◌∙◌, Bool, true, false, none, some, Option-cases, inl, inr,
  List, [], ◌∷◌, arith, length, All, get_elem?,
}
use mathlib.Core.Option.{some-injective}
use mathlib.Core.Path.{subst}
use objectfile.Prelude.Bytes.{Bytes}
use objectfile.Prelude.Result.{ok, >>=-eq-ok, ok-injective}
use objectfile.Prelude.Table.{Table, lookup}
use objectfile.Loops.{has_key}
use objectfile.Object.{Section, Reloc, RelocKind}
use objectfile.Coff.File.{File, reloc_type, type_for_machine}
use objectfile.Coff.Format.{CoffReloc}
use objectfile.Coff.Relocs.{symbol_of, type_of, reloc_records, SecWork, section_relocs}
use objectfile.Coff.Sections.{section_meta}

-- A record is that of a relocation: its offset, the slot of its symbol, and its type.
abbrev pub RecordOf : File → Table ℕ → Reloc → CoffReloc → Type 0
RecordOf f sym_idx r c =
    (c.virtual_address ≡ r.offset)
    × (lookup r.symbol sym_idx ≡ some c.symbol_table_index)
    × (reloc_type f r.kind ≡ ok c.typ)

-- The records and the types are those of the relocations, in order.
abbrev pub RecordsOf : File → Table ℕ → List Reloc → List CoffReloc → List ℕ → Type 0
RecordsOf f sym_idx [] [] [] = Unit {0}
RecordsOf f sym_idx (r ∷ rs) (c ∷ cs) (t ∷ ts) =
    RecordOf f sym_idx r c × (t ≡ c.typ) × RecordsOf f sym_idx rs cs ts
RecordsOf f sym_idx _ _ _ = ⊥

symbol_of-eq-ok :
    (m : Table ℕ) (section name : Bytes) {si : ℕ}
    → symbol_of m section name ≡ ok si
    → lookup name m ≡ some si
unfolding symbol_of
symbol_of-eq-ok m section name h = ground arith

type_of-eq-ok :
    (f : File) (section : Bytes) (k : RelocKind) {t : ℕ}
    → type_of f section k ≡ ok t
    → reloc_type f k ≡ ok t
unfolding type_of
type_of-eq-ok f section k h = ground arith

pub reloc_records-RecordsOf :
    (f : File) (m : Table ℕ) (section : Bytes) (rs : List Reloc) {found : List CoffReloc × List ℕ}
    → reloc_records f m section rs ≡ ok found
    → RecordsOf f m rs found.0 found.1
unfolding reloc_records
reloc_records-RecordsOf f m section [] h = subst (λ p. RecordsOf f m [] p.0 p.1) (ok-injective h) tt
reloc_records-RecordsOf f m section (r ∷ rs) h =
    let (si, has_slot, h₁) = >>=-eq-ok (symbol_of m section r.symbol) _ h in
    let (t, has_type, h₂) = >>=-eq-ok (type_of f section r.kind) _ h₁ in
    let (rest, has_rest, h₃) = >>=-eq-ok (reloc_records f m section rs) _ h₂ in
    subst (λ p. RecordsOf f m (r ∷ rs) p.0 p.1) (ok-injective h₃)
      (
        (
          refl,
          symbol_of-eq-ok m section r.symbol has_slot,
          type_of-eq-ok f section r.kind has_type,
        ),
        refl,
        reloc_records-RecordsOf f m section rs has_rest,
      )

pub RecordsOf-length :
    (f : File) (m : Table ℕ) (rs : List Reloc) (cs : List CoffReloc) (ts : List ℕ)
    → RecordsOf f m rs cs ts
    → (length cs ≡ length rs) × (length ts ≡ length rs)
RecordsOf-length f m [] [] [] h = (refl, refl)
RecordsOf-length f m [] [] (t ∷ ts) h = absurd h
RecordsOf-length f m [] (c ∷ cs) ts h = absurd h
RecordsOf-length f m (r ∷ rs) [] ts h = absurd h
RecordsOf-length f m (r ∷ rs) (c ∷ cs) [] h = absurd h
RecordsOf-length f m (r ∷ rs) (c ∷ cs) (t ∷ ts) h =
    let rest = RecordsOf-length f m rs cs ts h.2 in (ap suc rest.0, ap suc rest.1)

-- The record at the position of a relocation.
pub RecordsOf-get_elem? :
    (f : File) (m : Table ℕ) (rs : List Reloc) (cs : List CoffReloc) (ts : List ℕ) (k : ℕ)
    (r : Reloc)
    → RecordsOf f m rs cs ts
    → get_elem? rs k ≡ some r
    → (c : CoffReloc) × (get_elem? cs k ≡ some c) × RecordOf f m r c
RecordsOf-get_elem? f m [] cs ts k r h at = absurd (ground arith)
RecordsOf-get_elem? f m (q ∷ rs) [] ts k r h at = absurd h
RecordsOf-get_elem? f m (q ∷ rs) (c ∷ cs) [] k r h at = absurd h
RecordsOf-get_elem? f m (q ∷ rs) (c ∷ cs) (t ∷ ts) zero r h at =
    (c, refl, subst (λ x. RecordOf f m x c) (some-injective _ _ at) h.0)
RecordsOf-get_elem? f m (q ∷ rs) (c ∷ cs) (t ∷ ts) (suc k) r h at =
    RecordsOf-get_elem? f m rs cs ts k r h.2 at

-- The types that `relocType` gives for the relocations, in order.
abbrev pub TypesOf : File → List Reloc → List ℕ → Type 0
TypesOf f [] [] = Unit {0}
TypesOf f (r ∷ rs) (t ∷ ts) = (reloc_type f r.kind ≡ ok t) × TypesOf f rs ts
TypesOf f _ _ = ⊥

pub RecordsOf-TypesOf :
    (f : File) (m : Table ℕ) (rs : List Reloc) (cs : List CoffReloc) (ts : List ℕ)
    → RecordsOf f m rs cs ts
    → TypesOf f rs ts
RecordsOf-TypesOf f m [] [] [] h = tt
RecordsOf-TypesOf f m [] [] (t ∷ ts) h = absurd h
RecordsOf-TypesOf f m [] (c ∷ cs) ts h = absurd h
RecordsOf-TypesOf f m (r ∷ rs) [] ts h = absurd h
RecordsOf-TypesOf f m (r ∷ rs) (c ∷ cs) [] h = absurd h
RecordsOf-TypesOf f m (r ∷ rs) (c ∷ cs) (t ∷ ts) h =
    (h.0.2 ∙ ap ok (sym h.1), RecordsOf-TypesOf f m rs cs ts h.2)

-- The works are those of the sections, in order.
abbrev pub WorksOf : File → Table ℕ → List Section → List SecWork → Type 0
WorksOf f m [] [] = Unit {0}
WorksOf f m (s ∷ ss) (w ∷ ws) =
    (w.sec ≡ s) × RecordsOf f m s.relocs w.records w.rtypes × WorksOf f m ss ws
WorksOf f m _ _ = ⊥

pub section_relocs-WorksOf :
    (f : File) (m : Table ℕ) (ss : List Section) {works : List SecWork}
    → section_relocs f m ss ≡ ok works
    → WorksOf f m ss works
unfolding section_relocs
section_relocs-WorksOf f m [] h = subst (WorksOf f m []) (ok-injective h) tt
section_relocs-WorksOf f m (s ∷ ss) h =
    let (found, here, h₁) = >>=-eq-ok (reloc_records f m (section_meta s).name s.relocs) _ h in
    let (rest, later, h₂) = >>=-eq-ok (section_relocs f m ss) _ h₁ in
    subst (WorksOf f m (s ∷ ss)) (ok-injective h₂) (
      refl,
      reloc_records-RecordsOf f m (section_meta s).name s.relocs here,
      section_relocs-WorksOf f m ss later,
    )

-- A relocation kind that the machine of the file has.
abbrev pub is_supported : File → RelocKind → Bool
is_supported f k = elim (type_for_machine f.machine k) [ none ↦ false | some t ↦ true ]

abbrev pub IsResolvable : File → Table ℕ → Reloc → Type 0
IsResolvable f m r = (has_key r.symbol m ≡ true) × (is_supported f r.kind ≡ true)

symbol_of-total :
    (m : Table ℕ) (section name : Bytes)
    → has_key name m ≡ true
    → (si : ℕ) × (symbol_of m section name ≡ ok si)
unfolding symbol_of
symbol_of-total m section name h = elim (Option-cases (lookup name m)) [
  | inl missing ↦ absurd (ground arith)
  | inr (si, found) ↦ (si, rw (found, symbol_of))
]

type_of-total :
    (f : File) (section : Bytes) (k : RelocKind)
    → is_supported f k ≡ true
    → (t : ℕ) × (type_of f section k ≡ ok t)
unfolding type_of reloc_type
type_of-total f section k h = elim (Option-cases (type_for_machine f.machine k)) [
  | inl missing ↦ absurd (ground arith)
  | inr (t, found) ↦ (t, rw (found, type_of, reloc_type))
]

pub reloc_records-total :
    (f : File) (m : Table ℕ) (section : Bytes) (rs : List Reloc)
    → All (IsResolvable f m) rs
    → (found : List CoffReloc × List ℕ) × (reloc_records f m section rs ≡ ok found)
unfolding reloc_records
reloc_records-total f m section [] h = (([], []), refl)
reloc_records-total f m section (r ∷ rs) h =
    let (si, has_slot) = symbol_of-total m section r.symbol h.0.0 in
    let (t, has_type) = type_of-total f section r.kind h.0.1 in
    let (rest, later) = reloc_records-total f m section rs h.1 in
    (
      (
        record { virtual_address = r.offset; symbol_table_index = si; typ = t } ∷ rest.0,
        t ∷ rest.1,
      ),
      rw has_slot (rw has_type (rw later)),
    )

pub section_relocs-total :
    (f : File) (m : Table ℕ) (ss : List Section)
    → All (λ s. All (IsResolvable f m) s.relocs) ss
    → (works : List SecWork) × (section_relocs f m ss ≡ ok works)
unfolding section_relocs
section_relocs-total f m [] h = ([], refl)
section_relocs-total f m (s ∷ ss) h =
    let (found, here) = reloc_records-total f m (section_meta s).name s.relocs h.0 in
    let (rest, later) = section_relocs-total f m ss h.1 in
    (record { sec = s; records = found.0; rtypes = found.1 } ∷ rest, rw here (rw later))
