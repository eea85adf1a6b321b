-- ===== src/Macho/Relocs/Totality.antt =====
-- When phases 1, 2 and 4 of build in macho/write.go have results.
use objectfile.Prelude.{
  ℕ, suc, ◌≡◌, refl, sym, ap, ◌∙◌, Bool, true, false, none, some, Option-cases, inl, inr, List, [],
  ◌∷◌, arith, All, ltb, length, Bool-cases, take, drop,
}
use mathlib.Core.Path.{subst}
use objectfile.Prelude.Bytes.{Bytes, codes}
use objectfile.Prelude.Result.{ok}
use objectfile.Prelude.Table.{Table, lookup}
use objectfile.Loops.{has_key}
use objectfile.Object.{
  Section, SectionKind, section_text, section_data, section_ro_data, section_bss, section_unwind,
  section_init_array, section_fini_array, section_tls, section_custom, other_section, Reloc,
  RelocKind,
}
use objectfile.Macho.File.{File, RelocDesc, reloc_desc, desc_for_cpu}
use objectfile.Macho.Format.{RelocInfo}
use objectfile.Macho.Relocs.{
  desc_of, reloc_descs, section_descs, Described, section_metas, record_of, entry_for,
  reloc_records, SecWork, section_records,
}
use objectfile.Macho.Relocs.Laws.{
  DescsOf, RecordsOf, WorksOf, AllDescs, AllMetas, section_descs-AllDescs, section_metas-AllMetas,
}
use objectfile.Macho.Sections.{
  s_type_regular, regular, zerofill, SecMeta, index_comma, custom_meta, meta_of_kind, section_meta,
}
use objectfile.Macho.Symbols.{SymEntry}

-- A relocation kind that the CPU of the file has.
abbrev pub is_supported : File → RelocKind → Bool
is_supported f k = elim (desc_for_cpu f.cpu_type k) [ none ↦ false | some d ↦ true ]

-- A section kind that is declared, and a custom name with a comma.
abbrev pub has_meta : SectionKind → Bytes → Bool
has_meta section_custom custom = elim (index_comma custom) [ none ↦ false | some i ↦ true ]
has_meta (other_section n) custom = false
has_meta _ custom = true

abbrev pub HasKinds : File → Section → Type 0
HasKinds f s = All (λ (r : Reloc). is_supported f r.kind ≡ true) s.relocs

abbrev pub HasMeta : Section → Type 0
HasMeta s = has_meta s.kind s.custom ≡ true

abbrev pub HasTargets : Table SymEntry → Section → Type 0
HasTargets m s = All (λ (r : Reloc). has_key r.symbol m ≡ true) s.relocs

reloc_desc-total :
    (f : File) (i j : ℕ) (k : RelocKind)
    → is_supported f k ≡ true
    → (d : RelocDesc) × (desc_of f i j k ≡ ok d)
unfolding desc_of reloc_desc
reloc_desc-total f i j k h = elim (Option-cases (desc_for_cpu f.cpu_type k)) [
  | inl missing ↦ absurd (ground arith)
  | inr (d, found) ↦ (d, rw (found, desc_of, reloc_desc))
]

reloc_descs-total :
    (f : File) (i j : ℕ) (rs : List Reloc)
    → All (λ (r : Reloc). is_supported f r.kind ≡ true) rs
    → (ds : List RelocDesc) × (reloc_descs f i j rs ≡ ok ds)
unfolding reloc_descs
reloc_descs-total f i j [] h = ([], refl)
reloc_descs-total f i j (r ∷ rs) h =
    let (d, here) = reloc_desc-total f i j r.kind h.0 in
    let (ds, later) = reloc_descs-total f i (suc j) rs h.1 in (d ∷ ds, rw here (rw later))

pub section_descs-total :
    (f : File) (i : ℕ) (ss : List Section)
    → All (HasKinds f) ss
    → (ps : List (Section × List RelocDesc)) × (section_descs f i ss ≡ ok ps)
unfolding section_descs
section_descs-total f i [] h = ([], refl)
section_descs-total f i (s ∷ ss) h =
    let (ds, here) = reloc_descs-total f i 0 s.relocs h.0 in
    let (rest, later) = section_descs-total f (suc i) ss h.1 in ((s, ds) ∷ rest, rw here (rw later))

meta_of_kind-total :
    (k : SectionKind) (i : ℕ) (s : Section)
    → has_meta k s.custom ≡ true
    → (m : SecMeta) × (meta_of_kind k i s ≡ ok m)
unfolding meta_of_kind custom_meta
meta_of_kind-total section_custom i s h = elim (Option-cases (index_comma s.custom)) [
  | inl missing ↦ absurd (ground arith)
  | inr (comma, found) ↦ (
    regular s (take comma s.custom) (drop (suc comma) s.custom) s_type_regular 1,
    rw (found, meta_of_kind, custom_meta) refl,
  )
]
meta_of_kind-total section_tls i s h = elim (Bool-cases (ltb 0 (length s.code))) [
  | inl some_code ↦ (
    regular s (codes "__DATA") (codes "__thread_data") s_type_regular 8,
    rw (some_code, meta_of_kind) refl,
  )
  | inr none_left ↦ (zerofill s (codes "__thread_bss"), rw (none_left, meta_of_kind) refl)
]
meta_of_kind-total (other_section n) i s h = absurd (ground arith)
meta_of_kind-total section_text i s h = (_, refl)
meta_of_kind-total section_data i s h = (_, refl)
meta_of_kind-total section_ro_data i s h = (_, refl)
meta_of_kind-total section_bss i s h = (_, refl)
meta_of_kind-total section_unwind i s h = (_, refl)
meta_of_kind-total section_init_array i s h = (_, refl)
meta_of_kind-total section_fini_array i s h = (_, refl)

section_meta-total : (i : ℕ) (s : Section) → HasMeta s → (m : SecMeta) × (section_meta i s ≡ ok m)
unfolding section_meta
section_meta-total i s h = meta_of_kind-total s.kind i s h

section_metas-total :
    (f : File) (i : ℕ) (ss : List Section) (ps : List (Section × List RelocDesc))
    → All HasMeta ss
    → AllDescs f ss ps
    → (ds : List Described) × (section_metas i ps ≡ ok ds)
unfolding section_metas
section_metas-total f i [] [] h a = ([], refl)
section_metas-total f i [] (p ∷ ps) h a = absurd a
section_metas-total f i (s ∷ ss) [] h a = absurd a
section_metas-total f i (s ∷ ss) (p ∷ ps) h a =
    let (m, here) = section_meta-total i p.0 (rw (a.0) (h.0)) in
    let (rest, later) = section_metas-total f (suc i) ss ps h.1 a.2 in
    (record { sec = p.0; descs = p.1; meta = m } ∷ rest, rw here (rw later))

entry_for-total :
    (m : Table SymEntry) (i j : ℕ) (name : Bytes)
    → has_key name m ≡ true
    → (def : SymEntry) × (entry_for m i j name ≡ ok def)
unfolding entry_for
entry_for-total m i j name h = elim (Option-cases (lookup name m)) [
  | inl missing ↦ absurd (ground arith)
  | inr (def, found) ↦ (def, rw (found, entry_for))
]

reloc_records-total :
    (f : File) (m : Table SymEntry) (i j : ℕ) (rs : List Reloc) (ds : List RelocDesc)
    → DescsOf f rs ds
    → All (λ (r : Reloc). has_key r.symbol m ≡ true) rs
    → (cs : List RelocInfo) × (reloc_records f m i j rs ds ≡ ok cs)
unfolding reloc_records
reloc_records-total f m i j [] ds d h = ([], refl)
reloc_records-total f m i j (r ∷ rs) [] d h = absurd d
reloc_records-total f m i j (r ∷ rs) (x ∷ ds) d h =
    let (def, here) = entry_for-total m i j r.symbol h.0 in
    let (cs, later) = reloc_records-total f m i (suc j) rs ds d.1 h.1 in
    (record_of f r x def ∷ cs, rw here (rw later))

section_records-total :
    (f : File) (m : Table SymEntry) (i : ℕ) (ss : List Section)
    (ps : List (Section × List RelocDesc)) (ds : List Described)
    → AllDescs f ss ps
    → AllMetas i ps ds
    → All (HasTargets m) ss
    → (ws : List SecWork) × (section_records f m i ds ≡ ok ws)
unfolding section_records
section_records-total f m i [] [] [] a b h = ([], refl)
section_records-total f m i [] [] (d ∷ ds) a b h = absurd b
section_records-total f m i [] (p ∷ ps) ds a b h = absurd a
section_records-total f m i (s ∷ ss) [] ds a b h = absurd a
section_records-total f m i (s ∷ ss) (p ∷ ps) [] a b h = absurd b
section_records-total f m i (s ∷ ss) (p ∷ ps) (d ∷ ds) a b h =
    let sec = b.0 ∙ a.0 in
    let descs : DescsOf f s.relocs d.descs = subst (DescsOf f s.relocs) (sym b.1) a.1 in
    let (cs, here) =
      reloc_records-total f m i 0 d.sec.relocs d.descs
        (subst (λ x. DescsOf f x.relocs d.descs) (sym sec) descs)
        (subst (HasTargets m) (sym sec) h.0) in
    let (rest, later) = section_records-total f m (suc i) ss ps ds a.2 b.3 h.1 in
    (
      record { sec = d.sec; descs = d.descs; meta = d.meta; records = cs } ∷ rest,
      rw here (rw later),
    )

-- What the three phases ask of the sections is enough for them.
pub phases-total :
    (f : File) (m : Table SymEntry) (ss : List Section)
    → All (HasKinds f) ss
    → All HasMeta ss
    → All (HasTargets m) ss
    → (ps : List (Section × List RelocDesc)) × (ds : List Described) × (ws : List SecWork)
      × (section_descs f 0 ss ≡ ok ps)
      × (section_metas 0 ps ≡ ok ds)
      × (section_records f m 0 ds ≡ ok ws)
phases-total f m ss kinds metas targets =
    let (ps, h₁) = section_descs-total f 0 ss kinds in
    let a = section_descs-AllDescs f 0 ss h₁ in
    let (ds, h₂) = section_metas-total f 0 ss ps metas a in
    let b = section_metas-AllMetas 0 ps h₂ in
    let (ws, h₃) = section_records-total f m 0 ss ps ds a b targets in (ps, ds, ws, h₁, h₂, h₃)

DescsOf-supported :
    (f : File) (rs : List Reloc) (ds : List RelocDesc)
    → DescsOf f rs ds
    → All (λ (r : Reloc). is_supported f r.kind ≡ true) rs
unfolding reloc_desc
DescsOf-supported f [] ds h = tt
DescsOf-supported f (r ∷ rs) [] h = absurd h
DescsOf-supported f (r ∷ rs) (d ∷ ds) h = (ground (arith, h.0), DescsOf-supported f rs ds h.1)

RecordsOf-targets :
    (f : File) (m : Table SymEntry) (rs : List Reloc) (ds : List RelocDesc) (cs : List RelocInfo)
    → RecordsOf f m rs ds cs
    → All (λ (r : Reloc). has_key r.symbol m ≡ true) rs
RecordsOf-targets f m [] ds cs h = tt
RecordsOf-targets f m (r ∷ rs) [] cs h = absurd h
RecordsOf-targets f m (r ∷ rs) (d ∷ ds) [] h = absurd h
RecordsOf-targets f m (r ∷ rs) (d ∷ ds) (c ∷ cs) h =
    (ap (λ x. elim x [ none ↦ false | some v ↦ true ]) h.0.1, RecordsOf-targets f m rs ds cs h.1)

meta_of_kind-has_meta :
    (k : SectionKind) (i : ℕ) (s : Section) {m : SecMeta}
    → meta_of_kind k i s ≡ ok m
    → has_meta k s.custom ≡ true
unfolding meta_of_kind custom_meta
meta_of_kind-has_meta section_custom i s h = ground arith
meta_of_kind-has_meta (other_section n) i s h = cc
meta_of_kind-has_meta _ i s h = refl

section_meta-HasMeta : (i : ℕ) (s : Section) {m : SecMeta} → section_meta i s ≡ ok m → HasMeta s
unfolding section_meta
section_meta-HasMeta i s h = meta_of_kind-has_meta s.kind i s h

-- And it is needed.
pub WorksOf-needs :
    (f : File) (m : Table SymEntry) (i : ℕ) (ss : List Section) (ws : List SecWork)
    → WorksOf f m i ss ws
    → All (HasKinds f) ss × All HasMeta ss × All (HasTargets m) ss
WorksOf-needs f m i [] ws h = (tt, tt, tt)
WorksOf-needs f m i (s ∷ ss) [] h = absurd h
WorksOf-needs f m i (s ∷ ss) (w ∷ ws) h =
    let rest = WorksOf-needs f m (suc i) ss ws h.4 in
    (
      (DescsOf-supported f s.relocs w.descs h.2, rest.0),
      (section_meta-HasMeta i s h.1, rest.1),
      (RecordsOf-targets f m s.relocs w.descs w.records h.3, rest.2),
    )
