-- ===== src/Macho/Relocs/Laws.antt =====
-- The results of phases 1, 2 and 4 of build in macho/write.go, section by section and relocation by
-- relocation, and when there are such results.
use objectfile.Prelude.{ℕ, suc, ◌≡◌, refl, sym, ◌∙◌, some, List, [], ◌∷◌, arith}
use mathlib.Core.Path.{subst}
use objectfile.Prelude.Bytes.{Bytes}
use objectfile.Prelude.Result.{ok, >>=-eq-ok, ok-injective}
use objectfile.Prelude.Table.{Table, lookup}
use objectfile.Object.{Section, Reloc, RelocKind}
use objectfile.Macho.File.{File, RelocDesc, reloc_desc}
use objectfile.Macho.Format.{RelocInfo}
use objectfile.Macho.Relocs.{
  desc_of, reloc_descs, section_descs, Described, section_metas, record_of, entry_for,
  reloc_records, SecWork, section_records,
}
use objectfile.Macho.Sections.{section_meta}
use objectfile.Macho.Symbols.{SymEntry}

-- The descriptors that `relocDesc` gives for the relocations, in order.
abbrev pub DescsOf : File → List Reloc → List RelocDesc → Type 0
DescsOf f [] [] = Unit {0}
DescsOf f (r ∷ rs) (d ∷ ds) = (reloc_desc f r.kind ≡ ok d) × DescsOf f rs ds
DescsOf f _ _ = ⊥

-- A record is that of a relocation with some entry that its symbol has.
abbrev pub RecordOf : File → Table SymEntry → Reloc → RelocDesc → RelocInfo → Type 0
RecordOf f sym_defs r d c =
    (def : SymEntry) × (lookup r.symbol sym_defs ≡ some def) × (c ≡ record_of f r d def)

abbrev pub RecordsOf : File → Table SymEntry → List Reloc → List RelocDesc → List RelocInfo → Type 0
RecordsOf f sym_defs [] [] [] = Unit {0}
RecordsOf f sym_defs (r ∷ rs) (d ∷ ds) (c ∷ cs) =
    RecordOf f sym_defs r d c × RecordsOf f sym_defs rs ds cs
RecordsOf f sym_defs _ _ _ = ⊥

-- The works are those of the sections from index `i` on, in order.
abbrev pub WorksOf : File → Table SymEntry → ℕ → List Section → List SecWork → Type 0
WorksOf f sym_defs i [] [] = Unit {0}
WorksOf f sym_defs i (s ∷ ss) (w ∷ ws) =
    (w.sec ≡ s)
    × (section_meta i s ≡ ok w.meta)
    × DescsOf f s.relocs w.descs
    × RecordsOf f sym_defs s.relocs w.descs w.records
    × WorksOf f sym_defs (suc i) ss ws
WorksOf f sym_defs i _ _ = ⊥

-- The same after phase 1, and after phase 2.
abbrev pub AllDescs : File → List Section → List (Section × List RelocDesc) → Type 0
AllDescs f [] [] = Unit {0}
AllDescs f (s ∷ ss) (p ∷ ps) = (p.0 ≡ s) × DescsOf f s.relocs p.1 × AllDescs f ss ps
AllDescs f _ _ = ⊥

abbrev pub AllMetas : ℕ → List (Section × List RelocDesc) → List Described → Type 0
AllMetas i [] [] = Unit {0}
AllMetas i (p ∷ ps) (d ∷ ds) =
    (d.sec ≡ p.0) × (d.descs ≡ p.1) × (section_meta i p.0 ≡ ok d.meta) × AllMetas (suc i) ps ds
AllMetas i _ _ = ⊥

desc_of-eq-ok :
    (f : File) (i j : ℕ) (k : RelocKind) {d : RelocDesc}
    → desc_of f i j k ≡ ok d
    → reloc_desc f k ≡ ok d
unfolding desc_of
desc_of-eq-ok f i j k h = ground arith

reloc_descs-DescsOf :
    (f : File) (i j : ℕ) (rs : List Reloc) {ds : List RelocDesc}
    → reloc_descs f i j rs ≡ ok ds
    → DescsOf f rs ds
unfolding reloc_descs
reloc_descs-DescsOf f i j [] h = subst (DescsOf f []) (ok-injective h) tt
reloc_descs-DescsOf f i j (r ∷ rs) h =
    let (d, here, h₁) = >>=-eq-ok (desc_of f i j r.kind) _ h in
    let (ds, later, h₂) = >>=-eq-ok (reloc_descs f i (suc j) rs) _ h₁ in
    subst (DescsOf f (r ∷ rs)) (ok-injective h₂)
      (desc_of-eq-ok f i j r.kind here, reloc_descs-DescsOf f i (suc j) rs later)

pub section_descs-AllDescs :
    (f : File) (i : ℕ) (ss : List Section) {ps : List (Section × List RelocDesc)}
    → section_descs f i ss ≡ ok ps
    → AllDescs f ss ps
unfolding section_descs
section_descs-AllDescs f i [] h = subst (AllDescs f []) (ok-injective h) tt
section_descs-AllDescs f i (s ∷ ss) h =
    let (ds, here, h₁) = >>=-eq-ok (reloc_descs f i 0 s.relocs) _ h in
    let (rest, later, h₂) = >>=-eq-ok (section_descs f (suc i) ss) _ h₁ in
    subst (AllDescs f (s ∷ ss)) (ok-injective h₂)
      (refl, reloc_descs-DescsOf f i 0 s.relocs here, section_descs-AllDescs f (suc i) ss later)

pub section_metas-AllMetas :
    (i : ℕ) (ps : List (Section × List RelocDesc)) {ds : List Described}
    → section_metas i ps ≡ ok ds
    → AllMetas i ps ds
unfolding section_metas
section_metas-AllMetas i [] h = subst (AllMetas i []) (ok-injective h) tt
section_metas-AllMetas i (p ∷ ps) h =
    let (m, here, h₁) = >>=-eq-ok (section_meta i p.0) _ h in
    let (rest, later, h₂) = >>=-eq-ok (section_metas (suc i) ps) _ h₁ in
    subst (AllMetas i (p ∷ ps)) (ok-injective h₂)
      (refl, refl, here, section_metas-AllMetas (suc i) ps later)

entry_for-eq-ok :
    (m : Table SymEntry) (i j : ℕ) (name : Bytes) {def : SymEntry}
    → entry_for m i j name ≡ ok def
    → lookup name m ≡ some def
unfolding entry_for
entry_for-eq-ok m i j name h = ground arith

reloc_records-RecordsOf :
    (f : File) (m : Table SymEntry) (i j : ℕ) (rs : List Reloc) (ds : List RelocDesc)
    {cs : List RelocInfo}
    → DescsOf f rs ds
    → reloc_records f m i j rs ds ≡ ok cs
    → RecordsOf f m rs ds cs
unfolding reloc_records
reloc_records-RecordsOf f m i j [] [] d h = subst (RecordsOf f m [] []) (ok-injective h) tt
reloc_records-RecordsOf f m i j [] (x ∷ ds) d h = absurd d
reloc_records-RecordsOf f m i j (r ∷ rs) [] d h = absurd d
reloc_records-RecordsOf f m i j (r ∷ rs) (x ∷ ds) d h =
    let (def, here, h₁) = >>=-eq-ok (entry_for m i j r.symbol) _ h in
    let (cs, later, h₂) = >>=-eq-ok (reloc_records f m i (suc j) rs ds) _ h₁ in
    subst (RecordsOf f m (r ∷ rs) (x ∷ ds)) (ok-injective h₂) (
      (def, entry_for-eq-ok m i j r.symbol here, refl),
      reloc_records-RecordsOf f m i (suc j) rs ds d.1 later,
    )

-- Phases 1, 2 and 4 together.
phases-WorksOf :
    (f : File) (m : Table SymEntry) (i : ℕ) (ss : List Section)
    (ps : List (Section × List RelocDesc)) (ds : List Described) {ws : List SecWork}
    → AllDescs f ss ps
    → AllMetas i ps ds
    → section_records f m i ds ≡ ok ws
    → WorksOf f m i ss ws
unfolding section_records
phases-WorksOf f m i [] [] [] a b h = subst (WorksOf f m i []) (ok-injective h) tt
phases-WorksOf f m i [] [] (d ∷ ds) a b h = absurd b
phases-WorksOf f m i [] (p ∷ ps) ds a b h = absurd a
phases-WorksOf f m i (s ∷ ss) [] ds a b h = absurd a
phases-WorksOf f m i (s ∷ ss) (p ∷ ps) [] a b h = absurd b
phases-WorksOf f m i (s ∷ ss) (p ∷ ps) (d ∷ ds) a b h =
    let (cs, here, h₁) = >>=-eq-ok (reloc_records f m i 0 d.sec.relocs d.descs) _ h in
    let (rest, later, h₂) = >>=-eq-ok (section_records f m (suc i) ds) _ h₁ in
    let sec = b.0 ∙ a.0 in
    let descs : DescsOf f s.relocs d.descs = subst (DescsOf f s.relocs) (sym b.1) a.1 in
    let given : DescsOf f d.sec.relocs d.descs =
      subst (λ x. DescsOf f x.relocs d.descs) (sym sec) descs in
    subst (WorksOf f m i (s ∷ ss)) (ok-injective h₂) (
      sec,
      subst (λ x. section_meta i x ≡ ok d.meta) a.0 b.2,
      descs,
      subst (λ x. RecordsOf f m x.relocs d.descs cs) sec
          (reloc_records-RecordsOf f m i 0 d.sec.relocs d.descs given here),
      phases-WorksOf f m (suc i) ss ps ds a.2 b.3 later,
    )

pub section_records-WorksOf :
    (f : File) (m : Table SymEntry) (ss : List Section) {ps : List (Section × List RelocDesc)}
    {ds : List Described} {ws : List SecWork}
    → section_descs f 0 ss ≡ ok ps
    → section_metas 0 ps ≡ ok ds
    → section_records f m 0 ds ≡ ok ws
    → WorksOf f m 0 ss ws
section_records-WorksOf f m ss h₁ h₂ h₃ =
    phases-WorksOf f m 0 ss _ _ (section_descs-AllDescs f 0 ss h₁) (section_metas-AllMetas 0 _ h₂)
      h₃
