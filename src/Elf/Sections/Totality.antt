-- ===== src/Elf/Sections/Totality.antt =====
-- When phase 3 succeeds: its errors are those of the signatures of the groups, and no index of a
-- section is out of range.
use objectfile.Prelude.{
  ℕ, suc, ◌+◌, ◌≡◌, refl, Bool, true, false, not, ◌||◌, ◌&&◌, Bool-cases, inl, inr, some,
  Option-cases, List, [], ◌∷◌, ◌++◌, append_assoc, arith, length, length-append, All, get_elem?,
  get_elem?-append, ◌==◌,
}
use mathlib.Core.Path.{subst}
use objectfile.Prelude.Bits.{u32}
use objectfile.Prelude.Result.{ok, >>=-eq-ok, ok-injective}
use objectfile.Prelude.Table.{Table, lookup}
use objectfile.Loops.{has_key}
use objectfile.Object.{
  Section, Symbol, Binding, is_link_once, is_global, is_weak, is_local, is_sym_section,
  binding_local,
}
use objectfile.Elf.File.{File}
use objectfile.Elf.Format.{Class}
use objectfile.Elf.Relocs.{RelaEntry, rela_bytes, rela_work}
use objectfile.Elf.Symbols.{SymState}
use objectfile.Elf.Symbols.Coverage.{has_entry}
use objectfile.Elf.Sections.{
  DescState, add_desc, add_contents, add_relas, rela_desc, add_groups, group_desc, comdat_sig,
  rela_idx_for, build_group_data, initial_descs, symtab_idx_of, add_tail, section_descs,
}

-- The entry is that of some section of the file.
abbrev pub InRange : List Section → RelaEntry → Type 0
InRange sections e = (s : Section) × (get_elem? sections e.content_idx ≡ some s)

pub rela_work-InRange :
    (c : Class) (f : File) (m : Table ℕ) (i : ℕ) (before ss : List Section) {work : List RelaEntry}
    → i ≡ length before
    → rela_work c f m i ss ≡ ok work
    → All (InRange (before ++ ss)) work
unfolding rela_work
rela_work-InRange c f m i before [] e h = rw (← ok-injective h) tt
rela_work-InRange c f m i before (s ∷ ss) {work} e h =
    let here : get_elem? (before ++ (s ∷ ss)) i ≡ some s = get_elem?-append i before ss s e in
    let next : suc i ≡ length (before ++ (s ∷ [])) =
      omega (arith, e, length-append before (s ∷ [])) in
    let shift : (before ++ (s ∷ [])) ++ ss ≡ before ++ (s ∷ ss) = append_assoc before (s ∷ []) ss in
    elim (Bool-cases (length s.relocs == 0)) [
      | inl bare ↦
          subst (λ t. All (InRange t) work) shift
            (rela_work-InRange c f m (suc i) (before ++ (s ∷ [])) ss next
              (rw (bare, rela_work) at h))
      | inr relocated ↦
          let (b, h₁, k₁) =
            >>=-eq-ok (rela_bytes c f m i s.relocs) _ (rw (relocated, rela_work) at h) in
          let (rest, h₂, k₂) = >>=-eq-ok (rela_work c f m (suc i) ss) _ k₁ in
          rw (← ok-injective k₂) (
            (s, here),
            subst (λ t. All (InRange t) rest) shift
                (rela_work-InRange c f m (suc i) (before ++ (s ∷ [])) ss next h₂),
          )
    ]

add_relas-total :
    (c : Class) (sections : List Section) (symtab_idx : ℕ) (work : List RelaEntry) (st : DescState)
    → All (InRange sections) work
    → (st' : DescState) × (add_relas c sections symtab_idx work st ≡ ok st')
unfolding add_relas
add_relas-total c sections symtab_idx [] st h = (st, refl)
add_relas-total c sections symtab_idx (e ∷ es) st h =
    let (st', done) =
      add_relas-total c sections symtab_idx es (add_desc st (rela_desc c symtab_idx e h.0.0)) h.1 in
    (st', rw (h.0.1, add_relas) done)

-- A symbol that can be the signature of a group.
abbrev pub is_signature : Symbol → Bool
is_signature s = is_global s.binding || is_weak s.binding

abbrev pub has_signature : List Symbol → Bool
has_signature [] = false
has_signature (s ∷ ss) = is_signature s || has_signature ss

-- Every symbol with an entry is a key of the map.
abbrev pub KeysOf : Table ℕ → List Symbol → Type 0
KeysOf m ss = All (λ s. has_entry s ≡ true → has_key s.name m ≡ true) ss

not_local :
    (b : Binding) (k : Bool) → (is_global b || is_weak b) ≡ true → not (is_local b && k) ≡ true
unfolding is_global is_weak is_local
not_local binding_local k h = absurd (ground arith)
not_local _ k h = refl

signature-has_entry : (s : Symbol) → is_signature s ≡ true → has_entry s ≡ true
signature-has_entry s h = not_local s.binding (is_sym_section s.kind) h

comdat_sig-total :
    (ss : List Symbol) (m : Table ℕ) (i : ℕ)
    → KeysOf m ss
    → has_signature ss ≡ true
    → (si : ℕ) × (comdat_sig ss m i ≡ ok si)
unfolding comdat_sig
comdat_sig-total [] m i keys h = absurd (ground arith)
comdat_sig-total (s ∷ ss) m i keys h = elim (Bool-cases (is_signature s)) [
  | inl signs ↦
      let key = keys.0 (signature-has_entry s signs) in
      elim (Option-cases (lookup s.name m)) [
        | inl missing ↦ absurd (ground arith)
        | inr (si, found) ↦ (si, rw (signs, comdat_sig) (rw found))
      ]
  | inr other ↦
      let (si, done) = comdat_sig-total ss m i keys.1 (rw other at h) in
      (si, rw (other, comdat_sig) done)
]

-- Each section that is marked FlagLinkOnce has a signature.
abbrev pub IsSigned : Section → Type 0
IsSigned s = is_link_once s ≡ true → has_signature s.symbols ≡ true

add_groups-total :
    (m : Table ℕ) (work : List RelaEntry) (n symtab_idx i : ℕ) (ss : List Section) (st : DescState)
    → All (λ s. KeysOf m s.symbols) ss
    → All IsSigned ss
    → (st' : DescState) × (add_groups m work n symtab_idx i ss st ≡ ok st')
unfolding add_groups
add_groups-total m work n symtab_idx i [] st keys h = (st, refl)
add_groups-total m work n symtab_idx i (s ∷ ss) st keys h = elim (Bool-cases (is_link_once s)) [
  | inr plain ↦
      let (st', done) = add_groups-total m work n symtab_idx (suc i) ss st keys.1 h.1 in
      (st', rw (plain, add_groups) done)
  | inl once ↦
      let (sig, signed) = comdat_sig-total s.symbols m i keys.0 (h.0 once) in
      let d =
        group_desc symtab_idx sig (build_group_data (u32 (1 + i)) (rela_idx_for 0 work i) n) in
      let (st', done) =
        add_groups-total m work n symtab_idx (suc i) ss (add_desc st d) keys.1 h.1 in
      (st', rw (once, add_groups) (rw signed done))
]

pub section_descs-total :
    (c : Class) (f : File) (table : SymState) (work : List RelaEntry)
    → All (InRange f.sections) work
    → All (λ s. KeysOf table.sym_index s.symbols) f.sections
    → All IsSigned f.sections
    → (st : DescState) × (section_descs c f table work ≡ ok st)
unfolding section_descs
section_descs-total c f table work in_range keys signed =
    let idx = symtab_idx_of f work in
    let (related, h) =
      add_relas-total c f.sections idx work (add_contents c f.sections initial_descs) in_range in
    let (grouped, k) =
      add_groups-total table.sym_index work (u32 (length f.sections)) idx 0 f.sections related keys
        signed in
    (add_tail c f table idx grouped, rw h (rw k))
