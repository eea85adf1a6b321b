-- ===== src/Elf/Sections/Adds.antt =====
-- What the steps of phase 3 add to the descriptors, each with its name in .shstrtab.
use objectfile.Prelude.{
  ℕ, suc, ◌+◌, ◌≡◌, refl, sym, ap, ◌∙◌, Bool-cases, inl, inr, some, Option-cases, List, [], ◌∷◌,
  ◌++◌, map, append-nil, append_assoc, arith, length, All, get_elem?,
}
use mathlib.Core.Path.{subst}
use objectfile.Prelude.Bits.{u32}
use objectfile.Prelude.Bytes.{Bytes}
use objectfile.Prelude.Result.{ok, >>=-eq-ok, ok-injective}
use objectfile.Prelude.Table.{Table, lookup}
use objectfile.Object.{Section, is_link_once}
use objectfile.Elf.Format.{Class}
use objectfile.Elf.Relocs.{RelaEntry}
use objectfile.Elf.Strtab.{StrTab, intern}
use objectfile.Elf.Strtab.Reading.{
  IsValid, Grows, Grows-refl, Grows-trans, intern-IsValid, intern-Grows, lookup-intern,
}
use objectfile.Elf.Sections.{
  SecDesc, DescState, add_desc, add_contents, content_desc, add_relas, rela_desc, add_groups,
  group_desc, count_groups, comdat_sig, build_group_data, rela_idx_for,
}

-- The name of the section is in the table.
abbrev pub Named : StrTab → SecDesc → Type 0
Named t d = (off : ℕ) × (lookup d.name t.offsets ≡ some off)

pub record Adds (st : DescState) (ds : List SecDesc) (st' : DescState) : Type 0 where
  pub descs : st'.descs ≡ st.descs ++ ds
  pub grows : Grows st.shstrtab st'.shstrtab
  pub named : All (Named st'.shstrtab) ds
  pub valid : IsValid st.shstrtab → IsValid st'.shstrtab

pub Named-Grows :
    {t u : StrTab} (ds : List SecDesc) → Grows t u → All (Named t) ds → All (Named u) ds
Named-Grows [] g h = tt
Named-Grows (d ∷ ds) g h = ((h.0.0, g.keeps d.name h.0.0 h.0.1), Named-Grows ds g h.1)

pub All-append {ℓ} :
    (P : SecDesc → Type ℓ) (xs ys : List SecDesc) → All P xs → All P ys → All P (xs ++ ys)
All-append P [] ys h k = k
All-append P (x ∷ xs) ys h k = (h.0, All-append P xs ys h.1 k)

pub Adds-nil : (st : DescState) → Adds st [] st
Adds-nil st = record {
  descs = sym (append-nil st.descs);
  grows = Grows-refl st.shstrtab;
  named = tt;
  valid = λ v. v;
}

pub Adds-trans :
    {st st' st'' : DescState} (ds es : List SecDesc)
    → Adds st ds st'
    → Adds st' es st''
    → Adds st (ds ++ es) st''
Adds-trans {st} {st'} {st''} ds es p q = record {
  descs = q.descs ∙ ap (λ t. t ++ es) p.descs ∙ append_assoc st.descs ds es;
  grows = Grows-trans p.grows q.grows;
  named = All-append (Named st''.shstrtab) ds es (Named-Grows ds q.grows p.named) q.named;
  valid = λ v. q.valid (p.valid v);
}

pub add_desc-Adds : (st : DescState) (d : SecDesc) → Adds st (d ∷ []) (add_desc st d)
unfolding add_desc
add_desc-Adds st d = record {
  descs = refl;
  grows = intern-Grows st.shstrtab d.name;
  named = (((intern st.shstrtab d.name).1, lookup-intern st.shstrtab d.name), tt);
  valid = intern-IsValid st.shstrtab d.name;
}

-- One content section for each section, in order.
pub add_contents-Adds :
    (c : Class) (ss : List Section) (st : DescState)
    → Adds st (map (content_desc c) ss) (add_contents c ss st)
unfolding add_contents
add_contents-Adds c [] st = Adds-nil st
add_contents-Adds c (s ∷ ss) st =
    Adds-trans (content_desc c s ∷ []) (map (content_desc c) ss)
      (add_desc-Adds st (content_desc c s))
      (add_contents-Adds c ss (add_desc st (content_desc c s)))

-- The RELA section of some entry of a section.
abbrev pub IsRela : Class → List Section → ℕ → SecDesc → Type 0
IsRela c sections symtab_idx d =
    (e : RelaEntry) × (s : Section) × (get_elem? sections e.content_idx ≡ some s)
    × (d ≡ rela_desc c symtab_idx e s)

abbrev pub IsGroup : ℕ → SecDesc → Type 0
IsGroup symtab_idx d = (sig : ℕ) × (members : Bytes) × (d ≡ group_desc symtab_idx sig members)

-- One RELA section for each entry.
pub record RelasAdded (c : Class) (sections : List Section) (symtab_idx : ℕ) (work : List RelaEntry)
    (st st' : DescState) : Type 0 where
  pub relas : List SecDesc
  pub count : length relas ≡ length work
  pub each : All (IsRela c sections symtab_idx) relas
  pub adds : Adds st relas st'

pub add_relas-added :
    (c : Class) (sections : List Section) (symtab_idx : ℕ) (work : List RelaEntry) (st : DescState)
    {st' : DescState}
    → add_relas c sections symtab_idx work st ≡ ok st'
    → RelasAdded c sections symtab_idx work st st'
unfolding add_relas
add_relas-added c sections symtab_idx [] st h = record {
  relas = [];
  count = refl;
  each = tt;
  adds = subst (Adds st []) (ok-injective h) (Adds-nil st);
}
add_relas-added c sections symtab_idx (e ∷ es) st h =
    elim (Option-cases (get_elem? sections e.content_idx)) [
      | inl missing ↦ absurd (ground arith)
      | inr (s, found) ↦
          let d = rela_desc c symtab_idx e s in
          let rest =
            add_relas-added c sections symtab_idx es (add_desc st d) (rw (found, add_relas) at h) in
          record {
            relas = d ∷ rest.relas;
            count = ap suc rest.count;
            each = ((e, s, found, refl), rest.each);
            adds = Adds-trans (d ∷ []) rest.relas (add_desc-Adds st d) rest.adds;
          }
    ]

-- One group section for each section that is marked FlagLinkOnce.
pub record GroupsAdded (symtab_idx : ℕ) (ss : List Section) (st st' : DescState) : Type 0 where
  pub groups : List SecDesc
  pub count : length groups ≡ count_groups ss
  pub each : All (IsGroup symtab_idx) groups
  pub adds : Adds st groups st'

pub add_groups-added :
    (m : Table ℕ) (work : List RelaEntry) (n symtab_idx i : ℕ) (ss : List Section) (st : DescState)
    {st' : DescState}
    → add_groups m work n symtab_idx i ss st ≡ ok st'
    → GroupsAdded symtab_idx ss st st'
unfolding add_groups count_groups
add_groups-added m work n symtab_idx i [] st h = record {
  groups = [];
  count = refl;
  each = tt;
  adds = subst (Adds st []) (ok-injective h) (Adds-nil st);
}
add_groups-added m work n symtab_idx i (s ∷ ss) st h = elim (Bool-cases (is_link_once s)) [
  | inr plain ↦
      let rest = add_groups-added m work n symtab_idx (suc i) ss st (rw (plain, add_groups) at h) in
      record {
        groups = rest.groups;
        each = rest.each;
        count = rest.count ∙ rw (plain, count_groups);
        adds = rest.adds;
      }
  | inl once ↦
      let (sig, signed, h₁) = >>=-eq-ok (comdat_sig s.symbols m i) _ (rw (once, add_groups) at h) in
      let d =
        group_desc symtab_idx sig (build_group_data (u32 (1 + i)) (rela_idx_for 0 work i) n) in
      let rest = add_groups-added m work n symtab_idx (suc i) ss (add_desc st d) h₁ in
      record {
        groups = d ∷ rest.groups;
        each = ((sig, build_group_data (u32 (1 + i)) (rela_idx_for 0 work i) n, refl), rest.each);
        count = ap suc rest.count ∙ rw (once, count_groups);
        adds = Adds-trans (d ∷ []) rest.groups (add_desc-Adds st d) rest.adds;
      }
]
