-- ===== src/Macho/Symbols/Index.antt =====
-- What `symDefs` says: the index of each name is that of a record of the symbol table with the name
-- behind an underscore, in the section and of the type that the entry tells.
use objectfile.Prelude.{
  ℕ, ◌+◌, ◌^◌, ◌<◌, ◌≡◌, refl, ap, ◌∙◌, true, false, not, ◌&&◌, ◌||◌, Bool-cases, inl, inr, Option,
  none, some, List, [], ◌∷◌, arith, length, drop, get_elem?, get_elem?-append,
  get_elem?-append_left, get_elem?-lt, if◌then◌else◌, bit_or,
}
use mathlib.Core.Path.{subst₂}
use objectfile.Prelude.Bits.{u8, u32}
use objectfile.Prelude.Bytes.{Bytes, NoNul, cstr, bytes_eq, bytes_eq_iff}
use objectfile.Prelude.Table.{lookup, insert, first_entry, later_entry}
use objectfile.Loops.{over_sections_inv}
use objectfile.Object.{Section, Symbol, Binding, binding_global, is_local, is_global, is_weak}
use objectfile.Elf.Strtab.{intern}
use objectfile.Elf.Strtab.Reading.{
  IsValid, new_str_tab-IsValid, intern-IsValid, intern-Grows, lookup-intern, cstr-stored,
}
use objectfile.Macho.Format.{Nlist, n_sect, n_ext, no_sect}
use objectfile.Macho.Symbols.{
  mangled, SymEntry, SymState, emit, entry_of, weak_desc, add_local, add_global, external_entry,
  add_externals, external_symbols, initial, local_table, defined_table, symbol_table,
}

-- A record for a name that no section defines, or for one that section `i` does.
abbrev pub Agrees : Option ℕ → Binding → Nlist → Type 0
Agrees none b e = (e.n_type ≡ n_ext) × (e.sect ≡ no_sect)
Agrees (some i) b e =
    (e.n_type ≡ (if is_local b then n_sect else bit_or n_sect n_ext)) × (e.sect ≡ u8 (1 + i))

-- The entry is that of a record with the name.
pub record Points (st : SymState) (name : Bytes) (def : SymEntry) : Type 0 where
  pub position : ℕ
  pub entry : Nlist
  pub index : def.nlist_idx ≡ u32 position
  pub found : get_elem? st.syms position ≡ some entry
  pub named : lookup (mangled name) st.strtab.offsets ≡ some entry.n_strx
  pub agrees : Agrees def.sect_idx def.binding entry

pub record IsIndexed (st : SymState) : Type 0 where
  pub strings : IsValid st.strtab
  pub points :
      (name : Bytes) (def : SymEntry) → lookup name st.sym_defs ≡ some def → Points st name def

module _ (st : SymState) (name : Bytes) (e : Nlist) (sect_idx : Option ℕ) (b : Binding) where
  new_def : SymEntry
  new_def = record { nlist_idx = u32 (length st.syms); sect_idx = sect_idx; binding = b }

  Points-emit :
      (k : Bytes) (def : SymEntry) → Points st k def → Points (emit st name e sect_idx b) k def
  unfolding emit
  Points-emit k def p = record {
    position = p.position;
    entry = p.entry;
    index = p.index;
    found = get_elem?-append_left p.position st.syms _ p.entry p.found;
    named = (intern-Grows st.strtab (mangled name)).keeps (mangled k) p.entry.n_strx p.named;
    agrees = p.agrees;
  }

  Points-new : Agrees sect_idx b e → Points (emit st name e sect_idx b) name new_def
  unfolding emit new_def
  Points-new h = record {
    position = length st.syms;
    entry = record e { n_strx = (intern st.strtab (mangled name)).1 };
    index = refl;
    found = get_elem?-append (length st.syms) st.syms [] _ refl;
    named = lookup-intern st.strtab (mangled name);
    agrees = agrees_too sect_idx h;
  }
    where
      agrees_too :
          (i : Option ℕ)
          → Agrees i b e
          → Agrees i b (record e { n_strx = (intern st.strtab (mangled name)).1 })
      agrees_too none g = g
      agrees_too (some i) g = g

  emit-sym_defs : (emit st name e sect_idx b).sym_defs ≡ insert name new_def st.sym_defs
  unfolding emit new_def
  emit-sym_defs = refl

  emit-Points :
      (k : Bytes) (def : SymEntry)
      → Agrees sect_idx b e
      → IsIndexed st
      → lookup k (emit st name e sect_idx b).sym_defs ≡ some def
      → Points (emit st name e sect_idx b) k def
  emit-Points k def g h found = elim (Bool-cases (bytes_eq name k)) [
    | inl same ↦
        let at_end = first_entry name k new_def def st.sym_defs same (rw emit-sym_defs at found) in
        subst₂ (Points (emit st name e sect_idx b)) ((bytes_eq_iff name k).0 same) at_end
          (Points-new g)
    | inr other ↦ Points-emit k def (
        h.points k def
          (later_entry name k new_def def st.sym_defs other (rw emit-sym_defs at found)))
  ]

  emit-IsIndexed : Agrees sect_idx b e → IsIndexed st → IsIndexed (emit st name e sect_idx b)
  unfolding emit
  emit-IsIndexed g h = record {
    strings = intern-IsValid st.strtab (mangled name) h.strings;
    points = λ k def found. emit-Points k def g h found;
  }

add_local-IsIndexed :
    (i : ℕ) (sec : Section) (st : SymState) (s : Symbol)
    → IsIndexed st
    → IsIndexed (add_local i sec st s)
unfolding add_local entry_of
add_local-IsIndexed i sec st s h =
    elim (Bool-cases (bytes_eq s.name [] || not (is_local s.binding))) [
      | inl passed ↦ rw passed h
      | inr taken ↦ rw taken (
          emit-IsIndexed st s.name (entry_of i s n_sect 0) (some i) s.binding
            (agrees (ground (arith, taken))) h)
    ]
  where
    agrees : is_local s.binding ≡ true → Agrees (some i) s.binding (entry_of i s n_sect 0)
    agrees l = (rw l refl, refl)

add_global-IsIndexed :
    (i : ℕ) (sec : Section) (st : SymState) (s : Symbol)
    → IsIndexed st
    → IsIndexed (add_global i sec st s)
unfolding add_global entry_of is_local is_global is_weak
add_global-IsIndexed i sec st s h = elim (Bool-cases (bytes_eq s.name [])) [
  | inl nameless ↦ rw nameless h
  | inr named ↦ rw named (elim (Bool-cases (not (is_global s.binding) && not (is_weak s.binding))) [
    | inl passed ↦ rw passed h
    | inr taken ↦ rw taken (
        emit-IsIndexed st s.name (entry_of i s (bit_or n_sect n_ext) (weak_desc sec s)) (some i)
          s.binding (agrees (external s.binding taken)) h)
  ])
]
  where
    external : (b : Binding) → (not (is_global b) && not (is_weak b)) ≡ false → is_local b ≡ false
    external b t = ground arith

    agrees :
        is_local s.binding ≡ false
        → Agrees (some i) s.binding (entry_of i s (bit_or n_sect n_ext) (weak_desc sec s))
    agrees l = (rw l refl, refl)

add_externals-IsIndexed :
    (names : List Bytes) (st : SymState) → IsIndexed st → IsIndexed (add_externals names st)
unfolding add_externals
add_externals-IsIndexed [] st h = h
add_externals-IsIndexed (name ∷ names) st h =
    add_externals-IsIndexed names (emit st name external_entry none binding_global)
      (emit-IsIndexed st name external_entry none binding_global (refl, refl) h)

initial-IsIndexed : (sections : List Section) → IsIndexed (initial sections)
unfolding initial lookup
initial-IsIndexed sections = record {
  strings = new_str_tab-IsValid;
  points = λ name def h. absurd (ground arith);
}

pub symbol_table-IsIndexed : (sections : List Section) → IsIndexed (symbol_table sections)
unfolding symbol_table defined_table local_table
symbol_table-IsIndexed sections = add_externals-IsIndexed (external_symbols sections) _ (
    over_sections_inv IsIndexed add_global add_global-IsIndexed 0 sections _ (
      over_sections_inv IsIndexed add_local add_local-IsIndexed 0 sections _
        (initial-IsIndexed sections)))

-- A record of the symbol table with the name behind an underscore.
abbrev pub NamedAt : List Section → ℕ → Bytes → Nlist → Type 0
NamedAt sections idx name e =
    (get_elem? (symbol_table sections).syms idx ≡ some e)
    × (cstr (drop e.n_strx (symbol_table sections).strtab.payload) ≡ mangled name)

-- The index of an entry of `symDefs` is that of a record whose n_strx reads back the name behind an
-- underscore, and which agrees with the entry on the section: for names without NUL bytes, in a
-- table of less than 2 ^ 32 records and bytes of names.
pub sym_defs-name :
    (sections : List Section) (name : Bytes) (def : SymEntry)
    → length (symbol_table sections).syms < 2 ^ 32
    → length (symbol_table sections).strtab.payload < 2 ^ 32
    → NoNul name
    → lookup name (symbol_table sections).sym_defs ≡ some def
    → (e : Nlist) × NamedAt sections def.nlist_idx name e × Agrees def.sect_idx def.binding e
unfolding mangled
sym_defs-name sections name def few small clean h =
    let valid = symbol_table-IsIndexed sections in
    let p = valid.points name def h in
    let at : def.nlist_idx ≡ p.position =
      omega
        (arith, p.index, get_elem?-lt p.position (symbol_table sections).syms p.entry p.found) in
    (
      p.entry,
      (
        ap (get_elem? (symbol_table sections).syms) at ∙ p.found,
        cstr-stored (symbol_table sections).strtab (mangled name) p.entry.n_strx valid.strings
            (omega arith, clean) small p.named,
      ),
      p.agrees,
    )
