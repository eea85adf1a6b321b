-- ===== src/Macho/Symbols/Coverage.antt =====
-- Which names `symDefs` has: those of the symbols that build enters, and the external ones.
use objectfile.Prelude.{
  ℕ, ◌≡◌, refl, Bool, false, not, ◌&&◌, ◌||◌, Option, Bool-cases, inl, inr, List, [], ◌∷◌, arith,
  length, none, some, bit_or,
}
use objectfile.Prelude.Bits.{u32}
use objectfile.Prelude.Bytes.{Bytes, bytes_eq, bytes_eq_iff}
use objectfile.Prelude.Sorting.{contains, contains-sort_strings}
use objectfile.Prelude.Table.{lookup, lookup-insert}
use objectfile.Loops.{has_key, some_section, has_key-over_sections}
use objectfile.Object.{Section, Symbol, Binding, binding_global, is_local, is_global, is_weak}
use objectfile.Elf.Externals.{add_key, is_external, seen_names}
use objectfile.Elf.Externals.Laws.{
  names_symbol, defines, references, contains-add_key, contains-seen_names,
}
use objectfile.Macho.Format.{Nlist, n_sect, n_ext}
use objectfile.Macho.Symbols.{
  define_symbols, defined_names, external_symbols, SymState, emit, entry_of, weak_desc,
  external_entry, add_local, add_global, add_externals, initial, local_table, defined_table,
  symbol_table,
}

contains-define_symbols :
    (k : Bytes) (ss : List Symbol) (m : List Bytes)
    → contains k (define_symbols ss m)
      ≡ ((names_symbol k ss && not (bytes_eq k [])) || contains k m)
unfolding define_symbols
contains-define_symbols k [] m = refl
contains-define_symbols k (s ∷ ss) m = elim (Bool-cases (bytes_eq s.name [])) [
  | inl nameless ↦ rw nameless (
      ground (
        arith,
        contains-define_symbols k ss m,
        bytes_eq_iff s.name k,
        bytes_eq_iff s.name [],
        bytes_eq_iff k [],
        nameless,
      ))
  | inr named ↦ rw named (
      ground (
        arith,
        contains-define_symbols k ss (add_key s.name m),
        contains-add_key k s.name m,
        bytes_eq_iff s.name k,
        bytes_eq_iff s.name [],
        bytes_eq_iff k [],
        named,
      ))
]

contains-defined_names :
    (k : Bytes) (ss : List Section) (m : List Bytes)
    → contains k (defined_names ss m) ≡ ((defines k ss && not (bytes_eq k [])) || contains k m)
unfolding defined_names
contains-defined_names k [] m = refl
contains-defined_names k (s ∷ ss) m = ground (
  arith,
  contains-defined_names k ss (define_symbols s.symbols m),
  contains-define_symbols k s.symbols m,
)

-- The external symbols are those of elf: the names that a relocation uses, that are not empty, and
-- that no symbol has.
pub external_symbols-contains :
    (k : Bytes) (sections : List Section)
    → contains k (external_symbols sections)
      ≡ (references k sections && (not (bytes_eq k []) && not (defines k sections)))
unfolding external_symbols is_external contains
external_symbols-contains k sections = ground (
  arith,
  contains-sort_strings k (seen_names (is_external (defined_names sections [])) sections []),
  contains-seen_names (is_external (defined_names sections [])) k sections [],
  contains-defined_names k sections [],
)

has_key-emit :
    (k name : Bytes) (st : SymState) (e : Nlist) (i : Option ℕ) (b : Binding)
    → has_key k (emit st name e i b).sym_defs ≡ (bytes_eq name k || has_key k st.sym_defs)
unfolding emit
has_key-emit k name st e i b = ground (
  arith,
  lookup-insert name k (record { nlist_idx = u32 (length st.syms); sect_idx = i; binding = b })
      st.sym_defs,
)

-- The symbols that the two loops enter.
abbrev pub is_named_local : Symbol → Bool
is_named_local s = not (bytes_eq s.name []) && is_local s.binding

abbrev pub is_named_global : Symbol → Bool
is_named_global s = not (bytes_eq s.name []) && (is_global s.binding || is_weak s.binding)

has_key-add_local :
    (k : Bytes) (i : ℕ) (sec : Section) (st : SymState) (s : Symbol)
    → has_key k (add_local i sec st s).sym_defs
      ≡ ((is_named_local s && bytes_eq s.name k) || has_key k st.sym_defs)
unfolding add_local
has_key-add_local k i sec st s =
    elim (Bool-cases (bytes_eq s.name [] || not (is_local s.binding))) [
      | inl passed ↦ rw passed (ground (arith, passed))
      | inr taken ↦ rw taken (
          ground
            (arith, taken, has_key-emit k s.name st (entry_of i s n_sect 0) (some i) s.binding))
    ]

has_key-add_global :
    (k : Bytes) (i : ℕ) (sec : Section) (st : SymState) (s : Symbol)
    → has_key k (add_global i sec st s).sym_defs
      ≡ ((is_named_global s && bytes_eq s.name k) || has_key k st.sym_defs)
unfolding add_global
has_key-add_global k i sec st s = elim (Bool-cases (bytes_eq s.name [])) [
  | inl nameless ↦ rw nameless refl
  | inr named ↦ rw named (elim (Bool-cases (not (is_global s.binding) && not (is_weak s.binding))) [
    | inl passed ↦ rw passed (ground (arith, passed))
    | inr taken ↦ rw taken (
        ground (
          arith,
          taken,
          has_key-emit k s.name st (entry_of i s (bit_or n_sect n_ext) (weak_desc sec s)) (some i)
              s.binding,
        ))
  ])
]

has_key-add_externals :
    (k : Bytes) (names : List Bytes) (st : SymState)
    → has_key k (add_externals names st).sym_defs ≡ (contains k names || has_key k st.sym_defs)
unfolding add_externals contains
has_key-add_externals k [] st = refl
has_key-add_externals k (name ∷ names) st = ground (
  arith,
  has_key-add_externals k names (emit st name external_entry none binding_global),
  has_key-emit k name st external_entry none binding_global,
)

-- A relocation can name it: a local symbol, a global or weak one, or an external name.
abbrev pub is_entered : List Section → Bytes → Bool
is_entered sections k =
    some_section is_named_local k sections
    || some_section is_named_global k sections
    || (references k sections && (not (bytes_eq k []) && not (defines k sections)))

no_key : (k : Bytes) (sections : List Section) → has_key k (initial sections).sym_defs ≡ false
unfolding lookup initial
no_key k sections = refl

-- A name has an entry exactly when a named symbol with one of the three bindings has it, or it is
-- external.
pub has_entry-symbol_table :
    (k : Bytes) (sections : List Section)
    → has_key k (symbol_table sections).sym_defs ≡ is_entered sections k
unfolding symbol_table defined_table local_table
has_entry-symbol_table k sections = ground (
  arith,
  no_key k sections,
  has_key-add_externals k (external_symbols sections) (defined_table sections),
  has_key-over_sections (λ (t : SymState). t.sym_defs) is_named_global add_global k
      (has_key-add_global k) 0 sections (local_table sections),
  has_key-over_sections (λ (t : SymState). t.sym_defs) is_named_local add_local k
      (has_key-add_local k) 0 sections (initial sections),
  external_symbols-contains k sections,
)
