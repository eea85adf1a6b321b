-- ===== src/Coff/Symbols/Coverage.antt =====
-- Which names have a slot in the symbol table: all that relocations can name.
use objectfile.Prelude.{
  ℕ, suc, ◌≡◌, refl, Bool, true, false, not, ◌&&◌, ◌||◌, Bool-cases, inl, inr, List, [], ◌∷◌, arith,
  length,
}
use objectfile.Prelude.Bits.{u32}
use objectfile.Prelude.Bytes.{Bytes, bytes_eq, bytes_eq_iff}
use objectfile.Prelude.Sorting.{contains, contains-sort_strings, Ascending, sort_strings-Ascending}
use objectfile.Prelude.Table.{lookup, lookup-insert}
use objectfile.Loops.{over_sections, has_key, some_symbol, some_section, has_key-over_sections}
use objectfile.Object.{Section, Symbol}
use objectfile.Elf.Externals.{seen_names}
use objectfile.Elf.Externals.Laws.{
  names_symbol, defines, references, contains-defined_names, contains-seen_names,
  seen_names-Distinct,
}
use objectfile.Coff.Format.{CoffSym}
use objectfile.Coff.Symbols.{
  SymState, emit, add_section_symbol, section_symbols, add_symbol, add_external, over_names,
  defined_symbol_names, is_undefined, external_refs, symbol_table, string_table,
}

-- The external references are the names that relocations use and no symbol has, in strictly
-- ascending order; the empty name is among them if a relocation uses it.
pub contains-external_refs :
    (k : Bytes) (sections : List Section)
    → contains k (external_refs sections) ≡ (references k sections && not (defines k sections))
unfolding external_refs is_undefined defined_symbol_names contains
contains-external_refs k sections = ground (
  arith,
  contains-sort_strings k (seen_names (is_undefined (defined_symbol_names sections)) sections []),
  contains-seen_names (is_undefined (defined_symbol_names sections)) k sections [],
  contains-defined_names k sections [],
)

pub external_refs-Ascending : (sections : List Section) → Ascending (external_refs sections)
unfolding external_refs
external_refs-Ascending sections =
    sort_strings-Ascending _
      (seen_names-Distinct (is_undefined (defined_symbol_names sections)) sections [] tt)

has_key-emit :
    (k name : Bytes) (st : SymState) (e : CoffSym)
    → has_key k (emit st name e).sym_idx ≡ (bytes_eq name k || has_key k st.sym_idx)
unfolding emit
has_key-emit k name st e = ground (arith, lookup-insert name k (u32 (length st.slots)) st.sym_idx)

abbrev every_symbol : Symbol → Bool
every_symbol s = true

has_key-add_symbol :
    (k : Bytes) (i : ℕ) (sec : Section) (st : SymState) (s : Symbol)
    → has_key k (add_symbol i sec st s).sym_idx
      ≡ ((every_symbol s && bytes_eq s.name k) || has_key k st.sym_idx)
unfolding add_symbol
has_key-add_symbol k i sec st s = has_key-emit k s.name st _

has_key-add_external :
    (k : Bytes) (st : SymState) (name : Bytes)
    → has_key k (add_external st name).sym_idx ≡ (bytes_eq name k || has_key k st.sym_idx)
unfolding add_external
has_key-add_external k st name = elim (Bool-cases (has_key name st.sym_idx)) [
  | inl old ↦ rw old (known k st name old)
  | inr new ↦ rw new (has_key-emit k name st _)
]
  where
    known :
        (k : Bytes) (st : SymState) (name : Bytes)
        → has_key name st.sym_idx ≡ true
        → has_key k st.sym_idx ≡ (bytes_eq name k || has_key k st.sym_idx)
    known k st name old = elim (Bool-cases (bytes_eq name k)) [
      | inl same ↦ rw same (rw ((bytes_eq_iff name k).0 same) at old)
      | inr other ↦ rw other
    ]

has_key-over_names :
    (k : Bytes) (names : List Bytes) (st : SymState)
    → has_key k (over_names names st).sym_idx ≡ (contains k names || has_key k st.sym_idx)
unfolding over_names contains
has_key-over_names k [] st = refl
has_key-over_names k (name ∷ names) st =
    ground
      (arith, has_key-over_names k names (add_external st name), has_key-add_external k st name)

section_symbols-sym_idx :
    (i : ℕ) (ss : List Section) (st : SymState) → (section_symbols i ss st).sym_idx ≡ st.sym_idx
unfolding section_symbols add_section_symbol
section_symbols-sym_idx i [] st = refl
section_symbols-sym_idx i (s ∷ ss) st =
    section_symbols-sym_idx (suc i) ss (add_section_symbol i st s)

some_symbol-names :
    (k : Bytes) (ss : List Symbol) → some_symbol every_symbol k ss ≡ names_symbol k ss
some_symbol-names k [] = refl
some_symbol-names k (s ∷ ss) = ground (arith, some_symbol-names k ss)

some_section-defines :
    (k : Bytes) (ss : List Section) → some_section every_symbol k ss ≡ defines k ss
some_section-defines k [] = refl
some_section-defines k (s ∷ ss) =
    ground (arith, some_section-defines k ss, some_symbol-names k s.symbols)

no_key : (k : Bytes) → has_key {V = ℕ} k [] ≡ false
unfolding lookup
no_key k = refl

-- A name has a slot exactly when a symbol has it or a relocation uses it.
pub has_slot-symbol_table :
    (k : Bytes) (sections : List Section)
    → has_key k (symbol_table sections).sym_idx ≡ (defines k sections || references k sections)
unfolding symbol_table
has_slot-symbol_table k sections =
    let start : SymState = record { strtab = string_table sections; sym_idx = []; slots = [] } in
    let middle = section_symbols 0 sections start in
    let empty : has_key k middle.sym_idx ≡ false =
      rw (section_symbols-sym_idx 0 sections start) (no_key k) in
    ground (
      arith,
      empty,
      has_key-over_names k (external_refs sections) (over_sections add_symbol 0 sections middle),
      has_key-over_sections (λ (t : SymState). t.sym_idx) every_symbol add_symbol k
          (has_key-add_symbol k) 0 sections middle,
      contains-external_refs k sections,
      some_section-defines k sections,
    )
