-- ===== src/Elf/Symbols/Coverage.antt =====
-- Which names have an index in the symbol table.
use objectfile.Prelude.{
  ℕ, ◌≡◌, refl, Bool, not, ◌&&◌, ◌||◌, Bool-cases, inl, inr, List, [], ◌∷◌, arith, length,
}
use objectfile.Prelude.Bits.{u32}
use objectfile.Prelude.Bytes.{Bytes, bytes_eq}
use objectfile.Prelude.Sorting.{contains}
use objectfile.Prelude.Table.{lookup, lookup-insert}
use objectfile.Loops.{over_sections, has_key, some_symbol, some_section, has_key-over_sections}
use objectfile.Object.{Section, Symbol, is_local, is_sym_section}
use objectfile.Elf.Externals.{external_symbols}
use objectfile.Elf.Externals.Laws.{defines, references, contains-external_symbols}
use objectfile.Elf.Format.{Sym}
use objectfile.Elf.Symbols.{
  SymState, emit, add_local, add_global, add_external, over_names, initial_syms, local_syms,
  symbol_table,
}

-- A symbol has an entry in the table unless it is a local section symbol.
abbrev pub has_entry : Symbol → Bool
has_entry s = not (is_local s.binding && is_sym_section s.kind)

has_key-emit :
    (k name : Bytes) (st : SymState) (e : Sym)
    → has_key k (emit st name e).sym_index ≡ (bytes_eq name k || has_key k st.sym_index)
unfolding emit
has_key-emit k name st e = ground (arith, lookup-insert name k (u32 (length st.syms)) st.sym_index)

abbrev is_named_local : Symbol → Bool
is_named_local s = is_local s.binding && not (is_sym_section s.kind)

abbrev is_not_local : Symbol → Bool
is_not_local s = not (is_local s.binding)

has_key-add_local :
    (k : Bytes) (i : ℕ) (st : SymState) (s : Symbol)
    → has_key k (add_local i st s).sym_index
      ≡ ((is_named_local s && bytes_eq s.name k) || has_key k st.sym_index)
unfolding add_local
has_key-add_local k i st s = elim (Bool-cases (is_named_local s)) [
  | inl taken ↦ rw (taken, add_local) (has_key-emit k s.name st _)
  | inr passed ↦ rw (passed, add_local)
]

has_key-add_global :
    (k : Bytes) (i : ℕ) (st : SymState) (s : Symbol)
    → has_key k (add_global i st s).sym_index
      ≡ ((is_not_local s && bytes_eq s.name k) || has_key k st.sym_index)
unfolding add_global
has_key-add_global k i st s = elim (Bool-cases (is_local s.binding)) [
  | inl passed ↦ rw (passed, add_global)
  | inr taken ↦ rw (taken, add_global) (has_key-emit k s.name st _)
]

has_key-add_external :
    (k : Bytes) (st : SymState) (name : Bytes)
    → has_key k (add_external st name).sym_index ≡ (bytes_eq name k || has_key k st.sym_index)
unfolding add_external
has_key-add_external k st name = has_key-emit k name st _

has_key-over_names :
    (k : Bytes) (names : List Bytes) (st : SymState)
    → has_key k (over_names names st).sym_index ≡ (contains k names || has_key k st.sym_index)
unfolding over_names contains
has_key-over_names k [] st = refl
has_key-over_names k (name ∷ names) st =
    ground
      (arith, has_key-over_names k names (add_external st name), has_key-add_external k st name)

some_symbol-either :
    (k : Bytes) (ss : List Symbol)
    → (some_symbol is_not_local k ss || some_symbol is_named_local k ss)
      ≡ some_symbol has_entry k ss
some_symbol-either k [] = refl
some_symbol-either k (s ∷ ss) = ground (arith, some_symbol-either k ss)

some_section-either :
    (k : Bytes) (ss : List Section)
    → (some_section is_not_local k ss || some_section is_named_local k ss)
      ≡ some_section has_entry k ss
some_section-either k [] = refl
some_section-either k (s ∷ ss) =
    ground (arith, some_section-either k ss, some_symbol-either k s.symbols)

-- A name has an index exactly when some symbol that is no local section symbol has it, or when a
-- relocation uses it, it is not empty, and no symbol has it.
pub has_key-symbol_table :
    (k : Bytes) (sections : List Section)
    → has_key k (symbol_table sections).sym_index ≡ (
        some_section has_entry k sections
        || (references k sections && (not (bytes_eq k []) && not (defines k sections))))
unfolding symbol_table local_syms initial_syms lookup
has_key-symbol_table k sections =
    let start = initial_syms sections in
    let middle = over_sections (λ i sec. add_local i) 0 sections start in
    ground (
      arith,
      has_key-over_names k (external_symbols sections)
          (over_sections (λ i sec. add_global i) 0 sections middle),
      has_key-over_sections (λ (t : SymState). t.sym_index) is_not_local (λ i sec. add_global i) k
          (λ i sec. has_key-add_global k i) 0 sections middle,
      has_key-over_sections (λ (t : SymState). t.sym_index) is_named_local (λ i sec. add_local i) k
          (λ i sec. has_key-add_local k i) 0 sections start,
      contains-external_symbols k sections,
      some_section-either k sections,
    )
