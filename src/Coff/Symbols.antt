-- ===== src/Coff/Symbols.antt =====
-- Phases 3 and 4 of build in coff/write.go: the string table and the symbol table. An auxiliary
-- record takes a slot of the table like a symbol, and `sym_idx` has the slot of each named symbol.
pub mod Index
pub mod Coverage
use objectfile.Prelude.{
  ℕ, suc, ◌+◌, Bool, true, false, not, ◌||◌, none, some, List, [], ◌∷◌, ◌++◌, length, ltb,
  if◌then◌else◌,
}
use objectfile.Prelude.Bits.{u16, u32}
use objectfile.Prelude.Bytes.{Bytes}
use objectfile.Prelude.Sorting.{contains, sort_strings}
use objectfile.Prelude.Table.{Table, insert}
use objectfile.Loops.{over_sections, has_key}
use objectfile.Object.{Section, Symbol, SymbolKind, sym_func, is_global, is_weak, is_link_once}
use objectfile.Elf.Externals.{defined_names, seen_names}
use objectfile.Elf.Strtab.{StrTab, intern}
use objectfile.Coff.Format.{
  CoffSym, encode_symbol, encode_comdat_aux, sym_class_external, sym_class_static, sym_type_null,
  sym_type_func, sym_section_undef,
}
use objectfile.Coff.Sections.{section_meta}
use objectfile.Coff.Strtab.{new_str_tab, encode_sym_name}

-- definedSymbolNames; the loops are those of elf.
unfoldable pub defined_symbol_names : List Section → List Bytes
defined_symbol_names sections = defined_names sections []

-- !defined[r.Symbol]
unfoldable pub is_undefined : List Bytes → Bytes → Bool
is_undefined defined name = not (contains name defined)

unfoldable pub external_refs : List Section → List Bytes
external_refs sections =
    sort_strings (seen_names (is_undefined (defined_symbol_names sections)) sections [])

-- if len(name) > 8 { st.intern(name) }
unfoldable pub intern_long : StrTab → Bytes → StrTab
intern_long t name = if ltb 8 (length name) then (intern t name).0 else t

unfoldable pub intern_symbols : List Symbol → StrTab → StrTab
intern_symbols [] t = t
intern_symbols (s ∷ ss) t = intern_symbols ss (intern_long t s.name)

unfoldable pub intern_sections : List Section → StrTab → StrTab
intern_sections [] t = t
intern_sections (s ∷ ss) t =
    intern_sections ss (intern_symbols s.symbols (intern_long t (section_meta s).name))

unfoldable pub intern_refs : List Bytes → StrTab → StrTab
intern_refs [] t = t
intern_refs (name ∷ names) t = intern_refs names (intern_long t name)

-- Phase 3.
unfoldable pub string_table : List Section → StrTab
string_table sections = intern_refs (external_refs sections) (intern_sections sections new_str_tab)

-- The variables of phase 4; a slot is the 18 bytes of a symEntry.
pub record SymState : Type 0 where
  pub strtab : StrTab
  pub sym_idx : Table ℕ
  pub slots : List Bytes

-- The symbol of a section, with the auxiliary record of a COMDAT section behind it.
unfoldable pub add_section_symbol : ℕ → SymState → Section → SymState
add_section_symbol i st s =
    let named = encode_sym_name st.strtab (section_meta s).name in
    record st {
      strtab = named.0;
      slots =
          st.slots
          ++ (encode_symbol (record {
            name = named.1;
            value = 0;
            section_number = u16 (i + 1);
            typ = sym_type_null;
            storage_class = sym_class_static;
            number_of_auxiliary_symbols = if is_link_once s then 1 else 0;
          })
              ∷ (if is_link_once s
                  then encode_comdat_aux (section_meta s).raw_size (u16 (length s.relocs)) ∷ []
                  else []));
    }

-- 4a, for the sections from index `i` on.
unfoldable pub section_symbols : ℕ → List Section → SymState → SymState
section_symbols i [] st = st
section_symbols i (s ∷ ss) st = section_symbols (suc i) ss (add_section_symbol i st s)

-- A named symbol takes the next slot.
unfoldable pub emit : SymState → Bytes → CoffSym → SymState
emit st name entry =
    let named = encode_sym_name st.strtab name in
    record {
      strtab = named.0;
      sym_idx = insert name (u32 (length st.slots)) st.sym_idx;
      slots = st.slots ++ (encode_symbol (record entry { name = named.1 }) ∷ []);
    }

unfoldable pub is_func : SymbolKind → Bool
is_func sym_func = true
is_func _ = false

-- The record of a symbol of section `i`, its name to be encoded.
unfoldable pub entry_of : ℕ → Symbol → CoffSym
entry_of i s = record {
  name = [];
  value = s.offset;
  section_number = u16 (i + 1);
  typ = if is_func s.kind then sym_type_func else sym_type_null;
  storage_class =
      if is_global s.binding || is_weak s.binding then sym_class_external else sym_class_static;
  number_of_auxiliary_symbols = 0;
}

-- 4b
unfoldable pub add_symbol : ℕ → Section → SymState → Symbol → SymState
add_symbol i sec st s = emit st s.name (entry_of i s)

abbrev pub external_entry : CoffSym
external_entry = record {
  name = [];
  value = 0;
  section_number = sym_section_undef;
  typ = sym_type_null;
  storage_class = sym_class_external;
  number_of_auxiliary_symbols = 0;
}

-- 4c
unfoldable pub add_external : SymState → Bytes → SymState
add_external st name = if has_key name st.sym_idx then st else emit st name external_entry

unfoldable pub over_names : List Bytes → SymState → SymState
over_names [] st = st
over_names (name ∷ names) st = over_names names (add_external st name)

unfoldable pub symbol_table : List Section → SymState
symbol_table sections = over_names (external_refs sections) (
    over_sections add_symbol 0 sections (
      section_symbols 0 sections
        (record { strtab = string_table sections; sym_idx = []; slots = [] })))
