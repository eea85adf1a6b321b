-- ===== src/Macho/Symbols.antt =====
-- Phase 3 of build in macho/write.go, and externalSymbols: the symbol table and `symDefs`, which has
-- an entry for each name.
pub mod Index
pub mod Coverage
use objectfile.Prelude.{
  ℕ, suc, ◌+◌, Bool, true, false, not, ◌&&◌, ◌||◌, Option, none, some, List, [], ◌∷◌, ◌++◌, length,
  if◌then◌else◌, bit_or,
}
use objectfile.Prelude.Bits.{u8, u32}
use objectfile.Prelude.Bytes.{Bytes, bytes_eq, codes}
use objectfile.Prelude.Sorting.{contains, sort_strings}
use objectfile.Prelude.Table.{Table, insert}
use objectfile.Loops.{over_sections}
use objectfile.Object.{
  Section, Symbol, Binding, binding_global, is_local, is_global, is_weak, is_link_once,
}
use objectfile.Elf.Externals.{add_key, is_external, seen_names}
use objectfile.Elf.Strtab.{StrTab, new_str_tab, intern}
use objectfile.Macho.Format.{Nlist, n_undf, n_sect, n_ext, n_weak_def, no_sect}

-- The first loop of externalSymbols: the names that are not empty.
unfoldable pub define_symbols : List Symbol → List Bytes → List Bytes
define_symbols [] m = m
define_symbols (s ∷ ss) m = define_symbols ss (if bytes_eq s.name [] then m else add_key s.name m)

unfoldable pub defined_names : List Section → List Bytes → List Bytes
defined_names [] m = m
defined_names (s ∷ ss) m = defined_names ss (define_symbols s.symbols m)

-- externalSymbols; the second loop is that of elf.
unfoldable pub external_symbols : List Section → List Bytes
external_symbols sections =
    sort_strings (seen_names (is_external (defined_names sections [])) sections [])

-- symEntry; the index of the section of an undefined symbol, -1, is `none`.
pub record SymEntry : Type 0 where
  pub nlist_idx : ℕ
  pub sect_idx : Option ℕ
  pub binding : Binding

-- The variables of phase 3.
pub record SymState : Type 0 where
  pub strtab : StrTab
  pub syms : List Nlist
  pub sym_defs : Table SymEntry

-- "_" + name
unfoldable pub mangled : Bytes → Bytes
mangled name = codes "_" ++ name

-- The anonymous symbols of the sections, from index `i` on.
unfoldable pub section_symbols : ℕ → List Section → List Nlist
section_symbols i [] = []
section_symbols i (s ∷ ss) =
    record { n_strx = 0; n_type = n_sect; sect = u8 (1 + i); n_desc = 0; n_value = 0 }
    ∷ section_symbols (suc i) ss

abbrev pub null_symbol : Nlist
null_symbol = record { n_strx = 0; n_type = 0; sect = 0; n_desc = 0; n_value = 0 }

-- A named symbol takes the next index; the offset of its name is to be filled in.
unfoldable pub emit : SymState → Bytes → Nlist → Option ℕ → Binding → SymState
emit st name entry sect_idx binding =
    let interned = intern st.strtab (mangled name) in
    record {
      strtab = interned.0;
      syms = st.syms ++ (record entry { n_strx = interned.1 } ∷ []);
      sym_defs =
          insert name
            (record { nlist_idx = u32 (length st.syms); sect_idx = sect_idx; binding = binding })
            st.sym_defs;
    }

-- The record of a symbol in section `i`.
unfoldable pub entry_of : ℕ → Symbol → ℕ → ℕ → Nlist
entry_of i s n_type n_desc = record {
  n_strx = 0;
  n_type = n_type;
  sect = u8 (1 + i);
  n_desc = n_desc;
  n_value = s.offset;
}

-- The body of the loop over local symbols.
unfoldable pub add_local : ℕ → Section → SymState → Symbol → SymState
add_local i sec st s =
    if bytes_eq s.name [] || not (is_local s.binding)
    then st
    else emit st s.name (entry_of i s n_sect 0) (some i) s.binding

-- desc
unfoldable pub weak_desc : Section → Symbol → ℕ
weak_desc sec s = if is_weak s.binding || is_link_once sec then bit_or 0 n_weak_def else 0

-- The body of the loop over global and weak symbols.
unfoldable pub add_global : ℕ → Section → SymState → Symbol → SymState
add_global i sec st s =
    if bytes_eq s.name []
    then st
    else if not (is_global s.binding) && not (is_weak s.binding)
    then st
    else emit st s.name (entry_of i s (bit_or n_sect n_ext) (weak_desc sec s)) (some i) s.binding

abbrev pub external_entry : Nlist
external_entry = record {
  n_strx = 0;
  n_type = bit_or n_undf n_ext;
  sect = no_sect;
  n_desc = 0;
  n_value = 0;
}

unfoldable pub add_externals : List Bytes → SymState → SymState
add_externals [] st = st
add_externals (name ∷ names) st =
    add_externals names (emit st name external_entry none binding_global)

-- The table before the named symbols.
unfoldable pub initial : List Section → SymState
initial sections = record {
  strtab = new_str_tab;
  syms = null_symbol ∷ section_symbols 0 sections;
  sym_defs = [];
}

unfoldable pub local_table : List Section → SymState
local_table sections = over_sections add_local 0 sections (initial sections)

unfoldable pub defined_table : List Section → SymState
defined_table sections = over_sections add_global 0 sections (local_table sections)

unfoldable pub symbol_table : List Section → SymState
symbol_table sections = add_externals (external_symbols sections) (defined_table sections)
