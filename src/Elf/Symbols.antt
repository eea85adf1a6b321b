-- ===== src/Elf/Symbols.antt =====
-- Phase 1 of build64 and build32 in elf/write.go: the symbol table. Local symbols stand before
-- global ones, and `sym_index` has the index of each named symbol.
pub mod Laws
pub mod Partition
pub mod Index
pub mod Coverage
use objectfile.Prelude.{
  ℕ, suc, ◌+◌, Bool, true, false, not, ◌&&◌, List, [], ◌∷◌, ◌++◌, foldl, length, if◌then◌else◌,
}
use objectfile.Prelude.Bits.{u16, u32}
use objectfile.Prelude.Bytes.{Bytes}
use objectfile.Prelude.Table.{Table, insert}
use objectfile.Object.{
  Section, Symbol, SymbolKind, sym_func, sym_data, sym_section, is_local, is_weak, is_sym_section,
}
use objectfile.Loops.{over_sections}
use objectfile.Elf.Consts.{
  stb_local, stb_global, stb_weak, stt_notype, stt_object, stt_func, stt_section, shn_undef,
}
use objectfile.Elf.Strtab.{StrTab, new_str_tab, intern}
use objectfile.Elf.Format.{Class, Sym, zero_sym, st_info}
use objectfile.Elf.Externals.{external_symbols}

unfoldable pub elf_sym_type : SymbolKind → ℕ
elf_sym_type sym_func = stt_func
elf_sym_type sym_data = stt_object
elf_sym_type sym_section = stt_section
elf_sym_type _ = stt_notype

-- The variables of the phase.
pub record SymState : Type 0 where
  pub strtab : StrTab
  pub sym_index : Table ℕ
  pub syms : List Sym

-- One named entry: its name is interned, and its index is that of the end of the table.
unfoldable pub emit : SymState → Bytes → Sym → SymState
emit st name entry =
    let named = intern st.strtab name in
    record {
      strtab = named.0;
      sym_index = insert name (u32 (length st.syms)) st.sym_index;
      syms = st.syms ++ (record entry { name = named.1 } ∷ []);
    }

-- The entry of a symbol of section `i`, its name to be interned.
unfoldable pub entry_of : ℕ → ℕ → Symbol → Sym
entry_of bind i s = record {
  name = 0;
  info = st_info bind (elf_sym_type s.kind);
  shndx = u16 (1 + i);
  value = s.offset;
  size = s.size;
}

-- The body of the loop over local symbols.
unfoldable pub add_local : ℕ → SymState → Symbol → SymState
add_local i st s =
    if is_local s.binding && not (is_sym_section s.kind)
    then emit st s.name (entry_of stb_local i s)
    else st

-- The body of the loop over global and weak symbols.
unfoldable pub add_global : ℕ → SymState → Symbol → SymState
add_global i st s =
    if is_local s.binding
    then st
    else emit st s.name (entry_of (if is_weak s.binding then stb_weak else stb_global) i s)

unfoldable pub add_external : SymState → Bytes → SymState
add_external st name = emit st name (record {
  name = 0;
  info = st_info stb_global stt_notype;
  shndx = shn_undef;
  value = 0;
  size = 0;
})

unfoldable pub over_names : List Bytes → SymState → SymState
over_names [] st = st
over_names (name ∷ names) st = over_names names (add_external st name)

-- One anonymous section symbol for each section.
unfoldable pub section_syms : ℕ → List Section → List Sym
section_syms i [] = []
section_syms i (s ∷ ss) =
    record zero_sym { info = st_info stb_local stt_section; shndx = u16 (1 + i) }
    ∷ section_syms (suc i) ss

-- The null symbol and the section symbols.
unfoldable pub initial_syms : List Section → SymState
initial_syms sections = record {
  strtab = new_str_tab;
  sym_index = [];
  syms = zero_sym ∷ section_syms 0 sections;
}

unfoldable pub local_syms : List Section → SymState
local_syms sections = over_sections (λ i sec. add_local i) 0 sections (initial_syms sections)

unfoldable pub first_global : List Section → ℕ
first_global sections = u32 (length (local_syms sections).syms)

unfoldable pub symbol_table : List Section → SymState
symbol_table sections =
    over_names (external_symbols sections)
      (over_sections (λ i sec. add_global i) 0 sections (local_syms sections))

-- symBuf
unfoldable pub sym_bytes : Class → List Sym → Bytes
sym_bytes c [] = []
sym_bytes c (s ∷ ss) = c.encode_sym s ++ sym_bytes c ss
