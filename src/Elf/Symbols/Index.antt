-- ===== src/Elf/Symbols/Index.antt =====
-- What `symIndex` says: the index of each name is that of an entry whose st_name is the offset of
-- the name in .strtab.
use objectfile.Prelude.{
  ℕ, ◌^◌, ◌<◌, ◌≡◌, refl, ap, ◌∙◌, Bool-cases, inl, inr, some, List, [], arith, length, drop,
  get_elem?, get_elem?-append, get_elem?-append_left, get_elem?-lt,
}
use mathlib.Core.Path.{subst₂}
use objectfile.Prelude.Bits.{u32}
use objectfile.Prelude.Bytes.{Bytes, NoNul, cstr, bytes_eq, bytes_eq_iff}
use objectfile.Prelude.Table.{lookup, insert, first_entry, later_entry}
use objectfile.Loops.{over_sections_inv}
use objectfile.Object.{Section}
use objectfile.Elf.Externals.{external_symbols}
use objectfile.Elf.Format.{Sym}
use objectfile.Elf.Strtab.{intern}
use objectfile.Elf.Strtab.Reading.{
  IsValid, new_str_tab-IsValid, intern-IsValid, intern-Grows, lookup-intern, cstr-stored,
}
use objectfile.Elf.Symbols.{
  SymState, emit, add_local, add_global, initial_syms, local_syms, symbol_table,
}
use objectfile.Elf.Symbols.Laws.{over_names_inv, add_local_inv, add_global_inv, add_external_inv}

-- `idx` is the index of an entry with the name.
pub record Points (st : SymState) (name : Bytes) (idx : ℕ) : Type 0 where
  pub position : ℕ
  pub entry : Sym
  pub index : idx ≡ u32 position
  pub found : get_elem? st.syms position ≡ some entry
  pub named : lookup name st.strtab.offsets ≡ some entry.name

pub record IsIndexed (st : SymState) : Type 0 where
  pub strings : IsValid st.strtab
  pub points : (name : Bytes) (idx : ℕ) → lookup name st.sym_index ≡ some idx → Points st name idx

Points-emit :
    (st : SymState) (name k : Bytes) (e : Sym) (idx : ℕ)
    → Points st k idx
    → Points (emit st name e) k idx
unfolding emit
Points-emit st name k e idx p = record {
  position = p.position;
  entry = p.entry;
  index = p.index;
  found = get_elem?-append_left p.position st.syms _ p.entry p.found;
  named = (intern-Grows st.strtab name).keeps k p.entry.name p.named;
}

Points-new :
    (st : SymState) (name : Bytes) (e : Sym) → Points (emit st name e) name (u32 (length st.syms))
unfolding emit
Points-new st name e = record {
  position = length st.syms;
  entry = record e { name = (intern st.strtab name).1 };
  index = refl;
  found = get_elem?-append (length st.syms) st.syms [] _ refl;
  named = lookup-intern st.strtab name;
}

emit-index :
    (st : SymState) (name : Bytes) (e : Sym)
    → (emit st name e).sym_index ≡ insert name (u32 (length st.syms)) st.sym_index
unfolding emit
emit-index st name e = refl

emit-Points :
    (st : SymState) (name k : Bytes) (e : Sym) (idx : ℕ)
    → IsIndexed st
    → lookup k (emit st name e).sym_index ≡ some idx
    → Points (emit st name e) k idx
emit-Points st name k e idx h found = elim (Bool-cases (bytes_eq name k)) [
  | inl same ↦
      let at_end =
        first_entry name k (u32 (length st.syms)) idx st.sym_index same
          (rw (emit-index st name e) at found) in
      subst₂ (Points (emit st name e)) ((bytes_eq_iff name k).0 same) at_end (Points-new st name e)
  | inr other ↦ Points-emit st name k e idx (
      h.points k idx (
        later_entry name k (u32 (length st.syms)) idx st.sym_index other
          (rw (emit-index st name e) at found)))
]

emit-IsIndexed :
    (st : SymState) (name : Bytes) (e : Sym) → IsIndexed st → IsIndexed (emit st name e)
unfolding emit
emit-IsIndexed st name e h = record {
  strings = intern-IsValid st.strtab name h.strings;
  points = λ k idx found. emit-Points st name k e idx h found;
}

initial_syms-IsIndexed : (sections : List Section) → IsIndexed (initial_syms sections)
unfolding initial_syms lookup
initial_syms-IsIndexed sections = record {
  strings = new_str_tab-IsValid;
  points = λ name idx h. absurd (ground arith);
}

pub symbol_table-IsIndexed : (sections : List Section) → IsIndexed (symbol_table sections)
unfolding symbol_table local_syms
symbol_table-IsIndexed sections =
    over_names_inv IsIndexed (add_external_inv IsIndexed emit-IsIndexed) (external_symbols sections)
      _
      (over_sections_inv IsIndexed (λ i sec. add_global i)
        (λ i sec. add_global_inv IsIndexed emit-IsIndexed i) 0 sections _
        (over_sections_inv IsIndexed (λ i sec. add_local i)
          (λ i sec. add_local_inv IsIndexed emit-IsIndexed i) 0 sections _
          (initial_syms-IsIndexed sections)))

-- The index that a relocation against `name` takes is that of an entry of the table, and the
-- st_name of that entry reads back the name in .strtab: for names without NUL bytes, in a table of
-- less than 2 ^ 32 entries and bytes of names.
pub sym_index-name :
    (sections : List Section) (name : Bytes) (idx : ℕ)
    → length (symbol_table sections).syms < 2 ^ 32
    → length (symbol_table sections).strtab.payload < 2 ^ 32
    → NoNul name
    → lookup name (symbol_table sections).sym_index ≡ some idx
    → (e : Sym) × (get_elem? (symbol_table sections).syms idx ≡ some e)
      × (cstr (drop e.name (symbol_table sections).strtab.payload) ≡ name)
sym_index-name sections name idx few small clean h =
    let valid = symbol_table-IsIndexed sections in
    let p = valid.points name idx h in
    let at : idx ≡ p.position =
      omega
        (arith, p.index, get_elem?-lt p.position (symbol_table sections).syms p.entry p.found) in
    (
      p.entry,
      ap (get_elem? (symbol_table sections).syms) at ∙ p.found,
      cstr-stored (symbol_table sections).strtab name p.entry.name valid.strings clean small
          p.named,
    )
