-- ===== src/Coff/Symbols/Index.antt =====
-- What `symIdx` says: the slot of each name is a record of the symbol table whose name field is that
-- of the name.
use objectfile.Prelude.{
  ℕ, suc, ◌≡◌, refl, ap, ◌∙◌, Bool-cases, inl, inr, some, List, [], ◌∷◌, ◌++◌, arith, length, All,
  get_elem?, get_elem?-append, get_elem?-append_left, ltb,
}
use mathlib.Core.Path.{subst₂}
use objectfile.Prelude.Bits.{u32}
use objectfile.Prelude.Bytes.{Bytes, bytes_eq, bytes_eq_iff}
use objectfile.Prelude.Table.{lookup, insert, first_entry, later_entry}
use objectfile.Loops.{over_sections_inv, has_key}
use objectfile.Object.{Section, Symbol, is_link_once}
use objectfile.Elf.Strtab.{StrTab}
use objectfile.Elf.Strtab.Reading.{IsValid, Grows, intern-IsValid}
use objectfile.Coff.Format.{CoffSym, encode_symbol}
use objectfile.Coff.Format.Decode.{length-encode_symbol, length-encode_comdat_aux}
use objectfile.Coff.Sections.{section_meta}
use objectfile.Coff.Strtab.{new_str_tab, encode_sym_name}
use objectfile.Coff.Strtab.Reading.{
  Encoded, encode_sym_name-Encoded, encode_sym_name-Grows, encode_sym_name-IsValid, Encoded-Grows,
  length-Encoded, new_str_tab-IsValid,
}
use objectfile.Coff.Symbols.{
  SymState, intern_long, intern_symbols, intern_sections, intern_refs, string_table, emit,
  add_section_symbol, section_symbols, add_symbol, entry_of, add_external, external_entry,
  over_names, external_refs, symbol_table,
}

-- `idx` is the slot of a record with the name.
pub record Points (st : SymState) (name : Bytes) (idx : ℕ) : Type 0 where
  pub position : ℕ
  pub entry : CoffSym
  pub index : idx ≡ u32 position
  pub found : get_elem? st.slots position ≡ some (encode_symbol entry)
  pub named : Encoded st.strtab name entry.name

-- Slots are 18 bytes.
abbrev pub AllSlots : List Bytes → Type 0
AllSlots slots = All (λ slot. length slot ≡ 18) slots

pub record IsIndexed (st : SymState) : Type 0 where
  pub strings : IsValid st.strtab
  pub sized : AllSlots st.slots
  pub points : (name : Bytes) (idx : ℕ) → lookup name st.sym_idx ≡ some idx → Points st name idx

AllSlots-append : (xs ys : List Bytes) → AllSlots xs → AllSlots ys → AllSlots (xs ++ ys)
AllSlots-append [] ys hx hy = hy
AllSlots-append (x ∷ xs) ys hx hy = (hx.0, AllSlots-append xs ys hx.1 hy)

Points-grown :
    (st u : SymState) (more : List Bytes) (k : Bytes) (idx : ℕ)
    → Grows st.strtab u.strtab
    → u.slots ≡ st.slots ++ more
    → Points st k idx
    → Points u k idx
Points-grown st u more k idx grows shape p = record {
  position = p.position;
  entry = p.entry;
  index = p.index;
  found =
      ap (λ t. get_elem? t p.position) shape
      ∙ get_elem?-append_left p.position st.slots more (encode_symbol p.entry) p.found;
  named = Encoded-Grows grows p.named;
}

Points-new :
    (st : SymState) (name : Bytes) (e : CoffSym)
    → Points (emit st name e) name (u32 (length st.slots))
unfolding emit
Points-new st name e = record {
  position = length st.slots;
  entry = record e { name = (encode_sym_name st.strtab name).1 };
  index = refl;
  found = get_elem?-append (length st.slots) st.slots [] _ refl;
  named = encode_sym_name-Encoded st.strtab name;
}

Points-emit :
    (st : SymState) (name k : Bytes) (e : CoffSym) (idx : ℕ)
    → Points st k idx
    → Points (emit st name e) k idx
unfolding emit
Points-emit st name k e idx p =
    Points-grown st _ _ k idx (encode_sym_name-Grows st.strtab name) refl p

emit-sym_idx :
    (st : SymState) (name : Bytes) (e : CoffSym)
    → (emit st name e).sym_idx ≡ insert name (u32 (length st.slots)) st.sym_idx
unfolding emit
emit-sym_idx st name e = refl

emit-Points :
    (st : SymState) (name k : Bytes) (e : CoffSym) (idx : ℕ)
    → IsIndexed st
    → lookup k (emit st name e).sym_idx ≡ some idx
    → Points (emit st name e) k idx
emit-Points st name k e idx h found = elim (Bool-cases (bytes_eq name k)) [
  | inl same ↦
      let at_end =
        first_entry name k (u32 (length st.slots)) idx st.sym_idx same
          (rw (emit-sym_idx st name e) at found) in
      subst₂ (Points (emit st name e)) ((bytes_eq_iff name k).0 same) at_end (Points-new st name e)
  | inr other ↦ Points-emit st name k e idx (
      h.points k idx (
        later_entry name k (u32 (length st.slots)) idx st.sym_idx other
          (rw (emit-sym_idx st name e) at found)))
]

emit-IsIndexed :
    (st : SymState) (name : Bytes) (e : CoffSym) → IsIndexed st → IsIndexed (emit st name e)
unfolding emit
emit-IsIndexed st name e h = record {
  strings = encode_sym_name-IsValid st.strtab name h.strings;
  sized =
      AllSlots-append st.slots _ h.sized
        (length-encode_symbol _ (length-Encoded (encode_sym_name-Encoded st.strtab name)), tt);
  points = λ k idx found. emit-Points st name k e idx h found;
}

add_section_symbol-IsIndexed :
    (i : ℕ) (st : SymState) (s : Section) → IsIndexed st → IsIndexed (add_section_symbol i st s)
unfolding add_section_symbol
add_section_symbol-IsIndexed i st s h =
    let name = (section_meta s).name in
    record {
      strings = encode_sym_name-IsValid st.strtab name h.strings;
      sized = AllSlots-append st.slots _ h.sized (
        length-encode_symbol _ (length-Encoded (encode_sym_name-Encoded st.strtab name)),
        elim (Bool-cases (is_link_once s)) [
          | inl comdat ↦ rw comdat (length-encode_comdat_aux _ _, tt)
          | inr plain ↦ rw plain tt
        ],
      );
      points = λ k idx found.
          Points-grown st _ _ k idx (encode_sym_name-Grows st.strtab name) refl
            (h.points k idx found);
    }

section_symbols-IsIndexed :
    (i : ℕ) (ss : List Section) (st : SymState) → IsIndexed st → IsIndexed (section_symbols i ss st)
unfolding section_symbols
section_symbols-IsIndexed i [] st h = h
section_symbols-IsIndexed i (s ∷ ss) st h =
    section_symbols-IsIndexed (suc i) ss (add_section_symbol i st s)
      (add_section_symbol-IsIndexed i st s h)

over_names-IsIndexed :
    (names : List Bytes) (st : SymState) → IsIndexed st → IsIndexed (over_names names st)
unfolding over_names add_external
over_names-IsIndexed [] st h = h
over_names-IsIndexed (name ∷ names) st h =
    over_names-IsIndexed names (add_external st name) (elim (Bool-cases (has_key name st.sym_idx)) [
      | inl old ↦ rw old h
      | inr new ↦ rw new (emit-IsIndexed st name external_entry h)
    ])

intern_long-IsValid : (t : StrTab) (name : Bytes) → IsValid t → IsValid (intern_long t name)
unfolding intern_long
intern_long-IsValid t name h = elim (Bool-cases (ltb 8 (length name))) [
  | inl long ↦ rw long (intern-IsValid t name h)
  | inr short ↦ rw short h
]

intern_symbols-IsValid : (ss : List Symbol) (t : StrTab) → IsValid t → IsValid (intern_symbols ss t)
unfolding intern_symbols
intern_symbols-IsValid [] t h = h
intern_symbols-IsValid (s ∷ ss) t h =
    intern_symbols-IsValid ss (intern_long t s.name) (intern_long-IsValid t s.name h)

intern_sections-IsValid :
    (ss : List Section) (t : StrTab) → IsValid t → IsValid (intern_sections ss t)
unfolding intern_sections
intern_sections-IsValid [] t h = h
intern_sections-IsValid (s ∷ ss) t h =
    let name = (section_meta s).name in
    intern_sections-IsValid ss (intern_symbols s.symbols (intern_long t name))
      (intern_symbols-IsValid s.symbols (intern_long t name) (intern_long-IsValid t name h))

intern_refs-IsValid : (names : List Bytes) (t : StrTab) → IsValid t → IsValid (intern_refs names t)
unfolding intern_refs
intern_refs-IsValid [] t h = h
intern_refs-IsValid (name ∷ names) t h =
    intern_refs-IsValid names (intern_long t name) (intern_long-IsValid t name h)

string_table-IsValid : (sections : List Section) → IsValid (string_table sections)
unfolding string_table
string_table-IsValid sections =
    intern_refs-IsValid (external_refs sections) _
      (intern_sections-IsValid sections new_str_tab new_str_tab-IsValid)

no_entry : (k : Bytes) (idx : ℕ) → lookup k [] ≡ some idx → ⊥
unfolding lookup
no_entry k idx h = ground arith

pub symbol_table-IsIndexed : (sections : List Section) → IsIndexed (symbol_table sections)
unfolding symbol_table add_symbol
symbol_table-IsIndexed sections = over_names-IsIndexed (external_refs sections) _ (
    over_sections_inv IsIndexed add_symbol (λ i sec st s. emit-IsIndexed st s.name (entry_of i s)) 0
      sections _
      (section_symbols-IsIndexed 0 sections _ (record {
        strings = string_table-IsValid sections;
        sized = tt;
        points = λ k idx h. absurd (no_entry k idx h);
      })))
