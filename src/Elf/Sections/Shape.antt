-- ===== src/Elf/Sections/Shape.antt =====
-- The whole list of descriptors: which section has which index, and that all names are in the
-- table of section names.
use objectfile.Prelude.{
  ℕ, zero, suc, ◌+◌, ◌^◌, ◌<◌, ◌≤◌, ◌≡◌, refl, ap, ◌∙◌, Bool-cases, inl, inr, some, List, [], ◌∷◌,
  ◌++◌, map, append_assoc, arith, length, length-append, All, get_elem?, get_elem?-append_at,
  get_elem?-append_left, if◌then◌else◌,
}
use mathlib.Core.Path.{subst}
use mathlib.Core.Option.{some-injective}
use objectfile.Prelude.Bits.{u32}
use objectfile.Prelude.Bytes.{codes}
use objectfile.Prelude.Result.{ok, >>=-eq-ok, ok-injective}
use objectfile.Object.{Section}
use objectfile.Elf.Consts.{sht_null}
use objectfile.Elf.File.{File}
use objectfile.Elf.Format.{Class}
use objectfile.Elf.Relocs.{RelaEntry}
use objectfile.Elf.Strtab.{new_str_tab}
use objectfile.Elf.Strtab.Reading.{
  IsValid, new_str_tab-IsValid, intern-IsValid, intern-Grows, lookup-intern,
}
use objectfile.Elf.Symbols.{SymState, sym_bytes, first_global}
use objectfile.Elf.Sections.{
  SecDesc, zero_desc, DescState, add_desc, add_contents, content_desc, add_relas, add_groups,
  count_groups, initial_descs, symtab_idx_of, note_desc, symtab_desc, strings_desc, add_note,
  add_shstrtab, add_tail, section_descs,
}
use objectfile.Elf.Sections.Adds.{
  IsRela, IsGroup, Named, Adds, Adds-nil, Adds-trans, add_desc-Adds, add_contents-Adds,
  add_relas-added, add_groups-added, Named-Grows, All-append,
}

abbrev pub notes : File → List SecDesc
notes f = if f.gnu_stack then note_desc ∷ [] else []

abbrev pub null_desc : SecDesc
null_desc = record zero_desc { sh_type = sht_null }

add_note-Adds : (f : File) (st : DescState) → Adds st (notes f) (add_note f st)
unfolding add_note
add_note-Adds f st = elim (Bool-cases f.gnu_stack) [
  | inl on ↦ rw (on, add_note) (add_desc-Adds st note_desc)
  | inr off ↦ rw (off, add_note) (Adds-nil st)
]

add_shstrtab-Adds :
    (st : DescState)
    → Adds st
        (strings_desc (codes ".shstrtab") (add_shstrtab st).shstrtab.payload ∷ [])
        (add_shstrtab st)
unfolding add_shstrtab strings_desc
add_shstrtab-Adds st = record {
  descs = refl;
  grows = intern-Grows st.shstrtab (codes ".shstrtab");
  named = ((_, lookup-intern st.shstrtab (codes ".shstrtab")), tt);
  valid = intern-IsValid st.shstrtab (codes ".shstrtab");
}

-- The three tables at the end.
abbrev pub tables : Class → File → SymState → ℕ → DescState → List SecDesc
tables c f table symtab_idx st =
    symtab_desc c (u32 (symtab_idx + 1)) (first_global f.sections) (sym_bytes c table.syms)
    ∷ strings_desc (codes ".strtab") table.strtab.payload
    ∷ strings_desc (codes ".shstrtab") st.shstrtab.payload
    ∷ []

add_tail-Adds :
    (c : Class) (f : File) (table : SymState) (symtab_idx : ℕ) (st : DescState)
    → Adds st
        (notes f ++ tables c f table symtab_idx (add_tail c f table symtab_idx st))
        (add_tail c f table symtab_idx st)
unfolding add_tail
add_tail-Adds c f table symtab_idx st =
    let symbols =
      symtab_desc c (u32 (symtab_idx + 1)) (first_global f.sections) (sym_bytes c table.syms) in
    let strings = strings_desc (codes ".strtab") table.strtab.payload in
    let noted = add_note f st in
    let with_symbols = add_desc noted symbols in
    let with_strings = add_desc with_symbols strings in
    Adds-trans (notes f) _ (add_note-Adds f st) (
      Adds-trans (symbols ∷ []) _ (add_desc-Adds noted symbols) (
        Adds-trans (strings ∷ []) _ (add_desc-Adds with_symbols strings)
          (add_shstrtab-Adds with_strings)))

-- The sections between the content sections and the three tables.
pub record Shape (c : Class) (f : File) (table : SymState) (work : List RelaEntry) (st : DescState)
    : Type 0 where
  pub relas : List SecDesc
  pub groups : List SecDesc
  pub count_relas : length relas ≡ length work
  pub count_of_groups : length groups ≡ count_groups f.sections
  pub each_rela : All (IsRela c f.sections (symtab_idx_of f work)) relas
  pub each_group : All (IsGroup (symtab_idx_of f work)) groups
  pub descs :
      st.descs
      ≡ null_desc
        ∷ (map (content_desc c) f.sections
            ++ (relas ++ (groups ++ (notes f ++ tables c f table (symtab_idx_of f work) st))))
  pub named : All (Named st.shstrtab) st.descs
  pub valid : IsValid st.shstrtab

initial_descs-facts :
    (initial_descs.descs ≡ null_desc ∷ [])
    × IsValid initial_descs.shstrtab
    × All (Named initial_descs.shstrtab) (null_desc ∷ [])
unfolding initial_descs
initial_descs-facts = (
  refl,
  intern-IsValid new_str_tab [] new_str_tab-IsValid,
  ((_, lookup-intern new_str_tab []), tt),
)

pub section_descs-Shape :
    (c : Class) (f : File) (table : SymState) (work : List RelaEntry) {st : DescState}
    → section_descs c f table work ≡ ok st
    → Shape c f table work st
unfolding section_descs
section_descs-Shape c f table work {st} h =
    let idx = symtab_idx_of f work in
    let contents = add_contents c f.sections initial_descs in
    let (related, h₁, k₁) = >>=-eq-ok (add_relas c f.sections idx work contents) _ h in
    let (grouped, h₂, k₂) =
      >>=-eq-ok (add_groups table.sym_index work _ idx 0 f.sections related) _ k₁ in
    let r = add_relas-added c f.sections idx work contents h₁ in
    let g = add_groups-added table.sym_index work _ idx 0 f.sections related h₂ in
    let last : Adds grouped (notes f ++ tables c f table idx st) st =
      subst (λ t. Adds grouped (notes f ++ tables c f table idx t) t) (ok-injective k₂)
        (add_tail-Adds c f table idx grouped) in
    let added =
      map (content_desc c) f.sections
      ++ (r.relas ++ (g.groups ++ (notes f ++ tables c f table idx st))) in
    let whole : Adds initial_descs added st =
      Adds-trans (map (content_desc c) f.sections) _ (add_contents-Adds c f.sections initial_descs)
        (Adds-trans r.relas _ r.adds (Adds-trans g.groups _ g.adds last)) in
    let shape = whole.descs ∙ ap (λ t. t ++ added) initial_descs-facts.0 in
    record {
      relas = r.relas;
      groups = g.groups;
      count_relas = r.count;
      count_of_groups = g.count;
      each_rela = r.each;
      each_group = g.each;
      descs = shape;
      named = rw shape (
          All-append (Named st.shstrtab) (null_desc ∷ []) added
            (Named-Grows (null_desc ∷ []) whole.grows initial_descs-facts.2) whole.named);
      valid = whole.valid initial_descs-facts.1;
    }

length-map {ℓ κ} :
    {A : Type ℓ} {B : Type κ} (g : A → B) (xs : List A) → length (map g xs) ≡ length xs
length-map g [] = refl
length-map g (x ∷ xs) = ap suc (length-map g xs)

get_elem?-map {ℓ κ} :
    {A : Type ℓ} {B : Type κ} (g : A → B) (xs : List A) (i : ℕ) (x : A)
    → get_elem? xs i ≡ some x
    → get_elem? (map g xs) i ≡ some (g x)
get_elem?-map g [] i x h = absurd (ground arith)
get_elem?-map g (y ∷ xs) zero x h = ap some (ap g (some-injective _ _ h))
get_elem?-map g (y ∷ xs) (suc i) x h = get_elem?-map g xs i x h

length-notes : (f : File) → length (notes f) ≡ (if f.gnu_stack then 1 else 0)
length-notes f = elim (Bool-cases f.gnu_stack) [ inl on ↦ rw on | inr off ↦ rw off ]

-- The sections before the tables number `symtabIdx`, short of an overflow of uint32.
abbrev pub front : Class → File → List SecDesc → List SecDesc → List SecDesc
front c f relas groups =
    null_desc ∷ (map (content_desc c) f.sections ++ (relas ++ (groups ++ notes f)))

abbrev pub section_total : File → List RelaEntry → ℕ
section_total f work = length f.sections + length work + count_groups f.sections

length-front :
    (c : Class) (f : File) (work : List RelaEntry) (relas groups : List SecDesc)
    → length relas ≡ length work
    → length groups ≡ count_groups f.sections
    → section_total f work + 4 < 2 ^ 32
    → length (front c f relas groups) ≡ symtab_idx_of f work
unfolding symtab_idx_of
length-front c f work relas groups h k small =
    let contents = map (content_desc c) f.sections in
    ground (
      arith,
      length-map (content_desc c) f.sections,
      length-notes f,
      length-append contents (relas ++ (groups ++ notes f)),
      length-append relas (groups ++ notes f),
      length-append groups (notes f),
    )

pub symtab_idx-le :
    (f : File) (work : List RelaEntry) → symtab_idx_of f work ≤ section_total f work + 2
unfolding symtab_idx_of
symtab_idx-le f work = ground arith

regroup :
    (contents relas groups notes tables : List SecDesc)
    → contents ++ (relas ++ (groups ++ (notes ++ tables)))
      ≡ (contents ++ (relas ++ (groups ++ notes))) ++ tables
regroup contents relas groups notes tables = simp append_assoc

-- Short of an overflow of the section count, .symtab is at the index that is computed for it, .strtab
-- behind it, and .shstrtab last.
pub section_descs-tables :
    (c : Class) (f : File) (table : SymState) (work : List RelaEntry) {st : DescState}
    → section_descs c f table work ≡ ok st
    → section_total f work + 4 < 2 ^ 32
    → let idx = symtab_idx_of f work in
      (get_elem? st.descs idx
        ≡ some (symtab_desc c (u32 (idx + 1)) (first_global f.sections) (sym_bytes c table.syms)))
      × (get_elem? st.descs (u32 (idx + 1))
          ≡ some (strings_desc (codes ".strtab") table.strtab.payload))
      × (get_elem? st.descs (u32 (u32 (idx + 1) + 1))
          ≡ some (strings_desc (codes ".shstrtab") st.shstrtab.payload))
      × (length st.descs ≡ u32 (u32 (idx + 1) + 1) + 1)
section_descs-tables c f table work {st} h small =
    let s = section_descs-Shape c f table work h in
    let idx = symtab_idx_of f work in
    let before = front c f s.relas s.groups in
    let symbols =
      symtab_desc c (u32 (idx + 1)) (first_global f.sections) (sym_bytes c table.syms) in
    let strings = strings_desc (codes ".strtab") table.strtab.payload in
    let names = strings_desc (codes ".shstrtab") st.shstrtab.payload in
    let n = length-front c f work s.relas s.groups s.count_relas s.count_of_groups small in
    let shape : st.descs ≡ before ++ (symbols ∷ strings ∷ names ∷ []) =
      s.descs
      ∙ ap (λ t. null_desc ∷ t)
          (regroup (map (content_desc c) f.sections) s.relas s.groups (notes f)
            (symbols ∷ strings ∷ names ∷ [])) in
    let few = symtab_idx-le f work in
    rw shape (
      get_elem?-append_at idx 0 before (symbols ∷ strings ∷ names ∷ []) (omega (arith, n)),
      get_elem?-append_at (u32 (idx + 1)) 1 before (symbols ∷ strings ∷ names ∷ [])
          (omega (arith, n, few)),
      get_elem?-append_at (u32 (u32 (idx + 1) + 1)) 2 before (symbols ∷ strings ∷ names ∷ [])
          (omega (arith, n, few)),
      length-append before (symbols ∷ strings ∷ names ∷ []) ∙ omega (arith, n, few),
    )

-- Section `i` of the file has the index `i + 1` among the descriptors.
pub section_descs-content :
    (c : Class) (f : File) (table : SymState) (work : List RelaEntry) {st : DescState} (i : ℕ)
    (s : Section)
    → section_descs c f table work ≡ ok st
    → get_elem? f.sections i ≡ some s
    → get_elem? st.descs (1 + i) ≡ some (content_desc c s)
section_descs-content c f table work {st} i s h at =
    let shape = section_descs-Shape c f table work h in
    rw shape.descs (
      get_elem?-append_at (1 + i) i (null_desc ∷ []) _ (omega arith)
      ∙ get_elem?-append_left i (map (content_desc c) f.sections) _ (content_desc c s)
          (get_elem?-map (content_desc c) f.sections i s at))
