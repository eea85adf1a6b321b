-- ===== src/Elf/Sections.antt =====
-- Phase 3 of build64 and build32 in elf/write.go: the list of section descriptors and the table of
-- section names. Names are interned in the order of the descriptors.
pub mod Adds
pub mod Shape
pub mod Plain
pub mod Totality
use objectfile.Prelude.{
  ℕ, suc, ◌+◌, Bool, true, false, ◌||◌, Option, none, some, List, [], ◌∷◌, ◌++◌, foldl, length,
  get_elem?, ltb, bit_or, ◌==◌, if◌then◌else◌,
}
use objectfile.Prelude.Bits.{u32}
use objectfile.Prelude.Bytes.{Bytes, codes, put_le}
use objectfile.Prelude.Result.{Result, ok, err, ◌>>=◌}
use objectfile.Prelude.Table.{Table, lookup}
use objectfile.Object.{
  Section, SectionKind, section_text, section_data, section_ro_data, section_bss, section_unwind,
  section_init_array, section_fini_array, section_tls, section_custom, Symbol, is_link_once,
  is_global, is_weak,
}
use objectfile.Elf.Consts.{
  sht_null, sht_prog_bits, sht_sym_tab, sht_str_tab, sht_rela, sht_no_bits, sht_init_array,
  sht_fini_array, sht_group, shf_write, shf_alloc, shf_exec_instr, shf_info_link, shf_tls,
}
use objectfile.Elf.File.{File, Error, no_comdat_signature, index_panic}
use objectfile.Elf.Format.{Class}
use objectfile.Elf.Relocs.{RelaEntry}
use objectfile.Elf.Strtab.{StrTab, new_str_tab, intern}
use objectfile.Elf.Symbols.{SymState, sym_bytes, first_global}

-- secDesc; `bytes` is the field `data`.
pub record SecDesc : Type 0 where
  pub name : Bytes
  pub sh_type : ℕ
  pub flags : ℕ
  pub link : ℕ
  pub info : ℕ
  pub align : ℕ
  pub ent_size : ℕ
  pub bytes : Bytes
  pub no_size : ℕ
  pub file_off : ℕ

abbrev pub zero_desc : SecDesc
zero_desc = record {
  name = [];
  sh_type = 0;
  flags = 0;
  link = 0;
  info = 0;
  align = 0;
  ent_size = 0;
  bytes = [];
  no_size = 0;
  file_off = 0;
}

name_of_kind : SectionKind → Section → Bytes
name_of_kind section_text s = codes ".text"
name_of_kind section_data s = codes ".data"
name_of_kind section_ro_data s = codes ".rodata"
name_of_kind section_bss s = codes ".bss"
name_of_kind section_unwind s = codes ".eh_frame"
name_of_kind section_init_array s = codes ".init_array"
name_of_kind section_fini_array s = codes ".fini_array"
name_of_kind section_tls s = if ltb 0 (length s.code) then codes ".tdata" else codes ".tbss"
name_of_kind section_custom s = s.custom
name_of_kind _ s = codes ".unknown"

-- elfSectionName
unfoldable pub elf_section_name : Section → Bytes
unfolding name_of_kind
elf_section_name s = name_of_kind s.kind s

-- sectionVSize
unfoldable pub section_v_size : Section → ℕ
section_v_size s = if ltb 0 s.v_size then s.v_size else length s.code

-- A section whose bytes are in the file: its code.
abbrev with_code : Section → ℕ → ℕ → ℕ → SecDesc
with_code s sh_type flags align = record zero_desc {
  sh_type = sh_type;
  flags = flags;
  align = align;
  bytes = s.code;
}

-- The switch over the kinds, with the word alignment of the class.
unfoldable pub desc_of_kind : ℕ → SectionKind → Section → SecDesc
desc_of_kind word section_text s = with_code s sht_prog_bits (bit_or shf_alloc shf_exec_instr) 16
desc_of_kind word section_data s = with_code s sht_prog_bits (bit_or shf_alloc shf_write) word
desc_of_kind word section_ro_data s = with_code s sht_prog_bits shf_alloc word
desc_of_kind word section_bss s = record zero_desc {
  sh_type = sht_no_bits;
  flags = bit_or shf_alloc shf_write;
  align = word;
  no_size = section_v_size s;
}
desc_of_kind word section_unwind s = with_code s sht_prog_bits shf_alloc word
desc_of_kind word section_init_array s =
    with_code s sht_init_array (bit_or shf_alloc shf_write) word
desc_of_kind word section_fini_array s =
    with_code s sht_fini_array (bit_or shf_alloc shf_write) word
desc_of_kind word section_tls s =
    if ltb 0 (length s.code)
    then with_code s sht_prog_bits (bit_or (bit_or shf_alloc shf_write) shf_tls) word
    else record zero_desc {
      sh_type = sht_no_bits;
      flags = bit_or (bit_or shf_alloc shf_write) shf_tls;
      align = word;
      no_size = section_v_size s;
    }
desc_of_kind word section_custom s = with_code s sht_prog_bits shf_alloc word
desc_of_kind word _ s = zero_desc

-- The descriptor of a content section: an alignment of its own takes the place of the default.
unfoldable pub content_desc : Class → Section → SecDesc
content_desc c s =
    let d = desc_of_kind c.word_align s.kind s in
    record d { name = elf_section_name s; align = if ltb 0 s.align then s.align else d.align }

-- comdatSig, over the symbols of section `i` that are left.
unfoldable pub comdat_sig : List Symbol → Table ℕ → ℕ → Result Error ℕ
comdat_sig [] sym_index i = err (no_comdat_signature i)
comdat_sig (s ∷ ss) sym_index i =
    if is_global s.binding || is_weak s.binding
    then elim (lookup s.name sym_index) [ some si ↦ ok si | none ↦ comdat_sig ss sym_index i ]
    else comdat_sig ss sym_index i

-- relaIdxFor: the position in relaWork of the entry of a section, from position `j` on.
unfoldable pub rela_idx_for : ℕ → List RelaEntry → ℕ → Option ℕ
rela_idx_for j [] i = none
rela_idx_for j (e ∷ es) i = if e.content_idx == i then some j else rela_idx_for (suc j) es i

-- buildGroupData: the flag word GRP_COMDAT and the indices of the members.
unfoldable pub build_group_data : ℕ → Option ℕ → ℕ → Bytes
build_group_data content_elf_idx none n_content = put_le 4 1 ++ put_le 4 content_elf_idx
build_group_data content_elf_idx (some j) n_content =
    put_le 4 1 ++ (put_le 4 content_elf_idx ++ put_le 4 (u32 (1 + n_content + u32 j)))

-- The variables of the phase.
pub record DescState : Type 0 where
  pub shstrtab : StrTab
  pub descs : List SecDesc

-- shstrtab.intern(d.name); descs = append(descs, d)
unfoldable pub add_desc : DescState → SecDesc → DescState
add_desc st d = record { shstrtab = (intern st.shstrtab d.name).0; descs = st.descs ++ (d ∷ []) }

-- The state with the NULL section.
unfoldable pub initial_descs : DescState
initial_descs = record {
  shstrtab = (intern new_str_tab []).0;
  descs = record zero_desc { sh_type = sht_null } ∷ [];
}

unfoldable pub add_contents : Class → List Section → DescState → DescState
add_contents c [] st = st
add_contents c (s ∷ ss) st = add_contents c ss (add_desc st (content_desc c s))

unfoldable pub rela_desc : Class → ℕ → RelaEntry → Section → SecDesc
rela_desc c symtab_idx e s = record zero_desc {
  name = codes ".rela" ++ elf_section_name s;
  sh_type = sht_rela;
  flags = shf_info_link;
  align = c.word_align;
  link = symtab_idx;
  info = u32 (1 + e.content_idx);
  ent_size = c.rela_size;
  bytes = e.bytes;
}

unfoldable pub add_relas :
    Class → List Section → ℕ → List RelaEntry → DescState → Result Error DescState
add_relas c sections symtab_idx [] st = ok st
add_relas c sections symtab_idx (e ∷ es) st = elim (get_elem? sections e.content_idx) [
  | none ↦ err index_panic
  | some s ↦ add_relas c sections symtab_idx es (add_desc st (rela_desc c symtab_idx e s))
]

unfoldable pub group_desc : ℕ → ℕ → Bytes → SecDesc
group_desc symtab_idx sig_idx members = record zero_desc {
  name = codes ".group";
  sh_type = sht_group;
  align = 4;
  link = symtab_idx;
  info = sig_idx;
  ent_size = 4;
  bytes = members;
}

-- nGroup
unfoldable pub count_groups : List Section → ℕ
count_groups [] = 0
count_groups (s ∷ ss) = if is_link_once s then suc (count_groups ss) else count_groups ss

-- The loop over the sections from index `i` on that are marked FlagLinkOnce.
unfoldable pub add_groups :
    Table ℕ → List RelaEntry → ℕ → ℕ → ℕ → List Section → DescState → Result Error DescState
add_groups sym_index work n_content symtab_idx i [] st = ok st
add_groups sym_index work n_content symtab_idx i (s ∷ ss) st =
    if is_link_once s
    then (comdat_sig s.symbols sym_index i >>= λ sig.
        let members = build_group_data (u32 (1 + i)) (rela_idx_for 0 work i) n_content in
        add_groups sym_index work n_content symtab_idx (suc i) ss
          (add_desc st (group_desc symtab_idx sig members)))
    else add_groups sym_index work n_content symtab_idx (suc i) ss st

-- symtabIdx
unfoldable pub symtab_idx_of : File → List RelaEntry → ℕ
symtab_idx_of f work = u32 (
    1
    + u32 (length f.sections)
    + u32 (length work)
    + u32 (count_groups f.sections)
    + (if f.gnu_stack then 1 else 0))

unfoldable pub note_desc : SecDesc
note_desc = record zero_desc { name = codes ".note.GNU-stack"; sh_type = sht_prog_bits; align = 1 }

unfoldable pub symtab_desc : Class → ℕ → ℕ → Bytes → SecDesc
symtab_desc c strtab_idx global_idx table = record zero_desc {
  name = codes ".symtab";
  sh_type = sht_sym_tab;
  align = c.word_align;
  link = strtab_idx;
  info = global_idx;
  ent_size = c.sym_size;
  bytes = table;
}

-- .strtab and .shstrtab
unfoldable pub strings_desc : Bytes → Bytes → SecDesc
strings_desc name table = record zero_desc {
  name = name;
  sh_type = sht_str_tab;
  align = 1;
  bytes = table;
}

unfoldable pub add_note : File → DescState → DescState
add_note f st = if f.gnu_stack then add_desc st note_desc else st

-- The last section: its own name is interned before its data are taken.
unfoldable pub add_shstrtab : DescState → DescState
add_shstrtab st =
    let names = (intern st.shstrtab (codes ".shstrtab")).0 in
    record {
      shstrtab = names;
      descs = st.descs ++ (strings_desc (codes ".shstrtab") names.payload ∷ []);
    }

-- .note.GNU-stack, .symtab, .strtab and .shstrtab
unfoldable pub add_tail : Class → File → SymState → ℕ → DescState → DescState
add_tail c f table symtab_idx st =
    let noted = add_note f st in
    let symbols =
      add_desc noted
        (symtab_desc c (u32 (symtab_idx + 1)) (first_global f.sections) (sym_bytes c table.syms)) in
    add_shstrtab (add_desc symbols (strings_desc (codes ".strtab") table.strtab.payload))

-- The whole phase.
unfoldable pub section_descs : Class → File → SymState → List RelaEntry → Result Error DescState
section_descs c f table work = do
  let symtab_idx = symtab_idx_of f work
  with_relas ← add_relas c f.sections symtab_idx work (add_contents c f.sections initial_descs)
  with_groups ←
      add_groups table.sym_index work (u32 (length f.sections)) symtab_idx 0 f.sections with_relas
  ok (add_tail c f table symtab_idx with_groups)
