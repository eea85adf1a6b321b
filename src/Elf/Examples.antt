-- ===== src/Elf/Examples.antt =====
-- Runs of the package on a file with a call of an external function, and the theorems of the results
-- at that file and its parts.
use objectfile.Prelude.{
  ℕ, ◌+◌, ◌*◌, ◌≤◌, ◌<◌, ◌≡◌, ◌⊎◌, refl, sym, append-nil, true, false, not, ◌&&◌, ◌||◌, some, List,
  [], ◌∷◌, ◌++◌, arith, length, All, get_elem?, slice, drop,
}
use objectfile.Prelude.Bytes.{Bytes, codes, bytes_eq, put_le, get_le, cstr}
use objectfile.Prelude.Int.{negsuc, int64_bits}
use objectfile.Prelude.Result.{ok, err}
use objectfile.Prelude.Sorting.{contains, Ascending, sort_strings}
use objectfile.Prelude.Table.{lookup, get_or}
use objectfile.Loops.{over_sections, over_symbols, has_key, some_section}
use objectfile.Object.{
  Section, section_text, Symbol, sym_func, binding_global, Reloc, reloc_pc_rel32,
  reloc_ldst64_off12, target_linux_amd64, target_linux_arm64, is_link_once, is_local,
  is_sym_section, is_weak, is_global,
}
use objectfile.Elf.Build.{build, emit_file}
use objectfile.Elf.Build.Reading.{FitsDesc, emit_file-section}
use objectfile.Elf.Reader.{class64-Reads, section_hdr}
use objectfile.Elf.Build.Totality.{IsBuildable, build-total}
use objectfile.Elf.Externals.{
  external_symbols, defined_names, define_symbols, add_key, seen_names, see_relocs, is_external,
}
use objectfile.Elf.Externals.Laws.{
  defines, references, external_symbols-Ascending, contains-external_symbols,
}
use objectfile.Elf.File.{
  File, new_file, machine_of, add_section, reloc_type, type_for_machine, x86_64_type,
  unsupported_relocation,
}
use objectfile.Elf.File.Kinds.{reloc_type-injective, reloc_type-ldst}
use objectfile.Elf.Format.{Sym, class64, encode_rela64, encode_sym64, st_info, rinfo64}
use objectfile.Elf.Format.Headers.{class64-HasSizes}
use objectfile.Elf.Layout.{layout_from, write_descs}
use objectfile.Elf.Layout.Bounds.{
  IsAligned, Laid, footprint, layout_from-Laid, layout_from-IsAligned,
}
use objectfile.Elf.Layout.Placement.{IsPlaced, write_descs-IsPlaced}
use objectfile.Elf.Relocs.{RelaEntry, rela_work, rela_bytes, symbol_of, type_of}
use objectfile.Elf.Relocs.Laws.{rela_of, rela_bytes-record}
use objectfile.Elf.Sections.{
  SecDesc, content_desc, desc_of_kind, elf_section_name, symtab_idx_of, symtab_desc, strings_desc,
  section_descs, DescState, add_relas, add_contents, add_desc, initial_descs, rela_desc,
  count_groups, add_groups, add_tail, add_note, note_desc, add_shstrtab,
}
use objectfile.Elf.Sections.Shape.{section_descs-content}
use objectfile.Elf.Strtab.{new_str_tab, intern}
use objectfile.Elf.Strtab.Reading.{intern_all, cstr-intern}
use objectfile.Elf.Symbols.{
  symbol_table, local_syms, initial_syms, section_syms, over_names, add_local, add_global,
  add_external, emit, entry_of, elf_sym_type, first_global, sym_bytes,
}
use objectfile.Elf.Symbols.Coverage.{has_entry, has_key-symbol_table}
use objectfile.Elf.Symbols.Index.{sym_index-name}
use objectfile.Elf.Symbols.Partition.{IsLocalEntry, IsGlobalEntry, symbol_table-first_global}

abbrev greet : Symbol
greet = record {
  name = codes "greet";
  offset = 0;
  size = 6;
  binding = binding_global;
  kind = sym_func;
  dll_export = false;
}

abbrev call : Reloc
call = record { offset = 1; symbol = codes "puts"; kind = reloc_pc_rel32; addend = negsuc 3 }

abbrev text_section : Section
text_section = record {
  kind = section_text;
  custom = [];
  align = 16;
  code = 0xe8 ∷ 0 ∷ 0 ∷ 0 ∷ 0 ∷ 0xc3 ∷ [];
  v_size = 0;
  symbols = greet ∷ [];
  relocs =
      record { offset = 1; symbol = codes "puts"; kind = reloc_pc_rel32; addend = negsuc 3 } ∷ [];
  flags = 0;
}

abbrev greet_file : File
greet_file = record {
  target = target_linux_amd64;
  machine = 62;
  is64 = true;
  osabi = 0;
  dwarf = false;
  gnu_stack = true;
  sections = text_section ∷ [];
}

built_by_calls : add_section (new_file target_linux_amd64) text_section ≡ greet_file
unfolding add_section new_file machine_of
built_by_calls = refl

-- Everything that a run computes with, for the `unfolding` lines of the tests.
running : Unit {0}
unfolding symbol_table local_syms initial_syms section_syms over_sections over_symbols over_names
    external_symbols defined_names define_symbols add_key seen_names see_relocs is_external
    sort_strings contains add_local add_global add_external emit lookup intern is_local
    is_sym_section bytes_eq entry_of elf_sym_type is_weak is_global is_link_once st_info
    type_for_machine x86_64_type rela_bytes rela_work symbol_of type_of reloc_type encode_rela64
    put_le rinfo64 int64_bits section_descs add_relas add_contents add_desc initial_descs
    content_desc desc_of_kind elf_section_name rela_desc symtab_idx_of count_groups add_groups
    add_tail add_note note_desc symtab_desc strings_desc add_shstrtab first_global sym_bytes
    encode_sym64 get_le
running = tt

abbrev sections : List Section
sections = text_section ∷ []

puts_index : lookup (codes "puts") (symbol_table sections).sym_index ≡ some 3
unfolding running
puts_index = refl

-- The data of the RELA section: one record.
abbrev call_record : Bytes
call_record =
    1 ∷ 0 ∷ 0 ∷ 0 ∷ 0 ∷ 0 ∷ 0 ∷ 0 ∷ 2 ∷ 0 ∷ 0 ∷ 0 ∷ 3 ∷ 0 ∷ 0 ∷ 0 ∷ 252 ∷ 255 ∷ 255 ∷ 255 ∷ 255
    ∷ 255 ∷ 255 ∷ 255 ∷ []

rela_of_call :
    rela_bytes class64 greet_file (symbol_table sections).sym_index 0 text_section.relocs
    ≡ ok call_record
unfolding running
rela_of_call = refl

greet_file-IsBuildable : IsBuildable greet_file
unfolding running
greet_file-IsBuildable = record {
  resolves = (((refl, refl, refl), tt), tt);
  signed = ((λ h. refl), tt);
}

build-total_example : (b : Bytes) × (build class64 greet_file ≡ ok b)
build-total_example = build-total class64 greet_file greet_file-IsBuildable

abbrev text_desc : SecDesc
text_desc = record {
  name = codes ".text";
  sh_type = 1;
  flags = 6;
  link = 0;
  info = 0;
  align = 16;
  ent_size = 0;
  bytes = 0xe8 ∷ 0xc3 ∷ [];
  no_size = 0;
  file_off = 0;
}

abbrev placed_desc : SecDesc
placed_desc = record text_desc { file_off = 16 }

text_desc-Fits : FitsDesc 64 new_str_tab text_desc
unfolding lookup bytes_eq get_or
text_desc-Fits = record {
  name = omega arith;
  sh_type = omega arith;
  flags = omega arith;
  size = omega arith;
  link = omega arith;
  info = omega arith;
  ent_size = omega arith;
}

emit_file-section_example :
    let out =
      emit_file class64 greet_file 1
        (record { shstrtab = new_str_tab; descs = text_desc ∷ text_desc ∷ [] }) in
    let h = section_hdr class64 class64-Reads out 1 in
    (slice h.offset 2 out ≡ 0xe8 ∷ 0xc3 ∷ [])
    × (h.size ≡ 2)
    × (h.name ≡ 0)
    × (h.sh_type ≡ 1)
    × (h.flags ≡ 6)
    × (h.link ≡ 0)
    × (h.info ≡ 0)
    × (h.addralign ≡ 16)
    × (h.entsize ≡ 0)
unfolding lookup bytes_eq get_or
emit_file-section_example =
    emit_file-section class64 class64-Reads class64-HasSizes greet_file 1 new_str_tab text_desc
      (text_desc ∷ []) (omega arith) (omega arith) (omega arith) 0 text_desc refl text_desc-Fits

layout_from-Laid_example :
    Laid 64 (layout_from 64 (text_desc ∷ [])).0 (layout_from 64 (text_desc ∷ [])).1
    × ((layout_from 64 (text_desc ∷ [])).1 ≤ 64 + footprint (text_desc ∷ []))
layout_from-Laid_example = layout_from-Laid 64 (text_desc ∷ []) (omega arith)

layout_from-IsAligned_example : All IsAligned (layout_from 64 (text_desc ∷ [])).0
layout_from-IsAligned_example = layout_from-IsAligned 64 (text_desc ∷ []) (omega arith)

write_descs-IsPlaced_example :
    All (IsPlaced (write_descs (1 ∷ 2 ∷ []) (placed_desc ∷ []))) (placed_desc ∷ [])
    × (length (write_descs (1 ∷ 2 ∷ []) (placed_desc ∷ [])) ≤ 18)
write_descs-IsPlaced_example =
    write_descs-IsPlaced 2 18 (placed_desc ∷ []) (1 ∷ 2 ∷ []) (omega arith, omega arith)
      (omega arith) (record { added = []; shape = unchanged })
  where
    unchanged :
        write_descs (1 ∷ 2 ∷ []) (placed_desc ∷ [])
        ≡ write_descs (1 ∷ 2 ∷ []) (placed_desc ∷ []) ++ []
    unchanged = sym (append-nil _)

abbrev puts_entry : Sym
puts_entry = record { name = 7; info = 16; shndx = 0; value = 0; size = 0 }

symbol_table-first_global_example :
    ((3 < first_global sections) × IsLocalEntry puts_entry)
    ⊎ ((first_global sections ≤ 3) × IsGlobalEntry puts_entry)
unfolding running
symbol_table-first_global_example =
    symbol_table-first_global sections 3 puts_entry (omega arith) refl

sym_index-name_example :
    (e : Sym) × (get_elem? (symbol_table sections).syms 3 ≡ some e)
    × (cstr (drop e.name (symbol_table sections).strtab.payload) ≡ codes "puts")
unfolding running
sym_index-name_example =
    sym_index-name sections (codes "puts") 3 (omega arith) (omega arith) (omega arith) puts_index

has_key-symbol_table_example : has_key (codes "puts") (symbol_table sections).sym_index ≡ (
    some_section has_entry (codes "puts") sections
    || (references (codes "puts") sections
        && (not (bytes_eq (codes "puts") []) && not (defines (codes "puts") sections))))
has_key-symbol_table_example = has_key-symbol_table (codes "puts") sections

rela_bytes-record_example :
    (si : ℕ) × (t : ℕ) × (lookup (codes "puts") (symbol_table sections).sym_index ≡ some si)
    × (reloc_type greet_file reloc_pc_rel32 ≡ ok t)
    × (slice (0 * 24) 24 call_record ≡ encode_rela64 (rela_of call si t))
rela_bytes-record_example =
    rela_bytes-record class64 greet_file (symbol_table sections).sym_index 0 text_section.relocs 0
      call class64-HasSizes rela_of_call refl

external_symbols-Ascending_example : Ascending (external_symbols sections)
external_symbols-Ascending_example = external_symbols-Ascending sections

contains-external_symbols_example : contains (codes "puts") (external_symbols sections) ≡ (
    references (codes "puts") sections
    && (not (bytes_eq (codes "puts") []) && not (defines (codes "puts") sections)))
contains-external_symbols_example = contains-external_symbols (codes "puts") sections

cstr-intern_example :
    cstr (
      drop
        (intern (intern_all (codes ".text" ∷ []) new_str_tab) (codes ".data")).1
        (intern_all
          (codes ".bss" ∷ [])
          (intern (intern_all (codes ".text" ∷ []) new_str_tab) (codes ".data")).0).payload)
    ≡ codes ".data"
unfolding running
cstr-intern_example =
    cstr-intern (codes ".text" ∷ []) (codes ".bss" ∷ []) (codes ".data") (omega arith) (omega arith)

pc_rel32_type : reloc_type greet_file reloc_pc_rel32 ≡ ok 2
unfolding running
pc_rel32_type = refl

reloc_type-injective_example : reloc_pc_rel32 ≡ reloc_pc_rel32
reloc_type-injective_example =
    reloc_type-injective greet_file reloc_pc_rel32 reloc_pc_rel32 pc_rel32_type pc_rel32_type

reloc_type-ldst_example :
    reloc_type (new_file target_linux_arm64) reloc_ldst64_off12
    ≡ err (unsupported_relocation reloc_ldst64_off12 (new_file target_linux_arm64).machine)
reloc_type-ldst_example = reloc_type-ldst (new_file target_linux_arm64) reloc_ldst64_off12 refl

abbrev call_work : List RelaEntry
call_work = record { content_idx = 0; bytes = call_record } ∷ []

-- The descriptors of the file.
described :
    (st : DescState) × (section_descs class64 greet_file (symbol_table sections) call_work ≡ ok st)
unfolding running
described = (_, refl)

section_descs-content_example :
    get_elem? described.0.descs 1 ≡ some (content_desc class64 text_section)
section_descs-content_example =
    section_descs-content class64 greet_file (symbol_table sections) call_work 0 text_section
      described.1 refl
