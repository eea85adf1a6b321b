-- ===== src/Coff/FileExample.antt =====
-- A run of build of coff/write.go on a file with a call and uninitialised data, and the theorems of
-- the results there.
use objectfile.Prelude.{
  ◌↔◌, ℕ, ◌+◌, ◌^◌, ◌≤◌, ◌<◌, ◌≡◌, refl, true, false, some, List, [], ◌∷◌, length, get_elem?, arith,
  ap,
}
use objectfile.Prelude.Bytes.{Bytes, codes, get_le, put_le, bytes_eq, NoNul}
use objectfile.Prelude.Decimal.{decimal}
use objectfile.Prelude.Int.{negsuc, int64_bits}
use objectfile.Prelude.Result.{ok}
use objectfile.Prelude.Sorting.{contains, sort_strings}
use objectfile.Prelude.Table.{lookup}
use objectfile.Loops.{over_sections, over_symbols}
use objectfile.Object.{
  Section, Symbol, section_text, section_bss, sym_func, binding_global, Reloc, reloc_plt32,
  is_global, is_weak, is_link_once,
}
use objectfile.Offsets.{align_up, pad_to}
use objectfile.Elf.Externals.{add_key, define_symbols, defined_names, see_relocs, seen_names}
use objectfile.Elf.Strtab.{intern}
use objectfile.Coff.Addends.{
  reloc_addend_size, addend_bytes, addend_bits, poke, apply_addend, apply_implicit_addends,
}
use objectfile.Coff.Build.Output.{Fits}
use objectfile.Coff.Build.RoundTrip.{build-section_name, build-raw_data, build-bss, build-reloc}
use objectfile.Coff.Build.Totality.{IsBuildable, build_iff}
use objectfile.Coff.Format.Decode.{decode_file_hdr}
use objectfile.Coff.Layout.Bounds.{footprint, Laid, layout-Laid}
use objectfile.Coff.Reader.{
  section_hdr, strings, section_name, raw_data, reloc_at, symbol_at, symbol_name,
}
use objectfile.Coff.Relocs.Laws.{TypesOf}
use objectfile.Coff.Strtab.SectionNames.{NoSlash}
use objectfile.Coff.Build.{
  check_count, check_names, header_of, section_headers, slot_bytes, header_end, file_header,
  emit_file, build_sections, build,
}
use objectfile.Coff.File.{File, reloc_type, type_for_machine, amd64_type}
use objectfile.Coff.Format.{
  encode_file_hdr, encode_sec_hdr, encode_reloc, encode_symbol, encode_comdat_aux,
}
use objectfile.Coff.Layout.{
  SecLaid, placed, place, layout, reloc_bytes, block, write_block, write_blocks,
}
use objectfile.Coff.Relocs.{SecWork, symbol_of, type_of, reloc_records, section_relocs}
use objectfile.Coff.Sections.{
  is_tls, is_bss, is_custom, name_of_kind, section_base_name, first_global_in, first_global_name,
  section_coff_name, default_align, effective_align, clamp_align, shift_loop, align_flag,
  base_chars, section_chars, is_bss_like, virtual_reserve_size, is_drectve, section_meta,
  exports_of, exports, directives, with_drectve,
}
use objectfile.Coff.Strtab.{table_bytes, encode_sym_name, set_section_name}
use objectfile.Coff.Symbols.{
  defined_symbol_names, is_undefined, external_refs, intern_long, intern_symbols, intern_sections,
  intern_refs, string_table, add_section_symbol, section_symbols, emit, is_func, entry_of,
  add_symbol, add_external, over_names, symbol_table,
}

abbrev initialize : Symbol
initialize = record {
  name = codes "initialize";
  offset = 0;
  size = 6;
  binding = binding_global;
  kind = sym_func;
  dll_export = false;
}

abbrev call_puts : Reloc
call_puts = record { offset = 1; symbol = codes "puts"; kind = reloc_plt32; addend = negsuc 3 }

abbrev code_section : Section
code_section = record {
  kind = section_text;
  custom = [];
  align = 0;
  code = 0xe8 ∷ 0 ∷ 0 ∷ 0 ∷ 0 ∷ 0xc3 ∷ [];
  v_size = 0;
  symbols = initialize ∷ [];
  relocs = call_puts ∷ [];
  flags = 0;
}

abbrev zero_section : Section
zero_section = record {
  kind = section_bss;
  custom = [];
  align = 0;
  code = [];
  v_size = 64;
  symbols = [];
  relocs = [];
  flags = 0;
}

abbrev program : File
program = record { machine = 0x8664; subsystem = 3; sections = code_section ∷ zero_section ∷ [] }

abbrev program_file : Bytes
program_file =
    100 ∷ 134 ∷ 2 ∷ 0 ∷ 0 ∷ 0 ∷ 0 ∷ 0 ∷ 128 ∷ 0 ∷ 0 ∷ 0 ∷ 4 ∷ 0 ∷ 0 ∷ 0 ∷ 0 ∷ 0 ∷ 0 ∷ 0 ∷ 46 ∷ 116
    ∷ 101 ∷ 120 ∷ 116 ∷ 0 ∷ 0 ∷ 0 ∷ 0 ∷ 0 ∷ 0 ∷ 0 ∷ 0 ∷ 0 ∷ 0 ∷ 0 ∷ 6 ∷ 0 ∷ 0 ∷ 0 ∷ 112 ∷ 0 ∷ 0 ∷ 0
    ∷ 118 ∷ 0 ∷ 0 ∷ 0 ∷ 0 ∷ 0 ∷ 0 ∷ 0 ∷ 1 ∷ 0 ∷ 0 ∷ 0 ∷ 32 ∷ 0 ∷ 80 ∷ 96 ∷ 46 ∷ 98 ∷ 115 ∷ 115 ∷ 0
    ∷ 0 ∷ 0 ∷ 0 ∷ 0 ∷ 0 ∷ 0 ∷ 0 ∷ 0 ∷ 0 ∷ 0 ∷ 0 ∷ 64 ∷ 0 ∷ 0 ∷ 0 ∷ 0 ∷ 0 ∷ 0 ∷ 0 ∷ 0 ∷ 0 ∷ 0 ∷ 0 ∷ 0
    ∷ 0 ∷ 0 ∷ 0 ∷ 0 ∷ 0 ∷ 0 ∷ 0 ∷ 128 ∷ 0 ∷ 64 ∷ 192 ∷ 0 ∷ 0 ∷ 0 ∷ 0 ∷ 0 ∷ 0 ∷ 0 ∷ 0 ∷ 0 ∷ 0 ∷ 0 ∷ 0
    ∷ 232 ∷ 0 ∷ 0 ∷ 0 ∷ 0 ∷ 195 ∷ 1 ∷ 0 ∷ 0 ∷ 0 ∷ 3 ∷ 0 ∷ 0 ∷ 0 ∷ 4 ∷ 0 ∷ 46 ∷ 116 ∷ 101 ∷ 120 ∷ 116
    ∷ 0 ∷ 0 ∷ 0 ∷ 0 ∷ 0 ∷ 0 ∷ 0 ∷ 1 ∷ 0 ∷ 0 ∷ 0 ∷ 3 ∷ 0 ∷ 46 ∷ 98 ∷ 115 ∷ 115 ∷ 0 ∷ 0 ∷ 0 ∷ 0 ∷ 0
    ∷ 0 ∷ 0 ∷ 0 ∷ 2 ∷ 0 ∷ 0 ∷ 0 ∷ 3 ∷ 0 ∷ 0 ∷ 0 ∷ 0 ∷ 0 ∷ 4 ∷ 0 ∷ 0 ∷ 0 ∷ 0 ∷ 0 ∷ 0 ∷ 0 ∷ 1 ∷ 0 ∷ 32
    ∷ 0 ∷ 2 ∷ 0 ∷ 112 ∷ 117 ∷ 116 ∷ 115 ∷ 0 ∷ 0 ∷ 0 ∷ 0 ∷ 0 ∷ 0 ∷ 0 ∷ 0 ∷ 0 ∷ 0 ∷ 0 ∷ 0 ∷ 2 ∷ 0 ∷ 15
    ∷ 0 ∷ 0 ∷ 0 ∷ 105 ∷ 110 ∷ 105 ∷ 116 ∷ 105 ∷ 97 ∷ 108 ∷ 105 ∷ 122 ∷ 101 ∷ 0 ∷ []

built : build program ≡ ok program_file
unfolding build check_count check_names build_sections emit_file header_of section_headers
    slot_bytes header_end file_header reloc_type type_for_machine amd64_type encode_file_hdr
    encode_sec_hdr encode_reloc encode_symbol encode_comdat_aux placed place layout reloc_bytes
    block write_block write_blocks symbol_of type_of reloc_records section_relocs is_tls is_bss
    is_custom name_of_kind section_base_name first_global_in first_global_name section_coff_name
    default_align effective_align clamp_align shift_loop align_flag base_chars section_chars
    is_bss_like virtual_reserve_size is_drectve section_meta exports_of exports directives
    with_drectve table_bytes encode_sym_name set_section_name defined_symbol_names is_undefined
    external_refs intern_long intern_symbols intern_sections intern_refs string_table
    add_section_symbol section_symbols emit is_func entry_of add_symbol add_external over_names
    symbol_table reloc_addend_size addend_bytes addend_bits poke apply_addend apply_implicit_addends
    int64_bits put_le bytes_eq lookup contains sort_strings decimal over_sections over_symbols
    is_global is_weak is_link_once align_up pad_to add_key define_symbols defined_names see_relocs
    seen_names intern
built = refl

program-Fits : Fits (with_drectve program.sections)
unfolding with_drectve exports exports_of effective_align default_align
program-Fits = omega arith

code_at : get_elem? (with_drectve program.sections) 0 ≡ some code_section
unfolding with_drectve exports exports_of
code_at = refl

zero_at : get_elem? (with_drectve program.sections) 1 ≡ some zero_section
unfolding with_drectve exports exports_of
zero_at = refl

code_raw : is_bss_like code_section ≡ false
unfolding is_bss_like is_bss is_tls
code_raw = refl

zero_bss : is_bss_like zero_section ≡ true
unfolding is_bss_like is_bss is_tls
zero_bss = refl

code_name : section_coff_name code_section ≡ codes ".text"
unfolding section_coff_name section_base_name name_of_kind is_link_once
code_name = refl

clean_name : NoNul (section_coff_name code_section) × NoSlash (section_coff_name code_section)
clean_name = rw code_name (omega arith, λ e. absurd (omega (arith, e)))

few_strings : length (strings program_file) < 10 ^ 7
unfolding decode_file_hdr get_le
few_strings = omega arith

build-section_name_example :
    (section_name program_file (section_hdr program_file 0) ≡ section_coff_name code_section)
    × ((section_hdr program_file 0).characteristics ≡ (section_meta code_section).chars)
build-section_name_example =
    build-section_name program program_file built program-Fits (omega arith) (omega arith) 0
      code_section code_at clean_name.0 clean_name.1 few_strings

build-raw_data_example :
    (rtypes : List ℕ) × (code : Bytes) × TypesOf program (call_puts ∷ []) rtypes
    × (apply_implicit_addends code_section.code (call_puts ∷ []) rtypes 0x8664 ≡ some code)
    × (raw_data program_file (section_hdr program_file 0) ≡ code)
    × ((section_hdr program_file 0).number_of_relocations ≡ 1)
build-raw_data_example =
    build-raw_data program program_file built program-Fits (omega arith) (omega arith) 0
      code_section code_at code_raw

build-bss_example :
    ((section_hdr program_file 1).size_of_raw_data ≡ 64)
    × ((section_hdr program_file 1).pointer_to_raw_data ≡ 0)
    × ((section_hdr program_file 1).pointer_to_relocations ≡ 0)
    × ((section_hdr program_file 1).number_of_relocations ≡ 0)
build-bss_example =
    build-bss program program_file built program-Fits (omega arith) (omega arith) 1 zero_section
      zero_at zero_bss

build-reloc_example :
    ((reloc_at program_file (section_hdr program_file 0) 0).virtual_address ≡ 1)
    × (reloc_type program reloc_plt32
        ≡ ok (reloc_at program_file (section_hdr program_file 0) 0).typ)
    × (symbol_name program_file (
          symbol_at program_file
            (reloc_at program_file (section_hdr program_file 0) 0).symbol_table_index)
        ≡ codes "puts")
build-reloc_example =
    build-reloc program program_file built program-Fits (omega arith) (omega arith) 0 code_section
      code_at 0 call_puts code_raw refl (omega arith) (omega arith)
      (λ e. absurd (ground (arith, ap length e)))

build_iff_example :
    IsBuildable program (with_drectve program.sections) ↔ ((out : Bytes) × (build program ≡ ok out))
build_iff_example = build_iff program

one_work : List SecWork
one_work = record { sec = code_section; records = []; rtypes = [] } ∷ []

laid_out : List SecLaid × ℕ
laid_out = (
  record {
    work = record { sec = code_section; records = []; rtypes = [] };
    raw_off = 112;
    reloc_off = 0;
    n_relocs = 0;
  }
      ∷ [],
  118,
)

one_laid : layout 100 one_work ≡ ok laid_out
unfolding one_work laid_out layout place placed is_bss_like is_bss is_tls section_meta
    effective_align default_align align_up is_link_once section_coff_name section_base_name
    name_of_kind
one_laid = refl

one-fits : 100 + footprint one_work < 2 ^ 32
unfolding one_work effective_align default_align
one-fits = omega arith

layout-Laid_example : Laid 100 laid_out.0 laid_out.1 × (laid_out.1 ≤ 100 + footprint one_work)
layout-Laid_example = layout-Laid 100 one_work one-fits one_laid
