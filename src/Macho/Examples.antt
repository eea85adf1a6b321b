-- ===== src/Macho/Examples.antt =====
-- Runs of macho on a small object with a local, a global and an external symbol, and the theorems of
-- the package there.
use objectfile.Prelude.{
  ◌↔◌, ◌/◌, ◌%◌, ◌^◌, ◌≡◌, refl, sym, true, false, some, none, [], ◌∷◌, length, arith,
}
use objectfile.Prelude.Bytes.{Bytes, codes, bytes_eq}
use objectfile.Prelude.Int.{pos}
use objectfile.Prelude.Result.{ok, err}
use objectfile.Prelude.Sorting.{contains, sort_strings}
use objectfile.Prelude.Table.{lookup}
use objectfile.Loops.{over_sections, over_symbols, has_key}
use objectfile.Object.{
  Section, Symbol, section_text, section_custom, sym_func, binding_local, binding_global, Reloc,
  reloc_pc_rel32, is_local, is_global, is_weak, is_link_once, target_darwin_amd64,
}
use objectfile.Elf.Externals.{add_key, see_relocs, seen_names, is_external}
use objectfile.Elf.Strtab.{intern}
use objectfile.Macho.Build.Totality.{IsBuildable, build-IsBuildable}
use objectfile.Macho.Build.Reading.{build-record}
use objectfile.Macho.Reader.{section_at, reloc_at}
use objectfile.Macho.Build.{build}
use objectfile.Macho.File.{
  reloc_desc, File, new_file, cpu_type_of, desc_for_cpu, x86_64_desc, RelocDesc, no_comma,
}
use objectfile.Macho.Format.{pack_reloc_info, log2, log_loop, Nlist, RelocInfo}
use objectfile.Macho.Format.Laws.{flag, pack_reloc_info-fields}
use objectfile.Macho.Relocs.Targets.{RefersTo, RecordOf-RefersTo}
use objectfile.Macho.Relocs.{record_of, target_of}
use objectfile.Macho.Sections.{
  SecMeta, section_meta, meta_of_kind, custom_meta, index_comma, regular, ea,
}
use objectfile.Macho.Symbols.Coverage.{is_entered, has_entry-symbol_table}
use objectfile.Macho.Symbols.Index.{Agrees, NamedAt, sym_defs-name}
use objectfile.Macho.Symbols.{
  define_symbols, defined_names, external_symbols, mangled, section_symbols, emit, entry_of,
  add_local, weak_desc, add_global, add_externals, initial, local_table, defined_table,
  symbol_table, SymEntry,
}

abbrev helper : Symbol
helper = record {
  name = codes "helper";
  offset = 4;
  size = 2;
  binding = binding_local;
  kind = sym_func;
  dll_export = false;
}

abbrev start : Symbol
start = record {
  name = codes "start";
  offset = 0;
  size = 4;
  binding = binding_global;
  kind = sym_func;
  dll_export = false;
}

abbrev call_puts : Reloc
call_puts = record { offset = 0; symbol = codes "puts"; kind = reloc_pc_rel32; addend = pos 0 }

abbrev code_section : Section
code_section = record {
  kind = section_text;
  custom = [];
  align = 0;
  code = 0 ∷ 0 ∷ 0 ∷ 0 ∷ 0xc3 ∷ 0x90 ∷ [];
  v_size = 0;
  symbols = start ∷ helper ∷ [];
  relocs = call_puts ∷ [];
  flags = 0;
}

abbrev program : File
program = record (new_file target_darwin_amd64) { sections = code_section ∷ [] }

build-IsBuildable_example : IsBuildable program ↔ ((out : Bytes) × (build program ≡ ok out))
build-IsBuildable_example = build-IsBuildable program

-- What building it asks for.
buildable : IsBuildable program
unfolding new_file cpu_type_of desc_for_cpu x86_64_desc bytes_eq is_local is_global is_weak
buildable = (((refl, tt), tt), (refl, tt), ((refl, tt), tt))

built : (out : Bytes) × (build program ≡ ok out)
built = (build-IsBuildable program).0 buildable

-- The local symbol comes before the global one, although it stands behind it in the section.
abbrev helper_entry : SymEntry
helper_entry = record { nlist_idx = 2; sect_idx = some 0; binding = binding_local }

abbrev puts_entry : SymEntry
puts_entry = record { nlist_idx = 4; sect_idx = none; binding = binding_global }

table_run :
    (length (symbol_table (code_section ∷ [])).syms ≡ 5)
    × (length (symbol_table (code_section ∷ [])).strtab.payload ≡ 22)
    × (lookup (codes "helper") (symbol_table (code_section ∷ [])).sym_defs ≡ some helper_entry)
    × (lookup (codes "puts") (symbol_table (code_section ∷ [])).sym_defs ≡ some puts_entry)
unfolding bytes_eq contains sort_strings lookup over_sections over_symbols is_local is_global
    is_weak is_link_once add_key see_relocs seen_names is_external intern define_symbols
    defined_names external_symbols mangled section_symbols emit entry_of add_local weak_desc
    add_global add_externals initial local_table defined_table symbol_table
table_run = (refl, refl, refl, refl)

code_meta : SecMeta
code_meta = regular code_section (codes "__TEXT") (codes "__text") 0x80000400 16

code_has_meta : section_meta 0 code_section ≡ ok code_meta
unfolding section_meta meta_of_kind code_meta
code_has_meta = refl

code_in_file : code_meta.is_zerofill ≡ false
unfolding code_meta regular
code_in_file = refl

build-record_example :
    let c = reloc_at built.0 (section_at built.0 0) 0 in
    (d : RelocDesc) × (reloc_desc program reloc_pc_rel32 ≡ ok d)
    × ((e : Nlist) × RefersTo program.sections (codes "puts") c e)
    × (c.r_address ≡ 0)
    × (c.r_info / 2 ^ 24 % 2 ≡ flag d.pcrel)
    × (c.r_info / 2 ^ 25 % 4 ≡ d.width % 4)
    × (c.r_info / 2 ^ 28 ≡ d.rtype % 16)
build-record_example =
    build-record program built.0 0 code_section code_meta built.1 (omega arith) refl code_has_meta
      code_in_file 0 call_puts refl (omega arith) (omega arith) (omega (arith, table_run.0))
      (omega (arith, table_run.1))

pack_reloc_info-fields_example :
    let v = pack_reloc_info 5 true 2 true 2 in
    (v % 2 ^ 24 ≡ 5)
    × (v / 2 ^ 24 % 2 ≡ 1)
    × (v / 2 ^ 25 % 4 ≡ 2)
    × (v / 2 ^ 27 % 2 ≡ 1)
    × (v / 2 ^ 28 ≡ 2)
pack_reloc_info-fields_example = pack_reloc_info-fields 5 true 2 true 2

has_entry-symbol_table_example :
    has_key (codes "puts") (symbol_table (code_section ∷ [])).sym_defs
    ≡ is_entered (code_section ∷ []) (codes "puts")
has_entry-symbol_table_example = has_entry-symbol_table (codes "puts") (code_section ∷ [])

sym_defs-name_example :
    (e : Nlist) × NamedAt (code_section ∷ []) 2 (codes "helper") e × Agrees (some 0) binding_local e
sym_defs-name_example =
    sym_defs-name (code_section ∷ []) (codes "helper") helper_entry (omega (arith, table_run.0))
      (omega (arith, table_run.1)) (omega arith) table_run.2

abbrev branch : RelocDesc
branch = record { rtype = 2; width = 2; pcrel = true }

abbrev puts_record : RelocInfo
puts_record = record { r_address = 0; r_info = 0x2d000004 }

puts_record_run : record_of program call_puts branch puts_entry ≡ puts_record
unfolding record_of target_of pack_reloc_info new_file cpu_type_of
puts_record_run = refl

RecordOf-RefersTo_example :
    ((e : Nlist) × RefersTo (code_section ∷ []) (codes "puts") puts_record e)
    × (puts_record.r_address ≡ 0)
    × (puts_record.r_info / 2 ^ 24 % 2 ≡ 1)
    × (puts_record.r_info / 2 ^ 25 % 4 ≡ 2)
    × (puts_record.r_info / 2 ^ 28 ≡ 2)
RecordOf-RefersTo_example =
    RecordOf-RefersTo program (code_section ∷ []) call_puts branch puts_record
      (omega (arith, table_run.0)) (omega (arith, table_run.1)) (omega arith)
      (puts_entry, table_run.3, sym puts_record_run)

-- A custom name without a comma is refused, one with a comma is parted at the first.
custom_section : Bytes → Section
custom_section name = record code_section { kind = section_custom; custom = name }

custom_run :
    (section_meta 3 (custom_section (codes "notes")) ≡ err (no_comma 3 (codes "notes")))
    × (section_meta 3 (custom_section (codes "__A,b,c"))
        ≡ ok (record {
          seg_name = codes "__A";
          sect_name = codes "b,c";
          flags = 0;
          align = 1;
          raw_size = 6;
          bss_size = 0;
          is_zerofill = false;
        }))
unfolding section_meta meta_of_kind custom_meta index_comma regular ea custom_section
custom_run = (refl, refl)

log2_run : (log2 0 ≡ 0) × (log2 1 ≡ 0) × (log2 16 ≡ 4) × (log2 17 ≡ 4)
unfolding log2 log_loop
log2_run = (refl, refl, refl, refl)
