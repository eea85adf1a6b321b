-- ===== src/Elf/File.antt =====
-- elf/elf.go: the file under construction, its options, and the translation of relocation kinds.
pub mod Kinds
use objectfile.Prelude.{
  ℕ, Bool, true, false, Option, none, some, List, [], ◌∷◌, ◌++◌, ◌==◌, if◌then◌else◌,
}
use objectfile.Prelude.Bytes.{Bytes}
use objectfile.Prelude.Result.{Result, ok, err}
use objectfile.Object.{
  Section, Target, Arch, arch_amd64, arch_arm64, arch_riscv64, arch_x86, RelocKind, reloc_abs32,
  reloc_abs64, reloc_add_off12, reloc_adr_page21, reloc_got_load, reloc_got_off12, reloc_got_page21,
  reloc_pc_rel26, reloc_pc_rel32, reloc_plt32, reloc_riscv_call, reloc_riscv_hi20,
  reloc_riscv_lo12i, reloc_riscv_lo12s, reloc_tls_gd, reloc_tls_ie, reloc_tls_le,
}
use objectfile.Elf.Consts.{
  em_x86_64, em_aarch64, em_riscv, em_i386, osabi_none, r_386_32, r_386_got32, r_386_pc32,
  r_aarch64_abs32, r_aarch64_abs64, r_aarch64_add_abs_lo12_nc, r_aarch64_adr_got_page,
  r_aarch64_adr_prel_pg_hi21, r_aarch64_call26, r_aarch64_ld64_got_lo12_nc,
  r_aarch64_tlsgd_adr_page21, r_aarch64_tlsie_adr_gottprel_page21,
  r_aarch64_tlsle_add_tprel_lo12_nc, r_riscv_32, r_riscv_64, r_riscv_call_plt, r_riscv_hi20,
  r_riscv_lo12_i, r_riscv_lo12_s, r_riscv_tls_gd_hi20, r_riscv_tls_got_hi20, r_riscv_tprel_hi20,
  r_x86_64_32, r_x86_64_64, r_x86_64_gotpcrel, r_x86_64_gottpoff, r_x86_64_pc32, r_x86_64_plt32,
  r_x86_64_tlsgd, r_x86_64_tpoff32,
}

pub record File : Type 0 where
  pub target : Target
  pub machine : ℕ
  pub is64 : Bool
  pub osabi : ℕ
  pub dwarf : Bool
  pub gnu_stack : Bool
  pub sections : List Section

-- The errors of the package: an unsupported relocation kind for a machine; the relocation of a
-- section against a symbol that the table lacks; the error of `relocType` in a section; a
-- FlagLinkOnce section without a symbol for its signature. `index_panic` is Go's panic on an index
-- past the end of a slice.
pub data Error : Type 0 where
  unsupported_relocation : RelocKind → ℕ → Error
  symbol_not_in_table : ℕ → Bytes → Error
  in_section : ℕ → Error → Error
  no_comdat_signature : ℕ → Error
  index_panic : Error

-- The machine and the class that NewFile chooses.
unfoldable pub machine_of : Arch → ℕ × Bool
machine_of arch_amd64 = (em_x86_64, true)
machine_of arch_arm64 = (em_aarch64, true)
machine_of arch_riscv64 = (em_riscv, true)
machine_of arch_x86 = (em_i386, false)
machine_of _ = (em_x86_64, true)

unfoldable pub new_file : Target → File
new_file t = record {
  target = t;
  machine = (machine_of t.arch).0;
  is64 = (machine_of t.arch).1;
  osabi = osabi_none;
  dwarf = false;
  gnu_stack = true;
  sections = [];
}

unfoldable pub set_osabi : File → ℕ → File
set_osabi f o = record f { osabi = o }

unfoldable pub enable_dwarf : File → Bool → File
enable_dwarf f on = record f { dwarf = on }

unfoldable pub enable_gnu_stack : File → Bool → File
enable_gnu_stack f on = record f { gnu_stack = on }

unfoldable pub add_section : File → Section → File
add_section f s = record f { sections = f.sections ++ (s ∷ []) }

-- The case emX86_64 of `relocType`.
unfoldable pub x86_64_type : RelocKind → Option ℕ
x86_64_type reloc_abs64 = some r_x86_64_64
x86_64_type reloc_abs32 = some r_x86_64_32
x86_64_type reloc_pc_rel32 = some r_x86_64_pc32
x86_64_type reloc_plt32 = some r_x86_64_plt32
x86_64_type reloc_got_load = some r_x86_64_gotpcrel
x86_64_type reloc_tls_gd = some r_x86_64_tlsgd
x86_64_type reloc_tls_ie = some r_x86_64_gottpoff
x86_64_type reloc_tls_le = some r_x86_64_tpoff32
x86_64_type _ = none

-- The case emAARCH64 of `relocType`.
unfoldable pub aarch64_type : RelocKind → Option ℕ
aarch64_type reloc_abs64 = some r_aarch64_abs64
aarch64_type reloc_abs32 = some r_aarch64_abs32
aarch64_type reloc_pc_rel26 = some r_aarch64_call26
aarch64_type reloc_adr_page21 = some r_aarch64_adr_prel_pg_hi21
aarch64_type reloc_add_off12 = some r_aarch64_add_abs_lo12_nc
aarch64_type reloc_got_page21 = some r_aarch64_adr_got_page
aarch64_type reloc_got_off12 = some r_aarch64_ld64_got_lo12_nc
aarch64_type reloc_tls_gd = some r_aarch64_tlsgd_adr_page21
aarch64_type reloc_tls_ie = some r_aarch64_tlsie_adr_gottprel_page21
aarch64_type reloc_tls_le = some r_aarch64_tlsle_add_tprel_lo12_nc
aarch64_type _ = none

-- The case emI386 of `relocType`.
unfoldable pub i386_type : RelocKind → Option ℕ
i386_type reloc_abs32 = some r_386_32
i386_type reloc_pc_rel32 = some r_386_pc32
i386_type reloc_got_load = some r_386_got32
i386_type _ = none

-- The case emRISCV of `relocType`.
unfoldable pub riscv_type : RelocKind → Option ℕ
riscv_type reloc_abs64 = some r_riscv_64
riscv_type reloc_abs32 = some r_riscv_32
riscv_type reloc_riscv_call = some r_riscv_call_plt
riscv_type reloc_riscv_hi20 = some r_riscv_hi20
riscv_type reloc_riscv_lo12i = some r_riscv_lo12_i
riscv_type reloc_riscv_lo12s = some r_riscv_lo12_s
riscv_type reloc_tls_gd = some r_riscv_tls_gd_hi20
riscv_type reloc_tls_ie = some r_riscv_tls_got_hi20
riscv_type reloc_tls_le = some r_riscv_tprel_hi20
riscv_type _ = none

-- The outer switch of `relocType`.
unfoldable pub type_for_machine : ℕ → RelocKind → Option ℕ
type_for_machine machine k =
    if machine == em_x86_64
    then x86_64_type k
    else if machine == em_aarch64
    then aarch64_type k
    else if machine == em_i386
    then i386_type k
    else if machine == em_riscv
    then riscv_type k
    else none

-- relocType
unfoldable pub reloc_type : File → RelocKind → Result Error ℕ
reloc_type f k = elim (type_for_machine f.machine k) [
  | some t ↦ ok t
  | none ↦ err (unsupported_relocation k f.machine)
]
