-- ===== src/Coff/File.antt =====
-- coff/coff.go: the file under construction and its option; and `relocType` of coff/write.go with
-- the relocation types of the two machines.
use objectfile.Prelude.{ℕ, Option, none, some, List, [], ◌∷◌, ◌++◌, ◌==◌, if◌then◌else◌}
use objectfile.Prelude.Bytes.{Bytes}
use objectfile.Prelude.Result.{Result, ok, err}
use objectfile.Object.{
  Section, Target, Arch, arch_arm64, RelocKind, reloc_abs32, reloc_abs64, reloc_pc_rel26,
  reloc_pc_rel32, reloc_plt32, reloc_iat, reloc_addr32_nb, reloc_tls_ie,
}

abbrev pub machine_amd64 : ℕ
machine_amd64 = 0x8664

abbrev pub machine_arm64 : ℕ
machine_arm64 = 0xaa64

-- The type Subsystem is a uint16; this is SubsystemConsole.
abbrev pub subsystem_console : ℕ
subsystem_console = 3

pub record File : Type 0 where
  pub machine : ℕ
  pub subsystem : ℕ
  pub sections : List Section

-- The machine that NewFile chooses.
unfoldable pub machine_of : Arch → ℕ
machine_of arch_arm64 = machine_arm64
machine_of _ = machine_amd64

unfoldable pub new_file : Target → File
new_file t = record { machine = machine_of t.arch; subsystem = subsystem_console; sections = [] }

unfoldable pub set_subsystem : File → ℕ → File
set_subsystem f s = record f { subsystem = s }

unfoldable pub add_section : File → Section → File
add_section f s = record f { sections = f.sections ++ (s ∷ []) }

abbrev pub rel_amd64_addr64 : ℕ
rel_amd64_addr64 = 0x1

abbrev pub rel_amd64_addr32 : ℕ
rel_amd64_addr32 = 0x2

abbrev pub rel_amd64_addr32_nb : ℕ
rel_amd64_addr32_nb = 0x3

abbrev pub rel_amd64_rel32 : ℕ
rel_amd64_rel32 = 0x4

abbrev pub rel_amd64_secrel : ℕ
rel_amd64_secrel = 0xb

abbrev pub rel_arm64_addr32 : ℕ
rel_arm64_addr32 = 0x1

abbrev pub rel_arm64_addr32_nb : ℕ
rel_arm64_addr32_nb = 0x2

abbrev pub rel_arm64_branch26 : ℕ
rel_arm64_branch26 = 0x3

abbrev pub rel_arm64_secrel : ℕ
rel_arm64_secrel = 0x8

abbrev pub rel_arm64_addr64 : ℕ
rel_arm64_addr64 = 0xe

-- The errors of the package: a relocation kind that the machine does not support; the four that
-- build reports itself, of which those about a section name it; the error of `relocType` in a
-- section; and Go's panic on an index past the end of a slice.
pub data Error : Type 0 where
  unsupported_relocation : RelocKind → ℕ → Error
  too_many_sections : ℕ → Error
  empty_custom_name : ℕ → Error
  no_symbol_entry : Bytes → Bytes → Error
  in_section : Bytes → Error → Error
  too_many_relocations : Bytes → ℕ → Error
  index_panic : Error

-- The case machineAMD64 of `relocType`.
unfoldable pub amd64_type : RelocKind → Option ℕ
amd64_type reloc_abs64 = some rel_amd64_addr64
amd64_type reloc_abs32 = some rel_amd64_addr32
amd64_type reloc_pc_rel32 = some rel_amd64_rel32
amd64_type reloc_plt32 = some rel_amd64_rel32
amd64_type reloc_iat = some rel_amd64_addr32_nb
amd64_type reloc_addr32_nb = some rel_amd64_addr32_nb
amd64_type reloc_tls_ie = some rel_amd64_secrel
amd64_type _ = none

-- The case machineARM64 of `relocType`.
unfoldable pub arm64_type : RelocKind → Option ℕ
arm64_type reloc_abs64 = some rel_arm64_addr64
arm64_type reloc_abs32 = some rel_arm64_addr32
arm64_type reloc_pc_rel26 = some rel_arm64_branch26
arm64_type reloc_plt32 = some rel_arm64_branch26
arm64_type reloc_iat = some rel_arm64_addr32_nb
arm64_type reloc_addr32_nb = some rel_arm64_addr32_nb
arm64_type reloc_tls_ie = some rel_arm64_secrel
arm64_type _ = none

-- The outer switch of `relocType`.
unfoldable pub type_for_machine : ℕ → RelocKind → Option ℕ
type_for_machine machine k =
    if machine == machine_amd64
    then amd64_type k
    else if machine == machine_arm64
    then arm64_type k
    else none

-- relocType
unfoldable pub reloc_type : File → RelocKind → Result Error ℕ
reloc_type f k = elim (type_for_machine f.machine k) [
  | some t ↦ ok t
  | none ↦ err (unsupported_relocation k f.machine)
]
