-- ===== src/Macho/File.antt =====
-- macho/macho.go: the file under construction and its options; and `relocDesc` of macho/write.go
-- with the relocation types of the two CPUs.
use objectfile.Prelude.{
  ℕ, ◌*◌, ◌^◌, Bool, true, false, Option, none, some, List, [], ◌∷◌, ◌++◌, ◌==◌, if◌then◌else◌,
  bit_or,
}
use objectfile.Prelude.Bytes.{Bytes}
use objectfile.Prelude.Result.{Result, ok, err}
use objectfile.Object.{
  Section, SectionKind, Target, Arch, arch_arm64, RelocKind, reloc_abs64, reloc_pc_rel32,
  reloc_got_load, reloc_tls_gd, reloc_pc_rel26, reloc_adr_page21, reloc_add_off12, reloc_got_page21,
  reloc_got_off12,
}

abbrev pub cpu_type_x86_64 : ℕ
cpu_type_x86_64 = 0x01000007

abbrev pub cpu_type_arm64 : ℕ
cpu_type_arm64 = 0x0100000c

abbrev pub cpu_subtype_all : ℕ
cpu_subtype_all = 0

-- The type Platform is a uint32; this is MacOS.
abbrev pub mac_os : ℕ
mac_os = 1

pub record File : Type 0 where
  pub target : Target
  pub cpu_type : ℕ
  pub cpu_subtype : ℕ
  pub sections : List Section
  pub build_version : Bool
  pub bv_platform : ℕ
  pub bv_min_os : ℕ
  pub bv_sdk : ℕ
  pub codesign_reserve : Bool

-- The CPU type that NewFile chooses.
unfoldable pub cpu_type_of : Arch → ℕ
cpu_type_of arch_arm64 = cpu_type_arm64
cpu_type_of _ = cpu_type_x86_64

unfoldable pub new_file : Target → File
new_file t = record {
  target = t;
  cpu_type = cpu_type_of t.arch;
  cpu_subtype = cpu_subtype_all;
  sections = [];
  build_version = false;
  bv_platform = 0;
  bv_min_os = 0;
  bv_sdk = 0;
  codesign_reserve = false;
}

-- The packing of a version, major and minor being uint8s.
unfoldable pub pack_version : ℕ → ℕ → ℕ
pack_version major minor = bit_or (major * 2 ^ 16) (minor * 2 ^ 8)

unfoldable pub set_min_os : File → ℕ → ℕ → ℕ → File
set_min_os f platform major minor = record f {
  build_version = true;
  bv_platform = platform;
  bv_min_os = pack_version major minor;
  bv_sdk = pack_version major minor;
}

unfoldable pub enable_codesign_reserve : File → Bool → File
enable_codesign_reserve f on = record f { codesign_reserve = on }

unfoldable pub add_section : File → Section → File
add_section f s = record f { sections = f.sections ++ (s ∷ []) }

abbrev pub x86_64_reloc_unsigned : ℕ
x86_64_reloc_unsigned = 0

abbrev pub x86_64_reloc_branch : ℕ
x86_64_reloc_branch = 2

abbrev pub x86_64_reloc_got_load : ℕ
x86_64_reloc_got_load = 3

abbrev pub x86_64_reloc_tlv : ℕ
x86_64_reloc_tlv = 9

abbrev pub arm64_reloc_unsigned : ℕ
arm64_reloc_unsigned = 0

abbrev pub arm64_reloc_branch26 : ℕ
arm64_reloc_branch26 = 2

abbrev pub arm64_reloc_page21 : ℕ
arm64_reloc_page21 = 3

abbrev pub arm64_reloc_pageoff12 : ℕ
arm64_reloc_pageoff12 = 4

abbrev pub arm64_reloc_got_load_page21 : ℕ
arm64_reloc_got_load_page21 = 5

abbrev pub arm64_reloc_got_load_pageoff12 : ℕ
arm64_reloc_got_load_pageoff12 = 6

abbrev pub arm64_reloc_tlvp_load_page21 : ℕ
arm64_reloc_tlvp_load_page21 = 7

-- r_length, the logarithm of the width of a field.
abbrev pub r_length4 : ℕ
r_length4 = 2

abbrev pub r_length8 : ℕ
r_length8 = 3

pub record RelocDesc : Type 0 where
  pub rtype : ℕ
  pub width : ℕ
  pub pcrel : Bool

-- The errors of the package: a relocation kind that the CPU does not support; a custom section name
-- without a comma; a section kind past the declared ones; a relocation whose target has no entry in
-- the symbol table; and Go's panic on an index past the end of a slice. Those about a section or a
-- relocation have its index.
pub data Error : Type 0 where
  unsupported_relocation : RelocKind → ℕ → Error
  in_relocation : ℕ → ℕ → Error → Error
  no_comma : ℕ → Bytes → Error
  unknown_section_kind : ℕ → SectionKind → Error
  not_in_symbol_table : ℕ → ℕ → Bytes → Error
  index_panic : Error

abbrev desc : ℕ → ℕ → Bool → Option RelocDesc
desc rtype width pcrel = some (record { rtype = rtype; width = width; pcrel = pcrel })

-- The case cpuTypeX86_64 of `relocDesc`.
unfoldable pub x86_64_desc : RelocKind → Option RelocDesc
x86_64_desc reloc_abs64 = desc x86_64_reloc_unsigned r_length8 false
x86_64_desc reloc_pc_rel32 = desc x86_64_reloc_branch r_length4 true
x86_64_desc reloc_got_load = desc x86_64_reloc_got_load r_length4 true
x86_64_desc reloc_tls_gd = desc x86_64_reloc_tlv r_length4 true
x86_64_desc _ = none

-- The case cpuTypeARM64 of `relocDesc`.
unfoldable pub arm64_desc : RelocKind → Option RelocDesc
arm64_desc reloc_abs64 = desc arm64_reloc_unsigned r_length8 false
arm64_desc reloc_pc_rel26 = desc arm64_reloc_branch26 r_length4 true
arm64_desc reloc_adr_page21 = desc arm64_reloc_page21 r_length4 true
arm64_desc reloc_add_off12 = desc arm64_reloc_pageoff12 r_length4 false
arm64_desc reloc_got_page21 = desc arm64_reloc_got_load_page21 r_length4 true
arm64_desc reloc_got_off12 = desc arm64_reloc_got_load_pageoff12 r_length4 false
arm64_desc reloc_tls_gd = desc arm64_reloc_tlvp_load_page21 r_length4 true
arm64_desc _ = none

-- The outer switch of `relocDesc`.
unfoldable pub desc_for_cpu : ℕ → RelocKind → Option RelocDesc
desc_for_cpu cpu k =
    if cpu == cpu_type_x86_64
    then x86_64_desc k
    else if cpu == cpu_type_arm64
    then arm64_desc k
    else none

-- relocDesc
unfoldable pub reloc_desc : File → RelocKind → Result Error RelocDesc
reloc_desc f k = elim (desc_for_cpu f.cpu_type k) [
  | some d ↦ ok d
  | none ↦ err (unsupported_relocation k f.cpu_type)
]
