-- ===== src/Object.antt =====
-- The format-agnostic data model, object/reloc.go, section.go, symbol.go and target.go, and the
-- predefined targets. Each enumeration of the source is an integer type, so each has a constructor
-- `other_…` for the values past the declared constants.
use objectfile.Prelude.{ℕ, Bool, true, false, not, List, bit_and, ◌==◌}
use objectfile.Prelude.Bytes.{Bytes}
use objectfile.Prelude.Int.{ℤ}

-- object/reloc.go: RelocKind
pub data RelocKind : Type 0 where
  reloc_abs64 reloc_abs32 : RelocKind
  reloc_pc_rel32 reloc_plt32 reloc_got_load : RelocKind
  reloc_pc_rel26 reloc_adr_page21 reloc_add_off12 reloc_got_page21 reloc_got_off12 : RelocKind
  reloc_riscv_call reloc_riscv_hi20 reloc_riscv_lo12i reloc_riscv_lo12s : RelocKind
  reloc_tls_gd reloc_tls_ie reloc_tls_le : RelocKind
  reloc_iat reloc_addr32_nb : RelocKind
  reloc_ldst8_off12 reloc_ldst16_off12 reloc_ldst32_off12 : RelocKind
  reloc_ldst64_off12 reloc_ldst128_off12 : RelocKind
  other_reloc : ℕ → RelocKind

-- The offset is a uint32, the addend an int64.
pub record Reloc : Type 0 where
  pub offset : ℕ
  pub symbol : Bytes
  pub kind : RelocKind
  pub addend : ℤ

-- object/section.go
pub data SectionKind : Type 0 where
  section_text section_data section_ro_data section_bss section_unwind : SectionKind
  section_init_array section_fini_array section_tls section_custom : SectionKind
  other_section : ℕ → SectionKind

-- object/symbol.go
pub data Binding : Type 0 where
  binding_local binding_global binding_weak : Binding
  other_binding : ℕ → Binding

pub data SymbolKind : Type 0 where
  sym_func sym_data sym_section : SymbolKind
  other_symbol : ℕ → SymbolKind

-- The offset and the size are uint32s.
pub record Symbol : Type 0 where
  pub name : Bytes
  pub offset : ℕ
  pub size : ℕ
  pub binding : Binding
  pub kind : SymbolKind
  pub dll_export : Bool

-- `align` and `flags` are uint32s, `v_size` is a uint64.
pub record Section : Type 0 where
  pub kind : SectionKind
  pub custom : Bytes
  pub align : ℕ
  pub code : Bytes
  pub v_size : ℕ
  pub symbols : List Symbol
  pub relocs : List Reloc
  pub flags : ℕ

abbrev pub flag_link_once : ℕ
flag_link_once = 1

abbrev pub flag_no_dead_strip : ℕ
flag_no_dead_strip = 2

-- s.Flags & object.FlagLinkOnce != 0
unfoldable pub is_link_once : Section → Bool
is_link_once s = not (bit_and s.flags flag_link_once == 0)

-- The tests on the enumerations that the packages write as comparisons.
unfoldable pub is_local : Binding → Bool
is_local binding_local = true
is_local _ = false

unfoldable pub is_weak : Binding → Bool
is_weak binding_weak = true
is_weak _ = false

unfoldable pub is_global : Binding → Bool
is_global binding_global = true
is_global _ = false

unfoldable pub is_sym_section : SymbolKind → Bool
is_sym_section sym_section = true
is_sym_section _ = false

-- object/target.go
pub data Arch : Type 0 where
  arch_amd64 arch_arm64 arch_riscv64 arch_x86 : Arch
  other_arch : ℕ → Arch

pub data Os : Type 0 where
  os_linux os_darwin os_windows os_freestanding : Os
  other_os : ℕ → Os

pub record Target : Type 0 where
  pub arch : Arch
  pub os : Os

abbrev pub target_linux_amd64 : Target
target_linux_amd64 = record { arch = arch_amd64; os = os_linux }

abbrev pub target_linux_arm64 : Target
target_linux_arm64 = record { arch = arch_arm64; os = os_linux }

abbrev pub target_linux_riscv64 : Target
target_linux_riscv64 = record { arch = arch_riscv64; os = os_linux }

abbrev pub target_freestanding_amd64 : Target
target_freestanding_amd64 = record { arch = arch_amd64; os = os_freestanding }

abbrev pub target_freestanding_arm64 : Target
target_freestanding_arm64 = record { arch = arch_arm64; os = os_freestanding }

abbrev pub target_freestanding_riscv64 : Target
target_freestanding_riscv64 = record { arch = arch_riscv64; os = os_freestanding }

abbrev pub target_darwin_amd64 : Target
target_darwin_amd64 = record { arch = arch_amd64; os = os_darwin }

abbrev pub target_darwin_arm64 : Target
target_darwin_arm64 = record { arch = arch_arm64; os = os_darwin }

abbrev pub target_windows_amd64 : Target
target_windows_amd64 = record { arch = arch_amd64; os = os_windows }

abbrev pub target_windows_arm64 : Target
target_windows_arm64 = record { arch = arch_arm64; os = os_windows }
