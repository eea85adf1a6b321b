-- ===== src/Elf/File/Kinds.antt =====
-- What `relocType` gives: types that fit r_info, none of them for two kinds of one machine, and none
-- for the scaled AArch64 kinds.
use objectfile.Prelude.{
  ℕ, ◌^◌, ◌<◌, ◌≡◌, Bool, true, false, Option, none, some, ◌==◌, if◌then◌else◌, arith,
}
use objectfile.Prelude.Result.{ok, err}
use objectfile.Object.{
  RelocKind, reloc_ldst8_off12, reloc_ldst16_off12, reloc_ldst32_off12, reloc_ldst64_off12,
  reloc_ldst128_off12, reloc_abs32, reloc_abs64, reloc_add_off12, reloc_adr_page21, reloc_got_load,
  reloc_got_off12, reloc_got_page21, reloc_pc_rel26, reloc_pc_rel32, reloc_plt32, reloc_riscv_call,
  reloc_riscv_hi20, reloc_riscv_lo12i, reloc_riscv_lo12s, reloc_tls_gd, reloc_tls_ie, reloc_tls_le,
}
use objectfile.Elf.Consts.{
  em_x86_64, em_aarch64, em_i386, em_riscv, r_386_32, r_386_got32, r_386_pc32, r_aarch64_abs32,
  r_aarch64_abs64, r_aarch64_add_abs_lo12_nc, r_aarch64_adr_got_page, r_aarch64_adr_prel_pg_hi21,
  r_aarch64_call26, r_aarch64_ld64_got_lo12_nc, r_aarch64_tlsgd_adr_page21,
  r_aarch64_tlsie_adr_gottprel_page21, r_aarch64_tlsle_add_tprel_lo12_nc, r_riscv_32, r_riscv_64,
  r_riscv_call_plt, r_riscv_hi20, r_riscv_lo12_i, r_riscv_lo12_s, r_riscv_tls_gd_hi20,
  r_riscv_tls_got_hi20, r_riscv_tprel_hi20, r_x86_64_32, r_x86_64_64, r_x86_64_gotpcrel,
  r_x86_64_gottpoff, r_x86_64_pc32, r_x86_64_plt32, r_x86_64_tlsgd, r_x86_64_tpoff32,
}
use objectfile.Elf.File.{
  File, unsupported_relocation, x86_64_type, aarch64_type, i386_type, riscv_type, type_for_machine,
  reloc_type,
}

-- Readers of the native type numbers: the kind that each stands for.
x86_64_kind : ℕ → Option RelocKind
x86_64_kind t =
    if t == r_x86_64_64
    then some reloc_abs64
    else if t == r_x86_64_32
    then some reloc_abs32
    else if t == r_x86_64_pc32
    then some reloc_pc_rel32
    else if t == r_x86_64_plt32
    then some reloc_plt32
    else if t == r_x86_64_gotpcrel
    then some reloc_got_load
    else if t == r_x86_64_tlsgd
    then some reloc_tls_gd
    else if t == r_x86_64_gottpoff
    then some reloc_tls_ie
    else if t == r_x86_64_tpoff32
    then some reloc_tls_le
    else none

aarch64_kind : ℕ → Option RelocKind
aarch64_kind t =
    if t == r_aarch64_abs64
    then some reloc_abs64
    else if t == r_aarch64_abs32
    then some reloc_abs32
    else if t == r_aarch64_call26
    then some reloc_pc_rel26
    else if t == r_aarch64_adr_prel_pg_hi21
    then some reloc_adr_page21
    else if t == r_aarch64_add_abs_lo12_nc
    then some reloc_add_off12
    else if t == r_aarch64_adr_got_page
    then some reloc_got_page21
    else if t == r_aarch64_ld64_got_lo12_nc
    then some reloc_got_off12
    else if t == r_aarch64_tlsgd_adr_page21
    then some reloc_tls_gd
    else if t == r_aarch64_tlsie_adr_gottprel_page21
    then some reloc_tls_ie
    else if t == r_aarch64_tlsle_add_tprel_lo12_nc
    then some reloc_tls_le
    else none

i386_kind : ℕ → Option RelocKind
i386_kind t =
    if t == r_386_32
    then some reloc_abs32
    else if t == r_386_pc32
    then some reloc_pc_rel32
    else if t == r_386_got32
    then some reloc_got_load
    else none

riscv_kind : ℕ → Option RelocKind
riscv_kind t =
    if t == r_riscv_64
    then some reloc_abs64
    else if t == r_riscv_32
    then some reloc_abs32
    else if t == r_riscv_call_plt
    then some reloc_riscv_call
    else if t == r_riscv_hi20
    then some reloc_riscv_hi20
    else if t == r_riscv_lo12_i
    then some reloc_riscv_lo12i
    else if t == r_riscv_lo12_s
    then some reloc_riscv_lo12s
    else if t == r_riscv_tls_gd_hi20
    then some reloc_tls_gd
    else if t == r_riscv_tls_got_hi20
    then some reloc_tls_ie
    else if t == r_riscv_tprel_hi20
    then some reloc_tls_le
    else none

x86_64_kind-x86_64_type :
    (k : RelocKind) {t : ℕ} → x86_64_type k ≡ some t → (x86_64_kind t ≡ some k) × (t < 2 ^ 32)
unfolding x86_64_kind x86_64_type
x86_64_kind-x86_64_type reloc_abs64 h = ground arith
x86_64_kind-x86_64_type reloc_abs32 h = ground arith
x86_64_kind-x86_64_type reloc_pc_rel32 h = ground arith
x86_64_kind-x86_64_type reloc_plt32 h = ground arith
x86_64_kind-x86_64_type reloc_got_load h = ground arith
x86_64_kind-x86_64_type reloc_tls_gd h = ground arith
x86_64_kind-x86_64_type reloc_tls_ie h = ground arith
x86_64_kind-x86_64_type reloc_tls_le h = ground arith
x86_64_kind-x86_64_type _ h = ground arith

aarch64_kind-aarch64_type :
    (k : RelocKind) {t : ℕ} → aarch64_type k ≡ some t → (aarch64_kind t ≡ some k) × (t < 2 ^ 32)
unfolding aarch64_kind aarch64_type
aarch64_kind-aarch64_type reloc_abs64 h = ground arith
aarch64_kind-aarch64_type reloc_abs32 h = ground arith
aarch64_kind-aarch64_type reloc_pc_rel26 h = ground arith
aarch64_kind-aarch64_type reloc_adr_page21 h = ground arith
aarch64_kind-aarch64_type reloc_add_off12 h = ground arith
aarch64_kind-aarch64_type reloc_got_page21 h = ground arith
aarch64_kind-aarch64_type reloc_got_off12 h = ground arith
aarch64_kind-aarch64_type reloc_tls_gd h = ground arith
aarch64_kind-aarch64_type reloc_tls_ie h = ground arith
aarch64_kind-aarch64_type reloc_tls_le h = ground arith
aarch64_kind-aarch64_type _ h = ground arith

i386_kind-i386_type :
    (k : RelocKind) {t : ℕ} → i386_type k ≡ some t → (i386_kind t ≡ some k) × (t < 2 ^ 8)
unfolding i386_kind i386_type
i386_kind-i386_type reloc_abs32 h = ground arith
i386_kind-i386_type reloc_pc_rel32 h = ground arith
i386_kind-i386_type reloc_got_load h = ground arith
i386_kind-i386_type _ h = ground arith

riscv_kind-riscv_type :
    (k : RelocKind) {t : ℕ} → riscv_type k ≡ some t → (riscv_kind t ≡ some k) × (t < 2 ^ 32)
unfolding riscv_kind riscv_type
riscv_kind-riscv_type reloc_abs64 h = ground arith
riscv_kind-riscv_type reloc_abs32 h = ground arith
riscv_kind-riscv_type reloc_riscv_call h = ground arith
riscv_kind-riscv_type reloc_riscv_hi20 h = ground arith
riscv_kind-riscv_type reloc_riscv_lo12i h = ground arith
riscv_kind-riscv_type reloc_riscv_lo12s h = ground arith
riscv_kind-riscv_type reloc_tls_gd h = ground arith
riscv_kind-riscv_type reloc_tls_ie h = ground arith
riscv_kind-riscv_type reloc_tls_le h = ground arith
riscv_kind-riscv_type _ h = ground arith

kind_for_machine : ℕ → ℕ → Option RelocKind
kind_for_machine machine t =
    if machine == em_x86_64
    then x86_64_kind t
    else if machine == em_aarch64
    then aarch64_kind t
    else if machine == em_i386
    then i386_kind t
    else if machine == em_riscv
    then riscv_kind t
    else none

type_for_machine-fits :
    (machine : ℕ) (k : RelocKind) {t : ℕ}
    → type_for_machine machine k ≡ some t
    → (kind_for_machine machine t ≡ some k) × (t < 2 ^ 32)
unfolding type_for_machine kind_for_machine
type_for_machine-fits machine k {t} h = ground (
  arith,
  x86_64_kind-x86_64_type k {t = t},
  aarch64_kind-aarch64_type k {t = t},
  i386_kind-i386_type k {t = t},
  riscv_kind-riscv_type k {t = t},
)

-- On one machine two kinds never become the same native type.
pub reloc_type-injective :
    (f : File) (k l : RelocKind) {t : ℕ} → reloc_type f k ≡ ok t → reloc_type f l ≡ ok t → k ≡ l
unfolding reloc_type
reloc_type-injective f k l {t} h g =
    ground
      (arith, type_for_machine-fits f.machine k {t = t}, type_for_machine-fits f.machine l {t = t})

pub reloc_type-lt : (f : File) (k : RelocKind) {t : ℕ} → reloc_type f k ≡ ok t → t < 2 ^ 32
unfolding reloc_type
reloc_type-lt f k {t} h = ground (arith, type_for_machine-fits f.machine k {t = t})

-- The kinds for scaled AArch64 loads and stores.
abbrev pub is_ldst : RelocKind → Bool
is_ldst reloc_ldst8_off12 = true
is_ldst reloc_ldst16_off12 = true
is_ldst reloc_ldst32_off12 = true
is_ldst reloc_ldst64_off12 = true
is_ldst reloc_ldst128_off12 = true
is_ldst _ = false

-- No file accepts them, whatever its machine.
pub reloc_type-ldst :
    (f : File) (k : RelocKind)
    → is_ldst k ≡ true
    → reloc_type f k ≡ err (unsupported_relocation k f.machine)
unfolding reloc_type type_for_machine x86_64_type aarch64_type i386_type riscv_type
reloc_type-ldst f reloc_ldst8_off12 h = ground arith
reloc_type-ldst f reloc_ldst16_off12 h = ground arith
reloc_type-ldst f reloc_ldst32_off12 h = ground arith
reloc_type-ldst f reloc_ldst64_off12 h = ground arith
reloc_type-ldst f reloc_ldst128_off12 h = ground arith
reloc_type-ldst f _ h = absurd (ground arith)
