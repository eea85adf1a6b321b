-- ===== src/Coff/Sections.antt =====
-- coff/write.go: the name, the alignment, the characteristics and the sizes of a section (phase 2 of
-- build), and the .drectve section.
pub mod Align
use objectfile.Prelude.{
  ℕ, zero, suc, ◌+◌, ◌*◌, ◌/◌, ◌^◌, Bool, true, false, ◌&&◌, ◌||◌, List, [], ◌∷◌, ◌++◌, length, ltb,
  ◌==◌, if◌then◌else◌, bit_or,
}
use objectfile.Prelude.Bits.{u32}
use objectfile.Prelude.Bytes.{Bytes, codes, bytes_eq}
use objectfile.Object.{
  Section, SectionKind, section_text, section_data, section_ro_data, section_bss, section_unwind,
  section_init_array, section_fini_array, section_tls, section_custom, Symbol, is_global,
  is_link_once,
}

abbrev pub scn_cnt_code : ℕ
scn_cnt_code = 0x20

abbrev pub scn_cnt_init_dat : ℕ
scn_cnt_init_dat = 0x40

abbrev pub scn_cnt_uninit : ℕ
scn_cnt_uninit = 0x80

abbrev pub scn_lnk_info : ℕ
scn_lnk_info = 0x200

abbrev pub scn_lnk_remove : ℕ
scn_lnk_remove = 0x800

abbrev pub scn_lnk_comdat : ℕ
scn_lnk_comdat = 0x1000

abbrev pub scn_mem_exec : ℕ
scn_mem_exec = 0x20000000

abbrev pub scn_mem_read : ℕ
scn_mem_read = 0x40000000

abbrev pub scn_mem_write : ℕ
scn_mem_write = 0x80000000

-- The tests on the kind that the source writes as comparisons.
unfoldable pub is_tls : SectionKind → Bool
is_tls section_tls = true
is_tls _ = false

unfoldable pub is_bss : SectionKind → Bool
is_bss section_bss = true
is_bss _ = false

unfoldable pub is_custom : SectionKind → Bool
is_custom section_custom = true
is_custom _ = false

unfoldable pub name_of_kind : SectionKind → Bytes → Bytes → Bytes
name_of_kind section_text code custom = codes ".text"
name_of_kind section_data code custom = codes ".data"
name_of_kind section_ro_data code custom = codes ".rdata"
name_of_kind section_bss code custom = codes ".bss"
name_of_kind section_unwind code custom = codes ".pdata"
name_of_kind section_init_array code custom = codes ".CRT$XCU"
name_of_kind section_fini_array code custom = codes ".CRT$XTZ"
name_of_kind section_tls code custom =
    if ltb 0 (length code) then codes ".tls" else codes ".tls$ZZZ"
name_of_kind section_custom code custom = custom
name_of_kind _ code custom = codes ".data"

-- sectionBaseName
unfoldable pub section_base_name : Section → Bytes
section_base_name s = name_of_kind s.kind s.code s.custom

unfoldable pub first_global_in : List Symbol → Bytes
first_global_in [] = []
first_global_in (s ∷ ss) = if is_global s.binding then s.name else first_global_in ss

unfoldable pub first_global_name : Section → Bytes
first_global_name s = first_global_in s.symbols

-- sectionCOFFName
unfoldable pub section_coff_name : Section → Bytes
section_coff_name s =
    if is_link_once s
    then (if bytes_eq (first_global_name s) [] then section_base_name s else first_global_name s)
    else section_base_name s

unfoldable pub default_align : SectionKind → ℕ
default_align section_text = 16
default_align section_unwind = 4
default_align section_custom = 1
default_align _ = 8

unfoldable pub effective_align : Section → ℕ
effective_align s = if ltb 0 s.align then s.align else default_align s.kind

-- The clamping at the start of `alignFlag`.
unfoldable pub clamp_align : ℕ → ℕ
clamp_align align =
    let positive = if align == 0 then 1 else align in if ltb 8192 positive then 8192 else positive

-- for a := align; a > 1; a >>= 1 { shift++ }
unfoldable pub shift_loop : ℕ → ℕ → ℕ → ℕ
shift_loop zero a shift = shift
shift_loop (suc fuel) a shift =
    let rest = shift_loop fuel (a / 2) (shift + 1) in if ltb 1 a then rest else shift

-- alignFlag; the loop ends within `a` rounds, since it halves `a`.
unfoldable pub align_flag : ℕ → ℕ
align_flag align = let a = clamp_align align in (shift_loop a a 0 + 1) * 2 ^ 20

-- The switch of `sectionChars`; the second argument is whether there is code.
unfoldable pub base_chars : SectionKind → Bool → ℕ
base_chars section_text code = bit_or (bit_or scn_cnt_code scn_mem_exec) scn_mem_read
base_chars section_data code = bit_or (bit_or scn_cnt_init_dat scn_mem_read) scn_mem_write
base_chars section_ro_data code = bit_or scn_cnt_init_dat scn_mem_read
base_chars section_bss code = bit_or (bit_or scn_cnt_uninit scn_mem_read) scn_mem_write
base_chars section_unwind code = bit_or scn_cnt_init_dat scn_mem_read
base_chars section_init_array code = bit_or (bit_or scn_cnt_init_dat scn_mem_read) scn_mem_write
base_chars section_fini_array code = bit_or (bit_or scn_cnt_init_dat scn_mem_read) scn_mem_write
base_chars section_tls true = bit_or (bit_or scn_cnt_init_dat scn_mem_read) scn_mem_write
base_chars section_tls false = bit_or (bit_or scn_cnt_uninit scn_mem_read) scn_mem_write
base_chars _ code = bit_or (bit_or scn_cnt_init_dat scn_mem_read) scn_mem_write

unfoldable pub section_chars : Section → ℕ → ℕ
section_chars s align =
    let base = base_chars s.kind (ltb 0 (length s.code)) in
    bit_or (if is_link_once s then bit_or base scn_lnk_comdat else base) (align_flag align)

unfoldable pub is_bss_like : Section → Bool
is_bss_like s = is_bss s.kind || (is_tls s.kind && (length s.code == 0))

unfoldable pub virtual_reserve_size : Section → ℕ
virtual_reserve_size s = if ltb 0 s.v_size then u32 s.v_size else u32 (length s.code)

-- isDrv
unfoldable pub is_drectve : Section → Bool
is_drectve s = is_custom s.kind && bytes_eq s.custom (codes ".drectve")

abbrev pub drectve_characteristics : ℕ
drectve_characteristics = bit_or (bit_or scn_lnk_info scn_lnk_remove) (1 * 2 ^ 20)

-- secMeta; `chars`, `raw_size` and `res_size` as phase 2 of build computes them.
pub record SecMeta : Type 0 where
  pub name : Bytes
  pub chars : ℕ
  pub align : ℕ
  pub raw_size : ℕ
  pub res_size : ℕ

-- One round of phase 2.
unfoldable pub section_meta : Section → SecMeta
section_meta s = record {
  name = section_coff_name s;
  chars = if is_drectve s then drectve_characteristics else section_chars s (effective_align s);
  align = effective_align s;
  raw_size = if is_bss_like s then 0 else u32 (length s.code);
  res_size = if is_bss_like s then virtual_reserve_size s else 0;
}

-- The names of the symbols with DLLExport.
unfoldable pub exports_of : List Symbol → List Bytes
exports_of [] = []
exports_of (s ∷ ss) = let rest = exports_of ss in if s.dll_export then s.name ∷ rest else rest

unfoldable pub exports : List Section → List Bytes
exports [] = []
exports (s ∷ ss) = exports_of s.symbols ++ exports ss

-- The directives, " /EXPORT:" before each name.
unfoldable pub directives : List Bytes → Bytes
directives [] = []
directives (name ∷ names) = codes " /EXPORT:" ++ (name ++ directives names)

abbrev pub drectve_section : List Bytes → Section
drectve_section names = record {
  kind = section_custom;
  custom = codes ".drectve";
  align = 1;
  code = directives names;
  v_size = 0;
  symbols = [];
  relocs = [];
  flags = 0;
}

-- buildDrectve and the append of phase 1 of build.
unfoldable pub with_drectve : List Section → List Section
with_drectve sections =
    if length (exports sections) == 0
    then sections
    else sections ++ (drectve_section (exports sections) ∷ [])
