-- ===== src/Macho/Format.antt =====
-- The Mach-O structures of macho/write.go and their bytes, field by field as binary.Write puts them
-- out; packRelocInfo, copyPaddedName and log2.
pub mod Laws
pub mod Decode
use objectfile.Prelude.{
  ℕ, zero, suc, ◌+◌, ◌-◌, ◌*◌, ◌/◌, ◌^◌, Bool, true, false, List, [], ◌∷◌, ◌++◌, take, length,
  replicate, ltb, leb, if◌then◌else◌, bit_and, bit_or,
}
use objectfile.Prelude.Bits.{u32}
use objectfile.Prelude.Bytes.{Bytes, put_le}

abbrev pub mh_size64 : ℕ
mh_size64 = 32

abbrev pub seg_cmd_size64 : ℕ
seg_cmd_size64 = 72

abbrev pub section_size64 : ℕ
section_size64 = 80

abbrev pub symtab_cmd_size : ℕ
symtab_cmd_size = 24

abbrev pub build_ver_cmd_size : ℕ
build_ver_cmd_size = 24

abbrev pub nlist_size64 : ℕ
nlist_size64 = 16

abbrev pub reloc_size : ℕ
reloc_size = 8

abbrev pub mh_magic64 : ℕ
mh_magic64 = 0xfeedfacf

abbrev pub mh_object : ℕ
mh_object = 1

abbrev pub mh_subsections_via_symbols : ℕ
mh_subsections_via_symbols = 0x2000

abbrev pub lc_segment64 : ℕ
lc_segment64 = 0x19

abbrev pub lc_symtab : ℕ
lc_symtab = 2

abbrev pub lc_build_version : ℕ
lc_build_version = 0x32

abbrev pub vm_prot_read : ℕ
vm_prot_read = 1

abbrev pub vm_prot_write : ℕ
vm_prot_write = 2

abbrev pub vm_prot_execute : ℕ
vm_prot_execute = 4

abbrev pub n_undf : ℕ
n_undf = 0

abbrev pub n_sect : ℕ
n_sect = 0xe

abbrev pub n_ext : ℕ
n_ext = 1

abbrev pub n_weak_def : ℕ
n_weak_def = 0x80

abbrev pub no_sect : ℕ
no_sect = 0

-- The fields of machHeader64 that differ from file to file.
pub record MachHeader : Type 0 where
  pub cpu_type : ℕ
  pub cpu_subtype : ℕ
  pub n_cmds : ℕ
  pub size_of_cmds : ℕ

unfoldable pub encode_mach_header : MachHeader → Bytes
encode_mach_header h =
    put_le 4 mh_magic64
    ++ (put_le 4 h.cpu_type
        ++ (put_le 4 h.cpu_subtype
            ++ (put_le 4 mh_object
                ++ (put_le 4 h.n_cmds
                    ++ (put_le 4 h.size_of_cmds
                        ++ (put_le 4 mh_subsections_via_symbols ++ put_le 4 0))))))

-- The fields of segmentCommand64 that differ from file to file.
pub record SegmentCommand : Type 0 where
  pub cmd_size : ℕ
  pub vm_size : ℕ
  pub file_off : ℕ
  pub file_size : ℕ
  pub n_sects : ℕ

-- vmProtRead | vmProtWrite | vmProtExecute
unfoldable pub all_prot : ℕ
all_prot = bit_or (bit_or vm_prot_read vm_prot_write) vm_prot_execute

-- The name is 16 zeros, that of the unnamed segment.
unfoldable pub encode_segment : SegmentCommand → Bytes
encode_segment s =
    put_le 4 lc_segment64
    ++ (put_le 4 s.cmd_size
        ++ (replicate 16 0
            ++ (put_le 8 0
                ++ (put_le 8 s.vm_size
                    ++ (put_le 8 s.file_off
                        ++ (put_le 8 s.file_size
                            ++ (put_le 4 all_prot
                                ++ (put_le 4 all_prot ++ (put_le 4 s.n_sects ++ put_le 4 0)))))))))

-- section64 without the address and the reserved fields, which are zero; names are 16 bytes.
pub record SectionHdr : Type 0 where
  pub sect_name : Bytes
  pub seg_name : Bytes
  pub size : ℕ
  pub offset : ℕ
  pub align : ℕ
  pub rel_off : ℕ
  pub n_reloc : ℕ
  pub flags : ℕ

unfoldable pub encode_section : SectionHdr → Bytes
encode_section s =
    s.sect_name
    ++ (s.seg_name
        ++ (put_le 8 0
            ++ (put_le 8 s.size
                ++ (put_le 4 s.offset
                    ++ (put_le 4 s.align
                        ++ (put_le 4 s.rel_off
                            ++ (put_le 4 s.n_reloc
                                ++ (put_le 4 s.flags
                                    ++ (put_le 4 0 ++ (put_le 4 0 ++ put_le 4 0))))))))))

-- symtabCommand
pub record SymtabCommand : Type 0 where
  pub sym_off : ℕ
  pub n_syms : ℕ
  pub str_off : ℕ
  pub str_size : ℕ

unfoldable pub encode_symtab : SymtabCommand → Bytes
encode_symtab c =
    put_le 4 lc_symtab
    ++ (put_le 4 symtab_cmd_size
        ++ (put_le 4 c.sym_off
            ++ (put_le 4 c.n_syms ++ (put_le 4 c.str_off ++ put_le 4 c.str_size))))

-- buildVersionCommand, of a platform, a version and an SDK.
unfoldable pub encode_build_version : ℕ → ℕ → ℕ → Bytes
encode_build_version platform min_os sdk =
    put_le 4 lc_build_version
    ++ (put_le 4 build_ver_cmd_size
        ++ (put_le 4 platform ++ (put_le 4 min_os ++ (put_le 4 sdk ++ put_le 4 0))))

-- nlist64
pub record Nlist : Type 0 where
  pub n_strx : ℕ
  pub n_type : ℕ
  pub sect : ℕ
  pub n_desc : ℕ
  pub n_value : ℕ

unfoldable pub encode_nlist : Nlist → Bytes
encode_nlist s =
    put_le 4 s.n_strx
    ++ (put_le 1 s.n_type ++ (put_le 1 s.sect ++ (put_le 2 s.n_desc ++ put_le 8 s.n_value)))

-- relocInfo
pub record RelocInfo : Type 0 where
  pub r_address : ℕ
  pub r_info : ℕ

unfoldable pub encode_reloc : RelocInfo → Bytes
encode_reloc r = put_le 4 r.r_address ++ put_le 4 r.r_info

-- packRelocInfo; the shifts are uint32s.
unfoldable pub pack_reloc_info : ℕ → Bool → ℕ → Bool → ℕ → ℕ
pack_reloc_info symbol_num pcrel width extern rtype =
    let numbered = bit_or 0 (bit_and symbol_num 0xffffff) in
    let relative = if pcrel then bit_or numbered (2 ^ 24) else numbered in
    let sized = bit_or relative (u32 (bit_and width 0x3 * 2 ^ 25)) in
    let external = if extern then bit_or sized (2 ^ 27) else sized in
    bit_or external (u32 (bit_and rtype 0xf * 2 ^ 28))

-- copyPaddedName into an array of 16 bytes.
unfoldable pub copy_padded_name : Bytes → Bytes
copy_padded_name name = take 16 name ++ replicate (16 - length name) 0

-- for v >>= 1; v > 0; v >>= 1 { n++ }
unfoldable pub log_loop : ℕ → ℕ → ℕ → ℕ
log_loop zero v n = n
log_loop (suc fuel) v n = let rest = log_loop fuel (v / 2) (n + 1) in if ltb 0 v then rest else n

-- log2; the loop ends within `v` rounds, since it halves `v`.
unfoldable pub log2 : ℕ → ℕ
log2 v = if leb v 1 then 0 else log_loop v (v / 2) 0
