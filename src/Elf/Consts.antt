-- ===== src/Elf/Consts.antt =====
-- The numbers of elf/elf.go and elf/write.go under their names in the source.
use objectfile.Prelude.{ℕ}

-- e_ident and e_machine
abbrev pub elf_class32 : ℕ
elf_class32 = 1

abbrev pub elf_class64 : ℕ
elf_class64 = 2

abbrev pub elf_data2_lsb : ℕ
elf_data2_lsb = 1

abbrev pub ev_current : ℕ
ev_current = 1

abbrev pub et_rel : ℕ
et_rel = 1

abbrev pub em_i386 : ℕ
em_i386 = 3

abbrev pub em_x86_64 : ℕ
em_x86_64 = 62

abbrev pub em_aarch64 : ℕ
em_aarch64 = 183

abbrev pub em_riscv : ℕ
em_riscv = 243

abbrev pub osabi_none : ℕ
osabi_none = 0

-- section types
abbrev pub sht_null : ℕ
sht_null = 0

abbrev pub sht_prog_bits : ℕ
sht_prog_bits = 1

abbrev pub sht_sym_tab : ℕ
sht_sym_tab = 2

abbrev pub sht_str_tab : ℕ
sht_str_tab = 3

abbrev pub sht_rela : ℕ
sht_rela = 4

abbrev pub sht_no_bits : ℕ
sht_no_bits = 8

abbrev pub sht_init_array : ℕ
sht_init_array = 14

abbrev pub sht_fini_array : ℕ
sht_fini_array = 15

abbrev pub sht_group : ℕ
sht_group = 17

-- section flags and special section indices
abbrev pub shf_write : ℕ
shf_write = 0x1

abbrev pub shf_alloc : ℕ
shf_alloc = 0x2

abbrev pub shf_exec_instr : ℕ
shf_exec_instr = 0x4

abbrev pub shf_info_link : ℕ
shf_info_link = 0x40

abbrev pub shf_tls : ℕ
shf_tls = 0x400

abbrev pub shn_undef : ℕ
shn_undef = 0

abbrev pub shn_abs : ℕ
shn_abs = 0xfff1

-- symbol bindings and types
abbrev pub stb_local : ℕ
stb_local = 0

abbrev pub stb_global : ℕ
stb_global = 1

abbrev pub stb_weak : ℕ
stb_weak = 2

abbrev pub stt_notype : ℕ
stt_notype = 0

abbrev pub stt_object : ℕ
stt_object = 1

abbrev pub stt_func : ℕ
stt_func = 2

abbrev pub stt_section : ℕ
stt_section = 3

-- relocation types
abbrev pub r_x86_64_64 : ℕ
r_x86_64_64 = 1

abbrev pub r_x86_64_pc32 : ℕ
r_x86_64_pc32 = 2

abbrev pub r_x86_64_plt32 : ℕ
r_x86_64_plt32 = 4

abbrev pub r_x86_64_gotpcrel : ℕ
r_x86_64_gotpcrel = 9

abbrev pub r_x86_64_32 : ℕ
r_x86_64_32 = 10

abbrev pub r_x86_64_tlsgd : ℕ
r_x86_64_tlsgd = 19

abbrev pub r_x86_64_gottpoff : ℕ
r_x86_64_gottpoff = 22

abbrev pub r_x86_64_tpoff32 : ℕ
r_x86_64_tpoff32 = 23

abbrev pub r_aarch64_abs64 : ℕ
r_aarch64_abs64 = 257

abbrev pub r_aarch64_abs32 : ℕ
r_aarch64_abs32 = 258

abbrev pub r_aarch64_adr_prel_pg_hi21 : ℕ
r_aarch64_adr_prel_pg_hi21 = 275

abbrev pub r_aarch64_add_abs_lo12_nc : ℕ
r_aarch64_add_abs_lo12_nc = 277

abbrev pub r_aarch64_call26 : ℕ
r_aarch64_call26 = 283

abbrev pub r_aarch64_adr_got_page : ℕ
r_aarch64_adr_got_page = 311

abbrev pub r_aarch64_ld64_got_lo12_nc : ℕ
r_aarch64_ld64_got_lo12_nc = 312

abbrev pub r_aarch64_tlsgd_adr_page21 : ℕ
r_aarch64_tlsgd_adr_page21 = 513

abbrev pub r_aarch64_tlsie_adr_gottprel_page21 : ℕ
r_aarch64_tlsie_adr_gottprel_page21 = 541

abbrev pub r_aarch64_tlsle_add_tprel_lo12_nc : ℕ
r_aarch64_tlsle_add_tprel_lo12_nc = 554

abbrev pub r_386_32 : ℕ
r_386_32 = 1

abbrev pub r_386_pc32 : ℕ
r_386_pc32 = 2

abbrev pub r_386_got32 : ℕ
r_386_got32 = 3

abbrev pub r_riscv_32 : ℕ
r_riscv_32 = 1

abbrev pub r_riscv_64 : ℕ
r_riscv_64 = 2

abbrev pub r_riscv_call_plt : ℕ
r_riscv_call_plt = 19

abbrev pub r_riscv_tls_got_hi20 : ℕ
r_riscv_tls_got_hi20 = 21

abbrev pub r_riscv_tls_gd_hi20 : ℕ
r_riscv_tls_gd_hi20 = 22

abbrev pub r_riscv_hi20 : ℕ
r_riscv_hi20 = 26

abbrev pub r_riscv_lo12_i : ℕ
r_riscv_lo12_i = 27

abbrev pub r_riscv_lo12_s : ℕ
r_riscv_lo12_s = 28

abbrev pub r_riscv_tprel_hi20 : ℕ
r_riscv_tprel_hi20 = 29

-- structure sizes
abbrev pub ehdr_size64 : ℕ
ehdr_size64 = 64

abbrev pub shdr_size64 : ℕ
shdr_size64 = 64

abbrev pub sym_size64 : ℕ
sym_size64 = 24

abbrev pub rela_size64 : ℕ
rela_size64 = 24

abbrev pub ehdr_size32 : ℕ
ehdr_size32 = 52

abbrev pub shdr_size32 : ℕ
shdr_size32 = 40

abbrev pub sym_size32 : ℕ
sym_size32 = 16

abbrev pub rela_size32 : ℕ
rela_size32 = 12
