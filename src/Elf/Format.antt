-- ===== src/Elf/Format.antt =====
-- The ELF structures of elf/write.go and their bytes, field by field as binary.Write puts them out.
-- The two classes differ in the structures alone, so a `Class` holds the four encodings and the
-- sizes, and the rest of the package is written once over it.
pub mod Decode
pub mod Headers
use objectfile.Prelude.{ℕ, ◌*◌, ◌%◌, ◌^◌, List, [], ◌∷◌, ◌++◌, Bool, bit_and, bit_or}
use objectfile.Prelude.Bits.{u8, u16, u32, u64}
use objectfile.Prelude.Bytes.{Bytes, put_le}
use objectfile.Prelude.Int.{ℤ, int64_bits, int32_bits}
use objectfile.Elf.Consts.{
  elf_class32, elf_class64, elf_data2_lsb, ev_current, et_rel, ehdr_size64, shdr_size64, sym_size64,
  rela_size64, ehdr_size32, shdr_size32, sym_size32, rela_size32,
}

-- stInfo, on uint8s
unfoldable pub st_info : ℕ → ℕ → ℕ
st_info bind typ = bit_or (u8 (bind * 2 ^ 4)) (bit_and typ 0xf)

-- rinfo64, on uint64s
unfoldable pub rinfo64 : ℕ → ℕ → ℕ
rinfo64 sym typ = bit_or (u64 (sym * 2 ^ 32)) typ

-- rinfo32, on uint32s
unfoldable pub rinfo32 : ℕ → ℕ → ℕ
rinfo32 sym typ = bit_or (u32 (sym * 2 ^ 8)) (bit_and typ 0xff)

-- The fields of elf64Ehdr and elf32Ehdr that the code sets; the others are zero.
pub record Ehdr : Type 0 where
  pub class : ℕ
  pub osabi : ℕ
  pub machine : ℕ
  pub shoff : ℕ
  pub shnum : ℕ
  pub shstrndx : ℕ

-- elf64Shdr and elf32Shdr; sh_addr is always zero.
pub record Shdr : Type 0 where
  pub name : ℕ
  pub sh_type : ℕ
  pub flags : ℕ
  pub offset : ℕ
  pub size : ℕ
  pub link : ℕ
  pub info : ℕ
  pub addralign : ℕ
  pub entsize : ℕ

-- elf64Sym and elf32Sym; st_other is always zero.
pub record Sym : Type 0 where
  pub name : ℕ
  pub info : ℕ
  pub shndx : ℕ
  pub value : ℕ
  pub size : ℕ

-- A relocation before r_info is packed.
pub record Rela : Type 0 where
  pub offset : ℕ
  pub sym : ℕ
  pub typ : ℕ
  pub addend : ℤ

abbrev pub zero_shdr : Shdr
zero_shdr = record {
  name = 0;
  sh_type = 0;
  flags = 0;
  offset = 0;
  size = 0;
  link = 0;
  info = 0;
  addralign = 0;
  entsize = 0;
}

abbrev pub zero_sym : Sym
zero_sym = record { name = 0; info = 0; shndx = 0; value = 0; size = 0 }

-- e_ident, with the class and the OS/ABI
unfoldable pub ident : ℕ → ℕ → Bytes
ident class osabi =
    0x7f ∷ b'E' ∷ b'L' ∷ b'F' ∷ class ∷ elf_data2_lsb ∷ ev_current ∷ u8 osabi ∷ put_le 8 0

unfoldable pub encode_ehdr64 : Ehdr → Bytes
unfolding ident
encode_ehdr64 h =
    ident h.class h.osabi
    ++ (put_le 2 et_rel
        ++ (put_le 2 h.machine
            ++ (put_le 4 ev_current
                ++ (put_le 8 0
                    ++ (put_le 8 0
                        ++ (put_le 8 h.shoff
                            ++ (put_le 4 0
                                ++ (put_le 2 ehdr_size64
                                    ++ (put_le 2 0
                                        ++ (put_le 2 0
                                            ++ (put_le 2 shdr_size64
                                                ++ (put_le 2 h.shnum
                                                    ++ put_le 2 h.shstrndx))))))))))))

unfoldable pub encode_ehdr32 : Ehdr → Bytes
unfolding ident
encode_ehdr32 h =
    ident h.class h.osabi
    ++ (put_le 2 et_rel
        ++ (put_le 2 h.machine
            ++ (put_le 4 ev_current
                ++ (put_le 4 0
                    ++ (put_le 4 0
                        ++ (put_le 4 (u32 h.shoff)
                            ++ (put_le 4 0
                                ++ (put_le 2 ehdr_size32
                                    ++ (put_le 2 0
                                        ++ (put_le 2 0
                                            ++ (put_le 2 shdr_size32
                                                ++ (put_le 2 h.shnum
                                                    ++ put_le 2 h.shstrndx))))))))))))

unfoldable pub encode_shdr64 : Shdr → Bytes
encode_shdr64 s =
    put_le 4 s.name
    ++ (put_le 4 s.sh_type
        ++ (put_le 8 s.flags
            ++ (put_le 8 0
                ++ (put_le 8 s.offset
                    ++ (put_le 8 s.size
                        ++ (put_le 4 s.link
                            ++ (put_le 4 s.info
                                ++ (put_le 8 s.addralign ++ put_le 8 s.entsize))))))))

-- The 64-bit fields are cut to 32 bits.
unfoldable pub encode_shdr32 : Shdr → Bytes
encode_shdr32 s =
    put_le 4 s.name
    ++ (put_le 4 s.sh_type
        ++ (put_le 4 (u32 s.flags)
            ++ (put_le 4 0
                ++ (put_le 4 (u32 s.offset)
                    ++ (put_le 4 (u32 s.size)
                        ++ (put_le 4 s.link
                            ++ (put_le 4 s.info
                                ++ (put_le 4 (u32 s.addralign) ++ put_le 4 (u32 s.entsize)))))))))

unfoldable pub encode_sym64 : Sym → Bytes
encode_sym64 s =
    put_le 4 s.name
    ++ (put_le 1 s.info
        ++ (put_le 1 0 ++ (put_le 2 s.shndx ++ (put_le 8 s.value ++ put_le 8 s.size))))

-- ELF32 places the value and the size before the others.
unfoldable pub encode_sym32 : Sym → Bytes
encode_sym32 s =
    put_le 4 s.name
    ++ (put_le 4 (u32 s.value)
        ++ (put_le 4 (u32 s.size) ++ (put_le 1 s.info ++ (put_le 1 0 ++ put_le 2 s.shndx))))

unfoldable pub encode_rela64 : Rela → Bytes
encode_rela64 r =
    put_le 8 r.offset ++ (put_le 8 (rinfo64 r.sym r.typ) ++ put_le 8 (int64_bits r.addend))

-- The addend is cut to an int32.
unfoldable pub encode_rela32 : Rela → Bytes
encode_rela32 r =
    put_le 4 (u32 r.offset) ++ (put_le 4 (rinfo32 r.sym r.typ) ++ put_le 4 (int32_bits r.addend))

-- What build64 and build32 do not share: the structures, their sizes, and the alignment of a word.
pub record Class : Type 0 where
  pub elf_class : ℕ
  pub word_align : ℕ
  pub ehdr_size : ℕ
  pub shdr_size : ℕ
  pub sym_size : ℕ
  pub rela_size : ℕ
  pub encode_ehdr : Ehdr → Bytes
  pub encode_shdr : Shdr → Bytes
  pub encode_sym : Sym → Bytes
  pub encode_rela : Rela → Bytes

abbrev pub class64 : Class
class64 = record {
  elf_class = elf_class64;
  word_align = 8;
  ehdr_size = ehdr_size64;
  shdr_size = shdr_size64;
  sym_size = sym_size64;
  rela_size = rela_size64;
  encode_ehdr = encode_ehdr64;
  encode_shdr = encode_shdr64;
  encode_sym = encode_sym64;
  encode_rela = encode_rela64;
}

abbrev pub class32 : Class
class32 = record {
  elf_class = elf_class32;
  word_align = 4;
  ehdr_size = ehdr_size32;
  shdr_size = shdr_size32;
  sym_size = sym_size32;
  rela_size = rela_size32;
  encode_ehdr = encode_ehdr32;
  encode_shdr = encode_shdr32;
  encode_sym = encode_sym32;
  encode_rela = encode_rela32;
}
