-- ===== src/Elf/Format/Headers.antt =====
-- Readers of the ELF file header and section headers, and that they give back what is put out.
use objectfile.Prelude.{ℕ, ◌^◌, ◌<◌, ◌≡◌, refl, ◌∙◌, [], ◌∷◌, ◌++◌, arith, length}
use objectfile.Prelude.Bits.{u8}
use objectfile.Prelude.Bytes.{Bytes, put_le, get_le, get_le-put_le}
use objectfile.Elf.Format.{
  Ehdr, Shdr, Sym, Rela, Class, class64, class32, encode_shdr64, encode_shdr32, encode_ehdr64,
  encode_ehdr32, encode_sym64, encode_sym32, encode_rela64, encode_rela32,
}
use objectfile.Elf.Format.Decode.{field, cut_field}

unfoldable pub decode_shdr64 : Bytes → Shdr
decode_shdr64 b = record {
  name = field 0 4 b;
  sh_type = field 4 4 b;
  flags = field 8 8 b;
  offset = field 24 8 b;
  size = field 32 8 b;
  link = field 40 4 b;
  info = field 44 4 b;
  addralign = field 48 8 b;
  entsize = field 56 8 b;
}

unfoldable pub decode_shdr32 : Bytes → Shdr
decode_shdr32 b = record {
  name = field 0 4 b;
  sh_type = field 4 4 b;
  flags = field 8 4 b;
  offset = field 16 4 b;
  size = field 20 4 b;
  link = field 24 4 b;
  info = field 28 4 b;
  addralign = field 32 4 b;
  entsize = field 36 4 b;
}

-- The fields fit their places in a section header with words of `w` bits.
pub record FitsShdr (w : ℕ) (s : Shdr) : Type 0 where
  pub name : s.name < 2 ^ 32
  pub sh_type : s.sh_type < 2 ^ 32
  pub flags : s.flags < 2 ^ w
  pub offset : s.offset < 2 ^ w
  pub size : s.size < 2 ^ w
  pub link : s.link < 2 ^ 32
  pub info : s.info < 2 ^ 32
  pub addralign : s.addralign < 2 ^ w
  pub entsize : s.entsize < 2 ^ w

-- An elf64Shdr whose fields fit is read back.
pub decode_shdr64-encode_shdr64 : (s : Shdr) → FitsShdr 64 s → decode_shdr64 (encode_shdr64 s) ≡ s
unfolding decode_shdr64 encode_shdr64 put_le
decode_shdr64-encode_shdr64 s h = λ i. record {
  name = get_le-put_le 4 s.name (omega (arith, h.name)) i;
  sh_type = get_le-put_le 4 s.sh_type (omega (arith, h.sh_type)) i;
  flags = get_le-put_le 8 s.flags (omega (arith, h.flags)) i;
  offset = get_le-put_le 8 s.offset (omega (arith, h.offset)) i;
  size = get_le-put_le 8 s.size (omega (arith, h.size)) i;
  link = get_le-put_le 4 s.link (omega (arith, h.link)) i;
  info = get_le-put_le 4 s.info (omega (arith, h.info)) i;
  addralign = get_le-put_le 8 s.addralign (omega (arith, h.addralign)) i;
  entsize = get_le-put_le 8 s.entsize (omega (arith, h.entsize)) i;
}

-- An elf32Shdr is read back where its words, which are cut to 32 bits, fit them.
pub decode_shdr32-encode_shdr32 : (s : Shdr) → FitsShdr 32 s → decode_shdr32 (encode_shdr32 s) ≡ s
unfolding decode_shdr32 encode_shdr32 put_le
decode_shdr32-encode_shdr32 s h = λ i. record {
  name = get_le-put_le 4 s.name (omega (arith, h.name)) i;
  sh_type = get_le-put_le 4 s.sh_type (omega (arith, h.sh_type)) i;
  flags = cut_field s.flags h.flags i;
  offset = cut_field s.offset h.offset i;
  size = cut_field s.size h.size i;
  link = get_le-put_le 4 s.link (omega (arith, h.link)) i;
  info = get_le-put_le 4 s.info (omega (arith, h.info)) i;
  addralign = cut_field s.addralign h.addralign i;
  entsize = cut_field s.entsize h.entsize i;
}

unfoldable pub decode_ehdr64 : Bytes → Ehdr
decode_ehdr64 b = record {
  class = field 4 1 b;
  osabi = field 7 1 b;
  machine = field 18 2 b;
  shoff = field 40 8 b;
  shnum = field 60 2 b;
  shstrndx = field 62 2 b;
}

unfoldable pub decode_ehdr32 : Bytes → Ehdr
decode_ehdr32 b = record {
  class = field 4 1 b;
  osabi = field 7 1 b;
  machine = field 18 2 b;
  shoff = field 32 4 b;
  shnum = field 48 2 b;
  shstrndx = field 50 2 b;
}

-- The fields fit their places in a file header with words of `w` bits.
pub record FitsEhdr (w : ℕ) (h : Ehdr) : Type 0 where
  pub osabi : h.osabi < 2 ^ 8
  pub machine : h.machine < 2 ^ 16
  pub shoff : h.shoff < 2 ^ w
  pub shnum : h.shnum < 2 ^ 16
  pub shstrndx : h.shstrndx < 2 ^ 16

one_byte : (b : ℕ) → get_le (b ∷ []) ≡ b
unfolding get_le
one_byte b = omega arith

byte_field : (b : ℕ) → b < 2 ^ 8 → get_le (u8 b ∷ []) ≡ b
byte_field b h = one_byte (u8 b) ∙ omega arith

-- An ELF64 file header whose fields fit is read back, whatever stands behind it.
pub decode_ehdr64-encode_ehdr64 :
    (h : Ehdr) (rest : Bytes) → FitsEhdr 64 h → decode_ehdr64 (encode_ehdr64 h ++ rest) ≡ h
unfolding decode_ehdr64 encode_ehdr64 put_le
decode_ehdr64-encode_ehdr64 h rest fits = λ i. record {
  class = one_byte h.class i;
  osabi = byte_field h.osabi fits.osabi i;
  machine = get_le-put_le 2 h.machine (omega (arith, fits.machine)) i;
  shoff = get_le-put_le 8 h.shoff (omega (arith, fits.shoff)) i;
  shnum = get_le-put_le 2 h.shnum (omega (arith, fits.shnum)) i;
  shstrndx = get_le-put_le 2 h.shstrndx (omega (arith, fits.shstrndx)) i;
}

-- An ELF32 file header whose fields fit is read back, whatever stands behind it.
pub decode_ehdr32-encode_ehdr32 :
    (h : Ehdr) (rest : Bytes) → FitsEhdr 32 h → decode_ehdr32 (encode_ehdr32 h ++ rest) ≡ h
unfolding decode_ehdr32 encode_ehdr32 put_le
decode_ehdr32-encode_ehdr32 h rest fits = λ i. record {
  class = one_byte h.class i;
  osabi = byte_field h.osabi fits.osabi i;
  machine = get_le-put_le 2 h.machine (omega (arith, fits.machine)) i;
  shoff = cut_field h.shoff fits.shoff i;
  shnum = get_le-put_le 2 h.shnum (omega (arith, fits.shnum)) i;
  shstrndx = get_le-put_le 2 h.shstrndx (omega (arith, fits.shstrndx)) i;
}

-- The structures have the sizes that the package writes into the file header.
pub record HasSizes (c : Class) : Type 0 where
  pub ehdr : (h : Ehdr) → length (c.encode_ehdr h) ≡ c.ehdr_size
  pub shdr : (s : Shdr) → length (c.encode_shdr s) ≡ c.shdr_size
  pub sym : (s : Sym) → length (c.encode_sym s) ≡ c.sym_size
  pub rela : (r : Rela) → length (c.encode_rela r) ≡ c.rela_size

pub class64-HasSizes : HasSizes class64
unfolding encode_ehdr64 encode_shdr64 encode_sym64 encode_rela64 put_le
class64-HasSizes = record { ehdr = λ h. refl; shdr = λ s. refl; sym = λ s. refl; rela = λ r. refl }

pub class32-HasSizes : HasSizes class32
unfolding encode_ehdr32 encode_shdr32 encode_sym32 encode_rela32 put_le
class32-HasSizes = record { ehdr = λ h. refl; shdr = λ s. refl; sym = λ s. refl; rela = λ r. refl }
