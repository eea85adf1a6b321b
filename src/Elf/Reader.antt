-- ===== src/Elf/Reader.antt =====
-- A reader of ELF files, stated apart from the package: it takes the offset of the section headers from
-- the file header. What it needs of a class is an interface that both classes fill.
use objectfile.Prelude.{ℕ, ◌+◌, ◌*◌, ◌^◌, ◌≤◌, ◌≡◌, ◌++◌, arith, slice}
use objectfile.Prelude.Bytes.{Bytes}
use objectfile.Elf.Format.{Class, Ehdr, Shdr, class64, class32}
use objectfile.Elf.Format.Headers.{
  FitsShdr, FitsEhdr, decode_shdr64, decode_shdr32, decode_ehdr64, decode_ehdr32,
  decode_shdr64-encode_shdr64, decode_shdr32-encode_shdr32, decode_ehdr64-encode_ehdr64,
  decode_ehdr32-encode_ehdr32,
}

-- Readers of the headers of a class, whose words have `word` bits.
pub record Reads (c : Class) : Type 0 where
  pub word : ℕ
  pub word_le : 2 ^ word ≤ 2 ^ 64
  pub decode_ehdr : Bytes → Ehdr
  pub decode_shdr : Bytes → Shdr
  pub read_ehdr :
      (h : Ehdr) (rest : Bytes) → FitsEhdr word h → decode_ehdr (c.encode_ehdr h ++ rest) ≡ h
  pub read_shdr : (s : Shdr) → FitsShdr word s → decode_shdr (c.encode_shdr s) ≡ s

abbrev pub class64-Reads : Reads class64
class64-Reads = record {
  word = 64;
  word_le = omega arith;
  decode_ehdr = decode_ehdr64;
  decode_shdr = decode_shdr64;
  read_ehdr = decode_ehdr64-encode_ehdr64;
  read_shdr = decode_shdr64-encode_shdr64;
}

abbrev pub class32-Reads : Reads class32
class32-Reads = record {
  word = 32;
  word_le = omega arith;
  decode_ehdr = decode_ehdr32;
  decode_shdr = decode_shdr32;
  read_ehdr = decode_ehdr32-encode_ehdr32;
  read_shdr = decode_shdr32-encode_shdr32;
}

-- The header at an index of the section header table.
abbrev pub section_hdr : (c : Class) → Reads c → Bytes → ℕ → Shdr
section_hdr c r file i =
    r.decode_shdr (slice ((r.decode_ehdr file).shoff + i * c.shdr_size) c.shdr_size file)
