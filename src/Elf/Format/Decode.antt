-- ===== src/Elf/Format/Decode.antt =====
-- Readers of the ELF structures, and that they give back what elf/write.go puts out.
use objectfile.Prelude.{ℕ, ◌/◌, ◌%◌, ◌^◌, ◌<◌, ◌≡◌, ap, ◌∙◌, arith, slice}
use objectfile.Prelude.Bits.{u32, bit_or_shifted, bit_and_mask}
use objectfile.Prelude.Bytes.{Bytes, put_le, get_le, get_le-put_le}
use objectfile.Prelude.Int.{
  IsInt64, IsInt32, int64_bits, int32_bits, int64_of_bits, int32_of_bits, int64_of_bits-int64_bits,
  int32_of_bits-int32_bits, int64_bits-lt, int32_bits-lt,
}
use objectfile.Elf.Format.{
  st_info, rinfo64, rinfo32, Sym, Rela, encode_sym64, encode_sym32, encode_rela64, encode_rela32,
}

-- The two halves of st_info.
pub st_info_parts :
    (bind typ : ℕ)
    → bind < 16
    → typ < 16
    → (st_info bind typ / 16 ≡ bind) × (st_info bind typ % 16 ≡ typ)
unfolding st_info
st_info_parts bind typ h k = ground (arith, bit_and_mask 4 typ, bit_or_shifted 4 bind typ)

pub rinfo64_parts :
    (s typ : ℕ)
    → s < 2 ^ 32
    → typ < 2 ^ 32
    → (rinfo64 s typ / 2 ^ 32 ≡ s) × (rinfo64 s typ % 2 ^ 32 ≡ typ) × (rinfo64 s typ < 2 ^ 64)
unfolding rinfo64
rinfo64_parts s typ h k = ground (arith, bit_or_shifted 32 s typ)

pub rinfo32_parts :
    (s typ : ℕ)
    → s < 2 ^ 24
    → (rinfo32 s typ / 2 ^ 8 ≡ s) × (rinfo32 s typ % 2 ^ 8 ≡ typ % 2 ^ 8) × (rinfo32 s typ < 2 ^ 32)
unfolding rinfo32
rinfo32_parts s typ h = ground (arith, bit_and_mask 8 typ, bit_or_shifted 8 s (typ % 256))

-- A number of `n` bytes at position `i`.
abbrev pub field : ℕ → ℕ → Bytes → ℕ
field i n bytes = get_le (slice i n bytes)

unfoldable pub decode_sym64 : Bytes → Sym
decode_sym64 b = record {
  name = field 0 4 b;
  info = field 4 1 b;
  shndx = field 6 2 b;
  value = field 8 8 b;
  size = field 16 8 b;
}

unfoldable pub decode_sym32 : Bytes → Sym
decode_sym32 b = record {
  name = field 0 4 b;
  info = field 12 1 b;
  shndx = field 14 2 b;
  value = field 4 4 b;
  size = field 8 4 b;
}

-- The fields fit their places in the structure, with words of `w` bits.
pub record FitsSym (w : ℕ) (s : Sym) : Type 0 where
  pub name : s.name < 2 ^ 32
  pub info : s.info < 2 ^ 8
  pub shndx : s.shndx < 2 ^ 16
  pub value : s.value < 2 ^ w
  pub size : s.size < 2 ^ w

-- An elf64Sym whose fields fit is read back field by field.
pub decode_sym64-encode_sym64 : (s : Sym) → FitsSym 64 s → decode_sym64 (encode_sym64 s) ≡ s
unfolding decode_sym64 encode_sym64 put_le
decode_sym64-encode_sym64 s h = λ i. record {
  name = get_le-put_le 4 s.name (omega (arith, h.name)) i;
  info = get_le-put_le 1 s.info (omega (arith, h.info)) i;
  shndx = get_le-put_le 2 s.shndx (omega (arith, h.shndx)) i;
  value = get_le-put_le 8 s.value (omega (arith, h.value)) i;
  size = get_le-put_le 8 s.size (omega (arith, h.size)) i;
}

-- A field that is cut to 32 bits and fits them is read back.
pub cut_field : (v : ℕ) → v < 2 ^ 32 → get_le (put_le 4 (u32 v)) ≡ v
cut_field v h = get_le-put_le 4 (u32 v) (omega arith) ∙ omega arith

-- An elf32Sym whose fields fit is read back, for all that ELF32 orders its fields otherwise.
pub decode_sym32-encode_sym32 : (s : Sym) → FitsSym 32 s → decode_sym32 (encode_sym32 s) ≡ s
unfolding decode_sym32 encode_sym32 put_le
decode_sym32-encode_sym32 s h = λ i. record {
  name = get_le-put_le 4 s.name (omega (arith, h.name)) i;
  info = get_le-put_le 1 s.info (omega (arith, h.info)) i;
  shndx = get_le-put_le 2 s.shndx (omega (arith, h.shndx)) i;
  value = cut_field s.value h.value i;
  size = cut_field s.size h.size i;
}

unfoldable pub decode_rela64 : Bytes → Rela
decode_rela64 b = record {
  offset = field 0 8 b;
  sym = field 8 8 b / 2 ^ 32;
  typ = field 8 8 b % 2 ^ 32;
  addend = int64_of_bits (field 16 8 b);
}

unfoldable pub decode_rela32 : Bytes → Rela
decode_rela32 b = record {
  offset = field 0 4 b;
  sym = field 4 4 b / 2 ^ 8;
  typ = field 4 4 b % 2 ^ 8;
  addend = int32_of_bits (field 8 4 b);
}

-- A relocation whose parts fit elf64Rela, and elf32Rela.
pub record FitsRela64 (r : Rela) : Type 0 where
  pub offset : r.offset < 2 ^ 32
  pub sym : r.sym < 2 ^ 32
  pub typ : r.typ < 2 ^ 32
  pub addend : IsInt64 r.addend

pub record FitsRela32 (r : Rela) : Type 0 where
  pub offset : r.offset < 2 ^ 32
  pub sym : r.sym < 2 ^ 24
  pub typ : r.typ < 2 ^ 8
  pub addend : IsInt32 r.addend

-- An elf64Rela whose parts fit is read back: offset, symbol, type and signed addend.
pub decode_rela64-encode_rela64 : (r : Rela) → FitsRela64 r → decode_rela64 (encode_rela64 r) ≡ r
unfolding decode_rela64 encode_rela64 put_le
decode_rela64-encode_rela64 r h =
    let parts = rinfo64_parts r.sym r.typ h.sym h.typ in
    let word : get_le (put_le 8 (rinfo64 r.sym r.typ)) ≡ rinfo64 r.sym r.typ =
      get_le-put_le 8 (rinfo64 r.sym r.typ) (omega (arith, parts.2)) in
    let bits : get_le (put_le 8 (int64_bits r.addend)) ≡ int64_bits r.addend =
      get_le-put_le 8 (int64_bits r.addend) (omega (arith, int64_bits-lt r.addend)) in
    λ i. record {
      offset = get_le-put_le 8 r.offset (omega (arith, h.offset)) i;
      sym = (ap (λ t. t / 2 ^ 32) word ∙ parts.0) i;
      typ = (ap (λ t. t % 2 ^ 32) word ∙ parts.1) i;
      addend = (ap int64_of_bits bits ∙ int64_of_bits-int64_bits r.addend h.addend) i;
    }

-- An elf32Rela is read back where the symbol fits 24 bits, the type 8 and the addend an int32.
pub decode_rela32-encode_rela32 : (r : Rela) → FitsRela32 r → decode_rela32 (encode_rela32 r) ≡ r
unfolding decode_rela32 encode_rela32 put_le
decode_rela32-encode_rela32 r h =
    let parts = rinfo32_parts r.sym r.typ h.sym in
    let word : get_le (put_le 4 (rinfo32 r.sym r.typ)) ≡ rinfo32 r.sym r.typ =
      get_le-put_le 4 (rinfo32 r.sym r.typ) (omega (arith, parts.2)) in
    let bits : get_le (put_le 4 (int32_bits r.addend)) ≡ int32_bits r.addend =
      get_le-put_le 4 (int32_bits r.addend) (omega (arith, int32_bits-lt r.addend)) in
    let kept : rinfo32 r.sym r.typ % 2 ^ 8 ≡ r.typ = omega (arith, parts.1, h.typ) in
    λ i. record {
      offset = cut_field r.offset h.offset i;
      sym = (ap (λ t. t / 2 ^ 8) word ∙ parts.0) i;
      typ = (ap (λ t. t % 2 ^ 8) word ∙ kept) i;
      addend = (ap int32_of_bits bits ∙ int32_of_bits-int32_bits r.addend h.addend) i;
    }
