-- ===== src/Macho/Format/Decode.antt =====
-- Readers of the section64 entries and the relocation records of macho/write.go, and what they give
-- back of what is put out.
use objectfile.Prelude.{
  ℕ, ◌^◌, ◌<◌, ◌≡◌, sym, ap, ◌∙◌, ◌++◌, append_assoc, arith, length, length-append, slice, drop,
  take, drop-length-append, take-length-append, slice-append,
}
use objectfile.Prelude.Bytes.{Bytes, put_le, get_le, get_le-put_le}
use objectfile.Macho.Format.{SectionHdr, encode_section, RelocInfo, encode_reloc}

-- A number of `n` bytes at position `i`.
abbrev pub field : ℕ → ℕ → Bytes → ℕ
field i n bytes = get_le (slice i n bytes)

unfoldable pub decode_section : Bytes → SectionHdr
decode_section b = record {
  sect_name = take 16 b;
  seg_name = slice 16 16 b;
  size = field 8 8 (drop 32 b);
  offset = field 16 4 (drop 32 b);
  align = field 20 4 (drop 32 b);
  rel_off = field 24 4 (drop 32 b);
  n_reloc = field 28 4 (drop 32 b);
  flags = field 32 4 (drop 32 b);
}

unfoldable pub decode_reloc : Bytes → RelocInfo
decode_reloc b = record { r_address = field 0 4 b; r_info = field 4 4 b }

-- A relocation record whose words fit is read back.
pub decode_reloc-encode_reloc :
    (r : RelocInfo) → r.r_address < 2 ^ 32 → r.r_info < 2 ^ 32 → decode_reloc (encode_reloc r) ≡ r
unfolding decode_reloc encode_reloc put_le
decode_reloc-encode_reloc r a b = λ i. record {
  r_address = get_le-put_le 4 r.r_address (omega (arith, a)) i;
  r_info = get_le-put_le 4 r.r_info (omega (arith, b)) i;
}

section_tail : SectionHdr → Bytes
section_tail s =
    put_le 8 0
    ++ (put_le 8 s.size
        ++ (put_le 4 s.offset
            ++ (put_le 4 s.align
                ++ (put_le 4 s.rel_off
                    ++ (put_le 4 s.n_reloc
                        ++ (put_le 4 s.flags ++ (put_le 4 0 ++ (put_le 4 0 ++ put_le 4 0))))))))

-- The fields of an entry that a linker follows fit their places.
pub record FitsSection (s : SectionHdr) : Type 0 where
  pub sect_name : length s.sect_name ≡ 16
  pub seg_name : length s.seg_name ≡ 16
  pub size : s.size < 2 ^ 64
  pub offset : s.offset < 2 ^ 32
  pub rel_off : s.rel_off < 2 ^ 32
  pub n_reloc : s.n_reloc < 2 ^ 32
  pub flags : s.flags < 2 ^ 32

-- The two entries agree on all but the alignment.
pub record Matches (r s : SectionHdr) : Type 0 where
  pub sect_name : r.sect_name ≡ s.sect_name
  pub seg_name : r.seg_name ≡ s.seg_name
  pub size : r.size ≡ s.size
  pub offset : r.offset ≡ s.offset
  pub rel_off : r.rel_off ≡ s.rel_off
  pub n_reloc : r.n_reloc ≡ s.n_reloc
  pub flags : r.flags ≡ s.flags

read_section_tail :
    (s : SectionHdr)
    → FitsSection s
    → (field 8 8 (section_tail s) ≡ s.size)
      × (field 16 4 (section_tail s) ≡ s.offset)
      × (field 24 4 (section_tail s) ≡ s.rel_off)
      × (field 28 4 (section_tail s) ≡ s.n_reloc)
      × (field 32 4 (section_tail s) ≡ s.flags)
unfolding section_tail put_le
read_section_tail s f = (
  get_le-put_le 8 s.size (omega (arith, f.size)),
  get_le-put_le 4 s.offset (omega (arith, f.offset)),
  get_le-put_le 4 s.rel_off (omega (arith, f.rel_off)),
  get_le-put_le 4 s.n_reloc (omega (arith, f.n_reloc)),
  get_le-put_le 4 s.flags (omega (arith, f.flags)),
)

-- An entry whose fields fit is read back, the alignment aside.
pub decode_section-encode_section :
    (s : SectionHdr) → FitsSection s → Matches (decode_section (encode_section s)) s
unfolding decode_section encode_section section_tail
decode_section-encode_section s f =
    let tail = section_tail s in
    let fields = read_section_tail s f in
    let behind : drop 32 (s.sect_name ++ (s.seg_name ++ tail)) ≡ tail =
      ap (drop 32) (sym (append_assoc s.sect_name s.seg_name tail))
      ∙ drop-length-append 32 (s.sect_name ++ s.seg_name) tail
          (omega (arith, length-append s.sect_name s.seg_name, f.sect_name, f.seg_name)) in
    record {
      sect_name = take-length-append 16 s.sect_name (s.seg_name ++ tail) (sym f.sect_name);
      seg_name = slice-append 16 16 s.sect_name s.seg_name tail (sym f.sect_name) (sym f.seg_name);
      size = ap (field 8 8) behind ∙ fields.0;
      offset = ap (field 16 4) behind ∙ fields.1;
      rel_off = ap (field 24 4) behind ∙ fields.2;
      n_reloc = ap (field 28 4) behind ∙ fields.3;
      flags = ap (field 32 4) behind ∙ fields.4;
    }
