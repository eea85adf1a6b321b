-- ===== src/Macho/Sections.antt =====
-- sectionMeta of macho/write.go: the names, the flags, the alignment and the sizes of a section.
pub mod Laws
use objectfile.Prelude.{
  ℕ, suc, Bool, true, false, Option, none, some, [], ◌∷◌, take, drop, length, ltb, ◌==◌,
  if◌then◌else◌, bit_or,
}
use objectfile.Prelude.Bits.{u32}
use objectfile.Prelude.Bytes.{Bytes, codes}
use objectfile.Prelude.Result.{Result, ok, err}
use objectfile.Object.{
  Section, SectionKind, section_text, section_data, section_ro_data, section_bss, section_unwind,
  section_init_array, section_fini_array, section_tls, section_custom, other_section,
}
use objectfile.Macho.File.{Error, no_comma, unknown_section_kind}

abbrev pub s_attr_pure_instructions : ℕ
s_attr_pure_instructions = 0x80000000

abbrev pub s_attr_some_instructions : ℕ
s_attr_some_instructions = 0x400

abbrev pub s_type_regular : ℕ
s_type_regular = 0

abbrev pub s_type_zerofill : ℕ
s_type_zerofill = 1

pub record SecMeta : Type 0 where
  pub seg_name : Bytes
  pub sect_name : Bytes
  pub flags : ℕ
  pub align : ℕ
  pub raw_size : ℕ
  pub bss_size : ℕ
  pub is_zerofill : Bool

-- ea
unfoldable pub ea : Section → ℕ → ℕ
ea s dflt = if ltb 0 s.align then s.align else dflt

-- zerofillSize
unfoldable pub zerofill_size : Section → ℕ
zerofill_size s = if ltb 0 s.v_size then s.v_size else length s.code

-- A section with bytes in the file.
unfoldable pub regular : Section → Bytes → Bytes → ℕ → ℕ → SecMeta
regular s seg sect flags dflt = record {
  seg_name = seg;
  sect_name = sect;
  flags = flags;
  align = ea s dflt;
  raw_size = u32 (length s.code);
  bss_size = 0;
  is_zerofill = false;
}

unfoldable pub zerofill : Section → Bytes → SecMeta
zerofill s sect = record {
  seg_name = codes "__DATA";
  sect_name = sect;
  flags = s_type_zerofill;
  align = ea s 8;
  raw_size = 0;
  bss_size = zerofill_size s;
  is_zerofill = true;
}

-- strings.IndexByte(s, ','): the position of the first comma.
unfoldable pub index_comma : Bytes → Option ℕ
index_comma [] = none
index_comma (b ∷ s) =
    if b == 0x2c then some 0 else elim (index_comma s) [ none ↦ none | some i ↦ some (suc i) ]

-- The case SectionCustom, of the section at index `i`.
unfoldable pub custom_meta : ℕ → Section → Result Error SecMeta
custom_meta i s = elim (index_comma s.custom) [
  | none ↦ err (no_comma i s.custom)
  | some comma ↦ ok (regular s (take comma s.custom) (drop (suc comma) s.custom) s_type_regular 1)
]

-- The switch of `sectionMeta`.
unfoldable pub meta_of_kind : SectionKind → ℕ → Section → Result Error SecMeta
meta_of_kind section_text i s = ok (
    regular s (codes "__TEXT") (codes "__text")
      (bit_or s_attr_pure_instructions s_attr_some_instructions) 16)
meta_of_kind section_data i s = ok (regular s (codes "__DATA") (codes "__data") s_type_regular 8)
meta_of_kind section_ro_data i s =
    ok (regular s (codes "__TEXT") (codes "__const") s_type_regular 8)
meta_of_kind section_bss i s = ok (zerofill s (codes "__bss"))
meta_of_kind section_unwind i s =
    ok (regular s (codes "__TEXT") (codes "__unwind_info") s_type_regular 4)
meta_of_kind section_init_array i s =
    ok (regular s (codes "__DATA") (codes "__mod_init_func") s_type_regular 8)
meta_of_kind section_fini_array i s =
    ok (regular s (codes "__DATA") (codes "__mod_term_func") s_type_regular 8)
meta_of_kind section_tls i s =
    if ltb 0 (length s.code)
    then ok (regular s (codes "__DATA") (codes "__thread_data") s_type_regular 8)
    else ok (zerofill s (codes "__thread_bss"))
meta_of_kind section_custom i s = custom_meta i s
meta_of_kind (other_section n) i s = err (unknown_section_kind i (other_section n))

-- sectionMeta
unfoldable pub section_meta : ℕ → Section → Result Error SecMeta
section_meta i s = meta_of_kind s.kind i s
