-- ===== src/Coff/Build/Headers.antt =====
-- The section headers and the symbol table as phase 7 of build in coff/write.go writes them.
use objectfile.Prelude.{
  ℕ, zero, suc, ◌*◌, ◌^◌, ◌<◌, ◌≡◌, sym, ◌∙◌, true, false, Bool-cases, inl, inr, some, List, [],
  ◌∷◌, arith, length, length-append, get_elem?, slice, slice-front, slice-append_right,
}
use mathlib.Core.Option.{some-injective}
use mathlib.Core.Path.{subst}
use objectfile.Prelude.Bits.{bit_or-lt}
use objectfile.Prelude.Bytes.{Bytes}
use objectfile.Object.{Section, SectionKind, section_text, section_tls, is_link_once}
use objectfile.Elf.Strtab.{StrTab}
use objectfile.Elf.Strtab.Reading.{IsValid, Grows, Grows-refl, Grows-trans}
use objectfile.Coff.Build.{header_of, section_headers, slot_bytes}
use objectfile.Coff.Format.{encode_sec_hdr}
use objectfile.Coff.Format.Decode.{length-encode_sec_hdr}
use objectfile.Coff.Layout.{SecLaid}
use objectfile.Coff.Sections.{section_meta, section_chars, base_chars, align_flag, is_drectve}
use objectfile.Coff.Sections.Align.{align_flag-log}
use objectfile.Coff.Strtab.{set_section_name}
use objectfile.Coff.Strtab.SectionNames.{
  SectionEncoded, set_section_name-Encoded, set_section_name-Grows, set_section_name-IsValid,
  SectionEncoded-Grows, length-SectionEncoded,
}
use objectfile.Coff.Symbols.Index.{AllSlots}

pub section_headers-Grows : (t : StrTab) (ls : List SecLaid) → Grows t (section_headers t ls).0
unfolding section_headers
section_headers-Grows t [] = Grows-refl t
section_headers-Grows t (l ∷ ls) =
    let name = (section_meta l.work.sec).name in
    Grows-trans (set_section_name-Grows t name)
      (section_headers-Grows (set_section_name t name).0 ls)

pub section_headers-IsValid :
    (t : StrTab) (ls : List SecLaid) → IsValid t → IsValid (section_headers t ls).0
unfolding section_headers
section_headers-IsValid t [] h = h
section_headers-IsValid t (l ∷ ls) h =
    let name = (section_meta l.work.sec).name in
    section_headers-IsValid (set_section_name t name).0 ls (set_section_name-IsValid t name h)

length-header :
    (t : StrTab) (l : SecLaid)
    → length (encode_sec_hdr (header_of l (set_section_name t (section_meta l.work.sec).name).1))
      ≡ 40
unfolding header_of
length-header t l =
    let name = (section_meta l.work.sec).name in
    length-encode_sec_hdr _ (length-SectionEncoded (set_section_name-Encoded t name))

pub length-section_headers :
    (t : StrTab) (ls : List SecLaid) → length (section_headers t ls).1 ≡ 40 * length ls
unfolding section_headers
length-section_headers t [] = omega arith
length-section_headers t (l ∷ ls) =
    let named = set_section_name t (section_meta l.work.sec).name in
    omega (
      arith,
      length-append (encode_sec_hdr (header_of l named.1)) (section_headers named.0 ls).1,
      length-header t l,
      length-section_headers named.0 ls,
    )

-- The bytes of the header of a section, with a field that encodes its name.
pub record HeaderAt (t : StrTab) (l : SecLaid) (bytes : Bytes) : Type 0 where
  pub field : Bytes
  pub encoded : SectionEncoded t (section_meta l.work.sec).name field
  pub shape : bytes ≡ encode_sec_hdr (header_of l field)

-- The headers stand 40 bytes apart, in the order of the sections.
pub section_headers-HeaderAt :
    (t : StrTab) (ls : List SecLaid) (i : ℕ) (l : SecLaid)
    → get_elem? ls i ≡ some l
    → HeaderAt (section_headers t ls).0 l (slice (i * 40) 40 (section_headers t ls).1)
unfolding section_headers
section_headers-HeaderAt t [] i l h = absurd (ground arith)
section_headers-HeaderAt t (q ∷ ls) zero l h =
    let name = (section_meta q.work.sec).name in
    let named = set_section_name t name in
    subst
      (λ x.
        HeaderAt (section_headers named.0 ls).0 x
          (slice (0 * 40) 40 (section_headers t (q ∷ ls)).1))
      (some-injective _ _ h)
      (record {
        field = named.1;
        encoded =
            SectionEncoded-Grows (section_headers-Grows named.0 ls)
              (set_section_name-Encoded t name);
        shape =
            slice-front 40 (encode_sec_hdr (header_of q named.1)) (section_headers named.0 ls).1
              (sym (length-header t q));
      })
section_headers-HeaderAt t (q ∷ ls) (suc i) l h =
    let named = set_section_name t (section_meta q.work.sec).name in
    let rest = section_headers-HeaderAt named.0 ls i l h in
    record {
      field = rest.field;
      encoded = rest.encoded;
      shape =
          slice-append_right i 40 (encode_sec_hdr (header_of q named.1))
            (section_headers named.0 ls).1 (sym (length-header t q))
          ∙ rest.shape;
    }

pub length-slot_bytes :
    (slots : List Bytes) → AllSlots slots → length (slot_bytes slots) ≡ 18 * length slots
unfolding slot_bytes
length-slot_bytes [] h = omega arith
length-slot_bytes (slot ∷ slots) h =
    omega (arith, length-append slot (slot_bytes slots), h.0, length-slot_bytes slots h.1)

-- The slots stand 18 bytes apart.
pub slot_bytes-slot :
    (slots : List Bytes) (k : ℕ) (slot : Bytes)
    → AllSlots slots
    → get_elem? slots k ≡ some slot
    → slice (k * 18) 18 (slot_bytes slots) ≡ slot
unfolding slot_bytes
slot_bytes-slot [] k slot h at = absurd (ground arith)
slot_bytes-slot (s ∷ slots) zero slot h at =
    slice-front 18 s (slot_bytes slots) (sym h.0) ∙ some-injective _ _ at
slot_bytes-slot (s ∷ slots) (suc k) slot h at =
    slice-append_right k 18 s (slot_bytes slots) (sym h.0) ∙ slot_bytes-slot slots k slot h.1 at

base_chars-lt : (k : SectionKind) (code : _) → base_chars k code < 2 ^ 32
unfolding base_chars
base_chars-lt section_tls true = omega arith
base_chars-lt section_tls false = omega arith
base_chars-lt section_text code = omega arith
base_chars-lt _ code = omega arith

align_flag-lt : (a : ℕ) → align_flag a < 2 ^ 32
align_flag-lt a = let (s, e, low, high, few) = align_flag-log a in omega (arith, e)

-- The characteristics fit their field.
pub section_meta-chars : (s : Section) → (section_meta s).chars < 2 ^ 32
unfolding section_meta section_chars
section_meta-chars s = elim (Bool-cases (is_drectve s)) [
  | inl directive ↦ rw directive (omega arith)
  | inr plain ↦ rw plain (
      bit_or-lt 32 _ _
        (elim (Bool-cases (is_link_once s)) [
          | inl comdat ↦ rw comdat (bit_or-lt 32 _ _ (base_chars-lt _ _) (omega arith))
          | inr single ↦ rw single (base_chars-lt _ _)
        ])
        (align_flag-lt _))
]
