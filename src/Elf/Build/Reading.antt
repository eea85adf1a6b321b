-- ===== src/Elf/Build/Reading.antt =====
-- What a reader finds in a file that emit_file gives: the file header, and each section with its
-- header.
use objectfile.Prelude.{
  ℕ, zero, suc, ◌+◌, ◌*◌, ◌^◌, ◌<◌, ◌≤◌, ◌≡◌, ap, ◌∙◌, some, List, [], ◌∷◌, arith, length,
  get_elem?, slice, ◌==◌, if◌then◌else◌,
}
use mathlib.Core.Option.{some-injective}
use mathlib.Core.Path.{subst}
use objectfile.Elf.Build.{file_header, emit_file}
use objectfile.Elf.File.{File}
use objectfile.Elf.Format.{Class, Ehdr}
use objectfile.Elf.Format.Headers.{HasSizes, FitsShdr}
use objectfile.Elf.Layout.{header_of}
use objectfile.Elf.Layout.Bounds.{file_bytes, footprint}
use objectfile.Elf.Sections.{SecDesc, DescState}
use objectfile.Elf.Consts.{sht_no_bits}
use objectfile.Elf.Reader.{Reads, section_hdr}
use objectfile.Prelude.Table.{lookup, get_or}
use objectfile.Elf.Strtab.{StrTab}
use objectfile.Elf.Build.Output.{
  table_at, Fits, table_at-le, end_le, emit_file-header, section_bytes,
}

-- The fields of a descriptor, and the offset of its name, fit a header with words of `w` bits.
pub record FitsDesc (w : ℕ) (t : StrTab) (d : SecDesc) : Type 0 where
  pub name : get_or 0 (lookup d.name t.offsets) < 2 ^ 32
  pub sh_type : d.sh_type < 2 ^ 32
  pub flags : d.flags < 2 ^ w
  pub size : d.no_size < 2 ^ w
  pub link : d.link < 2 ^ 32
  pub info : d.info < 2 ^ 32
  pub ent_size : d.ent_size < 2 ^ w

footprint-get_elem? :
    (ds : List SecDesc) (i : ℕ) (d : SecDesc)
    → get_elem? ds i ≡ some d
    → d.align + length d.bytes ≤ footprint ds
footprint-get_elem? [] i d at = absurd (ground arith)
footprint-get_elem? (e ∷ ds) zero d at =
    let bound : e.align + length e.bytes ≤ footprint (e ∷ ds) = omega arith in
    subst (λ x. x.align + length x.bytes ≤ footprint (e ∷ ds)) (some-injective _ _ at) bound
footprint-get_elem? (e ∷ ds) (suc i) d at = omega (arith, footprint-get_elem? ds i d at)

header_of-FitsShdr :
    (w off n : ℕ) (t : StrTab) (d : SecDesc)
    → FitsDesc w t d
    → off < 2 ^ w
    → d.align + length d.bytes ≤ n
    → n < 2 ^ w
    → FitsShdr w (header_of t (record d { file_off = off }))
unfolding header_of
header_of-FitsShdr w off n t d h small room fits = record {
  name = h.name;
  sh_type = h.sh_type;
  flags = h.flags;
  offset = small;
  size = ground (arith, h.size);
  link = h.link;
  info = h.info;
  addralign = omega arith;
  entsize = h.ent_size;
}

module _ (c : Class) (r : Reads c) (sizes : HasSizes c) (f : File) (names_idx : ℕ) (t : StrTab)
    (null : SecDesc) (ds : List SecDesc) (osabi : f.osabi < 2 ^ 8) (machine : f.machine < 2 ^ 16)
    (fits : c.ehdr_size + footprint ds + c.word_align < 2 ^ r.word) where
  abbrev whole_state : DescState
  whole_state = record { shstrtab = t; descs = null ∷ ds }

  fits64 : Fits c ds
  fits64 = omega (arith, r.word_le, fits)

  -- The file header reads back.
  pub emit_file-ehdr :
      r.decode_ehdr (emit_file c f names_idx whole_state)
      ≡ file_header c f (table_at c (null ∷ ds)) (length (null ∷ ds)) names_idx
  unfolding file_header
  emit_file-ehdr =
      let (rest, shape) = emit_file-header c f names_idx t null ds sizes fits64 in
      ap r.decode_ehdr shape
      ∙ r.read_ehdr _ rest (record {
        osabi = osabi;
        machine = machine;
        shoff = omega (arith, table_at-le c f names_idx t null ds sizes fits64, fits);
        shnum = omega arith;
        shstrndx = omega arith;
      })

  -- In a file whose sections, header and padding fit the words of the class, 2 ^ 64 bytes or 2 ^ 32,
  -- the header at the index of a section past the first has the fields of its descriptor, if these
  -- fit their places, with the size of its data and the offset of its name in .shstrtab, and the data
  -- stand at the offset that it gives.
  pub emit_file-section :
      (i : ℕ) (d : SecDesc)
      → get_elem? ds i ≡ some d
      → FitsDesc r.word t d
      → let out = emit_file c f names_idx whole_state in
        let h = section_hdr c r out (suc i) in
        (slice h.offset (length (file_bytes d)) out ≡ file_bytes d)
        × (h.size ≡ (if d.sh_type == sht_no_bits then d.no_size else length d.bytes))
        × (h.name ≡ get_or 0 (lookup d.name t.offsets))
        × (h.sh_type ≡ d.sh_type)
        × (h.flags ≡ d.flags)
        × (h.link ≡ d.link)
        × (h.info ≡ d.info)
        × (h.addralign ≡ d.align)
        × (h.entsize ≡ d.ent_size)
  unfolding header_of file_header
  emit_file-section i d at fields =
      let out = emit_file c f names_idx whole_state in
      let (off, bound, contents, hdr) = section_bytes c f names_idx t null ds sizes fits64 i d at in
      let room = footprint-get_elem? ds i d at in
      let end = end_le c f names_idx t null ds sizes fits64 in
      let read : section_hdr c r out (suc i) ≡ header_of t (record d { file_off = off }) =
        ap (λ (e : Ehdr). r.decode_shdr (slice (e.shoff + suc i * c.shdr_size) c.shdr_size out))
          emit_file-ehdr
        ∙ ap r.decode_shdr hdr
        ∙ r.read_shdr _ (
            header_of-FitsShdr r.word off (footprint ds) t d fields
              (omega (arith, bound, end, fits)) room (omega (arith, fits))) in
      (
        ap (λ h. slice h.offset (length (file_bytes d)) out) read ∙ contents,
        ap (λ h. h.size) read,
        ap (λ h. h.name) read,
        ap (λ h. h.sh_type) read,
        ap (λ h. h.flags) read,
        ap (λ h. h.link) read,
        ap (λ h. h.info) read,
        ap (λ h. h.addralign) read,
        ap (λ h. h.entsize) read,
      )
