-- ===== src/Coff/Build/Reading.antt =====
-- What a reader finds in a file that build of coff/write.go returns.
use objectfile.Prelude.{
  ℕ, ◌+◌, ◌*◌, ◌^◌, ◌≤◌, ◌<◌, ◌≡◌, ◌≢◌, sym, ap, ◌∙◌, false, Bool-cases, inl, inr, some, List, [],
  ◌++◌, arith, length, length-append, get_elem?, get_elem?-lt, slice, slice-slice, slice-behind,
  drop, take, take-length-append,
}
use mathlib.Core.Path.{ap₂}
use objectfile.Prelude.Bytes.{Bytes, NoNul}
use objectfile.Prelude.Table.{lookup}
use objectfile.Object.{Section}
use objectfile.Offsets.{pad_to}
use objectfile.Elf.Strtab.Reading.{IsValid}
use objectfile.Coff.Build.{header_of, section_headers, slot_bytes, file_header}
use objectfile.Coff.Build.Headers.{
  section_headers-HeaderAt, section_headers-Grows, section_headers-IsValid, length-slot_bytes,
  slot_bytes-slot, section_meta-chars,
}
use objectfile.Coff.Build.Output.{
  section_bounds, section_bare, Fits, Built, length-laid, end-lt, tables, slice-headers,
  header_shape,
}
use objectfile.Coff.File.{File}
use objectfile.Coff.Format.{encode_symbol, CoffReloc}
use objectfile.Coff.Format.Decode.{
  decode_symbol, decode_symbol-name, decode_reloc, decode_reloc-encode_reloc, FitsReloc,
  decode_file_hdr, decode_file_hdr-encode_file_hdr, decode_sec_hdr, decode_sec_hdr-encode_sec_hdr,
  FitsSecHdr,
}
use objectfile.Coff.Layout.{SecLaid, reloc_bytes}
use objectfile.Coff.Layout.Bounds.{block_size, PointsToRelocs}
use objectfile.Coff.Layout.Placement.{Standing, length-Contents, reloc_bytes-record}
use objectfile.Coff.Reader.{
  file_hdr, section_hdr, strings, raw_data, reloc_at, symbol_at, symbol_name,
}
use objectfile.Coff.Sections.{section_meta, virtual_reserve_size, is_bss_like}
use objectfile.Coff.Strtab.{table_bytes}
use objectfile.Coff.Strtab.Reading.{
  length-table_bytes, read_sym_name, read_sym_name-Encoded, Encoded-Grows, length-Encoded,
}
use objectfile.Coff.Strtab.SectionNames.{
  SectionEncoded, length-SectionEncoded, NoSlash, read_section_name, read_section_name-Encoded,
}
use objectfile.Coff.Symbols.{symbol_table}
use objectfile.Coff.Symbols.Index.{symbol_table-IsIndexed}

module _ (f : File) (sections : List Section) {out : Bytes} (b : Built f sections out)
    (fits : Fits sections) (machine : f.machine < 2 ^ 16) (small : length out < 2 ^ 32) where
  n_slots :
      length (slot_bytes (symbol_table sections).slots) ≡ 18 * length (symbol_table sections).slots
  n_slots =
      let ix = symbol_table-IsIndexed sections in
      length-slot_bytes (symbol_table sections).slots ix.sized

  few_slots : length (symbol_table sections).slots < 2 ^ 32
  few_slots =
      let slots = slot_bytes (symbol_table sections).slots in
      let names = table_bytes (section_headers (symbol_table sections).strtab b.laid).0 in
      omega (
        arith,
        ap length b.shape,
        length-append (pad_to b.contents b.end) (slots ++ names),
        length-append slots names,
        n_slots,
      )

  file_hdr_lem :
      file_hdr out ≡ file_header f (length b.laid) b.end (length (symbol_table sections).slots)
  unfolding file_header
  file_hdr_lem =
      let (rest, shape) = header_shape f sections b fits in
      ap decode_file_hdr shape
      ∙ decode_file_hdr-encode_file_hdr _ rest (record {
        machine = machine;
        number_of_sections = omega arith;
        pointer_to_symbol_table = end-lt f sections b fits;
        number_of_symbols = omega arith;
      })

  -- The file header says where the symbol table is and how long.
  pub pointers :
      ((file_hdr out).pointer_to_symbol_table ≡ b.end)
      × ((file_hdr out).number_of_symbols ≡ length (symbol_table sections).slots)
  unfolding file_header
  pointers =
      let e = file_hdr_lem in
      (
        ap (λ h. h.pointer_to_symbol_table) e,
        ap (λ h. h.number_of_symbols) e ∙ omega (arith, few_slots),
      )

  pub strings_lem :
      strings out ≡ table_bytes (section_headers (symbol_table sections).strtab b.laid).0
  strings_lem =
      let e : (file_hdr out).pointer_to_symbol_table + 18 * (file_hdr out).number_of_symbols
          ≡ b.end + length (slot_bytes (symbol_table sections).slots) =
        omega (arith, pointers.0, pointers.1, n_slots) in
      ap (λ n. drop n out) e ∙ (tables f sections b fits).1

  meta_sizes :
      (s : Section) → ((section_meta s).raw_size < 2 ^ 32) × ((section_meta s).res_size < 2 ^ 32)
  unfolding section_meta virtual_reserve_size
  meta_sizes s = ground arith

  header-FitsSecHdr :
      (i : ℕ) (l : SecLaid) (field : Bytes)
      → get_elem? b.laid i ≡ some l
      → length field ≡ 8
      → FitsSecHdr (header_of l field)
  unfolding header_of
  header-FitsSecHdr i l field at size =
      let sizes = meta_sizes l.work.sec in
      let chars = section_meta-chars l.work.sec in
      let end = end-lt f sections b fits in
      elim (Bool-cases (is_bss_like l.work.sec)) [
        | inl bss ↦
            let bare = section_bare f sections b fits i l at bss in
            record {
              name = size;
              size_of_raw_data = rw bss (sizes.1);
              pointer_to_raw_data = rw bss (omega arith);
              pointer_to_relocations = omega (arith, bare.0);
              number_of_relocations = omega (arith, bare.1);
              characteristics = chars;
            }
        | inr raw ↦
            let (room, points) = section_bounds f sections b fits i l at raw in
            record {
              name = size;
              size_of_raw_data = rw raw (sizes.0);
              pointer_to_raw_data = rw raw (omega (arith, room, end));
              pointer_to_relocations = ground (arith, room, points.1, end);
              number_of_relocations = omega (arith, points.0, points.2);
              characteristics = chars;
            }
      ]

  pub section_hdr_lem :
      (i : ℕ) (l : SecLaid)
      → get_elem? b.laid i ≡ some l
      → (field : Bytes) × SectionEncoded
          (section_headers (symbol_table sections).strtab b.laid).0
          (section_meta l.work.sec).name
          field
        × (section_hdr out i ≡ header_of l field)
  section_hdr_lem i l at =
      let t = (symbol_table sections).strtab in
      let h = section_headers-HeaderAt t b.laid i l at in
      let inside : i < length sections =
        omega (arith, get_elem?-lt i b.laid l at, length-laid f sections b fits) in
      (
        h.field,
        h.encoded,
        ap decode_sec_hdr (slice-headers f sections b fits i inside ∙ h.shape)
            ∙ decode_sec_hdr-encode_sec_hdr (header_of l h.field)
                (header-FitsSecHdr i l h.field at (length-SectionEncoded h.encoded)),
      )

  names_valid : IsValid (section_headers (symbol_table sections).strtab b.laid).0
  names_valid =
      let ix = symbol_table-IsIndexed sections in
      section_headers-IsValid (symbol_table sections).strtab b.laid ix.strings

  -- A section name reads back.
  pub read_name :
      (name field : Bytes)
      → NoNul name
      → NoSlash name
      → length (strings out) < 10 ^ 7
      → SectionEncoded (section_headers (symbol_table sections).strtab b.laid).0 name field
      → read_section_name (strings out) field ≡ name
  read_name name field clean plain short encoded =
      let t = (section_headers (symbol_table sections).strtab b.laid).0 in
      ap (λ table. read_section_name table field) strings_lem
      ∙ read_section_name-Encoded t name field names_valid clean plain
          (omega (arith, short, ap length strings_lem, length-table_bytes t)) encoded

  -- The contents of a section with raw bytes, where its header points.
  module _ (l : SecLaid) (raw : is_bss_like l.work.sec ≡ false)
      (room : l.raw_off + block_size l.work ≤ b.end) (points : PointsToRelocs l)
      (standing : Standing f.machine out l) where
    open standing use {bytes, contents, found}

    pub raw_data_lem : (field : Bytes) → raw_data out (header_of l field) ≡ contents.code
    unfolding header_of section_meta
    raw_data_lem field =
        let n = length l.work.sec.code in
        let size : (header_of l field).size_of_raw_data ≡ n =
          rw raw (omega (arith, room, end-lt f sections b fits)) in
        let at : (header_of l field).pointer_to_raw_data ≡ l.raw_off + 0 = rw raw (omega arith) in
        ap₂ (λ i k. slice i k out) at size
        ∙ sym
            (slice-slice l.raw_off (length bytes) 0 n out (omega (arith, length-Contents contents)))
        ∙ ap (take n) (found ∙ contents.shape)
        ∙ take-length-append n contents.code (reloc_bytes l.work.records) (sym contents.size)

    pub reloc_lem :
        (field : Bytes) (k : ℕ) (c : CoffReloc)
        → FitsReloc c
        → get_elem? l.work.records k ≡ some c
        → reloc_at out (header_of l field) k ≡ c
    unfolding header_of
    reloc_lem field k c fits_c at =
        let n = length l.work.sec.code in
        let inside = get_elem?-lt k l.work.records c at in
        let start : (header_of l field).pointer_to_relocations + k * 10 ≡ l.raw_off + (n + k * 10) =
          ground (arith, points.1, inside) in
        ap (λ i. decode_reloc (slice i 10 out)) start
        ∙ ap decode_reloc (
            sym (
              slice-slice l.raw_off (length bytes) (n + k * 10) 10 out
                (omega (arith, length-Contents contents, inside)))
            ∙ ap (slice (n + k * 10) 10) (found ∙ contents.shape)
            ∙ slice-behind (k * 10) 10 n contents.code (reloc_bytes l.work.records)
                (sym contents.size)
            ∙ reloc_bytes-record l.work.records k c at)
        ∙ decode_reloc-encode_reloc c fits_c

  strings_small :
      length (section_headers (symbol_table sections).strtab b.laid).0.payload + 4 < 2 ^ 32
  strings_small =
      let slots = slot_bytes (symbol_table sections).slots in
      let t = (section_headers (symbol_table sections).strtab b.laid).0 in
      omega (
        arith,
        ap length b.shape,
        length-append (pad_to b.contents b.end) (slots ++ table_bytes t),
        length-append slots (table_bytes t),
        length-table_bytes t,
      )

  -- The symbol record of a slot has the name of the slot.
  pub symbol_lem :
      (name : Bytes) (idx : ℕ)
      → NoNul name
      → name ≢ []
      → lookup name (symbol_table sections).sym_idx ≡ some idx
      → symbol_name out (symbol_at out idx) ≡ name
  symbol_lem name idx clean some_byte at =
      let valid = symbol_table-IsIndexed sections in
      let p = valid.points name idx at in
      let slots = (symbol_table sections).slots in
      let inside = get_elem?-lt p.position slots (encode_symbol p.entry) p.found in
      let start : (file_hdr out).pointer_to_symbol_table + idx * 18 ≡ b.end + p.position * 18 =
        omega (arith, pointers.0, p.index, inside, few_slots) in
      let t = (section_headers (symbol_table sections).strtab b.laid).0 in
      let record_at : slice (b.end + p.position * 18) 18 out ≡ encode_symbol p.entry =
        sym (
          slice-slice b.end (length (slot_bytes slots)) (p.position * 18) 18 out
            (omega (arith, n_slots, inside)))
        ∙ ap (slice (p.position * 18) 18) (tables f sections b fits).0
        ∙ slot_bytes-slot slots p.position (encode_symbol p.entry) valid.sized p.found in
      ap₂ read_sym_name strings_lem (
        ap (λ i. (decode_symbol (slice i 18 out)).name) start
        ∙ ap (λ x. (decode_symbol x).name) record_at
        ∙ decode_symbol-name p.entry (length-Encoded p.named))
      ∙ read_sym_name-Encoded t name p.entry.name names_valid clean some_byte strings_small
          (Encoded-Grows (section_headers-Grows (symbol_table sections).strtab b.laid) p.named)
