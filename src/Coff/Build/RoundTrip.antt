-- ===== src/Coff/Build/RoundTrip.antt =====
-- What build of coff/write.go wrote is what a linker reads.
use objectfile.Prelude.{
  ℕ, ◌^◌, ◌<◌, ◌≡◌, ◌≢◌, refl, sym, ap, ◌∙◌, true, false, some, List, [], arith, length, get_elem?,
  ltb, if◌then◌else◌,
}
use mathlib.Core.Path.{subst}
use objectfile.Prelude.Bits.{u32}
use objectfile.Prelude.Bytes.{Bytes, NoNul}
use objectfile.Prelude.Result.{ok}
use objectfile.Object.{Section, Reloc, RelocKind}
use objectfile.Coff.Addends.{apply_implicit_addends}
use objectfile.Coff.Build.{header_of, build}
use objectfile.Coff.Build.Output.{Fits, build-Built, section_laid, section_bounds, section_bare}
use objectfile.Coff.Build.Reading.{section_hdr_lem, read_name, raw_data_lem, reloc_lem, symbol_lem}
use objectfile.Coff.File.{File, reloc_type, type_for_machine, amd64_type, arm64_type}
use objectfile.Coff.Reader.{
  section_hdr, strings, section_name, raw_data, reloc_at, symbol_at, symbol_name,
}
use objectfile.Coff.Relocs.Laws.{RecordsOf-length, RecordsOf-get_elem?, TypesOf, RecordsOf-TypesOf}
use objectfile.Coff.Sections.{
  section_meta, with_drectve, is_bss_like, section_coff_name, virtual_reserve_size,
}
use objectfile.Coff.Strtab.SectionNames.{NoSlash}
use objectfile.Coff.Symbols.{symbol_table}
use objectfile.Coff.Symbols.Index.{symbol_table-IsIndexed}

reloc_type-lt : (f : File) (k : RelocKind) {t : ℕ} → reloc_type f k ≡ ok t → t < 2 ^ 16
unfolding reloc_type type_for_machine amd64_type arm64_type
reloc_type-lt f k h = ground arith

virtual_reserve_size_lem :
    (s : Section)
    → virtual_reserve_size s ≡ u32 (if ltb 0 s.v_size then s.v_size else length s.code)
unfolding virtual_reserve_size
virtual_reserve_size_lem s = ground arith

-- A file below 4 GiB that build made, of sections whose contents fit, with a machine that is a uint16.
module _ (f : File) (out : Bytes) (built : build f ≡ ok out) (fits : Fits (with_drectve f.sections))
    (machine : f.machine < 2 ^ 16) (small : length out < 2 ^ 32) (i : ℕ) (s : Section)
    (at : get_elem? (with_drectve f.sections) i ≡ some s) where
  -- In a file below 4 GiB that build made, of sections whose contents fit: if the name of a section has
  -- no NUL byte and starts with no slash, and the string table is below 10 ^ 7 bytes, the header at the
  -- index of the section has that name and the characteristics.
  pub build-section_name :
      NoNul (section_coff_name s)
      → NoSlash (section_coff_name s)
      → length (strings out) < 10 ^ 7
      → (section_name out (section_hdr out i) ≡ section_coff_name s)
        × ((section_hdr out i).characteristics ≡ (section_meta s).chars)
  unfolding header_of section_meta
  build-section_name clean plain short =
      let b = build-Built f built in
      let sections = with_drectve f.sections in
      let (l, place, sec, _, _) = section_laid f sections b fits i s at in
      let (field, encoded, hdr) = section_hdr_lem f sections b fits machine small i l place in
      let name : (section_meta l.work.sec).name ≡ section_coff_name s = ap section_coff_name sec in
      (
        ap (λ h. section_name out h) hdr
            ∙ read_name f sections b fits machine small (section_meta l.work.sec).name field
                (subst NoNul (sym name) clean) (subst NoSlash (sym name) plain) short encoded
            ∙ name,
        ap (λ h. h.characteristics) hdr ∙ ap (λ x. (section_meta x).chars) sec,
      )

  -- In a file below 4 GiB that build made, of sections whose contents fit: where the header of a
  -- section with raw bytes points stands its code, with the addends of its relocations applied by their
  -- types, and it counts the relocations.
  pub build-raw_data :
      is_bss_like s ≡ false
      → (rtypes : List ℕ) × (code : Bytes) × TypesOf f s.relocs rtypes
        × (apply_implicit_addends s.code s.relocs rtypes f.machine ≡ some code)
        × (raw_data out (section_hdr out i) ≡ code)
        × ((section_hdr out i).number_of_relocations ≡ length s.relocs)
  unfolding header_of
  build-raw_data raw =
      let b = build-Built f built in
      let sections = with_drectve f.sections in
      let (l, place, sec, records, placed) = section_laid f sections b fits i s at in
      let (field, _, hdr) = section_hdr_lem f sections b fits machine small i l place in
      let raw_l = ap is_bss_like sec ∙ raw in
      let (room, points) = section_bounds f sections b fits i l place raw_l in
      let standing = placed raw_l in
      let contents = standing.contents in
      (
        l.work.rtypes,
        contents.code,
        RecordsOf-TypesOf f (symbol_table sections).sym_idx s.relocs l.work.records l.work.rtypes
            records,
        subst
            (λ x.
              apply_implicit_addends x.code x.relocs l.work.rtypes f.machine ≡ some contents.code)
            sec contents.patched,
        ap (raw_data out) hdr
            ∙ raw_data_lem f sections b fits machine small l raw_l room points standing field,
        ap (λ h. h.number_of_relocations) hdr
            ∙ points.0
            ∙ (RecordsOf-length f (symbol_table sections).sym_idx s.relocs l.work.records
                l.work.rtypes records).0,
      )

  -- In a file below 4 GiB that build made, of sections whose contents fit, the header of a section
  -- without raw bytes has as its size the low 32 bits of VSize, or where VSize is zero those of the
  -- length of the code, and points nowhere.
  pub build-bss :
      is_bss_like s ≡ true
      → ((section_hdr out i).size_of_raw_data
          ≡ u32 (if ltb 0 s.v_size then s.v_size else length s.code))
        × ((section_hdr out i).pointer_to_raw_data ≡ 0)
        × ((section_hdr out i).pointer_to_relocations ≡ 0)
        × ((section_hdr out i).number_of_relocations ≡ 0)
  unfolding header_of section_meta
  build-bss bss =
      let b = build-Built f built in
      let sections = with_drectve f.sections in
      let (l, place, sec, _, _) = section_laid f sections b fits i s at in
      let (field, _, hdr) = section_hdr_lem f sections b fits machine small i l place in
      let bss_l = ap is_bss_like sec ∙ bss in
      let bare = section_bare f sections b fits i l place bss_l in
      (
        ap (λ h. h.size_of_raw_data) hdr
            ∙ rw bss_l (ap virtual_reserve_size sec ∙ virtual_reserve_size_lem s),
        ap (λ h. h.pointer_to_raw_data) hdr ∙ rw bss_l refl,
        ap (λ h. h.pointer_to_relocations) hdr ∙ bare.0,
        ap (λ h. h.number_of_relocations) hdr ∙ bare.1,
      )

  -- In a file below 4 GiB that build made, of sections whose contents fit, record k among the
  -- relocations of a section with raw bytes is that of its relocation k: it has the offset, which is a
  -- uint32, and the type, and the symbol record that it points to has the name of the target, if that
  -- is not empty and has no NUL byte.
  pub build-reloc :
      (k : ℕ) (r : Reloc)
      → is_bss_like s ≡ false
      → get_elem? s.relocs k ≡ some r
      → r.offset < 2 ^ 32
      → NoNul r.symbol
      → r.symbol ≢ []
      → ((reloc_at out (section_hdr out i) k).virtual_address ≡ r.offset)
        × (reloc_type f r.kind ≡ ok (reloc_at out (section_hdr out i) k).typ)
        × (symbol_name out (symbol_at out (reloc_at out (section_hdr out i) k).symbol_table_index)
            ≡ r.symbol)
  build-reloc k r raw at_k word clean some_byte =
      let b = build-Built f built in
      let sections = with_drectve f.sections in
      let (l, place, sec, records, placed) = section_laid f sections b fits i s at in
      let (field, _, hdr) = section_hdr_lem f sections b fits machine small i l place in
      let raw_l = ap is_bss_like sec ∙ raw in
      let (room, points) = section_bounds f sections b fits i l place raw_l in
      let (c, found, (va, slot, typ)) =
        RecordsOf-get_elem? f (symbol_table sections).sym_idx s.relocs l.work.records l.work.rtypes
          k r records at_k in
      let valid = symbol_table-IsIndexed sections in
      let p = valid.points r.symbol c.symbol_table_index slot in
      let read : reloc_at out (section_hdr out i) k ≡ c =
        ap (λ h. reloc_at out h k) hdr
        ∙ reloc_lem f sections b fits machine small l raw_l room points (placed raw_l) field k c
            (record {
              virtual_address = omega (arith, va);
              symbol_table_index = omega (arith, p.index);
              typ = reloc_type-lt f r.kind typ;
            })
            found in
      (
        ap (λ x. x.virtual_address) read ∙ va,
        typ ∙ ap (λ x. ok x.typ) (sym read),
        ap (λ x. symbol_name out (symbol_at out x.symbol_table_index)) read
            ∙ symbol_lem f sections b fits machine small r.symbol c.symbol_table_index clean
                some_byte slot,
      )
