-- ===== src/Macho/Build/Reading.antt =====
-- What the reader finds in a file that build of macho/write.go returns.
use objectfile.Prelude.{
  ℕ, zero, suc, ◌+◌, ◌*◌, ◌/◌, ◌%◌, ◌^◌, ◌<◌, ◌≡◌, refl, sym, ap, ◌∙◌, false, some, List, [], ◌∷◌,
  arith, length, get_elem?, slice, slice-slice, slice-behind, get_elem?-lt,
}
use mathlib.Core.Option.{some-injective}
use mathlib.Core.Path.{subst}
use objectfile.Prelude.Bytes.{Bytes, NoNul}
use objectfile.Prelude.Result.{ok, ok-injective}
use objectfile.Prelude.Table.{Table}
use objectfile.Object.{Section, Reloc}
use objectfile.Macho.Build.{header_of, build}
use objectfile.Macho.Build.Output.{build-Standing}
use objectfile.Macho.Build.Parts.{Fits, WorkOf}
use objectfile.Macho.File.{File, RelocDesc, reloc_desc}
use objectfile.Macho.Format.{Nlist, RelocInfo, copy_padded_name}
use objectfile.Macho.Format.Decode.{
  FitsSection, Matches, decode_section, decode_section-encode_section, decode_reloc,
  decode_reloc-encode_reloc,
}
use objectfile.Macho.Format.Laws.{flag, pack_reloc_info-fields, length-copy_padded_name}
use objectfile.Macho.Layout.{SecLaid, zero_filled, reloc_bytes}
use objectfile.Macho.Layout.Bounds.{block_size, PointsToRelocs}
use objectfile.Macho.Layout.Placement.{Standing, length-Contents, reloc_bytes-record}
use objectfile.Macho.Reader.{section_at, reloc_at}
use objectfile.Macho.Relocs.{record_of, target_of}
use objectfile.Macho.Relocs.Targets.{RefersTo, RecordOf-RefersTo}
use objectfile.Macho.Relocs.Laws.{DescsOf, RecordOf, RecordsOf}
use objectfile.Macho.Sections.{SecMeta, section_meta}
use objectfile.Macho.Sections.Laws.{section_meta-IsSized}
use objectfile.Macho.Symbols.{SymEntry, symbol_table}

-- What is known of a section with bytes in the file, and of its entry as the reader finds it.
record Found (f : File) (out : Bytes) (i : ℕ) (s : Section) (m : SecMeta) : Type 0 where
  l : SecLaid
  work : WorkOf f (symbol_table f.sections).sym_defs i s l.work
  meta : l.work.meta ≡ m
  size : l.work.meta.raw_size ≡ length s.code
  room : l.data_off + block_size l.work < 2 ^ 32
  points : PointsToRelocs l
  standing : Standing out l
  entry : Matches (section_at out i) (header_of l)
  raw : zero_filled l.work ≡ false

header_of-raw :
    (l : SecLaid)
    → zero_filled l.work ≡ false
    → ((header_of l).size ≡ l.work.meta.raw_size)
      × ((header_of l).offset ≡ l.data_off)
      × ((header_of l).rel_off ≡ l.reloc_off)
      × ((header_of l).n_reloc ≡ l.n_reloc)
unfolding header_of
header_of-raw l h = rw h (refl, refl, refl, refl)

header_of-names :
    (l : SecLaid)
    → ((header_of l).sect_name ≡ copy_padded_name l.work.meta.sect_name)
      × ((header_of l).seg_name ≡ copy_padded_name l.work.meta.seg_name)
      × ((header_of l).flags ≡ l.work.meta.flags)
unfolding header_of
header_of-names l = (refl, refl, refl)

header_of-Fits :
    (l : SecLaid)
    → zero_filled l.work ≡ false
    → l.work.meta.raw_size ≡ length l.work.sec.code
    → l.work.meta.flags < 2 ^ 32
    → l.data_off + block_size l.work < 2 ^ 32
    → PointsToRelocs l
    → FitsSection (header_of l)
header_of-Fits l raw size flags room points =
    let (at_size, at_offset, at_rel, at_n) = header_of-raw l raw in
    let (sect, seg, at_flags) = header_of-names l in
    record {
      sect_name = ap length sect ∙ length-copy_padded_name l.work.meta.sect_name;
      seg_name = ap length seg ∙ length-copy_padded_name l.work.meta.seg_name;
      size = omega (arith, at_size, size, room);
      offset = omega (arith, at_offset, room);
      rel_off = ground (arith, at_rel, points.1, room);
      n_reloc = omega (arith, at_n, points.0, room);
      flags = omega (arith, at_flags, flags);
    }

-- The record at the position of a relocation.
RecordsOf-get_elem? :
    (f : File) (m : Table SymEntry) (rs : List Reloc) (ds : List RelocDesc) (cs : List RelocInfo)
    (k : ℕ) (r : Reloc)
    → DescsOf f rs ds
    → RecordsOf f m rs ds cs
    → get_elem? rs k ≡ some r
    → (d : RelocDesc) × (c : RelocInfo) × (reloc_desc f r.kind ≡ ok d)
      × (get_elem? cs k ≡ some c)
      × RecordOf f m r d c
RecordsOf-get_elem? f m [] ds cs k r a b at = absurd (ground arith)
RecordsOf-get_elem? f m (q ∷ rs) [] cs k r a b at = absurd b
RecordsOf-get_elem? f m (q ∷ rs) (d ∷ ds) [] k r a b at = absurd b
RecordsOf-get_elem? f m (q ∷ rs) (d ∷ ds) (c ∷ cs) zero r a b at =
    let same = some-injective _ _ at in
    (
      d,
      c,
      subst (λ x. reloc_desc f x.kind ≡ ok d) same a.0,
      refl,
      subst (λ x. RecordOf f m x d c) same b.0,
    )
RecordsOf-get_elem? f m (q ∷ rs) (d ∷ ds) (c ∷ cs) (suc k) r a b at =
    RecordsOf-get_elem? f m rs ds cs k r a.1 b.1 at

RecordOf-lt :
    (f : File) (m : Table SymEntry) (r : Reloc) (d : RelocDesc) (c : RelocInfo)
    → r.offset < 2 ^ 32
    → RecordOf f m r d c
    → (c.r_address < 2 ^ 32) × (c.r_info < 2 ^ 32)
unfolding record_of
RecordOf-lt f m r d c word (def, _, shape) =
    let target = target_of f d def in
    let parts = pack_reloc_info-fields target.1 d.pcrel d.width target.0 d.rtype in
    (
      omega (arith, ap (λ x. x.r_address) shape, word),
      omega (arith, ap (λ x. x.r_info) shape, parts.4),
    )

module _ (f : File) (out : Bytes) (i : ℕ) (s : Section) (m : SecMeta) (built : build f ≡ ok out)
    (fits : Fits f.sections) (at : get_elem? f.sections i ≡ some s) (has : section_meta i s ≡ ok m)
    (file_bytes : m.is_zerofill ≡ false) where
  found : Found f out i s m
  unfolding zero_filled
  found =
      let (l, work, hdr, standing) = build-Standing f out i s built fits at in
      let meta : l.work.meta ≡ m = ok-injective (sym work.1 ∙ has) in
      let raw : zero_filled l.work ≡ false = ap (λ x. x.is_zerofill) meta ∙ file_bytes in
      let sized = section_meta-IsSized i s work.1 in
      let (room, points, stands) = standing raw in
      let code : length l.work.sec.code ≡ length s.code = ap (λ x. length x.code) work.0 in
      let size : l.work.meta.raw_size ≡ length s.code = sized.1 raw ∙ omega (arith, code, room) in
      record {
        l = l;
        work = work;
        meta = meta;
        size = size;
        room = room;
        points = points;
        standing = stands;
        entry =
            subst (λ b. Matches (decode_section b) (header_of l)) (sym hdr)
              (decode_section-encode_section (header_of l)
                (header_of-Fits l raw (size ∙ sym code) sized.2 room points));
        raw = raw;
      }

  -- In a Mach-O file that build made, of sections whose contents fit, record k where the entry of a
  -- section with bytes in the file points for its relocations is that of relocation k: it has the
  -- offset and the descriptor, and refers to a symbol table record with the name of the target behind
  -- an underscore, or to the section that such a local record is in; for names without NUL bytes, in
  -- a symbol table of less than 2 ^ 24 records and 2 ^ 32 bytes of names.
  pub build-record :
      (k : ℕ) (r : Reloc)
      → get_elem? s.relocs k ≡ some r
      → r.offset < 2 ^ 32
      → NoNul r.symbol
      → length (symbol_table f.sections).syms < 2 ^ 24
      → length (symbol_table f.sections).strtab.payload < 2 ^ 32
      → let c = reloc_at out (section_at out i) k in
        (d : RelocDesc) × (reloc_desc f r.kind ≡ ok d)
        × ((e : Nlist) × RefersTo f.sections r.symbol c e)
        × (c.r_address ≡ r.offset)
        × (c.r_info / 2 ^ 24 % 2 ≡ flag d.pcrel)
        × (c.r_info / 2 ^ 25 % 4 ≡ d.width % 4)
        × (c.r_info / 2 ^ 28 ≡ d.rtype % 16)
  build-record k r at_k word clean few small =
      let g = found in
      let contents = g.standing.contents in
      let m = (symbol_table f.sections).sym_defs in
      let n = length g.l.work.sec.code in
      let (d, c, desc, in_records, record_of_r) =
        RecordsOf-get_elem? f m s.relocs g.l.work.descs g.l.work.records k r g.work.2 g.work.3
          at_k in
      let inside = get_elem?-lt k g.l.work.records c in_records in
      let (_, _, at_rel, _) = header_of-raw g.l g.raw in
      let bounds = RecordOf-lt f m r d c word record_of_r in
      let rel_off : (section_at out i).rel_off ≡ g.l.reloc_off = g.entry.rel_off ∙ at_rel in
      let start : (section_at out i).rel_off + k * 8 ≡ g.l.data_off + (n + k * 8) =
        ground (arith, rel_off, g.points.1, inside) in
      let read : reloc_at out (section_at out i) k ≡ c =
        ap (λ j. decode_reloc (slice j 8 out)) start
        ∙ ap decode_reloc (
            sym (
              slice-slice g.l.data_off (length g.standing.bytes) (n + k * 8) 8 out
                (omega (arith, length-Contents contents, inside)))
            ∙ ap (slice (n + k * 8) 8) (g.standing.found ∙ contents.shape)
            ∙ slice-behind (k * 8) 8 n contents.code (reloc_bytes g.l.work.records)
                (sym contents.size)
            ∙ reloc_bytes-record g.l.work.records k c in_records)
        ∙ decode_reloc-encode_reloc c bounds.0 bounds.1 in
      let refers =
        RecordOf-RefersTo f f.sections r d (reloc_at out (section_at out i) k) few small clean
          (subst (RecordOf f m r d) (sym read) record_of_r) in
      (d, desc, refers.0, refers.1, refers.2, refers.3, refers.4)
