-- ===== src/Macho/Build/Output.antt =====
-- Where the parts of a file that build of macho/write.go returns stand.
use objectfile.Prelude.{
  ℕ, ◌+◌, ◌*◌, ◌^◌, ◌≤◌, ◌<◌, ◌≡◌, refl, sym, ap, ◌∙◌, Bool, true, false, some, List, [], ◌++◌,
  append_assoc, arith, length, length-append, length-map, All-get_elem?, get_elem?, get_elem?-map,
  get_elem?-lt, slice, slice-append_left, slice-behind, if◌then◌else◌,
}
use mathlib.Core.Path.{subst}
use objectfile.Prelude.Bytes.{Bytes, put_le, Extends, Extends-trans, Extends-append}
use objectfile.Prelude.Result.{ok, >>=-eq-ok, ok-injective}
use objectfile.Object.{Section}
use objectfile.Offsets.{pad_to, pad_to-Extends}
use objectfile.Macho.Build.{
  file_header, segment_command, header_of, section_headers, build_version_command, symtab_command,
  nlist_bytes, str_off, front, emit_file, build,
}
use objectfile.Macho.Build.Parts.{
  Fits, WorksOf-sizes, WorkOf, WorksOf-get_elem?, length-section_headers, section_headers-header,
}
use objectfile.Macho.Build.Totality.{layout-work}
use objectfile.Macho.File.{File}
use objectfile.Macho.Format.{
  encode_mach_header, encode_segment, encode_section, encode_build_version, encode_symtab,
}
use objectfile.Macho.Layout.{
  total_lc_size, lc_seg_size, data_start, zero_filled, SecLaid, layout, write_blocks,
}
use objectfile.Macho.Layout.Bounds.{block_size, PointsToRelocs, layout_lem, Laid-get_elem?}
use objectfile.Macho.Layout.Placement.{
  Standing, IsPlaced, write_blocks-Extends, write_blocks-IsPlaced,
}
use objectfile.Macho.Relocs.{SecWork, section_descs, section_metas, section_records}
use objectfile.Macho.Relocs.Laws.{WorksOf, section_records-WorksOf}
use objectfile.Macho.Symbols.{symbol_table}

-- The results of the phases behind a file.
record Built (f : File) (out : Bytes) : Type 0 where
  works : List SecWork
  contents : Bytes
  works_of : WorksOf f (symbol_table f.sections).sym_defs 0 f.sections works
  written :
      let laid = layout (data_start f.build_version (length works)) works in
      write_blocks (front f (symbol_table f.sections) works laid.0 laid.1) laid.0 ≡ ok contents
  more : Extends contents out

build-Built : (f : File) {out : Bytes} → build f ≡ ok out → Built f out
unfolding build emit_file
build-Built f h =
    let table = symbol_table f.sections in
    let (ps, h₁, r₁) = >>=-eq-ok (section_descs f 0 f.sections) _ h in
    let (ds, h₂, r₂) = >>=-eq-ok (section_metas 0 ps) _ r₁ in
    let (ws, h₃, r₃) = >>=-eq-ok (section_records f table.sym_defs 0 ds) _ r₂ in
    let laid = layout (data_start f.build_version (length ws)) ws in
    let (contents, written, r₄) =
      >>=-eq-ok (write_blocks (front f table ws laid.0 laid.1) laid.0) _ r₃ in
    let symbols = pad_to contents laid.1 ++ nlist_bytes table.syms in
    record {
      works = ws;
      contents = contents;
      works_of = section_records-WorksOf f table.sym_defs f.sections h₁ h₂ h₃;
      written = written;
      more = Extends-trans (pad_to-Extends contents laid.1) (
          Extends-trans (Extends-append (pad_to contents laid.1) (nlist_bytes table.syms)) (
            Extends-trans (pad_to-Extends symbols (str_off laid.1 (length table.syms)))
              (record { added = table.strtab.payload; shape = sym (ok-injective r₄) })));
    }

-- The header, and the load command before the section headers.
length-front_commands :
    (f : File) (works : List SecWork)
    → length (encode_mach_header (file_header f (length works)) ++ segment_command f works) ≡ 104
unfolding encode_mach_header segment_command encode_segment put_le
length-front_commands f works = refl

length-commands :
    (f : File) → length (build_version_command f) ≡ (if f.build_version then 24 else 0)
unfolding build_version_command encode_build_version put_le
length-commands f = go f.build_version
  where
    go :
        (b : Bool)
        → length (if b then encode_build_version f.bv_platform f.bv_min_os f.bv_sdk else [])
          ≡ (if b then 24 else 0)
    go true = refl
    go false = refl

data_start_lem :
    (b : Bool) (n : ℕ)
    → 152 + 80 * n < 2 ^ 32
    → data_start b n ≡ 128 + 80 * n + (if b then 24 else 0)
unfolding data_start total_lc_size lc_seg_size
data_start_lem true n h = omega arith
data_start_lem false n h = omega arith

module _ (f : File) (works : List SecWork) (laid : List SecLaid) (sym_off : ℕ) where
  commands : Bytes
  commands = encode_mach_header (file_header f (length works)) ++ segment_command f works

  later : Bytes
  later = build_version_command f ++ symtab_command (symbol_table f.sections) sym_off

  front-parts :
      front f (symbol_table f.sections) works laid sym_off
      ≡ commands ++ (section_headers laid ++ later)
  unfolding front commands later
  front-parts =
      sym (
        append_assoc (encode_mach_header (file_header f (length works))) (segment_command f works)
          _)

  length-later : length later ≡ (if f.build_version then 24 else 0) + 24
  unfolding later symtab_command encode_symtab put_le
  length-later = omega (
    arith,
    length-append (build_version_command f) (symtab_command (symbol_table f.sections) sym_off),
    length-commands f,
  )

  length-front :
      length (front f (symbol_table f.sections) works laid sym_off)
      ≡ 128 + 80 * length laid + (if f.build_version then 24 else 0)
  unfolding commands
  length-front = omega (
    arith,
    ap length front-parts,
    length-append commands (section_headers laid ++ later),
    length-append (section_headers laid) later,
    length-front_commands f works,
    length-section_headers laid,
    length-later,
  )

  front-header :
      (i : ℕ) (l : SecLaid)
      → get_elem? laid i ≡ some l
      → slice (104 + i * 80) 80 (front f (symbol_table f.sections) works laid sym_off)
        ≡ encode_section (header_of l)
  unfolding commands
  front-header i l at =
      ap (slice (104 + i * 80) 80) front-parts
      ∙ slice-behind (i * 80) 80 104 commands (section_headers laid ++ later)
          (sym (length-front_commands f works))
      ∙ slice-append_left (i * 80) 80 (section_headers laid) later
          (omega (arith, length-section_headers laid, get_elem?-lt i laid l at))
      ∙ section_headers-header laid i l at

-- The entry of a section in a file that build made, of sections whose contents fit, and the contents
-- of a section that is not filled with zeros.
pub build-Standing :
    (f : File) (out : Bytes) (i : ℕ) (s : Section)
    → build f ≡ ok out
    → Fits f.sections
    → get_elem? f.sections i ≡ some s
    → (l : SecLaid) × WorkOf f (symbol_table f.sections).sym_defs i s l.work
      × (slice (104 + i * 80) 80 out ≡ encode_section (header_of l))
      × (zero_filled l.work ≡ false
          → (l.data_off + block_size l.work < 2 ^ 32) × PointsToRelocs l × Standing out l)
build-Standing f out i s h fits at =
    let b = build-Built f h in
    let m = (symbol_table f.sections).sym_defs in
    let sizes = WorksOf-sizes f m 0 f.sections b.works b.works_of in
    let start = data_start f.build_version (length b.works) in
    let laid = layout start b.works in
    let whole = front f (symbol_table f.sections) b.works laid.0 laid.1 in
    let begin = data_start_lem f.build_version (length b.works) (omega (arith, sizes.2, fits)) in
    let flag : (if f.build_version then 24 else 0) ≤ 24 = ground arith in
    let placed =
      layout_lem start b.works sizes.0 (omega (arith, begin, flag, sizes.1, sizes.2, fits)) in
    let count : length laid.0 ≡ length b.works =
      sym (length-map (λ (l : SecLaid). l.work) laid.0) ∙ ap length (layout-work start b.works) in
    let (w, at_w, work) = WorksOf-get_elem? f m 0 i f.sections b.works s b.works_of at in
    let index : 0 + i ≡ i = omega arith in
    let (l, at_l, same) =
      get_elem?-map (λ (l : SecLaid). l.work) laid.0 i
        (ap (λ ws. get_elem? ws i) (layout-work start b.works) ∙ at_w) in
    let standing =
      write_blocks-IsPlaced start laid.1 laid.0 whole placed.0
        (omega (arith, length-front f b.works laid.0 laid.1, begin, count))
        (omega (arith, placed.1, begin, flag, sizes.1, sizes.2, fits)) b.written b.more in
    let all = Extends-trans (write_blocks-Extends whole laid.0 b.written) b.more in
    (
      l,
      subst (WorkOf f m i s) (sym same) (subst (λ n. WorkOf f m n s w) index work),
      ap (slice (104 + i * 80) 80) all.shape
          ∙ slice-append_left (104 + i * 80) 80 whole all.added
              (omega (arith, length-front f b.works laid.0 laid.1, get_elem?-lt i laid.0 l at_l))
          ∙ front-header f b.works laid.0 laid.1 i l at_l,
      λ raw. (
        omega (
          arith,
          (Laid-get_elem? start laid.1 laid.0 i l placed.0 at_l raw).0,
          placed.1,
          begin,
          flag,
          sizes.1,
          sizes.2,
          fits,
        ),
        (Laid-get_elem? start laid.1 laid.0 i l placed.0 at_l raw).1,
        All-get_elem? (IsPlaced out) laid.0 i standing.0 at_l raw,
      ),
    )
