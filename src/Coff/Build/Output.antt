-- ===== src/Coff/Build/Output.antt =====
-- The file that build of coff/write.go returns, taken apart.
use objectfile.Prelude.{
  ℕ, zero, suc, ◌+◌, ◌*◌, ◌^◌, ◌≤◌, ◌<◌, ◌≡◌, refl, sym, ap, ◌∙◌, false, some, List, [], ◌∷◌, ◌++◌,
  append_assoc, arith, length, length-append, length-map, All, All-get_elem?, get_elem?,
  get_elem?-map, slice, slice-append, slice-append_left, slice-behind, drop, drop-length-append,
}
use mathlib.Core.Option.{some-injective}
use mathlib.Core.Path.{subst}
use objectfile.Prelude.Bytes.{Bytes, Extends, Extends-trans}
use objectfile.Prelude.Result.{ok, >>=-eq-ok, ok-injective}
use objectfile.Prelude.Table.{Table}
use objectfile.Object.{Section}
use objectfile.Offsets.{pad_to, length-pad_to, pad_to-Extends}
use objectfile.Coff.Build.{
  check_count, check_names, section_headers, slot_bytes, header_end, file_header, emit_file,
  build_sections, build,
}
use objectfile.Coff.Build.Headers.{length-section_headers}
use objectfile.Coff.File.{File}
use objectfile.Coff.Format.{encode_file_hdr}
use objectfile.Coff.Format.Decode.{length-encode_file_hdr}
use objectfile.Coff.Layout.{SecLaid, layout, write_blocks}
use objectfile.Coff.Layout.Bounds.{
  block_size, footprint, PointsToRelocs, BssIsBare, Laid, Laid-get_elem?, layout-Laid, layout-work,
  layout-BssIsBare,
}
use objectfile.Coff.Layout.Placement.{IsPlaced, write_blocks-Extends, write_blocks-IsPlaced}
use objectfile.Coff.Relocs.{SecWork, section_relocs}
use objectfile.Coff.Relocs.Laws.{RecordsOf, RecordsOf-length, WorksOf, section_relocs-WorksOf}
use objectfile.Coff.Sections.{with_drectve, effective_align, is_bss_like}
use objectfile.Coff.Strtab.{table_bytes}
use objectfile.Coff.Symbols.{symbol_table}

-- Room enough for the contents of the sections, wherever they start.
abbrev pub room : List Section → ℕ
room [] = 0
room (s ∷ ss) = effective_align s + (length s.code + 10 * length s.relocs) + room ss

-- Headers and contents fit below 4 GiB.
abbrev pub Fits : List Section → Type 0
Fits sections = 20 + length sections * 40 + room sections < 2 ^ 32

pub WorksOf-footprint :
    (f : File) (m : Table ℕ) (ss : List Section) (ws : List SecWork)
    → WorksOf f m ss ws
    → (footprint ws ≡ room ss) × (length ws ≡ length ss)
WorksOf-footprint f m [] [] h = (refl, refl)
WorksOf-footprint f m [] (w ∷ ws) h = absurd h
WorksOf-footprint f m (s ∷ ss) [] h = absurd h
WorksOf-footprint f m (s ∷ ss) (w ∷ ws) h =
    let rest = WorksOf-footprint f m ss ws h.2 in
    let many = RecordsOf-length f m s.relocs w.records w.rtypes h.1 in
    rw h.0 (omega (arith, rest, many.0))

pub WorksOf-get_elem? :
    (f : File) (m : Table ℕ) (ss : List Section) (ws : List SecWork) (i : ℕ) (s : Section)
    → WorksOf f m ss ws
    → get_elem? ss i ≡ some s
    → (w : SecWork) × (get_elem? ws i ≡ some w)
      × (w.sec ≡ s)
      × RecordsOf f m s.relocs w.records w.rtypes
WorksOf-get_elem? f m [] ws i s h at = absurd (ground arith)
WorksOf-get_elem? f m (q ∷ ss) [] i s h at = absurd h
WorksOf-get_elem? f m (q ∷ ss) (w ∷ ws) zero s h at =
    let same = some-injective _ _ at in
    (w, refl, h.0 ∙ same, subst (λ x. RecordsOf f m x.relocs w.records w.rtypes) same h.1)
WorksOf-get_elem? f m (q ∷ ss) (w ∷ ws) (suc i) s h at = WorksOf-get_elem? f m ss ws i s h.2 at

-- The results of the phases behind a file.
pub record Built (f : File) (sections : List Section) (out : Bytes) : Type 0 where
  pub works : List SecWork
  pub laid : List SecLaid
  pub end : ℕ
  pub contents : Bytes
  pub counted : length sections ≤ 0xffff
  pub relocated : WorksOf f (symbol_table sections).sym_idx sections works
  pub placed : layout (header_end (length sections)) works ≡ ok (laid, end)
  pub written :
      write_blocks f.machine
        (encode_file_hdr (file_header f (length laid) end (length (symbol_table sections).slots))
          ++ (section_headers (symbol_table sections).strtab laid).1)
        laid
      ≡ ok contents
  pub shape :
      out
      ≡ pad_to contents end
        ++ (slot_bytes (symbol_table sections).slots
            ++ table_bytes (section_headers (symbol_table sections).strtab laid).0)

check_count-ok :
    (sections : List Section) {u : Unit {0}}
    → check_count sections ≡ ok u
    → length sections ≤ 0xffff
unfolding check_count
check_count-ok sections h = ground arith

pub build-Built :
    (f : File) {out : Bytes} → build f ≡ ok out → Built f (with_drectve f.sections) out
unfolding build build_sections emit_file
build-Built f h =
    let sections = with_drectve f.sections in
    let table = symbol_table sections in
    let (_, count, h₁) = >>=-eq-ok (check_count sections) _ h in
    let (_, _, h₂) = >>=-eq-ok (check_names 0 sections) _ h₁ in
    let (works, found, h₃) = >>=-eq-ok (section_relocs f table.sym_idx sections) _ h₂ in
    let (placed, laid, h₄) = >>=-eq-ok (layout (header_end (length sections)) works) _ h₃ in
    let (contents, written, h₅) = >>=-eq-ok (write_blocks f.machine _ placed.0) _ h₄ in
    record {
      works = works;
      laid = placed.0;
      end = placed.1;
      contents = contents;
      counted = check_count-ok sections count;
      relocated = section_relocs-WorksOf f table.sym_idx sections found;
      placed = laid;
      written = written;
      shape = sym (ok-injective h₅);
    }

-- What stands where in a file whose contents fit.
module _ (f : File) (sections : List Section) {out : Bytes} (b : Built f sections out)
    (fits : Fits sections) where
  front : Bytes
  front =
      encode_file_hdr (file_header f (length b.laid) b.end (length (symbol_table sections).slots))
      ++ (section_headers (symbol_table sections).strtab b.laid).1

  pub length-laid : length b.laid ≡ length sections
  length-laid =
      sym (length-map (λ (l : SecLaid). l.work) b.laid)
      ∙ ap length (layout-work (header_end (length sections)) b.works b.placed)
      ∙ (WorksOf-footprint f (symbol_table sections).sym_idx sections b.works b.relocated).1

  length-front : length front ≡ 20 + 40 * length sections
  unfolding front
  length-front =
      let hdr = file_header f (length b.laid) b.end (length (symbol_table sections).slots) in
      let headers = section_headers (symbol_table sections).strtab b.laid in
      omega (
        arith,
        length-append (encode_file_hdr hdr) headers.1,
        length-encode_file_hdr hdr,
        length-section_headers (symbol_table sections).strtab b.laid,
        length-laid,
      )

  start : header_end (length sections) ≡ 20 + 40 * length sections
  unfolding header_end
  start = omega (arith, b.counted)

  laid-Laid :
      Laid (header_end (length sections)) b.laid b.end
      × (b.end ≤ header_end (length sections) + footprint b.works)
  laid-Laid =
      let same = WorksOf-footprint f (symbol_table sections).sym_idx sections b.works b.relocated in
      layout-Laid (header_end (length sections)) b.works (omega (arith, start, same.0)) b.placed

  pub end-lt : b.end < 2 ^ 32
  end-lt =
      let same = WorksOf-footprint f (symbol_table sections).sym_idx sections b.works b.relocated in
      omega (arith, laid-Laid.1, start, same.0)

  out-Extends : Extends b.contents out
  out-Extends =
      let behind =
        slot_bytes (symbol_table sections).slots
        ++ table_bytes (section_headers (symbol_table sections).strtab b.laid).0 in
      Extends-trans (pad_to-Extends b.contents b.end) (record { added = behind; shape = b.shape })

  contents-IsPlaced : All (IsPlaced f.machine out) b.laid × (length b.contents ≤ b.end)
  unfolding front
  contents-IsPlaced =
      write_blocks-IsPlaced f.machine (header_end (length sections)) b.end b.laid front laid-Laid.0
        (omega (arith, length-front, start)) end-lt b.written out-Extends

  -- Each section has its place.
  pub section_laid :
      (i : ℕ) (s : Section)
      → get_elem? sections i ≡ some s
      → (l : SecLaid) × (get_elem? b.laid i ≡ some l)
        × (l.work.sec ≡ s)
        × RecordsOf f (symbol_table sections).sym_idx s.relocs l.work.records l.work.rtypes
        × IsPlaced f.machine out l
  section_laid i s at =
      let (w, found, sec, records) =
        WorksOf-get_elem? f (symbol_table sections).sym_idx sections b.works i s b.relocated at in
      let works = layout-work (header_end (length sections)) b.works b.placed in
      let (l, place, work) =
        get_elem?-map (λ (l : SecLaid). l.work) b.laid i
          (ap (λ ws. get_elem? ws i) works ∙ found) in
      (
        l,
        place,
        ap (λ w. w.sec) work ∙ sec,
        subst (λ v. RecordsOf f (symbol_table sections).sym_idx s.relocs v.records v.rtypes)
            (sym work) records,
        All-get_elem? (IsPlaced f.machine out) b.laid i contents-IsPlaced.0 place,
      )

  front-Extends : Extends front out
  unfolding front
  front-Extends = Extends-trans (write_blocks-Extends f.machine front b.laid b.written) out-Extends

  padded : length (pad_to b.contents b.end) ≡ b.end
  padded = length-pad_to b.contents b.end contents-IsPlaced.1 end-lt

  -- What the header of a section points to lies before the symbol table.
  pub section_bounds :
      (i : ℕ) (l : SecLaid)
      → get_elem? b.laid i ≡ some l
      → is_bss_like l.work.sec ≡ false
      → (l.raw_off + block_size l.work ≤ b.end) × PointsToRelocs l
  section_bounds i l at raw =
      Laid-get_elem? (header_end (length sections)) b.end b.laid i l laid-Laid.0 at raw

  -- A section without raw bytes has no offsets.
  pub section_bare : (i : ℕ) (l : SecLaid) → get_elem? b.laid i ≡ some l → BssIsBare l
  section_bare i l at =
      All-get_elem? BssIsBare b.laid i
        (layout-BssIsBare (header_end (length sections)) b.works b.placed) at

  -- The symbol table, and the string table behind it.
  pub tables :
      (slice b.end (length (slot_bytes (symbol_table sections).slots)) out
        ≡ slot_bytes (symbol_table sections).slots)
      × (drop (b.end + length (slot_bytes (symbol_table sections).slots)) out
          ≡ table_bytes (section_headers (symbol_table sections).strtab b.laid).0)
  tables =
      let slots = slot_bytes (symbol_table sections).slots in
      let names = table_bytes (section_headers (symbol_table sections).strtab b.laid).0 in
      (
        ap (slice b.end (length slots)) b.shape
            ∙ slice-append b.end (length slots) (pad_to b.contents b.end) slots names (sym padded)
                refl,
        ap (drop (b.end + length slots))
              (b.shape ∙ sym (append_assoc (pad_to b.contents b.end) slots names))
            ∙ drop-length-append (b.end + length slots) (pad_to b.contents b.end ++ slots) names
                (omega (arith, length-append (pad_to b.contents b.end) slots, padded)),
      )

  -- The section header of index `i`.
  pub slice-headers :
      (i : ℕ)
      → i < length sections
      → slice (20 + i * 40) 40 out
        ≡ slice (i * 40) 40 (section_headers (symbol_table sections).strtab b.laid).1
  unfolding front
  slice-headers i h =
      let hdr = file_header f (length b.laid) b.end (length (symbol_table sections).slots) in
      let headers = section_headers (symbol_table sections).strtab b.laid in
      ap (slice (20 + i * 40) 40) front-Extends.shape
      ∙ slice-append_left (20 + i * 40) 40 front front-Extends.added (omega (arith, length-front))
      ∙ slice-behind (i * 40) 40 20 (encode_file_hdr hdr) headers.1
          (sym (length-encode_file_hdr hdr))

  -- The file header.
  pub header_shape :
      (rest : Bytes) × (out
        ≡ encode_file_hdr
            (file_header f (length b.laid) b.end (length (symbol_table sections).slots))
          ++ rest)
  unfolding front
  header_shape =
      let hdr = file_header f (length b.laid) b.end (length (symbol_table sections).slots) in
      let headers = section_headers (symbol_table sections).strtab b.laid in
      (
        headers.1 ++ front-Extends.added,
        front-Extends.shape ∙ append_assoc (encode_file_hdr hdr) headers.1 front-Extends.added,
      )
