-- ===== src/Coff/Build/Totality.antt =====
-- When build of coff/write.go returns a file.
use objectfile.Prelude.{
  ℕ, suc, ◌≤◌, ◌≡◌, ◌↔◌, inl, inr, refl, sym, ap, ◌∙◌, true, false, ◌&&◌, Bool-cases, List, [], ◌∷◌,
  ◌++◌, map, arith, length, All, ltb,
}
use mathlib.Core.Path.{subst}
use objectfile.Prelude.Bytes.{Bytes, bytes_eq, bytes_eq_iff}
use objectfile.Prelude.Result.{ok, >>=-eq-ok}
use objectfile.Prelude.Table.{Table}
use objectfile.Loops.{has_key}
use objectfile.Object.{Section, Reloc}
use objectfile.Offsets.{pad_to}
use objectfile.Elf.Externals.Laws.{relocates, references}
use objectfile.Coff.Addends.{apply_implicit_addends-outside}
use objectfile.Coff.Build.{
  check_count, check_names, section_headers, slot_bytes, header_end, file_header, emit_file,
  build_sections, build,
}
use objectfile.Coff.Build.Output.{build-Built}
use objectfile.Coff.File.{File, reloc_type}
use objectfile.Coff.Format.{CoffReloc, encode_file_hdr}
use objectfile.Coff.Layout.{
  SecLaid, placed, place, layout, block, write_block, write_blocks, reloc_bytes,
}
use objectfile.Coff.Layout.Bounds.{layout-work}
use objectfile.Coff.Relocs.{SecWork}
use objectfile.Coff.Relocs.Laws.{
  is_supported, IsResolvable, RecordsOf, RecordsOf-length, WorksOf, section_relocs-WorksOf,
  section_relocs-total,
}
use objectfile.Coff.Sections.{is_bss_like, is_custom, with_drectve}
use objectfile.Coff.Strtab.{table_bytes}
use objectfile.Coff.Symbols.{SymState, symbol_table}
use objectfile.Coff.Symbols.Coverage.{has_slot-symbol_table}

-- What the checks ask of one section: a name for a custom section, kinds that the machine has, and
-- a count of relocations that fits a uint16 where there are raw bytes.
abbrev pub IsNamed : Section → Type 0
IsNamed s = (is_custom s.kind && bytes_eq s.custom []) ≡ false

abbrev pub HasKinds : File → Section → Type 0
HasKinds f s = All (λ (r : Reloc). is_supported f r.kind ≡ true) s.relocs

abbrev pub IsCounted : Section → Type 0
IsCounted s = is_bss_like s ≡ false → length s.relocs ≤ 0xffff

abbrev pub IsBuildable : File → List Section → Type 0
IsBuildable f sections =
    (length sections ≤ 0xffff)
    × All IsNamed sections
    × All (HasKinds f) sections
    × All IsCounted sections

resolve_relocs :
    (f : File) (m : Table ℕ) (rs : List Reloc)
    → ((k : Bytes) → relocates k rs ≡ true → has_key k m ≡ true)
    → All (λ (r : Reloc). is_supported f r.kind ≡ true) rs
    → All (IsResolvable f m) rs
resolve_relocs f m [] entered h = tt
resolve_relocs f m (r ∷ rs) entered h = (
  (entered r.symbol (rw ((bytes_eq_iff r.symbol r.symbol).1 refl)), h.0),
  resolve_relocs f m rs (λ k used. entered k (rw used (ground arith))) h.1,
)

resolve_sections :
    (f : File) (m : Table ℕ) (ss : List Section)
    → ((k : Bytes) → references k ss ≡ true → has_key k m ≡ true)
    → All (HasKinds f) ss
    → All (λ s. All (IsResolvable f m) s.relocs) ss
resolve_sections f m [] entered h = tt
resolve_sections f m (s ∷ ss) entered h = (
  resolve_relocs f m s.relocs (λ k used. entered k (rw used)) h.0,
  resolve_sections f m ss (λ k used. entered k (rw used (ground arith))) h.1,
)

check_names-total : (i : ℕ) (ss : List Section) → All IsNamed ss → check_names i ss ≡ ok tt
unfolding check_names
check_names-total i [] h = refl
check_names-total i (s ∷ ss) h = rw (h.0) (check_names-total (suc i) ss h.1)

check_names-IsNamed :
    (i : ℕ) (ss : List Section) {u : Unit {0}} → check_names i ss ≡ ok u → All IsNamed ss
unfolding check_names
check_names-IsNamed i [] h = tt
check_names-IsNamed i (s ∷ ss) h = elim (Bool-cases (is_custom s.kind && bytes_eq s.custom [])) [
  | inl empty ↦ absurd (cc (rw empty at h))
  | inr named ↦ (named, check_names-IsNamed (suc i) ss (rw named at h))
]

-- The counts of the records.
abbrev FewRecords : SecWork → Type 0
FewRecords w = is_bss_like w.sec ≡ false → length w.records ≤ 0xffff

place-total :
    (pos : ℕ) (w : SecWork) → FewRecords w → (here : SecLaid × ℕ) × (place pos w ≡ ok here)
unfolding place
place-total pos w few = elim (Bool-cases (is_bss_like w.sec)) [
  | inl bss ↦ ((record { work = w; raw_off = 0; reloc_off = 0; n_relocs = 0 }, pos), rw bss)
  | inr raw ↦ (placed pos w, rw raw (rw (not_many (few raw))))
]
  where
    not_many : {n : ℕ} → n ≤ 0xffff → ltb 0xffff n ≡ false
    not_many h = ground arith

layout-total :
    (pos : ℕ) (ws : List SecWork)
    → All FewRecords ws
    → (laid : List SecLaid × ℕ) × (layout pos ws ≡ ok laid)
unfolding layout
layout-total pos [] h = (([], pos), refl)
layout-total pos (w ∷ ws) h =
    let (here, placed_here) = place-total pos w h.0 in
    let (rest, later) = layout-total here.1 ws h.1 in
    ((here.0 ∷ rest.0, rest.1), rw placed_here (rw later))

place-FewRecords :
    (pos : ℕ) (w : SecWork) {here : SecLaid × ℕ} → place pos w ≡ ok here → FewRecords w
unfolding place
place-FewRecords pos w h raw = elim (Bool-cases (ltb 0xffff (length w.records))) [
  | inl many ↦ absurd (cc (rw many at (rw raw at h)))
  | inr few ↦ ground arith
]

layout-FewRecords :
    (pos : ℕ) (ws : List SecWork) {laid : List SecLaid × ℕ}
    → layout pos ws ≡ ok laid
    → All FewRecords ws
unfolding layout
layout-FewRecords pos [] h = tt
layout-FewRecords pos (w ∷ ws) h =
    let (here, placed_here, h₁) = >>=-eq-ok (place pos w) _ h in
    let (rest, later, h₂) = >>=-eq-ok (layout here.1 ws) _ h₁ in
    (place-FewRecords pos w placed_here, layout-FewRecords here.1 ws later)

-- The counts of the sections are those of their records.
WorksOf-FewRecords :
    (f : File) (m : Table ℕ) (ss : List Section) (ws : List SecWork)
    → WorksOf f m ss ws
    → All IsCounted ss ↔ All FewRecords ws
WorksOf-FewRecords f m [] [] h = (λ _. tt, λ _. tt)
WorksOf-FewRecords f m [] (w ∷ ws) h = absurd h
WorksOf-FewRecords f m (s ∷ ss) [] h = absurd h
WorksOf-FewRecords f m (s ∷ ss) (w ∷ ws) h =
    let rest = WorksOf-FewRecords f m ss ws h.2 in
    let many = (RecordsOf-length f m s.relocs w.records w.rtypes h.1).0 in
    let sec = ap is_bss_like h.0 in
    (
      λ c. (λ raw. omega (arith, many, c.0 (sym sec ∙ raw)), rest.0 c.1),
      λ c. (λ raw. omega (arith, many, c.0 (sec ∙ raw)), rest.1 c.1),
    )

-- No panic: there is a type for each relocation.
abbrev HasTypes : SecWork → Type 0
HasTypes w = length w.sec.relocs ≡ length w.rtypes

WorksOf-HasTypes :
    (f : File) (m : Table ℕ) (ss : List Section) (ws : List SecWork)
    → WorksOf f m ss ws
    → All HasTypes ws
WorksOf-HasTypes f m [] [] h = tt
WorksOf-HasTypes f m [] (w ∷ ws) h = absurd h
WorksOf-HasTypes f m (s ∷ ss) [] h = absurd h
WorksOf-HasTypes f m (s ∷ ss) (w ∷ ws) h = (
  ap (λ x. length x.relocs) h.0 ∙ sym (RecordsOf-length f m s.relocs w.records w.rtypes h.1).1,
  WorksOf-HasTypes f m ss ws h.2,
)

write_blocks-total :
    (machine : ℕ) (out : Bytes) (ls : List SecLaid)
    → All HasTypes (map (λ l. l.work) ls)
    → (final : Bytes) × (write_blocks machine out ls ≡ ok final)
unfolding write_blocks write_block block
write_blocks-total machine out [] h = (out, refl)
write_blocks-total machine out (l ∷ ls) h =
    let w = l.work in
    let (code, applied, _, _) =
      apply_implicit_addends-outside w.sec.relocs w.rtypes machine w.sec.code h.0 in
    elim (Bool-cases (is_bss_like w.sec)) [
      | inl bss ↦ let (final, rest) = write_blocks-total machine out ls h.1 in (final, rw bss rest)
      | inr raw ↦
          let next = pad_to out l.raw_off ++ (code ++ reloc_bytes w.records) in
          let (final, rest) = write_blocks-total machine next ls h.1 in
          (final, rw raw (rw (applied, block) rest))
    ]

RecordsOf-supported :
    (f : File) (m : Table ℕ) (rs : List Reloc) (cs : List CoffReloc) (ts : List ℕ)
    → RecordsOf f m rs cs ts
    → All (λ (r : Reloc). is_supported f r.kind ≡ true) rs
unfolding reloc_type
RecordsOf-supported f m [] cs ts h = tt
RecordsOf-supported f m (r ∷ rs) [] ts h = absurd h
RecordsOf-supported f m (r ∷ rs) (c ∷ cs) [] h = absurd h
RecordsOf-supported f m (r ∷ rs) (c ∷ cs) (t ∷ ts) h =
    (ground (arith, h.0.2), RecordsOf-supported f m rs cs ts h.2)

WorksOf-HasKinds :
    (f : File) (m : Table ℕ) (ss : List Section) (ws : List SecWork)
    → WorksOf f m ss ws
    → All (HasKinds f) ss
WorksOf-HasKinds f m [] ws h = tt
WorksOf-HasKinds f m (s ∷ ss) [] h = absurd h
WorksOf-HasKinds f m (s ∷ ss) (w ∷ ws) h =
    (RecordsOf-supported f m s.relocs w.records w.rtypes h.1, WorksOf-HasKinds f m ss ws h.2)

check_count-total : (ss : List Section) → length ss ≤ 0xffff → check_count ss ≡ ok tt
unfolding check_count
check_count-total ss h = ground arith

emit_file-total :
    (f : File) (table : SymState) (laid : List SecLaid) (end : ℕ)
    → All HasTypes (map (λ l. l.work) laid)
    → (out : Bytes) × (emit_file f table laid end ≡ ok out)
unfolding emit_file
emit_file-total f table laid end typed =
    let hdr = encode_file_hdr (file_header f (length laid) end (length table.slots)) in
    let headers = section_headers table.strtab laid in
    let (contents, written) = write_blocks-total f.machine (hdr ++ headers.1) laid typed in
    (pad_to contents end ++ (slot_bytes table.slots ++ table_bytes headers.0), rw written)

-- A file is built exactly when, with the directive section, there are at most 65,535 sections,
-- custom sections have names, the machine has the kinds of all relocations, and each section with
-- raw bytes has at most 65,535 of these. So the error for a symbol without an entry never arises.
pub build_iff :
    (f : File) → IsBuildable f (with_drectve f.sections) ↔ ((out : Bytes) × (build f ≡ ok out))
unfolding build build_sections
build_iff f =
    let sections = with_drectve f.sections in
    let table = symbol_table sections in
    (
      λ h.
          let entered : (k : Bytes)
              → references k sections ≡ true
              → has_key k table.sym_idx ≡ true =
            λ k used. has_slot-symbol_table k sections ∙ rw used (ground arith) in
          let (works, found) =
            section_relocs-total f table.sym_idx sections
              (resolve_sections f table.sym_idx sections entered h.2) in
          let of_sections = section_relocs-WorksOf f table.sym_idx sections found in
          let (laid, place) =
            layout-total (header_end (length sections)) works
              ((WorksOf-FewRecords f table.sym_idx sections works of_sections).0 h.3) in
          let typed =
            subst (All HasTypes) (sym (layout-work (header_end (length sections)) works place))
              (WorksOf-HasTypes f table.sym_idx sections works of_sections) in
          let (out, emitted) = emit_file-total f table laid.0 laid.1 typed in
          (
            out,
            rw (check_count-total sections h.0)
                (rw (check_names-total 0 sections h.1) (rw found (rw place emitted))),
          ),
      λ h.
          let (_, named, _) =
            >>=-eq-ok (check_names 0 sections) _ ((>>=-eq-ok (check_count sections) _ h.1).2) in
          let b = build-Built f h.1 in
          (
            b.counted,
            check_names-IsNamed 0 sections named,
            WorksOf-HasKinds f table.sym_idx sections b.works b.relocated,
            (WorksOf-FewRecords f table.sym_idx sections b.works b.relocated).1
                (layout-FewRecords (header_end (length sections)) b.works b.placed),
          ),
    )
