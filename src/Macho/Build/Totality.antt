-- ===== src/Macho/Build/Totality.antt =====
-- When build of macho/write.go returns a file.
use objectfile.Prelude.{
  ℕ, ◌≡◌, ◌↔◌, inl, inr, refl, ◌∙◌, sym, true, Bool-cases, List, [], ◌∷◌, ◌++◌, map, length, arith,
  All, some,
}
use mathlib.Core.Path.{subst, ap₂}
use objectfile.Prelude.Bytes.{Bytes}
use objectfile.Prelude.Result.{ok, >>=-eq-ok}
use objectfile.Prelude.Table.{Table}
use objectfile.Object.{Section, Reloc}
use objectfile.Offsets.{pad_to}
use objectfile.Macho.Addends.{apply_addend, apply_implicit_addends}
use objectfile.Macho.Build.{front, emit_file, build, nlist_bytes, str_off}
use objectfile.Macho.File.{File, RelocDesc}
use objectfile.Macho.Layout.{
  data_start, zero_filled, SecLaid, place, layout, block, reloc_bytes, write_block, write_blocks,
}
use objectfile.Macho.Relocs.{SecWork, section_descs, section_metas, section_records}
use objectfile.Macho.Relocs.Laws.{DescsOf, WorksOf, section_records-WorksOf}
use objectfile.Macho.Relocs.Totality.{HasKinds, HasMeta, phases-total, WorksOf-needs}
use objectfile.Macho.Symbols.{SymEntry, SymState, symbol_table}
use objectfile.Macho.Symbols.Coverage.{is_entered, has_entry-symbol_table}

-- The symbols of the relocations of a section have entries, or are external.
abbrev pub HasNames : List Section → Section → Type 0
HasNames sections s = All (λ (r : Reloc). is_entered sections r.symbol ≡ true) s.relocs

abbrev pub IsBuildable : File → Type 0
IsBuildable f =
    All (HasKinds f) f.sections × All HasMeta f.sections × All (HasNames f.sections) f.sections

-- There is a descriptor for each relocation.
abbrev HasDescs : File → SecWork → Type 0
HasDescs f w = DescsOf f w.sec.relocs w.descs

apply_implicit_addends-total :
    (f : File) (code : Bytes) (rs : List Reloc) (ds : List RelocDesc)
    → DescsOf f rs ds
    → (out : Bytes) × (apply_implicit_addends code rs ds ≡ some out)
unfolding apply_implicit_addends
apply_implicit_addends-total f code [] ds h = (code, refl)
apply_implicit_addends-total f code (r ∷ rs) [] h = absurd h
apply_implicit_addends-total f code (r ∷ rs) (d ∷ ds) h =
    apply_implicit_addends-total f (apply_addend code r d) rs ds h.1

WorksOf-HasDescs :
    (f : File) (m : Table SymEntry) (i : ℕ) (ss : List Section) (ws : List SecWork)
    → WorksOf f m i ss ws
    → All (HasDescs f) ws
WorksOf-HasDescs f m i [] [] h = tt
WorksOf-HasDescs f m i [] (w ∷ ws) h = absurd h
WorksOf-HasDescs f m i (s ∷ ss) [] h = absurd h
WorksOf-HasDescs f m i (s ∷ ss) (w ∷ ws) h =
    (subst (λ x. DescsOf f x.relocs w.descs) (sym h.0) h.2, WorksOf-HasDescs f m _ ss ws h.4)

place-work : (pos : ℕ) (w : SecWork) → (place pos w).0.work ≡ w
unfolding place
place-work pos w = ground arith

pub layout-work :
    (pos : ℕ) (ws : List SecWork) → map (λ (l : SecLaid). l.work) (layout pos ws).0 ≡ ws
unfolding layout
layout-work pos [] = refl
layout-work pos (w ∷ ws) = ap₂ (λ a b. a ∷ b) (place-work pos w) (layout-work (place pos w).1 ws)

write_blocks-total :
    (f : File) (out : Bytes) (ls : List SecLaid)
    → All (HasDescs f) (map (λ (l : SecLaid). l.work) ls)
    → (final : Bytes) × (write_blocks out ls ≡ ok final)
unfolding write_blocks write_block block
write_blocks-total f out [] h = (out, refl)
write_blocks-total f out (l ∷ ls) h =
    let w = l.work in
    let (code, applied) = apply_implicit_addends-total f w.sec.code w.sec.relocs w.descs h.0 in
    elim (Bool-cases (zero_filled w)) [
      | inl zero_fill ↦
          let (final, rest) = write_blocks-total f out ls h.1 in (final, rw zero_fill rest)
      | inr raw ↦
          let next = pad_to out l.data_off ++ (code ++ reloc_bytes w.records) in
          let (final, rest) = write_blocks-total f next ls h.1 in
          (final, rw raw (rw (applied, block) rest))
    ]

emit_file-total :
    (f : File) (table : SymState) (works : List SecWork)
    → All (HasDescs f) works
    → (out : Bytes) × (emit_file f table works ≡ ok out)
unfolding emit_file
emit_file-total f table works h =
    let start = data_start f.build_version (length works) in
    let laid = layout start works in
    let (contents, written) =
      write_blocks-total f (front f table works laid.0 laid.1) laid.0
        (subst (All (HasDescs f)) (sym (layout-work start works)) h) in
    let symbols = pad_to contents laid.1 ++ nlist_bytes table.syms in
    (pad_to symbols (str_off laid.1 (length table.syms)) ++ table.strtab.payload, rw written refl)

All-map {ℓ κ λ'} :
    {A : Type ℓ} {P : A → Type κ} {Q : A → Type λ'} (xs : List A)
    → ((x : A) → P x → Q x)
    → All P xs
    → All Q xs
All-map [] step h = tt
All-map (x ∷ xs) step h = (step x h.0, All-map xs step h.1)

-- A file is built exactly when the CPU has the kinds of all relocations, the kind of each section is
-- declared, custom names have a comma, and each relocation names a local, global or weak symbol, or
-- one that no section has and that is not empty.
pub build-IsBuildable : (f : File) → IsBuildable f ↔ ((out : Bytes) × (build f ≡ ok out))
unfolding build
build-IsBuildable f =
    let table = symbol_table f.sections in
    (
      λ h.
          let targets =
            All-map f.sections
              (λ s.
                All-map s.relocs (λ (r : Reloc) e. has_entry-symbol_table r.symbol f.sections ∙ e))
              h.2 in
          let (ps, ds, ws, h₁, h₂, h₃) = phases-total f table.sym_defs f.sections h.0 h.1 targets in
          let (out, emitted) = emit_file-total f table ws (
            WorksOf-HasDescs f table.sym_defs 0 f.sections ws
              (section_records-WorksOf f table.sym_defs f.sections h₁ h₂ h₃)) in
          (out, rw h₁ (rw h₂ (rw h₃ emitted))),
      λ h.
          let (ps, h₁, r₁) = >>=-eq-ok (section_descs f 0 f.sections) _ h.1 in
          let (ds, h₂, r₂) = >>=-eq-ok (section_metas 0 ps) _ r₁ in
          let (ws, h₃, _) = >>=-eq-ok (section_records f table.sym_defs 0 ds) _ r₂ in
          let needs =
            WorksOf-needs f table.sym_defs 0 f.sections ws
              (section_records-WorksOf f table.sym_defs f.sections h₁ h₂ h₃) in
          (
            needs.0,
            needs.1,
            All-map f.sections
                (λ s.
                  All-map s.relocs
                    (λ (r : Reloc) e. sym (has_entry-symbol_table r.symbol f.sections) ∙ e))
                needs.2,
          ),
    )
