-- ===== src/Macho/Sections/Laws.antt =====
-- What `sectionMeta` of macho/write.go says of sizes and alignment.
use objectfile.Prelude.{
  ℕ, ◌+◌, ◌≤◌, ◌<◌, ◌^◌, ◌≡◌, refl, false, Bool-cases, Option-cases, inl, inr, length, arith, ltb,
}
use mathlib.Core.Path.{subst}
use objectfile.Prelude.Bits.{u32}
use objectfile.Prelude.Bytes.{Bytes}
use objectfile.Prelude.Result.{ok, ok-injective}
use objectfile.Object.{
  Section, SectionKind, section_text, section_data, section_ro_data, section_bss, section_unwind,
  section_init_array, section_fini_array, section_tls, section_custom, other_section,
}
use objectfile.Macho.Sections.{
  SecMeta, ea, regular, zerofill, index_comma, custom_meta, meta_of_kind, section_meta,
}

-- The alignment is that of the section or a default up to 16, and a section with bytes in the file
-- has the size of its code; the flags are a uint32.
abbrev pub IsSized : Section → SecMeta → Type 0
IsSized s m =
    (m.align ≤ s.align + 16)
    × (m.is_zerofill ≡ false → m.raw_size ≡ u32 (length s.code))
    × (m.flags < 2 ^ 32)

ea-le : (s : Section) (dflt : ℕ) → dflt ≤ 16 → ea s dflt ≤ s.align + 16
unfolding ea
ea-le s dflt h = ground arith

regular-IsSized :
    (s : Section) (seg sect : Bytes) (flags dflt : ℕ)
    → dflt ≤ 16
    → flags < 2 ^ 32
    → IsSized s (regular s seg sect flags dflt)
unfolding regular
regular-IsSized s seg sect flags dflt h small = (ea-le s dflt h, λ _. refl, small)

zerofill-IsSized : (s : Section) (sect : Bytes) → IsSized s (zerofill s sect)
unfolding zerofill
zerofill-IsSized s sect = (ea-le s 8 (omega arith), λ e. absurd (cc), omega arith)

meta_of_kind-IsSized :
    (k : SectionKind) (i : ℕ) (s : Section) {m : SecMeta} → meta_of_kind k i s ≡ ok m → IsSized s m
unfolding meta_of_kind custom_meta
meta_of_kind-IsSized section_custom i s h = elim (Option-cases (index_comma s.custom)) [
  | inl missing ↦ absurd (cc (rw (missing, meta_of_kind, custom_meta) at h))
  | inr (comma, found) ↦
      subst (IsSized s) (ok-injective (rw (found, meta_of_kind, custom_meta) at h))
        (regular-IsSized s _ _ _ 1 (omega arith) (omega arith))
]
meta_of_kind-IsSized section_tls i s h = elim (Bool-cases (ltb 0 (length s.code))) [
  | inl code ↦
      subst (IsSized s) (ok-injective (rw (code, meta_of_kind) at h))
        (regular-IsSized s _ _ _ 8 (omega arith) (omega arith))
  | inr empty ↦
      subst (IsSized s) (ok-injective (rw (empty, meta_of_kind) at h)) (zerofill-IsSized s _)
]
meta_of_kind-IsSized (other_section n) i s h = cc
meta_of_kind-IsSized section_bss i s h = subst (IsSized s) (ok-injective h) (zerofill-IsSized s _)
meta_of_kind-IsSized section_text i s h =
    subst (IsSized s) (ok-injective h) (regular-IsSized s _ _ _ 16 (omega arith) (omega arith))
meta_of_kind-IsSized section_data i s h =
    subst (IsSized s) (ok-injective h) (regular-IsSized s _ _ _ 8 (omega arith) (omega arith))
meta_of_kind-IsSized section_ro_data i s h =
    subst (IsSized s) (ok-injective h) (regular-IsSized s _ _ _ 8 (omega arith) (omega arith))
meta_of_kind-IsSized section_unwind i s h =
    subst (IsSized s) (ok-injective h) (regular-IsSized s _ _ _ 4 (omega arith) (omega arith))
meta_of_kind-IsSized section_init_array i s h =
    subst (IsSized s) (ok-injective h) (regular-IsSized s _ _ _ 8 (omega arith) (omega arith))
meta_of_kind-IsSized section_fini_array i s h =
    subst (IsSized s) (ok-injective h) (regular-IsSized s _ _ _ 8 (omega arith) (omega arith))

pub section_meta-IsSized :
    (i : ℕ) (s : Section) {m : SecMeta} → section_meta i s ≡ ok m → IsSized s m
unfolding section_meta
section_meta-IsSized i s h = meta_of_kind-IsSized s.kind i s h
