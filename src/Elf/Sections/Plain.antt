-- ===== src/Elf/Sections/Plain.antt =====
-- The types of content sections: none is that of a symbol table, a group or a RELA section.
use objectfile.Prelude.{ℕ, ◌≡◌, refl, false, Bool-cases, inl, inr, length, ltb, ◌==◌}
use objectfile.Object.{Section, SectionKind, section_tls}
use objectfile.Elf.Consts.{sht_sym_tab, sht_rela, sht_group}
use objectfile.Elf.Format.{Class}
use objectfile.Elf.Sections.{SecDesc, desc_of_kind, content_desc}

-- A type that has no link.
abbrev pub IsPlain : SecDesc → Type 0
IsPlain d =
    ((d.sh_type == sht_sym_tab) ≡ false)
    × ((d.sh_type == sht_group) ≡ false)
    × ((d.sh_type == sht_rela) ≡ false)

desc_of_kind-IsPlain : (word : ℕ) (k : SectionKind) (s : Section) → IsPlain (desc_of_kind word k s)
unfolding desc_of_kind
desc_of_kind-IsPlain word section_tls s = elim (Bool-cases (ltb 0 (length s.code))) [
  | inl code ↦ rw (code, desc_of_kind) (refl, refl, refl)
  | inr empty ↦ rw (empty, desc_of_kind) (refl, refl, refl)
]
desc_of_kind-IsPlain word _ s = (refl, refl, refl)

pub content_desc-IsPlain : (c : Class) (s : Section) → IsPlain (content_desc c s)
unfolding content_desc
content_desc-IsPlain c s = desc_of_kind-IsPlain c.word_align s.kind s
