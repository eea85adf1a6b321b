-- ===== src/Macho/Relocs/Targets.antt =====
-- What the relocation records of macho/write.go refer to.
use objectfile.Prelude.{
  ℕ, ◌+◌, ◌/◌, ◌%◌, ◌^◌, ◌<◌, ◌≡◌, refl, ap, ◌∙◌, true, false, not, ◌&&◌, Bool-cases, Option-cases,
  ◌⊎◌, inl, inr, Option, none, some, List, arith, length, get_elem?-lt,
}
use mathlib.Core.Option.{some-injective}
use objectfile.Prelude.Bits.{u8, u32}
use objectfile.Prelude.Bytes.{Bytes, NoNul}
use objectfile.Object.{Section, Reloc, Binding, is_local}
use objectfile.Macho.File.{File, RelocDesc}
use objectfile.Macho.Format.{Nlist, RelocInfo, pack_reloc_info, n_sect}
use objectfile.Macho.Format.Laws.{flag, pack_reloc_info-fields}
use objectfile.Macho.Relocs.{is_arm64_page, target_of, record_of}
use objectfile.Macho.Relocs.Laws.{RecordOf}
use objectfile.Macho.Symbols.{SymEntry, symbol_table}
use objectfile.Macho.Symbols.Index.{Agrees, NamedAt, sym_defs-name}

-- The fields of r_info.
abbrev pub symbol_num : RelocInfo → ℕ
symbol_num c = c.r_info % 2 ^ 24

abbrev pub extern_bit : RelocInfo → ℕ
extern_bit c = c.r_info / 2 ^ 27 % 2

-- The record refers to a symbol by its index, or to the section of a local symbol by its number.
abbrev pub RefersTo : List Section → Bytes → RelocInfo → Nlist → Type 0
RefersTo sections name c e =
    ((extern_bit c ≡ 1) × NamedAt sections (symbol_num c) name e)
    ⊎ ((extern_bit c ≡ 0)
        × (e.n_type ≡ n_sect)
        × (e.sect ≡ u8 (symbol_num c))
        × (idx : ℕ) × NamedAt sections idx name e)

target_of-cases :
    (f : File) (d : RelocDesc) (def : SymEntry)
    → (target_of f d def ≡ (true, def.nlist_idx))
      ⊎ ((i : ℕ) × (def.sect_idx ≡ some i)
          × (is_local def.binding ≡ true)
          × (target_of f d def ≡ (false, u32 (1 + i))))
unfolding target_of
target_of-cases f d def = elim (Option-cases def.sect_idx) [
  | inl undefined ↦ inl (rw (undefined, target_of) refl)
  | inr (i, found) ↦ elim (Bool-cases (is_local def.binding && not (is_arm64_page f d))) [
    | inl relative ↦
        inr (i, found, ground (arith, relative), rw (found, target_of) (rw relative refl))
    | inr external ↦ inl (rw (found, target_of) (rw external refl))
  ]
]

local-Agrees :
    (o : Option ℕ) (b : Binding) (i : ℕ) (e : Nlist)
    → Agrees o b e
    → o ≡ some i
    → is_local b ≡ true
    → (e.n_type ≡ n_sect) × (e.sect ≡ u8 (1 + i))
local-Agrees none b i e h at local = absurd (ground arith)
local-Agrees (some j) b i e h at local =
    let same : j ≡ i = some-injective _ _ at in (rw local at (h.0), rw same at (h.1))

-- A record that a relocation has in the phases of build refers to a symbol table record with the
-- name of the target behind an underscore, or to the section that such a local record is in, and
-- has the offset and the descriptor of the relocation: for names without NUL bytes, in a symbol table
-- of less than 2 ^ 24 records and 2 ^ 32 bytes of names.
pub RecordOf-RefersTo :
    (f : File) (sections : List Section) (r : Reloc) (d : RelocDesc) (c : RelocInfo)
    → length (symbol_table sections).syms < 2 ^ 24
    → length (symbol_table sections).strtab.payload < 2 ^ 32
    → NoNul r.symbol
    → RecordOf f (symbol_table sections).sym_defs r d c
    → ((e : Nlist) × RefersTo sections r.symbol c e)
      × (c.r_address ≡ r.offset)
      × (c.r_info / 2 ^ 24 % 2 ≡ flag d.pcrel)
      × (c.r_info / 2 ^ 25 % 4 ≡ d.width % 4)
      × (c.r_info / 2 ^ 28 ≡ d.rtype % 16)
unfolding record_of
RecordOf-RefersTo f sections r d c few small clean (def, found, shape) =
    let (e, named, agrees) =
      sym_defs-name sections r.symbol def (omega (arith, few)) small clean found in
    let target = target_of f d def in
    let parts = pack_reloc_info-fields target.1 d.pcrel d.width target.0 d.rtype in
    let info : c.r_info ≡ pack_reloc_info target.1 d.pcrel d.width target.0 d.rtype =
      ap (λ x. x.r_info) shape in
    (
      (
        e,
        elim (target_of-cases f d def) [
          | inl external ↦
              let num : symbol_num c ≡ def.nlist_idx = omega (
                arith,
                few,
                info,
                parts.0,
                ap (λ x. x.1) external,
                get_elem?-lt def.nlist_idx (symbol_table sections).syms e named.0,
              ) in
              inl (
                ap (λ v. v / 2 ^ 27 % 2) info ∙ parts.3 ∙ ap (λ x. flag x.0) external,
                rw num named,
              )
          | inr (i, defined, local, relative) ↦
              let (local_type, number) =
                local-Agrees def.sect_idx def.binding i e agrees defined local in
              let num : symbol_num c ≡ u32 (1 + i) % 2 ^ 24 =
                ap (λ v. v % 2 ^ 24) info ∙ parts.0 ∙ ap (λ x. x.1 % 2 ^ 24) relative in
              inr (
                ap (λ v. v / 2 ^ 27 % 2) info ∙ parts.3 ∙ ap (λ x. flag x.0) relative,
                local_type,
                omega (arith, number, num),
                def.nlist_idx,
                named,
              )
        ],
      ),
      ap (λ x. x.r_address) shape,
      rw info (parts.1),
      rw info (parts.2),
      rw info (parts.4),
    )
