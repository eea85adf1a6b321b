-- ===== src/Macho/Build/Parts.antt =====
-- What a file of macho/write.go is made of: the works of its sections, and its headers.
use objectfile.Prelude.{
  ℕ, zero, suc, ◌+◌, ◌*◌, ◌^◌, ◌≤◌, ◌<◌, ◌≡◌, refl, sym, ap, ◌∙◌, some, List, [], ◌∷◌, arith,
  length, length-append, All, get_elem?, slice, slice-front, slice-append_right,
}
use mathlib.Core.Option.{some-injective}
use mathlib.Core.Path.{subst}
use objectfile.Prelude.Bits.{u32}
use objectfile.Prelude.Result.{ok}
use objectfile.Prelude.Table.{Table}
use objectfile.Object.{Section}
use objectfile.Macho.Build.{header_of, section_headers}
use objectfile.Macho.File.{File}
use objectfile.Macho.Format.{encode_section}
use objectfile.Macho.Format.Laws.{length-copy_padded_name, length-encode_section}
use objectfile.Macho.Layout.{zero_filled, SecLaid}
use objectfile.Macho.Layout.Bounds.{footprint, HasSize}
use objectfile.Macho.Relocs.{SecWork}
use objectfile.Macho.Relocs.Laws.{DescsOf, RecordsOf, WorksOf}
use objectfile.Macho.Sections.{section_meta}
use objectfile.Macho.Sections.Laws.{section_meta-IsSized}
use objectfile.Macho.Symbols.{SymEntry}

-- Room enough for the contents of the sections, wherever they start.
abbrev pub room : List Section → ℕ
room [] = 0
room (s ∷ ss) = s.align + 16 + (length s.code + 8 * length s.relocs) + room ss

-- Load commands and contents fit below 4 GiB.
abbrev pub Fits : List Section → Type 0
Fits sections = 152 + 80 * length sections + room sections < 2 ^ 32

pub RecordsOf-length :
    (f : File) (m : Table SymEntry) (w : SecWork) (s : Section)
    → RecordsOf f m s.relocs w.descs w.records
    → length w.records ≡ length s.relocs
RecordsOf-length f m w s h = go s.relocs w.descs w.records h
  where
    go : (rs : _) (ds : _) (cs : _) → RecordsOf f m rs ds cs → length cs ≡ length rs
    go [] [] [] g = refl
    go [] [] (c ∷ cs) g = absurd g
    go [] (d ∷ ds) cs g = absurd g
    go (r ∷ rs) [] cs g = absurd g
    go (r ∷ rs) (d ∷ ds) [] g = absurd g
    go (r ∷ rs) (d ∷ ds) (c ∷ cs) g = ap suc (go rs ds cs g.1)

pub WorksOf-sizes :
    (f : File) (m : Table SymEntry) (i : ℕ) (ss : List Section) (ws : List SecWork)
    → WorksOf f m i ss ws
    → All HasSize ws × (footprint ws ≤ room ss) × (length ws ≡ length ss)
unfolding zero_filled
WorksOf-sizes f m i [] [] h = (tt, omega arith, refl)
WorksOf-sizes f m i [] (w ∷ ws) h = absurd h
WorksOf-sizes f m i (s ∷ ss) [] h = absurd h
WorksOf-sizes f m i (s ∷ ss) (w ∷ ws) h =
    let rest = WorksOf-sizes f m (suc i) ss ws h.4 in
    let sized = section_meta-IsSized i s h.1 in
    let code : length w.sec.code ≡ length s.code = ap (λ x. length x.code) h.0 in
    (
      (λ raw. sized.1 raw ∙ ap u32 (sym code), rest.0),
      omega (arith, rest.1, sized.0, code, RecordsOf-length f m w s h.3),
      omega (arith, rest.2),
    )

-- The work of one section.
abbrev pub WorkOf : File → Table SymEntry → ℕ → Section → SecWork → Type 0
WorkOf f m i s w =
    (w.sec ≡ s)
    × (section_meta i s ≡ ok w.meta)
    × DescsOf f s.relocs w.descs
    × RecordsOf f m s.relocs w.descs w.records

pub WorksOf-get_elem? :
    (f : File) (m : Table SymEntry) (j i : ℕ) (ss : List Section) (ws : List SecWork) (s : Section)
    → WorksOf f m j ss ws
    → get_elem? ss i ≡ some s
    → (w : SecWork) × (get_elem? ws i ≡ some w) × WorkOf f m (j + i) s w
WorksOf-get_elem? f m j i [] ws s h at = absurd (ground arith)
WorksOf-get_elem? f m j i (q ∷ ss) [] s h at = absurd h
WorksOf-get_elem? f m j zero (q ∷ ss) (w ∷ ws) s h at =
    let same = some-injective _ _ at in
    let here : j ≡ j + 0 = omega arith in
    (
      w,
      refl,
      subst (λ n. WorkOf f m n s w) here (subst (λ x. WorkOf f m j x w) same (h.0, h.1, h.2, h.3)),
    )
WorksOf-get_elem? f m j (suc i) (q ∷ ss) (w ∷ ws) s h at =
    let (v, found, work) = WorksOf-get_elem? f m (suc j) i ss ws s h.4 at in
    let next : suc j + i ≡ j + suc i = omega arith in
    (v, found, subst (λ n. WorkOf f m n s v) next work)

length-header_of : (l : SecLaid) → length (encode_section (header_of l)) ≡ 80
unfolding header_of
length-header_of l =
    length-encode_section _ (length-copy_padded_name l.work.meta.sect_name)
      (length-copy_padded_name l.work.meta.seg_name)

pub length-section_headers : (ls : List SecLaid) → length (section_headers ls) ≡ 80 * length ls
unfolding section_headers
length-section_headers [] = omega arith
length-section_headers (l ∷ ls) = omega (
  arith,
  length-append (encode_section (header_of l)) (section_headers ls),
  length-header_of l,
  length-section_headers ls,
)

pub section_headers-header :
    (ls : List SecLaid) (i : ℕ) (l : SecLaid)
    → get_elem? ls i ≡ some l
    → slice (i * 80) 80 (section_headers ls) ≡ encode_section (header_of l)
unfolding section_headers
section_headers-header [] i l h = absurd (ground arith)
section_headers-header (q ∷ ls) zero l h =
    slice-front 80 (encode_section (header_of q)) (section_headers ls) (sym (length-header_of q))
    ∙ ap (λ x. encode_section (header_of x)) (some-injective _ _ h)
section_headers-header (q ∷ ls) (suc i) l h =
    slice-append_right i 80 (encode_section (header_of q)) (section_headers ls)
      (sym (length-header_of q))
    ∙ section_headers-header ls i l h
