-- ===== src/Elf/Build/Output.antt =====
-- What a built file holds: each section's bytes at the offset that its header gives, and the headers
-- at the offset that the file header gives.
use objectfile.Prelude.{
  slice-behind, ℕ, zero, suc, ◌+◌, ◌-◌, ◌*◌, ◌^◌, ◌<◌, ◌≤◌, ◌≡◌, refl, sym, ap, ◌∙◌, some, List, [],
  ◌∷◌, ◌++◌, append-nil, append_assoc, arith, length, All, All-get_elem?, get_elem?, slice,
  slice-front, slice-append_right, replicate,
}
use mathlib.Core.Option.{some-injective}
use objectfile.Prelude.Bytes.{Extends, Extends-trans, Bytes, pad_to, length-pad_to}
use objectfile.Elf.Align.{align_up_bounds}
use objectfile.Elf.Build.{table_offset, file_header, emit_file}
use objectfile.Elf.File.{File}
use objectfile.Elf.Format.{Class, Ehdr, zero_shdr}
use objectfile.Elf.Format.Headers.{HasSizes}
use objectfile.Elf.Layout.{
  place, layout, layout_from, write_contents, write_descs, header_of, headers_from, header_table,
}
use objectfile.Elf.Layout.Bounds.{file_bytes, footprint, Laid-get_elem?, Laid, layout_from-Laid}
use objectfile.Elf.Layout.Placement.{IsPlaced, write_descs-Extends, write_descs-IsPlaced}
use objectfile.Elf.Sections.{SecDesc, DescState}
use objectfile.Elf.Strtab.{StrTab}

-- Layout keeps all of a descriptor but the offset.
layout_from-get :
    (pos : ℕ) (ds : List SecDesc) (i : ℕ) (d : SecDesc)
    → get_elem? ds i ≡ some d
    → (off : ℕ) × (get_elem? (layout_from pos ds).0 i ≡ some (record d { file_off = off }))
unfolding layout_from
layout_from-get pos [] i d h = absurd (ground arith)
layout_from-get pos (e ∷ ds) zero d h = (
  (place pos e).0,
  ap (λ (t : SecDesc). some (record t { file_off = (place pos e).0 })) (some-injective _ _ h),
)
layout_from-get pos (e ∷ ds) (suc i) d h = layout_from-get (place pos e).1 ds i d h

slice-headers_from :
    (c : Class) (t : StrTab) (ds : List SecDesc) (i : ℕ) (d : SecDesc)
    → HasSizes c
    → get_elem? ds i ≡ some d
    → slice (i * c.shdr_size) c.shdr_size (headers_from c t ds) ≡ c.encode_shdr (header_of t d)
unfolding headers_from
slice-headers_from c t [] i d sizes h = absurd (ground arith)
slice-headers_from c t (e ∷ ds) zero d sizes h =
    slice-front c.shdr_size (c.encode_shdr (header_of t e)) (headers_from c t ds)
      (sym (sizes.shdr (header_of t e)))
    ∙ ap (λ x. c.encode_shdr (header_of t x)) (some-injective _ _ h)
slice-headers_from c t (e ∷ ds) (suc i) d sizes h =
    slice-append_right i c.shdr_size (c.encode_shdr (header_of t e)) (headers_from c t ds)
      (sym (sizes.shdr (header_of t e)))
    ∙ slice-headers_from c t ds i d sizes h

-- Room for the sections, the header and the padding below 2 ^ 64.
abbrev pub Fits : Class → List SecDesc → Type 0
Fits c ds = c.ehdr_size + footprint ds + c.word_align < 2 ^ 64

-- The offset of the section header table of a file with these sections.
abbrev pub table_at : Class → List SecDesc → ℕ
table_at c descs = table_offset c (layout c descs).1

-- The file up to the header table, and all of it.
abbrev file_front : Class → File → ℕ → DescState → Bytes
file_front c f names_idx st =
    write_contents
      (c.encode_ehdr (file_header c f (table_at c st.descs) (length st.descs) names_idx))
      (layout c st.descs).0

layout-cons :
    (c : Class) (null : SecDesc) (ds : List SecDesc)
    → layout c (null ∷ ds) ≡ (null ∷ (layout_from c.ehdr_size ds).0, (layout_from c.ehdr_size ds).1)
unfolding layout
layout-cons c null ds = refl

module _ (c : Class) (f : File) (names_idx : ℕ) (t : StrTab) (null : SecDesc) (ds : List SecDesc)
    (sizes : HasSizes c) (fits : Fits c ds) where
  abbrev state : DescState
  state = record { shstrtab = t; descs = null ∷ ds }

  abbrev header : Ehdr
  header = file_header c f (table_at c (null ∷ ds)) (length (null ∷ ds)) names_idx

  abbrev laid : List SecDesc
  laid = (layout_from c.ehdr_size ds).0

  file_front-shape : file_front c f names_idx state ≡ write_descs (c.encode_ehdr header) laid
  unfolding layout write_contents
  file_front-shape = refl

  emit_file-shape :
      emit_file c f names_idx state
      ≡ pad_to (write_descs (c.encode_ehdr header) laid) (table_at c (null ∷ ds))
        ++ (c.encode_shdr zero_shdr ++ headers_from c t laid)
  unfolding emit_file layout write_contents header_table
  emit_file-shape = refl

  bounds :
      Laid c.ehdr_size laid (layout_from c.ehdr_size ds).1
      × ((layout_from c.ehdr_size ds).1 ≤ c.ehdr_size + footprint ds)
  bounds = layout_from-Laid c.ehdr_size ds (omega arith)

  end-le-table : (layout_from c.ehdr_size ds).1 ≤ table_at c (null ∷ ds)
  unfolding layout table_offset
  end-le-table = omega (arith, bounds, align_up_bounds (layout_from c.ehdr_size ds).1 c.word_align)

  written :
      {whole : Bytes}
      → Extends (write_descs (c.encode_ehdr header) laid) whole
      → All (IsPlaced whole) laid
        × (length (write_descs (c.encode_ehdr header) laid) ≤ (layout_from c.ehdr_size ds).1)
  written more =
      write_descs-IsPlaced c.ehdr_size (layout_from c.ehdr_size ds).1 laid (c.encode_ehdr header)
        bounds.0 (omega (arith, sizes.ehdr header)) more

  front-length :
      length (pad_to (write_descs (c.encode_ehdr header) laid) (table_at c (null ∷ ds)))
      ≡ table_at c (null ∷ ds)
  front-length =
      let self : Extends (write_descs (c.encode_ehdr header) laid)
          (write_descs (c.encode_ehdr header) laid) =
        record { added = []; shape = sym (append-nil _) } in
      length-pad_to (write_descs (c.encode_ehdr header) laid) (table_at c (null ∷ ds))
        (omega (arith, (written self).1, end-le-table))

  whole-Extends : Extends (write_descs (c.encode_ehdr header) laid) (emit_file c f names_idx state)
  unfolding pad_to
  whole-Extends = record {
    added =
        replicate (table_at c (null ∷ ds) - length (write_descs (c.encode_ehdr header) laid)) 0
        ++ (c.encode_shdr zero_shdr ++ headers_from c t laid);
    shape = emit_file-shape ∙ append_assoc (write_descs (c.encode_ehdr header) laid) _ _;
  }

  -- The end of the contents and the offset of the table are no more than what has to fit.
  pub table_at-le : table_at c (null ∷ ds) ≤ c.ehdr_size + footprint ds + c.word_align
  unfolding layout table_offset
  table_at-le = omega (arith, bounds, align_up_bounds (layout_from c.ehdr_size ds).1 c.word_align)

  pub end_le : (layout_from c.ehdr_size ds).1 ≤ c.ehdr_size + footprint ds
  end_le = bounds.1

  -- The file starts with its header.
  pub emit_file-header :
      (rest : Bytes) × (emit_file c f names_idx state ≡ c.encode_ehdr header ++ rest)
  emit_file-header =
      let more = Extends-trans (write_descs-Extends (c.encode_ehdr header) laid) whole-Extends in
      (more.added, more.shape)

  -- The bytes of a section past the first, and of its header.
  pub section_bytes :
      (i : ℕ) (d : SecDesc)
      → get_elem? ds i ≡ some d
      → let out = emit_file c f names_idx state in
        (off : ℕ) × (off ≤ (layout_from c.ehdr_size ds).1)
        × (slice off (length (file_bytes d)) out ≡ file_bytes d)
        × (slice (table_at c (null ∷ ds) + suc i * c.shdr_size) c.shdr_size out
            ≡ c.encode_shdr (header_of t (record d { file_off = off })))
  section_bytes i d at =
      let (off, found) = layout_from-get c.ehdr_size ds i d at in
      let here = record d { file_off = off } in
      (
        off,
        Laid-get_elem? c.ehdr_size (layout_from c.ehdr_size ds).1 laid i here bounds.0 found,
        All-get_elem? (IsPlaced (emit_file c f names_idx state)) laid i (written whole-Extends).0
            found,
        ap (slice (table_at c (null ∷ ds) + suc i * c.shdr_size) c.shdr_size) emit_file-shape
            ∙ slice-behind (suc i * c.shdr_size) c.shdr_size (table_at c (null ∷ ds)) _
                (c.encode_shdr zero_shdr ++ headers_from c t laid) (sym front-length)
            ∙ slice-append_right i c.shdr_size (c.encode_shdr zero_shdr) (headers_from c t laid)
                (sym (sizes.shdr zero_shdr))
            ∙ slice-headers_from c t laid i here sizes found,
      )
