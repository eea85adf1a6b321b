-- ===== src/Elf/Layout/Placement.antt =====
-- What phase 5 writes stands where phase 4 has put it.
use objectfile.Prelude.{
  ℕ, ◌+◌, ◌-◌, ◌≤◌, ◌≡◌, ◌⊎◌, refl, replicate, length-eq_zero, sym, ◌∙◌, inl, inr, List, [], ◌∷◌,
  ◌++◌, append-nil, append_assoc, arith, length, All, slice, slice-append, length-append,
}
use objectfile.Prelude.Bytes.{Bytes, pad_to, length-pad_to, Extends, Extends-trans}
use objectfile.Elf.Layout.{write_desc, write_descs}
use objectfile.Elf.Layout.Bounds.{file_bytes, Laid}
use objectfile.Elf.Sections.{SecDesc}

-- The bytes of the section are in the file at its offset.
abbrev pub IsPlaced : Bytes → SecDesc → Type 0
IsPlaced out d = slice d.file_off (length (file_bytes d)) out ≡ file_bytes d

write_desc-cases :
    (out : Bytes) (d : SecDesc)
    → ((file_bytes d ≡ []) × (write_desc out d ≡ out))
      ⊎ ((file_bytes d ≡ d.bytes) × (write_desc out d ≡ pad_to out d.file_off ++ d.bytes))
unfolding write_desc
write_desc-cases out d = ground (arith, length-eq_zero d.bytes)

-- A round extends the file.
write_desc-Extends : (out : Bytes) (d : SecDesc) → Extends out (write_desc out d)
unfolding pad_to
write_desc-Extends out d = elim (write_desc-cases out d) [
  | inl (_, same) ↦ record { added = []; shape = same ∙ sym (append-nil out) }
  | inr (_, longer) ↦ record {
    added = replicate (d.file_off - length out) 0 ++ d.bytes;
    shape = longer ∙ append_assoc out (replicate (d.file_off - length out) 0) d.bytes;
  }
]

pub write_descs-Extends : (out : Bytes) (ds : List SecDesc) → Extends out (write_descs out ds)
unfolding write_descs
write_descs-Extends out [] = record { added = []; shape = sym (append-nil out) }
write_descs-Extends out (d ∷ ds) =
    Extends-trans (write_desc-Extends out d) (write_descs-Extends (write_desc out d) ds)

write_desc-length :
    (out : Bytes) (d : SecDesc)
    → length out ≤ d.file_off
    → length (write_desc out d) ≤ d.file_off + length (file_bytes d)
write_desc-length out d h = elim (write_desc-cases out d) [
  | inl (empty, same) ↦ rw same (rw empty (omega arith))
  | inr (full, longer) ↦ rw longer (
      rw full (
        rw (length-append (pad_to out d.file_off) d.bytes)
          (omega (arith, length-pad_to out d.file_off h))))
]

-- What stands in a file stays there when the file is extended.
IsPlaced-written :
    (out : Bytes) (d : SecDesc) {whole : Bytes}
    → length out ≤ d.file_off
    → Extends (write_desc out d) whole
    → IsPlaced whole d
IsPlaced-written out d h more = elim (write_desc-cases out d) [
  | inl (empty, same) ↦ rw empty
  | inr (full, longer) ↦ rw full (
      rw more.shape (
        rw longer (
          rw (append_assoc (pad_to out d.file_off) d.bytes more.added) (
            slice-append d.file_off (length d.bytes) (pad_to out d.file_off) d.bytes more.added
              (sym (length-pad_to out d.file_off h)) refl))))
]

-- Where what is written already ends by the position from which sections are laid out one behind the
-- other, they stand at their offsets in the file, also in whatever the file is extended to, and the
-- file ends where the last one does or before.
pub write_descs-IsPlaced :
    (pos end : ℕ) (ds : List SecDesc) (out : Bytes) {whole : Bytes}
    → Laid pos ds end
    → length out ≤ pos
    → Extends (write_descs out ds) whole
    → All (IsPlaced whole) ds × (length (write_descs out ds) ≤ end)
unfolding write_descs
write_descs-IsPlaced pos end [] out l h more = (tt, omega arith)
write_descs-IsPlaced pos end (d ∷ ds) out l h more =
    let fits : length out ≤ d.file_off = omega (arith, l.0) in
    let rest =
      write_descs-IsPlaced (d.file_off + length (file_bytes d)) end ds (write_desc out d) l.1
        (write_desc-length out d fits) more in
    (
      (
        IsPlaced-written out d fits
            (Extends-trans (write_descs-Extends (write_desc out d) ds) more),
        rest.0,
      ),
      rest.1,
    )
