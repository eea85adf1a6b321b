-- ===== src/Flat.antt =====
-- flat/flat.go: raw binary images, by concatenation of the sections. `Chunk` has the bytes of one
-- section, `Image` what a whole image is.
pub mod Chunk
pub mod Image
mod Examples
use objectfile.Prelude.{
  ℕ, suc, ◌+◌, ◌-◌, ◌%◌, ◌≡◌, Bool, true, false, Option, none, some, List, [], ◌∷◌, ◌++◌, ltb, leb,
  ◌==◌, if◌then◌else◌, length, replicate,
}
use objectfile.Prelude.Bytes.{Bytes}
use objectfile.Prelude.Result.{Result, ok, err, ◌>>=◌}
use objectfile.Prelude.Writer.{Writer, buffer_writer}
use objectfile.Object.{Section, SectionKind, section_bss}

pub record File : Type 0 where
  pub base : ℕ
  pub sections : List Section

abbrev pub new_file : File
new_file = record { base = 0; sections = [] }

unfoldable pub set_base_address : File → ℕ → File
set_base_address f addr = record f { base = addr }

unfoldable pub add_section : File → Section → File
add_section f s = record f { sections = f.sections ++ (s ∷ []) }

-- `relocations i n`: section `i` has `n` relocations. `write_error e`: the writer's own error.
pub data Error (E : Type 0) : Type 0 where
  relocations : ℕ → ℕ → Error E
  write_error : E → Error E

-- The tail of `sectionChunk`: padding with zeros to the alignment boundary.
unfoldable pub tail_pad : Bytes → ℕ → Bytes
tail_pad raw align =
    if leb align 1
    then raw
    else let rem = length raw % align in if rem == 0 then raw else raw ++ replicate (align - rem) 0

chunk_of_kind : SectionKind → Section → Bytes
chunk_of_kind section_bss s = if s.v_size == 0 then [] else tail_pad (replicate s.v_size 0) s.align
chunk_of_kind _ s = if length s.code == 0 then [] else tail_pad s.code s.align

-- The bytes of one section; Go's nil is the empty list.
unfoldable pub section_chunk : Section → Bytes
unfolding chunk_of_kind
section_chunk s = chunk_of_kind s.kind s

-- The validation loop: the first section with relocations, from index `i` on.
unfoldable pub first_with_relocs : ℕ → List Section → Option (ℕ × ℕ)
first_with_relocs i [] = none
first_with_relocs i (s ∷ ss) =
    if ltb 0 (length s.relocs) then some (i, length s.relocs) else first_with_relocs (suc i) ss

module _ {W E : Type 0} (w : Writer W E) where
  -- The write loop of `WriteTo`, with the total so far.
  unfoldable pub write_chunks : W → ℕ → List Section → ℕ × Option (Error E) × W
  write_chunks st total [] = (total, none, st)
  write_chunks st total (s ∷ ss) =
      let chunk = section_chunk s in
      let r = w.write st chunk in
      elim (length chunk == 0) [
        | true ↦ write_chunks st total ss
        | false ↦ elim r.1 [
          | some e ↦ (total + r.0, some (write_error e), r.2)
          | none ↦ write_chunks r.2 (total + r.0) ss
        ]
      ]

  -- WriteTo: the bytes written, the error, and the writer's state after the call.
  unfoldable pub write_to : W → File → ℕ × Option (Error E) × W
  write_to st f = elim (first_with_relocs 0 f.sections) [
    | some (i, n) ↦ (0, some (relocations i n), st)
    | none ↦ write_chunks st 0 f.sections
  ]

-- Serialize: `WriteTo` into an empty buffer.
unfoldable pub serialize : File → Result (Error ⊥) Bytes
serialize f = let r = write_to buffer_writer [] f in elim r.1 [ some e ↦ err e | none ↦ ok r.2 ]
