-- ===== src/Flat/Image.antt =====
-- The image as a whole (`WriteTo`, `Serialize`): what is written, when the call is refused, and
-- what a writer of the caller's receives.
use objectfile.Prelude.{
  ℕ, suc, ◌+◌, ◌≤◌, ◌<◌, ◌≡◌, refl, sym, ap, ◌∙◌, Option, none, some, List, [], ◌∷◌, ◌++◌,
  append-nil, length-eq_zero, append_assoc, arith, Bool-cases, inl, inr, length, take,
  take-append_le, take-length, take_add, Option-cases, ◌==◌, slice, slice-append, All,
  length-append, replicate,
}
use objectfile.Prelude.Bytes.{Bytes}
use objectfile.Prelude.Result.{ok, err}
use objectfile.Prelude.Writer.{Writer, IsWriter, buffer_writer}
use objectfile.Object.{Section}
use objectfile.Flat.{
  File, Error, relocations, write_error, section_chunk, first_with_relocs, write_chunks, write_to,
  serialize,
}
use objectfile.Flat.Chunk.{contents, section_chunk-IsPadded}

abbrev pub HasNoRelocs : Section → Type 0
HasNoRelocs s = s.relocs ≡ []

-- The chunks of the sections, one after the other.
abbrev pub image : List Section → Bytes
image [] = []
image (s ∷ ss) = section_chunk s ++ image ss

first_with_relocs-none :
    (i : ℕ) (ss : List Section) → All HasNoRelocs ss → first_with_relocs i ss ≡ none
unfolding first_with_relocs
first_with_relocs-none i [] h = refl
first_with_relocs-none i (s ∷ ss) h = rw h.0 (first_with_relocs-none (suc i) ss h.1)

first_with_relocs-some :
    (i : ℕ) (before : List Section) (s : Section) (after : List Section)
    → All HasNoRelocs before
    → 0 < length s.relocs
    → first_with_relocs i (before ++ (s ∷ after)) ≡ some (i + length before, length s.relocs)
unfolding first_with_relocs
first_with_relocs-some i [] s after h p = ground arith
first_with_relocs-some i (r ∷ before) s after h p =
    rw h.0 (ground (arith, first_with_relocs-some (suc i) before s after h.1))

write_chunks-buffer :
    (buf : Bytes) (total : ℕ) (ss : List Section)
    → ((write_chunks buffer_writer buf total ss).1 ≡ none)
      × ((write_chunks buffer_writer buf total ss).2 ≡ buf ++ image ss)
unfolding write_chunks
write_chunks-buffer buf total [] = (refl, sym (append-nil buf))
write_chunks-buffer buf total (s ∷ ss) = ground (
  arith,
  write_chunks-buffer buf total ss,
  write_chunks-buffer (buf ++ section_chunk s) (total + length (section_chunk s)) ss,
  append_assoc buf (section_chunk s) (image ss),
  length-eq_zero (section_chunk s),
)

-- An image without relocations is the chunks of all the sections in the order of their addition.
pub serialize-image : (f : File) → All HasNoRelocs f.sections → serialize f ≡ ok (image f.sections)
unfolding serialize write_to
serialize-image f h =
    ground (arith, first_with_relocs-none 0 f.sections h, write_chunks-buffer [] 0 f.sections)

-- The first section that has relocations is reported, with its index and their number.
pub serialize-relocations :
    (f : File) (before : List Section) (s : Section) (after : List Section)
    → f.sections ≡ before ++ (s ∷ after)
    → All HasNoRelocs before
    → 0 < length s.relocs
    → serialize f ≡ err (relocations (length before) (length s.relocs))
unfolding serialize write_to
serialize-relocations f before s after e h p =
    rw e (ground (arith, first_with_relocs-some 0 before s after h p))

-- Whatever image is returned is that of the sections.
serialize-eq-ok : (f : File) {out : Bytes} → serialize f ≡ ok out → out ≡ image f.sections
unfolding serialize write_to
serialize-eq-ok f h = ground (arith, write_chunks-buffer [] 0 f.sections)

image-append : (ss ts : List Section) → image (ss ++ ts) ≡ image ss ++ image ts
image-append [] ts = refl
image-append (s ∷ ss) ts =
    ap (λ t. section_chunk s ++ t) (image-append ss ts)
    ∙ sym (append_assoc (section_chunk s) (image ss) (image ts))

-- In an image the contents of each section with an alignment start where the chunks of the
-- sections before it end.
pub slice-serialize :
    (f : File) (before : List Section) (s : Section) (after : List Section) {out : Bytes}
    → f.sections ≡ before ++ (s ∷ after)
    → 0 < s.align
    → serialize f ≡ ok out
    → slice (length (image before)) (length (contents s)) out ≡ contents s
slice-serialize f before s after e p h =
    let padded = section_chunk-IsPadded s p in
    rw (serialize-eq-ok f h) (
      rw e (
        rw (image-append before (s ∷ after)) (
          rw padded.shape (
            rw (append_assoc (contents s) (replicate padded.zeros 0) (image after)) (
              slice-append (length (image before)) (length (contents s)) (image before) (contents s)
                (replicate padded.zeros 0 ++ image after) refl refl)))))

-- What a call that started in `st` with `total` has done to the writer: the first `count` bytes of
-- `rest` are written, all of them where there is no error, and the returned total counts them.
pub record Wrote {W E : Type 0} (taken : W → Bytes) (st : W) (total : ℕ) (rest : Bytes)
    (r : ℕ × Option (Error E) × W) : Type 0 where
  pub count : ℕ
  pub bytes : taken r.2 ≡ taken st ++ take count rest
  pub counted : r.0 ≡ total + count
  pub within : count ≤ length rest
  pub complete : r.1 ≡ none → count ≡ length rest

module _ {W E : Type 0} (w : Writer W E) (taken : W → Bytes) (contract : IsWriter w taken) where
  Wrote-failed :
      (st : W) (total : ℕ) (chunk rest : Bytes) (e : E)
      → Wrote taken st total
          (chunk ++ rest)
          (total + (w.write st chunk).0, some (write_error e), (w.write st chunk).2)
  Wrote-failed st total chunk rest e = record {
    count = (w.write st chunk).0;
    bytes =
        rw (take-append_le (w.write st chunk).0 chunk rest (contract.at_most st chunk))
          (contract.takes st chunk);
    counted = refl;
    within = omega (arith, contract.at_most st chunk, length-append chunk rest);
    complete = λ h. absurd (ground arith);
  }

  Wrote-then :
      (st : W) (total : ℕ) (chunk rest : Bytes) {r : ℕ × Option (Error E) × W}
      → (w.write st chunk).1 ≡ none
      → Wrote taken (w.write st chunk).2 (total + (w.write st chunk).0) rest r
      → Wrote taken st total (chunk ++ rest) r
  Wrote-then st total chunk rest whole later = record {
    count = (w.write st chunk).0 + later.count;
    bytes =
        later.bytes
        ∙ rw (contract.takes st chunk) (
            rw (take-length _ chunk (contract.takes_all st chunk whole)) (
              rw (take_add _ later.count chunk rest (contract.takes_all st chunk whole))
                (append_assoc (taken st) chunk (take later.count rest))));
    counted = omega (arith, later.counted);
    within = omega (arith, contract.at_most st chunk, length-append chunk rest, later.within);
    complete = λ h.
        omega
          (arith, contract.takes_all st chunk whole, length-append chunk rest, later.complete h);
  }

  write_chunks-Wrote :
      (st : W) (total : ℕ) (ss : List Section)
      → Wrote taken st total (image ss) (write_chunks w st total ss)
  unfolding write_chunks
  write_chunks-Wrote st total [] = record {
    count = 0;
    bytes = sym (append-nil (taken st));
    counted = omega arith;
    within = omega arith;
    complete = λ _. refl;
  }
  write_chunks-Wrote st total (s ∷ ss) = elim (Bool-cases (length (section_chunk s) == 0)) [
    | inl empty ↦
        rw (empty, write_chunks)
          (rw (length-eq_zero (section_chunk s) empty) (write_chunks-Wrote st total ss))
    | inr some_bytes ↦
        rw (some_bytes, write_chunks)
          (elim (Option-cases (w.write st (section_chunk s)).1) [
            | inl whole ↦
                rw (whole, write_chunks)
                  (Wrote-then st total (section_chunk s) (image ss) whole (
                    write_chunks-Wrote (w.write st (section_chunk s)).2
                      (total + (w.write st (section_chunk s)).0) ss))
            | inr (e, failed) ↦
                rw (failed, write_chunks) (Wrote-failed st total (section_chunk s) (image ss) e)
          ])
  ]

  -- With a writer that keeps its contract, `WriteTo` writes the image in order: a call without
  -- relocations has written the first bytes of it, all of them where it has no error, and the
  -- number that it returns is that of the bytes written.
  pub write_to-Wrote :
      (st : W) (f : File)
      → All HasNoRelocs f.sections
      → Wrote taken st 0 (image f.sections) (write_to w st f)
  unfolding write_to
  write_to-Wrote st f h =
      rw (first_with_relocs-none 0 f.sections h, write_to) (write_chunks-Wrote st 0 f.sections)
