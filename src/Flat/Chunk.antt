-- ===== src/Flat/Chunk.antt =====
-- The bytes that flat/flat.go puts out for one section (`sectionChunk`).
use objectfile.Prelude.{
  ℕ, zero, suc, ◌+◌, ◌-◌, ◌%◌, ◌<◌, ◌≡◌, refl, sym, true, Bool-cases, suc-eq_zero, inl, inr, [],
  ◌∷◌, ◌++◌, arith, length, replicate, length-append, length-replicate, append-nil, leb, ◌==◌,
  if◌then◌else◌,
}
use objectfile.Prelude.Bytes.{Bytes}
use objectfile.Object.{Section, SectionKind, section_bss}
use objectfile.Flat.{tail_pad, chunk_of_kind, section_chunk}

contents_of_kind : SectionKind → Section → Bytes
contents_of_kind section_bss s = replicate s.v_size 0
contents_of_kind _ s = s.code

-- What a section stands for: zeros for a BSS section, its code for any other.
pub contents : Section → Bytes
unfolding contents_of_kind
contents s = contents_of_kind s.kind s

-- `chunk` is `raw`, then fewer zeros than `align`, up to a multiple of `align`.
pub record IsPadded (raw chunk : Bytes) (align : ℕ) : Type 0 where
  pub zeros : ℕ
  pub shape : chunk ≡ raw ++ replicate zeros 0
  pub few : zeros < align
  pub aligned : length chunk % align ≡ 0

tail_pad-length : (n align : ℕ) → 0 < n % align → 0 < align → (n + (align - n % align)) % align ≡ 0
tail_pad-length n align h p = grind arith

mod-one : (a n : ℕ) → 0 < a → leb a 1 ≡ true → n % a ≡ 0
mod-one zero n p h = absurd (omega arith)
mod-one (suc zero) n p h = omega arith
mod-one (suc (suc a)) n p h = absurd (ground arith)

unpadded : (raw : Bytes) (align : ℕ) → 0 < align → length raw % align ≡ 0 → IsPadded raw raw align
unpadded raw align p h = record { zeros = 0; shape = sym (append-nil raw); few = p; aligned = h }

padded :
    (raw : Bytes) (align : ℕ)
    → 0 < length raw % align
    → 0 < align
    → IsPadded raw (raw ++ replicate (align - length raw % align) 0) align
padded raw align h p = record {
  zeros = align - length raw % align;
  shape = refl;
  few = omega arith;
  aligned = rw (length-append raw (replicate (align - length raw % align) 0)) (
      rw (length-replicate {A = ℕ} (align - length raw % align) 0)
        (tail_pad-length (length raw) align h p));
}

tail_pad-IsPadded : (raw : Bytes) (align : ℕ) → 0 < align → IsPadded raw (tail_pad raw align) align
unfolding tail_pad
tail_pad-IsPadded raw align p = elim (Bool-cases (leb align 1)) [
  | inl small ↦ rw small (unpadded raw align p (mod-one align (length raw) p small))
  | inr large ↦ rw large (elim (Bool-cases (length raw % align == 0)) [
    | inl even ↦ rw even (unpadded raw align p (ground arith))
    | inr odd ↦ rw odd (padded raw align (ground arith) p)
  ])
]

zeros_chunk-IsPadded :
    (n align : ℕ)
    → 0 < align
    → IsPadded (replicate n 0) (if n == 0 then [] else tail_pad (replicate n 0) align) align
zeros_chunk-IsPadded zero align p = unpadded [] align p (omega arith)
zeros_chunk-IsPadded (suc n) align p =
    rw (suc-eq_zero n) (tail_pad-IsPadded (replicate (suc n) 0) align p)

code_chunk-IsPadded :
    (code : Bytes) (align : ℕ)
    → 0 < align
    → IsPadded code (if length code == 0 then [] else tail_pad code align) align
code_chunk-IsPadded [] align p = unpadded [] align p (omega arith)
code_chunk-IsPadded (b ∷ code) align p =
    rw (suc-eq_zero (length code)) (tail_pad-IsPadded (b ∷ code) align p)

chunk_of_kind-IsPadded :
    (k : SectionKind) (s : Section)
    → 0 < s.align
    → IsPadded (contents_of_kind k s) (chunk_of_kind k s) s.align
unfolding contents_of_kind chunk_of_kind
chunk_of_kind-IsPadded section_bss s p = zeros_chunk-IsPadded s.v_size s.align p
chunk_of_kind-IsPadded _ s p = code_chunk-IsPadded s.code s.align p

-- The bytes of a section with an alignment are its contents and fewer zeros than the alignment,
-- and their number is a multiple of the alignment; so for each kind of section, empty ones too.
pub section_chunk-IsPadded :
    (s : Section) → 0 < s.align → IsPadded (contents s) (section_chunk s) s.align
unfolding contents section_chunk
section_chunk-IsPadded s p = chunk_of_kind-IsPadded s.kind s p
