-- ===== src/Coff/Layout/Placement.antt =====
-- What phase 7 writes of the contents stands where phase 6 has put it.
use objectfile.Prelude.{
  ℕ, zero, suc, ◌+◌, ◌*◌, ◌^◌, ◌≤◌, ◌<◌, ◌≡◌, refl, sym, ap, ◌∙◌, true, false, Bool-cases, inl, inr,
  Option-cases, some, List, [], ◌∷◌, ◌++◌, append-nil, append_assoc, arith, length, length-append,
  All, slice, slice-append, slice-front, slice-append_right, get_elem?,
}
use mathlib.Core.Option.{some-injective}
use objectfile.Prelude.Bytes.{Bytes, Extends, Extends-trans, Extends-append}
use objectfile.Prelude.Result.{ok, >>=-eq-ok, ok-injective}
use objectfile.Offsets.{pad_to, length-pad_to, pad_to-Extends}
use objectfile.Coff.Addends.{apply_implicit_addends, length-apply_implicit_addends}
use objectfile.Coff.Format.{CoffReloc, encode_reloc}
use objectfile.Coff.Format.Decode.{length-encode_reloc}
use objectfile.Coff.Layout.{SecLaid, reloc_bytes, block, write_block, write_blocks}
use objectfile.Coff.Layout.Bounds.{block_size, Laid, Laid-le}
use objectfile.Coff.Relocs.{SecWork}
use objectfile.Coff.Sections.{is_bss_like}

pub length-reloc_bytes : (cs : List CoffReloc) → length (reloc_bytes cs) ≡ 10 * length cs
unfolding reloc_bytes
length-reloc_bytes [] = omega arith
length-reloc_bytes (c ∷ cs) = omega (
  arith,
  length-append (encode_reloc c) (reloc_bytes cs),
  length-encode_reloc c,
  length-reloc_bytes cs,
)

-- The records stand ten bytes apart.
pub reloc_bytes-record :
    (cs : List CoffReloc) (k : ℕ) (c : CoffReloc)
    → get_elem? cs k ≡ some c
    → slice (k * 10) 10 (reloc_bytes cs) ≡ encode_reloc c
unfolding reloc_bytes
reloc_bytes-record [] k c h = absurd (ground arith)
reloc_bytes-record (q ∷ cs) zero c h =
    slice-front 10 (encode_reloc q) (reloc_bytes cs) (sym (length-encode_reloc q))
    ∙ ap encode_reloc (some-injective _ _ h)
reloc_bytes-record (q ∷ cs) (suc k) c h =
    slice-append_right k 10 (encode_reloc q) (reloc_bytes cs) (sym (length-encode_reloc q))
    ∙ reloc_bytes-record cs k c h

-- The code with its addends, and its bytes in the file.
pub record Contents (machine : ℕ) (w : SecWork) (bytes : Bytes) : Type 0 where
  pub code : Bytes
  pub patched : apply_implicit_addends w.sec.code w.sec.relocs w.rtypes machine ≡ some code
  pub shape : bytes ≡ code ++ reloc_bytes w.records
  pub size : length code ≡ length w.sec.code

block-Contents :
    (machine : ℕ) (w : SecWork) {bytes : Bytes}
    → block machine w ≡ ok bytes
    → Contents machine w bytes
unfolding block
block-Contents machine w h =
    elim (Option-cases (apply_implicit_addends w.sec.code w.sec.relocs w.rtypes machine)) [
      | inl panic ↦ absurd (cc (rw (panic, block) at h))
      | inr (code, patched) ↦ record {
        code = code;
        patched = patched;
        shape = sym (ok-injective (rw (patched, block) at h));
        size = length-apply_implicit_addends w.sec.relocs w.rtypes machine w.sec.code patched;
      }
    ]

pub length-Contents :
    {machine : ℕ} {w : SecWork} {bytes : Bytes}
    → Contents machine w bytes
    → length bytes ≡ block_size w
length-Contents {w = w} c = omega (
  arith,
  ap length c.shape,
  length-append c.code (reloc_bytes w.records),
  c.size,
  length-reloc_bytes w.records,
)

-- The contents of a section with raw bytes are in the file at its offset.
pub record Standing (machine : ℕ) (whole : Bytes) (l : SecLaid) : Type 0 where
  pub bytes : Bytes
  pub contents : Contents machine l.work bytes
  pub found : slice l.raw_off (length bytes) whole ≡ bytes

abbrev pub IsPlaced : ℕ → Bytes → SecLaid → Type 0
IsPlaced machine whole l = is_bss_like l.work.sec ≡ false → Standing machine whole l

write_block-raw :
    (machine : ℕ) (out : Bytes) (l : SecLaid) {next : Bytes}
    → is_bss_like l.work.sec ≡ false
    → write_block machine out l ≡ ok next
    → (bytes : Bytes) × Contents machine l.work bytes × (next ≡ pad_to out l.raw_off ++ bytes)
unfolding write_block
write_block-raw machine out l raw h =
    let (bytes, found, e) = >>=-eq-ok (block machine l.work) _ (rw raw at h) in
    (bytes, block-Contents machine l.work found, sym (ok-injective e))

write_block-bss :
    (machine : ℕ) (out : Bytes) (l : SecLaid) {next : Bytes}
    → is_bss_like l.work.sec ≡ true
    → write_block machine out l ≡ ok next
    → next ≡ out
unfolding write_block
write_block-bss machine out l bss h = sym (ok-injective (rw bss at h))

write_block-Extends :
    (machine : ℕ) (out : Bytes) (l : SecLaid) {next : Bytes}
    → write_block machine out l ≡ ok next
    → Extends out next
write_block-Extends machine out l h = elim (Bool-cases (is_bss_like l.work.sec)) [
  | inl bss ↦ record {
    added = [];
    shape = write_block-bss machine out l bss h ∙ sym (append-nil out);
  }
  | inr raw ↦
      let (bytes, _, shape) = write_block-raw machine out l raw h in
      rw shape
        (Extends-trans (pad_to-Extends out l.raw_off) (Extends-append (pad_to out l.raw_off) bytes))
]

pub write_blocks-Extends :
    (machine : ℕ) (out : Bytes) (ls : List SecLaid) {final : Bytes}
    → write_blocks machine out ls ≡ ok final
    → Extends out final
unfolding write_blocks
write_blocks-Extends machine out [] h = record {
  added = [];
  shape = sym (ok-injective h) ∙ sym (append-nil out);
}
write_blocks-Extends machine out (l ∷ ls) h =
    let (next, here, later) = >>=-eq-ok (write_block machine out l) _ h in
    Extends-trans (write_block-Extends machine out l here)
      (write_blocks-Extends machine next ls later)

Standing-written :
    (machine : ℕ) (out : Bytes) (l : SecLaid) (bytes : Bytes) {next whole : Bytes}
    → Contents machine l.work bytes
    → length (pad_to out l.raw_off) ≡ l.raw_off
    → next ≡ pad_to out l.raw_off ++ bytes
    → Extends next whole
    → Standing machine whole l
Standing-written machine out l bytes contents padded shape more = record {
  bytes = bytes;
  contents = contents;
  found =
      ap (slice l.raw_off (length bytes)) (
        more.shape
        ∙ ap (λ t. t ++ more.added) shape
        ∙ append_assoc (pad_to out l.raw_off) bytes more.added)
      ∙ slice-append l.raw_off (length bytes) (pad_to out l.raw_off) bytes more.added (sym padded)
          refl;
}

-- Sections that are laid out one behind the other all have their contents at their offsets in the
-- file, also in whatever the file is extended to, and the file ends where the last one does.
pub write_blocks-IsPlaced :
    (machine pos end : ℕ) (ls : List SecLaid) (out : Bytes) {final whole : Bytes}
    → Laid pos ls end
    → length out ≤ pos
    → end < 2 ^ 32
    → write_blocks machine out ls ≡ ok final
    → Extends final whole
    → All (IsPlaced machine whole) ls × (length final ≤ end)
unfolding write_blocks
write_blocks-IsPlaced machine pos end [] out laid h small e more =
    (tt, omega (arith, ap length (ok-injective e)))
write_blocks-IsPlaced machine pos end (l ∷ ls) out laid h small e more =
    let (next, here, later) = >>=-eq-ok (write_block machine out l) _ e in
    elim (Bool-cases (is_bss_like l.work.sec)) [
      | inl bss ↦
          let same = write_block-bss machine out l bss here in
          let rest =
            write_blocks-IsPlaced machine pos end ls next (rw bss at laid)
              (omega (arith, ap length same, h)) small later more in
          ((λ raw. absurd (cc (bss, raw)), rest.0), rest.1)
      | inr raw ↦
          let here_laid = rw raw at laid in
          let (bytes, contents, shape) = write_block-raw machine out l raw here in
          let size = length-Contents contents in
          let room = Laid-le (l.raw_off + block_size l.work) end ls here_laid.2 in
          let padded =
            length-pad_to out l.raw_off (omega (arith, here_laid.0)) (omega (arith, room)) in
          let long : length next ≤ l.raw_off + block_size l.work =
            omega
              (arith, ap length shape, length-append (pad_to out l.raw_off) bytes, padded, size) in
          let rest =
            write_blocks-IsPlaced machine (l.raw_off + block_size l.work) end ls next here_laid.2
              long small later more in
          (
            (
              λ _.
                  Standing-written machine out l bytes contents padded shape
                    (Extends-trans (write_blocks-Extends machine next ls later) more),
              rest.0,
            ),
            rest.1,
          )
    ]
