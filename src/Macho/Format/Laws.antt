-- ===== src/Macho/Format/Laws.antt =====
-- The fields of the second word of a relocation record, and the sizes of what macho/write.go encodes.
use objectfile.Prelude.{
  ℕ, ◌+◌, ◌*◌, ◌/◌, ◌%◌, ◌^◌, ◌<◌, ◌≤◌, ◌≡◌, ap, ◌∙◌, Bool, true, false, refl, length, arith,
  if◌then◌else◌, bit_and, bit_or, zero, suc, ◌-◌, [], ◌∷◌, take, replicate, leb, Bool-cases, inl,
  inr, length-append, length-replicate, length-take_le,
}
use objectfile.Prelude.Bits.{u32, zero-bit_or, bit_and_mask, bit_or_above}
use objectfile.Prelude.Bytes.{Bytes, put_le}
use objectfile.Macho.Format.{
  pack_reloc_info, RelocInfo, encode_reloc, SectionHdr, encode_section, copy_padded_name,
}

-- A flag as a bit.
abbrev pub flag : Bool → ℕ
flag b = if b then 1 else 0

or_flag :
    (k v : ℕ) (b : Bool) → v < 2 ^ k → (if b then bit_or v (2 ^ k) else v) ≡ v + flag b * 2 ^ k
or_flag k v true h =
    let one : 2 ^ k ≡ 1 * 2 ^ k = omega arith in ap (λ t. bit_or v t) one ∙ bit_or_above k v 1 h
or_flag k v false h = omega arith

or_field :
    (k j v x : ℕ)
    → v < 2 ^ k
    → x < 2 ^ j
    → 2 ^ j * 2 ^ k ≤ 2 ^ 32
    → bit_or v (u32 (x * 2 ^ k)) ≡ v + x * 2 ^ k
or_field k j v x h small room =
    let kept : u32 (x * 2 ^ k) ≡ x * 2 ^ k = grind arith in
    ap (λ t. bit_or v t) kept ∙ bit_or_above k v x h

pack_reloc_info-sum :
    (num : ℕ) (pcrel : Bool) (width : ℕ) (extern : Bool) (rtype : ℕ)
    → pack_reloc_info num pcrel width extern rtype
      ≡ num % 2 ^ 24
        + flag pcrel * 2 ^ 24
        + width % 4 * 2 ^ 25
        + flag extern * 2 ^ 27
        + rtype % 16 * 2 ^ 28
unfolding pack_reloc_info
pack_reloc_info-sum num pcrel width extern rtype =
    let numbered : bit_or 0 (bit_and num 0xffffff) ≡ num % 2 ^ 24 =
      zero-bit_or (bit_and num 0xffffff) ∙ bit_and_mask 24 num in
    let bit : (b : Bool) → flag b < 2 = flag-lt in
    rw (numbered, bit_and_mask 2 width, bit_and_mask 4 rtype)
      (rw (or_flag 24 (num % 2 ^ 24) pcrel (omega arith)) (
        rw
          (or_field 25 2 (num % 2 ^ 24 + flag pcrel * 2 ^ 24) (width % 4) (omega (arith, bit pcrel))
            (omega arith) (omega arith))
          (rw
            (or_flag 27 (num % 2 ^ 24 + flag pcrel * 2 ^ 24 + width % 4 * 2 ^ 25) extern
              (omega (arith, bit pcrel)))
            (or_field 28 4
              (num % 2 ^ 24 + flag pcrel * 2 ^ 24 + width % 4 * 2 ^ 25 + flag extern * 2 ^ 27)
              (rtype % 16) (omega (arith, bit pcrel, bit extern)) (omega arith) (omega arith)))))
  where
    flag-lt : (b : Bool) → flag b < 2
    flag-lt true = omega arith
    flag-lt false = omega arith

-- The fields of the word, from the lowest bit up: the symbol number on 24 bits, whether it is
-- relative, the length on two bits, whether it is external, and the type on four bits.
pub pack_reloc_info-fields :
    (num : ℕ) (pcrel : Bool) (width : ℕ) (extern : Bool) (rtype : ℕ)
    → let v = pack_reloc_info num pcrel width extern rtype in
      (v % 2 ^ 24 ≡ num % 2 ^ 24)
      × (v / 2 ^ 24 % 2 ≡ flag pcrel)
      × (v / 2 ^ 25 % 4 ≡ width % 4)
      × (v / 2 ^ 27 % 2 ≡ flag extern)
      × (v / 2 ^ 28 ≡ rtype % 16)
pack_reloc_info-fields num pcrel width extern rtype =
    let sum = pack_reloc_info-sum num pcrel width extern rtype in ground (arith, sum)

pub length-encode_reloc : (r : RelocInfo) → length (encode_reloc r) ≡ 8
unfolding encode_reloc put_le
length-encode_reloc r = refl

pub length-copy_padded_name : (name : Bytes) → length (copy_padded_name name) ≡ 16
unfolding copy_padded_name
length-copy_padded_name name = elim (Bool-cases (leb 16 (length name))) [
  | inl long ↦
      let enough : 16 ≤ length name = ground arith in
      omega (
        arith,
        length-append (take 16 name) (replicate (16 - length name) 0),
        length-replicate {A = ℕ} (16 - length name) 0,
        length-take_le 16 name enough,
      )
  | inr short ↦
      let all : length name ≤ 16 = ground arith in
      omega (
        arith,
        length-append (take 16 name) (replicate (16 - length name) 0),
        length-replicate {A = ℕ} (16 - length name) 0,
        length-take_short 16 name all,
      )
]
  where
    length-take_short : (n : ℕ) (xs : Bytes) → length xs ≤ n → length (take n xs) ≡ length xs
    length-take_short zero [] h = refl
    length-take_short (suc n) [] h = refl
    length-take_short zero (x ∷ xs) h = absurd (omega arith)
    length-take_short (suc n) (x ∷ xs) h = ap suc (length-take_short n xs (omega arith))

-- A section64 entry takes 80 bytes.
pub length-encode_section :
    (h : SectionHdr)
    → length h.sect_name ≡ 16
    → length h.seg_name ≡ 16
    → length (encode_section h) ≡ 80
unfolding encode_section put_le
length-encode_section h a b =
    omega (arith, a, b, length-append h.sect_name _, length-append h.seg_name _)
