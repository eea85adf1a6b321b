-- ===== src/Coff/Sections/Align.antt =====
-- The alignment field that `alignFlag` of coff/write.go gives.
use objectfile.Prelude.{
  ℕ, zero, suc, ◌+◌, ◌*◌, ◌/◌, ◌^◌, ◌≤◌, ◌<◌, ◌≡◌, arith, ltb, ltb→lt, Bool-cases, inl, inr,
}
use native.Mathlib.Nat.{pow-suc, pow-le-pow_right}
use objectfile.Coff.Sections.{clamp_align, shift_loop, align_flag}

-- The loop counts the halvings down to 1.
shift_loop_lem :
    (fuel a shift : ℕ)
    → a ≤ fuel
    → 1 ≤ a
    → (s : ℕ) × (shift_loop fuel a shift ≡ shift + s) × (2 ^ s ≤ a) × (a < 2 ^ suc s)
unfolding shift_loop
shift_loop_lem zero a shift h p = absurd (omega arith)
shift_loop_lem (suc fuel) a shift h p = elim (Bool-cases (ltb 1 a)) [
  | inl more ↦
      let (s, e, low, high) =
        shift_loop_lem fuel (a / 2) (shift + 1) (omega (arith, ltb→lt 1 a more))
          (omega (arith, ltb→lt 1 a more)) in
      (
        suc s,
        rw more (omega (arith, e)),
        omega (arith, low, pow-suc 2 s),
        omega (arith, high, pow-suc 2 s, pow-suc 2 (suc s)),
      )
  | inr last ↦ (0, rw last (omega arith), omega arith, ground arith)
]

clamp_align-range : (align : ℕ) → (1 ≤ clamp_align align) × (clamp_align align ≤ 8192)
unfolding clamp_align
clamp_align-range align = ground arith

exponent_le : (s a : ℕ) → 2 ^ s ≤ a → a ≤ 8192 → s ≤ 13
exponent_le s a low bound = elim (Bool-cases (ltb 13 s)) [
  | inl more ↦ absurd (
      omega (
        arith,
        pow-le-pow_right {n = 2} (omega arith) {i = 14} {j = s} (omega (arith, ltb→lt 13 s more)),
      ))
  | inr less ↦ ground arith
]

-- In the alignment field, bits 20 to 23 of the characteristics, stands s + 1, where 2 ^ s is the
-- largest power of two up to the alignment, clamped to 1 and 8192, and s is at most 13.
pub align_flag-log :
    (align : ℕ)
    → (s : ℕ) × (align_flag align ≡ (s + 1) * 2 ^ 20)
      × (2 ^ s ≤ clamp_align align)
      × (clamp_align align < 2 ^ suc s)
      × (s ≤ 13)
unfolding align_flag
align_flag-log align =
    let (positive, bound) = clamp_align-range align in
    let (s, e, low, high) =
      shift_loop_lem (clamp_align align) (clamp_align align) 0 (omega arith) positive in
    (s, omega (arith, e), low, high, exponent_le s (clamp_align align) low bound)
