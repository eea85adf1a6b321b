-- ===== src/Elf/Align.antt =====
-- alignUp of elf/write.go, on uint64s.
use objectfile.Prelude.{
  ℕ, ◌+◌, ◌-◌, ◌%◌, ◌^◌, ◌≤◌, ◌<◌, ◌≡◌, Bool-cases, inl, inr, arith, leb, if◌then◌else◌,
}
use native.Mathlib.Nat.{one-le-pow}
use objectfile.Prelude.Bits.{u64, and_not, bit_and-le, bit_and_mask, mod-self_sub, mod-le_one}

unfoldable pub align_up : ℕ → ℕ → ℕ
align_up v a = if leb a 1 then v else and_not (u64 (v + a - 1)) (a - 1)

-- Short of an overflow the result is at least the argument and at most `a - 1` past it, for every
-- alignment `a`, power of two or not.
pub align_up_bounds : (v a : ℕ) → v + a < 2 ^ 64 → (v ≤ align_up v a) × (align_up v a ≤ v + (a - 1))
unfolding align_up
align_up_bounds v a h = ground (arith, bit_and-le (u64 (v + a - 1)) (a - 1))

-- Short of an overflow the result for a power of two is a multiple of it.
pub align_up-mod : (v k : ℕ) → v + 2 ^ k < 2 ^ 64 → align_up v (2 ^ k) % 2 ^ k ≡ 0
unfolding align_up
align_up-mod v k h = elim (Bool-cases (leb (2 ^ k) 1)) [
  | inl one ↦ rw one (mod-le_one v (2 ^ k) (one-le-pow k 2 (omega arith)) one)
  | inr more ↦ rw more (
      rw (bit_and_mask k (u64 (v + 2 ^ k - 1)))
        (mod-self_sub (u64 (v + 2 ^ k - 1)) (2 ^ k) (one-le-pow k 2 (omega arith))))
]
