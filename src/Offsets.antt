-- ===== src/Offsets.antt =====
-- alignUp and padTo of coff/write.go and macho/write.go, which are the same code: file offsets as
-- uint32s.
use objectfile.Prelude.{
  ℕ, ◌+◌, ◌-◌, ◌%◌, ◌^◌, ◌≤◌, ◌<◌, ◌≡◌, Bool-cases, inl, inr, ◌++◌, arith, leb, length,
  length-append, length-replicate, replicate, if◌then◌else◌,
}
use native.Mathlib.Nat.{one-le-pow}
use objectfile.Prelude.Bits.{u32, and_not, bit_and-le, bit_and_mask, mod-self_sub, mod-le_one}
use objectfile.Prelude.Bytes.{Bytes, Extends, Extends-append}

unfoldable pub align_up : ℕ → ℕ → ℕ
align_up v a = if leb a 1 then v else and_not (u32 (v + a - 1)) (a - 1)

-- for uint32(buf.Len()) < target { buf.WriteByte(0) }
unfoldable pub pad_to : Bytes → ℕ → Bytes
pad_to buf target = buf ++ replicate (target - u32 (length buf)) 0

-- Short of an overflow the result is at least the argument and at most `a - 1` past it.
pub align_up_bounds : (v a : ℕ) → v + a < 2 ^ 32 → (v ≤ align_up v a) × (align_up v a ≤ v + (a - 1))
unfolding align_up
align_up_bounds v a h = ground (arith, bit_and-le (u32 (v + a - 1)) (a - 1))

-- Short of an overflow the result for a power of two is a multiple of it.
pub align_up-mod : (v k : ℕ) → v + 2 ^ k < 2 ^ 32 → align_up v (2 ^ k) % 2 ^ k ≡ 0
unfolding align_up
align_up-mod v k h = elim (Bool-cases (leb (2 ^ k) 1)) [
  | inl one ↦ rw one (mod-le_one v (2 ^ k) (one-le-pow k 2 (omega arith)) one)
  | inr more ↦ rw more (
      rw (bit_and_mask k (u32 (v + 2 ^ k - 1)))
        (mod-self_sub (u32 (v + 2 ^ k - 1)) (2 ^ k) (one-le-pow k 2 (omega arith))))
]

pub length-pad_to :
    (buf : Bytes) (target : ℕ)
    → length buf ≤ target
    → target < 2 ^ 32
    → length (pad_to buf target) ≡ target
unfolding pad_to
length-pad_to buf target h small = omega (
  arith,
  length-append buf (replicate (target - u32 (length buf)) 0),
  length-replicate {A = ℕ} (target - u32 (length buf)) 0,
)

pub pad_to-Extends : (buf : Bytes) (target : ℕ) → Extends buf (pad_to buf target)
unfolding pad_to
pad_to-Extends buf target = Extends-append buf (replicate (target - u32 (length buf)) 0)
