-- ===== src/Prelude/Decimal.antt =====
-- The verb %d of fmt on uint32s, and that its digits read back.
use Prim.Native.Nat.{ℕ, zero, suc, ◌+◌, ◌-◌, ◌*◌, ◌/◌, ◌%◌, ◌^◌, ◌≤◌, ◌<◌}
use mathlib.Core.Path.{◌≡◌, refl}
use mathlib.Core.Logic.{inl, inr}
use mathlib.Core.List.{[], ◌∷◌, ◌++◌}
use native.Mathlib.Nat.{pow-suc}
use native.Mathlib.Omega.{arith}
use objectfile.Prelude.Tests.{ltb, Bool-cases, if◌then◌else◌}
use objectfile.Prelude.Lists.{length, length-append}
use objectfile.Prelude.Bytes.{Bytes, NoNul}

-- The digits of a number below 10 ^ k, most significant first.
unfoldable pub digits_below : ℕ → ℕ → Bytes
digits_below zero n = []
digits_below (suc k) n =
    let rest = digits_below k (n / 10) in
    if ltb n 10 then (48 + n) ∷ [] else rest ++ ((48 + n % 10) ∷ [])

-- A uint32 has ten digits at most.
unfoldable pub decimal : ℕ → Bytes
decimal n = digits_below 10 n

read_digits : ℕ → Bytes → ℕ
read_digits n [] = n
read_digits n (d ∷ ds) = read_digits (n * 10 + (d - 48)) ds

unfoldable pub read_decimal : Bytes → ℕ
unfolding read_digits
read_decimal ds = read_digits 0 ds

read_digits-append :
    (n d : ℕ) (ds : Bytes) → read_digits n (ds ++ (d ∷ [])) ≡ read_digits n ds * 10 + (d - 48)
unfolding read_digits
read_digits-append n d [] = refl
read_digits-append n d (c ∷ ds) = read_digits-append (n * 10 + (c - 48)) d ds

read_digits_below : (k n : ℕ) → n < 10 ^ k → read_digits 0 (digits_below k n) ≡ n
unfolding digits_below read_digits
read_digits_below zero n h = omega arith
read_digits_below (suc k) n h = elim (Bool-cases (ltb n 10)) [
  | inl last ↦ rw last (omega arith)
  | inr more ↦ rw more (
      omega (
        arith,
        read_digits-append 0 (48 + n % 10) (digits_below k (n / 10)),
        read_digits_below k (n / 10) (omega (arith, pow-suc 10 k)),
      ))
]

-- The digits of a uint32 read back.
pub read_decimal_lem : (n : ℕ) → n < 2 ^ 32 → read_decimal (decimal n) ≡ n
unfolding read_decimal decimal
read_decimal_lem n h = read_digits_below 10 n (omega arith)

length-digits_below : (k m n : ℕ) → n < 10 ^ suc m → length (digits_below k n) ≤ suc m
unfolding digits_below
length-digits_below zero m n h = omega arith
length-digits_below (suc k) zero n h = ground (arith, pow-suc 10 0)
length-digits_below (suc k) (suc m) n h = elim (Bool-cases (ltb n 10)) [
  | inl last ↦ rw last (omega arith)
  | inr more ↦ rw more (
      omega (
        arith,
        length-append (digits_below k (n / 10)) ((48 + n % 10) ∷ []),
        length-digits_below k m (n / 10) (omega (arith, pow-suc 10 (suc m))),
      ))
]

-- A number below 10 ^ (m + 1) has m + 1 digits at most.
pub length-decimal : (m n : ℕ) → n < 10 ^ suc m → length (decimal n) ≤ suc m
unfolding decimal
length-decimal m n h = length-digits_below 10 m n h

NoNul-append : (xs : Bytes) (d : ℕ) → 0 < d → NoNul xs → NoNul (xs ++ (d ∷ []))
NoNul-append [] d p h = (p, tt)
NoNul-append (x ∷ xs) d p h = (h.0, NoNul-append xs d p h.1)

digits_below-NoNul : (k n : ℕ) → NoNul (digits_below k n)
unfolding digits_below
digits_below-NoNul zero n = tt
digits_below-NoNul (suc k) n = elim (Bool-cases (ltb n 10)) [
  | inl last ↦ rw last (omega arith, tt)
  | inr more ↦ rw more (
      NoNul-append (digits_below k (n / 10)) (48 + n % 10) (omega arith)
        (digits_below-NoNul k (n / 10)))
]

pub decimal-NoNul : (n : ℕ) → NoNul (decimal n)
unfolding decimal
decimal-NoNul n = digits_below-NoNul 10 n
