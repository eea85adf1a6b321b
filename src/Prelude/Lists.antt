-- ===== src/Prelude/Lists.antt =====
-- Lists measured and indexed by native numbers, under the library's names.
use Prim.Native.Nat.{ℕ, zero, suc, ◌+◌, ◌-◌, ◌*◌, ◌≤◌, ◌<◌}
use mathlib.Core.Path.{◌≡◌, refl, sym, ap, ◌∙◌, subst}
use mathlib.Core.Option.{Option, none, some, some-injective}
use mathlib.Core.List.{List, [], ◌∷◌, ◌++◌, map, append-nil}
use native.Mathlib.Omega.{arith}
use mathlib.Core.Bool.{true}
use objectfile.Prelude.Tests.{◌==◌}

module _ {ℓ} {A : Type ℓ} where
  abbrev pub length : List A → ℕ
  length [] = 0
  length (x ∷ xs) = suc (length xs)

  abbrev pub get_elem? : List A → ℕ → Option A
  get_elem? [] i = none
  get_elem? (x ∷ xs) zero = some x
  get_elem? (x ∷ xs) (suc i) = get_elem? xs i

  abbrev pub take : ℕ → List A → List A
  take zero xs = []
  take (suc n) [] = []
  take (suc n) (x ∷ xs) = x ∷ take n xs

  abbrev pub drop : ℕ → List A → List A
  drop zero xs = xs
  drop (suc n) [] = []
  drop (suc n) (x ∷ xs) = drop n xs

  abbrev pub replicate : ℕ → A → List A
  replicate zero a = []
  replicate (suc n) a = a ∷ replicate n a

  abbrev pub All {κ} : (A → Type κ) → List A → Type κ
  All P [] = Unit {κ}
  All P (x ∷ xs) = P x × All P xs

module _ {ℓ} {A : Type ℓ} where
  pub length-append : (xs ys : List A) → length (xs ++ ys) ≡ length xs + length ys
  length-append [] ys = omega arith
  length-append (x ∷ xs) ys = omega (arith, length-append xs ys)

  pub length-replicate : (n : ℕ) (a : A) → length (replicate n a) ≡ n
  length-replicate zero a = refl
  length-replicate (suc n) a = ap suc (length-replicate n a)

  pub length-take_le : (n : ℕ) (xs : List A) → n ≤ length xs → length (take n xs) ≡ n
  length-take_le zero xs h = refl
  length-take_le (suc n) [] h = absurd (omega arith)
  length-take_le (suc n) (x ∷ xs) h = ap suc (length-take_le n xs (omega arith))

  pub length-drop : (n : ℕ) (xs : List A) → length (drop n xs) ≡ length xs - n
  length-drop zero xs = omega arith
  length-drop (suc n) [] = omega arith
  length-drop (suc n) (x ∷ xs) = omega (arith, length-drop n xs)

  pub drop-length-append : (n : ℕ) (xs ys : List A) → n ≡ length xs → drop n (xs ++ ys) ≡ ys
  drop-length-append zero [] ys h = refl
  drop-length-append zero (x ∷ xs) ys h = absurd (omega arith)
  drop-length-append (suc n) [] ys h = absurd (omega arith)
  drop-length-append (suc n) (x ∷ xs) ys h = drop-length-append n xs ys (omega arith)

  pub take-length-append : (n : ℕ) (xs ys : List A) → n ≡ length xs → take n (xs ++ ys) ≡ xs
  take-length-append zero [] ys h = refl
  take-length-append zero (x ∷ xs) ys h = absurd (omega arith)
  take-length-append (suc n) [] ys h = absurd (omega arith)
  take-length-append (suc n) (x ∷ xs) ys h =
      ap (λ t. x ∷ t) (take-length-append n xs ys (omega arith))

  -- The `n` elements that stand at position `i`.
  abbrev pub slice : ℕ → ℕ → List A → List A
  slice i n xs = take n (drop i xs)

  pub slice-append :
      (i n : ℕ) (before xs after : List A)
      → i ≡ length before
      → n ≡ length xs
      → slice i n (before ++ (xs ++ after)) ≡ xs
  slice-append i n before xs after hi hn =
      ap (take n) (drop-length-append i before (xs ++ after) hi) ∙ take-length-append n xs after hn

  pub get_elem?-append :
      (i : ℕ) (xs ys : List A) (y : A) → i ≡ length xs → get_elem? (xs ++ (y ∷ ys)) i ≡ some y
  get_elem?-append zero [] ys y h = refl
  get_elem?-append zero (x ∷ xs) ys y h = absurd (omega arith)
  get_elem?-append (suc i) [] ys y h = absurd (omega arith)
  get_elem?-append (suc i) (x ∷ xs) ys y h = get_elem?-append i xs ys y (omega arith)

  pub get_elem?-append_left :
      (i : ℕ) (xs ys : List A) (x : A) → get_elem? xs i ≡ some x → get_elem? (xs ++ ys) i ≡ some x
  get_elem?-append_left i [] ys x h = cc
  get_elem?-append_left zero (z ∷ xs) ys x h = h
  get_elem?-append_left (suc i) (z ∷ xs) ys x h = get_elem?-append_left i xs ys x h

  pub get_elem?-lt : (i : ℕ) (xs : List A) (x : A) → get_elem? xs i ≡ some x → i < length xs
  get_elem?-lt i [] x h = absurd (ground arith)
  get_elem?-lt zero (z ∷ xs) x h = omega arith
  get_elem?-lt (suc i) (z ∷ xs) x h = omega (arith, get_elem?-lt i xs x h)

module _ {ℓ} {A : Type ℓ} where
  pub take-append_le : (n : ℕ) (xs ys : List A) → n ≤ length xs → take n (xs ++ ys) ≡ take n xs
  take-append_le zero xs ys h = refl
  take-append_le (suc n) [] ys h = absurd (omega arith)
  take-append_le (suc n) (x ∷ xs) ys h = ap (λ t. x ∷ t) (take-append_le n xs ys (omega arith))

  pub take-length : (n : ℕ) (xs : List A) → n ≡ length xs → take n xs ≡ xs
  take-length n xs h = ap (take n) (sym (append-nil xs)) ∙ take-length-append n xs [] h

  pub take_add :
      (n k : ℕ) (xs ys : List A) → n ≡ length xs → take (n + k) (xs ++ ys) ≡ xs ++ take k ys
  take_add zero k [] ys h = ap (λ t. take t ys) (omega arith)
  take_add zero k (x ∷ xs) ys h = absurd (omega arith)
  take_add (suc n) k [] ys h = absurd (omega arith)
  take_add (suc n) k (x ∷ xs) ys h =
      ap (λ t. take t (x ∷ (xs ++ ys))) (step n k)
      ∙ ap (λ t. x ∷ t) (take_add n k xs ys (omega arith))
    where
      step : (n k : ℕ) → suc n + k ≡ suc (n + k)
      step n k = omega arith

  pub length-eq_zero : (xs : List A) → (length xs == 0) ≡ true → xs ≡ []
  length-eq_zero [] h = refl
  length-eq_zero (x ∷ xs) h = absurd (ground arith)

  -- An index past the front of a list.
  pub get_elem?-append_at :
      (i k : ℕ) (xs ys : List A) → i ≡ length xs + k → get_elem? (xs ++ ys) i ≡ get_elem? ys k
  get_elem?-append_at i k [] ys h = ap (get_elem? ys) (omega arith)
  get_elem?-append_at zero k (x ∷ xs) ys h = absurd (omega arith)
  get_elem?-append_at (suc i) k (x ∷ xs) ys h = get_elem?-append_at i k xs ys (omega arith)

  pub drop_add : (n k : ℕ) (xs ys : List A) → n ≡ length xs → drop (n + k) (xs ++ ys) ≡ drop k ys
  drop_add zero k [] ys h = ap (λ t. drop t ys) (omega arith)
  drop_add zero k (x ∷ xs) ys h = absurd (omega arith)
  drop_add (suc n) k [] ys h = absurd (omega arith)
  drop_add (suc n) k (x ∷ xs) ys h =
      let e : suc n + k ≡ suc (n + k) = omega arith in
      ap (λ t. drop t (x ∷ (xs ++ ys))) e ∙ drop_add n k xs ys (omega arith)

  -- A part of what stands behind `front`.
  pub slice-behind :
      (i n k : ℕ) (front rest : List A)
      → k ≡ length front
      → slice (k + i) n (front ++ rest) ≡ slice i n rest
  slice-behind i n k front rest h = ap (take n) (drop_add k i front rest h)

  -- A part of the front.
  pub slice-append_left :
      (i n : ℕ) (xs ys : List A) → i + n ≤ length xs → slice i n (xs ++ ys) ≡ slice i n xs
  slice-append_left zero n xs ys h = take-append_le n xs ys (omega arith)
  slice-append_left (suc i) n [] ys h = absurd (omega arith)
  slice-append_left (suc i) n (x ∷ xs) ys h = slice-append_left i n xs ys (omega arith)

  drop-drop : (i j : ℕ) (xs : List A) → drop j (drop i xs) ≡ drop (i + j) xs
  drop-drop zero j xs = ap (λ n. drop n xs) (omega arith)
  drop-drop (suc i) j (x ∷ xs) =
      let e : suc i + j ≡ suc (i + j) = omega arith in rw e (drop-drop i j xs)
  drop-drop (suc i) zero [] = let e : suc i + 0 ≡ suc i = omega arith in rw e
  drop-drop (suc i) (suc j) [] = let e : suc i + suc j ≡ suc (i + suc j) = omega arith in rw e

  take-take : (m n : ℕ) (xs : List A) → m ≤ n → take m (take n xs) ≡ take m xs
  take-take zero n xs h = refl
  take-take (suc m) zero xs h = absurd (omega arith)
  take-take (suc m) (suc n) [] h = refl
  take-take (suc m) (suc n) (x ∷ xs) h = ap (λ t. x ∷ t) (take-take m n xs (omega arith))

  slice-take : (j m n : ℕ) (xs : List A) → j + m ≤ n → slice j m (take n xs) ≡ slice j m xs
  slice-take zero m n xs h = take-take m n xs (omega arith)
  slice-take (suc j) m zero xs h = absurd (omega arith)
  slice-take (suc j) m (suc n) [] h = refl
  slice-take (suc j) m (suc n) (x ∷ xs) h = slice-take j m n xs (omega arith)

  -- A part of a part.
  pub slice-slice :
      (i n j m : ℕ) (xs : List A) → j + m ≤ n → slice j m (slice i n xs) ≡ slice (i + j) m xs
  slice-slice i n j m xs h = slice-take j m n (drop i xs) h ∙ ap (take m) (drop-drop i j xs)

  pub get_elem?-map {κ} :
      {B : Type κ} (f : A → B) (xs : List A) (i : ℕ) {y : B}
      → get_elem? (map f xs) i ≡ some y
      → (x : A) × (get_elem? xs i ≡ some x) × (f x ≡ y)
  get_elem?-map f [] i h = absurd (ground arith)
  get_elem?-map f (x ∷ xs) zero h = (x, refl, some-injective _ _ h)
  get_elem?-map f (x ∷ xs) (suc i) h = get_elem?-map f xs i h

  pub length-map {κ} : {B : Type κ} (f : A → B) (xs : List A) → length (map f xs) ≡ length xs
  length-map f [] = refl
  length-map f (x ∷ xs) = ap suc (length-map f xs)

  pub slice-front :
      (n : ℕ) (front rest : List A) → n ≡ length front → slice (0 * n) n (front ++ rest) ≡ front
  slice-front n front rest h =
      let e : 0 * n ≡ 0 = omega arith in rw e (take-length-append n front rest h)

  pub slice-append_right :
      (k n : ℕ) (front rest : List A)
      → n ≡ length front
      → slice (suc k * n) n (front ++ rest) ≡ slice (k * n) n rest
  slice-append_right k n front rest h =
      let e : suc k * n ≡ n + k * n = omega arith in
      rw e (ap (take n) (drop_add n (k * n) front rest h))

  pub All-get_elem? {κ} :
      (P : A → Type κ) (xs : List A) (i : ℕ) {x : A} → All P xs → get_elem? xs i ≡ some x → P x
  All-get_elem? P [] i h at = absurd (ground arith)
  All-get_elem? P (y ∷ xs) zero h at = subst P (some-injective _ _ at) h.0
  All-get_elem? P (y ∷ xs) (suc i) h at = All-get_elem? P xs i h.1 at
