-- ===== src/Prelude/Table.antt =====
-- Go's maps with string keys, as association lists: an assignment stands in front of what it
-- hides, and a read of a missing key is `none`.
use mathlib.Core.Path.{◌≡◌, refl}
use mathlib.Core.Bool.{true, false}
use mathlib.Core.Option.{Option, none, some}
use mathlib.Core.List.{List, [], ◌∷◌}
use native.Mathlib.Omega.{arith}
use objectfile.Prelude.Tests.{if◌then◌else◌}
use objectfile.Prelude.Bytes.{Bytes, bytes_eq, bytes_eq_iff}

abbrev pub Table {ℓ} : Type ℓ → Type ℓ
Table V = List (Bytes × V)

module _ {ℓ} {V : Type ℓ} where
  -- v, ok := m[k]
  unfoldable pub lookup : Bytes → Table V → Option V
  lookup k [] = none
  lookup k ((j, v) ∷ m) = if bytes_eq j k then some v else lookup k m

  -- m[k] = v
  abbrev pub insert : Bytes → V → Table V → Table V
  insert k v m = (k, v) ∷ m

  -- m[k], which is the zero value where the key is missing
  unfoldable pub get_or : V → Option V → V
  get_or d none = d
  get_or d (some v) = v

  pub lookup-insert :
      (s k : Bytes) (v : V) (m : Table V)
      → lookup k (insert s v m) ≡ (if bytes_eq s k then some v else lookup k m)
  unfolding lookup
  lookup-insert s k v m = refl

  pub lookup-insert_self : (s : Bytes) (v : V) (m : Table V) → lookup s (insert s v m) ≡ some v
  unfolding lookup
  lookup-insert_self s v m = rw ((bytes_eq_iff s s).1 refl)

  -- What an entry in front hides and what it leaves.
  pub first_entry :
      (s k : Bytes) (v w : V) (m : Table V)
      → bytes_eq s k ≡ true
      → lookup k (insert s v m) ≡ some w
      → v ≡ w
  unfolding lookup
  first_entry s k v w m same h = ground arith

  pub later_entry :
      (s k : Bytes) (v w : V) (m : Table V)
      → bytes_eq s k ≡ false
      → lookup k (insert s v m) ≡ some w
      → lookup k m ≡ some w
  unfolding lookup
  later_entry s k v w m other h = ground arith
