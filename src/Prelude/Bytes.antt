-- ===== src/Prelude/Bytes.antt =====
-- Byte slices and Go strings as lists of numbers below 256, and what the packages take from Go's
-- encoding/binary: fixed-width little-endian numbers.
use Prim.Native.Nat.{ℕ, zero, suc, ◌+◌, ◌-◌, ◌*◌, ◌/◌, ◌%◌, ◌^◌, ◌≤◌, ◌<◌}
use Prim.Native.Char.{code}
use Prim.Native.String.{String}
use mathlib.Core.Path.{◌≡◌, refl, ap, ◌∙◌}
use mathlib.Core.Logic.{◌↔◌}
use mathlib.Core.Bool.{Bool, true, false, ◌&&◌}
use mathlib.Core.List.{List, [], ◌∷◌, ◌++◌, append_assoc}
use native.Mathlib.Nat.{pow-suc}
use native.Mathlib.Omega.{arith}
use objectfile.Prelude.Tests.{◌==◌, if◌then◌else◌}
use objectfile.Prelude.Lists.{length, replicate, length-append, length-replicate}

abbrev pub Bytes : Type 0
Bytes = List ℕ

-- The bytes of an ASCII literal.
abbrev pub codes : String → Bytes
codes String.[] = []
codes (String.◌∷◌ c s) = code c ∷ codes s

-- s == t on strings
unfoldable pub bytes_eq : Bytes → Bytes → Bool
bytes_eq [] [] = true
bytes_eq (a ∷ s) (b ∷ t) = (a == b) && bytes_eq s t
bytes_eq _ _ = false

pub bytes_eq_iff : (s t : Bytes) → (bytes_eq s t ≡ true) ↔ (s ≡ t)
unfolding bytes_eq
bytes_eq_iff (a ∷ s) (b ∷ t) = ground (arith, bytes_eq_iff s t)
bytes_eq_iff _ _ = ground arith

-- The `k` bytes of a number, least significant first; higher bytes are cut off.
unfoldable pub put_le : ℕ → ℕ → Bytes
put_le zero v = []
put_le (suc k) v = (v % 256) ∷ put_le k (v / 256)

unfoldable pub get_le : Bytes → ℕ
get_le [] = 0
get_le (b ∷ bs) = b + 256 * get_le bs

pub length-put_le : (k v : ℕ) → length (put_le k v) ≡ k
unfolding put_le
length-put_le zero v = refl
length-put_le (suc k) v = ap suc (length-put_le k (v / 256))

-- A number that fits its field is read back.
pub get_le-put_le : (k v : ℕ) → v < 256 ^ k → get_le (put_le k v) ≡ v
unfolding put_le get_le
get_le-put_le zero v h = omega arith
get_le-put_le (suc k) v h =
    omega (arith, pow-suc 256 k, get_le-put_le k (v / 256) (omega (arith, pow-suc 256 k)))

-- A list holds bytes only.
abbrev pub AreBytes : Bytes → Type 0
AreBytes [] = Unit {0}
AreBytes (b ∷ bs) = (b < 256) × AreBytes bs

-- A string with no NUL byte.
abbrev pub NoNul : Bytes → Type 0
NoNul [] = Unit {0}
NoNul (b ∷ bs) = (0 < b) × NoNul bs

-- The C string at the front of a table: its bytes up to the first NUL.
unfoldable pub cstr : Bytes → Bytes
cstr [] = []
cstr (b ∷ bs) = if b == 0 then [] else b ∷ cstr bs

pub cstr-append : (s rest : Bytes) → NoNul s → cstr (s ++ (0 ∷ rest)) ≡ s
unfolding cstr
cstr-append [] rest h = refl
cstr-append (b ∷ s) rest h = ground (arith, cstr-append s rest h.1)

-- for buf.Len() < target { buf.WriteByte(0) }
unfoldable pub pad_to : Bytes → ℕ → Bytes
pad_to buf target = buf ++ replicate (target - length buf) 0

pub length-pad_to :
    (buf : Bytes) (target : ℕ) → length buf ≤ target → length (pad_to buf target) ≡ target
unfolding pad_to
length-pad_to buf target h = omega (
  arith,
  length-append buf (replicate (target - length buf) 0),
  length-replicate {A = ℕ} (target - length buf) 0,
)

-- What writing more appends to a buffer.
pub record Extends (out whole : Bytes) : Type 0 where
  pub added : Bytes
  pub shape : whole ≡ out ++ added

pub Extends-trans : {a b c : Bytes} → Extends a b → Extends b c → Extends a c
Extends-trans {a} {b} {c} p q = record {
  added = p.added ++ q.added;
  shape = q.shape ∙ ap (λ t. t ++ q.added) p.shape ∙ append_assoc a p.added q.added;
}

pub Extends-append : (out more : Bytes) → Extends out (out ++ more)
Extends-append out more = record { added = more; shape = refl }
