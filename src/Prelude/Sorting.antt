-- ===== src/Prelude/Sorting.antt =====
-- sort.Strings: the order of Go strings is that of their bytes, and the result is ascending and
-- holds what the argument holds. The library's algorithm is not modelled: on strings that differ
-- from one another only one ascending list exists.
use mathlib.Core.Path.{◌≡◌, refl, ◌∙◌}
use mathlib.Core.Bool.{Bool, true, false, ◌&&◌, ◌||◌}
use mathlib.Core.List.{List, [], ◌∷◌}
use native.Mathlib.Omega.{arith}
use objectfile.Prelude.Tests.{ltb, ◌==◌, if◌then◌else◌}
use objectfile.Prelude.Lists.{All}
use objectfile.Prelude.Bytes.{Bytes, bytes_eq}

-- s < t on strings
unfoldable pub bytes_lt : Bytes → Bytes → Bool
bytes_lt _ [] = false
bytes_lt [] (b ∷ t) = true
bytes_lt (a ∷ s) (b ∷ t) = ltb a b || ((a == b) && bytes_lt s t)

-- The keys of a map that is used as a set.
unfoldable pub contains : Bytes → List Bytes → Bool
contains k [] = false
contains k (j ∷ m) = bytes_eq j k || contains k m

insert_sorted : Bytes → List Bytes → List Bytes
insert_sorted s [] = s ∷ []
insert_sorted s (t ∷ ts) = if bytes_lt s t then s ∷ (t ∷ ts) else t ∷ insert_sorted s ts

unfoldable pub sort_strings : List Bytes → List Bytes
unfolding insert_sorted
sort_strings [] = []
sort_strings (s ∷ ss) = insert_sorted s (sort_strings ss)

-- Each string is below all that follow it.
abbrev pub Ascending : List Bytes → Type 0
Ascending [] = Unit {0}
Ascending (s ∷ ss) = All (λ t. bytes_lt s t ≡ true) ss × Ascending ss

-- No string stands twice.
abbrev pub Distinct : List Bytes → Type 0
Distinct [] = Unit {0}
Distinct (s ∷ ss) = (contains s ss ≡ false) × Distinct ss

bytes_lt_trans : (s t u : Bytes) → bytes_lt s t ≡ true → bytes_lt t u ≡ true → bytes_lt s u ≡ true
unfolding bytes_lt
bytes_lt_trans s t [] p q = ground arith
bytes_lt_trans s [] (c ∷ u) p q = ground arith
bytes_lt_trans [] (b ∷ t) (c ∷ u) p q = refl
bytes_lt_trans (a ∷ s) (b ∷ t) (c ∷ u) p q = ground (arith, bytes_lt_trans s t u)

-- Of two strings that differ one is below the other.
bytes_lt_total : (s t : Bytes) → bytes_lt s t ≡ false → bytes_eq t s ≡ false → bytes_lt t s ≡ true
unfolding bytes_lt bytes_eq
bytes_lt_total [] [] p q = ground arith
bytes_lt_total (a ∷ s) [] p q = refl
bytes_lt_total [] (b ∷ t) p q = ground arith
bytes_lt_total (a ∷ s) (b ∷ t) p q = ground (arith, bytes_lt_total s t)

contains-insert_sorted :
    (k s : Bytes) (ts : List Bytes)
    → contains k (insert_sorted s ts) ≡ (bytes_eq s k || contains k ts)
unfolding contains insert_sorted
contains-insert_sorted k s [] = refl
contains-insert_sorted k s (t ∷ ts) = ground (arith, contains-insert_sorted k s ts)

-- Sorting keeps the strings that are there.
pub contains-sort_strings :
    (k : Bytes) (ss : List Bytes) → contains k (sort_strings ss) ≡ contains k ss
unfolding contains sort_strings
contains-sort_strings k [] = refl
contains-sort_strings k (s ∷ ss) =
    ground (arith, contains-insert_sorted k s (sort_strings ss), contains-sort_strings k ss)

All-below :
    (s t : Bytes) (ts : List Bytes)
    → bytes_lt s t ≡ true
    → All (λ u. bytes_lt t u ≡ true) ts
    → All (λ u. bytes_lt s u ≡ true) ts
All-below s t [] h a = tt
All-below s t (u ∷ ts) h a = (bytes_lt_trans s t u h a.0, All-below s t ts h a.1)

All-insert_sorted :
    (t s : Bytes) (ts : List Bytes)
    → bytes_lt t s ≡ true
    → All (λ u. bytes_lt t u ≡ true) ts
    → All (λ u. bytes_lt t u ≡ true) (insert_sorted s ts)
unfolding insert_sorted
All-insert_sorted t s [] h a = (h, tt)
All-insert_sorted t s (u ∷ ts) h a = ground (arith, All-insert_sorted t s ts h a.1)

insert_sorted-Ascending :
    (s : Bytes) (ts : List Bytes)
    → contains s ts ≡ false
    → Ascending ts
    → Ascending (insert_sorted s ts)
unfolding insert_sorted contains
insert_sorted-Ascending s [] n a = (tt, tt)
insert_sorted-Ascending s (t ∷ ts) n a = ground (
  arith,
  All-below s t ts,
  bytes_lt_total s t,
  All-insert_sorted t s ts,
  insert_sorted-Ascending s ts,
)

-- Sorting strings that differ gives a strictly ascending list.
pub sort_strings-Ascending : (ss : List Bytes) → Distinct ss → Ascending (sort_strings ss)
unfolding sort_strings
sort_strings-Ascending [] d = tt
sort_strings-Ascending (s ∷ ss) d =
    insert_sorted-Ascending s (sort_strings ss) (contains-sort_strings s ss ∙ d.0)
      (sort_strings-Ascending ss d.1)
