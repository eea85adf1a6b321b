-- ===== src/Loops.antt =====
-- The loops over the symbols of all sections that elf, coff and macho run in the same way,
-- `for i, s := range sections { for _, sym := range s.Symbols { … } }`, over any state; and the
-- rules that carry a property of the state, or the keys of a map in it, through them.
use objectfile.Prelude.{
  ℕ, suc, ◌≡◌, refl, Bool, true, false, ◌&&◌, ◌||◌, none, some, List, [], ◌∷◌, arith,
}
use objectfile.Prelude.Bytes.{Bytes, bytes_eq}
use objectfile.Prelude.Table.{Table, lookup}
use objectfile.Object.{Section, Symbol}

-- The body sees the index of the section, the section, and the symbol.
module _ {ℓ} {S : Type ℓ} (body : ℕ → Section → S → Symbol → S) where
  unfoldable pub over_symbols : ℕ → Section → List Symbol → S → S
  over_symbols i sec [] st = st
  over_symbols i sec (s ∷ ss) st = over_symbols i sec ss (body i sec st s)

  -- The sections have the indices from `i` on.
  unfoldable pub over_sections : ℕ → List Section → S → S
  over_sections i [] st = st
  over_sections i (s ∷ ss) st = over_sections (suc i) ss (over_symbols i s s.symbols st)

-- A property that the body of the loops keeps is kept by the loops.
module _ {ℓ κ} {S : Type ℓ} (P : S → Type κ) (body : ℕ → Section → S → Symbol → S)
    (keep : (i : ℕ) (sec : Section) (st : S) (s : Symbol) → P st → P (body i sec st s)) where
  pub over_symbols_inv :
      (i : ℕ) (sec : Section) (ss : List Symbol) (st : S) → P st → P (over_symbols body i sec ss st)
  unfolding over_symbols
  over_symbols_inv i sec [] st h = h
  over_symbols_inv i sec (s ∷ ss) st h =
      over_symbols_inv i sec ss (body i sec st s) (keep i sec st s h)

  pub over_sections_inv :
      (i : ℕ) (ss : List Section) (st : S) → P st → P (over_sections body i ss st)
  unfolding over_sections
  over_sections_inv i [] st h = h
  over_sections_inv i (s ∷ ss) st h =
      over_sections_inv (suc i) ss (over_symbols body i s s.symbols st)
        (over_symbols_inv i s s.symbols st h)

-- k is a key of the map.
abbrev pub has_key {ℓ} : {V : Type ℓ} → Bytes → Table V → Bool
has_key k m = elim (lookup k m) [ none ↦ false | some v ↦ true ]

-- Some symbol with the property has the name.
module _ (p : Symbol → Bool) where
  abbrev pub some_symbol : Bytes → List Symbol → Bool
  some_symbol k [] = false
  some_symbol k (s ∷ ss) = (p s && bytes_eq s.name k) || some_symbol k ss

  abbrev pub some_section : Bytes → List Section → Bool
  some_section k [] = false
  some_section k (s ∷ ss) = some_symbol k s.symbols || some_section k ss

-- A body that enters the symbols with the property `p` in the map `index`.
module _ {ℓ κ} {S : Type ℓ} {V : Type κ} (index : S → Table V) (p : Symbol → Bool)
    (body : ℕ → Section → S → Symbol → S) (k : Bytes)
    (enters : (i : ℕ) (sec : Section) (st : S) (s : Symbol)
      → has_key k (index (body i sec st s))
        ≡ ((p s && bytes_eq s.name k) || has_key k (index st))) where
  has_key-over_symbols :
      (i : ℕ) (sec : Section) (ss : List Symbol) (st : S)
      → has_key k (index (over_symbols body i sec ss st))
        ≡ (some_symbol p k ss || has_key k (index st))
  unfolding over_symbols
  has_key-over_symbols i sec [] st = refl
  has_key-over_symbols i sec (s ∷ ss) st =
      ground (arith, has_key-over_symbols i sec ss (body i sec st s), enters i sec st s)

  pub has_key-over_sections :
      (i : ℕ) (ss : List Section) (st : S)
      → has_key k (index (over_sections body i ss st))
        ≡ (some_section p k ss || has_key k (index st))
  unfolding over_sections
  has_key-over_sections i [] st = refl
  has_key-over_sections i (s ∷ ss) st = ground (
    arith,
    has_key-over_sections (suc i) ss (over_symbols body i s s.symbols st),
    has_key-over_symbols i s s.symbols st,
  )
