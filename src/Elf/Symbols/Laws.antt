-- ===== src/Elf/Symbols/Laws.antt =====
-- What one entry of the symbol table does to a property of the state.
use objectfile.Prelude.{ℕ, not, ◌&&◌, Bool-cases, inl, inr, List, [], ◌∷◌}
use objectfile.Prelude.Bytes.{Bytes}
use objectfile.Object.{Symbol, is_local, is_sym_section}
use objectfile.Elf.Format.{Sym}
use objectfile.Elf.Symbols.{SymState, emit, add_local, add_global, add_external, over_names}

pub over_names_inv {ℓ} :
    (P : SymState → Type ℓ)
    → ((st : SymState) (name : Bytes) → P st → P (add_external st name))
    → (names : List Bytes) (st : SymState) → P st
    → P (over_names names st)
unfolding over_names
over_names_inv P keep [] st h = h
over_names_inv P keep (name ∷ names) st h =
    over_names_inv P keep names (add_external st name) (keep st name h)

-- What holds of the state after each entry, whatever the entry, is kept by all three bodies.
module _ {ℓ} (P : SymState → Type ℓ)
    (keep : (st : SymState) (name : Bytes) (e : Sym) → P st → P (emit st name e)) where
  pub add_local_inv : (i : ℕ) (st : SymState) (s : Symbol) → P st → P (add_local i st s)
  unfolding add_local
  add_local_inv i st s h = elim (Bool-cases (is_local s.binding && not (is_sym_section s.kind))) [
    | inl taken ↦ rw taken (keep st s.name _ h)
    | inr passed ↦ rw passed h
  ]

  pub add_global_inv : (i : ℕ) (st : SymState) (s : Symbol) → P st → P (add_global i st s)
  unfolding add_global
  add_global_inv i st s h = elim (Bool-cases (is_local s.binding)) [
    | inl passed ↦ rw passed h
    | inr taken ↦ rw taken (keep st s.name _ h)
  ]

  pub add_external_inv : (st : SymState) (name : Bytes) → P st → P (add_external st name)
  unfolding add_external
  add_external_inv st name h = keep st name _ h
