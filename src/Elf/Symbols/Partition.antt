-- ===== src/Elf/Symbols/Partition.antt =====
-- The order that ELF asks for: the entries below `firstGlobal` are local, all others are not.
use objectfile.Prelude.{
  ℕ, zero, suc, ◌/◌, ◌^◌, ◌<◌, ◌≤◌, ◌≡◌, ◌≢◌, refl, sym, ap, ◌∙◌, Bool, true, false, not, ◌&&◌,
  Bool-cases, inl, inr, List, [], ◌∷◌, ◌++◌, append-nil, append_assoc, arith, length, length-append,
  some, get_elem?, ◌⊎◌, All, if◌then◌else◌,
}
use mathlib.Core.Path.{subst}
use mathlib.Core.Option.{some-injective}
use objectfile.Prelude.Bits.{u32}
use objectfile.Prelude.Bytes.{Bytes}
use objectfile.Loops.{over_sections_inv}
use objectfile.Object.{Section, Symbol, SymbolKind, sym_func, is_local, is_weak, is_sym_section}
use objectfile.Elf.Consts.{stb_local, stb_global, stb_weak, stt_notype, stt_section}
use objectfile.Elf.Externals.{external_symbols}
use objectfile.Elf.Format.{Sym}
use objectfile.Elf.Format.Decode.{st_info_parts}
use objectfile.Elf.Symbols.{
  SymState, emit, entry_of, elf_sym_type, add_local, add_global, add_external, section_syms,
  initial_syms, local_syms, first_global, symbol_table,
}
use objectfile.Elf.Symbols.Laws.{over_names_inv}

-- The binding of an entry, the upper half of st_info.
abbrev pub bind_of : Sym → ℕ
bind_of e = e.info / 16

abbrev pub IsLocalEntry : Sym → Type 0
IsLocalEntry e = bind_of e ≡ stb_local

abbrev pub IsGlobalEntry : Sym → Type 0
IsGlobalEntry e = bind_of e ≢ stb_local

elf_sym_type-lt : (k : SymbolKind) → elf_sym_type k < 16
unfolding elf_sym_type
elf_sym_type-lt sym_func = omega arith
elf_sym_type-lt _ = omega arith

bind_of-entry_of : (bind i : ℕ) (s : Symbol) → bind < 16 → bind_of (entry_of bind i s) ≡ bind
unfolding entry_of
bind_of-entry_of bind i s h =
    (st_info_parts bind (elf_sym_type s.kind) h (elf_sym_type-lt s.kind)).0

-- `e` is the entry that `emit` adds, its name aside.
emit-syms :
    (st : SymState) (name : Bytes) (e : Sym)
    → (off : ℕ) × ((emit st name e).syms ≡ st.syms ++ (record e { name = off } ∷ []))
unfolding emit
emit-syms st name e = (_, refl)

All-snoc {ℓ} :
    (P : Sym → Type ℓ) (xs : List Sym) (x : Sym) → All P xs → P x → All P (xs ++ (x ∷ []))
All-snoc P [] x h p = (p, tt)
All-snoc P (y ∷ xs) x h p = (h.0, All-snoc P xs x h.1 p)

abbrev AllLocal : SymState → Type 0
AllLocal st = All IsLocalEntry st.syms

section_syms-local : (i : ℕ) (ss : List Section) → All IsLocalEntry (section_syms i ss)
unfolding section_syms
section_syms-local i [] = tt
section_syms-local i (s ∷ ss) = (
  (st_info_parts stb_local stt_section (omega arith) (omega arith)).0,
  section_syms-local (suc i) ss,
)

add_local-AllLocal :
    (i : ℕ) (st : SymState) (s : Symbol) → AllLocal st → AllLocal (add_local i st s)
unfolding add_local emit
add_local-AllLocal i st s h =
    elim (Bool-cases (is_local s.binding && not (is_sym_section s.kind))) [
      | inl taken ↦
          rw (taken, add_local)
            (All-snoc IsLocalEntry st.syms _ h (bind_of-entry_of stb_local i s (omega arith)))
      | inr passed ↦ rw (passed, add_local) h
    ]

local_syms-AllLocal : (sections : List Section) → AllLocal (local_syms sections)
unfolding local_syms initial_syms
local_syms-AllLocal sections =
    over_sections_inv AllLocal (λ i sec. add_local i) (λ i sec. add_local-AllLocal i) 0 sections
      (initial_syms sections) (omega arith, section_syms-local 0 sections)

-- The table is the given entries and then global ones.
record GlobalsAfter (front : List Sym) (st : SymState) : Type 0 where
  globals : List Sym
  shape : st.syms ≡ front ++ globals
  all_global : All IsGlobalEntry globals

emit-GlobalsAfter :
    {front : List Sym} (st : SymState) (name : Bytes) (e : Sym)
    → IsGlobalEntry e
    → GlobalsAfter front st
    → GlobalsAfter front (emit st name e)
emit-GlobalsAfter {front} st name e g h =
    let (off, added) = emit-syms st name e in
    record {
      globals = h.globals ++ (record e { name = off } ∷ []);
      shape =
          added
          ∙ ap (λ t. t ++ (record e { name = off } ∷ [])) h.shape
          ∙ append_assoc front h.globals (record e { name = off } ∷ []);
      all_global = All-snoc IsGlobalEntry h.globals _ h.all_global g;
    }

global_bind :
    (weak : Bool) → let bind = (if weak then stb_weak else stb_global) in (bind < 16) × (bind ≢ 0)
global_bind true = (omega arith, omega arith)
global_bind false = (omega arith, omega arith)

add_global-GlobalsAfter :
    {front : List Sym} (i : ℕ) (st : SymState) (s : Symbol)
    → GlobalsAfter front st
    → GlobalsAfter front (add_global i st s)
unfolding add_global
add_global-GlobalsAfter i st s h =
    let bind = (if is_weak s.binding then stb_weak else stb_global) in
    let facts = global_bind (is_weak s.binding) in
    elim (Bool-cases (is_local s.binding)) [
      | inl passed ↦ rw (passed, add_global) h
      | inr taken ↦
          rw (taken, add_global)
            (emit-GlobalsAfter st s.name (entry_of bind i s)
              (λ e. facts.1 (sym (bind_of-entry_of bind i s facts.0) ∙ e)) h)
    ]

add_external-GlobalsAfter :
    {front : List Sym} (st : SymState) (name : Bytes)
    → GlobalsAfter front st
    → GlobalsAfter front (add_external st name)
unfolding add_external
add_external-GlobalsAfter st name h =
    emit-GlobalsAfter st name _
      (λ e.
        absurd (omega (arith, e, st_info_parts stb_global stt_notype (omega arith) (omega arith))))
      h

symbol_table-GlobalsAfter :
    (sections : List Section) → GlobalsAfter (local_syms sections).syms (symbol_table sections)
unfolding symbol_table
symbol_table-GlobalsAfter sections =
    let front = (local_syms sections).syms in
    let start : GlobalsAfter front (local_syms sections) = record {
      globals = [];
      shape = sym (append-nil front);
      all_global = tt;
    } in
    over_names_inv (GlobalsAfter front) add_external-GlobalsAfter (external_symbols sections) _ (
      over_sections_inv (GlobalsAfter front) (λ i sec. add_global i)
        (λ i sec. add_global-GlobalsAfter i) 0 sections _ start)

get_elem?-split {ℓ κ} :
    (P : Sym → Type ℓ) (Q : Sym → Type κ) (xs ys : List Sym) (i : ℕ) (e : Sym)
    → All P xs
    → All Q ys
    → get_elem? (xs ++ ys) i ≡ some e
    → ((i < length xs) × P e) ⊎ ((length xs ≤ i) × Q e)
get_elem?-split P Q [] [] i e p q h = absurd (ground arith)
get_elem?-split P Q [] (y ∷ ys) zero e p q h = inr (omega arith, subst Q (some-injective _ _ h) q.0)
get_elem?-split P Q [] (y ∷ ys) (suc i) e p q h = elim (get_elem?-split P Q [] ys i e p q.1 h) [
  | inl below ↦ inl (absurd (omega (arith, below.0)))
  | inr above ↦ inr (omega arith, above.1)
]
get_elem?-split P Q (x ∷ xs) ys zero e p q h = inl (omega arith, subst P (some-injective _ _ h) p.0)
get_elem?-split P Q (x ∷ xs) ys (suc i) e p q h = elim (get_elem?-split P Q xs ys i e p.1 q h) [
  | inl below ↦ inl (omega (arith, below.0), below.1)
  | inr above ↦ inr (omega (arith, above.0), above.1)
]

-- In a table of less than 2 ^ 32 entries, `firstGlobal`, which becomes sh_info of .symtab, parts the
-- entries: those below it are local, and those from it on are not.
pub symbol_table-first_global :
    (sections : List Section) (i : ℕ) (e : Sym)
    → length (symbol_table sections).syms < 2 ^ 32
    → get_elem? (symbol_table sections).syms i ≡ some e
    → ((i < first_global sections) × IsLocalEntry e)
      ⊎ ((first_global sections ≤ i) × IsGlobalEntry e)
unfolding first_global
symbol_table-first_global sections i e small h =
    let front = (local_syms sections).syms in
    let final = symbol_table-GlobalsAfter sections in
    let fits : u32 (length front) ≡ length front =
      omega (arith, ap length final.shape, length-append front final.globals) in
    rw fits (
      get_elem?-split IsLocalEntry IsGlobalEntry front final.globals i e
        (local_syms-AllLocal sections) final.all_global
        (sym (ap (λ t. get_elem? t i) final.shape) ∙ h))
