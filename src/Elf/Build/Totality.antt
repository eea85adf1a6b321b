-- ===== src/Elf/Build/Totality.antt =====
-- When a file is built: every error that the package has is ruled out by what it asks of its input.
use objectfile.Prelude.{◌+◌, ◌≡◌, refl, ◌∙◌, true, false, not, ◌&&◌, List, [], ◌∷◌, arith, All}
use objectfile.Prelude.Bits.{u32}
use objectfile.Prelude.Bytes.{Bytes, bytes_eq, bytes_eq_iff}
use objectfile.Prelude.Result.{ok}
use objectfile.Loops.{has_key, some_symbol, some_section}
use objectfile.Object.{Section, Symbol, Reloc}
use objectfile.Elf.Build.{build, emit_file}
use objectfile.Elf.Externals.Laws.{defines, references, relocates}
use objectfile.Elf.File.{File}
use objectfile.Elf.Format.{Class}
use objectfile.Elf.Relocs.Laws.{is_supported, IsResolvable, AllResolvable, rela_work-total}
use objectfile.Elf.Sections.{symtab_idx_of}
use objectfile.Elf.Sections.Totality.{IsSigned, rela_work-InRange, section_descs-total}
use objectfile.Elf.Symbols.{symbol_table}
use objectfile.Elf.Symbols.Coverage.{has_entry, has_key-symbol_table}

-- A relocation that the package can translate: the machine has its kind, its symbol has a name, and
-- that is not the name of local section symbols alone.
abbrev pub CanResolve : File → Reloc → Type 0
CanResolve f r =
    (is_supported f r.kind ≡ true)
    × (bytes_eq r.symbol [] ≡ false)
    × ((defines r.symbol f.sections && not (some_section has_entry r.symbol f.sections)) ≡ false)

-- What the package asks of the sections.
pub record IsBuildable (f : File) : Type 0 where
  pub resolves : All (λ s. All (CanResolve f) s.relocs) f.sections
  pub signed : All IsSigned f.sections

-- A fact about all names that are used, or defined, holds at each place of use.
module _ (P : Bytes → Type 0) where
  used_symbols :
      (rs : List Reloc) → ((k : Bytes) → relocates k rs ≡ true → P k) → All (λ r. P r.symbol) rs
  used_symbols [] h = tt
  used_symbols (r ∷ rs) h = (
    h r.symbol (rw ((bytes_eq_iff r.symbol r.symbol).1 refl)),
    used_symbols rs (λ k used. h k (rw used (ground arith))),
  )

  used_names :
      (ss : List Section)
      → ((k : Bytes) → references k ss ≡ true → P k)
      → All (λ s. All (λ r. P r.symbol) s.relocs) ss
  used_names [] h = tt
  used_names (s ∷ ss) h = (
    used_symbols s.relocs (λ k used. h k (rw used)),
    used_names ss (λ k used. h k (rw used (ground arith))),
  )

  entered_symbols :
      (ss : List Symbol)
      → ((k : Bytes) → some_symbol has_entry k ss ≡ true → P k)
      → All (λ s. has_entry s ≡ true → P s.name) ss
  entered_symbols [] h = tt
  entered_symbols (s ∷ ss) h = (
    (λ enters. h s.name (rw enters (rw ((bytes_eq_iff s.name s.name).1 refl)))),
    entered_symbols ss (λ k found. h k (rw found (ground arith))),
  )

  entered_names :
      (ss : List Section)
      → ((k : Bytes) → some_section has_entry k ss ≡ true → P k)
      → All (λ s. All (λ y. has_entry y ≡ true → P y.name) s.symbols) ss
  entered_names [] h = tt
  entered_names (s ∷ ss) h = (
    entered_symbols s.symbols (λ k found. h k (rw found)),
    entered_names ss (λ k found. h k (rw found (ground arith))),
  )

resolve :
    (f : File) (r : Reloc)
    → CanResolve f r
    → references r.symbol f.sections ≡ true
    → IsResolvable f (symbol_table f.sections).sym_index r
resolve f r (supported, named, visible) used =
    (has_key-symbol_table r.symbol f.sections ∙ rw used (rw named (ground arith)), supported)

resolve_relocs :
    (f : File) (rs : List Reloc)
    → All (CanResolve f) rs
    → All (λ r. references r.symbol f.sections ≡ true) rs
    → All (IsResolvable f (symbol_table f.sections).sym_index) rs
resolve_relocs f [] h k = tt
resolve_relocs f (r ∷ rs) h k = (resolve f r h.0 k.0, resolve_relocs f rs h.1 k.1)

resolve_sections :
    (f : File) (ss : List Section)
    → All (λ s. All (CanResolve f) s.relocs) ss
    → All (λ s. All (λ r. references r.symbol f.sections ≡ true) s.relocs) ss
    → AllResolvable f (symbol_table f.sections).sym_index ss
resolve_sections f [] h k = tt
resolve_sections f (s ∷ ss) h k = (resolve_relocs f s.relocs h.0 k.0, resolve_sections f ss h.1 k.1)

-- A file is built, whatever its class, if the machine has the kinds of its relocations, each names a
-- symbol that is not only a local section symbol, and each FlagLinkOnce section has a global or weak
-- symbol.
pub build-total : (c : Class) (f : File) → IsBuildable f → (b : Bytes) × (build c f ≡ ok b)
unfolding build
build-total c f ready =
    let table = symbol_table f.sections in
    let used = used_names (λ k. references k f.sections ≡ true) f.sections (λ k h. h) in
    let (work, h) =
      rela_work-total c f table.sym_index 0 f.sections
        (resolve_sections f f.sections ready.resolves used) in
    let keys =
      entered_names (λ k. has_key k table.sym_index ≡ true) f.sections
        (λ k found. has_key-symbol_table k f.sections ∙ rw found) in
    let (st, done) =
      section_descs-total c f table work
        (rela_work-InRange c f table.sym_index 0 [] f.sections refl h) keys ready.signed in
    (emit_file c f (u32 (u32 (symtab_idx_of f work + 1) + 1)) st, rw h (rw done))
