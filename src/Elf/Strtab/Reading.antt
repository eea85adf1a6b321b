-- ===== src/Elf/Strtab/Reading.antt =====
-- What a reader finds in a string table of elf/strtab.go: at the offset of each string that was
-- interned, that string up to its NUL byte, also after strings that were interned later.
use objectfile.Prelude.{
  ℕ, ◌≤◌, ◌<◌, ◌^◌, ◌≡◌, sym, ap, ◌∙◌, Bool-cases, ◌⊎◌, inl, inr, none, some, List, [], ◌∷◌, ◌++◌,
  append_assoc, arith, length, drop, drop-length-append, length-append,
}
use objectfile.Prelude.Bits.{u32}
use objectfile.Prelude.Bytes.{Bytes, bytes_eq, bytes_eq_iff, NoNul, cstr, cstr-append}
use objectfile.Prelude.Table.{
  Table, lookup, insert, lookup-insert, lookup-insert_self, first_entry, later_entry,
}
use objectfile.Elf.Strtab.{StrTab, new_str_tab, intern}

-- The string stands in the table behind `before`, with its NUL byte.
pub record Stored (payload s : Bytes) (off : ℕ) : Type 0 where
  pub before : Bytes
  pub after : Bytes
  pub shape : payload ≡ before ++ (s ++ (0 ∷ after))
  pub start : off ≡ u32 (length before)

-- Every string of the map is stored at its offset.
pub record IsValid (t : StrTab) : Type 0 where
  pub stored : (s : Bytes) (off : ℕ) → lookup s t.offsets ≡ some off → Stored t.payload s off

only_empty : (s : Bytes) (off : ℕ) → lookup s new_str_tab.offsets ≡ some off → (s ≡ []) × (off ≡ 0)
unfolding lookup
only_empty s off h = ground (arith, bytes_eq_iff [] s)

pub new_str_tab-IsValid : IsValid new_str_tab
new_str_tab-IsValid = record {
  stored = λ s off h.
      let (empty, start) = only_empty s off h in
      record { before = []; after = []; shape = rw empty; start = start };
}

Stored-append :
    {payload s : Bytes} {off : ℕ} (more : Bytes)
    → Stored payload s off
    → Stored (payload ++ more) s off
Stored-append {s = s} more h = record {
  before = h.before;
  after = h.after ++ more;
  shape =
      ap (λ t. t ++ more) h.shape
      ∙ append_assoc h.before (s ++ (0 ∷ h.after)) more
      ∙ ap (λ t. h.before ++ t) (append_assoc s (0 ∷ h.after) more);
  start = h.start;
}

-- intern, with the two cases told apart.
pub intern-cases :
    (t : StrTab) (s : Bytes)
    → ((lookup s t.offsets ≡ some (intern t s).1) × ((intern t s).0 ≡ t))
      ⊎ ((lookup s t.offsets ≡ none)
          × ((intern t s).0.payload ≡ (t.payload ++ s) ++ (0 ∷ []))
          × ((intern t s).0.offsets ≡ insert s (intern t s).1 t.offsets)
          × ((intern t s).1 ≡ u32 (length t.payload)))
unfolding intern
intern-cases t s = ground arith

-- A later table has all the strings of an earlier one at their offsets.
pub record Grows (t u : StrTab) : Type 0 where
  pub keeps : (k : Bytes) (off : ℕ) → lookup k t.offsets ≡ some off → lookup k u.offsets ≡ some off
  pub longer : length t.payload ≤ length u.payload

pub Grows-refl : (t : StrTab) → Grows t t
Grows-refl t = record { keeps = λ k off h. h; longer = omega arith }

pub Grows-trans : {t u v : StrTab} → Grows t u → Grows u v → Grows t v
Grows-trans p q = record {
  keeps = λ k off h. q.keeps k off (p.keeps k off h);
  longer = omega (arith, p.longer, q.longer);
}

keeps_other :
    (s k : Bytes) (v off : ℕ) (m : Table ℕ)
    → lookup s m ≡ none
    → lookup k m ≡ some off
    → lookup k (insert s v m) ≡ some off
keeps_other s k v off m missing h = elim (Bool-cases (bytes_eq s k)) [
  | inl same ↦ let e = (bytes_eq_iff s k).0 same in cc (missing, h, ap (λ t. lookup t m) e)
  | inr other ↦ lookup-insert s k v m ∙ rw other h
]

pub intern-Grows : (t : StrTab) (s : Bytes) → Grows t (intern t s).0
intern-Grows t s = elim (intern-cases t s) [
  | inl (_, same) ↦ rw same (Grows-refl t)
  | inr (missing, payload, offsets, _) ↦ record {
    keeps = λ k off h. rw offsets (keeps_other s k (intern t s).1 off t.offsets missing h);
    longer =
        rw payload
          (omega (arith, length-append (t.payload ++ s) (0 ∷ []), length-append t.payload s));
  }
]

-- The offset that intern returns is that of the string.
pub lookup-intern : (t : StrTab) (s : Bytes) → lookup s (intern t s).0.offsets ≡ some (intern t s).1
lookup-intern t s = elim (intern-cases t s) [
  | inl (found, same) ↦ rw same found
  | inr (_, _, offsets, _) ↦ ap (lookup s) offsets ∙ lookup-insert_self s (intern t s).1 t.offsets
]

Stored-new :
    (t : StrTab) (s k : Bytes) (v off : ℕ)
    → IsValid t
    → v ≡ u32 (length t.payload)
    → lookup k (insert s v t.offsets) ≡ some off
    → Stored ((t.payload ++ s) ++ (0 ∷ [])) k off
Stored-new t s k v off valid e h = elim (Bool-cases (bytes_eq s k)) [
  | inl same ↦ record {
    before = t.payload;
    after = [];
    shape = rw (← (bytes_eq_iff s k).0 same) (append_assoc t.payload s (0 ∷ []));
    start = sym (first_entry s k v off t.offsets same h) ∙ e;
  }
  | inr other ↦
      let old = valid.stored k off (later_entry s k v off t.offsets other h) in
      rw (append_assoc t.payload s (0 ∷ [])) (Stored-append (s ++ (0 ∷ [])) old)
]

pub intern-IsValid : (t : StrTab) (s : Bytes) → IsValid t → IsValid (intern t s).0
intern-IsValid t s valid = elim (intern-cases t s) [
  | inl (_, same) ↦ rw same valid
  | inr (_, payload, offsets, start) ↦ record {
    stored =
        λ k off h. rw payload (Stored-new t s k (intern t s).1 off valid start (rw offsets at h));
  }
]

pub starts_at :
    (payload s : Bytes) (off : ℕ) (before after : Bytes)
    → length payload < 2 ^ 32
    → payload ≡ before ++ (s ++ (0 ∷ after))
    → off ≡ u32 (length before)
    → off ≡ length before
starts_at payload s off before after small shape start =
    omega (arith, ap length shape, length-append before (s ++ (0 ∷ after)))

-- The string that the map has at an offset is read there, as long as offsets fit 32 bits.
pub cstr-stored :
    (t : StrTab) (s : Bytes) (off : ℕ)
    → IsValid t
    → NoNul s
    → length t.payload < 2 ^ 32
    → lookup s t.offsets ≡ some off
    → cstr (drop off t.payload) ≡ s
cstr-stored t s off valid clean small h =
    let found = valid.stored s off h in
    let at_start : off ≡ length found.before =
      starts_at t.payload s off found.before found.after small found.shape found.start in
    rw found.shape (
      rw (drop-length-append off found.before (s ++ (0 ∷ found.after)) at_start)
        (cstr-append s found.after clean))

-- The table after a row of further calls.
abbrev pub intern_all : List Bytes → StrTab → StrTab
intern_all [] t = t
intern_all (s ∷ ss) t = intern_all ss (intern t s).0

pub intern_all-Grows : (ss : List Bytes) (t : StrTab) → Grows t (intern_all ss t)
intern_all-Grows [] t = Grows-refl t
intern_all-Grows (s ∷ ss) t = Grows-trans (intern-Grows t s) (intern_all-Grows ss (intern t s).0)

pub intern_all-IsValid : (ss : List Bytes) (t : StrTab) → IsValid t → IsValid (intern_all ss t)
intern_all-IsValid [] t valid = valid
intern_all-IsValid (s ∷ ss) t valid =
    intern_all-IsValid ss (intern t s).0 (intern-IsValid t s valid)

-- In the table that any strings interned before and after give, the offset that intern has
-- returned for a string without NUL bytes reads back that string, if the table is below 4 GiB.
pub cstr-intern :
    (earlier later : List Bytes) (s : Bytes)
    → NoNul s
    → let named = intern (intern_all earlier new_str_tab) s in
      length (intern_all later named.0).payload < 2 ^ 32
      → cstr (drop named.1 (intern_all later named.0).payload) ≡ s
cstr-intern earlier later s clean small =
    let t = intern_all earlier new_str_tab in
    let valid = intern-IsValid t s (intern_all-IsValid earlier new_str_tab new_str_tab-IsValid) in
    cstr-stored (intern_all later (intern t s).0) s (intern t s).1
      (intern_all-IsValid later (intern t s).0 valid) clean small
      ((intern_all-Grows later (intern t s).0).keeps s (intern t s).1 (lookup-intern t s))
