-- ===== src/Coff/Layout/Bounds.antt =====
-- Where phase 6 puts the contents of the sections: one behind the other, none over another.
use objectfile.Prelude.{
  ℕ, zero, suc, ◌+◌, ◌*◌, ◌^◌, ◌≤◌, ◌<◌, ◌≡◌, refl, sym, ap, ◌∙◌, map, true, false, Bool-cases, ◌⊎◌,
  inl, inr, List, [], ◌∷◌, arith, length, All, get_elem?, some, ltb, ◌==◌, if◌then◌else◌,
}
use mathlib.Core.Option.{some-injective}
use mathlib.Core.Path.{subst, ap₂}
use objectfile.Prelude.Bits.{u32}
use objectfile.Prelude.Result.{ok, >>=-eq-ok, ok-injective}
use objectfile.Object.{Section}
use objectfile.Offsets.{align_up_bounds}
use objectfile.Coff.Layout.{SecLaid, placed, place, layout}
use objectfile.Coff.Relocs.{SecWork}
use objectfile.Coff.Sections.{section_meta, is_bss_like, effective_align}

-- The bytes that the contents of a section take: its code and ten for each relocation record.
abbrev pub block_size : SecWork → ℕ
block_size w = length w.sec.code + 10 * length w.records

-- Room enough for the sections wherever they start.
abbrev pub footprint : List SecWork → ℕ
footprint [] = 0
footprint (w ∷ ws) = effective_align w.sec + block_size w + footprint ws

-- What the header of a section says of its relocation records.
abbrev pub PointsToRelocs : SecLaid → Type 0
PointsToRelocs l =
    (l.n_relocs ≡ length l.work.records)
    × (l.reloc_off ≡ (if length l.work.records == 0 then 0 else l.raw_off + length l.work.sec.code))
    × (length l.work.records ≤ 0xffff)

-- Each section with raw bytes starts at `pos` or later, and no earlier than where those before it
-- end; all end by `end`.
abbrev pub Laid : ℕ → List SecLaid → ℕ → Type 0
Laid pos [] end = pos ≤ end
Laid pos (l ∷ ls) end =
    if is_bss_like l.work.sec
    then Laid pos ls end
    else ((pos ≤ l.raw_off) × PointsToRelocs l × Laid (l.raw_off + block_size l.work) ls end)

section_meta-raw_size :
    (s : Section)
    → is_bss_like s ≡ false
    → ((section_meta s).raw_size ≡ u32 (length s.code))
      × ((section_meta s).align ≡ effective_align s)
unfolding section_meta
section_meta-raw_size s h = rw h (refl, refl)

placed-work : (pos : ℕ) (w : SecWork) → (placed pos w).0.work ≡ w
unfolding placed
placed-work pos w = ground arith

-- One step: the section is at `pos` or less than an alignment past it, and the next position is
-- where its contents end.
placed_lem :
    (pos : ℕ) (w : SecWork)
    → is_bss_like w.sec ≡ false
    → length w.records ≤ 0xffff
    → pos + (effective_align w.sec + block_size w) < 2 ^ 32
    → (pos ≤ (placed pos w).0.raw_off)
      × ((placed pos w).0.n_relocs ≡ length w.records)
      × ((placed pos w).0.reloc_off
          ≡ (if length w.records == 0 then 0 else (placed pos w).0.raw_off + length w.sec.code))
      × ((placed pos w).1 ≡ (placed pos w).0.raw_off + block_size w)
      × ((placed pos w).1 ≤ pos + (effective_align w.sec + block_size w))
unfolding placed
placed_lem pos w raw few h =
    let size = section_meta-raw_size w.sec raw in
    ground (arith, size, align_up_bounds pos (section_meta w.sec).align)

-- What `place` returns, with its cases told apart.
place-cases :
    (pos : ℕ) (w : SecWork) {here : SecLaid × ℕ}
    → place pos w ≡ ok here
    → ((is_bss_like w.sec ≡ true) × (here.0.work ≡ w) × (here.1 ≡ pos))
      ⊎ ((is_bss_like w.sec ≡ false) × (length w.records ≤ 0xffff) × (here ≡ placed pos w))
unfolding place
place-cases pos w h = elim (Bool-cases (is_bss_like w.sec)) [
  | inl bss ↦
      let e = ok-injective (rw bss at h) in
      inl (bss, ap (λ x. x.0.work) (sym e), ap (λ x. x.1) (sym e))
  | inr raw ↦ elim (Bool-cases (ltb 0xffff (length w.records))) [
    | inl many ↦ absurd (cc (rw many at (rw raw at h)))
    | inr few ↦ inr (raw, ground arith, sym (ok-injective (rw few at (rw raw at h))))
  ]
]

place-work : (pos : ℕ) (w : SecWork) {here : SecLaid × ℕ} → place pos w ≡ ok here → here.0.work ≡ w
place-work pos w h = elim (place-cases pos w h) [
  | inl (bss, work, same) ↦ work
  | inr (raw, few, e) ↦ ap (λ x. x.0.work) e ∙ placed-work pos w
]

pub layout-work :
    (pos : ℕ) (ws : List SecWork) {laid : List SecLaid × ℕ}
    → layout pos ws ≡ ok laid
    → map (λ l. l.work) laid.0 ≡ ws
unfolding layout
layout-work pos [] h = ap (λ x. map (λ l. l.work) x.0) (sym (ok-injective h))
layout-work pos (w ∷ ws) h =
    let (here, placed_here, h₁) = >>=-eq-ok (place pos w) _ h in
    let (rest, later, h₂) = >>=-eq-ok (layout here.1 ws) _ h₁ in
    ap (λ x. map (λ l. l.work) x.0) (sym (ok-injective h₂))
    ∙ ap₂ (λ a b. a ∷ b) (place-work pos w placed_here) (layout-work here.1 ws later)

-- What one round of phase 6 does: a section without raw bytes leaves the position.
abbrev Stepped : ℕ → SecLaid → ℕ → Type 0
Stepped pos l next =
    ((is_bss_like l.work.sec ≡ true) × (next ≡ pos))
    ⊎ ((is_bss_like l.work.sec ≡ false)
        × (pos ≤ l.raw_off)
        × PointsToRelocs l
        × (next ≡ l.raw_off + block_size l.work))

Laid-cons :
    (pos : ℕ) (l : SecLaid) (next end : ℕ) (ls : List SecLaid)
    → Stepped pos l next
    → Laid next ls end
    → Laid pos (l ∷ ls) end
Laid-cons pos l next end ls (inl (bss, same)) h = rw bss (subst (λ p. Laid p ls end) same h)
Laid-cons pos l next end ls (inr (raw, start, points, same)) h =
    rw raw (start, points, subst (λ p. Laid p ls end) same h)

place-Stepped :
    (pos : ℕ) (w : SecWork) {here : SecLaid × ℕ}
    → pos + (effective_align w.sec + block_size w) < 2 ^ 32
    → place pos w ≡ ok here
    → Stepped pos here.0 here.1 × (here.1 ≤ pos + (effective_align w.sec + block_size w))
place-Stepped pos w {here} small h = elim (place-cases pos w h) [
  | inl (bss, work, same) ↦ (inl (rw work (bss, same)), omega (arith, same))
  | inr (raw, few, e) ↦
      let step = placed_lem pos w raw few small in
      subst (λ x. Stepped pos x.0 x.1 × (x.1 ≤ pos + (effective_align w.sec + block_size w)))
        (sym e) (inr (rw (placed-work pos w) (raw, step.0, (step.1, step.2, few), step.3)), step.4)
]

-- Where the contents fit below 4 GiB, phase 6 puts them one behind the other from `pos` on, none
-- over another, and ends within the room that they need.
pub layout-Laid :
    (pos : ℕ) (ws : List SecWork) {laid : List SecLaid × ℕ}
    → pos + footprint ws < 2 ^ 32
    → layout pos ws ≡ ok laid
    → Laid pos laid.0 laid.1 × (laid.1 ≤ pos + footprint ws)
unfolding layout
layout-Laid pos [] small h =
    subst (λ x. Laid pos x.0 x.1 × (x.1 ≤ pos + 0)) (ok-injective h) (omega arith, omega arith)
layout-Laid pos (w ∷ ws) small h =
    let (here, placed_here, h₁) = >>=-eq-ok (place pos w) _ h in
    let (rest, later, h₂) = >>=-eq-ok (layout here.1 ws) _ h₁ in
    let room = effective_align w.sec + block_size w in
    let step = place-Stepped pos w (omega arith) placed_here in
    let tail = layout-Laid here.1 ws (omega (arith, step.1)) later in
    subst (λ x. Laid pos x.0 x.1 × (x.1 ≤ pos + (room + footprint ws))) (ok-injective h₂)
      (Laid-cons pos here.0 here.1 rest.1 rest.0 step.0 tail.0, omega (arith, tail.1, step.1))

-- Nothing ends before it starts.
pub Laid-le : (pos end : ℕ) (ls : List SecLaid) → Laid pos ls end → pos ≤ end
Laid-le pos end [] h = h
Laid-le pos end (l ∷ ls) h = elim (Bool-cases (is_bss_like l.work.sec)) [
  | inl bss ↦ Laid-le pos end ls (rw bss at h)
  | inr raw ↦
      let laid = rw raw at h in
      omega (arith, laid.0, Laid-le (l.raw_off + block_size l.work) end ls laid.2)
]

-- A section without raw bytes has no offsets.
abbrev pub BssIsBare : SecLaid → Type 0
BssIsBare l = is_bss_like l.work.sec ≡ true → (l.reloc_off ≡ 0) × (l.n_relocs ≡ 0)

place-BssIsBare :
    (pos : ℕ) (w : SecWork) {here : SecLaid × ℕ} → place pos w ≡ ok here → BssIsBare here.0
unfolding place
place-BssIsBare pos w {here} h = elim (Bool-cases (is_bss_like w.sec)) [
  | inl bss ↦ subst (λ x. BssIsBare x.0) (ok-injective (rw bss at h)) (λ _. (refl, refl))
  | inr raw ↦ λ bss. absurd (cc (raw, ap (λ v. is_bss_like v.sec) (place-work pos w h), bss))
]

pub layout-BssIsBare :
    (pos : ℕ) (ws : List SecWork) {laid : List SecLaid × ℕ}
    → layout pos ws ≡ ok laid
    → All BssIsBare laid.0
unfolding layout
layout-BssIsBare pos [] h = subst (λ x. All BssIsBare x.0) (ok-injective h) tt
layout-BssIsBare pos (w ∷ ws) h =
    let (here, placed_here, h₁) = >>=-eq-ok (place pos w) _ h in
    let (rest, later, h₂) = >>=-eq-ok (layout here.1 ws) _ h₁ in
    subst (λ x. All BssIsBare x.0) (ok-injective h₂)
      (place-BssIsBare pos w placed_here, layout-BssIsBare here.1 ws later)

-- The place of one section.
pub Laid-get_elem? :
    (pos end : ℕ) (ls : List SecLaid) (i : ℕ) (l : SecLaid)
    → Laid pos ls end
    → get_elem? ls i ≡ some l
    → is_bss_like l.work.sec ≡ false
    → (l.raw_off + block_size l.work ≤ end) × PointsToRelocs l
Laid-get_elem? pos end [] i l h at raw = absurd (ground arith)
Laid-get_elem? pos end (q ∷ ls) zero l h at raw =
    let same = some-injective _ _ at in
    let laid = rw (ap (λ x. is_bss_like x.work.sec) same ∙ raw) at h in
    let found : (q.raw_off + block_size q.work ≤ end) × PointsToRelocs q =
      (Laid-le (q.raw_off + block_size q.work) end ls laid.2, laid.1) in
    subst (λ x. (x.raw_off + block_size x.work ≤ end) × PointsToRelocs x) same found
Laid-get_elem? pos end (q ∷ ls) (suc i) l h at raw = elim (Bool-cases (is_bss_like q.work.sec)) [
  | inl bss ↦ Laid-get_elem? pos end ls i l (rw bss at h) at raw
  | inr here ↦
      let laid = rw here at h in
      Laid-get_elem? (q.raw_off + block_size q.work) end ls i l laid.2 at raw
]
