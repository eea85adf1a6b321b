-- ===== src/Macho/Layout/Bounds.antt =====
-- Where phase 6 of build in macho/write.go puts the contents of the sections.
use objectfile.Prelude.{
  ℕ, zero, suc, ◌+◌, ◌*◌, ◌^◌, ◌≤◌, ◌<◌, ◌≡◌, refl, ap, ◌∙◌, true, false, Bool-cases, inl, inr,
  List, [], ◌∷◌, arith, length, All, get_elem?, some, ◌==◌, if◌then◌else◌,
}
use mathlib.Core.Option.{some-injective}
use mathlib.Core.Path.{subst}
use objectfile.Prelude.Bits.{u32}
use objectfile.Offsets.{align_up_bounds}
use objectfile.Macho.Layout.{zero_filled, SecLaid, place, layout}
use objectfile.Macho.Relocs.{SecWork}

-- The bytes that the contents of a section take: its code and eight for each relocation record.
abbrev pub block_size : SecWork → ℕ
block_size w = length w.sec.code + 8 * length w.records

-- Room enough for the sections wherever they start.
abbrev pub footprint : List SecWork → ℕ
footprint [] = 0
footprint (w ∷ ws) = w.meta.align + block_size w + footprint ws

-- The size that the metadata has of a section with bytes in the file.
abbrev pub HasSize : SecWork → Type 0
HasSize w = zero_filled w ≡ false → w.meta.raw_size ≡ u32 (length w.sec.code)

-- What the header of a section says of its relocation records.
abbrev pub PointsToRelocs : SecLaid → Type 0
PointsToRelocs l =
    (l.n_reloc ≡ length l.work.records)
    × (l.reloc_off
        ≡ (if length l.work.records == 0 then 0 else l.data_off + length l.work.sec.code))

-- Each section with bytes in the file starts at `pos` or later, and no earlier than where those
-- before it end; all end by `end`.
abbrev pub Laid : ℕ → List SecLaid → ℕ → Type 0
Laid pos [] end = pos ≤ end
Laid pos (l ∷ ls) end =
    if zero_filled l.work
    then Laid pos ls end
    else ((pos ≤ l.data_off) × PointsToRelocs l × Laid (l.data_off + block_size l.work) ls end)

place-zerofill :
    (pos : ℕ) (w : SecWork)
    → zero_filled w ≡ true
    → ((place pos w).0.work ≡ w) × ((place pos w).1 ≡ pos)
unfolding place
place-zerofill pos w h = rw h (refl, refl)

-- One step: the section is at `pos` or less than an alignment past it, and the next position is
-- where its contents end.
place_lem :
    (pos : ℕ) (w : SecWork)
    → zero_filled w ≡ false
    → HasSize w
    → pos + (w.meta.align + block_size w) < 2 ^ 32
    → ((place pos w).0.work ≡ w)
      × (pos ≤ (place pos w).0.data_off)
      × ((place pos w).0.n_reloc ≡ length w.records)
      × ((place pos w).0.reloc_off
          ≡ (if length w.records == 0 then 0 else (place pos w).0.data_off + length w.sec.code))
      × ((place pos w).1 ≡ (place pos w).0.data_off + block_size w)
      × ((place pos w).1 ≤ pos + (w.meta.align + block_size w))
unfolding place
place_lem pos w raw size h =
    let raw_size = size raw in rw raw (ground (arith, raw_size, align_up_bounds pos w.meta.align))

-- Where the contents fit below 4 GiB, the sections with bytes in the file are laid out one behind
-- the other, none over another, within the room that they need.
pub layout_lem :
    (pos : ℕ) (ws : List SecWork)
    → All HasSize ws
    → pos + footprint ws < 2 ^ 32
    → Laid pos (layout pos ws).0 (layout pos ws).1 × ((layout pos ws).1 ≤ pos + footprint ws)
unfolding layout
layout_lem pos [] sizes h = (omega arith, omega arith)
layout_lem pos (w ∷ ws) sizes h = elim (Bool-cases (zero_filled w)) [
  | inl bss ↦
      let (work, same) = place-zerofill pos w bss in
      let rest = layout_lem (place pos w).1 ws sizes.1 (omega (arith, same, h)) in
      let shown : zero_filled (place pos w).0.work ≡ true = ap zero_filled work ∙ bss in
      (
        rw shown (
            subst (λ p. Laid p (layout (place pos w).1 ws).0 (layout (place pos w).1 ws).1) same
              rest.0),
        omega (arith, same, rest.1),
      )
  | inr raw ↦
      let step = place_lem pos w raw sizes.0 (omega (arith, h)) in
      let rest = layout_lem (place pos w).1 ws sizes.1 (omega (arith, step, h)) in
      let shown : zero_filled (place pos w).0.work ≡ false = ap zero_filled step.0 ∙ raw in
      (
        rw shown (
          step.1,
          rw (step.0) (step.2, step.3),
          rw (step.0) (
              subst (λ p. Laid p (layout (place pos w).1 ws).0 (layout (place pos w).1 ws).1)
                (step.4) rest.0),
        ),
        omega (arith, step, rest.1),
      )
]

-- Nothing ends before it starts.
pub Laid-le : (pos end : ℕ) (ls : List SecLaid) → Laid pos ls end → pos ≤ end
Laid-le pos end [] h = h
Laid-le pos end (l ∷ ls) h = elim (Bool-cases (zero_filled l.work)) [
  | inl bss ↦ Laid-le pos end ls (rw bss at h)
  | inr raw ↦
      let laid = rw raw at h in
      omega (arith, laid.0, Laid-le (l.data_off + block_size l.work) end ls laid.2)
]

-- The place of one section.
pub Laid-get_elem? :
    (pos end : ℕ) (ls : List SecLaid) (i : ℕ) (l : SecLaid)
    → Laid pos ls end
    → get_elem? ls i ≡ some l
    → zero_filled l.work ≡ false
    → (l.data_off + block_size l.work ≤ end) × PointsToRelocs l
Laid-get_elem? pos end [] i l h at raw = absurd (ground arith)
Laid-get_elem? pos end (q ∷ ls) zero l h at raw =
    let same = some-injective _ _ at in
    let laid = rw (ap (λ x. zero_filled x.work) same ∙ raw) at h in
    let found : (q.data_off + block_size q.work ≤ end) × PointsToRelocs q =
      (Laid-le (q.data_off + block_size q.work) end ls laid.2, laid.1) in
    subst (λ x. (x.data_off + block_size x.work ≤ end) × PointsToRelocs x) same found
Laid-get_elem? pos end (q ∷ ls) (suc i) l h at raw = elim (Bool-cases (zero_filled q.work)) [
  | inl bss ↦ Laid-get_elem? pos end ls i l (rw bss at h) at raw
  | inr here ↦
      let laid = rw here at h in
      Laid-get_elem? (q.data_off + block_size q.work) end ls i l laid.2 at raw
]
