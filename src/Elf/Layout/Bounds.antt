-- ===== src/Elf/Layout/Bounds.antt =====
-- Where phase 4 puts the sections: one behind the other, none over another.
use objectfile.Prelude.{
  zero, suc, get_elem?, some, ℕ, ◌+◌, ◌%◌, ◌^◌, ◌≤◌, ◌<◌, ◌≡◌, List, [], ◌∷◌, arith, length, All,
  ◌==◌, if◌then◌else◌,
}
use mathlib.Core.Option.{some-injective}
use mathlib.Core.Path.{subst, sym}
use objectfile.Prelude.Bytes.{Bytes}
use objectfile.Elf.Align.{align_up, align_up_bounds, align_up-mod}
use objectfile.Elf.Consts.{sht_no_bits}
use objectfile.Elf.Layout.{place, layout_from}
use objectfile.Elf.Sections.{SecDesc}

-- The bytes of a section that are in the file.
abbrev pub file_bytes : SecDesc → Bytes
file_bytes d = if d.sh_type == sht_no_bits then [] else d.bytes

-- Room enough for the sections wherever they start.
abbrev pub footprint : List SecDesc → ℕ
footprint [] = 0
footprint (d ∷ ds) = d.align + length d.bytes + footprint ds

-- Each section starts at `pos` or later, and no earlier than those before it end; all end by `end`.
abbrev pub Laid : ℕ → List SecDesc → ℕ → Type 0
Laid pos [] end = pos ≤ end
Laid pos (d ∷ ds) end = (pos ≤ d.file_off) × Laid (d.file_off + length (file_bytes d)) ds end

-- One step: the section is at `pos` or less than an alignment past it, and the next position is
-- where its bytes end.
place_lem :
    (pos : ℕ) (d : SecDesc)
    → pos + (d.align + length d.bytes) < 2 ^ 64
    → (pos ≤ (place pos d).0)
      × ((place pos d).1 ≡ (place pos d).0 + length (file_bytes d))
      × ((place pos d).1 ≤ pos + (d.align + length d.bytes))
unfolding place
place_lem pos d h = ground (arith, align_up_bounds pos d.align)

-- Where the sections fit below 2 ^ 64, phase 4 puts them one behind the other from `pos` on, none
-- over another, and ends within the room that they need.
pub layout_from-Laid :
    (pos : ℕ) (ds : List SecDesc)
    → pos + footprint ds < 2 ^ 64
    → Laid pos (layout_from pos ds).0 (layout_from pos ds).1
      × ((layout_from pos ds).1 ≤ pos + footprint ds)
unfolding layout_from
layout_from-Laid pos [] h = omega arith
layout_from-Laid pos (d ∷ ds) h =
    let step = place_lem pos d (omega arith) in
    let rest = layout_from-Laid (place pos d).1 ds (omega (arith, step.2)) in
    let later = layout_from (place pos d).1 ds in
    ((step.0, subst (λ p. Laid p later.0 later.1) (step.1) (rest.0)), omega (arith, step.2, rest.1))

-- A section with bytes in the file starts at a multiple of its alignment, if that is a power of two.
abbrev pub IsAligned : SecDesc → Type 0
IsAligned d = (k : ℕ) → d.align ≡ 2 ^ k → 0 < length (file_bytes d) → d.file_off % 2 ^ k ≡ 0

place-IsAligned :
    (pos : ℕ) (d : SecDesc)
    → pos + (d.align + length d.bytes) < 2 ^ 64
    → IsAligned (record d { file_off = (place pos d).0 })
unfolding place
place-IsAligned pos d h k e p =
    let multiple = align_up-mod pos k (omega (arith, e)) in
    ground (arith, subst (λ a. align_up pos a % 2 ^ k ≡ 0) (sym e) multiple)

-- Where the sections fit below 2 ^ 64, each that has bytes in the file and a power of two for its
-- alignment starts at a multiple of that.
pub layout_from-IsAligned :
    (pos : ℕ) (ds : List SecDesc)
    → pos + footprint ds < 2 ^ 64
    → All IsAligned (layout_from pos ds).0
unfolding layout_from
layout_from-IsAligned pos [] h = tt
layout_from-IsAligned pos (d ∷ ds) h =
    let step = place_lem pos d (omega arith) in
    (
      place-IsAligned pos d (omega arith),
      layout_from-IsAligned (place pos d).1 ds (omega (arith, step.2)),
    )

-- Nothing ends before it starts.
Laid-le : (pos end : ℕ) (ds : List SecDesc) → Laid pos ds end → pos ≤ end
Laid-le pos end [] h = h
Laid-le pos end (d ∷ ds) h =
    omega (arith, h.0, Laid-le (d.file_off + length (file_bytes d)) end ds h.1)

-- Each section starts before the end.
pub Laid-get_elem? :
    (pos end : ℕ) (ds : List SecDesc) (i : ℕ) (d : SecDesc)
    → Laid pos ds end
    → get_elem? ds i ≡ some d
    → d.file_off ≤ end
Laid-get_elem? pos end [] i d h at = absurd (ground arith)
Laid-get_elem? pos end (e ∷ ds) zero d h at =
    let bound : e.file_off ≤ end =
      omega (arith, Laid-le (e.file_off + length (file_bytes e)) end ds h.1) in
    subst (λ x. x.file_off ≤ end) (some-injective _ _ at) bound
Laid-get_elem? pos end (e ∷ ds) (suc i) d h at =
    Laid-get_elem? (e.file_off + length (file_bytes e)) end ds i d h.1 at
