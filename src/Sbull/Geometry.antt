-- ===== src/Sbull/Geometry.antt =====
-- The geometry that HDIO_GETGEO gives.
use ldd3_kernel.Prelude.{ℕ, ◌+◌, ◌*◌, ◌/◌, ◌≤◌, arith, ltb, if_cases}
use ldd3_kernel.Sbull.{HdGeometry, geometry}

abbrev pub places : HdGeometry → ℕ
places g = g.heads * g.sectors * g.cylinders

-- Room for each sector, and less than a cylinder more
abbrev pub Covers : ℕ → HdGeometry → Type 0
Covers capacity g = (capacity ≤ places g) × (places g ≤ capacity + 255 * 63)

-- For a disk of at most 255 * 63 * 65535 sectors, the geometry has room for each sector, and it
-- exceeds the disk by less than one cylinder.
pub geometry-Covers :
    (capacity : ℕ) → capacity ≤ 255 * 63 * 65535 → Covers capacity (geometry capacity)
unfolding geometry
geometry-Covers capacity h =
    if_cases (Covers capacity) (ltb 63 capacity)
      (λ big.
        if_cases (Covers capacity) (ltb 255 ((capacity + 62) / 63))
          (λ many. ground (arith, h, big, many)) λ few. ground (arith, h, big, few))
      λ small. ground (arith, small)
