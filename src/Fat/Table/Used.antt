-- ===== src/Fat/Table/Used.antt =====
-- `used_ranges` covers the clusters before the data section and those whose cell is not free.
use ofs_convert_rs.Common.{
  ℕ, suc, ◌+◌, ◌-◌, ◌/◌, ◌≤◌, ◌<◌, Bool, false, not, ◌&&◌, ◌||◌, List, [], ◌∷◌, ◌≡◌, refl, ◌∙◌, ap,
  ltb, ◌==◌, length, drop, ok, ◌>>=◌, arith, Bool-cases, inl, inr, u32_size, lt→ltb, add32,
  divide-lem,
}
use ofs_convert_rs.Ranges.{Range, Ranges}
use ofs_convert_rs.Ranges.Cover.{contains, covers, IsNormal}
use ofs_convert_rs.Ranges.Insert.{insert-Adds}
use ofs_convert_rs.Fat.BootSector.{
  BootSector, get_data_range, cluster_size, first_cluster, first_data_cluster-lem, sectors-positive,
}
use ofs_convert_rs.Fat.Table.{is_free, to_cluster_idx, used_loop, used_ranges}
use ofs_convert_rs.Fat.Table.Chain.{IsCluster, to_data-lem}

-- The first data cluster as `to_cluster_idx` computes it.
abbrev pub data_start : BootSector → ℕ
data_start b = (get_data_range b).start / cluster_size b

to_cluster-lem :
    (b : BootSector) (i : ℕ)
    → IsCluster i
    → 0 < cluster_size b
    → data_start b + (i - 2) < u32_size
    → to_cluster_idx b i ≡ ok (data_start b + (i - 2))
unfolding to_cluster_idx
to_cluster-lem b i c z h =
    rw
      (
        divide-lem (get_data_range b).start (cluster_size b) z,
        lt→ltb (data_start b) u32_size (omega arith),
        to_data-lem i c,
      )
      (ap ok (omega arith))

-- The cluster `x` belongs to one of the cells from the index `i` on, and that cell is not free.
abbrev pub in_use : BootSector → List ℕ → ℕ → ℕ → Bool
in_use b [] i x = false
in_use b (cell ∷ cells) i x =
    (not (is_free cell) && x == data_start b + (i - 2)) || in_use b cells (suc i) x

-- What one inserted cluster adds.
joined :
    (free later before : Bool) (c x : ℕ) {now : Bool}
    → free ≡ false
    → c + 1 < u32_size
    → now ≡ (contains (record { start = c; end = add32 c 1 }) x || before)
    → (later || now) ≡ (((not free && x == c) || later) || before)
joined free later before c x f h e = let d : add32 c 1 ≡ c + 1 = omega arith in ground (arith, d)

used_loop-covers :
    (b : BootSector) (cells : List ℕ) (i : ℕ) (rs : Ranges)
    → 0 < cluster_size b
    → 2 ≤ i
    → i + length cells ≤ 0x0FFFFFF8
    → data_start b + (i + length cells) < u32_size
    → IsNormal rs
    → (rs' : Ranges) × (used_loop b cells i rs ≡ ok rs')
      × IsNormal rs'
      × ((x : ℕ) → covers rs' x ≡ (in_use b cells i x || covers rs x))
unfolding used_loop
used_loop-covers b [] i rs z h k l n = (rs, refl, n, λ x. refl)
used_loop-covers b (cell ∷ cells) i rs z h k l n = elim (Bool-cases (is_free cell)) [
  | inl t ↦
      let (rs', e, m, c) =
        used_loop-covers b cells (suc i) rs z (omega arith) (omega arith) (omega arith) n in
      (rs', rw (t, used_loop) e, m, λ x. ground (arith, c x))
  | inr t ↦
      let c : ℕ = data_start b + (i - 2) in
      let range : Range = record { start = c; end = add32 c 1 } in
      let (rs₁, e₁, (n₁, c₁)) = insert-Adds rs range n in
      let (rs', e, m, c₂) =
        used_loop-covers b cells (suc i) rs₁ z (omega arith) (omega arith) (omega arith) n₁ in
      (
        rs',
        rw (t, used_loop)
            (rw (to_cluster-lem b i (h, omega arith) z (omega arith), ◌>>=◌) (rw (e₁, ◌>>=◌) e)),
        m,
        λ x.
            c₂ x
            ∙ joined (is_free cell) (in_use b cells (suc i) x) (covers rs x) c x t (omega arith)
                (c₁ x),
      )
]

length-drop_two : (table : List ℕ) → 2 ≤ length table → 2 + length (drop 2 table) ≡ length table
length-drop_two [] h = absurd (omega arith)
length-drop_two (x ∷ []) h = absurd (omega arith)
length-drop_two (x ∷ y ∷ rest) h = omega arith

-- Where a cluster is not empty, on a table of at most 0x0FFFFFF8 cells whose clusters have numbers that fit `u32`, `used_ranges` ends
-- without a panic, and covers exactly the clusters before the data section and the data clusters whose
-- cell, from the third on, is not free.
pub used_ranges-covers :
    (b : BootSector) (table : List ℕ)
    → 0 < cluster_size b
    → 2 ≤ length table
    → length table ≤ 0x0FFFFFF8
    → data_start b + length table < u32_size
    → (rs : Ranges) × (used_ranges b table ≡ ok rs)
      × IsNormal rs
      × ((x : ℕ) → covers rs x ≡ (in_use b (drop 2 table) 2 x || ltb x (first_cluster b)))
unfolding used_ranges
used_ranges-covers b table z h k l =
    let (rs₁, e₁, (n₁, c₁)) = insert-Adds [] (record { start = 0; end = first_cluster b }) tt in
    let d : 2 + length (drop 2 table) ≡ length table = length-drop_two table h in
    let (rs, e, n, c) =
      used_loop-covers b (drop 2 table) 2 rs₁ z (omega arith) (omega arith) (omega arith) n₁ in
    (
      rs,
      rw (first_data_cluster-lem b (sectors-positive b z), e₁, ◌>>=◌) e,
      n,
      λ x. c x ∙ ground (arith, c₁ x),
    )
