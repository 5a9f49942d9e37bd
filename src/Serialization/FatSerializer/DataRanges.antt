-- ===== src/Serialization/FatSerializer/DataRanges.antt =====
-- Moving all the data ranges of a file.
use mathlib.Core.List.{map-append}
use ofs_convert_rs.Common.{
  ℕ, suc, ◌+◌, ◌-◌, ◌≤◌, ◌<◌, ◌≡◌, refl, sym, subst, Bool, true, List, [], ◌∷◌, ◌++◌, map, arith,
  count_up, Outcome, ok, err, ◌>>=◌, ◌⊎◌, inl, inr, no_free_clusters, u32_size, add32,
}
use ofs_convert_rs.Ranges.{Range, Ranges, split_overlapping}
use ofs_convert_rs.Ranges.Cover.{covers, IsNormal}
use ofs_convert_rs.Ranges.Split.{split_overlapping-Tiles}
use ofs_convert_rs.Allocator.Valid.{IsValid}
use ofs_convert_rs.Fat.BootSector.{first_cluster}
use ofs_convert_rs.Fat.Table.{FatFs, IsReadable, RangeInclusive, cluster_from_data_cluster}
use ofs_convert_rs.Memory.{Memory, map-count_up}
use ofs_convert_rs.Serialization.FatSerializer.{
  Copying, place_fragments, place_range, make_file_non_overlapping,
}
use ofs_convert_rs.Serialization.FatSerializer.Moves.{
  Serves, Serves-moved, MovesAll, MovesAll-trans, Moves-nil,
}
use ofs_convert_rs.Serialization.FatSerializer.Copies.{cluster-lem, used_shift}
use ofs_convert_rs.Serialization.FatSerializer.NonOverlapping.{
  Moved, IsSource, place_fragments-Moves,
}

module _ (fs : FatFs) where
  -- The clusters of a range of data clusters, and of a file.
  unfoldable pub clusters_of : List RangeInclusive → List ℕ
  clusters_of [] = []
  clusters_of (r ∷ rs) =
      count_up (first_cluster fs.boot_sector + r.first) (suc r.last - r.first) ++ clusters_of rs

  -- Each range has a cluster, and its clusters are among the used ones and can be read.
  abbrev pub IsUsed : Ranges → List RangeInclusive → Type 0
  IsUsed used [] = Unit {0}
  IsUsed used (r ∷ rs) =
      (r.first ≤ r.last)
      × ((i : ℕ) → r.first ≤ i → i ≤ r.last → covers used (first_cluster fs.boot_sector + i) ≡ true)
      × ((i : ℕ) → r.first ≤ i → i ≤ r.last → IsReadable fs i)
      × IsUsed used rs

  pub clusters_of-kept :
      (used : Ranges) (m m' : Memory) (rs : List RangeInclusive)
      → IsUsed used rs
      → ((x : ℕ) → covers used x ≡ true → m' x ≡ m x)
      → map m' (clusters_of rs) ≡ map m (clusters_of rs)
  unfolding clusters_of
  clusters_of-kept used m m' [] u h = refl
  clusters_of-kept used m m' (r ∷ rs) (l, u, _, us) h =
      let c : ℕ = first_cluster fs.boot_sector in
      let n : ℕ = suc r.last - r.first in
      let first : map m' (count_up (c + r.first) n) ≡ map m (count_up (c + r.first) n) =
        map-count_up m' m (c + r.first) n (λ x p q. h x (
          used_shift used c r.first (suc r.last) n (λ i v w. u i v (omega arith)) x p (omega arith)
            (omega arith))) in
      rw
        (
          map-append m' (count_up (c + r.first) n) (clusters_of rs),
          map-append m (count_up (c + r.first) n) (clusters_of rs),
          first,
          clusters_of-kept used m m' rs us h,
        )
        refl

  place_range-cut :
      (forbidden : Ranges) (r : RangeInclusive) (s : Copying) (ps : List (Range × Bool))
      (start last end : ℕ)
      → cluster_from_data_cluster fs.boot_sector r.first ≡ ok start
      → cluster_from_data_cluster fs.boot_sector r.last ≡ ok last
      → add32 last 1 ≡ end
      → split_overlapping forbidden (record { start = start; end = end }) ≡ ok ps
      → place_range fs forbidden r s
        ≡ place_fragments fs (record { start = r.first; end = suc r.last }) ps s
  unfolding place_range
  place_range-cut forbidden r s ps start last end e f k g = rw (e, f, k, g) refl

  place_range-Moves :
      (forbidden : Ranges) (r : RangeInclusive) (s : Copying)
      → IsNormal forbidden
      → IsSource fs forbidden (record { start = r.first; end = suc r.last }) s
      → r.first ≤ r.last
      → first_cluster fs.boot_sector + suc r.last < u32_size
      → Moved fs forbidden s
          (first_cluster fs.boot_sector + r.first)
          (suc r.last - r.first)
          (place_range fs forbidden r s)
  place_range-Moves forbidden r s n i l fits =
      let c : ℕ = first_cluster fs.boot_sector in
      let (ps, e, t) =
        split_overlapping-Tiles forbidden (record { start = c + r.first; end = c + suc r.last })
          n in
      subst (Moved fs forbidden s (c + r.first) (suc r.last - r.first))
        (sym (
          place_range-cut forbidden r s ps (c + r.first) (c + r.last) (c + suc r.last)
            (cluster-lem fs r.first i.serves.sectors (omega arith))
            (cluster-lem fs r.last i.serves.sectors (omega arith)) (omega arith) e))
        (place_fragments-Moves fs forbidden ps (record { start = r.first; end = suc r.last }) s i
          (omega arith) t)

  IsSource-of :
      (forbidden : Ranges) (r : RangeInclusive) (s : Copying)
      → IsValid s.allocator
      → Serves fs s.allocator
      → r.first ≤ r.last
      → ((i : ℕ) → r.first ≤ i → i ≤ r.last → IsReadable fs i)
      → ((i : ℕ)
          → r.first ≤ i
          → i ≤ r.last
          → covers s.allocator.used_ranges (first_cluster fs.boot_sector + i) ≡ true)
      → ((x : ℕ) → covers forbidden x ≡ true → covers s.allocator.used_ranges x ≡ true)
      → IsSource fs forbidden (record { start = r.first; end = suc r.last }) s
        × (first_cluster fs.boot_sector + suc r.last < u32_size)
  IsSource-of forbidden r s v serves l readable u inside =
      let last : first_cluster fs.boot_sector + r.last < s.allocator.valid_cluster_indices.end =
        v.inside (first_cluster fs.boot_sector + r.last) (u r.last l (omega arith)) in
      let fits : first_cluster fs.boot_sector + suc r.last < u32_size =
        omega (arith, v.fits, last) in
      (
        record {
          valid = v;
          serves = serves;
          readable = λ i p q. readable i p (omega arith);
          used = λ i p q. u i p (omega arith);
          inside = inside;
        },
        fits,
      )

  make-cons :
      (forbidden : Ranges) (r : RangeInclusive) (rs : List RangeInclusive) (s s₁ : Copying)
      (xs : List Range) {rest : Outcome (List Range × Copying)}
      → place_range fs forbidden r s ≡ ok (xs, s₁)
      → make_file_non_overlapping fs forbidden rs s₁ ≡ rest
      → make_file_non_overlapping fs forbidden (r ∷ rs) s
        ≡ (rest >>= λ (more, s'). ok (xs ++ more, s'))
  unfolding make_file_non_overlapping
  make-cons forbidden r rs s s₁ xs e f = rw (e, f) refl

  -- The FAT file system's clusters have sectors, and the valid allocator hands out clusters of the same size,
  -- all of which are addressable. For a file whose clusters have numbers, are in use in the FAT and lie in the
  -- data section, and which the allocator knows to be used, as it does of the forbidden clusters, the call does
  -- not panic: either no cluster is free for its data, or the whole of its data is found, in its order, in the
  -- returned ranges; none of them touches a forbidden cluster, no cluster that was in use or handed out before
  -- has changed, and the allocator is valid as before.
  pub make_file_non_overlapping-MovesAll :
      (forbidden : Ranges) (rs : List RangeInclusive) (s : Copying)
      → IsNormal forbidden
      → IsValid s.allocator
      → Serves fs s.allocator
      → IsUsed s.allocator.used_ranges rs
      → ((x : ℕ) → covers forbidden x ≡ true → covers s.allocator.used_ranges x ≡ true)
      → ((xs : List Range) × (s' : Copying) × (make_file_non_overlapping fs forbidden rs s
            ≡ ok (xs, s'))
          × MovesAll forbidden s s' (clusters_of rs) xs)
        ⊎ (make_file_non_overlapping fs forbidden rs s ≡ err no_free_clusters)
  unfolding make_file_non_overlapping clusters_of
  make_file_non_overlapping-MovesAll forbidden [] s n v serves u inside =
      inl ([], s, refl, Moves-nil forbidden s 0 v)
  make_file_non_overlapping-MovesAll forbidden (r ∷ rs) s n v serves (l, u, readable, us) inside =
      let (i, fits) = IsSource-of forbidden r s v serves l readable u inside in
      elim (place_range-Moves forbidden r s n i l fits) [
        | inr e ↦ inr (rw e refl)
        | inl (xs, s₁, e, p) ↦
            elim (make_file_non_overlapping-MovesAll forbidden rs s₁ n p.valid
              (Serves-moved fs s.allocator s₁.allocator p.moved serves)
              (subst (λ x. IsUsed x rs) (sym p.same_used) us)
              (λ x c. rw p.same_used (inside x c))) [
                | inr f ↦ inr (make-cons forbidden r rs s s₁ xs e f)
                | inl (more, s', f, q) ↦ inl (
                  xs ++ more,
                  s',
                  make-cons forbidden r rs s s₁ xs e f,
                  MovesAll-trans forbidden s s₁ s'
                      (count_up (first_cluster fs.boot_sector + r.first) (suc r.last - r.first))
                      (clusters_of rs) xs more
                      (clusters_of-kept s.allocator.used_ranges s.memory s₁.memory rs us
                        (λ x c. p.frame x (ground (arith, c))))
                      p q,
                )
              ]
      ]
