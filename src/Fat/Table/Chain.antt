-- ===== src/Fat/Table/Chain.antt =====
-- `data_ranges` follows the FAT chain of a file.
use ofs_convert_rs.Common.{
  ℕ, zero, suc, ◌+◌, ◌-◌, ◌≤◌, ◌<◌, true, false, List, [], ◌∷◌, ◌++◌, map, none, some, ◌≡◌, ◌≢◌,
  refl, ◌∙◌, ap, length, get_elem?, ok, ◌>>=◌, arith, count_up, count_up-append, Bool-cases, inl,
  inr,
}
use mathlib.Core.List.{append_assoc}
use native.Mathlib.Nat.{le_refl}
use ofs_convert_rs.Fat.Table.{
  is_zero_length_file, to_data_cluster_idx, next_fat_idx, is_next, RangeInclusive, data_ranges_loop,
  data_ranges,
}

-- The indices that stand for a cluster of the data section.
abbrev pub IsCluster : ℕ → Type 0
IsCluster i = (2 ≤ i) × (i < 0x0FFFFFF8)

-- The chain that begins at an index, as the list of its indices.
pub data Chain (table : List ℕ) : ℕ → List ℕ → Type 0 where
  stop : {i : ℕ} → 0x0FFFFFF8 ≤ i → Chain table i []
  link :
      {i j : ℕ} {is : List ℕ}
      → IsCluster i
      → get_elem? table i ≡ some j
      → Chain table j is
      → Chain table i (i ∷ is)

pub to_data-lem : (i : ℕ) → IsCluster i → to_data_cluster_idx i ≡ ok (i - 2)
unfolding to_data_cluster_idx
to_data-lem i c = ground arith

pub next-stop : (table : List ℕ) (i : ℕ) → 0x0FFFFFF8 ≤ i → next_fat_idx table i ≡ ok none
unfolding next_fat_idx
next-stop table i h = ground arith

pub next-link :
    (table : List ℕ) (i j : ℕ)
    → IsCluster i
    → get_elem? table i ≡ some j
    → next_fat_idx table i ≡ ok (some (i, j))
unfolding next_fat_idx
next-link table i j c e = ground arith

-- The clusters of a list of ranges, in order.
abbrev pub clusters : List RangeInclusive → List ℕ
clusters [] = []
clusters (r ∷ rs) = count_up r.first (suc r.last - r.first) ++ clusters rs

-- No range can be joined to the next.
abbrev pub Separate : List RangeInclusive → Type 0
Separate [] = Unit {0}
Separate (r ∷ []) = r.first ≤ r.last
Separate (r ∷ s ∷ rs) = (r.first ≤ r.last) × (s.first ≢ suc r.last) × Separate (s ∷ rs)

abbrev pub to_data : List ℕ → List ℕ
to_data is = map (λ i. i - 2) is

-- What the loop returns from the current range `first..=last`.
abbrev Continues : ℕ → List RangeInclusive → Type 0
Continues first [] = ⊥
Continues first (r ∷ rs) = r.first ≡ first

record Runs (first last : ℕ) (is : List ℕ) (rs : List RangeInclusive) : Type 0 where
  all : clusters rs ≡ count_up first (suc last - first) ++ to_data is
  separate : Separate rs
  continues : Continues first rs

-- The rounds of the loop.
loop-stop :
    (fuel : ℕ) (table : List ℕ) (first last i : ℕ)
    → 0x0FFFFFF8 ≤ i
    → data_ranges_loop (suc fuel) table first last i
      ≡ ok (record { first = first; last = last } ∷ [])
unfolding data_ranges_loop
loop-stop fuel table first last i h = rw (next-stop table i h)

loop-extend :
    (fuel : ℕ) (table : List ℕ) (first last i j : ℕ)
    → IsCluster i
    → get_elem? table i ≡ some j
    → is_next last (i - 2) ≡ true
    → data_ranges_loop (suc fuel) table first last i ≡ data_ranges_loop fuel table first (i - 2) j
unfolding data_ranges_loop
loop-extend fuel table first last i j c e t =
    rw (next-link table i j c e) (rw (to_data-lem i c, ◌>>=◌) (rw t))

loop-push :
    (fuel : ℕ) (table : List ℕ) (first last i j : ℕ)
    → IsCluster i
    → get_elem? table i ≡ some j
    → is_next last (i - 2) ≡ false
    → data_ranges_loop (suc fuel) table first last i ≡ (
        data_ranges_loop fuel table (i - 2) (i - 2) j >>= λ rest.
        ok (record { first = first; last = last } ∷ rest))
unfolding data_ranges_loop
loop-push fuel table first last i j c e t =
    rw (next-link table i j c e) (rw (to_data-lem i c, ◌>>=◌) (rw t))

Runs-stop :
    (first last : ℕ)
    → first ≤ last
    → Runs first last [] (record { first = first; last = last } ∷ [])
Runs-stop first last h = record { all = refl; separate = h; continues = refl }

Runs-extend :
    (first last i : ℕ) (is : List ℕ) (rs : List RangeInclusive)
    → first ≤ last
    → i - 2 ≡ suc last
    → Runs first (i - 2) is rs
    → Runs first last (i ∷ is) rs
Runs-extend first last i is rs h e r = record {
  all =
      r.all
      ∙ ap (λ l. l ++ to_data is) (extend-lem first last (i - 2) h e)
      ∙ append_assoc (count_up first (suc last - first)) ((i - 2) ∷ []) (to_data is);
  separate = r.separate;
  continues = r.continues;
}
  where
    extend-lem :
        (first last n : ℕ)
        → first ≤ last
        → n ≡ suc last
        → count_up first (suc n - first) ≡ count_up first (suc last - first) ++ (n ∷ [])
    extend-lem first last n h e =
        let d : suc n - first ≡ (suc last - first) + 1 = omega arith in
        let d' : first + (suc last - first) ≡ n = omega arith in
        rw (d, count_up-append first (suc last - first) 1, d')

Runs-push :
    (first last i : ℕ) (is : List ℕ) (rs : List RangeInclusive)
    → first ≤ last
    → i - 2 ≢ suc last
    → Runs (i - 2) (i - 2) is rs
    → Runs first last (i ∷ is) (record { first = first; last = last } ∷ rs)
Runs-push first last i is [] h e r = absurd r.continues
Runs-push first last i is (s ∷ rs) h e r = record {
  all =
      let d : suc (i - 2) - (i - 2) ≡ 1 = omega arith in
      ap (λ l. count_up first (suc last - first) ++ l) (r.all ∙ rw d);
  separate = (h, omega (arith, r.continues), r.separate);
  continues = refl;
}

data_ranges_loop-Runs :
    (fuel : ℕ) (table : List ℕ) (first last : ℕ) {i : ℕ} {is : List ℕ}
    → Chain table i is
    → first ≤ last
    → length is < fuel
    → (rs : List RangeInclusive) × (data_ranges_loop fuel table first last i ≡ ok rs)
      × Runs first last is rs
data_ranges_loop-Runs zero table first last c h f = absurd (omega arith)
data_ranges_loop-Runs (suc fuel) table first last (stop {i = i} e) h f = (
  record { first = first; last = last } ∷ [],
  loop-stop fuel table first last i e,
  Runs-stop first last h,
)
data_ranges_loop-Runs (suc fuel) table first last (link {i = i} {j = j} {is = is} v e c) h f =
    elim (Bool-cases (is_next last (i - 2))) [
      | inl t ↦
          let (rs, q, r) =
            data_ranges_loop-Runs fuel table first (i - 2) c (ground arith) (omega arith) in
          (
            rs,
            loop-extend fuel table first last i j v e t ∙ q,
            Runs-extend first last i is rs h (ground arith) r,
          )
      | inr t ↦
          let (rs, q, r) =
            data_ranges_loop-Runs fuel table (i - 2) (i - 2) c (omega arith) (omega arith) in
          (
            record { first = first; last = last } ∷ rs,
            loop-push fuel table first last i j v e t ∙ rw q,
            Runs-push first last i is rs h (ground arith) r,
          )
    ]

not_zero_length : (i : ℕ) → IsCluster i → is_zero_length_file i ≡ false
unfolding is_zero_length_file
not_zero_length i c = ground arith

data_ranges-start :
    (fuel : ℕ) (table : List ℕ) (i j : ℕ)
    → IsCluster i
    → get_elem? table i ≡ some j
    → data_ranges fuel table i ≡ data_ranges_loop fuel table (i - 2) (i - 2) j
unfolding data_ranges
data_ranges-start fuel table i j c e =
    rw (not_zero_length i c) (rw (to_data-lem i c, ◌>>=◌) (rw (next-link table i j c e)))

-- For a file that begins at the cluster `i`, whose cell holds `j`, from which the chain goes on as `is`:
-- with more fuel than `is` has indices, `data_ranges` ends and returns ranges that hold exactly the
-- data clusters of `i` and `is` in this order; none of them is empty, and none can be joined to the
-- next.
pub data_ranges-clusters :
    (fuel : ℕ) (table : List ℕ) (i j : ℕ) {is : List ℕ}
    → IsCluster i
    → get_elem? table i ≡ some j
    → Chain table j is
    → length is < fuel
    → (rs : List RangeInclusive) × (data_ranges fuel table i ≡ ok rs)
      × (clusters rs ≡ to_data (i ∷ is))
      × Separate rs
data_ranges-clusters fuel table i j {is} v e c f =
    let (rs, q, r) = data_ranges_loop-Runs fuel table (i - 2) (i - 2) c (le_refl _) f in
    let d : suc (i - 2) - (i - 2) ≡ 1 = omega arith in
    (rs, data_ranges-start fuel table i j v e ∙ q, r.all ∙ rw d, r.separate)

-- A file of length zero has no ranges.
pub data_ranges_zero : (fuel : ℕ) (table : List ℕ) → data_ranges fuel table 0 ≡ ok []
unfolding data_ranges is_zero_length_file
data_ranges_zero fuel table = refl
