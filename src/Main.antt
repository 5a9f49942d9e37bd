-- ===== src/Main.antt =====
-- src/main.rs: the clusters that no file's data may lie in, and how the allocator learns of them.
use ofs_convert_rs.Common.{
  ℕ, ◌≤◌, ◌<◌, ◌≡◌, refl, sym, subst, ap, ◌∙◌, true, ◌&&◌, ◌||◌, List, [], ◌∷◌, ltb, leb, lt→ltb,
  arith, Outcome, ok, ◌>>=◌, ◌>>◌, assert, ◌-◌, >>=-eq-ok, ok_injective, u32_size,
}
use ofs_convert_rs.Ranges.{Range, Ranges, from, insert}
use ofs_convert_rs.Ranges.Cover.{covers, IsNormal, Above-IsNormal}
use ofs_convert_rs.Ranges.Insert.{from-covers, insert-Adds}
use ofs_convert_rs.Allocator.{Allocator, forbid}
use ofs_convert_rs.Allocator.Valid.{IsValid, forbid-IsValid}
use ofs_convert_rs.Ext4.SuperBlock.{
  SuperBlock, block_group_overhead_ranges, block_count_with_padding,
}

-- The closure of `into_cluster_idx_ranges`, at each range.
unfoldable pub to_cluster_idxs : List Range → Outcome (List Range)
to_cluster_idxs [] = ok []
to_cluster_idxs (r ∷ rs) =
    assert (ltb r.start u32_size)
    >> (assert (ltb r.end u32_size) >> (to_cluster_idxs rs >>= λ more. ok (r ∷ more)))

unfoldable pub into_cluster_idx_ranges : Ranges → Outcome Ranges
unfolding to_cluster_idxs
into_cluster_idx_ranges rs = to_cluster_idxs rs >>= from

unfoldable pub forbidden_ranges : SuperBlock → ℕ → Outcome Ranges
unfolding into_cluster_idx_ranges
forbidden_ranges superblock cluster_count =
    block_group_overhead_ranges superblock >>= into_cluster_idx_ranges >>= λ ranges.
    let last_ext_cluster_idx = block_count_with_padding superblock in
    assert (ltb last_ext_cluster_idx u32_size)
    >> insert ranges (record { start = last_ext_cluster_idx; end = cluster_count })

-- The `for` loop of `ofs_convert`.
unfoldable pub forbid_all : List Range → Allocator → Outcome Allocator
forbid_all [] a = ok a
forbid_all (r ∷ rs) a = forbid a r >>= forbid_all rs

abbrev pub AreSmall : List Range → Type 0
AreSmall [] = Unit {0}
AreSmall (r ∷ rs) = (r.start < u32_size) × (r.end < u32_size) × AreSmall rs

to_cluster_idxs-lem : (rs : List Range) → AreSmall rs → to_cluster_idxs rs ≡ ok rs
unfolding to_cluster_idxs
to_cluster_idxs-lem [] h = refl
to_cluster_idxs-lem (r ∷ rs) (h, k, more) =
    rw (lt→ltb r.start u32_size h, lt→ltb r.end u32_size k, to_cluster_idxs-lem rs more) refl

forbidden_ranges-eq :
    (sb : SuperBlock) (cluster_count : ℕ) (overhead rs fs : Ranges)
    → block_group_overhead_ranges sb ≡ ok overhead
    → into_cluster_idx_ranges overhead ≡ ok rs
    → block_count_with_padding sb < u32_size
    → insert rs (record { start = block_count_with_padding sb; end = cluster_count }) ≡ ok fs
    → forbidden_ranges sb cluster_count ≡ ok fs
unfolding forbidden_ranges
forbidden_ranges-eq sb cluster_count overhead rs fs e f h g = rw (e, f, lt→ltb _ _ h, g) refl

into_cluster_idx_ranges-lem :
    (overhead : Ranges)
    → AreSmall overhead
    → (rs : Ranges) × (into_cluster_idx_ranges overhead ≡ ok rs)
      × IsNormal rs
      × ((x : ℕ) → covers rs x ≡ covers overhead x)
unfolding into_cluster_idx_ranges
into_cluster_idx_ranges-lem overhead small =
    let (rs, e, n, c) = from-covers overhead in
    (rs, ap (λ m. m >>= from) (to_cluster_idxs-lem overhead small) ∙ e, n, c)

-- Where the block groups' metadata and the block count have cluster indices, `forbidden_ranges` returns a
-- normal list that covers exactly the metadata and the clusters from the end of the ext4 file system to
-- that of the FAT file system.
pub forbidden_ranges-covers :
    (sb : SuperBlock) (cluster_count : ℕ) (overhead : Ranges)
    → block_group_overhead_ranges sb ≡ ok overhead
    → AreSmall overhead
    → block_count_with_padding sb < u32_size
    → (fs : Ranges) × (forbidden_ranges sb cluster_count ≡ ok fs)
      × IsNormal fs
      × ((x : ℕ)
          → covers fs x
            ≡ (covers overhead x || (leb (block_count_with_padding sb) x && ltb x cluster_count)))
forbidden_ranges-covers sb cluster_count overhead e small h =
    let n : ℕ = block_count_with_padding sb in
    let (rs, f, normal, c) = into_cluster_idx_ranges-lem overhead small in
    let (fs, g, (normal', c')) =
      insert-Adds rs (record { start = n; end = cluster_count }) normal in
    (
      fs,
      forbidden_ranges-eq sb cluster_count overhead rs fs e f h g,
      normal',
      λ x. ground (arith, c x, c' x),
    )

forbid-kept :
    (a a' : Allocator) (r : Range)
    → forbid a r ≡ ok a'
    → (a'.valid_cluster_indices ≡ a.valid_cluster_indices)
      × (a'.cluster_size ≡ a.cluster_size)
      × (a'.cursor ≡ a.cursor)
unfolding forbid
forbid-kept a a' r e =
    let (used, _, f) = >>=-eq-ok (insert a.used_ranges r) _ e in
    let same : record a { used_ranges = used } ≡ a' = ok_injective f in
    (
      ap (λ (x : Allocator). x.valid_cluster_indices) (sym same),
      ap (λ (x : Allocator). x.cluster_size) (sym same),
      ap (λ (x : Allocator). x.cursor) (sym same),
    )

first-below :
    (r : Range) (rs : List Range) (end : ℕ)
    → r.start < r.end
    → ((x : ℕ) → covers (r ∷ rs) x ≡ true → x < end)
    → r.end ≤ end
first-below r rs end h k =
    let last : r.end - 1 < end = k (r.end - 1) (ground arith) in omega (arith, last)

-- The ranges of a normal list below the end are all used from then on, beside those that were, and the
-- allocator stays valid and hands out clusters of the same size from the same place on.
pub forbid_all-IsValid :
    (rs : List Range) (a : Allocator)
    → IsNormal rs
    → IsValid a
    → ((x : ℕ) → covers rs x ≡ true → x < a.valid_cluster_indices.end)
    → (a' : Allocator) × (forbid_all rs a ≡ ok a')
      × IsValid a'
      × (a'.valid_cluster_indices ≡ a.valid_cluster_indices)
      × (a'.cluster_size ≡ a.cluster_size)
      × (a'.cursor ≡ a.cursor)
      × ((x : ℕ) → covers a'.used_ranges x ≡ (covers rs x || covers a.used_ranges x))
unfolding forbid_all
forbid_all-IsValid [] a n v h = (a, refl, v, refl, refl, refl, λ x. refl)
forbid_all-IsValid (r ∷ rs) a (some_in, n) v h =
    let (a₁, e₁, v₁, c₁) =
      forbid-IsValid a r v (first-below r rs a.valid_cluster_indices.end some_in h) in
    let (b₁, s₁, k₁) = forbid-kept a a₁ r e₁ in
    let below : (x : ℕ) → covers rs x ≡ true → x < a₁.valid_cluster_indices.end =
      λ x c. subst (λ (i : Range). x < i.end) (sym b₁) (h x (ground (arith, c))) in
    let (a₂, e₂, v₂, b₂, s₂, k₂, c₂) =
      forbid_all-IsValid rs a₁ (Above-IsNormal r.end rs n) v₁ below in
    (a₂, rw (e₁, e₂) refl, v₂, b₂ ∙ b₁, s₂ ∙ s₁, k₂ ∙ k₁, λ x. ground (arith, c₁ x, c₂ x))
