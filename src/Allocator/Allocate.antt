-- ===== src/Allocator/Allocate.antt =====
-- `allocate` and `allocate_one` hand out free clusters only, each once, as many as are counted free.
use ofs_convert_rs.Common.{
  ℕ, zero, suc, ◌+◌, ◌-◌, ◌≤◌, ◌<◌, min, true, false, ◌≡◌, refl, ap, subst, ◌∙◌, ok, err, List, [],
  ◌∷◌, arith, Outcome, ◌>>=◌, no_free_clusters, Bool-cases, inl, inr, leb→le, leb→lt, ◌⊎◌,
}
use ofs_convert_rs.Ranges.{Range, Ranges, NotCoveredRange, bounded, unbounded, len, is_empty}
use ofs_convert_rs.Ranges.Cover.{covers}
use ofs_convert_rs.Ranges.Gap.{IsFirstGap, next_not_covered-IsFirstGap}
use ofs_convert_rs.Ranges.Count.{gap-count, gap-count-add}
use ofs_convert_rs.Allocator.{
  Allocator, end_at, fs_end_cluster_idx, find_next_free_range, take_from, saturating_add, allocate,
  allocate_one,
}
use ofs_convert_rs.Allocator.Valid.{IsValid, free}

-- A free range behind the cursor, with nothing free between the two.
abbrev IsNextFree : Allocator → Range → Type 0
IsNextFree a r =
    (a.cursor ≤ r.start)
    × (r.start < r.end)
    × (r.end ≤ a.valid_cluster_indices.end)
    × ((y : ℕ) → a.cursor ≤ y → y < r.start → covers a.used_ranges y ≡ true)
    × ((y : ℕ) → r.start ≤ y → y < r.end → covers a.used_ranges y ≡ false)

find_found :
    (a : Allocator) (g : NotCoveredRange)
    → IsValid a
    → IsFirstGap a.used_ranges a.cursor g
    → (end_at a.valid_cluster_indices.end g).start < (end_at a.valid_cluster_indices.end g).end
    → IsNextFree a (end_at a.valid_cluster_indices.end g)
find_found a (bounded g) v p h = (p.0, h, omega (arith, v.inside g.end p.4), p.2, p.3)
find_found a (unbounded s) v p h = (p.0, h, omega arith, p.1, λ y k l. p.2 y k)

find_none :
    (a : Allocator) (g : NotCoveredRange)
    → IsValid a
    → IsFirstGap a.used_ranges a.cursor g
    → (end_at a.valid_cluster_indices.end g).end ≤ (end_at a.valid_cluster_indices.end g).start
    → free a ≡ 0
find_none a (bounded g) v p h = absurd (omega arith)
find_none a (unbounded s) v p h =
    gap-count a.used_ranges a.cursor s a.valid_cluster_indices.end p.0 v.not_past p.1
      (λ y k l. p.2 y k)
    ∙ omega arith

-- `find_next_free_range` either finds the next free range or fails since none is left.
find-cases :
    (a : Allocator)
    → IsValid a
    → ((r : Range) × (find_next_free_range a a.cursor ≡ ok r) × IsNextFree a r)
      ⊎ ((find_next_free_range a a.cursor ≡ err no_free_clusters) × (free a ≡ 0))
unfolding find_next_free_range fs_end_cluster_idx
find-cases a v =
    let (g, e, p) = next_not_covered-IsFirstGap a.used_ranges a.cursor v.normal in
    elim (Bool-cases (is_empty (end_at a.valid_cluster_indices.end g))) [
      | inl t ↦ inr (rw (e, t), find_none a g v p (leb→le _ _ t))
      | inr f ↦
          inl (end_at a.valid_cluster_indices.end g, rw (e, f), find_found a g v p (leb→lt _ _ f))
    ]

-- What a successful allocation promises: a non-empty range of at most `max_length` clusters, behind
-- the cursor and below the end, none of them used; the cursor moves to its end, nothing else changes,
-- and there are as many free clusters fewer.
pub record Allocates (a : Allocator) (max_length : ℕ) (r : Range) (a' : Allocator) : Type 0 where
  pub behind : a.cursor ≤ r.start
  pub nonempty : r.start < r.end
  pub short : len r ≤ max_length
  pub below : r.end ≤ a.valid_cluster_indices.end
  pub unused : (y : ℕ) → r.start ≤ y → y < r.end → covers a.used_ranges y ≡ false
  pub moved : a' ≡ record a { cursor = r.end }
  pub counted : free a ≡ len r + free a'
  pub valid : IsValid a'

take_from-Allocates :
    (a : Allocator) (max_length : ℕ) (f : Range)
    → IsValid a
    → 0 < max_length
    → IsNextFree a f
    → Allocates a max_length (take_from a max_length f).0 (take_from a max_length f).1
unfolding take_from
take_from-Allocates a m f v h p =
    let stop : ℕ = min f.end (saturating_add f.start m) in
    let inside : (f.start < stop) × (stop ≤ f.end) × (stop - f.start ≤ m) = omega arith in
    record {
      behind = p.0;
      nonempty = inside.0;
      short = inside.2;
      below = omega arith;
      unused = λ y k l. p.4 y k (omega arith);
      moved = refl;
      counted =
          gap-count-add a.used_ranges a.cursor f.start stop a.valid_cluster_indices.end p.0
            (omega arith) (omega arith) p.3 (λ y k l. p.4 y k (omega arith));
      valid = record {
        normal = v.normal;
        inside = v.inside;
        started = omega (arith, v.started, p.0, inside.0);
        not_past = omega arith;
        fits = v.fits;
      };
    }

-- On a valid allocator `allocate` ends if it is asked for at least one cluster. It fails exactly when no
-- cluster is free; else it hands out a range as `Allocates` says.
pub allocate-cases :
    (a : Allocator) (max_length : ℕ)
    → IsValid a
    → 0 < max_length
    → ((r : Range) × (a' : Allocator) × (allocate a max_length ≡ ok (r, a'))
        × Allocates a max_length r a')
      ⊎ ((allocate a max_length ≡ err no_free_clusters) × (free a ≡ 0))
unfolding allocate
allocate-cases a m v h = elim (find-cases a v) [
  | inl (f, e, p) ↦
      inl ((take_from a m f).0, (take_from a m f).1, rw e, take_from-Allocates a m f v h p)
  | inr (e, z) ↦ inr (rw e, z)
]

end-lem : (r : Range) → r.start < r.end → len r ≤ 1 → r.end ≡ r.start + 1
end-lem r h k = omega arith

-- `allocate_one` on a valid allocator: it fails exactly when no cluster is free; else it hands out one
-- unused cluster, and there is one free cluster fewer.
pub allocate_one-cases :
    (a : Allocator)
    → IsValid a
    → ((i : ℕ) × (a' : Allocator) × (allocate_one a ≡ ok (i, a'))
        × Allocates a 1 (record { start = i; end = i + 1 }) a')
      ⊎ ((allocate_one a ≡ err no_free_clusters) × (free a ≡ 0))
unfolding allocate_one
allocate_one-cases a v = elim (allocate-cases a 1 v (omega arith)) [
  | inl (r, a', e, p) ↦
      let one : r ≡ record { start = r.start; end = r.start + 1 } =
        λ i. record { start = r.start; end = end-lem r p.nonempty p.short i } in
      inl (r.start, a', rw e, subst (λ (q : Range). Allocates a 1 q a') one p)
  | inr (e, z) ↦ inr (rw e, z)
]

-- `allocate_one`, as often as asked, with the clusters in the order in which they are handed out.
pub allocate_many : ℕ → Allocator → Outcome (List ℕ × Allocator)
allocate_many zero a = ok ([], a)
allocate_many (suc n) a =
    allocate_one a >>= λ first. allocate_many n first.1 >>= λ rest. ok (first.0 ∷ rest.0, rest.1)

-- Rising, and all at or behind `lo`.
abbrev pub RisesFrom : ℕ → List ℕ → Type 0
RisesFrom lo [] = Unit {0}
RisesFrom lo (i ∷ is) = (lo ≤ i) × RisesFrom (i + 1) is

abbrev pub AllFree : Ranges → List ℕ → Type 0
AllFree used [] = Unit {0}
AllFree used (i ∷ is) = (covers used i ≡ false) × AllFree used is

-- As many calls of `allocate_one` as `free_block_count` says all succeed; the clusters that they hand
-- out rise, so that none is handed out twice, and none of them is used; the count has then gone down
-- by their number.
pub allocate_many-lem :
    (n : ℕ) (a : Allocator)
    → IsValid a
    → n ≤ free a
    → (is : List ℕ) × (a' : Allocator) × (allocate_many n a ≡ ok (is, a'))
      × RisesFrom a.cursor is
      × AllFree a.used_ranges is
      × IsValid a'
      × (a'.used_ranges ≡ a.used_ranges)
      × (free a ≡ n + free a')
unfolding allocate_many
allocate_many-lem zero a v h = ([], a, refl, tt, tt, v, refl, omega arith)
allocate_many-lem (suc n) a v h = elim (allocate_one-cases a v) [
  | inr (e, z) ↦ absurd (omega arith)
  | inl (i, a', e, p) ↦
      let (is, b, q, r, u, w, same, c) =
        allocate_many-lem n a' p.valid (omega (arith, p.counted)) in
      let cur : a'.cursor ≡ i + 1 = ap (λ (x : Allocator). x.cursor) p.moved in
      let keep : a'.used_ranges ≡ a.used_ranges = ap (λ (x : Allocator). x.used_ranges) p.moved in
      (
        i ∷ is,
        b,
        rw (e, ◌>>=◌, q),
        (p.behind, subst (λ k. RisesFrom k is) cur r),
        (p.unused i (omega arith) (omega arith), subst (λ k. AllFree k is) keep u),
        w,
        same ∙ keep,
        omega (arith, p.counted),
      )
]
