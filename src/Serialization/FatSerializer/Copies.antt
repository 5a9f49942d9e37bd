-- ===== src/Serialization/FatSerializer/Copies.antt =====
-- Copying data to new clusters moves it.
use mathlib.Core.List.{append-nil}
use ofs_convert_rs.Common.{
  ℕ, zero, suc, ◌+◌, ◌-◌, ◌≤◌, ◌<◌, ◌≡◌, ◌≢◌, refl, sym, ap, ◌∙◌, subst, Bool, true, false, ◌||◌,
  List, [], ◌∷◌, map, ltb, arith, count_up, Outcome, ok, err, ◌>>=◌, lt→ltb, ◌⊎◌, inl, inr,
  no_free_clusters, u32_size, ◌*◌, some, ◌==◌,
}
use ofs_convert_rs.Ranges.{Range, Ranges, len}
use ofs_convert_rs.Ranges.Cover.{covers, contains}
use ofs_convert_rs.Allocator.{Allocator, allocate, cluster_start_byte}
use ofs_convert_rs.Allocator.Split.{split_into_reader-parts}
use ofs_convert_rs.Allocator.Valid.{IsValid}
use ofs_convert_rs.Allocator.Allocate.{Allocates, allocate-cases}
use ofs_convert_rs.Fat.BootSector.{first_cluster, first_data_cluster-lem, cluster_size}
use ofs_convert_rs.Fat.Table.{FatFs, IsReadable, data_cluster-lem, cluster_from_data_cluster}
use ofs_convert_rs.Memory.{Memory, update, update_self, update_ne, map-count_up}
use ofs_convert_rs.Serialization.FatSerializer.{Copying, zip_copy, copy_loop, push_front}
use ofs_convert_rs.Serialization.FatSerializer.Moves.{
  Serves, Serves-moved, Moves, Moves-trans, Moves-nil, Moves-cast,
}

abbrev run : ℕ → ℕ → Range
run s n = record { start = s; end = s + n }

record Copied (m m' : Memory) (new src n : ℕ) : Type 0 where
  copied : map m' (count_up new n) ≡ map m (count_up src n)
  kept : (x : ℕ) → contains (run new n) x ≡ false → m' x ≡ m x

-- One cluster more, before the others.
Copied-cons :
    (m m₁ m' : Memory) (new src src' n : ℕ)
    → src' ≡ suc src
    → m₁ ≡ update m new (m src)
    → ((x : ℕ) → src ≤ x → x < src + suc n → contains (run new (suc n)) x ≡ false)
    → Copied m₁ m' (suc new) src' n
    → Copied m m' new src (suc n)
Copied-cons m m₁ m' new src src' n e f apart k =
    let other : (x : ℕ) → new ≢ x → m₁ x ≡ m x =
      λ x h. ap (λ (g : Memory). g x) f ∙ update_ne m new x (m src) h in
    let here : m' new ≡ m src =
      k.kept new (ground arith) ∙ ap (λ (g : Memory). g new) f ∙ update_self m new (m src) in
    let rest : map m₁ (count_up (suc src) n) ≡ map m (count_up (suc src) n) =
      map-count_up m₁ m (suc src) n (λ x p q. other x (λ h. ground (arith, apart x))) in
    let moved : map m' (count_up (suc new) n) ≡ map m₁ (count_up (suc src) n) =
      k.copied ∙ ap (λ y. map m₁ (count_up y n)) e in
    record {
      copied = rw (here, moved, rest) refl;
      kept = λ x o. k.kept x (ground arith) ∙ other x (λ h. ground arith);
    }

apart-shift :
    (c s e new n : ℕ)
    → ((i : ℕ) → s ≤ i → i < e → contains (run new (suc n)) (c + i) ≡ false)
    → (x : ℕ) → c + s ≤ x
    → x < c + e
    → contains (run new (suc n)) x ≡ false
apart-shift c s e new n h x p q =
    let back : c + (x - c) ≡ x = omega arith in
    subst (λ y. contains (run new (suc n)) y ≡ false) back (h (x - c) (omega arith) (omega arith))

disjoint :
    (used : Ranges) (r : Range) (x : ℕ)
    → ((y : ℕ) → r.start ≤ y → y < r.end → covers used y ≡ false)
    → covers used x ≡ true
    → contains r x ≡ false
disjoint used r x free h = ground (arith, free x)

outside :
    (used : Ranges) (r : Range) (cursor x : ℕ)
    → cursor ≤ r.start
    → (covers used x ≡ true → contains r x ≡ false)
    → (covers used x || ltb x cursor) ≡ true
    → contains r x ≡ false
outside used r cursor x h k e = ground (arith, k)

not_forbidden : (f u : Bool) → (f ≡ true → u ≡ true) → u ≡ false → f ≡ false
not_forbidden true u h k = cc (h refl)
not_forbidden false u h k = refl

-- An allocation that took a copy is a move.
Allocates-Moves :
    (forbidden : Ranges) (s : Copying) (r : Range) (a : Allocator) (m' : Memory) (src n : ℕ)
    → ((x : ℕ) → covers forbidden x ≡ true → covers s.allocator.used_ranges x ≡ true)
    → Allocates s.allocator n r a
    → ((x : ℕ) → covers s.allocator.used_ranges x ≡ true → contains (run r.start (len r)) x ≡ false)
    → Copied s.memory m' r.start src (len r)
    → Moves forbidden s (record { allocator = a; memory = m' }) src (len r) (r ∷ [])
Allocates-Moves forbidden s r a m' src n inside g apart k =
    let cursor : a.cursor ≡ r.end = ap (λ (x : Allocator). x.cursor) g.moved in
    let ends : r.start + len r ≡ r.end = omega (arith, g.nonempty) in
    record {
      valid = g.valid;
      moved = g.moved ∙ ap (λ x. record s.allocator { cursor = x }) (sym cursor);
      same_used = ap (λ (x : Allocator). x.used_ranges) g.moved;
      risen = omega (arith, g.behind, g.nonempty);
      frame = λ x h. k.kept x (
          outside s.allocator.used_ranges (run r.start (len r)) s.allocator.cursor x g.behind
            (apart x) h);
      contents = simp append-nil k.copied;
      settled = λ x c. ground (arith, cursor);
      allowed = λ x c.
          not_forbidden (covers forbidden x) (covers s.allocator.used_ranges x) (inside x)
            (g.unused x (ground (arith, c)) (ground (arith, c)));
      origin = λ x c. ground (arith, g.behind);
    }

pub used_shift :
    (used : Ranges) (c start end n : ℕ)
    → ((i : ℕ) → start ≤ i → i < end → covers used (c + i) ≡ true)
    → (x : ℕ) → c + start ≤ x
    → x < c + start + n
    → start + n ≤ end
    → covers used x ≡ true
used_shift used c start end n h x a l e =
    subst (λ y. covers used y ≡ true) (omega arith) (h (x - c) (omega arith) (omega arith))

Moves-cons :
    (forbidden : Ranges) (s s₁ s' : Copying) (c start end k n : ℕ) (r : Range) (rs : List Range)
    → k ≤ n
    → start + n ≤ end
    → ((i : ℕ) → start ≤ i → i < end → covers s.allocator.used_ranges (c + i) ≡ true)
    → Moves forbidden s s₁ (c + start) k (r ∷ [])
    → Moves forbidden s₁ s' (c + (start + k)) (n - k) rs
    → Moves forbidden s s' (c + start) n (r ∷ rs)
Moves-cons forbidden s s₁ s' c start end k n r rs h l used p q =
    Moves-cast forbidden s s' (c + start) (c + start) (k + (n - k)) n (r ∷ rs) refl (omega arith) (
      Moves-trans forbidden s s₁ s' (c + start) k (n - k) (r ∷ []) rs
        (λ x a b. used_shift s.allocator.used_ranges c start end n used x a (omega arith) l) p
        (Moves-cast forbidden s₁ s' (c + (start + k)) (c + start + k) (n - k) (n - k) rs
          (omega arith) refl q))

module _ (fs : FatFs) where
  -- The cluster of a data cluster that has a number.
  pub cluster-lem :
      (i : ℕ)
      → 0 < fs.boot_sector.sectors_per_cluster
      → first_cluster fs.boot_sector + i < u32_size
      → cluster_from_data_cluster fs.boot_sector i ≡ ok (first_cluster fs.boot_sector + i)
  unfolding cluster_from_data_cluster
  cluster-lem i z h = rw (first_data_cluster-lem fs.boot_sector z) (ap ok (omega arith))

  -- What a round of the `for` loop needs to write the clusters `new` and the `n - 1` after it.
  record IsTarget (a : Allocator) (new n : ℕ) : Type 0 where
    valid : IsValid a
    serves : Serves fs a
    started : a.valid_cluster_indices.start ≤ new
    below : new + n ≤ a.valid_cluster_indices.end

  IsTarget-next : (a : Allocator) (new n : ℕ) → IsTarget a new (suc n) → IsTarget a (suc new) n
  IsTarget-next a new n t = record {
    valid = t.valid;
    serves = t.serves;
    started = omega (arith, t.started);
    below = omega (arith, t.below);
  }

  zip_copy-cons :
      (a : Allocator) (n new : ℕ) (d : Range) (m m' : Memory)
      → IsTarget a new (suc n)
      → IsReadable fs d.start
      → d.start < d.end
      → zip_copy fs a n
          (suc new)
          (record d { start = suc d.start })
          (update m new (m (first_cluster fs.boot_sector + d.start)))
        ≡ ok (record d { start = suc d.start + n }, m')
      → zip_copy fs a (suc n) new d m ≡ ok (record d { start = d.start + suc n }, m')
  unfolding zip_copy
  zip_copy-cons a n new d m m' t r h e =
      let same : (a.cluster_size == cluster_size fs.boot_sector) ≡ true =
        ground (arith, t.serves.same_size) in
      let here : cluster_start_byte a new ≡ some (a.cluster_size * new) =
        (split_into_reader-parts a new t.valid t.started (omega (arith, t.below))
          t.serves.addressed).0 in
      rw (lt→ltb d.start d.end h, data_cluster-lem fs d.start r, here, same)
        (e ∙ ap (λ x. ok (record d { start = x }, m')) (omega arith))

  zip_copy-Copied :
      (a : Allocator) (n new : ℕ) (d : Range) (m : Memory)
      → IsTarget a new n
      → ((i : ℕ) → d.start ≤ i → i < d.end → IsReadable fs i)
      → d.start + n ≤ d.end
      → ((i : ℕ)
          → d.start ≤ i
          → i < d.end
          → contains (run new n) (first_cluster fs.boot_sector + i) ≡ false)
      → (m' : Memory) × (zip_copy fs a n new d m ≡ ok (record d { start = d.start + n }, m'))
        × Copied m m' new (first_cluster fs.boot_sector + d.start) n
  unfolding zip_copy
  zip_copy-Copied a zero new d m t readable h apart = (
    m,
    ap (λ x. ok (record d { start = x }, m)) (omega arith),
    record { copied = refl; kept = λ x e. refl },
  )
  zip_copy-Copied a (suc n) new d m t readable h apart =
      let c : ℕ = first_cluster fs.boot_sector in
      let m₁ : Memory = update m new (m (c + d.start)) in
      let (m', e, k) =
        zip_copy-Copied a n (suc new) (record d { start = suc d.start }) m₁
          (IsTarget-next a new n t) (λ i p q. readable i (omega arith) q) (omega arith)
          (λ i p q. ground (arith, apart i)) in
      (
        m',
        zip_copy-cons a n new d m m' t (readable d.start (omega arith) (omega arith)) (omega arith)
            e,
        Copied-cons m m₁ m' new (c + d.start) (c + suc d.start) n (omega arith) refl
            (λ i p q. apart-shift c d.start d.end new n apart i p (omega arith)) k,
      )

  IsTarget-of :
      (a a' : Allocator) (r : Range) (n : ℕ)
      → IsValid a
      → Serves fs a
      → Allocates a n r a'
      → IsTarget a' r.start (len r)
  IsTarget-of a a' r n v serves g =
      let valid_indices : a'.valid_cluster_indices ≡ a.valid_cluster_indices =
        ap (λ (x : Allocator). x.valid_cluster_indices) g.moved in
      record {
        valid = g.valid;
        serves = Serves-moved fs a a' g.moved serves;
        started = rw valid_indices (omega (arith, v.started, g.behind));
        below = rw valid_indices (omega (arith, g.below, g.nonempty));
      }

  -- One round of the loop.
  round-Moves :
      (forbidden : Ranges) (d : Range) (n : ℕ) (s : Copying) (r : Range) (a : Allocator)
      → IsValid s.allocator
      → Serves fs s.allocator
      → ((i : ℕ) → d.start ≤ i → i < d.end → IsReadable fs i)
      → d.start + n ≤ d.end
      → ((i : ℕ)
          → d.start ≤ i
          → i < d.end
          → covers s.allocator.used_ranges (first_cluster fs.boot_sector + i) ≡ true)
      → ((x : ℕ) → covers forbidden x ≡ true → covers s.allocator.used_ranges x ≡ true)
      → Allocates s.allocator n r a
      → (m' : Memory) × (zip_copy fs a (len r) r.start d s.memory
          ≡ ok (record d { start = d.start + len r }, m'))
        × Moves forbidden s
            (record { allocator = a; memory = m' })
            (first_cluster fs.boot_sector + d.start)
            (len r)
            (r ∷ [])
  round-Moves forbidden d n s r a v serves readable h used inside g =
      let short : len r ≤ n = g.short in
      let ends : r.start + len r ≡ r.end = omega (arith, g.nonempty) in
      let apart : (x : ℕ)
          → covers s.allocator.used_ranges x ≡ true
          → contains (run r.start (len r)) x ≡ false =
        λ x c.
          disjoint s.allocator.used_ranges (run r.start (len r)) x
            (λ y p q. g.unused y p (omega arith)) c in
      let (m', e, k) =
        zip_copy-Copied a (len r) r.start d s.memory (IsTarget-of s.allocator a r n v serves g)
          readable (omega arith) (λ i p q. apart (first_cluster fs.boot_sector + i) (used i p q)) in
      (
        m',
        e,
        Allocates-Moves forbidden s r a m' (first_cluster fs.boot_sector + d.start) n inside g apart
            k,
      )

  copy_loop-cons :
      (fuel : ℕ) (d : Range) (n : ℕ) (s : Copying) (r : Range) (a : Allocator) (m' : Memory)
      {rest : Outcome (List Range × Range × Copying)}
      → allocate s.allocator (suc n) ≡ ok (r, a)
      → zip_copy fs a (len r) r.start d s.memory ≡ ok (record d { start = d.start + len r }, m')
      → copy_loop fs fuel
          (record d { start = d.start + len r })
          (suc n - len r)
          (record { allocator = a; memory = m' })
        ≡ rest
      → copy_loop fs (suc fuel) d (suc n) s ≡ (rest >>= push_front r)
  unfolding copy_loop
  copy_loop-cons fuel d n s r a m' e z f = rw (e, z, f) refl

  -- The loop moves the next `n` clusters of the iterator, unless the allocator runs out of clusters.
  pub copy_loop-Moves :
      (fuel : ℕ) (forbidden : Ranges) (d : Range) (n : ℕ) (s : Copying)
      → n ≤ fuel
      → IsValid s.allocator
      → Serves fs s.allocator
      → ((i : ℕ) → d.start ≤ i → i < d.end → IsReadable fs i)
      → d.start + n ≤ d.end
      → ((i : ℕ)
          → d.start ≤ i
          → i < d.end
          → covers s.allocator.used_ranges (first_cluster fs.boot_sector + i) ≡ true)
      → ((x : ℕ) → covers forbidden x ≡ true → covers s.allocator.used_ranges x ≡ true)
      → ((rs : List Range) × (s' : Copying) × (copy_loop fs fuel d n s
            ≡ ok (rs, record d { start = d.start + n }, s'))
          × Moves forbidden s s' (first_cluster fs.boot_sector + d.start) n rs)
        ⊎ (copy_loop fs fuel d n s ≡ err no_free_clusters)
  unfolding copy_loop
  copy_loop-Moves fuel forbidden d zero s l v serves readable h used inside = inl (
    [],
    s,
    ap (λ x. ok ([], record d { start = x }, s)) (omega arith),
    Moves-nil forbidden s (first_cluster fs.boot_sector + d.start) v,
  )
  copy_loop-Moves zero forbidden d (suc n) s l v serves readable h used inside =
      absurd (omega arith)
  copy_loop-Moves (suc fuel) forbidden d (suc n) s l v serves readable h used inside =
      elim (allocate-cases s.allocator (suc n) v (omega arith)) [
        | inr (e, _) ↦ inr (rw e refl)
        | inl (r, a, e, g) ↦
            let (m', z, p) =
              round-Moves forbidden d (suc n) s r a v serves readable h used inside g in
            let s₁ : Copying = record { allocator = a; memory = m' } in
            let short : len r ≤ suc n = g.short in
            let some_moved : 1 ≤ len r = omega (arith, g.nonempty) in
            elim (copy_loop-Moves fuel forbidden (record d { start = d.start + len r })
              (suc n - len r) s₁ (omega arith) p.valid
              (Serves-moved fs s.allocator a g.moved serves) (λ i x y. readable i (omega arith) y)
              (omega arith) (λ i x y. rw p.same_used (used i (omega arith) y))
              (λ x c. rw p.same_used (inside x c))) [
                | inr f ↦ inr (copy_loop-cons fuel d n s r a m' e z f)
                | inl (rs, s', f, q) ↦ inl (
                  r ∷ rs,
                  s',
                  copy_loop-cons fuel d n s r a m' e z f
                      ∙ ap (λ x. ok (r ∷ rs, record d { start = x }, s')) (omega arith),
                  Moves-cons forbidden s s₁ s' (first_cluster fs.boot_sector) d.start d.end (len r)
                      (suc n) r rs short h used p q,
                )
              ]
      ]
