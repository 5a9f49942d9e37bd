-- ===== src/Serialization/FatSerializer/NonOverlapping.antt =====
-- A file's data is moved out of the forbidden clusters and nothing of it is lost.
use mathlib.Core.List.{append-nil}
use ofs_convert_rs.Common.{
  ℕ, ◌+◌, ◌-◌, ◌≤◌, ◌<◌, ◌≡◌, refl, subst, Bool, true, false, List, [], ◌∷◌, ◌++◌, arith, Outcome,
  ok, err, ◌>>=◌, le→leb, ◌⊎◌, inl, inr, no_free_clusters,
}
use ofs_convert_rs.Ranges.{Range, Ranges, len}
use ofs_convert_rs.Ranges.Cover.{covers}
use ofs_convert_rs.Ranges.Split.{Tiles}
use ofs_convert_rs.Allocator.Valid.{IsValid}
use ofs_convert_rs.Fat.BootSector.{first_cluster}
use ofs_convert_rs.Fat.Table.{FatFs, IsReadable}
use ofs_convert_rs.Serialization.FatSerializer.{
  Copying, copy_data_to_new_clusters, place_fragment, place_fragments,
}
use ofs_convert_rs.Serialization.FatSerializer.Moves.{
  Serves, Serves-moved, Moves, Moves-trans, Moves-nil, Moves-cast,
}
use ofs_convert_rs.Serialization.FatSerializer.Copies.{copy_loop-Moves, used_shift}

-- A range that stays where it is.
Moves-keep :
    (forbidden : Ranges) (s : Copying) (r : Range)
    → IsValid s.allocator
    → ((x : ℕ) → r.start ≤ x → x < r.end → covers s.allocator.used_ranges x ≡ true)
    → ((x : ℕ) → r.start ≤ x → x < r.end → covers forbidden x ≡ false)
    → Moves forbidden s s r.start (len r) (r ∷ [])
Moves-keep forbidden s r v used free = record {
  valid = v;
  moved = refl;
  same_used = refl;
  risen = omega arith;
  frame = λ x h. refl;
  contents = simp append-nil refl;
  settled = λ x c. ground (arith, used x);
  allowed = λ x c. free x (ground (arith, c)) (ground (arith, c));
  origin = λ x c. ground (arith, used x);
}

module _ (fs : FatFs) (forbidden : Ranges) where
  -- What moving the `n` clusters from `src` on comes to.
  abbrev pub Moved : Copying → ℕ → ℕ → Outcome (List Range × Copying) → Type 0
  Moved s src n m =
      ((rs : List Range) × (s' : Copying) × (m ≡ ok (rs, s')) × Moves forbidden s s' src n rs)
      ⊎ (m ≡ err no_free_clusters)

  -- The iterator's clusters can be read and are the allocator's used ones, and so are the forbidden ones.
  pub record IsSource (d : Range) (s : Copying) : Type 0 where
    pub valid : IsValid s.allocator
    pub serves : Serves fs s.allocator
    pub readable : (i : ℕ) → d.start ≤ i → i < d.end → IsReadable fs i
    pub used :
        (i : ℕ)
        → d.start ≤ i
        → i < d.end
        → covers s.allocator.used_ranges (first_cluster fs.boot_sector + i) ≡ true
    pub inside : (x : ℕ) → covers forbidden x ≡ true → covers s.allocator.used_ranges x ≡ true

  place_fragment-Moves :
      (d p : Range) (flag : Bool) (s : Copying)
      → IsSource d s
      → p.start ≡ first_cluster fs.boot_sector + d.start
      → p.start < p.end
      → p.end ≤ first_cluster fs.boot_sector + d.end
      → ((y : ℕ) → p.start ≤ y → y < p.end → covers forbidden y ≡ flag)
      → ((rs : List Range) × (s' : Copying) × (place_fragment fs d (p, flag) s
            ≡ ok (rs, record d { start = d.start + len p }, s'))
          × Moves forbidden s s' (first_cluster fs.boot_sector + d.start) (len p) rs)
        ⊎ (place_fragment fs d (p, flag) s ≡ err no_free_clusters)
  unfolding place_fragment copy_data_to_new_clusters
  place_fragment-Moves d p true s i at some_left below flags =
      copy_loop-Moves fs (len p) forbidden d (len p) s (omega arith) i.valid i.serves i.readable
        (omega arith) i.used i.inside
  place_fragment-Moves d p false s i at some_left below flags = inl (
    p ∷ [],
    s,
    rw (le→leb (len p) (len d) (omega arith)) refl,
    subst (λ x. Moves forbidden s s x (len p) (p ∷ [])) at
        (Moves-keep forbidden s p i.valid
          (λ x a c.
            used_shift s.allocator.used_ranges (first_cluster fs.boot_sector) d.start d.end (len p)
              i.used x (omega arith) (omega arith) (omega arith))
          flags),
  )

  place_fragments-cons :
      (d d' : Range) (f : Range × Bool) (ps : List (Range × Bool)) (s s' : Copying)
      (rs : List Range) {rest : Outcome (List Range × Copying)}
      → place_fragment fs d f s ≡ ok (rs, d', s')
      → place_fragments fs d' ps s' ≡ rest
      → place_fragments fs d (f ∷ ps) s ≡ (rest >>= λ (rs', s''). ok (rs ++ rs', s''))
  unfolding place_fragments
  place_fragments-cons d d' f ps s s' rs e g = rw (e, g) refl

  Moves-step :
      (d : Range) (k : ℕ) (s s₁ s' : Copying) (rs rs' : List Range)
      → IsSource d s
      → d.start + k ≤ d.end
      → Moves forbidden s s₁ (first_cluster fs.boot_sector + d.start) k rs
      → Moves forbidden s₁ s'
          (first_cluster fs.boot_sector + (d.start + k))
          (d.end - (d.start + k))
          rs'
      → Moves forbidden s s' (first_cluster fs.boot_sector + d.start) (len d) (rs ++ rs')
  Moves-step d k s s₁ s' rs rs' i h p q =
      let c : ℕ = first_cluster fs.boot_sector in
      let rest : ℕ = d.end - (d.start + k) in
      Moves-cast forbidden s s' (c + d.start) (c + d.start) (k + rest) (len d) (rs ++ rs') refl
        (omega arith)
        (Moves-trans forbidden s s₁ s' (c + d.start) k rest rs rs'
          (λ x a e.
            used_shift s.allocator.used_ranges c d.start d.end (k + rest) i.used x a (omega arith)
              (omega arith))
          p
          (Moves-cast forbidden s₁ s' (c + (d.start + k)) (c + d.start + k) rest rest rs'
            (omega arith) refl q))

  IsSource-next :
      (d : Range) (k : ℕ) (s s₁ : Copying) (rs : List Range)
      → IsSource d s
      → Moves forbidden s s₁ (first_cluster fs.boot_sector + d.start) k rs
      → IsSource (record d { start = d.start + k }) s₁
  IsSource-next d k s s₁ rs i p = record {
    valid = p.valid;
    serves = Serves-moved fs s.allocator s₁.allocator p.moved i.serves;
    readable = λ j x y. i.readable j (omega arith) y;
    used = λ j x y. rw p.same_used (i.used j (omega arith) y);
    inside = λ x c. rw p.same_used (i.inside x c);
  }

  pub place_fragments-Moves :
      (ps : List (Range × Bool)) (d : Range) (s : Copying)
      → IsSource d s
      → d.start ≤ d.end
      → Tiles forbidden ps
          (first_cluster fs.boot_sector + d.start)
          (first_cluster fs.boot_sector + d.end)
      → Moved s (first_cluster fs.boot_sector + d.start) (len d) (place_fragments fs d ps s)
  unfolding place_fragments
  place_fragments-Moves [] d s i l t = inl (
    [],
    s,
    refl,
    Moves-cast forbidden s s (first_cluster fs.boot_sector + d.start)
        (first_cluster fs.boot_sector + d.start) 0 (len d) [] refl (omega arith)
        (Moves-nil forbidden s (first_cluster fs.boot_sector + d.start) i.valid),
  )
  place_fragments-Moves ((p, flag) ∷ ps) d s i l (at, some_left, below, flags, rest) =
      elim (place_fragment-Moves d p flag s i at (omega arith) below flags) [
        | inr e ↦ inr (rw e refl)
        | inl (rs, s₁, e, m) ↦
            let d' : Range = record d { start = d.start + len p } in
            elim (place_fragments-Moves ps d' s₁ (IsSource-next d (len p) s s₁ rs i m) (omega arith)
              (subst (λ x. Tiles forbidden ps x (first_cluster fs.boot_sector + d.end))
                (omega arith) rest)) [
                  | inr f ↦ inr (place_fragments-cons d d' (p, flag) ps s s₁ rs e f)
                  | inl (rs', s', f, q) ↦ inl (
                    rs ++ rs',
                    s',
                    place_fragments-cons d d' (p, flag) ps s s₁ rs e f,
                    Moves-step d (len p) s s₁ s' rs rs' i (omega arith) m q,
                  )
                ]
      ]
