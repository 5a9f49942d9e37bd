-- ===== src/Serialization/StreamArchiver/Writing.antt =====
-- Writing a page out: where it goes, how it is linked and what stays as it was.
use ofs_convert_rs.Common.{
  ℕ, ◌+◌, ◌*◌, ◌≤◌, ◌<◌, ◌≡◌, ◌≢◌, refl, sym, ap, subst, ◌∙◌, true, false, Option, none, some,
  length, replicate, length-replicate, arith, ok, err, ◌⊎◌, inl, inr, no_free_clusters,
}
use ofs_convert_rs.Ranges.{Range, usize_max}
use ofs_convert_rs.Ranges.Cover.{covers}
use ofs_convert_rs.Allocator.{Allocator, cluster_start_byte}
use ofs_convert_rs.Allocator.Valid.{IsValid}
use ofs_convert_rs.Allocator.Allocate.{Allocates, allocate_one-cases}
use ofs_convert_rs.Memory.{update}
use ofs_convert_rs.Serialization.FatSerializer.{Copying}
use ofs_convert_rs.Serialization.FatSerializer.Moves.{is_settled, settled_later}
use ofs_convert_rs.Serialization.StreamArchiver.{
  Compiler, StreamArchiver, reset_page, write_page, write_at, length-write_at,
}
use ofs_convert_rs.Serialization.StreamArchiver.Linking.{
  IsLayout, IsPage, IsReady, Linked, head_after, memory_after, start_byte-lem, link-lem,
  write_page-lem, memory_after-new, memory_after-kept, memory_after-Linked,
}

-- What `write_page` promises, for the new page `i`.
pub record Writes (c : Compiler) (a a' : StreamArchiver) (i : ℕ) : Type 0 where
  pub low : a.shared.allocator.valid_cluster_indices.start ≤ i
  pub fresh : is_settled a.shared.allocator i ≡ false
  pub high : i < a'.shared.allocator.cursor
  pub risen : a.shared.allocator.cursor ≤ a'.shared.allocator.cursor
  pub same_bounds :
      a'.shared.allocator.valid_cluster_indices ≡ a.shared.allocator.valid_cluster_indices
  pub same_used : a'.shared.allocator.used_ranges ≡ a.shared.allocator.used_ranges
  pub same_page_size : a'.page_size ≡ a.page_size
  pub settled :
      (x : ℕ) → is_settled a.shared.allocator x ≡ true → is_settled a'.shared.allocator x ≡ true
  pub previous : a'.previous_page_idx ≡ some i
  pub linked : Linked c a.previous_page_idx a.head a.shared.memory a'.head a'.shared.memory i
  pub stored : a'.shared.memory i ≡ a.current_page
  pub frame :
      (x : ℕ)
      → is_settled a.shared.allocator x ≡ true
      → a.previous_page_idx ≢ some x
      → a'.shared.memory x ≡ a.shared.memory x
  pub position : a'.position_in_current_page ≡ c.option_size
  pub ready : IsReady c a'

previous-accessible :
    (s : Copying) (al : Allocator) (size : ℕ) (o : Option ℕ)
    → IsPage s size o
    → IsValid al
    → s.allocator.cursor ≤ al.cursor
    → al.valid_cluster_indices.start ≡ s.allocator.valid_cluster_indices.start
    → al.cluster_size * al.valid_cluster_indices.end ≤ usize_max
    → (p : ℕ) → o ≡ some p
    → (byte : ℕ) × (cluster_start_byte al p ≡ some byte)
previous-accessible s al size none w v h b f p e = cc
previous-accessible s al size (some p) (low, high, whole, unused) v h b f q e =
    let same : p ≡ q = cc in
    (
      al.cluster_size * q,
      subst (λ x. cluster_start_byte al x ≡ some (al.cluster_size * x)) same
          (start_byte-lem al p v (omega arith) (omega (arith, v.not_past)) f),
    )

-- What `write_page` leaves, once it has the cluster `i` from the allocator.
abbrev written : Compiler → StreamArchiver → ℕ → Allocator → StreamArchiver
written c a i al = record {
  head = head_after a.previous_page_idx i a.head;
  previous_page_idx = some i;
  current_page = write_at 0 (c.option_bytes none) (replicate (length a.current_page) 0);
  page_size = a.page_size;
  position_in_current_page = c.option_size;
  shared = record {
    allocator = al;
    memory = memory_after c a.previous_page_idx i (update a.shared.memory i a.current_page);
  };
}

not_previous :
    (s : Copying) (size : ℕ) (o : Option ℕ) (i : ℕ)
    → IsPage s size o
    → s.allocator.cursor ≤ i
    → o ≢ some i
not_previous s size none i w h e = cc
not_previous s size (some p) i (low, high, whole, unused) h e = let same : p ≡ i = cc in omega arith

unsettled :
    (a : Allocator) (i : ℕ) → covers a.used_ranges i ≡ false → a.cursor ≤ i → is_settled a i ≡ false
unsettled a i u h = ground arith

not_settled : (a : Allocator) (i x : ℕ) → x ≡ i → is_settled a x ≡ true → is_settled a i ≡ false → ⊥
not_settled a i x e h k = cc

written-Writes :
    (c : Compiler) (a : StreamArchiver) (i : ℕ) (al : Allocator)
    → IsLayout c
    → IsReady c a
    → Allocates a.shared.allocator 1 (record { start = i; end = i + 1 }) al
    → Writes c a (written c a i al) i
written-Writes c a i al l r g =
    let old : Allocator = a.shared.allocator in
    let cursor : al.cursor ≡ i + 1 = ap (λ (x : Allocator). x.cursor) g.moved in
    let bounds : al.valid_cluster_indices ≡ old.valid_cluster_indices =
      ap (λ (x : Allocator). x.valid_cluster_indices) g.moved in
    let used : al.used_ranges ≡ old.used_ranges = ap (λ (x : Allocator). x.used_ranges) g.moved in
    let size : al.cluster_size ≡ old.cluster_size =
      ap (λ (x : Allocator). x.cluster_size) g.moved in
    let apart : a.previous_page_idx ≢ some i =
      not_previous a.shared a.page_size a.previous_page_idx i r.page g.behind in
    let stored : memory_after c a.previous_page_idx i (update a.shared.memory i a.current_page) i
        ≡ a.current_page =
      memory_after-new c a.previous_page_idx i a.shared.memory a.current_page apart in
    record {
      low = omega (arith, r.valid.started, g.behind);
      fresh = unsettled old i (g.unused i (omega arith) (omega arith)) g.behind;
      high = omega arith;
      risen = omega (arith, g.behind);
      same_bounds = bounds;
      same_used = used;
      same_page_size = refl;
      settled = λ x h. settled_later old al x used (omega (arith, g.behind)) h;
      previous = refl;
      linked =
          memory_after-Linked c a.previous_page_idx i a.shared a.page_size a.current_page a.head l
            (omega (arith, r.room)) g.behind r.page;
      stored = stored;
      frame = λ x h p.
          memory_after-kept c a.previous_page_idx i x a.shared.memory a.current_page
            (λ e.
              not_settled old i x e h
                (unsettled old i (g.unused i (omega arith) (omega arith)) g.behind))
            p;
      position = refl;
      ready = record {
        valid = g.valid;
        filled =
            length-write_at 0 (c.option_bytes none) (replicate (length a.current_page) 0)
            ∙ length-replicate (length a.current_page) 0
            ∙ r.filled;
        fits = size ∙ r.fits;
        addressed = rw bounds r.addressed;
        room = r.room;
        behind = omega arith;
        inside = omega (arith, r.room);
        page = (
          rw bounds (omega (arith, r.valid.started, g.behind)),
          omega arith,
          ap length stored ∙ r.filled,
          ap (λ x. covers x i) used ∙ g.unused i (omega arith) (omega arith),
        );
      };
    }

-- On a ready archiver, `write_page` writes the page out, unless no cluster is free.
pub write_page-cases :
    (c : Compiler) (a : StreamArchiver)
    → IsLayout c
    → IsReady c a
    → ((i : ℕ) × (a' : StreamArchiver) × (write_page c a ≡ ok a') × Writes c a a' i)
      ⊎ (write_page c a ≡ err no_free_clusters)
unfolding write_page reset_page
write_page-cases c a l r = elim (allocate_one-cases a.shared.allocator r.valid) [
  | inr (e, _) ↦ inr (rw e refl)
  | inl (i, al, e, g) ↦
      let w : Writes c a (written c a i al) i = written-Writes c a i al l r g in
      let bounds : al.valid_cluster_indices ≡ a.shared.allocator.valid_cluster_indices =
        w.same_bounds in
      let size : al.cluster_size ≡ a.page_size = w.ready.fits in
      let addressed : al.cluster_size * al.valid_cluster_indices.end ≤ usize_max =
        rw (size, bounds) r.addressed in
      let here : cluster_start_byte al i ≡ some (al.cluster_size * i) =
        start_byte-lem al i g.valid (rw bounds w.low) (omega (arith, w.high, g.valid.not_past))
          addressed in
      inl (
        i,
        written c a i al,
        write_page-lem c a i (al.cluster_size * i) al _ e here (r.filled ∙ sym size) (
            link-lem c a.previous_page_idx i
              (record a {
                shared = record {
                  allocator = al;
                  memory = update a.shared.memory i a.current_page;
                };
              })
              (previous-accessible a.shared al a.page_size a.previous_page_idx r.page g.valid
                (omega (arith, g.behind, w.high)) (ap (λ (x : Range). x.start) bounds) addressed)),
        w,
      )
]
