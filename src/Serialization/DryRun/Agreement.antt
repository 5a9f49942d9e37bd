-- ===== src/Serialization/DryRun/Agreement.antt =====
-- The dry run and the conversion agree on the blocks of a directory.
use ofs_convert_rs.Common.{
  ℕ, suc, ◌+◌, ◌-◌, ◌%◌, ◌≤◌, ◌<◌, ◌≡◌, refl, sym, subst, ap, ◌∙◌, List, [], ◌∷◌, length, some, ok,
  >>=-eq-ok, arith, u16_size, inl, inr,
}
use ofs_convert_rs.Ext4.Dentry.{Ext4Dentry}
use ofs_convert_rs.Serialization.DentryWriter
use ofs_convert_rs.Serialization.DentryWriter.{DentryWriter, Storage, write}
use ofs_convert_rs.Serialization.DentryWriter.Layout.{IsValid, IsEntry, All, Fills, drop-lem}
use ofs_convert_rs.Serialization.DentryWriter.Blocks.{
  Supplies, Adds, add_dentry-same_block, add_dentry-new_block, new-IsValid,
}
use ofs_convert_rs.Serialization.DryRun.{
  DryRunDirectoryWriter, new, add_dentry, add_dentries, used_blocks, add_count,
}
use ofs_convert_rs.Serialization.DryRun.Counts.{
  opened, add_dentry-cases, blocks_grow, first_count, new_unused,
}

module _ (required_block_count : ℕ → ℕ → ℕ) where
  -- The dry run's state is that of the conversion's writer, once this has its first entry.
  record Agrees {S : Type 0} (v : DryRunDirectoryWriter) (w : DentryWriter S) : Type 0 where
    pub same_size : v.block_size ≡ w.block_size
    pub same_position : v.position_in_block ≡ w.position_in_block
    pub same_count : v.used_dentry_blocks ≡ w.block_count
    pub last : (d : Ext4Dentry) × (w.previous_dentry ≡ some d)

  module _ {S : Type 0} (storage : Storage S) (room : S → ℕ)
      (supplies : Supplies storage room) where
    step :
        (v v' : DryRunDirectoryWriter) (w : DentryWriter S) (d : Ext4Dentry) (n : ℕ)
        → Agrees v w
        → IsValid w
        → IsEntry d
        → w.block_size < u16_size
        → add_dentry required_block_count v d ≡ ok (n, v')
        → v'.used_dentry_blocks ≤ v.used_dentry_blocks + room w.state
        → (w' : DentryWriter S) × (DentryWriter.add_dentry storage w d ≡ ok w')
          × IsValid w'
          × Agrees v' w'
          × (w'.block_size ≡ w.block_size)
          × (v.used_dentry_blocks + room w.state ≤ v'.used_dentry_blocks + room w'.state)
    unfolding opened
    step v v' w d n a i e h r m = elim ((add_dentry-cases required_block_count v d n v' r).1) [
      | inl (l, o) ↦
          let q : Adds storage room supplies w (write d w) d 0 (room w.state) =
            add_dentry-same_block storage room supplies w d i e
              (omega (arith, a.same_size, a.same_position)) in
          let used : v'.used_dentry_blocks ≡ v.used_dentry_blocks =
            ap (λ u. u.used_dentry_blocks) o in
          (
            write d w,
            q.added,
            q.valid,
            record {
              same_size = ap (λ u. u.block_size) o ∙ a.same_size;
              same_position =
                  ap (λ u. u.position_in_block) o ∙ ap (λ p. p + d.dentry_len) a.same_position;
              same_count = used ∙ a.same_count;
              last = (d, refl);
            },
            refl,
            omega arith,
          )
      | inr (l, s, o) ↦
          let used : v'.used_dentry_blocks ≡ suc v.used_dentry_blocks =
            ap (λ u. u.used_dentry_blocks) o in
          let at : v'.position_in_block ≡ 0 + d.dentry_len = ap (λ u. u.position_in_block) o in
          let left : suc (room w.state - 1) ≤ room w.state = omega arith in
          let (w', q, p) =
            add_dentry-new_block storage room supplies w d a.last.0 (room w.state - 1) i e h
              a.last.1 (omega (arith, a.same_count)) left
              (omega (arith, a.same_size, a.same_position)) in
          (
            w',
            q.added,
            q.valid,
            record {
              same_size = ap (λ u. u.block_size) o ∙ a.same_size ∙ sym q.same_size;
              same_position = omega (arith, at, p);
              same_count = omega (arith, used, q.blocks, a.same_count);
              last = (d, q.last);
            },
            q.same_size,
            omega (arith, q.room_left),
          )
    ]

    same_join :
        (w₀ w₁ w₂ : DentryWriter S)
        → w₂.block_size ≡ w₁.block_size
        → w₁.block_size ≡ w₀.block_size
        → w₂.block_size ≡ w₀.block_size
    same_join w₀ w₁ w₂ h k = h ∙ k

    steps_join :
        (w₀ w₁ w₂ : DentryWriter S) (d : Ext4Dentry) (ds : List Ext4Dentry)
        → DentryWriter.add_dentry storage w₀ d ≡ ok w₁
        → DentryWriter.add_dentries storage w₁ ds ≡ ok w₂
        → DentryWriter.add_dentries storage w₀ (d ∷ ds) ≡ ok w₂
    unfolding DentryWriter.add_dentries
    steps_join w₀ w₁ w₂ d ds h k = rw h k

    steps :
        (v v' : DryRunDirectoryWriter) (w : DentryWriter S) (ds : List Ext4Dentry) (n : ℕ)
        → Agrees v w
        → IsValid w
        → All IsEntry ds
        → w.block_size < u16_size
        → add_dentries required_block_count v ds ≡ ok (n, v')
        → v'.used_dentry_blocks ≤ v.used_dentry_blocks + room w.state
        → (w' : DentryWriter S) × (DentryWriter.add_dentries storage w ds ≡ ok w')
          × IsValid w'
          × Agrees v' w'
          × (w'.block_size ≡ w.block_size)
    unfolding add_dentries DentryWriter.add_dentries
    steps v v' w [] n a i e h r m =
        let o : v ≡ v' = cc in (w, refl, i, subst (λ u. Agrees u w) o a, refl)
    steps v v' w (d ∷ ds) n a i (e, es) h r m =
        let ((k, u), t, g) = >>=-eq-ok (add_dentry required_block_count v d) _ r in
        let ((k', u'), t', g') =
          >>=-eq-ok (add_dentries required_block_count u ds) (add_count k) g in
        let last : u' ≡ v' = cc in
        let end : u'.used_dentry_blocks ≡ v'.used_dentry_blocks =
          ap (λ u. u.used_dentry_blocks) last in
        let (below, _) = blocks_grow required_block_count u ds k' u' t' in
        let (w₁, added, i₁, a₁, size, room₁) = step v u w d k a i e h t (omega arith) in
        let (w', rest, i', a', same) =
          steps u v' w₁ ds k' a₁ i₁ es (omega (arith, size)) (t' ∙ ap (λ x. ok (k', x)) last)
            (omega arith) in
        (w', steps_join w w₁ w' d ds added rest, i', a', same_join w w₁ w' same size)

    first :
        (block_size n k : ℕ) (u : DryRunDirectoryWriter) (d : Ext4Dentry) (s : S)
        → 264 ≤ block_size
        → block_size % 4 ≡ 0
        → IsEntry d
        → add_dentry required_block_count (new block_size) d ≡ ok (n, u)
        → suc k ≤ room s
        → (u.used_dentry_blocks ≡ 1)
          × ((w : DentryWriter S) × (DentryWriter.new storage s block_size ≡ ok w)
              × (w.block_size ≡ block_size)
              × (DentryWriter.add_dentry storage w d ≡ ok (write d w))
              × IsValid (write d w)
              × Agrees u (write d w)
              × (k ≤ room w.state))
    unfolding opened new
    first bs n k u d s h a e t r =
        let (w, w_ok, i, size, pos, one, left) = new-IsValid storage room supplies s bs k h a r in
        let q : Adds storage room supplies w (write d w) d 0 (room w.state) =
          add_dentry-same_block storage room supplies w d i e (omega (arith, size, pos, e.short)) in
        elim ((add_dentry-cases required_block_count (new bs) d n u t).1) [
          | inl (l, o) ↦ absurd (omega (arith, e.nonempty))
          | inr (l, _, o) ↦
              let used : u.used_dentry_blocks ≡ 1 = ap (λ u. u.used_dentry_blocks) o in
              let at : u.position_in_block ≡ 0 + d.dentry_len = ap (λ u. u.position_in_block) o in
              (
                used,
                (
                  w,
                  w_ok,
                  size,
                  q.added,
                  q.valid,
                  record {
                    same_size = ap (λ u. u.block_size) o ∙ sym size;
                    same_position = omega (arith, at, pos);
                    same_count = used ∙ sym one;
                    last = (d, refl);
                  },
                  left,
                ),
              )
        ]

    -- What the conversion writes for a directory, next to what the dry run counted.
    pub record Follows (block_size n : ℕ) (v : DryRunDirectoryWriter) (ds : List Ext4Dentry) (s : S)
        : Type 0 where
      pub opened_writer : DentryWriter S
      pub filled_writer : DentryWriter S
      pub blocks : List (List Ext4Dentry)
      pub opens : DentryWriter.new storage s block_size ≡ ok opened_writer
      pub adds : DentryWriter.add_dentries storage opened_writer ds ≡ ok filled_writer
      pub drops :
          DentryWriter.drop filled_writer ≡ ok (blocks, filled_writer.link_count_from_subdirs)
      pub full : All (Fills block_size) blocks
      pub counted : length blocks ≡ v.used_dentry_blocks
      pub summed : n ≡ used_blocks v

    Follows-join :
        (block_size n : ℕ) (v : DryRunDirectoryWriter) (d : Ext4Dentry) (ds : List Ext4Dentry)
        (s : S) (w w' : DentryWriter S)
        → DentryWriter.new storage s block_size ≡ ok w
        → DentryWriter.add_dentry storage w d ≡ ok (write d w)
        → DentryWriter.add_dentries storage (write d w) ds ≡ ok w'
        → IsValid w'
        → Agrees v w'
        → w'.block_size ≡ w.block_size
        → w.block_size ≡ block_size
        → block_size < u16_size
        → n ≡ used_blocks v
        → Follows block_size n v (d ∷ ds) s
    unfolding DentryWriter.add_dentries
    Follows-join bs n v d ds s w w' w_ok added rest i a same size h sum =
        let (blocks, dropped, count, full) = drop-lem w' a.last.0 i (omega arith) a.last.1 in
        record {
          opened_writer = w;
          filled_writer = w';
          blocks = blocks;
          opens = w_ok;
          adds = steps_join w (write d w) w' d ds added rest;
          drops = dropped;
          full = subst (λ b. All (Fills b) blocks) (same ∙ size) full;
          counted = count ∙ sym a.same_count;
          summed = sum;
        }

    -- The conversion follows the dry run: for the entries of a directory, at least one, each of an
    -- aligned length between 8 and 264, at a block size that is a multiple of 4 from 264 up to below
    -- 64 KiB, where the dry run adds all of them and the storage can supply as many blocks as it counted,
    -- the writer adds every entry without failing, and takes exactly that many blocks, each of which the
    -- lengths of its entries fill once it is dropped. The dry run's sum is the number of blocks of entries
    -- and of extents it ends with.
    pub add_dentries-Follows :
        (block_size n : ℕ) (v : DryRunDirectoryWriter) (d : Ext4Dentry) (ds : List Ext4Dentry)
        (s : S)
        → 264 ≤ block_size
        → block_size < u16_size
        → block_size % 4 ≡ 0
        → All IsEntry (d ∷ ds)
        → add_dentries required_block_count (new block_size) (d ∷ ds) ≡ ok (n, v)
        → v.used_dentry_blocks ≤ room s
        → Follows block_size n v (d ∷ ds) s
    unfolding opened add_dentries DentryWriter.add_dentries
    add_dentries-Follows bs n v d ds s h h' a (e, es) r m =
        let ((k, u), t, g) = >>=-eq-ok (add_dentry required_block_count (new bs) d) _ r in
        let ((k', u'), t', g') =
          >>=-eq-ok (add_dentries required_block_count u ds) (add_count k) g in
        let last : u' ≡ v = cc in
        let end : u'.used_dentry_blocks ≡ v.used_dentry_blocks =
          ap (λ u. u.used_dentry_blocks) last in
        let (below, _) = blocks_grow required_block_count u ds k' u' t' in
        let (_, sum) = blocks_grow required_block_count (new bs) (d ∷ ds) n v r in
        let enough : suc (room s - 1) ≤ room s =
          omega (arith, first_count required_block_count bs k u d e t) in
        let (one, (w, w_ok, size, added, i, agrees, left)) =
          first bs k (room s - 1) u d s h a e t enough in
        let (w', rest, i', a', same) =
          steps u v (write d w) ds k' agrees i es (omega (arith, size))
            (t' ∙ ap (λ x. ok (k', x)) last) (omega arith) in
        Follows-join bs n v d ds s w w' w_ok added rest i' a' same size h'
          (omega (arith, sum, new_unused required_block_count bs))
