-- ===== src/Serialization/DryRun/Counts.antt =====
-- How `DryRunDirectoryWriter::add_dentry` counts.
use native.Mathlib.Decide.{dec_lt}
use ofs_convert_rs.Common.{
  ℕ, suc, ◌+◌, ◌-◌, ◌≤◌, ◌<◌, ◌≡◌, refl, sym, ap, ◌∙◌, List, [], ◌∷◌, leb, ok, >>=-eq-ok,
  assert-eq-ok, ensure-eq-ok, arith, u32_size, lt→ltb, le→ltb, ltb→lt, leb→le, ◌⊎◌, inl, inr,
}
use ofs_convert_rs.Ext4.Dentry.{Ext4Dentry}
use ofs_convert_rs.Serialization.DentryWriter.Layout.{IsEntry}
use ofs_convert_rs.Serialization.DryRun.{
  DryRunDirectoryWriter, new, make_room, added_blocks, next_block, add_dentry, add_dentries,
  remaining_space, used_blocks, move, add_count,
}

module _ (required_block_count : ℕ → ℕ → ℕ) where
  unfoldable pub opened : DryRunDirectoryWriter → DryRunDirectoryWriter
  opened v = record v {
    used_dentry_blocks = suc v.used_dentry_blocks;
    used_extent_blocks = required_block_count (suc v.used_dentry_blocks) v.block_size;
    position_in_block = 0;
  }

  next_block-lem :
      (v v' : DryRunDirectoryWriter)
      → next_block required_block_count v ≡ ok v'
      → (suc v.used_dentry_blocks < u32_size) × (v' ≡ opened v)
  unfolding next_block opened
  next_block-lem v v' h = let (t, e) = ensure-eq-ok _ _ _ h in (ltb→lt _ _ t, cc)

  added_blocks-lem :
      (v w v' : DryRunDirectoryWriter) (d : Ext4Dentry) (n : ℕ)
      → added_blocks v d w ≡ ok (n, v')
      → (used_blocks w ≡ n + used_blocks v) × (v' ≡ move d w)
  unfolding added_blocks
  added_blocks-lem v w v' d n h =
      let (t, k) = assert-eq-ok (leb (used_blocks v) (used_blocks w)) _ h in
      let counted : used_blocks w - used_blocks v ≡ n = cc in
      let more : used_blocks v ≤ used_blocks w = leb→le _ _ t in (omega arith, cc)

  make_room-cases :
      (v w : DryRunDirectoryWriter) (d : Ext4Dentry)
      → make_room required_block_count v d ≡ ok w
      → ((d.dentry_len ≤ remaining_space v) × (w ≡ v))
        ⊎ ((remaining_space v < d.dentry_len)
            × (suc v.used_dentry_blocks < u32_size)
            × (w ≡ opened v))
  make_room-cases v w d h = elim (dec_lt (remaining_space v) d.dentry_len) [
    | yes l ↦
        let e : make_room required_block_count v d ≡ next_block required_block_count v =
          rw (lt→ltb (remaining_space v) d.dentry_len l) refl in
        let (s, o) = next_block-lem v w (sym e ∙ h) in inr (l, s, o)
    | no l ↦
        let e : make_room required_block_count v d ≡ ok v =
          rw (le→ltb (remaining_space v) d.dentry_len (omega arith)) refl in
        inl (omega arith, cc)
  ]

  -- The two ways `add_dentry` succeeds.
  pub add_dentry-cases :
      (v : DryRunDirectoryWriter) (d : Ext4Dentry) (n : ℕ) (v' : DryRunDirectoryWriter)
      → add_dentry required_block_count v d ≡ ok (n, v')
      → (used_blocks v' ≡ n + used_blocks v)
        × (((d.dentry_len ≤ remaining_space v) × (v' ≡ move d v))
            ⊎ ((remaining_space v < d.dentry_len)
                × (suc v.used_dentry_blocks < u32_size)
                × (v' ≡ move d (opened v))))
  unfolding add_dentry used_blocks
  add_dentry-cases v d n v' h =
      let (w, e, g) = >>=-eq-ok (make_room required_block_count v d) (added_blocks v d) h in
      let (c, k) = added_blocks-lem v w v' d n g in
      (
        ap used_blocks k ∙ c,
        elim (make_room-cases v w d e) [
          | inl (l, o) ↦ inl (l, k ∙ ap (move d) o)
          | inr (l, s, o) ↦ inr (l, s, k ∙ ap (move d) o)
        ],
      )

  pub blocks_grow :
      (v : DryRunDirectoryWriter) (ds : List Ext4Dentry) (n : ℕ) (v' : DryRunDirectoryWriter)
      → add_dentries required_block_count v ds ≡ ok (n, v')
      → (v.used_dentry_blocks ≤ v'.used_dentry_blocks) × (used_blocks v' ≡ n + used_blocks v)
  unfolding add_dentries opened
  blocks_grow v [] n v' h =
      let e : v ≡ v' = cc in
      let z : 0 ≡ n = cc in
      (omega (arith, ap (λ u. u.used_dentry_blocks) e), omega (arith, ap used_blocks e, z))
  blocks_grow v (d ∷ ds) n v' h =
      let ((m, u), e, g) = >>=-eq-ok (add_dentry required_block_count v d) _ h in
      let ((k, u'), e', g') = >>=-eq-ok (add_dentries required_block_count u ds) (add_count m) g in
      let (l, c) = blocks_grow u ds k u' e' in
      let (c', p) = add_dentry-cases v d m u e in
      let more : v.used_dentry_blocks ≤ u.used_dentry_blocks = elim p [
        | inl (_, o) ↦ omega (arith, ap (λ u. u.used_dentry_blocks) o)
        | inr (_, _, o) ↦ omega (arith, ap (λ u. u.used_dentry_blocks) o)
      ] in
      let last : u' ≡ v' = cc in
      let sum : m + k ≡ n = cc in
      (
        omega (arith, ap (λ u. u.used_dentry_blocks) last),
        ap used_blocks (sym last) ∙ omega (arith, c, c', sum),
      )

  pub first_count :
      (block_size n : ℕ) (u : DryRunDirectoryWriter) (d : Ext4Dentry)
      → IsEntry d
      → add_dentry required_block_count (new block_size) d ≡ ok (n, u)
      → u.used_dentry_blocks ≡ 1
  unfolding opened new
  first_count bs n u d e t = elim ((add_dentry-cases (new bs) d n u t).1) [
    | inl (l, o) ↦ absurd (omega (arith, e.nonempty))
    | inr (_, _, o) ↦ ap (λ u. u.used_dentry_blocks) o
  ]

  pub new_unused : (block_size : ℕ) → used_blocks (new block_size) ≡ 0
  unfolding used_blocks new
  new_unused block_size = refl
