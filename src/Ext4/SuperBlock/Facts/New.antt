-- ===== src/Ext4/SuperBlock/Facts/New.antt =====
-- What `SuperBlock::new` guarantees where it succeeds, and an error that it never reports.
use native.Mathlib.Nat.{div-add-mod'}
use ofs_convert_rs.Common.{
  ℕ, ◌+◌, ◌*◌, ◌/◌, ◌%◌, ◌≤◌, ◌<◌, ◌≡◌, refl, sym, subst, List, leb, if◌then◌else◌, ok, arith,
  u32_size, u64_size, ◌⊎◌, div_ceil, >>=-eq-ok, lt→ltb,
}
use ofs_convert_rs.Ext4.SuperBlock.{
  SuperBlock, Environment, geometry, fit_blocks, new, yes_backup, block_group_overhead, block_size,
  block_count_with_padding, block_count_without_padding, block_group_count,
  min_usable_blocks_per_group,
}
use ofs_convert_rs.Ext4.SuperBlock.Facts.Steps.{
  IsLaidOut, geometry-IsLaidOut, Fitted, fit_blocks-Fitted, Finished, finish-Finished,
}

-- What the rest of the program relies on.
pub record IsValid (fs_len bs : ℕ) (sb : SuperBlock) : Type 0 where
  pub laid_out : IsLaidOut bs sb
  pub within : block_count_with_padding sb * bs ≤ fs_len
  pub nonempty : 0 < block_count_without_padding sb
  pub groups :
      block_group_count sb ≡ ok (div_ceil (block_count_without_padding sb) sb.s_blocks_per_group)
  pub inodes :
      sb.s_inodes_count
      ≡ sb.s_inodes_per_group * div_ceil (block_count_without_padding sb) sb.s_blocks_per_group
  pub inodes_fit : sb.s_inodes_count < u32_size
  pub enough_inodes : 10 ≤ sb.s_inodes_count
  pub last_group :
      (block_count_without_padding sb % sb.s_blocks_per_group ≡ 0)
      ⊎ ((overhead : ℕ) × (block_group_overhead sb yes_backup ≡ ok overhead)
          × (overhead + min_usable_blocks_per_group
              ≤ block_count_without_padding sb % sb.s_blocks_per_group))

-- The fields that `finish` sets do not bear on the sizes.
abbrev finished : SuperBlock → ℕ → ℕ → ℕ → SuperBlock
finished sb inodes first last = record sb {
  s_inodes_count = inodes;
  s_backup_bg_0 = first;
  s_backup_bg_1 = last;
}

overhead-finished :
    (sb : SuperBlock) (i a b : ℕ)
    → block_group_overhead (finished sb i a b) yes_backup ≡ block_group_overhead sb yes_backup
unfolding block_group_overhead
overhead-finished sb i a b = refl

finished-IsLaidOut :
    (bs : ℕ) (sb : SuperBlock) (i a b : ℕ) → IsLaidOut bs sb → IsLaidOut bs (finished sb i a b)
unfolding block_size
finished-IsLaidOut bs sb i a b l = record {
  at_least = l.at_least;
  at_most = l.at_most;
  sized = l.sized;
  padded = l.padded;
  blocks_per_group = l.blocks_per_group;
  inodes_per_group = l.inodes_per_group;
  inode_size = l.inode_size;
  desc_size = l.desc_size;
  reserved = l.reserved;
}

without-finished :
    (bs bc : ℕ) (sb : SuperBlock) (n i a b : ℕ)
    → bc < u64_size
    → Fitted bs bc sb n
    → block_count_without_padding (finished sb i a b) ≡ n
unfolding block_count_without_padding
without-finished bs bc sb n i a b h f = omega (arith, f.counted, f.within)

groups-finished :
    (bs bc : ℕ) (sb : SuperBlock) (n i a b : ℕ)
    → bc < u64_size
    → Fitted bs bc sb n
    → div_ceil n sb.s_blocks_per_group < u32_size
    → block_group_count (finished sb i a b) ≡ ok (div_ceil n sb.s_blocks_per_group)
unfolding block_group_count
groups-finished bs bc sb n i a b h f l = rw (without-finished bs bc sb n i a b h f, lt→ltb _ _ l)

finished-IsValid :
    (fs_len bs bc : ℕ) (sb : SuperBlock) (n i a b : ℕ)
    → bc * bs ≤ fs_len
    → bc < u64_size
    → Fitted bs bc sb n
    → Finished sb n (finished sb i a b)
    → IsValid fs_len bs (finished sb i a b)
unfolding block_count_with_padding
finished-IsValid fs_len bs bc sb n i a b h k f g =
    let e : block_count_without_padding (finished sb i a b) ≡ n =
      without-finished bs bc sb n i a b k f in
    record {
      laid_out = finished-IsLaidOut bs sb i a b f.laid_out;
      within = grind (arith, f.within, h);
      nonempty = rw e g.nonempty;
      groups = rw e (groups-finished bs bc sb n i a b k f g.groups_fit);
      inodes = rw e g.inodes;
      inodes_fit = g.inodes_fit;
      enough_inodes = g.enough_inodes;
      last_group = rw (e, overhead-finished sb i a b) f.last_group;
    }

blocks-fit : (fs_len bs : ℕ) → fs_len / bs * bs ≤ fs_len
blocks-fit fs_len bs = omega (arith, div-add-mod' fs_len bs)

-- A superblock that `new` returns for a file system of at least one block behind the padding, of a
-- length that fits `usize`, is valid: its fields give the block size back, it has at least one block
-- and all its blocks lie within the file system, the numbers of groups and inodes fit `u32` and are
-- what the fields say, and the last group is complete or has room for its metadata and ten blocks.
pub new-IsValid :
    (env : Environment) (fs_len bs : ℕ) (label : List ℕ) (sb : SuperBlock)
    → fs_len < u64_size
    → (if leb bs 1024 then 1 else 0) ≤ fs_len / bs
    → new env fs_len bs label ≡ ok sb
    → IsValid fs_len bs sb
unfolding new
new-IsValid env fs_len bs label sb h k e =
    let (sb₁, e₁, f₁) = >>=-eq-ok (geometry env bs label) _ e in
    let (r, e₂, f₂) = >>=-eq-ok (fit_blocks sb₁ (fs_len / bs)) _ f₁ in
    let l : IsLaidOut bs sb₁ = geometry-IsLaidOut env bs label sb₁ e₁ in
    let small : fs_len / bs < u64_size = omega (arith) in
    let fitted : Fitted bs (fs_len / bs) r.0 r.1 =
      fit_blocks-Fitted bs (fs_len / bs) sb₁ r l (rw l.padded k) small e₂ in
    let done : Finished r.0 r.1 sb = finish-Finished r.0 r.1 sb f₂ in
    subst (IsValid fs_len bs) (sym done.rest) (
      finished-IsValid fs_len bs (fs_len / bs) r.0 r.1 sb.s_inodes_count sb.s_backup_bg_0
        sb.s_backup_bg_1 (blocks-fit fs_len bs) small fitted
        (subst (Finished r.0 r.1) done.rest done))
