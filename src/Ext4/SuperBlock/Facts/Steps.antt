-- ===== src/Ext4/SuperBlock/Facts/Steps.antt =====
-- What each step of `SuperBlock::new` guarantees where it succeeds.
use ofs_convert_rs.Common.{
  ℕ, ◌+◌, ◌-◌, ◌*◌, ◌/◌, ◌%◌, ◌^◌, ◌≤◌, ◌<◌, min, ◌≡◌, refl, ◌∙◌, List, leb, ltb, if◌then◌else◌, ok,
  arith, u32_size, u64_size, add32, sub32, mul32, ◌⊎◌, inl, inr, Bool-cases, div_ceil, >>=-eq-ok,
  assert-eq-ok, ensure-eq-ok, subst, ltb→lt, ltb→le, leb→le,
}
use native.Mathlib.Nat.{le_refl, mod-le, div-add-mod, mul-mod_right}
use ofs_convert_rs.LoHi
use ofs_convert_rs.LoHi.{u64_of_u32_u32, Halves}
use ofs_convert_rs.LoHi.Laws.{get-set}
use ofs_convert_rs.Ext4.SuperBlock.{
  SuperBlock, Environment, layout, geometry, exact_log2, fit_blocks, finish, yes_backup,
  block_group_overhead, block_size, block_count_with_padding, first_block_is_padding,
  min_usable_blocks_per_group, max_blocks_per_group, inode_ratio,
}
use ofs_convert_rs.Ext4.SuperBlock.Facts.Log.{shift-log}

-- The sizes that a block size determines.
pub record IsLaidOut (bs : ℕ) (sb : SuperBlock) : Type 0 where
  pub at_least : 1024 ≤ bs
  pub at_most : bs ≤ 65536
  pub sized : block_size sb ≡ bs
  pub padded : sb.s_first_data_block ≡ (if leb bs 1024 then 1 else 0)
  pub blocks_per_group : sb.s_blocks_per_group ≡ min (bs * 8) max_blocks_per_group
  pub inodes_per_group : sb.s_inodes_per_group ≡ sb.s_blocks_per_group * bs / inode_ratio
  pub inode_size : sb.s_inode_size ≡ 256
  pub desc_size : sb.s_desc_size ≡ 64
  pub reserved : sb.s_reserved_gdt_blocks ≡ 0

area_bound : (b bs : ℕ) → b ≤ 65528 → b * bs ≤ 65528 * bs
area_bound b bs h = grind arith

layout-IsLaidOut :
    (env : Environment) (bs : ℕ) (label : List ℕ) (log : ℕ)
    → 2 ^ log % u32_size ≡ bs
    → 1024 ≤ bs
    → bs ≤ 65536
    → IsLaidOut bs (layout env bs label log)
unfolding layout block_size first_block_is_padding
layout-IsLaidOut env bs label log e h k =
    let shift : 2 ^ (add32 (sub32 log 10) 10 % 32) ≡ bs = shift-log log bs e h k in
    record {
      at_least = h;
      at_most = k;
      sized = shift;
      padded = rw shift;
      blocks_per_group = omega arith;
      inodes_per_group =
          omega (arith, area_bound (min (mul32 bs 8) max_blocks_per_group) bs (omega arith));
      inode_size = refl;
      desc_size = refl;
      reserved = refl;
    }

pub ok-injective {ℓ} : {A : Type ℓ} {a b : A} → ok a ≡ ok b → a ≡ b
ok-injective e = cc

exact_log2-lem :
    (env : Environment) (n log : ℕ) → exact_log2 env n ≡ ok log → 2 ^ log % u32_size ≡ n
unfolding exact_log2
exact_log2-lem env n log e = ground arith

-- A superblock that `geometry` returns is laid out for the block size.
pub geometry-IsLaidOut :
    (env : Environment) (bs : ℕ) (label : List ℕ) (sb : SuperBlock)
    → geometry env bs label ≡ ok sb
    → IsLaidOut bs sb
unfolding geometry exact_log2
geometry-IsLaidOut env bs label sb e =
    let (_, e₁) = assert-eq-ok _ _ e in
    let (low, e₂) = ensure-eq-ok _ _ _ e₁ in
    let (high, e₃) = ensure-eq-ok _ _ _ e₂ in
    let (log, l, e₄) = >>=-eq-ok (exact_log2 env bs) _ e₃ in
    subst (IsLaidOut bs) (ok-injective e₄) (
      layout-IsLaidOut env bs label log (exact_log2-lem env bs log l) (leb→le _ _ low)
        (leb→le _ _ high))

-- Changing the block count leaves the layout as it is.
recount-IsLaidOut :
    (bs : ℕ) (sb : SuperBlock) (halves : Halves)
    → IsLaidOut bs sb
    → IsLaidOut bs (record sb { s_blocks_count = halves })
unfolding block_size
recount-IsLaidOut bs sb halves l = record {
  at_least = l.at_least;
  at_most = l.at_most;
  sized = l.sized;
  padded = l.padded;
  blocks_per_group = l.blocks_per_group;
  inodes_per_group = l.inodes_per_group;
  inode_size = l.inode_size;
  desc_size = l.desc_size;
  reserved = l.reserved;
}

-- The last group is complete, or has room for its metadata and the least number of usable blocks.
pub record Fitted (bs block_count : ℕ) (sb : SuperBlock) (data_block_count : ℕ) : Type 0 where
  pub laid_out : IsLaidOut bs sb
  pub counted : block_count_with_padding sb ≡ data_block_count + sb.s_first_data_block
  pub within : block_count_with_padding sb ≤ block_count
  pub last_group :
      (data_block_count % sb.s_blocks_per_group ≡ 0)
      ⊎ ((overhead : ℕ) × (block_group_overhead sb yes_backup ≡ ok overhead)
          × (overhead + min_usable_blocks_per_group ≤ data_block_count % sb.s_blocks_per_group))

round_down-mod : (n m : ℕ) → 0 < m → (n - n % m) % m ≡ 0
round_down-mod n m h =
    let e : n - n % m ≡ m * (n / m) = omega (arith, div-add-mod n m) in
    rw e (mul-mod_right m (n / m))

Fitted-kept :
    (bs bc : ℕ) (sb : SuperBlock) (overhead : ℕ) (halves : Halves)
    → IsLaidOut bs sb
    → sb.s_first_data_block ≤ bc
    → LoHi.get u64_of_u32_u32 halves ≡ bc
    → block_group_overhead (record sb { s_blocks_count = halves }) yes_backup ≡ ok overhead
    → overhead + min_usable_blocks_per_group ≤ (bc - sb.s_first_data_block) % sb.s_blocks_per_group
    → Fitted bs bc (record sb { s_blocks_count = halves }) (bc - sb.s_first_data_block)
unfolding block_count_with_padding
Fitted-kept bs bc sb overhead halves l h g e k = record {
  laid_out = recount-IsLaidOut bs sb halves l;
  counted = g ∙ omega arith;
  within = rw g (le_refl bc);
  last_group = inr (overhead, e, k);
}

Fitted-cut :
    (bs bc : ℕ) (sb : SuperBlock) (halves : Halves)
    → IsLaidOut bs sb
    → sb.s_first_data_block ≤ bc
    → 0 < sb.s_blocks_per_group
    → LoHi.get u64_of_u32_u32 halves ≡ bc - (bc - sb.s_first_data_block) % sb.s_blocks_per_group
    → Fitted bs bc
        (record sb { s_blocks_count = halves })
        (bc - sb.s_first_data_block - (bc - sb.s_first_data_block) % sb.s_blocks_per_group)
unfolding block_count_with_padding
Fitted-cut bs bc sb halves l h p g = record {
  laid_out = recount-IsLaidOut bs sb halves l;
  counted = g ∙ omega (arith, mod-le (bc - sb.s_first_data_block) sb.s_blocks_per_group);
  within = rw g (omega arith);
  last_group = inl (round_down-mod (bc - sb.s_first_data_block) sb.s_blocks_per_group p);
}

pub per_group-pos : (bs : ℕ) (sb : SuperBlock) → IsLaidOut bs sb → 0 < sb.s_blocks_per_group
per_group-pos bs sb l = omega (arith, l.blocks_per_group, l.at_least)

-- What `fit_blocks` returns on a file system with at least one block behind the padding.
pub fit_blocks-Fitted :
    (bs bc : ℕ) (sb : SuperBlock) (r : SuperBlock × ℕ)
    → IsLaidOut bs sb
    → sb.s_first_data_block ≤ bc
    → bc < u64_size
    → fit_blocks sb bc ≡ ok r
    → Fitted bs bc r.0 r.1
unfolding fit_blocks
fit_blocks-Fitted bs bc sb r l h f e =
    let blocks = bc - sb.s_first_data_block in
    let last = blocks % sb.s_blocks_per_group in
    let (halves, e₁, _, g₁) = get-set u64_of_u32_u32 bc (omega arith) (omega arith) (omega arith) in
    let (fewer, e₂, _, g₂) =
      get-set u64_of_u32_u32 (bc - last) (omega arith) (omega arith) (omega arith) in
    let (overhead, o, e₃) =
      >>=-eq-ok (block_group_overhead (record sb { s_blocks_count = halves }) yes_backup) _
        (rw e₁ at e) in
    elim (Bool-cases (ltb last (overhead + min_usable_blocks_per_group))) [
      | inl t ↦
          subst (λ (q : SuperBlock × ℕ). Fitted bs bc q.0 q.1) (ok-injective (rw (t, e₂) at e₃))
            (Fitted-cut bs bc sb fewer l h (per_group-pos bs sb l) g₂)
      | inr t ↦
          subst (λ (q : SuperBlock × ℕ). Fitted bs bc q.0 q.1) (ok-injective (rw t at e₃))
            (Fitted-kept bs bc sb overhead halves l h g₁ o (ltb→le _ _ t))
    ]

-- What `finish` adds: the counts of groups and inodes, and the group numbers of the backups.
pub record Finished (sb₀ : SuperBlock) (data_block_count : ℕ) (sb : SuperBlock) : Type 0 where
  pub nonempty : 0 < data_block_count
  pub groups_fit : div_ceil data_block_count sb₀.s_blocks_per_group < u32_size
  pub inodes :
      sb.s_inodes_count ≡ sb₀.s_inodes_per_group * div_ceil data_block_count sb₀.s_blocks_per_group
  pub inodes_fit : sb.s_inodes_count < u32_size
  pub enough_inodes : 10 ≤ sb.s_inodes_count
  pub first_backup :
      sb.s_backup_bg_0 ≡ (if ltb 1 (div_ceil data_block_count sb₀.s_blocks_per_group) then 1 else 0)
  pub last_backup : sb.s_backup_bg_1 ≡ (
      if ltb 2 (div_ceil data_block_count sb₀.s_blocks_per_group)
      then div_ceil data_block_count sb₀.s_blocks_per_group - 1
      else 0)
  pub rest : sb ≡ record sb₀ {
    s_inodes_count = sb.s_inodes_count;
    s_backup_bg_0 = sb.s_backup_bg_0;
    s_backup_bg_1 = sb.s_backup_bg_1;
  }

pub finish-Finished :
    (sb₀ : SuperBlock) (n : ℕ) (sb : SuperBlock) → finish sb₀ n ≡ ok sb → Finished sb₀ n sb
unfolding finish
finish-Finished sb₀ n sb e =
    let (a, e₁) = ensure-eq-ok _ _ _ e in
    let (b, e₂) = ensure-eq-ok _ _ _ e₁ in
    let (c, e₃) = ensure-eq-ok _ _ _ e₂ in
    let (d, e₄) = ensure-eq-ok _ _ _ e₃ in
    subst (Finished sb₀ n) (ok-injective e₄) (record {
      nonempty = leb→le _ _ a;
      groups_fit = ltb→lt _ _ b;
      inodes = refl;
      inodes_fit = ltb→lt _ _ c;
      enough_inodes = leb→le _ _ d;
      first_backup = refl;
      last_backup = refl;
      rest = refl;
    })
