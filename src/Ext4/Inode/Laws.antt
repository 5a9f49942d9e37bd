-- ===== src/Ext4/Inode/Laws.antt =====
-- The size and the link count of an inode.
use native.Mathlib.Decide.{dec_lt}
use ofs_convert_rs.Common.{
  not, ◌==◌, ◌%◌, add32, ℕ, ◌+◌, ◌/◌, ◌≤◌, ◌<◌, ◌≡◌, refl, true, false, Bool, ◌&&◌, ltb,
  if◌then◌else◌, ok, panic, ◌>>◌, assert, arith, le→leb, lt→leb, lt→ltb, inl, inr, ◌⊎◌, u32_size,
  u64_size,
}
use ofs_convert_rs.LoHi
use ofs_convert_rs.LoHi.{Halves, u64_of_u32_u32, u64_of_u32_u16, u32_of_u16_u16}
use ofs_convert_rs.LoHi.Laws.{get-set, get-add_assign}
use ofs_convert_rs.Ext4.ExtentTree.{new_header, extent_magic}
use ofs_convert_rs.Ext4.Inode.{
  Inode, DentryRepresentation, is_dir, mode_from_dentry, init_from_dentry, increment_size, set_size,
  set_link_count_from_subdirs, is_representable, ext2_link_max, non_representable_link_count,
  dir_flag, reg_flag, default_perms, no_write_perms, inode_uses_extents,
}

abbrev pub size_of : Inode → ℕ
size_of i = LoHi.get u64_of_u32_u32 i.size

-- A size that is set and then incremented is their sum, as long as this fits 64 bits.
pub increment_size-set_size :
    (i : Inode) (a b : ℕ)
    → a + b < u64_size
    → (j k : Inode) × (set_size i a ≡ ok j) × (increment_size j b ≡ ok k) × (size_of k ≡ a + b)
unfolding set_size increment_size
increment_size-set_size i a b h =
    let (s, e, v, c) = get-set u64_of_u32_u32 a (omega arith) (omega arith) (omega arith) in
    let (t, e', _, c') = get-add_assign v b (omega (arith, c)) in
    (record i { size = s }, record i { size = t }, rw e refl, rw e' refl, omega (arith, c, c'))

and_false : (b : Bool) → (b && false) ≡ false
and_false true = refl
and_false false = refl

representable : (n : ℕ) → n ≤ ext2_link_max → is_representable n ≡ true
representable n h = rw (lt→ltb n 65536 (omega arith), le→leb n 65000 h) refl

unrepresentable : (n : ℕ) → ext2_link_max < n → is_representable n ≡ false
unrepresentable n h = rw (lt→leb n 65000 h) (and_false (ltb n 65536))

assert-if {ℓ} : {A : Type ℓ} (b : Bool) (a : A) → (assert b >> ok a) ≡ (if b then ok a else panic)
assert-if true a = refl
assert-if false a = refl

-- The links of a directory are counted up to 65000. A directory with more gets 1, and a regular file
-- with more is refused.
pub set_link_count_from_subdirs-cases :
    (i : Inode) (n : ℕ)
    → ((n + i.i_links_count ≤ ext2_link_max)
        × (set_link_count_from_subdirs i n ≡ ok (record i { i_links_count = n + i.i_links_count })))
      ⊎ ((ext2_link_max < n + i.i_links_count)
          × (set_link_count_from_subdirs i n ≡ (
              if is_dir i
              then ok (record i { i_links_count = non_representable_link_count })
              else panic)))
unfolding set_link_count_from_subdirs
set_link_count_from_subdirs-cases i n = elim (dec_lt ext2_link_max (n + i.i_links_count)) [
  | no l ↦ inl (omega arith, rw (representable (n + i.i_links_count) (omega arith)) refl)
  | yes l ↦ inr (l, rw (unrepresentable (n + i.i_links_count) l) (assert-if (is_dir i) _))
]

mode_dir :
    (read_only dir : Bool)
    → not (
        ((if read_only then no_write_perms else default_perms)
            + (if dir then dir_flag else reg_flag))
          / dir_flag
          % 2
        == 0)
      ≡ dir
mode_dir true true = refl
mode_dir true false = refl
mode_dir false true = refl
mode_dir false false = refl

-- Where the ids of the user and of the group fit `u32`, the inode of a new file is a directory just where the
-- entry is one; it has the given owners, a single link, and no extents.
pub is_dir-init_from_dentry :
    (user_id group_id : ℕ) (i : Inode) (d : DentryRepresentation)
    → user_id < u32_size
    → group_id < u32_size
    → (j : Inode) × (init_from_dentry user_id group_id i d ≡ ok j)
      × (is_dir j ≡ d.is_dir)
      × (LoHi.get u32_of_u16_u16 j.uid ≡ user_id)
      × (LoHi.get u32_of_u16_u16 j.gid ≡ group_id)
      × (j.i_links_count ≡ 1)
      × (j.header.valid_entry_count ≡ 0)
unfolding init_from_dentry new_header
is_dir-init_from_dentry u g i d h k =
    let (uid, e, _, c) = get-set u32_of_u16_u16 u (omega arith) (omega arith) (omega arith) in
    let (gid, e', _, c') = get-set u32_of_u16_u16 g (omega arith) (omega arith) (omega arith) in
    (
      record i {
        uid = uid;
        gid = gid;
        i_mode = mode_from_dentry d;
        i_crtime = d.create_time;
        i_atime = d.access_time;
        i_mtime = d.mod_time;
        i_ctime = add32 d.mod_time 1;
        i_links_count = 1;
        i_flags = inode_uses_extents;
        header = record {
          magic = extent_magic;
          valid_entry_count = 0;
          max_entry_count = 4;
          depth = 0;
          generation = 0;
        };
      },
      rw (e, e') refl,
      mode_dir d.is_read_only d.is_dir,
      c,
      c',
      refl,
      refl,
    )
