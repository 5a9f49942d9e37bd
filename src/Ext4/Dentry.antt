-- ===== src/Ext4/Dentry.antt =====
-- src/ext4/dentry.rs: a directory entry. A name is the list of its bytes.
pub mod Laws
use ofs_convert_rs.Common.{
  ℕ, ◌+◌, ◌-◌, ◌%◌, List, ◌++◌, leb, ltb, ◌==◌, if◌then◌else◌, length, replicate, Outcome, ok, err,
  panic, ◌>>◌, assert, name_too_long, u16_size,
}

abbrev pub name_max_len : ℕ
name_max_len = 255

abbrev pub alignment : ℕ
alignment = 4

-- The size of `Ext4DentrySized`.
abbrev pub header_len : ℕ
header_len = 8

abbrev pub max_len : ℕ
max_len = name_max_len + 1 + header_len

-- `Ext4Dentry` with the fields of its `inner`.
pub record Ext4Dentry : Type 0 where
  pub inode_no : ℕ
  pub dentry_len : ℕ
  pub name_len : ℕ
  pub name : List ℕ

-- `num::Integer::next_multiple_of`
unfoldable pub aligned_length : ℕ → ℕ → ℕ
aligned_length n align = if n % align == 0 then n else n + (align - n % align)

-- The conversions to `u16` panic where they do not fit.
unfoldable pub new : ℕ → List ℕ → Outcome Ext4Dentry
new inode_no name =
    if ltb name_max_len (length name)
    then err name_too_long
    else (let dentry_len = aligned_length (length name + header_len) alignment in
        assert (ltb dentry_len u16_size)
        >> (assert (ltb (length name) u16_size)
            >> ok (record {
              inode_no = inode_no;
              dentry_len = dentry_len;
              name_len = length name;
              name = name;
            })))

unfoldable pub serialize_name : Ext4Dentry → List ℕ
unfolding aligned_length
serialize_name d = d.name ++ replicate (aligned_length (length d.name) alignment - length d.name) 0

-- `unwrap` panics where the sum does not fit `u16`.
unfoldable pub increment_dentry_len : Ext4Dentry → ℕ → Outcome Ext4Dentry
increment_dentry_len d num =
    assert (num % alignment == 0)
    >> (assert (ltb (d.dentry_len + num) u16_size)
        >> ok (record d { dentry_len = d.dentry_len + num }))
