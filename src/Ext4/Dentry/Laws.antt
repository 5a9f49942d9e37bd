-- ===== src/Ext4/Dentry/Laws.antt =====
-- The lengths of a new directory entry.
use ofs_convert_rs.Common.{
  ℕ, ◌+◌, ◌-◌, ◌%◌, ◌≤◌, ◌<◌, ◌≡◌, refl, List, length, ok, err, arith, replicate, length-append,
  length-replicate, le→ltb, lt→ltb, name_too_long, ◌⊎◌, inl, inr, Bool-cases, leb,
}
use ofs_convert_rs.Ext4.Dentry.{
  Ext4Dentry, new, aligned_length, serialize_name, name_max_len, header_len, max_len,
}

-- The recorded length is the least multiple of four that holds the header and the name, and what is
-- written, the header and the padded name, has that length.
pub record IsWellFormed (d : Ext4Dentry) : Type 0 where
  pub aligned : d.dentry_len % 4 ≡ 0
  pub holds_name : header_len + length d.name ≤ d.dentry_len
  pub tight : d.dentry_len < header_len + length d.name + 4
  pub bounded : d.dentry_len ≤ max_len
  pub name_length : d.name_len ≡ length d.name
  pub written : header_len + length (serialize_name d) ≡ d.dentry_len

aligned-lem :
    (n : ℕ) → (aligned_length n 4 % 4 ≡ 0) × (n ≤ aligned_length n 4) × (aligned_length n 4 < n + 4)
unfolding aligned_length
aligned-lem n = (ground arith, ground arith, ground arith)

aligned-header : (n : ℕ) → aligned_length (n + 8) 4 ≡ aligned_length n 4 + 8
unfolding aligned_length
aligned-header n = ground arith

new-short :
    (inode_no : ℕ) (name : List ℕ)
    → length name ≤ name_max_len
    → (d : Ext4Dentry) × (new inode_no name ≡ ok d)
      × (d.inode_no ≡ inode_no)
      × (d.name ≡ name)
      × IsWellFormed d
unfolding new serialize_name
new-short i name h =
    let n : ℕ = length name in
    let (a, b, c) = aligned-lem (n + 8) in
    let (p, q, r) = aligned-lem n in
    let made : new i name
        ≡ ok (record {
          inode_no = i;
          dentry_len = aligned_length (n + 8) 4;
          name_len = n;
          name = name;
        }) =
      rw
        (
          le→ltb 255 n h,
          lt→ltb (aligned_length (n + 8) 4) 65536 (omega arith),
          lt→ltb n 65536 (omega arith),
        )
        refl in
    let pad : ℕ = aligned_length n 4 - n in
    (
      record { inode_no = i; dentry_len = aligned_length (n + 8) 4; name_len = n; name = name },
      made,
      refl,
      refl,
      record {
        aligned = a;
        holds_name = omega arith;
        tight = omega arith;
        bounded = omega arith;
        name_length = refl;
        written = omega (
          arith,
          length-append name (replicate pad 0),
          length-replicate {0} {A = ℕ} pad 0,
          aligned-header n,
        );
      },
    )

new-too_long : (i : ℕ) (name : List ℕ) → name_max_len < length name → new i name ≡ err name_too_long
unfolding new
new-too_long i name h = ground arith

-- A name of at most 255 bytes makes a well-formed entry with the given inode number and the name; a longer
-- one is refused.
pub new-cases :
    (inode_no : ℕ) (name : List ℕ)
    → ((length name ≤ name_max_len)
        × ((d : Ext4Dentry) × (new inode_no name ≡ ok d)
            × (d.inode_no ≡ inode_no)
            × (d.name ≡ name)
            × IsWellFormed d))
      ⊎ ((name_max_len < length name) × (new inode_no name ≡ err name_too_long))
new-cases inode_no name = elim (Bool-cases (leb (length name) name_max_len)) [
  | inl e ↦
      let short : length name ≤ name_max_len = ground (arith, e) in
      inl (short, new-short inode_no name short)
  | inr e ↦
      let long : name_max_len < length name = ground (arith, e) in
      inr (long, new-too_long inode_no name long)
]
