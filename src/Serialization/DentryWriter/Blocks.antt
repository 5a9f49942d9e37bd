-- ===== src/Serialization/DentryWriter/Blocks.antt =====
-- What `DentryWriter` does while the storage has room for further blocks, and where padding panics.
use ofs_convert_rs.Common.{
  ℕ, suc, ◌+◌, ◌%◌, ◌≤◌, ◌<◌, ◌≡◌, refl, sym, ap, ◌∙◌, [], ◌∷◌, ltb, none, some, ok, arith,
  u16_size, u32_size, le→leb, lt→ltb, le→ltb, panic, Bool-cases, inl, inr, ◌==◌,
}
use ofs_convert_rs.Ext4.Extent.{Extent}
use ofs_convert_rs.Ext4.Extent.FromRanges.{new-lem}
use ofs_convert_rs.Ext4.Dentry.{Ext4Dentry, increment_dentry_len}
use ofs_convert_rs.Serialization.DentryWriter.{
  DentryWriter, Storage, pad, entries_of, pad_previous_dentry, remaining_space, write, new,
  allocate_block, add_dentry,
}
use ofs_convert_rs.Serialization.DentryWriter.Layout.{
  IsValid, IsEntry, total, grown, pad_previous_dentry-lem, write-IsValid,
}

-- The storage can still supply `room s` directory blocks, with the extents that record them.
pub record Supplies {S : Type 0} (storage : Storage S) (room : S → ℕ) : Type 0 where
  pub block :
      (s : S) (n : ℕ)
      → suc n ≤ room s
      → (p : ℕ × S) × (storage.allocate_one s ≡ ok p)
        × (p.0 < u32_size)
        × ((e : Extent) → (s' : S) × (storage.register_extent p.1 e ≡ ok s') × (n ≤ room s'))

module _ {S : Type 0} (storage : Storage S) (room : S → ℕ) (supplies : Supplies storage room) where
  -- A fresh block after the current one was padded.
  record Grows (w w' : DentryWriter S) (n : ℕ) : Type 0 where
    pub allocated : allocate_block storage w ≡ ok w'
    pub valid : IsValid w'
    pub same_size : w'.block_size ≡ w.block_size
    pub at_start : w'.position_in_block ≡ 0
    pub one_more : w'.block_count ≡ suc w.block_count
    pub room_left : n ≤ room w'.state

  allocate_block-Grows :
      (w : DentryWriter S) (d : Ext4Dentry) (n : ℕ)
      → IsValid w
      → w.block_size < u16_size
      → w.previous_dentry ≡ some d
      → w.block_count < u32_size
      → suc n ≤ room w.state
      → (w' : DentryWriter S) × Grows w w' n
  unfolding allocate_block total
  allocate_block-Grows w d n v h e c r =
      let (p, a, b, k) = supplies.block w.state n r in
      let (x, x_ok, _, _, _) =
        new-lem (record { start = p.0; end = suc p.0 }) w.block_count (omega arith) (omega arith) in
      let (s', s'_ok, left) = k x in
      let (padded, fills) = pad_previous_dentry-lem w d v h e in
      (
        record w {
          state = s';
          size = w.size + w.block_size;
          position_in_block = 0;
          block = p.0;
          previous_dentry = none;
          block_count = suc w.block_count;
          older = [];
          finished = (grown d (remaining_space w) ∷ w.older) ∷ w.finished;
        },
        record {
          allocated = rw (padded, a, lt→ltb w.block_count u32_size c, x_ok, s'_ok) refl;
          valid = record {
            size_aligned = v.size_aligned;
            big_enough = v.big_enough;
            position_aligned = refl;
            position = omega arith;
            filled = refl;
            started = λ e. refl;
            previous = λ d' e. absurd cc;
            full = (fills, v.full);
            count = ap (λ n. suc n) v.count;
            sizes = omega (arith, v.sizes);
          };
          same_size = refl;
          at_start = refl;
          one_more = refl;
          room_left = left;
        },
      )

  -- What `add_dentry` does on a valid writer: the entry is the last of the current block, or the first
  -- of a new one where it did not fit.
  pub record Adds (w w' : DentryWriter S) (d : Ext4Dentry) (more n : ℕ) : Type 0 where
    pub added : add_dentry storage w d ≡ ok w'
    pub valid : IsValid w'
    pub same_size : w'.block_size ≡ w.block_size
    pub last : w'.previous_dentry ≡ some d
    pub blocks : w'.block_count ≡ w.block_count + more
    pub room_left : n ≤ room w'.state

  pub add_dentry-same_block :
      (w : DentryWriter S) (d : Ext4Dentry)
      → IsValid w
      → IsEntry d
      → d.dentry_len ≤ remaining_space w
      → Adds w (write d w) d 0 (room w.state)
  unfolding add_dentry
  add_dentry-same_block w d v i h = record {
    added =
        rw (le→ltb (remaining_space w) d.dentry_len h, le→leb d.dentry_len (remaining_space w) h)
          refl;
    valid = write-IsValid w d v i h;
    same_size = refl;
    last = refl;
    blocks = omega arith;
    room_left = omega arith;
  }

  pub add_dentry-new_block :
      (w : DentryWriter S) (d d' : Ext4Dentry) (n : ℕ)
      → IsValid w
      → IsEntry d
      → w.block_size < u16_size
      → w.previous_dentry ≡ some d'
      → w.block_count < u32_size
      → suc n ≤ room w.state
      → remaining_space w < d.dentry_len
      → (w' : DentryWriter S) × Adds w w' d 1 n × (w'.position_in_block ≡ d.dentry_len)
  unfolding add_dentry
  add_dentry-new_block w d d' n v i h e c r l =
      let (g, p) = allocate_block-Grows w d' n v h e c r in
      let fits : d.dentry_len ≤ remaining_space g =
        omega (arith, p.same_size, p.at_start, v.big_enough, i.short) in
      (
        write d g,
        record {
          added =
              rw
                (
                  lt→ltb (remaining_space w) d.dentry_len l,
                  p.allocated,
                  le→leb d.dentry_len (remaining_space g) fits,
                )
                refl;
          valid = write-IsValid g d p.valid i fits;
          same_size = p.same_size;
          last = refl;
          blocks = omega (arith, p.one_more);
          room_left = p.room_left;
        },
        omega (arith, p.at_start),
      )

  -- The first block.
  pub new-IsValid :
      (s : S) (block_size n : ℕ)
      → 264 ≤ block_size
      → block_size % 4 ≡ 0
      → suc n ≤ room s
      → (w : DentryWriter S) × (new storage s block_size ≡ ok w)
        × IsValid w
        × (w.block_size ≡ block_size)
        × (w.position_in_block ≡ 0)
        × (w.block_count ≡ 1)
        × (n ≤ room w.state)
  unfolding new total
  new-IsValid s block_size n h a r =
      let (p, e, b, k) = supplies.block s n r in
      let (x, x_ok, _, _, _) =
        new-lem (record { start = p.0; end = suc p.0 }) 0 (omega arith) (omega arith) in
      let (s', s'_ok, left) = k x in
      (
        record {
          state = s';
          size = block_size;
          block_size = block_size;
          position_in_block = 0;
          block = p.0;
          previous_dentry = none;
          block_count = 1;
          link_count_from_subdirs = 0;
          older = [];
          finished = [];
        },
        rw (le→leb 264 block_size h, e, x_ok, s'_ok) refl,
        record {
          size_aligned = a;
          big_enough = h;
          position_aligned = refl;
          position = omega arith;
          filled = refl;
          started = λ e. refl;
          previous = λ d' e. absurd cc;
          full = tt;
          count = refl;
          sizes = omega arith;
        },
        refl,
        refl,
        refl,
        left,
      )

pad-overflow : (d : Ext4Dentry) (n : ℕ) → u16_size ≤ d.dentry_len + n → pad n (some d) ≡ panic
unfolding increment_dentry_len
pad-overflow d n h = rw (le→ltb (d.dentry_len + n) u16_size h) (elim (Bool-cases (ltb n u16_size)) [
  | inl t ↦ elim (Bool-cases (n % 4 == 0)) [ inl z ↦ rw (t, z) refl | inr z ↦ rw (t, z) refl ]
  | inr t ↦ rw t refl
])

-- A block of 64 KiB that holds one entry cannot be padded: its length does not fit the field.
pub pad_previous_dentry-panics :
    {S : Type 0} (w : DentryWriter S) (d : Ext4Dentry)
    → IsValid w
    → w.block_size ≡ u16_size
    → w.previous_dentry ≡ some d
    → w.older ≡ []
    → pad_previous_dentry w ≡ panic
unfolding pad_previous_dentry total
pad_previous_dentry-panics w d v h e o =
    let f : d.dentry_len + total w.older ≡ w.position_in_block =
      ap (λ p. total (entries_of p w.older)) (sym e) ∙ v.filled in
    let t : total w.older ≡ 0 = ap total o in
    rw (e, pad-overflow d (remaining_space w) (omega (arith, v.position))) refl
