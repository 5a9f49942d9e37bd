-- ===== src/Serialization/DentryWriter.antt =====
-- src/serialization/ext4_deserializer.rs: `DentryWriter`, which lays the entries of one directory out
-- in blocks. The allocator and the inode's extent tree are the interface `Storage`. `debug_assert!` is
-- checked, as in a debug build.
pub mod Layout
pub mod Blocks
use ofs_convert_rs.Common.{
  ℕ, suc, ◌+◌, ◌-◌, Option, none, some, List, [], ◌∷◌, ltb, leb, if◌then◌else◌, Outcome, ok, err,
  ◌>>=◌, ◌>>◌, assert, ensure, u16_size, u32_size, too_many_files,
}
use ofs_convert_rs.Ext4.Extent
use ofs_convert_rs.Ext4.Extent.{Extent}
use ofs_convert_rs.Ext4.Dentry
use ofs_convert_rs.Ext4.Dentry.{Ext4Dentry, increment_dentry_len}

-- What a writer uses of `Allocator` and of `Ext4Fs`, on a state that holds both and the inode's tree.
pub record Storage (S : Type 0) : Type 0 where
  pub allocate_one : S → Outcome (ℕ × S)
  pub register_extent : S → Extent → Outcome S

-- The block at `block` holds `previous_dentry` and, newest first, `older`; `finished` holds the blocks
-- before it, newest first. `size` is the inode's.
pub record DentryWriter (S : Type 0) : Type 0 where
  pub state : S
  pub size : ℕ
  pub block_size : ℕ
  pub position_in_block : ℕ
  pub block : ℕ
  pub previous_dentry : Option Ext4Dentry
  pub block_count : ℕ
  pub link_count_from_subdirs : ℕ
  pub older : List Ext4Dentry
  pub finished : List (List Ext4Dentry)

abbrev pub entries_of : Option Ext4Dentry → List Ext4Dentry → List Ext4Dentry
entries_of none es = es
entries_of (some d) es = d ∷ es

abbrev pub pad : ℕ → Option Ext4Dentry → Outcome (Option Ext4Dentry)
pad remaining none = ok none
pad remaining (some d) =
    assert (ltb remaining u16_size) >> (increment_dentry_len d remaining >>= λ d'. ok (some d'))

module _ {S : Type 0} where
  abbrev pub remaining_space : DentryWriter S → ℕ
  remaining_space w = w.block_size - w.position_in_block

  abbrev pub entries : DentryWriter S → List Ext4Dentry
  entries w = entries_of w.previous_dentry w.older

  unfoldable pub increment_link_count : DentryWriter S → DentryWriter S
  increment_link_count w = record w { link_count_from_subdirs = suc w.link_count_from_subdirs }

  unfoldable pub pad_previous_dentry : DentryWriter S → Outcome (DentryWriter S)
  pad_previous_dentry w =
      pad (remaining_space w) w.previous_dentry >>= λ p. ok (record w { previous_dentry = p })

  -- `drop`, up to the link count that it hands to the inode.
  unfoldable pub drop : DentryWriter S → Outcome (List (List Ext4Dentry) × ℕ)
  unfolding pad_previous_dentry
  drop w = pad_previous_dentry w >>= λ w'. ok (entries w' ∷ w'.finished, w'.link_count_from_subdirs)

  abbrev pub write : Ext4Dentry → DentryWriter S → DentryWriter S
  write d w = record w {
    position_in_block = w.position_in_block + d.dentry_len;
    previous_dentry = some d;
    older = entries w;
  }

  module _ (storage : Storage S) where
    unfoldable pub new : S → ℕ → Outcome (DentryWriter S)
    new s block_size =
        assert (leb Dentry.max_len block_size)
        >> (storage.allocate_one s >>= λ (block, s₁).
            Extent.new (record { start = block; end = suc block }) 0 >>= λ extent.
            storage.register_extent s₁ extent >>= λ s₂. ok (record {
              state = s₂;
              size = block_size;
              block_size = block_size;
              position_in_block = 0;
              block = block;
              previous_dentry = none;
              block_count = 1;
              link_count_from_subdirs = 0;
              older = [];
              finished = [];
            }))

    unfoldable pub allocate_block : DentryWriter S → Outcome (DentryWriter S)
    unfolding pad_previous_dentry
    allocate_block w = pad_previous_dentry w >>= λ w₁.
        storage.allocate_one w₁.state >>= λ (block, s₁).
        ensure (ltb w₁.block_count u32_size) too_many_files
        >> (Extent.new (record { start = block; end = suc block }) w₁.block_count >>= λ extent.
            storage.register_extent s₁ extent >>= λ s₂. ok (record w₁ {
              state = s₂;
              size = w₁.size + w₁.block_size;
              position_in_block = 0;
              block = block;
              previous_dentry = none;
              block_count = suc w₁.block_count;
              older = [];
              finished = entries w₁ ∷ w₁.finished;
            }))

    unfoldable pub add_dentry : DentryWriter S → Ext4Dentry → Outcome (DentryWriter S)
    unfolding allocate_block
    add_dentry w d =
        (if ltb (remaining_space w) d.dentry_len then allocate_block w else ok w) >>= λ w'.
        assert (leb d.dentry_len (remaining_space w')) >> ok (write d w')

    -- The calls of `add_dentry` for the entries of a directory.
    unfoldable pub add_dentries : DentryWriter S → List Ext4Dentry → Outcome (DentryWriter S)
    unfolding add_dentry
    add_dentries w [] = ok w
    add_dentries w (d ∷ ds) = add_dentry w d >>= λ w'. add_dentries w' ds
