-- ===== src/Ext4/ExtentTree.antt =====
-- src/ext4/extent.rs: the header of a level of an extent tree, and appending to a level.
pub mod Append
use ofs_convert_rs.Common.{
  ℕ, zero, suc, ◌+◌, ◌-◌, ◌/◌, ◌^◌, div_ceil, Bool, true, false, not, ◌&&◌, ◌||◌, List, ltb, leb,
  ◌==◌, set, length, if◌then◌else◌, Outcome, ok, err, ◌>>=◌, ◌>>◌, assert, extent_level_full,
}
use ofs_convert_rs.Ext4.Extent.{Extent}

abbrev pub extent_tree_leaf_depth : ℕ
extent_tree_leaf_depth = 0

abbrev pub extent_magic : ℕ
extent_magic = 0xF30A

pub record ExtentIdx : Type 0 where
  pub logical_start : ℕ
  pub leaf_lo : ℕ
  pub leaf_hi : ℕ

pub record ExtentHeader : Type 0 where
  pub magic : ℕ
  pub valid_entry_count : ℕ
  pub max_entry_count : ℕ
  pub depth : ℕ
  pub generation : ℕ

-- The union, with what its last write was.
pub data ExtentTreeElement : Type 0 where
  unset : ExtentTreeElement
  idx_of : ExtentIdx → ExtentTreeElement
  extent_of : Extent → ExtentTreeElement

-- `ExtentIdx::new`
abbrev pub new_idx : ℕ → ℕ → ExtentIdx
new_idx logical_start physical_start = record {
  logical_start = logical_start;
  leaf_lo = physical_start;
  leaf_hi = 0;
}

-- `ExtentHeader::new`
unfoldable pub new_header : ℕ → Outcome ExtentHeader
new_header all_entry_count =
    assert (ltb 1 all_entry_count)
    >> ok (record {
      magic = extent_magic;
      valid_entry_count = 0;
      max_entry_count = all_entry_count - 1;
      depth = 0;
      generation = 0;
    })

unfoldable pub from_child : ExtentHeader → ℕ → Outcome ExtentHeader
unfolding new_header
from_child parent all_entry_count =
    new_header all_entry_count >>= λ h. ok (record h { depth = parent.depth + 1 })

unfoldable pub from_parent : ExtentHeader → ℕ → Outcome ExtentHeader
unfolding new_header
from_parent parent all_entry_count =
    assert (ltb 0 parent.depth)
    >> (new_header all_entry_count >>= λ h. ok (record h { depth = parent.depth - 1 }))

abbrev pub is_leaf : ExtentHeader → Bool
is_leaf h = h.depth == extent_tree_leaf_depth

abbrev pub is_full : ExtentHeader → Bool
is_full h = h.valid_entry_count == h.max_entry_count

unfoldable pub is_valid : ExtentHeader → Bool
is_valid h =
    leb h.valid_entry_count h.max_entry_count && (h.depth == 0 || ltb 0 h.valid_entry_count)

-- `entries` are the elements behind the header, the first of `all_entries`.
pub record ExtentTreeLevel : Type 0 where
  pub header : ExtentHeader
  pub entries : List ExtentTreeElement

-- Indexing outside `all_entries` panics.
unfoldable pub append_entry : ExtentTreeLevel → ExtentTreeElement → Outcome ExtentTreeLevel
append_entry l entry =
    if is_full l.header
    then err extent_level_full
    else assert (ltb l.header.valid_entry_count (length l.entries))
      >> ok (record {
        header = record l.header { valid_entry_count = suc l.header.valid_entry_count };
        entries = set l.entries l.header.valid_entry_count entry;
      })

unfoldable pub append_extent : ExtentTreeLevel → Extent → Outcome ExtentTreeLevel
append_extent l extent = assert (is_leaf l.header) >> append_entry l (extent_of extent)

unfoldable pub append_extent_idx : ExtentTreeLevel → ExtentIdx → Outcome ExtentTreeLevel
append_extent_idx l idx = assert (not (is_leaf l.header)) >> append_entry l (idx_of idx)

-- `size_of::<ExtentTreeElement>()`
abbrev pub element_size : ℕ
element_size = 12

-- The loop of `required_block_count` over the levels from `level` on.
unfoldable pub blocks_in_levels : (rounds level extent_count extents_per_block : ℕ) → ℕ
blocks_in_levels zero level n per_block = 0
blocks_in_levels (suc rounds) level n per_block =
    div_ceil n (per_block ^ level) + blocks_in_levels rounds (suc level) n per_block

-- `level_log` is the logarithm of `extent_count / 4`, rounded up, that the source computes on `f64`.
unfoldable pub required_block_count : (level_log : ℕ → ℕ → ℕ) (extent_count block_size : ℕ) → ℕ
unfolding blocks_in_levels
required_block_count level_log extent_count block_size =
    if extent_count == 0
    then 0
    else (let extents_per_block = block_size / element_size - 1 in
        blocks_in_levels (level_log extent_count extents_per_block) 1 extent_count
          extents_per_block)
