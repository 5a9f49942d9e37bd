-- ===== src/Ext4/BlockGroup/Marks.antt =====
-- Which bits a new block group has set.
use native.Mathlib.Decide.{ℕ_discrete}
use ofs_convert_rs.Common.{
  ℕ, zero, suc, ◌+◌, ◌-◌, ◌≤◌, ◌≡◌, ◌≢◌, refl, sym, subst, ap, ◌∙◌, Bool, true, false, ◌&&◌, ◌||◌,
  List, leb, ltb, length, ok, arith, le→leb, ◌*◌,
}
use ofs_convert_rs.Ranges.{Range, usize_max}
use ofs_convert_rs.Ranges.Cover.{contains}
use ofs_convert_rs.Bitmap
use ofs_convert_rs.Bitmap.{Bitmap}
use ofs_convert_rs.Bitmap.Laws.{IsBytes, bit, set_bit-Changes, clear_all-lem}
use ofs_convert_rs.Ext4.GroupDescriptor.{ConstructionInfo}
use ofs_convert_rs.Ext4.BlockGroup.{set_range, init_data_block_bitmap, mark_relative_range_as_used}

-- The bits of a range are set, and the others are as they were.
pub record Marks (b : Bitmap) (r : Range) (b' : Bitmap) : Type 0 where
  pub same_length : length b' ≡ length b
  pub bytes : IsBytes b'
  pub bits : (j : ℕ) → bit b' j ≡ (contains r j || bit b j)

marks-step :
    (i n j : ℕ) (here before after : Bool)
    → (i ≡ j → here ≡ true)
    → (i ≢ j → here ≡ before)
    → after ≡ (leb (suc i) j && ltb j (suc i + n) || here)
    → after ≡ (leb i j && ltb j (i + suc n) || before)
marks-step i n j here before after h k e = elim (ℕ_discrete i j) [
  | yes p ↦ ground (arith, h p)
  | no p ↦ ground (arith, k p)
]

pub set_range-Marks :
    (i n : ℕ) (b : Bitmap)
    → IsBytes b
    → i + n ≤ Bitmap.len b
    → (b' : Bitmap) × (set_range i n b ≡ ok b') × Marks b (record { start = i; end = i + n }) b'
unfolding set_range
set_range-Marks i zero b v h =
    (b, refl, record { same_length = refl; bytes = v; bits = λ j. ground arith })
set_range-Marks i (suc n) b v h =
    let (b₁, e, c) = set_bit-Changes b i v (omega arith) in
    let (b', e', m) = set_range-Marks (suc i) n b₁ c.bytes (omega (arith, c.same_length)) in
    (
      b',
      rw e e',
      record {
        same_length = m.same_length ∙ c.same_length;
        bytes = m.bytes;
        bits = λ j.
            marks-step i n j (bit b₁ j) (bit b j) (bit b' j) (λ p. ap (bit b₁) (sym p) ∙ c.changed)
              (c.kept j) (m.bits j);
      },
    )

bits-join :
    (j overhead blocks size size' : ℕ) (last first before : Bool)
    → last ≡ (leb blocks j && ltb j (blocks + (size - blocks)) || first)
    → first ≡ (leb 0 j && ltb j (0 + overhead) || before)
    → before ≡ false
    → size ≡ size'
    → blocks ≤ size'
    → last ≡ (leb blocks j && ltb j size' || ltb j overhead)
bits-join j overhead blocks size size' last first before a b c s k =
    let e : blocks + (size - blocks) ≡ size' = omega arith in ground (arith, c)

-- The data block bitmap of a new block group has exactly the bits set that stand for the blocks of its
-- metadata and for blocks behind its end, if the bitmap has a bit for each of these.
pub bit-init_data_block_bitmap :
    (bitmap_bytes : List ℕ) (info : ConstructionInfo)
    → length bitmap_bytes * 8 ≤ usize_max
    → info.overhead ≤ length bitmap_bytes * 8
    → info.blocks_count ≤ length bitmap_bytes * 8
    → (b : Bitmap) × (init_data_block_bitmap bitmap_bytes info ≡ ok b)
      × (length b ≡ length bitmap_bytes)
      × ((j : ℕ)
          → bit b j
            ≡ (leb info.blocks_count j && ltb j (length bitmap_bytes * 8) || ltb j info.overhead))
unfolding init_data_block_bitmap Bitmap.new
bit-init_data_block_bitmap bytes info fits h k =
    let (same, zeroed, clear) = clear_all-lem bytes in
    let (b₁, e, m) =
      set_range-Marks 0 info.overhead (Bitmap.clear_all bytes) zeroed (omega (arith, same)) in
    let size : length b₁ ≡ length bytes = m.same_length ∙ same in
    let (b₂, e', m') =
      set_range-Marks info.blocks_count (Bitmap.len b₁ - info.blocks_count) b₁ m.bytes
        (omega (arith, size)) in
    (
      b₂,
      rw (le→leb (length bytes * 8) usize_max fits, e, e') refl,
      m'.same_length ∙ size,
      λ j.
          bits-join j info.overhead info.blocks_count (length b₁ * 8) (length bytes * 8) (bit b₂ j)
            (bit b₁ j) (bit (Bitmap.clear_all bytes) j) (m'.bits j) (m.bits j) (clear j)
            (ap (λ n. n * 8) size) k,
    )

-- Marking a range of blocks as used sets the bits of that range and no others.
pub mark_relative_range_as_used-Marks :
    (b : Bitmap) (range : Range)
    → IsBytes b
    → range.start ≤ range.end
    → range.end ≤ Bitmap.len b
    → (b' : Bitmap) × (mark_relative_range_as_used b range ≡ ok b') × Marks b range b'
unfolding mark_relative_range_as_used
mark_relative_range_as_used-Marks b range v h k =
    let n : ℕ = range.end - range.start in
    let end : range.start + n ≡ range.end = omega arith in
    let (b', e, m) = set_range-Marks range.start n b v (omega arith) in
    (b', e, subst (λ x. Marks b (record { start = range.start; end = x }) b') end m)
