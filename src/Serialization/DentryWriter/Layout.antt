-- ===== src/Serialization/DentryWriter/Layout.antt =====
-- The invariant of `DentryWriter`: the entries of the current block end at the position, and those of
-- every finished block fill it.
use ofs_convert_rs.Common.{
  ℕ, suc, ◌+◌, ◌-◌, ◌*◌, ◌%◌, ◌≤◌, ◌<◌, ◌≡◌, refl, sym, subst, ◌∙◌, ap, List, [], ◌∷◌, length, ◌==◌,
  Option, none, some, ok, arith, u16_size, lt→ltb, true,
}
use ofs_convert_rs.Ext4.Dentry.{Ext4Dentry, increment_dentry_len}
use ofs_convert_rs.Serialization.DentryWriter.{
  DentryWriter, pad, entries_of, pad_previous_dentry, drop, entries, remaining_space, write,
}

-- The sum of the lengths of the entries.
unfoldable pub total : List Ext4Dentry → ℕ
total [] = 0
total (d ∷ ds) = d.dentry_len + total ds

abbrev pub All {ℓ} : {A : Type ℓ} → (A → Type 0) → List A → Type 0
All P [] = Unit
All P (x ∷ xs) = P x × All P xs

-- A block that entries of aligned lengths fill.
abbrev pub Fills : ℕ → List Ext4Dentry → Type 0
Fills block_size es = total es ≡ block_size

-- The lengths that `Ext4Dentry::new` gives.
pub record IsEntry (d : Ext4Dentry) : Type 0 where
  pub aligned : d.dentry_len % 4 ≡ 0
  pub nonempty : 8 ≤ d.dentry_len
  pub short : d.dentry_len ≤ 264

pub record IsValid {S : Type 0} (w : DentryWriter S) : Type 0 where
  pub size_aligned : w.block_size % 4 ≡ 0
  pub big_enough : 264 ≤ w.block_size
  pub position_aligned : w.position_in_block % 4 ≡ 0
  pub position : w.position_in_block ≤ w.block_size
  pub filled : total (entries w) ≡ w.position_in_block
  pub started : (w.previous_dentry ≡ none) → w.position_in_block ≡ 0
  pub previous : (d : Ext4Dentry) → (w.previous_dentry ≡ some d) → d.dentry_len ≤ 264
  pub full : All (Fills w.block_size) w.finished
  pub count : w.block_count ≡ suc (length w.finished)
  pub sizes : w.size ≡ w.block_count * w.block_size

is_zero : (m : ℕ) → m ≡ 0 → (m == 0) ≡ true
is_zero m e = ground arith

increment-lem :
    (d : Ext4Dentry) (n : ℕ)
    → n % 4 ≡ 0
    → d.dentry_len + n < u16_size
    → increment_dentry_len d n ≡ ok (record d { dentry_len = d.dentry_len + n })
unfolding increment_dentry_len
increment-lem d n h k = rw (is_zero (n % 4) h, lt→ltb (d.dentry_len + n) u16_size k) refl

abbrev pub entry_len : Option Ext4Dentry → ℕ
entry_len none = 0
entry_len (some d) = d.dentry_len

abbrev pub grown : Ext4Dentry → ℕ → Ext4Dentry
grown d n = record d { dentry_len = d.dentry_len + n }

pad-lem :
    (d : Ext4Dentry) (n : ℕ)
    → n % 4 ≡ 0
    → d.dentry_len + n < u16_size
    → pad n (some d) ≡ ok (some (grown d n))
pad-lem d n h k = rw (lt→ltb n u16_size (omega arith), increment-lem d n h k) refl

aligned_- : (a b : ℕ) → a % 4 ≡ 0 → b % 4 ≡ 0 → b ≤ a → (a - b) % 4 ≡ 0
aligned_- a b h k l = omega arith

total-grown :
    (d : Ext4Dentry) (n : ℕ) (es : List Ext4Dentry) → total (grown d n ∷ es) ≡ total (d ∷ es) + n
unfolding total
total-grown d n es = omega arith

module _ {S : Type 0} where
  -- Padding fills the current block, once it holds an entry.
  pub pad_previous_dentry-lem :
      (w : DentryWriter S) (d : Ext4Dentry)
      → IsValid w
      → w.block_size < u16_size
      → w.previous_dentry ≡ some d
      → (pad_previous_dentry w
          ≡ ok (record w { previous_dentry = some (grown d (remaining_space w)) }))
        × Fills w.block_size (grown d (remaining_space w) ∷ w.older)
  unfolding pad_previous_dentry total
  pad_previous_dentry-lem w d v h e =
      let a : remaining_space w % 4 ≡ 0 =
        aligned_- w.block_size w.position_in_block v.size_aligned v.position_aligned v.position in
      let f : d.dentry_len + total w.older ≡ w.position_in_block =
        ap (λ p. total (entries_of p w.older)) (sym e) ∙ v.filled in
      let p : w.position_in_block ≤ w.block_size = v.position in
      let l : d.dentry_len + remaining_space w < u16_size = omega arith in
      (rw (e, pad-lem d (remaining_space w) a l) refl, omega arith)

  -- An entry that fits keeps the invariant.
  pub write-IsValid :
      (w : DentryWriter S) (d : Ext4Dentry)
      → IsValid w
      → IsEntry d
      → d.dentry_len ≤ remaining_space w
      → IsValid (write d w)
  unfolding total
  write-IsValid w d v i h = record {
    size_aligned = v.size_aligned;
    big_enough = v.big_enough;
    full = v.full;
    count = v.count;
    sizes = v.sizes;
    position_aligned = omega (arith, v.position_aligned, i.aligned);
    position = omega (arith, v.position);
    filled = ap (λ n. d.dentry_len + n) v.filled ∙ omega arith;
    started = λ e. absurd cc;
    previous = λ d' e. subst (λ o. entry_len o ≤ 264) e i.short;
  }

  -- A writer that is dropped has filled its last block.
  pub drop-lem :
      (w : DentryWriter S) (d : Ext4Dentry)
      → IsValid w
      → w.block_size < u16_size
      → w.previous_dentry ≡ some d
      → (blocks : List (List Ext4Dentry)) × (drop w ≡ ok (blocks, w.link_count_from_subdirs))
        × (length blocks ≡ w.block_count)
        × All (Fills w.block_size) blocks
  unfolding drop
  drop-lem w d v h e =
      let (p, f) = pad_previous_dentry-lem w d v h e in
      ((grown d (remaining_space w) ∷ w.older) ∷ w.finished, rw p refl, sym v.count, (f, v.full))
