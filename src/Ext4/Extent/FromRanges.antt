-- ===== src/Ext4/Extent/FromRanges.antt =====
-- `Extent::from_ranges`: the extents hold the blocks of the ranges, in order.
use ofs_convert_rs.Common.{
  count_up, count_up-append, ℕ, zero, suc, ◌+◌, ◌-◌, ◌^◌, ◌≤◌, ◌<◌, min, List, [], ◌∷◌, ◌++◌, ◌≡◌,
  refl, sym, ◌∙◌, ap, subst, ok, err, ◌>>=◌, arith, u32_size, u16_size, file_too_large, lt→ltb,
  le→ltb, lt→leb, le→leb,
}
use mathlib.Core.List.{append_assoc}
use native.Mathlib.Decide.{dec_lt}
use ofs_convert_rs.LoHi.{u64_of_u32_u16}
use ofs_convert_rs.LoHi.Laws.{get-set}
use ofs_convert_rs.Ranges.{Range, len}
use ofs_convert_rs.Ext4.Extent.{
  Extent, max_len, push_front, new, start, split_range, from_ranges_at, from_ranges,
}

-- The blocks of a list of ranges, and those of a list of extents, in order.
abbrev pub range_blocks : List Range → List ℕ
range_blocks [] = []
range_blocks (r ∷ rs) = count_up r.start (len r) ++ range_blocks rs

abbrev pub extent_blocks : List Extent → List ℕ
extent_blocks [] = []
extent_blocks (e ∷ es) = count_up (start e) e.len ++ extent_blocks es

-- The number of blocks.
abbrev pub total : List Range → ℕ
total [] = 0
total (r ∷ rs) = len r + total rs

-- The extents follow one another in the file from the logical block `l` to `l'`, each of them of an
-- allowed length.
abbrev pub Follows : ℕ → List Extent → ℕ → Type 0
Follows l [] l' = l ≡ l'
Follows l (e ∷ es) l' =
    (e.logical_start ≡ l) × (1 ≤ e.len) × (e.len ≤ max_len) × Follows (l + e.len) es l'

abbrev pub max_block : ℕ
max_block = 2 ^ 48

-- `new` keeps the blocks of its range.
pub new-lem :
    (r : Range) (l : ℕ)
    → len r ≤ max_len
    → r.start < max_block
    → (e : Extent) × (new r l ≡ ok e)
      × (e.logical_start ≡ l)
      × (e.len ≡ len r)
      × (start e ≡ r.start)
unfolding new start
new-lem r l h k =
    let (halves, e, _, g) =
      get-set u64_of_u32_u16 r.start (omega arith) (omega arith) (omega arith) in
    (
      record { logical_start = l; len = len r; physical_start = halves },
      rw (lt→ltb (len r) u16_size (omega arith), e),
      refl,
      refl,
      g,
    )

Follows-nil : (l l' : ℕ) → l ≡ l' → Follows l [] l'
Follows-nil l l' e = e

-- A round of the loop with blocks left, and the extent that it makes.
split_range-step :
    (fuel s e l n : ℕ) (x : Extent)
    → s < e
    → min (e - s) max_len ≡ n
    → new (record { start = s; end = s + n }) l ≡ ok x
    → l + n < u32_size
    → split_range (suc fuel) s e l ≡ (split_range fuel (s + n) e (l + n) >>= push_front x)
unfolding split_range
split_range-step fuel s e l n x h m a b =
    rw (lt→leb e s h, split_range) (rw (m, a, lt→ltb (l + n) u32_size b))

-- A round, with what the rest of the loop returns.
split_range-join :
    (fuel s e l l' m rest n : ℕ) (x : Extent) (es : List Extent)
    → split_range (suc fuel) s e l ≡ (split_range fuel (s + m) e (l + m) >>= push_front x)
    → x.logical_start ≡ l
    → x.len ≡ m
    → start x ≡ s
    → 1 ≤ m
    → m ≤ max_len
    → m + rest ≡ n
    → split_range fuel (s + m) e (l + m) ≡ ok (es, l')
    → extent_blocks es ≡ count_up (s + m) rest
    → Follows (l + m) es l'
    → (es' : List Extent) × (split_range (suc fuel) s e l ≡ ok (es', l'))
      × (extent_blocks es' ≡ count_up s n)
      × Follows l es' l'
split_range-join fuel s e l l' m rest n x es st xl xn xs p q j r b w = (
  x ∷ es,
  st ∙ rw r,
  rw (xs, xn, b) (sym (count_up-append s m rest) ∙ ap (count_up s) j),
  (xl, rw xn p, rw xn q, rw xn w),
)

split_range-stop :
    (fuel s e l l' : ℕ)
    → s ≡ e
    → l ≡ l'
    → (es : List Extent) × (split_range (suc fuel) s e l ≡ ok (es, l'))
      × (extent_blocks es ≡ count_up s 0)
      × Follows l es l'
unfolding split_range
split_range-stop fuel s e l l' p q =
    ([], rw (le→leb e s (omega arith), split_range) (rw q), refl, q)

-- What the loop over one range of `n` blocks returns, where the file does not grow too large.
split_range-lem :
    (fuel s e n l l' : ℕ)
    → n < fuel
    → s + n ≡ e
    → l + n ≡ l'
    → e ≤ max_block
    → l' < u32_size
    → (es : List Extent) × (split_range fuel s e l ≡ ok (es, l'))
      × (extent_blocks es ≡ count_up s n)
      × Follows l es l'
split_range-lem zero s e n l l' f p q h k = absurd (omega arith)
split_range-lem (suc fuel) s e zero l l' f p q h k =
    split_range-stop fuel s e l l' (omega arith) (omega arith)
split_range-lem (suc fuel) s e (suc n) l l' f p q h k =
    let m : ℕ = min (suc n) max_len in
    let rest : ℕ = suc n - m in
    let d : s + m - s ≡ m = omega arith in
    let (x, a, xl, xn, xs) =
      new-lem (record { start = s; end = s + m }) l (omega arith) (omega arith) in
    let (es, r, b, w) =
      split_range-lem fuel (s + m) e rest (l + m) l' (omega arith) (omega arith) (omega arith) h
        k in
    split_range-join fuel s e l l' m rest (suc n) x es
      (split_range-step fuel s e l m x (omega arith) (omega arith) a (omega arith)) xl (xn ∙ d) xs
      (omega arith) (omega arith) (omega arith) r b w

split_range-fails :
    (fuel s e l n : ℕ) (x : Extent)
    → s < e
    → min (e - s) max_len ≡ n
    → new (record { start = s; end = s + n }) l ≡ ok x
    → u32_size ≤ l + n
    → split_range (suc fuel) s e l ≡ err file_too_large
unfolding split_range
split_range-fails fuel s e l n x h m a b =
    rw (lt→leb e s h, split_range) (rw (m, a, le→ltb (l + n) u32_size b))

split_range-too_large :
    (fuel s e n l : ℕ)
    → n < fuel
    → s + n ≡ e
    → e ≤ max_block
    → l < u32_size
    → u32_size ≤ l + n
    → split_range fuel s e l ≡ err file_too_large
split_range-too_large zero s e n l f p h k b = absurd (omega arith)
split_range-too_large (suc fuel) s e n l f p h k b =
    let m : ℕ = min n max_len in
    let d : s + m - s ≡ m = omega arith in
    let (x, a, _, _, _) =
      new-lem (record { start = s; end = s + m }) l (omega arith) (omega arith) in
    elim (dec_lt (l + m) u32_size) [
      | no c ↦ split_range-fails fuel s e l m x (omega arith) (omega arith) a (omega arith)
      | yes c ↦
          split_range-step fuel s e l m x (omega arith) (omega arith) a c
          ∙ ap (λ r. r >>= push_front x)
              (split_range-too_large fuel (s + m) e (n - m) (l + m) (omega arith) (omega arith) h c
                (omega arith))
    ]

-- Ranges of blocks that the physical address of an extent can hold.
abbrev pub AreBlocks : List Range → Type 0
AreBlocks [] = Unit {0}
AreBlocks (r ∷ rs) = (r.start ≤ r.end) × (r.end ≤ max_block) × AreBlocks rs

extent_blocks-append :
    (es fs : List Extent) → extent_blocks (es ++ fs) ≡ extent_blocks es ++ extent_blocks fs
extent_blocks-append [] fs = refl
extent_blocks-append (e ∷ es) fs =
    ap (λ t. count_up (start e) e.len ++ t) (extent_blocks-append es fs)
    ∙ sym (append_assoc (count_up (start e) e.len) (extent_blocks es) (extent_blocks fs))

Follows-append :
    (l m n : ℕ) (es fs : List Extent) → Follows l es m → Follows m fs n → Follows l (es ++ fs) n
Follows-append l m n [] fs a b = rw a b
Follows-append l m n (e ∷ es) fs a b = (a.0, a.1, a.2, Follows-append (l + e.len) m n es fs a.3 b)

from_ranges_at-lem :
    (l : ℕ) (rs : List Range)
    → AreBlocks rs
    → l + total rs < u32_size
    → (es : List Extent) × (from_ranges_at l rs ≡ ok es)
      × (extent_blocks es ≡ range_blocks rs)
      × Follows l es (l + total rs)
unfolding from_ranges_at
from_ranges_at-lem l [] a h = ([], refl, refl, omega arith)
from_ranges_at-lem l (r ∷ rs) a h =
    let (es, e, b, w) =
      split_range-lem (len r + 1) r.start r.end (len r) l (l + len r) (omega arith) (omega arith)
        refl a.1 (omega arith) in
    let (fs, q, c, v) = from_ranges_at-lem (l + len r) rs a.2 (omega arith) in
    (
      es ++ fs,
      rw (e, q),
      rw (extent_blocks-append es fs, b, c),
      Follows-append l (l + len r) (l + (len r + total rs)) es fs w
          (subst (Follows (l + len r) fs) (omega arith) v),
    )

from_ranges_at-too_large :
    (l : ℕ) (rs : List Range)
    → AreBlocks rs
    → l < u32_size
    → u32_size ≤ l + total rs
    → from_ranges_at l rs ≡ err file_too_large
unfolding from_ranges_at
from_ranges_at-too_large l [] a k h = absurd (omega arith)
from_ranges_at-too_large l (r ∷ rs) a k h = elim (dec_lt (l + len r) u32_size) [
  | yes c ↦
      let (es, e, _, _) =
        split_range-lem (len r + 1) r.start r.end (len r) l (l + len r) (omega arith) (omega arith)
          refl a.1 c in
      rw (e, from_ranges_at-too_large (l + len r) rs a.2 c (omega arith))
  | no c ↦ rw (
      split_range-too_large (len r + 1) r.start r.end (len r) l (omega arith) (omega arith) a.1 k
        (omega arith))
]

-- On ranges of blocks below 2 ^ 48 with fewer than 2 ^ 32 blocks in all, `from_ranges` ends and returns
-- extents that hold the blocks of the ranges in their order, that follow one another in the file from
-- its start, and that are each between 1 and 65535 blocks long.
pub from_ranges-blocks :
    (rs : List Range)
    → AreBlocks rs
    → total rs < u32_size
    → (es : List Extent) × (from_ranges rs ≡ ok es)
      × (extent_blocks es ≡ range_blocks rs)
      × Follows 0 es (total rs)
unfolding from_ranges
from_ranges-blocks rs a h =
    let (es, e, b, w) = from_ranges_at-lem 0 rs a (omega arith) in
    (es, e, b, subst (Follows 0 es) (omega arith) w)

-- On ranges of blocks below 2 ^ 48 with 2 ^ 32 blocks or more in all, `from_ranges` reports that the
-- file is too large.
pub from_ranges-too_large :
    (rs : List Range) → AreBlocks rs → u32_size ≤ total rs → from_ranges rs ≡ err file_too_large
unfolding from_ranges
from_ranges-too_large rs a h = from_ranges_at-too_large 0 rs a (omega arith) (omega arith)
