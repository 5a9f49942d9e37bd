-- ===== src/Ext4/SuperBlock/Facts/Log.antt =====
-- `exact_log2` on the block sizes that `new` lets through.
use native.Mathlib.Nat.{pow-suc}
use native.Mathlib.Decide.{dec_lt}
use ofs_convert_rs.Common.{
  all_below, all_below_sound, ℕ, zero, suc, ◌+◌, ◌-◌, ◌%◌, ◌^◌, ◌≤◌, ◌≡◌, refl, Bool, true, ◌||◌,
  ltb, ◌==◌, arith, u32_size, add32, sub32,
}

-- From 2 ^ 32 on, nothing is left of a power of two.
pow2-wraps : (k : ℕ) → 2 ^ (k + 32) % u32_size ≡ 0
pow2-wraps zero = refl
pow2-wraps (suc k) =
    let e : suc k + 32 ≡ suc (k + 32) = omega arith in rw (e, pow-suc) (omega (arith, pow2-wraps k))

-- Either out of the bounds on the block size, or the logarithm of one of the seven block sizes, which
-- the superblock's shift gives back.
abbrev good_log : ℕ → Bool
good_log log =
    ltb (2 ^ log % u32_size) 1024
    || (ltb 65536 (2 ^ log % u32_size)
        || (2 ^ (add32 (sub32 log 10) 10 % 32) == 2 ^ log % u32_size))

good_log_table : all_below 32 good_log ≡ true
unfolding all_below
good_log_table = refl

-- The logarithm of a block size within the bounds: `block_size` gives the block size back.
pub shift-log :
    (log bs : ℕ)
    → 2 ^ log % u32_size ≡ bs
    → 1024 ≤ bs
    → bs ≤ 65536
    → 2 ^ (add32 (sub32 log 10) 10 % 32) ≡ bs
shift-log log bs e h k = elim (dec_lt log 32) [
  | yes l ↦ ground (arith, all_below_sound 32 good_log log good_log_table l)
  | no l ↦
      let split : log ≡ log - 32 + 32 = omega arith in
      let zero : 2 ^ log % u32_size ≡ 0 = rw split (pow2-wraps (log - 32)) in absurd (omega arith)
]
