-- ===== src/Memory.antt =====
-- The partition's memory, cluster by cluster: what the pointers of src/allocator.rs and src/fat/fs.rs
-- lead to.
use ofs_convert_rs.Common.{
  ℕ, List, map, ◌==◌, if◌then◌else◌, ◌≤◌, ◌<◌, ◌≡◌, ◌≢◌, ◌+◌, refl, zero, suc, arith, count_up,
}

-- The bytes of each cluster.
abbrev pub Memory : Type 0
Memory = ℕ → List ℕ

unfoldable pub update : Memory → ℕ → List ℕ → Memory
update m i bytes = λ j. if i == j then bytes else m j

pub update_self : (m : Memory) (i : ℕ) (bytes : List ℕ) → update m i bytes i ≡ bytes
unfolding update
update_self m i bytes = ground arith

pub update_ne : (m : Memory) (i j : ℕ) (bytes : List ℕ) → i ≢ j → update m i bytes j ≡ m j
unfolding update
update_ne m i j bytes h = ground arith

-- Two memories that agree on a run of clusters hold the same there.
pub map-count_up :
    (f g : Memory) (s n : ℕ)
    → ((x : ℕ) → s ≤ x → x < s + n → f x ≡ g x)
    → map f (count_up s n) ≡ map g (count_up s n)
map-count_up f g s zero h = refl
map-count_up f g s (suc n) h = cc (
  h s (omega arith) (omega arith),
  map-count_up f g (suc s) n (λ x a b. h x (omega arith) (omega arith)),
)
