-- ===== src/Common/Outcomes.antt =====
-- How a Rust call ends: with a value, with an `Err` of the program's own, or with a panic.
-- `stuck` is a loop of the model that ran out of fuel; no call of the program ends so.
use mathlib.Core.Path.{◌≡◌, refl}
use mathlib.Core.Logic.{◌≢◌}
use Prim.Native.Nat.{ℕ, zero, suc, ◌/◌, ◌<◌}
use mathlib.Core.Bool.{Bool, true, false}
use native.Mathlib.Omega.{arith}
use mathlib.Core.Option.{Option, none, some}

-- The `bail!`s and `context`s of the modelled code, one constructor for each.
pub data Failure : Type 0 where
  no_free_clusters file_too_large name_too_long too_many_files extent_level_full : Failure
  index_too_large not_enough_blocks not_enough_inodes no_free_inodes : Failure
  unaligned_data_section block_size_too_small block_size_too_large not_a_power_of_two : Failure
  filesystem_too_small too_many_block_groups too_many_inodes too_few_inodes : Failure
  bad_boot_signature bad_fs_type bad_timestamp : Failure

pub data Outcome {ℓ} (A : Type ℓ) : Type ℓ where
  ok : A → Outcome A
  err : Failure → Outcome A
  panic : Outcome A
  stuck : Outcome A

infixl 5 ◌>>=◌ ◌>>◌
abbrev pub ◌>>=◌ {ℓ κ} : {A : Type ℓ} {B : Type κ} → Outcome A → (A → Outcome B) → Outcome B
panic >>= next = panic
stuck >>= next = stuck
err failure >>= next = err failure
ok value >>= next = next value

abbrev pub ◌>>◌ {ℓ} : {B : Type ℓ} → Outcome (Unit {0}) → Outcome B → Outcome B
call >> next = call >>= λ _. next

-- `assert!`
abbrev pub assert : Bool → Outcome (Unit {0})
assert true = ok tt
assert false = panic

-- `if !test { bail!(…) }`
abbrev pub ensure : Bool → Failure → Outcome (Unit {0})
ensure true e = ok tt
ensure false e = err e

-- `unwrap` and `expect`
abbrev pub unwrap {ℓ} : {A : Type ℓ} → Option A → Outcome A
unwrap none = panic
unwrap (some a) = ok a

-- A division, which panics at zero.
abbrev pub divide : ℕ → ℕ → Outcome ℕ
divide m zero = panic
divide m (suc n) = ok (m / suc n)

pub divide-lem : (m n : ℕ) → 0 < n → divide m n ≡ ok (m / n)
divide-lem m zero h = absurd (omega arith)
divide-lem m (suc n) h = refl

-- A chain of two calls that returned: so did each of them.
pub >>=-eq-ok {ℓ κ} :
    {A : Type ℓ} {B : Type κ} (call : Outcome A) (next : A → Outcome B) {result : B}
    → (call >>= next) ≡ ok result
    → (value : A) × (call ≡ ok value) × (next value ≡ ok result)
>>=-eq-ok stuck next e = cc
>>=-eq-ok panic next e = cc
>>=-eq-ok (err failure) next e = cc
>>=-eq-ok (ok value) next e = (value, refl, e)

-- A guard that was passed.
pub assert-eq-ok {ℓ} :
    {A : Type ℓ} (t : Bool) (m : Outcome A) {a : A}
    → (assert t >> m) ≡ ok a
    → (t ≡ true) × (m ≡ ok a)
assert-eq-ok true m e = (refl, e)
assert-eq-ok false m e = cc

pub ensure-eq-ok {ℓ} :
    {A : Type ℓ} (t : Bool) (f : Failure) (m : Outcome A) {a : A}
    → (ensure t f >> m) ≡ ok a
    → (t ≡ true) × (m ≡ ok a)
ensure-eq-ok true f m e = (refl, e)
ensure-eq-ok false f m e = cc

pub ok_injective {ℓ} : {A : Type ℓ} {a b : A} → ok a ≡ ok b → a ≡ b
ok_injective e = cc

pub err≢ok {ℓ} : {A : Type ℓ} (m : Outcome A) {f : Failure} {a : A} → m ≡ err f → m ≢ ok a
err≢ok m e g = cc
