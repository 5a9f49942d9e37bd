-- ===== src/LoHi/Laws.antt =====
-- What `get`, `set`, `+=` and `-=` do to the number that the halves stand for.
use native.Mathlib.Nat.{mod-eq_of_lt, div-add-mod, mod-lt}
use ofs_convert_rs.Common.{ℕ, ◌+◌, ◌-◌, ◌*◌, ◌/◌, ◌%◌, ◌≤◌, ◌<◌, ◌≡◌, ◌∙◌, ok, arith, lt→ltb}
use ofs_convert_rs.LoHi.{Widths, Halves, get, set, add_assign, sub_assign}

-- The halves fit their types, and the types fit `Full`.
pub record IsValid (w : Widths) (h : Halves) : Type 0 where
  pub lo_fits : h.lo < w.lo_half
  pub hi_fits : h.hi < w.hi_half
  pub both_fit : w.lo_half * w.hi_half ≤ w.full

module _ {w : Widths} {h : Halves} (v : IsValid w h) where
  halves-lt : h.hi * w.lo_half + h.lo < w.lo_half * w.hi_half
  halves-lt = grind (arith, v.lo_fits, v.hi_fits)

  -- `get` does not wrap.
  pub get-value : get w h ≡ h.hi * w.lo_half + h.lo
  unfolding get
  get-value = rw (
    mod-eq_of_lt {n = h.hi * w.lo_half} {m = w.full} (omega (arith, halves-lt, v.both_fit)),
    mod-eq_of_lt {n = h.hi * w.lo_half + h.lo} {m = w.full} (omega (arith, halves-lt, v.both_fit)),
  )

  pub get-lt : get w h < w.lo_half * w.hi_half
  get-lt = rw get-value halves-lt

div-lt_of_lt-mul : (v l h : ℕ) → 0 < l → v < l * h → v / l < h
div-lt_of_lt-mul v l h p q = grind (arith, div-add-mod v l)

-- `set` succeeds on every value that the two halves can hold, and `get` then returns that value.
pub get-set :
    (w : Widths) (value : ℕ)
    → 0 < w.lo_half
    → w.lo_half * w.hi_half ≤ w.full
    → value < w.lo_half * w.hi_half
    → (h : Halves) × (set w value ≡ ok h) × IsValid w h × (get w h ≡ value)
unfolding set
get-set w value p f l =
    let hi : value / w.lo_half < w.hi_half = div-lt_of_lt-mul value w.lo_half w.hi_half p l in
    let v : IsValid w (record { lo = value % w.lo_half; hi = value / w.lo_half }) = record {
      lo_fits = omega arith;
      hi_fits = hi;
      both_fit = f;
    } in
    (
      record { lo = value % w.lo_half; hi = value / w.lo_half },
      rw (lt→ltb _ _ hi),
      v,
      get-value v ∙ omega arith,
    )

mod-wrap : (x n : ℕ) → x < n → (x + n) % n ≡ x
mod-wrap x n h = grind arith

module _ {w : Widths} {h : Halves} (v : IsValid w h) where
  lo-pos : 0 < w.lo_half
  lo-pos = omega (arith, v.lo_fits)

  -- `+=` on well-formed halves whose sum with the operand they can hold adds the operand.
  pub get-add_assign :
      (other : ℕ)
      → get w h + other < w.lo_half * w.hi_half
      → (h' : Halves) × (add_assign w h other ≡ ok h') × IsValid w h' × (get w h' ≡ get w h + other)
  unfolding add_assign
  get-add_assign other l =
      let e : (get w h + other) % w.full ≡ get w h + other =
        mod-eq_of_lt (omega (arith, v.both_fit)) in
      rw e (get-set w (get w h + other) lo-pos v.both_fit l)

  -- `-=` on well-formed halves, of an operand that is not larger than their number, subtracts it.
  pub get-sub_assign :
      (other : ℕ)
      → other ≤ get w h
      → (h' : Halves) × (sub_assign w h other ≡ ok h') × IsValid w h' × (get w h' ≡ get w h - other)
  unfolding sub_assign
  get-sub_assign other l =
      let fits : get w h < w.full = omega (arith, get-lt v, v.both_fit) in
      let shift : get w h + w.full - other ≡ get w h - other + w.full = omega arith in
      let e : (get w h + w.full - other) % w.full ≡ get w h - other =
        rw shift (mod-wrap (get w h - other) w.full (omega arith)) in
      rw e (get-set w (get w h - other) lo-pos v.both_fit (omega (arith, get-lt v)))

  -- Where well-formed halves fill the whole of `Full`, as in the group descriptor, `+=` never panics: a sum that
  -- is too large wraps.
  pub get-add_assign_wraps :
      (other : ℕ)
      → w.lo_half * w.hi_half ≡ w.full
      → (h' : Halves) × (add_assign w h other ≡ ok h') × (get w h' ≡ (get w h + other) % w.full)
  unfolding add_assign
  get-add_assign_wraps other same =
      let pos : 0 < w.full = omega (arith, get-lt v) in
      let (h', e, _, g) =
        get-set w ((get w h + other) % w.full) lo-pos v.both_fit (rw same (mod-lt _ pos)) in
      (h', e, g)
