-- ===== src/Ranges/Gap.antt =====
-- `Ranges::next_not_covered` ends, and returns the first gap.
use ofs_convert_rs.Common.{
  ℕ, zero, suc, ◌+◌, ◌≤◌, ◌<◌, true, false, [], ◌∷◌, Option, none, some, ◌≡◌, refl, ltb, leb,
  if◌then◌else◌, length, get_elem?, ok, arith, Bool-cases, inl, inr, Option-cases, ◌∙◌, leb→le,
  leb→lt, ltb→lt,
}
use native.Mathlib.Decide.{dec_lt}
use native.Mathlib.Nat.{le_refl}
use ofs_convert_rs.Ranges.{
  Range, Ranges, NotCoveredRange, bounded, unbounded, first_overlap_candidate,
  next_not_covered_from, next_not_covered,
}
use ofs_convert_rs.Ranges.Cover.{covers, Above, IsNormal, Above-IsNormal, covers-Above}

-- The candidate that a query at `x` looks at.
candidate : Ranges → ℕ → Option Range
candidate rs x = get_elem? rs (first_overlap_candidate rs (record { start = x; end = x }))

candidate-here : (r : Range) (rs : Ranges) (x : ℕ) → x < r.end → candidate (r ∷ rs) x ≡ some r
unfolding candidate first_overlap_candidate
candidate-here r rs x h = ground arith

candidate-nil : (x : ℕ) → candidate [] x ≡ none
unfolding candidate
candidate-nil x = refl

candidate-head : (lo : ℕ) (rs : Ranges) → Above lo rs → candidate rs lo ≡ get_elem? rs 0
unfolding candidate
candidate-head lo [] a = refl
candidate-head lo (r ∷ rs) a = candidate-here r rs lo (omega arith)

candidate-behind :
    (r : Range) (rs : Ranges) (x : ℕ)
    → r.end ≤ x
    → Above r.end rs
    → candidate (r ∷ rs) x ≡ candidate rs x
unfolding candidate first_overlap_candidate
candidate-behind r rs x h a = ground (arith, candidate-head r.end rs a)

candidate-lt : (rs : Ranges) (x : ℕ) (c : Range) → IsNormal rs → candidate rs x ≡ some c → x < c.end
unfolding candidate
candidate-lt [] x c n e = ground arith
candidate-lt (r ∷ rs) x c n e =
    ground (arith, candidate-here r rs x, candidate-behind r rs x, candidate-lt rs x c)

-- The reference: one walk over the list.
next_walk : Ranges → ℕ → NotCoveredRange
next_walk [] x = unbounded x
next_walk (r ∷ rs) x =
    if leb r.end x
    then next_walk rs x
    else if ltb x r.start
    then bounded (record { start = x; end = r.start })
    else next_walk rs r.end

-- One call, at a known candidate.
next-step :
    (fuel : ℕ) (rs : Ranges) (x : ℕ) (c : Range)
    → candidate rs x ≡ some c
    → next_not_covered_from (suc fuel) rs x ≡ (
        if ltb x c.start
        then ok (bounded (record { start = x; end = c.start }))
        else next_not_covered_from fuel rs c.end)
unfolding next_not_covered_from candidate
next-step fuel rs x c e = rw (e, next_not_covered_from) (ground arith)

next-last :
    (fuel : ℕ) (rs : Ranges) (x : ℕ)
    → candidate rs x ≡ none
    → next_not_covered_from (suc fuel) rs x ≡ ok (unbounded x)
unfolding next_not_covered_from candidate
next-last fuel rs x e = rw (e, next_not_covered_from) refl

-- A range that ends at or before `x` does not matter.
next-behind :
    (fuel : ℕ) (r : Range) (rs : Ranges) (x : ℕ)
    → r.end ≤ x
    → IsNormal (r ∷ rs)
    → next_not_covered_from fuel (r ∷ rs) x ≡ next_not_covered_from fuel rs x
unfolding next_not_covered_from
next-behind zero r rs x h n = refl
next-behind (suc fuel) r rs x h n = elim (Option-cases (candidate rs x)) [
  | inl e ↦
      rw (next-last fuel rs x e) (next-last fuel (r ∷ rs) x (candidate-behind r rs x h n.1 ∙ e))
  | inr (c, e) ↦
      rw (next-step fuel rs x c e, next-step fuel (r ∷ rs) x c (candidate-behind r rs x h n.1 ∙ e))
        (ground (arith, Above-IsNormal r.end rs, candidate-lt rs x c, next-behind fuel r rs c.end))
]

next-eq-walk :
    (fuel : ℕ) (rs : Ranges) (x : ℕ)
    → length rs < fuel
    → IsNormal rs
    → next_not_covered_from fuel rs x ≡ ok (next_walk rs x)
unfolding next_walk
next-eq-walk zero rs x f n = absurd (omega arith)
next-eq-walk (suc fuel) [] x f n = next-last fuel [] x (candidate-nil x)
next-eq-walk (suc fuel) (r ∷ rs) x f n = elim (Bool-cases (leb r.end x)) [
  | inl t ↦ rw (
    next-behind (suc fuel) r rs x (leb→le _ _ t) n,
    next-eq-walk (suc fuel) rs x (omega arith) (Above-IsNormal r.end rs n.1),
    t,
  )
  | inr e ↦
      rw (next-step fuel (r ∷ rs) x r (candidate-here r rs x (leb→lt _ _ e)), e)
        (ground
          (arith, Above-IsNormal r.end rs, next-behind fuel r rs r.end, next-eq-walk fuel rs r.end))
]

-- What a query at `x` promises of its result.
abbrev pub IsFirstGap : Ranges → ℕ → NotCoveredRange → Type 0
IsFirstGap rs x (bounded g) =
    (x ≤ g.start)
    × (g.start < g.end)
    × ((y : ℕ) → x ≤ y → y < g.start → covers rs y ≡ true)
    × ((y : ℕ) → g.start ≤ y → y < g.end → covers rs y ≡ false)
    × (covers rs g.end ≡ true)
IsFirstGap rs x (unbounded s) =
    (x ≤ s)
    × ((y : ℕ) → x ≤ y → y < s → covers rs y ≡ true)
    × ((y : ℕ) → s ≤ y → covers rs y ≡ false)

-- The gap of the rest of the list, where the first range ends at or before the query.
gap-behind :
    (r : Range) (rs : Ranges) (x : ℕ) (g : NotCoveredRange)
    → r.end ≤ x
    → IsFirstGap rs x g
    → IsFirstGap (r ∷ rs) x g
gap-behind r rs x (bounded g) h p = (
  p.0,
  p.1,
  λ y a b. ground (arith, p.2 y a b),
  λ y a b. ground (arith, p.3 y a b),
  ground (arith, p.4),
)
gap-behind r rs x (unbounded s) h p =
    (p.0, λ y a b. ground (arith, p.1 y a b), λ y a. ground (arith, p.2 y a))

-- The query may start earlier, in what is covered.
gap-from :
    (rs : Ranges) (x x' : ℕ) (g : NotCoveredRange)
    → x ≤ x'
    → ((y : ℕ) → x ≤ y → y < x' → covers rs y ≡ true)
    → IsFirstGap rs x' g
    → IsFirstGap rs x g
gap-from rs x x' (bounded g) h c p = (
  omega arith,
  p.1,
  λ y a b. elim (dec_lt y x') [ yes l ↦ c y a l | no l ↦ p.2 y (omega arith) b ],
  p.3,
  p.4,
)
gap-from rs x x' (unbounded s) h c p = (
  omega arith,
  λ y a b. elim (dec_lt y x') [ yes l ↦ c y a l | no l ↦ p.1 y (omega arith) b ],
  p.2,
)

next_walk-IsFirstGap : (rs : Ranges) (x : ℕ) → IsNormal rs → IsFirstGap rs x (next_walk rs x)
unfolding next_walk
next_walk-IsFirstGap [] x n = (omega arith, λ y h k. absurd (omega arith), λ y h. refl)
next_walk-IsFirstGap (r ∷ rs) x n = elim (Bool-cases (leb r.end x)) [
  | inl t ↦
      rw t (
        gap-behind r rs x _ (leb→le _ _ t)
          (next_walk-IsFirstGap rs x (Above-IsNormal r.end rs n.1)))
  | inr e ↦ elim (Bool-cases (ltb x r.start)) [
    | inl b ↦
        rw (e, b)
          (
            omega arith,
            ltb→lt _ _ b,
            λ y h k. absurd (omega arith),
            λ y h k. ground (arith, covers-Above r.end rs y n.1),
            ground arith,
          )
    | inr b ↦
        rw (e, b)
          (gap-from (r ∷ rs) x r.end _ (ground arith) (λ y h k. ground arith)
            (gap-behind r rs r.end _ (le_refl r.end)
              (next_walk-IsFirstGap rs r.end (Above-IsNormal r.end rs n.1))))
  ]
]

-- `next_not_covered` ends, and returns the first gap at or behind its argument: all between the
-- argument and the gap is covered, nothing in the gap is, and a bounded gap ends at a covered element.
pub next_not_covered-IsFirstGap :
    (rs : Ranges) (x : ℕ)
    → IsNormal rs
    → (g : NotCoveredRange) × (next_not_covered rs x ≡ ok g) × IsFirstGap rs x g
unfolding next_not_covered
next_not_covered-IsFirstGap rs x n =
    (next_walk rs x, next-eq-walk (length rs + 1) rs x (omega arith) n, next_walk-IsFirstGap rs x n)
