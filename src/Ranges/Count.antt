-- ===== src/Ranges/Count.antt =====
-- `Ranges::free_element_count` ends, and counts the elements that are not covered.
use ofs_convert_rs.Common.{
  ℕ, zero, suc, ◌+◌, ◌-◌, ◌≤◌, ◌<◌, true, false, ◌≡◌, refl, ltb, leb, if◌then◌else◌, ok, arith,
  Bool-cases, inl, inr, ltb→lt, le→leb, lt→ltb, ap, ◌∙◌, min,
}
use native.Mathlib.Decide.{dec_lt}
use ofs_convert_rs.Ranges.{
  Range, Ranges, NotCoveredRange, bounded, unbounded, len, clamp_to, usize_max, next_not_covered,
  free_count_loop, free_element_count,
}
use ofs_convert_rs.Ranges.Cover.{covers, IsNormal}
use ofs_convert_rs.Ranges.Gap.{IsFirstGap, next_not_covered-IsFirstGap}

-- The number of elements that are not covered among the `n` from `lo` on.
abbrev pub free_between : Ranges → ℕ → ℕ → ℕ
free_between rs lo zero = 0
free_between rs lo (suc n) = (if covers rs lo then 0 else 1) + free_between rs (suc lo) n

pub free_between-le : (rs : Ranges) (lo n : ℕ) → free_between rs lo n ≤ n
free_between-le rs lo zero = omega arith
free_between-le rs lo (suc n) = ground (arith, free_between-le rs (suc lo) n)

pub free_between-add :
    (rs : Ranges) (lo m n : ℕ)
    → free_between rs lo (m + n) ≡ free_between rs lo m + free_between rs (lo + m) n
free_between-add rs lo zero n =
    let e : 0 + n ≡ n = omega arith in
    let e' : lo + 0 ≡ lo = omega arith in rw (e, e') (omega arith)
free_between-add rs lo (suc m) n =
    let e : suc m + n ≡ suc (m + n) = omega arith in
    let e' : lo + suc m ≡ suc lo + m = omega arith in
    rw (e, e') (omega (arith, free_between-add rs (suc lo) m n))

pub free_between-covered :
    (rs : Ranges) (lo n : ℕ)
    → ((y : ℕ) → lo ≤ y → y < lo + n → covers rs y ≡ true)
    → free_between rs lo n ≡ 0
free_between-covered rs lo zero c = refl
free_between-covered rs lo (suc n) c = rw (
  c lo (omega arith) (omega arith),
  free_between-covered rs (suc lo) n (λ y h k. c y (omega arith) (omega arith)),
)

pub free_between-free :
    (rs : Ranges) (lo n : ℕ)
    → ((y : ℕ) → lo ≤ y → y < lo + n → covers rs y ≡ false)
    → free_between rs lo n ≡ n
free_between-free rs lo zero c = refl
free_between-free rs lo (suc n) c =
    rw
      (
        c lo (omega arith) (omega arith),
        free_between-free rs (suc lo) n (λ y h k. c y (omega arith) (omega arith)),
      )
      (omega arith)

-- What is covered up to `a` and free from there to `b`.
pub gap-count :
    (rs : Ranges) (x a b : ℕ)
    → x ≤ a
    → x ≤ b
    → ((y : ℕ) → x ≤ y → y < a → covers rs y ≡ true)
    → ((y : ℕ) → a ≤ y → y < b → covers rs y ≡ false)
    → free_between rs x (b - x) ≡ b - a
gap-count rs x a b h k c f = elim (dec_lt a b) [
  | yes l ↦
      let e : b - x ≡ (a - x) + (b - a) = omega arith in
      let e' : x + (a - x) ≡ a = omega arith in
      rw
        (
          e,
          free_between-add rs x (a - x) (b - a),
          e',
          free_between-covered rs x (a - x) (λ y p q. c y p (omega arith)),
          free_between-free rs a (b - a) (λ y p q. f y p (omega arith)),
        )
        (omega arith)
  | no l ↦ rw (free_between-covered rs x (b - x) (λ y p q. c y p (omega arith))) (omega arith)
]

-- The same, up to an end behind `b`.
pub gap-count-add :
    (rs : Ranges) (x a b e : ℕ)
    → x ≤ a
    → x ≤ b
    → b ≤ e
    → ((y : ℕ) → x ≤ y → y < a → covers rs y ≡ true)
    → ((y : ℕ) → a ≤ y → y < b → covers rs y ≡ false)
    → free_between rs x (e - x) ≡ (b - a) + free_between rs b (e - b)
gap-count-add rs x a b e h k l c f =
    let cut : e - x ≡ (b - x) + (e - b) = omega arith in
    let at : x + (b - x) ≡ b = omega arith in
    rw (cut, free_between-add rs x (b - x) (e - b), at, gap-count rs x a b h k c f)

-- What one round counts, and that the count goes on behind it.
clamp-counts :
    (rs : Ranges) (x e : ℕ) (g : NotCoveredRange)
    → x < e
    → IsFirstGap rs x g
    → (x < (clamp_to e g).end)
      × ((clamp_to e g).end ≤ e)
      × (free_between rs x ((clamp_to e g).end - x) ≡ len (clamp_to e g))
clamp-counts rs x e (bounded g) h p = (
  omega arith,
  omega arith,
  gap-count rs x g.start (min g.end e) p.0 (omega arith) p.2 (λ y a b. p.3 y a (omega arith)),
)
clamp-counts rs x e (unbounded s) h p =
    (omega arith, omega arith, gap-count rs x s e p.0 (omega arith) p.1 (λ y a b. p.2 y a))

-- One round of the loop, with what the rest of it returns.
round-lem :
    (fuel : ℕ) (rs : Ranges) (e current count : ℕ) (g : NotCoveredRange)
    → current < e
    → next_not_covered rs current ≡ ok g
    → current < (clamp_to e g).end
    → (clamp_to e g).end ≤ e
    → free_between rs current ((clamp_to e g).end - current) ≡ len (clamp_to e g)
    → count + free_between rs current (e - current) ≤ usize_max
    → (count + len (clamp_to e g) + free_between rs (clamp_to e g).end (e - (clamp_to e g).end)
          ≤ usize_max
        → free_count_loop fuel rs e (clamp_to e g).end (count + len (clamp_to e g))
          ≡ ok (
              count
              + len (clamp_to e g)
              + free_between rs (clamp_to e g).end (e - (clamp_to e g).end)))
    → free_count_loop (suc fuel) rs e current count
      ≡ ok (count + free_between rs current (e - current))
unfolding free_count_loop
round-lem fuel rs e current count g t q a b c l ih =
    let stop : ℕ = (clamp_to e g).end in
    let cut : e - current ≡ (stop - current) + (e - stop) = omega arith in
    let at : current + (stop - current) ≡ stop = omega arith in
    let sum : free_between rs current (e - current)
        ≡ len (clamp_to e g) + free_between rs stop (e - stop) =
      rw (cut, free_between-add rs current (stop - current) (e - stop), at, c) in
    let small : leb (count + len (clamp_to e g)) usize_max ≡ true = le→leb _ _ (omega arith) in
    rw (lt→ltb current e t, free_count_loop) (rw (q, small, ih (omega arith)) (ap ok (omega arith)))

free_count_loop-lem :
    (fuel : ℕ) (rs : Ranges) (e current count : ℕ)
    → IsNormal rs
    → e - current < fuel
    → count + free_between rs current (e - current) ≤ usize_max
    → free_count_loop fuel rs e current count ≡ ok (count + free_between rs current (e - current))
unfolding free_count_loop
free_count_loop-lem zero rs e current count n f l = absurd (omega arith)
free_count_loop-lem (suc fuel) rs e current count n f l = elim (Bool-cases (ltb current e)) [
  | inr t ↦
      let d : e - current ≡ 0 = ground arith in rw (t, free_count_loop) (rw d (ap ok (omega arith)))
  | inl t ↦
      let (g, q, p) = next_not_covered-IsFirstGap rs current n in
      let (a, b, c) = clamp-counts rs current e g (ltb→lt _ _ t) p in
      round-lem fuel rs e current count g (ltb→lt _ _ t) q a b c l (
        free_count_loop-lem fuel rs e (clamp_to e g).end (count + len (clamp_to e g)) n
          (omega arith))
]

-- `free_element_count` ends without a panic where the range's end fits `usize`, and returns the number
-- of elements of the range that the list does not cover.
pub free_element_count-lem :
    (rs : Ranges) (within : Range)
    → IsNormal rs
    → len within ≤ usize_max
    → free_element_count rs within ≡ ok (free_between rs within.start (len within))
unfolding free_element_count
free_element_count-lem rs within n h =
    free_count_loop-lem (len within + 1) rs within.end within.start 0 n (omega arith)
      (omega (arith, free_between-le rs within.start (len within)))
    ∙ ap ok (omega arith)
