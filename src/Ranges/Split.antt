-- ===== src/Ranges/Split.antt =====
-- `Ranges::split_overlapping` ends, and cuts its argument into covered and uncovered pieces.
use ofs_convert_rs.Common.{
  ℕ, zero, suc, ◌+◌, ◌*◌, ◌≤◌, ◌<◌, min, Bool, true, false, List, [], ◌∷◌, ◌≡◌, refl, ltb, leb,
  length, drop, ok, arith, Bool-cases, inl, inr, ltb→lt, ltb→le, leb→le, leb→lt, lt→leb, le→ltb,
}
use native.Mathlib.Decide.{dec_lt}
use native.Mathlib.Nat.{le_refl}
use ofs_convert_rs.Ranges.{Range, Ranges, first_overlap_candidate, split_loop, split_overlapping}
use ofs_convert_rs.Ranges.Cover.{covers, Above, IsNormal, Above-IsNormal, covers-Above}

-- The pieces are non-empty, follow one another from `s` to `e`, and each piece's flag says of every
-- element of it whether it is covered.
abbrev pub Tiles : Ranges → List (Range × Bool) → ℕ → ℕ → Type 0
Tiles rs [] s e = e ≤ s
Tiles rs ((p, flag) ∷ ps) s e =
    (p.start ≡ s)
    × (s < p.end)
    × (p.end ≤ e)
    × ((y : ℕ) → p.start ≤ y → y < p.end → covers rs y ≡ flag)
    × Tiles rs ps p.end e

abbrev EndsBehind : ℕ → Ranges → Type 0
EndsBehind s [] = Unit {0}
EndsBehind s (c ∷ more) = s < c.end

-- Two rounds for each range, and one less where the first range is already reached.
abbrev Enough : ℕ → Ranges → ℕ → ℕ → Type 0
Enough fuel [] s e = Unit {0}
Enough fuel (c ∷ more) s e =
    (2 * length (c ∷ more) ≤ fuel + 1) × (s < c.start → s < e → 2 * length (c ∷ more) ≤ fuel)

-- From `s` on, the suffix that the loop walks covers what the whole list does.
abbrev Agree : Ranges → Ranges → ℕ → Type 0
Agree rs suffix s = (y : ℕ) → s ≤ y → covers rs y ≡ covers suffix y

Agree-tail :
    (rs : Ranges) (c : Range) (more : Ranges) (s : ℕ)
    → s ≤ c.end
    → Agree rs (c ∷ more) s
    → Agree rs more c.end
Agree-tail rs c more s h a y l = ground (arith, a y)

EndsBehind-tail : (lo : ℕ) (more : Ranges) → Above lo more → EndsBehind lo more
EndsBehind-tail lo [] a = tt
EndsBehind-tail lo (c ∷ more) a = omega arith

Enough-of-le : (fuel s e : ℕ) (more : Ranges) → 2 * length more ≤ fuel → Enough fuel more s e
Enough-of-le fuel s e [] h = tt
Enough-of-le fuel s e (c ∷ more) h = (omega arith, λ l k. h)

split_loop-empty :
    (fuel : ℕ) (suffix : Ranges) (s e : ℕ)
    → e ≤ s
    → Enough fuel suffix s e
    → split_loop fuel suffix s e ≡ ok []
unfolding split_loop
split_loop-empty fuel [] s e h f = ground arith
split_loop-empty zero (c ∷ more) s e h f = absurd (omega arith)
split_loop-empty (suc fuel) (c ∷ more) s e h f = ground arith

-- The loop's own step in the case that the first range is reached, with what the rest of the loop
-- returns.
overlap-Tiles :
    (rs : Ranges) (c : Range) (more : Ranges) (s e : ℕ) (ps : List (Range × Bool))
    → Agree rs (c ∷ more) s
    → s < c.end
    → c.start ≤ s
    → s < e
    → Tiles rs ps (min c.end e) e
    → Tiles rs ((record { start = s; end = min c.end e }, true) ∷ ps) s e
overlap-Tiles rs c more s e ps a b g l w =
    (refl, omega arith, omega arith, λ y h k. ground (arith, a y h), w)

overlap-more :
    (rs : Ranges) (fuel : ℕ) (c : Range) (more : Ranges) (s e : ℕ)
    → Agree rs (c ∷ more) s
    → s < c.end
    → c.start ≤ s
    → c.end < e
    → (ps : List (Range × Bool)) × (split_loop fuel more c.end e ≡ ok ps) × Tiles rs ps c.end e
    → (ps : List (Range × Bool)) × (split_loop (suc fuel) (c ∷ more) s e ≡ ok ps) × Tiles rs ps s e
unfolding split_loop
overlap-more rs fuel c more s e a b g k (ps, q, w) =
    let m : min c.end e ≡ c.end = omega arith in
    (
      (record { start = s; end = min c.end e }, true) ∷ ps,
      rw (lt→leb e s (omega arith), le→ltb s c.start g, m, q),
      overlap-Tiles rs c more s e ps a b g (omega arith) (rw m w),
    )

split_loop-Tiles :
    (rs : Ranges) (fuel : ℕ) (suffix : Ranges) (s e : ℕ)
    → Agree rs suffix s
    → IsNormal suffix
    → EndsBehind s suffix
    → Enough fuel suffix s e
    → (ps : List (Range × Bool)) × (split_loop fuel suffix s e ≡ ok ps) × Tiles rs ps s e
unfolding split_loop
split_loop-Tiles rs fuel [] s e a n b f = elim (Bool-cases (leb e s)) [
  | inl t ↦ ([], rw t, leb→le _ _ t)
  | inr l ↦ (
    (record { start = s; end = e }, false) ∷ [],
    rw l,
    (refl, leb→lt _ _ l, le_refl e, λ y h k. a y h, le_refl e),
  )
]
split_loop-Tiles rs zero (c ∷ more) s e a n b f = absurd (omega arith)
split_loop-Tiles rs (suc fuel) (c ∷ more) s e a n b f = elim (Bool-cases (leb e s)) [
  | inl t ↦ ([], rw t, leb→le _ _ t)
  | inr l ↦ elim (Bool-cases (ltb s c.start)) [
    | inl g ↦
        let s' : ℕ = min c.start e in
        let (ps, q, w) =
          split_loop-Tiles rs fuel (c ∷ more) s' e (λ y h. a y (ground arith)) n (omega arith)
            (
              let d : 2 * length (c ∷ more) ≤ suc fuel = f.1 (ltb→lt _ _ g) (leb→lt _ _ l) in
                  omega arith,
              λ h k. absurd (omega arith),
            ) in
        (
          (record { start = s; end = s' }, false) ∷ ps,
          rw (l, g, q),
          (
            refl,
            ground arith,
            omega arith,
            λ y h k. ground (arith, a y h, covers-Above c.end more y n.1),
            w,
          ),
        )
    | inr g ↦ elim (dec_lt c.end e) [
      | yes k ↦ overlap-more rs fuel c more s e a b (ltb→le _ _ g) k (
          split_loop-Tiles rs fuel more c.end e (Agree-tail rs c more s (omega arith) a)
            (Above-IsNormal c.end more n.1) (EndsBehind-tail c.end more n.1)
            (Enough-of-le fuel c.end e more (omega arith)))
      | no k ↦
          let s' : ℕ = min c.end e in
          (
            (record { start = s; end = s' }, true) ∷ [],
            rw (
              l,
              g,
              split_loop-empty fuel more s' e (omega arith)
                  (Enough-of-le fuel s' e more (omega arith)),
            ),
            overlap-Tiles rs c more s e [] a b (ltb→le _ _ g) (leb→lt _ _ l) (omega arith),
          )
    ]
  ]
]

-- The suffix at which the loop begins.
abbrev suffix-from : Ranges → Range → Ranges
suffix-from rs range = drop (first_overlap_candidate rs range) rs

suffix-behind :
    (r : Range) (rs : Ranges) (range : Range)
    → r.end ≤ range.start
    → Above r.end rs
    → suffix-from (r ∷ rs) range ≡ suffix-from rs range
unfolding first_overlap_candidate
suffix-behind r [] range h n = ground arith
suffix-behind r (r' ∷ rs) range h n = ground arith

suffix-here :
    (r : Range) (rs : Ranges) (range : Range)
    → range.start < r.end
    → suffix-from (r ∷ rs) range ≡ r ∷ rs
unfolding first_overlap_candidate
suffix-here r rs range h = ground arith

suffix-nil : (range : Range) → suffix-from [] range ≡ []
unfolding first_overlap_candidate
suffix-nil range = refl

suffix-lem :
    (rs : Ranges) (range : Range)
    → IsNormal rs
    → Agree rs (suffix-from rs range) range.start
      × IsNormal (suffix-from rs range)
      × EndsBehind range.start (suffix-from rs range)
suffix-lem [] range n = rw (suffix-nil range) (λ y l. refl, tt, tt)
suffix-lem (r ∷ rs) range n = elim (dec_lt range.start r.end) [
  | yes h ↦ rw (suffix-here r rs range h) (λ y l. refl, n, h)
  | no h ↦
      let (a, m, b) = suffix-lem rs range (Above-IsNormal r.end rs n.1) in
      rw (suffix-behind r rs range (omega arith) n.1) (λ y l. ground (arith, a y l), m, b)
]

-- `split_overlapping` ends without a panic. The pieces that it returns are non-empty, follow one
-- another from the start of the range to its end, and each flag tells of every element of its piece
-- whether the list covers it.
pub split_overlapping-Tiles :
    (rs : Ranges) (range : Range)
    → IsNormal rs
    → (ps : List (Range × Bool)) × (split_overlapping rs range ≡ ok ps)
      × Tiles rs ps range.start range.end
unfolding split_overlapping
split_overlapping-Tiles rs range n =
    split_loop-Tiles rs (2 * length (suffix-from rs range)) (suffix-from rs range) range.start
      range.end (suffix-lem rs range n).0 (suffix-lem rs range n).1 (suffix-lem rs range n).2
      (Enough-of-le _ range.start range.end (suffix-from rs range) (le_refl _))
