-- ===== src/Ranges/Insert.antt =====
-- `Ranges::insert` keeps the invariant and adds exactly the elements of the new range.
use ofs_convert_rs.Common.{
  ℕ, zero, suc, ◌-◌, ◌≤◌, ◌<◌, min, max, ◌||◌, List, [], ◌∷◌, Option, none, some, ◌≡◌, refl, ltb,
  leb, if◌then◌else◌, get_elem?, drop, Outcome, ok, ◌>>=◌, arith, Bool-cases, inl, inr, ltb→lt,
  ltb→le,
}
use ofs_convert_rs.Ranges.{
  Range, Ranges, is_empty, first_merge_candidate, overlap_end, replace_by_merged, insert_between,
  insert, insert_all, from,
}
use ofs_convert_rs.Ranges.Cover.{contains, covers, Above, IsNormal}

-- The reference: one walk over the list.
abbrev merged : ℕ → Range → Range → Range
merged start last range = record { start = start; end = max last.end range.end }

absorb : ℕ → Range → Range → Ranges → Ranges
absorb start last range [] = merged start last range ∷ []
absorb start last range (r ∷ rs) =
    if leb r.start range.end then absorb start r range rs else merged start last range ∷ r ∷ rs

insert_walk : Range → Ranges → Ranges
unfolding absorb
insert_walk range [] = range ∷ []
insert_walk range (r ∷ rs) =
    if ltb r.end range.start
    then r ∷ insert_walk range rs
    else if ltb range.end r.start
    then range ∷ r ∷ rs
    else absorb (min r.start range.start) r range rs

overlap_end-suc :
    (range : Range) (rs : Ranges) (e : ℕ)
    → overlap_end range rs (suc e) ≡ suc (overlap_end range rs e)
unfolding overlap_end
overlap_end-suc range [] e = refl
overlap_end-suc range (r ∷ rs) e = ground (arith, overlap_end-suc range rs (suc e))

overlap_end-ge : (range : Range) (rs : Ranges) (e : ℕ) → e ≤ overlap_end range rs e
unfolding overlap_end
overlap_end-ge range [] e = omega arith
overlap_end-ge range (r ∷ rs) e = ground (arith, overlap_end-ge range rs (suc e))

-- The run of absorbed ranges, by indices and by the walk.
absorb_lem :
    (start : ℕ) (last range : Range) (rs : Ranges)
    → (b : Range) × (get_elem? (last ∷ rs) (overlap_end range rs 0) ≡ some b)
      × (absorb start last range rs ≡ merged start b range ∷ drop (overlap_end range rs 0) rs)
unfolding absorb overlap_end
absorb_lem start last range [] = (last, refl, refl)
absorb_lem start last range (r ∷ rs) = elim (Bool-cases (leb r.start range.end)) [
  | inl t ↦
      let (b, p, q) = absorb_lem start r range rs in rw (t, overlap_end-suc range rs 0) (b, p, q)
  | inr f ↦ rw f (last, refl, refl)
]

module _ (range : Range) (r : Range) (rs : Ranges) where
  first-behind :
      r.end < range.start
      → first_merge_candidate (r ∷ rs) range ≡ suc (first_merge_candidate rs range)
  unfolding first_merge_candidate
  first-behind h = ground arith

  first-here : range.start ≤ r.end → first_merge_candidate (r ∷ rs) range ≡ 0
  unfolding first_merge_candidate
  first-here h = ground arith

-- `insert_between` behind a range that it leaves alone.
abbrev Leads : Range → Outcome Ranges → Outcome Ranges
Leads r m = m >>= λ rs. ok (r ∷ rs)

merged-leads :
    (r range : Range) (rs : Ranges) (f l : ℕ)
    → f < l
    → replace_by_merged
        (r ∷ rs)
        range
        (suc f)
        (suc l)
        (get_elem? rs f)
        (get_elem? (r ∷ rs) (suc l - 1))
      ≡ Leads r (replace_by_merged rs range f l (get_elem? rs f) (get_elem? rs (l - 1)))
unfolding replace_by_merged
merged-leads r range rs f zero h = elim h [ ]
merged-leads r range rs f (suc l) h =
    let e : suc (suc l) - 1 ≡ suc l = omega arith in
    let e' : suc l - 1 ≡ l = omega arith in rw (e, e') (go (get_elem? rs f) (get_elem? rs l))
  where
    go :
        (a b : Option Range)
        → replace_by_merged (r ∷ rs) range (suc f) (suc (suc l)) a b
          ≡ Leads r (replace_by_merged rs range f (suc l) a b)
    go (some a) (some b) = refl
    go none b = refl
    go (some a) none = refl

insert_between-leads :
    (r range : Range) (rs : Ranges) (f l : ℕ)
    → insert_between (r ∷ rs) range (suc f) (suc l) ≡ Leads r (insert_between rs range f l)
unfolding insert_between
insert_between-leads r range rs f l = ground (arith, merged-leads r range rs f l)

insert_between-here :
    (range r : Range) (rs : Ranges)
    → insert_between (r ∷ rs) range 0 (overlap_end range (r ∷ rs) 0)
      ≡ ok (
          if ltb range.end r.start
          then range ∷ r ∷ rs
          else absorb (min r.start range.start) r range rs)
unfolding insert_between replace_by_merged overlap_end
insert_between-here range r rs =
    let (b, p, q) = absorb_lem (min r.start range.start) r range rs in
    let e : suc (overlap_end range rs 0) - 1 ≡ overlap_end range rs 0 = omega arith in
    elim (Bool-cases (leb r.start range.end)) [
      | inl t ↦ rw (t, overlap_end-suc range rs 0, e, p, q) (ground arith)
      | inr f ↦ rw f (ground arith)
    ]

insert_between-nil :
    (range : Range)
    → insert_between [] range (first_merge_candidate [] range) (
        overlap_end range
          (drop (first_merge_candidate [] range) [])
          (first_merge_candidate [] range))
      ≡ ok (range ∷ [])
unfolding insert_between first_merge_candidate overlap_end
insert_between-nil range = refl

-- The code's search, loop and splice do what the walk does.
insert-eq-walk :
    (range : Range) (rs : Ranges)
    → range.start < range.end
    → insert_between rs range (first_merge_candidate rs range) (
        overlap_end range
          (drop (first_merge_candidate rs range) rs)
          (first_merge_candidate rs range))
      ≡ ok (insert_walk range rs)
unfolding insert_walk
insert-eq-walk range [] h = insert_between-nil range
insert-eq-walk range (r ∷ rs) h = elim (Bool-cases (ltb r.end range.start)) [
  | inl t ↦ rw (
    first-behind range r rs (ltb→lt _ _ t),
    overlap_end-suc,
    insert_between-leads,
    insert-eq-walk range rs h,
    t,
  )
  | inr f ↦ rw (first-here range r rs (ltb→le _ _ f), insert_between-here, f)
]

-- The walk keeps the invariant.
absorb-Above :
    (lo start : ℕ) (last range : Range) (rs : Ranges)
    → lo < start
    → start < last.end
    → Above last.end rs
    → Above lo (absorb start last range rs)
unfolding absorb
absorb-Above lo start last range [] h k a = omega arith
absorb-Above lo start last range (r ∷ rs) h k a = ground (arith, absorb-Above lo start r range rs)

insert_walk-Above :
    (lo : ℕ) (range : Range) (rs : Ranges)
    → lo < range.start
    → range.start < range.end
    → Above lo rs
    → Above lo (insert_walk range rs)
unfolding insert_walk
insert_walk-Above lo range [] h k a = omega arith
insert_walk-Above lo range (r ∷ rs) h k a =
    ground (
      arith,
      insert_walk-Above r.end range rs,
      absorb-Above lo (min r.start range.start) r range rs,
    )

absorb-covers :
    (start : ℕ) (last range : Range) (rs : Ranges) (x : ℕ)
    → start ≤ range.end
    → start < last.end
    → Above last.end rs
    → covers (absorb start last range rs) x
      ≡ (contains (record { start = start; end = max last.end range.end }) x || covers rs x)
unfolding absorb
absorb-covers start last range [] x h k a = refl
absorb-covers start last range (r ∷ rs) x h k a = ground (arith, absorb-covers start r range rs x)

insert_walk-covers :
    (range : Range) (rs : Ranges) (x : ℕ)
    → range.start < range.end
    → IsNormal rs
    → covers (insert_walk range rs) x ≡ (contains range x || covers rs x)
unfolding insert_walk
insert_walk-covers range [] x h n = refl
insert_walk-covers range (r ∷ rs) x h n =
    ground
      (arith, insert_walk-covers range rs x, absorb-covers (min r.start range.start) r range rs x)

absorb-IsNormal :
    (start : ℕ) (last range : Range) (rs : Ranges)
    → start < last.end
    → Above last.end rs
    → IsNormal (absorb start last range rs)
unfolding absorb
absorb-IsNormal start last range [] k a = omega arith
absorb-IsNormal start last range (r ∷ rs) k a = ground (arith, absorb-IsNormal start r range rs)

insert_walk-IsNormal :
    (range : Range) (rs : Ranges)
    → range.start < range.end
    → IsNormal rs
    → IsNormal (insert_walk range rs)
unfolding insert_walk
insert_walk-IsNormal range [] h n = omega arith
insert_walk-IsNormal range (r ∷ rs) h n =
    ground (
      arith,
      insert_walk-Above r.end range rs,
      absorb-IsNormal (min r.start range.start) r range rs,
    )

-- What `insert` promises: it does not panic, keeps the invariant, and the list then covers what it
-- covered before and the elements of the new range, and nothing else.
abbrev pub Adds : Range → Ranges → Ranges → Type 0
Adds range rs rs' = IsNormal rs' × ((x : ℕ) → covers rs' x ≡ (contains range x || covers rs x))

-- Inserting a range, empty or not, into a normal list returns a normal list that covers exactly the
-- elements covered before and those of the range.
pub insert-Adds :
    (rs : Ranges) (range : Range)
    → IsNormal rs
    → (rs' : Ranges) × (insert rs range ≡ ok rs') × Adds range rs rs'
unfolding insert
insert-Adds rs range n = elim (Bool-cases (is_empty range)) [
  | inl t ↦ (rs, rw t, (n, λ x. ground arith))
  | inr f ↦
      let h : range.start < range.end = ground arith in
      (
        insert_walk range rs,
        rw (f, insert-eq-walk range rs h),
        (insert_walk-IsNormal range rs h n, λ x. insert_walk-covers range rs x h n),
      )
]

insert_all-covers :
    (more : List Range) (rs : Ranges)
    → IsNormal rs
    → (rs' : Ranges) × (insert_all rs more ≡ ok rs')
      × IsNormal rs'
      × ((x : ℕ) → covers rs' x ≡ (covers more x || covers rs x))
unfolding insert_all
insert_all-covers [] rs n = (rs, refl, n, λ x. refl)
insert_all-covers (r ∷ more) rs n =
    let (rs₁, e₁, (n₁, c₁)) = insert-Adds rs r n in
    let (rs₂, e₂, n₂, c₂) = insert_all-covers more rs₁ n₁ in
    (rs₂, rw (e₁, e₂), n₂, λ x. ground (arith, c₁ x, c₂ x))

-- `Ranges::from` never panics; whatever the order and the overlaps of the ranges that it is given, it
-- returns a normal list that covers exactly the elements of those ranges.
pub from-covers :
    (more : List Range)
    → (rs : Ranges) × (from more ≡ ok rs) × IsNormal rs × ((x : ℕ) → covers rs x ≡ covers more x)
unfolding from
from-covers more =
    let (rs, e, n, c) = insert_all-covers more [] tt in (rs, e, n, λ x. ground (arith, c x))
