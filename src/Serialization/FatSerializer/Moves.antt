-- ===== src/Serialization/FatSerializer/Moves.antt =====
-- What it means that data is moved and none of it is lost, and how two moves make one.
use mathlib.Core.List.{map-append, append_assoc}
use ofs_convert_rs.Common.{
  ℕ, ◌+◌, ◌≤◌, ◌<◌, ◌≡◌, refl, sym, subst, ap, ◌∙◌, Bool, true, false, ◌||◌, List, [], ◌∷◌, ◌++◌,
  map, ltb, leb, arith, count_up, count_up-append, ◌*◌,
}
use ofs_convert_rs.Fat.Table.{FatFs}
use ofs_convert_rs.Fat.BootSector.{cluster_size}
use ofs_convert_rs.Ranges.{Range, Ranges, len, usize_max}
use ofs_convert_rs.Ranges.Cover.{covers}
use ofs_convert_rs.Allocator.{Allocator}
use ofs_convert_rs.Allocator.Valid.{IsValid}
use ofs_convert_rs.Memory.{Memory, map-count_up}
use ofs_convert_rs.Ext4.Extent.FromRanges.{range_blocks}
use ofs_convert_rs.Serialization.FatSerializer.{Copying}

-- The allocator hands out clusters of the FAT file system's size that can be addressed, and the file
-- system's clusters have sectors.
pub record Serves (fs : FatFs) (a : Allocator) : Type 0 where
  pub sectors : 0 < fs.boot_sector.sectors_per_cluster
  pub same_size : a.cluster_size ≡ cluster_size fs.boot_sector
  pub addressed : a.cluster_size * a.valid_cluster_indices.end ≤ usize_max

-- An allocator that has handed out more still serves.
pub Serves-moved :
    (fs : FatFs) (a a' : Allocator) {cursor : ℕ}
    → a' ≡ record a { cursor = cursor }
    → Serves fs a
    → Serves fs a'
Serves-moved fs a a' e v =
    subst (Serves fs) (sym e)
      (record { sectors = v.sectors; same_size = v.same_size; addressed = v.addressed })

-- A cluster that no later allocation hands out.
abbrev pub is_settled : Allocator → ℕ → Bool
is_settled a x = covers a.used_ranges x || ltb x a.cursor

-- From `s` to `s'`, the contents of the clusters `src` were placed in the ranges `rs`, none of which
-- touches a forbidden cluster, and no settled cluster changed. A cluster of the ranges was in use, or was not
-- handed out before.
pub record MovesAll (forbidden : Ranges) (s s' : Copying) (src : List ℕ) (rs : List Range)
    : Type 0 where
  pub valid : IsValid s'.allocator
  pub moved : s'.allocator ≡ record s.allocator { cursor = s'.allocator.cursor }
  pub same_used : s'.allocator.used_ranges ≡ s.allocator.used_ranges
  pub risen : s.allocator.cursor ≤ s'.allocator.cursor
  pub frame : (x : ℕ) → is_settled s.allocator x ≡ true → s'.memory x ≡ s.memory x
  pub contents : map s'.memory (range_blocks rs) ≡ map s.memory src
  pub settled : (x : ℕ) → covers rs x ≡ true → is_settled s'.allocator x ≡ true
  pub allowed : (x : ℕ) → covers rs x ≡ true → covers forbidden x ≡ false
  pub origin :
      (x : ℕ)
      → covers rs x ≡ true
      → (covers s.allocator.used_ranges x || leb s.allocator.cursor x) ≡ true

-- The same for the `n` clusters from `src` on.
abbrev pub Moves : Ranges → Copying → Copying → ℕ → ℕ → List Range → Type 0
Moves forbidden s s' src n rs = MovesAll forbidden s s' (count_up src n) rs

settled-rise : (b : Bool) (c c' x : ℕ) → c ≤ c' → (b || ltb x c) ≡ true → (b || ltb x c') ≡ true
settled-rise b c c' x h k = ground arith

pub settled_later :
    (a a' : Allocator) (x : ℕ)
    → a'.used_ranges ≡ a.used_ranges
    → a.cursor ≤ a'.cursor
    → is_settled a x ≡ true
    → is_settled a' x ≡ true
settled_later a a' x e h k = rw e (settled-rise (covers a.used_ranges x) a.cursor a'.cursor x h k)

new-before : (b : Bool) (c c' x : ℕ) → c ≤ c' → (b || leb c' x) ≡ true → (b || leb c x) ≡ true
new-before b c c' x h k = ground arith

origin_before :
    (a a' : Allocator) (x : ℕ)
    → a'.used_ranges ≡ a.used_ranges
    → a.cursor ≤ a'.cursor
    → (covers a'.used_ranges x || leb a'.cursor x) ≡ true
    → (covers a.used_ranges x || leb a.cursor x) ≡ true
origin_before a a' x e h k =
    new-before (covers a.used_ranges x) a.cursor a'.cursor x h
      (subst (λ u. (covers u x || leb a'.cursor x) ≡ true) e k)

covers-first :
    (r : Range) (rs : List Range) (x : ℕ) → r.start ≤ x → x < r.end → covers (r ∷ rs) x ≡ true
covers-first r rs x h k = ground arith

pub map-range_blocks :
    (f g : Memory) (rs : List Range)
    → ((x : ℕ) → covers rs x ≡ true → f x ≡ g x)
    → map f (range_blocks rs) ≡ map g (range_blocks rs)
map-range_blocks f g [] h = refl
map-range_blocks f g (r ∷ rs) h =
    let first : map f (count_up r.start (len r)) ≡ map g (count_up r.start (len r)) =
      map-count_up f g r.start (len r) (λ x a b. h x (covers-first r rs x a (omega arith))) in
    let rest : map f (range_blocks rs) ≡ map g (range_blocks rs) =
      map-range_blocks f g rs (λ x c. h x (ground (arith, c))) in
    let xs : List ℕ = count_up r.start (len r) in
    rw (map-append f xs (range_blocks rs), map-append g xs (range_blocks rs), first, rest) refl

range_blocks-append :
    (rs rs' : List Range) → range_blocks (rs ++ rs') ≡ range_blocks rs ++ range_blocks rs'
range_blocks-append [] rs' = refl
range_blocks-append (r ∷ rs) rs' = simp (range_blocks-append rs rs', append_assoc)

covers-append : (rs rs' : List Range) (x : ℕ) → covers (rs ++ rs') x ≡ (covers rs x || covers rs' x)
covers-append [] rs' x = refl
covers-append (r ∷ rs) rs' x = ground (arith, covers-append rs rs' x)

contents_join :
    (m₂ m₁ m₀ : Memory) (rs rs' : List Range) (src src' : List ℕ)
    → map m₂ (range_blocks rs) ≡ map m₁ (range_blocks rs)
    → map m₁ (range_blocks rs) ≡ map m₀ src
    → map m₂ (range_blocks rs') ≡ map m₁ src'
    → map m₁ src' ≡ map m₀ src'
    → map m₂ (range_blocks (rs ++ rs')) ≡ map m₀ (src ++ src')
contents_join m₂ m₁ m₀ rs rs' src src' a b c d =
    rw
      (
        range_blocks-append rs rs',
        map-append m₂ (range_blocks rs) (range_blocks rs'),
        map-append m₀ src src',
        a,
        b,
        c,
        d,
      )
      refl

-- Two moves, one after the other, the first of which left the source of the second as it was.
pub MovesAll-trans :
    (forbidden : Ranges) (s₀ s₁ s₂ : Copying) (src src' : List ℕ) (rs rs' : List Range)
    → map s₁.memory src' ≡ map s₀.memory src'
    → MovesAll forbidden s₀ s₁ src rs
    → MovesAll forbidden s₁ s₂ src' rs'
    → MovesAll forbidden s₀ s₂ (src ++ src') (rs ++ rs')
MovesAll-trans forbidden s₀ s₁ s₂ src src' rs rs' source p q =
    let later : (x : ℕ) → is_settled s₀.allocator x ≡ true → is_settled s₁.allocator x ≡ true =
      λ x h. settled_later s₀.allocator s₁.allocator x p.same_used p.risen h in
    let kept : map s₂.memory (range_blocks rs) ≡ map s₁.memory (range_blocks rs) =
      map-range_blocks s₂.memory s₁.memory rs (λ x c. q.frame x (p.settled x c)) in
    record {
      valid = q.valid;
      moved = q.moved ∙ ap (λ (x : Allocator). record x { cursor = s₂.allocator.cursor }) p.moved;
      same_used = q.same_used ∙ p.same_used;
      risen = omega (arith, p.risen, q.risen);
      frame = λ x h. q.frame x (later x h) ∙ p.frame x h;
      contents =
          contents_join s₂.memory s₁.memory s₀.memory rs rs' src src' kept p.contents q.contents
            source;
      settled = λ x c. ground (
        arith,
        covers-append rs rs' x,
        q.settled x,
        p.settled x,
        settled_later s₁.allocator s₂.allocator x q.same_used q.risen,
      );
      allowed = λ x c. ground (arith, covers-append rs rs' x, q.allowed x, p.allowed x);
      origin = λ x c. ground (
        arith,
        covers-append rs rs' x,
        p.origin x,
        origin_before s₀.allocator s₁.allocator x p.same_used p.risen,
        q.origin x,
      );
    }

pub Moves-trans :
    (forbidden : Ranges) (s₀ s₁ s₂ : Copying) (src n n' : ℕ) (rs rs' : List Range)
    → ((x : ℕ) → src ≤ x → x < src + (n + n') → covers s₀.allocator.used_ranges x ≡ true)
    → Moves forbidden s₀ s₁ src n rs
    → Moves forbidden s₁ s₂ (src + n) n' rs'
    → Moves forbidden s₀ s₂ src (n + n') (rs ++ rs')
Moves-trans forbidden s₀ s₁ s₂ src n n' rs rs' used p q =
    subst (λ xs. MovesAll forbidden s₀ s₂ xs (rs ++ rs')) (sym (count_up-append src n n'))
      (MovesAll-trans forbidden s₀ s₁ s₂ (count_up src n) (count_up (src + n) n') rs rs'
        (map-count_up s₁.memory s₀.memory (src + n) n'
          (λ x a b. p.frame x (ground (arith, used x))))
        p q)

-- No data, no move.
pub Moves-nil :
    (forbidden : Ranges) (s : Copying) (src : ℕ)
    → IsValid s.allocator
    → Moves forbidden s s src 0 []
Moves-nil forbidden s src v = record {
  valid = v;
  moved = refl;
  same_used = refl;
  risen = omega arith;
  frame = λ x h. refl;
  contents = refl;
  settled = λ x h. cc;
  allowed = λ x h. cc;
  origin = λ x h. cc;
}

pub Moves-cast :
    (forbidden : Ranges) (s s' : Copying) (src src' n n' : ℕ) (rs : List Range)
    → src ≡ src'
    → n ≡ n'
    → Moves forbidden s s' src n rs
    → Moves forbidden s s' src' n' rs
Moves-cast forbidden s s' src src' n n' rs e f p =
    subst (λ x. Moves forbidden s s' x n' rs) e (subst (λ x. Moves forbidden s s' src x rs) f p)
