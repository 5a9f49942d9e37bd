-- ===== src/Serialization/StreamArchiver/Landing.antt =====
-- Where the current page and the objects still to be added are found once the archive is complete.
use ofs_convert_rs.Common.{
  ℕ, ◌+◌, ◌≤◌, ◌<◌, ◌≡◌, ◌≢◌, refl, sym, ap, subst, ◌∙◌, true, false, Option, none, some, List, [],
  ◌∷◌, length, arith, inl, inr,
}
use ofs_convert_rs.Allocator.{Allocator}
use ofs_convert_rs.Memory.{Memory}
use ofs_convert_rs.Serialization.FatSerializer.{Copying}
use ofs_convert_rs.Serialization.FatSerializer.Moves.{is_settled}
use ofs_convert_rs.Serialization.StreamArchiver.{
  Compiler, StreamArchiver, read_at, read_at-write_at, read_at-before,
}
use ofs_convert_rs.Serialization.StreamArchiver.Stream.{Stream}
use ofs_convert_rs.Serialization.StreamArchiver.Linking.{IsPage, IsReady, Linked}
use ofs_convert_rs.Serialization.StreamArchiver.Writing.{Writes}
use ofs_convert_rs.Serialization.StreamArchiver.Adding.{put}

-- The archiver `a` has become `done`: its current page is the cluster `idx`, and `objects` follow what
-- was in it.
pub record Lands (c : Compiler) (a done : StreamArchiver) (objects : List (List ℕ)) : Type 0 where
  pub idx : ℕ
  pub low : done.shared.allocator.valid_cluster_indices.start ≤ idx
  pub high : idx < done.shared.allocator.cursor
  pub risen : a.shared.allocator.cursor ≤ done.shared.allocator.cursor
  pub same_page_size : done.page_size ≡ a.page_size
  pub same_bounds :
      done.shared.allocator.valid_cluster_indices ≡ a.shared.allocator.valid_cluster_indices
  pub ready : IsReady c done
  pub page :
      (q n : ℕ)
      → c.option_size ≤ q
      → q + n ≤ a.position_in_current_page
      → read_at q n (done.shared.memory idx) ≡ read_at q n a.current_page
  pub stream :
      Stream c done.shared.memory done.page_size done.shared.allocator.valid_cluster_indices.start
        done.shared.allocator.cursor
        (done.shared.memory idx)
        a.position_in_current_page
        objects
  pub linked : Linked c a.previous_page_idx a.head a.shared.memory done.head done.shared.memory idx
  pub frame :
      (x : ℕ)
      → is_settled a.shared.allocator x ≡ true
      → a.previous_page_idx ≢ some x
      → done.shared.memory x ≡ a.shared.memory x

-- The page is written out and no object follows.
pub Writes-Lands :
    (c : Compiler) (a done : StreamArchiver) (i : ℕ)
    → IsReady c a
    → Writes c a done i
    → Lands c a done []
Writes-Lands c a done i r w = record {
  idx = i;
  low = rw w.same_bounds w.low;
  high = w.high;
  risen = w.risen;
  same_page_size = w.same_page_size;
  same_bounds = w.same_bounds;
  ready = w.ready;
  page = λ q n h k. ap (read_at q n) w.stored;
  stream = omega (arith, r.inside, w.same_page_size);
  linked = w.linked;
  frame = w.frame;
}

-- An object that fits the page is added first.
pub Lands-put :
    (c : Compiler) (a done : StreamArchiver) (object : List ℕ) (objects : List (List ℕ))
    → IsReady c a
    → a.position_in_current_page + length object ≤ a.page_size
    → Lands c (put a object) done objects
    → Lands c a done (object ∷ objects)
Lands-put c a done object objects r fits w = record {
  idx = w.idx;
  low = w.low;
  high = w.high;
  risen = w.risen;
  same_page_size = w.same_page_size;
  same_bounds = w.same_bounds;
  ready = w.ready;
  page = λ q n h k.
      w.page q n h (omega arith)
      ∙ read_at-before q n a.position_in_current_page object a.current_page k;
  stream = inl (
    omega (arith, w.same_page_size),
    w.page a.position_in_current_page (length object) r.behind (omega arith)
        ∙ read_at-write_at a.position_in_current_page object a.current_page
            (omega (arith, r.filled)),
    w.stream,
  );
  linked = w.linked;
  frame = w.frame;
}

Linked-later :
    (c : Compiler) (o head head₁ head₂ : Option ℕ) (m m₁ m₂ : Memory) (idx : ℕ)
    → Linked c o head m head₁ m₁ idx
    → head₂ ≡ head₁
    → ((p : ℕ) → o ≡ some p → m₂ p ≡ m₁ p)
    → Linked c o head m head₂ m₂ idx
Linked-later c none head head₁ head₂ m m₁ m₂ idx k e h = e ∙ k
Linked-later c (some p) head head₁ head₂ m m₁ m₂ idx (k, k', k'') e h =
    let same : m₂ p ≡ m₁ p = h p refl in
    (
      e ∙ k,
      ap (λ x. c.option_of (read_at 0 c.option_size x)) same ∙ k',
      λ q n g. ap (read_at q n) same ∙ k'' q n g,
    )

pub handed_out-settled : (a : Allocator) (x : ℕ) → x < a.cursor → is_settled a x ≡ true
handed_out-settled a x h = ground arith

pub previous-settled :
    (s : Copying) (size : ℕ) (o : Option ℕ) (p : ℕ)
    → IsPage s size o
    → o ≡ some p
    → is_settled s.allocator p ≡ true
previous-settled s size none p w e = cc
previous-settled s size (some q) p (low, high, whole, unused) e =
    let same : q ≡ p = cc in handed_out-settled s.allocator p (omega arith)

other_page :
    (a : Allocator) (i x : ℕ) → is_settled a i ≡ false → is_settled a x ≡ true → some i ≢ some x
other_page a i x h k e = let same : i ≡ x = cc in cc

-- What is found at the start of the objects of a page that can hold the first of them.
first_of :
    (c : Compiler) (m : Memory) (size lo hi pos start : ℕ) (page object : List ℕ)
    (objects : List (List ℕ))
    → pos ≡ start
    → start + length object ≤ size
    → Stream c m size lo hi page pos (object ∷ objects)
    → (read_at start (length object) page ≡ object)
      × Stream c m size lo hi page (start + length object) objects
first_of c m size lo hi pos start page object objects e h s =
    elim (subst (λ x. Stream c m size lo hi page x (object ∷ objects)) e s) [
      | inl (fits, found, rest) ↦ (found, rest)
      | inr (l, past, more) ↦ absurd (omega arith)
    ]

-- An object that does not fit the page is the first of the next page.
pub Lands-turn :
    (c : Compiler) (a a₁ done : StreamArchiver) (i : ℕ) (object : List ℕ) (objects : List (List ℕ))
    → IsReady c a
    → a.page_size < a.position_in_current_page + length object
    → Writes c a a₁ i
    → c.option_size + length object ≤ a.page_size
    → Lands c a₁ done (object ∷ objects)
    → Lands c a done (object ∷ objects)
Lands-turn c a a₁ done i object objects r past w fits k =
    let m : Memory = done.shared.memory in
    let link : Linked c (some i) a₁.head a₁.shared.memory done.head m k.idx =
      subst (λ x. Linked c x a₁.head a₁.shared.memory done.head m k.idx) w.previous k.linked in
    let later : (x : ℕ) → is_settled a.shared.allocator x ≡ true → m x ≡ a₁.shared.memory x = λ x h.
      k.frame x (w.settled x h)
        (λ e. other_page a.shared.allocator i x w.fresh h (sym w.previous ∙ e)) in
    let size : done.page_size ≡ a.page_size = k.same_page_size ∙ w.same_page_size in
    let fits_done : c.option_size + length object ≤ done.page_size = omega arith in
    let (found, rest) =
      first_of c m done.page_size done.shared.allocator.valid_cluster_indices.start
        done.shared.allocator.cursor a₁.position_in_current_page c.option_size (m k.idx) object
        objects w.position fits_done k.stream in
    record {
      idx = i;
      low = rw (k.same_bounds, w.same_bounds) w.low;
      risen = omega (arith, k.risen, w.risen);
      high = omega (arith, w.high, k.risen);
      same_page_size = size;
      same_bounds = k.same_bounds ∙ w.same_bounds;
      ready = k.ready;
      page = λ q n h g. link.2 q n h ∙ ap (read_at q n) w.stored;
      stream = inr (
        omega (arith, r.inside),
        omega arith,
        (k.idx, link.1, k.low, k.high, fits_done, found, rest),
      );
      linked =
          Linked-later c a.previous_page_idx a.head a₁.head done.head a.shared.memory
            a₁.shared.memory m i w.linked link.0
            (λ p e. later p (previous-settled a.shared a.page_size a.previous_page_idx p r.page e));
      frame = λ x h p. later x h ∙ w.frame x h p;
    }
