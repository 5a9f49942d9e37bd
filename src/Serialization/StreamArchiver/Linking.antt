-- ===== src/Serialization/StreamArchiver/Linking.antt =====
-- How pages are linked: the layout of the objects, the invariant of the archiver, and the memory behind it.
use ofs_convert_rs.Common.{
  ℕ, ◌+◌, ◌*◌, ◌≤◌, ◌<◌, ◌≡◌, ◌≢◌, refl, sym, ap, subst, ◌∙◌, true, Option, none, some, List,
  length, ◌==◌, arith, ok, false,
}
use ofs_convert_rs.Ranges.Cover.{covers}
use ofs_convert_rs.Ranges.{usize_max}
use ofs_convert_rs.Allocator.{Allocator, allocate_one, cluster_start_byte}
use ofs_convert_rs.Allocator.Valid.{IsValid}
use ofs_convert_rs.Allocator.Split.{split_into_reader-parts}
use ofs_convert_rs.Memory.{Memory, update, update_self, update_ne}
use ofs_convert_rs.Serialization.FatSerializer.{Copying}
use ofs_convert_rs.Serialization.StreamArchiver.{
  Header, Compiler, StreamArchiver, link, reset_page, write_page, write_at, read_at,
  read_at-write_at, read_at-behind,
}

-- What the compiler's layout promises: each value has the bytes of its type, and is read back.
pub record IsLayout (c : Compiler) : Type 0 where
  pub option_length : (o : Option ℕ) → length (c.option_bytes o) ≡ c.option_size
  pub option_inverse : (o : Option ℕ) → c.option_of (c.option_bytes o) ≡ o
  pub header_length : (h : Header) → length (c.header_bytes h) ≡ c.header_size
  pub header_inverse : (h : Header) → c.header_of (c.header_bytes h) ≡ h

-- A page that was written out before, to a cluster that was not in use.
abbrev pub IsPage : Copying → ℕ → Option ℕ → Type 0
IsPage s size none = Unit {0}
IsPage s size (some p) =
    (s.allocator.valid_cluster_indices.start ≤ p)
    × (p < s.allocator.cursor)
    × (length (s.memory p) ≡ size)
    × (covers s.allocator.used_ranges p ≡ false)

-- The invariant of the archiver.
pub record IsReady (c : Compiler) (a : StreamArchiver) : Type 0 where
  pub valid : IsValid a.shared.allocator
  pub filled : length a.current_page ≡ a.page_size
  pub fits : a.shared.allocator.cluster_size ≡ a.page_size
  pub addressed : a.page_size * a.shared.allocator.valid_cluster_indices.end ≤ usize_max
  pub room : c.option_size + c.header_size ≤ a.page_size
  pub behind : c.option_size ≤ a.position_in_current_page
  pub inside : a.position_in_current_page ≤ a.page_size
  pub page : IsPage a.shared a.page_size a.previous_page_idx

abbrev pub head_after : Option ℕ → ℕ → Option ℕ → Option ℕ
head_after none i head = some i
head_after (some p) i head = head

abbrev pub memory_after : Compiler → Option ℕ → ℕ → Memory → Memory
memory_after c none i m = m
memory_after c (some p) i m = update m p (write_at 0 (c.option_bytes (some i)) (m p))

-- Between two memories, the page before `idx` got its pointer and lost nothing else; the first page is
-- the head.
abbrev pub Linked : Compiler → Option ℕ → Option ℕ → Memory → Option ℕ → Memory → ℕ → Type 0
Linked c none head m head' m' idx = head' ≡ some idx
Linked c (some p) head m head' m' idx =
    (head' ≡ head)
    × (c.option_of (read_at 0 c.option_size (m' p)) ≡ some idx)
    × ((q n : ℕ) → c.option_size ≤ q → read_at q n (m' p) ≡ read_at q n (m p))

pub start_byte-lem :
    (a : Allocator) (i : ℕ)
    → IsValid a
    → a.valid_cluster_indices.start ≤ i
    → i < a.valid_cluster_indices.end
    → a.cluster_size * a.valid_cluster_indices.end ≤ usize_max
    → cluster_start_byte a i ≡ some (a.cluster_size * i)
start_byte-lem a i v h k fits = (split_into_reader-parts a i v h k fits).0

pub link-lem :
    (c : Compiler) (o : Option ℕ) (i : ℕ) (a : StreamArchiver)
    → ((p : ℕ) → o ≡ some p → (byte : ℕ) × (cluster_start_byte a.shared.allocator p ≡ some byte))
    → link c o i a
      ≡ ok (record a {
        head = head_after o i a.head;
        shared = record {
          allocator = a.shared.allocator;
          memory = memory_after c o i a.shared.memory;
        };
      })
unfolding link
link-lem c none i a h = refl
link-lem c (some p) i a h = rw (h p refl).1 refl

pub write_page-lem :
    (c : Compiler) (a : StreamArchiver) (i byte : ℕ) (al : Allocator) (a₁ : StreamArchiver)
    → allocate_one a.shared.allocator ≡ ok (i, al)
    → cluster_start_byte al i ≡ some byte
    → length a.current_page ≡ al.cluster_size
    → link c a.previous_page_idx i (record a {
      shared = record { allocator = al; memory = update a.shared.memory i a.current_page };
    })
      ≡ ok a₁
    → write_page c a ≡ ok (reset_page c (record a₁ { previous_page_idx = some i }))
unfolding write_page
write_page-lem c a i byte al a₁ e f g h =
    let equal : (length a.current_page == al.cluster_size) ≡ true = ground arith in
    rw (e, f, equal, h) refl

-- The memory after the new page `i` and the pointer to it are written.
pub memory_after-new :
    (c : Compiler) (o : Option ℕ) (i : ℕ) (m : Memory) (page : List ℕ)
    → o ≢ some i
    → memory_after c o i (update m i page) i ≡ page
memory_after-new c none i m page h = update_self m i page
memory_after-new c (some p) i m page h =
    update_ne (update m i page) p i (write_at 0 (c.option_bytes (some i)) (update m i page p))
      (λ e. h (ap some e))
    ∙ update_self m i page

pub memory_after-kept :
    (c : Compiler) (o : Option ℕ) (i x : ℕ) (m : Memory) (page : List ℕ)
    → x ≢ i
    → o ≢ some x
    → memory_after c o i (update m i page) x ≡ m x
memory_after-kept c none i x m page n h = update_ne m i x page (λ e. n (sym e))
memory_after-kept c (some p) i x m page n h =
    update_ne (update m i page) p x (write_at 0 (c.option_bytes (some i)) (update m i page p))
      (λ e. h (ap some e))
    ∙ update_ne m i x page (λ e. n (sym e))

pointer-written :
    (c : Compiler) (i : ℕ) (page : List ℕ)
    → IsLayout c
    → c.option_size ≤ length page
    → c.option_of (read_at 0 c.option_size (write_at 0 (c.option_bytes (some i)) page)) ≡ some i
pointer-written c i page l h =
    let n : length (c.option_bytes (some i)) ≡ c.option_size = l.option_length (some i) in
    let found : read_at 0 c.option_size (write_at 0 (c.option_bytes (some i)) page)
        ≡ c.option_bytes (some i) =
      subst (λ x. read_at 0 x (write_at 0 (c.option_bytes (some i)) page) ≡ c.option_bytes (some i))
        n (read_at-write_at 0 (c.option_bytes (some i)) page (omega arith)) in
    ap c.option_of found ∙ l.option_inverse (some i)

pub memory_after-Linked :
    (c : Compiler) (o : Option ℕ) (i : ℕ) (s : Copying) (size : ℕ) (page : List ℕ) (head : Option ℕ)
    → IsLayout c
    → c.option_size ≤ size
    → s.allocator.cursor ≤ i
    → IsPage s size o
    → Linked c o head s.memory (head_after o i head) (memory_after c o i (update s.memory i page)) i
memory_after-Linked c none i s size page head l h fresh w = refl
memory_after-Linked c (some p) i s size page head l h fresh (low, high, whole, unused) =
    let m : Memory = update s.memory i page in
    let old : m p ≡ s.memory p = update_ne s.memory i p page (λ e. omega arith) in
    let written : update m p (write_at 0 (c.option_bytes (some i)) (m p)) p
        ≡ write_at 0 (c.option_bytes (some i)) (s.memory p) =
      update_self m p (write_at 0 (c.option_bytes (some i)) (m p))
      ∙ ap (write_at 0 (c.option_bytes (some i))) old in
    (
      refl,
      ap (λ x. c.option_of (read_at 0 c.option_size x)) written
          ∙ pointer-written c i (s.memory p) l (omega arith),
      λ q n g.
          ap (read_at q n) written
          ∙ read_at-behind q n 0 (c.option_bytes (some i)) (s.memory p)
              (omega (arith, l.option_length (some i))),
    )
