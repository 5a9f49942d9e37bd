-- ===== src/Serialization/StreamArchiver/Elsewhere.antt =====
-- Steps of the rest of the program between two calls of the archiver.
use ofs_convert_rs.Common.{
  ℕ, ◌≤◌, ◌≡◌, refl, ap, ◌∙◌, true, Option, none, some, List, length, arith,
}
use ofs_convert_rs.Ranges.Cover.{covers}
use ofs_convert_rs.Allocator.{Allocator}
use ofs_convert_rs.Allocator.Valid.{IsValid}
use ofs_convert_rs.Memory.{Memory}
use ofs_convert_rs.Serialization.FatSerializer.{Copying}
use ofs_convert_rs.Serialization.FatSerializer.Moves.{is_settled, settled_later}
use ofs_convert_rs.Serialization.StreamArchiver.{Compiler, StreamArchiver, read_at}
use ofs_convert_rs.Serialization.StreamArchiver.Linking.{IsPage, IsReady, Linked}
use ofs_convert_rs.Serialization.StreamArchiver.Landing.{
  Lands, handed_out-settled, previous-settled,
}

Linked-earlier :
    (c : Compiler) (o head head₁ : Option ℕ) (m m' m₁ : Memory) (idx : ℕ)
    → Linked c o head m head₁ m₁ idx
    → ((p : ℕ) → o ≡ some p → m p ≡ m' p)
    → Linked c o head m' head₁ m₁ idx
Linked-earlier c none head head₁ m m' m₁ idx k h = k
Linked-earlier c (some p) head head₁ m m' m₁ idx (k, k', k'') h =
    (k, k', λ q n g. k'' q n g ∙ ap (read_at q n) (h p refl))

-- What the rest of the program does to the shared allocator and clusters between two calls.
pub record Elsewhere (s s' : Copying) : Type 0 where
  pub valid : IsValid s'.allocator
  pub moved : s'.allocator ≡ record s.allocator { cursor = s'.allocator.cursor }
  pub risen : s.allocator.cursor ≤ s'.allocator.cursor
  pub frame : (x : ℕ) → is_settled s.allocator x ≡ true → s'.memory x ≡ s.memory x

abbrev pub share : StreamArchiver → Copying → StreamArchiver
share a s = record a { shared = s }

IsPage-Elsewhere :
    (s s' : Copying) (size : ℕ) (o : Option ℕ) → Elsewhere s s' → IsPage s size o → IsPage s' size o
IsPage-Elsewhere s s' size none e w = w
IsPage-Elsewhere s s' size (some p) e (low, high, whole, unused) =
    let start : s'.allocator.valid_cluster_indices.start ≡ s.allocator.valid_cluster_indices.start =
      ap (λ (x : Allocator). x.valid_cluster_indices.start) e.moved in
    (
      omega arith,
      omega (arith, e.risen),
      ap length (e.frame p (handed_out-settled s.allocator p high)) ∙ whole,
      ap (λ (x : Allocator). covers x.used_ranges p) e.moved ∙ unused,
    )

pub Elsewhere-IsReady :
    (c : Compiler) (a : StreamArchiver) (s : Copying)
    → IsReady c a
    → Elsewhere a.shared s
    → IsReady c (share a s)
Elsewhere-IsReady c a s r e = record {
  valid = e.valid;
  filled = r.filled;
  fits = ap (λ (x : Allocator). x.cluster_size) e.moved ∙ r.fits;
  addressed = rw (ap (λ (x : Allocator). x.valid_cluster_indices) e.moved) r.addressed;
  room = r.room;
  behind = r.behind;
  inside = r.inside;
  page = IsPage-Elsewhere a.shared s a.page_size a.previous_page_idx e r.page;
}

pub Lands-Elsewhere :
    (c : Compiler) (a done : StreamArchiver) (s : Copying) (objects : List (List ℕ))
    → IsReady c a
    → Elsewhere a.shared s
    → Lands c (share a s) done objects
    → Lands c a done objects
Lands-Elsewhere c a done s objects r e k =
    let used : s.allocator.used_ranges ≡ a.shared.allocator.used_ranges =
      ap (λ (x : Allocator). x.used_ranges) e.moved in
    record {
      idx = k.idx;
      low = k.low;
      high = k.high;
      risen = omega (arith, k.risen, e.risen);
      same_page_size = k.same_page_size;
      same_bounds = k.same_bounds ∙ ap (λ (x : Allocator). x.valid_cluster_indices) e.moved;
      ready = k.ready;
      page = k.page;
      stream = k.stream;
      linked =
          Linked-earlier c a.previous_page_idx a.head done.head s.memory a.shared.memory
            done.shared.memory k.idx k.linked
            (λ p f.
              e.frame p (previous-settled a.shared a.page_size a.previous_page_idx p r.page f));
      frame = λ x h p.
          k.frame x (settled_later a.shared.allocator s.allocator x used e.risen h) p ∙ e.frame x h;
    }
