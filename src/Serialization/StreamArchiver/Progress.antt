-- ===== src/Serialization/StreamArchiver/Progress.antt =====
-- No call of the archiver panics: it goes on or runs out of clusters.
use ofs_convert_rs.Common.{
  ok_injective, err≢ok, ℕ, ◌+◌, ◌*◌, ◌≤◌, ◌≡◌, refl, sym, subst, ◌∙◌, none, List, [], ◌∷◌, ◌++◌,
  length, le→leb, replicate, length-replicate, arith, Outcome, ok, err, ◌>>=◌, ◌⊎◌, inl, inr,
  no_free_clusters,
}
use ofs_convert_rs.Ranges.{Ranges, usize_max}
use ofs_convert_rs.Allocator.Valid.{IsValid}
use ofs_convert_rs.Serialization.FatSerializer.{Copying}
use ofs_convert_rs.Serialization.StreamArchiver.{
  Header, Compiler, StreamArchiver, new, write_page, add_object, add_objects, archive, finalize,
}
use ofs_convert_rs.Serialization.StreamArchiver.Reader.{next}
use ofs_convert_rs.Serialization.StreamArchiver.Linking.{IsLayout, IsReady}
use ofs_convert_rs.Serialization.StreamArchiver.Writing.{write_page-cases}
use ofs_convert_rs.Serialization.StreamArchiver.Adding.{put, put-IsReady, add_object-cases}
use ofs_convert_rs.Serialization.StreamArchiver.Elsewhere.{Elsewhere-IsReady}
use ofs_convert_rs.Serialization.StreamArchiver.Runs.{
  Batch, Archives, finished, archived, meanwhile, AllFit,
}
use ofs_convert_rs.Serialization.StreamArchiver.Reading.{AllSize, IsBatch, AreBatches}

-- The page size and the used clusters do not change.
abbrev pub Kept : ℕ → Ranges → StreamArchiver → Type 0
Kept size used a = (a.page_size ≡ size) × (a.shared.allocator.used_ranges ≡ used)

-- What a call leaves if it does not run out of clusters.
abbrev pub Continues : Compiler → ℕ → Ranges → Outcome StreamArchiver → Type 0
Continues c size used m =
    ((a : StreamArchiver) × (m ≡ ok a) × IsReady c a × Kept size used a)
    ⊎ (m ≡ err no_free_clusters)

pub new-IsReady :
    (c : Compiler) (s : Copying) (page_size : ℕ)
    → IsValid s.allocator
    → s.allocator.cluster_size ≡ page_size
    → page_size * s.allocator.valid_cluster_indices.end ≤ usize_max
    → c.option_size + c.header_size ≤ page_size
    → (a : StreamArchiver) × (new c s page_size ≡ ok a)
      × IsReady c a
      × (a.page_size ≡ page_size)
      × (a.previous_page_idx ≡ none)
      × (a.position_in_current_page ≡ c.option_size)
      × (a.shared ≡ s)
unfolding new
new-IsReady c s page_size v e f room = (
  record {
    head = none;
    previous_page_idx = none;
    current_page = replicate page_size 0;
    page_size = page_size;
    position_in_current_page = c.option_size;
    shared = s;
  },
  rw (le→leb (c.option_size + c.header_size) page_size room) refl,
  record {
    valid = v;
    filled = length-replicate page_size 0;
    fits = e;
    addressed = f;
    room = room;
    behind = omega arith;
    inside = omega arith;
    page = tt;
  },
  refl,
  refl,
  refl,
  refl,
)

add_object-Continues :
    (c : Compiler) (a : StreamArchiver) (object : List ℕ)
    → IsLayout c
    → IsReady c a
    → c.option_size + length object ≤ a.page_size
    → Continues c a.page_size a.shared.allocator.used_ranges (add_object c object a)
add_object-Continues c a object l r h = elim (add_object-cases c a object l r h) [
  | inl (here, e) ↦ inl (put a object, e, put-IsReady c a object r here, (refl, refl))
  | inr (past, inr e) ↦ inr e
  | inr (past, inl (i, a₁, w, e)) ↦ inl (
    put a₁ object,
    e,
    put-IsReady c a₁ object w.ready (omega (arith, w.position, w.same_page_size)),
    (w.same_page_size, w.same_used),
  )
]

pub Continues->>= :
    (c : Compiler) (size : ℕ) (used : Ranges) (m : Outcome StreamArchiver)
    (next : StreamArchiver → Outcome StreamArchiver)
    → Continues c size used m
    → ((a : StreamArchiver) → IsReady c a → Kept size used a → Continues c size used (next a))
    → Continues c size used (m >>= next)
Continues->>= c size used m next (inl (a, e, r, k)) h =
    subst (λ x. Continues c size used (x >>= next)) (sym e) (h a r k)
Continues->>= c size used m next (inr e) h = inr (rw e refl)

pub Continues-Kept :
    (c : Compiler) (size : ℕ) (used : Ranges) (a : StreamArchiver) (m : Outcome StreamArchiver)
    → Kept size used a
    → Continues c a.page_size a.shared.allocator.used_ranges m
    → Continues c size used m
Continues-Kept c size used a m (e, f) k =
    subst (λ x. Continues c x used m) e (subst (λ y. Continues c a.page_size y m) f k)

add_objects-Continues :
    (c : Compiler) (size : ℕ) (used : Ranges) (objects : List (List ℕ)) (a : StreamArchiver)
    → IsLayout c
    → AllFit c size objects
    → IsReady c a
    → Kept size used a
    → Continues c size used (add_objects c objects a)
unfolding add_objects
add_objects-Continues c size used [] a l fits r k = inl (a, refl, r, k)
add_objects-Continues c size used (object ∷ objects) a l (fit, fits) r k =
    Continues->>= c size used (add_object c object a) (add_objects c objects)
      (Continues-Kept c size used a (add_object c object a) k
        (add_object-Continues c a object l r (omega (arith, k.0))))
      (λ a' r' k'. add_objects-Continues c size used objects a' l fits r' k')

pub AllFit-append :
    (c : Compiler) (size : ℕ) (xs ys : List (List ℕ))
    → AllFit c size xs
    → AllFit c size ys
    → AllFit c size (xs ++ ys)
AllFit-append c size [] ys h k = k
AllFit-append c size (x ∷ xs) ys (h, hs) k = (h, AllFit-append c size xs ys hs k)

AllSize-AllFit :
    (c : Compiler) (page_size size : ℕ) (xs : List (List ℕ))
    → c.option_size + size ≤ page_size
    → AllSize size xs
    → AllFit c page_size xs
AllSize-AllFit c page_size size [] h k = tt
AllSize-AllFit c page_size size (x ∷ xs) h (e, k) =
    (omega arith, AllSize-AllFit c page_size size xs h k)

pub IsBatch-AllFit :
    (c : Compiler) (page_size : ℕ) (batch : Batch)
    → IsBatch c page_size batch
    → AllFit c page_size batch.objects
IsBatch-AllFit c page_size batch (h, k) =
    AllSize-AllFit c page_size batch.type.size batch.objects h k

pub header-fits :
    (c : Compiler) (page_size : ℕ) (h : Header)
    → IsLayout c
    → c.option_size + c.header_size ≤ page_size
    → c.option_size + length (c.header_bytes h) ≤ page_size
header-fits c page_size h l room = omega (arith, l.header_length h)

-- On a ready archiver, `archive` adds objects that a page can hold and leaves the archiver ready, unless
-- it runs out of clusters.
pub archive-Continues :
    (c : Compiler) (a : StreamArchiver) (batch : Batch)
    → IsLayout c
    → IsReady c a
    → IsBatch c a.page_size batch
    → Continues c a.page_size a.shared.allocator.used_ranges (archive c batch.type batch.objects a)
unfolding archive
archive-Continues c a batch l r k =
    let h : Header = record { len = length batch.objects; type_id = batch.type.type_id } in
    Continues->>= c a.page_size a.shared.allocator.used_ranges (add_object c (c.header_bytes h) a)
      (add_objects c batch.objects)
      (add_object-Continues c a (c.header_bytes h) l r (header-fits c a.page_size h l r.room))
      (λ a' r' e'.
        add_objects-Continues c a.page_size a.shared.allocator.used_ranges batch.objects a' l
          (IsBatch-AllFit c a.page_size batch k) r' e')

pub archived-IsReady :
    (c : Compiler) (size : ℕ) (used : Ranges) (m : Outcome StreamArchiver) (a : StreamArchiver)
    → Continues c size used m
    → m ≡ ok a
    → IsReady c a × Kept size used a
archived-IsReady c size used m a (inl (a', e, r, k)) f =
    subst (λ x. IsReady c x × Kept size used x) (ok_injective (sym e ∙ f)) (r, k)
archived-IsReady c size used m a (inr e) f = absurd (err≢ok m e f)

-- A run leaves the archiver ready.
pub Archives-IsReady :
    (c : Compiler) (size : ℕ) {last a : StreamArchiver} {batches : List Batch}
    → IsLayout c
    → IsReady c a
    → a.page_size ≡ size
    → AreBatches c size batches
    → Archives c last a batches
    → IsReady c last × (last.page_size ≡ size)
Archives-IsReady c size l r e k finished = (r, e)
Archives-IsReady c size {a = a} l r e k (archived batch f more) =
    let (r', e') =
      archived-IsReady c a.page_size a.shared.allocator.used_ranges
        (archive c batch.type batch.objects a) _
        (archive-Continues c a batch l r (subst (λ x. IsBatch c x batch) (sym e) k.0)) f in
    Archives-IsReady c size l r' (e'.0 ∙ e) k.1 more
Archives-IsReady c size {a = a} l r e k (meanwhile s f more) =
    Archives-IsReady c size l (Elsewhere-IsReady c a s r f) e k more

-- The end of the archive is written, unless it runs out of clusters.
pub finish-cases :
    (c : Compiler) (a : StreamArchiver)
    → IsLayout c
    → IsReady c a
    → ((done : StreamArchiver) × ((finalize c a >>= write_page c) ≡ ok done))
      ⊎ ((finalize c a >>= write_page c) ≡ err no_free_clusters)
unfolding finalize
finish-cases c a l r =
    let h : Header = record { len = 0; type_id = c.end_type } in
    elim (add_object-Continues c a (c.header_bytes h) l r (header-fits c a.page_size h l r.room)) [
      | inr e ↦ inr (rw e refl)
      | inl (a', e, r', _) ↦ elim (write_page-cases c a' l r') [
        | inl (i, done, f, w) ↦ inl (done, rw e f)
        | inr f ↦ inr (rw e f)
      ]
    ]
