-- ===== src/Serialization/StreamArchiver/RoundTrip.antt =====
-- What was archived is read back.
use ofs_convert_rs.Common.{
  ok_injective, >>=-eq-ok, unwrap, ℕ, ◌+◌, ◌*◌, ◌≤◌, ◌<◌, ◌≡◌, ◌≢◌, refl, sym, ap, subst, ◌∙◌, none,
  some, List, [], ◌∷◌, map, lt→ltb, if◌then◌else◌, arith, ok, err, panic, ◌>>=◌, ◌⊎◌, inl, inr,
  no_free_clusters,
}
use ofs_convert_rs.Ranges.{usize_max}
use ofs_convert_rs.Allocator.{Allocator, reader_start_byte, split_into_reader}
use ofs_convert_rs.Allocator.Valid.{IsValid}
use ofs_convert_rs.Allocator.Split.{split_into_reader-parts, split_into_reader-IsValid}
use ofs_convert_rs.Memory.{Memory}
use ofs_convert_rs.Serialization.FatSerializer.{Copying}
use ofs_convert_rs.Serialization.StreamArchiver.{
  Compiler, ArchivedType, StreamArchiver, new, write_page, finalize,
}
use ofs_convert_rs.Serialization.StreamArchiver.Reader
use ofs_convert_rs.Serialization.StreamArchiver.Reader.{Reader, split_off, into_reader, next}
use ofs_convert_rs.Serialization.StreamArchiver.Stream.{Stream, IsAt}
use ofs_convert_rs.Serialization.StreamArchiver.Linking.{IsLayout, IsReady, Linked}
use ofs_convert_rs.Serialization.StreamArchiver.Landing.{Lands}
use ofs_convert_rs.Serialization.StreamArchiver.Runs.{
  Batch, Archives, AllFit, objects_of, Completes-Lands, Archives-Completes,
}
use ofs_convert_rs.Serialization.StreamArchiver.Reading.{
  next_all, next_all-lem, AreBatches, Stream-agree,
}
use ofs_convert_rs.Serialization.StreamArchiver.Progress.{
  new-IsReady, Archives-IsReady, finish-cases, AllFit-append, IsBatch-AllFit, header-fits,
}

objects_of-AllFit :
    (c : Compiler) (page_size : ℕ) (batches : List Batch)
    → IsLayout c
    → c.option_size + c.header_size ≤ page_size
    → AreBatches c page_size batches
    → AllFit c page_size (objects_of c batches)
objects_of-AllFit c page_size [] l room k = (header-fits c page_size _ l room, tt)
objects_of-AllFit c page_size (batch ∷ batches) l room (k, ks) = (
  header-fits c page_size _ l room,
  AllFit-append c page_size batch.objects (objects_of c batches)
      (IsBatch-AllFit c page_size batch k) (objects_of-AllFit c page_size batches l room ks),
)

readable-lem :
    (a : Allocator) (i : ℕ)
    → IsValid a
    → a.cluster_size * a.valid_cluster_indices.end ≤ usize_max
    → a.valid_cluster_indices.start ≤ i
    → i < a.cursor
    → reader_start_byte (split_into_reader a).0 i ≡ some (a.cluster_size * i)
readable-lem a i v f low high =
    (split_into_reader-parts a i v low (omega (arith, v.not_past)) f).1
    ∙ ap (λ b. if b then some (a.cluster_size * i) else none) (lt→ltb i a.cursor high)

-- The reader that `into_reader` returns, and the shared state that is left.
abbrev reader_of : Compiler → StreamArchiver → ℕ → Reader
reader_of c done idx = record {
  current_page = done.shared.memory idx;
  page_size = done.page_size;
  position_in_current_page = c.option_size;
  current_header = record { len = 0; type_id = c.unit_type };
  allocator = (split_into_reader done.shared.allocator).0;
}

abbrev left_of : StreamArchiver → Copying
left_of done = record {
  allocator = (split_into_reader done.shared.allocator).1;
  memory = done.shared.memory;
}

split_off-lem :
    (c : Compiler) (done : StreamArchiver) (idx byte : ℕ)
    → done.head ≡ some idx
    → reader_start_byte (split_into_reader done.shared.allocator).0 idx ≡ some byte
    → split_off c done ≡ ok (reader_of c done idx, left_of done)
unfolding split_off
split_off-lem c done idx byte f g = rw (f, g) refl

into_reader-lem :
    (c : Compiler) (a done : StreamArchiver)
    → (finalize c a >>= write_page c) ≡ ok done
    → into_reader c a ≡ split_off c done
unfolding into_reader
into_reader-lem c a done e = ap (λ m. m >>= split_off c) e

into_reader-err :
    (c : Compiler) (a : StreamArchiver)
    → (finalize c a >>= write_page c) ≡ err no_free_clusters
    → into_reader c a ≡ err no_free_clusters
unfolding into_reader
into_reader-err c a e = ap (λ m. m >>= split_off c) e

reader-IsAt :
    (c : Compiler) (a done : StreamArchiver) (objects : List (List ℕ)) (m : Memory)
    → a.position_in_current_page ≡ c.option_size
    → (w : Lands c a done objects)
    → ((x : ℕ) → x < done.shared.allocator.cursor → m x ≡ done.shared.memory x)
    → IsAt c m done.shared.allocator.valid_cluster_indices.start done.shared.allocator.cursor
        (reader_of c done w.idx)
        objects
reader-IsAt c a done objects m e w h =
    let al : Allocator = done.shared.allocator in
    let low : ℕ = al.valid_cluster_indices.start in
    let addressed : al.cluster_size * al.valid_cluster_indices.end ≤ usize_max =
      subst (λ x. x * al.valid_cluster_indices.end ≤ usize_max) (sym w.ready.fits)
        w.ready.addressed in
    record {
      stream =
          Stream-agree c done.shared.memory m done.page_size low al.cursor
            (done.shared.memory w.idx) c.option_size objects (λ x l k. h x k)
            (subst
              (λ p.
                Stream c done.shared.memory done.page_size low al.cursor (done.shared.memory w.idx)
                  p objects)
              e w.stream);
      readable = λ i l k. (al.cluster_size * i, readable-lem al i w.ready.valid addressed l k);
    }

-- What the archive of the batches promises of the reader and the shared state that `into_reader` returns.
abbrev pub ReadsBack : Compiler → List Batch → Reader → Copying → Type 0
ReadsBack c batches r s =
    (m : Memory)
    → ((x : ℕ) → x < s.allocator.cursor → m x ≡ s.memory x)
    → (r' : Reader) × (next_all c m (map (λ (b : Batch). b.type) batches) r
        ≡ ok (map (λ (b : Batch). b.objects) batches, r'))
      × ((t : ArchivedType) → t.type_id ≢ c.end_type → next c m t r' ≡ panic)

landed-reads :
    (c : Compiler) (a last done : StreamArchiver) (batches : List Batch)
    → IsLayout c
    → AreBatches c a.page_size batches
    → a.position_in_current_page ≡ c.option_size
    → a.previous_page_idx ≡ none
    → (finalize c last >>= write_page c) ≡ ok done
    → Lands c a done (objects_of c batches)
    → (r : Reader) × (s : Copying) × (into_reader c last ≡ ok (r, s))
      × IsValid s.allocator
      × ReadsBack c batches r s
unfolding split_into_reader
landed-reads c a last done batches l k e p f w =
    let al : Allocator = done.shared.allocator in
    let addressed : al.cluster_size * al.valid_cluster_indices.end ≤ usize_max =
      subst (λ x. x * al.valid_cluster_indices.end ≤ usize_max) (sym w.ready.fits)
        w.ready.addressed in
    let head : done.head ≡ some w.idx =
      subst (λ o. Linked c o a.head a.shared.memory done.head done.shared.memory w.idx) p
        w.linked in
    (
      reader_of c done w.idx,
      left_of done,
      into_reader-lem c last done f
          ∙ split_off-lem c done w.idx (al.cluster_size * w.idx) head
              (readable-lem al w.idx w.ready.valid addressed w.low w.high),
      split_into_reader-IsValid al w.ready.valid,
      λ m h.
          next_all-lem c m al.valid_cluster_indices.start al.cursor a.page_size batches
            (reader_of c done w.idx) l k (reader-IsAt c a done (objects_of c batches) m e w h),
    )

-- The archive's calls, and what they leave once the last page is written out.
pub Archives-Lands :
    (c : Compiler) (a last done : StreamArchiver) (batches : List Batch)
    → IsLayout c
    → IsReady c a
    → AreBatches c a.page_size batches
    → (finalize c last >>= write_page c) ≡ ok done
    → Archives c last a batches
    → Lands c a done (objects_of c batches)
Archives-Lands c a last done batches l r k f run =
    Completes-Lands c l r (objects_of-AllFit c a.page_size batches l r.room k)
      (Archives-Completes c f run)

-- A new archiver, to which batches were archived in turn while the rest of the program used the
-- allocator and its clusters in between, either runs out of clusters in `into_reader` or becomes a
-- reader that returns exactly these batches, in their order, and panics at any further call of `next`;
-- and that whatever becomes of the clusters that the returned allocator, a valid one, may hand out.
-- It is assumed that a page is a cluster, that all clusters are addressable, and that an object of each
-- batch and a header fit a page.
pub into_reader-ReadsBack :
    (c : Compiler) (s : Copying) (page_size : ℕ) (batches : List Batch) (a last : StreamArchiver)
    → IsLayout c
    → IsValid s.allocator
    → s.allocator.cluster_size ≡ page_size
    → page_size * s.allocator.valid_cluster_indices.end ≤ usize_max
    → c.option_size + c.header_size ≤ page_size
    → AreBatches c page_size batches
    → new c s page_size ≡ ok a
    → Archives c last a batches
    → ((r : Reader) × (s' : Copying) × (into_reader c last ≡ ok (r, s'))
        × IsValid s'.allocator
        × ReadsBack c batches r s')
      ⊎ (into_reader c last ≡ err no_free_clusters)
into_reader-ReadsBack c s page_size batches a last l v size addressed room k e run =
    let (a₀, e₀, r₀, same, none_before, start, _) =
      new-IsReady c s page_size v size addressed room in
    let at : a₀ ≡ a = ok_injective (sym e₀ ∙ e) in
    let (r, sized, first, begins) =
      subst
        (λ (x : StreamArchiver).
          IsReady c x
          × (x.page_size ≡ page_size)
          × (x.previous_page_idx ≡ none)
          × (x.position_in_current_page ≡ c.option_size))
        at (r₀, same, none_before, start) in
    let k' : AreBatches c a.page_size batches = subst (λ x. AreBatches c x batches) (sym sized) k in
    let (ready, _) = Archives-IsReady c page_size l r sized k run in
    elim (finish-cases c last l ready) [
      | inr f ↦ inr (into_reader-err c last f)
      | inl (done, f) ↦ inl (
          landed-reads c a last done batches l k' begins first f
            (Archives-Lands c a last done batches l r k' f run))
    ]

-- What `into_reader` leaves in the clusters is what the last `write_page` left.
pub into_reader-memory :
    (c : Compiler) (last : StreamArchiver) {r : Reader} {s : Copying}
    → into_reader c last ≡ ok (r, s)
    → (done : StreamArchiver) × ((finalize c last >>= write_page c) ≡ ok done)
      × (s.memory ≡ done.shared.memory)
unfolding into_reader split_off
into_reader-memory c last e =
    let (done, f, g) = >>=-eq-ok (finalize c last >>= write_page c) _ e in
    let (head, _, h) = >>=-eq-ok (unwrap done.head) _ g in
    let (reader, _, k) = >>=-eq-ok (Reader.new c head done.page_size _ done.shared.memory) _ h in
    (done, f, sym (ap (λ (p : Reader × Copying). p.1.memory) (ok_injective k)))
