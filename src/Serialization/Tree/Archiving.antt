-- ===== src/Serialization/Tree/Archiving.antt =====
-- The serializer on the archiver and the allocator that the program gives it: what it archives is read
-- back.
use ofs_convert_rs.Common.{
  ℕ, ◌+◌, ◌*◌, ◌≤◌, ◌≡◌, sym, ap, subst, ◌∙◌, true, List, [], ◌∷◌, map, ok, err, ◌>>=◌, >>=-eq-ok,
  ok_injective, err≢ok, ◌⊎◌, inl, inr, no_free_clusters, ◌<◌, none,
}
use ofs_convert_rs.Ranges.{Range, Ranges, usize_max}
use ofs_convert_rs.Ranges.Cover.{covers, IsNormal}
use ofs_convert_rs.Allocator.Valid.{IsValid}
use ofs_convert_rs.Fat.BootSector.{cluster_size}
use ofs_convert_rs.Fat.Table.{FatFs}
use ofs_convert_rs.Serialization.FatSerializer.Moves.{Serves, MovesAll}
use ofs_convert_rs.Fat.Dentry.{Text}
use ofs_convert_rs.Fat.FileIter.{FatFile}
use ofs_convert_rs.Serialization.FatSerializer
use ofs_convert_rs.Serialization.FatSerializer.{Copying}
use ofs_convert_rs.Serialization.FatSerializer.DataRanges.{
  clusters_of, clusters_of-kept, IsUsed, make_file_non_overlapping-MovesAll,
}
use ofs_convert_rs.Serialization.StreamArchiver
use ofs_convert_rs.Serialization.StreamArchiver.{Compiler, StreamArchiver, write_page, finalize}
use ofs_convert_rs.Serialization.StreamArchiver.Reader.{Reader, into_reader}
use ofs_convert_rs.Serialization.StreamArchiver.Linking.{IsLayout, IsReady}
use ofs_convert_rs.Serialization.StreamArchiver.Elsewhere.{Elsewhere, Elsewhere-IsReady, share}
use ofs_convert_rs.Serialization.StreamArchiver.Runs.{
  objects_of, Batch, Archives, finished, archived, meanwhile,
}
use ofs_convert_rs.Serialization.StreamArchiver.Reading.{IsBatch, AreBatches}
use ofs_convert_rs.Serialization.StreamArchiver.Progress.{
  Kept, new-IsReady, archive-Continues, archived-IsReady,
}
use ofs_convert_rs.Serialization.StreamArchiver.RoundTrip.{
  Archives-Lands, into_reader-memory, ReadsBack, into_reader-ReadsBack,
}
use ofs_convert_rs.Serialization.Tree.{
  Item, file_types, directory, Nodes, Storage, serialize_directory_tree,
}
use ofs_convert_rs.Serialization.Tree.Reading.{Tree, top_count, items_of}
use ofs_convert_rs.Serialization.StreamArchiver.Landing.{Lands}
use ofs_convert_rs.Memory.{Memory}
use ofs_convert_rs.Serialization.Tree.Moving.{AllHold, moved-Holds, untouched}
use ofs_convert_rs.Serialization.Tree.Walking.{
  moves_of, Run, all_done, item_archived, data_moved, Matches, AllFiles,
  serialize_directory_tree-Run,
}

-- A file's data is moved with the shared allocator between two calls of the archiver.
pub MovesAll-Elsewhere :
    (forbidden : Ranges) (s s' : Copying) (src : List ℕ) (rs : List Range)
    → MovesAll forbidden s s' src rs
    → Elsewhere s s'
MovesAll-Elsewhere forbidden s s' src rs m = record {
  valid = m.valid;
  moved = m.moved;
  risen = m.risen;
  frame = m.frame;
}

-- The clusters have sectors and the size of a page.
abbrev pub Suits : FatFs → ℕ → Type 0
Suits fs size = (0 < fs.boot_sector.sectors_per_cluster) × (cluster_size fs.boot_sector ≡ size)

-- How the compiler sees the archived vectors is `batch_of`.
module _ (c : Compiler) (batch_of : Item → Batch) (fs : FatFs) (forbidden : Ranges) where
  -- `FatTreeSerializer`: the archiver, through which it shares the allocator.
  unfoldable pub archiver_storage : Storage StreamArchiver
  archiver_storage = record {
    archive = λ item a. StreamArchiver.archive c (batch_of item).type (batch_of item).objects a;
    make_file_non_overlapping = λ f a.
        FatSerializer.make_file_non_overlapping fs forbidden f.data_ranges a.shared >>= λ (rs, s).
        ok (rs, share a s);
  }

  AreBatches-map :
      (size : ℕ) (items : List Item)
      → ((item : Item) → IsBatch c size (batch_of item))
      → AreBatches c size (map batch_of items)
  AreBatches-map size [] h = tt
  AreBatches-map size (item ∷ items) h = (h item, AreBatches-map size items h)

  pub IsReady-Serves :
      (size : ℕ) (a : StreamArchiver)
      → Suits fs size
      → a.page_size ≡ size
      → IsReady c a
      → Serves fs a.shared.allocator
  IsReady-Serves size a (sectors, same) e r = record {
    sectors = sectors;
    same_size = r.fits ∙ e ∙ sym same;
    addressed =
        subst (λ x. x * a.shared.allocator.valid_cluster_indices.end ≤ usize_max) (sym r.fits)
          r.addressed;
  }

  moved-MovesAll :
      (size : ℕ) (used : Ranges) (f : FatFile) (a a' : StreamArchiver) (rs : List Range)
      → IsNormal forbidden
      → ((x : ℕ) → covers forbidden x ≡ true → covers used x ≡ true)
      → Suits fs size
      → a.page_size ≡ size
      → IsReady c a
      → a.shared.allocator.used_ranges ≡ used
      → IsUsed fs used f.data_ranges
      → archiver_storage.make_file_non_overlapping f a ≡ ok (rs, a')
      → (s : Copying) × MovesAll forbidden a.shared s (clusters_of fs f.data_ranges) rs
        × (s.allocator.used_ranges ≡ used)
        × (share a s ≡ a')
  unfolding archiver_storage
  moved-MovesAll size used f a a' rs normal inside suits p r e u g =
      let ((rs', s), g₁, h₁) =
        >>=-eq-ok (FatSerializer.make_file_non_overlapping fs forbidden f.data_ranges a.shared) _
          g in
      elim (make_file_non_overlapping-MovesAll fs forbidden f.data_ranges a.shared normal r.valid
        (IsReady-Serves size a suits p r) (subst (λ x. IsUsed fs x f.data_ranges) (sym e) u)
        (λ x k. rw e (inside x k))) [
          | inr k ↦ absurd (err≢ok _ k g₁)
          | inl (xs, s', k, m) ↦
              let same : s' ≡ s =
                ap (λ (p : List Range × Copying). p.1) (ok_injective (sym k ∙ g₁)) in
              let ranges : xs ≡ rs =
                ap (λ (p : List Range × Copying). p.0) (ok_injective (sym k ∙ g₁))
                ∙ ap (λ (p : List Range × StreamArchiver). p.0) (ok_injective h₁) in
              let at : share a s ≡ a' =
                ap (λ (p : List Range × StreamArchiver). p.1) (ok_injective h₁) in
              (
                s',
                subst (MovesAll forbidden a.shared s' (clusters_of fs f.data_ranges)) ranges m,
                m.same_used ∙ e,
                ap (share a) same ∙ at,
              )
        ]

  Run-Archives :
      (size : ℕ) (used : Ranges) {last a : StreamArchiver} {items : List Item}
      {moves : List (FatFile × List Range)}
      → IsLayout c
      → Suits fs size
      → IsNormal forbidden
      → ((x : ℕ) → covers forbidden x ≡ true → covers used x ≡ true)
      → ((item : Item) → IsBatch c size (batch_of item))
      → IsReady c a
      → Kept size used a
      → Run (λ f. IsUsed fs used f.data_ranges) archiver_storage last a items moves
      → Archives c last a (map batch_of items)
  unfolding archiver_storage
  Run-Archives size used l suits normal inside fit r k all_done = finished
  Run-Archives size used {a = a} l suits normal inside fit r k (item_archived item e more) =
      let (r', k') =
        archived-IsReady c a.page_size a.shared.allocator.used_ranges _ _
          (archive-Continues c a (batch_of item) l r
            (subst (λ x. IsBatch c x (batch_of item)) (sym k.0) (fit item)))
          e in
      archived (batch_of item) e
        (Run-Archives size used l suits normal inside fit r' (k'.0 ∙ k.0, k'.1 ∙ k.1) more)
  Run-Archives size used {last = last} {a = a} {items = items} l suits normal inside fit r k
        (data_moved f rs u e more) =
      let (s, m, same, at) = moved-MovesAll size used f a _ rs normal inside suits k.0 r k.1 u e in
      let else : Elsewhere a.shared s = MovesAll-Elsewhere forbidden a.shared s _ rs m in
      meanwhile s else (
        subst (λ x. Archives c last x (map batch_of items)) (sym at)
          (Run-Archives size used l suits normal inside fit
            (subst (IsReady c) at (Elsewhere-IsReady c a s r else))
            (subst (Kept size used) at (k.0, same)) more))

  -- The batches of a run are found in the memory in the end.
  Run-Lands :
      (size : ℕ) (used : Ranges) (done : StreamArchiver) {last a : StreamArchiver}
      {items : List Item} {moves : List (FatFile × List Range)}
      → IsLayout c
      → Suits fs size
      → IsNormal forbidden
      → ((x : ℕ) → covers forbidden x ≡ true → covers used x ≡ true)
      → ((item : Item) → IsBatch c size (batch_of item))
      → IsReady c a
      → Kept size used a
      → (finalize c last >>= write_page c) ≡ ok done
      → Run (λ f. IsUsed fs used f.data_ranges) archiver_storage last a items moves
      → Lands c a done (objects_of c (map batch_of items))
  Run-Lands size used done {last = last} {a = a} {items = items} l suits normal inside fit r k f
        run =
      Archives-Lands c a last done (map batch_of items) l r
        (subst (λ x. AreBatches c x (map batch_of items)) (sym k.0) (AreBatches-map size items fit))
        f (Run-Archives size used l suits normal inside fit r k run)

  -- The ranges of all moved files hold their data in the end.
  Run-AllHold :
      (size : ℕ) (used : Ranges) (m₀ : Memory) (done : StreamArchiver) {last a : StreamArchiver}
      {items : List Item} {moves : List (FatFile × List Range)}
      → ((x : ℕ) → covers used x ≡ true → done.shared.memory x ≡ m₀ x)
      → IsLayout c
      → Suits fs size
      → IsNormal forbidden
      → ((x : ℕ) → covers forbidden x ≡ true → covers used x ≡ true)
      → ((item : Item) → IsBatch c size (batch_of item))
      → IsReady c a
      → Kept size used a
      → (finalize c last >>= write_page c) ≡ ok done
      → Run (λ f. IsUsed fs used f.data_ranges) archiver_storage last a items moves
      → AllHold fs m₀ done.shared.memory moves
  unfolding archiver_storage
  Run-AllHold size used m₀ done same l suits normal inside fit r k f all_done = tt
  Run-AllHold size used m₀ done {a = a} same l suits normal inside fit r k f
        (item_archived item e more) =
      let (r', k') =
        archived-IsReady c a.page_size a.shared.allocator.used_ranges _ _
          (archive-Continues c a (batch_of item) l r
            (subst (λ x. IsBatch c x (batch_of item)) (sym k.0) (fit item)))
          e in
      Run-AllHold size used m₀ done same l suits normal inside fit r' (k'.0 ∙ k.0, k'.1 ∙ k.1) f
        more
  Run-AllHold size used m₀ done {last = last} {a = a} {items = items} same l suits normal inside fit
        r k f (data_moved file rs {moves = moves} u e more) =
      let (s, m, kept, at) =
        moved-MovesAll size used file a _ rs normal inside suits k.0 r k.1 u e in
      let else : Elsewhere a.shared s = MovesAll-Elsewhere forbidden a.shared s _ rs m in
      let r' : IsReady c (share a s) = Elsewhere-IsReady c a s r else in
      let more' : Run (λ f. IsUsed fs used f.data_ranges) archiver_storage last (share a s) items
          moves =
        subst (λ x. Run (λ f. IsUsed fs used f.data_ranges) archiver_storage last x items moves)
          (sym at) more in
      (
        moved-Holds c fs forbidden a done s file rs (objects_of c (map batch_of items)) r m
              (subst (λ x. IsUsed fs x file.data_ranges) (sym k.1) u)
              (Run-Lands size used done l suits normal inside fit r' (k.0, kept) f more')
            ∙ clusters_of-kept fs used m₀ done.shared.memory file.data_ranges u same,
        Run-AllHold size used m₀ done same l suits normal inside fit (subst (IsReady c) at r')
            (subst (Kept size used) at (k.0, kept)) f more,
      )

  -- A serializer starts with a new archiver and the clusters that the files use, which include the
  -- forbidden ones; a page is a cluster that holds a header and any archived object, all clusters are
  -- addressable and have sectors, and the files' clusters are in use in the FAT and lie in the data section.
  -- If walking the directory tree returns, then `into_reader` either runs out of clusters or returns a reader
  -- that yields the number of the root's files and then each file of the tree, in order, under its name, with
  -- its attributes and, for a regular file, its new data ranges, whatever becomes of the clusters that the
  -- returned allocator may hand out; and the clusters of these ranges then hold what the file's clusters held
  -- at the start, in their order.
  pub serialize_directory_tree-ReadsBack :
      (text : Text) (root : Nodes) (s : Copying) (page_size : ℕ) (a last : StreamArchiver)
      → IsLayout c
      → IsValid s.allocator
      → s.allocator.cluster_size ≡ page_size
      → page_size * s.allocator.valid_cluster_indices.end ≤ usize_max
      → c.option_size + c.header_size ≤ page_size
      → ((item : Item) → IsBatch c page_size (batch_of item))
      → Suits fs page_size
      → IsNormal forbidden
      → ((x : ℕ) → covers forbidden x ≡ true → covers s.allocator.used_ranges x ≡ true)
      → AllFiles (λ f. IsUsed fs s.allocator.used_ranges f.data_ranges) root
      → StreamArchiver.new c s page_size ≡ ok a
      → serialize_directory_tree archiver_storage text root a ≡ ok last
      → (t : Tree) × Matches text root t
        × (((r : Reader) × (s' : Copying) × (into_reader c last ≡ ok (r, s'))
              × IsValid s'.allocator
              × ReadsBack c
                  (map batch_of (file_types (directory (top_count t) ∷ []) ∷ items_of t))
                  r
                  s'
              × AllHold fs s.memory s'.memory (moves_of root t))
            ⊎ (into_reader c last ≡ err no_free_clusters))
  serialize_directory_tree-ReadsBack text root s page_size a last l v size addressed room fit suits
        normal inside every e run =
      let used : Ranges = s.allocator.used_ranges in
      let (a₀, e₀, r₀, sized, first₀, _, shared₀) =
        new-IsReady c s page_size v size addressed room in
      let at : a₀ ≡ a = ok_injective (sym e₀ ∙ e) in
      let (r, k, shared, first) =
        subst
          (λ (x : StreamArchiver).
            IsReady c x × Kept page_size used x × (x.shared ≡ s) × (x.previous_page_idx ≡ none))
          at
          (r₀, (sized, ap (λ (x : Copying). x.allocator.used_ranges) shared₀), shared₀, first₀) in
      let (t, m, walked) =
        serialize_directory_tree-Run (λ f. IsUsed fs used f.data_ranges) archiver_storage text root
          a last every run in
      let items : List Item = file_types (directory (top_count t) ∷ []) ∷ items_of t in
      elim (into_reader-ReadsBack c s page_size (map batch_of items) a last l v size addressed room
        (AreBatches-map page_size items fit) e
        (Run-Archives page_size used l suits normal inside fit r k walked)) [
          | inr f ↦ (t, m, inr f)
          | inl (reader, s', f, valid, reads) ↦
              let (done, g, left) = into_reader-memory c last f in
              let landed : Lands c a done (objects_of c (map batch_of items)) =
                Run-Lands page_size used done l suits normal inside fit r k g walked in
              let same : (x : ℕ) → covers used x ≡ true → done.shared.memory x ≡ s.memory x =
                λ x h. untouched c a done s _ x shared first landed h in
              let held : AllHold fs s.memory done.shared.memory (moves_of root t) =
                Run-AllHold page_size used s.memory done same l suits normal inside fit r k g
                  walked in
              (
                t,
                m,
                inl (
                  reader,
                  s',
                  f,
                  valid,
                  reads,
                  subst (λ x. AllHold fs s.memory x (moves_of root t)) (sym left) held,
                ),
              )
        ]
