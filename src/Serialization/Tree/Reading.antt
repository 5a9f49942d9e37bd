-- ===== src/Serialization/Tree/Reading.antt =====
-- Reading the archive of a tree makes the calls that the tree stands for.
use mathlib.Core.List.{append_assoc, append-nil}
use ofs_convert_rs.Common.{
  ℕ, zero, suc, ◌+◌, ◌≤◌, ◌≡◌, refl, sym, ap, ◌∙◌, some, List, [], ◌∷◌, ◌++◌, arith, Outcome, ok,
  err, panic, stuck, ◌>>=◌,
}
use ofs_convert_rs.Ranges.{Range}
use ofs_convert_rs.Ext4.Inode.{DentryRepresentation}
use ofs_convert_rs.Fat.Dentry.{Text}
use ofs_convert_rs.Serialization.Tree.{
  FileType, directory, regular_file, Item, file_types, dentries, name_bytes, ranges, Internals,
  read_file, deserialize_content, deserialize_files, deserialize_directory_tree,
}

-- A tree as it is archived: each file with its new data ranges.
pub data Tree : Type 0 where
  leaf : Tree
  file : DentryRepresentation → List ℕ → List Range → Tree → Tree
  folder : DentryRepresentation → List ℕ → Tree → Tree → Tree

-- The number of files at the top of a tree, and of all its files.
abbrev pub top_count : Tree → ℕ
top_count leaf = 0
top_count (file d n r t) = suc (top_count t)
top_count (folder d n children t) = suc (top_count t)

abbrev pub file_count : Tree → ℕ
file_count leaf = 0
file_count (file d n r t) = suc (file_count t)
file_count (folder d n children t) = suc (file_count children + file_count t)

abbrev pub items_of : Tree → List Item
items_of leaf = []
items_of (file d n r t) =
    file_types (regular_file ∷ []) ∷ dentries (d ∷ []) ∷ name_bytes n ∷ ranges r ∷ items_of t
items_of (folder d n children t) =
    file_types (directory (top_count children) ∷ [])
    ∷ dentries (d ∷ [])
    ∷ name_bytes n
    ∷ (items_of children ++ items_of t)

-- Names are text.
abbrev pub AreNamed : Text → Tree → Type 0
AreNamed text leaf = Unit {0}
AreNamed text (file d n r t) = (text.from_utf8 n ≡ some n) × AreNamed text t
AreNamed text (folder d n children t) =
    (text.from_utf8 n ≡ some n) × AreNamed text children × AreNamed text t

>>=-assoc :
    {A B C : Type 0} (m : Outcome A) (f : A → Outcome B) (g : B → Outcome C)
    → ((m >>= f) >>= g) ≡ (m >>= λ a. f a >>= g)
>>=-assoc (ok a) f g = refl
>>=-assoc (err e) f g = refl
>>=-assoc panic f g = refl
>>=-assoc stuck f g = refl

>>=-cong :
    {A B : Type 0} (m : Outcome A) (f g : A → Outcome B)
    → ((a : A) → f a ≡ g a)
    → (m >>= f) ≡ (m >>= g)
>>=-cong (ok a) f g h = h a
>>=-cong (err e) f g h = refl
>>=-cong panic f g h = refl
>>=-cong stuck f g h = refl

-- Two chains that go on in the same way after their first call.
>>=-regroup :
    {A B B' C : Type 0} (m : Outcome A) (f : A → Outcome B) (g : B → Outcome C)
    (f' : A → Outcome B') (g' : B' → Outcome C)
    → ((a : A) → (f a >>= g) ≡ (f' a >>= g'))
    → ((m >>= f) >>= g) ≡ ((m >>= f') >>= g')
>>=-regroup (ok a) f g f' g' h = h a
>>=-regroup (err e) f g f' g' h = refl
>>=-regroup panic f g f' g' h = refl
>>=-regroup stuck f g f' g' h = refl

module _ {S D : Type 0} (internals : Internals S D) where
  -- The calls for a tree, in order: a directory's own come before those for what follows it.
  unfoldable pub visit : Tree → D → S → Outcome (D × S)
  visit leaf parent s = ok (parent, s)
  visit (file d n r t) parent s =
      internals.deserialize_regular_file d n r parent s >>= λ (parent₁, s₁). visit t parent₁ s₁
  visit (folder d n children t) parent s =
      internals.deserialize_directory d n parent s >>= λ (writer, parent₁, s₁).
      visit children writer s₁ >>= λ (writer₁, s₂).
      internals.drop writer₁ s₂ >>= λ s₃. visit t parent₁ s₃

  unfoldable pub visit_root : Tree → S → Outcome S
  visit_root t s = internals.build_root s >>= λ (root, s₁).
      visit t root s₁ >>= λ (root₁, s₂). internals.drop root₁ s₂

  abbrev with_rest : List Item → D × S → Outcome (D × List Item × S)
  with_rest rest (parent, s) = ok (parent, rest, s)

  read_file-lem :
      (text : Text) (t : FileType) (d : DentryRepresentation) (n : List ℕ) (rest : List Item)
      → text.from_utf8 n ≡ some n
      → read_file internals text (file_types (t ∷ []) ∷ dentries (d ∷ []) ∷ name_bytes n ∷ rest)
        ≡ ok (t, d, n, rest)
  unfolding read_file
  read_file-lem text t d n rest e = rw e refl

  files-cons :
      (text : Text) (fuel k : ℕ) (parent : D) (items rest : List Item) (s : S) (t : FileType)
      (d : DentryRepresentation) (n : List ℕ)
      → read_file internals text items ≡ ok (t, d, n, rest)
      → deserialize_files internals text (suc fuel) (suc k) parent items s ≡ (
          deserialize_content internals text
            (deserialize_files internals text fuel)
            t
            d
            n
            parent
            rest
            s
          >>= λ (parent₁, items₁, s₁). deserialize_files internals text fuel k parent₁ items₁ s₁)
  unfolding deserialize_files
  files-cons text fuel k parent items rest s t d n e = rw e refl

  content-file :
      (text : Text) (files : ℕ → D → List Item → S → Outcome (D × List Item × S))
      (d : DentryRepresentation) (n : List ℕ) (r : List Range) (parent : D) (rest : List Item)
      (s : S)
      → deserialize_content internals text files regular_file d n parent (ranges r ∷ rest) s
        ≡ (internals.deserialize_regular_file d n r parent s >>= with_rest rest)
  unfolding deserialize_content
  content-file text files d n r parent rest s = refl

  content-folder :
      (text : Text) (files : ℕ → D → List Item → S → Outcome (D × List Item × S))
      (d : DentryRepresentation) (n : List ℕ) (children : Tree) (parent : D) (rest : List Item)
      (s : S)
      → ((writer : D) (s' : S)
          → files (top_count children) writer (items_of children ++ rest) s'
            ≡ (visit children writer s' >>= with_rest rest))
      → deserialize_content internals text files
          (directory (top_count children))
          d
          n
          parent
          (items_of children ++ rest)
          s
        ≡ (internals.deserialize_directory d n parent s >>= λ (writer, parent₁, s₁).
            visit children writer s₁ >>= λ (writer₁, s₂).
            internals.drop writer₁ s₂ >>= λ s₃. ok (parent₁, rest, s₃))
  unfolding deserialize_content
  content-folder text files d n children parent rest s h =
      >>=-cong (internals.deserialize_directory d n parent s) _ _ (λ (writer, parent₁, s₁).
        ap
          (λ m. m >>= λ (writer₁, items₁, s₂).
            internals.drop writer₁ s₂ >>= λ s₃. ok (parent₁, items₁, s₃))
          (h writer s₁)
        ∙ >>=-assoc (visit children writer s₁) (with_rest rest) _)

  deserialize_files-visit :
      (text : Text) (fuel : ℕ) (t : Tree) (rest : List Item) (parent : D) (s : S)
      → file_count t ≤ fuel
      → AreNamed text t
      → deserialize_files internals text fuel (top_count t) parent (items_of t ++ rest) s
        ≡ (visit t parent s >>= with_rest rest)
  unfolding deserialize_files visit
  deserialize_files-visit text fuel leaf rest parent s h k = refl
  deserialize_files-visit text zero (file d n r t) rest parent s h k = absurd (omega arith)
  deserialize_files-visit text zero (folder d n children t) rest parent s h k = absurd (omega arith)
  deserialize_files-visit text (suc fuel) (file d n r t) rest parent s h (e, k) =
      files-cons text fuel (top_count t) parent (items_of (file d n r t) ++ rest)
        (ranges r ∷ (items_of t ++ rest)) s regular_file d n
        (read_file-lem text regular_file d n (ranges r ∷ (items_of t ++ rest)) e)
      ∙ ap
          (λ m.
            m >>= λ (p, items, s'). deserialize_files internals text fuel (top_count t) p items s')
          (content-file text (deserialize_files internals text fuel) d n r parent
            (items_of t ++ rest) s)
      ∙ >>=-regroup (internals.deserialize_regular_file d n r parent s) _ _ _ _
          (λ (parent₁, s₁). deserialize_files-visit text fuel t rest parent₁ s₁ (omega arith) k)
  deserialize_files-visit text (suc fuel) (folder d n children t) rest parent s h (e, k, ks) =
      let more : List Item = items_of t ++ rest in
      let items : items_of (folder d n children t) ++ rest
          ≡ file_types (directory (top_count children) ∷ [])
            ∷ dentries (d ∷ [])
            ∷ name_bytes n
            ∷ (items_of children ++ more) =
        ap
          (λ xs.
            file_types (directory (top_count children) ∷ [])
            ∷ dentries (d ∷ [])
            ∷ name_bytes n
            ∷ xs)
          (append_assoc (items_of children) (items_of t) rest) in
      ap (λ xs. deserialize_files internals text (suc fuel) (suc (top_count t)) parent xs s) items
      ∙ files-cons text fuel (top_count t) parent
          (file_types (directory (top_count children) ∷ [])
            ∷ dentries (d ∷ [])
            ∷ name_bytes n
            ∷ (items_of children ++ more))
          (items_of children ++ more) s (directory (top_count children)) d n
          (read_file-lem text (directory (top_count children)) d n (items_of children ++ more) e)
      ∙ ap (λ m. m >>= λ (p, xs, s'). deserialize_files internals text fuel (top_count t) p xs s')
          (content-folder text (deserialize_files internals text fuel) d n children parent more s
            (λ writer s'.
              deserialize_files-visit text fuel children more writer s' (omega arith) k))
      ∙ >>=-regroup (internals.deserialize_directory d n parent s) _ _ _ _ (λ (writer, parent₁, s₁).
        >>=-regroup (visit children writer s₁) _ _ _ _ (λ (writer₁, s₂).
          >>=-regroup (internals.drop writer₁ s₂) _ _ _ _
            (λ s₃. deserialize_files-visit text fuel t rest parent₁ s₃ (omega arith) ks)))

  -- Reading the archive of a tree of files with text for names makes exactly the calls of the tree, in
  -- order, and ends in the same way, if the fuel is more than the number of files.
  pub deserialize_directory_tree-visit_root :
      (text : Text) (fuel : ℕ) (t : Tree) (s : S)
      → file_count t ≤ fuel
      → AreNamed text t
      → deserialize_directory_tree internals text fuel
          (file_types (directory (top_count t) ∷ []) ∷ items_of t)
          s
        ≡ visit_root t s
  unfolding deserialize_directory_tree visit_root
  deserialize_directory_tree-visit_root text fuel t s h k =
      >>=-cong (internals.build_root s) _ _ (λ (root, s₁).
        let all : deserialize_files internals text fuel (top_count t) root (items_of t) s₁
            ≡ (visit t root s₁ >>= with_rest []) =
          ap (λ xs. deserialize_files internals text fuel (top_count t) root xs s₁)
            (sym (append-nil (items_of t)))
          ∙ deserialize_files-visit text fuel t [] root s₁ h k in
        ap (λ m. m >>= λ (root₁, rest, s₂). internals.drop root₁ s₂) all
        ∙ >>=-assoc (visit t root s₁) (with_rest []) _)
