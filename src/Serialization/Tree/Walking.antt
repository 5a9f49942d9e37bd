-- ===== src/Serialization/Tree/Walking.antt =====
-- Walking a directory tree archives each of its files once, in order.
use mathlib.Core.List.{append_assoc, append-nil}
use ofs_convert_rs.Common.{
  ℕ, suc, ◌≡◌, refl, sym, ap, subst, ◌∙◌, Bool, true, false, List, [], ◌∷◌, ◌++◌, ltb,
  if◌then◌else◌, ok, ◌>>=◌, ◌>>◌, assert, >>=-eq-ok, assert-eq-ok, ok_injective, Bool-cases, inl,
  inr, u32_size,
}
use ofs_convert_rs.Ranges.{Range}
use ofs_convert_rs.Ext4.Inode.{DentryRepresentation}
use ofs_convert_rs.Fat.Dentry.{Text, is_dir, representation}
use ofs_convert_rs.Fat.FileIter.{FatFile}
use ofs_convert_rs.Serialization.Tree.{
  directory, regular_file, Item, file_types, dentries, name_bytes, ranges, Nodes, node, none_left,
  next_node, child_count, Storage, archive_root_child_count, archive_regular_file,
  archive_directory, serialize_directory_content, serialize_directory_tree,
}
use ofs_convert_rs.Serialization.Tree.Reading.{Tree, leaf, file, folder, top_count, items_of}

-- Calls that returned: these items were archived in turn, and the data of these files, which have the
-- property `P`, was moved to these ranges in between.
pub data Run {S : Type 0} (P : FatFile → Type 0) (storage : Storage S) (last : S)
    : S → List Item → List (FatFile × List Range) → Type 0 where
  all_done : Run P storage last last [] []
  item_archived :
      {s s' : S} (item : Item) {items : List Item} {moves : List (FatFile × List Range)}
      → storage.archive item s ≡ ok s'
      → Run P storage last s' items moves
      → Run P storage last s (item ∷ items) moves
  data_moved :
      {s s' : S} (f : FatFile) (rs : List Range) {items : List Item}
      {moves : List (FatFile × List Range)}
      → P f
      → storage.make_file_non_overlapping f s ≡ ok (rs, s')
      → Run P storage last s' items moves
      → Run P storage last s items ((f, rs) ∷ moves)

-- The archived tree has the files of the directory, with their names and attributes.
pub data Matches (text : Text) : Nodes → Tree → Type 0 where
  nothing : Matches text none_left leaf
  a_file :
      (f : FatFile) (children : Nodes) {nodes : Nodes} {t : Tree} (d : DentryRepresentation)
      (rs : List Range)
      → is_dir f.dentry ≡ false
      → representation text f.dentry ≡ ok d
      → Matches text nodes t
      → Matches text (next_node (node f children) nodes) (file d f.name rs t)
  a_folder :
      (f : FatFile) {children nodes : Nodes} {t u : Tree} (d : DentryRepresentation)
      → is_dir f.dentry ≡ true
      → representation text f.dentry ≡ ok d
      → Matches text children u
      → Matches text nodes t
      → Matches text (next_node (node f children) nodes) (folder d f.name u t)

-- The regular files of the directory, each with its ranges in the archived tree.
unfoldable pub moves_of : Nodes → Tree → List (FatFile × List Range)
moves_of none_left t = []
moves_of (next_node n nodes) leaf = []
moves_of (next_node (node f children) nodes) (file d name rs t) = (f, rs) ∷ moves_of nodes t
moves_of (next_node (node f children) nodes) (folder d name u t) =
    moves_of children u ++ moves_of nodes t

top_count-Matches :
    (text : Text) {nodes : Nodes} {t : Tree}
    → Matches text nodes t
    → top_count t ≡ child_count nodes
top_count-Matches text nothing = refl
top_count-Matches text (a_file f children d rs x r m) = ap suc (top_count-Matches text m)
top_count-Matches text (a_folder f d x r c m) = ap suc (top_count-Matches text m)

if-true : {A : Type 0} (b : Bool) (x y : A) → b ≡ true → (if b then x else y) ≡ x
if-true b x y h = rw h refl

if-false : {A : Type 0} (b : Bool) (x y : A) → b ≡ false → (if b then x else y) ≡ y
if-false b x y h = rw h refl

-- All regular files below have the property.
abbrev pub AllFiles : (FatFile → Type 0) → Nodes → Type 0
AllFiles P none_left = Unit {0}
AllFiles P (next_node (node f children) nodes) =
    (is_dir f.dentry ≡ false → P f) × AllFiles P children × AllFiles P nodes

module _ {S : Type 0} (P : FatFile → Type 0) (storage : Storage S) (text : Text) where
  -- Before the rest of a run, the archive of a directory's own values.
  archive_directory-Run :
      (f : FatFile) (n : ℕ) (s s' : S)
      → archive_directory storage text f n s ≡ ok s'
      → (d : DentryRepresentation) × (representation text f.dentry ≡ ok d)
        × ((last : S) (items : List Item) (moves : List (FatFile × List Range))
            → Run P storage last s' items moves
            → Run P storage last s
                (file_types (directory n ∷ []) ∷ dentries (d ∷ []) ∷ name_bytes f.name ∷ items)
                moves)
  unfolding archive_directory
  archive_directory-Run f n s s' e =
      let (s₁, e₁, f₁) = >>=-eq-ok (storage.archive (file_types (directory n ∷ [])) s) _ e in
      let (d, e₂, f₂) = >>=-eq-ok (representation text f.dentry) _ f₁ in
      let (s₂, e₃, f₃) = >>=-eq-ok (storage.archive (dentries (d ∷ [])) s₁) _ f₂ in
      (
        d,
        e₂,
        λ last items moves r.
            item_archived (file_types (directory n ∷ [])) e₁
              (item_archived (dentries (d ∷ [])) e₃ (item_archived (name_bytes f.name) f₃ r)),
      )

  archive_regular_file-Run :
      (f : FatFile) (rs : List Range) (s s' : S)
      → archive_regular_file storage text f rs s ≡ ok s'
      → (d : DentryRepresentation) × (representation text f.dentry ≡ ok d)
        × ((last : S) (items : List Item) (moves : List (FatFile × List Range))
            → Run P storage last s' items moves
            → Run P storage last s
                (file_types (regular_file ∷ [])
                  ∷ dentries (d ∷ [])
                  ∷ name_bytes f.name
                  ∷ ranges rs
                  ∷ items)
                moves)
  unfolding archive_regular_file
  archive_regular_file-Run f rs s s' e =
      let (s₁, e₁, f₁) = >>=-eq-ok (storage.archive (file_types (regular_file ∷ [])) s) _ e in
      let (d, e₂, f₂) = >>=-eq-ok (representation text f.dentry) _ f₁ in
      let (s₃, g, h) =
        >>=-eq-ok (storage.archive (dentries (d ∷ [])) s₁ >>= storage.archive (name_bytes f.name)) _
          f₂ in
      let (s₂, e₃, f₃) = >>=-eq-ok (storage.archive (dentries (d ∷ [])) s₁) _ g in
      (
        d,
        e₂,
        λ last items moves r. item_archived (file_types (regular_file ∷ [])) e₁ (
            item_archived (dentries (d ∷ [])) e₃
              (item_archived (name_bytes f.name) f₃ (item_archived (ranges rs) h r))),
      )

  -- What a walk over the nodes archives before the rest of a run.
  abbrev Walks : Nodes → S → S → Type 0
  Walks nodes s s' =
      (t : Tree) × Matches text nodes t
      × ((last : S) (items : List Item) (moves : List (FatFile × List Range))
          → Run P storage last s' items moves
          → Run P storage last s (items_of t ++ items) (moves_of nodes t ++ moves))

  Run-assoc :
      (last s : S) (xs ys zs : List Item) (us vs ws : List (FatFile × List Range))
      → Run P storage last s (xs ++ (ys ++ zs)) (us ++ (vs ++ ws))
      → Run P storage last s ((xs ++ ys) ++ zs) ((us ++ vs) ++ ws)
  Run-assoc last s xs ys zs us vs ws run =
      subst (Run P storage last s ((xs ++ ys) ++ zs)) (sym (append_assoc us vs ws)) (
        subst (λ items. Run P storage last s items (us ++ (vs ++ ws))) (sym (append_assoc xs ys zs))
          run)

  folder-Walks :
      (f : FatFile) (children nodes : Nodes) (s s₂ s₁ s' : S)
      → is_dir f.dentry ≡ true
      → archive_directory storage text f (child_count children) s ≡ ok s₂
      → Walks children s₂ s₁
      → Walks nodes s₁ s'
      → Walks (next_node (node f children) nodes) s s'
  unfolding moves_of
  folder-Walks f children nodes s s₂ s₁ s' x g (u, mu, inner) (t, m, more) =
      let (d, r, first) = archive_directory-Run f (child_count children) s s₂ g in
      (
        folder d f.name u t,
        a_folder f d x r mu m,
        λ last items moves run.
            subst
              (λ n.
                Run P storage last s
                  (file_types (directory n ∷ [])
                    ∷ dentries (d ∷ [])
                    ∷ name_bytes f.name
                    ∷ ((items_of u ++ items_of t) ++ items))
                  ((moves_of children u ++ moves_of nodes t) ++ moves))
              (sym (top_count-Matches text mu))
              (first last ((items_of u ++ items_of t) ++ items)
                ((moves_of children u ++ moves_of nodes t) ++ moves)
                (Run-assoc last s₂ (items_of u) (items_of t) items (moves_of children u)
                  (moves_of nodes t) moves
                  (inner last (items_of t ++ items) (moves_of nodes t ++ moves)
                    (more last items moves run)))),
      )

  file-Walks :
      (f : FatFile) (children nodes : Nodes) (rs : List Range) (s s₂ s₁ s' : S)
      → is_dir f.dentry ≡ false
      → P f
      → storage.make_file_non_overlapping f s ≡ ok (rs, s₂)
      → archive_regular_file storage text f rs s₂ ≡ ok s₁
      → Walks nodes s₁ s'
      → Walks (next_node (node f children) nodes) s s'
  unfolding moves_of
  file-Walks f children nodes rs s s₂ s₁ s' x p g h (t, m, more) =
      let (d, r, first) = archive_regular_file-Run f rs s₂ s₁ h in
      (
        file d f.name rs t,
        a_file f children d rs x r m,
        λ last items moves run. data_moved f rs p g (
            first last (items_of t ++ items) (moves_of nodes t ++ moves)
              (more last items moves run)),
      )

  serialize-Walks :
      (nodes : Nodes) (s s' : S)
      → AllFiles P nodes
      → serialize_directory_content storage text nodes s ≡ ok s'
      → Walks nodes s s'
  unfolding serialize_directory_content moves_of
  serialize-Walks none_left s s' every e = (
    leaf,
    nothing,
    λ last items moves r. subst (λ x. Run P storage last x items moves) (sym (ok_injective e)) r,
  )
  serialize-Walks (next_node (node f children) nodes) s s' every e =
      let (s₁, e₁, f₁) = >>=-eq-ok (if is_dir f.dentry then _ else _) _ e in
      let rest : Walks nodes s₁ s' = serialize-Walks nodes s₁ s' every.2 f₁ in
      elim (Bool-cases (is_dir f.dentry)) [
        | inl x ↦
            let (s₂, g, h) =
              >>=-eq-ok
                (assert (ltb (child_count children) u32_size)
                  >> archive_directory storage text f (child_count children) s)
                (serialize_directory_content storage text children)
                (sym (if-true (is_dir f.dentry) _ _ x) ∙ e₁) in
            folder-Walks f children nodes s s₂ s₁ s' x
              (assert-eq-ok (ltb (child_count children) u32_size) _ g).1
              (serialize-Walks children s₂ s₁ every.1 h) rest
        | inr x ↦
            let ((rs, s₂), g, h) =
              >>=-eq-ok (storage.make_file_non_overlapping f s) _
                (sym (if-false (is_dir f.dentry) _ _ x) ∙ e₁) in
            file-Walks f children nodes rs s s₂ s₁ s' x (every.0 x) g h rest
      ]

  -- Walking the tree archives, behind the number of the root's files, a tree with the files of the
  -- directories, each once and in order, under the names and with the attributes that they have; in between,
  -- only the data of the regular files is moved, each once and in order, and what is archived as the ranges of
  -- a file is what its move returned.
  pub serialize_directory_tree-Run :
      (root : Nodes) (s s' : S)
      → AllFiles P root
      → serialize_directory_tree storage text root s ≡ ok s'
      → (t : Tree) × Matches text root t
        × Run P storage s' s
            (file_types (directory (top_count t) ∷ []) ∷ items_of t)
            (moves_of root t)
  unfolding serialize_directory_tree archive_root_child_count
  serialize_directory_tree-Run root s s' every e =
      let (s₁, g, h) =
        >>=-eq-ok
          (assert (ltb (child_count root) u32_size)
            >> archive_root_child_count storage text (child_count root) s)
          (serialize_directory_content storage text root) e in
      let (_, g') = assert-eq-ok (ltb (child_count root) u32_size) _ g in
      let (t, m, more) = serialize-Walks root s₁ s' every h in
      (
        t,
        m,
        subst
            (λ n. Run P storage s' s (file_types (directory n ∷ []) ∷ items_of t) (moves_of root t))
            (sym (top_count-Matches text m))
            (item_archived (file_types (directory (child_count root) ∷ [])) g' (
              subst (Run P storage s' s₁ (items_of t)) (append-nil (moves_of root t)) (
                subst (λ items. Run P storage s' s₁ items (moves_of root t ++ []))
                  (append-nil (items_of t)) (more s' [] [] all_done)))),
      )
