-- ===== src/Serialization/StreamArchiver/Runs.antt =====
-- Runs of the archiver: its calls in their order, with the rest of the program in between.
use ofs_convert_rs.Common.{
  ℕ, ◌+◌, ◌≤◌, ◌≡◌, sym, subst, ◌∙◌, List, [], ◌∷◌, ◌++◌, length, arith, ok, ◌>>=◌, >>=-eq-ok,
  ok_injective, err≢ok, inl, inr,
}
use ofs_convert_rs.Serialization.FatSerializer.{Copying}
use ofs_convert_rs.Serialization.StreamArchiver.{
  Compiler, ArchivedType, StreamArchiver, write_page, add_object, add_objects, archive, finalize,
}
use ofs_convert_rs.Serialization.StreamArchiver.Linking.{IsLayout, IsReady}
use ofs_convert_rs.Serialization.StreamArchiver.Writing.{write_page-cases}
use ofs_convert_rs.Serialization.StreamArchiver.Adding.{put, put-IsReady, add_object-cases}
use ofs_convert_rs.Serialization.StreamArchiver.Landing.{Lands, Writes-Lands, Lands-put, Lands-turn}
use ofs_convert_rs.Serialization.StreamArchiver.Elsewhere.{
  Elsewhere, Elsewhere-IsReady, share, Lands-Elsewhere,
}

-- What one call of `archive` is given.
pub record Batch : Type 0 where
  pub type : ArchivedType
  pub objects : List (List ℕ)

-- `archive` was called for each batch in turn, and nothing failed.
pub data Archives (c : Compiler) (done : StreamArchiver)
    : StreamArchiver → List Batch → Type 0 where
  finished : Archives c done done []
  archived :
      {a a' : StreamArchiver} (batch : Batch) {batches : List Batch}
      → archive c batch.type batch.objects a ≡ ok a'
      → Archives c done a' batches
      → Archives c done a (batch ∷ batches)
  meanwhile :
      {a : StreamArchiver} (s : Copying) {batches : List Batch}
      → Elsewhere a.shared s
      → Archives c done (share a s) batches
      → Archives c done a batches

-- The same for single objects, up to the last `write_page`.
pub data Completes (c : Compiler) (done : StreamArchiver)
    : StreamArchiver → List (List ℕ) → Type 0 where
  finish : {a : StreamArchiver} → write_page c a ≡ ok done → Completes c done a []
  add :
      {a a' : StreamArchiver} (object : List ℕ) {objects : List (List ℕ)}
      → add_object c object a ≡ ok a'
      → Completes c done a' objects
      → Completes c done a (object ∷ objects)
  elsewhere :
      {a : StreamArchiver} (s : Copying) {objects : List (List ℕ)}
      → Elsewhere a.shared s
      → Completes c done (share a s) objects
      → Completes c done a objects

-- Each object fits a page.
abbrev pub AllFit : Compiler → ℕ → List (List ℕ) → Type 0
AllFit c size [] = Unit {0}
AllFit c size (object ∷ objects) = (c.option_size + length object ≤ size) × AllFit c size objects

pub Completes-Lands :
    (c : Compiler) {done : StreamArchiver} {a : StreamArchiver} {objects : List (List ℕ)}
    → IsLayout c
    → IsReady c a
    → AllFit c a.page_size objects
    → Completes c done a objects
    → Lands c a done objects
Completes-Lands c {a = a} l r fits (finish e) = elim (write_page-cases c a l r) [
  | inr f ↦ absurd (err≢ok (write_page c a) f e)
  | inl (i, a', f, w) ↦
      subst (λ x. Lands c a x []) (ok_injective (sym f ∙ e)) (Writes-Lands c a a' i r w)
]
Completes-Lands c {done = done} {a = a} l r fits (add {a' = a'} object {objects = objects} e k) =
    elim (add_object-cases c a object l r fits.0) [
      | inl (here, f) ↦
          let same : put a object ≡ a' = ok_injective (sym f ∙ e) in
          Lands-put c a done object objects r here (
            subst (λ x. Lands c x done objects) (sym same)
              (Completes-Lands c l (subst (IsReady c) same (put-IsReady c a object r here))
                (subst (λ x. AllFit c x.page_size objects) same fits.1) k))
      | inr (past, inr f) ↦ absurd (err≢ok (add_object c object a) f e)
      | inr (past, inl (i, a₁, w, f)) ↦
          let same : put a₁ object ≡ a' = ok_injective (sym f ∙ e) in
          let first : a₁.position_in_current_page + length object ≤ a₁.page_size =
            omega (arith, w.position, w.same_page_size, fits.0) in
          let later : AllFit c a₁.page_size objects =
            subst (λ x. AllFit c x objects) (sym w.same_page_size) fits.1 in
          Lands-turn c a a₁ done i object objects r past w fits.0 (
            Lands-put c a₁ done object objects w.ready first (
              subst (λ x. Lands c x done objects) (sym same)
                (Completes-Lands c l
                  (subst (IsReady c) same (put-IsReady c a₁ object w.ready first))
                  (subst (λ x. AllFit c x.page_size objects) same later) k)))
    ]
Completes-Lands c {done = done} {a = a} l r fits (elsewhere s {objects = objects} e k) =
    Lands-Elsewhere c a done s objects r e
      (Completes-Lands c l (Elsewhere-IsReady c a s r e) fits k)

add_objects-Completes :
    (c : Compiler) {done : StreamArchiver} (objects rest : List (List ℕ)) (a : StreamArchiver)
    {a' : StreamArchiver}
    → add_objects c objects a ≡ ok a'
    → Completes c done a' rest
    → Completes c done a (objects ++ rest)
unfolding add_objects
add_objects-Completes c {done = done} [] rest a e k =
    subst (λ x. Completes c done x rest) (ok_injective (sym e)) k
add_objects-Completes c (object ∷ objects) rest a e k =
    let (a₁, f, g) = >>=-eq-ok (add_object c object a) (add_objects c objects) e in
    add object f (add_objects-Completes c objects rest a₁ g k)

-- The header of a batch, and of the end.
abbrev pub header : Compiler → Batch → List ℕ
header c batch =
    c.header_bytes (record { len = length batch.objects; type_id = batch.type.type_id })

-- All that the archive of the batches holds.
abbrev pub objects_of : Compiler → List Batch → List (List ℕ)
objects_of c [] = c.header_bytes (record { len = 0; type_id = c.end_type }) ∷ []
objects_of c (batch ∷ batches) = header c batch ∷ (batch.objects ++ objects_of c batches)

pub Archives-Completes :
    (c : Compiler) {last done : StreamArchiver} {a : StreamArchiver} {batches : List Batch}
    → (finalize c last >>= write_page c) ≡ ok done
    → Archives c last a batches
    → Completes c done a (objects_of c batches)
unfolding finalize archive
Archives-Completes c {last = last} e finished =
    let (a₁, f, g) = >>=-eq-ok (finalize c last) (write_page c) e in
    add (c.header_bytes (record { len = 0; type_id = c.end_type })) f (finish g)
Archives-Completes c e (archived {a = a} batch {batches = batches} f k) =
    let (a₁, g, h) = >>=-eq-ok (add_object c (header c batch) a) (add_objects c batch.objects) f in
    add (header c batch) g
      (add_objects-Completes c batch.objects (objects_of c batches) a₁ h (Archives-Completes c e k))
Archives-Completes c e (meanwhile s f k) = elsewhere s f (Archives-Completes c e k)
