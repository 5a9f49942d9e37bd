-- ===== src/Serialization/StreamArchiver/Reading.antt =====
-- Reading batches from an archive, and reading past its end.
use ofs_convert_rs.Common.{
  ℕ, ◌+◌, ◌≤◌, ◌<◌, ◌≡◌, ◌≢◌, refl, sym, ap, subst, ◌∙◌, true, false, List, [], ◌∷◌, ◌++◌, length,
  map, ◌==◌, arith, Outcome, ok, panic, ◌>>=◌, inl, inr,
}
use ofs_convert_rs.Memory.{Memory}
use ofs_convert_rs.Serialization.StreamArchiver.{Header, Compiler, ArchivedType, read_at}
use ofs_convert_rs.Serialization.StreamArchiver.Reader.{
  Reader, next_object, next_objects, read_header, next,
}
use ofs_convert_rs.Serialization.StreamArchiver.Stream.{Stream, IsAt, IsAt-next_object}
use ofs_convert_rs.Serialization.StreamArchiver.Linking.{IsLayout}
use ofs_convert_rs.Serialization.StreamArchiver.Runs.{Batch, header, objects_of}

-- The calls of `next` for the given types, in turn.
unfoldable pub next_all :
    Compiler → Memory → List ArchivedType → Reader → Outcome (List (List (List ℕ)) × Reader)
next_all c m [] r = ok ([], r)
next_all c m (t ∷ ts) r =
    next c m t r >>= λ (objects, r'). next_all c m ts r' >>= λ (more, r''). ok (objects ∷ more, r'')

abbrev pub AllSize : ℕ → List (List ℕ) → Type 0
AllSize size [] = Unit {0}
AllSize size (object ∷ objects) = (length object ≡ size) × AllSize size objects

-- Objects of the type of the batch, which a page can hold.
abbrev pub IsBatch : Compiler → ℕ → Batch → Type 0
IsBatch c page_size batch =
    (c.option_size + batch.type.size ≤ page_size) × AllSize batch.type.size batch.objects

abbrev pub AreBatches : Compiler → ℕ → List Batch → Type 0
AreBatches c page_size [] = Unit {0}
AreBatches c page_size (batch ∷ batches) =
    IsBatch c page_size batch × AreBatches c page_size batches

-- What is read is the same in a memory that has the same pages.
pub Stream-agree :
    (c : Compiler) (m m' : Memory) (size lo hi : ℕ) (page : List ℕ) (pos : ℕ)
    (objects : List (List ℕ))
    → ((x : ℕ) → lo ≤ x → x < hi → m' x ≡ m x)
    → Stream c m size lo hi page pos objects
    → Stream c m' size lo hi page pos objects
Stream-agree c m m' size lo hi page pos [] h s = s
Stream-agree c m m' size lo hi page pos (object ∷ objects) h (inl (fits, e, s)) =
    inl (fits, e, Stream-agree c m m' size lo hi page (pos + length object) objects h s)
Stream-agree c m m' size lo hi page pos (object ∷ objects) h
      (inr (l, past, (idx, e, low, high, fits, f, s))) =
    let same : m' idx ≡ m idx = h idx low high in
    inr (
      l,
      past,
      (
        idx,
        e,
        low,
        high,
        fits,
        ap (read_at c.option_size (length object)) same ∙ f,
        subst (λ p. Stream c m' size lo hi p (c.option_size + length object) objects) (sym same)
            (Stream-agree c m m' size lo hi (m idx) (c.option_size + length object) objects h s),
      ),
    )

IsAt-next_objects :
    (c : Compiler) (m : Memory) (lo hi size : ℕ) (objects rest : List (List ℕ)) (r : Reader)
    → AllSize size objects
    → IsAt c m lo hi r (objects ++ rest)
    → (r' : Reader) × (next_objects c m (length objects) size r ≡ ok (objects, r'))
      × IsAt c m lo hi r' rest
unfolding next_objects
IsAt-next_objects c m lo hi size [] rest r k a = (r, refl, a)
IsAt-next_objects c m lo hi size (object ∷ objects) rest r (e, k) a =
    let (r₁, f, b) = IsAt-next_object c m lo hi r object (objects ++ rest) a in
    let (r₂, g, d) = IsAt-next_objects c m lo hi size objects rest r₁ k b in
    let f' : next_object c m size r ≡ ok (object, r₁) =
      subst (λ x. next_object c m x r ≡ ok (object, r₁)) e f in
    (r₂, rw (f', g) refl, d)

read_header-lem :
    (c : Compiler) (m : Memory) (lo hi : ℕ) (h : Header) (objects : List (List ℕ)) (r : Reader)
    → IsLayout c
    → IsAt c m lo hi r (c.header_bytes h ∷ objects)
    → (r' : Reader) × (read_header c m r ≡ ok (record r' { current_header = h }))
      × IsAt c m lo hi (record r' { current_header = h }) objects
unfolding read_header
read_header-lem c m lo hi h objects r l a =
    let (r', e, b) = IsAt-next_object c m lo hi r (c.header_bytes h) objects a in
    let e' : next_object c m c.header_size r ≡ ok (c.header_bytes h, r') =
      subst (λ x. next_object c m x r ≡ ok (c.header_bytes h, r')) (l.header_length h) e in
    (r', rw (e', l.header_inverse h) refl, record { stream = b.stream; readable = b.readable })

next-lem :
    (c : Compiler) (m : Memory) (lo hi : ℕ) (batch : Batch) (rest : List (List ℕ)) (r : Reader)
    → IsLayout c
    → AllSize batch.type.size batch.objects
    → IsAt c m lo hi r (header c batch ∷ (batch.objects ++ rest))
    → (r' : Reader) × (next c m batch.type r ≡ ok (batch.objects, r')) × IsAt c m lo hi r' rest
unfolding next
next-lem c m lo hi batch rest r l k a =
    let h : Header = record { len = length batch.objects; type_id = batch.type.type_id } in
    let (r₁, e, b) = read_header-lem c m lo hi h (batch.objects ++ rest) r l a in
    let (r₂, f, d) =
      IsAt-next_objects c m lo hi batch.type.size batch.objects rest
        (record r₁ { current_header = h }) k b in
    let same : (batch.type.type_id == batch.type.type_id) ≡ true = ground arith in
    (r₂, rw (e, same, f) refl, d)

-- A reader at the batches reads them all, and from then on panics at any type but the end's.
pub next_all-lem :
    (c : Compiler) (m : Memory) (lo hi page_size : ℕ) (batches : List Batch) (r : Reader)
    → IsLayout c
    → AreBatches c page_size batches
    → IsAt c m lo hi r (objects_of c batches)
    → (r' : Reader) × (next_all c m (map (λ (b : Batch). b.type) batches) r
        ≡ ok (map (λ (b : Batch). b.objects) batches, r'))
      × ((t : ArchivedType) → t.type_id ≢ c.end_type → next c m t r' ≡ panic)
unfolding next_all next
next_all-lem c m lo hi page_size [] r l k a = (
  r,
  refl,
  λ t n.
      let (r', e, b) =
        read_header-lem c m lo hi (record { len = 0; type_id = c.end_type }) [] r l a in
      let other : (c.end_type == t.type_id) ≡ false = ground arith in rw (e, other) refl,
)
next_all-lem c m lo hi page_size (batch ∷ batches) r l ((fits, k), ks) a =
    let (r₁, e, b) = next-lem c m lo hi batch (objects_of c batches) r l k a in
    let (r₂, f, past) = next_all-lem c m lo hi page_size batches r₁ l ks b in
    (r₂, rw (e, f) refl, past)
