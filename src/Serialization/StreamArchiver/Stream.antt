-- ===== src/Serialization/StreamArchiver/Stream.antt =====
-- The objects that a chain of pages holds, and that a reader finds them.
use ofs_convert_rs.Common.{
  ℕ, ◌+◌, ◌-◌, ◌≤◌, ◌<◌, ◌≡◌, refl, some, List, [], ◌∷◌, length, arith, Outcome, ok, ◌⊎◌, inl, inr,
  le→leb, le→ltb, lt→ltb,
}
use ofs_convert_rs.Allocator.{reader_start_byte}
use ofs_convert_rs.Memory.{Memory}
use ofs_convert_rs.Serialization.StreamArchiver.{Compiler, read_at}
use ofs_convert_rs.Serialization.StreamArchiver.Reader.{
  Reader, cluster, next_page, take_object, next_object,
}

-- From the position `pos` of `page` on, `objects` follow, in pages of `size` bytes whose indices lie
-- between `lo` and `hi`. An object that does not fit the rest of its page is in the next one.
module _ (c : Compiler) (m : Memory) (size lo hi : ℕ) where
  abbrev pub Stream : List ℕ → ℕ → List (List ℕ) → Type 0
  Stream page pos [] = pos ≤ size
  Stream page pos (object ∷ objects) =
      ((pos + length object ≤ size)
        × (read_at pos (length object) page ≡ object)
        × Stream page (pos + length object) objects)
      ⊎ ((pos ≤ size)
          × (size < pos + length object)
          × ((idx : ℕ) × (c.option_of (read_at 0 c.option_size page) ≡ some idx)
              × (lo ≤ idx)
              × (idx < hi)
              × (c.option_size + length object ≤ size)
              × (read_at c.option_size (length object) (m idx) ≡ object)
              × Stream (m idx) (c.option_size + length object) objects))

-- A reader that finds `objects` next, and may read every cluster of their pages.
pub record IsAt (c : Compiler) (m : Memory) (lo hi : ℕ) (r : Reader) (objects : List (List ℕ))
    : Type 0 where
  pub stream : Stream c m r.page_size lo hi r.current_page r.position_in_current_page objects
  pub readable :
      (i : ℕ) → lo ≤ i → i < hi → (byte : ℕ) × (reader_start_byte r.allocator i ≡ some byte)

take_object-lem :
    (c : Compiler) (r : Reader) (n : ℕ) (object : List ℕ)
    → r.position_in_current_page + n ≤ r.page_size
    → read_at r.position_in_current_page n r.current_page ≡ object
    → take_object c n r
      ≡ ok (object, record r { position_in_current_page = r.position_in_current_page + n })
unfolding take_object
take_object-lem c r n object h e =
    rw
      (
        le→leb r.position_in_current_page r.page_size (omega arith),
        le→leb n (r.page_size - r.position_in_current_page) (omega arith),
        e,
      )
      refl

next_object-here :
    (c : Compiler) (m : Memory) (r : Reader) (n : ℕ) {result : Outcome (List ℕ × Reader)}
    → r.position_in_current_page + n ≤ r.page_size
    → take_object c n r ≡ result
    → next_object c m n r ≡ result
unfolding next_object
next_object-here c m r n h e =
    rw
      (
        le→leb r.position_in_current_page r.page_size (omega arith),
        le→ltb (r.page_size - r.position_in_current_page) n (omega arith),
      )
      e

next_object-turn :
    (c : Compiler) (m : Memory) (r : Reader) (n idx byte : ℕ) {result : Outcome (List ℕ × Reader)}
    → r.position_in_current_page ≤ r.page_size
    → r.page_size < r.position_in_current_page + n
    → c.option_of (read_at 0 c.option_size r.current_page) ≡ some idx
    → reader_start_byte r.allocator idx ≡ some byte
    → take_object c n (record r { current_page = m idx; position_in_current_page = c.option_size })
      ≡ result
    → next_object c m n r ≡ result
unfolding next_object next_page cluster
next_object-turn c m r n idx byte h k e f g =
    rw
      (
        le→leb r.position_in_current_page r.page_size h,
        lt→ltb (r.page_size - r.position_in_current_page) n (omega arith),
        e,
        f,
      )
      g

pub IsAt-next_object :
    (c : Compiler) (m : Memory) (lo hi : ℕ) (r : Reader) (object : List ℕ) (objects : List (List ℕ))
    → IsAt c m lo hi r (object ∷ objects)
    → (r' : Reader) × (next_object c m (length object) r ≡ ok (object, r'))
      × IsAt c m lo hi r' objects
IsAt-next_object c m lo hi r object objects a = elim a.stream [
  | inl (fits, e, s) ↦ (
    record r { position_in_current_page = r.position_in_current_page + length object },
    next_object-here c m r (length object) fits (take_object-lem c r (length object) object fits e),
    record { stream = s; readable = a.readable },
  )
  | inr (l, past, (idx, e, low, high, fits, f, s)) ↦
      let (byte, g) = a.readable idx low high in
      (
        record r { current_page = m idx; position_in_current_page = c.option_size + length object },
        next_object-turn c m r (length object) idx byte l past e g (
            take_object-lem c
              (record r { current_page = m idx; position_in_current_page = c.option_size })
              (length object) object fits f),
        record { stream = s; readable = a.readable },
      )
]
