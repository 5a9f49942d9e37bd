-- ===== src/Serialization/StreamArchiver/Adding.antt =====
-- Adding an object: into the current page, or into a new one if the current one is full.
use ofs_convert_rs.Common.{
  ℕ, ◌+◌, ◌-◌, ◌≤◌, ◌<◌, ◌≡◌, refl, ◌∙◌, List, length, ltb, le→leb, le→ltb, lt→ltb, arith, Outcome,
  ok, err, ◌>>=◌, ◌⊎◌, inl, inr, no_free_clusters, Bool-cases, ltb→lt, ltb→le,
}
use ofs_convert_rs.Serialization.StreamArchiver.{
  Compiler, StreamArchiver, write_page, put_object, add_object, write_at, length-write_at,
}
use ofs_convert_rs.Serialization.StreamArchiver.Linking.{IsLayout, IsReady}
use ofs_convert_rs.Serialization.StreamArchiver.Writing.{Writes, write_page-cases}

-- The archiver with the object in its page.
abbrev pub put : StreamArchiver → List ℕ → StreamArchiver
put a object = record a {
  current_page = write_at a.position_in_current_page object a.current_page;
  position_in_current_page = a.position_in_current_page + length object;
}

pub put-IsReady :
    (c : Compiler) (a : StreamArchiver) (object : List ℕ)
    → IsReady c a
    → a.position_in_current_page + length object ≤ a.page_size
    → IsReady c (put a object)
put-IsReady c a object r h = record {
  valid = r.valid;
  filled = length-write_at a.position_in_current_page object a.current_page ∙ r.filled;
  fits = r.fits;
  addressed = r.addressed;
  room = r.room;
  behind = omega (arith, r.behind);
  inside = h;
  page = r.page;
}

put_object-lem :
    (c : Compiler) (a : StreamArchiver) (object : List ℕ)
    → a.position_in_current_page + length object ≤ a.page_size
    → put_object c object a ≡ ok (put a object)
unfolding put_object
put_object-lem c a object h =
    rw
      (
        le→leb a.position_in_current_page a.page_size (omega arith),
        le→leb (length object) (a.page_size - a.position_in_current_page) (omega arith),
      )
      refl

add_object-here :
    (c : Compiler) (a : StreamArchiver) (object : List ℕ) {result : Outcome StreamArchiver}
    → a.position_in_current_page + length object ≤ a.page_size
    → put_object c object a ≡ result
    → add_object c object a ≡ result
unfolding add_object
add_object-here c a object h e =
    rw
      (
        le→leb a.position_in_current_page a.page_size (omega arith),
        le→ltb (a.page_size - a.position_in_current_page) (length object) (omega arith),
      )
      e

add_object-turn :
    (c : Compiler) (a : StreamArchiver) (object : List ℕ) {page : Outcome StreamArchiver}
    {result : Outcome StreamArchiver}
    → a.position_in_current_page ≤ a.page_size
    → a.page_size < a.position_in_current_page + length object
    → write_page c a ≡ page
    → (page >>= put_object c object) ≡ result
    → add_object c object a ≡ result
unfolding add_object
add_object-turn c a object h k e f =
    rw
      (
        le→leb a.position_in_current_page a.page_size h,
        lt→ltb (a.page_size - a.position_in_current_page) (length object) (omega arith),
        e,
      )
      f

-- An object that a page can hold goes behind the objects of the current page or, where it does not fit,
-- to a new page, unless no cluster is free.
pub add_object-cases :
    (c : Compiler) (a : StreamArchiver) (object : List ℕ)
    → IsLayout c
    → IsReady c a
    → c.option_size + length object ≤ a.page_size
    → ((a.position_in_current_page + length object ≤ a.page_size)
        × (add_object c object a ≡ ok (put a object)))
      ⊎ ((a.page_size < a.position_in_current_page + length object)
          × (((i : ℕ) × (a₁ : StreamArchiver) × Writes c a a₁ i
                × (add_object c object a ≡ ok (put a₁ object)))
              ⊎ (add_object c object a ≡ err no_free_clusters)))
add_object-cases c a object l r h =
    elim (Bool-cases (ltb a.page_size (a.position_in_current_page + length object))) [
      | inr f ↦
          let fits : a.position_in_current_page + length object ≤ a.page_size = ltb→le _ _ f in
          inl (fits, add_object-here c a object fits (put_object-lem c a object fits))
      | inl t ↦
          let past : a.page_size < a.position_in_current_page + length object = ltb→lt _ _ t in
          inr (
            past,
            elim (write_page-cases c a l r) [
              | inr e ↦ inr (add_object-turn c a object r.inside past e refl)
              | inl (i, a₁, e, w) ↦ inl (
                i,
                a₁,
                w,
                add_object-turn c a object r.inside past e
                    (put_object-lem c a₁ object (omega (arith, w.position, w.same_page_size))),
              )
            ],
          )
    ]
