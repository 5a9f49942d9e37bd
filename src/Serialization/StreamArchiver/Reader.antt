-- ===== src/Serialization/StreamArchiver/Reader.antt =====
-- src/serialization/stream_archiver.rs: the reader of an archive, and how the archiver becomes one. The
-- clusters that a reader's calls find in the partition are a parameter of theirs.
use ofs_convert_rs.Common.{
  ℕ, zero, suc, ◌+◌, List, [], ◌∷◌, leb, ltb, ◌==◌, if◌then◌else◌, Outcome, ok, ◌>>=◌, ◌>>◌, assert,
  unwrap,
}
use ofs_convert_rs.Allocator.{AllocatedReader, reader_start_byte, split_into_reader}
use ofs_convert_rs.Memory.{Memory}
use ofs_convert_rs.Serialization.FatSerializer.{Copying}
use ofs_convert_rs.Serialization.StreamArchiver.{
  Header, Compiler, ArchivedType, StreamArchiver, space_left, read_at, finalize, write_page,
}

pub record Reader : Type 0 where
  pub current_page : List ℕ
  pub page_size : ℕ
  pub position_in_current_page : ℕ
  pub current_header : Header
  pub allocator : AllocatedReader

unfoldable pub cluster : AllocatedReader → Memory → ℕ → Outcome (List ℕ)
cluster r m idx = unwrap (reader_start_byte r idx) >>= λ _. ok (m idx)

module _ (c : Compiler) where
  unfoldable pub new : ℕ → ℕ → AllocatedReader → Memory → Outcome Reader
  unfolding cluster
  new first_page_idx page_size allocator m = cluster allocator m first_page_idx >>= λ page.
      ok (record {
        current_page = page;
        page_size = page_size;
        position_in_current_page = c.option_size;
        current_header = record { len = 0; type_id = c.unit_type };
        allocator = allocator;
      })

  unfoldable pub next_page : Memory → Reader → Outcome Reader
  unfolding cluster read_at
  next_page m r = unwrap (c.option_of (read_at 0 c.option_size r.current_page)) >>= λ next_page_idx.
      cluster r.allocator m next_page_idx >>= λ page.
      ok (record r { current_page = page; position_in_current_page = c.option_size })

  -- The second half of `next_object`, where the object is taken from the page.
  unfoldable pub take_object : ℕ → Reader → Outcome (List ℕ × Reader)
  unfolding read_at
  take_object size r = space_left r.page_size r.position_in_current_page >>= λ left.
      assert (leb size left)
      >> ok (
        read_at r.position_in_current_page size r.current_page,
        record r { position_in_current_page = r.position_in_current_page + size },
      )

  unfoldable pub next_object : Memory → ℕ → Reader → Outcome (List ℕ × Reader)
  unfolding next_page take_object
  next_object m size r = space_left r.page_size r.position_in_current_page >>= λ left.
      (if ltb left size then next_page m r else ok r) >>= take_object size

  unfoldable pub next_objects : Memory → ℕ → ℕ → Reader → Outcome (List (List ℕ) × Reader)
  unfolding next_object
  next_objects m zero size r = ok ([], r)
  next_objects m (suc n) size r = next_object m size r >>= λ (object, r').
      next_objects m n size r' >>= λ (objects, r''). ok (object ∷ objects, r'')

  unfoldable pub read_header : Memory → Reader → Outcome Reader
  unfolding next_object
  read_header m r = next_object m c.header_size r >>= λ (bytes, r').
      ok (record r' { current_header = c.header_of bytes })

  unfoldable pub next : Memory → ArchivedType → Reader → Outcome (List (List ℕ) × Reader)
  unfolding read_header next_objects
  next m t r = read_header m r >>= λ r'.
      assert (r'.current_header.type_id == t.type_id)
      >> next_objects m r'.current_header.len t.size r'

  -- The second half of `StreamArchiver::into_reader`, with the clusters put to the new allocator.
  unfoldable pub split_off : StreamArchiver → Outcome (Reader × Copying)
  unfolding new split_into_reader
  split_off a =
      let parts = split_into_reader a.shared.allocator in
      unwrap a.head >>= λ head. new head a.page_size parts.0 a.shared.memory >>= λ reader.
      ok (reader, record { allocator = parts.1; memory = a.shared.memory })

  unfoldable pub into_reader : StreamArchiver → Outcome (Reader × Copying)
  unfolding finalize write_page split_off
  into_reader a = finalize c a >>= write_page c >>= split_off
