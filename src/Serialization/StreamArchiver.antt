-- ===== src/Serialization/StreamArchiver.antt =====
-- src/serialization/stream_archiver.rs: the archive of the FAT tree, a chain of pages. An object is the
-- bytes that it has in memory, so that `size_of` is their number. How the compiler lays out a `Header`
-- and an `Option<PageIdx>`, and which numbers it gives to types, is the parameter `c`.
mod Bytes
unfoldable pub use Bytes.*
pub mod Reader
pub mod Stream
pub mod Linking
pub mod Writing
pub mod Adding
pub mod Landing
pub mod Elsewhere
pub mod Runs
pub mod Reading
pub mod Progress
pub mod RoundTrip
use ofs_convert_rs.Common.{
  ℕ, zero, suc, ◌+◌, ◌-◌, Bool, true, false, Option, none, some, List, [], ◌∷◌, length, map, leb,
  ltb, ◌==◌, if◌then◌else◌, replicate, Outcome, ok, ◌>>=◌, ◌>>◌, assert, unwrap,
}
use ofs_convert_rs.Allocator.{allocate_one, cluster_start_byte}
use ofs_convert_rs.Memory.{update}
use ofs_convert_rs.Serialization.FatSerializer.{Copying}

pub record Header : Type 0 where
  pub len : ℕ
  pub type_id : ℕ

pub record Compiler : Type 0 where
  pub option_size : ℕ
  pub option_bytes : Option ℕ → List ℕ
  pub option_of : List ℕ → Option ℕ
  pub header_size : ℕ
  pub header_bytes : Header → List ℕ
  pub header_of : List ℕ → Header
  pub end_type : ℕ
  pub unit_type : ℕ

-- A type that is archived: `TypeId::of::<T>()` and `size_of::<T>()`.
pub record ArchivedType : Type 0 where
  pub type_id : ℕ
  pub size : ℕ

-- `shared` is what the archiver reaches through the allocator.
pub record StreamArchiver : Type 0 where
  pub head : Option ℕ
  pub previous_page_idx : Option ℕ
  pub current_page : List ℕ
  pub page_size : ℕ
  pub position_in_current_page : ℕ
  pub shared : Copying

-- `space_left_in_page`, of either: a `usize` does not go below zero.
abbrev pub space_left : ℕ → ℕ → Outcome ℕ
space_left page_size position = assert (leb position page_size) >> ok (page_size - position)

module _ (c : Compiler) where
  unfoldable pub new : Copying → ℕ → Outcome StreamArchiver
  new shared page_size =
      assert (leb (c.option_size + c.header_size) page_size)
      >> ok (record {
        head = none;
        previous_page_idx = none;
        current_page = replicate page_size 0;
        page_size = page_size;
        position_in_current_page = c.option_size;
        shared = shared;
      })

  unfoldable pub reset_page : StreamArchiver → StreamArchiver
  unfolding write_at
  reset_page a = record a {
    current_page = write_at 0 (c.option_bytes none) (replicate (length a.current_page) 0);
    position_in_current_page = c.option_size;
  }

  -- The `if let` of `write_page`: the new page's index goes to the page before it, or is the head.
  unfoldable pub link : Option ℕ → ℕ → StreamArchiver → Outcome StreamArchiver
  unfolding write_at
  link none page_idx a = ok (record a { head = some page_idx })
  link (some previous) page_idx a = unwrap (cluster_start_byte a.shared.allocator previous) >>= λ _.
      ok (record a {
        shared = record {
          allocator = a.shared.allocator;
          memory =
              update a.shared.memory previous
                (write_at 0 (c.option_bytes (some page_idx)) (a.shared.memory previous));
        };
      })

  -- `copy_from_slice` panics if the page does not fill the cluster.
  unfoldable pub write_page : StreamArchiver → Outcome StreamArchiver
  unfolding link reset_page
  write_page a = allocate_one a.shared.allocator >>= λ (page_idx, allocator).
      unwrap (cluster_start_byte allocator page_idx) >>= λ _.
      assert (length a.current_page == allocator.cluster_size)
      >> link a.previous_page_idx page_idx (record a {
        shared = record {
          allocator = allocator;
          memory = update a.shared.memory page_idx a.current_page;
        };
      })
      >>= λ a'. ok (reset_page (record a' { previous_page_idx = some page_idx }))

  -- The second half of `add_object`, where the object goes into the page.
  unfoldable pub put_object : List ℕ → StreamArchiver → Outcome StreamArchiver
  unfolding write_at
  put_object object a = space_left a.page_size a.position_in_current_page >>= λ left.
      assert (leb (length object) left)
      >> ok (record a {
        current_page = write_at a.position_in_current_page object a.current_page;
        position_in_current_page = a.position_in_current_page + length object;
      })

  unfoldable pub add_object : List ℕ → StreamArchiver → Outcome StreamArchiver
  unfolding write_page put_object
  add_object object a = space_left a.page_size a.position_in_current_page >>= λ left.
      (if ltb left (length object) then write_page a else ok a) >>= put_object object

  unfoldable pub add_objects : List (List ℕ) → StreamArchiver → Outcome StreamArchiver
  unfolding add_object
  add_objects [] a = ok a
  add_objects (object ∷ objects) a = add_object object a >>= add_objects objects

  unfoldable pub archive : ArchivedType → List (List ℕ) → StreamArchiver → Outcome StreamArchiver
  unfolding add_objects
  archive t objects a =
      add_object (c.header_bytes (record { len = length objects; type_id = t.type_id })) a
      >>= add_objects objects

  unfoldable pub finalize : StreamArchiver → Outcome StreamArchiver
  unfolding add_object
  finalize a = add_object (c.header_bytes (record { len = 0; type_id = c.end_type })) a
