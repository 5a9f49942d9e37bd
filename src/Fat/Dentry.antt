-- ===== src/Fat/Dentry.antt =====
-- src/fat/dentry.rs: the entries of a FAT directory. A pseudo-dentry is its bytes, from which
-- either view of the union is read.
pub mod Names
use Prim.Native.Nat.{bit_and}
use ofs_convert_rs.Common.{
  ℕ, zero, suc, ◌+◌, ◌-◌, ◌*◌, ◌/◌, ◌%◌, ◌^◌, Bool, true, false, not, ◌&&◌, ◌||◌, Option, none,
  some, List, [], ◌∷◌, ◌++◌, ltb, leb, ◌==◌, if◌then◌else◌, get_or, map, take, drop, Outcome, ok,
  err, panic, ◌>>=◌, ◌>>◌, assert, ensure, unwrap, u32_size, bad_timestamp,
}
use ofs_convert_rs.LoHi.{Halves, u32_of_u16_u16, get}
use ofs_convert_rs.Ext4.Inode.{DentryRepresentation}

pub record FatDentry : Type 0 where
  pub short_name : List ℕ
  pub short_extension : List ℕ
  pub attrs : ℕ
  pub short_name_case : ℕ
  pub create_time : ℕ
  pub create_date : ℕ
  pub access_date : ℕ
  pub first_fat_index_hi : ℕ
  pub mod_time : ℕ
  pub mod_date : ℕ
  pub first_fat_index_lo : ℕ
  pub file_size : ℕ

pub record LongFileName : Type 0 where
  pub sequence_no : ℕ
  pub name_1 : List ℕ
  pub attrs : ℕ
  pub name_2 : List ℕ
  pub name_3 : List ℕ

-- The 32 bytes of the union.
abbrev pub FatPseudoDentry : Type 0
FatPseudoDentry = List ℕ

abbrev byte : FatPseudoDentry → ℕ → ℕ
byte p i = get_or p i 0

-- A `u16` field; the machine is little-endian.
abbrev u16_at : FatPseudoDentry → ℕ → ℕ
u16_at p i = byte p i + 256 * byte p (i + 1)

unfoldable pub dentry : FatPseudoDentry → FatDentry
dentry p = record {
  short_name = take 8 p;
  short_extension = take 3 (drop 8 p);
  attrs = byte p 11;
  short_name_case = byte p 12;
  create_time = u16_at p 14;
  create_date = u16_at p 16;
  access_date = u16_at p 18;
  first_fat_index_hi = u16_at p 20;
  mod_time = u16_at p 22;
  mod_date = u16_at p 24;
  first_fat_index_lo = u16_at p 26;
  file_size = u16_at p 28 + 65536 * u16_at p 30;
}

unfoldable pub long_file_name : FatPseudoDentry → LongFileName
long_file_name p = record {
  sequence_no = byte p 0;
  name_1 = map (u16_at p) (1 ∷ 3 ∷ 5 ∷ 7 ∷ 9 ∷ []);
  attrs = byte p 11;
  name_2 = map (u16_at p) (14 ∷ 16 ∷ 18 ∷ 20 ∷ 22 ∷ 24 ∷ []);
  name_3 = map (u16_at p) (28 ∷ 30 ∷ []);
}

unfoldable pub is_long_file_name : FatPseudoDentry → Bool
unfolding long_file_name
is_long_file_name p = (long_file_name p).attrs == 0x0F

unfoldable pub is_dentry : FatPseudoDentry → Bool
unfolding is_long_file_name
is_dentry p = not (is_long_file_name p)

unfoldable pub as_dentry : FatPseudoDentry → Option FatDentry
as_dentry p = if is_dentry p then some (dentry p) else none

unfoldable pub as_long_file_name : FatPseudoDentry → Option LongFileName
as_long_file_name p = if is_long_file_name p then some (long_file_name p) else none

unfoldable pub is_invalid : FatPseudoDentry → Bool
unfolding long_file_name
is_invalid p = (long_file_name p).sequence_no == 0xE5

unfoldable pub is_dir_table_end : FatPseudoDentry → Bool
unfolding long_file_name
is_dir_table_end p = (long_file_name p).sequence_no == 0x00

unfoldable pub is_dot_dir : FatDentry → Bool
is_dot_dir d = get_or d.short_name 0 0 == 0x2E

unfoldable pub should_be_ignored : FatPseudoDentry → Bool
unfolding is_invalid as_dentry is_dot_dir
should_be_ignored p = is_invalid p || elim (as_dentry p) [ none ↦ false | some d ↦ is_dot_dir d ]

unfoldable pub first_fat_index : FatDentry → ℕ
first_fat_index d =
    get u32_of_u16_u16 (record { lo = d.first_fat_index_lo; hi = d.first_fat_index_hi })

abbrev has_flag : ℕ → ℕ → Bool
has_flag bits flag = not (bit_and bits flag == 0)

unfoldable pub is_dir : FatDentry → Bool
is_dir d = has_flag d.attrs 0x10

unfoldable pub is_read_only : FatDentry → Bool
is_read_only d = has_flag d.attrs 0x01

unfoldable pub has_file_extension : FatDentry → Bool
has_file_extension d = not (get_or d.short_extension 0 0 == 0x20)

unfoldable pub has_lowercase_name : FatDentry → Bool
has_lowercase_name d = has_flag d.short_name_case 0x8

unfoldable pub has_lowercase_extension : FatDentry → Bool
has_lowercase_extension d = has_flag d.short_name_case 0x10

-- The standard library's text functions on bytes: a `String` is its bytes. Of blanks, `trim_end` knows
-- the ASCII ones.
abbrev to_lower : ℕ → ℕ
to_lower c = if leb 0x41 c && leb c 0x5A then c + 0x20 else c

abbrev pub make_ascii_lowercase : List ℕ → List ℕ
make_ascii_lowercase = map to_lower

abbrev pub is_blank : ℕ → Bool
is_blank c = c == 0x20 || (leb 0x09 c && leb c 0x0D)

abbrev trim_cons : ℕ → List ℕ → List ℕ
trim_cons c [] = if is_blank c then [] else c ∷ []
trim_cons c (d ∷ ds) = c ∷ d ∷ ds

unfoldable pub trim_end : List ℕ → List ℕ
trim_end [] = []
trim_end (c ∷ cs) = trim_cons c (trim_end cs)

-- The units up to the first that is zero.
abbrev take_while_set : List ℕ → List ℕ
take_while_set [] = []
take_while_set (c ∷ cs) = if c == 0 then [] else c ∷ take_while_set cs

unfoldable pub to_utf16_string : LongFileName → List ℕ
to_utf16_string l = take_while_set (l.name_1 ++ (l.name_2 ++ l.name_3))

-- `LongFileName::sequence_no`: the low five bits.
unfoldable pub sequence_no : LongFileName → ℕ
sequence_no l = bit_and l.sequence_no 0x1F

-- `from_utf8`, `decode_utf16` and the calendar of `chrono`: `none` is an error or a panic of theirs. A
-- date and a time are given by year, month, day, hour, minute and second.
pub record Text : Type 0 where
  pub from_utf8 : List ℕ → Option (List ℕ)
  pub decode_utf16 : List ℕ → Option (List ℕ)
  pub timestamp : ℕ → ℕ → ℕ → ℕ → ℕ → ℕ → Option ℕ

-- Hour, minute and second.
abbrev time_fields : Option ℕ → ℕ × ℕ × ℕ
time_fields none = (0, 0, 0)
time_fields (some t) = (t / 2 ^ 11 % 2 ^ 5, t / 2 ^ 5 % 2 ^ 6, t % 2 ^ 5 * 2)

module _ (text : Text) where
  -- A name, and behind a point the extension.
  unfoldable pub with_extension : FatDentry → List ℕ → Outcome (List ℕ)
  unfolding has_lowercase_extension
  with_extension d name = unwrap (text.from_utf8 d.short_extension) >>= λ extension. ok (
      name
      ++ 0x2E ∷ (if has_lowercase_extension d then make_ascii_lowercase extension else extension))

  unfoldable pub read_short_file_name : FatDentry → Outcome (List ℕ)
  unfolding trim_end has_lowercase_name has_file_extension with_extension
  read_short_file_name d = unwrap (text.from_utf8 d.short_name) >>= λ name.
      let name_string = trim_end name in
      let cased = if has_lowercase_name d then make_ascii_lowercase name_string else name_string in
      if has_file_extension d then with_extension d cased else ok cased

  -- The fields of a date are cut out of its 16 bits, and those of a time.
  unfoldable pub fat_time_to_unix : ℕ → Option ℕ → Outcome ℕ
  fat_time_to_unix date time =
      let year = date / 2 ^ 9 % 2 ^ 7 + 1980 in
      let month = date / 2 ^ 5 % 2 ^ 4 in
      let day = date % 2 ^ 5 in
      let hms = time_fields time in
      unwrap (text.timestamp year month day hms.0 hms.1 hms.2) >>= λ seconds.
      ensure (ltb seconds u32_size) bad_timestamp >> ok seconds

  unfoldable pub access_time_as_unix : FatDentry → Outcome ℕ
  unfolding fat_time_to_unix
  access_time_as_unix d = fat_time_to_unix d.access_date none

  unfoldable pub create_time_as_unix : FatDentry → Outcome ℕ
  unfolding fat_time_to_unix
  create_time_as_unix d = fat_time_to_unix d.create_date (some d.create_time)

  unfoldable pub modify_time_as_unix : FatDentry → Outcome ℕ
  unfolding fat_time_to_unix
  modify_time_as_unix d = fat_time_to_unix d.mod_date (some d.mod_time)

  -- `DentryRepresentation::from` of src/serialization/dentry.rs
  unfoldable pub representation : FatDentry → Outcome DentryRepresentation
  unfolding access_time_as_unix create_time_as_unix modify_time_as_unix is_dir is_read_only
  representation d = access_time_as_unix d >>= λ access_time.
      create_time_as_unix d >>= λ create_time. modify_time_as_unix d >>= λ mod_time. ok (record {
        access_time = access_time;
        create_time = create_time;
        mod_time = mod_time;
        file_size = d.file_size;
        is_dir = is_dir d;
        is_read_only = is_read_only d;
      })

  unfoldable pub to_utf8_string : LongFileName → Outcome (List ℕ)
  unfolding to_utf16_string
  to_utf8_string l = unwrap (text.decode_utf16 (to_utf16_string l))
