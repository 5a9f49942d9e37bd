-- ===== src/Fat/Dentry/Names.antt =====
-- What `read_short_file_name` makes of the padded parts of a short name.
use ofs_convert_rs.Common.{
  ℕ, zero, suc, Bool, true, false, some, List, [], ◌∷◌, ◌++◌, replicate, ◌≡◌, refl, ap, ◌∙◌,
  if◌then◌else◌, ok,
}
use ofs_convert_rs.Fat.Dentry.{
  FatDentry, Text, is_blank, trim_cons, trim_end, make_ascii_lowercase, has_lowercase_name,
  has_lowercase_extension, has_file_extension, with_extension, read_short_file_name,
}

trim_end-blanks : (n : ℕ) → trim_end (replicate n 0x20) ≡ []
unfolding trim_end
trim_end-blanks zero = refl
trim_end-blanks (suc n) = rw (trim_end-blanks n) refl

trim_end-last : (c n : ℕ) → is_blank c ≡ false → trim_end (c ∷ replicate n 0x20) ≡ c ∷ []
unfolding trim_end
trim_end-last c n h = ap (trim_cons c) (trim_end-blanks n) ∙ rw h refl

trim_end-padded :
    (base : List ℕ) (c n : ℕ)
    → is_blank c ≡ false
    → trim_end (base ++ c ∷ replicate n 0x20) ≡ base ++ c ∷ []
unfolding trim_end
trim_end-padded [] c n h = trim_end-last c n h
trim_end-padded (x ∷ []) c n h = ap (trim_cons x) (trim_end-last c n h)
trim_end-padded (x ∷ y ∷ base) c n h = ap (trim_cons x) (trim_end-padded (y ∷ base) c n h)

-- The lower case, where a flag asks for it.
abbrev pub cased : Bool → List ℕ → List ℕ
cased flag name = if flag then make_ascii_lowercase name else name

-- Of a dentry with an extension, whose name is padded by blanks behind its last character `c`, the short
-- file name is the name without the padding, a point, and the extension with whatever blanks pad it,
-- each in lower case if its flag is set.
pub read_short_file_name-padded :
    (text : Text) (d : FatDentry) (base extension : List ℕ) (c n : ℕ)
    → is_blank c ≡ false
    → text.from_utf8 d.short_name ≡ some (base ++ c ∷ replicate n 0x20)
    → text.from_utf8 d.short_extension ≡ some extension
    → has_file_extension d ≡ true
    → read_short_file_name text d
      ≡ ok (
          cased (has_lowercase_name d) (base ++ c ∷ [])
          ++ 0x2E ∷ cased (has_lowercase_extension d) extension)
unfolding read_short_file_name with_extension
read_short_file_name-padded text d base extension c n h e f g =
    rw (e, f, trim_end-padded base c n h, g) refl
