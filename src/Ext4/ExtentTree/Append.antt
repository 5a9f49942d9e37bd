-- ===== src/Ext4/ExtentTree/Append.antt =====
-- What appending an entry to a level does.
use ofs_convert_rs.Common.{
  ℕ, suc, Bool, le→leb, ◌≤◌, ◌<◌, ◌≡◌, refl, true, false, length, get_or, set, ltb, leb, ◌==◌, ◌&&◌,
  ◌||◌, ok, err, arith, extent_level_full, length-set, get_or-set_self, get_or-set_ne, lt→ltb, ◌⊎◌,
  inl, inr, Bool-cases,
}
use ofs_convert_rs.Ext4.ExtentTree.{
  ExtentTreeLevel, ExtentTreeElement, unset, is_full, is_valid, append_entry,
}

-- The level has room for as many entries as its header says.
pub record IsValid (l : ExtentTreeLevel) : Type 0 where
  pub within : l.header.valid_entry_count ≤ l.header.max_entry_count
  pub holds : l.header.max_entry_count ≤ length l.entries

-- The entry is the last of the valid ones, and those before it are as they were.
pub record Appends (l l' : ExtentTreeLevel) (entry : ExtentTreeElement) : Type 0 where
  pub valid : IsValid l'
  pub counted : l'.header.valid_entry_count ≡ suc l.header.valid_entry_count
  pub last : get_or l'.entries l.header.valid_entry_count unset ≡ entry
  pub before :
      (i : ℕ)
      → i < l.header.valid_entry_count
      → get_or l'.entries i unset ≡ get_or l.entries i unset
  pub checked : is_valid l'.header ≡ true

not_full : (a b : ℕ) → (a == b) ≡ false → a ≤ b → a < b
not_full a b h k = ground arith

or_true : (b : Bool) → (b || true) ≡ true
or_true true = refl
or_true false = refl

passes : (c m d : ℕ) → suc c ≤ m → (leb (suc c) m && (d == 0 || ltb 0 (suc c))) ≡ true
passes c m d h = rw (le→leb (suc c) m h, lt→ltb 0 (suc c) (omega arith)) (or_true (d == 0))

-- On a level that keeps its invariant, `append_entry` never panics. It fails where the level is full,
-- and else appends the entry, keeps the entries before it and the invariant, and its header passes
-- `is_valid`.
pub append_entry-cases :
    (l : ExtentTreeLevel) (entry : ExtentTreeElement)
    → IsValid l
    → ((l.header.valid_entry_count ≡ l.header.max_entry_count)
        × (append_entry l entry ≡ err extent_level_full))
      ⊎ ((l' : ExtentTreeLevel) × (append_entry l entry ≡ ok l') × Appends l l' entry)
unfolding append_entry is_valid
append_entry-cases l entry v = elim (Bool-cases (is_full l.header)) [
  | inl t ↦ inl (ground arith, rw t refl)
  | inr f ↦
      let room : l.header.valid_entry_count < l.header.max_entry_count = not_full _ _ f v.within in
      let inside : l.header.valid_entry_count < length l.entries = omega (arith, v.holds) in
      inr (
        record {
          header = record l.header { valid_entry_count = suc l.header.valid_entry_count };
          entries = set l.entries l.header.valid_entry_count entry;
        },
        rw (f, lt→ltb _ _ inside) refl,
        record {
          valid = record {
            within = room;
            holds = omega (arith, v.holds, length-set l.entries l.header.valid_entry_count entry);
          };
          counted = refl;
          last = get_or-set_self l.entries l.header.valid_entry_count entry unset inside;
          before = λ i h.
              get_or-set_ne l.entries l.header.valid_entry_count i entry unset
                (λ e. absurd (omega arith));
          checked = passes l.header.valid_entry_count l.header.max_entry_count l.header.depth room;
        },
      )
]
