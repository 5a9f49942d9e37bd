-- ===== src/Fat/FileIter/Files.antt =====
-- The files of a directory's entries: as many as are counted, each under its name.
use mathlib.Core.List.{reverse, reverse-cons, flatten, append_assoc, append-nil}
use ofs_convert_rs.Common.{
  ℕ, zero, suc, ◌<◌, ◌≡◌, refl, ap, ◌∙◌, true, false, Option, none, some, List, [], ◌∷◌, ◌++◌,
  length, arith, Outcome, ok, stuck, ◌>>=◌,
}
use ofs_convert_rs.Fat.Dentry.{
  FatDentry, FatPseudoDentry, Text, is_dentry, is_long_file_name, as_dentry, as_long_file_name,
  dentry, long_file_name, read_short_file_name, to_utf8_string, sequence_no,
}
use ofs_convert_rs.Fat.FileIter.{
  read_components, read_long_file_name, dentry_behind, named_at, next_named, join_reversed,
}

abbrev pub cons_named :
    Option (List ℕ × FatDentry)
    → Outcome (List (List ℕ × FatDentry))
    → Outcome (List (List ℕ × FatDentry))
cons_named none more = ok []
cons_named (some file) more = more >>= λ files. ok (file ∷ files)

-- All that `next` yields until it yields nothing.
unfoldable pub all_named : Text → ℕ → List FatPseudoDentry → Outcome (List (List ℕ × FatDentry))
all_named text zero ps = stuck
all_named text (suc fuel) ps =
    next_named text ps >>= λ (named, rest). cons_named named (all_named text fuel rest)

-- Entries of a long name that decode to its components.
abbrev pub Components : Text → List FatPseudoDentry → List (List ℕ) → Type 0
Components text [] [] = Unit {0}
Components text [] (c ∷ cs) = ⊥
Components text (p ∷ ps) [] = ⊥
Components text (p ∷ ps) (c ∷ cs) =
    (is_long_file_name p ≡ true)
    × (to_utf8_string text (long_file_name p) ≡ ok c)
    × Components text ps cs

-- The entries of a consistent directory: a file is a dentry, under its short name, or the entries of a
-- long name, the first of which bears their number, and then the dentry.
pub data Lists (text : Text) : List FatPseudoDentry → List (List ℕ × FatDentry) → Type 0 where
  empty : Lists text [] []
  short :
      (p : FatPseudoDentry) (name : List ℕ) {ps : List FatPseudoDentry}
      {files : List (List ℕ × FatDentry)}
      → is_dentry p ≡ true
      → read_short_file_name text (dentry p) ≡ ok name
      → Lists text ps files
      → Lists text (p ∷ ps) ((name, dentry p) ∷ files)
  long :
      (p : FatPseudoDentry) (more : List FatPseudoDentry) (c : List ℕ) (cs : List (List ℕ))
      (d : FatPseudoDentry) {ps : List FatPseudoDentry} {files : List (List ℕ × FatDentry)}
      → Components text (p ∷ more) (c ∷ cs)
      → sequence_no (long_file_name p) ≡ suc (length more)
      → is_dentry d ≡ true
      → Lists text ps files
      → Lists text (p ∷ (more ++ d ∷ ps)) ((flatten (reverse (c ∷ cs)), dentry d) ∷ files)

as_dentry-lem : (p : FatPseudoDentry) → is_dentry p ≡ true → as_dentry p ≡ some (dentry p)
unfolding as_dentry
as_dentry-lem p h = rw h refl

flatten-append : (xs ys : List (List ℕ)) → flatten (xs ++ ys) ≡ flatten xs ++ flatten ys
unfolding flatten
flatten-append [] ys = refl
flatten-append (x ∷ xs) ys = simp (flatten-append xs ys, append_assoc)

flatten-one : (x : List ℕ) → flatten (x ∷ []) ≡ x
unfolding flatten
flatten-one x = append-nil x

join_reversed-lem : (cs : List (List ℕ)) → join_reversed cs ≡ flatten (reverse cs)
unfolding flatten
join_reversed-lem [] = refl
join_reversed-lem (c ∷ cs) =
    rw
      (reverse-cons c cs, flatten-append (reverse cs) (c ∷ []), flatten-one c, join_reversed-lem cs)
      refl

long-not_dentry : (p : FatPseudoDentry) → is_long_file_name p ≡ true → is_dentry p ≡ false
unfolding is_dentry
long-not_dentry p h = rw h refl

as_long-lem :
    (p : FatPseudoDentry)
    → is_long_file_name p ≡ true
    → as_long_file_name p ≡ some (long_file_name p)
unfolding as_long_file_name
as_long-lem p h = rw h refl

long-as_dentry : (p : FatPseudoDentry) → is_long_file_name p ≡ true → as_dentry p ≡ none
unfolding as_dentry
long-as_dentry p h = rw (long-not_dentry p h) refl

read_components-lem :
    (text : Text) (ps rest : List FatPseudoDentry) (cs : List (List ℕ))
    → Components text ps cs
    → read_components text (length ps) (ps ++ rest) ≡ ok (cs, rest)
unfolding read_components
read_components-lem text [] rest [] k = refl
read_components-lem text [] rest (c ∷ cs) k = absurd k
read_components-lem text (p ∷ ps) rest [] k = absurd k
read_components-lem text (p ∷ ps) rest (c ∷ cs) (l, e, k) =
    rw (as_long-lem p l, e, read_components-lem text ps rest cs k) refl

next_named-empty : (text : Text) → next_named text [] ≡ ok (none, [])
unfolding next_named
next_named-empty text = refl

next_named-short :
    (text : Text) (p : FatPseudoDentry) (ps : List FatPseudoDentry) (name : List ℕ)
    → is_dentry p ≡ true
    → read_short_file_name text (dentry p) ≡ ok name
    → next_named text (p ∷ ps) ≡ ok (some (name, dentry p), ps)
unfolding next_named
next_named-short text p ps name h e =
    ap (named_at text p ps) (as_dentry-lem p h) ∙ ap (λ m. m >>= λ x. ok (some (x, dentry p), ps)) e

read_long-lem :
    (text : Text) (p : FatPseudoDentry) (more rest : List FatPseudoDentry) (c : List ℕ)
    (cs : List (List ℕ))
    → Components text (p ∷ more) (c ∷ cs)
    → sequence_no (long_file_name p) ≡ suc (length more)
    → read_long_file_name text (p ∷ (more ++ rest)) ≡ ok (flatten (reverse (c ∷ cs)), rest)
unfolding read_long_file_name
read_long-lem text p more rest c cs (l, e, k) n =
    rw (as_long-lem p l, e, n, read_components-lem text more rest cs k)
      (ap (λ name. ok (name, rest)) (join_reversed-lem (c ∷ cs)))

dentry_behind-lem :
    (text : Text) (name : List ℕ) (d : FatPseudoDentry) (rest : List FatPseudoDentry)
    → is_dentry d ≡ true
    → dentry_behind text (name, d ∷ rest) ≡ ok (some (name, dentry d), rest)
unfolding dentry_behind
dentry_behind-lem text name d rest h = rw (as_dentry-lem d h) refl

next_named-long :
    (text : Text) (p d : FatPseudoDentry) (ps rest : List FatPseudoDentry) (name : List ℕ)
    → is_long_file_name p ≡ true
    → is_dentry d ≡ true
    → read_long_file_name text (p ∷ ps) ≡ ok (name, d ∷ rest)
    → next_named text (p ∷ ps) ≡ ok (some (name, dentry d), rest)
unfolding next_named
next_named-long text p d ps rest name l h e =
    ap (named_at text p ps) (long-as_dentry p l)
    ∙ ap (λ m. m >>= dentry_behind text) e
    ∙ dentry_behind-lem text name d rest h

-- Iterating over the entries of a consistent directory yields its files, each with its short name or,
-- where it has one, with its long name, the parts of which are joined from the last entry to the first, and then ends.
pub all_named-Lists :
    (text : Text) (fuel : ℕ) {ps : List FatPseudoDentry} {files : List (List ℕ × FatDentry)}
    → length files < fuel
    → Lists text ps files
    → all_named text fuel ps ≡ ok files
unfolding all_named
all_named-Lists text zero h k = absurd (omega arith)
all_named-Lists text (suc fuel) h empty = rw (next_named-empty text) refl
all_named-Lists text (suc fuel) h (short p name {ps = ps} {files = files} d e k) =
    rw (next_named-short text p ps name d e, all_named-Lists text fuel (omega arith) k) refl
all_named-Lists text (suc fuel) h (long p more c cs d {ps = ps} {files = files} k n e ks) =
    rw
      (
        next_named-long text p d (more ++ d ∷ ps) ps (flatten (reverse (c ∷ cs))) k.0 e
            (read_long-lem text p more (d ∷ ps) c cs k n),
        all_named-Lists text fuel (omega arith) ks,
      )
      refl
