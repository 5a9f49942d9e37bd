-- ===== src/Fat/FileIter/Counts.antt =====
-- `count` tells how many files the iterator yields.
use ofs_convert_rs.Common.{
  ℕ, zero, suc, ◌≡◌, refl, sym, ap, subst, ◌∙◌, Bool, true, false, Option, none, some, List, [],
  ◌∷◌, length, if◌then◌else◌, Outcome, ok, unwrap, >>=-eq-ok, ok_injective,
}
use ofs_convert_rs.Fat.Dentry.{
  FatDentry, FatPseudoDentry, LongFileName, Text, is_dentry, is_long_file_name, as_dentry,
  as_long_file_name, read_short_file_name, to_utf8_string, sequence_no,
}
use ofs_convert_rs.Fat.FileIter.{
  read_components, read_long_file_name, dentry_behind, named_at, next_named, pred8, count, Named,
}
use ofs_convert_rs.Fat.FileIter.Files.{cons_named, all_named}

unwrap-eq-ok :
    {A : Type 0} (b : Bool) (x : A) {v : A} → unwrap (if b then some x else none) ≡ ok v → b ≡ true
unwrap-eq-ok true x e = refl
unwrap-eq-ok false x e = cc

count-empty : count [] ≡ 0
unfolding count
count-empty = refl

count-dentry :
    (p : FatPseudoDentry) (ps : List FatPseudoDentry)
    → is_dentry p ≡ true
    → count (p ∷ ps) ≡ suc (count ps)
unfolding count
count-dentry p ps h = rw h refl

count-long :
    (p : FatPseudoDentry) (ps : List FatPseudoDentry)
    → is_long_file_name p ≡ true
    → count (p ∷ ps) ≡ count ps
unfolding count is_dentry
count-long p ps h = rw h refl

count-unwrap :
    (p : FatPseudoDentry) (ps : List FatPseudoDentry) {l : LongFileName}
    → unwrap (as_long_file_name p) ≡ ok l
    → count (p ∷ ps) ≡ count ps
unfolding as_long_file_name
count-unwrap p ps e = count-long p ps (unwrap-eq-ok (is_long_file_name p) _ e)

count-read_components :
    (text : Text) (n : ℕ) (ps rest : List FatPseudoDentry) (cs : List (List ℕ))
    → read_components text n ps ≡ ok (cs, rest)
    → count ps ≡ count rest
unfolding read_components
count-read_components text zero ps rest cs e = let same : ps ≡ rest = cc in ap count same
count-read_components text (suc n) [] rest cs e = cc
count-read_components text (suc n) (p ∷ ps) rest cs e =
    let (l, e₁, f₁) = >>=-eq-ok (unwrap (as_long_file_name p)) _ e in
    let (c, e₂, f₂) = >>=-eq-ok (to_utf8_string text l) _ f₁ in
    let ((ds, rest'), e₃, f₃) = >>=-eq-ok (read_components text n ps) _ f₂ in
    let same : rest' ≡ rest = cc in
    count-unwrap p ps e₁ ∙ count-read_components text n ps rest' ds e₃ ∙ ap count same

count-read_long :
    (text : Text) (ps rest : List FatPseudoDentry) (name : List ℕ)
    → read_long_file_name text ps ≡ ok (name, rest)
    → count ps ≡ count rest
unfolding read_long_file_name
count-read_long text [] rest name e = cc
count-read_long text (p ∷ ps) rest name e =
    let (l, e₁, f₁) = >>=-eq-ok (unwrap (as_long_file_name p)) _ e in
    let (c, e₂, f₂) = >>=-eq-ok (to_utf8_string text l) _ f₁ in
    let ((ds, rest'), e₃, f₃) = >>=-eq-ok (read_components text (pred8 (sequence_no l)) ps) _ f₂ in
    let same : rest' ≡ rest = cc in
    count-unwrap p ps e₁
    ∙ count-read_components text (pred8 (sequence_no l)) ps rest' ds e₃
    ∙ ap count same

count-unwrap_dentry :
    (p : FatPseudoDentry) (ps : List FatPseudoDentry) {d : FatDentry}
    → unwrap (as_dentry p) ≡ ok d
    → count (p ∷ ps) ≡ suc (count ps)
unfolding as_dentry
count-unwrap_dentry p ps e = count-dentry p ps (unwrap-eq-ok (is_dentry p) _ e)

-- A file takes one dentry, and there is none left at the end.
abbrev Consumes : Option (List ℕ × FatDentry) → ℕ → ℕ → Type 0
Consumes none n m = n ≡ 0
Consumes (some file) n m = n ≡ suc m

count-dentry_behind :
    (text : Text) (name : List ℕ) (ps rest : List FatPseudoDentry) (o : Option (List ℕ × FatDentry))
    → dentry_behind text (name, ps) ≡ ok (o, rest)
    → Consumes o (count ps) (count rest)
unfolding dentry_behind
count-dentry_behind text name [] rest none e = count-empty
count-dentry_behind text name [] rest (some file) e = cc
count-dentry_behind text name (p ∷ ps) rest o e =
    let (d, e₁, f₁) = >>=-eq-ok (unwrap (as_dentry p)) _ e in
    subst (λ (x : Named). Consumes x.0 (count (p ∷ ps)) (count x.1)) (ok_injective f₁)
      (count-unwrap_dentry p ps e₁)

count-named_at :
    (text : Text) (p : FatPseudoDentry) (ps rest : List FatPseudoDentry)
    (o : Option (List ℕ × FatDentry))
    → (d : Option FatDentry) → as_dentry p ≡ d
    → named_at text p ps d ≡ ok (o, rest)
    → Consumes o (count (p ∷ ps)) (count rest)
unfolding named_at
count-named_at text p ps rest o (some d) h e =
    let (name, e₁, f₁) = >>=-eq-ok (read_short_file_name text d) _ e in
    subst (λ (x : Named). Consumes x.0 (count (p ∷ ps)) (count x.1)) (ok_injective f₁)
      (count-unwrap_dentry p ps (ap unwrap h))
count-named_at text p ps rest o none h e =
    let ((name, ps'), e₁, f₁) = >>=-eq-ok (read_long_file_name text (p ∷ ps)) _ e in
    subst (λ n. Consumes o n (count rest)) (sym (count-read_long text (p ∷ ps) ps' name e₁))
      (count-dentry_behind text name ps' rest o f₁)

count-next_named :
    (text : Text) (ps rest : List FatPseudoDentry) (o : Option (List ℕ × FatDentry))
    → next_named text ps ≡ ok (o, rest)
    → Consumes o (count ps) (count rest)
unfolding next_named
count-next_named text [] rest none e = count-empty
count-next_named text [] rest (some file) e = cc
count-next_named text (p ∷ ps) rest o e = count-named_at text p ps rest o (as_dentry p) refl e

length-cons_named :
    (named : Option (List ℕ × FatDentry)) (m : Outcome (List (List ℕ × FatDentry)))
    (files : List (List ℕ × FatDentry)) (n k : ℕ)
    → Consumes named n k
    → ((more : List (List ℕ × FatDentry)) → m ≡ ok more → length more ≡ k)
    → cons_named named m ≡ ok files
    → length files ≡ n
length-cons_named none m files n k c h e = ap length (sym (ok_injective e)) ∙ sym c
length-cons_named (some file) m files n k c h e =
    let (more, e₁, f₁) = >>=-eq-ok m _ e in
    ap length (sym (ok_injective f₁)) ∙ ap suc (h more e₁) ∙ sym c

-- Whatever the entries, if iterating over them yields files and ends, then `count` is the number of
-- these files.
pub length-all_named :
    (text : Text) (fuel : ℕ) (ps : List FatPseudoDentry) (files : List (List ℕ × FatDentry))
    → all_named text fuel ps ≡ ok files
    → length files ≡ count ps
unfolding all_named
length-all_named text zero ps files e = cc
length-all_named text (suc fuel) ps files e =
    let ((named, rest), e₁, f₁) = >>=-eq-ok (next_named text ps) _ e in
    length-cons_named named (all_named text fuel rest) files (count ps) (count rest)
      (count-next_named text ps rest named e₁) (λ more g. length-all_named text fuel rest more g) f₁
