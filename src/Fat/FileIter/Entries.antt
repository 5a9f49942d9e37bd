-- ===== src/Fat/FileIter/Entries.antt =====
-- The iterator over pseudo-dentries walks the clusters of a directory.
use ofs_convert_rs.Common.{
  ℕ, zero, suc, ◌-◌, ◌≤◌, ◌<◌, ◌≡◌, refl, sym, ap, subst, ◌∙◌, true, Option, none, some, List, [],
  ◌∷◌, ◌++◌, length, drop, get_elem?, leb, ◌==◌, if◌then◌else◌, arith, Outcome, ok, stuck, ◌>>=◌,
  inl, inr, Bool-cases, leb→le, leb→lt,
}
use ofs_convert_rs.Fat.BootSector.{dentries_per_cluster}
use ofs_convert_rs.Fat.Table.{IsReadable, data_cluster-lem}
use ofs_convert_rs.Fat.Table.Chain.{Chain, stop, link, IsCluster, to_data-lem, next-stop, next-link}
use ofs_convert_rs.Fat.Dentry.{FatPseudoDentry, should_be_ignored, is_dir_table_end}
use ofs_convert_rs.Fat.FileIter.{
  FatData, FatPseudoDentryIter, cluster_of, get_next_cluster, index, try_next_in, try_next,
  next_loop,
}

abbrev pub cons_entry :
    Option FatPseudoDentry → Outcome (List FatPseudoDentry) → Outcome (List FatPseudoDentry)
cons_entry none more = ok []
cons_entry (some d) more = more >>= λ ds. ok (d ∷ ds)

-- All that `next` yields until it yields nothing; `fuel` is that of each loop.
unfoldable pub all_entries : FatData → ℕ → ℕ → FatPseudoDentryIter → Outcome (List FatPseudoDentry)
all_entries fs zero fuel it = stuck
all_entries fs (suc n) fuel it =
    next_loop fs fuel it >>= λ (dentry, it'). cons_entry dentry (all_entries fs n fuel it')

-- The entries of a directory up to its end, less those that are ignored.
unfoldable pub valid_entries : List FatPseudoDentry → List FatPseudoDentry
valid_entries [] = []
valid_entries (d ∷ ds) =
    if should_be_ignored d
    then valid_entries ds
    else if is_dir_table_end d
    then []
    else d ∷ valid_entries ds

get_elem?-drop :
    (c : List FatPseudoDentry) (k : ℕ)
    → k < length c
    → (d : FatPseudoDentry) × (get_elem? c k ≡ some d) × (drop k c ≡ d ∷ drop (suc k) c)
get_elem?-drop [] k h = absurd (omega arith)
get_elem?-drop (d ∷ c) zero h = (d, refl, refl)
get_elem?-drop (e ∷ c) (suc k) h = get_elem?-drop c k (omega arith)

drop-all : (c : List FatPseudoDentry) (k : ℕ) → length c ≤ k → drop k c ≡ []
drop-all [] zero h = refl
drop-all [] (suc k) h = refl
drop-all (d ∷ c) zero h = absurd (omega arith)
drop-all (d ∷ c) (suc k) h = drop-all c k (omega arith)

module _ (fs : FatData) where
  -- The entries of the clusters of a chain.
  unfoldable pub entries : List ℕ → List FatPseudoDentry
  entries [] = []
  entries (i ∷ is) = fs.dentries_in (i - 2) ++ entries is

  -- A cluster can be read and has as many entries as `dentries_per_cluster` says.
  abbrev pub IsWhole : ℕ → Type 0
  IsWhole i =
      IsReadable fs.fat_fs (i - 2)
      × (length (fs.dentries_in (i - 2)) ≡ dentries_per_cluster fs.fat_fs.boot_sector)

  abbrev pub AreWhole : List ℕ → Type 0
  AreWhole [] = Unit {0}
  AreWhole (i ∷ is) = IsWhole i × AreWhole is

  -- What is left for an iterator: the rest of its cluster and the clusters of the rest of its chain.
  abbrev pub RestOf : Option (List FatPseudoDentry) → ℕ → ℕ → List FatPseudoDentry → Type 0
  RestOf none j k ds = ds ≡ []
  RestOf (some c) j k ds =
      (is : List ℕ) × Chain fs.fat_fs.fat_table j is
      × AreWhole is
      × (length c ≡ dentries_per_cluster fs.fat_fs.boot_sector)
      × (k ≤ dentries_per_cluster fs.fat_fs.boot_sector)
      × (ds ≡ drop k c ++ entries is)

  abbrev pub Rest : FatPseudoDentryIter → List FatPseudoDentry → Type 0
  Rest it ds = RestOf it.current_cluster it.fat_idx it.current_dentry_idx ds

  -- A call of `try_next` takes the first of what is left.
  abbrev pub Takes :
      List FatPseudoDentry → Outcome (Option FatPseudoDentry × FatPseudoDentryIter) → Type 0
  Takes [] m = (it : FatPseudoDentryIter) × (m ≡ ok (none, it))
  Takes (d ∷ ds) m = (it : FatPseudoDentryIter) × (m ≡ ok (some d, it)) × Rest it ds

  Takes-cast :
      {ds ds' : List FatPseudoDentry}
      {m m' : Outcome (Option FatPseudoDentry × FatPseudoDentryIter)}
      → ds ≡ ds'
      → m ≡ m'
      → Takes ds m
      → Takes ds' m'
  Takes-cast {ds = ds} {m' = m'} e f t = subst (λ x. Takes x m') e (subst (Takes ds) f t)

  index-Takes :
      (c : List FatPseudoDentry) (j k : ℕ) (is : List ℕ)
      → Chain fs.fat_fs.fat_table j is
      → AreWhole is
      → length c ≡ dentries_per_cluster fs.fat_fs.boot_sector
      → k < length c
      → Takes (drop k c ++ entries is) (
          index fs
            (record { fat_idx = j; current_cluster = some c; current_dentry_idx = k })
            (some c))
  unfolding index
  index-Takes c j k is chain whole size h =
      let (d, e, f) = get_elem?-drop c k h in
      let it : FatPseudoDentryIter = record {
        fat_idx = j;
        current_cluster = some c;
        current_dentry_idx = k;
      } in
      let found : index fs it (some c) ≡ ok (some d, record it { current_dentry_idx = suc k }) =
        rw e refl in
      Takes-cast {ds = d ∷ (drop (suc k) c ++ entries is)} (ap (λ x. x ++ entries is) (sym f))
        (sym found)
        (
          record it { current_dentry_idx = suc k },
          refl,
          (is, chain, whole, size, omega arith, refl),
        )

  pub next_cluster-stop :
      (it : FatPseudoDentryIter)
      → 0x0FFFFFF8 ≤ it.fat_idx
      → get_next_cluster fs it ≡ ok (record it { current_cluster = none })
  unfolding get_next_cluster cluster_of
  next_cluster-stop it h =
      ap (λ m. m >>= cluster_of fs it) (next-stop fs.fat_fs.fat_table it.fat_idx h)

  pub next_cluster-link :
      (it : FatPseudoDentryIter) (j : ℕ)
      → IsCluster it.fat_idx
      → get_elem? fs.fat_fs.fat_table it.fat_idx ≡ some j
      → IsWhole it.fat_idx
      → get_next_cluster fs it
        ≡ ok (record it { fat_idx = j; current_cluster = some (fs.dentries_in (it.fat_idx - 2)) })
  unfolding get_next_cluster cluster_of
  next_cluster-link it j c e (r, h) =
      let equal : (length (fs.dentries_in (it.fat_idx - 2))
            == dentries_per_cluster fs.fat_fs.boot_sector)
          ≡ true =
        ground arith in
      ap (λ m. m >>= cluster_of fs it) (next-link fs.fat_fs.fat_table it.fat_idx j c e)
      ∙ rw (to_data-lem it.fat_idx c, data_cluster-lem fs.fat_fs (it.fat_idx - 2) r, equal) refl

  abbrev turned : FatPseudoDentryIter → Outcome (Option FatPseudoDentry × FatPseudoDentryIter)
  turned it = index fs (record it { current_dentry_idx = 0 }) it.current_cluster

  index-none : (it : FatPseudoDentryIter) → index fs it none ≡ ok (none, it)
  unfolding index
  index-none it = refl

  turn-Takes :
      (cur : Option (List FatPseudoDentry)) (k : ℕ) {j : ℕ} {is : List ℕ}
      → 0 < dentries_per_cluster fs.fat_fs.boot_sector
      → Chain fs.fat_fs.fat_table j is
      → AreWhole is
      → Takes (entries is) (
          get_next_cluster fs
            (record { fat_idx = j; current_cluster = cur; current_dentry_idx = k })
          >>= turned)
  unfolding entries
  turn-Takes cur k some_fit (stop {i = i} h) whole =
      let it : FatPseudoDentryIter = record {
        fat_idx = i;
        current_cluster = cur;
        current_dentry_idx = k;
      } in
      let end : FatPseudoDentryIter = record {
        fat_idx = i;
        current_cluster = none;
        current_dentry_idx = 0;
      } in
      (end, ap (λ m. m >>= turned) (next_cluster-stop it h) ∙ index-none end)
  turn-Takes cur k some_fit (link {i = i} {j = j} {is = is} c f chain) (whole, wholes) =
      let it : FatPseudoDentryIter = record {
        fat_idx = i;
        current_cluster = cur;
        current_dentry_idx = k;
      } in
      Takes-cast {ds = fs.dentries_in (i - 2) ++ entries is} refl
        (sym (ap (λ m. m >>= turned) (next_cluster-link it j c f whole)))
        (index-Takes (fs.dentries_in (i - 2)) j 0 is chain wholes whole.1 (omega (arith, whole.1)))

  try_next_in-Takes :
      (cur : Option (List FatPseudoDentry)) (j k : ℕ) (ds : List FatPseudoDentry)
      → 0 < dentries_per_cluster fs.fat_fs.boot_sector
      → RestOf cur j k ds
      → Takes ds (
          try_next_in fs
            (record { fat_idx = j; current_cluster = cur; current_dentry_idx = k })
            cur)
  unfolding try_next_in
  try_next_in-Takes none j k ds some_fit e =
      Takes-cast {ds = []} (sym e) refl
        (record { fat_idx = j; current_cluster = none; current_dentry_idx = k }, refl)
  try_next_in-Takes (some c) j k ds some_fit (is, chain, whole, size, l, e) =
      elim (Bool-cases (leb (dentries_per_cluster fs.fat_fs.boot_sector) k)) [
        | inl t ↦
            let past : drop k c ≡ [] =
              drop-all c k
                (omega (arith, leb→le (dentries_per_cluster fs.fat_fs.boot_sector) k t)) in
            Takes-cast {ds = entries is} (sym (e ∙ ap (λ x. x ++ entries is) past))
              (sym (rw t refl)) (turn-Takes (some c) k some_fit chain whole)
        | inr f ↦ Takes-cast {ds = drop k c ++ entries is} (sym e) (sym (rw f refl)) (
            index-Takes c j k is chain whole size
              (omega (arith, leb→lt (dentries_per_cluster fs.fat_fs.boot_sector) k f)))
      ]

  pub try_next-Takes :
      (it : FatPseudoDentryIter) (ds : List FatPseudoDentry)
      → 0 < dentries_per_cluster fs.fat_fs.boot_sector
      → Rest it ds
      → Takes ds (try_next fs it)
  unfolding try_next
  try_next-Takes it ds some_fit r =
      try_next_in-Takes it.current_cluster it.fat_idx it.current_dentry_idx ds some_fit r
