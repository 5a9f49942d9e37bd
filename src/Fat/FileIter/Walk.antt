-- ===== src/Fat/FileIter/Walk.antt =====
-- The iterator over pseudo-dentries yields the valid entries of a directory and ends.
use ofs_convert_rs.Common.{
  ℕ, zero, suc, ◌-◌, ◌<◌, ◌≡◌, refl, sym, ap, ◌∙◌, Option, none, some, List, [], ◌∷◌, length, arith,
  Outcome, ok, ◌>>=◌, ◌⊎◌, inl, inr, Bool-cases,
}
use ofs_convert_rs.Fat.BootSector.{dentries_per_cluster}
use ofs_convert_rs.Fat.Table.Chain.{Chain, stop, link}
use ofs_convert_rs.Fat.Dentry.{FatPseudoDentry, should_be_ignored, is_dir_table_end}
use ofs_convert_rs.Fat.FileIter.{FatData, FatPseudoDentryIter, new, try_next, next_round, next_loop}
use ofs_convert_rs.Fat.FileIter.Entries.{
  cons_entry, all_entries, valid_entries, entries, AreWhole, Rest, next_cluster-stop,
  next_cluster-link, try_next-Takes,
}

module _ (fs : FatData) where
  -- A call of `next` yields the first of what is valid in what is left.
  abbrev Yields :
      List FatPseudoDentry → Outcome (Option FatPseudoDentry × FatPseudoDentryIter) → Type 0
  Yields ds m =
      ((it : FatPseudoDentryIter) × (m ≡ ok (none, it)) × (valid_entries ds ≡ []))
      ⊎ ((d : FatPseudoDentry) × (ds' : List FatPseudoDentry) × (it : FatPseudoDentryIter) × (m
            ≡ ok (some d, it))
          × (valid_entries ds ≡ d ∷ valid_entries ds')
          × (length ds' < length ds)
          × Rest fs it ds')

  next_loop-cons :
      (fuel : ℕ) (it it' : FatPseudoDentryIter) (named : Option FatPseudoDentry)
      {m : Outcome (Option FatPseudoDentry × FatPseudoDentryIter)}
      → try_next fs it ≡ ok (named, it')
      → next_round named it' (next_loop fs fuel it') ≡ m
      → next_loop fs (suc fuel) it ≡ m
  unfolding next_loop
  next_loop-cons fuel it it' named e f = rw e f

  next_loop-Yields :
      (fuel : ℕ) (ds : List FatPseudoDentry) (it : FatPseudoDentryIter)
      → length ds < fuel
      → 0 < dentries_per_cluster fs.fat_fs.boot_sector
      → Rest fs it ds
      → Yields ds (next_loop fs fuel it)
  unfolding valid_entries
  next_loop-Yields zero ds it h some_fit r = absurd (omega arith)
  next_loop-Yields (suc fuel) [] it h some_fit r =
      let (it', e) = try_next-Takes fs it [] some_fit r in
      inl (it', next_loop-cons fuel it it' none e refl, refl)
  next_loop-Yields (suc fuel) (d ∷ ds) it h some_fit r =
      let (it', e, r') = try_next-Takes fs it (d ∷ ds) some_fit r in
      elim (Bool-cases (should_be_ignored d)) [
        | inr f ↦ elim (Bool-cases (is_dir_table_end d)) [
          | inl t ↦
              inl (it', next_loop-cons fuel it it' (some d) e (rw (f, t) refl), rw (f, t) refl)
          | inr g ↦ inr (
            d,
            ds,
            it',
            next_loop-cons fuel it it' (some d) e (rw (f, g) refl),
            rw (f, g) refl,
            omega arith,
            r',
          )
        ]
        | inl t ↦ elim (next_loop-Yields fuel ds it' (omega arith) some_fit r') [
          | inl (it'', e', v) ↦ inl (it'', next_loop-cons fuel it it' (some d) e (rw t e'), rw t v)
          | inr (d', ds', it'', e', v, l, r'') ↦ inr (
            d',
            ds',
            it'',
            next_loop-cons fuel it it' (some d) e (rw t e'),
            rw t v,
            omega arith,
            r'',
          )
        ]
      ]

  all_entries-cons :
      (n fuel : ℕ) (it it' : FatPseudoDentryIter) (d : Option FatPseudoDentry)
      {m : Outcome (List FatPseudoDentry)}
      → next_loop fs fuel it ≡ ok (d, it')
      → cons_entry d (all_entries fs n fuel it') ≡ m
      → all_entries fs (suc n) fuel it ≡ m
  unfolding all_entries
  all_entries-cons n fuel it it' d e f = rw e f

  all_entries-Rest :
      (n fuel : ℕ) (ds : List FatPseudoDentry) (it : FatPseudoDentryIter)
      → length ds < n
      → length ds < fuel
      → 0 < dentries_per_cluster fs.fat_fs.boot_sector
      → Rest fs it ds
      → all_entries fs n fuel it ≡ ok (valid_entries ds)
  all_entries-Rest zero fuel ds it h k some_fit r = absurd (omega arith)
  all_entries-Rest (suc n) fuel ds it h k some_fit r =
      elim (next_loop-Yields fuel ds it k some_fit r) [
        | inl (it', e, v) ↦ all_entries-cons n fuel it it' none e (ap ok (sym v))
        | inr (d, ds', it', e, v, l, r') ↦ all_entries-cons n fuel it it' (some d) e (
            ap (cons_entry (some d))
              (all_entries-Rest n fuel ds' it' (omega arith) (omega arith) some_fit r')
            ∙ ap ok (sym v))
      ]

  new-Rest :
      {start : ℕ} {is : List ℕ}
      → Chain fs.fat_fs.fat_table start is
      → AreWhole fs is
      → (it : FatPseudoDentryIter) × (new fs start ≡ ok it) × Rest fs it (entries fs is)
  unfolding new entries
  new-Rest (stop {i = i} h) whole =
      let it : FatPseudoDentryIter = record {
        fat_idx = i;
        current_cluster = none;
        current_dentry_idx = 0;
      } in
      (it, next_cluster-stop fs it h, refl)
  new-Rest (link {i = i} {j = j} {is = is} c f chain) (whole, wholes) =
      let it : FatPseudoDentryIter = record {
        fat_idx = i;
        current_cluster = none;
        current_dentry_idx = 0;
      } in
      (
        record it { fat_idx = j; current_cluster = some (fs.dentries_in (i - 2)) },
        next_cluster-link fs it j c f whole,
        (is, chain, wholes, whole.1, omega arith, refl),
      )

  -- On a directory whose clusters form a chain, are in use, lie in the data section and are full of entries, the
  -- iterator ends, and yields the entries of its clusters in their order, up to the first that marks the end, less those that are ignored.
  pub all_entries-valid_entries :
      (fuel start : ℕ) (is : List ℕ)
      → 0 < dentries_per_cluster fs.fat_fs.boot_sector
      → Chain fs.fat_fs.fat_table start is
      → AreWhole fs is
      → length (entries fs is) < fuel
      → (new fs start >>= all_entries fs fuel fuel) ≡ ok (valid_entries (entries fs is))
  all_entries-valid_entries fuel start is some_fit chain whole h =
      let (it, e, r) = new-Rest chain whole in
      rw e (all_entries-Rest fuel fuel (entries fs is) it h h some_fit r)
