-- ===== src/Serialization/Tree/Moving.antt =====
-- The data that was moved for a file of src/serialization/fat_serializer.rs, once the archive is complete.
use ofs_convert_rs.Common.{
  ℕ, ◌≡◌, ◌≢◌, sym, ap, ◌∙◌, subst, true, false, Option, none, some, List, [], ◌∷◌, map, ◌||◌, leb,
  ◌<◌, arith,
}
use ofs_convert_rs.Ranges.{Range, Ranges}
use ofs_convert_rs.Ranges.Cover.{covers}
use ofs_convert_rs.Memory.{Memory}
use ofs_convert_rs.Fat.Table.{FatFs}
use ofs_convert_rs.Fat.FileIter.{FatFile}
use ofs_convert_rs.Ext4.Extent.FromRanges.{range_blocks}
use ofs_convert_rs.Serialization.FatSerializer.{Copying}
use ofs_convert_rs.Serialization.FatSerializer.Moves.{MovesAll, is_settled, map-range_blocks}
use ofs_convert_rs.Serialization.FatSerializer.DataRanges.{clusters_of, clusters_of-kept, IsUsed}
use ofs_convert_rs.Serialization.StreamArchiver.{Compiler, StreamArchiver}
use ofs_convert_rs.Serialization.StreamArchiver.Linking.{IsReady, IsPage}
use ofs_convert_rs.Serialization.StreamArchiver.Elsewhere.{share}
use ofs_convert_rs.Serialization.StreamArchiver.Landing.{Lands}

-- The ranges hold in `m` what the clusters of the file hold in `m₀`, in the same order.
abbrev pub Holds : FatFs → Memory → Memory → FatFile × List Range → Type 0
Holds fs m₀ m p = map m (range_blocks p.1) ≡ map m₀ (clusters_of fs p.0.data_ranges)

abbrev pub AllHold : FatFs → Memory → Memory → List (FatFile × List Range) → Type 0
AllHold fs m₀ m [] = Unit {0}
AllHold fs m₀ m (p ∷ ps) = Holds fs m₀ m p × AllHold fs m₀ m ps

-- The page that was written out last is neither a used cluster nor one that was not handed out.
page-apart :
    (s : Copying) (size : ℕ) (o : Option ℕ) (x : ℕ)
    → IsPage s size o
    → (covers s.allocator.used_ranges x || leb s.allocator.cursor x) ≡ true
    → o ≢ some x
page-apart s size none x w h e = cc
page-apart s size (some p) x (low, high, whole, unused) h e =
    let same : p ≡ x = cc in
    let free : covers s.allocator.used_ranges x ≡ false =
      subst (λ y. covers s.allocator.used_ranges y ≡ false) same unused in
    let below : x < s.allocator.cursor = subst (λ y. y < s.allocator.cursor) same high in
    absurd (ground (arith, free, below, h))

none≢some : (x : ℕ) → ◌≡◌ {A = Option ℕ} none (some x) → ⊥
none≢some x e = cc

used-settled :
    (s : Copying) (x : ℕ)
    → covers s.allocator.used_ranges x ≡ true
    → is_settled s.allocator x ≡ true
used-settled s x h = ground (arith, h)

used-origin :
    (s : Copying) (x : ℕ)
    → covers s.allocator.used_ranges x ≡ true
    → (covers s.allocator.used_ranges x || leb s.allocator.cursor x) ≡ true
used-origin s x h = ground (arith, h)

-- What was moved stays where it is, up to the end of the archive.
pub moved-Holds :
    (c : Compiler) (fs : FatFs) (forbidden : Ranges) (a done : StreamArchiver) (s : Copying)
    (f : FatFile) (rs : List Range) (objects : List (List ℕ))
    → IsReady c a
    → MovesAll forbidden a.shared s (clusters_of fs f.data_ranges) rs
    → IsUsed fs a.shared.allocator.used_ranges f.data_ranges
    → Lands c (share a s) done objects
    → Holds fs done.shared.memory done.shared.memory (f, rs)
moved-Holds c fs forbidden a done s f rs objects r m u w =
    let used : Ranges = a.shared.allocator.used_ranges in
    let kept : map done.shared.memory (range_blocks rs) ≡ map s.memory (range_blocks rs) =
      map-range_blocks done.shared.memory s.memory rs (λ x h.
        w.frame x (m.settled x h)
          (page-apart a.shared a.page_size a.previous_page_idx x r.page (m.origin x h))) in
    let source : map done.shared.memory (clusters_of fs f.data_ranges)
        ≡ map a.shared.memory (clusters_of fs f.data_ranges) =
      clusters_of-kept fs used a.shared.memory done.shared.memory f.data_ranges u (λ x h.
        w.frame x (used-settled s x (ap (λ v. covers v x) m.same_used ∙ h))
          (page-apart a.shared a.page_size a.previous_page_idx x r.page (used-origin a.shared x h))
        ∙ m.frame x (used-settled a.shared x h)) in
    kept ∙ m.contents ∙ sym source

-- The used clusters are left as they are by an archiver that starts.
pub untouched :
    (c : Compiler) (a done : StreamArchiver) (s : Copying) (objects : List (List ℕ)) (x : ℕ)
    → a.shared ≡ s
    → a.previous_page_idx ≡ none
    → Lands c a done objects
    → covers s.allocator.used_ranges x ≡ true
    → done.shared.memory x ≡ s.memory x
untouched c a done s objects x shared first w h =
    let at : a.shared.memory x ≡ s.memory x = ap (λ (y : Copying). y.memory x) shared in
    let used : is_settled a.shared.allocator x ≡ true =
      subst (λ (y : Copying). is_settled y.allocator x ≡ true) (sym shared) (used-settled s x h) in
    w.frame x used (λ e. none≢some x (sym first ∙ e)) ∙ at
