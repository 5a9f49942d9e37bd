-- ===== src/Fat/BootSector/Label.antt =====
-- What `volume_label` keeps of the label.
use ofs_convert_rs.Common.{
  ℕ, zero, suc, ◌+◌, List, [], ◌∷◌, ◌++◌, ◌≡◌, ◌≢◌, refl, ap, ◌∙◌, ◌==◌, if◌then◌else◌, length,
  take, replicate, arith,
}
use ofs_convert_rs.Fat.BootSector.{
  BootSector, last_character_idx, volume_label, ext_boot_signature_fat32,
}

last-blanks : (last idx n : ℕ) → last_character_idx last idx (replicate n 0x20) ≡ last
unfolding last_character_idx
last-blanks last idx zero = refl
last-blanks last idx (suc n) = last-blanks last (suc idx) n

last-append :
    (last idx : ℕ) (text : List ℕ) (c n : ℕ)
    → c ≢ 0x20
    → last_character_idx last idx (text ++ c ∷ replicate n 0x20) ≡ idx + length text
unfolding last_character_idx
last-append last idx [] c n h = ground (arith, last-blanks idx (suc idx) n)
last-append last idx (x ∷ text) c n h =
    last-append (if x == 0x20 then last else idx) (suc idx) text c n h ∙ omega arith

take-length-append : (text rest : List ℕ) → take (length text) (text ++ rest) ≡ text
take-length-append [] rest = refl
take-length-append (x ∷ text) rest = ap (λ t. x ∷ t) (take-length-append text rest)

-- For a FAT32 boot sector whose label is a text padded by blanks, the text ending in a character `c`
-- that is no blank, `volume_label` returns the text without `c`.
pub volume_label-drops_last :
    (b : BootSector) (text : List ℕ) (c n : ℕ)
    → b.ext_boot_signature ≡ ext_boot_signature_fat32
    → b.volume_label ≡ text ++ c ∷ replicate n 0x20
    → c ≢ 0x20
    → volume_label b ≡ text
unfolding volume_label
volume_label-drops_last b text c n s e h =
    let at : last_character_idx 0 0 (text ++ c ∷ replicate n 0x20) ≡ length text =
      last-append 0 0 text c n h ∙ omega arith in
    rw (s, e, at) (take-length-append text (c ∷ replicate n 0x20))
