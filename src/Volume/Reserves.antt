-- ===== src/Volume/Reserves.antt =====
-- `ReservedRegions` and `NewBitlockerStream` (bde.go): the sectors of the metadata blocks.
use mathlib.Core.Logic.Or
use mathlib.Core.List.{Mem, not-mem-nil, mem-cons}
use go_bde.Base.{
  ℕ, ◌+◌, ◌*◌, ◌/◌, ◌%◌, ◌≤◌, ◌<◌, ◌≡◌, refl, sym, ap, subst, ◌∙◌, Bool, true, false, ◌||◌, List,
  [], ◌∷◌, ◌++◌, map, arith, inl, inr, All, le→leb, ◌==◌,
}
use go_bde.Base.Int.{ℤ, pos, quot}
use go_bde.Region.{is_reserved_sector}
use go_bde.Region.Sort.{in_pair, in_pairs, FitsInt64}
use go_bde.Region.Lookup.{is_reserved_sector-set_reserved_regions}
use go_bde.Search.Sizes.{IsSectorSize}
use go_bde.Cipher.{NewCipher}
use go_bde.Dataset.{information_offsets}
use go_bde.Volume.{
  Bde, version, region_of, information_sectors, reserved_regions, eow_regions, new_bitlocker_stream,
}

-- A sector inside of the 64 KiB of an Information block is among its sectors.
abbrev Inside : ℕ → Type 0
Inside n =
    (off s : ℕ)
    → off % n ≡ 0
    → off ≤ s * n
    → s * n < off + 65536
    → (off / n ≤ s) × (s < off / n + information_sectors n)

information_sectors-Inside : (n : ℕ) → IsSectorSize n → Inside n
unfolding information_sectors
information_sectors-Inside n (inl e) =
    subst Inside (sym e) (λ off s a l h. (omega arith, omega arith))
information_sectors-Inside n (inr (inl e)) =
    subst Inside (sym e) (λ off s a l h. (omega arith, omega arith))
information_sectors-Inside n (inr (inr (inl e))) =
    subst Inside (sym e) (λ off s a l h. (omega arith, omega arith))
information_sectors-Inside n (inr (inr (inr e))) =
    subst Inside (sym e) (λ off s a l h. (omega arith, omega arith))

or-left : (a b : Bool) → a ≡ true → (a || b) ≡ true
or-left a b e = rw e refl

or-true : (a b : Bool) → b ≡ true → (a || b) ≡ true
or-true true b e = refl
or-true false b e = e

in_pairs-region_of :
    (size count off s : ℕ) (offs : List ℤ) (rest : List (ℤ × ℤ))
    → Mem (pos off) offs
    → off / size ≤ s
    → s < off / size + count
    → in_pairs (map (region_of size count) offs ++ rest) (pos s) ≡ true
unfolding quot
in_pairs-region_of size count off s [] rest m lo hi = absurd (not-mem-nil m)
in_pairs-region_of size count off s (o ∷ offs) rest m lo hi =
    Or.«elim» (hlevel) (mem-cons.0 m)
      (λ e. or-left _ _ (
        subst (λ o. in_pair (region_of size count o) (pos s) ≡ true) e
          (covered (off / size) lo hi)))
      (λ n. or-true _ _ (in_pairs-region_of size count off s offs rest n lo hi))
  where
    covered :
        (start : ℕ) → start ≤ s → s < start + count → in_pair (pos start, pos count) (pos s) ≡ true
    covered start l h = ground arith

reserved_regions-v2 :
    (b : Bde)
    → 2 ≤ version b
    → reserved_regions b
      ≡ map
          (region_of b.sector_size (information_sectors b.sector_size))
          (information_offsets b.information)
        ++ eow_regions b.sector_size b.eow_information
unfolding reserved_regions
reserved_regions-v2 b h = rw (ne_one (version b) h, le→leb 2 _ h) refl
  where
    ne_one : (n : ℕ) → 2 ≤ n → (n == 1) ≡ false
    ne_one n h = ground arith

-- The stream of a volume of version 2 or later, with one of the usual sector sizes, reserves every
-- sector that begins inside of the 64 KiB of an Information block which the metadata names, if the
-- block begins at a sector and the ends of all regions are `int64` values.
pub new_bitlocker_stream-reserves :
    (new_cipher : NewCipher) (b : Bde) (off s : ℕ)
    → IsSectorSize b.sector_size
    → 2 ≤ version b
    → All FitsInt64 (reserved_regions b)
    → Mem (pos off) (information_offsets b.information)
    → off % b.sector_size ≡ 0
    → off ≤ s * b.sector_size
    → s * b.sector_size < off + 65536
    → is_reserved_sector (new_bitlocker_stream new_cipher b).reserved (pos s) ≡ true
unfolding new_bitlocker_stream
new_bitlocker_stream-reserves new_cipher b off s size v fits named aligned l h =
    let inside = information_sectors-Inside b.sector_size size off s aligned l h in
    is_reserved_sector-set_reserved_regions (reserved_regions b) (pos s) fits
    ∙ ap (λ ps. in_pairs ps (pos s)) (reserved_regions-v2 b v)
    ∙ in_pairs-region_of b.sector_size (information_sectors b.sector_size) off s _ _ named inside.0
        inside.1
