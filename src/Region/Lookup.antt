-- ===== src/Region/Lookup.antt =====
-- `isReservedSector` (bde.go) against a scan of all regions.
use go_bde.Base.{
  ℕ, zero, suc, ◌-◌, ◌≤◌, ◌<◌, ◌≡◌, refl, sym, ◌∙◌, Bool, true, false, ◌||◌, List, [], ◌∷◌, arith,
  All, length, if◌then◌else◌, ◌==◌, inl, inr, Bool-cases, suc-ne-zero,
}
use go_bde.Base.Int.{ℤ, ◌≤ℤ◌, ◌<ℤ◌, ltb_ℤ}
use go_bde.Region.{
  ReservedRegion, region_at, covers, sort_search, is_reserved_sector, set_reserved_regions,
}
use go_bde.Region.Search.{sort_search_lem}
use go_bde.Region.Sort.{any_covers, in_pairs, FitsInt64}
use go_bde.Region.Merge.{
  HeadBeyond, IsSeparated, set_reserved_regions-IsSeparated, any_covers-set_reserved_regions,
}

-- How many regions at the front start at or before the sector.
leading : List ReservedRegion → ℤ → ℕ
leading [] sector = 0
leading (x ∷ xs) sector = if ltb_ℤ sector x.start_sector then 0 else suc (leading xs sector)

leading-le-length : (l : List ReservedRegion) (sector : ℤ) → leading l sector ≤ length l
unfolding leading
leading-le-length [] sector = omega arith
leading-le-length (x ∷ xs) sector = ground (arith, leading-le-length xs sector)

leading_before :
    (l : List ReservedRegion) (sector : ℤ) (i : ℕ)
    → i < leading l sector
    → ltb_ℤ sector (region_at l i).start_sector ≡ false
unfolding leading
leading_before [] sector i h = absurd (omega arith)
leading_before (x ∷ xs) sector zero h = ground arith
leading_before (x ∷ xs) sector (suc i) h = ground (arith, leading_before xs sector i)

HeadBeyond-trans : (s t : ℤ) (l : List ReservedRegion) → s <ℤ t → HeadBeyond t l → HeadBeyond s l
HeadBeyond-trans s t [] h k = tt
HeadBeyond-trans s t (y ∷ ys) h k = omega arith

-- Past the first region that starts beyond the sector all do.
starts_beyond :
    (l : List ReservedRegion) (sector : ℤ) (i : ℕ)
    → IsSeparated l
    → HeadBeyond sector l
    → i < length l
    → ltb_ℤ sector (region_at l i).start_sector ≡ true
starts_beyond [] sector i h k lt = absurd (omega arith)
starts_beyond (x ∷ xs) sector zero h k lt = ground arith
starts_beyond (x ∷ xs) sector (suc i) (h, k', hs) k lt =
    starts_beyond xs sector i hs (HeadBeyond-trans sector x.end_sector xs (omega arith) k')
      (omega arith)

pub none_covers :
    (l : List ReservedRegion) (sector : ℤ)
    → IsSeparated l
    → HeadBeyond sector l
    → any_covers l sector ≡ false
none_covers [] sector h k = refl
none_covers (x ∷ xs) sector (h, k', hs) k =
    ground
      (arith, none_covers xs sector hs (HeadBeyond-trans sector x.end_sector xs (omega arith) k'))

leading_behind :
    (l : List ReservedRegion) (sector : ℤ) (i : ℕ)
    → IsSeparated l
    → leading l sector ≤ i
    → i < length l
    → ltb_ℤ sector (region_at l i).start_sector ≡ true
unfolding leading
leading_behind [] sector i h k lt = absurd (omega arith)
leading_behind (x ∷ xs) sector zero h k lt = ground arith
leading_behind (x ∷ xs) sector (suc i) (h, k', hs) k lt =
    elim (Bool-cases (ltb_ℤ sector x.start_sector)) [
      | inl e ↦ starts_beyond (x ∷ xs) sector (suc i) (h, k', hs) (ground arith) lt
      | inr e ↦ leading_behind xs sector i hs (ground arith) (omega arith)
    ]

-- What the lookup answers when `n` regions at the front start at or before the sector.
pick : List ReservedRegion → ℕ → ℤ → Bool
pick l zero sector = false
pick l (suc k) sector = covers (region_at l k) sector

not_covered : (x : ReservedRegion) (sector : ℤ) → x.end_sector ≤ℤ sector → covers x sector ≡ false
not_covered x sector h = ground arith

pick-leading :
    (l : List ReservedRegion) (sector : ℤ)
    → IsSeparated l
    → pick l (leading l sector) sector ≡ any_covers l sector
unfolding leading pick
pick-leading [] sector h = refl
pick-leading (x ∷ xs) sector (h, k, hs) = elim (Bool-cases (ltb_ℤ sector x.start_sector)) [
  | inl e ↦ rw e (sym (none_covers (x ∷ xs) sector (h, k, hs) (ground arith)))
  | inr e ↦ rw e (inner xs k hs e (pick-leading xs sector hs))
]
  where
    inner :
        (xs : List ReservedRegion)
        → HeadBeyond x.end_sector xs
        → IsSeparated xs
        → ltb_ℤ sector x.start_sector ≡ false
        → pick xs (leading xs sector) sector ≡ any_covers xs sector
        → covers (region_at (x ∷ xs) (leading xs sector)) sector
          ≡ (covers x sector || any_covers xs sector)
    inner [] k hs e ih = ground arith
    inner (y ∷ ys) k hs e ih = elim (Bool-cases (ltb_ℤ sector y.start_sector)) [
      | inl f ↦ rw (f, leading) (ground (arith, none_covers (y ∷ ys) sector hs (ground arith)))
      | inr f ↦ rw (f, leading, not_covered x sector (ground arith)) (rw (f, leading) at ih)
    ]

-- The lookup by `sort.Search` counts the regions that start at or before the sector.
search-leading :
    (l : List ReservedRegion) (sector : ℤ)
    → IsSeparated l
    → sort_search (length l) (λ i. ltb_ℤ sector (region_at l i).start_sector) ≡ leading l sector
search-leading l sector h =
    sort_search_lem (λ i. ltb_ℤ sector (region_at l i).start_sector) (leading l sector) (length l)
      (λ m lt. leading_before l sector m lt) (λ m le lt. leading_behind l sector m h le lt)
      (leading-le-length l sector)

pub is_reserved_sector-any_covers :
    (l : List ReservedRegion) (sector : ℤ)
    → IsSeparated l
    → is_reserved_sector l sector ≡ any_covers l sector
unfolding is_reserved_sector
is_reserved_sector-any_covers [] sector h = refl
is_reserved_sector-any_covers (x ∷ xs) sector h =
    rw (suc-ne-zero (length xs), search-leading (x ∷ xs) sector h)
      (by_count (leading (x ∷ xs) sector) ∙ pick-leading (x ∷ xs) sector h)
  where
    by_count :
        (n : ℕ)
        → (if n == 0 then false else covers (region_at (x ∷ xs) (n - 1)) sector)
          ≡ pick (x ∷ xs) n sector
    by_count zero = unfold pick in refl
    by_count (suc k) = unfold pick in ground arith

-- For every list of (start, count) pairs whose ends are `int64` values, the stream's lookup of a
-- sector answers true exactly when start ≤ sector < start + count holds for one of the pairs.
pub is_reserved_sector-set_reserved_regions :
    (ps : List (ℤ × ℤ)) (sector : ℤ)
    → All FitsInt64 ps
    → is_reserved_sector (set_reserved_regions ps) sector ≡ in_pairs ps sector
is_reserved_sector-set_reserved_regions ps sector h =
    is_reserved_sector-any_covers (set_reserved_regions ps) sector
      (set_reserved_regions-IsSeparated ps h)
    ∙ any_covers-set_reserved_regions ps sector h
