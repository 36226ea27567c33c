-- ===== src/Region/Sort.antt =====
-- `setReservedRegions` (bde.go): collecting and sorting the regions.
use go_bde.Base.{
  ◌+◌, ◌≤◌, ◌<◌, ◌^◌, ◌≡◌, refl, Bool, true, false, ◌&&◌, ◌||◌, List, [], ◌∷◌, arith, ltb, All, inl,
  inr, Bool-cases,
}
use go_bde.Base.Int.{ℤ, pos_part, neg_part, +ℤ_exact, ◌≤ℤ◌, leb_ℤ, ltb_ℤ}
use go_bde.Region.{ReservedRegion, collect, insert_region, sort_regions, covers}

-- The reference: a sector lies in one of the regions, by a scan of them all.
abbrev pub any_covers : List ReservedRegion → ℤ → Bool
any_covers [] sector = false
any_covers (x ∷ xs) sector = covers x sector || any_covers xs sector

-- `start ≤ sector < start + count` in exact arithmetic, for one of the pairs.
abbrev pub in_pair : ℤ × ℤ → ℤ → Bool
in_pair (start, count) sector =
    leb_ℤ start sector
    && ltb (pos_part sector + (neg_part start + neg_part count))
        (pos_part start + pos_part count + neg_part sector)

abbrev pub in_pairs : List (ℤ × ℤ) → ℤ → Bool
in_pairs [] sector = false
in_pairs (p ∷ ps) sector = in_pair p sector || in_pairs ps sector

-- The end of the region is an `int64`.
abbrev pub FitsInt64 : ℤ × ℤ → Type 0
FitsInt64 (start, count) =
    (pos_part start + pos_part count < 2 ^ 63) × (neg_part start + neg_part count ≤ 2 ^ 63)

abbrev pub HeadFrom : ℤ → List ReservedRegion → Type 0
HeadFrom s [] = Unit
HeadFrom s (y ∷ ys) = s ≤ℤ y.start_sector

abbrev pub IsSorted : List ReservedRegion → Type 0
IsSorted [] = Unit
IsSorted (x ∷ xs) = HeadFrom x.start_sector xs × IsSorted xs

-- No region is empty.
abbrev pub IsNonempty : ReservedRegion → Type 0
IsNonempty x = ltb_ℤ x.start_sector x.end_sector ≡ true

pub any_covers-collect :
    (ps : List (ℤ × ℤ)) (sector : ℤ)
    → All FitsInt64 ps
    → any_covers (collect ps) sector ≡ in_pairs ps sector
unfolding collect
any_covers-collect [] sector h = refl
any_covers-collect ((start, count) ∷ rest) sector (h, hs) =
    ground (arith, +ℤ_exact start count, any_covers-collect rest sector hs)

pub collect-IsNonempty : (ps : List (ℤ × ℤ)) → All FitsInt64 ps → All IsNonempty (collect ps)
unfolding collect
collect-IsNonempty [] h = tt
collect-IsNonempty ((start, count) ∷ rest) (h, hs) =
    ground (arith, +ℤ_exact start count, collect-IsNonempty rest hs)

HeadFrom-insert :
    (s : ℤ) (x : ReservedRegion) (l : List ReservedRegion)
    → s ≤ℤ x.start_sector
    → HeadFrom s l
    → HeadFrom s (insert_region x l)
unfolding insert_region
HeadFrom-insert s x [] h k = h
HeadFrom-insert s x (y ∷ ys) h k = ground arith

insert_region-IsSorted :
    (x : ReservedRegion) (l : List ReservedRegion) → IsSorted l → IsSorted (insert_region x l)
unfolding insert_region
insert_region-IsSorted x [] h = (tt, tt)
insert_region-IsSorted x (y ∷ ys) (h, hs) =
    elim (Bool-cases (ltb_ℤ x.start_sector y.start_sector)) [
      | inl e ↦ rw e (ground arith, (h, hs))
      | inr e ↦
          rw e
            (HeadFrom-insert y.start_sector x ys (ground arith) h, insert_region-IsSorted x ys hs)
    ]

insert_region-IsNonempty :
    (x : ReservedRegion) (l : List ReservedRegion)
    → IsNonempty x
    → All IsNonempty l
    → All IsNonempty (insert_region x l)
unfolding insert_region
insert_region-IsNonempty x [] h k = (h, tt)
insert_region-IsNonempty x (y ∷ ys) h (k, ks) =
    elim (Bool-cases (ltb_ℤ x.start_sector y.start_sector)) [
      | inl e ↦ rw e (h, (k, ks))
      | inr e ↦ rw e (k, insert_region-IsNonempty x ys h ks)
    ]

any_covers-insert :
    (x : ReservedRegion) (l : List ReservedRegion) (sector : ℤ)
    → any_covers (insert_region x l) sector ≡ (covers x sector || any_covers l sector)
unfolding insert_region
any_covers-insert x [] sector = refl
any_covers-insert x (y ∷ ys) sector = ground (arith, any_covers-insert x ys sector)

pub sort_regions-IsSorted :
    (done rest : List ReservedRegion) → IsSorted done → IsSorted (sort_regions done rest)
unfolding sort_regions
sort_regions-IsSorted done [] h = h
sort_regions-IsSorted done (x ∷ rest) h =
    sort_regions-IsSorted (insert_region x done) rest (insert_region-IsSorted x done h)

pub sort_regions-IsNonempty :
    (done rest : List ReservedRegion)
    → All IsNonempty done
    → All IsNonempty rest
    → All IsNonempty (sort_regions done rest)
unfolding sort_regions
sort_regions-IsNonempty done [] h k = h
sort_regions-IsNonempty done (x ∷ rest) h (k, ks) =
    sort_regions-IsNonempty (insert_region x done) rest (insert_region-IsNonempty x done k h) ks

pub any_covers-sort :
    (done rest : List ReservedRegion) (sector : ℤ)
    → any_covers (sort_regions done rest) sector
      ≡ (any_covers done sector || any_covers rest sector)
unfolding sort_regions
any_covers-sort done [] sector = ground arith
any_covers-sort done (x ∷ rest) sector =
    ground
      (arith, any_covers-sort (insert_region x done) rest sector, any_covers-insert x done sector)
