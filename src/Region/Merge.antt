-- ===== src/Region/Merge.antt =====
-- `setReservedRegions` (bde.go): the merge of the sorted regions.
use go_bde.Base.{◌≡◌, refl, ◌∙◌, Bool, ◌||◌, List, [], ◌∷◌, arith, All, inl, inr, Bool-cases}
use go_bde.Base.Int.{ℤ, ◌≤ℤ◌, ◌<ℤ◌, leb_ℤ}
use go_bde.Region.{
  ReservedRegion, collect, sort_regions, extend_last, merge_into, merge_regions,
  set_reserved_regions, covers,
}
use go_bde.Region.Sort.{
  any_covers, in_pairs, FitsInt64, HeadFrom, IsSorted, IsNonempty, any_covers-collect,
  collect-IsNonempty, sort_regions-IsSorted, sort_regions-IsNonempty, any_covers-sort,
}

abbrev pub HeadBeyond : ℤ → List ReservedRegion → Type 0
HeadBeyond s [] = Unit
HeadBeyond s (y ∷ ys) = s <ℤ y.start_sector

-- The regions are not empty, and each starts beyond the end of the one before, with a gap.
abbrev pub IsSeparated : List ReservedRegion → Type 0
IsSeparated [] = Unit
IsSeparated (x ∷ xs) =
    (x.start_sector <ℤ x.end_sector) × HeadBeyond x.end_sector xs × IsSeparated xs

HeadFrom-trans : (s t : ℤ) (l : List ReservedRegion) → s ≤ℤ t → HeadFrom t l → HeadFrom s l
HeadFrom-trans s t [] h k = tt
HeadFrom-trans s t (y ∷ ys) h k = omega arith

or_assoc : (a b c : Bool) → ((a || b) || c) ≡ (a || (b || c))
or_assoc a b c = ground arith

extend_last-covers :
    (last rr : ReservedRegion) (sector : ℤ)
    → last.start_sector ≤ℤ rr.start_sector
    → rr.start_sector ≤ℤ last.end_sector
    → covers (extend_last last rr) sector ≡ (covers last sector || covers rr sector)
unfolding extend_last
extend_last-covers last rr sector h k = ground arith

extend_last_start :
    (last rr : ReservedRegion) → (extend_last last rr).start_sector ≡ last.start_sector
unfolding extend_last
extend_last_start last rr = ground arith

extend_last-IsNonempty :
    (last rr : ReservedRegion) → IsNonempty last → IsNonempty (extend_last last rr)
unfolding extend_last
extend_last-IsNonempty last rr h = ground arith

-- Whatever starts the merge is the start of its first region.
merge_into-HeadBeyond :
    (s : ℤ) (last : ReservedRegion) (rest : List ReservedRegion)
    → s <ℤ last.start_sector
    → HeadBeyond s (merge_into last rest)
unfolding merge_into
merge_into-HeadBeyond s last [] h = h
merge_into-HeadBeyond s last (rr ∷ rest) h =
    elim (Bool-cases (leb_ℤ rr.start_sector last.end_sector)) [
      | inl e ↦
          rw (e, merge_into)
            (merge_into-HeadBeyond s (extend_last last rr) rest (rw extend_last_start h))
      | inr e ↦ rw (e, merge_into) h
    ]

merge_into-IsSeparated :
    (last : ReservedRegion) (rest : List ReservedRegion)
    → IsNonempty last
    → All IsNonempty rest
    → IsSeparated (merge_into last rest)
unfolding merge_into
merge_into-IsSeparated last [] h k = (ground arith, tt, tt)
merge_into-IsSeparated last (rr ∷ rest) h (k, ks) =
    elim (Bool-cases (leb_ℤ rr.start_sector last.end_sector)) [
      | inl e ↦
          rw (e, merge_into)
            (merge_into-IsSeparated (extend_last last rr) rest (extend_last-IsNonempty last rr h)
              ks)
      | inr e ↦
          rw (e, merge_into)
            (
              ground arith,
              merge_into-HeadBeyond last.end_sector rr rest (ground arith),
              merge_into-IsSeparated rr rest k ks,
            )
    ]

any_covers-merge_into :
    (last : ReservedRegion) (rest : List ReservedRegion) (sector : ℤ)
    → HeadFrom last.start_sector rest
    → IsSorted rest
    → any_covers (merge_into last rest) sector ≡ (covers last sector || any_covers rest sector)
unfolding merge_into
any_covers-merge_into last [] sector h k = refl
any_covers-merge_into last (rr ∷ rest) sector h (k, ks) =
    elim (Bool-cases (leb_ℤ rr.start_sector last.end_sector)) [
      | inl e ↦
          rw (e, merge_into)
            (any_covers-merge_into (extend_last last rr) rest sector
                (rw extend_last_start (HeadFrom-trans last.start_sector rr.start_sector rest h k))
                ks
              ∙ rw (extend_last-covers last rr sector h (ground arith))
                  (or_assoc (covers last sector) (covers rr sector) (any_covers rest sector)))
      | inr e ↦ rw (e, merge_into, any_covers-merge_into rr rest sector k ks)
    ]

-- The regions of a stream are not empty, in order, and neither overlap nor touch, if the ends of
-- the pairs are `int64` values.
pub set_reserved_regions-IsSeparated :
    (ps : List (ℤ × ℤ)) → All FitsInt64 ps → IsSeparated (set_reserved_regions ps)
unfolding set_reserved_regions
set_reserved_regions-IsSeparated ps h =
    go (sort_regions [] (collect ps))
      (sort_regions-IsNonempty [] (collect ps) tt (collect-IsNonempty ps h))
  where
    go : (l : List ReservedRegion) → All IsNonempty l → IsSeparated (merge_regions l)
    go [] h = tt
    go (x ∷ xs) (h, hs) = merge_into-IsSeparated x xs h hs

pub any_covers-set_reserved_regions :
    (ps : List (ℤ × ℤ)) (sector : ℤ)
    → All FitsInt64 ps
    → any_covers (set_reserved_regions ps) sector ≡ in_pairs ps sector
unfolding set_reserved_regions
any_covers-set_reserved_regions ps sector h =
    go (sort_regions [] (collect ps)) (sort_regions-IsSorted [] (collect ps) tt)
    ∙ any_covers-sort [] (collect ps) sector
    ∙ any_covers-collect ps sector h
  where
    go :
        (l : List ReservedRegion)
        → IsSorted l
        → any_covers (merge_regions l) sector ≡ any_covers l sector
    go [] h = refl
    go (x ∷ xs) (h, hs) = any_covers-merge_into x xs sector h hs
