-- ===== src/Region.antt =====
-- The reserved regions of a decrypted volume stream (bde.go): `setReservedRegions`,
-- `isReservedSector`, `nextUnreservedOffset` and `nextReservedStartOffset`. Sectors are `int64`.
pub mod Search
pub mod Sort
pub mod Merge
pub mod Lookup
use go_bde.Base.{
  ℕ, zero, suc, ◌+◌, ◌-◌, ◌*◌, ◌/◌, Bool, true, false, ◌&&◌, List, [], ◌∷◌, ltb, ◌==◌,
  if◌then◌else◌, length, get_or,
}
use go_bde.Base.Int.{ℤ, pos, negsuc, ◌+ℤ◌, ◌*ℤ◌, quot, leb_ℤ, ltb_ℤ}

-- `start_sector` belongs to the region, `end_sector` is the first sector behind it.
pub record ReservedRegion : Type 0 where
  pub start_sector : ℤ
  pub end_sector : ℤ

abbrev pub no_region : ReservedRegion
no_region = record { start_sector = pos 0; end_sector = pos 0 }

-- `out`: the pairs (start, count) with a positive count, as half-open regions.
unfoldable pub collect : List (ℤ × ℤ) → List ReservedRegion
collect [] = []
collect ((start, count) ∷ rest) =
    if leb_ℤ count (pos 0)
    then collect rest
    else (record { start_sector = start; end_sector = start +ℤ count } ∷ collect rest)

-- `sort.Slice` with `less` on the start sectors: an insertion sort, as Go runs it on short slices.
unfoldable pub insert_region : ReservedRegion → List ReservedRegion → List ReservedRegion
insert_region x [] = x ∷ []
insert_region x (y ∷ ys) =
    if ltb_ℤ x.start_sector y.start_sector then (x ∷ y ∷ ys) else (y ∷ insert_region x ys)

unfoldable pub sort_regions : List ReservedRegion → List ReservedRegion → List ReservedRegion
unfolding insert_region
sort_regions done [] = done
sort_regions done (x ∷ rest) = sort_regions (insert_region x done) rest

-- `last.endSector = rr.endSector`, if that is larger.
unfoldable pub extend_last : ReservedRegion → ReservedRegion → ReservedRegion
extend_last last rr =
    if ltb_ℤ last.end_sector rr.end_sector then record last { end_sector = rr.end_sector } else last

-- The merge loop; `last` is the last element of `merged`, the list what is still to be read.
-- The result is `merged` from `last` on.
unfoldable pub merge_into : ReservedRegion → List ReservedRegion → List ReservedRegion
unfolding extend_last
merge_into last [] = last ∷ []
merge_into last (rr ∷ rest) = elim (leb_ℤ rr.start_sector last.end_sector) [
  | true ↦ merge_into (extend_last last rr) rest
  | false ↦ last ∷ merge_into rr rest
]

unfoldable pub merge_regions : List ReservedRegion → List ReservedRegion
unfolding merge_into
merge_regions [] = []
merge_regions (rr ∷ rest) = merge_into rr rest

-- `setReservedRegions`: the new value of `bs.reserved`.
unfoldable pub set_reserved_regions : List (ℤ × ℤ) → List ReservedRegion
unfolding collect sort_regions merge_regions
set_reserved_regions regions = merge_regions (sort_regions [] (collect regions))

-- `sort.Search`: the loop of the standard library, which halves [i, j). A round drops at least one
-- index, so `n` rounds are enough.
unfoldable pub search_loop : ℕ → (ℕ → Bool) → ℕ → ℕ → ℕ
search_loop zero f i j = i
search_loop (suc fuel) f i j = elim (ltb i j) [
  | true ↦ elim (f ((i + j) / 2)) [
    | true ↦ search_loop fuel f i ((i + j) / 2)
    | false ↦ search_loop fuel f ((i + j) / 2 + 1) j
  ]
  | false ↦ i
]

unfoldable pub sort_search : ℕ → (ℕ → Bool) → ℕ
unfolding search_loop
sort_search n f = search_loop n f 0 n

-- `bs.reserved[i]`; the callers stay below the length.
abbrev pub region_at : List ReservedRegion → ℕ → ReservedRegion
region_at reserved i = get_or reserved i no_region

abbrev pub covers : ReservedRegion → ℤ → Bool
covers rr sector = leb_ℤ rr.start_sector sector && ltb_ℤ sector rr.end_sector

unfoldable pub is_reserved_sector : List ReservedRegion → ℤ → Bool
unfolding sort_search
is_reserved_sector reserved sector =
    if length reserved == 0
    then false
    else (let i =
          sort_search (length reserved) (λ i. ltb_ℤ sector (region_at reserved i).start_sector) in
        if i == 0 then false else covers (region_at reserved (i - 1)) sector)

-- `bs.sectorSize` is positive: the boot sector parser only sets 512 to 4096.
unfoldable pub next_unreserved_offset : List ReservedRegion → ℕ → ℤ → ℤ
unfolding is_reserved_sector sort_search
next_unreserved_offset reserved sector_size off =
    let sector = quot off sector_size in
    let i = sort_search (length reserved) (λ i. ltb_ℤ sector (region_at reserved i).end_sector) in
    if is_reserved_sector reserved sector
    then (if ltb i (length reserved) && covers (region_at reserved i) sector
        then (region_at reserved i).end_sector *ℤ pos sector_size
        else ((sector +ℤ pos 1) *ℤ pos sector_size))
    else off

unfoldable pub next_reserved_start_offset : List ReservedRegion → ℕ → ℤ → ℤ
unfolding sort_search
next_reserved_start_offset reserved sector_size off =
    let sector = quot off sector_size in
    let i = sort_search (length reserved) (λ i. ltb_ℤ sector (region_at reserved i).start_sector) in
    if ltb i (length reserved)
    then (region_at reserved i).start_sector *ℤ pos sector_size
    else negsuc 0
