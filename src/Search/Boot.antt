-- ===== src/Search/Boot.antt =====
-- `parseBootSector` and `tryBootSectorOffsets` (bde.go).
use go_bde.Base.{
  ℕ, ◌*◌, ◌^◌, Bool, false, ◌&&◌, ◌||◌, none, some, List, [], ◌∷◌, ◌++◌, ltb, ◌==◌, if◌then◌else◌,
}
use go_bde.Base.Int.{ℤ, pos, int64, leb_ℤ, ltb_ℤ, ◌*ℤ◌}
use go_bde.Base.Bytes.{equal}
use go_bde.Outcome.{Outcome, ok, ◌>>=◌}
use go_bde.Reader.{ReadResult, ReaderAt}
use go_bde.Types.{BootSector, boot_sector_size, decode_boot_sector}
use go_bde.Types.Const.{bitlocker_signature}
use go_bde.Dataset.{read_full_at}
use go_bde.Search.{words, read_guid_blocks, Found, is_empty}

-- The switch on `BytesPerSector`, and the shift as its fallback.
unfoldable pub sector_size_of : BootSector → ℕ
sector_size_of bs =
    if bs.bytes_per_sector == 512
      || bs.bytes_per_sector == 1024
      || bs.bytes_per_sector == 2048
      || bs.bytes_per_sector == 4096
    then bs.bytes_per_sector
    else if ltb bs.bytes_per_sector_shift 9 || ltb 12 bs.bytes_per_sector_shift
    then 512
    else 2 ^ bs.bytes_per_sector_shift

unfoldable pub cluster_size_of : BootSector → ℕ → ℕ
cluster_size_of bs sector_size =
    if ltb 0 bs.sectors_per_cluster
    then sector_size * bs.sectors_per_cluster
    else if ltb 25 bs.sectors_per_cluster_shift
    then sector_size
    else sector_size * 2 ^ bs.sectors_per_cluster_shift

-- `seen[offset]`: the offsets that were kept.
abbrev pub equal_ℤ : ℤ → ℤ → Bool
equal_ℤ a b = leb_ℤ a b && leb_ℤ b a

unfoldable pub seen : ℤ → List ℤ → Bool
seen o [] = false
seen o (x ∷ xs) = equal_ℤ o x || seen o xs

-- The source has the signature at an offset.
unfoldable pub signed_result : ReadResult → Bool
signed_result x = elim (x.error) [ none ↦ equal x.bytes bitlocker_signature | some e ↦ false ]

unfoldable pub has_signature : ReaderAt → ℤ → Bool
unfolding signed_result
has_signature r o = signed_result (r 8 o)

-- A round of the inner loop of `tryBootSectorOffsets`.
unfoldable pub try_candidate : ReaderAt → List ℤ → ℤ → List ℤ
unfolding seen has_signature
try_candidate r offsets o =
    if leb_ℤ o (pos 0) || ltb_ℤ (pos (2 ^ 44)) o || seen o offsets
    then offsets
    else if has_signature r o
    then offsets ++ o ∷ []
    else offsets

unfoldable pub try_candidates : ReaderAt → List ℤ → List ℤ → List ℤ
unfolding try_candidate
try_candidates r offsets [] = offsets
try_candidates r offsets (o ∷ os) = try_candidates r (try_candidate r offsets o) os

-- A value as bytes, as sectors and as clusters.
unfoldable pub candidates : ℕ → ℕ → ℕ → List ℤ
candidates sector_size cluster_size raw =
    int64 raw ∷ (int64 raw *ℤ pos sector_size) ∷ (int64 raw *ℤ pos cluster_size) ∷ []

unfoldable pub try_raws : ReaderAt → ℕ → ℕ → List ℤ → List ℕ → List ℤ
unfolding try_candidates candidates
try_raws r sector_size cluster_size offsets [] = offsets
try_raws r sector_size cluster_size offsets (raw ∷ raws) =
    if raw == 0 || ltb (2 ^ 48) raw
    then try_raws r sector_size cluster_size offsets raws
    else try_raws r sector_size cluster_size
        (try_candidates r offsets (candidates sector_size cluster_size raw)) raws

abbrev pub or_default : ℕ → ℕ → ℕ
or_default default n = if n == 0 then default else n

unfoldable pub try_boot_sector_offsets : ReaderAt → ℕ → ℕ → List ℤ
unfolding try_raws words
try_boot_sector_offsets r sector_size cluster_size = elim ((r 24 (pos 0x30)).error) [
  | none ↦
      try_raws r (or_default 512 sector_size) (or_default 4096 cluster_size) []
        (words 3 (r 24 (pos 0x30)).bytes)
  | some e ↦ []
]

pub record BootSectorData : Type 0 where
  pub boot_sector : BootSector
  pub sector_size : ℕ
  pub cluster_size : ℕ
  pub information_offsets : List ℤ
  pub eow_offsets : List ℤ

-- The fallback where the scan finds no offset.
unfoldable pub boot_sector_data : ReaderAt → BootSector → ℕ → ℕ → Found → BootSectorData
unfolding try_boot_sector_offsets
boot_sector_data r bs sector_size cluster_size f = record {
  boot_sector = bs;
  sector_size = sector_size;
  cluster_size = cluster_size;
  information_offsets =
      (if is_empty f.info_offsets
        then try_boot_sector_offsets r sector_size cluster_size
        else f.info_offsets);
  eow_offsets = f.eow_offsets;
}

unfoldable pub parse_boot_sector : ReaderAt → Outcome BootSectorData
unfolding read_full_at sector_size_of cluster_size_of read_guid_blocks boot_sector_data
parse_boot_sector r = read_full_at r boot_sector_size (pos 0) >>= λ bytes.
    let bs = decode_boot_sector bytes in
    let sector_size = sector_size_of bs in
    let cluster_size = cluster_size_of bs sector_size in
    read_guid_blocks r sector_size cluster_size bs.information_lcn >>= λ f.
    ok (boot_sector_data r bs sector_size cluster_size f)
