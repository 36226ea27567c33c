-- ===== src/Search.antt =====
-- The search for the metadata of a volume (bde.go): GUID locator blocks in the first sectors, and the
-- boot sector with its fallbacks.
pub mod Boot
pub mod Sizes
pub mod Candidates
pub mod Tries
pub mod Raws
pub mod Offers
pub mod Signature
pub mod Index
pub mod Words
pub mod Locators
pub mod Scan
use go_bde.Base.{
  ℕ, zero, suc, ◌+◌, ◌*◌, ◌^◌, Bool, true, false, not, ◌&&◌, ◌||◌, Option, none, some, List, [],
  ◌∷◌, ◌++◌, length, leb, ltb, ◌==◌, if◌then◌else◌, take, drop,
}
use go_bde.Base.Int.{ℤ, pos, int64, ◌+ℤ◌, ◌*ℤ◌}
use go_bde.Base.Bytes.{Bytes, equal, le_value}
use go_bde.Outcome.{Outcome, ok, err, ◌>>=◌}
use go_bde.Reader.{ReaderAt}
use go_bde.Types.Const.{information_offset_guid, eow_information_offset_guid}
use go_bde.Dataset.{nonzero_offsets}
use go_bde.Eow.{read_at_or_fail}

-- `bytes.Index`: the first place of a pattern that is not empty.
abbrev pub one_later : Option ℕ → Option ℕ
one_later none = none
one_later (some i) = some (suc i)

unfoldable pub index : Bytes → Bytes → Option ℕ
unfolding equal
index pattern [] = none
index pattern (b ∷ bytes) =
    let rest = one_later (index pattern bytes) in
    if equal (take (length pattern) (b ∷ bytes)) pattern then some 0 else rest

-- n numbers of 8 bytes.
unfoldable pub words : ℕ → Bytes → List ℕ
unfolding le_value
words zero bytes = []
words (suc n) bytes = le_value (take 8 bytes) ∷ words n (drop 8 bytes)

-- The two lists that `tryScan` fills.
pub record Found : Type 0 where
  pub info_offsets : List ℤ
  pub eow_offsets : List ℤ

abbrev pub nothing_found : Found
nothing_found = record { info_offsets = []; eow_offsets = [] }

abbrev pub join_found : Found → Found → Found
join_found f g = record {
  info_offsets = f.info_offsets ++ g.info_offsets;
  eow_offsets = f.eow_offsets ++ g.eow_offsets;
}

-- The `len` bytes behind a GUID at `idx` of a sector: from the sector, or from the source if they go
-- beyond it.
unfoldable pub locator_bytes : ReaderAt → ℕ → Bytes → ℤ → ℕ → ℕ → Outcome Bytes
unfolding read_at_or_fail
locator_bytes r sector_size sec base idx len =
    if leb (idx + 16 + len) sector_size
    then ok (take len (drop (idx + 16) sec))
    else read_at_or_fail r len (base +ℤ pos idx +ℤ pos 16)

unfoldable pub parse_offsets : ReaderAt → ℕ → Bytes → ℤ → ℕ → ℕ → ℕ → Outcome Found
unfolding locator_bytes words nonzero_offsets
parse_offsets r sector_size sec base idx info_count eow_count =
    locator_bytes r sector_size sec base idx ((info_count + eow_count) * 8) >>= λ raw. ok record {
      info_offsets = nonzero_offsets (words info_count raw);
      eow_offsets = nonzero_offsets (words eow_count (drop (info_count * 8) raw));
    }

-- The locator of a sector: the one with EOW offsets is looked for first.
unfoldable pub scan_plain : ReaderAt → ℕ → Bytes → ℤ → Option ℕ → Outcome Found
unfolding parse_offsets
scan_plain r sector_size sec base none = ok nothing_found
scan_plain r sector_size sec base (some idx) = parse_offsets r sector_size sec base idx 3 0

unfoldable pub scan_sector : ReaderAt → ℕ → Bytes → ℤ → Option ℕ → Outcome Found
unfolding index scan_plain
scan_sector r sector_size sec base none =
    scan_plain r sector_size sec base (index information_offset_guid sec)
scan_sector r sector_size sec base (some idx) = parse_offsets r sector_size sec base idx 3 2

-- `count` rounds of the loop of `tryScan`, from a sector on.
unfoldable pub scan_from : ReaderAt → ℕ → ℕ → ℕ → Outcome Found
unfolding scan_sector read_at_or_fail
scan_from r sector_size zero sector = ok nothing_found
scan_from r sector_size (suc count) sector =
    let base = pos sector *ℤ pos sector_size in
    read_at_or_fail r sector_size base >>= λ sec.
    scan_sector r sector_size sec base (index eow_information_offset_guid sec) >>= λ f.
    scan_from r sector_size count (suc sector) >>= λ g. ok (join_found f g)

-- `tryScan`
unfoldable pub try_scan : ReaderAt → ℕ → ℕ → Outcome Found
unfolding scan_from
try_scan r sector_size max_sectors = scan_from r sector_size max_sectors 0

abbrev pub is_empty {ℓ} : {A : Type ℓ} → List A → Bool
is_empty [] = true
is_empty (x ∷ xs) = false

-- `if len(info) > 0 || len(eow) > 0 { return info, eow, nil }`, and else what follows.
unfoldable pub scan_or : ReaderAt → ℕ → Outcome Found → Outcome Found
unfolding try_scan
scan_or r sector_size next = try_scan r sector_size 256 >>= λ f.
    if is_empty f.info_offsets && is_empty f.eow_offsets then next else ok f

-- `InformationLcn` counts clusters.
unfoldable pub lcn_found : ℕ → ℕ → Found
lcn_found information_lcn cluster_size =
    if information_lcn == 0 || cluster_size == 0 then nothing_found else record {
      info_offsets = (int64 information_lcn *ℤ pos cluster_size) ∷ [];
      eow_offsets = [];
    }

-- `readGuidBlocks`
unfoldable pub read_guid_blocks : ReaderAt → ℕ → ℕ → ℕ → Outcome Found
unfolding scan_or lcn_found
read_guid_blocks r sector_size cluster_size information_lcn =
    let last = ok (lcn_found information_lcn cluster_size) in
    let third = (if sector_size == 4096 then last else scan_or r 4096 last) in
    let second = (if sector_size == 512 then third else scan_or r 512 third) in
    scan_or r sector_size second
