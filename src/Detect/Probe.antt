-- ===== src/Detect/Probe.antt =====
-- `probeInformationOffsets` (detect.go) against `tryScan` (bde.go).
use go_bde.Base.{ℕ, zero, suc, ◌+◌, ◌*◌, ◌≡◌, refl, sym, ◌∙◌, Option, none, some, List, ◌++◌}
use go_bde.Base.Int.{ℤ, pos, ◌*ℤ◌}
use go_bde.Base.Bytes.{Bytes}
use go_bde.Outcome.{Outcome, ok, err, panic, ◌>>=◌}
use go_bde.Outcome.Laws.{bind-congr, bind_assoc}
use go_bde.Reader.{ReaderAt}
use go_bde.Types.Const.{information_offset_guid, eow_information_offset_guid}
use go_bde.Eow.{read_at_or_fail}
use go_bde.Search.{
  Found, join_found, index, locator_bytes, parse_offsets, scan_plain, scan_sector, scan_from,
  try_scan,
}
use go_bde.Detect.{
  probe_bytes, probe_offsets, probe_plain, probe_sector, probe_from, probe_information_offsets,
}

-- The offsets of Information blocks of a scan.
abbrev pub info_of : Outcome Found → Outcome (List ℤ)
info_of m = m >>= λ f. ok f.info_offsets

-- Two scans after each other.
info_of-join :
    (m n : Outcome Found) (ms ns : Outcome (List ℤ))
    → info_of m ≡ ms
    → info_of n ≡ ns
    → info_of (m >>= λ f. n >>= λ g. ok (join_found f g))
      ≡ (ms >>= λ xs. ns >>= λ ys. ok (xs ++ ys))
info_of-join (ok f) (ok g) ms ns h k = rw (sym h, sym k) refl
info_of-join (ok f) (err e) ms ns h k = rw (sym h, sym k) refl
info_of-join (ok f) panic ms ns h k = rw (sym h, sym k) refl
info_of-join (err e) n ms ns h k = rw (sym h) refl
info_of-join panic n ms ns h k = rw (sym h) refl

module _ (r : ReaderAt) (sector_size : ℕ) (sec : Bytes) (base : ℤ) where
  info_of-parse_offsets :
      (idx info_count eow_count : ℕ)
      → info_of (parse_offsets r sector_size sec base idx info_count eow_count)
        ≡ probe_offsets r sector_size sec base idx info_count eow_count
  unfolding parse_offsets probe_offsets locator_bytes probe_bytes
  info_of-parse_offsets idx info_count eow_count =
      bind_assoc (locator_bytes r sector_size sec base idx ((info_count + eow_count) * 8)) _ _

  info_of-scan_plain :
      (o : Option ℕ)
      → info_of (scan_plain r sector_size sec base o) ≡ probe_plain r sector_size sec base o
  unfolding scan_plain probe_plain
  info_of-scan_plain none = refl
  info_of-scan_plain (some idx) = info_of-parse_offsets idx 3 0

  info_of-scan_sector :
      (o : Option ℕ)
      → info_of (scan_sector r sector_size sec base o) ≡ probe_sector r sector_size sec base o
  unfolding scan_sector probe_sector
  info_of-scan_sector none = info_of-scan_plain (index information_offset_guid sec)
  info_of-scan_sector (some idx) = info_of-parse_offsets idx 3 2

info_of-scan_from :
    (r : ReaderAt) (sector_size count sector : ℕ)
    → info_of (scan_from r sector_size count sector) ≡ probe_from r sector_size count sector
unfolding scan_from probe_from
info_of-scan_from r sector_size zero sector = refl
info_of-scan_from r sector_size (suc count) sector =
    let base = pos sector *ℤ pos sector_size in
    bind_assoc (read_at_or_fail r sector_size base) _ _
    ∙ bind-congr (read_at_or_fail r sector_size base) _ _ λ sec.
      info_of-join (scan_sector r sector_size sec base (index eow_information_offset_guid sec))
        (scan_from r sector_size count (suc sector)) _ _
        (info_of-scan_sector r sector_size sec base (index eow_information_offset_guid sec))
        (info_of-scan_from r sector_size count (suc sector))

-- The probe of detect.go and the scan of bde.go, each with its own copy of the locator search, find
-- the same offsets of Information blocks in the same order, over every source and for every sector
-- size and number of sectors, and fail with the same error.
pub probe_information_offsets-try_scan :
    (r : ReaderAt) (sector_size max_sectors : ℕ)
    → probe_information_offsets r sector_size max_sectors
      ≡ info_of (try_scan r sector_size max_sectors)
unfolding probe_information_offsets try_scan
probe_information_offsets-try_scan r sector_size max_sectors =
    sym (info_of-scan_from r sector_size max_sectors 0)
