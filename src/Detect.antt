-- ===== src/Detect.antt =====
-- Detection of a BitLocker volume (detect.go): the probe of the first sectors, with its own copy of
-- the locator search.
pub mod Probe
pub mod Sound
use go_bde.Base.{
  ℕ, zero, suc, ◌+◌, ◌*◌, ◌^◌, Bool, true, false, ◌&&◌, ◌||◌, Option, none, some, List, [], ◌∷◌,
  ◌++◌, length, leb, ltb, ◌==◌, if◌then◌else◌, take, drop,
}
use go_bde.Base.Int.{ℤ, pos, negsuc, pos_part, int64, ltb_ℤ, ◌+ℤ◌, ◌*ℤ◌}
use go_bde.Base.Bytes.{Bytes, equal}
use go_bde.Outcome.{Outcome, ok, err, panic, ◌>>=◌}
use go_bde.Reader.{ReadResult, ReaderAt}
use go_bde.Types.{boot_sector_size, decode_boot_sector}
use go_bde.Types.Const.{bitlocker_signature, information_offset_guid, eow_information_offset_guid}
use go_bde.Dataset.{read_full_at, nonzero_offsets}
use go_bde.Eow.{read_at_or_fail}
use go_bde.Search.{index, words}
use go_bde.Search.Boot.{signed_result}

-- `parseOffsets`: only the offsets of Information blocks are kept.
unfoldable pub probe_bytes : ReaderAt → ℕ → Bytes → ℤ → ℕ → ℕ → Outcome Bytes
unfolding read_at_or_fail
probe_bytes r sector_size sec base idx len =
    if leb (idx + 16 + len) sector_size
    then ok (take len (drop (idx + 16) sec))
    else read_at_or_fail r len (base +ℤ pos idx +ℤ pos 16)

unfoldable pub probe_offsets : ReaderAt → ℕ → Bytes → ℤ → ℕ → ℕ → ℕ → Outcome (List ℤ)
unfolding probe_bytes words nonzero_offsets
probe_offsets r sector_size sec base idx info_count eow_count =
    probe_bytes r sector_size sec base idx ((info_count + eow_count) * 8) >>= λ raw.
    ok (nonzero_offsets (words info_count raw))

unfoldable pub probe_plain : ReaderAt → ℕ → Bytes → ℤ → Option ℕ → Outcome (List ℤ)
unfolding probe_offsets
probe_plain r sector_size sec base none = ok []
probe_plain r sector_size sec base (some idx) = probe_offsets r sector_size sec base idx 3 0

unfoldable pub probe_sector : ReaderAt → ℕ → Bytes → ℤ → Option ℕ → Outcome (List ℤ)
unfolding index probe_plain
probe_sector r sector_size sec base none =
    probe_plain r sector_size sec base (index information_offset_guid sec)
probe_sector r sector_size sec base (some idx) = probe_offsets r sector_size sec base idx 3 2

-- `count` rounds of the loop, from a sector on.
unfoldable pub probe_from : ReaderAt → ℕ → ℕ → ℕ → Outcome (List ℤ)
unfolding probe_sector read_at_or_fail
probe_from r sector_size zero sector = ok []
probe_from r sector_size (suc count) sector =
    let base = pos sector *ℤ pos sector_size in
    read_at_or_fail r sector_size base >>= λ sec.
    probe_sector r sector_size sec base (index eow_information_offset_guid sec) >>= λ offsets.
    probe_from r sector_size count (suc sector) >>= λ more. ok (offsets ++ more)

-- `probeInformationOffsets`
unfoldable pub probe_information_offsets : ReaderAt → ℕ → ℕ → Outcome (List ℤ)
unfolding probe_from
probe_information_offsets r sector_size max_sectors = probe_from r sector_size max_sectors 0

pub record ProbeOptions : Type 0 where
  pub sector_size : ℤ
  pub max_sectors : ℤ
  pub accept_signature_at_offset_0 : Bool

-- `deriveSectorSize`
abbrev pub sector_size_of_shift : ℕ → ℕ
sector_size_of_shift shift = if leb 9 shift && leb shift 12 then 2 ^ shift else 512

unfoldable pub derive_sector_size : ReaderAt → ℕ
unfolding read_full_at
derive_sector_size r = elim (read_full_at r boot_sector_size (pos 0)) [
  | ok bytes ↦ sector_size_of_shift (decode_boot_sector bytes).bytes_per_sector_shift
  | err e ↦ 512
  | panic ↦ 512
]

-- A number above 0, or a default.
abbrev pub positive_or : ℕ → ℤ → ℕ
positive_or default (pos zero) = default
positive_or default (pos (suc n)) = suc n
positive_or default (negsuc n) = default

-- The loop over the offsets: a negative one is passed over, a failed read ends it.
unfoldable pub check_offsets : ReaderAt → List ℤ → Outcome Bool
unfolding read_at_or_fail
check_offsets r [] = ok false
check_offsets r (off ∷ offs) =
    let rest = check_offsets r offs in
    if ltb_ℤ off (pos 0)
    then rest
    else read_at_or_fail r 8 off >>= λ sig. if equal sig bitlocker_signature then ok true else rest

unfoldable pub is_bitlocker_volume_with_options : ReaderAt → ProbeOptions → Outcome Bool
unfolding signed_result derive_sector_size probe_information_offsets check_offsets
is_bitlocker_volume_with_options r opts =
    if opts.accept_signature_at_offset_0 && signed_result (r 8 (pos 0))
    then ok true
    else probe_information_offsets r (positive_or (derive_sector_size r) opts.sector_size)
        (positive_or 256 opts.max_sectors)
      >>= λ offsets. check_offsets r offsets

unfoldable pub is_bitlocker_volume : ReaderAt → Outcome Bool
unfolding is_bitlocker_volume_with_options
is_bitlocker_volume r =
    is_bitlocker_volume_with_options r
      record { sector_size = pos 0; max_sectors = pos 0; accept_signature_at_offset_0 = true }

-- `HasBitLockerBootSectorMarker`
unfoldable pub has_boot_sector_marker : ReaderAt → Outcome Bool
unfolding read_at_or_fail
has_boot_sector_marker r = read_at_or_fail r 8 (pos 3) >>= λ oem. ok (equal oem bitlocker_signature)
