-- ===== src/Tests/Detection.antt =====
-- Detection on the volume of Tests/Search.antt, with one sector to scan.
use go_bde.Base.{◌≡◌, refl, true, [], ◌∷◌, ◌-◌, get_or, ltb, if◌then◌else◌}
use go_bde.Base.Int.{pos, ◌+ℤ◌, ◌*ℤ◌, int64}
use go_bde.Base.Bytes.{equal, put_le, le_value}
use go_bde.Outcome.{ok}
use go_bde.Reader.{ReaderAt, slice}
use go_bde.Dataset.{nonzero_offsets}
use go_bde.Search.{index, words, try_scan}
use go_bde.Search.Boot.{try_boot_sector_offsets}
use go_bde.Search.Offers.{IsOffered, AreDistinct, try_boot_sector_offsets_iff}
use mathlib.Core.List.{Memᴰ}
use go_bde.Tests.Toy.{memory}
use go_bde.Detect.{ProbeOptions, probe_information_offsets, is_bitlocker_volume_with_options}
use go_bde.Detect.Probe.{info_of, probe_information_offsets-try_scan}
use go_bde.Detect.Sound.{Verdict, is_bitlocker_volume_with_options-Verdict}
use go_bde.Tests.Search.{source, image}

-- A boot sector whose value at 0x30 counts sectors.
abbrev listing : ReaderAt
listing =
    memory (λ i.
      if ltb i 56 then (if ltb i 48 then 0 else get_or (put_le 2 256) (i - 48) 0) else image i)

finds_block : try_boot_sector_offsets listing 512 4096 ≡ pos 131072 ∷ []
unfolding try_boot_sector_offsets words slice le_value int64 ◌*ℤ◌ put_le equal
finds_block = refl

try_boot_sector_offsets_iff_example :
    (Memᴰ (pos 131072) (try_boot_sector_offsets listing 512 4096)
      → IsOffered listing 512 4096 (pos 131072))
    × (IsOffered listing 512 4096 (pos 131072)
        → Memᴰ (pos 131072) (try_boot_sector_offsets listing 512 4096))
    × AreDistinct (try_boot_sector_offsets listing 512 4096)
try_boot_sector_offsets_iff_example = try_boot_sector_offsets_iff listing 512 4096 (pos 131072) refl

probe_information_offsets-try_scan_example :
    probe_information_offsets source 512 256 ≡ info_of (try_scan source 512 256)
probe_information_offsets-try_scan_example = probe_information_offsets-try_scan source 512 256

abbrev options : ProbeOptions
options = record { sector_size = pos 512; max_sectors = pos 1; accept_signature_at_offset_0 = true }

detected : is_bitlocker_volume_with_options source options ≡ ok true
unfolding is_bitlocker_volume_with_options slice equal put_le index words nonzero_offsets le_value
    int64 ◌+ℤ◌ ◌*ℤ◌ probe_information_offsets
detected = refl

is_bitlocker_volume_with_options-Verdict_example : Verdict source options true
is_bitlocker_volume_with_options-Verdict_example =
    is_bitlocker_volume_with_options-Verdict source options true detected
