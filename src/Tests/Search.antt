-- ===== src/Tests/Search.antt =====
-- A volume of 512-byte sectors whose locator names one Information block.
use go_bde.Base.{
  ℕ, zero, suc, ◌+◌, ◌-◌, ◌*◌, ◌≤◌, ◌<◌, ◌≡◌, refl, ap, ap₂, ◌∙◌, none, some, [], ◌∷◌, ◌++◌, arith,
  ltb, if◌then◌else◌, get_or, replicate,
}
use go_bde.Base.Int.{pos, int64, ◌*ℤ◌, *ℤ_pos}
use go_bde.Base.Bytes.{Bytes, put_le, equal, le_value}
use go_bde.Outcome.{ok}
use go_bde.Reader.{ReaderAt, slice}
use go_bde.Types.Const.{bitlocker_signature, information_offset_guid, eow_information_offset_guid}
use go_bde.Dataset.{nonzero_offsets}
use go_bde.Eow.{read_at_or_fail}
use go_bde.Search.{
  nothing_found, Found, index, scan_sector, scan_plain, scan_from, try_scan, join_found,
  parse_offsets, locator_bytes, words,
}
use mathlib.Core.List.{Memᴰ}
use go_bde.Search.Scan.{Names, try_scan_iff}
use go_bde.Tests.Toy.{memory}
use go_bde.Tests.Metadata.{vmk_bytes}

-- Version 2, at 131072.
abbrev pub block : Bytes
unfolding put_le
block =
    bitlocker_signature
    ++ replicate {A = ℕ} 24 0
    ++ put_le 8 131072
    ++ replicate {A = ℕ} 24 0
    ++ put_le 4 84
    ++ put_le 4 2
    ++ put_le 4 48
    ++ put_le 4 84
    ++ replicate {A = ℕ} 32 0
    ++ vmk_bytes

abbrev pub boot : Bytes
unfolding put_le
boot =
    replicate {A = ℕ} 11 0
    ++ put_le 2 512
    ++ put_le 1 8
    ++ replicate {A = ℕ} 146 0
    ++ information_offset_guid
    ++ put_le 8 131072

abbrev pub image : ℕ → ℕ
image i =
    if ltb i 512 then get_or boot i 0 else if ltb i 131072 then 0 else get_or block (i - 131072) 0

abbrev pub source : ReaderAt
source = memory image

slice-zeros :
    (f : ℕ → ℕ) (off n : ℕ)
    → ((i : ℕ) → off ≤ i → i < off + n → f i ≡ 0)
    → slice f off n ≡ replicate n 0
unfolding slice
slice-zeros f off zero h = refl
slice-zeros f off (suc n) h =
    ap₂ ◌∷◌ (h off (omega arith) (omega arith))
      (slice-zeros f (suc off) n (λ i lo hi. h i (omega arith) (omega arith)))

image-zeros : (i : ℕ) → 512 ≤ i → i < 131072 → image i ≡ 0
image-zeros i lo hi = ground arith

-- A sector without a locator.
scan_from-none :
    (r : ReaderAt) (n count sector : ℕ) (sec : Bytes)
    → read_at_or_fail r n (pos sector *ℤ pos n) ≡ ok sec
    → index eow_information_offset_guid sec ≡ none
    → index information_offset_guid sec ≡ none
    → scan_from r n count (suc sector) ≡ ok nothing_found
    → scan_from r n (suc count) sector ≡ ok nothing_found
unfolding scan_from scan_sector
scan_from-none r n count sector sec e f g h = rw (e, f, g, h) refl

zeros_eow : index eow_information_offset_guid (replicate 512 0) ≡ none
unfolding index equal
zeros_eow = refl

zeros_information : index information_offset_guid (replicate 512 0) ≡ none
unfolding index equal
zeros_information = refl

scan_zeros :
    (count sector : ℕ)
    → 1 ≤ sector
    → sector + count ≤ 256
    → scan_from source 512 count sector ≡ ok nothing_found
unfolding scan_from
scan_zeros zero sector lo hi = refl
scan_zeros (suc count) sector lo hi =
    scan_from-none source 512 count sector (replicate 512 0)
      (ap (λ z. read_at_or_fail source 512 z) (*ℤ_pos sector 512 (omega arith))
        ∙ ap ok (
            slice-zeros image (sector * 512) 512
              (λ i l h. image-zeros i (omega arith) (omega arith))))
      zeros_eow zeros_information (scan_zeros count (suc sector) (omega arith) (omega arith))

abbrev first_sector : Bytes
first_sector = slice image 0 512

first_eow : index eow_information_offset_guid first_sector ≡ none
unfolding index equal slice put_le
first_eow = refl

first_information : index information_offset_guid first_sector ≡ some 160
unfolding index equal slice put_le
first_information = refl

abbrev pub located : Found
located = record { info_offsets = pos 131072 ∷ []; eow_offsets = [] }

first_offsets : parse_offsets source 512 first_sector (pos 0) 160 3 0 ≡ ok located
unfolding parse_offsets locator_bytes words nonzero_offsets le_value int64 slice put_le
first_offsets = refl

scan_from-some :
    (r : ReaderAt) (n count : ℕ) (sec : Bytes) (idx : ℕ) (f : Found)
    → read_at_or_fail r n (pos 0 *ℤ pos n) ≡ ok sec
    → index eow_information_offset_guid sec ≡ none
    → index information_offset_guid sec ≡ some idx
    → parse_offsets r n sec (pos 0 *ℤ pos n) idx 3 0 ≡ ok f
    → scan_from r n count 1 ≡ ok nothing_found
    → scan_from r n (suc count) 0 ≡ ok (join_found f nothing_found)
unfolding scan_from scan_sector scan_plain
scan_from-some r n count sec idx f e g h k l = rw (e, g, h, k, l) refl

pub scan_source : scan_from source 512 256 0 ≡ ok located
unfolding ◌*ℤ◌ read_at_or_fail
scan_source =
    scan_from-some source 512 255 first_sector 160 located refl first_eow first_information
      first_offsets (scan_zeros 255 1 (omega arith) (omega arith))

try_source : try_scan source 512 256 ≡ ok located
unfolding try_scan
try_source = scan_source

try_scan_iff_example :
    (Memᴰ (pos 131072) located.info_offsets → Names source 512 256 0 (pos 131072))
    × (Names source 512 256 0 (pos 131072) → Memᴰ (pos 131072) located.info_offsets)
try_scan_iff_example = try_scan_iff source 512 256 (pos 131072) located try_source
