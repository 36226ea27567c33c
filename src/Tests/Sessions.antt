-- ===== src/Tests/Sessions.antt =====
-- The volume that is made from a source, and a session of it.
use go_bde.Base.{
  ℕ, ◌≡◌, ◌≤◌, ◌<◌, ◌+◌, ◌*◌, All, subst, refl, ◌⊎◌, sym, ap, ◌∙◌, Bool, true, false, Option, none,
  some, List, [], ◌∷◌, arith,
}
use go_bde.Base.Int.{ℤ, pos, ◌+ℤ◌, int64, quot}
use go_bde.Base.Bytes.{Bytes, put_le, equal}
use go_bde.Outcome.{Outcome, ok, err, panic, ◌>>=◌}
use go_bde.Outcome.Yields.{Yields}
use go_bde.Reader.{ReaderAt, slice}
use go_bde.Types.{
  BootSector, boot_sector_size, decode_boot_sector, decode_block_header, decode_metadata_header,
  decode_datum, decode_vmk_info,
}
use go_bde.Eow.{new_eow_information}
use go_bde.Datum.{read_datum}
use go_bde.Dataset.{Information, is_valid, new_information, information_offsets, read_full_at}
use go_bde.Search.{Found, scan_from, try_scan, read_guid_blocks, scan_or, is_empty}
use go_bde.Search.Boot.{
  BootSectorData, parse_boot_sector, sector_size_of, cluster_size_of, boot_sector_data,
}
use mathlib.Core.List.{Mem, mem-cons_self}
use go_bde.Region.Sort.{FitsInt64}
use go_bde.Region.{is_reserved_sector}
use go_bde.Volume.{
  Bde, unlocked, decrypted, reserved_regions, information_sectors, round_down, version,
  new_bitlocker_stream,
}
use go_bde.Volume.New.{
  new, new_with, choose, load_all, valid_ones, found_offsets, effective_size, tail_offsets,
}
use go_bde.Volume.New.Loaded.{IsNew, new-Yields}
use go_bde.Volume.New.Tail.{tail_offsets-short}
use go_bde.Volume.New.Session.{session-check_integrity, session-unlocked, session-reserves, IsFvek}
use go_bde.Volume.Unlock.{check_integrity, unlock_with_clear_key}
use go_bde.Volume.Unlock.Trace.{serve, Reach, here, next, with_clear_key}
use go_bde.Tests.Unlock.{packages}
use go_bde.Tests.Search.{image, source, located, scan_source}

abbrev bytes : Bytes
bytes = slice image 0 512

abbrev bs : BootSector
bs = decode_boot_sector bytes

reads : read_full_at source boot_sector_size (pos 0) ≡ ok bytes
unfolding read_full_at slice
reads = refl

sector_is : sector_size_of bs ≡ 512
unfolding sector_size_of decode_boot_sector slice put_le
sector_is = refl

cluster_is : cluster_size_of bs 512 ≡ 4096
unfolding cluster_size_of decode_boot_sector slice put_le
cluster_is = refl

read_located :
    (r : ReaderAt) (n cluster lcn : ℕ) (f : Found)
    → scan_from r n 256 0 ≡ ok f
    → is_empty f.info_offsets ≡ false
    → read_guid_blocks r n cluster lcn ≡ ok f
unfolding read_guid_blocks scan_or try_scan
read_located r n cluster lcn f e h = rw (e, h) refl

parsed :
    (r : ReaderAt) (bytes : Bytes) (n cluster : ℕ) (f : Found)
    → read_full_at r boot_sector_size (pos 0) ≡ ok bytes
    → sector_size_of (decode_boot_sector bytes) ≡ n
    → cluster_size_of (decode_boot_sector bytes) n ≡ cluster
    → read_guid_blocks r n cluster (decode_boot_sector bytes).information_lcn ≡ ok f
    → parse_boot_sector r ≡ ok (boot_sector_data r (decode_boot_sector bytes) n cluster f)
unfolding parse_boot_sector
parsed r bytes n cluster f e g h k = rw (e, g, h, k) refl

abbrev found_data : BootSectorData
found_data = boot_sector_data source bs 512 4096 located

parse_source : parse_boot_sector source ≡ ok found_data
parse_source =
    parsed source bytes 512 4096 located reads sector_is cluster_is
      (read_located source 512 4096 bs.information_lcn located scan_source refl)

abbrev loaded_one : Outcome Information → Bool
loaded_one (ok i) = is_valid i
loaded_one (err e) = false
loaded_one panic = false

-- The Information block at its place.
loads : loaded_one (new_information source (pos 131072)) ≡ true
unfolding new_information slice equal decode_block_header decode_metadata_header put_le ◌+ℤ◌
    read_datum decode_datum decode_vmk_info
loads = refl

false-ne-true : false ≡ true → ⊥
false-ne-true e = cc

value_of :
    (m : Outcome Information)
    → loaded_one m ≡ true
    → (i : Information) × (m ≡ ok i) × (is_valid i ≡ true)
value_of (ok i) h = (i, refl, h)
value_of (err e) h = absurd (false-ne-true h)
value_of panic h = absurd (false-ne-true h)

abbrev information : Information
information = (value_of (new_information source (pos 131072)) loads).0

-- The steps of `New` behind the search.
abbrev with_offsets : ReaderAt → BootSectorData → List ℤ → Outcome Bde
with_offsets r d os = load_all (new_information r) os >>= λ available.
    choose (valid_ones is_valid available) available >>= λ information.
    load_all (new_eow_information r) d.eow_offsets >>= λ eows.
    ok (new_with r d available information eows)

with_one :
    (r : ReaderAt) (d : BootSectorData) (o : ℤ) (i : Information)
    → d.eow_offsets ≡ []
    → new_information r o ≡ ok i
    → is_valid i ≡ true
    → with_offsets r d (o ∷ []) ≡ ok (new_with r d (i ∷ []) i [])
with_one r d o i eow load valid = rw (load, valid, eow) refl

new_one :
    (r : ReaderAt) (size : ℤ) (reader_size : Option ℤ) (d : BootSectorData) (o : ℤ)
    (i : Information)
    → parse_boot_sector r ≡ ok d
    → found_offsets r d (effective_size size reader_size) ≡ o ∷ []
    → d.eow_offsets ≡ []
    → new_information r o ≡ ok i
    → is_valid i ≡ true
    → new r size reader_size ≡ ok (new_with r d (i ∷ []) i [])
unfolding new
new_one r size reader_size d o i parse found eow load valid =
    ap (λ m. m >>= λ d. with_offsets r d (found_offsets r d (effective_size size reader_size)))
      parse
    ∙ ap (with_offsets r d) found
    ∙ with_one r d o i eow load valid

abbrev fresh : Bde
fresh = new_with source found_data (information ∷ []) information []

new_source : new source (pos 0) none ≡ ok fresh
unfolding boot_sector_data found_offsets
new_source =
    let one = value_of (new_information source (pos 131072)) loads in
    new_one source (pos 0) none found_data (pos 131072) information parse_source refl refl one.1
      one.2

abbrev later : Bde
later = (serve packages fresh with_clear_key).0

reached : Reach packages fresh later
reached = next here with_clear_key

new-Yields_example : Yields (IsNew source) (new source (pos 0) none)
new-Yields_example = new-Yields source (pos 0) none

session-check_integrity_example : check_integrity packages later.information [] ≡ true
session-check_integrity_example =
    session-check_integrity packages source (pos 0) none fresh later [] new_source reached

tail_offsets-short_example : tail_offsets source 200000 512 ≡ []
tail_offsets-short_example =
    tail_offsets-short source 200000 512 (omega arith) (omega arith) (omega arith)

decrypted_later : unlocked later ≡ true
unfolding unlocked decrypted serve new_with value_of slice put_le new_information equal
    decode_block_header decode_metadata_header ◌+ℤ◌ read_datum decode_datum decode_vmk_info
    unlock_with_clear_key
decrypted_later = refl

session-unlocked_example :
    (decrypted fresh ≡ true)
    ⊎ ((key : Bytes) × (later.fvek ≡ some key) × IsFvek packages fresh key later.fvek_type)
session-unlocked_example =
    session-unlocked packages source (pos 0) none fresh later new_source reached decrypted_later

fresh_regions : reserved_regions fresh ≡ (pos 256, pos 128) ∷ []
unfolding reserved_regions new_with value_of slice put_le new_information equal decode_block_header
    decode_metadata_header ◌+ℤ◌ read_datum decode_datum decode_vmk_info information_offsets int64
    quot information_sectors round_down boot_sector_data
fresh_regions = refl

fresh_offsets : information_offsets fresh.information ≡ pos 131072 ∷ []
unfolding value_of new_with slice put_le new_information equal decode_block_header
    decode_metadata_header ◌+ℤ◌ read_datum decode_datum decode_vmk_info information_offsets int64
fresh_offsets = refl

fresh_version : version fresh ≡ 2
unfolding value_of new_with slice put_le new_information equal decode_block_header
    decode_metadata_header ◌+ℤ◌ read_datum decode_datum decode_vmk_info
fresh_version = refl

session-reserves_example :
    is_reserved_sector (new_bitlocker_stream packages.new_cipher fresh).reserved (pos 383) ≡ true
unfolding new_with boot_sector_data
session-reserves_example =
    session-reserves packages source (pos 0) none fresh fresh 131072 383 new_source here
      (omega (arith, fresh_version)) (subst (All FitsInt64) (sym fresh_regions) (fits, tt))
      (subst (Mem (pos 131072)) (sym fresh_offsets) mem-cons_self) refl from_start before_end
  where
    fits : FitsInt64 (pos 256, pos 128)
    fits = (omega arith, omega arith)

    from_start : 131072 ≤ 383 * 512
    from_start = omega arith

    before_end : 383 * 512 < 131072 + 65536
    before_end = omega arith
