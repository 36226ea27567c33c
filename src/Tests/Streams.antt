-- ===== src/Tests/Streams.antt =====
-- Streams over a source in memory.
use go_bde.Base.{
  ℕ, ◌+◌, ◌-◌, ◌*◌, ◌/◌, ◌%◌, ◌<◌, ◌≡◌, refl, sym, ap₂, ◌∙◌, ◌≤◌, true, false, none, some, [], ◌∷◌,
  arith, length, leb, get_or, if◌then◌else◌, All, All-get_or,
}
use go_bde.Base.Int.{pos, negsuc}
use go_bde.Base.Bytes.{Bytes, IsByte}
use go_bde.Outcome.{ok, eof, io_error}
use go_bde.Cipher.Xts
use go_bde.Reader.{ReaderAt, slice, length-slice, slice-IsByte}
use go_bde.Region.{is_reserved_sector}
use go_bde.Region.Lookup.{is_reserved_sector-any_covers}
use go_bde.Stream.{
  BitlockerStream, SectorCipher, xts, read_at, read_at_internal, returned, panicked, seek,
  seek_start,
}
use go_bde.Stream.Total.{EndWrites, read_at_internal-EndWrites}
use go_bde.Stream.View.{view, eq-slice}
use go_bde.Stream.Reads.{IsBacked}
use go_bde.Stream.Sequence.{read_at-view, read_bytes, seek-read_bytes}
use go_bde.Stream.Decrypted.{encrypt_sector, Encrypts, DecryptsSectors-IsSound, read_at-plain}
use go_bde.Stream.Errors.{EndsAt, read_at_negative, read_at_end_of_source}
use go_bde.Tests.Toy.{
  padded, padded-IsCipher, toy, toy-IsCipher, memory, memory-IsReaderAt, memory-Serves,
}

abbrev pub counting : ℕ → ℕ
counting i = i % 251

-- Sixteen sectors; 4 to 7 are reserved, and sectors 0 and 1 are kept at 12.
abbrev stream : BitlockerStream
stream = record {
  offset = pos 0;
  cipher = some (xts (record { data_key = toy; tweak_key = toy }));
  r = memory counting;
  sector_size = 512;
  reserved = record { start_sector = pos 4; end_sector = pos 8 } ∷ [];
  passthrough = false;
  header_offset = pos 6144;
  header_sectors = pos 2;
}

stream-IsBacked : IsBacked stream counting 16
stream-IsBacked = record {
  pos_size = omega arith;
  fits_buf = omega arith;
  size = 8192;
  size_fits = omega arith;
  serves = memory-Serves counting 8192;
  bytes = λ i. omega arith;
  whole = omega arith;
  header = omega arith;
  can_decrypt = DecryptsSectors-IsSound (xts _) 512 32 (toy-IsCipher, toy-IsCipher) refl;
}

read_at_internal-EndWrites_example : EndWrites 700 (read_at_internal stream 700 (negsuc 600))
read_at_internal-EndWrites_example =
    read_at_internal-EndWrites stream 700 (negsuc 600) (memory-IsReaderAt counting) (omega arith)
      (omega arith)

read_at-view_example :
    read_at stream 700 (pos 1900) ≡ returned (slice (view stream counting) 1900 700) (pos 2600) none
read_at-view_example = read_at-view stream counting 16 700 1900 stream-IsBacked (omega arith)

seek-read_bytes_example :
    ((seek stream (pos 1900) seek_start).1 ≡ ok (pos 1900))
    × (read_bytes (seek stream (pos 1900) seek_start).0 (500 ∷ 0 ∷ 200 ∷ [])
        ≡ some (slice (view stream counting) 1900 700))
seek-read_bytes_example =
    seek-read_bytes stream counting 16 1900 (500 ∷ 0 ∷ 200 ∷ []) stream-IsBacked (omega arith)

free_zero : is_reserved_sector stream.reserved (pos 0) ≡ false
unfolding is_reserved_sector
free_zero = refl

read_at_negative_example : read_at stream 10 (negsuc 4) ≡ panicked
read_at_negative_example =
    read_at_negative stream (xts _) counting 16 4 9 stream-IsBacked (omega arith) refl refl
      free_zero (omega arith)

-- A decrypted volume of 1000 bytes.
abbrev short : ReaderAt
short len (pos off) =
    if leb (off + len) 1000
    then record { bytes = slice counting off len; error = none }
    else record { bytes = slice counting off (1000 - off); error = some eof }
short len (negsuc k) = record { bytes = []; error = some (io_error 0) }

short-EndsAt : EndsAt short counting 1000
short-EndsAt len off h k = ground arith

abbrev plain_stream : BitlockerStream
plain_stream = record stream { r = short; passthrough = true }

free_one : is_reserved_sector stream.reserved (pos 1) ≡ false
unfolding is_reserved_sector
free_one = refl

read_at_end_of_source_example :
    (read_at plain_stream 40 (pos 970) ≡ returned (slice counting 970 30) (pos 1000) none)
    × (length (slice counting 970 30) < 40)
read_at_end_of_source_example =
    read_at_end_of_source plain_stream counting 1000 970 39 short-EndsAt refl (omega arith)
      (omega arith) free_one (omega arith) (omega arith) (omega arith) (omega arith)

-- A volume that holds the counting bytes, encrypted in place.
abbrev pub xts_padded : SectorCipher
xts_padded = xts (record { data_key = padded; tweak_key = padded })

abbrev pub sector_of : ℕ → Bytes
sector_of s = encrypt_sector xts_padded (slice counting (s * 512) 512) (s * 512 / 512)

abbrev pub sealed_image : ℕ → ℕ
sealed_image i = get_or (sector_of (i / 512)) (i % 512) 0

abbrev sealed_stream : BitlockerStream
sealed_stream = record stream {
  cipher = some xts_padded;
  r = memory sealed_image;
  header_offset = pos 0;
  header_sectors = pos 0;
}

pub sector_of_shape : (s : ℕ) → (length (sector_of s) ≡ 512) × All IsByte (sector_of s)
unfolding encrypt_sector
sector_of_shape s =
    Xts.RoundTrip.encrypt_sector_shape (record { data_key = padded; tweak_key = padded })
      (slice counting (s * 512) 512) (s * 512 / 512) 32 padded-IsCipher padded-IsCipher
      (length-slice counting (s * 512) 512) (slice-IsByte counting (s * 512) 512 (λ i. omega arith))

pub sealed_image-IsByte : (i : ℕ) → IsByte (sealed_image i)
sealed_image-IsByte i =
    All-get_or IsByte (sector_of (i / 512)) (i % 512) 0 (sector_of_shape (i / 512)).1 (omega arith)

sealed-Encrypts : Encrypts sealed_stream xts_padded sealed_image counting 16
sealed-Encrypts s below free = sym (
    eq-slice (sector_of s) sealed_image (s * 512) 512 (sector_of_shape s).0 λ i lt.
      let place : (s * 512 + i) / 512 ≡ s = omega arith in
      let within : (s * 512 + i) % 512 ≡ i = omega arith in
      ap₂ (λ t k. get_or (sector_of t) k 0) (sym place) (sym within))

sealed-IsBacked : IsBacked sealed_stream sealed_image 16
sealed-IsBacked = record {
  pos_size = omega arith;
  fits_buf = omega arith;
  size = 8192;
  size_fits = omega arith;
  serves = memory-Serves sealed_image 8192;
  bytes = sealed_image-IsByte;
  whole = omega arith;
  header = omega arith;
  can_decrypt = DecryptsSectors-IsSound xts_padded 512 32 (padded-IsCipher, padded-IsCipher) refl;
}

sealed_free :
    (i : ℕ)
    → 600 ≤ i
    → i < 600 + 700
    → is_reserved_sector sealed_stream.reserved (pos (i / 512)) ≡ false
sealed_free i lo hi = is_free (i / 512) (omega arith)
  where
    is_free : (s : ℕ) → s < 4 → is_reserved_sector sealed_stream.reserved (pos s) ≡ false
    is_free s lt =
        is_reserved_sector-any_covers sealed_stream.reserved (pos s) (omega arith, tt, tt)
        ∙ ground arith

read_at-plain_example :
    read_at sealed_stream 700 (pos 600) ≡ returned (slice counting 600 700) (pos 1300) none
read_at-plain_example =
    read_at-plain sealed_stream xts_padded sealed_image counting 16 32 700 600 sealed-IsBacked refl
      refl (padded-IsCipher, padded-IsCipher) refl (λ i. omega arith) sealed-Encrypts (omega arith)
      sealed_free
