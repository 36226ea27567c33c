-- ===== src/Stream/Errors.antt =====
-- `ReadAt` (bde.go) at negative offsets and across the end of the source.
use native.Mathlib.Nat.{div-eq_of_lt, mod-eq_of_lt}
use go_bde.Base.{
  ℕ, suc, ◌+◌, ◌-◌, ◌*◌, ◌/◌, ◌%◌, ◌^◌, ◌≤◌, ◌<◌, ◌≡◌, refl, ap, subst, ◌∙◌, true, false, none,
  some, [], ◌∷◌, arith, length, le→leb,
}
use go_bde.Base.Int.{pos, negsuc, ◌+ℤ◌, ◌-ℤ◌, +ℤ_pos, quot, rem, uint64, pos_part}
use go_bde.Base.Bytes.{Bytes}
use go_bde.Outcome.{eof}
use go_bde.Reader.{ReaderAt, slice, length-slice, slice-IsByte}
use go_bde.Region.{is_reserved_sector}
use go_bde.Stream.{
  BitlockerStream, SectorCipher, crashed, stopped, to_do, src_offset, copy_range, pass_through,
  cipher_read, decrypt_pass, read_pass, returned, panicked, read_loop, read_at_internal, read_at,
  read_at_end, drop_eof, sector_buf_size,
}
use go_bde.Stream.View.{source_of}
use go_bde.Stream.Reads.{
  IsBacked, CanDecrypt, DecryptsSectors, src_offset_pos, source_bound, to_do_pos,
}

quot_negative : (k size : ℕ) → suc k < size → quot (negsuc k) size ≡ pos 0
unfolding quot
quot_negative k size h = rw (div-eq_of_lt h) refl

rem_negative : (k size : ℕ) → suc k < size → rem (negsuc k) size ≡ negsuc k
unfolding rem
rem_negative k size h = rw (mod-eq_of_lt h) (ground arith)

-ℤ_self : (k : ℕ) → negsuc k -ℤ negsuc k ≡ pos 0
unfolding ◌-ℤ◌
-ℤ_self k = ground arith

module _ (bs : BitlockerStream) (c : SectorCipher) (image : ℕ → ℕ) (count : ℕ)
    (b : IsBacked bs image count) (some_sector : 0 < count) (has_cipher : bs.cipher ≡ some c)
    (not_plain : bs.passthrough ≡ false)
    (free : is_reserved_sector bs.reserved (pos 0) ≡ false) where
  source_zero : src_offset bs (pos 0) (pos 0) ≡ pos (source_of bs 0)
  unfolding src_offset
  source_zero =
      let none_before : 0 ≡ 0 * bs.sector_size = omega arith in
      ap (λ t. src_offset bs (pos 0) (pos t)) none_before
      ∙ src_offset_pos bs.header_offset bs.header_sectors 0 bs.sector_size (0 * bs.sector_size)
          (omega (arith, b.header, b.size_fits))

  zero_inside : source_of bs 0 + bs.sector_size ≤ b.size
  zero_inside =
      source_bound (pos_part bs.header_offset) (pos_part bs.header_sectors) 0 bs.sector_size count
        b.size some_sector b.whole b.header

  negative_pass :
      (k n : ℕ)
      → cipher_read bs.cipher bs.r bs.sector_size n (negsuc k) (negsuc k) (pos (source_of bs 0))
        ≡ crashed
  unfolding cipher_read decrypt_pass copy_range
  negative_pass k n =
      let works : DecryptsSectors c bs.sector_size =
        subst (CanDecrypt bs) has_cipher b.can_decrypt in
      let (decrypted, len) =
        works (slice image (source_of bs 0) bs.sector_size)
          (uint64 (quot (pos (source_of bs 0)) bs.sector_size))
          (length-slice image (source_of bs 0) bs.sector_size)
          (slice-IsByte image (source_of bs 0) bs.sector_size b.bytes) in
      rw (
        has_cipher,
        cipher_read,
        le→leb bs.sector_size sector_buf_size b.fits_buf,
        b.serves bs.sector_size (source_of bs 0) zero_inside,
        decrypted,
      )

  negative_read_pass : (k len : ℕ) → suc k < bs.sector_size → read_pass bs len (negsuc k) ≡ crashed
  unfolding read_pass
  negative_read_pass k len h =
      rw
        (
          quot_negative k bs.sector_size h,
          rem_negative k bs.sector_size h,
          -ℤ_self k,
          source_zero,
          free,
        )
        (simp not_plain (negative_pass k _))

-- A read of one byte or more of a volume under a cipher that can decrypt, at an offset between
-- -(sector_size - 1) and -1 panics, if sector 0 is not reserved and is inside of the source: the
-- whole first sector is read and decrypted, and is then cut at a negative index.
pub read_at_negative :
    (bs : BitlockerStream) (c : SectorCipher) (image : ℕ → ℕ) (count k len : ℕ)
    → IsBacked bs image count
    → 0 < count
    → bs.cipher ≡ some c
    → bs.passthrough ≡ false
    → is_reserved_sector bs.reserved (pos 0) ≡ false
    → suc k < bs.sector_size
    → read_at bs (suc len) (negsuc k) ≡ panicked
unfolding read_at read_at_internal read_loop read_at_end
read_at_negative bs c image count k len b some_sector q p free h =
    rw (negative_read_pass bs c image count b some_sector q p free k (suc len) h, read_loop)

-- The source ends after `size` bytes: a read across the end gives the bytes up to it, and `io.EOF`.
abbrev pub EndsAt : ReaderAt → (ℕ → ℕ) → ℕ → Type 0
EndsAt r image size =
    (len off : ℕ)
    → off ≤ size
    → size < off + len
    → r len (pos off) ≡ record { bytes = slice image off (size - off); error = some eof }

drop_eof-some : (bytes : Bytes) → 0 < length bytes → drop_eof bytes (some eof) ≡ none
unfolding drop_eof
drop_eof-some [] h = absurd (omega arith)
drop_eof-some (x ∷ bytes) h = refl

module _ (bs : BitlockerStream) (image : ℕ → ℕ) (size off len : ℕ) (ends : EndsAt bs.r image size)
    (decrypted : bs.passthrough ≡ true) (pos_size : 0 < bs.sector_size)
    (fits : bs.sector_size ≤ sector_buf_size)
    (free : is_reserved_sector bs.reserved (pos (off / bs.sector_size)) ≡ false)
    (small : size < 2 ^ 63) (inside : off < size) (beyond : size < off + suc len)
    (one : off % bs.sector_size + suc len ≤ bs.sector_size) where
  last_pass :
      read_pass bs (suc len) (pos off)
      ≡ stopped (slice image off (size - off)) (pos size) (some eof)
  unfolding read_pass pass_through quot
  last_pass =
      let all : to_do bs.sector_size (suc len) (pos off) ≡ suc len =
        to_do_pos bs.sector_size (suc len) off pos_size fits ∙ omega arith in
      let whole : off + (size - off) ≡ size = omega arith in
      let next : pos off +ℤ pos (size - off) ≡ pos size =
        +ℤ_pos off (size - off) (omega arith) ∙ ap pos whole in
      rw free (
        simp decrypted (
          rw (
            all,
            ends (suc len) off (omega arith) beyond,
            length-slice image off (size - off),
            next,
          )))

-- On a volume that is not encrypted, with sectors of 1 to 4096 bytes, a read inside of one sector
-- that is not reserved and across the end of the source returns the bytes before the end, fewer
-- than were asked for, and no error.
pub read_at_end_of_source :
    (bs : BitlockerStream) (image : ℕ → ℕ) (size off len : ℕ)
    → EndsAt bs.r image size
    → bs.passthrough ≡ true
    → 0 < bs.sector_size
    → bs.sector_size ≤ sector_buf_size
    → is_reserved_sector bs.reserved (pos (off / bs.sector_size)) ≡ false
    → size < 2 ^ 63
    → off < size
    → size < off + suc len
    → off % bs.sector_size + suc len ≤ bs.sector_size
    → (read_at bs (suc len) (pos off) ≡ returned (slice image off (size - off)) (pos size) none)
      × (length (slice image off (size - off)) < suc len)
unfolding read_at read_at_internal read_loop read_at_end
read_at_end_of_source bs image size off len ends p pos_size fits free small inside beyond one =
    let len_eq = length-slice image off (size - off) in
    (
      rw (
        last_pass bs image size off len ends p pos_size fits free small inside beyond one,
        read_loop,
        drop_eof-some (slice image off (size - off)) (omega (arith, len_eq)),
      ),
      omega (arith, len_eq),
    )
