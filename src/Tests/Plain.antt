-- ===== src/Tests/Plain.antt =====
-- The data of the volume of Tests/Unlock.antt, behind its recovery password.
use go_bde.Base.{
  get_or, ℕ, ◌+◌, ◌*◌, ◌/◌, ◌%◌, ◌<◌, ◌≤◌, ◌≡◌, refl, sym, ap₂, false, none, some, [], arith, map,
}
use go_bde.Base.Int.{pos, int64}
use go_bde.Outcome.{ok, ◌>>=◌}
use go_bde.Reader.{slice}
use go_bde.Dataset.{information_offsets}
use go_bde.Keys.Password.{join, block_text}
use go_bde.Region.{set_reserved_regions, is_reserved_sector}
use go_bde.Cipher.Xts.{new_xts_cipher}
use go_bde.Stream.{BitlockerStream, read_at, returned}
use go_bde.Stream.Reads.{IsBacked}
use go_bde.Stream.View.{eq-slice}
use go_bde.Stream.Decrypted.{Encrypts, DecryptsSectors-IsSound}
use go_bde.Volume.{reserved_regions, cipher_for, new_bitlocker_stream, open_volume, decrypted}
use go_bde.Volume.Unlock.{unlock_with_recovery_password}
use go_bde.Volume.Unlock.Plain.{recovery_password-plain}
use go_bde.Tests.Toy.{padded-IsCipher, new_padded, toy_ctr-IsCtr, memory-Serves}
use go_bde.Tests.Streams.{
  counting, xts_padded, sector_of, sector_of_shape, sealed_image, sealed_image-IsByte,
}
use go_bde.Tests.Unlock.{packages, numbers, fvek, locked, are_16_bit, locked-IsUnlockable}

-- The stream of the unlocked volume.
abbrev opened : BitlockerStream
opened =
    new_bitlocker_stream new_padded
      (record (locked 0x8004) { fvek = some fvek; fvek_type = 0x8004 })

opened-Encrypts : Encrypts opened xts_padded sealed_image counting 16
unfolding new_bitlocker_stream int64
opened-Encrypts s below free = sym (
    eq-slice (sector_of s) sealed_image (s * 512) 512 (sector_of_shape s).0 λ i lt.
      let place : (s * 512 + i) / 512 ≡ s = omega arith in
      let within : (s * 512 + i) % 512 ≡ i = omega arith in
      ap₂ (λ t k. get_or (sector_of t) k 0) (sym place) (sym within))

opened-IsBacked : IsBacked opened sealed_image 16
unfolding new_bitlocker_stream int64 decrypted cipher_for new_xts_cipher
opened-IsBacked = record {
  pos_size = omega arith;
  fits_buf = omega arith;
  size = 8192;
  size_fits = omega arith;
  serves = memory-Serves sealed_image 8192;
  bytes = sealed_image-IsByte;
  whole = omega arith;
  header = omega arith;
  can_decrypt = DecryptsSectors-IsSound xts_padded 512 32 (padded-IsCipher, padded-IsCipher) refl;
}

opened_free :
    (i : ℕ)
    → 600 ≤ i
    → i < 600 + 700
    → is_reserved_sector opened.reserved (pos (i / opened.sector_size)) ≡ false
unfolding new_bitlocker_stream reserved_regions information_offsets is_reserved_sector
    set_reserved_regions
opened_free i lo hi = refl

recovery_password-plain_example :
    (open_volume new_padded
        (unlock_with_recovery_password packages
          (locked 0x8004)
          (join b'-' (map block_text numbers))
          []).0
      >>= λ bs. ok (read_at bs 700 (pos 600)))
    ≡ ok (returned (slice counting 600 700) (pos 1300) none)
unfolding new_bitlocker_stream decrypted cipher_for new_xts_cipher
recovery_password-plain_example =
    recovery_password-plain packages (locked 0x8004) numbers fvek 0x8004 xts_padded sealed_image
      counting 16 32 700 600 toy_ctr-IsCtr (λ b. refl) refl are_16_bit locked-IsUnlockable refl refl
      opened-IsBacked (padded-IsCipher, padded-IsCipher) refl (λ i. omega arith) opened-Encrypts
      (omega arith) opened_free
