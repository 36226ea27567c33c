-- ===== src/Volume/Unlock/Plain.antt =====
-- `UnlockWithRecoveryPassword`, `Open` and `ReadAt` (bde.go), one after the other.
use go_bde.Base.{
  ℕ, ◌*◌, ◌/◌, ◌+◌, ◌≤◌, ◌<◌, ◌≡◌, refl, ap, ◌∙◌, true, false, ◌||◌, none, some, List, [], length,
  All, map,
}
use go_bde.Base.Int.{pos}
use go_bde.Base.Bytes.{Bytes, IsByte}
use go_bde.Outcome.{ok, ◌>>=◌, not_unlocked, unsupported_cipher}
use go_bde.Cipher.{NewCipher}
use go_bde.Cipher.Ccm.Seal.{guard-true}
use go_bde.Cipher.Ccm.{IsCtr}
use go_bde.Keys.Password.{join, block_text, concat_le}
use go_bde.Region.{is_reserved_sector}
use go_bde.Reader.{slice}
use go_bde.Stream.{BitlockerStream, SectorCipher, read_at, returned}
use go_bde.Stream.Reads.{IsBacked}
use go_bde.Stream.Decrypted.{IsSound, Encrypts, read_at-plain}
use go_bde.Volume.{
  Bde, unlocked, decrypted, cipher_for, new_bitlocker_stream, has_cipher, has_fvek, open_volume,
}
use go_bde.Volume.Unlock.{Packages, Attempt, unlock_with_recovery_password}
use go_bde.Volume.Unlock.Password.{IsUnlockable, unlock_with_recovery_password-IsUnlockable}

-- An encrypted volume with a key that makes a sector cipher opens.
module _ (new_cipher : NewCipher) (b : Bde) (key : Bytes) (c : SectorCipher) where
  stream-cipher :
      b.fvek ≡ some key
      → decrypted b ≡ false
      → cipher_for new_cipher b.sector_size b.fvek_type (some key) ≡ some c
      → (new_bitlocker_stream new_cipher b).cipher ≡ some c
  unfolding new_bitlocker_stream
  stream-cipher held enc made = rw (enc, held) made

  open_volume-cipher :
      b.fvek ≡ some key
      → decrypted b ≡ false
      → cipher_for new_cipher b.sector_size b.fvek_type (some key) ≡ some c
      → open_volume new_cipher b ≡ ok (new_bitlocker_stream new_cipher b)
  unfolding open_volume unlocked
  open_volume-cipher held enc made =
      guard-true (has_fvek b.fvek || decrypted b) not_unlocked _
        (ap (λ o. has_fvek o || decrypted b) held)
      ∙ guard-true _ unsupported_cipher _ (
          ap (λ o. decrypted b || has_cipher o) (stream-cipher held enc made)
          ∙ ap (λ d. d || true) enc)

stream-passthrough :
    (new_cipher : NewCipher) (b : Bde)
    → (new_bitlocker_stream new_cipher b).passthrough ≡ decrypted b
unfolding new_bitlocker_stream
stream-passthrough new_cipher b = refl

-- The whole way from a password to the data: on a volume that the recovery password of eight 16-bit
-- numbers unlocks (its FVEK is sealed under a volume master key that a recovery VMK protects with
-- the password's key, and the VMKs before it do not decrypt; the check of the integrity accepts
-- that master key, and `CipherMap` lists the key type), `UnlockWithRecoveryPassword` and then
-- `Open` give a stream whose `ReadAt` returns the plaintext, all bytes asked for and no error, if
-- the volume is encrypted, its key makes a sector cipher, and the source holds the encryption of
-- each sector as in `read_at-plain`, under its conditions.
pub recovery_password-plain :
    (p : Packages) (b : Bde) (ns : List ℕ) (fvek : Bytes) (typ : ℕ) (c : SectorCipher)
    (image plain : ℕ → ℕ) (count blocks len off : ℕ)
    → let bs : BitlockerStream =
        new_bitlocker_stream p.new_cipher (record b { fvek = some fvek; fvek_type = typ }) in
      IsCtr p.new_ctr
      → ((bytes : Bytes) → length (p.sum256 bytes) ≡ 32)
      → length ns ≡ 8
      → All (λ n. n < 65536) ns
      → IsUnlockable p b (p.sum256 (concat_le ns)) fvek typ
      → decrypted b ≡ false
      → cipher_for p.new_cipher b.sector_size typ (some fvek) ≡ some c
      → IsBacked bs image count
      → IsSound c bs.sector_size
      → bs.sector_size ≡ 16 * blocks
      → ((i : ℕ) → IsByte (plain i))
      → Encrypts bs c image plain count
      → off + len ≤ count * bs.sector_size
      → ((i : ℕ)
          → off ≤ i
          → i < off + len
          → is_reserved_sector bs.reserved (pos (i / bs.sector_size)) ≡ false)
      → (open_volume p.new_cipher
            (unlock_with_recovery_password p b (join b'-' (map block_text ns)) []).0
          >>= λ bs. ok (read_at bs len (pos off)))
        ≡ ok (returned (slice plain off len) (pos (off + len)) none)
unfolding decrypted
recovery_password-plain p b ns fvek typ c image plain count blocks len off is_ctr hash eight small h
      enc made backed sound even bytes encrypts inside free =
    let b' : Bde = record b { fvek = some fvek; fvek_type = typ } in
    let done =
      unlock_with_recovery_password-IsUnlockable p b ns fvek typ is_ctr hash eight small h in
    ap (λ (a : Attempt). open_volume p.new_cipher a.0 >>= λ bs. ok (read_at bs len (pos off))) done
    ∙ ap (λ o. o >>= λ bs. ok (read_at bs len (pos off)))
        (open_volume-cipher p.new_cipher b' fvek c refl enc made)
    ∙ ap ok (
        read_at-plain (new_bitlocker_stream p.new_cipher b') c image plain count blocks len off
          backed (stream-cipher p.new_cipher b' fvek c refl enc made)
          (stream-passthrough p.new_cipher b' ∙ enc) sound even bytes encrypts inside free)
