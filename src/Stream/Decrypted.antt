-- ===== src/Stream/Decrypted.antt =====
-- `ReadAt` (bde.go) against the plaintext of an encrypted volume.
use native.Mathlib.Nat.{mod-lt, div-add-mod, div-lt_iff_lt-mul}
use go_bde.Base.{
  ℕ, zero, suc, ◌+◌, ◌*◌, ◌/◌, ◌%◌, ◌≤◌, ◌<◌, ◌≡◌, refl, sym, ap, ap₂, ◌∙◌, false, none, some, ◌∷◌,
  arith, length, get_or, All,
}
use go_bde.Base.Int.{pos}
use go_bde.Base.Bytes.{Bytes, IsByte}
use go_bde.Outcome.{ok}
use go_bde.Reader.{slice, length-slice, get_or-slice, slice-IsByte}
use go_bde.Region.{is_reserved_sector}
use go_bde.Cipher.{IsCipher}
use go_bde.Cipher.Xts
use go_bde.Cipher.Xts.{XtsCipher}
use go_bde.Cipher.Cbc
use go_bde.Cipher.Cbc.{CbcCipher}
use go_bde.Cipher.Lengths.{xts-sector, cbc-sector}
use go_bde.Stream.{BitlockerStream, SectorCipher, xts, cbc, decrypt_sector, returned, read_at}
use go_bde.Stream.View.{source_of, plain_of, plain_sector, view}
use go_bde.Stream.Reads.{IsBacked, DecryptsSectors}
use go_bde.Stream.Sequence.{read_at-view}

-- The reference encryption of a sector, for each of the two modes.
unfoldable pub encrypt_sector : SectorCipher → Bytes → ℕ → Bytes
encrypt_sector (xts c) src sector_num = Xts.RoundTrip.encrypt_sector c src sector_num
encrypt_sector (cbc c) src sector_num = Cbc.RoundTrip.encrypt_sector c src sector_num

-- The block ciphers keep their laws, and the sector size is the one that the cipher was made for.
abbrev pub IsSound : SectorCipher → ℕ → Type 0
IsSound (xts c) size = IsCipher c.data_key × IsCipher c.tweak_key
IsSound (cbc c) size = IsCipher c.block × (c.sector_size ≡ size)

either_decrypt_sector-encrypt_sector :
    (c : SectorCipher) (src : Bytes) (num size blocks : ℕ)
    → IsSound c size
    → size ≡ 16 * blocks
    → length src ≡ size
    → All IsByte src
    → decrypt_sector c size (encrypt_sector c src num) num ≡ ok src
unfolding decrypt_sector encrypt_sector
either_decrypt_sector-encrypt_sector (xts c) src num size blocks (data_law, tweak_law) e len bytes =
    rw (sym len) (
      Xts.RoundTrip.xts_decrypt_sector-encrypt_sector c src num blocks data_law tweak_law (len ∙ e)
        bytes)
either_decrypt_sector-encrypt_sector (cbc c) src num size blocks (law, same) e len bytes =
    rw (sym len) (
      Cbc.RoundTrip.cbc_decrypt_sector-encrypt_sector c src num blocks law (same ∙ e)
        (len ∙ sym same) bytes)

-- A sound cipher meets what `IsBacked` asks of it.
pub DecryptsSectors-IsSound :
    (c : SectorCipher) (size blocks : ℕ)
    → IsSound c size
    → size ≡ 16 * blocks
    → DecryptsSectors c size
unfolding decrypt_sector
DecryptsSectors-IsSound (xts c) size blocks (law, tweak_law) e src num len bytes =
    let (plain, done, same) = xts-sector c src num blocks law tweak_law (len ∙ e) bytes in
    let done' : Xts.decrypt_sector c size src num ≡ ok plain = rw len at done in
    rw done' (refl, same ∙ len)
DecryptsSectors-IsSound (cbc c) size blocks (law, fits) e src num len bytes =
    let (plain, done, same) = cbc-sector c src num blocks law (fits ∙ e) (len ∙ sym fits) bytes in
    let done' : Cbc.decrypt_sector c size src num ≡ ok plain = rw len at done in
    rw done' (refl, same ∙ len)

-- The image holds, for each of the first `count` sectors that is not reserved, the encryption of that
-- sector of `plain` under the number of the place where it stands.
abbrev pub Encrypts : BitlockerStream → SectorCipher → (ℕ → ℕ) → (ℕ → ℕ) → ℕ → Type 0
Encrypts bs c image plain count =
    (s : ℕ)
    → s < count
    → is_reserved_sector bs.reserved (pos s) ≡ false
    → slice image (source_of bs s) bs.sector_size
      ≡ encrypt_sector c (slice plain (s * bs.sector_size) bs.sector_size)
          (source_of bs s / bs.sector_size)

-- Two byte functions that agree on a range have the same slice of it.
slice-congr :
    (f g : ℕ → ℕ) (off n : ℕ)
    → ((i : ℕ) → off ≤ i → i < off + n → f i ≡ g i)
    → slice f off n ≡ slice g off n
unfolding slice
slice-congr f g off zero h = refl
slice-congr f g off (suc n) h =
    ap₂ ◌∷◌ (h off (omega arith) (omega arith))
      (slice-congr f g (suc off) n (λ i lo hi. h i (omega arith) (omega arith)))

module _ (bs : BitlockerStream) (c : SectorCipher) (image plain : ℕ → ℕ) (count blocks : ℕ)
    (b : IsBacked bs image count) (has_cipher : bs.cipher ≡ some c)
    (not_plain : bs.passthrough ≡ false) (sound : IsSound c bs.sector_size)
    (even : bs.sector_size ≡ 16 * blocks) (bytes : (i : ℕ) → IsByte (plain i))
    (encrypts : Encrypts bs c image plain count) where
  view-plain :
      (i : ℕ)
      → i / bs.sector_size < count
      → is_reserved_sector bs.reserved (pos (i / bs.sector_size)) ≡ false
      → view bs image i ≡ plain i
  unfolding view
  view-plain i below free =
      let s : ℕ = i / bs.sector_size in
      let sector : Bytes = slice plain (s * bs.sector_size) bs.sector_size in
      let num : ℕ = source_of bs s / bs.sector_size in
      rw free (
        simp not_plain (
          ap (λ t. get_or (plain_sector bs image t s) (i % bs.sector_size) 0) has_cipher
          ∙ ap
              (λ t.
                get_or (plain_of (decrypt_sector c bs.sector_size t num)) (i % bs.sector_size) 0)
              (encrypts s below free)
          ∙ ap (λ t. get_or (plain_of t) (i % bs.sector_size) 0)
              (either_decrypt_sector-encrypt_sector c sector num bs.sector_size blocks sound even
                (length-slice plain (s * bs.sector_size) bs.sector_size)
                (slice-IsByte plain (s * bs.sector_size) bs.sector_size bytes))
          ∙ get_or-slice plain (s * bs.sector_size) bs.sector_size (i % bs.sector_size)
              (mod-lt i b.pos_size)
          ∙ ap plain (omega (arith, div-add-mod i bs.sector_size))))

-- On a volume whose source holds the XTS or CBC encryption of each sector of a plaintext where the
-- stream looks for it, under block ciphers whose decryption undoes encryption and with a sector
-- size that is a multiple of 16 and at most 4096 and the kept header sectors inside of the source,
-- `ReadAt` of a range inside of these sectors that meets no reserved one returns the plaintext: all
-- bytes of the range, and no error.
pub read_at-plain :
    (bs : BitlockerStream) (c : SectorCipher) (image plain : ℕ → ℕ) (count blocks len off : ℕ)
    → IsBacked bs image count
    → bs.cipher ≡ some c
    → bs.passthrough ≡ false
    → IsSound c bs.sector_size
    → bs.sector_size ≡ 16 * blocks
    → ((i : ℕ) → IsByte (plain i))
    → Encrypts bs c image plain count
    → off + len ≤ count * bs.sector_size
    → ((i : ℕ)
        → off ≤ i
        → i < off + len
        → is_reserved_sector bs.reserved (pos (i / bs.sector_size)) ≡ false)
    → read_at bs len (pos off) ≡ returned (slice plain off len) (pos (off + len)) none
read_at-plain bs c image plain count blocks len off b q p sound even bytes encrypts below free =
    read_at-view bs image count len off b below
    ∙ ap (λ t. returned t (pos (off + len)) none)
        (slice-congr (view bs image) plain off len λ i lo hi.
          view-plain bs c image plain count blocks b q p sound even bytes encrypts i
            ((div-lt_iff_lt-mul b.pos_size).1 (omega arith)) (free i lo hi))
