-- ===== src/Cipher/Xts/RoundTrip.antt =====
-- A reference XTS encryption, against `decryptSector` (xts.go).
use go_bde.Base.{
  ℕ, zero, suc, ◌*◌, ◌/◌, ◌%◌, ◌≡◌, refl, [], ◌∷◌, ◌++◌, arith, length, take, drop, All,
  length-append, take-append-drop, take-append_exact, drop-append_exact, All-drop, All-append,
  ==_refl, ==_iff,
}
use go_bde.Base.Bytes.{Bytes, IsByte}
use go_bde.Base.Bits.{xor_bytes, xor_bytes_cancel}
use go_bde.Outcome.{ok}
use go_bde.Cipher.{CipherBlock, IsBlock, IsCipher}
use go_bde.Cipher.Blocks.{IsBlock-take, length-drop_block, IsBlock-xor, IsBlock-number}
use go_bde.Cipher.Xts.{XtsCipher, gf_mul_x, sector_tweak, decrypt_blocks, decrypt_sector}
use go_bde.Cipher.Xts.Tweak.{gf_mul_x-IsBlock}

-- The reference: XTS encryption of whole blocks as IEEE 1619 defines it.
unfoldable pub encrypt_blocks : CipherBlock → ℕ → Bytes → Bytes → Bytes
encrypt_blocks data_key zero tweak src = []
encrypt_blocks data_key (suc n) tweak src =
    xor_bytes (data_key.encrypt (xor_bytes (take 16 src) tweak)) tweak
    ++ encrypt_blocks data_key n (gf_mul_x tweak) (drop 16 src)

unfoldable pub encrypt_sector : XtsCipher → Bytes → ℕ → Bytes
unfolding encrypt_blocks
encrypt_sector c src sector_num =
    encrypt_blocks c.data_key (length src / 16) (c.tweak_key.encrypt (sector_tweak sector_num)) src

module _ (data_key : CipherBlock) (law : IsCipher data_key) where
  pub length-encrypt_blocks :
      (n : ℕ) (tweak src : Bytes)
      → IsBlock tweak
      → length src ≡ 16 * n
      → All IsByte src
      → length (encrypt_blocks data_key n tweak src) ≡ 16 * n
  unfolding encrypt_blocks
  length-encrypt_blocks zero tweak src ht len bytes = omega arith
  length-encrypt_blocks (suc n) tweak src ht len bytes =
      let p : Bytes = take 16 src in
      let inner : IsBlock (data_key.encrypt (xor_bytes p tweak)) =
        law.encrypt_block _ (IsBlock-xor p tweak (IsBlock-take n src len bytes) ht) in
      let c : Bytes = xor_bytes (data_key.encrypt (xor_bytes p tweak)) tweak in
      let is_block : IsBlock c = IsBlock-xor _ tweak inner ht in
      omega (
        arith,
        length-append c (encrypt_blocks data_key n (gf_mul_x tweak) (drop 16 src)),
        is_block.0,
        length-encrypt_blocks n (gf_mul_x tweak) (drop 16 src) (gf_mul_x-IsBlock tweak ht)
            (length-drop_block n src len) (All-drop IsByte 16 src bytes),
      )

  encrypt_blocks-IsByte :
      (n : ℕ) (tweak src : Bytes)
      → IsBlock tweak
      → length src ≡ 16 * n
      → All IsByte src
      → All IsByte (encrypt_blocks data_key n tweak src)
  unfolding encrypt_blocks
  encrypt_blocks-IsByte zero tweak src ht len bytes = tt
  encrypt_blocks-IsByte (suc n) tweak src ht len bytes =
      let p : Bytes = take 16 src in
      let inner : IsBlock (data_key.encrypt (xor_bytes p tweak)) =
        law.encrypt_block _ (IsBlock-xor p tweak (IsBlock-take n src len bytes) ht) in
      All-append IsByte (xor_bytes (data_key.encrypt (xor_bytes p tweak)) tweak) _
        (IsBlock-xor _ tweak inner ht).1
        (encrypt_blocks-IsByte n (gf_mul_x tweak) (drop 16 src) (gf_mul_x-IsBlock tweak ht)
          (length-drop_block n src len) (All-drop IsByte 16 src bytes))

  decrypt_blocks-encrypt_blocks :
      (n : ℕ) (tweak src : Bytes)
      → IsBlock tweak
      → length src ≡ 16 * n
      → All IsByte src
      → decrypt_blocks data_key n tweak (encrypt_blocks data_key n tweak src) ≡ src
  unfolding decrypt_blocks encrypt_blocks
  decrypt_blocks-encrypt_blocks zero tweak [] ht len bytes = refl
  decrypt_blocks-encrypt_blocks zero tweak (x ∷ src) ht len bytes = absurd (omega arith)
  decrypt_blocks-encrypt_blocks (suc n) tweak src ht len bytes =
      let p : Bytes = take 16 src in
      let hp : IsBlock p = IsBlock-take n src len bytes in
      let e : Bytes = data_key.encrypt (xor_bytes p tweak) in
      let he : IsBlock e = law.encrypt_block _ (IsBlock-xor p tweak hp ht) in
      let c : Bytes = xor_bytes e tweak in
      let is_block : IsBlock c = IsBlock-xor e tweak he ht in
      let tail : Bytes = encrypt_blocks data_key n (gf_mul_x tweak) (drop 16 src) in
      rw
        (
          take-append_exact c tail 16 is_block.0,
          drop-append_exact c tail 16 is_block.0,
          xor_bytes_cancel e tweak (omega arith),
          law.decrypt-encrypt (xor_bytes p tweak) (IsBlock-xor p tweak hp ht),
          xor_bytes_cancel p tweak (omega arith),
          decrypt_blocks-encrypt_blocks n (gf_mul_x tweak) (drop 16 src) (gf_mul_x-IsBlock tweak ht)
              (length-drop_block n src len) (All-drop IsByte 16 src bytes),
        )
        (take-append-drop 16 src)

-- The encryption of a sector has its length, and is made of bytes.
pub encrypt_sector_shape :
    (c : XtsCipher) (src : Bytes) (sector_num n : ℕ)
    → IsCipher c.data_key
    → IsCipher c.tweak_key
    → length src ≡ 16 * n
    → All IsByte src
    → (length (encrypt_sector c src sector_num) ≡ 16 * n)
      × All IsByte (encrypt_sector c src sector_num)
unfolding encrypt_sector
encrypt_sector_shape c src sector_num n law tweak_law len bytes =
    let tweak : Bytes = c.tweak_key.encrypt (sector_tweak sector_num) in
    let ht : IsBlock tweak = tweak_law.encrypt_block _ (IsBlock-number sector_num) in
    let blocks : length src / 16 ≡ n = omega arith in
    rw blocks (
      length-encrypt_blocks c.data_key law n tweak src ht len bytes,
      encrypt_blocks-IsByte c.data_key law n tweak src ht len bytes,
    )

-- For every sector whose length is a multiple of 16, and block ciphers that map blocks to blocks
-- and whose decryption undoes encryption, XTS decryption returns what the reference XTS encryption
-- under the same keys and sector number was given.
pub xts_decrypt_sector-encrypt_sector :
    (c : XtsCipher) (src : Bytes) (sector_num n : ℕ)
    → IsCipher c.data_key
    → IsCipher c.tweak_key
    → length src ≡ 16 * n
    → All IsByte src
    → decrypt_sector c (length src) (encrypt_sector c src sector_num) sector_num ≡ ok src
unfolding decrypt_sector encrypt_sector
xts_decrypt_sector-encrypt_sector c src sector_num n law tweak_law len bytes =
    let tweak : Bytes = c.tweak_key.encrypt (sector_tweak sector_num) in
    let ht : IsBlock tweak = tweak_law.encrypt_block _ (IsBlock-number sector_num) in
    let blocks : length src / 16 ≡ n = omega arith in
    let whole : length (encrypt_blocks c.data_key n tweak src) ≡ length src =
      omega (arith, length-encrypt_blocks c.data_key law n tweak src ht len bytes) in
    rw (
      blocks,
      whole,
      blocks,
      ==_refl (length src),
      (==_iff (length src % 16) 0).1 (omega arith),
      decrypt_blocks-encrypt_blocks c.data_key law n tweak src ht len bytes,
    )
