-- ===== src/Cipher/Cbc/RoundTrip.antt =====
-- A reference CBC encryption, against `decryptSector` (cbc.go).
use go_bde.Base.{
  ℕ, zero, suc, ◌*◌, ◌/◌, ◌%◌, ◌^◌, ◌≡◌, refl, [], ◌∷◌, ◌++◌, arith, length, take, drop, All,
  length-append, take-append-drop, take-append_exact, drop-append_exact, All-drop, ==_refl, ==_iff,
}
use go_bde.Base.Bytes.{Bytes, IsByte}
use go_bde.Base.Bits.{xor_bytes, xor_bytes_cancel}
use go_bde.Outcome.{ok}
use go_bde.Cipher.{CipherBlock, IsBlock, IsCipher}
use go_bde.Cipher.Blocks.{IsBlock-take, length-drop_block, IsBlock-xor, IsBlock-number}
use go_bde.Cipher.Cbc.{CbcCipher, iv_plain, decrypt_blocks, decrypt_sector}

-- The reference: CBC encryption as NIST SP 800-38A defines it.
unfoldable pub encrypt_blocks : CipherBlock → ℕ → Bytes → Bytes → Bytes
encrypt_blocks block zero prev src = []
encrypt_blocks block (suc n) prev src =
    let c = block.encrypt (xor_bytes (take 16 src) prev) in
    c ++ encrypt_blocks block n c (drop 16 src)

unfoldable pub encrypt_sector : CbcCipher → Bytes → ℕ → Bytes
unfolding encrypt_blocks
encrypt_sector c src sector_num =
    encrypt_blocks c.block (length src / 16) (c.block.encrypt (iv_plain c.sector_size sector_num))
      src

module _ (block : CipherBlock) (law : IsCipher block) where
  pub length-encrypt_blocks :
      (n : ℕ) (prev src : Bytes)
      → IsBlock prev
      → length src ≡ 16 * n
      → All IsByte src
      → length (encrypt_blocks block n prev src) ≡ 16 * n
  unfolding encrypt_blocks
  length-encrypt_blocks zero prev src hp len bytes = omega arith
  length-encrypt_blocks (suc n) prev src hp len bytes =
      let c : Bytes = block.encrypt (xor_bytes (take 16 src) prev) in
      let is_block : IsBlock c =
        law.encrypt_block _ (IsBlock-xor _ prev (IsBlock-take n src len bytes) hp) in
      omega (
        arith,
        length-append c (encrypt_blocks block n c (drop 16 src)),
        is_block.0,
        length-encrypt_blocks n c (drop 16 src) is_block (length-drop_block n src len)
            (All-drop IsByte 16 src bytes),
      )

  decrypt_blocks-encrypt_blocks :
      (n : ℕ) (prev src : Bytes)
      → IsBlock prev
      → length src ≡ 16 * n
      → All IsByte src
      → decrypt_blocks block n prev (encrypt_blocks block n prev src) ≡ src
  unfolding decrypt_blocks encrypt_blocks
  decrypt_blocks-encrypt_blocks zero prev [] hp len bytes = refl
  decrypt_blocks-encrypt_blocks zero prev (x ∷ src) hp len bytes = absurd (omega arith)
  decrypt_blocks-encrypt_blocks (suc n) prev src hp len bytes =
      let p : Bytes = take 16 src in
      let hb : IsBlock p = IsBlock-take n src len bytes in
      let c : Bytes = block.encrypt (xor_bytes p prev) in
      let is_block : IsBlock c = law.encrypt_block _ (IsBlock-xor p prev hb hp) in
      let tail : Bytes = encrypt_blocks block n c (drop 16 src) in
      rw
        (
          take-append_exact c tail 16 is_block.0,
          drop-append_exact c tail 16 is_block.0,
          law.decrypt-encrypt (xor_bytes p prev) (IsBlock-xor p prev hb hp),
          xor_bytes_cancel p prev (omega arith),
          decrypt_blocks-encrypt_blocks n c (drop 16 src) is_block (length-drop_block n src len)
              (All-drop IsByte 16 src bytes),
        )
        (take-append-drop 16 src)

-- For every sector of `sector_size` bytes, a multiple of 16, and a block cipher that maps blocks to
-- blocks and whose decryption undoes encryption, CBC decryption returns what the reference CBC
-- encryption under the same key and sector number was given.
pub cbc_decrypt_sector-encrypt_sector :
    (c : CbcCipher) (src : Bytes) (sector_num n : ℕ)
    → IsCipher c.block
    → c.sector_size ≡ 16 * n
    → length src ≡ c.sector_size
    → All IsByte src
    → decrypt_sector c (length src) (encrypt_sector c src sector_num) sector_num ≡ ok src
unfolding decrypt_sector encrypt_sector
cbc_decrypt_sector-encrypt_sector c src sector_num n law size len bytes =
    let iv : Bytes = c.block.encrypt (iv_plain c.sector_size sector_num) in
    let iv_block : IsBlock iv =
      law.encrypt_block _ (IsBlock-number (sector_num * c.sector_size % 2 ^ 64)) in
    let blocks : length src / 16 ≡ n = omega arith in
    let whole : length (encrypt_blocks c.block n iv src) ≡ length src =
      omega (arith, length-encrypt_blocks c.block law n iv src iv_block (omega arith) bytes) in
    rw (
      blocks,
      whole,
      blocks,
      ==_refl (length src),
      (==_iff (length src % 16) 0).1 (omega arith),
      (==_iff (length src) c.sector_size).1 len,
      decrypt_blocks-encrypt_blocks c.block law n iv src iv_block (omega arith) bytes,
    )
