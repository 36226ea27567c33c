-- ===== src/Cipher/Cbc.antt =====
-- cbc.go: AES-CBC decryption of one sector, without diffuser.
pub mod RoundTrip
use go_bde.Base.{
  ℕ, zero, suc, ◌*◌, ◌/◌, ◌%◌, ◌^◌, ◌&&◌, ◌||◌, not, [], ◌++◌, ◌==◌, length, take, drop, replicate,
}
use go_bde.Base.Bytes.{Bytes, put_le}
use go_bde.Base.Bits.{xor_bytes}
use go_bde.Outcome.{
  Outcome, ok, cbc_invalid_key_len, cbc_invalid_sector_size, ◌>>=◌, ◌>>◌, guard, assert,
}
use go_bde.Cipher.{CipherBlock, NewCipher}

pub record CbcCipher : Type 0 where
  pub block : CipherBlock
  pub sector_size : ℕ

unfoldable pub new_cbc_cipher : NewCipher → Bytes → ℕ → Outcome CbcCipher
new_cbc_cipher new_cipher fvek sector_size = do
  guard (length fvek == 16 || length fvek == 32) cbc_invalid_key_len
  guard (not (sector_size == 0) && sector_size % 16 == 0) cbc_invalid_sector_size
  b ← new_cipher fvek
  ok (record { block = b; sector_size = sector_size })

-- `ivPlain`: the byte offset of the sector, as a uint64, in the first 8 of 16 bytes.
abbrev pub iv_plain : ℕ → ℕ → Bytes
iv_plain sector_size sector_num = put_le 8 (sector_num * sector_size % 2 ^ 64) ++ replicate 8 0

-- One pass for each block of 16 bytes that is left; `prev` is the ciphertext block before.
unfoldable pub decrypt_blocks : CipherBlock → ℕ → Bytes → Bytes → Bytes
unfolding xor_bytes
decrypt_blocks block zero prev src = []
decrypt_blocks block (suc n) prev src =
    xor_bytes (block.decrypt (take 16 src)) prev
    ++ decrypt_blocks block n (take 16 src) (drop 16 src)

-- `decryptSector` for a destination of `dst_len` bytes, which may be the source itself.
unfoldable pub decrypt_sector : CbcCipher → ℕ → Bytes → ℕ → Outcome Bytes
unfolding decrypt_blocks
decrypt_sector c dst_len src sector_num = do
  assert (dst_len == length src && dst_len % 16 == 0)
  assert (dst_len == c.sector_size)
  let iv = c.block.encrypt (iv_plain c.sector_size sector_num)
  ok (decrypt_blocks c.block (length src / 16) iv src)
