-- ===== src/Cipher.antt =====
-- The block cipher below the sector ciphers and CCM: `crypto/aes` is not part of the repository, so
-- `aes.NewCipher` is a parameter. What the development relies on is stated where it is used.
pub mod Blocks
pub mod Xts
pub mod Cbc
pub mod Lengths
pub mod Ccm
use go_bde.Base.{ℕ, ◌≡◌, length, All}
use go_bde.Base.Bytes.{Bytes, IsByte}
use go_bde.Outcome.{Outcome}

-- `cipherBlock`: both functions are called on 16 bytes and write 16 bytes.
pub record CipherBlock : Type 0 where
  pub encrypt : Bytes → Bytes
  pub decrypt : Bytes → Bytes

-- `aes.NewCipher`
abbrev pub NewCipher : Type 0
NewCipher = Bytes → Outcome CipherBlock

abbrev pub IsBlock : Bytes → Type 0
IsBlock b = (length b ≡ 16) × All IsByte b

-- A block cipher maps blocks to blocks, and `decrypt` undoes `encrypt`.
pub record IsCipher (c : CipherBlock) : Type 0 where
  pub encrypt_block : (b : Bytes) → IsBlock b → IsBlock (c.encrypt b)
  pub decrypt_block : (b : Bytes) → IsBlock b → IsBlock (c.decrypt b)
  pub decrypt-encrypt : (b : Bytes) → IsBlock b → c.decrypt (c.encrypt b) ≡ b
