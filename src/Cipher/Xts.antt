-- ===== src/Cipher/Xts.antt =====
-- xts.go: AES-XTS decryption of one sector.
pub mod Tweak
pub mod RoundTrip
use Prim.Native.Nat.{bit_or, bit_xor}
use go_bde.Base.{
  ℕ, zero, suc, ◌*◌, ◌/◌, ◌%◌, ◌^◌, Bool, ◌&&◌, ◌||◌, List, [], ◌∷◌, ◌++◌, ◌==◌, if◌then◌else◌,
  length, take, drop, replicate,
}
use go_bde.Base.Bytes.{Bytes, put_le}
use go_bde.Base.Bits.{xor_bytes}
use go_bde.Outcome.{Outcome, ok, xts_invalid_key_len, ◌>>=◌, ◌>>◌, guard, assert}
use go_bde.Cipher.{CipherBlock, NewCipher}

pub record XtsCipher : Type 0 where
  pub data_key : CipherBlock
  pub tweak_key : CipherBlock

unfoldable pub new_xts_cipher : NewCipher → Bytes → Outcome XtsCipher
new_xts_cipher new_cipher fvek = do
  guard (length fvek == 32 || length fvek == 64) xts_invalid_key_len
  b1 ← new_cipher (take (length fvek / 2) fvek)
  b2 ← new_cipher (drop (length fvek / 2) fvek)
  ok (record { data_key = b1; tweak_key = b2 })

-- The loop of `gfMulX`: each byte moves one bit up and takes the carry of the byte below.
unfoldable pub shift_left : ℕ → Bytes → Bytes × ℕ
shift_left carry [] = ([], carry)
shift_left carry (b ∷ bs) =
    let (rest, out) = shift_left (b / 2 ^ 7) bs in (bit_or (b * 2 % 256) carry ∷ rest, out)

-- `tweak[0] ^= 0x87` if a bit was carried out.
unfoldable pub reduce : Bytes → ℕ → Bytes
reduce [] carry = []
reduce (b ∷ bs) carry = if carry == 0 then (b ∷ bs) else (bit_xor b 0x87 ∷ bs)

unfoldable pub gf_mul_x : Bytes → Bytes
unfolding shift_left reduce
gf_mul_x tweak = let (shifted, carry) = shift_left 0 tweak in reduce shifted carry

-- The tweak of a sector before it is encrypted: the sector number in the first 8 of 16 bytes.
abbrev pub sector_tweak : ℕ → Bytes
sector_tweak sector_num = put_le 8 sector_num ++ replicate 8 0

-- One pass for each block of 16 bytes that is left.
unfoldable pub decrypt_blocks : CipherBlock → ℕ → Bytes → Bytes → Bytes
unfolding gf_mul_x xor_bytes
decrypt_blocks data_key zero tweak src = []
decrypt_blocks data_key (suc n) tweak src =
    xor_bytes (data_key.decrypt (xor_bytes (take 16 src) tweak)) tweak
    ++ decrypt_blocks data_key n (gf_mul_x tweak) (drop 16 src)

-- `decryptSector` for a destination of `dst_len` bytes, which may be the source itself: each block
-- is read before it is written.
unfoldable pub decrypt_sector : XtsCipher → ℕ → Bytes → ℕ → Outcome Bytes
unfolding decrypt_blocks
decrypt_sector c dst_len src sector_num = do
  assert (dst_len == length src && dst_len % 16 == 0)
  let tweak = c.tweak_key.encrypt (sector_tweak sector_num)
  ok (decrypt_blocks c.data_key (length src / 16) tweak src)
