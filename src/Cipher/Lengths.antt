-- ===== src/Cipher/Lengths.antt =====
-- The sector ciphers (xts.go, cbc.go): the lengths of what they give.
use go_bde.Base.{
  ℕ, zero, suc, ◌*◌, ◌/◌, ◌%◌, ◌^◌, ◌≡◌, arith, length, take, drop, All, length-append, All-drop,
  ==_refl, ==_iff,
}
use go_bde.Base.Bytes.{Bytes, IsByte}
use go_bde.Base.Bits.{xor_bytes}
use go_bde.Outcome.{ok}
use go_bde.Cipher.{CipherBlock, IsBlock, IsCipher}
use go_bde.Cipher.Blocks.{IsBlock-take, length-drop_block, IsBlock-xor, IsBlock-number}
use go_bde.Cipher.Xts
use go_bde.Cipher.Xts.{XtsCipher, gf_mul_x, sector_tweak}
use go_bde.Cipher.Xts.Tweak.{gf_mul_x-IsBlock}
use go_bde.Cipher.Cbc
use go_bde.Cipher.Cbc.{CbcCipher, iv_plain}

module _ (block : CipherBlock) (law : IsCipher block) where
  length-xts_blocks :
      (n : ℕ) (tweak src : Bytes)
      → IsBlock tweak
      → length src ≡ 16 * n
      → All IsByte src
      → length (Xts.decrypt_blocks block n tweak src) ≡ 16 * n
  unfolding Xts.decrypt_blocks
  length-xts_blocks zero tweak src ht len bytes = omega arith
  length-xts_blocks (suc n) tweak src ht len bytes =
      let mixed : Bytes = xor_bytes (take 16 src) tweak in
      let inner = law.decrypt_block mixed (IsBlock-xor _ tweak (IsBlock-take n src len bytes) ht) in
      let p : Bytes = xor_bytes (block.decrypt mixed) tweak in
      let is_block : IsBlock p = IsBlock-xor _ tweak inner ht in
      omega (
        arith,
        length-append p (Xts.decrypt_blocks block n (gf_mul_x tweak) (drop 16 src)),
        is_block.0,
        length-xts_blocks n (gf_mul_x tweak) (drop 16 src) (gf_mul_x-IsBlock tweak ht)
            (length-drop_block n src len) (All-drop IsByte 16 src bytes),
      )

  length-cbc_blocks :
      (n : ℕ) (prev src : Bytes)
      → IsBlock prev
      → length src ≡ 16 * n
      → All IsByte src
      → length (Cbc.decrypt_blocks block n prev src) ≡ 16 * n
  unfolding Cbc.decrypt_blocks
  length-cbc_blocks zero prev src hp len bytes = omega arith
  length-cbc_blocks (suc n) prev src hp len bytes =
      let c : Bytes = take 16 src in
      let hc : IsBlock c = IsBlock-take n src len bytes in
      let p : Bytes = xor_bytes (block.decrypt c) prev in
      let is_block : IsBlock p = IsBlock-xor _ prev (law.decrypt_block c hc) hp in
      omega (
        arith,
        length-append p (Cbc.decrypt_blocks block n c (drop 16 src)),
        is_block.0,
        length-cbc_blocks n c (drop 16 src) hc (length-drop_block n src len)
            (All-drop IsByte 16 src bytes),
      )

-- The plaintext of a sector has its length, and nothing panics.
pub xts-sector :
    (c : XtsCipher) (src : Bytes) (num n : ℕ)
    → IsCipher c.data_key
    → IsCipher c.tweak_key
    → length src ≡ 16 * n
    → All IsByte src
    → (plain : Bytes) × (Xts.decrypt_sector c (length src) src num ≡ ok plain)
      × (length plain ≡ length src)
unfolding Xts.decrypt_sector
xts-sector c src num n law tweak_law len bytes =
    let tweak : Bytes = c.tweak_key.encrypt (sector_tweak num) in
    let ht : IsBlock tweak = tweak_law.encrypt_block _ (IsBlock-number num) in
    let blocks : length src / 16 ≡ n = omega arith in
    (
      Xts.decrypt_blocks c.data_key (length src / 16) tweak src,
      rw (==_refl (length src), (==_iff (length src % 16) 0).1 (omega arith)),
      rw blocks (omega (arith, length-xts_blocks c.data_key law n tweak src ht len bytes)),
    )

pub cbc-sector :
    (c : CbcCipher) (src : Bytes) (num n : ℕ)
    → IsCipher c.block
    → c.sector_size ≡ 16 * n
    → length src ≡ c.sector_size
    → All IsByte src
    → (plain : Bytes) × (Cbc.decrypt_sector c (length src) src num ≡ ok plain)
      × (length plain ≡ length src)
unfolding Cbc.decrypt_sector
cbc-sector c src num n law size len bytes =
    let iv : Bytes = c.block.encrypt (iv_plain c.sector_size num) in
    let hv : IsBlock iv = law.encrypt_block _ (IsBlock-number (num * c.sector_size % 2 ^ 64)) in
    let blocks : length src / 16 ≡ n = omega arith in
    (
      Cbc.decrypt_blocks c.block (length src / 16) iv src,
      rw (
        ==_refl (length src),
        (==_iff (length src % 16) 0).1 (omega arith),
        (==_iff (length src) c.sector_size).1 len,
      ),
      rw blocks (omega (arith, length-cbc_blocks c.block law n iv src hv (omega arith) bytes)),
    )
