-- ===== src/Cipher/Blocks.antt =====
-- Blocks of 16 bytes: cutting a buffer into them, and mixing two of them.
use go_bde.Base.{
  ℕ, suc, ◌*◌, ◌≡◌, ◌++◌, arith, length, take, drop, replicate, length-append, length-take,
  length-drop, length-replicate, All-take, All-append, All-replicate, All,
}
use go_bde.Base.Bytes.{Bytes, IsByte, put_le, length-put_le, put_le-IsByte}
use go_bde.Base.Bits.{xor_bytes, length-xor_bytes, xor_bytes-IsByte}
use go_bde.Cipher.{IsBlock}

pub IsBlock-take :
    (n : ℕ) (src : Bytes) → length src ≡ 16 * suc n → All IsByte src → IsBlock (take 16 src)
IsBlock-take n src len bytes = (omega (arith, length-take 16 src), All-take IsByte 16 src bytes)

pub length-drop_block :
    (n : ℕ) (src : Bytes) → length src ≡ 16 * suc n → length (drop 16 src) ≡ 16 * n
length-drop_block n src len = omega (arith, length-drop 16 src)

pub IsBlock-xor : (a b : Bytes) → IsBlock a → IsBlock b → IsBlock (xor_bytes a b)
IsBlock-xor a b (la, ba) (lb, bb) =
    (omega (arith, length-xor_bytes a b (omega arith)), xor_bytes-IsByte a b ba bb)

-- A number in the first 8 of 16 bytes.
pub IsBlock-number : (v : ℕ) → IsBlock (put_le 8 v ++ replicate 8 0)
IsBlock-number v = (
  omega (
    arith,
    length-append (put_le 8 v) (replicate 8 0),
    length-put_le 8 v,
    length-replicate {0} {A = ℕ} 8 0,
  ),
  All-append IsByte (put_le 8 v) (replicate 8 0) (put_le-IsByte 8 v)
      (All-replicate IsByte 8 0 (omega arith)),
)
