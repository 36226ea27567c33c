-- ===== src/Tests/Toy.antt =====
-- A block cipher that masks its block, and sources in memory.
use go_bde.Base.{
  ℕ, suc, ◌≤◌, ◌≡◌, refl, none, some, [], ◌∷◌, arith, length, get_or, take, ◌++◌, length-take,
  take-append_exact, ◌∙◌, length-append, ap, ap₂, replicate, All-replicate,
}
use go_bde.Base.Int.{ℤ, pos, negsuc}
use go_bde.Base.Bytes.{Bytes, IsByte}
use go_bde.Base.Bits.{xor_bytes, length-xor_bytes, xor_bytes_cancel, bit_xor_cancel}
use go_bde.Outcome.{ok, io_error}
use go_bde.Cipher.{CipherBlock, NewCipher, IsBlock, IsCipher}
use go_bde.Cipher.Blocks.{IsBlock-xor}
use Prim.Native.Nat.{bit_xor}
use go_bde.Cipher.Ccm.{NewCtr, IsCtr}
use go_bde.Reader.{ReaderAt, IsReaderAt, Serves, slice, length-slice}

abbrev pub mask : Bytes
mask = replicate 16 0x5a

mask-IsBlock : IsBlock mask
mask-IsBlock = (refl, All-replicate IsByte 16 0x5a (omega arith))

abbrev pub toy : CipherBlock
toy = record { encrypt = λ b. xor_bytes b mask; decrypt = λ b. xor_bytes b mask }

pub toy-IsCipher : IsCipher toy
toy-IsCipher = record {
  encrypt_block = λ b h. IsBlock-xor b mask h mask-IsBlock;
  decrypt_block = λ b h. IsBlock-xor b mask h mask-IsBlock;
  decrypt-encrypt = λ b h. xor_bytes_cancel b mask (omega arith);
}

abbrev pub new_toy : NewCipher
new_toy key = ok toy

-- A source that answers every read at an offset that is not negative.
abbrev pub memory : (ℕ → ℕ) → ReaderAt
memory image len (pos off) = record { bytes = slice image off len; error = none }
memory image len (negsuc k) = record { bytes = []; error = some (io_error 0) }

pub memory-IsReaderAt : (image : ℕ → ℕ) → IsReaderAt (memory image)
memory-IsReaderAt image = record { bounded = bound; full = fill }
  where
    bound : (len : ℕ) (off : ℤ) → length (memory image len off).bytes ≤ len
    bound len (pos off) = omega (arith, length-slice image off len)
    bound len (negsuc k) = omega arith

    fill :
        (len : ℕ) (off : ℤ)
        → (memory image len off).error ≡ none
        → length (memory image len off).bytes ≡ len
    fill len (pos off) e = length-slice image off len
    fill len (negsuc k) e = cc

pub memory-Serves : (image : ℕ → ℕ) (size : ℕ) → Serves (memory image) image size
memory-Serves image size len off h = refl

-- A block cipher that writes 16 bytes also for what is not a block, and a key stream of one byte.
abbrev pub padded : CipherBlock
padded = record {
  encrypt = λ b. take 16 (xor_bytes b mask ++ mask);
  decrypt = λ b. take 16 (xor_bytes b mask ++ mask);
}

pub length-padded : (b : Bytes) → length (padded.encrypt b) ≡ 16
length-padded b =
    omega (arith, length-take 16 (xor_bytes b mask ++ mask), length-append (xor_bytes b mask) mask)

abbrev pub xor_all : ℕ → Bytes → Bytes
xor_all k [] = []
xor_all k (b ∷ bs) = bit_xor b k ∷ xor_all k bs

length-xor_all : (k : ℕ) (bs : Bytes) → length (xor_all k bs) ≡ length bs
length-xor_all k [] = refl
length-xor_all k (b ∷ bs) = ap suc (length-xor_all k bs)

xor_all-xor_all : (k : ℕ) (bs : Bytes) → xor_all k (xor_all k bs) ≡ bs
xor_all-xor_all k [] = refl
xor_all-xor_all k (b ∷ bs) = ap₂ ◌∷◌ (bit_xor_cancel b k) (xor_all-xor_all k bs)

abbrev pub toy_ctr : NewCtr
toy_ctr block iv m = xor_all (get_or (block.encrypt iv) 15 0) m

pub toy_ctr-IsCtr : IsCtr toy_ctr
toy_ctr-IsCtr = record {
  same_length = λ b iv m. length-xor_all _ m;
  involutive = λ b iv m. xor_all-xor_all _ m;
}

abbrev pub new_padded : NewCipher
new_padded key = ok padded

padded-block : (b : Bytes) → IsBlock b → padded.encrypt b ≡ xor_bytes b mask
padded-block b (len, bytes) =
    take-append_exact (xor_bytes b mask) mask 16
      (omega (arith, length-xor_bytes b mask (omega arith)))

padded-IsBlock : (b : Bytes) → IsBlock b → IsBlock (padded.encrypt b)
padded-IsBlock b h = rw (padded-block b h) (IsBlock-xor b mask h mask-IsBlock)

pub padded-IsCipher : IsCipher padded
padded-IsCipher = record {
  encrypt_block = padded-IsBlock;
  decrypt_block = padded-IsBlock;
  decrypt-encrypt = λ b h.
      padded-block (padded.encrypt b) (padded-IsBlock b h)
      ∙ ap (λ t. xor_bytes t mask) (padded-block b h)
      ∙ xor_bytes_cancel b mask (omega arith);
}
