-- ===== src/Tests/Ciphers.antt =====
-- The sector ciphers over the toy block cipher.
use go_bde.Base.{◌≡◌, refl, [], ◌∷◌, ◌++◌, arith, replicate}
use go_bde.Base.Bytes.{Bytes, le_value}
use go_bde.Outcome.{ok}
use go_bde.Cipher.{IsBlock}
use go_bde.Cipher.Xts
use go_bde.Cipher.Xts.{XtsCipher, gf_mul_x}
use go_bde.Cipher.Xts.Tweak.{le_value-gf_mul_x}
use go_bde.Cipher.Cbc
use go_bde.Cipher.Cbc.{CbcCipher}
use go_bde.Tests.Toy.{toy, toy-IsCipher}

abbrev xts_toy : XtsCipher
xts_toy = record { data_key = toy; tweak_key = toy }

abbrev cbc_toy : CbcCipher
cbc_toy = record { block = toy; sector_size = 32 }

abbrev two_blocks : Bytes
two_blocks = 1 ∷ 2 ∷ 250 ∷ replicate 29 7

abbrev top_bit : Bytes
top_bit = replicate 15 0 ++ 0x80 ∷ []

gf_mul_x_top : gf_mul_x top_bit ≡ 0x87 ∷ replicate 15 0
unfolding gf_mul_x
gf_mul_x_top = refl

le_value-gf_mul_x_example : IsBlock (gf_mul_x top_bit) × (le_value (gf_mul_x top_bit) ≡ 0x87)
unfolding le_value
le_value-gf_mul_x_example = le_value-gf_mul_x top_bit (omega arith)

xts_decrypt_sector-encrypt_sector_example :
    Xts.decrypt_sector xts_toy 32 (Xts.RoundTrip.encrypt_sector xts_toy two_blocks 3) 3
    ≡ ok two_blocks
xts_decrypt_sector-encrypt_sector_example =
    Xts.RoundTrip.xts_decrypt_sector-encrypt_sector xts_toy two_blocks 3 2 toy-IsCipher toy-IsCipher
      refl (omega arith)

cbc_decrypt_sector-encrypt_sector_example :
    Cbc.decrypt_sector cbc_toy 32 (Cbc.RoundTrip.encrypt_sector cbc_toy two_blocks 3) 3
    ≡ ok two_blocks
cbc_decrypt_sector-encrypt_sector_example =
    Cbc.RoundTrip.cbc_decrypt_sector-encrypt_sector cbc_toy two_blocks 3 2 toy-IsCipher refl refl
      (omega arith)
