-- ===== src/Tests/Keys.antt =====
-- CCM and `Unbox` over the toy block cipher and key stream.
use go_bde.Base.{ℕ, ◌≡◌, refl, sym, subst, true, some, [], ◌∷◌, arith, length, replicate, ◌↔◌}
use go_bde.Base.Bytes.{Bytes, equal, put_le}
use go_bde.Base.Bits.{xor_bytes}
use go_bde.Outcome.{ok, err, ccm_message_too_large, ◌>>=◌}
use go_bde.Datum.{nil}
use go_bde.Cipher.Ccm.{ccm_decrypt, is_tag_len}
use go_bde.Cipher.Ccm.Seal.{ccm_decrypt-nonce_7}
use go_bde.Cipher.Ccm.Blocks.{big_endian, blocks, cbc_mac}
use go_bde.Cipher.Ccm.Format.{first_block, aad_blocks, counter_block}
use go_bde.Cipher.Ccm.Reference.{ccm_tag, ccm_text, ccm_decrypt_iff}
use go_bde.Unbox.{unbox, get_key}
use go_bde.Unbox.Sealed.{container, sealed, unbox-sealed}
use go_bde.Tests.Toy.{padded, length-padded, new_padded, toy_ctr, toy_ctr-IsCtr}

abbrev nonce : Bytes
nonce = replicate {A = ℕ} 12 3

abbrev message : Bytes
message = 104 ∷ 101 ∷ 108 ∷ 108 ∷ 111 ∷ []

abbrev associated : Bytes
associated = 1 ∷ 2 ∷ 3 ∷ []

abbrev text : Bytes
text = ccm_text toy_ctr padded nonce message

abbrev tag : Bytes
tag = ccm_tag padded nonce associated message 16

length-tag : length tag ≡ 16
unfolding ccm_tag xor_bytes counter_block first_block aad_blocks blocks cbc_mac big_endian
length-tag = refl

length-text : length text ≡ 5
unfolding ccm_text
length-text = toy_ctr-IsCtr.same_length padded (counter_block nonce 1) message

open_text : ccm_decrypt new_padded toy_ctr [] nonce text tag associated ≡ ok message
unfolding ccm_decrypt xor_bytes equal ccm_tag ccm_text counter_block first_block aad_blocks blocks
    cbc_mac big_endian
open_text = refl

ccm_decrypt_iff_example :
    (ccm_decrypt new_padded toy_ctr [] nonce text tag associated ≡ ok message) ↔ (
      (text ≡ ccm_text toy_ctr padded nonce message)
      × (tag ≡ ccm_tag padded nonce associated message (length tag)))
unfolding is_tag_len
ccm_decrypt_iff_example =
    ccm_decrypt_iff new_padded toy_ctr [] nonce text tag associated message padded toy_ctr-IsCtr
      refl (omega arith) (omega arith) (subst (λ n. is_tag_len n ≡ true) (sym length-tag) accepted)
      (omega (arith, length-text)) (omega arith)
  where
    accepted : is_tag_len 16 ≡ true
    accepted = refl

ccm_decrypt-nonce_7_example :
    ccm_decrypt new_padded toy_ctr [] (replicate {A = ℕ} 7 3) [] (replicate {A = ℕ} 16 0) []
    ≡ err ccm_message_too_large
unfolding is_tag_len
ccm_decrypt-nonce_7_example =
    ccm_decrypt-nonce_7 new_padded toy_ctr [] (replicate {A = ℕ} 7 3) [] (replicate {A = ℕ} 16 0) []
      refl refl

abbrev head : Bytes
head = replicate {A = ℕ} 8 1

unbox-sealed_example :
    (unbox new_padded toy_ctr [] (
        sealed toy_ctr padded
          record { size = 0; role = 3; typ = 5; flags = 1 }
          77
          5
          (container head 0x8004 message)
          nil)
      >>= λ d. ok (get_key d))
    ≡ ok (some (0x8004, 0, message))
unfolding put_le
unbox-sealed_example =
    unbox-sealed new_padded toy_ctr padded [] record { size = 0; role = 3; typ = 5; flags = 1 } 77 5
      0x8004 head message nil toy_ctr-IsCtr length-padded refl refl refl (omega arith)
