-- ===== src/Cipher/Ccm/Reference.antt =====
-- `ccmDecrypt` (ccm.go) against CCM as RFC 3610 writes it.
use go_bde.Base.{
  ℕ, ◌+◌, ◌-◌, ◌*◌, ◌/◌, ◌%◌, ◌^◌, ◌≤◌, ◌<◌, ◌≡◌, refl, sym, ap, ap₂, subst, ◌∙◌, ◌↔◌, true, false,
  [], ◌∷◌, ◌++◌, arith, length, take, replicate, ◌==◌, ltb, if◌then◌else◌, inl, inr, Bool-cases,
  length-append, length-replicate,
}
use go_bde.Base.Bytes.{Bytes}
use go_bde.Base.Bits.{xor_bytes}
use go_bde.Outcome.{ok}
use go_bde.Cipher.{CipherBlock, NewCipher}
use go_bde.Cipher.Ccm.{
  NewCtr, IsCtr, put_be, format_aad, ccm_cbc_mac_update, ccm_mac, compute_tag, is_tag_len,
  ccm_decrypt,
}
use go_bde.Cipher.Ccm.Blocks.{
  big_endian, put_be-big_endian, zeros, blocks, all_blocks, cbc_mac, cbc_mac-append,
  blocks-append_zeros, ccm_cbc_mac_update-blocks,
}
use go_bde.Cipher.Ccm.Seal.{seal_text, Fits, ccm_decrypt_opened}
use go_bde.Cipher.Ccm.Format.{
  first_block, aad_blocks, counter_block, some_data, make_ccm_iv-counter_block,
  first_counter_block-counter_block, mac_header-first_block,
}

-- The tag of t bytes of a payload, and the ciphertext.
unfoldable pub ccm_tag : CipherBlock → Bytes → Bytes → Bytes → ℕ → Bytes
unfolding first_block aad_blocks counter_block cbc_mac blocks
ccm_tag block nonce aad plain t =
    xor_bytes
      (take t (
        cbc_mac block (block.encrypt (first_block nonce aad (length plain) t))
          (aad_blocks aad ++ all_blocks plain)))
      (take t (block.encrypt (counter_block nonce 0)))

unfoldable pub ccm_text : NewCtr → CipherBlock → Bytes → Bytes → Bytes
unfolding counter_block
ccm_text new_ctr block nonce plain = new_ctr block (counter_block nonce 1) plain

-- The padded data and its blocks.
padded_blocks :
    (m : Bytes) (j : ℕ)
    → 0 < length m % 16
    → j + length m % 16 ≡ 16
    → all_blocks (m ++ zeros j) ≡ all_blocks m
padded_blocks m j p e =
    ap (λ k. blocks k (m ++ zeros j)) (count (length m) (length (m ++ zeros j)) p e len)
    ∙ blocks-append_zeros ((length m + 15) / 16) j m
  where
    len : length (m ++ zeros j) ≡ length m + j
    len = omega (arith, length-append m (zeros j), length-replicate {A = ℕ} j 0)

    count : (n k : ℕ) → 0 < n % 16 → j + n % 16 ≡ 16 → k ≡ n + j → (k + 15) / 16 ≡ (n + 15) / 16
    count n k p e d = omega arith

format_aad-blocks :
    (aad : Bytes)
    → length aad < 65280
    → all_blocks (format_aad aad) ≡ all_blocks (big_endian 2 (length aad) ++ aad)
unfolding format_aad
format_aad-blocks aad short =
    go (put_be 2 (length aad % 2 ^ 16) ++ aad) ∙ ap (λ t. all_blocks (t ++ aad)) same
  where
    same : put_be 2 (length aad % 2 ^ 16) ≡ big_endian 2 (length aad)
    same = ap (put_be 2) (omega arith) ∙ put_be-big_endian 2 (length aad)

    positive : (n : ℕ) → (n == 0) ≡ false → 0 < n
    positive n h = ground arith

    go :
        (buf : Bytes)
        → all_blocks (
            if length buf % 16 == 0 then buf else buf ++ replicate {A = ℕ} (16 - length buf % 16) 0)
          ≡ all_blocks buf
    go buf = elim (Bool-cases (length buf % 16 == 0)) [
      | inl e ↦ rw e refl
      | inr e ↦ rw e (padded_blocks buf (16 - length buf % 16) (positive _ e) (omega arith))
    ]

module _ (block : CipherBlock) (nonce : Bytes) (lo : 8 ≤ length nonce)
    (hi : length nonce ≤ 13) where
  chained :
      (aad : Bytes) (y : Bytes)
      → length aad < 65280
      → (if ltb 0 (length aad) then ccm_cbc_mac_update block y (format_aad aad) else y)
        ≡ cbc_mac block y (aad_blocks aad)
  unfolding aad_blocks cbc_mac
  chained [] y short = refl
  chained (b ∷ aad) y short = rw (some_data (length aad)) (
      ccm_cbc_mac_update-blocks block y (format_aad (b ∷ aad))
      ∙ ap (cbc_mac block y) (format_aad-blocks (b ∷ aad) short))

  compute_tag-ccm_tag :
      (aad plain : Bytes) (t : ℕ)
      → length aad < 65280
      → is_tag_len t ≡ true
      → length plain < 2 ^ (8 * (15 - length nonce))
      → compute_tag block nonce aad plain t ≡ ccm_tag block nonce aad plain t
  unfolding compute_tag ccm_mac ccm_tag
  compute_tag-ccm_tag aad plain t short ok_tag fits =
      ap₂ (λ m s. xor_bytes (take t m) (take t (block.encrypt s)))
        (ap
            (λ h.
              let x = block.encrypt h in
              ccm_cbc_mac_update block
                (if ltb 0 (length aad) then ccm_cbc_mac_update block x (format_aad aad) else x)
                plain)
            (mac_header-first_block nonce lo hi aad (length plain) t ok_tag fits)
          ∙ ap (λ y. ccm_cbc_mac_update block y plain) (chained aad _ short)
          ∙ ccm_cbc_mac_update-blocks block _ plain
          ∙ sym (cbc_mac-append block _ (aad_blocks aad) (all_blocks plain)))
        (first_counter_block-counter_block nonce lo hi)

-- `ccmDecrypt` opens a ciphertext and a tag to a plaintext exactly if they are those of the
-- plaintext in CCM as RFC 3610 writes it: the ciphertext under the counter blocks from 1 on; the
-- tag from the chain over B_0, the associated data and the plaintext in blocks of 16 bytes, xored
-- with counter block 0. The nonce has 8 to 13 bytes, the tag an accepted length, the message a
-- length that the nonce allows, the associated data fewer than 65280 bytes, the block cipher takes
-- the key, and the key stream keeps the length and undoes itself.
pub ccm_decrypt_iff :
    (new_cipher : NewCipher) (new_ctr : NewCtr) (key nonce text tag aad plain : Bytes)
    (block : CipherBlock)
    → IsCtr new_ctr
    → new_cipher key ≡ ok block
    → 8 ≤ length nonce
    → length nonce ≤ 13
    → is_tag_len (length tag) ≡ true
    → Fits nonce text
    → length aad < 65280
    → (ccm_decrypt new_cipher new_ctr key nonce text tag aad ≡ ok plain) ↔ (
        (text ≡ ccm_text new_ctr block nonce plain)
        × (tag ≡ ccm_tag block nonce aad plain (length tag)))
unfolding ccm_text
ccm_decrypt_iff new_cipher new_ctr key nonce text tag aad plain block is_ctr c lo hi t fits short =
    let opened =
      ccm_decrypt_opened new_cipher new_ctr key nonce text tag aad plain block is_ctr c lo hi t
        fits in
    let iv : seal_text new_ctr block nonce plain ≡ new_ctr block (counter_block nonce 1) plain =
      ap (λ iv. new_ctr block iv plain) (make_ccm_iv-counter_block nonce lo hi) in
    (
      λ h.
          let (e, f) = opened.0 h in
          (
            e ∙ iv,
            f ∙ compute_tag-ccm_tag block nonce lo hi aad plain (length tag) short t (payload e),
          ),
      λ (e, f).
          let e' : text ≡ seal_text new_ctr block nonce plain = e ∙ sym iv in
          opened.1 (
            e',
            f
                ∙ sym (
                    compute_tag-ccm_tag block nonce lo hi aad plain (length tag) short t
                      (payload e')),
          ),
    )
  where
    payload :
        text ≡ seal_text new_ctr block nonce plain → length plain < 2 ^ (8 * (15 - length nonce))
    payload e =
        subst (λ n. n < 2 ^ (8 * (15 - length nonce)))
          (ap length e ∙ is_ctr.same_length block _ plain) fits
