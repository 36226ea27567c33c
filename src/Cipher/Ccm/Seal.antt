-- ===== src/Cipher/Ccm/Seal.antt =====
-- CCM (ccm.go) in its sealing direction, which the program does not have, against `ccmDecrypt`.
use go_bde.Base.{
  ℕ, zero, suc, ◌-◌, ◌*◌, ◌^◌, ◌≤◌, ◌<◌, ◌≡◌, refl, sym, ap, subst, ◌∙◌, ◌↔◌, Bool, true, false,
  ◌&&◌, arith, length, ltb, leb, inl, inr, Bool-cases, lt→ltb,
}
use go_bde.Base.Bytes.{Bytes, equal, equal_iff}
use go_bde.Outcome.{Error, Outcome, ok, err, ◌>>=◌, ◌>>◌, guard, ccm_message_too_large}
use go_bde.Cipher.{CipherBlock, NewCipher}
use go_bde.Cipher.Ccm.{
  NewCtr, IsCtr, make_ccm_iv, compute_tag, is_tag_len, message_limit, open_message, ccm_decrypt,
}

-- The ciphertext and the tag of a message.
abbrev pub seal_text : NewCtr → CipherBlock → Bytes → Bytes → Bytes
seal_text new_ctr block nonce plain = new_ctr block (make_ccm_iv nonce (15 - length nonce) 1) plain

-- The length of a message fits the field that the nonce leaves.
abbrev pub Fits : Bytes → Bytes → Type 0
Fits nonce message = length message < 2 ^ (8 * (15 - length nonce))

pub message_limit-pow : (l : ℕ) → l ≤ 7 → message_limit l ≡ 2 ^ (8 * l)
unfolding message_limit
message_limit-pow zero h = refl
message_limit-pow (suc zero) h = refl
message_limit-pow (suc (suc zero)) h = refl
message_limit-pow (suc (suc (suc zero))) h = refl
message_limit-pow (suc (suc (suc (suc zero)))) h = refl
message_limit-pow (suc (suc (suc (suc (suc zero))))) h = refl
message_limit-pow (suc (suc (suc (suc (suc (suc zero)))))) h = refl
message_limit-pow (suc (suc (suc (suc (suc (suc (suc zero))))))) h = refl
message_limit-pow (suc (suc (suc (suc (suc (suc (suc (suc l)))))))) h = absurd (omega arith)

message_limit-none : (n : ℕ) → ltb n (message_limit 8) ≡ false
unfolding message_limit
message_limit-none n = ground arith

pub guard-true {ℓ} :
    {A : Type ℓ} (b : Bool) (e : Error) (m : Outcome A) → b ≡ true → guard b e >> m ≡ m
guard-true b e m h = rw h refl

guard-false {ℓ} :
    {A : Type ℓ} (b : Bool) (e : Error) (m : Outcome A) → b ≡ false → guard b e >> m ≡ err e
guard-false b e m h = rw h refl

within : (a b c : ℕ) → a ≤ b → b ≤ c → (leb a b && leb b c) ≡ true
within a b c h k = ground arith

module _ (new_cipher : NewCipher) (new_ctr : NewCtr) (key nonce text tag aad : Bytes) where
  ccm_decrypt-open :
      (block : CipherBlock)
      → new_cipher key ≡ ok block
      → 8 ≤ length nonce
      → length nonce ≤ 13
      → is_tag_len (length tag) ≡ true
      → Fits nonce text
      → ccm_decrypt new_cipher new_ctr key nonce text tag aad
        ≡ open_message new_ctr block nonce text tag aad
  unfolding ccm_decrypt
  ccm_decrypt-open block c lo hi t fits =
      guard-true _ _ _ (within 7 (length nonce) 13 (omega arith) hi)
      ∙ guard-true _ _ _ t
      ∙ guard-true _ _ _ (within 2 (15 - length nonce) 8 (omega arith) (omega arith))
      ∙ guard-true _ _ _ (
          lt→ltb _ _ (
            subst (λ n. length text < n) (sym (message_limit-pow (15 - length nonce) (omega arith)))
              fits))
      ∙ ap (λ m. m >>= λ b. open_message new_ctr b nonce text tag aad) c

  -- A nonce of 7 bytes is within the lengths that `ccmDecrypt` accepts, and leaves 8 bytes to the
  -- length, whose limit 1 << 64 is 0 in a uint64: with a tag of an accepted length, every message,
  -- also the empty one, is too large.
  pub ccm_decrypt-nonce_7 :
      length nonce ≡ 7
      → is_tag_len (length tag) ≡ true
      → ccm_decrypt new_cipher new_ctr key nonce text tag aad ≡ err ccm_message_too_large
  unfolding ccm_decrypt
  ccm_decrypt-nonce_7 len t =
      guard-true _ _ _ (within 7 (length nonce) 13 (omega arith) (omega arith))
      ∙ guard-true _ _ _ t
      ∙ guard-true _ _ _ (within 2 (15 - length nonce) 8 (omega arith) (omega arith))
      ∙ guard-false _ _ _ (
          ap (λ n. ltb (length text) (message_limit (15 - n))) len
          ∙ message_limit-none (length text))

module _ (new_ctr : NewCtr) (is_ctr : IsCtr new_ctr) (block : CipherBlock)
    (nonce text tag aad plain : Bytes) where
  open_message_sound :
      open_message new_ctr block nonce text tag aad ≡ ok plain
      → (text ≡ seal_text new_ctr block nonce plain)
        × (tag ≡ compute_tag block nonce aad plain (length tag))
  unfolding open_message
  open_message_sound e =
      elim (Bool-cases (
        equal (compute_tag block nonce aad (seal_text new_ctr block nonce text) (length tag))
          tag)) [
            | inl t ↦
                let p : seal_text new_ctr block nonce text ≡ plain =
                  ok_inj (sym (guard-true _ _ _ t) ∙ e) in
                (
                  sym (is_ctr.involutive block _ text) ∙ ap (seal_text new_ctr block nonce) p,
                  sym ((equal_iff _ tag).0 t)
                      ∙ ap (λ p. compute_tag block nonce aad p (length tag)) p,
                )
            | inr t ↦ absurd (err-ne-ok (sym (guard-false _ _ _ t) ∙ e))
          ]
    where
      ok_inj : {a b : Bytes} → ok a ≡ ok b → a ≡ b
      ok_inj e = cc

      err-ne-ok : {x : Error} {b : Bytes} → err x ≡ ok b → ⊥
      err-ne-ok e = cc

  open_message_complete :
      text ≡ seal_text new_ctr block nonce plain
      → tag ≡ compute_tag block nonce aad plain (length tag)
      → open_message new_ctr block nonce text tag aad ≡ ok plain
  unfolding open_message
  open_message_complete e t =
      let p : seal_text new_ctr block nonce text ≡ plain =
        ap (seal_text new_ctr block nonce) e ∙ is_ctr.involutive block _ plain in
      guard-true _ _ _
        ((equal_iff _ tag).1 (ap (λ p. compute_tag block nonce aad p (length tag)) p ∙ sym t))
      ∙ ap ok p

-- What `ccmDecrypt` opens, by the tag that it computes itself.
pub ccm_decrypt_opened :
    (new_cipher : NewCipher) (new_ctr : NewCtr) (key nonce text tag aad plain : Bytes)
    (block : CipherBlock)
    → IsCtr new_ctr
    → new_cipher key ≡ ok block
    → 8 ≤ length nonce
    → length nonce ≤ 13
    → is_tag_len (length tag) ≡ true
    → Fits nonce text
    → (ccm_decrypt new_cipher new_ctr key nonce text tag aad ≡ ok plain) ↔ (
        (text ≡ seal_text new_ctr block nonce plain)
        × (tag ≡ compute_tag block nonce aad plain (length tag)))
ccm_decrypt_opened new_cipher new_ctr key nonce text tag aad plain block is_ctr c lo hi t fits =
    let e = ccm_decrypt-open new_cipher new_ctr key nonce text tag aad block c lo hi t fits in
    (
      λ h. open_message_sound new_ctr is_ctr block nonce text tag aad plain (sym e ∙ h),
      λ (x, y). e ∙ open_message_complete new_ctr is_ctr block nonce text tag aad plain x y,
    )
