-- ===== src/Unbox/Sealed.antt =====
-- `Unbox` (information.go) against the sealing of a key in a datum.
use mathlib.Core.List.{append_assoc}
use go_bde.Base.{
  ℕ, length-take, subst, zero, suc, inl, inr, Bool-cases, ◌*◌, ◌-◌, ◌%◌, ◌^◌, ◌<◌, ◌≡◌, refl, sym,
  ap, ◌∙◌, true, some, [], ◌∷◌, ◌++◌, arith, length, ltb, leb, drop, length-append,
  drop-append_exact, take-append_exact, lt→ltb, le→leb, ==_iff, take,
}
use go_bde.Base.Bytes.{Bytes, put_le, length-put_le, le_value}
use go_bde.Base.Bits.{length-xor_bytes}
use go_bde.Outcome.{ok, ◌>>=◌}
use go_bde.Types.{FveDatum, aes_ccm, le_at}
use go_bde.Types.Const.{type_aes_ccm_encrypted_key}
use go_bde.Datum.{Datum, Datums, datum}
use go_bde.Cipher.{CipherBlock, NewCipher}
use go_bde.Cipher.Ccm.{
  NewCtr, IsCtr, compute_tag, ccm_decrypt, mac_rounds, ccm_mac, format_aad, first_counter_block,
  is_tag_len, ccm_cbc_mac_update,
}
use go_bde.Cipher.Ccm.Seal.{seal_text, Fits, ccm_decrypt_opened}
use go_bde.Unbox.{datum_nonce, key_container, unbox_fields, ccm_fields, unbox, get_key}

-- The plaintext of a key: size, version and unknown in 8 bytes, the method, the key.
abbrev pub container : Bytes → ℕ → Bytes → Bytes
container head method k = (head ++ put_le 4 method) ++ k

fits : (nonce : Bytes) → length nonce ≡ 12 → (text : Bytes) → length text < 2 ^ 24 → Fits nonce text
fits nonce n text h = subst (λ m. length text < 2 ^ (8 * (15 - m))) (sym n) h

-- The datum that holds a plaintext sealed under a nonce.
abbrev pub sealed : NewCtr → CipherBlock → FveDatum → ℕ → ℕ → Bytes → Datums → Datum
sealed new_ctr block h date counter plain ps =
    datum h (seal_text new_ctr block (datum_nonce date counter) plain)
      (aes_ccm date counter (compute_tag block (datum_nonce date counter) [] plain 16)) ps

length-datum_nonce : (date counter : ℕ) → length (datum_nonce date counter) ≡ 12
unfolding datum_nonce
length-datum_nonce date counter = refl

method-mod : (v : ℕ) → le_value (put_le 4 v) % 2 ^ 16 ≡ v % 2 ^ 16
unfolding le_value put_le
method-mod v = omega arith

module _ (head k : Bytes) (method : ℕ) (len : length head ≡ 8) where
  length-prefix : length (head ++ put_le 4 method) ≡ 12
  length-prefix = omega (arith, length-append head (put_le 4 method), length-put_le 4 method)

  container-method : le_at 8 4 (container head method k) ≡ le_value (put_le 4 method)
  unfolding le_at
  container-method =
      ap (λ b. le_value (take 4 (drop 8 b))) (append_assoc head (put_le 4 method) k)
      ∙ ap (λ b. le_value (take 4 b)) (drop-append_exact head (put_le 4 method ++ k) 8 len)
      ∙ ap le_value (take-append_exact (put_le 4 method) k 4 (length-put_le 4 method))

  container-key : drop 12 (container head method k) ≡ k
  container-key = drop-append_exact (head ++ put_le 4 method) k 12 length-prefix

  container-long : leb 12 (length (container head method k)) ≡ true
  container-long =
      le→leb _ _ (omega (arith, length-append (head ++ put_le 4 method) k, length-prefix))

  get_key-container :
      (key_container (container head method k) >>= λ d. ok (get_key d))
      ≡ ok (some (method % 2 ^ 16, 0, k))
  unfolding key_container get_key
  get_key-container = rw (container-long, container-key, container-method, method-mod method) refl

-- A block cipher that writes 16 bytes gives tags of 16 bytes.
module _ (block : CipherBlock) (writes : (b : Bytes) → length (block.encrypt b) ≡ 16) where
  length-mac_rounds :
      (fuel : ℕ) (x bytes : Bytes) → length x ≡ 16 → length (mac_rounds fuel block x bytes) ≡ 16
  unfolding mac_rounds
  length-mac_rounds zero x bytes l = l
  length-mac_rounds (suc fuel) x [] l = l
  length-mac_rounds (suc fuel) x (b ∷ bytes) l = elim (Bool-cases (leb (length (b ∷ bytes)) 16)) [
    | inl e ↦ rw e (writes _)
    | inr e ↦ rw e (length-mac_rounds fuel _ (drop 16 (b ∷ bytes)) (writes _))
  ]

  length-ccm_cbc_mac_update :
      (x bytes : Bytes) → length x ≡ 16 → length (ccm_cbc_mac_update block x bytes) ≡ 16
  unfolding ccm_cbc_mac_update
  length-ccm_cbc_mac_update x bytes l = length-mac_rounds (length bytes) x bytes l

  length-ccm_mac : (nonce aad plain : Bytes) (n : ℕ) → length (ccm_mac block nonce aad plain n) ≡ 16
  unfolding ccm_mac
  length-ccm_mac nonce aad plain n =
      length-ccm_cbc_mac_update _ plain (elim (Bool-cases (ltb 0 (length aad))) [
        | inl e ↦ rw e (length-ccm_cbc_mac_update _ (format_aad aad) (writes _))
        | inr e ↦ rw e (writes _)
      ])

  length-compute_tag :
      (nonce aad plain : Bytes) → length (compute_tag block nonce aad plain 16) ≡ 16
  unfolding compute_tag
  length-compute_tag nonce aad plain =
      let m : Bytes = ccm_mac block nonce aad plain 16 in
      let s : Bytes = block.encrypt (first_counter_block nonce (15 - length nonce)) in
      let e : length (take 16 m) ≡ 16 =
        omega (arith, length-take 16 m, length-ccm_mac nonce aad plain 16) in
      let f : length (take 16 s) ≡ 16 =
        omega (arith, length-take 16 s, writes (first_counter_block nonce (15 - length nonce))) in
      length-xor_bytes (take 16 m) (take 16 s) (e ∙ sym f) ∙ e

-- `Unbox` and then `GetKey`, of an encrypted datum whose ciphertext and MAC seal a container with a
-- method and a key, under the key that unboxes it, give the low 16 bits of the method and the key:
-- for a container below 16 MiB, and a block cipher that takes the key and writes 16 bytes.
pub unbox-sealed :
    (new_cipher : NewCipher) (new_ctr : NewCtr) (block : CipherBlock) (wrapping_key : Bytes)
    → (h : FveDatum) (date counter method : ℕ) (head k : Bytes) (ps : Datums) → IsCtr new_ctr
    → ((b : Bytes) → length (block.encrypt b) ≡ 16)
    → new_cipher wrapping_key ≡ ok block
    → h.typ ≡ type_aes_ccm_encrypted_key
    → length head ≡ 8
    → length (container head method k) < 2 ^ 24
    → (unbox new_cipher new_ctr wrapping_key
          (sealed new_ctr block h date counter (container head method k) ps)
        >>= λ d. ok (get_key d))
      ≡ ok (some (method % 2 ^ 16, 0, k))
unfolding unbox unbox_fields is_tag_len
unbox-sealed new_cipher new_ctr block wrapping_key h date counter method head k ps is_ctr writes c t
      len small =
    let plain : Bytes = container head method k in
    let nonce : Bytes = datum_nonce date counter in
    let n : length nonce ≡ 12 = length-datum_nonce date counter in
    let text : Bytes = seal_text new_ctr block nonce plain in
    let tag : Bytes = compute_tag block nonce [] plain 16 in
    let l : length text ≡ length plain = is_ctr.same_length block _ plain in
    let tl : length tag ≡ 16 = length-compute_tag block writes nonce [] plain in
    let long : 0 < length text =
      omega
        (arith, l, length-append (head ++ put_le 4 method) k, length-prefix head k method len) in
    let opened : ccm_decrypt new_cipher new_ctr wrapping_key nonce text tag [] ≡ ok plain =
      (ccm_decrypt_opened new_cipher new_ctr wrapping_key nonce text tag [] plain block is_ctr c
          (omega arith) (omega arith) (ap is_tag_len tl) (fits nonce n text (omega arith))).1
        (refl, ap (compute_tag block nonce [] plain) (sym tl)) in
    rw ((==_iff h.typ type_aes_ccm_encrypted_key).1 t, ccm_fields, lt→ltb 0 _ long, opened)
      (get_key-container head k method len)
