-- ===== src/Cipher/Ccm.antt =====
-- `ccmDecrypt` (ccm.go): AES-CCM. The key stream of `cipher.NewCTR` is not part of the repository, so
-- it is a parameter.
pub mod Seal
pub mod Blocks
pub mod Format
pub mod Reference
use Prim.Native.Nat.{bit_or}
use go_bde.Base.{
  ℕ, zero, suc, ◌+◌, ◌-◌, ◌*◌, ◌/◌, ◌%◌, ◌^◌, ◌≡◌, Bool, true, false, not, ◌&&◌, ◌||◌, List, [],
  ◌∷◌, ◌++◌, length, ltb, leb, ◌==◌, if◌then◌else◌, take, drop, replicate,
}
use go_bde.Base.Bytes.{Bytes, equal}
use go_bde.Base.Bits.{xor_bytes}
use go_bde.Outcome.{
  Outcome, ok, err, ◌>>=◌, ◌>>◌, guard, ccm_invalid_nonce_len, ccm_invalid_tag_len,
  ccm_message_too_large, ccm_auth_failed,
}
use go_bde.Cipher.{CipherBlock, NewCipher}

-- `cipher.NewCTR(block, iv)`, as the function that `XORKeyStream` applies to a whole message.
abbrev pub NewCtr : Type 0
NewCtr = CipherBlock → Bytes → Bytes → Bytes

-- It xors a key stream that depends on the block cipher and the IV: it keeps the length, and a second
-- time undoes it.
pub record IsCtr (new_ctr : NewCtr) : Type 0 where
  pub same_length : (b : CipherBlock) (iv m : Bytes) → length (new_ctr b iv m) ≡ length m
  pub involutive : (b : CipherBlock) (iv m : Bytes) → new_ctr b iv (new_ctr b iv m) ≡ m

-- The generic loops: the w low bytes of v, the highest first.
unfoldable pub put_be : ℕ → ℕ → Bytes
put_be zero v = []
put_be (suc w) v = v / 2 ^ (8 * w) % 256 ∷ put_be w v

-- The cases of the switch of `makeCCMIV`.
unfoldable pub counter_bytes : ℕ → ℕ → Bytes
unfolding put_be
counter_bytes l counter =
    if l == 2
    then put_be 2 (counter % 2 ^ 16)
    else if l == 3
    then counter / 2 ^ 16 % 256 ∷ counter / 2 ^ 8 % 256 ∷ counter % 256 ∷ []
    else if l == 4
    then put_be 4 counter
    else put_be l counter

-- `makeCCMIV`: the nonce has 15 - l bytes, so the three parts fill the 16 bytes.
unfoldable pub make_ccm_iv : Bytes → ℕ → ℕ → Bytes
unfolding counter_bytes
make_ccm_iv nonce l counter = (l - 1) ∷ nonce ++ counter_bytes l counter

-- The block of `ccmDecrypt` whose encryption masks the tag.
unfoldable pub first_counter_block : Bytes → ℕ → Bytes
first_counter_block nonce l = (l - 1) ∷ nonce ++ replicate {A = ℕ} l 0

-- `formatAAD`
unfoldable pub format_aad : Bytes → Bytes
unfolding put_be
format_aad aad =
    let buf = put_be 2 (length aad % 2 ^ 16) ++ aad in
    let rem = length buf % 16 in if rem == 0 then buf else buf ++ replicate {A = ℕ} (16 - rem) 0

-- `ccmCbcMacUpdate`, a round per 16 bytes: the length of the data is enough of them.
unfoldable pub mac_rounds : ℕ → CipherBlock → Bytes → Bytes → Bytes
mac_rounds zero block x bytes = x
mac_rounds (suc fuel) block x [] = x
mac_rounds (suc fuel) block x (b ∷ bytes) =
    let chunk = take 16 (b ∷ bytes) in
    let tmp = chunk ++ replicate {A = ℕ} (16 - length chunk) 0 in
    let x' = block.encrypt (xor_bytes tmp x) in
    let rest = mac_rounds fuel block x' (drop 16 (b ∷ bytes)) in
    if leb (length (b ∷ bytes)) 16 then x' else rest

unfoldable pub ccm_cbc_mac_update : CipherBlock → Bytes → Bytes → Bytes
unfolding mac_rounds
ccm_cbc_mac_update block x bytes = mac_rounds (length bytes) block x bytes

-- The block B_0 of `ccmMac`.
unfoldable pub mac_header : Bytes → Bytes → ℕ → ℕ → Bytes
unfolding put_be
mac_header nonce aad plain_len tag_len =
    let l = 15 - length nonce in
    let flags = (if ltb 0 (length aad) then bit_or (l - 1) 64 else l - 1) in
    bit_or flags ((tag_len - 2) / 2 * 8 % 256) ∷ nonce ++ put_be l (plain_len % 2 ^ 64)

unfoldable pub ccm_mac : CipherBlock → Bytes → Bytes → Bytes → ℕ → Bytes
unfolding mac_header format_aad ccm_cbc_mac_update
ccm_mac block nonce aad plaintext tag_len =
    let x = block.encrypt (mac_header nonce aad (length plaintext) tag_len) in
    let x' = (if ltb 0 (length aad) then ccm_cbc_mac_update block x (format_aad aad) else x) in
    ccm_cbc_mac_update block x' plaintext

-- The tag that `ccmDecrypt` computes for a plaintext.
unfoldable pub compute_tag : CipherBlock → Bytes → Bytes → Bytes → ℕ → Bytes
unfolding ccm_mac first_counter_block
compute_tag block nonce aad plain tag_len =
    xor_bytes (take tag_len (ccm_mac block nonce aad plain tag_len))
      (take tag_len (block.encrypt (first_counter_block nonce (15 - length nonce))))

unfoldable pub is_tag_len : ℕ → Bool
is_tag_len n = n == 16 || not (ltb n 4 || ltb 16 n || not (n % 2 == 0))

-- `uint64(1) << (8 * L)`, 0 for an L of 8.
unfoldable pub message_limit : ℕ → ℕ
message_limit l = 2 ^ (8 * l) % 2 ^ 64

-- Behind the checks.
unfoldable pub open_message : NewCtr → CipherBlock → Bytes → Bytes → Bytes → Bytes → Outcome Bytes
unfolding compute_tag make_ccm_iv
open_message new_ctr block nonce ciphertext tag aad =
    let plain = new_ctr block (make_ccm_iv nonce (15 - length nonce) 1) ciphertext in
    guard (equal (compute_tag block nonce aad plain (length tag)) tag) ccm_auth_failed >> ok plain

unfoldable pub ccm_decrypt :
    NewCipher → NewCtr → Bytes → Bytes → Bytes → Bytes → Bytes → Outcome Bytes
unfolding is_tag_len message_limit open_message
ccm_decrypt new_cipher new_ctr key nonce ciphertext tag aad =
    let l = 15 - length nonce in
    guard (leb 7 (length nonce) && leb (length nonce) 13) ccm_invalid_nonce_len
    >> (guard (is_tag_len (length tag)) ccm_invalid_tag_len
        >> (guard (leb 2 l && leb l 8) ccm_invalid_nonce_len
            >> (guard (ltb (length ciphertext) (message_limit l)) ccm_message_too_large
                >> (new_cipher key >>= λ block.
                    open_message new_ctr block nonce ciphertext tag aad))))
