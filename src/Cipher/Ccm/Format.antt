-- ===== src/Cipher/Ccm/Format.antt =====
-- The block B_0 and the counter blocks of `ccmDecrypt` (ccm.go) as RFC 3610 writes them.
use Prim.Native.Nat.{bit_or}
use go_bde.Base.{
  ℕ, zero, suc, ◌+◌, ◌-◌, ◌*◌, ◌/◌, ◌%◌, ◌^◌, ◌≤◌, ◌<◌, ◌≡◌, refl, sym, ap, ap₂, subst, ◌∙◌, ◌⊎◌,
  Bool, true, false, ◌&&◌, List, [], ◌∷◌, ◌++◌, arith, length, ◌==◌, ltb, if◌then◌else◌, inl, inr,
}
use go_bde.Base.Bytes.{Bytes}
use go_bde.Cipher.Ccm.{
  put_be, counter_bytes, make_ccm_iv, first_counter_block, mac_header, is_tag_len, message_limit,
}
use go_bde.Cipher.Ccm.Blocks.{big_endian, put_be-big_endian, zeros, blocks, all_blocks}
use go_bde.Cipher.Ccm.Seal.{message_limit-pow}

-- The flag of associated data.
abbrev pub adata : Bytes → ℕ
adata [] = 0
adata (b ∷ aad) = 64

-- B_0: the flags Adata, (t - 2) / 2 and q - 1, the nonce, and the length of the payload in q bytes, where
-- the nonce has 15 - q.
unfoldable pub first_block : Bytes → Bytes → ℕ → ℕ → Bytes
unfolding big_endian
first_block nonce aad plain_len t =
    (adata aad + 8 * ((t - 2) / 2) + (14 - length nonce)) ∷ nonce
    ++ big_endian (15 - length nonce) plain_len

-- The associated data, with its length in two bytes in front.
unfoldable pub aad_blocks : Bytes → List Bytes
unfolding big_endian blocks
aad_blocks [] = []
aad_blocks (b ∷ aad) = all_blocks (big_endian 2 (length (b ∷ aad)) ++ b ∷ aad)

unfoldable pub counter_block : Bytes → ℕ → Bytes
unfolding big_endian
counter_block nonce i = (14 - length nonce) ∷ nonce ++ big_endian (15 - length nonce) i

-- A test of all numbers below n.
abbrev all_below : ℕ → (ℕ → Bool) → Bool
all_below zero test = true
all_below (suc n) test = test n && all_below n test

and-both : (a b : Bool) → (a && b) ≡ true → (a ≡ true) × (b ≡ true)
and-both true b h = (refl, h)
and-both false b h = cc

all_below-get :
    (n : ℕ) (test : ℕ → Bool) → all_below n test ≡ true → (i : ℕ) → i < n → test i ≡ true
all_below-get zero test h i lt = absurd (omega arith)
all_below-get (suc n) test h i lt = elim (split i lt) [
  | inl e ↦ subst (λ k. test k ≡ true) (sym e) (and-both (test n) _ h).0
  | inr l ↦ all_below-get n test (and-both (test n) _ h).1 i l
]
  where
    split : (i : ℕ) → i < suc n → (i ≡ n) ⊎ (i < n)
    split i lt = ground arith

-- The flags do not overlap.
abbrev flags_test : ℕ → ℕ → Bool
flags_test a c =
    bit_or a (c * 8 % 256) == 8 * c + a && bit_or (bit_or a 64) (c * 8 % 256) == 64 + 8 * c + a

flags_check : all_below 8 (λ a. all_below 8 (λ c. flags_test a c)) ≡ true
flags_check = refl

flags_sum :
    (a c : ℕ)
    → a < 8
    → c < 8
    → (bit_or a (c * 8 % 256) ≡ 8 * c + a) × (bit_or (bit_or a 64) (c * 8 % 256) ≡ 64 + 8 * c + a)
flags_sum a c h k =
    let row = all_below-get 8 (λ a. all_below 8 (λ c. flags_test a c)) flags_check a h in
    let both = and-both _ _ (all_below-get 8 (flags_test a) row c k) in
    (equal_of _ _ both.0, equal_of _ _ both.1)
  where
    equal_of : (m n : ℕ) → (m == n) ≡ true → m ≡ n
    equal_of m n h = ground arith

tag_bound : (t : ℕ) → is_tag_len t ≡ true → t ≤ 16
unfolding is_tag_len
tag_bound t h = ground arith

-- The counter blocks, for each q.
counter_bytes-one : (l : ℕ) → 2 ≤ l → l ≤ 7 → counter_bytes l 1 ≡ big_endian l 1
unfolding counter_bytes put_be big_endian
counter_bytes-one zero h k = absurd (omega arith)
counter_bytes-one (suc zero) h k = absurd (omega arith)
counter_bytes-one (suc (suc zero)) h k = refl
counter_bytes-one (suc (suc (suc zero))) h k = refl
counter_bytes-one (suc (suc (suc (suc zero)))) h k = refl
counter_bytes-one (suc (suc (suc (suc (suc zero))))) h k = refl
counter_bytes-one (suc (suc (suc (suc (suc (suc zero)))))) h k = refl
counter_bytes-one (suc (suc (suc (suc (suc (suc (suc zero))))))) h k = refl
counter_bytes-one (suc (suc (suc (suc (suc (suc (suc (suc l)))))))) h k = absurd (omega arith)

zeros-big_endian : (l : ℕ) → big_endian l 0 ≡ zeros l
unfolding big_endian
zeros-big_endian zero = refl
zeros-big_endian (suc l) = ap (λ t. t ++ 0 ∷ []) (zeros-big_endian l) ∙ one_more l
  where
    one_more : (l : ℕ) → zeros l ++ 0 ∷ [] ≡ zeros (suc l)
    one_more zero = refl
    one_more (suc l) = ap (λ t. 0 ∷ t) (one_more l)

limit : (l m : ℕ) → message_limit l ≡ m → m < 2 ^ 64
unfolding message_limit
limit l m e = omega arith

pub some_data : (n : ℕ) → ltb 0 (suc n) ≡ true
some_data n = ground arith

module _ (nonce : Bytes) (lo : 8 ≤ length nonce) (hi : length nonce ≤ 13) where
  same_head : 15 - length nonce - 1 ≡ 14 - length nonce
  same_head = omega arith

  pub make_ccm_iv-counter_block : make_ccm_iv nonce (15 - length nonce) 1 ≡ counter_block nonce 1
  unfolding make_ccm_iv counter_block
  make_ccm_iv-counter_block =
      ap₂ (λ h t. h ∷ nonce ++ t) same_head
        (counter_bytes-one (15 - length nonce) (omega arith) (omega arith))

  pub first_counter_block-counter_block :
      first_counter_block nonce (15 - length nonce) ≡ counter_block nonce 0
  unfolding first_counter_block counter_block
  first_counter_block-counter_block =
      ap₂ (λ h t. h ∷ nonce ++ t) same_head (sym (zeros-big_endian (15 - length nonce)))

  length_field :
      (n : ℕ)
      → n < 2 ^ (8 * (15 - length nonce))
      → put_be (15 - length nonce) (n % 2 ^ 64) ≡ big_endian (15 - length nonce) n
  length_field n fits =
      ap (put_be (15 - length nonce)) (
        small n (2 ^ (8 * (15 - length nonce))) fits
          (limit _ _ (message_limit-pow (15 - length nonce) (omega arith))))
      ∙ put_be-big_endian (15 - length nonce) n
    where
      small : (n m : ℕ) → n < m → m < 2 ^ 64 → n % 2 ^ 64 ≡ n
      small n m h k = omega arith

  pub mac_header-first_block :
      (aad : Bytes) (n t : ℕ)
      → is_tag_len t ≡ true
      → n < 2 ^ (8 * (15 - length nonce))
      → mac_header nonce aad n t ≡ first_block nonce aad n t
  unfolding mac_header first_block
  mac_header-first_block aad n t ok_tag fits =
      ap₂ (λ h f. h ∷ nonce ++ f) (flags aad) (length_field n fits)
    where
      sums :
          (bit_or (14 - length nonce) ((t - 2) / 2 * 8 % 256)
            ≡ 8 * ((t - 2) / 2) + (14 - length nonce))
          × (bit_or (bit_or (14 - length nonce) 64) ((t - 2) / 2 * 8 % 256)
              ≡ 64 + 8 * ((t - 2) / 2) + (14 - length nonce))
      sums =
          flags_sum (14 - length nonce) ((t - 2) / 2) (omega arith)
            (omega (arith, tag_bound t ok_tag))

      flags :
          (aad : Bytes)
          → bit_or
              (if ltb 0 (length aad)
                then bit_or (15 - length nonce - 1) 64
                else 15 - length nonce - 1)
              ((t - 2) / 2 * 8 % 256)
            ≡ adata aad + 8 * ((t - 2) / 2) + (14 - length nonce)
      flags [] = ap (λ h. bit_or h ((t - 2) / 2 * 8 % 256)) same_head ∙ sums.0 ∙ omega arith
      flags (b ∷ aad) =
          rw (some_data (length aad))
            (ap (λ h. bit_or (bit_or h 64) ((t - 2) / 2 * 8 % 256)) same_head ∙ sums.1)
