-- ===== src/Cipher/Ccm/Blocks.antt =====
-- CCM as RFC 3610 and NIST SP 800-38C write it: the blocks that are authenticated, their chaining and
-- the counter blocks. The encodings of ccm.go against them.
use native.Mathlib.Nat.{div-div-eq-div-mul, pow-suc}
use go_bde.Base.{
  ℕ, zero, suc, ◌+◌, ◌-◌, ◌*◌, ◌/◌, ◌%◌, ◌^◌, ◌≤◌, ◌≡◌, refl, sym, ap, ap₂, ◌∙◌, false, List, [],
  ◌∷◌, ◌++◌, arith, length, take, drop, replicate, leb, if◌then◌else◌, inl, inr, Bool-cases, leb→le,
  length-drop,
}
use go_bde.Base.Bytes.{Bytes}
use go_bde.Base.Bits.{xor_bytes}
use go_bde.Cipher.{CipherBlock}
use go_bde.Cipher.Ccm.{put_be, mac_rounds, ccm_cbc_mac_update}

-- A number in w bytes, the lowest last.
unfoldable pub big_endian : ℕ → ℕ → Bytes
big_endian zero v = []
big_endian (suc w) v = big_endian w (v / 256) ++ v % 256 ∷ []

abbrev pub zeros : ℕ → Bytes
zeros k = replicate k 0

-- The first k blocks of 16 bytes; zeros fill the last one.
unfoldable pub blocks : ℕ → Bytes → List Bytes
blocks zero m = []
blocks (suc k) m = take 16 (m ++ zeros 16) ∷ blocks k (drop 16 m)

abbrev pub all_blocks : Bytes → List Bytes
all_blocks m = blocks ((length m + 15) / 16) m

-- The chaining of the CBC-MAC, from a block y on.
unfoldable pub cbc_mac : CipherBlock → Bytes → List Bytes → Bytes
cbc_mac block y [] = y
cbc_mac block y (b ∷ bs) = cbc_mac block (block.encrypt (xor_bytes b y)) bs

pub cbc_mac-append :
    (block : CipherBlock) (y : Bytes) (bs cs : List Bytes)
    → cbc_mac block y (bs ++ cs) ≡ cbc_mac block (cbc_mac block y bs) cs
unfolding cbc_mac
cbc_mac-append block y [] cs = refl
cbc_mac-append block y (b ∷ bs) cs = cbc_mac-append block (block.encrypt (xor_bytes b y)) bs cs

-- The two ways to write a number, the highest byte first.
put_be_snoc : (w v : ℕ) → put_be (suc w) v ≡ put_be w (v / 256) ++ v % 256 ∷ []
unfolding put_be
put_be_snoc zero v = ap (λ n. n % 256 ∷ []) (omega arith)
put_be_snoc (suc w) v = ap₂ ◌∷◌ (ap (λ n. n % 256) (shift v)) (put_be_snoc w v)
  where
    power : 256 * 2 ^ (8 * w) ≡ 2 ^ (8 * suc w)
    power =
        let e : 8 * suc w ≡ suc (suc (suc (suc (suc (suc (suc (suc (8 * w)))))))) = omega arith in
        rw e (
          omega (
            arith,
            pow-suc 2 (8 * w),
            pow-suc 2 (suc (8 * w)),
            pow-suc 2 (suc (suc (8 * w))),
            pow-suc 2 (suc (suc (suc (8 * w)))),
            pow-suc 2 (suc (suc (suc (suc (8 * w))))),
            pow-suc 2 (suc (suc (suc (suc (suc (8 * w)))))),
            pow-suc 2 (suc (suc (suc (suc (suc (suc (8 * w))))))),
            pow-suc 2 (suc (suc (suc (suc (suc (suc (suc (8 * w)))))))),
          ))

    shift : (v : ℕ) → v / 2 ^ (8 * suc w) ≡ v / 256 / 2 ^ (8 * w)
    shift v = ap (λ n. v / n) (sym power) ∙ sym (div-div-eq-div-mul v 256 (2 ^ (8 * w)))

pub put_be-big_endian : (w v : ℕ) → put_be w v ≡ big_endian w v
unfolding big_endian put_be
put_be-big_endian zero v = refl
put_be-big_endian (suc w) v =
    put_be_snoc w v ∙ ap (λ t. t ++ v % 256 ∷ []) (put_be-big_endian w (v / 256))

-- Zeros behind a text.
zeros_of : (i j : ℕ) → i ≡ j → zeros i ≡ zeros j
zeros_of i j e = ap zeros e

take-zeros : (n k : ℕ) → n ≤ k → take n (zeros k) ≡ zeros n
take-zeros zero k h = refl
take-zeros (suc n) zero h = absurd (omega arith)
take-zeros (suc n) (suc k) h = ap (λ t. 0 ∷ t) (take-zeros n k (omega arith))

drop-zeros : (n k : ℕ) → drop n (zeros k) ≡ zeros (k - n)
drop-zeros zero k = zeros_of k (k - 0) (omega arith)
drop-zeros (suc n) zero = zeros_of (0) (0 - suc n) (omega arith)
drop-zeros (suc n) (suc k) = drop-zeros n k ∙ zeros_of (k - n) (suc k - suc n) (omega arith)

nothing_taken : (n : ℕ) → take {A = ℕ} n [] ++ zeros (n - length (take {A = ℕ} n [])) ≡ zeros n
nothing_taken zero = zeros_of (0 - 0) (0) (omega arith)
nothing_taken (suc n) = zeros_of (suc n - 0) (suc n) (omega arith)

nothing_left : (n k : ℕ) → drop {A = ℕ} n [] ++ zeros k ≡ zeros k
nothing_left zero k = refl
nothing_left (suc n) k = refl

take-append_zeros :
    (n k : ℕ) (m : Bytes)
    → n ≤ k
    → take n (m ++ zeros k) ≡ take n m ++ zeros (n - length (take n m))
take-append_zeros n k [] h = take-zeros n k h ∙ sym (nothing_taken n)
take-append_zeros zero k (b ∷ m) h = sym (zeros_of (0 - 0) (0) (omega arith))
take-append_zeros (suc n) k (b ∷ m) h =
    ap (λ t. b ∷ t)
      (take-append_zeros n k m (omega arith)
        ∙ ap (λ z. take n m ++ z)
            (zeros_of (n - length (take n m)) (suc n - suc (length (take n m))) (omega arith)))

drop-append_zeros :
    (n k : ℕ) (m : Bytes) → drop n (m ++ zeros k) ≡ drop n m ++ zeros (k - (n - length m))
drop-append_zeros n k [] =
    drop-zeros n k ∙ zeros_of (k - n) (k - (n - 0)) (omega arith) ∙ sym (nothing_left n _)
drop-append_zeros zero k (b ∷ m) =
    ap (λ z. (b ∷ m) ++ z) (zeros_of (k) (k - (0 - suc (length m))) (omega arith))
drop-append_zeros (suc n) k (b ∷ m) =
    drop-append_zeros n k m
    ∙ ap (λ z. drop n m ++ z)
        (zeros_of (k - (n - length m)) (k - (suc n - suc (length m))) (omega arith))

append_zeros : (m : Bytes) (j k : ℕ) → (m ++ zeros j) ++ zeros k ≡ m ++ zeros (j + k)
append_zeros [] zero k = zeros_of (k) (0 + k) (omega arith)
append_zeros [] (suc j) k =
    ap (λ t. 0 ∷ t) (append_zeros [] j k) ∙ zeros_of (suc (j + k)) (suc j + k) (omega arith)
append_zeros (b ∷ m) j k = ap (λ t. b ∷ t) (append_zeros m j k)

-- Zeros behind a text do not change its first blocks.
pub blocks-append_zeros : (k j : ℕ) (m : Bytes) → blocks k (m ++ zeros j) ≡ blocks k m
unfolding blocks
blocks-append_zeros zero j m = refl
blocks-append_zeros (suc k) j m =
    ap₂ ◌∷◌
      (ap (take 16) (append_zeros m j 16)
        ∙ take-append_zeros 16 (j + 16) m (omega arith)
        ∙ sym (take-append_zeros 16 16 m (omega arith)))
      (ap (blocks k) (drop-append_zeros 16 j m)
        ∙ blocks-append_zeros k (j - (16 - length m)) (drop 16 m))

-- A round chains a block.
mac_rounds-cons :
    (fuel : ℕ) (block : CipherBlock) (y : Bytes) (b : ℕ) (m : Bytes)
    → mac_rounds (suc fuel) block y (b ∷ m) ≡ (
        let y' = block.encrypt (xor_bytes (take 16 ((b ∷ m) ++ zeros 16)) y) in
        if leb (length (b ∷ m)) 16 then y' else mac_rounds fuel block y' (drop 16 (b ∷ m)))
unfolding mac_rounds
mac_rounds-cons fuel block y b m =
    ap
      (λ t.
        let y' = block.encrypt (xor_bytes t y) in
        if leb (length (b ∷ m)) 16 then y' else mac_rounds fuel block y' (drop 16 (b ∷ m)))
      (sym (take-append_zeros 16 16 (b ∷ m) (omega arith)))

-- `ccmCbcMacUpdate` chains the blocks.
mac_rounds-blocks :
    (fuel k : ℕ) (block : CipherBlock) (y m : Bytes)
    → length m ≤ fuel
    → k ≡ (length m + 15) / 16
    → mac_rounds fuel block y m ≡ cbc_mac block y (blocks k m)
unfolding mac_rounds blocks cbc_mac
mac_rounds-blocks zero zero block y [] h e = refl
mac_rounds-blocks (suc fuel) zero block y [] h e = refl
mac_rounds-blocks fuel (suc k) block y [] h e = absurd (omega arith)
mac_rounds-blocks zero k block y (b ∷ m) h e = absurd (omega arith)
mac_rounds-blocks (suc fuel) zero block y (b ∷ m) h e = absurd (omega arith)
mac_rounds-blocks (suc fuel) (suc k) block y (b ∷ m) h e =
    mac_rounds-cons fuel block y b m ∙ elim (Bool-cases (leb (length (b ∷ m)) 16)) [
      | inl s ↦ rw s (last k (omega (arith, leb→le (length (b ∷ m)) 16 s)))
      | inr s ↦ rw s (
          mac_rounds-blocks fuel k block _ (drop 16 (b ∷ m)) (omega (arith, length-drop 16 (b ∷ m)))
            (count (length (drop 16 (b ∷ m))) (length m) k (length-drop 16 (b ∷ m)) s e))
    ]
  where
    last : {y : Bytes} (k : ℕ) → k ≡ 0 → y ≡ cbc_mac block y (blocks k (drop 16 (b ∷ m)))
    last zero e = refl
    last (suc k) e = absurd (omega arith)

    count :
        (n len k : ℕ)
        → n ≡ suc len - 16
        → leb (suc len) 16 ≡ false
        → suc k ≡ (suc len + 15) / 16
        → k ≡ (n + 15) / 16
    count n len k d s e = ground arith

pub ccm_cbc_mac_update-blocks :
    (block : CipherBlock) (y m : Bytes)
    → ccm_cbc_mac_update block y m ≡ cbc_mac block y (all_blocks m)
unfolding ccm_cbc_mac_update
ccm_cbc_mac_update-blocks block y m = mac_rounds-blocks (length m) _ block y m (omega arith) refl
