-- ===== src/Cipher/Xts/Tweak.antt =====
-- `gfMulX` (xts.go), with the tweak as a little-endian number.
use Prim.Native.Nat.{bit_xor}
use native.Mathlib.Nat.{pow-suc}
use go_bde.Base.{
  ℕ, zero, suc, ◌+◌, ◌*◌, ◌/◌, ◌^◌, ◌<◌, ◌-◌, ◌≡◌, refl, ap, ◌∙◌, [], ◌∷◌, arith, ltb, length, All,
  if◌then◌else◌, inl, inr, Bool-cases, ◌==◌, ltb_of_le,
}
use go_bde.Base.Bytes.{Bytes, IsByte, le_value}
use go_bde.Base.Bits.{shift_or, bit_xor_low, bit_xor-lt-pow}
use go_bde.Cipher.{IsBlock}
use go_bde.Cipher.Xts.{shift_left, reduce, gf_mul_x}

le_value-lt-pow : (bs : Bytes) → All IsByte bs → le_value bs < 256 ^ length bs
unfolding le_value
le_value-lt-pow [] h = omega arith
le_value-lt-pow (b ∷ bs) (h, hs) = omega (arith, pow-suc 256 (length bs), le_value-lt-pow bs hs)

-- The shift keeps the length, leaves bytes, and doubles the value: what does not fit is the carry.
shift_left_lem :
    (carry : ℕ) (bs : Bytes)
    → carry < 2
    → All IsByte bs
    → (length (shift_left carry bs).0 ≡ length bs)
      × All IsByte (shift_left carry bs).0
      × ((shift_left carry bs).1 < 2)
      × (le_value (shift_left carry bs).0 + 256 ^ length bs * (shift_left carry bs).1
          ≡ 2 * le_value bs + carry)
unfolding shift_left le_value
shift_left_lem carry [] hc h = (refl, tt, hc, omega arith)
shift_left_lem carry (b ∷ bs) hc (h, hs) =
    let (len, bytes, out, value) = shift_left_lem (b / 2 ^ 7) bs (omega arith) hs in
    (
      ap suc len,
      (omega (arith, shift_or b carry h hc), bytes),
      out,
      omega (
        arith,
        value,
        shift_or b carry h hc,
        ap (λ (t : ℕ). t * (shift_left (b / 2 ^ 7) bs).1) (pow-suc 256 (length bs)),
      ),
    )

-- The number that stands for 2 ^ 128 times the carry is folded in as x ^ 7 + x ^ 2 + x + 1.
le_value-reduce :
    (bs : Bytes) (carry : ℕ)
    → 0 < length bs
    → All IsByte bs
    → le_value (reduce bs carry) ≡ (if carry == 0 then le_value bs else bit_xor (le_value bs) 0x87)
unfolding reduce le_value
le_value-reduce [] carry pos h = absurd (omega arith)
le_value-reduce (b ∷ bs) carry pos (h, hs) =
    ground (arith, bit_xor_low 8 b (le_value bs) 0x87 h (omega arith))

IsBlock-reduce : (bs : Bytes) (carry : ℕ) → IsBlock bs → IsBlock (reduce bs carry)
unfolding reduce
IsBlock-reduce [] carry h = h
IsBlock-reduce (b ∷ bs) carry (len, (h, hs)) = elim (Bool-cases (carry == 0)) [
  | inl e ↦ rw e (len, (h, hs))
  | inr e ↦ rw e (len, (bit_xor-lt-pow 8 b 0x87 h (omega arith), hs))
]

pub gf_mul_x-IsBlock : (tweak : Bytes) → IsBlock tweak → IsBlock (gf_mul_x tweak)
unfolding gf_mul_x
gf_mul_x-IsBlock tweak (len, h) =
    let (same, bytes, out, value) = shift_left_lem 0 tweak (omega arith) h in
    IsBlock-reduce _ _ (same ∙ len, bytes)

folded :
    (n s c : ℕ)
    → s < 2 ^ 128
    → c < 2
    → s + 2 ^ 128 * c ≡ 2 * n + 0
    → (if c == 0 then s else bit_xor s 0x87)
      ≡ (if ltb (2 * n) (2 ^ 128) then 2 * n else bit_xor (2 * n - 2 ^ 128) 0x87)
folded n s zero hs hc e = ground arith
folded n s (suc zero) hs hc e =
    let rest : s ≡ 2 * n - 2 ^ 128 = omega arith in
    rw (ltb_of_le (2 * n) (2 ^ 128) (omega arith), rest)
folded n s (suc (suc c)) hs hc e = absurd (omega arith)

-- On 16 bytes with the little-endian value n, `gfMulX` gives 16 bytes: with the value 2 n if that
-- is below 2 ^ 128, and else with (2 n - 2 ^ 128) xor 0x87.
pub le_value-gf_mul_x :
    (tweak : Bytes)
    → IsBlock tweak
    → IsBlock (gf_mul_x tweak)
      × (le_value (gf_mul_x tweak) ≡ (
          if ltb (2 * le_value tweak) (2 ^ 128)
          then 2 * le_value tweak
          else bit_xor (2 * le_value tweak - 2 ^ 128) 0x87))
le_value-gf_mul_x tweak (len, h) =
    let (same, bytes, out, value) = shift_left_lem 0 tweak (omega arith) h in
    let s : Bytes = (shift_left 0 tweak).0 in
    let small : le_value s < 2 ^ 128 = rw (same ∙ len) at (le_value-lt-pow s bytes) in
    (
      gf_mul_x-IsBlock tweak (len, h),
      unfold gf_mul_x in
          (le_value-reduce s _ (omega arith) bytes
            ∙ folded (le_value tweak) (le_value s) _ small out (rw len at value)),
    )
