-- ===== src/Base/Bits.antt =====
-- Exclusive or on numbers and byte strings, and tables over a byte.
use Prim.Native.Nat.{
  ℕ, zero, suc, ◌+◌, ◌-◌, ◌*◌, ◌/◌, ◌%◌, ◌^◌, ◌≤◌, ◌<◌, bit_or, bit_xor, digits, bit_xor-bitwise,
  differ,
}
use mathlib.Core.Path.{◌≡◌, refl, ap, ap₂, ◌∙◌}
use mathlib.Core.Bool.{Bool, true, ◌&&◌}
use mathlib.Core.List.{[], ◌∷◌}
use native.Mathlib.Omega.{arith}
use native.Mathlib.Nat.{pow-suc}
use go_bde.Base.Tests.{◌==◌, ==_iff}
use go_bde.Base.Lists.{length, All}
use go_bde.Base.Bytes.{Bytes, IsByte}

-- A test of every number below n, by evaluation.
every : (ℕ → Bool) → ℕ → Bool
every test zero = true
every test (suc n) = every test n && test n

every_at : (test : ℕ → Bool) (n k : ℕ) → every test n ≡ true → k < n → test k ≡ true
unfolding every
every_at test zero k e below = absurd (omega arith)
every_at test (suc n) k e below = ground (arith, every_at test n k)

or_one_table : every (λ b. bit_or (b * 2 % 256) 1 == b * 2 % 256 + 1) 256 ≡ true
unfolding every
or_one_table = refl

or_zero_table : every (λ b. bit_or (b * 2 % 256) 0 == b * 2 % 256) 256 ≡ true
unfolding every
or_zero_table = refl

-- `b << 1 | carry` on a byte.
pub shift_or :
    (b carry : ℕ) → b < 256 → carry < 2 → bit_or (b * 2 % 256) carry ≡ b * 2 % 256 + carry
shift_or b zero h k = (==_iff _ _).0 (every_at _ 256 b or_zero_table h) ∙ omega arith
shift_or b (suc zero) h k = (==_iff _ _).0 (every_at _ 256 b or_one_table h)
shift_or b (suc (suc n)) h k = absurd (omega arith)

differ_digits : (a b : ℕ) → a < 2 → b < 2 → differ a b ≡ (a + b) % 2
differ_digits zero b h k = omega arith
differ_digits (suc zero) zero h k = refl
differ_digits (suc zero) (suc zero) h k = refl
differ_digits (suc zero) (suc (suc b)) h k = absurd (omega arith)
differ_digits (suc (suc a)) b h k = absurd (omega arith)

-- `bit_xor` is a recursion on digits whose fuel is the first number. One unit more changes nothing.
abbrev xor_rounds : ℕ → ℕ → ℕ → ℕ
xor_rounds rounds = digits (λ d. d) differ rounds

xor_rounds-suc : (rounds a b : ℕ) → a ≤ rounds → xor_rounds (suc rounds) a b ≡ xor_rounds rounds a b
xor_rounds-suc zero zero b enough = refl
xor_rounds-suc (suc rounds) zero b enough = refl
xor_rounds-suc zero (suc a) b enough = absurd (omega arith)
xor_rounds-suc (suc rounds) (suc a) b enough =
    ap (λ t. t * 2 + differ (suc a % 2) (b % 2))
      (xor_rounds-suc rounds (suc a / 2) (b / 2) (omega arith))

xor_rounds-spare : (spare a b : ℕ) → xor_rounds (spare + a) a b ≡ bit_xor a b
xor_rounds-spare zero a b = let e : 0 + a ≡ a = omega arith in rw (e, bit_xor-bitwise a b) refl
xor_rounds-spare (suc spare) a b =
    let e : suc spare + a ≡ suc (spare + a) = omega arith in
    rw e (xor_rounds-suc (spare + a) a b (omega arith)) ∙ xor_rounds-spare spare a b

-- Exclusive or, from the lowest digit and the rest.
pub bit_xor_step : (a b : ℕ) → bit_xor a b ≡ bit_xor (a / 2) (b / 2) * 2 + (a + b) % 2
bit_xor_step zero b = omega (arith, bit_xor-bitwise 0 b, bit_xor-bitwise 0 (b / 2))
bit_xor_step (suc a) b =
    let e : a - suc a / 2 + suc a / 2 ≡ a = omega arith in
    let half : xor_rounds a (suc a / 2) (b / 2) ≡ bit_xor (suc a / 2) (b / 2) =
      rw e at (xor_rounds-spare (a - suc a / 2) (suc a / 2) (b / 2)) in
    omega (
      arith,
      half,
      bit_xor-bitwise (suc a) b,
      differ_digits (suc a % 2) (b % 2) (omega arith) (omega arith),
    )

bit_xor_cancel_fuel : (n a b : ℕ) → a ≤ n → b ≤ n → bit_xor (bit_xor a b) b ≡ a
bit_xor_cancel_fuel zero zero zero h k = refl
bit_xor_cancel_fuel zero (suc a) b h k = absurd (omega arith)
bit_xor_cancel_fuel zero zero (suc b) h k = absurd (omega arith)
bit_xor_cancel_fuel (suc n) a b h k =
    let half : bit_xor a b / 2 ≡ bit_xor (a / 2) (b / 2) = omega (arith, bit_xor_step a b) in
    omega (
      arith,
      bit_xor_step a b,
      bit_xor_step (bit_xor a b) b,
      ap (λ (t : ℕ). bit_xor t (b / 2)) half,
      bit_xor_cancel_fuel n (a / 2) (b / 2) (omega arith) (omega arith),
    )

-- Applying the same mask twice gives the number back.
pub bit_xor_cancel : (a b : ℕ) → bit_xor (bit_xor a b) b ≡ a
bit_xor_cancel a b = bit_xor_cancel_fuel (a + b) a b (omega arith) (omega arith)

pub bit_xor-lt-pow : (k a b : ℕ) → a < 2 ^ k → b < 2 ^ k → bit_xor a b < 2 ^ k
bit_xor-lt-pow zero zero zero h k = omega arith
bit_xor-lt-pow zero (suc a) b h k = absurd (omega arith)
bit_xor-lt-pow zero zero (suc b) h k = absurd (omega arith)
bit_xor-lt-pow (suc n) a b h k = omega (
  arith,
  pow-suc 2 n,
  bit_xor_step a b,
  bit_xor-lt-pow n (a / 2) (b / 2) (omega (arith, pow-suc 2 n)) (omega (arith, pow-suc 2 n)),
)

bit_xor-zero_fuel : (n a : ℕ) → a ≤ n → bit_xor a 0 ≡ a
bit_xor-zero_fuel n zero h = refl
bit_xor-zero_fuel zero (suc a) h = absurd (omega arith)
bit_xor-zero_fuel (suc n) (suc a) h =
    omega (arith, bit_xor_step (suc a) 0, bit_xor-zero_fuel n (suc a / 2) (omega arith))

pub bit_xor-zero : (a : ℕ) → bit_xor a 0 ≡ a
bit_xor-zero a = bit_xor-zero_fuel a a (omega arith)

-- A mask below 2 ^ k leaves the digits from k on alone.
pub bit_xor_low :
    (k a v m : ℕ) → a < 2 ^ k → m < 2 ^ k → bit_xor (a + 2 ^ k * v) m ≡ bit_xor a m + 2 ^ k * v
bit_xor_low zero zero v zero h k = omega (arith, bit_xor-zero (0 + 2 ^ 0 * v))
bit_xor_low zero (suc a) v m h k = absurd (omega arith)
bit_xor_low zero zero v (suc m) h k = absurd (omega arith)
bit_xor_low (suc n) a v m h k =
    let double : 2 ^ suc n * v ≡ 2 * (2 ^ n * v) =
      omega (arith, ap (λ (t : ℕ). t * v) (pow-suc 2 n)) in
    let half : (a + 2 ^ suc n * v) / 2 ≡ a / 2 + 2 ^ n * v = omega (arith, double) in
    omega (
      arith,
      double,
      bit_xor_step a m,
      bit_xor_step (a + 2 ^ suc n * v) m,
      ap (λ (t : ℕ). bit_xor t (m / 2)) half,
      bit_xor_low n (a / 2) v (m / 2) (omega (arith, pow-suc 2 n)) (omega (arith, pow-suc 2 n)),
    )

-- `dst[i] = a[i] ^ b[i]`, as far as both reach.
unfoldable pub xor_bytes : Bytes → Bytes → Bytes
xor_bytes [] ys = []
xor_bytes (x ∷ xs) [] = []
xor_bytes (x ∷ xs) (y ∷ ys) = bit_xor x y ∷ xor_bytes xs ys

pub length-xor_bytes :
    (xs ys : Bytes) → length xs ≡ length ys → length (xor_bytes xs ys) ≡ length xs
unfolding xor_bytes
length-xor_bytes [] ys h = refl
length-xor_bytes (x ∷ xs) [] h = absurd (omega arith)
length-xor_bytes (x ∷ xs) (y ∷ ys) h = ap suc (length-xor_bytes xs ys (omega arith))

pub xor_bytes_cancel : (xs ys : Bytes) → length xs ≡ length ys → xor_bytes (xor_bytes xs ys) ys ≡ xs
unfolding xor_bytes
xor_bytes_cancel [] ys h = refl
xor_bytes_cancel (x ∷ xs) [] h = absurd (omega arith)
xor_bytes_cancel (x ∷ xs) (y ∷ ys) h =
    ap₂ ◌∷◌ (bit_xor_cancel x y) (xor_bytes_cancel xs ys (omega arith))

pub xor_bytes-IsByte :
    (xs ys : Bytes) → All IsByte xs → All IsByte ys → All IsByte (xor_bytes xs ys)
unfolding xor_bytes
xor_bytes-IsByte [] ys h k = tt
xor_bytes-IsByte (x ∷ xs) [] h k = tt
xor_bytes-IsByte (x ∷ xs) (y ∷ ys) (h, hs) (k, ks) =
    (bit_xor-lt-pow 8 x y h k, xor_bytes-IsByte xs ys hs ks)
