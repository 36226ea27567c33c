-- ===== src/Keys/Block.antt =====
-- `CheckRecoveryPassword` (keys.go) on one block.
use go_bde.Base.{
  ℕ, ◌+◌, ◌-◌, ◌*◌, ◌%◌, ◌≤◌, ◌<◌, ◌≡◌, refl, sym, ap, subst, ◌∙◌, ◌↔◌, Bool, true, false, Option,
  none, some, [], ◌∷◌, arith, length, ltb, leb, ◌==◌, inl, inr, Bool-cases, Option-cases, ==_iff,
  if◌then◌else◌, lt→ltb, ltb→lt, leb→le,
}
use go_bde.Base.Bytes.{Bytes}
use go_bde.Outcome.{
  password_checksum, password_not_divisible, password_block_too_large, Error, Outcome, ok, err,
  ◌>>◌, guard,
}
use go_bde.Keys.{
  digit_value, add_digit, digits_value, unsigned, atoi, digit, checksum_of, check_digits,
  check_value, check_block,
}

digit-lt : (c : ℕ) → digit c < 10
unfolding digit
digit-lt c = ground arith

some_inj : {a b : ℕ} → some a ≡ some b → a ≡ b
some_inj e = cc

digits_value-cons :
    (acc c v : ℕ) (cs : Bytes)
    → digits_value acc (c ∷ cs) ≡ some v
    → digits_value (acc * 10 + digit c) cs ≡ some v
unfolding digits_value digit
digits_value-cons acc c v cs e = elim (Option-cases (digit_value c)) [
  | inl n ↦ absurd (none-ne-some (sym (ap (λ o. add_digit acc o (λ n. digits_value n cs)) n) ∙ e))
  | inr (d, s) ↦ rw s (sym (ap (λ o. add_digit acc o (λ n. digits_value n cs)) s) ∙ e)
]
  where
    none-ne-some : {a : ℕ} → none ≡ some a → ⊥
    none-ne-some e = cc

digits_value-nil : (acc v : ℕ) → digits_value acc [] ≡ some v → v ≡ acc
unfolding digits_value
digits_value-nil acc v e = ground arith

digits_value-five :
    (acc c1 c2 c3 c4 c5 v : ℕ)
    → digits_value acc (c1 ∷ c2 ∷ c3 ∷ c4 ∷ c5 ∷ []) ≡ some v
    → v
      ≡ acc * 100000
        + digit c1 * 10000
        + digit c2 * 1000
        + digit c3 * 100
        + digit c4 * 10
        + digit c5
digits_value-five acc c1 c2 c3 c4 c5 v e =
    let value = digits_value-nil _ v (
      digits_value-cons _ c5 v _ (
        digits_value-cons _ c4 v _ (
          digits_value-cons _ c3 v _
            (digits_value-cons _ c2 v _ (digits_value-cons acc c1 v _ e))))) in
    omega (arith, value)

-- The value of a block of six bytes; a '+' in front counts as the digit 0.
atoi-six :
    (c0 c1 c2 c3 c4 c5 v : ℕ)
    → atoi (c0 ∷ c1 ∷ c2 ∷ c3 ∷ c4 ∷ c5 ∷ []) ≡ some v
    → v
      ≡ digit c0 * 100000
        + digit c1 * 10000
        + digit c2 * 1000
        + digit c3 * 100
        + digit c4 * 10
        + digit c5
unfolding atoi digit
atoi-six c0 c1 c2 c3 c4 c5 v e = elim (Bool-cases (c0 == b'+')) [
  | inl p ↦
      let plus : digit c0 ≡ 0 = subst (λ c. digit c ≡ 0) (sym ((==_iff c0 b'+').0 p)) zero_plus in
      let value = digits_value-five 0 c1 c2 c3 c4 c5 v (
        sym (
          ap
            (λ b.
              if b
              then unsigned (c1 ∷ c2 ∷ c3 ∷ c4 ∷ c5 ∷ [])
              else unsigned (c0 ∷ c1 ∷ c2 ∷ c3 ∷ c4 ∷ c5 ∷ []))
            p)
        ∙ e) in
      omega (arith, value, plus)
  | inr p ↦
      let value = digits_value-five (0 * 10 + digit c0) c1 c2 c3 c4 c5 v (
        digits_value-cons 0 c0 v (c1 ∷ c2 ∷ c3 ∷ c4 ∷ c5 ∷ []) (
          sym (
            ap
              (λ b.
                if b
                then unsigned (c1 ∷ c2 ∷ c3 ∷ c4 ∷ c5 ∷ [])
                else unsigned (c0 ∷ c1 ∷ c2 ∷ c3 ∷ c4 ∷ c5 ∷ []))
              p)
          ∙ e)) in
      omega (arith, value)
]
  where
    zero_plus : digit b'+' ≡ 0
    zero_plus = refl

checksum_of-congruent :
    (a b m v d : ℕ) → d < 10 → v + a ≡ 11 * m + (b + d) → v % 11 ≡ 0 → checksum_of a b ≡ d
unfolding checksum_of
checksum_of-congruent a b m v d small e h = elim (Bool-cases (leb b a)) [
  | inl p ↦ rw p (let le : b ≤ a = leb→le b a p in omega arith)
  | inr p ↦
      let lt : a < b = gt_of_leb b a p in
      elim (Bool-cases ((b - a) % 11 == 0)) [
        | inl z ↦ rw (p, z) (let n = (==_iff _ _).0 z in omega (arith, n))
        | inr z ↦ rw (p, z) (let n = ne_of_test _ _ z in omega (arith, n))
      ]
]
  where
    gt_of_leb : (x y : ℕ) → leb x y ≡ false → y < x
    gt_of_leb x y q = ground arith

    ne_of_test : (x y : ℕ) → (x == y) ≡ false → x ≡ y → ⊥
    ne_of_test x y q r = ground arith

-- Eleven divides a number exactly if it divides its digits with alternating signs.
checksum_of-digits :
    (d0 d1 d2 d3 d4 d5 v : ℕ)
    → d5 < 10
    → v ≡ d0 * 100000 + d1 * 10000 + d2 * 1000 + d3 * 100 + d4 * 10 + d5
    → v % 11 ≡ 0
    → checksum_of (d0 + d2 + d4) (d1 + d3) ≡ d5
checksum_of-digits d0 d1 d2 d3 d4 d5 v small e h =
    checksum_of-congruent _ _ (9091 * d0 + 909 * d1 + 91 * d2 + 9 * d3 + d4) v d5 small
      (omega (arith, e)) h

-- A number of eleven 16-bit numbers, in six bytes.
pub record IsBlock (block : Bytes) : Type 0 where
  pub six : length block ≡ 6
  pub value : ℕ
  pub numeric : atoi block ≡ some value
  pub divisible : value % 11 ≡ 0
  pub small : value < 720896

pub guard-inv {ℓ} :
    {A : Type ℓ} (b : Bool) (e : Error) (m : Outcome A) (a : A)
    → guard b e >> m ≡ ok a
    → (b ≡ true) × (m ≡ ok a)
guard-inv true e m a h = (refl, h)
guard-inv false e m a h = absurd cc

pub guard-intro {ℓ} :
    {A : Type ℓ} (b : Bool) (e : Error) (m : Outcome A) (a : A)
    → b ≡ true
    → m ≡ ok a
    → guard b e >> m ≡ ok a
guard-intro b e m a t h = rw t h

err-ne-ok : {e : Error} {u : Unit {0}} → err e ≡ ok u → ⊥
err-ne-ok h = cc

check_digits-six : (block : Bytes) → check_digits block ≡ ok tt → length block ≡ 6
unfolding check_digits
check_digits-six [] h = absurd (err-ne-ok h)
check_digits-six (c0 ∷ []) h = absurd (err-ne-ok h)
check_digits-six (c0 ∷ c1 ∷ []) h = absurd (err-ne-ok h)
check_digits-six (c0 ∷ c1 ∷ c2 ∷ []) h = absurd (err-ne-ok h)
check_digits-six (c0 ∷ c1 ∷ c2 ∷ c3 ∷ []) h = absurd (err-ne-ok h)
check_digits-six (c0 ∷ c1 ∷ c2 ∷ c3 ∷ c4 ∷ []) h = absurd (err-ne-ok h)
check_digits-six (c0 ∷ c1 ∷ c2 ∷ c3 ∷ c4 ∷ c5 ∷ []) h = refl
check_digits-six (c0 ∷ c1 ∷ c2 ∷ c3 ∷ c4 ∷ c5 ∷ c6 ∷ cs) h = absurd (err-ne-ok h)

-- The last digit is right already if eleven divides the value.
check_digits-divisible :
    (block : Bytes) (v : ℕ)
    → length block ≡ 6
    → atoi block ≡ some v
    → v % 11 ≡ 0
    → check_digits block ≡ ok tt
unfolding check_digits
check_digits-divisible (c0 ∷ c1 ∷ c2 ∷ c3 ∷ c4 ∷ c5 ∷ []) v six numeric h =
    ap (λ b. guard b password_checksum)
      ((==_iff _ _).1 (
        checksum_of-digits (digit c0) (digit c1) (digit c2) (digit c3) (digit c4) (digit c5) v
          (digit-lt c5) (atoi-six c0 c1 c2 c3 c4 c5 v numeric) h))
check_digits-divisible [] v six numeric h = absurd (omega arith)
check_digits-divisible (c0 ∷ []) v six numeric h = absurd (omega arith)
check_digits-divisible (c0 ∷ c1 ∷ []) v six numeric h = absurd (omega arith)
check_digits-divisible (c0 ∷ c1 ∷ c2 ∷ []) v six numeric h = absurd (omega arith)
check_digits-divisible (c0 ∷ c1 ∷ c2 ∷ c3 ∷ []) v six numeric h = absurd (omega arith)
check_digits-divisible (c0 ∷ c1 ∷ c2 ∷ c3 ∷ c4 ∷ []) v six numeric h = absurd (omega arith)
check_digits-divisible (c0 ∷ c1 ∷ c2 ∷ c3 ∷ c4 ∷ c5 ∷ c6 ∷ cs) v six numeric h =
    absurd (omega arith)

check_value-IsBlock :
    (block : Bytes) (o : Option ℕ) → atoi block ≡ o → check_value block o ≡ ok tt → IsBlock block
unfolding check_value
check_value-IsBlock block none e h = absurd (err-ne-ok h)
check_value-IsBlock block (some v) e h =
    let first = guard-inv (v % 11 == 0) password_not_divisible _ tt h in
    let second = guard-inv (ltb v 720896) password_block_too_large _ tt first.1 in
    record {
      six = check_digits-six block second.1;
      value = v;
      numeric = e;
      divisible = (==_iff _ _).0 first.0;
      small = ltb→lt v 720896 second.0;
    }

-- `CheckRecoveryPassword` accepts a block exactly if it is six bytes that `strconv.Atoi` reads as
-- eleven times a number below 2 ^ 16: the checks of the last digit refuse nothing beyond that.
pub check_block_iff : (block : Bytes) → (check_block block ≡ ok tt) ↔ IsBlock block
unfolding check_block
check_block_iff block = (
  λ h. check_value-IsBlock block (atoi block) refl h,
  λ b.
      rw (b.numeric, check_value)
        (guard-intro _ _ _ tt ((==_iff _ _).1 b.divisible) (
          guard-intro _ _ _ tt (lt→ltb _ _ b.small)
            (check_digits-divisible block b.value b.six b.numeric b.divisible))),
)
