-- ===== src/Keys/Password.antt =====
-- `CheckRecoveryPassword` and `DeriveRecoveryKey` (keys.go) on whole passwords.
use go_bde.Base.{
  ℕ, suc, ◌+◌, ◌*◌, ◌/◌, ◌%◌, ◌^◌, ◌<◌, ◌≡◌, refl, sym, subst, ap, ap₂, ◌∙◌, ◌↔◌, false, some, List,
  [], ◌∷◌, ◌++◌, arith, length, ◌==◌, ==_iff, lt→ltb, All, map,
}
use go_bde.Base.Bytes.{Bytes, put_le}
use go_bde.Outcome.{Outcome, ok, err, panic, ◌>>◌, password_blocks}
use go_bde.Keys.{
  Hash, split, digit_value, add_digit, digits_value, unsigned, atoi, or_zero, check_block,
  check_blocks, check_recovery_password, key_bytes, derive_recovery_key,
}
use go_bde.Keys.Block.{IsBlock, check_block_iff, guard-inv, guard-intro}

then-inv : (m k : Outcome (Unit {0})) → m >> k ≡ ok tt → (m ≡ ok tt) × (k ≡ ok tt)
then-inv (ok tt) k h = (refl, h)
then-inv (err e) k h = absurd cc
then-inv panic k h = absurd cc

check_blocks_iff : (blocks : List Bytes) → (check_blocks blocks ≡ ok tt) ↔ All IsBlock blocks
unfolding check_blocks
check_blocks_iff [] = (λ h. tt, λ h. refl)
check_blocks_iff (block ∷ blocks) = (
  λ h.
      let parts = then-inv (check_block block) (check_blocks blocks) h in
      ((check_block_iff block).0 parts.0, (check_blocks_iff blocks).0 parts.1),
  λ (b, bs). rw ((check_block_iff block).1 b, (check_blocks_iff blocks).1 bs) refl,
)

-- `CheckRecoveryPassword` accepts a password exactly if it has eight blocks between the '-', each
-- of six bytes that `strconv.Atoi` reads as eleven times a number below 2 ^ 16.
pub check_recovery_password_iff :
    (password : Bytes)
    → (check_recovery_password password ≡ ok tt)
      ↔ ((length (split b'-' password) ≡ 8) × All IsBlock (split b'-' password))
unfolding check_recovery_password
check_recovery_password_iff password =
    let blocks : List Bytes = split b'-' password in
    (
      λ h.
          let parts = guard-inv (length blocks == 8) password_blocks (check_blocks blocks) tt h in
          ((==_iff _ _).0 parts.0, (check_blocks_iff blocks).0 parts.1),
      λ (n, bs).
          guard-intro (length blocks == 8) password_blocks (check_blocks blocks) tt
            ((==_iff _ _).1 n) ((check_blocks_iff blocks).1 bs),
    )

-- Blocks with a separator between them.
unfoldable pub join : ℕ → List Bytes → Bytes
join separator [] = []
join separator (block ∷ []) = block
join separator (block ∷ next ∷ blocks) = block ++ separator ∷ join separator (next ∷ blocks)

abbrev Without : ℕ → Bytes → Type 0
Without separator block = All (λ b. (b == separator) ≡ false) block

split-block :
    (separator : ℕ) (block : Bytes) → Without separator block → split separator block ≡ block ∷ []
unfolding split
split-block separator [] h = refl
split-block separator (b ∷ bs) (h, hs) = rw (h, split-block separator bs hs) refl

split-append :
    (separator : ℕ) (block rest : Bytes)
    → Without separator block
    → split separator (block ++ separator ∷ rest) ≡ block ∷ split separator rest
unfolding split
split-append separator [] rest h = let e = (==_iff separator separator).1 refl in rw e refl
split-append separator (b ∷ bs) rest (h, hs) = rw (h, split-append separator bs rest hs) refl

split-join :
    (separator : ℕ) (block : Bytes) (blocks : List Bytes)
    → All (Without separator) (block ∷ blocks)
    → split separator (join separator (block ∷ blocks)) ≡ block ∷ blocks
unfolding join
split-join separator block [] (h, hs) = split-block separator block h
split-join separator block (next ∷ blocks) (h, hs) =
    split-append separator block (join separator (next ∷ blocks)) h
    ∙ ap (λ t. block ∷ t) (split-join separator next blocks hs)

-- The decimal digits of a number below 10 ^ 6, and a block as it is written down.
abbrev pub figure : ℕ → ℕ
figure d = b'0' + d % 10

abbrev pub five_figures : ℕ → Bytes
five_figures v =
    figure (v / 10000) ∷ figure (v / 1000) ∷ figure (v / 100) ∷ figure (v / 10) ∷ figure v ∷ []

abbrev pub block_text : ℕ → Bytes
block_text n = figure (11 * n / 100000) ∷ five_figures (11 * n)

digit_value-figure : (d : ℕ) → digit_value (figure d) ≡ some (d % 10)
unfolding digit_value
digit_value-figure d = ground arith

digits_value-figure :
    (acc d : ℕ) (bs : Bytes)
    → digits_value acc (figure d ∷ bs) ≡ digits_value (acc * 10 + d % 10) bs
unfolding digits_value add_digit
digits_value-figure acc d bs = rw (digit_value-figure d) refl

digits_value-end : (v : ℕ) → v < 2 ^ 63 → digits_value v [] ≡ some v
unfolding digits_value
digits_value-end v h = rw (lt→ltb _ _ h) refl

digits_value-five_figures :
    (acc v : ℕ) → acc < 10 → digits_value acc (five_figures v) ≡ some (acc * 100000 + v % 100000)
digits_value-five_figures acc v h =
    digits_value-figure acc (v / 10000) _
    ∙ digits_value-figure _ (v / 1000) _
    ∙ digits_value-figure _ (v / 100) _
    ∙ digits_value-figure _ (v / 10) _
    ∙ digits_value-figure _ v []
    ∙ digits_value-end _ (omega arith)
    ∙ ap some (omega arith)

figure-neq : (d k : ℕ) → k < 48 → (figure d == k) ≡ false
figure-neq d k h = ground arith

atoi-block_text : (n : ℕ) → n < 65536 → atoi (block_text n) ≡ some (11 * n)
unfolding atoi unsigned
atoi-block_text n h = rw (figure-neq (11 * n / 100000) b'+' (omega arith)) (
    digits_value-figure 0 (11 * n / 100000) (five_figures (11 * n))
    ∙ digits_value-five_figures (0 * 10 + 11 * n / 100000 % 10) (11 * n) (omega arith)
    ∙ ap some (omega arith))

block_text-IsBlock : (n : ℕ) → n < 65536 → IsBlock (block_text n)
block_text-IsBlock n h = record {
  six = refl;
  value = 11 * n;
  numeric = atoi-block_text n h;
  divisible = omega arith;
  small = omega arith;
}

block_text-Without : (n : ℕ) → Without b'-' (block_text n)
block_text-Without n =
    let at = λ (d : ℕ). figure-neq d b'-' (omega arith) in
    (at _, (at _, (at _, (at _, (at _, (at _, tt))))))

-- The key material of eight numbers.
unfoldable pub concat_le : List ℕ → Bytes
concat_le [] = []
concat_le (n ∷ ns) = put_le 2 n ++ concat_le ns

abbrev Is16Bit : ℕ → Type 0
Is16Bit n = n < 65536

texts-IsBlock : (ns : List ℕ) → All Is16Bit ns → All IsBlock (map block_text ns)
texts-IsBlock [] h = tt
texts-IsBlock (n ∷ ns) (h, hs) = (block_text-IsBlock n h, texts-IsBlock ns hs)

texts-Without : (ns : List ℕ) → All (Without b'-') (map block_text ns)
texts-Without [] = tt
texts-Without (n ∷ ns) = (block_text-Without n, texts-Without ns)

length-texts : (ns : List ℕ) → length (map block_text ns) ≡ length ns
length-texts [] = refl
length-texts (n ∷ ns) = ap suc (length-texts ns)

key_bytes-texts : (ns : List ℕ) → All Is16Bit ns → key_bytes (map block_text ns) ≡ concat_le ns
unfolding key_bytes concat_le
key_bytes-texts [] h = refl
key_bytes-texts (n ∷ ns) (h, hs) =
    ap₂ ◌++◌
      (ap (λ o. put_le 2 (or_zero o / 11)) (atoi-block_text n h) ∙ ap (put_le 2) (omega arith))
      (key_bytes-texts ns hs)

split-texts :
    (ns : List ℕ) → length ns ≡ 8 → split b'-' (join b'-' (map block_text ns)) ≡ map block_text ns
split-texts [] h = absurd (omega arith)
split-texts (n ∷ ns) h = split-join b'-' (block_text n) (map block_text ns) (texts-Without (n ∷ ns))

-- The recovery password of eight 16-bit numbers, six decimal digits of eleven times each with a '-'
-- between the blocks, is accepted, and its key is the hash of the numbers in two bytes each.
pub derive_recovery_key-join :
    (sum256 : Hash) (ns : List ℕ)
    → length ns ≡ 8
    → All Is16Bit ns
    → derive_recovery_key sum256 (join b'-' (map block_text ns)) ≡ ok (sum256 (concat_le ns))
unfolding derive_recovery_key
derive_recovery_key-join sum256 ns len small =
    let s = split-texts ns len in
    let accepted =
      (check_recovery_password_iff (join b'-' (map block_text ns))).1 (
        ap length s ∙ length-texts ns ∙ len,
        subst (All IsBlock) (sym s) (texts-IsBlock ns small),
      ) in
    rw accepted (
      ap (λ blocks. ok (sum256 (key_bytes blocks))) s
      ∙ ap (λ b. ok (sum256 b)) (key_bytes-texts ns small))

-- A block of five digits with a '+' in front is accepted: the sign, which `strconv.Atoi` takes,
-- stands for a digit, if the value of the others is a multiple of eleven.
pub check_block_plus : (n : ℕ) → n < 9091 → check_block (b'+' ∷ five_figures (11 * n)) ≡ ok tt
unfolding atoi unsigned
check_block_plus n h = (check_block_iff (b'+' ∷ five_figures (11 * n))).1 record {
  six = refl;
  value = 11 * n;
  numeric = digits_value-five_figures 0 (11 * n) (omega arith) ∙ ap some (omega arith);
  divisible = omega arith;
  small = omega arith;
}
