-- ===== src/Tests/Passwords.antt =====
-- Recovery passwords.
use go_bde.Base.{ℕ, ◌≡◌, refl, ◌↔◌, List, [], ◌∷◌, arith, length, All, map}
use go_bde.Base.Bytes.{Bytes}
use go_bde.Outcome.{ok}
use go_bde.Keys.{check_block, check_recovery_password, derive_recovery_key, split}
use go_bde.Keys.Block.{IsBlock, check_block_iff}
use go_bde.Keys.Password.{
  check_recovery_password_iff, join, block_text, concat_le, derive_recovery_key-join, five_figures,
  check_block_plus,
}

abbrev numbers : List ℕ
numbers = 0 ∷ 1 ∷ 65535 ∷ 4660 ∷ 22136 ∷ 7 ∷ 9 ∷ 12345 ∷ []

abbrev password : Bytes
unfolding join
password = join b'-' (map block_text numbers)

accept_password : check_recovery_password password ≡ ok tt
unfolding check_recovery_password password
accept_password = refl

check_recovery_password_iff_example :
    (check_recovery_password password ≡ ok tt)
    ↔ ((length (split b'-' password) ≡ 8) × All IsBlock (split b'-' password))
check_recovery_password_iff_example = check_recovery_password_iff password

check_block_iff_example : (check_block (block_text 4660) ≡ ok tt) ↔ IsBlock (block_text 4660)
check_block_iff_example = check_block_iff (block_text 4660)

derive_recovery_key-join_example :
    derive_recovery_key (λ b. b) (join b'-' (map block_text numbers)) ≡ ok (concat_le numbers)
derive_recovery_key-join_example =
    derive_recovery_key-join (λ b. b) numbers refl
      (
        omega arith,
        (
          omega arith,
          (
            omega arith,
            (omega arith, (omega arith, (omega arith, (omega arith, (omega arith, tt))))),
          ),
        ),
      )

-- "+00121"
check_block_plus_example : check_block (b'+' ∷ five_figures 121) ≡ ok tt
check_block_plus_example = check_block_plus 11 (omega arith)
