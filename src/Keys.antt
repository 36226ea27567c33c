-- ===== src/Keys.antt =====
-- keys.go: keys from recovery passwords, passphrases and the stretching of hashes. SHA-256 and
-- `utf16.Encode` are not part of the repository, so they are parameters.
pub mod Block
pub mod Password
use go_bde.Base.{
  ℕ, zero, suc, ◌+◌, ◌-◌, ◌*◌, ◌/◌, ◌%◌, ◌^◌, Bool, true, false, ◌&&◌, Option, none, some, List, [],
  ◌∷◌, ◌++◌, length, ltb, leb, ◌==◌, if◌then◌else◌, replicate,
}
use go_bde.Base.Int.{ℤ, pos, negsuc}
use go_bde.Base.Bytes.{Bytes, put_le}
use go_bde.Outcome.{
  Error, Outcome, ok, err, ◌>>=◌, ◌>>◌, guard, password_blocks, password_non_numeric,
  password_not_divisible, password_block_too_large, password_block_length, password_checksum,
  invalid_password_len, invalid_salt_len,
}

abbrev pub Hash : Type 0
Hash = Bytes → Bytes

-- `strings.Split` at one byte.
abbrev pub onto_first : ℕ → List Bytes → List Bytes
onto_first b [] = (b ∷ []) ∷ []
onto_first b (block ∷ blocks) = (b ∷ block) ∷ blocks

unfoldable pub split : ℕ → Bytes → List Bytes
split separator [] = [] ∷ []
split separator (b ∷ bs) =
    let rest = split separator bs in if b == separator then [] ∷ rest else onto_first b rest

-- `strconv.Atoi` of a string without a '-': a '+' may stand in front of the digits, of which there is
-- one at least; a value beyond an int is an error.
unfoldable pub digit_value : ℕ → Option ℕ
digit_value b = if leb b'0' b && leb b b'9' then some (b - b'0') else none

unfoldable pub add_digit : ℕ → Option ℕ → (ℕ → Option ℕ) → Option ℕ
add_digit acc none rest = none
add_digit acc (some d) rest = rest (acc * 10 + d)

unfoldable pub digits_value : ℕ → Bytes → Option ℕ
unfolding digit_value add_digit
digits_value acc [] = if ltb acc (2 ^ 63) then some acc else none
digits_value acc (b ∷ bs) = add_digit acc (digit_value b) (λ n. digits_value n bs)

unfoldable pub unsigned : Bytes → Option ℕ
unfolding digits_value
unsigned [] = none
unsigned (b ∷ bs) = digits_value 0 (b ∷ bs)

unfoldable pub atoi : Bytes → Option ℕ
unfolding unsigned
atoi [] = none
atoi (b ∷ bs) = if b == b'+' then unsigned bs else unsigned (b ∷ bs)

-- `value, _ := strconv.Atoi(...)`
abbrev pub or_zero : Option ℕ → ℕ
or_zero none = 0
or_zero (some n) = n

-- The digit of a rune, 0 if it is none.
unfoldable pub digit : ℕ → ℕ
unfolding digit_value
digit c = or_zero (digit_value c)

-- `(a - b) % 11`, which has the sign of a - b, and 11 more if that is negative.
unfoldable pub checksum_of : ℕ → ℕ → ℕ
checksum_of a b =
    if leb b a then (a - b) % 11 else if (b - a) % 11 == 0 then 0 else 11 - (b - a) % 11

-- The last two checks of a block.
unfoldable pub check_digits : Bytes → Outcome (Unit {0})
unfolding checksum_of digit
check_digits (c0 ∷ c1 ∷ c2 ∷ c3 ∷ c4 ∷ c5 ∷ []) =
    guard (checksum_of (digit c0 + digit c2 + digit c4) (digit c1 + digit c3) == digit c5)
      password_checksum
check_digits block = err password_block_length

unfoldable pub check_value : Bytes → Option ℕ → Outcome (Unit {0})
unfolding check_digits
check_value block none = err password_non_numeric
check_value block (some value) =
    guard (value % 11 == 0) password_not_divisible
    >> (guard (ltb value 720896) password_block_too_large >> check_digits block)

-- A round of the loop of `CheckRecoveryPassword`.
unfoldable pub check_block : Bytes → Outcome (Unit {0})
unfolding atoi check_value
check_block block = check_value block (atoi block)

unfoldable pub check_blocks : List Bytes → Outcome (Unit {0})
unfolding check_block
check_blocks [] = ok tt
check_blocks (block ∷ blocks) = check_block block >> check_blocks blocks

unfoldable pub check_recovery_password : Bytes → Outcome (Unit {0})
unfolding split check_blocks
check_recovery_password password =
    let blocks = split b'-' password in
    guard (length blocks == 8) password_blocks >> check_blocks blocks

-- The 16 bytes that `DeriveRecoveryKey` hashes.
unfoldable pub key_bytes : List Bytes → Bytes
unfolding atoi put_le
key_bytes [] = []
key_bytes (block ∷ blocks) = put_le 2 (or_zero (atoi block) / 11) ++ key_bytes blocks

unfoldable pub derive_recovery_key : Hash → Bytes → Outcome Bytes
unfolding check_recovery_password key_bytes
derive_recovery_key sum256 password =
    check_recovery_password password >> ok (sum256 (key_bytes (split b'-' password)))

-- `UTF16LEEncode` of the units that `utf16.Encode` gives, and `DeriveUserKey`.
unfoldable pub utf16_le : List ℕ → Bytes
unfolding put_le
utf16_le [] = []
utf16_le (unit ∷ units) = put_le 2 unit ++ utf16_le units

unfoldable pub derive_user_key : Hash → (Bytes → List ℕ) → Bytes → Bytes
unfolding utf16_le
derive_user_key sum256 utf16_encode password = sum256 (sum256 (utf16_le (utf16_encode password)))

-- The rounds of `Stretch` from round i on, with the hash so far.
unfoldable pub stretch_rounds : Hash → Bytes → Bytes → ℕ → ℕ → Bytes → Bytes
unfolding put_le
stretch_rounds sum256 password salt zero i hash = hash
stretch_rounds sum256 password salt (suc rounds) i hash =
    stretch_rounds sum256 password salt rounds (suc i)
      (sum256 (hash ++ password ++ salt ++ put_le 8 i))

-- 0 stands for the default number of rounds; a negative number gives none.
unfoldable pub round_count : ℤ → ℕ
round_count (pos zero) = 0x100000
round_count (pos (suc n)) = suc n
round_count (negsuc n) = 0

unfoldable pub stretch : Hash → Bytes → Bytes → ℤ → Outcome Bytes
unfolding stretch_rounds round_count
stretch sum256 password salt rounds =
    guard (length password == 32) invalid_password_len
    >> (guard (length salt == 16) invalid_salt_len
        >> ok (stretch_rounds sum256 password salt (round_count rounds) 0 (replicate {A = ℕ} 32 0)))
