-- ===== src/Outcome.antt =====
-- The ways a Go function of the program ends: a value, an error, or a panic.
pub mod Laws
pub mod Yields
use go_bde.Base.{ℕ, Bool, true, false}

-- `io.EOF` and `io.ErrUnexpectedEOF` are told apart by the program; the other constructors are its
-- own errors, and `io_error` is any other error of the source.
pub data Error : Type 0 where
  eof unexpected_eof : Error
  io_error : ℕ → Error
  invalid_header : Error
  xts_invalid_key_len cbc_invalid_key_len cbc_invalid_sector_size : Error
  ccm_invalid_nonce_len ccm_invalid_tag_len ccm_message_too_large ccm_auth_failed : Error
  aes_key_size : Error
  password_blocks password_non_numeric password_not_divisible : Error
  password_block_too_large password_block_length password_checksum : Error
  invalid_password_len invalid_salt_len : Error
  not_unlocked unsupported_cipher : Error
  key_validation_failed fvek_not_found unsupported_cipher_type invalid_fvek_datum : Error
  clear_vmk_not_found clear_key_not_implemented : Error
  startup_key_not_found startup_info_unreadable no_matching_vmk : Error
  external_key_not_implemented no_vmk_with_identifier no_compatible_vmk : Error
  stretch_key_not_found stretch_salt_unreadable encrypted_key_not_found : Error
  unexpected_key_type no_decrypted_key : Error
  not_aes_ccm empty_ciphertext invalid_key_container : Error
  not_initialized : Error
  seek_end_unsupported invalid_whence negative_offset : Error

pub data Outcome {ℓ} (A : Type ℓ) : Type ℓ where
  ok : A → Outcome A
  err : Error → Outcome A
  panic : Outcome A

infixl 5 ◌>>=◌ ◌>>◌
abbrev pub ◌>>=◌ {ℓ κ} : {A : Type ℓ} {B : Type κ} → Outcome A → (A → Outcome B) → Outcome B
ok a >>= f = f a
err e >>= f = err e
panic >>= f = panic

abbrev pub ◌>>◌ {ℓ} : {B : Type ℓ} → Outcome (Unit {0}) → Outcome B → Outcome B
m >> k = m >>= λ _. k

-- `if !test { return err }`
abbrev pub guard : Bool → Error → Outcome (Unit {0})
guard true e = ok tt
guard false e = err e

-- `if !test { panic(...) }`
abbrev pub assert : Bool → Outcome (Unit {0})
assert true = ok tt
assert false = panic
