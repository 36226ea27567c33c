-- ===== src/Unbox.antt =====
-- `Unbox` and `GetKey` (information.go): the keys inside of encrypted datums, and of key datums.
pub mod Sealed
use go_bde.Base.{
  ℕ, ◌+◌, ◌%◌, ◌^◌, Bool, true, false, Option, none, some, List, [], ◌∷◌, ◌++◌, length, leb, ltb,
  ◌==◌, if◌then◌else◌, drop,
}
use go_bde.Base.Bytes.{Bytes, put_le}
use go_bde.Outcome.{
  Error, Outcome, ok, err, ◌>>=◌, ◌>>◌, guard, not_aes_ccm, empty_ciphertext, invalid_key_container,
}
use go_bde.Types.{le_at, FveDatum, Structure, key, aes_ccm}
use go_bde.Types.Const.{role_property, type_key, type_aes_ccm_encrypted_key}
use go_bde.Datum.{Datum, datum, nil, header, payload, structure}
use go_bde.Cipher.{NewCipher}
use go_bde.Cipher.Ccm.{NewCtr, ccm_decrypt}

-- The nonce of a datum: 8 bytes of its date, 4 of its counter.
unfoldable pub datum_nonce : ℕ → ℕ → Bytes
unfolding put_le
datum_nonce date counter = put_le 8 date ++ put_le 4 counter

-- The date, the counter and the MAC behind the header.
unfoldable pub ccm_fields : Structure → Option (ℕ × ℕ × Bytes)
ccm_fields (aes_ccm date counter mac) = some (date, counter, mac)
ccm_fields s = none

-- The key datum that `Unbox` makes of a plaintext: the encryption method at 8, the key behind 12 bytes.
unfoldable pub key_container : Bytes → Outcome Datum
unfolding le_at
key_container plain =
    let key_data = drop 12 plain in
    guard (leb 12 (length plain)) invalid_key_container
    >> ok (
        datum
          record {
            size = (12 + length key_data) % 2 ^ 16;
            role = role_property;
            typ = type_key;
            flags = 0;
          }
          key_data (key (le_at 8 4 plain % 2 ^ 16) 0) nil)

-- With the structure at hand.
unfoldable pub unbox_fields :
    NewCipher → NewCtr → Bytes → Bytes → Option (ℕ × ℕ × Bytes) → Outcome Datum
unfolding datum_nonce key_container
unbox_fields new_cipher new_ctr k ciphertext none = err not_aes_ccm
unbox_fields new_cipher new_ctr k ciphertext (some (date, counter, mac)) =
    guard (ltb 0 (length ciphertext)) empty_ciphertext
    >> (ccm_decrypt new_cipher new_ctr k (datum_nonce date counter) ciphertext mac [] >>= λ plain.
        key_container plain)

unfoldable pub unbox : NewCipher → NewCtr → Bytes → Datum → Outcome Datum
unfolding ccm_fields unbox_fields
unbox new_cipher new_ctr k d =
    guard ((header d).typ == type_aes_ccm_encrypted_key) not_aes_ccm
    >> unbox_fields new_cipher new_ctr k (payload d) (ccm_fields (structure d))

-- The key type, the flags and the key of a key datum.
unfoldable pub key_fields : Structure → Bytes → Option (ℕ × ℕ × Bytes)
key_fields (key typ flags) bytes = some (typ, flags, bytes)
key_fields s bytes = none

unfoldable pub get_key : Datum → Option (ℕ × ℕ × Bytes)
unfolding key_fields
get_key d = if (header d).typ == type_key then key_fields (structure d) (payload d) else none
