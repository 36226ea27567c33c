-- ===== src/Volume/Unlock.antt =====
-- The unlock paths of `BDE` (bde.go). An unlock returns the volume with its new key, and its outcome.
pub mod Trace
pub mod Sealed
pub mod Password
pub mod Plain
use go_bde.Base.{
  ℕ, ◌/◌, ◌%◌, ◌+◌, Bool, true, false, ◌&&◌, ◌||◌, Option, none, some, List, [], ◌∷◌, ◌++◌, leb,
  ltb, ◌==◌, if◌then◌else◌, take, drop,
}
use go_bde.Base.Int.{ℤ, pos}
use go_bde.Base.Bytes.{Bytes, equal}
use go_bde.Outcome.{
  Error, Outcome, ok, err, panic, ◌>>=◌, ◌>>◌, guard, key_validation_failed, fvek_not_found,
  unsupported_cipher_type, invalid_fvek_datum, clear_vmk_not_found, clear_key_not_implemented,
  startup_key_not_found, startup_info_unreadable, no_matching_vmk, external_key_not_implemented,
  no_vmk_with_identifier, no_compatible_vmk, stretch_key_not_found, stretch_salt_unreadable,
  encrypted_key_not_found, unexpected_key_type, no_decrypted_key,
}
use go_bde.Reader.{ReaderAt}
use go_bde.Types.Const.{
  key_type_vmk, type_stretch_key, type_aes_ccm_encrypted_key, role_startup_key, type_external_info,
}
use go_bde.Datum.{Datum, payload, properties}
use go_bde.Datum.Fields.{get_stretch_key, get_vmk_guid, get_external_guid}
use go_bde.Validation.{Validation}
use go_bde.Dataset.{
  Dataset, Information, is_valid, first, find_fvek, find_property, find_datum, find_clear_vmk,
  find_external_vmk, find_recovery_vmk, find_passphrase_vmk, new_dataset,
}
use go_bde.Cipher.{NewCipher}
use go_bde.Cipher.Ccm.{NewCtr}
use go_bde.Unbox.{unbox, get_key}
use go_bde.Keys.{Hash, stretch, derive_recovery_key, derive_user_key}
use go_bde.Volume.{Bde}

-- What other packages give: `aes.NewCipher`, `cipher.NewCTR`, `sha256.Sum256` and `utf16.Encode`.
pub record Packages : Type 0 where
  pub new_cipher : NewCipher
  pub new_ctr : NewCtr
  pub sum256 : Hash
  pub utf16_encode : Bytes → List ℕ

-- `if x == nil { return ..., err }`
abbrev pub require {ℓ} : {A : Type ℓ} → Error → Option A → Outcome A
require e none = err e
require e (some a) = ok a

-- `CheckIntegrity`
unfoldable pub check_datum : Packages → Bytes → Bytes → Bool → Option Datum → Bool
check_datum p key buf valid none = valid
check_datum p key buf valid (some d) = elim (unbox p.new_cipher p.new_ctr key d) [
  | ok u ↦ equal (p.sum256 buf) (payload u)
  | err e ↦ false
  | panic ↦ false
]

unfoldable pub check_validation : Packages → Bytes → Bool → Option Validation → Option Bytes → Bool
unfolding check_datum
check_validation p key valid none buf = valid
check_validation p key valid (some v) none = valid
check_validation p key valid (some v) (some buf) = check_datum p key buf valid v.integrity_check

unfoldable pub check_integrity : Packages → Information → Bytes → Bool
unfolding check_validation
check_integrity p i key = check_validation p key (is_valid i) i.validation i.buf

-- The key types of `CipherMap`.
unfoldable pub in_cipher_map : ℕ → Bool
in_cipher_map typ = leb 0x8000 typ && leb typ 0x8005

abbrev pub Attempt : Type 0
Attempt = Bde × Outcome (Unit {0})

-- The key is stored before its type is looked up.
unfoldable pub store_fvek : Bde → Option (ℕ × ℕ × Bytes) → Attempt
unfolding in_cipher_map
store_fvek b none = (b, err invalid_fvek_datum)
store_fvek b (some (typ, flags, key)) = (
  record b { fvek = some key; fvek_type = typ },
  guard (in_cipher_map typ) unsupported_cipher_type,
)

unfoldable pub store_unboxed : Bde → Outcome Datum → Attempt
unfolding store_fvek
store_unboxed b (ok d) = store_fvek b (get_key d)
store_unboxed b (err e) = (b, err e)
store_unboxed b panic = (b, panic)

-- `Unlock`
unfoldable pub unbox_fvek : Packages → Dataset → Bytes → Outcome Datum
unbox_fvek p ds key =
    require fvek_not_found (find_fvek ds) >>= λ d. unbox p.new_cipher p.new_ctr key d

unfoldable pub unlock : Packages → Bde → Bytes → Attempt
unfolding check_integrity unbox_fvek store_unboxed
unlock p b key = store_unboxed b (
    guard (check_integrity p b.information key) key_validation_failed
    >> unbox_fvek p b.information.dataset key)

-- `decryptVmkWithUserKey`
unfoldable pub vmk_key : Option (ℕ × ℕ × Bytes) → Outcome Bytes
vmk_key none = err no_decrypted_key
vmk_key (some (typ, flags, key)) = if typ == key_type_vmk then ok key else err unexpected_key_type

unfoldable pub stretched_key : Packages → Datum → Bytes → Outcome Bytes
stretched_key p vmk user_key =
    require stretch_key_not_found (first (find_property type_stretch_key (properties vmk))) >>= λ d.
    require stretch_salt_unreadable (get_stretch_key d) >>= λ (typ, flags, salt).
    stretch p.sum256 user_key salt (pos 0)

unfoldable pub decrypt_vmk_with_user_key : Packages → Datum → Bytes → Outcome Bytes
unfolding stretched_key vmk_key
decrypt_vmk_with_user_key p vmk user_key = stretched_key p vmk user_key >>= λ key.
    require encrypted_key_not_found
      (first (find_property type_aes_ccm_encrypted_key (properties vmk)))
    >>= λ d. unbox p.new_cipher p.new_ctr key d >>= λ u. vmk_key (get_key u)

unfoldable pub unlock_with : Packages → Bde → Outcome Bytes → Attempt
unfolding unlock
unlock_with p b (ok key) = unlock p b key
unlock_with p b (err e) = (b, err e)
unlock_with p b panic = (b, panic)

-- `fmt.Sprintf("%x-%x-%x-%x-%x", ...)` of the bytes of a GUID.
abbrev pub hex_digit : ℕ → ℕ
hex_digit d = if ltb d 10 then b'0' + d else 87 + d

unfoldable pub hex : Bytes → Bytes
hex [] = []
hex (b ∷ bytes) = hex_digit (b / 16) ∷ hex_digit (b % 16) ∷ hex bytes

unfoldable pub guid_string : Bytes → Bytes
unfolding hex
guid_string g =
    hex (take 4 g)
    ++ b'-' ∷ hex (take 2 (drop 4 g))
    ++ b'-' ∷ hex (take 2 (drop 6 g))
    ++ b'-' ∷ hex (take 2 (drop 8 g))
    ++ b'-' ∷ hex (take 6 (drop 10 g))

-- The VMK with the identifier, if there is one.
unfoldable pub has_identifier : Bytes → Datum → Bool
unfolding guid_string
has_identifier identifier vmk = elim (get_vmk_guid vmk) [
  | none ↦ false
  | some g ↦ equal (guid_string g) identifier
]

unfoldable pub try_identified : Packages → Bde → Bytes → Bytes → List Datum → Attempt
unfolding has_identifier decrypt_vmk_with_user_key unlock_with
try_identified p b user_key identifier [] = (b, err no_vmk_with_identifier)
try_identified p b user_key identifier (vmk ∷ vmks) =
    let rest = try_identified p b user_key identifier vmks in
    if has_identifier identifier vmk
    then unlock_with p b (decrypt_vmk_with_user_key p vmk user_key)
    else rest

-- After a candidate: the first that unlocks ends the loop.
unfoldable pub after_candidate : Attempt → (Bde → Error → Attempt) → Attempt
after_candidate (b, ok u) again = (b, ok u)
after_candidate (b, err e) again = again b e
after_candidate (b, panic) again = (b, panic)

unfoldable pub try_all : Packages → Bytes → Bde → Error → List Datum → Attempt
unfolding decrypt_vmk_with_user_key unlock_with after_candidate
try_all p user_key b last_err [] = (b, err last_err)
try_all p user_key b last_err (vmk ∷ vmks) =
    after_candidate (unlock_with p b (decrypt_vmk_with_user_key p vmk user_key))
      (λ b' e. try_all p user_key b' e vmks)

-- `unlockWithUserKey`; an empty identifier asks for every candidate.
unfoldable pub unlock_with_user_key : Packages → Bde → List Datum → Bytes → Bytes → Attempt
unfolding try_all try_identified
unlock_with_user_key p b vmks user_key [] = try_all p user_key b no_compatible_vmk vmks
unlock_with_user_key p b vmks user_key (c ∷ identifier) =
    try_identified p b user_key (c ∷ identifier) vmks

unfoldable pub unlock_recovered : Packages → Bde → Bytes → Outcome Bytes → Attempt
unfolding unlock_with_user_key
unlock_recovered p b identifier (ok key) =
    unlock_with_user_key p b (find_recovery_vmk b.information.dataset) key identifier
unlock_recovered p b identifier (err e) = (b, err e)
unlock_recovered p b identifier panic = (b, panic)

unfoldable pub unlock_with_recovery_password : Packages → Bde → Bytes → Bytes → Attempt
unfolding unlock_recovered
unlock_with_recovery_password p b password identifier =
    unlock_recovered p b identifier (derive_recovery_key p.sum256 password)

unfoldable pub unlock_with_passphrase : Packages → Bde → Bytes → Bytes → Attempt
unfolding unlock_with_user_key
unlock_with_passphrase p b passphrase identifier =
    unlock_with_user_key p b (find_passphrase_vmk b.information.dataset)
      (derive_user_key p.sum256 p.utf16_encode passphrase) identifier

-- `UnlockWithClearKey`, of which only the lookup is implemented.
unfoldable pub unlock_with_clear_key : Bde → Attempt
unlock_with_clear_key b = (
  b,
  require clear_vmk_not_found (find_clear_vmk b.information.dataset) >>= λ d.
      err clear_key_not_implemented,
)

-- `UnlockWithExternalKey`, of which only the lookup of the VMK of a startup key file is implemented.
unfoldable pub has_guid : Bytes → Datum → Bool
has_guid guid vmk = elim (get_vmk_guid vmk) [ none ↦ false | some g ↦ equal g guid ]

unfoldable pub first_with_guid : Bytes → List Datum → Option Datum
unfolding has_guid
first_with_guid guid [] = none
first_with_guid guid (vmk ∷ vmks) =
    let rest = first_with_guid guid vmks in if has_guid guid vmk then some vmk else rest

unfoldable pub unlock_with_external_key : Bde → ReaderAt → ℤ → Attempt
unfolding first_with_guid
unlock_with_external_key b bek offset = (
  b,
  new_dataset bek offset >>= λ ds.
      require startup_key_not_found (first (find_datum role_startup_key type_external_info ds))
      >>= λ d. require startup_info_unreadable (get_external_guid d) >>= λ guid.
          require no_matching_vmk (first_with_guid guid (find_external_vmk b.information.dataset))
          >>= λ vmk. err external_key_not_implemented,
)
