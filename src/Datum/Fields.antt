-- ===== src/Datum/Fields.antt =====
-- The getters of `Datum` (information.go): what a datum of the wanted type says. `utf16.Decode` is not
-- part of the repository, so it is a parameter.
use go_bde.Base.{ℕ, ◌+◌, ◌-◌, ◌*◌, ◌%◌, ◌^◌, Option, none, some, List, [], ◌∷◌, ◌==◌, if◌then◌else◌}
use go_bde.Base.Int.{ℤ, int64}
use go_bde.Base.Bytes.{Bytes}
use go_bde.Types.{Structure, stretch_key, use_key, aes_ccm, vmk_info, external_info}
use go_bde.Types.Const.{
  type_unicode, type_stretch_key, type_use_key, type_aes_ccm_encrypted_key,
  type_volume_master_key_info, type_external_info,
}
use go_bde.Datum.{Datum, header, payload, structure}

-- `if d.Type() != typ { return ..., false }`, and then the assertion of the structure's type.
abbrev pub of_type {ℓ} : {A : Type ℓ} → ℕ → Datum → Option A → Option A
of_type typ d found = if (header d).typ == typ then found else none

-- The key type, the flags and the salt.
unfoldable pub stretch_fields : Structure → Option (ℕ × ℕ × Bytes)
stretch_fields (stretch_key typ flags salt) = some (typ, flags, salt)
stretch_fields s = none

unfoldable pub get_stretch_key : Datum → Option (ℕ × ℕ × Bytes)
unfolding stretch_fields
get_stretch_key d = of_type type_stretch_key d (stretch_fields (structure d))

unfoldable pub use_fields : Structure → Option (ℕ × ℕ)
use_fields (use_key typ flags) = some (typ, flags)
use_fields s = none

unfoldable pub get_use_key : Datum → Option (ℕ × ℕ)
unfolding use_fields
get_use_key d = of_type type_use_key d (use_fields (structure d))

-- A FILETIME, 100 ns since 1601, as nanoseconds since 1970.
unfoldable pub unix_nanoseconds : ℕ → ℤ
unix_nanoseconds date = int64 ((date + (2 ^ 64 - 116444736000000000)) % 2 ^ 64 * 100 % 2 ^ 64)

-- The time, the counter, the MAC and the ciphertext.
unfoldable pub ccm_times : Structure → Bytes → Option (ℤ × ℕ × Bytes × Bytes)
unfolding unix_nanoseconds
ccm_times (aes_ccm date counter mac) bytes = some (unix_nanoseconds date, counter, mac, bytes)
ccm_times s bytes = none

unfoldable pub get_aes_ccm_encrypted : Datum → Option (ℤ × ℕ × Bytes × Bytes)
unfolding ccm_times
get_aes_ccm_encrypted d = of_type type_aes_ccm_encrypted_key d (ccm_times (structure d) (payload d))

-- The GUID of a volume master key, a field of what `GetVmkInfo` returns.
unfoldable pub guid_of : Structure → Option Bytes
guid_of (vmk_info guid date unknown protector) = some guid
guid_of s = none

unfoldable pub get_vmk_guid : Datum → Option Bytes
unfolding guid_of
get_vmk_guid d = of_type type_volume_master_key_info d (guid_of (structure d))

-- The GUID of an external key, a field of what `GetExternalInfo` returns.
unfoldable pub external_guid_of : Structure → Option Bytes
external_guid_of (external_info guid date) = some guid
external_guid_of s = none

unfoldable pub get_external_guid : Datum → Option Bytes
unfolding external_guid_of
get_external_guid d = of_type type_external_info d (external_guid_of (structure d))

-- The units of UTF-16LE bytes; an odd byte at the end is dropped.
unfoldable pub utf16_units : Bytes → List ℕ
utf16_units [] = []
utf16_units (low ∷ []) = []
utf16_units (low ∷ high ∷ bytes) = (low + 256 * high) ∷ utf16_units bytes

-- `Text`
unfoldable pub text : (List ℕ → Bytes) → Datum → Bytes
unfolding utf16_units
text decode d = if (header d).typ == type_unicode then decode_nonempty (payload d) else []
  where
    decode_nonempty : Bytes → Bytes
    decode_nonempty [] = []
    decode_nonempty (b ∷ bytes) = decode (utf16_units (b ∷ bytes))
