-- ===== src/Types/Const.antt =====
-- The constants of types.go that the program uses.
use go_bde.Base.{ℕ, [], ◌∷◌}
use go_bde.Base.Bytes.{Bytes}

-- "-FVE-FS-"
abbrev pub bitlocker_signature : Bytes
bitlocker_signature = b'-' ∷ b'F' ∷ b'V' ∷ b'E' ∷ b'-' ∷ b'F' ∷ b'S' ∷ b'-' ∷ []

-- {4967D63B-2E29-4AD8-8399-F6A339E3D001}
abbrev pub information_offset_guid : Bytes
information_offset_guid =
    0x3b ∷ 0xd6 ∷ 0x67 ∷ 0x49 ∷ 0x29 ∷ 0x2e ∷ 0xd8 ∷ 0x4a ∷ 0x83 ∷ 0x99 ∷ 0xf6 ∷ 0xa3 ∷ 0x39 ∷ 0xe3
    ∷ 0xd0 ∷ 0x01 ∷ []

-- {92A84D3B-DD80-4D0E-9E4E-B1E3284EAED8}
abbrev pub eow_information_offset_guid : Bytes
eow_information_offset_guid =
    0x3b ∷ 0x4d ∷ 0xa8 ∷ 0x92 ∷ 0x80 ∷ 0xdd ∷ 0x0e ∷ 0x4d ∷ 0x9e ∷ 0x4e ∷ 0xb1 ∷ 0xe3 ∷ 0x28 ∷ 0x4e
    ∷ 0xae ∷ 0xd8 ∷ []

abbrev pub key_type_vmk : ℕ
key_type_vmk = 0x2003

abbrev pub key_type_aes_128_diffuser : ℕ
key_type_aes_128_diffuser = 0x8000

abbrev pub key_type_aes_256_diffuser : ℕ
key_type_aes_256_diffuser = 0x8001

abbrev pub key_type_aes_128 : ℕ
key_type_aes_128 = 0x8002

abbrev pub key_type_aes_256 : ℕ
key_type_aes_256 = 0x8003

abbrev pub key_type_aes_xts_128 : ℕ
key_type_aes_xts_128 = 0x8004

abbrev pub key_type_aes_xts_256 : ℕ
key_type_aes_xts_256 = 0x8005

abbrev pub protector_clear : ℕ
protector_clear = 0x0000

abbrev pub protector_external : ℕ
protector_external = 0x0200

abbrev pub protector_recovery_password : ℕ
protector_recovery_password = 0x0800

abbrev pub protector_passphrase : ℕ
protector_passphrase = 0x2000

abbrev pub role_property : ℕ
role_property = 0

abbrev pub role_volume_master_key_info : ℕ
role_volume_master_key_info = 2

abbrev pub role_full_volume_encryption_key : ℕ
role_full_volume_encryption_key = 3

abbrev pub role_startup_key : ℕ
role_startup_key = 6

abbrev pub role_description : ℕ
role_description = 7

abbrev pub type_key : ℕ
type_key = 1

abbrev pub type_unicode : ℕ
type_unicode = 2

abbrev pub type_stretch_key : ℕ
type_stretch_key = 3

abbrev pub type_use_key : ℕ
type_use_key = 4

abbrev pub type_aes_ccm_encrypted_key : ℕ
type_aes_ccm_encrypted_key = 5

abbrev pub type_volume_master_key_info : ℕ
type_volume_master_key_info = 8

abbrev pub type_external_info : ℕ
type_external_info = 9

abbrev pub type_virtualization_info : ℕ
type_virtualization_info = 15
