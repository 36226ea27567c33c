-- ===== src/Types.antt =====
-- types.go: the on-disk structures, their little-endian decoding, and the constants.
pub mod Const
use go_bde.Base.{ℕ, List, take, drop}
use go_bde.Base.Bytes.{Bytes, le_value}

-- The field of `w` bytes at offset k of a structure, as a number.
unfoldable pub le_at : ℕ → ℕ → Bytes → ℕ
unfolding le_value
le_at k w bytes = le_value (take w (drop k bytes))

abbrev pub bytes_at : ℕ → ℕ → Bytes → Bytes
bytes_at k w bytes = take w (drop k bytes)

-- The sizes that `binary.Size` gives.
pub record FveDatum : Type 0 where
  pub size : ℕ
  pub role : ℕ
  pub typ : ℕ
  pub flags : ℕ

abbrev pub fve_datum_size : ℕ
fve_datum_size = 8

unfoldable pub decode_datum : Bytes → FveDatum
unfolding le_at
decode_datum b = record {
  size = le_at 0 2 b;
  role = le_at 2 2 b;
  typ = le_at 4 2 b;
  flags = le_at 6 2 b;
}

-- The structures behind the header of a datum, `structure` of `Datum`. Keys: type and flags.
pub data Structure : Type 0 where
  no_structure : Structure
  key : ℕ → ℕ → Structure
  stretch_key : ℕ → ℕ → Bytes → Structure
  use_key : ℕ → ℕ → Structure
  -- The nonce's date and counter, and the MAC.
  aes_ccm : ℕ → ℕ → Bytes → Structure
  -- GUID, date, unknown and protector type.
  vmk_info : Bytes → ℕ → ℕ → ℕ → Structure
  external_info : Bytes → ℕ → Structure
  virtualization_info : ℕ → ℕ → Structure

unfoldable pub decode_key : Bytes → Structure
unfolding le_at
decode_key b = key (le_at 0 2 b) (le_at 2 2 b)

unfoldable pub decode_stretch_key : Bytes → Structure
unfolding le_at
decode_stretch_key b = stretch_key (le_at 0 2 b) (le_at 2 2 b) (bytes_at 4 16 b)

unfoldable pub decode_use_key : Bytes → Structure
unfolding le_at
decode_use_key b = use_key (le_at 0 2 b) (le_at 2 2 b)

unfoldable pub decode_aes_ccm : Bytes → Structure
unfolding le_at
decode_aes_ccm b = aes_ccm (le_at 0 8 b) (le_at 8 4 b) (bytes_at 12 16 b)

unfoldable pub decode_vmk_info : Bytes → Structure
unfolding le_at
decode_vmk_info b = vmk_info (bytes_at 0 16 b) (le_at 16 8 b) (le_at 24 2 b) (le_at 26 2 b)

unfoldable pub decode_external_info : Bytes → Structure
unfolding le_at
decode_external_info b = external_info (bytes_at 0 16 b) (le_at 16 8 b)

unfoldable pub decode_virtualization_info : Bytes → Structure
unfolding le_at
decode_virtualization_info b = virtualization_info (le_at 0 8 b) (le_at 8 8 b)

pub record FveValidation : Type 0 where
  pub size : ℕ
  pub version : ℕ
  pub crc32 : ℕ

abbrev pub fve_validation_size : ℕ
fve_validation_size = 8

unfoldable pub decode_validation : Bytes → FveValidation
unfolding le_at
decode_validation b = record { size = le_at 0 2 b; version = le_at 2 2 b; crc32 = le_at 4 4 b }

pub record FveMetadataHeader : Type 0 where
  pub metadata_size : ℕ
  pub version : ℕ
  pub header_size : ℕ
  pub metadata_size_copy : ℕ
  pub volume_identifier : Bytes
  pub next_nonce_counter : ℕ
  pub encryption_method : ℕ
  pub creation_time : ℕ

abbrev pub fve_metadata_header_size : ℕ
fve_metadata_header_size = 48

unfoldable pub decode_metadata_header : Bytes → FveMetadataHeader
unfolding le_at
decode_metadata_header b = record {
  metadata_size = le_at 0 4 b;
  version = le_at 4 4 b;
  header_size = le_at 8 4 b;
  metadata_size_copy = le_at 12 4 b;
  volume_identifier = bytes_at 16 16 b;
  next_nonce_counter = le_at 32 4 b;
  encryption_method = le_at 36 4 b;
  creation_time = le_at 40 8 b;
}

pub record FveMetadataBlockHeaderV2 : Type 0 where
  pub signature : Bytes
  pub size : ℕ
  pub version : ℕ
  pub unknown1 : ℕ
  pub unknown2 : ℕ
  pub encrypted_volume_size : ℕ
  pub unknown3 : ℕ
  pub volume_header_sectors : ℕ
  pub metadata_offset1 : ℕ
  pub metadata_offset2 : ℕ
  pub metadata_offset3 : ℕ
  pub volume_header_off : ℕ

abbrev pub fve_metadata_block_header_size : ℕ
fve_metadata_block_header_size = 64

unfoldable pub decode_block_header : Bytes → FveMetadataBlockHeaderV2
unfolding le_at
decode_block_header b = record {
  signature = bytes_at 0 8 b;
  size = le_at 8 2 b;
  version = le_at 10 2 b;
  unknown1 = le_at 12 2 b;
  unknown2 = le_at 14 2 b;
  encrypted_volume_size = le_at 16 8 b;
  unknown3 = le_at 24 4 b;
  volume_header_sectors = le_at 28 4 b;
  metadata_offset1 = le_at 32 8 b;
  metadata_offset2 = le_at 40 8 b;
  metadata_offset3 = le_at 48 8 b;
  volume_header_off = le_at 56 8 b;
}

-- The fields of `BootSector` and its `Bpb` that the program reads.
pub record BootSector : Type 0 where
  pub bytes_per_sector : ℕ
  pub sectors_per_cluster : ℕ
  pub information_lcn : ℕ
  pub bytes_per_sector_shift : ℕ
  pub sectors_per_cluster_shift : ℕ

abbrev pub boot_sector_size : ℕ
boot_sector_size = 512

unfoldable pub decode_boot_sector : Bytes → BootSector
unfolding le_at
decode_boot_sector b = record {
  bytes_per_sector = le_at 11 2 b;
  sectors_per_cluster = le_at 13 1 b;
  information_lcn = le_at 56 8 b;
  bytes_per_sector_shift = le_at 108 1 b;
  sectors_per_cluster_shift = le_at 109 1 b;
}
