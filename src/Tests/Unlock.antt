-- ===== src/Tests/Unlock.antt =====
-- A volume that a recovery password unlocks, down to its data.
use go_bde.Base.{
  ap, ℕ, ◌<◌, ◌≡◌, refl, true, none, some, List, [], ◌∷◌, arith, length, replicate, All, map,
}
use go_bde.Base.Int.{pos}
use go_bde.Base.Bytes.{Bytes, put_le}
use go_bde.Outcome.{ok, err, unsupported_cipher_type}
use go_bde.Types.{FveMetadataHeader, FveDatum, stretch_key, vmk_info}
use go_bde.Types.Const.{bitlocker_signature}
use go_bde.Datum.{Datum, datum, nil, cons}
use go_bde.Datum.Fields.{get_stretch_key}
use go_bde.Dataset.{Information, find_fvek, find_recovery_vmk, find_property}
use go_bde.Unbox.Sealed.{container, sealed}
use go_bde.Keys.Password.{join, block_text, concat_le}
use go_bde.Volume.{Bde, unlocked}
use go_bde.Volume.Unlock.{
  Packages, check_integrity, in_cipher_map, unlock, unlock_with_recovery_password,
}
use go_bde.Volume.Unlock.Trace.{
  with_recovery_password, with_clear_key, serve, here, next, Keyed, HasKey, Reach-Keyed,
  serve-HasKey,
}
use go_bde.Volume.Unlock.Sealed.{IsSealed, unlock_unsupported}
use go_bde.Volume.Unlock.Password.{
  IsProtected, IsUnlockable, unlock_with_recovery_password-IsUnlockable,
}
use go_bde.Tests.Toy.{padded, length-padded, new_padded, toy_ctr, toy_ctr-IsCtr, memory}
use go_bde.Tests.Streams.{sealed_image}

abbrev pub packages : Packages
packages = record {
  new_cipher = new_padded;
  new_ctr = toy_ctr;
  sum256 = λ b. replicate {A = ℕ} 32 7;
  utf16_encode = λ b. [];
}

abbrev pub numbers : List ℕ
numbers = 0 ∷ 1 ∷ 65535 ∷ 4660 ∷ 22136 ∷ 7 ∷ 9 ∷ 12345 ∷ []

abbrev pub vmk_key : Bytes
vmk_key = replicate {A = ℕ} 32 2

abbrev pub fvek : Bytes
fvek = replicate {A = ℕ} 32 1

abbrev pub prefix : Bytes
prefix = replicate {A = ℕ} 8 0

abbrev pub sealed_head : ℕ → FveDatum
sealed_head role = record { size = 80; role = role; typ = 5; flags = 1 }

-- A key of a method, sealed.
abbrev pub boxed : ℕ → ℕ → Bytes → Datum
boxed role method key =
    sealed toy_ctr padded (sealed_head role) 77 5 (container prefix method key) nil

boxed-IsSealed :
    (role method : ℕ) (wrapping key : Bytes)
    → length key ≡ 32
    → IsSealed packages wrapping (boxed role method key) method key
unfolding put_le
boxed-IsSealed role method wrapping key len = record {
  block = padded;
  head = sealed_head role;
  prefix = prefix;
  date = 77;
  counter = 5;
  props = nil;
  is = refl;
  typ_is = refl;
  takes = refl;
  writes = length-padded;
  eight = refl;
  small = omega arith;
}

abbrev pub salt_datum : Datum
salt_datum =
    datum record { size = 28; role = 0; typ = 3; flags = 1 } []
      (stretch_key 0x1001 0 (replicate {A = ℕ} 16 5)) nil

abbrev pub vmk : Datum
vmk =
    datum record { size = 144; role = 2; typ = 8; flags = 1 } []
      (vmk_info (replicate {A = ℕ} 16 9) 77 0 0x800)
      (cons salt_datum (cons (boxed 0 0x2003 vmk_key) nil))

abbrev pub metadata : FveMetadataHeader
metadata = record {
  metadata_size = 48;
  version = 2;
  header_size = 48;
  metadata_size_copy = 48;
  volume_identifier = [];
  next_nonce_counter = 0;
  encryption_method = 0x8004;
  creation_time = 0;
}

-- The metadata with a method for the volume's key.
abbrev pub information : ℕ → Information
information method = record {
  offset = pos 1048576;
  block_header = record {
    signature = bitlocker_signature;
    size = 64;
    version = 2;
    unknown1 = 0;
    unknown2 = 0;
    encrypted_volume_size = 0;
    unknown3 = 0;
    volume_header_sectors = 0;
    metadata_offset1 = 0;
    metadata_offset2 = 0;
    metadata_offset3 = 0;
    volume_header_off = 0;
  };
  metadata_header = metadata;
  dataset = record { header = metadata; buf = []; datums = vmk ∷ boxed 3 method fvek ∷ [] };
  buf = none;
  validation = none;
  valid_checksum = true;
}

abbrev pub locked : ℕ → Bde
locked method = record {
  r = memory sealed_image;
  sector_size = 512;
  cluster_size = 4096;
  information = information method;
  eow_information = none;
  valid_information = [];
  available_information = [];
  valid_eow_information = [];
  available_eow_information = [];
  fvek = none;
  fvek_type = 0;
}

integrity : (method : ℕ) → check_integrity packages (information method) vmk_key ≡ true
unfolding check_integrity
integrity method = refl

finds_fvek : (method : ℕ) → find_fvek (information method).dataset ≡ some (boxed 3 method fvek)
unfolding find_fvek
finds_fvek method = refl

vmk-IsProtected : IsProtected packages (packages.sum256 (concat_le numbers)) vmk vmk_key
unfolding find_property get_stretch_key
vmk-IsProtected = record {
  stretch_datum = salt_datum;
  typ = 0x1001;
  flags = 0;
  salt = replicate {A = ℕ} 16 5;
  encrypted = boxed 0 0x2003 vmk_key;
  stretched = refl;
  salted = refl;
  salt_length = refl;
  listed = refl;
  is_sealed = boxed-IsSealed 0 0x2003 _ vmk_key refl;
}

pub locked-IsUnlockable :
    IsUnlockable packages (locked 0x8004) (packages.sum256 (concat_le numbers)) fvek 0x8004
unfolding find_recovery_vmk in_cipher_map
locked-IsUnlockable = record {
  vmk_held = vmk_key;
  vmk = vmk;
  before = [];
  after = [];
  fvek_datum = boxed 3 0x8004 fvek;
  method = 0x8004;
  valid = integrity 0x8004;
  candidates = refl;
  refused = tt;
  is_protected = vmk-IsProtected;
  found = finds_fvek 0x8004;
  is_sealed = boxed-IsSealed 3 0x8004 vmk_key fvek refl;
  typ_is = refl;
  listed = refl;
}

pub are_16_bit : All (λ n. n < 65536) numbers
are_16_bit = (
  omega arith,
  (
    omega arith,
    (omega arith, (omega arith, (omega arith, (omega arith, (omega arith, (omega arith, tt)))))),
  ),
)

unlock_with_recovery_password-IsUnlockable_example :
    unlock_with_recovery_password packages (locked 0x8004) (join b'-' (map block_text numbers)) []
    ≡ (record (locked 0x8004) { fvek = some fvek; fvek_type = 0x8004 }, ok tt)
unlock_with_recovery_password-IsUnlockable_example =
    unlock_with_recovery_password-IsUnlockable packages (locked 0x8004) numbers fvek 0x8004
      toy_ctr-IsCtr (λ b. refl) refl are_16_bit locked-IsUnlockable

unlock_unsupported_example :
    ((unlock packages (locked 0x9000) vmk_key).1 ≡ err unsupported_cipher_type)
    × (unlocked (unlock packages (locked 0x9000) vmk_key).0 ≡ true)
unfolding in_cipher_map
unlock_unsupported_example =
    unlock_unsupported packages (locked 0x9000) vmk_key (boxed 3 0x9000 fvek) 0x9000 fvek
      toy_ctr-IsCtr (integrity 0x9000) (finds_fvek 0x9000)
      (boxed-IsSealed 3 0x9000 vmk_key fvek refl) refl

Reach-Keyed_example :
    Keyed packages (locked 0x8004) (serve packages (locked 0x8004) with_clear_key).0
Reach-Keyed_example = Reach-Keyed packages (locked 0x8004) (next here with_clear_key)

serve-HasKey_example :
    HasKey
      (serve packages
        (locked 0x8004)
        (with_recovery_password (join b'-' (map block_text numbers)) [])).0
unfolding serve
serve-HasKey_example =
    serve-HasKey packages (locked 0x8004)
      (with_recovery_password (join b'-' (map block_text numbers)) [])
      (ap (λ a. a.1) unlock_with_recovery_password-IsUnlockable_example)
