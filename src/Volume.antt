-- ===== src/Volume.antt =====
-- `BDE` (bde.go), once its metadata is found: the regions it reserves, and the stream it opens.
pub mod Reserves
pub mod Opened
pub mod Unlock
pub mod New
pub mod Queries
use Prim.Native.Nat.{bit_and}
use go_bde.Base.{
  ℕ, zero, suc, ◌+◌, ◌-◌, ◌/◌, Bool, true, false, ◌&&◌, ◌||◌, not, Option, none, some, List, [],
  ◌∷◌, ◌++◌, map, leb, ◌==◌, if◌then◌else◌,
}
use go_bde.Base.Int.{ℤ, pos, quot, int64}
use go_bde.Base.Bytes.{Bytes}
use go_bde.Outcome.{Outcome, ok, err, panic, ◌>>=◌, ◌>>◌, guard, not_unlocked, unsupported_cipher}
use go_bde.Reader.{ReaderAt}
use go_bde.Types.Const.{
  key_type_aes_128, key_type_aes_256, key_type_aes_xts_128, key_type_aes_xts_256,
}
use go_bde.Dataset.{Information, information_offsets}
use go_bde.Eow.{EowInformation}
use go_bde.Region.{set_reserved_regions}
use go_bde.Cipher.{NewCipher}
use go_bde.Cipher.Xts.{new_xts_cipher, XtsCipher}
use go_bde.Cipher.Cbc.{new_cbc_cipher, CbcCipher}
use go_bde.Stream.{BitlockerStream, SectorCipher, xts, cbc}

-- `New` sets `information`; `sector_size` is positive.
pub record Bde : Type 0 where
  pub r : ReaderAt
  pub sector_size : ℕ
  pub cluster_size : ℕ
  pub information : Information
  pub eow_information : Option EowInformation
  pub valid_information : List Information
  pub available_information : List Information
  pub valid_eow_information : List EowInformation
  pub available_eow_information : List EowInformation
  pub fvek : Option Bytes
  pub fvek_type : ℕ

-- `Version`, `Decrypted`, `Unlocked`
abbrev pub version : Bde → ℕ
version b = b.information.metadata_header.version

unfoldable pub decrypted : Bde → Bool
decrypted b = b.information.dataset.header.encryption_method == 0

abbrev pub has_fvek : Option Bytes → Bool
has_fvek none = false
has_fvek (some key) = true

unfoldable pub unlocked : Bde → Bool
unfolding decrypted
unlocked b = has_fvek b.fvek || decrypted b

-- `x & ^(n - 1)`; `^(n - 1)` is 0 for an n of 0.
unfoldable pub round_down : ℕ → ℕ → ℕ
round_down x n = if n == 0 then 0 else x - bit_and x (n - 1)

abbrev pub region_of : ℕ → ℕ → ℤ → ℤ × ℤ
region_of sector_size sectors offset = (quot offset sector_size, pos sectors)

unfoldable pub eow_regions : ℕ → Option EowInformation → List (ℤ × ℤ)
unfolding round_down
eow_regions sector_size none = []
eow_regions sector_size (some e) =
    region_of sector_size (round_down (e.size + sector_size - 1) sector_size / sector_size) e.offset
    ∷ []

-- The sectors of an Information block, from version 2 on.
unfoldable pub information_sectors : ℕ → ℕ
unfolding round_down
information_sectors sector_size = round_down (sector_size + 0xffff) sector_size / sector_size

-- `ReservedRegions`
unfoldable pub reserved_regions : Bde → List (ℤ × ℤ)
unfolding eow_regions information_sectors
reserved_regions b =
    let offsets = information_offsets b.information in
    if version b == 1
    then map
        (region_of b.sector_size
          (round_down (b.cluster_size + 0x3fff) b.cluster_size / b.sector_size))
        offsets
    else if leb 2 (version b)
    then map (region_of b.sector_size (information_sectors b.sector_size)) offsets
      ++ eow_regions b.sector_size b.eow_information
    else []

-- A cipher that cannot be made is left out.
abbrev pub xts_of : Outcome XtsCipher → Option SectorCipher
xts_of (ok c) = some (xts c)
xts_of (err e) = none
xts_of panic = none

abbrev pub cbc_of : Outcome CbcCipher → Option SectorCipher
cbc_of (ok c) = some (cbc c)
cbc_of (err e) = none
cbc_of panic = none

-- The switch on the key type of `NewBitlockerStream`.
unfoldable pub cipher_for : NewCipher → ℕ → ℕ → Option Bytes → Option SectorCipher
cipher_for new_cipher sector_size fvek_type none = none
cipher_for new_cipher sector_size fvek_type (some key) =
    if fvek_type == key_type_aes_xts_128 || fvek_type == key_type_aes_xts_256
    then xts_of (new_xts_cipher new_cipher key)
    else if fvek_type == key_type_aes_128 || fvek_type == key_type_aes_256
    then cbc_of (new_cbc_cipher new_cipher key sector_size)
    else none

unfoldable pub new_bitlocker_stream : NewCipher → Bde → BitlockerStream
unfolding reserved_regions cipher_for decrypted
new_bitlocker_stream new_cipher b = record {
  offset = pos 0;
  cipher = (if decrypted b then none else cipher_for new_cipher b.sector_size b.fvek_type b.fvek);
  r = b.r;
  sector_size = b.sector_size;
  reserved = set_reserved_regions (reserved_regions b);
  passthrough = decrypted b;
  header_offset = int64 b.information.block_header.volume_header_off;
  header_sectors = pos b.information.block_header.volume_header_sectors;
}

abbrev pub has_cipher : Option SectorCipher → Bool
has_cipher none = false
has_cipher (some c) = true

-- `Open`
unfoldable pub open_volume : NewCipher → Bde → Outcome BitlockerStream
unfolding unlocked new_bitlocker_stream
open_volume new_cipher b =
    let bs = new_bitlocker_stream new_cipher b in
    guard (unlocked b) not_unlocked
    >> (guard (bs.passthrough || has_cipher bs.cipher) unsupported_cipher >> ok bs)
