-- ===== src/Tests/Volumes.antt =====
-- A volume with 512-byte sectors and one Information block.
use mathlib.Core.List.{mem-cons_self}
use go_bde.Base.{ℕ, ◌≡◌, refl, true, none, some, [], arith, inl, replicate}
use go_bde.Base.Int.{pos, negsuc, quot, int64}
use go_bde.Types.{FveMetadataHeader}
use go_bde.Types.Const.{bitlocker_signature}
use go_bde.Dataset.{information_offsets}
use go_bde.Region.{is_reserved_sector}
use go_bde.Volume.{
  Bde, new_bitlocker_stream, open_volume, unlocked, reserved_regions, information_sectors,
}
use go_bde.Volume.Reserves.{new_bitlocker_stream-reserves}
use go_bde.Stream.{BitlockerStream, read, read_at, seek, seek_start}
use go_bde.Outcome.{ok}
use go_bde.Volume.Opened.{
  HadCipher, IsForeign, fresh, after_read, after_seek, open_volume-HadCipher,
}
use go_bde.Tests.Toy.{memory, new_toy}

abbrev metadata : FveMetadataHeader
metadata = record {
  metadata_size = 48;
  version = 2;
  header_size = 48;
  metadata_size_copy = 48;
  volume_identifier = [];
  next_nonce_counter = 0;
  encryption_method = 0x8004;
  creation_time = 0;
}

abbrev volume : Bde
volume = record {
  r = memory (λ i. 0);
  sector_size = 512;
  cluster_size = 4096;
  information = record {
    offset = pos 1048576;
    block_header = record {
      signature = bitlocker_signature;
      size = 64;
      version = 2;
      unknown1 = 0;
      unknown2 = 0;
      encrypted_volume_size = 0;
      unknown3 = 0;
      volume_header_sectors = 16;
      metadata_offset1 = 1048576;
      metadata_offset2 = 0;
      metadata_offset3 = 0;
      volume_header_off = 2097152;
    };
    metadata_header = metadata;
    dataset = record { header = metadata; buf = []; datums = [] };
    buf = none;
    validation = none;
    valid_checksum = true;
  };
  eow_information = none;
  valid_information = [];
  available_information = [];
  valid_eow_information = [];
  available_eow_information = [];
  fvek = some (replicate {A = ℕ} 32 1);
  fvek_type = 0x8004;
}

new_bitlocker_stream-reserves_example :
    is_reserved_sector (new_bitlocker_stream new_toy volume).reserved (pos 2175) ≡ true
unfolding reserved_regions information_offsets int64 quot information_sectors
new_bitlocker_stream-reserves_example =
    new_bitlocker_stream-reserves new_toy volume 1048576 2175 (inl refl) (omega arith)
      ((omega arith, omega arith), tt) mem-cons_self refl (omega arith) (omega arith)

-- `Open` of the volume, a seek to 3000, a read of 700 bytes and one at 5000.
abbrev opened : BitlockerStream
opened = new_bitlocker_stream new_toy volume

volume-opens : open_volume new_toy volume ≡ ok opened
unfolding open_volume unlocked go_bde.Cipher.Xts.new_xts_cipher
volume-opens = refl

memory-IsForeign : IsForeign volume.r
unfolding IsForeign
memory-IsForeign n (pos k) = λ p. cc
memory-IsForeign n (negsuc k) = λ p. cc

open_volume-HadCipher_example :
    HadCipher (read_at (read (seek opened (pos 3000) seek_start).0 700).0 512 (pos 5000))
    × HadCipher (read (read (seek opened (pos 3000) seek_start).0 700).0 512).1
open_volume-HadCipher_example =
    open_volume-HadCipher new_toy volume opened (read (seek opened (pos 3000) seek_start).0 700).0
      512 (pos 5000) memory-IsForeign volume-opens
      (after_read (after_seek fresh (pos 3000) seek_start) 700)
