-- ===== src/Tests/Metadata.antt =====
-- A metadata block with one volume master key, for a recovery password.
use mathlib.Core.List.{Mem}
use go_bde.Base.{ℕ, ◌≡◌, refl, List, [], ◌∷◌, ◌++◌, get_or, replicate, map}
use go_bde.Base.Int.{pos, ◌+ℤ◌}
use go_bde.Base.Bytes.{Bytes, put_le, equal}
use go_bde.Outcome.{Outcome, ok, err, panic}
use go_bde.Types.{
  fve_datum_size, vmk_info, decode_datum, decode_vmk_info, decode_block_header,
  decode_metadata_header,
}
use go_bde.Reader.{slice}
use go_bde.Types.Const.{bitlocker_signature}
use go_bde.Datum.{Datum, datum, nil, header, read_datum, read_properties, got}
use go_bde.Datum.Total.{Takes, Finds, read_datum-Takes}
use go_bde.Dataset.{
  Dataset, Information, new_information, find_vmk, find_external_vmk, find_recovery_vmk,
  find_passphrase_vmk,
}
use go_bde.Outcome.Yields.{Yields}
use go_bde.Dataset.Load.{IsInformation, new_information-Yields}
use go_bde.Dataset.Find.{IsVmk, find_vmk_iff, protectors-exclusive}
use go_bde.Tests.Toy.{memory}

abbrev pub vmk_bytes : Bytes
unfolding put_le
vmk_bytes =
    put_le 2 36
    ++ put_le 2 2
    ++ put_le 2 8
    ++ put_le 2 1
    ++ replicate {A = ℕ} 16 9
    ++ put_le 8 77
    ++ put_le 2 0
    ++ put_le 2 0x800

abbrev block : Bytes
unfolding put_le
block =
    bitlocker_signature
    ++ replicate {A = ℕ} 56 0
    ++ put_le 4 84
    ++ put_le 4 1
    ++ put_le 4 48
    ++ put_le 4 84
    ++ replicate {A = ℕ} 32 0
    ++ vmk_bytes

abbrev image : ℕ → ℕ
image i = get_or block i 0

abbrev vmk : Datum
vmk =
    datum record { size = 36; role = 2; typ = 8; flags = 1 } []
      (vmk_info (replicate {A = ℕ} 16 9) 77 0 0x800) nil

read_vmk : read_datum vmk_bytes ≡ got vmk []
unfolding read_datum vmk_bytes decode_datum decode_vmk_info
read_vmk = refl

read_datum-Takes_example :
    Takes fve_datum_size 36 (read_datum vmk_bytes)
    × ((n : ℕ) → Finds 36 (read_properties 37 n vmk_bytes))
unfolding vmk_bytes
read_datum-Takes_example = read_datum-Takes vmk_bytes

abbrev found : Outcome Information → List ℕ
unfolding find_recovery_vmk
found (ok i) = map (λ d. (header d).size) (find_recovery_vmk i.dataset)
found (err e) = []
found panic = []

load_block : found (new_information (memory image) (pos 0)) ≡ 36 ∷ []
unfolding new_information found slice equal decode_block_header block ◌+ℤ◌ decode_metadata_header
    read_datum decode_datum decode_vmk_info
load_block = refl

new_information-Yields_example :
    Yields (IsInformation (pos 0)) (new_information (memory image) (pos 0))
new_information-Yields_example = new_information-Yields (memory image) (pos 0)

abbrev dataset : Dataset
dataset = record {
  header = record {
    metadata_size = 84;
    version = 1;
    header_size = 48;
    metadata_size_copy = 84;
    volume_identifier = replicate {A = ℕ} 16 0;
    next_nonce_counter = 0;
    encryption_method = 0x8004;
    creation_time = 0;
  };
  buf = block;
  datums = vmk ∷ [];
}

find_vmk_iff_example :
    (Mem vmk (find_vmk 0x800 0 0x7fff 0xff00 dataset) → IsVmk 0x800 0 0x7fff 0xff00 dataset vmk)
    × (IsVmk 0x800 0 0x7fff 0xff00 dataset vmk → Mem vmk (find_vmk 0x800 0 0x7fff 0xff00 dataset))
find_vmk_iff_example = find_vmk_iff 0x800 0 0x7fff 0xff00 dataset vmk

protectors-exclusive_example :
    ¬ (Mem vmk (find_external_vmk dataset) × Mem vmk (find_recovery_vmk dataset))
    × ¬ (Mem vmk (find_external_vmk dataset) × Mem vmk (find_passphrase_vmk dataset))
    × ¬ (Mem vmk (find_recovery_vmk dataset) × Mem vmk (find_passphrase_vmk dataset))
protectors-exclusive_example = protectors-exclusive dataset vmk
