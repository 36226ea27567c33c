-- ===== src/Volume/Queries.antt =====
-- The queries of `BDE` (bde.go): its identifiers, its description, and the protectors that it has.
pub mod Refused
use go_bde.Base.{Bool, true, false, not, Option, none, some, List, [], ◌∷◌, ℕ}
use go_bde.Base.Bytes.{Bytes}
use go_bde.Types.Const.{role_volume_master_key_info, type_volume_master_key_info}
use go_bde.Datum.{Datum}
use go_bde.Datum.Fields.{get_vmk_guid}
use go_bde.Dataset.{
  find_datum, find_description, find_clear_vmk, find_external_vmk, find_recovery_vmk,
  find_passphrase_vmk,
}
use go_bde.Search.{is_empty}
use go_bde.Volume.{Bde, decrypted}

-- The loop of `Identifiers`.
abbrev pub or_more : Option Bytes → List Bytes → List Bytes
or_more none more = more
or_more (some g) more = g ∷ more

abbrev pub guids : List Datum → List Bytes
guids [] = []
guids (d ∷ ds) = or_more (get_vmk_guid d) (guids ds)

unfoldable pub identifiers : Bde → List Bytes
unfolding find_datum get_vmk_guid
identifiers b =
    guids (find_datum role_volume_master_key_info type_volume_master_key_info b.information.dataset)

-- `SectorSize`, `Paused`, `Encrypted`, `Switching`; the volume never tells of a conversion.
abbrev pub sector_size_in_bytes : Bde → ℕ
sector_size_in_bytes b = b.sector_size

abbrev pub paused : Bde → Bool
paused b = false

abbrev pub encrypted : Bde → Bool
encrypted b = not (decrypted b)

abbrev pub switching : Bde → Bool
switching b = false

-- `Description`
abbrev pub description : (List ℕ → Bytes) → Bde → Bytes
description decode b = find_description decode b.information.dataset

abbrev is_found : Option Datum → Bool
is_found none = false
is_found (some d) = true

unfoldable pub has_clear_key : Bde → Bool
unfolding find_clear_vmk
has_clear_key b = is_found (find_clear_vmk b.information.dataset)

unfoldable pub has_recovery_password : Bde → Bool
unfolding find_recovery_vmk
has_recovery_password b = not (is_empty (find_recovery_vmk b.information.dataset))

unfoldable pub has_passphrase : Bde → Bool
unfolding find_passphrase_vmk
has_passphrase b = not (is_empty (find_passphrase_vmk b.information.dataset))

unfoldable pub has_external_key : Bde → Bool
unfolding find_external_vmk
has_external_key b = not (is_empty (find_external_vmk b.information.dataset))
