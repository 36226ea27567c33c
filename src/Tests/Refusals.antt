-- ===== src/Tests/Refusals.antt =====
-- What the volume of Tests/Unlock.antt refuses: it has one VMK, for a recovery password.
use go_bde.Base.{◌≡◌, refl, false, [], ◌∷◌}
use go_bde.Base.Bytes.{Bytes, equal}
use go_bde.Outcome.{err, no_vmk_with_identifier}
use go_bde.Dataset.{find_passphrase_vmk, find_datum}
use go_bde.Datum.Fields.{get_vmk_guid}
use go_bde.Volume.Unlock.{guid_string, unlock_with_passphrase, unlock_with_recovery_password}
use go_bde.Volume.Unlock.Trace.{IsRefused, serve, with_passphrase}
use go_bde.Volume.Queries.{identifiers, has_passphrase}
use go_bde.Volume.Queries.Refused.{protector_present, serve-IsRefused, unlock_unknown_identifier}
use go_bde.Tests.Unlock.{packages, locked}

abbrev secret : Bytes
secret = b'1' ∷ b'2' ∷ []

no_passphrase : protector_present (locked 0x8004) (with_passphrase secret []) ≡ false
unfolding protector_present has_passphrase find_passphrase_vmk
no_passphrase = refl

serve-IsRefused_example :
    IsRefused (locked 0x8004) (serve packages (locked 0x8004) (with_passphrase secret []))
serve-IsRefused_example =
    serve-IsRefused packages (locked 0x8004) (with_passphrase secret []) no_passphrase

-- The VMK's identifier, spelled.
spelled :
    identifiers (locked 0x8004)
    ≡ (9 ∷ 9 ∷ 9 ∷ 9 ∷ 9 ∷ 9 ∷ 9 ∷ 9 ∷ 9 ∷ 9 ∷ 9 ∷ 9 ∷ 9 ∷ 9 ∷ 9 ∷ 9 ∷ []) ∷ []
unfolding identifiers find_datum get_vmk_guid
spelled = refl

unlock_unknown_identifier_example :
    (unlock_with_passphrase packages (locked 0x8004) secret (b'0' ∷ b'8' ∷ [])
      ≡ (locked 0x8004, err no_vmk_with_identifier))
    × IsRefused
        (locked 0x8004)
        (unlock_with_recovery_password packages (locked 0x8004) secret (b'0' ∷ b'8' ∷ []))
unfolding guid_string equal identifiers find_datum get_vmk_guid
unlock_unknown_identifier_example =
    unlock_unknown_identifier packages (locked 0x8004) secret b'0' (b'8' ∷ []) (refl, tt)
