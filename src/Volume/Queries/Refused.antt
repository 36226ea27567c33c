-- ===== src/Volume/Queries/Refused.antt =====
-- The queries of a volume against its unlock paths (bde.go): what a volume without a protector, or
-- without an identifier, refuses.
use go_bde.Base.{
  ℕ, ◌≡◌, refl, sym, ap, ◌∙◌, Bool, true, false, not, Option-cases, Bool-cases, List, [], ◌∷◌, All,
  inl, inr,
}
use go_bde.Base.Bytes.{Bytes, equal}
use go_bde.Outcome.{Outcome, ok, err, panic, no_vmk_with_identifier}
use go_bde.Types.Const.{role_volume_master_key_info, type_volume_master_key_info}
use go_bde.Datum.{Datum}
use go_bde.Datum.Fields.{get_vmk_guid}
use go_bde.Dataset.{keep, find_datum, find_vmk, find_recovery_vmk, find_passphrase_vmk}
use go_bde.Keys.{derive_recovery_key, derive_user_key}
use go_bde.Search.{is_empty}
use go_bde.Volume.{Bde}
use go_bde.Volume.Unlock.{
  Packages, has_identifier, guid_string, try_identified, try_all, unlock_with_user_key,
  unlock_recovered, unlock_with_recovery_password, unlock_with_passphrase,
}
use go_bde.Volume.Unlock.Trace.{
  Request, with_key, with_recovery_password, with_passphrase, with_clear_key, with_external_key,
  serve, IsRefused, err-ne-ok, panic-ne-ok, clear-IsRefused, external-IsRefused,
}
use go_bde.Volume.Queries.{
  guids, identifiers, has_clear_key, has_recovery_password, has_passphrase, has_external_key,
}

-- The protector that a request is for.
unfoldable pub protector_present : Bde → Request → Bool
unfolding has_recovery_password has_passphrase has_clear_key has_external_key
protector_present b (with_key key) = true
protector_present b (with_recovery_password password identifier) = has_recovery_password b
protector_present b (with_passphrase passphrase identifier) = has_passphrase b
protector_present b with_clear_key = has_clear_key b
protector_present b (with_external_key bek offset) = has_external_key b

not_empty : (ds : List Datum) → not (is_empty ds) ≡ false → ds ≡ []
not_empty [] h = refl
not_empty (d ∷ ds) h = cc

module _ (p : Packages) (b : Bde) where
  no_vmks-IsRefused :
      (vmks : List Datum) (user_key identifier : Bytes)
      → vmks ≡ []
      → IsRefused b (unlock_with_user_key p b vmks user_key identifier)
  unfolding unlock_with_user_key try_all try_identified
  no_vmks-IsRefused vmks user_key [] e = rw e (refl, err-ne-ok)
  no_vmks-IsRefused vmks user_key (c ∷ identifier) e = rw e (refl, err-ne-ok)

  recovered-IsRefused :
      (key : Outcome Bytes) (identifier : Bytes)
      → ((k : Bytes)
          → IsRefused b
              (unlock_with_user_key p b (find_recovery_vmk b.information.dataset) k identifier))
      → IsRefused b (unlock_recovered p b identifier key)
  unfolding unlock_recovered
  recovered-IsRefused (ok k) identifier h = h k
  recovered-IsRefused (err e) identifier h = (refl, err-ne-ok)
  recovered-IsRefused panic identifier h = (refl, panic-ne-ok)

-- A volume refuses every unlock request for which its queries say that there is no protector: it
-- stays as it is, and the request fails.
pub serve-IsRefused :
    (p : Packages) (b : Bde) (q : Request)
    → protector_present b q ≡ false
    → IsRefused b (serve p b q)
unfolding protector_present serve unlock_with_recovery_password unlock_with_passphrase
    has_recovery_password has_passphrase
serve-IsRefused p b (with_key key) h = cc
serve-IsRefused p b (with_recovery_password password identifier) h =
    recovered-IsRefused p b (derive_recovery_key p.sum256 password) identifier λ k.
      no_vmks-IsRefused p b (find_recovery_vmk b.information.dataset) k identifier (not_empty _ h)
serve-IsRefused p b (with_passphrase passphrase identifier) h =
    no_vmks-IsRefused p b (find_passphrase_vmk b.information.dataset)
      (derive_user_key p.sum256 p.utf16_encode passphrase) identifier (not_empty _ h)
serve-IsRefused p b with_clear_key h = clear-IsRefused p b
serve-IsRefused p b (with_external_key bek offset) h = external-IsRefused p b bek offset

-- No datum of the list has the identifier.
abbrev NoneOf : Bytes → List Datum → Type 0
NoneOf identifier = All (λ d. has_identifier identifier d ≡ false)

guids-NoneOf :
    (identifier : Bytes) (ds : List Datum)
    → All (λ g. equal (guid_string g) identifier ≡ false) (guids ds)
    → NoneOf identifier ds
unfolding has_identifier
guids-NoneOf identifier [] h = tt
guids-NoneOf identifier (d ∷ ds) h = elim (Option-cases (get_vmk_guid d)) [
  | inl e ↦ rw (e, has_identifier) (refl, guids-NoneOf identifier ds (rw e at h))
  | inr (g, e) ↦
      let (same, others) = rw e at h in
      rw (e, has_identifier) (same, guids-NoneOf identifier ds others)
]

NoneOf-keep :
    (identifier : Bytes) (test : Datum → Bool) (ds : List Datum)
    → NoneOf identifier ds
    → NoneOf identifier (keep test ds)
unfolding keep
NoneOf-keep identifier test [] h = tt
NoneOf-keep identifier test (d ∷ ds) (h, hs) = elim (Bool-cases (test d)) [
  | inl e ↦ rw e (h, NoneOf-keep identifier test ds hs)
  | inr e ↦ rw e (NoneOf-keep identifier test ds hs)
]

try_identified-NoneOf :
    (p : Packages) (b : Bde) (user_key identifier : Bytes) (vmks : List Datum)
    → NoneOf identifier vmks
    → try_identified p b user_key identifier vmks ≡ (b, err no_vmk_with_identifier)
unfolding try_identified
try_identified-NoneOf p b user_key identifier [] h = refl
try_identified-NoneOf p b user_key identifier (d ∷ ds) (h, hs) =
    rw h (try_identified-NoneOf p b user_key identifier ds hs)

-- An unlock with a passphrase or a recovery password and an identifier that none of `Identifiers`
-- spells fails, and leaves the volume as it is: a passphrase with the error that no VMK matches.
pub unlock_unknown_identifier :
    (p : Packages) (b : Bde) (secret : Bytes) (c : ℕ) (identifier : Bytes)
    → All (λ g. equal (guid_string g) (c ∷ identifier) ≡ false) (identifiers b)
    → (unlock_with_passphrase p b secret (c ∷ identifier) ≡ (b, err no_vmk_with_identifier))
      × IsRefused b (unlock_with_recovery_password p b secret (c ∷ identifier))
unfolding identifiers unlock_with_passphrase unlock_with_recovery_password unlock_with_user_key
    find_passphrase_vmk find_recovery_vmk find_vmk
unlock_unknown_identifier p b secret c identifier h =
    let none_of =
      guids-NoneOf (c ∷ identifier)
        (find_datum role_volume_master_key_info type_volume_master_key_info b.information.dataset)
        h in
    (
      try_identified-NoneOf p b _ (c ∷ identifier) _ (NoneOf-keep (c ∷ identifier) _ _ none_of),
      recovered-IsRefused p b (derive_recovery_key p.sum256 secret) (c ∷ identifier) λ k.
          let e =
            try_identified-NoneOf p b k (c ∷ identifier) _
              (NoneOf-keep (c ∷ identifier) _ _ none_of) in
          (ap (λ a. a.0) e, λ s. err-ne-ok (sym (ap (λ a. a.1) e) ∙ s)),
    )
