-- ===== src/Volume/Unlock/Trace.antt =====
-- Any sequence of unlock requests (bde.go): where the key of a volume comes from, and what success
-- means.
use go_bde.Base.{
  ℕ, ◌≡◌, refl, Bool, true, false, Option, none, some, List, [], ◌∷◌, inl, inr, Bool-cases,
}
use go_bde.Base.Int.{ℤ}
use go_bde.Base.Bytes.{Bytes}
use go_bde.Outcome.{
  Error, Outcome, ok, err, panic, guard, ◌>>=◌, no_compatible_vmk, clear_vmk_not_found,
  startup_key_not_found, startup_info_unreadable, no_matching_vmk,
}
use go_bde.Reader.{ReaderAt}
use go_bde.Datum.{Datum}
use go_bde.Types.Const.{role_startup_key, type_external_info}
use go_bde.Datum.Fields.{get_external_guid}
use go_bde.Dataset.{
  new_dataset, first, find_datum, find_external_vmk, find_recovery_vmk, find_passphrase_vmk,
}
use go_bde.Unbox.{get_key}
use go_bde.Keys.{derive_recovery_key, derive_user_key}
use go_bde.Volume.{Bde}
use go_bde.Volume.Unlock.{
  first_with_guid, require, Packages, Attempt, check_integrity, in_cipher_map, store_fvek,
  store_unboxed, unbox_fvek, unlock, decrypt_vmk_with_user_key, unlock_with, has_identifier,
  try_identified, after_candidate, try_all, unlock_with_user_key, unlock_recovered,
  unlock_with_recovery_password, unlock_with_passphrase, unlock_with_clear_key,
  unlock_with_external_key,
}

-- The calls that can unlock a volume.
pub data Request : Type 0 where
  with_key : Bytes → Request
  with_recovery_password with_passphrase : Bytes → Bytes → Request
  with_clear_key : Request
  with_external_key : ReaderAt → ℤ → Request

unfoldable pub serve : Packages → Bde → Request → Attempt
unfolding unlock unlock_with_recovery_password unlock_with_passphrase unlock_with_clear_key
    unlock_with_external_key
serve p b (with_key key) = unlock p b key
serve p b (with_recovery_password password identifier) =
    unlock_with_recovery_password p b password identifier
serve p b (with_passphrase passphrase identifier) = unlock_with_passphrase p b passphrase identifier
serve p b with_clear_key = unlock_with_clear_key b
serve p b (with_external_key bek offset) = unlock_with_external_key b bek offset

-- Volumes that requests lead to.
pub data Reach (p : Packages) (b : Bde) : Bde → Type 0 where
  here : Reach p b b
  next : {c : Bde} → Reach p b c → (q : Request) → Reach p b (serve p c q).0

-- A volume is as it was, or has the key that its FVEK datum holds under some key.
pub data Keyed (p : Packages) (b : Bde) : Bde → Type 0 where
  unchanged : Keyed p b b
  keyed :
      (vmk key : Bytes) (typ flags : ℕ) (d : Datum)
      → unbox_fvek p b.information.dataset vmk ≡ ok d
      → get_key d ≡ some (typ, flags, key)
      → Keyed p b (record b { fvek = some key; fvek_type = typ })

Keyed-trans : {p : Packages} {b c d : Bde} → Keyed p b c → Keyed p c d → Keyed p b d
Keyed-trans h unchanged = h
Keyed-trans unchanged (keyed vmk key typ flags d u g) = keyed vmk key typ flags d u g
Keyed-trans (keyed vmk key typ flags d u g) (keyed vmk' key' typ' flags' d' u' g') =
    keyed vmk' key' typ' flags' d' u' g'

-- The volume holds a key of a type that `CipherMap` lists.
pub record HasKey (b : Bde) : Type 0 where
  pub key : Bytes
  pub held : b.fvek ≡ some key
  pub supported : in_cipher_map b.fvek_type ≡ true

-- What holds after an attempt.
record IsAttempt (p : Packages) (b : Bde) (a : Attempt) : Type 0 where
  grown : Keyed p b a.0
  success : a.1 ≡ ok tt → HasKey a.0

module _ {ℓ} {A : Type ℓ} where
  pub err-ne-ok : {e : Error} {a : A} → err e ≡ ok a → ⊥
  err-ne-ok h = cc

  pub panic-ne-ok : {a : A} → panic ≡ ok a → ⊥
  panic-ne-ok h = cc

-- A chain whose last step fails does not succeed.
chain_fails {ℓ} :
    {A : Type ℓ} (m : Outcome A) (f : A → Outcome (Unit {0}))
    → ((a : A) → f a ≡ ok tt → ⊥)
    → m >>= f ≡ ok tt
    → ⊥
chain_fails (ok a) f never h = never a h
chain_fails (err e) f never h = err-ne-ok h
chain_fails panic f never h = panic-ne-ok h

-- The volume stays as it is, and the outcome is not success.
abbrev pub IsRefused : Bde → Attempt → Type 0
IsRefused b a = (a.0 ≡ b) × ¬ (a.1 ≡ ok tt)

module _ (p : Packages) (b : Bde) where
  pub clear-IsRefused : IsRefused b (serve p b with_clear_key)
  unfolding serve unlock_with_clear_key
  clear-IsRefused = (refl, chain_fails (require clear_vmk_not_found _) _ (λ d. err-ne-ok))

  pub external-IsRefused :
      (bek : ReaderAt) (offset : ℤ) → IsRefused b (serve p b (with_external_key bek offset))
  unfolding serve unlock_with_external_key
  external-IsRefused bek offset = (
    refl,
    chain_fails (new_dataset bek offset) _ λ ds.
        chain_fails
          (require startup_key_not_found
            (first (find_datum role_startup_key type_external_info ds)))
          _
          λ d. chain_fails (require startup_info_unreadable (get_external_guid d)) _ λ guid.
            chain_fails
              (require no_matching_vmk
                (first_with_guid guid (find_external_vmk b.information.dataset)))
              _ (λ vmk. err-ne-ok),
  )

guard-ok : (test : Bool) (e : Error) → guard test e ≡ ok tt → test ≡ true
guard-ok true e h = refl
guard-ok false e h = absurd (err-ne-ok h)

module _ (p : Packages) where
  failed : (b : Bde) (e : Error) → IsAttempt p b (b, err e)
  failed b e = record { grown = unchanged; success = λ h. absurd (err-ne-ok h) }

  crashed : (b : Bde) → IsAttempt p b (b, panic)
  crashed b = record { grown = unchanged; success = λ h. absurd (panic-ne-ok h) }

  store_fvek-IsAttempt :
      (b : Bde) (vmk : Bytes) (d : Datum) (found : Option (ℕ × ℕ × Bytes))
      → unbox_fvek p b.information.dataset vmk ≡ ok d
      → get_key d ≡ found
      → IsAttempt p b (store_fvek b found)
  unfolding store_fvek
  store_fvek-IsAttempt b vmk d none u g = failed b _
  store_fvek-IsAttempt b vmk d (some (typ, flags, key)) u g = record {
    grown = keyed vmk key typ flags d u g;
    success = λ h. record { key = key; held = refl; supported = guard-ok _ _ h };
  }

  store_unboxed-IsAttempt :
      (b : Bde) (vmk : Bytes) (o : Outcome Datum)
      → unbox_fvek p b.information.dataset vmk ≡ o
      → IsAttempt p b (store_unboxed b o)
  unfolding store_unboxed
  store_unboxed-IsAttempt b vmk (ok d) u = store_fvek-IsAttempt b vmk d (get_key d) u refl
  store_unboxed-IsAttempt b vmk (err e) u = failed b e
  store_unboxed-IsAttempt b vmk panic u = crashed b

  unlock-IsAttempt : (b : Bde) (key : Bytes) → IsAttempt p b (unlock p b key)
  unfolding unlock
  unlock-IsAttempt b key = elim (Bool-cases (check_integrity p b.information key)) [
    | inl e ↦ rw e (store_unboxed-IsAttempt b key (unbox_fvek p b.information.dataset key) refl)
    | inr e ↦ rw (e, store_unboxed) (failed b _)
  ]

  unlock_with-IsAttempt : (b : Bde) (o : Outcome Bytes) → IsAttempt p b (unlock_with p b o)
  unfolding unlock_with
  unlock_with-IsAttempt b (ok key) = unlock-IsAttempt b key
  unlock_with-IsAttempt b (err e) = failed b e
  unlock_with-IsAttempt b panic = crashed b

  try_identified-IsAttempt :
      (b : Bde) (user_key identifier : Bytes) (vmks : List Datum)
      → IsAttempt p b (try_identified p b user_key identifier vmks)
  unfolding try_identified
  try_identified-IsAttempt b user_key identifier [] = failed b _
  try_identified-IsAttempt b user_key identifier (vmk ∷ vmks) =
      elim (Bool-cases (has_identifier identifier vmk)) [
        | inl e ↦ rw e (unlock_with-IsAttempt b (decrypt_vmk_with_user_key p vmk user_key))
        | inr e ↦ rw e (try_identified-IsAttempt b user_key identifier vmks)
      ]

  after_candidate-IsAttempt :
      (b : Bde) (a : Attempt) (again : Bde → Error → Attempt)
      → IsAttempt p b a
      → ((c : Bde) (e : Error) → IsAttempt p c (again c e))
      → IsAttempt p b (after_candidate a again)
  unfolding after_candidate
  after_candidate-IsAttempt b (c, ok u) again h next_try = h
  after_candidate-IsAttempt b (c, err e) again h next_try = record {
    grown = Keyed-trans h.grown (next_try c e).grown;
    success = (next_try c e).success;
  }
  after_candidate-IsAttempt b (c, panic) again h next_try = h

  try_all-IsAttempt :
      (user_key : Bytes) (b : Bde) (last_err : Error) (vmks : List Datum)
      → IsAttempt p b (try_all p user_key b last_err vmks)
  unfolding try_all
  try_all-IsAttempt user_key b last_err [] = failed b last_err
  try_all-IsAttempt user_key b last_err (vmk ∷ vmks) =
      after_candidate-IsAttempt b (unlock_with p b (decrypt_vmk_with_user_key p vmk user_key)) _
        (unlock_with-IsAttempt b (decrypt_vmk_with_user_key p vmk user_key))
        (λ c e. try_all-IsAttempt user_key c e vmks)

  unlock_with_user_key-IsAttempt :
      (b : Bde) (vmks : List Datum) (user_key identifier : Bytes)
      → IsAttempt p b (unlock_with_user_key p b vmks user_key identifier)
  unfolding unlock_with_user_key
  unlock_with_user_key-IsAttempt b vmks user_key [] =
      try_all-IsAttempt user_key b no_compatible_vmk vmks
  unlock_with_user_key-IsAttempt b vmks user_key (c ∷ identifier) =
      try_identified-IsAttempt b user_key (c ∷ identifier) vmks

  unlock_recovered-IsAttempt :
      (b : Bde) (identifier : Bytes) (o : Outcome Bytes)
      → IsAttempt p b (unlock_recovered p b identifier o)
  unfolding unlock_recovered
  unlock_recovered-IsAttempt b identifier (ok key) =
      unlock_with_user_key-IsAttempt b (find_recovery_vmk b.information.dataset) key identifier
  unlock_recovered-IsAttempt b identifier (err e) = failed b e
  unlock_recovered-IsAttempt b identifier panic = crashed b

  serve-IsAttempt : (b : Bde) (q : Request) → IsAttempt p b (serve p b q)
  unfolding serve
  serve-IsAttempt b (with_key key) = unlock-IsAttempt b key
  serve-IsAttempt b (with_recovery_password password identifier) =
      unlock_recovered-IsAttempt b identifier (derive_recovery_key p.sum256 password)
  serve-IsAttempt b (with_passphrase passphrase identifier) =
      unlock_with_user_key-IsAttempt b (find_passphrase_vmk b.information.dataset)
        (derive_user_key p.sum256 p.utf16_encode passphrase) identifier
  serve-IsAttempt b with_clear_key = record {
    grown = unchanged;
    success = λ h. absurd ((clear-IsRefused p b).1 h);
  }
  serve-IsAttempt b (with_external_key bek offset) = record {
    grown = unchanged;
    success = λ h. absurd ((external-IsRefused p b bek offset).1 h);
  }

-- After any sequence of unlock requests, whatever their outcomes, a volume is the one it was at
-- first but for its key, and a key that is new is what its FVEK datum unboxes to under some key,
-- with the type it has there.
pub Reach-Keyed : (p : Packages) (b : Bde) {c : Bde} → Reach p b c → Keyed p b c
Reach-Keyed p b here = unchanged
Reach-Keyed p b (next {c} r q) = Keyed-trans (Reach-Keyed p b r) (serve-IsAttempt p c q).grown

-- A request that succeeds leaves a volume with a key of a type that `CipherMap` lists.
pub serve-HasKey :
    (p : Packages) (b : Bde) (q : Request) → (serve p b q).1 ≡ ok tt → HasKey (serve p b q).0
serve-HasKey p b q h = (serve-IsAttempt p b q).success h
