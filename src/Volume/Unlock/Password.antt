-- ===== src/Volume/Unlock/Password.antt =====
-- `UnlockWithRecoveryPassword` (bde.go) on a volume that was sealed with the password's key.
use go_bde.Base.{
  ℕ, ◌%◌, ◌^◌, ◌<◌, ◌≡◌, refl, ap, ◌∙◌, true, some, List, [], ◌∷◌, ◌++◌, length, replicate, All,
  map, ==_iff,
}
use go_bde.Base.Int.{ℤ, pos}
use go_bde.Base.Bytes.{Bytes}
use go_bde.Outcome.{Error, ok, err, guard, unsupported_cipher_type, no_compatible_vmk}
use go_bde.Types.Const.{key_type_vmk, type_aes_ccm_encrypted_key, type_stretch_key}
use go_bde.Datum.{Datum, properties}
use go_bde.Datum.Fields.{get_stretch_key}
use go_bde.Dataset.{first, find_fvek, find_property, find_recovery_vmk}
use go_bde.Cipher.Ccm.{IsCtr}
use go_bde.Keys.{Hash, stretch_rounds, round_count, stretch}
use go_bde.Keys.Password.{join, block_text, concat_le, derive_recovery_key-join}
use go_bde.Volume.{Bde}
use go_bde.Volume.Unlock.{
  Packages, check_integrity, in_cipher_map, unlock, vmk_key, stretched_key,
  decrypt_vmk_with_user_key, unlock_with, after_candidate, try_all, unlock_with_user_key,
  unlock_recovered, unlock_with_recovery_password,
}
use go_bde.Volume.Unlock.Sealed.{IsSealed, IsSealed-Opens, unlock-Opens}

-- The key of the default number of rounds.
unfoldable pub rounds_key : Hash → Bytes → Bytes → Bytes
rounds_key sum256 password salt =
    stretch_rounds sum256 password salt (round_count (pos 0)) 0 (replicate {A = ℕ} 32 0)

stretch-stretch_rounds :
    (sum256 : Hash) (password salt : Bytes) (rounds : ℤ) (n : ℕ)
    → round_count rounds ≡ n
    → length password ≡ 32
    → length salt ≡ 16
    → stretch sum256 password salt rounds
      ≡ ok (stretch_rounds sum256 password salt n 0 (replicate {A = ℕ} 32 0))
unfolding stretch
stretch-stretch_rounds sum256 password salt rounds n r h k =
    rw ((==_iff _ _).1 h, (==_iff _ _).1 k, r) refl

stretch-rounds_key :
    (sum256 : Hash) (password salt : Bytes)
    → length password ≡ 32
    → length salt ≡ 16
    → stretch sum256 password salt (pos 0) ≡ ok (rounds_key sum256 password salt)
unfolding rounds_key
stretch-rounds_key sum256 password salt h k =
    stretch-stretch_rounds sum256 password salt (pos 0) (round_count (pos 0)) refl h k

-- A VMK datum whose properties hold a salt, and a key that is sealed under the user key, stretched.
pub record IsProtected (p : Packages) (user_key : Bytes) (vmk : Datum) (held : Bytes) : Type 0 where
  pub stretch_datum : Datum
  pub typ : ℕ
  pub flags : ℕ
  pub salt : Bytes
  pub encrypted : Datum
  pub stretched : first (find_property type_stretch_key (properties vmk)) ≡ some stretch_datum
  pub salted : get_stretch_key stretch_datum ≡ some (typ, flags, salt)
  pub salt_length : length salt ≡ 16
  pub listed : first (find_property type_aes_ccm_encrypted_key (properties vmk)) ≡ some encrypted
  pub is_sealed : IsSealed p (rounds_key p.sum256 user_key salt) encrypted key_type_vmk held

-- A candidate that does not decrypt.
abbrev pub Refused : Packages → Bytes → Datum → Type 0
Refused p user_key vmk = (e : Error) × (decrypt_vmk_with_user_key p vmk user_key ≡ err e)

module _ (p : Packages) (is_ctr : IsCtr p.new_ctr) where
  decrypt_vmk-IsProtected :
      (user_key : Bytes) (vmk : Datum) (held : Bytes)
      → length user_key ≡ 32
      → IsProtected p user_key vmk held
      → decrypt_vmk_with_user_key p vmk user_key ≡ ok held
  unfolding decrypt_vmk_with_user_key stretched_key vmk_key
  decrypt_vmk-IsProtected user_key vmk held len h =
      let o = IsSealed-Opens p _ h.encrypted key_type_vmk held is_ctr h.is_sealed in
      rw
        (
          h.stretched,
          h.salted,
          stretch-rounds_key p.sum256 user_key h.salt len h.salt_length,
          h.listed,
          o.unboxed,
          o.fields,
        )
        refl

  try_all-candidate :
      (user_key : Bytes) (b : Bde) (last_err : Error) (before after : List Datum) (vmk : Datum)
      (vmk_held : Bytes) (c : Bde)
      → All (Refused p user_key) before
      → decrypt_vmk_with_user_key p vmk user_key ≡ ok vmk_held
      → unlock p b vmk_held ≡ (c, ok tt)
      → try_all p user_key b last_err (before ++ vmk ∷ after) ≡ (c, ok tt)
  unfolding try_all unlock_with after_candidate
  try_all-candidate user_key b last_err [] after vmk vmk_held c refused e u = rw (e, u) refl
  try_all-candidate user_key b last_err (d ∷ before) after vmk vmk_held c ((x, h), hs) e u =
      rw h (try_all-candidate user_key b x before after vmk vmk_held c hs e u)

-- A volume whose FVEK is sealed under a volume master key, which a recovery VMK protects with a user
-- key; the candidates before it do not decrypt.
pub record IsUnlockable (p : Packages) (b : Bde) (user_key fvek : Bytes) (typ : ℕ) : Type 0 where
  pub vmk_held : Bytes
  pub vmk : Datum
  pub before : List Datum
  pub after : List Datum
  pub fvek_datum : Datum
  pub method : ℕ
  pub valid : check_integrity p b.information vmk_held ≡ true
  pub candidates : find_recovery_vmk b.information.dataset ≡ before ++ vmk ∷ after
  pub refused : All (Refused p user_key) before
  pub is_protected : IsProtected p user_key vmk vmk_held
  pub found : find_fvek b.information.dataset ≡ some fvek_datum
  pub is_sealed : IsSealed p vmk_held fvek_datum method fvek
  pub typ_is : method % 2 ^ 16 ≡ typ
  pub listed : in_cipher_map typ ≡ true

-- Without an identifier, `UnlockWithRecoveryPassword` of the password of eight 16-bit numbers
-- unlocks a volume whose FVEK is sealed under a volume master key that a recovery VMK protects with
-- the password's key: it succeeds and changes the volume's key and key type alone, to those of the
-- FVEK datum. It does so if the check of the integrity accepts the volume master key, and the key
-- type, the low 16 bits of the sealed method, is one that `CipherMap` lists. The hash gives 32
-- bytes, the key stream undoes itself, the block ciphers write 16 bytes, and the recovery VMKs
-- before the right one do not decrypt.
pub unlock_with_recovery_password-IsUnlockable :
    (p : Packages) (b : Bde) (ns : List ℕ) (fvek : Bytes) (typ : ℕ)
    → IsCtr p.new_ctr
    → ((bytes : Bytes) → length (p.sum256 bytes) ≡ 32)
    → length ns ≡ 8
    → All (λ n. n < 65536) ns
    → IsUnlockable p b (p.sum256 (concat_le ns)) fvek typ
    → unlock_with_recovery_password p b (join b'-' (map block_text ns)) []
      ≡ (record b { fvek = some fvek; fvek_type = typ }, ok tt)
unfolding unlock_with_recovery_password unlock_recovered unlock_with_user_key
unlock_with_recovery_password-IsUnlockable p b ns fvek typ is_ctr hash eight small h =
    let key : Bytes = p.sum256 (concat_le ns) in
    let opened =
      unlock-Opens p b h.vmk_held h.fvek_datum (h.method % 2 ^ 16) fvek h.valid h.found
        (IsSealed-Opens p h.vmk_held h.fvek_datum h.method fvek is_ctr h.is_sealed) in
    let stored : unlock p b h.vmk_held ≡ (record b { fvek = some fvek; fvek_type = typ }, ok tt) =
      opened
      ∙ ap
          (λ t. (
            record b { fvek = some fvek; fvek_type = t },
            guard (in_cipher_map t) unsupported_cipher_type,
          ))
          h.typ_is
      ∙ ap (λ t. (record b { fvek = some fvek; fvek_type = typ }, guard t unsupported_cipher_type))
          h.listed in
    rw (derive_recovery_key-join p.sum256 ns eight small, h.candidates)
      (try_all-candidate p is_ctr key b no_compatible_vmk h.before h.after h.vmk h.vmk_held _
        h.refused (decrypt_vmk-IsProtected p is_ctr key h.vmk h.vmk_held (hash _) h.is_protected)
        stored)
