-- ===== src/Volume/Unlock/Sealed.antt =====
-- `Unlock` (bde.go) on a volume whose key was sealed.
use go_bde.Base.{ℕ, ◌%◌, ◌^◌, ◌<◌, ◌≡◌, refl, ap, ◌∙◌, true, false, Option, some, length}
use go_bde.Base.Bytes.{Bytes}
use go_bde.Outcome.{Outcome, ok, err, panic, guard, ◌>>=◌, unsupported_cipher_type}
use go_bde.Types.{FveDatum}
use go_bde.Types.Const.{type_aes_ccm_encrypted_key}
use go_bde.Datum.{Datum, Datums}
use go_bde.Dataset.{find_fvek}
use go_bde.Cipher.{CipherBlock}
use go_bde.Cipher.Ccm.{IsCtr}
use go_bde.Unbox.{unbox, get_key}
use go_bde.Unbox.Sealed.{container, sealed, unbox-sealed}
use go_bde.Volume.{Bde, unlocked}
use go_bde.Volume.Unlock.{
  Packages, check_integrity, in_cipher_map, store_fvek, store_unboxed, unbox_fvek, unlock,
}

-- Under a key, a datum holds a key of a type.
pub record Opens (p : Packages) (key : Bytes) (d : Datum) (typ : ℕ) (held : Bytes) : Type 0 where
  pub inner : Datum
  pub unboxed : unbox p.new_cipher p.new_ctr key d ≡ ok inner
  pub fields : get_key inner ≡ some (typ, 0, held)

-- A datum that seals a container with a key under another key.
pub record IsSealed (p : Packages) (key : Bytes) (d : Datum) (method : ℕ) (held : Bytes)
    : Type 0 where
  pub block : CipherBlock
  pub head : FveDatum
  pub prefix : Bytes
  pub date : ℕ
  pub counter : ℕ
  pub props : Datums
  pub is : d ≡ sealed p.new_ctr block head date counter (container prefix method held) props
  pub typ_is : head.typ ≡ type_aes_ccm_encrypted_key
  pub takes : p.new_cipher key ≡ ok block
  pub writes : (b : Bytes) → length (block.encrypt b) ≡ 16
  pub eight : length prefix ≡ 8
  pub small : length (container prefix method held) < 2 ^ 24

fields-inv :
    (m : Outcome Datum) (found : Option (ℕ × ℕ × Bytes))
    → (m >>= λ d. ok (get_key d)) ≡ ok found
    → (d : Datum) × (m ≡ ok d) × (get_key d ≡ found)
fields-inv (ok d) found h = (d, refl, ok_inj h)
  where
    ok_inj : {a b : Option (ℕ × ℕ × Bytes)} → ok a ≡ ok b → a ≡ b
    ok_inj e = cc
fields-inv (err e) found h = absurd cc
fields-inv panic found h = absurd cc

pub IsSealed-Opens :
    (p : Packages) (key : Bytes) (d : Datum) (method : ℕ) (held : Bytes)
    → IsCtr p.new_ctr
    → IsSealed p key d method held
    → Opens p key d (method % 2 ^ 16) held
IsSealed-Opens p key d method held is_ctr s =
    let found = fields-inv (unbox p.new_cipher p.new_ctr key d) (some (method % 2 ^ 16, 0, held)) (
      ap (λ d. unbox p.new_cipher p.new_ctr key d >>= λ u. ok (get_key u)) s.is
      ∙ unbox-sealed p.new_cipher p.new_ctr s.block key s.head s.date s.counter method s.prefix held
          s.props is_ctr s.writes s.takes s.typ_is s.eight s.small) in
    record { inner = found.0; unboxed = found.1; fields = found.2 }

-- `Unlock` with the key under which the FVEK datum holds a key.
pub unlock-Opens :
    (p : Packages) (b : Bde) (key : Bytes) (d : Datum) (typ : ℕ) (held : Bytes)
    → check_integrity p b.information key ≡ true
    → find_fvek b.information.dataset ≡ some d
    → Opens p key d typ held
    → unlock p b key ≡ (
      record b { fvek = some held; fvek_type = typ },
      guard (in_cipher_map typ) unsupported_cipher_type,
    )
unfolding unlock unbox_fvek
unlock-Opens p b key d typ held valid found o =
    rw (valid, found, o.unboxed, store_unboxed, o.fields, store_fvek) refl

-- `Unlock` of a volume whose FVEK datum holds a key of a type that `CipherMap` does not list
-- returns an error, and leaves the volume unlocked with that key, if the datum is sealed under the
-- given key and the integrity check passes.
pub unlock_unsupported :
    (p : Packages) (b : Bde) (key : Bytes) (d : Datum) (method : ℕ) (held : Bytes)
    → IsCtr p.new_ctr
    → check_integrity p b.information key ≡ true
    → find_fvek b.information.dataset ≡ some d
    → IsSealed p key d method held
    → in_cipher_map (method % 2 ^ 16) ≡ false
    → ((unlock p b key).1 ≡ err unsupported_cipher_type) × (unlocked (unlock p b key).0 ≡ true)
unfolding unlocked
unlock_unsupported p b key d method held is_ctr valid found s unlisted =
    let e =
      unlock-Opens p b key d (method % 2 ^ 16) held valid found
        (IsSealed-Opens p key d method held is_ctr s) in
    rw (e, unlisted) (refl, refl)
