-- ===== src/Volume/New/Session.antt =====
-- A session (bde.go): a volume from `New`, and then any unlock requests.
use mathlib.Core.List.{Mem}
use go_bde.Base.{
  ℕ, ◌+◌, ◌*◌, ◌%◌, ◌≤◌, ◌<◌, ◌≡◌, refl, subst, ◌⊎◌, inl, inr, true, ◌||◌, Option, some, All,
}
use go_bde.Base.Int.{ℤ, pos}
use go_bde.Base.Bytes.{Bytes}
use go_bde.Outcome.{ok}
use go_bde.Outcome.Yields.{Yields}
use go_bde.Reader.{ReaderAt}
use go_bde.Datum.{Datum}
use go_bde.Dataset.{Information, information_offsets}
use go_bde.Unbox.{get_key}
use go_bde.Region.{is_reserved_sector}
use go_bde.Region.Sort.{FitsInt64}
use go_bde.Search.Sizes.{IsSectorSize}
use go_bde.Volume.{
  Bde, version, decrypted, unlocked, has_fvek, reserved_regions, new_bitlocker_stream,
}
use go_bde.Volume.Reserves.{new_bitlocker_stream-reserves}
use go_bde.Volume.Unlock.{Packages, check_integrity, unbox_fvek}
use go_bde.Volume.Unlock.Trace.{Reach, Keyed, unchanged, keyed, Reach-Keyed}
use go_bde.Volume.New.{new}
use go_bde.Volume.New.Loaded.{IsLoaded, IsNew, new-Yields}

-- The volume of a session is the new one but for its key.
record IsSession (p : Packages) (r : ReaderAt) (c : Bde) : Type 0 where
  sector : IsSectorSize c.sector_size
  loaded : IsLoaded c.information

-- The key of the volume, unboxed from its FVEK datum.
pub record IsFvek (p : Packages) (b : Bde) (key : Bytes) (typ : ℕ) : Type 0 where
  pub vmk : Bytes
  pub flags : ℕ
  pub datum : Datum
  pub unboxed : unbox_fvek p b.information.dataset vmk ≡ ok datum
  pub carries : get_key datum ≡ some (typ, flags, key)

module _ (p : Packages) (r : ReaderAt) (size : ℤ) (reader_size : Option ℤ) (b : Bde) where
  made : new r size reader_size ≡ ok b → IsNew r b
  made e = subst (Yields (IsNew r)) e (new-Yields r size reader_size)

  in_use : (b : Bde) → IsNew r b → IsLoaded b.information
  in_use b n = (subst (All IsLoaded) n.first.1 n.loaded).0

  Keyed-IsSession : {c : Bde} → IsNew r b → Keyed p b c → IsSession p r c
  Keyed-IsSession n unchanged = record { sector = n.sector; loaded = in_use b n }
  Keyed-IsSession n (keyed vmk key typ flags d u g) = record {
    sector = n.sector;
    loaded = in_use b n;
  }

unchecked :
    (p : Packages) (i : Information) (key : Bytes) → IsLoaded i → check_integrity p i key ≡ true
unfolding check_integrity
unchecked p i key l = rw (l.block.unchecked.0, l.block.unchecked.1) refl

-- On a volume from `New`, after any unlock requests, `CheckIntegrity` of its metadata accepts every
-- key: no key is refused before it is used.
pub session-check_integrity :
    (p : Packages) (r : ReaderAt) (size : ℤ) (reader_size : Option ℤ) (b c : Bde) (key : Bytes)
    → new r size reader_size ≡ ok b
    → Reach p b c
    → check_integrity p c.information key ≡ true
session-check_integrity p r size reader_size b c key e reach =
    let n = made p r size reader_size b e in
    unchecked p c.information key
      (Keyed-IsSession p r size reader_size b n (Reach-Keyed p b reach)).loaded

-- A volume from `New`, after any unlock requests, whatever their outcomes, is unlocked only if its
-- metadata says that it is decrypted, or if it holds the key that its own FVEK datum unboxes to,
-- with the type it has there.
pub session-unlocked :
    (p : Packages) (r : ReaderAt) (size : ℤ) (reader_size : Option ℤ) (b c : Bde)
    → new r size reader_size ≡ ok b
    → Reach p b c
    → unlocked c ≡ true
    → (decrypted b ≡ true) ⊎ ((key : Bytes) × (c.fvek ≡ some key) × IsFvek p b key c.fvek_type)
unfolding unlocked decrypted
session-unlocked p r size reader_size b c e reach u = go (Reach-Keyed p b reach) u
  where
    go :
        {c : Bde}
        → Keyed p b c
        → (has_fvek c.fvek || decrypted c) ≡ true
        → (decrypted b ≡ true) ⊎ ((key : Bytes) × (c.fvek ≡ some key) × IsFvek p b key c.fvek_type)
    go unchanged u = inl (rw (made p r size reader_size b e).locked at u)
    go (keyed vmk key typ flags d unboxed g) u =
        inr (
          key,
          refl,
          record { vmk = vmk; flags = flags; datum = d; unboxed = unboxed; carries = g },
        )

-- The stream of a volume from `New`, after any unlock requests, reserves every sector that begins
-- inside of the 64 KiB of an Information block which the metadata names, if the metadata is of
-- version 2 or later, the block begins at a sector, and the ends of all regions are `int64` values.
pub session-reserves :
    (p : Packages) (r : ReaderAt) (size : ℤ) (reader_size : Option ℤ) (b c : Bde) (off s : ℕ)
    → new r size reader_size ≡ ok b
    → Reach p b c
    → 2 ≤ version c
    → All FitsInt64 (reserved_regions c)
    → Mem (pos off) (information_offsets c.information)
    → off % c.sector_size ≡ 0
    → off ≤ s * c.sector_size
    → s * c.sector_size < off + 65536
    → is_reserved_sector (new_bitlocker_stream p.new_cipher c).reserved (pos s) ≡ true
session-reserves p r size reader_size b c off s e reach v fits named aligned lo hi =
    let n = made p r size reader_size b e in
    new_bitlocker_stream-reserves p.new_cipher c off s
      (Keyed-IsSession p r size reader_size b n (Reach-Keyed p b reach)).sector v fits named aligned
      lo hi
