-- ===== src/Search/Scan.antt =====
-- `readGuidBlocks` (bde.go): the offsets of Information blocks that a scan finds, and the locators that
-- name them.
use mathlib.Core.List.{Memᴰ}
use go_bde.Base.{
  ℕ, zero, suc, ◌+◌, ◌≤◌, ◌<◌, ◌≡◌, sym, ap, subst, ◌⊎◌, inl, inr, arith, Memᴰ-append_left,
  Memᴰ-append_right, Memᴰ-append_inv, none,
}
use go_bde.Base.Int.{ℤ, pos, ◌*ℤ◌}
use go_bde.Base.Bytes.{Bytes}
use go_bde.Outcome.{ok}
use go_bde.Outcome.Laws.{bind-inv, ok_inj}
use go_bde.Reader.{ReaderAt}
use go_bde.Types.Const.{eow_information_offset_guid}
use go_bde.Eow.{read_at_or_fail}
use go_bde.Search.Signature.{read_at_or_fail-inv}
use go_bde.Search.Locators.{SectorNames, not_listed, scan_sector-SectorNames, scan_sector-listed}
use go_bde.Search.{Found, index, scan_sector, scan_from, try_scan}

-- One of `count` sectors, from a sector on, names an offset.
pub record Names (r : ReaderAt) (n count from : ℕ) (o : ℤ) : Type 0 where
  pub sector : ℕ
  pub above : from ≤ sector
  pub below : sector < from + count
  pub readable : (r n (pos sector *ℤ pos n)).error ≡ none
  pub named : SectorNames r n (r n (pos sector *ℤ pos n)).bytes (pos sector *ℤ pos n) o

module _ (r : ReaderAt) (n : ℕ) where
  scan_from-Names :
      (count from : ℕ) (o : ℤ) {f : Found}
      → scan_from r n count from ≡ ok f
      → Memᴰ o f.info_offsets
      → Names r n count from o
  unfolding scan_from
  scan_from-Names zero from o h m =
      absurd (not_listed o (subst (Memᴰ o) (sym (ap (λ f. f.info_offsets) (ok_inj h))) m))
  scan_from-Names (suc count) from o h m =
      let base : ℤ = pos from *ℤ pos n in
      let (sec, read, rest) = bind-inv (read_at_or_fail r n base) _ h in
      let (f, scanned, more) =
        bind-inv (scan_sector r n sec base (index eow_information_offset_guid sec)) _ rest in
      let (g, found, end) = bind-inv (scan_from r n count (suc from)) _ more in
      elim (Memᴰ-append_inv f.info_offsets g.info_offsets
        (subst (Memᴰ o) (sym (ap (λ f. f.info_offsets) (ok_inj end))) m)) [
          | inl l ↦ record {
            sector = from;
            above = omega arith;
            below = omega arith;
            readable = (read_at_or_fail-inv r n base read).0;
            named =
                subst (λ t. SectorNames r n t base o) (sym (read_at_or_fail-inv r n base read).1)
                  (scan_sector-SectorNames r n sec base o scanned l);
          }
          | inr l ↦
              let s = scan_from-Names count (suc from) o found l in
              record {
                sector = s.sector;
                above = omega (arith, s.above);
                below = omega (arith, s.below);
                readable = s.readable;
                named = s.named;
              }
        ]

  scan_from-listed :
      (count from : ℕ) (o : ℤ) {f : Found}
      → scan_from r n count from ≡ ok f
      → Names r n count from o
      → Memᴰ o f.info_offsets
  unfolding scan_from
  scan_from-listed zero from o h s = absurd (omega (arith, s.above, s.below))
  scan_from-listed (suc count) from o h s =
      let base : ℤ = pos from *ℤ pos n in
      let (sec, read, rest) = bind-inv (read_at_or_fail r n base) _ h in
      let (f, scanned, more) =
        bind-inv (scan_sector r n sec base (index eow_information_offset_guid sec)) _ rest in
      let (g, found, end) = bind-inv (scan_from r n count (suc from)) _ more in
      subst (Memᴰ o) (ap (λ f. f.info_offsets) (ok_inj end)) (elim (split s.sector s.above) [
        | inl e ↦
            Memᴰ-append_left g.info_offsets
              (scan_sector-listed r n sec base o scanned (at_once e read))
        | inr l ↦ Memᴰ-append_right f.info_offsets (
            scan_from-listed count (suc from) o found record {
              sector = s.sector;
              above = l;
              below = omega (arith, s.below);
              readable = s.readable;
              named = s.named;
            })
      ])
    where
      split : (k : ℕ) → from ≤ k → (k ≡ from) ⊎ (suc from ≤ k)
      split k h = ground arith

      -- A sector is read once.
      at_once :
          {sec : Bytes}
          → s.sector ≡ from
          → read_at_or_fail r n (pos from *ℤ pos n) ≡ ok sec
          → SectorNames r n sec (pos from *ℤ pos n) o
      at_once e read =
          subst (λ t. SectorNames r n t (pos from *ℤ pos n) o)
            (read_at_or_fail-inv r n (pos from *ℤ pos n) read).1
            (subst (λ k. SectorNames r n (r n (pos k *ℤ pos n)).bytes (pos k *ℤ pos n) o) e s.named)

-- A scan that succeeds finds an offset for an Information block exactly if one of the sectors names
-- it: if it is not 0 and is among the first three words behind the first EOW locator GUID of the
-- sector or, if there is none, behind its first plain locator GUID: those in the sector or, if the
-- sector ends before them, those that a read of the source behind the GUID gives.
pub try_scan_iff :
    (r : ReaderAt) (n count : ℕ) (o : ℤ) (f : Found)
    → try_scan r n count ≡ ok f
    → (Memᴰ o f.info_offsets → Names r n count 0 o) × (Names r n count 0 o → Memᴰ o f.info_offsets)
unfolding try_scan
try_scan_iff r n count o f h = (scan_from-Names r n count 0 o h, scan_from-listed r n count 0 o h)
