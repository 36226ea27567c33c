-- ===== src/Search/Locators.antt =====
-- `readGuidBlocks` (bde.go): the locator of one sector, and the offsets that it names.
use mathlib.Core.List.{Memᴰ, not-mem-nil}
use go_bde.Base.{
  ℕ, ◌+◌, ◌*◌, ◌≤◌, ◌<◌, ◌≡◌, sym, ap, subst, ◌∙◌, inl, inr, false, leb, leb→le, le→leb, Bool-cases,
  take, drop, arith, Option, none, some, Option-cases, [],
}
use go_bde.Base.Int.{ℤ, pos, ◌+ℤ◌}
use go_bde.Base.Bytes.{Bytes}
use go_bde.Outcome.{ok}
use go_bde.Outcome.Laws.{bind-inv, ok_inj}
use go_bde.Reader.{ReaderAt}
use go_bde.Types.Const.{information_offset_guid, eow_information_offset_guid}
use go_bde.Dataset.{nonzero_offsets}
use go_bde.Eow.{read_at_or_fail}
use go_bde.Search.Signature.{read_at_or_fail-inv}
use go_bde.Search.Words.{HoldsOffset, nonzero_offsets-HoldsOffset, HoldsOffset-listed}
use go_bde.Search.Index.{
  IsFirst, IsAbsent, index-IsFirst, index-IsAbsent, index-first, index-absent,
}
use go_bde.Search.{Found, index, words, locator_bytes, parse_offsets, scan_plain, scan_sector}

-- The place of a sector's locator and its number of offsets: the one with EOW offsets goes first.
pub data Locator (sec : Bytes) : ℕ → ℕ → Type 0 where
  with_eow : {idx : ℕ} → IsFirst eow_information_offset_guid sec idx → Locator sec idx 5
  plain :
      {idx : ℕ}
      → IsAbsent eow_information_offset_guid sec
      → IsFirst information_offset_guid sec idx
      → Locator sec idx 3

-- The bytes behind the GUID at idx of a sector of n bytes that begins at a base: those of the sector, or
-- those that a read at base + idx + 16 gives without an error, if the sector ends before them.
pub data IsBehind (r : ReaderAt) (n : ℕ) (sec : Bytes) (base : ℤ) (idx len : ℕ) (raw : Bytes)
    : Type 0 where
  in_sector :
      idx + 16 + len ≤ n → raw ≡ take len (drop (idx + 16) sec) → IsBehind r n sec base idx len raw
  beyond :
      n < idx + 16 + len
      → (r len (base +ℤ pos idx +ℤ pos 16)).error ≡ none
      → raw ≡ (r len (base +ℤ pos idx +ℤ pos 16)).bytes
      → IsBehind r n sec base idx len raw

-- A locator of a sector that begins at a base names an offset, not 0, in one of its first three
-- numbers of 8 bytes.
pub record SectorNames (r : ReaderAt) (n : ℕ) (sec : Bytes) (base o : ℤ) : Type 0 where
  pub idx : ℕ
  pub count : ℕ
  pub locator : Locator sec idx count
  pub raw : Bytes
  pub behind : IsBehind r n sec base idx (count * 8) raw
  pub listed : HoldsOffset raw 3 o

module _ (r : ReaderAt) (n : ℕ) (sec : Bytes) (base : ℤ) (idx len : ℕ) where
  locator_bytes-IsBehind :
      {raw : Bytes}
      → locator_bytes r n sec base idx len ≡ ok raw
      → IsBehind r n sec base idx len raw
  unfolding locator_bytes
  locator_bytes-IsBehind h = elim (Bool-cases (leb (idx + 16 + len) n)) [
    | inl e ↦ in_sector (leb→le _ _ e) (sym (ok_inj (rw e at h)))
    | inr e ↦
        let (no_error, same) = read_at_or_fail-inv r len (base +ℤ pos idx +ℤ pos 16) (rw e at h) in
        beyond (above _ _ e) no_error (sym same)
  ]
    where
      above : (a b : ℕ) → leb a b ≡ false → b < a
      above a b e = ground arith

  IsBehind-locator_bytes :
      {raw : Bytes}
      → IsBehind r n sec base idx len raw
      → locator_bytes r n sec base idx len ≡ ok raw
  unfolding locator_bytes read_at_or_fail
  IsBehind-locator_bytes (in_sector l e) = rw (le→leb _ _ l) (ap ok (sym e))
  IsBehind-locator_bytes (beyond l no_error e) =
      rw (below _ _ l, no_error, read_at_or_fail) (ap ok (sym e))
    where
      below : (a b : ℕ) → b < a → leb a b ≡ false
      below a b l = ground arith

pub not_listed : (o : ℤ) → Memᴰ o [] → ⊥
not_listed o m = not-mem-nil ∣ m ∣₁

module _ (r : ReaderAt) (n : ℕ) where
  parse_offsets-info :
      (sec : Bytes) (base : ℤ) (idx m : ℕ) {f : Found} {raw : Bytes}
      → parse_offsets r n sec base idx 3 m ≡ ok f
      → locator_bytes r n sec base idx ((3 + m) * 8) ≡ ok raw
      → f.info_offsets ≡ nonzero_offsets (words 3 raw)
  unfolding parse_offsets
  parse_offsets-info sec base idx m h e = sym (ap (λ f. f.info_offsets) (ok_inj (rw e at h)))

  parse_offsets-raw :
      (sec : Bytes) (base : ℤ) (idx m : ℕ) {f : Found}
      → parse_offsets r n sec base idx 3 m ≡ ok f
      → (raw : Bytes) × (locator_bytes r n sec base idx ((3 + m) * 8) ≡ ok raw)
  unfolding parse_offsets
  parse_offsets-raw sec base idx m h =
      let (raw, e, rest) = bind-inv (locator_bytes r n sec base idx ((3 + m) * 8)) _ h in (raw, e)

  names :
      (sec : Bytes) (base o : ℤ) (idx m : ℕ) {f : Found}
      → Locator sec idx (3 + m)
      → parse_offsets r n sec base idx 3 m ≡ ok f
      → Memᴰ o f.info_offsets
      → SectorNames r n sec base o
  names sec base o idx m l h listed =
      let (raw, e) = parse_offsets-raw sec base idx m h in
      record {
        idx = idx;
        count = 3 + m;
        locator = l;
        raw = raw;
        behind = locator_bytes-IsBehind r n sec base idx ((3 + m) * 8) e;
        listed =
            nonzero_offsets-HoldsOffset 3 raw o
              (subst (Memᴰ o) (parse_offsets-info sec base idx m h e) listed);
      }

  -- What the sector holds, by where its locator is.
  scan_sector-with_eow :
      (sec : Bytes) (base : ℤ) {idx : ℕ}
      → index eow_information_offset_guid sec ≡ some idx
      → scan_sector r n sec base (index eow_information_offset_guid sec)
        ≡ parse_offsets r n sec base idx 3 2
  unfolding scan_sector
  scan_sector-with_eow sec base e = ap (scan_sector r n sec base) e

  scan_sector-plain :
      (sec : Bytes) (base : ℤ) (place : Option ℕ)
      → index eow_information_offset_guid sec ≡ none
      → index information_offset_guid sec ≡ place
      → scan_sector r n sec base (index eow_information_offset_guid sec)
        ≡ scan_plain r n sec base place
  unfolding scan_sector
  scan_sector-plain sec base place e g =
      ap (scan_sector r n sec base) e ∙ ap (scan_plain r n sec base) g

  pub scan_sector-SectorNames :
      (sec : Bytes) (base o : ℤ) {f : Found}
      → scan_sector r n sec base (index eow_information_offset_guid sec) ≡ ok f
      → Memᴰ o f.info_offsets
      → SectorNames r n sec base o
  unfolding scan_plain
  scan_sector-SectorNames sec base o h m =
      elim (Option-cases (index eow_information_offset_guid sec)) [
        | inr (idx, e) ↦
            names sec base o idx 2 (with_eow (index-IsFirst eow_information_offset_guid sec e))
              (sym (scan_sector-with_eow sec base e) ∙ h) m
        | inl e ↦ elim (Option-cases (index information_offset_guid sec)) [
          | inr (idx, g) ↦
              names sec base o idx 0
                (plain (index-IsAbsent eow_information_offset_guid sec e)
                  (index-IsFirst information_offset_guid sec g))
                (sym (scan_sector-plain sec base (some idx) e g) ∙ h) m
          | inl g ↦ absurd (
              not_listed o (
                subst (Memᴰ o)
                  (sym (
                    ap (λ f. f.info_offsets)
                      (ok_inj (sym (scan_sector-plain sec base none e g) ∙ h))))
                  m))
        ]
      ]

  pub scan_sector-listed :
      (sec : Bytes) (base o : ℤ) {f : Found}
      → scan_sector r n sec base (index eow_information_offset_guid sec) ≡ ok f
      → SectorNames r n sec base o
      → Memᴰ o f.info_offsets
  unfolding scan_plain
  scan_sector-listed sec base o {f = f} h s =
      go s.locator (IsBehind-locator_bytes r n sec base s.idx (s.count * 8) s.behind)
    where
      go :
          {idx count : ℕ}
          → Locator sec idx count
          → locator_bytes r n sec base idx (count * 8) ≡ ok s.raw
          → Memᴰ o f.info_offsets
      go {idx} (with_eow first) b =
          let e = index-first eow_information_offset_guid sec first in
          subst (Memᴰ o)
            (sym (parse_offsets-info sec base idx 2 (sym (scan_sector-with_eow sec base e) ∙ h) b))
            (HoldsOffset-listed 3 s.raw o s.listed)
      go {idx} (plain absent first) b =
          let e = index-absent eow_information_offset_guid sec absent in
          let g = index-first information_offset_guid sec first in
          subst (Memᴰ o)
            (sym (
              parse_offsets-info sec base idx 0
                (sym (scan_sector-plain sec base (some idx) e g) ∙ h) b))
            (HoldsOffset-listed 3 s.raw o s.listed)
