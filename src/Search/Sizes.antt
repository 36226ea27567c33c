-- ===== src/Search/Sizes.antt =====
-- `parseBootSector` (bde.go): the sector and cluster sizes that it derives.
use go_bde.Base.{
  ℕ, zero, suc, ◌+◌, ◌*◌, ◌^◌, ◌≤◌, ◌<◌, ◌≡◌, refl, ◌⊎◌, inl, inr, Bool, true, false, ◌||◌, arith,
  ltb, leb, ◌==◌, if◌then◌else◌, Bool-cases, ltb→lt, Option, none, some, Option-cases, length, ◌&&◌,
}
use native.Mathlib.Nat.{pow-suc}
use go_bde.Types.Const.{information_offset_guid, eow_information_offset_guid}
use go_bde.Base.Int.{ℤ, pos, ◌*ℤ◌}
use go_bde.Base.Bytes.{Bytes}
use go_bde.Outcome.{Outcome, ok}
use go_bde.Outcome.Yields.{Yields, Yields-bind}
use go_bde.Reader.{ReaderAt}
use go_bde.Types.{BootSector, boot_sector_size, decode_boot_sector}
use go_bde.Dataset.{read_full_at}
use go_bde.Dataset.Load.{read_full_at-Yields}
use go_bde.Eow.{read_at_or_fail}
use go_bde.Search.{
  Found, index, locator_bytes, parse_offsets, scan_plain, scan_sector, scan_from, try_scan, scan_or,
  read_guid_blocks, lcn_found, is_empty,
}
use go_bde.Search.Boot.{
  sector_size_of, cluster_size_of, boot_sector_data, BootSectorData, parse_boot_sector,
}

-- The sector sizes in use.
abbrev pub IsSectorSize : ℕ → Type 0
IsSectorSize n = (n ≡ 512) ⊎ (n ≡ 1024) ⊎ (n ≡ 2048) ⊎ (n ≡ 4096)

shifted : (k : ℕ) → 9 ≤ k → k ≤ 12 → IsSectorSize (2 ^ k)
shifted k h l = elim (cases k h l) [
  | inl e ↦ rw e (inl refl)
  | inr (inl e) ↦ rw e (inr (inl refl))
  | inr (inr (inl e)) ↦ rw e (inr (inr (inl refl)))
  | inr (inr (inr e)) ↦ rw e (inr (inr (inr refl)))
]
  where
    cases : (k : ℕ) → 9 ≤ k → k ≤ 12 → (k ≡ 9) ⊎ (k ≡ 10) ⊎ (k ≡ 11) ⊎ (k ≡ 12)
    cases k h l = ground arith

sector_size_of-IsSectorSize : (bs : BootSector) → IsSectorSize (sector_size_of bs)
unfolding sector_size_of
sector_size_of-IsSectorSize bs = go bs.bytes_per_sector bs.bytes_per_sector_shift
  where
    listed : (n : ℕ) → (n == 512 || n == 1024 || n == 2048 || n == 4096) ≡ true → IsSectorSize n
    listed n h = ground arith

    between : (k : ℕ) → (ltb k 9 || ltb 12 k) ≡ false → (9 ≤ k) × (k ≤ 12)
    between k h = ground arith

    by_shift : (k : ℕ) → IsSectorSize (if ltb k 9 || ltb 12 k then 512 else 2 ^ k)
    by_shift k = elim (Bool-cases (ltb k 9 || ltb 12 k)) [
      | inl e ↦ rw e (inl refl)
      | inr e ↦ rw e (shifted k (between k e).0 (between k e).1)
    ]

    go :
        (n k : ℕ)
        → IsSectorSize (
            if n == 512 || n == 1024 || n == 2048 || n == 4096
            then n
            else if ltb k 9 || ltb 12 k
            then 512
            else 2 ^ k)
    go n k = elim (Bool-cases (n == 512 || n == 1024 || n == 2048 || n == 4096)) [
      | inl e ↦ rw e (listed n e)
      | inr e ↦ rw e (by_shift k)
    ]

cluster_size_of-le : (bs : BootSector) (n : ℕ) → n ≤ cluster_size_of bs n
unfolding cluster_size_of
cluster_size_of-le bs n = go bs.sectors_per_cluster bs.sectors_per_cluster_shift
  where
    times : (m : ℕ) → 0 < m → n ≤ n * m
    times m h = grind arith

    pow-pos : (k : ℕ) → 0 < 2 ^ k
    pow-pos zero = omega arith
    pow-pos (suc k) = omega (arith, pow-suc 2 k, pow-pos k)

    by_shift : (k : ℕ) → n ≤ (if ltb 25 k then n else n * 2 ^ k)
    by_shift k = elim (Bool-cases (ltb 25 k)) [
      | inl e ↦ rw e (omega arith)
      | inr e ↦ rw e (times (2 ^ k) (pow-pos k))
    ]

    go : (m k : ℕ) → n ≤ (if ltb 0 m then n * m else if ltb 25 k then n else n * 2 ^ k)
    go m k = elim (Bool-cases (ltb 0 m)) [
      | inl e ↦ rw e (times m (ltb→lt 0 m e))
      | inr e ↦ rw e (by_shift k)
    ]

-- The outcome is a value or an error.
abbrev pub Ends {ℓ} : {A : Type ℓ} → Outcome A → Type 0
Ends = Yields (λ a. Unit)

module _ (r : ReaderAt) where
  pub read_at_or_fail-Ends : (len : ℕ) (off : ℤ) → Ends (read_at_or_fail r len off)
  unfolding read_at_or_fail
  read_at_or_fail-Ends len off = elim (Option-cases (r len off).error) [
    | inl e ↦ rw (e, read_at_or_fail) tt
    | inr (a, e) ↦ rw (e, read_at_or_fail) tt
  ]

  module _ (sector_size : ℕ) where
    parse_offsets-Ends :
        (sec : Bytes) (base : ℤ) (idx n m : ℕ) → Ends (parse_offsets r sector_size sec base idx n m)
    unfolding parse_offsets locator_bytes
    parse_offsets-Ends sec base idx n m =
        Yields-bind (λ b. Unit) (λ f. Unit) (locator_bytes r sector_size sec base idx ((n + m) * 8))
          _
          (elim (Bool-cases (leb (idx + 16 + (n + m) * 8) sector_size)) [
            | inl e ↦ rw e tt
            | inr e ↦ rw e (read_at_or_fail-Ends _ _)
          ])
          (λ b h. tt)

    scan_plain-Ends :
        (sec : Bytes) (base : ℤ) (o : Option ℕ) → Ends (scan_plain r sector_size sec base o)
    unfolding scan_plain
    scan_plain-Ends sec base none = tt
    scan_plain-Ends sec base (some idx) = parse_offsets-Ends sec base idx 3 0

    scan_sector-Ends :
        (sec : Bytes) (base : ℤ) (o : Option ℕ) → Ends (scan_sector r sector_size sec base o)
    unfolding scan_sector
    scan_sector-Ends sec base none = scan_plain-Ends sec base (index information_offset_guid sec)
    scan_sector-Ends sec base (some idx) = parse_offsets-Ends sec base idx 3 2

    scan_from-Ends : (count sector : ℕ) → Ends (scan_from r sector_size count sector)
    unfolding scan_from
    scan_from-Ends zero sector = tt
    scan_from-Ends (suc count) sector =
        let base : ℤ = pos sector *ℤ pos sector_size in
        Yields-bind (λ b. Unit) (λ f. Unit) (read_at_or_fail r sector_size base) _
          (read_at_or_fail-Ends sector_size base)
          λ sec _.
            Yields-bind (λ f. Unit) (λ f. Unit)
              (scan_sector r sector_size sec base (index eow_information_offset_guid sec)) _
              (scan_sector-Ends sec base (index eow_information_offset_guid sec))
              λ f _.
                Yields-bind (λ g. Unit) (λ f. Unit) (scan_from r sector_size count (suc sector)) _
                  (scan_from-Ends count (suc sector)) (λ g _. tt)

    scan_or-Ends : (next : Outcome Found) → Ends next → Ends (scan_or r sector_size next)
    unfolding scan_or try_scan
    scan_or-Ends next h =
        Yields-bind (λ f. Unit) (λ f. Unit) (scan_from r sector_size 256 0) _ (scan_from-Ends 256 0)
          λ f _. elim (Bool-cases (is_empty f.info_offsets && is_empty f.eow_offsets)) [
            | inl e ↦ rw e h
            | inr e ↦ rw e tt
          ]

  -- A scan that is left out for one sector size.
  unless-Ends : (skip : Bool) (a b : Outcome Found) → Ends a → Ends b → Ends (if skip then a else b)
  unless-Ends true a b h k = h
  unless-Ends false a b h k = k

  read_guid_blocks-Ends :
      (sector_size cluster_size lcn : ℕ) → Ends (read_guid_blocks r sector_size cluster_size lcn)
  unfolding read_guid_blocks
  read_guid_blocks-Ends sector_size cluster_size lcn =
      let last : Outcome Found = ok (lcn_found lcn cluster_size) in
      let third : Outcome Found = (if sector_size == 4096 then last else scan_or r 4096 last) in
      let third_ends : Ends third =
        unless-Ends (sector_size == 4096) last (scan_or r 4096 last) tt
          (scan_or-Ends 4096 last tt) in
      scan_or-Ends sector_size _ (
        unless-Ends (sector_size == 512) third (scan_or r 512 third) third_ends
          (scan_or-Ends 512 third third_ends))

-- The sizes of a parsed boot sector.
pub record HasSizes (d : BootSectorData) : Type 0 where
  pub sector : IsSectorSize d.sector_size
  pub cluster : d.sector_size ≤ d.cluster_size

-- Over any source, `parseBootSector` ends with an error, or with a sector size of 512, 1024, 2048
-- or 4096 and a cluster of one sector at least. It does not panic.
pub parse_boot_sector-Yields : (r : ReaderAt) → Yields HasSizes (parse_boot_sector r)
unfolding parse_boot_sector boot_sector_data
parse_boot_sector-Yields r =
    Yields-bind (λ b. length b ≡ boot_sector_size) HasSizes
      (read_full_at r boot_sector_size (pos 0)) _ (read_full_at-Yields r boot_sector_size (pos 0))
      λ bytes _.
        let bs : BootSector = decode_boot_sector bytes in
        let n : ℕ = sector_size_of bs in
        Yields-bind (λ f. Unit) HasSizes
          (read_guid_blocks r n (cluster_size_of bs n) bs.information_lcn)
          (λ f. ok (boot_sector_data r bs n (cluster_size_of bs n) f))
          (read_guid_blocks-Ends r n (cluster_size_of bs n) bs.information_lcn)
          λ f _. record {
            sector = sector_size_of-IsSectorSize bs;
            cluster = cluster_size_of-le bs n;
          }
