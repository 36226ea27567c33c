-- ===== src/Search/Raws.antt =====
-- `tryBootSectorOffsets` (bde.go): its loop over the values of the boot sector.
use mathlib.Core.List.{Memᴰ}
use go_bde.Base.{
  ℕ, ◌^◌, ◌≡◌, refl, subst, ◌⊎◌, inl, inr, Bool, false, ◌||◌, Bool-cases, none, List, [], ◌∷◌,
  arith, ltb, ◌==◌,
}
use go_bde.Base.Int.{ℤ, pos}
use go_bde.Reader.{ReaderAt}
use go_bde.Search.{words}
use go_bde.Search.Boot.{try_candidates, candidates, try_raws, or_default, try_boot_sector_offsets}
use go_bde.Search.Candidates.{IsCandidate}
use go_bde.Search.Tries.{try_candidates-kept, try_candidates-taken, try_candidates-inv}

-- One of the values of the boot sector, in the code's own terms.
pub record IsTried (r : ReaderAt) (sector_size cluster_size : ℕ) (raws : List ℕ) (o : ℤ)
    : Type 0 where
  pub raw : ℕ
  pub listed : Memᴰ raw raws
  pub nonzero : (raw == 0) ≡ false
  pub small : ltb (2 ^ 48) raw ≡ false
  pub among : Memᴰ o (candidates sector_size cluster_size raw)
  pub candidate : IsCandidate r o

module _ (r : ReaderAt) (n m : ℕ) (o : ℤ) where
  IsTried-cons : (raw : ℕ) (raws : List ℕ) → IsTried r n m raws o → IsTried r n m (raw ∷ raws) o
  IsTried-cons raw raws s = record {
    raw = s.raw;
    listed = Memᴰ.tail s.listed;
    nonzero = s.nonzero;
    small = s.small;
    among = s.among;
    candidate = s.candidate;
  }

  pub try_raws-inv :
      (os : List ℤ) (raws : List ℕ)
      → Memᴰ o (try_raws r n m os raws)
      → Memᴰ o os ⊎ IsTried r n m raws o
  unfolding try_raws
  try_raws-inv os [] h = inl h
  try_raws-inv os (raw ∷ raws) h = elim (Bool-cases (raw == 0 || ltb (2 ^ 48) raw)) [
    | inl e ↦ elim (try_raws-inv os raws (rw e at h)) [
      | inl l ↦ inl l
      | inr s ↦ inr (IsTried-cons raw raws s)
    ]
    | inr e ↦ elim (try_raws-inv (try_candidates r os (candidates n m raw)) raws (rw e at h)) [
      | inr s ↦ inr (IsTried-cons raw raws s)
      | inl l ↦ elim (try_candidates-inv r o os (candidates n m raw) l) [
        | inl k ↦ inl k
        | inr (among, is) ↦
            let (nonzero, small) = or-false _ _ e in
            inr record {
              raw = raw;
              listed = Memᴰ.head refl;
              nonzero = nonzero;
              small = small;
              among = among;
              candidate = is;
            }
      ]
    ]
  ]
    where
      or-false : (a b : Bool) → (a || b) ≡ false → (a ≡ false) × (b ≡ false)
      or-false a b h = ground arith

  try_raws-kept : (os : List ℤ) (raws : List ℕ) → Memᴰ o os → Memᴰ o (try_raws r n m os raws)
  unfolding try_raws
  try_raws-kept os [] h = h
  try_raws-kept os (raw ∷ raws) h = elim (Bool-cases (raw == 0 || ltb (2 ^ 48) raw)) [
    | inl e ↦ rw e (try_raws-kept os raws h)
    | inr e ↦ rw e (
        try_raws-kept (try_candidates r os (candidates n m raw)) raws
          (try_candidates-kept r o os (candidates n m raw) h))
  ]

  pub try_raws-taken :
      (os : List ℤ) (raws : List ℕ) (raw : ℕ)
      → Memᴰ raw raws
      → (raw == 0) ≡ false
      → ltb (2 ^ 48) raw ≡ false
      → Memᴰ o (candidates n m raw)
      → IsCandidate r o
      → Memᴰ o (try_raws r n m os raws)
  unfolding try_raws
  try_raws-taken os [] raw l z small among is = elim l [ ]
  try_raws-taken os (w ∷ raws) raw (Memᴰ.head e) z small among is =
      subst (λ k. Memᴰ o (try_raws r n m os (k ∷ raws))) e
        (rw (z, small)
          (try_raws-kept (try_candidates r os (candidates n m raw)) raws
            (try_candidates-taken r o os (candidates n m raw) among is)))
  try_raws-taken os (w ∷ raws) raw (Memᴰ.tail l) z small among is =
      elim (Bool-cases (w == 0 || ltb (2 ^ 48) w)) [
        | inl e ↦ rw e (try_raws-taken os raws raw l z small among is)
        | inr e ↦
            rw e
              (try_raws-taken (try_candidates r os (candidates n m w)) raws raw l z small among is)
      ]

pub runs :
    (r : ReaderAt) (sector_size cluster_size : ℕ)
    → (r 24 (pos 0x30)).error ≡ none
    → try_boot_sector_offsets r sector_size cluster_size
      ≡ try_raws r
          (or_default 512 sector_size)
          (or_default 4096 cluster_size)
          []
          (words 3 (r 24 (pos 0x30)).bytes)
unfolding try_boot_sector_offsets
runs r sector_size cluster_size e = rw (e, try_boot_sector_offsets) refl
