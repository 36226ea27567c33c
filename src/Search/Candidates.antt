-- ===== src/Search/Candidates.antt =====
-- `tryBootSectorOffsets` (bde.go): the offsets that it keeps.
use mathlib.Core.List.{append_assoc, append-nil}
use go_bde.Base.{
  subst, ℕ, ◌^◌, ◌≡◌, sym, Bool, true, false, ◌||◌, List, [], ◌∷◌, ◌++◌, arith, inl, inr,
  Bool-cases, Option-cases, All, All-append, ltb, ◌==◌,
}
use go_bde.Base.Int.{ℤ, pos, leb_ℤ, ltb_ℤ}
use go_bde.Reader.{ReaderAt}
use go_bde.Search.{words}
use go_bde.Search.Boot.{
  seen, has_signature, try_candidate, try_candidates, candidates, try_raws, or_default,
  try_boot_sector_offsets,
}

-- Above 0, at most 2 ^ 44, and at the signature.
pub record IsCandidate (r : ReaderAt) (o : ℤ) : Type 0 where
  pub above : leb_ℤ o (pos 0) ≡ false
  pub below : ltb_ℤ (pos (2 ^ 44)) o ≡ false
  pub signed : has_signature r o ≡ true

-- No offset comes twice: each is not seen before it.
unfoldable pub AreFresh : List ℤ → List ℤ → Type 0
AreFresh before [] = Unit
AreFresh before (o ∷ os) = (seen o before ≡ false) × AreFresh (before ++ o ∷ []) os

abbrev Kept : ReaderAt → List ℤ → Type 0
Kept r os = All (IsCandidate r) os × AreFresh [] os

append_assoc_one : (xs : List ℤ) (y : ℤ) (zs : List ℤ) → (xs ++ y ∷ []) ++ zs ≡ xs ++ y ∷ zs
append_assoc_one xs y zs = append_assoc xs (y ∷ []) zs

AreFresh-append :
    (before os : List ℤ) (o : ℤ)
    → AreFresh before os
    → seen o (before ++ os) ≡ false
    → AreFresh before (os ++ o ∷ [])
unfolding AreFresh
AreFresh-append before [] o h s = (subst (λ l. seen o l ≡ false) (append-nil before) s, tt)
AreFresh-append before (x ∷ os) o (h, hs) s = (
  h,
  AreFresh-append (before ++ x ∷ []) os o hs
      (subst (λ l. seen o l ≡ false) (sym (append_assoc_one before x os)) s),
)

module _ (r : ReaderAt) where
  try_candidate-Kept : (os : List ℤ) (o : ℤ) → Kept r os → Kept r (try_candidate r os o)
  unfolding try_candidate
  try_candidate-Kept os o (all, fresh) =
      elim (Bool-cases (leb_ℤ o (pos 0) || ltb_ℤ (pos (2 ^ 44)) o || seen o os)) [
        | inl e ↦ rw e (all, fresh)
        | inr e ↦ rw e (elim (Bool-cases (has_signature r o)) [
          | inl g ↦
              let parts = or-false3 _ _ _ e in
              rw g (
                All-append (IsCandidate r) os (o ∷ []) all
                    (record { above = parts.0; below = parts.1; signed = g }, tt),
                AreFresh-append [] os o fresh parts.2,
              )
          | inr g ↦ rw g (all, fresh)
        ])
      ]
    where
      or-false3 : (a b c : Bool) → (a || b || c) ≡ false → (a ≡ false) × (b ≡ false) × (c ≡ false)
      or-false3 a b c h = ground arith

  try_candidates-Kept : (os cs : List ℤ) → Kept r os → Kept r (try_candidates r os cs)
  unfolding try_candidates
  try_candidates-Kept os [] h = h
  try_candidates-Kept os (c ∷ cs) h =
      try_candidates-Kept (try_candidate r os c) cs (try_candidate-Kept os c h)

  try_raws-Kept :
      (n m : ℕ) (os : List ℤ) (raws : List ℕ) → Kept r os → Kept r (try_raws r n m os raws)
  unfolding try_raws
  try_raws-Kept n m os [] h = h
  try_raws-Kept n m os (raw ∷ raws) h = elim (Bool-cases (raw == 0 || ltb (2 ^ 48) raw)) [
    | inl e ↦ rw e (try_raws-Kept n m os raws h)
    | inr e ↦ rw e (
        try_raws-Kept n m (try_candidates r os (candidates n m raw)) raws
          (try_candidates-Kept os (candidates n m raw) h))
  ]

-- Every offset that `tryBootSectorOffsets` returns is above 0 and at most 2 ^ 44, the source has
-- the signature there, and none comes twice.
pub try_boot_sector_offsets-Kept :
    (r : ReaderAt) (sector_size cluster_size : ℕ)
    → All (IsCandidate r) (try_boot_sector_offsets r sector_size cluster_size)
      × AreFresh [] (try_boot_sector_offsets r sector_size cluster_size)
unfolding try_boot_sector_offsets AreFresh
try_boot_sector_offsets-Kept r sector_size cluster_size =
    elim (Option-cases (r 24 (pos 0x30)).error) [
      | inl e ↦
          rw (e, try_boot_sector_offsets)
            (try_raws-Kept r (or_default 512 sector_size) (or_default 4096 cluster_size) []
              (words 3 (r 24 (pos 0x30)).bytes) (tt, tt))
      | inr (a, e) ↦ rw (e, try_boot_sector_offsets) (tt, tt)
    ]
