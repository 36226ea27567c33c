-- ===== src/Search/Offers.antt =====
-- `tryBootSectorOffsets` (bde.go): which of the values in the boot sector it takes for offsets.
use mathlib.Core.List.{Memᴰ}
use go_bde.Base.{
  ℕ, zero, suc, ◌<◌, ◌≤◌, ◌^◌, ◌≡◌, refl, sym, ap, subst, ◌∙◌, inl, inr, false, none, List, [], ◌∷◌,
  ◌++◌, arith, ltb, le_of_ltb, ◌==◌, Memᴰ-append_left, Memᴰ-append_right,
}
use go_bde.Base.Int.{ℤ, pos, ◌*ℤ◌, int64_small, leb_ℤ, ltb_ℤ, ◌<ℤ◌, ◌≤ℤ◌}
use go_bde.Reader.{ReaderAt}
use go_bde.Search.{words}
use go_bde.Search.Boot.{candidates, or_default, try_boot_sector_offsets}
use go_bde.Search.Candidates.{AreFresh, try_boot_sector_offsets-Kept}
use go_bde.Search.Signature.{
  HasSignature, false-ne-true, has_signature-HasSignature, HasSignature-has_signature,
}
use go_bde.Search.Words.{word, words-place, word-listed}
use go_bde.Search.Tries.{listed-seen}
use go_bde.Search.Raws.{IsTried, try_raws-inv, try_raws-taken, runs}

-- A size, or 512 or 4096 for a size of 0.
abbrev pub size_or : ℕ → ℕ → ℕ
size_or default zero = default
size_or default (suc n) = suc n

or_default-size_or : (default n : ℕ) → or_default default n ≡ size_or default n
or_default-size_or default zero = refl
or_default-size_or default (suc n) = rw (positive n) refl
  where
    positive : (n : ℕ) → (suc n == 0) ≡ false
    positive n = ground arith

-- The readings of a value: as bytes, as sectors, as clusters, in `int64`.
pub data IsReading (sector_size cluster_size raw : ℕ) (o : ℤ) : Type 0 where
  as_bytes : o ≡ pos raw → IsReading sector_size cluster_size raw o
  as_sectors : o ≡ pos raw *ℤ pos sector_size → IsReading sector_size cluster_size raw o
  as_clusters : o ≡ pos raw *ℤ pos cluster_size → IsReading sector_size cluster_size raw o

-- One of the three numbers at 0x30, not 0 and at most 2 ^ 48, reads as the offset, which is above 0 and
-- at most 2 ^ 44, and where the source has the signature.
pub record IsOffered (r : ReaderAt) (sector_size cluster_size : ℕ) (o : ℤ) : Type 0 where
  pub place : ℕ
  pub below : place < 3
  pub nonzero : 0 < word (r 24 (pos 0x30)).bytes place
  pub small : word (r 24 (pos 0x30)).bytes place ≤ 2 ^ 48
  pub reading :
      IsReading
        (size_or 512 sector_size)
        (size_or 4096 cluster_size)
        (word (r 24 (pos 0x30)).bytes place)
        o
  pub above_zero : pos 0 <ℤ o
  pub bounded : o ≤ℤ pos (2 ^ 44)
  pub signed : HasSignature r o

IsReading-candidates :
    (n m raw : ℕ) (o : ℤ) → raw ≤ 2 ^ 48 → IsReading n m raw o → Memᴰ o (candidates n m raw)
unfolding candidates
IsReading-candidates n m raw o h (as_bytes e) = Memᴰ.head (e ∙ sym (int64_small raw (omega arith)))
IsReading-candidates n m raw o h (as_sectors e) =
    Memᴰ.tail (Memᴰ.head (e ∙ ap (λ z. z *ℤ pos n) (sym (int64_small raw (omega arith)))))
IsReading-candidates n m raw o h (as_clusters e) =
    Memᴰ.tail
      (Memᴰ.tail (Memᴰ.head (e ∙ ap (λ z. z *ℤ pos m) (sym (int64_small raw (omega arith))))))

candidates-IsReading :
    (n m raw : ℕ) (o : ℤ) → raw ≤ 2 ^ 48 → Memᴰ o (candidates n m raw) → IsReading n m raw o
unfolding candidates
candidates-IsReading n m raw o h (Memᴰ.head e) = as_bytes (e ∙ int64_small raw (omega arith))
candidates-IsReading n m raw o h (Memᴰ.tail (Memᴰ.head e)) =
    as_sectors (e ∙ ap (λ z. z *ℤ pos n) (int64_small raw (omega arith)))
candidates-IsReading n m raw o h (Memᴰ.tail (Memᴰ.tail (Memᴰ.head e))) =
    as_clusters (e ∙ ap (λ z. z *ℤ pos m) (int64_small raw (omega arith)))
candidates-IsReading n m raw o h (Memᴰ.tail (Memᴰ.tail (Memᴰ.tail l))) = elim l [ ]

module _ (r : ReaderAt) (sector_size cluster_size : ℕ) (o : ℤ) where
  abbrev Tried : Type 0
  Tried =
      IsTried r (or_default 512 sector_size) (or_default 4096 cluster_size)
        (words 3 (r 24 (pos 0x30)).bytes) o

  IsTried-IsOffered : Tried → IsOffered r sector_size cluster_size o
  IsTried-IsOffered t =
      let (i, below, e) = words-place 3 (r 24 (pos 0x30)).bytes t.raw t.listed in
      let small : t.raw ≤ 2 ^ 48 = le_of_ltb _ _ t.small in
      record {
        place = i;
        below = below;
        nonzero = subst (λ k. 0 < k) e (positive t.raw t.nonzero);
        small = subst (λ k. k ≤ 2 ^ 48) e small;
        reading =
            subst (λ k. IsReading (size_or 512 sector_size) (size_or 4096 cluster_size) k o) e
              (subst (λ n. IsReading n (size_or 4096 cluster_size) t.raw o)
                (or_default-size_or 512 sector_size)
                (subst (λ m. IsReading (or_default 512 sector_size) m t.raw o)
                  (or_default-size_or 4096 cluster_size)
                  (candidates-IsReading (or_default 512 sector_size) (or_default 4096 cluster_size)
                    t.raw o small t.among)));
        above_zero = above o t.candidate.above;
        bounded = at_most o t.candidate.below;
        signed = has_signature-HasSignature r o t.candidate.signed;
      }
    where
      positive : (k : ℕ) → (k == 0) ≡ false → 0 < k
      positive k h = ground arith

      above : (z : ℤ) → leb_ℤ z (pos 0) ≡ false → pos 0 <ℤ z
      above z h = ground arith

      at_most : (z : ℤ) → ltb_ℤ (pos (2 ^ 44)) z ≡ false → z ≤ℤ pos (2 ^ 44)
      at_most z h = ground arith

  IsOffered-IsTried : IsOffered r sector_size cluster_size o → Tried
  IsOffered-IsTried t = record {
    raw = word (r 24 (pos 0x30)).bytes t.place;
    listed = word-listed 3 (r 24 (pos 0x30)).bytes t.place t.below;
    nonzero = not_zero _ t.nonzero;
    small = not_above _ _ t.small;
    among =
        IsReading-candidates (or_default 512 sector_size) (or_default 4096 cluster_size) _ o t.small
          (subst
            (λ n.
              IsReading n (or_default 4096 cluster_size) (word (r 24 (pos 0x30)).bytes t.place) o)
            (sym (or_default-size_or 512 sector_size))
            (subst
              (λ m. IsReading (size_or 512 sector_size) m (word (r 24 (pos 0x30)).bytes t.place) o)
              (sym (or_default-size_or 4096 cluster_size)) t.reading));
    candidate = record {
      above = not_below o t.above_zero;
      below = not_beyond o t.bounded;
      signed = HasSignature-has_signature r o t.signed;
    };
  }
    where
      not_zero : (k : ℕ) → 0 < k → (k == 0) ≡ false
      not_zero k h = ground arith

      not_above : (a b : ℕ) → b ≤ a → ltb a b ≡ false
      not_above a b h = ground arith

      not_below : (z : ℤ) → pos 0 <ℤ z → leb_ℤ z (pos 0) ≡ false
      not_below z h = ground arith

      not_beyond : (z : ℤ) → z ≤ℤ pos (2 ^ 44) → ltb_ℤ (pos (2 ^ 44)) z ≡ false
      not_beyond z h = ground arith

-- No offset comes twice.
unfoldable pub AreDistinct : List ℤ → Type 0
AreDistinct [] = Unit
AreDistinct (o ∷ os) = (¬ Memᴰ o os) × AreDistinct os

fresh_unlisted : (before os : List ℤ) (x : ℤ) → AreFresh before os → Memᴰ x before → Memᴰ x os → ⊥
unfolding AreFresh
fresh_unlisted before [] x h m l = elim l [ ]
fresh_unlisted before (o ∷ os) x (h, hs) m (Memᴰ.head e) =
    false-ne-true (sym h ∙ listed-seen o before (subst (λ z. Memᴰ z before) e m))
fresh_unlisted before (o ∷ os) x (h, hs) m (Memᴰ.tail l) =
    fresh_unlisted (before ++ o ∷ []) os x hs (Memᴰ-append_left (o ∷ []) m) l

AreFresh-AreDistinct : (before os : List ℤ) → AreFresh before os → AreDistinct os
unfolding AreFresh AreDistinct
AreFresh-AreDistinct before [] h = tt
AreFresh-AreDistinct before (o ∷ os) (h, hs) = (
  fresh_unlisted (before ++ o ∷ []) os o hs (Memᴰ-append_right before (Memᴰ.head refl)),
  AreFresh-AreDistinct (before ++ o ∷ []) os hs,
)

-- Where the 24 bytes at 0x30 of the boot sector can be read, `tryBootSectorOffsets` returns an
-- offset exactly if one of their three numbers, not 0 and at most 2 ^ 48, reads as it, in bytes, in
-- sectors or in clusters, and it is above 0 and at most 2 ^ 44 and a read of 8 bytes there gives
-- the signature. None is returned twice. A size of 0 counts as 512 for a sector, as 4096 for a
-- cluster.
pub try_boot_sector_offsets_iff :
    (r : ReaderAt) (sector_size cluster_size : ℕ) (o : ℤ)
    → (r 24 (pos 0x30)).error ≡ none
    → (Memᴰ o (try_boot_sector_offsets r sector_size cluster_size)
        → IsOffered r sector_size cluster_size o)
      × (IsOffered r sector_size cluster_size o
          → Memᴰ o (try_boot_sector_offsets r sector_size cluster_size))
      × AreDistinct (try_boot_sector_offsets r sector_size cluster_size)
try_boot_sector_offsets_iff r sector_size cluster_size o e =
    let n : ℕ = or_default 512 sector_size in
    let m : ℕ = or_default 4096 cluster_size in
    let raws : List ℕ = words 3 (r 24 (pos 0x30)).bytes in
    (
      λ h.
          elim (try_raws-inv r n m o [] raws
            (subst (Memᴰ o) (runs r sector_size cluster_size e) h)) [
              | inl l ↦ elim l [ ]
              | inr t ↦ IsTried-IsOffered r sector_size cluster_size o t
            ],
      λ s.
          let t = IsOffered-IsTried r sector_size cluster_size o s in
          subst (Memᴰ o) (sym (runs r sector_size cluster_size e))
            (try_raws-taken r n m o [] raws t.raw t.listed t.nonzero t.small t.among t.candidate),
      AreFresh-AreDistinct [] _ (try_boot_sector_offsets-Kept r sector_size cluster_size).1,
    )
