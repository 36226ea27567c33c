-- ===== src/Search/Tries.antt =====
-- The inner loop of `tryBootSectorOffsets` (bde.go): what it keeps of the candidates of a value.
use mathlib.Core.List.{Memᴰ}
use go_bde.Base.{
  ◌^◌, ◌≡◌, refl, sym, ap, subst, ◌⊎◌, inl, inr, Bool, true, false, ◌||◌, Bool-cases, List, [], ◌∷◌,
  arith, Memᴰ-append_left, Memᴰ-append_right, Memᴰ-append_inv,
}
use go_bde.Base.Int.{ℤ, pos, negsuc, leb_ℤ, ltb_ℤ}
use go_bde.Reader.{ReaderAt}
use go_bde.Search.Boot.{equal_ℤ, seen, has_signature, try_candidate, try_candidates}
use go_bde.Search.Candidates.{IsCandidate}

equal_ℤ-eq : (a b : ℤ) → equal_ℤ a b ≡ true → a ≡ b
equal_ℤ-eq (pos m) (pos n) h = ap pos (ground arith)
equal_ℤ-eq (pos m) (negsuc n) h = absurd (ground arith)
equal_ℤ-eq (negsuc m) (pos n) h = absurd (ground arith)
equal_ℤ-eq (negsuc m) (negsuc n) h = ap negsuc (ground arith)

seen-listed : (o : ℤ) (os : List ℤ) → seen o os ≡ true → Memᴰ o os
unfolding seen
seen-listed o [] h = absurd (ne h)
  where
    ne : false ≡ true → ⊥
    ne e = cc
seen-listed o (x ∷ os) h = elim (or-true _ _ h) [
  | inl e ↦ Memᴰ.head (equal_ℤ-eq o x e)
  | inr e ↦ Memᴰ.tail (seen-listed o os e)
]
  where
    or-true : (a b : Bool) → (a || b) ≡ true → (a ≡ true) ⊎ (b ≡ true)
    or-true true b h = inl refl
    or-true false b h = inr h

equal_ℤ-refl : (a : ℤ) → equal_ℤ a a ≡ true
equal_ℤ-refl a = ground arith

pub listed-seen : (o : ℤ) (os : List ℤ) → Memᴰ o os → seen o os ≡ true
unfolding seen
listed-seen o [] m = elim m [ ]
listed-seen o (x ∷ os) (Memᴰ.head e) =
    subst (λ z. (equal_ℤ o z || seen o os) ≡ true) e (ap (λ b. b || seen o os) (equal_ℤ-refl o))
listed-seen o (x ∷ os) (Memᴰ.tail m) = or-true (equal_ℤ o x) _ (listed-seen o os m)
  where
    or-true : (a b : Bool) → b ≡ true → (a || b) ≡ true
    or-true true b h = refl
    or-true false b h = h

module _ (r : ReaderAt) (x : ℤ) where
  try_candidate-kept : (os : List ℤ) (o : ℤ) → Memᴰ x os → Memᴰ x (try_candidate r os o)
  unfolding try_candidate
  try_candidate-kept os o m =
      elim (Bool-cases (leb_ℤ o (pos 0) || ltb_ℤ (pos (2 ^ 44)) o || seen o os)) [
        | inl e ↦ rw e m
        | inr e ↦ rw e (elim (Bool-cases (has_signature r o)) [
          | inl g ↦ rw g (Memᴰ-append_left (o ∷ []) m)
          | inr g ↦ rw g m
        ])
      ]

  try_candidate-taken : (os : List ℤ) → IsCandidate r x → Memᴰ x (try_candidate r os x)
  unfolding try_candidate
  try_candidate-taken os c = elim (Bool-cases (seen x os)) [
    | inl e ↦ rw (c.above, c.below, e) (seen-listed x os e)
    | inr e ↦ rw (c.above, c.below, e, c.signed) (Memᴰ-append_right os (Memᴰ.head refl))
  ]

  try_candidate-inv :
      (os : List ℤ) (o : ℤ)
      → Memᴰ x (try_candidate r os o)
      → Memᴰ x os ⊎ ((x ≡ o) × IsCandidate r o)
  unfolding try_candidate
  try_candidate-inv os o m =
      elim (Bool-cases (leb_ℤ o (pos 0) || ltb_ℤ (pos (2 ^ 44)) o || seen o os)) [
        | inl e ↦ inl (rw e at m)
        | inr e ↦ elim (Bool-cases (has_signature r o)) [
          | inr g ↦ inl (rw (e, g) at m)
          | inl g ↦ elim (Memᴰ-append_inv os (o ∷ []) (rw (e, g) at m)) [
            | inl l ↦ inl l
            | inr l ↦
                let parts = or-false3 _ _ _ e in
                inr (only l, record { above = parts.0; below = parts.1; signed = g })
          ]
        ]
      ]
    where
      or-false3 : (a b c : Bool) → (a || b || c) ≡ false → (a ≡ false) × (b ≡ false) × (c ≡ false)
      or-false3 a b c h = ground arith

      only : {o : ℤ} → Memᴰ x (o ∷ []) → x ≡ o
      only (Memᴰ.head e) = e
      only (Memᴰ.tail m) = elim m [ ]

  pub try_candidates-kept : (os cs : List ℤ) → Memᴰ x os → Memᴰ x (try_candidates r os cs)
  unfolding try_candidates
  try_candidates-kept os [] m = m
  try_candidates-kept os (c ∷ cs) m =
      try_candidates-kept (try_candidate r os c) cs (try_candidate-kept os c m)

  pub try_candidates-taken :
      (os cs : List ℤ) → Memᴰ x cs → IsCandidate r x → Memᴰ x (try_candidates r os cs)
  unfolding try_candidates
  try_candidates-taken os [] m is = elim m [ ]
  try_candidates-taken os (c ∷ cs) (Memᴰ.head e) is =
      try_candidates-kept (try_candidate r os c) cs
        (subst (λ c. Memᴰ x (try_candidate r os c)) e (try_candidate-taken os is))
  try_candidates-taken os (c ∷ cs) (Memᴰ.tail m) is =
      try_candidates-taken (try_candidate r os c) cs m is

  pub try_candidates-inv :
      (os cs : List ℤ) → Memᴰ x (try_candidates r os cs) → Memᴰ x os ⊎ (Memᴰ x cs × IsCandidate r x)
  unfolding try_candidates
  try_candidates-inv os [] m = inl m
  try_candidates-inv os (c ∷ cs) m = elim (try_candidates-inv (try_candidate r os c) cs m) [
    | inr (l, is) ↦ inr (Memᴰ.tail l, is)
    | inl l ↦ elim (try_candidate-inv os c l) [
      | inl k ↦ inl k
      | inr (e, is) ↦ inr (Memᴰ.head e, subst (IsCandidate r) (sym e) is)
    ]
  ]
