-- ===== src/Search/Index.antt =====
-- `bytes.Index`, as the search for a locator GUID uses it (bde.go).
use go_bde.Base.{
  ℕ, zero, suc, ◌<◌, ◌≡◌, sym, ap, ◌∙◌, true, false, Bool-cases, inl, inr, Option, none, some,
  Option-cases, subst, ◌⊎◌, [], ◌∷◌, arith, length, take, drop, if◌then◌else◌,
}
use go_bde.Base.Bytes.{Bytes, equal, equal_iff}
use go_bde.Search.{one_later, index}

-- The pattern stands at a place.
abbrev pub IsAt : Bytes → Bytes → ℕ → Type 0
IsAt pattern bytes i = (i < length bytes) × (take (length pattern) (drop i bytes) ≡ pattern)

pub record IsFirst (pattern bytes : Bytes) (i : ℕ) : Type 0 where
  pub at_place : IsAt pattern bytes i
  pub not_before : (j : ℕ) → j < i → ¬ IsAt pattern bytes j

abbrev pub IsAbsent : Bytes → Bytes → Type 0
IsAbsent pattern bytes = (j : ℕ) → ¬ IsAt pattern bytes j

abbrev Answer : Bytes → Bytes → Option ℕ → Type 0
Answer pattern bytes none = IsAbsent pattern bytes
Answer pattern bytes (some i) = IsFirst pattern bytes i

module _ (pattern : Bytes) where
  IsAt-cons :
      (b : ℕ) (bytes : Bytes) (j : ℕ) → IsAt pattern (b ∷ bytes) (suc j) → IsAt pattern bytes j
  IsAt-cons b bytes j (below, same) = (omega arith, same)

  later :
      (b : ℕ) (bytes : Bytes) (o : Option ℕ)
      → ¬ IsAt pattern (b ∷ bytes) 0
      → Answer pattern bytes o
      → Answer pattern (b ∷ bytes) (one_later o)
  later b bytes none not_here absent = go
    where
      go : (j : ℕ) → ¬ IsAt pattern (b ∷ bytes) j
      go zero h = not_here h
      go (suc j) h = absent j (IsAt-cons b bytes j h)
  later b bytes (some i) not_here f = record {
    at_place = (omega (arith, f.at_place.0), f.at_place.1);
    not_before = go;
  }
    where
      go : (j : ℕ) → j < suc i → ¬ IsAt pattern (b ∷ bytes) j
      go zero l h = not_here h
      go (suc j) l h = f.not_before j (omega arith) (IsAt-cons b bytes j h)

  -- What the search answers.
  index-Answer : (bytes : Bytes) → Answer pattern bytes (index pattern bytes)
  unfolding index
  index-Answer [] = λ j h. absurd (omega (arith, h.0))
  index-Answer (b ∷ bytes) = elim (Bool-cases (equal (take (length pattern) (b ∷ bytes)) pattern)) [
    | inl e ↦
        rw (e, if◌then◌else◌)
          record {
            at_place = (omega arith, (equal_iff _ _).0 e);
            not_before = λ j l h. absurd (omega (arith, l));
          }
    | inr e ↦
        rw (e, if◌then◌else◌)
          (later b bytes (index pattern bytes)
            (λ h. true-ne-false (sym ((equal_iff _ _).1 h.1) ∙ e)) (index-Answer bytes))
  ]
    where
      true-ne-false : true ≡ false → ⊥
      true-ne-false e = cc

  pub index-IsFirst :
      (bytes : Bytes) {i : ℕ} → index pattern bytes ≡ some i → IsFirst pattern bytes i
  index-IsFirst bytes e = subst (Answer pattern bytes) e (index-Answer bytes)

  pub index-IsAbsent : (bytes : Bytes) → index pattern bytes ≡ none → IsAbsent pattern bytes
  index-IsAbsent bytes e = subst (Answer pattern bytes) e (index-Answer bytes)

  pub index-first : (bytes : Bytes) {i : ℕ} → IsFirst pattern bytes i → index pattern bytes ≡ some i
  index-first bytes {i} f = elim (Option-cases (index pattern bytes)) [
    | inl e ↦ absurd (index-IsAbsent bytes e i f.at_place)
    | inr (k, e) ↦ e ∙ ap some (once k (index-IsFirst bytes e))
  ]
    where
      once : (k : ℕ) → IsFirst pattern bytes k → k ≡ i
      once k g = elim (compare k) [
        | inl l ↦ absurd (f.not_before k l g.at_place)
        | inr (inl l) ↦ absurd (g.not_before i l f.at_place)
        | inr (inr e) ↦ e
      ]
        where
          compare : (k : ℕ) → (k < i) ⊎ (i < k) ⊎ (k ≡ i)
          compare k = ground arith

  pub index-absent : (bytes : Bytes) → IsAbsent pattern bytes → index pattern bytes ≡ none
  index-absent bytes absent = elim (Option-cases (index pattern bytes)) [
    | inl e ↦ e
    | inr (k, e) ↦ absurd (absent k (index-IsFirst bytes e).at_place)
  ]
