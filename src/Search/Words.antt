-- ===== src/Search/Words.antt =====
-- The numbers of 8 bytes behind a locator, or in the boot sector (bde.go), by their places.
use mathlib.Core.List.{Memᴰ}
use go_bde.Base.{
  ℕ, zero, suc, ◌+◌, ◌*◌, ◌<◌, ◌≡◌, refl, sym, ap, subst, ◌∙◌, true, false, ◌⊎◌, inl, inr,
  Bool-cases, List, ◌∷◌, arith, take, drop, drop-drop, ◌==◌,
}
use go_bde.Base.Int.{ℤ, int64}
use go_bde.Base.Bytes.{Bytes, le_value}
use go_bde.Dataset.{nonzero_offsets}
use go_bde.Search.{words}

-- The number in the bytes 8 i to 8 i + 7.
abbrev pub word : Bytes → ℕ → ℕ
word raw i = le_value (take 8 (drop (8 * i) raw))

word-drop : (raw : Bytes) (i : ℕ) → word (drop 8 raw) i ≡ word raw (suc i)
word-drop raw i =
    ap (λ t. le_value (take 8 t))
      (drop-drop (8 * i) 8 raw ∙ ap (λ k. drop k raw) {x = 8 + 8 * i} {y = 8 * suc i} (omega arith))

-- One of the first n numbers is the offset, and is not 0.
pub record HoldsOffset (raw : Bytes) (n : ℕ) (o : ℤ) : Type 0 where
  pub place : ℕ
  pub below : place < n
  pub nonzero : ¬ (word raw place ≡ 0)
  pub offset_is : o ≡ int64 (word raw place)

HoldsOffset-drop :
    (raw : Bytes) (n : ℕ) (o : ℤ) → HoldsOffset (drop 8 raw) n o → HoldsOffset raw (suc n) o
HoldsOffset-drop raw n o h = record {
  place = suc h.place;
  below = omega (arith, h.below);
  nonzero = λ e. h.nonzero (word-drop raw h.place ∙ e);
  offset_is = h.offset_is ∙ ap int64 (word-drop raw h.place);
}

is_zero : (k : ℕ) → (k == 0) ≡ true → k ≡ 0
is_zero k e = ground arith

is_nonzero : (k : ℕ) → ¬ (k ≡ 0) → (k == 0) ≡ false
is_nonzero k h = ground arith

not_zero : (k : ℕ) → (k == 0) ≡ false → ¬ (k ≡ 0)
not_zero k e = ground arith

pub nonzero_offsets-HoldsOffset :
    (n : ℕ) (raw : Bytes) (o : ℤ) → Memᴰ o (nonzero_offsets (words n raw)) → HoldsOffset raw n o
unfolding words nonzero_offsets
nonzero_offsets-HoldsOffset zero raw o m = elim m [ ]
nonzero_offsets-HoldsOffset (suc n) raw o m = elim (Bool-cases (le_value (take 8 raw) == 0)) [
  | inl e ↦ HoldsOffset-drop raw n o (nonzero_offsets-HoldsOffset n (drop 8 raw) o (rw e at m))
  | inr e ↦ elim (cons-inv (rw e at m)) [
    | inl p ↦ record {
      place = 0;
      below = omega arith;
      nonzero = not_zero (word raw 0) e;
      offset_is = p;
    }
    | inr l ↦ HoldsOffset-drop raw n o (nonzero_offsets-HoldsOffset n (drop 8 raw) o l)
  ]
]
  where
    cons-inv : {x : ℤ} {xs : List ℤ} → Memᴰ o (x ∷ xs) → (o ≡ x) ⊎ Memᴰ o xs
    cons-inv (Memᴰ.head e) = inl e
    cons-inv (Memᴰ.tail m) = inr m

listed_at :
    (n : ℕ) (raw : Bytes) (o : ℤ) (i : ℕ)
    → i < n
    → ¬ (word raw i ≡ 0)
    → o ≡ int64 (word raw i)
    → Memᴰ o (nonzero_offsets (words n raw))
unfolding words nonzero_offsets
listed_at zero raw o i lt h e = absurd (omega arith)
listed_at (suc n) raw o zero lt h e = rw (is_nonzero (le_value (take 8 raw)) h) (Memᴰ.head e)
listed_at (suc n) raw o (suc i) lt h e =
    let rest =
      listed_at n (drop 8 raw) o i (omega arith) (λ z. h (sym (word-drop raw i) ∙ z))
        (e ∙ ap int64 (sym (word-drop raw i))) in
    elim (Bool-cases (le_value (take 8 raw) == 0)) [
      | inl z ↦ rw z rest
      | inr z ↦ rw z (Memᴰ.tail rest)
    ]

pub HoldsOffset-listed :
    (n : ℕ) (raw : Bytes) (o : ℤ) → HoldsOffset raw n o → Memᴰ o (nonzero_offsets (words n raw))
HoldsOffset-listed n raw o h = listed_at n raw o h.place h.below h.nonzero h.offset_is

-- The numbers themselves, 0 among them.
pub words-place :
    (n : ℕ) (raw : Bytes) (k : ℕ) → Memᴰ k (words n raw) → (i : ℕ) × (i < n) × (k ≡ word raw i)
unfolding words
words-place zero raw k m = elim m [ ]
words-place (suc n) raw k (Memᴰ.head e) = (0, omega arith, e)
words-place (suc n) raw k (Memᴰ.tail m) =
    let (i, lt, e) = words-place n (drop 8 raw) k m in (suc i, omega arith, e ∙ word-drop raw i)

pub word-listed : (n : ℕ) (raw : Bytes) (i : ℕ) → i < n → Memᴰ (word raw i) (words n raw)
unfolding words
word-listed zero raw i lt = absurd (omega arith)
word-listed (suc n) raw zero lt = Memᴰ.head refl
word-listed (suc n) raw (suc i) lt = Memᴰ.tail (
    subst (λ k. Memᴰ k (words n (drop 8 raw))) (word-drop raw i)
      (word-listed n (drop 8 raw) i (omega arith)))
