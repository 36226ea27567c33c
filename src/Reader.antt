-- ===== src/Reader.antt =====
-- `io.ReaderAt`, the source of a volume: not part of the repository, so a parameter.
use go_bde.Base.{
  ℕ, zero, suc, ◌+◌, ◌≤◌, ◌≡◌, refl, ap, Option, none, [], ◌∷◌, ◌++◌, arith, length, get_or, ◌<◌,
  All,
}
use go_bde.Base.Int.{ℤ, pos}
use go_bde.Base.Bytes.{Bytes, IsByte}
use go_bde.Outcome.{Error}

-- What `ReadAt(p, off)` leaves in `p[:n]`, and its error.
pub record ReadResult : Type 0 where
  pub bytes : Bytes
  pub error : Option Error

-- The length of `p`, and the offset.
abbrev pub ReaderAt : Type 0
ReaderAt = ℕ → ℤ → ReadResult

-- The contract of `io.ReaderAt`: n is at most len(p), and is len(p) if there is no error.
pub record IsReaderAt (r : ReaderAt) : Type 0 where
  pub bounded : (len : ℕ) (off : ℤ) → length (r len off).bytes ≤ len
  pub full : (len : ℕ) (off : ℤ) → (r len off).error ≡ none → length (r len off).bytes ≡ len

-- `len` bytes of an image from `off` on.
unfoldable pub slice : (ℕ → ℕ) → ℕ → ℕ → Bytes
slice image off zero = []
slice image off (suc len) = image off ∷ slice image (suc off) len

-- The source holds the image: a read inside of `size` bytes succeeds with the image's bytes.
abbrev pub Serves : ReaderAt → (ℕ → ℕ) → ℕ → Type 0
Serves r image size =
    (len off : ℕ)
    → off + len ≤ size
    → r len (pos off) ≡ record { bytes = slice image off len; error = none }

pub length-slice : (image : ℕ → ℕ) (off len : ℕ) → length (slice image off len) ≡ len
unfolding slice
length-slice image off zero = refl
length-slice image off (suc len) = ap suc (length-slice image (suc off) len)

pub slice-append :
    (image : ℕ → ℕ) (off a b : ℕ)
    → slice image off a ++ slice image (off + a) b ≡ slice image off (a + b)
unfolding slice
slice-append image off zero b =
    let e : off + 0 ≡ off = omega arith in let f : 0 + b ≡ b = omega arith in rw (e, f)
slice-append image off (suc a) b =
    let e : off + suc a ≡ suc off + a = omega arith in
    let f : suc a + b ≡ suc (a + b) = omega arith in
    rw (e, f) (ap (λ t. image off ∷ t) (slice-append image (suc off) a b))

pub get_or-slice :
    (image : ℕ → ℕ) (off len i : ℕ) → i < len → get_or (slice image off len) i 0 ≡ image (off + i)
unfolding slice
get_or-slice image off zero i h = absurd (omega arith)
get_or-slice image off (suc len) zero h = ap image (omega arith)
get_or-slice image off (suc len) (suc i) h =
    let e : off + suc i ≡ suc off + i = omega arith in
    rw e (get_or-slice image (suc off) len i (omega arith))

pub slice-IsByte : (f : ℕ → ℕ) (off n : ℕ) → ((i : ℕ) → IsByte (f i)) → All IsByte (slice f off n)
unfolding slice
slice-IsByte f off zero h = tt
slice-IsByte f off (suc n) h = (h off, slice-IsByte f (suc off) n h)
