-- ===== src/Stream/View.antt =====
-- The bytes that a stream (bde.go) stands for: the specification of its reads.
use native.Mathlib.Nat.{div-eq_of_lt-le, div-add-mod}
use go_bde.Base.{
  ℕ, zero, suc, ◌+◌, ◌*◌, ◌/◌, ◌%◌, ◌<◌, ◌≡◌, refl, ap, ap₂, ◌∙◌, ◌&&◌, Option, none, some, [], ◌∷◌,
  arith, ltb, if◌then◌else◌, length, get_or, take, drop, replicate,
}
use go_bde.Base.Int.{pos, pos_part}
use go_bde.Base.Bytes.{Bytes}
use go_bde.Outcome.{Outcome, ok, err, panic}
use go_bde.Reader.{slice}
use go_bde.Region.{is_reserved_sector}
use go_bde.Stream.{BitlockerStream, SectorCipher, decrypt_sector}

-- Where the ciphertext of sector s stands: the first `header_sectors` sectors at `header_offset`, if
-- both are set, every other one in its own place.
abbrev pub source_of : BitlockerStream → ℕ → ℕ
source_of bs s =
    if ltb 0 (pos_part bs.header_offset) && ltb s (pos_part bs.header_sectors)
    then pos_part bs.header_offset + s * bs.sector_size
    else s * bs.sector_size

abbrev pub plain_of : Outcome Bytes → Bytes
plain_of (ok plain) = plain
plain_of (err e) = []
plain_of panic = []

-- The plaintext of a sector under the cipher, from the image of the encrypted volume.
abbrev pub plain_sector : BitlockerStream → (ℕ → ℕ) → Option SectorCipher → ℕ → Bytes
plain_sector bs image none s = []
plain_sector bs image (some c) s = plain_of (
    decrypt_sector c bs.sector_size (slice image (source_of bs s) bs.sector_size)
      (source_of bs s / bs.sector_size))

-- Byte i of the view: zero in a reserved sector, the image's byte on a decrypted volume, and else the
-- byte at its place in the decrypted sector.
unfoldable pub view : BitlockerStream → (ℕ → ℕ) → ℕ → ℕ
view bs image i =
    let s = i / bs.sector_size in
    if is_reserved_sector bs.reserved (pos s)
    then 0
    else if bs.passthrough
    then image i
    else get_or (plain_sector bs image bs.cipher s) (i % bs.sector_size) 0

-- The next bytes of the same sector.
pub div_same : (cur i size : ℕ) → 0 < size → cur % size + i < size → (cur + i) / size ≡ cur / size
div_same cur i size h k =
    div-eq_of_lt-le size (grind (arith, div-add-mod cur size)) (grind (arith, div-add-mod cur size))

pub mod_same :
    (cur i size : ℕ) → 0 < size → cur % size + i < size → (cur + i) % size ≡ cur % size + i
mod_same cur i size h k = omega (
  arith,
  div-add-mod cur size,
  div-add-mod (cur + i) size,
  ap (λ (t : ℕ). size * t) (div_same cur i size h k),
)

-- A buffer is a slice of a view if its bytes are the view's.
pub eq-slice :
    (bytes : Bytes) (f : ℕ → ℕ) (off n : ℕ)
    → length bytes ≡ n
    → ((i : ℕ) → i < n → get_or bytes i 0 ≡ f (off + i))
    → bytes ≡ slice f off n
unfolding slice
eq-slice [] f off zero len h = refl
eq-slice [] f off (suc n) len h = absurd (omega arith)
eq-slice (x ∷ xs) f off zero len h = absurd (omega arith)
eq-slice (x ∷ xs) f off (suc n) len h =
    ap₂ ◌∷◌ (h 0 (omega arith) ∙ ap f (omega arith)) (
      eq-slice xs f (suc off) n (omega arith)
        (λ i lt. h (suc i) (omega arith) ∙ ap f (omega arith)))

pub get_or-replicate : (n i : ℕ) → get_or {A = ℕ} (replicate n 0) i 0 ≡ 0
get_or-replicate zero i = refl
get_or-replicate (suc n) zero = refl
get_or-replicate (suc n) (suc i) = get_or-replicate n i

pub get_or-take : (n : ℕ) (xs : Bytes) (i : ℕ) → i < n → get_or (take n xs) i 0 ≡ get_or xs i 0
get_or-take zero xs i h = absurd (omega arith)
get_or-take (suc n) [] i h = refl
get_or-take (suc n) (x ∷ xs) zero h = refl
get_or-take (suc n) (x ∷ xs) (suc i) h = get_or-take n xs i (omega arith)

pub get_or-drop : (k : ℕ) (xs : Bytes) (i : ℕ) → get_or (drop k xs) i 0 ≡ get_or xs (k + i) 0
get_or-drop zero xs i = ap (λ t. get_or xs t 0) (omega arith)
get_or-drop (suc k) [] i = refl
get_or-drop (suc k) (x ∷ xs) i =
    let e : suc k + i ≡ suc (k + i) = omega arith in rw e (get_or-drop k xs i)
