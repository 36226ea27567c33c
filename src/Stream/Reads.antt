-- ===== src/Stream/Reads.antt =====
-- The loop of `readAtInternal` (bde.go) against the view.
use native.Mathlib.Nat.{div-add-mod, mod-lt, div-le_self, div-lt_iff_lt-mul}
use go_bde.Base.{
  ℕ, zero, suc, ◌+◌, ◌-◌, ◌*◌, ◌/◌, ◌%◌, ◌^◌, ◌≤◌, ◌<◌, ◌≡◌, refl, sym, ap, ◌∙◌, true, false, ◌&&◌,
  Option, none, some, arith, ltb, if◌then◌else◌, length, get_or, take, drop, replicate, min,
  length-take, length-drop, length-replicate, inl, inr, Bool-cases, All, ltb_of_le, le→leb, subst,
}
use go_bde.Base.Int.{
  ℤ, pos, negsuc, pos_part, ◌+ℤ◌, ◌-ℤ◌, ◌*ℤ◌, quot, rem, ltb_ℤ, leb_ℤ, +ℤ_pos, -ℤ_pos, *ℤ_pos,
  uint64_pos,
}
use go_bde.Base.Bytes.{Bytes, IsByte}
use go_bde.Outcome.{ok}
use go_bde.Reader.{Serves, slice, length-slice, get_or-slice, slice-append, slice-IsByte}
use go_bde.Region.{is_reserved_sector}
use go_bde.Stream.{
  BitlockerStream, SectorCipher, advanced, sector_buf_size, to_do, src_offset, pass_through,
  copy_range, decrypt_sector, decrypt_pass, cipher_read, read_pass, returned, read_loop,
  read_at_internal,
}
use go_bde.Stream.View.{
  source_of, plain_of, plain_sector, view, div_same, mod_same, eq-slice, get_or-replicate,
  get_or-take, get_or-drop,
}

-- The cipher turns a sector into a sector.
abbrev pub DecryptsSectors : SectorCipher → ℕ → Type 0
DecryptsSectors c size =
    (src : Bytes) (num : ℕ)
    → length src ≡ size
    → All IsByte src
    → (decrypt_sector c size src num ≡ ok (plain_of (decrypt_sector c size src num)))
      × (length (plain_of (decrypt_sector c size src num)) ≡ size)

-- The volume is decrypted already, or there is a cipher for it.
abbrev pub CanDecrypt : BitlockerStream → Option SectorCipher → Type 0
CanDecrypt bs none = bs.passthrough ≡ true
CanDecrypt bs (some c) = DecryptsSectors c bs.sector_size

-- The source holds an image of at least `count` whole sectors and the moved header sectors.
pub record IsBacked (bs : BitlockerStream) (image : ℕ → ℕ) (count : ℕ) : Type 0 where
  pub pos_size : 0 < bs.sector_size
  pub fits_buf : bs.sector_size ≤ sector_buf_size
  pub size : ℕ
  pub size_fits : size < 2 ^ 63
  pub serves : Serves bs.r image size
  pub bytes : (i : ℕ) → IsByte (image i)
  pub whole : count * bs.sector_size ≤ size
  pub header : pos_part bs.header_offset + pos_part bs.header_sectors * bs.sector_size ≤ size
  pub can_decrypt : CanDecrypt bs bs.cipher

pub to_do_pos :
    (size len cur : ℕ)
    → 0 < size
    → size ≤ sector_buf_size
    → to_do size len (pos cur) ≡ min len (size - cur % size)
unfolding to_do rem
to_do_pos size len cur h k =
    rw (-ℤ_pos size (cur % size) (omega (arith, mod-lt cur h)) (omega arith)) (ground arith)

src_exact :
    (h hs s size : ℕ)
    → h + hs * size < 2 ^ 63
    → s < hs
    → pos h +ℤ pos s *ℤ pos size ≡ pos (h + s * size)
src_exact h hs s size fits lt =
    let below : s * size ≤ hs * size = grind arith in
    rw (*ℤ_pos s size (omega arith)) (+ℤ_pos h (s * size) (omega arith))

pub src_offset_pos :
    (h hs : ℤ) (s size start : ℕ)
    → pos_part h + pos_part hs * size < 2 ^ 63
    → (if ltb_ℤ (pos 0) h && ltb_ℤ (pos 0) hs && leb_ℤ (pos 0) (pos s) && ltb_ℤ (pos s) hs
        then h +ℤ pos s *ℤ pos size
        else pos start)
      ≡ pos (if ltb 0 (pos_part h) && ltb s (pos_part hs) then pos_part h + s * size else start)
src_offset_pos (pos h) (pos hs) s size start fits = ground (arith, src_exact h hs s size fits)
src_offset_pos (pos h) (negsuc hs) s size start fits = ground arith
src_offset_pos (negsuc h) hs s size start fits = ground arith

source_header : (s hs size : ℕ) → s < hs → s * size + size ≤ hs * size
source_header s hs size lt = let below : (s + 1) * size ≤ hs * size = grind arith in omega arith

pub source_bound :
    (h hs s size count limit : ℕ)
    → s < count
    → count * size ≤ limit
    → h + hs * size ≤ limit
    → (if ltb 0 h && ltb s hs then h + s * size else s * size) + size ≤ limit
source_bound h hs s size count limit lt whole header =
    let below : (s + 1) * size ≤ count * size = grind arith in
    ground (arith, source_header s hs size)

copied :
    (n cur k : ℕ) (plain : Bytes)
    → k + n ≤ length plain
    → pos cur +ℤ pos n ≡ pos (cur + n)
    → copy_range n (pos cur) (pos k) (ok plain) ≡ advanced (take n (drop k plain)) (pos (cur + n))
unfolding copy_range
copied n cur k plain h e = rw (le→leb (k + n) (length plain) h, e)

module _ (bs : BitlockerStream) (image : ℕ → ℕ) (count : ℕ) (b : IsBacked bs image count) where
  open b use {pos_size, fits_buf, size, size_fits, serves, bytes, whole, header, can_decrypt}

  -- The view inside of one sector.
  view_at :
      (cur i : ℕ)
      → cur % bs.sector_size + i < bs.sector_size
      → view bs image (cur + i) ≡ (
          if is_reserved_sector bs.reserved (pos (cur / bs.sector_size))
          then 0
          else if bs.passthrough
          then image (cur + i)
          else get_or
              (plain_sector bs image bs.cipher (cur / bs.sector_size))
              (cur % bs.sector_size + i)
              0)
  unfolding view
  view_at cur i h =
      rw (div_same cur i bs.sector_size pos_size h, mod_same cur i bs.sector_size pos_size h)

  module _ (cur n : ℕ) (inside : cur % bs.sector_size + n ≤ bs.sector_size)
      (below : cur + n ≤ count * bs.sector_size) where
    sector_below : 0 < n → cur / bs.sector_size < count
    sector_below h = (div-lt_iff_lt-mul pos_size).1 (omega arith)

    source_inside : 0 < n → source_of bs (cur / bs.sector_size) + bs.sector_size ≤ size
    source_inside h =
        source_bound (pos_part bs.header_offset) (pos_part bs.header_sectors) (cur / bs.sector_size)
          bs.sector_size count size (sector_below h) whole header

    advance : pos cur +ℤ pos n ≡ pos (cur + n)
    advance = +ℤ_pos cur n (omega arith)

    reserved_pass :
        is_reserved_sector bs.reserved (pos (cur / bs.sector_size)) ≡ true
        → replicate n 0 ≡ slice (view bs image) cur n
    reserved_pass e =
        eq-slice (replicate n 0) (view bs image) cur n (length-replicate n 0)
          λ i lt. get_or-replicate n i ∙ sym (view_at cur i (omega arith) ∙ rw e)

    passthrough_pass :
        is_reserved_sector bs.reserved (pos (cur / bs.sector_size)) ≡ false
        → bs.passthrough ≡ true
        → pass_through n (pos cur) (bs.r n (pos cur))
          ≡ advanced (slice (view bs image) cur n) (pos (cur + n))
    unfolding pass_through
    passthrough_pass e p =
        let same : slice image cur n ≡ slice (view bs image) cur n =
          eq-slice (slice image cur n) (view bs image) cur n (length-slice image cur n) (λ i lt.
            get_or-slice image cur n i lt ∙ sym (view_at cur i (omega arith) ∙ rw (e, p))) in
        rw (
          serves n cur (omega arith),
          length-slice image cur n,
          ltb_of_le n n (omega arith),
          advance,
          same,
        )

    cipher_pass :
        (c : Option SectorCipher)
        → bs.cipher ≡ c
        → 0 < n
        → is_reserved_sector bs.reserved (pos (cur / bs.sector_size)) ≡ false
        → bs.passthrough ≡ false
        → cipher_read c bs.r bs.sector_size n
            (pos cur)
            (pos (cur % bs.sector_size))
            (pos (source_of bs (cur / bs.sector_size)))
          ≡ advanced (slice (view bs image) cur n) (pos (cur + n))
    unfolding cipher_read decrypt_pass quot
    cipher_pass none q h e p =
        let decrypted : bs.passthrough ≡ true = subst (CanDecrypt bs) q can_decrypt in cc
    cipher_pass (some c) q h e p =
        let from : ℕ = source_of bs (cur / bs.sector_size) in
        let src : Bytes = slice image from bs.sector_size in
        let num : ℕ = from / bs.sector_size in
        let plain : Bytes = plain_of (decrypt_sector c bs.sector_size src num) in
        let works : DecryptsSectors c bs.sector_size = subst (CanDecrypt bs) q can_decrypt in
        let (decrypted, len) =
          works src num (length-slice image from bs.sector_size)
            (slice-IsByte image from bs.sector_size bytes) in
        let same : take n (drop (cur % bs.sector_size) plain) ≡ slice (view bs image) cur n =
          eq-slice _ (view bs image) cur n
            (omega (
              arith,
              length-take n (drop (cur % bs.sector_size) plain),
              length-drop (cur % bs.sector_size) plain,
            ))
            (λ i lt.
              get_or-take n (drop (cur % bs.sector_size) plain) i lt
              ∙ get_or-drop (cur % bs.sector_size) plain i
              ∙ sym (view_at cur i (omega arith) ∙ rw (e, p, q))) in
        rw
          (
            le→leb bs.sector_size sector_buf_size fits_buf,
            uint64_pos num (omega (arith, source_inside h, div-le_self from bs.sector_size)),
            serves bs.sector_size from (source_inside h),
            decrypted,
          )
          (copied n cur (cur % bs.sector_size) plain (omega arith) advance ∙ rw same)

  pass_size :
      (len cur : ℕ)
      → 0 < len
      → (to_do bs.sector_size len (pos cur) ≡ min len (bs.sector_size - cur % bs.sector_size))
        × (0 < min len (bs.sector_size - cur % bs.sector_size))
  pass_size len cur h =
      (to_do_pos bs.sector_size len cur pos_size fits_buf, omega (arith, mod-lt cur pos_size))

  source_offset :
      (cur : ℕ)
      → cur < 2 ^ 63
      → src_offset bs (pos (cur / bs.sector_size)) (pos cur -ℤ pos (cur % bs.sector_size))
        ≡ pos (source_of bs (cur / bs.sector_size))
  unfolding src_offset
  source_offset cur h =
      let start : pos cur -ℤ pos (cur % bs.sector_size)
          ≡ pos (cur / bs.sector_size * bs.sector_size) =
        -ℤ_pos cur (cur % bs.sector_size) (omega (arith, div-add-mod cur bs.sector_size)) h
        ∙ ap pos (omega (arith, div-add-mod cur bs.sector_size)) in
      rw start (
        src_offset_pos bs.header_offset bs.header_sectors (cur / bs.sector_size) bs.sector_size
          (cur / bs.sector_size * bs.sector_size) (omega arith))

  -- One pass writes the next bytes of the view, up to the end of the sector.
  read_pass-view :
      (len cur : ℕ)
      → 0 < len
      → cur + len ≤ count * bs.sector_size
      → let n = min len (bs.sector_size - cur % bs.sector_size) in
        read_pass bs len (pos cur) ≡ advanced (slice (view bs image) cur n) (pos (cur + n))
  unfolding read_pass quot rem
  read_pass-view len cur h below =
      let n : ℕ = min len (bs.sector_size - cur % bs.sector_size) in
      let s : ℕ = cur / bs.sector_size in
      let (size_eq, positive) = pass_size len cur h in
      let inside : cur % bs.sector_size + n ≤ bs.sector_size = omega (arith, mod-lt cur pos_size) in
      let fit : cur + n ≤ count * bs.sector_size = omega arith in
      rw (size_eq, source_offset cur (omega arith))
        (elim (Bool-cases (is_reserved_sector bs.reserved (pos s))) [
          | inl e ↦ rw (e, reserved_pass cur n inside fit e, advance cur n inside fit)
          | inr e ↦ rw e (elim (Bool-cases (bs.passthrough)) [
            | inl p ↦ simp p (passthrough_pass cur n inside fit e p)
            | inr p ↦ simp p (cipher_pass cur n inside fit bs.cipher refl positive e p)
          ])
        ])

  read_loop-view :
      (fuel len cur : ℕ)
      → len ≤ fuel
      → cur + len ≤ count * bs.sector_size
      → read_loop bs fuel len (pos cur)
        ≡ returned (slice (view bs image) cur len) (pos (cur + len)) none
  unfolding read_loop
  read_loop-view fuel zero cur h below =
      let e : cur + 0 ≡ cur = omega arith in rw e (unfold slice in refl)
  read_loop-view zero (suc len) cur h below = absurd (omega arith)
  read_loop-view (suc fuel) (suc len) cur h below =
      let n : ℕ = min (suc len) (bs.sector_size - cur % bs.sector_size) in
      let chunk : Bytes = slice (view bs image) cur n in
      let (size_eq, positive) = pass_size (suc len) cur (omega arith) in
      let rest = read_loop-view fuel (suc len - n) (cur + n) (omega arith) (omega arith) in
      let total : n + (suc len - n) ≡ suc len = omega arith in
      let end : cur + n + (suc len - n) ≡ cur + suc len = omega arith in
      rw (
        read_pass-view (suc len) cur (omega arith) below,
        read_loop,
        length-slice (view bs image) cur n,
        rest,
        slice-append (view bs image) cur n (suc len - n),
        total,
        end,
      )

-- `readAtInternal` returns the bytes of the view, no error, and the offset behind them, for every
-- range inside of the sectors that the source holds.
pub read_at_internal-view :
    (bs : BitlockerStream) (image : ℕ → ℕ) (count len off : ℕ)
    → IsBacked bs image count
    → off + len ≤ count * bs.sector_size
    → read_at_internal bs len (pos off)
      ≡ returned (slice (view bs image) off len) (pos (off + len)) none
unfolding read_at_internal
read_at_internal-view bs image count len off b below =
    read_loop-view bs image count b len len off (omega arith) below
