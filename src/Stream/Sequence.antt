-- ===== src/Stream/Sequence.antt =====
-- `ReadAt`, `Read` and `Seek` (bde.go) against the view.
use mathlib.Core.Option
use go_bde.Base.{
  ℕ, zero, suc, ◌+◌, ◌*◌, ◌≤◌, ◌≡◌, refl, ap, ◌∙◌, ltb_of_le, Option, none, some, List, [], ◌∷◌,
  ◌++◌, arith,
}
use go_bde.Base.Int.{ℤ, pos}
use go_bde.Base.Bytes.{Bytes}
use go_bde.Outcome.{ok}
use go_bde.Reader.{slice, slice-append}
use go_bde.Stream.{
  BitlockerStream, SectorCipher, returned, panicked, out_of_fuel, read_at_end, drop_eof,
  read_at_internal, read_at, moved, read, seek, seek_to, seek_start,
}
use go_bde.Stream.View.{view}
use go_bde.Stream.Reads.{IsBacked, CanDecrypt, read_at_internal-view}

drop_eof-none : (bytes : Bytes) → drop_eof bytes none ≡ none
unfolding drop_eof
drop_eof-none [] = refl
drop_eof-none (b ∷ bytes) = refl

-- `ReadAt` fills the whole buffer with the bytes of the view from `off` on and returns no error,
-- for every range inside of the sectors that the source holds, if the stream has a cipher that can
-- decrypt its sectors or needs none, the kept header sectors are inside of the source, and a sector
-- has 4096 bytes at most. The view of a reserved sector is zeros, of a decrypted volume the source
-- itself, and else the decryption of the sector where its ciphertext stands.
pub read_at-view :
    (bs : BitlockerStream) (image : ℕ → ℕ) (count len off : ℕ)
    → IsBacked bs image count
    → off + len ≤ count * bs.sector_size
    → read_at bs len (pos off) ≡ returned (slice (view bs image) off len) (pos (off + len)) none
unfolding read_at read_at_end
read_at-view bs image count len off b below = rw (
  read_at_internal-view bs image count len off b below,
  drop_eof-none (slice (view bs image) off len),
)

-- `Read` at offset o returns the next bytes of the view and moves the offset behind them.
read-view :
    (bs : BitlockerStream) (image : ℕ → ℕ) (count len o : ℕ)
    → IsBacked bs image count
    → o + len ≤ count * bs.sector_size
    → bs.offset ≡ pos o
    → read bs len ≡ (
      record bs { offset = pos (o + len) },
      returned (slice (view bs image) o len) (pos (o + len)) none,
    )
unfolding read read_at_end
read-view bs image count len o b below at =
    rw
      (
        ap (read_at_internal bs len) at ∙ read_at_internal-view bs image count len o b below,
        drop_eof-none (slice (view bs image) o len),
      )
      (ap (λ t. (t, returned (slice (view bs image) o len) (pos (o + len)) none)) (moves len))
  where
    moves :
        (len : ℕ)
        → moved bs (returned (slice (view bs image) o len) (pos (o + len)) none)
          ≡ record bs { offset = pos (o + len) }
    moves zero =
        let e : o + 0 ≡ o = omega arith in
        unfold moved slice in rw e (λ i. record bs { offset = at i })
    moves (suc n) = unfold moved slice in refl

abbrev pub sum : List ℕ → ℕ
sum [] = 0
sum (n ∷ ns) = n + sum ns

-- What a caller collects who reads buffers of the given lengths one after the other, if no call
-- fails.
unfoldable pub read_bytes : BitlockerStream → List ℕ → Option Bytes
read_bytes bs [] = some []
read_bytes bs (n ∷ ns) = elim ((read bs n).1) [
  | returned bytes next none ↦ Option.map (λ rest. bytes ++ rest) (read_bytes (read bs n).0 ns)
  | returned bytes next (some e) ↦ none
  | panicked ↦ none
  | out_of_fuel ↦ none
]

IsBacked-moved :
    (bs : BitlockerStream) (image : ℕ → ℕ) (count : ℕ) (off : ℤ)
    → IsBacked bs image count
    → IsBacked (record bs { offset = off }) image count
IsBacked-moved bs image count off b = record {
  pos_size = b.pos_size;
  fits_buf = b.fits_buf;
  size = b.size;
  size_fits = b.size_fits;
  serves = b.serves;
  bytes = b.bytes;
  whole = b.whole;
  header = b.header;
  can_decrypt = moved_cipher bs.cipher b.can_decrypt;
}
  where
    moved_cipher :
        (c : Option SectorCipher) → CanDecrypt bs c → CanDecrypt (record bs { offset = off }) c
    moved_cipher none h = h
    moved_cipher (some c) h = h

read_bytes-view :
    (ns : List ℕ) (bs : BitlockerStream) (image : ℕ → ℕ) (count o : ℕ)
    → IsBacked bs image count
    → o + sum ns ≤ count * bs.sector_size
    → bs.offset ≡ pos o
    → read_bytes bs ns ≡ some (slice (view bs image) o (sum ns))
unfolding read_bytes
read_bytes-view [] bs image count o b below at = unfold slice in refl
read_bytes-view (n ∷ ns) bs image count o b below at =
    let bs' : BitlockerStream = record bs { offset = pos (o + n) } in
    let rest : read_bytes bs' ns ≡ some (slice (view bs' image) (o + n) (sum ns)) =
      read_bytes-view ns bs' image count (o + n) (IsBacked-moved bs image count (pos (o + n)) b)
        (omega arith) refl in
    let first = read-view bs image count n o b (omega arith) at in
    rw (first, read_bytes, first, rest)
      (ap some (unfold view in slice-append (view bs image) o n (sum ns)))

-- After a `Seek` to o from the start, `Read` calls of any lengths return together the bytes of the
-- view from o on, as long as they stay inside of the sectors that the source holds, under the
-- conditions of `read_at-view`.
pub seek-read_bytes :
    (bs : BitlockerStream) (image : ℕ → ℕ) (count o : ℕ) (ns : List ℕ)
    → IsBacked bs image count
    → o + sum ns ≤ count * bs.sector_size
    → ((seek bs (pos o) seek_start).1 ≡ ok (pos o))
      × (read_bytes (seek bs (pos o) seek_start).0 ns ≡ some (slice (view bs image) o (sum ns)))
unfolding seek seek_to
seek-read_bytes bs image count o ns b below = rw (ltb_of_le (o + 0) 0 (omega arith)) (
  refl,
  read_bytes-view ns (record bs { offset = pos o }) image count o
        (IsBacked-moved bs image count (pos o) b) below refl
      ∙ unfold view in refl,
)
