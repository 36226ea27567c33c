-- ===== src/Volume/Opened.antt =====
-- `Open` and what its stream is used for (bde.go): `Read`, `ReadAt`, `Seek` and `Close`.
use go_bde.Base.{
  ℕ, zero, suc, ◌+◌, ◌-◌, ◌≡◌, ◌≢◌, subst, ◌∙◌, true, ◌||◌, Option, none, some, [], ◌∷◌, length,
  ltb, leb, Bool-cases, Option-cases, inl, inr,
}
use go_bde.Base.Int.{ℤ, pos, negsuc, ◌+ℤ◌, quot, ltb_ℤ, uint64}
use go_bde.Base.Bytes.{Bytes}
use go_bde.Outcome.{Outcome, ok, err, panic, eof, not_initialized, not_unlocked, unsupported_cipher}
use go_bde.Outcome.Yields.{Yields, Yields-guard}
use go_bde.Reader.{ReadResult, ReaderAt}
use go_bde.Region.{is_reserved_sector}
use go_bde.Cipher.{NewCipher}
use go_bde.Stream.{
  BitlockerStream, SectorCipher, Pass, advanced, stopped, crashed, ReadEnd, returned, panicked,
  out_of_fuel, pass_through, copy_range, decrypt_sector, decrypt_pass, cipher_read, read_pass,
  read_loop, read_at_internal, read_at_end, drop_eof, read_at, prepend, moved, read, Whence,
  seek_start, seek_current, seek_end, other_whence, seek_to, seek, to_do, sector_buf_size,
}
use go_bde.Volume.{Bde, unlocked, open_volume, new_bitlocker_stream, has_cipher}

-- A read did not end for want of a cipher.
abbrev pub HadCipher : ReadEnd → Type 0
HadCipher (returned bytes next e) = e ≢ some not_initialized
HadCipher panicked = Unit
HadCipher out_of_fuel = Unit

-- The source never gives the stream's own error for a missing cipher.
unfoldable pub IsForeign : ReaderAt → Type 0
IsForeign r = (n : ℕ) (off : ℤ) → (r n off).error ≢ some not_initialized

-- The streams that calls of `Read` and `Seek` lead to.
pub data Uses (bs : BitlockerStream) : BitlockerStream → Type 0 where
  fresh : Uses bs bs
  after_read : {now : BitlockerStream} → Uses bs now → (len : ℕ) → Uses bs (read now len).0
  after_seek :
      {now : BitlockerStream}
      → Uses bs now
      → (offset : ℤ) (whence : Whence) → Uses bs (seek now offset whence).0

-- What the calls keep.
record IsServing (bs : BitlockerStream) : Type 0 where
  equipped : (bs.passthrough || has_cipher bs.cipher) ≡ true
  source : IsForeign bs.r

-- A pass does not stop for want of a cipher.
abbrev PassHad : Pass → Type 0
PassHad (advanced chunk next) = Unit
PassHad (stopped chunk next e) = e ≢ some not_initialized
PassHad crashed = Unit

pass_through-PassHad :
    (n : ℕ) (cur : ℤ) (res : ReadResult)
    → res.error ≢ some not_initialized
    → PassHad (pass_through n cur res)
unfolding pass_through
pass_through-PassHad n cur res other = elim (Option-cases (res.error)) [
  | inl e ↦
      rw e
        (elim (Bool-cases (ltb (length res.bytes) n)) [ inl l ↦ rw l (λ p. cc) | inr l ↦ rw l tt ])
  | inr (x, e) ↦ rw e (λ p. other (e ∙ p))
]

copy_range-PassHad : (n : ℕ) (cur at : ℤ) (o : Outcome Bytes) → PassHad (copy_range n cur at o)
unfolding copy_range
copy_range-PassHad n cur (pos k) (ok plain) = elim (Bool-cases (leb (k + n) (length plain))) [
  | inl e ↦ rw e tt
  | inr e ↦ rw e tt
]
copy_range-PassHad n cur (negsuc k) (ok plain) = tt
copy_range-PassHad n cur (pos k) (err e) = tt
copy_range-PassHad n cur (negsuc k) (err e) = tt
copy_range-PassHad n cur (pos k) panic = tt
copy_range-PassHad n cur (negsuc k) panic = tt

decrypt_pass-PassHad :
    (c : SectorCipher) (size n : ℕ) (cur at : ℤ) (sector : ℕ) (res : ReadResult)
    → res.error ≢ some not_initialized
    → PassHad (decrypt_pass c size n cur at sector res)
unfolding decrypt_pass
decrypt_pass-PassHad c size n cur at sector res other = elim (Option-cases (res.error)) [
  | inl e ↦ rw e (copy_range-PassHad n cur at (decrypt_sector c size res.bytes sector))
  | inr (x, e) ↦ rw e (λ p. other (e ∙ p))
]

cipher_read-PassHad :
    (o : Option SectorCipher) (r : ReaderAt) (size n : ℕ) (cur at src : ℤ)
    → has_cipher o ≡ true
    → IsForeign r
    → PassHad (cipher_read o r size n cur at src)
unfolding cipher_read IsForeign
cipher_read-PassHad none r size n cur at src h foreign = λ p. cc
cipher_read-PassHad (some c) r size n cur at src h foreign =
    elim (Bool-cases (leb size sector_buf_size)) [
      | inl e ↦ rw e (
          decrypt_pass-PassHad c size n cur at (uint64 (quot src size)) (r size src)
            (foreign size src))
      | inr e ↦ rw e tt
    ]

read_pass-PassHad :
    (bs : BitlockerStream) (len : ℕ) (cur : ℤ) → IsServing bs → PassHad (read_pass bs len cur)
unfolding read_pass IsForeign
read_pass-PassHad bs len cur s =
    let n = to_do bs.sector_size len cur in
    elim (Bool-cases (is_reserved_sector bs.reserved (quot cur bs.sector_size))) [
      | inl e ↦ rw e tt
      | inr e ↦ elim (Bool-cases bs.passthrough) [
        | inl t ↦ rw (e, t) (pass_through-PassHad n cur (bs.r n cur) (s.source n cur))
        | inr t ↦
            rw (e, t)
              (cipher_read-PassHad bs.cipher bs.r bs.sector_size n cur _ _
                (subst (λ p. (p || has_cipher bs.cipher) ≡ true) t s.equipped) s.source)
      ]
    ]

prepend-HadCipher : (chunk : Bytes) (e : ReadEnd) → HadCipher e → HadCipher (prepend chunk e)
prepend-HadCipher chunk (returned bytes next e) h = h
prepend-HadCipher chunk panicked h = tt
prepend-HadCipher chunk out_of_fuel h = tt

read_loop-HadCipher :
    (bs : BitlockerStream) (fuel len : ℕ) (cur : ℤ)
    → IsServing bs
    → HadCipher (read_loop bs fuel len cur)
unfolding read_loop
read_loop-HadCipher bs fuel zero cur s = λ p. cc
read_loop-HadCipher bs zero (suc len) cur s = tt
read_loop-HadCipher bs (suc fuel) (suc len) cur s =
    finish (read_pass bs (suc len) cur) (read_pass-PassHad bs (suc len) cur s)
      (λ n next. read_loop-HadCipher bs fuel n next s)
  where
    finish :
        (pass : Pass)
        → PassHad pass
        → ((n : ℕ) (next : ℤ) → HadCipher (read_loop bs fuel n next))
        → HadCipher (elim pass [
          | advanced chunk next ↦ prepend chunk (read_loop bs fuel (suc len - length chunk) next)
          | stopped chunk next e ↦ returned chunk next e
          | crashed ↦ panicked
        ])
    finish (advanced chunk next) h again =
        prepend-HadCipher chunk _ (again (suc len - length chunk) next)
    finish (stopped chunk next e) h again = h
    finish crashed h again = tt

read_at_end-HadCipher : (e : ReadEnd) → HadCipher e → HadCipher (read_at_end e)
unfolding read_at_end drop_eof
read_at_end-HadCipher (returned [] next e) h = h
read_at_end-HadCipher (returned (b ∷ bytes) next (some eof)) h = λ p. cc
read_at_end-HadCipher (returned (b ∷ bytes) next e) h = h
read_at_end-HadCipher panicked h = tt
read_at_end-HadCipher out_of_fuel h = tt

read_at-HadCipher :
    (bs : BitlockerStream) (len : ℕ) (off : ℤ) → IsServing bs → HadCipher (read_at bs len off)
unfolding read_at read_at_internal
read_at-HadCipher bs len off s =
    read_at_end-HadCipher (read_loop bs len len off) (read_loop-HadCipher bs len len off s)

moved-IsServing : (bs : BitlockerStream) (e : ReadEnd) → IsServing bs → IsServing (moved bs e)
unfolding moved
moved-IsServing bs (returned [] next e) s = s
moved-IsServing bs (returned (b ∷ bytes) next e) s = record {
  equipped = s.equipped;
  source = s.source;
}
moved-IsServing bs panicked s = s
moved-IsServing bs out_of_fuel s = s

seek_to-IsServing :
    (bs : BitlockerStream) (new_offset : ℤ) → IsServing bs → IsServing (seek_to bs new_offset).0
unfolding seek_to
seek_to-IsServing bs new_offset s = elim (Bool-cases (ltb_ℤ new_offset (pos 0))) [
  | inl e ↦ rw e s
  | inr e ↦ rw e record { equipped = s.equipped; source = s.source }
]

seek-IsServing :
    (bs : BitlockerStream) (offset : ℤ) (whence : Whence)
    → IsServing bs
    → IsServing (seek bs offset whence).0
unfolding seek
seek-IsServing bs offset seek_start s = seek_to-IsServing bs offset s
seek-IsServing bs offset seek_current s = seek_to-IsServing bs (bs.offset +ℤ offset) s
seek-IsServing bs offset seek_end s = s
seek-IsServing bs offset (other_whence w) s = s

Uses-IsServing : {bs now : BitlockerStream} → Uses bs now → IsServing bs → IsServing now
unfolding read
Uses-IsServing fresh s = s
Uses-IsServing (after_read {now} u len) s =
    moved-IsServing now (read_at_internal now len now.offset) (Uses-IsServing u s)
Uses-IsServing (after_seek {now} u offset whence) s =
    seek-IsServing now offset whence (Uses-IsServing u s)

-- `Open` ends with an error, or with a stream that passes the source through or has a cipher.
open_volume-Yields :
    (new_cipher : NewCipher) (b : Bde) → IsForeign b.r → Yields IsServing (open_volume new_cipher b)
unfolding open_volume
open_volume-Yields new_cipher b foreign =
    let bs : BitlockerStream = new_bitlocker_stream new_cipher b in
    Yields-guard IsServing (unlocked b) not_unlocked _ λ u.
      Yields-guard IsServing (bs.passthrough || has_cipher bs.cipher) unsupported_cipher _
        λ e. record { equipped = e; source = foreign }

-- After any sequence of `Read` and `Seek` calls on the stream that `Open` gives, with no `Close`
-- among them, neither `ReadAt` nor `Read`, of any length and at any offset, ends with the error
-- that the cipher is not initialized, if the source never ends a read with that error.
pub open_volume-HadCipher :
    (new_cipher : NewCipher) (b : Bde) (bs now : BitlockerStream) (len : ℕ) (off : ℤ)
    → IsForeign b.r
    → open_volume new_cipher b ≡ ok bs
    → Uses bs now
    → HadCipher (read_at now len off) × HadCipher (read now len).1
unfolding read read_at_internal
open_volume-HadCipher new_cipher b bs now len off foreign opened u =
    let s =
      Uses-IsServing u
        (subst (Yields IsServing) opened (open_volume-Yields new_cipher b foreign)) in
    (
      read_at-HadCipher now len off s,
      read_at_end-HadCipher (read_loop now len len now.offset)
          (read_loop-HadCipher now len len now.offset s),
    )
