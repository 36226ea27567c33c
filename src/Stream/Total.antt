-- ===== src/Stream/Total.antt =====
-- `readAtInternal` (bde.go): how it ends, and the number of bytes that it writes.
use go_bde.Base.{
  ℕ, zero, suc, ◌+◌, ◌-◌, ◌≤◌, ◌<◌, ◌≡◌, ◌≢◌, refl, Option, none, some, [], ◌∷◌, arith, length,
  drop, length-append, length-take, length-drop, length-replicate, inl, inr, Bool-cases,
  Option-cases, leb, ltb,
}
use go_bde.Base.Int.{ℤ, pos, negsuc, pos_part, ◌-ℤ◌, rem, quot}
use go_bde.Base.Bytes.{Bytes}
use go_bde.Outcome.{Outcome, ok, err, panic}
use go_bde.Reader.{ReadResult, ReaderAt, IsReaderAt}
use go_bde.Region.{is_reserved_sector}
use go_bde.Stream.{
  BitlockerStream, SectorCipher, Pass, advanced, stopped, crashed, sector_buf_size, to_do,
  pass_through, copy_range, decrypt_sector, decrypt_pass, cipher_read, read_pass, ReadEnd, returned,
  panicked, out_of_fuel, prepend, read_loop, read_at_internal,
}

-- What remains in a sector is a byte at least, at a negative offset too.
remains :
    (sector_size : ℕ) (cur : ℤ)
    → 0 < sector_size
    → sector_size ≤ sector_buf_size
    → 0 < pos_part (pos sector_size -ℤ rem cur sector_size)
unfolding rem ◌-ℤ◌
remains sector_size (pos n) h k = ground arith
remains sector_size (negsuc n) h k = ground arith

pub to_do_bounds :
    (sector_size len : ℕ) (cur : ℤ)
    → 0 < sector_size
    → sector_size ≤ sector_buf_size
    → 0 < len
    → (0 < to_do sector_size len cur) × (to_do sector_size len cur ≤ len)
unfolding to_do
to_do_bounds sector_size len cur h k l = ground (arith, remains sector_size cur h k)

-- A pass that goes on has written all n bytes; one that returns has an error.
abbrev PassWrites : ℕ → Pass → Type 0
PassWrites n (advanced chunk next) = length chunk ≡ n
PassWrites n (stopped chunk next e) = (length chunk ≤ n) × (e ≢ none)
PassWrites n crashed = Unit

pass_through-PassWrites :
    (n : ℕ) (cur : ℤ) (res : ReadResult)
    → length res.bytes ≤ n
    → PassWrites n (pass_through n cur res)
unfolding pass_through
pass_through-PassWrites n cur res h = elim (Option-cases (res.error)) [
  | inl e ↦ rw e (elim (Bool-cases (ltb (length res.bytes) n)) [
    | inl l ↦ rw l (h, λ p. cc)
    | inr l ↦ rw l (ground arith)
  ])
  | inr (x, e) ↦ rw e (h, λ p. cc)
]

copy_range-PassWrites :
    (n : ℕ) (cur in_sector : ℤ) (o : Outcome Bytes) → PassWrites n (copy_range n cur in_sector o)
unfolding copy_range
copy_range-PassWrites n cur (pos k) (ok plain) = elim (Bool-cases (leb (k + n) (length plain))) [
  | inl e ↦ rw e (ground (arith, length-take n (drop k plain), length-drop k plain))
  | inr e ↦ rw e tt
]
copy_range-PassWrites n cur (negsuc k) (ok plain) = tt
copy_range-PassWrites n cur (pos k) (err e) = tt
copy_range-PassWrites n cur (negsuc k) (err e) = tt
copy_range-PassWrites n cur (pos k) panic = tt
copy_range-PassWrites n cur (negsuc k) panic = tt

decrypt_pass-PassWrites :
    (c : SectorCipher) (sector_size n : ℕ) (cur in_sector : ℤ) (num : ℕ) (res : ReadResult)
    → PassWrites n (decrypt_pass c sector_size n cur in_sector num res)
unfolding decrypt_pass
decrypt_pass-PassWrites c sector_size n cur in_sector num res = elim (Option-cases (res.error)) [
  | inl e ↦
      rw e (copy_range-PassWrites n cur in_sector (decrypt_sector c sector_size res.bytes num))
  | inr (x, e) ↦ rw e (omega arith, λ p. cc)
]

-- The promise of `readAtInternal`: n ≤ len(p), and n = len(p) if there is no error.
abbrev pub EndWrites : ℕ → ReadEnd → Type 0
EndWrites len (returned bytes next e) = (length bytes ≤ len) × (e ≡ none → length bytes ≡ len)
EndWrites len panicked = Unit
EndWrites len out_of_fuel = ⊥

EndWrites-prepend :
    (chunk : Bytes) (len : ℕ) (e : ReadEnd)
    → length chunk ≤ len
    → EndWrites (len - length chunk) e
    → EndWrites len (prepend chunk e)
EndWrites-prepend chunk len (returned bytes next none) h (k, l) =
    let f = l refl in
    (omega (arith, length-append chunk bytes), λ _. omega (arith, length-append chunk bytes))
EndWrites-prepend chunk len (returned bytes next (some e)) h (k, l) =
    (omega (arith, length-append chunk bytes), λ p. cc)
EndWrites-prepend chunk len panicked h k = tt
EndWrites-prepend chunk len out_of_fuel h k = k

cipher_read-PassWrites :
    (c : Option SectorCipher) (r : ReaderAt) (sector_size n : ℕ) (cur in_sector src : ℤ)
    → PassWrites n (cipher_read c r sector_size n cur in_sector src)
unfolding cipher_read
cipher_read-PassWrites none r sector_size n cur in_sector src = (omega arith, λ x. cc)
cipher_read-PassWrites (some c) r sector_size n cur in_sector src =
    elim (Bool-cases (leb sector_size sector_buf_size)) [
      | inl f ↦ rw f (decrypt_pass-PassWrites c sector_size n cur in_sector _ _)
      | inr f ↦ rw f tt
    ]

module _ (bs : BitlockerStream) (reader : IsReaderAt bs.r) where
  read_pass-PassWrites :
      (len : ℕ) (cur : ℤ) → PassWrites (to_do bs.sector_size len cur) (read_pass bs len cur)
  unfolding read_pass
  read_pass-PassWrites len cur =
      elim (Bool-cases (is_reserved_sector bs.reserved (quot cur bs.sector_size))) [
        | inl e ↦ rw e (length-replicate _ 0)
        | inr e ↦ rw e (elim (Bool-cases (bs.passthrough)) [
          | inl p ↦ rw p (pass_through-PassWrites n cur (bs.r n cur) (reader.bounded n cur))
          | inr p ↦ rw p (cipher_read-PassWrites bs.cipher bs.r bs.sector_size n cur _ _)
        ])
      ]
    where
      n : ℕ
      n = to_do bs.sector_size len cur

  module _ (pos_size : 0 < bs.sector_size) (fits : bs.sector_size ≤ sector_buf_size) where
    read_loop-EndWrites :
        (fuel len : ℕ) (cur : ℤ) → len ≤ fuel → EndWrites len (read_loop bs fuel len cur)
    unfolding read_loop
    read_loop-EndWrites fuel zero cur h = (omega arith, λ p. refl)
    read_loop-EndWrites zero (suc len) cur h = absurd (omega arith)
    read_loop-EndWrites (suc fuel) (suc len) cur h =
        go (read_pass bs (suc len) cur) (read_pass-PassWrites (suc len) cur)
          (to_do_bounds bs.sector_size (suc len) cur pos_size fits (omega arith))
          (λ k next. read_loop-EndWrites fuel (suc len - suc k) next (omega arith))
      where
        go :
            (pass : Pass)
            → PassWrites (to_do bs.sector_size (suc len) cur) pass
            → (0 < to_do bs.sector_size (suc len) cur)
              × (to_do bs.sector_size (suc len) cur ≤ suc len)
            → ((k : ℕ) (next : ℤ)
                → EndWrites (suc len - suc k) (read_loop bs fuel (suc len - suc k) next))
            → EndWrites (suc len) (elim pass [
              | advanced chunk next ↦
                  prepend chunk (read_loop bs fuel (suc len - length chunk) next)
              | stopped chunk next e ↦ returned chunk next e
              | crashed ↦ panicked
            ])
        go (advanced [] next) w b ih = absurd (omega arith)
        go (advanced (x ∷ chunk) next) w b ih =
            EndWrites-prepend (x ∷ chunk) (suc len) _ (omega arith) (ih (length chunk) next)
        go (stopped chunk next e) w b ih = (omega arith, λ p. absurd (w.1 p))
        go crashed w b ih = tt

-- `readAtInternal` ends for every length and offset, negative ones included, over a source that
-- keeps the contract of `io.ReaderAt` and a sector size from 1 to 4096: it writes at most the bytes
-- asked for, and all of them if it returns no error (a panic is the third case).
pub read_at_internal-EndWrites :
    (bs : BitlockerStream) (len : ℕ) (off : ℤ)
    → IsReaderAt bs.r
    → 0 < bs.sector_size
    → bs.sector_size ≤ sector_buf_size
    → EndWrites len (read_at_internal bs len off)
unfolding read_at_internal
read_at_internal-EndWrites bs len off reader pos_size fits =
    read_loop-EndWrites bs reader pos_size fits len len off (omega arith)
