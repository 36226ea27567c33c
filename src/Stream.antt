-- ===== src/Stream.antt =====
-- `BitlockerStream` (bde.go): the decrypted view of a volume. `Read`, `ReadAt`, `Seek` and `Close`
-- over the loop of `readAtInternal`.
pub mod Total
pub mod View
pub mod Reads
pub mod Sequence
pub mod Decrypted
pub mod Errors
use go_bde.Base.{
  ℕ, zero, suc, ◌+◌, ◌-◌, ◌≤◌, Bool, true, false, ◌&&◌, ◌||◌, not, Option, none, some, List, [],
  ◌∷◌, ◌++◌, ltb, leb, ◌==◌, if◌then◌else◌, length, take, drop, replicate,
}
use go_bde.Base.Int.{ℤ, pos, negsuc, pos_part, ◌+ℤ◌, ◌-ℤ◌, ◌*ℤ◌, quot, rem, uint64, leb_ℤ, ltb_ℤ}
use go_bde.Base.Bytes.{Bytes}
use go_bde.Outcome.{
  Error, Outcome, ok, err, panic, eof, not_initialized, seek_end_unsupported, invalid_whence,
  negative_offset,
}
use go_bde.Reader.{ReadResult, ReaderAt}
use go_bde.Region.{ReservedRegion, is_reserved_sector}
use go_bde.Cipher.Xts
use go_bde.Cipher.Xts.{XtsCipher}
use go_bde.Cipher.Cbc
use go_bde.Cipher.Cbc.{CbcCipher}

-- The two implementations of the interface `sectorCipher`.
pub data SectorCipher : Type 0 where
  xts : XtsCipher → SectorCipher
  cbc : CbcCipher → SectorCipher

unfoldable pub decrypt_sector : SectorCipher → ℕ → Bytes → ℕ → Outcome Bytes
decrypt_sector (xts c) dst_len src sector_num = Xts.decrypt_sector c dst_len src sector_num
decrypt_sector (cbc c) dst_len src sector_num = Cbc.decrypt_sector c dst_len src sector_num

-- `bde` is kept by the program but not read again. `sector_size` is positive.
pub record BitlockerStream : Type 0 where
  pub offset : ℤ
  pub cipher : Option SectorCipher
  pub r : ReaderAt
  pub sector_size : ℕ
  pub reserved : List ReservedRegion
  pub passthrough : Bool
  pub header_offset : ℤ
  pub header_sectors : ℤ

-- One pass of the loop: go on with the bytes written and the new `cur`, return, or panic.
pub data Pass : Type 0 where
  advanced : Bytes → ℤ → Pass
  stopped : Bytes → ℤ → Option Error → Pass
  crashed : Pass

-- The size of the buffers of `sectorBufPool`.
abbrev pub sector_buf_size : ℕ
sector_buf_size = 4096

-- `toDo`: what is asked for, at most what remains in the sector.
unfoldable pub to_do : ℕ → ℕ → ℤ → ℕ
to_do sector_size len cur =
    let remain_in_sector = pos_part (pos sector_size -ℤ rem cur sector_size) in
    if ltb remain_in_sector len then remain_in_sector else len

-- Where the ciphertext of a sector stands: the first sectors are kept elsewhere.
unfoldable pub src_offset : BitlockerStream → ℤ → ℤ → ℤ
src_offset bs sector sector_start =
    if ltb_ℤ (pos 0) bs.header_offset
      && ltb_ℤ (pos 0) bs.header_sectors
      && leb_ℤ (pos 0) sector
      && ltb_ℤ sector bs.header_sectors
    then bs.header_offset +ℤ sector *ℤ pos bs.sector_size
    else sector_start

-- `chunk := dst[:toDo]; m, readErr := bs.r.ReadAt(chunk, cur)`
unfoldable pub pass_through : ℕ → ℤ → ReadResult → Pass
pass_through n cur res =
    let next = cur +ℤ pos (length res.bytes) in
    elim (res.error) [
      | some e ↦ stopped res.bytes next (some e)
      | none ↦
          if ltb (length res.bytes) n
          then stopped res.bytes next (some eof)
          else advanced res.bytes next
    ]

-- `copy(dst[:toDo], sectorBuf[inSector:inSector+toDo])`; a negative index panics.
unfoldable pub copy_range : ℕ → ℤ → ℤ → Outcome Bytes → Pass
copy_range n cur (pos in_sector) (ok plain) =
    if leb (in_sector + n) (length plain)
    then advanced (take n (drop in_sector plain)) (cur +ℤ pos n)
    else crashed
copy_range n cur (negsuc k) (ok plain) = crashed
copy_range n cur in_sector (err e) = crashed
copy_range n cur in_sector panic = crashed

-- The full sector is read and decrypted in a pooled buffer.
unfoldable pub decrypt_pass : SectorCipher → ℕ → ℕ → ℤ → ℤ → ℕ → ReadResult → Pass
unfolding decrypt_sector copy_range
decrypt_pass c sector_size n cur in_sector sector_num res = elim (res.error) [
  | some e ↦ stopped [] cur (some e)
  | none ↦ copy_range n cur in_sector (decrypt_sector c sector_size res.bytes sector_num)
]

-- The part of the body that needs a cipher: `src` is where the ciphertext of the sector stands.
unfoldable pub cipher_read : Option SectorCipher → ReaderAt → ℕ → ℕ → ℤ → ℤ → ℤ → Pass
unfolding decrypt_pass
cipher_read none r sector_size n cur in_sector src = stopped [] cur (some not_initialized)
cipher_read (some c) r sector_size n cur in_sector src =
    if leb sector_size sector_buf_size
    then decrypt_pass c sector_size n cur in_sector (uint64 (quot src sector_size))
        (r sector_size src)
    else crashed

-- The body of the loop, with `len` bytes of `dst` left, at least one.
unfoldable pub read_pass : BitlockerStream → ℕ → ℤ → Pass
unfolding to_do src_offset pass_through cipher_read
read_pass bs len cur =
    let sector = quot cur bs.sector_size in
    let in_sector = rem cur bs.sector_size in
    let n = to_do bs.sector_size len cur in
    if is_reserved_sector bs.reserved sector
    then advanced (replicate n 0) (cur +ℤ pos n)
    else if bs.passthrough
    then pass_through n cur (bs.r n cur)
    else cipher_read bs.cipher bs.r bs.sector_size n cur in_sector
        (src_offset bs sector (cur -ℤ in_sector))

-- How `readAtInternal` ends: with `p[:n]`, the next offset and the error; with a panic; or, in this
-- model only, without fuel.
pub data ReadEnd : Type 0 where
  returned : Bytes → ℤ → Option Error → ReadEnd
  panicked out_of_fuel : ReadEnd

abbrev pub prepend : Bytes → ReadEnd → ReadEnd
prepend chunk (returned bytes next e) = returned (chunk ++ bytes) next e
prepend chunk panicked = panicked
prepend chunk out_of_fuel = out_of_fuel

unfoldable pub read_loop : BitlockerStream → ℕ → ℕ → ℤ → ReadEnd
unfolding read_pass
read_loop bs fuel zero cur = returned [] cur none
read_loop bs zero (suc len) cur = out_of_fuel
read_loop bs (suc fuel) (suc len) cur = elim (read_pass bs (suc len) cur) [
  | advanced chunk next ↦ prepend chunk (read_loop bs fuel (suc len - length chunk) next)
  | stopped chunk next e ↦ returned chunk next e
  | crashed ↦ panicked
]

-- Every pass that goes on writes a byte at least, so `len` passes are enough.
unfoldable pub read_at_internal : BitlockerStream → ℕ → ℤ → ReadEnd
unfolding read_loop
read_at_internal bs len off = read_loop bs len len off

-- `if n > 0 && errors.Is(err, io.EOF) { return n, nil }`
unfoldable pub drop_eof : Bytes → Option Error → Option Error
drop_eof [] e = e
drop_eof (b ∷ bs) (some eof) = none
drop_eof (b ∷ bs) e = e

unfoldable pub read_at_end : ReadEnd → ReadEnd
unfolding drop_eof
read_at_end (returned bytes next e) = returned bytes next (drop_eof bytes e)
read_at_end panicked = panicked
read_at_end out_of_fuel = out_of_fuel

-- `ReadAt`: the next offset is not returned to the caller.
unfoldable pub read_at : BitlockerStream → ℕ → ℤ → ReadEnd
unfolding read_at_internal read_at_end
read_at bs len off = read_at_end (read_at_internal bs len off)

-- `if n > 0 { bs.offset = next }`
unfoldable pub moved : BitlockerStream → ReadEnd → BitlockerStream
moved bs (returned [] next e) = bs
moved bs (returned (b ∷ bytes) next e) = record bs { offset = next }
moved bs panicked = bs
moved bs out_of_fuel = bs

-- `Read`: the new stream and what the caller gets.
unfoldable pub read : BitlockerStream → ℕ → BitlockerStream × ReadEnd
unfolding read_at_internal read_at_end moved
read bs len = let e = read_at_internal bs len bs.offset in (moved bs e, read_at_end e)

pub data Whence : Type 0 where
  seek_start seek_current seek_end : Whence
  other_whence : ℕ → Whence

unfoldable pub seek_to : BitlockerStream → ℤ → BitlockerStream × Outcome ℤ
seek_to bs new_offset =
    if ltb_ℤ new_offset (pos 0)
    then (bs, err negative_offset)
    else (record bs { offset = new_offset }, ok new_offset)

unfoldable pub seek : BitlockerStream → ℤ → Whence → BitlockerStream × Outcome ℤ
unfolding seek_to
seek bs offset seek_start = seek_to bs offset
seek bs offset seek_current = seek_to bs (bs.offset +ℤ offset)
seek bs offset seek_end = (bs, err seek_end_unsupported)
seek bs offset (other_whence w) = (bs, err invalid_whence)

-- `Close` always returns nil.
unfoldable pub close : BitlockerStream → BitlockerStream
close bs = record bs { cipher = none }
