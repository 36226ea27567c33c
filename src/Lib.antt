-- ===== src/Lib.antt =====
-- A model of go-bde, a reader for BitLocker volumes, with the theorems that make it correct.
--
-- The program finds the metadata block of a volume, loads its dataset of datums, unboxes the volume's
-- keys with AES-CCM, and gives a stream that decrypts sectors with AES-XTS or AES-CBC. The parts, and
-- the files that model them, from the bottom up:
--
--   Base       the native numbers, lists, byte strings and their little-endian values, bits, and Go's
--              `int64`, which wraps to 64 bits
--   Outcome    how a function ends: a value, one of the program's errors, or a panic
--   Reader     `io.ReaderAt`, a parameter: its contract, and a source that holds an image
--   Types      types.go: the on-disk structures with their decoding (`binary.Read`); Types/Const its
--              constants
--   Datum      information.go, `ReadDatum` and `readProperties` over the rest of a buffer; Datum/Fields
--              the getters of a datum and `Text`
--   Validation information.go, `NewValidation`
--   Dataset    information.go, `NewDataset`, `readData`, `NewInformation`, and the queries `FindDatum`,
--              `FindFvek`, `FindVmk` and those for the kinds of protector; readerat.go
--   Cipher     the block cipher, a parameter (`aes.NewCipher`); Cipher/Xts xts.go, Cipher/Cbc cbc.go,
--              Cipher/Ccm ccm.go, with the key stream of `cipher.NewCTR` as a parameter; Cipher/Ccm/Blocks,
--              Cipher/Ccm/Format and Cipher/Ccm/Reference CCM as RFC 3610 writes it
--   Unbox      information.go, `Unbox` and `GetKey`
--   Keys       keys.go: recovery passwords, passphrases and `Stretch`, with SHA-256 and `utf16.Encode`
--              as parameters
--   Region     bde.go, `setReservedRegions`, `isReservedSector` over `sort.Search`, and the offset
--              helpers
--   Stream     bde.go, `BitlockerStream`: `readAtInternal`, `Read`, `ReadAt`, `Seek`, `Close`
--   Eow        eow.go, `NewEowInformation`
--   Search     bde.go, `readGuidBlocks`; Search/Boot `parseBootSector` and `tryBootSectorOffsets`
--   Detect     detect.go: the probe, which has its own copy of the locator search, and the signature
--              checks behind it
--   Volume     bde.go, `BDE`: `ReservedRegions`, `NewBitlockerStream`, `Open`; Volume/Opened the
--              calls on an opened stream; Volume/New `New` (with scan.go's `readerSize` as an
--              argument), Volume/Queries the queries, Volume/Unlock the unlock paths and
--              `CheckIntegrity`
--   Tests      concrete data, on which the theorems apply and the definitions run
--
-- Correspondence. A Go method is a function of the struct, which is a record; one that changes the
-- struct returns it: an unlock returns the volume and its outcome, and a session is a sequence of such
-- requests (`Reach`). A slice that a function fills is a list that it returns, and `dst` of the read
-- loop is the number of bytes that are left to fill. `uint16`, `uint32` and `uint64` fields are numbers
-- that their decoding bounds. `int64` offsets and sectors are integers cut to 64 bits after each
-- operation; a sector size is a positive number. `%` and `/` truncate toward 0.
--
-- Parameters. `io.ReaderAt`, AES, the CTR key stream, SHA-256 and the `utf16` package are not part of
-- the repository. Theorems name what they rely on: the contract of `io.ReaderAt`, that a source serves
-- an image, that decryption of a block undoes encryption, that a key stream keeps the length and
-- undoes itself. `sort.Slice` is
-- insertion sort, `sort.Search` its documented bisection, `io.ReadFull` one read of the source, which
-- its contract makes enough. A section of the source starts at its offset; an upper bound of 2 ^ 63
-- bytes is not modelled, that of the tail of a volume is. `bytes.Index` is the first place of a pattern.
--
-- Fuel. The read loop runs on the number of bytes asked for: each pass that goes on writes one at
-- least. Properties and datums run on the length of the buffer: each takes 8 bytes at least. The MAC
-- runs on the length of its data, a round per 16 bytes. The scans run on their number of
-- sectors. `out_of_fuel` and `no_fuel` are of the model only.
--
-- Not modelled: the command (cmd/main.go), which opens files and prints; `FveState` and the constants
-- that no code uses (types.go); the texts of errors. The probe and the scan are modelled for a sector
-- size that a buffer can be made of.
pub mod Base
pub mod Outcome
pub mod Reader
pub mod Types
pub mod Datum
pub mod Validation
pub mod Dataset
pub mod Eow
pub mod Region
pub mod Cipher
pub mod Unbox
pub mod Keys
pub mod Search
pub mod Detect
pub mod Stream
pub mod Volume
pub mod Tests
