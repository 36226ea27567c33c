-- ===== src/Dataset.antt =====
-- `Information` and `Dataset` (information.go): the metadata block of a volume, its datums, and the
-- queries over them.
pub mod Load
pub mod Find
use go_bde.Base.{
  ℕ, zero, suc, ◌+◌, ◌-◌, ◌*◌, ◌%◌, ◌^◌, Bool, true, false, not, ◌&&◌, ◌||◌, Option, none, some,
  List, [], ◌∷◌, ltb, leb, ◌==◌, if◌then◌else◌, length, take, drop,
}
use go_bde.Base.Int.{ℤ, pos, int64, ◌+ℤ◌}
use go_bde.Base.Bytes.{Bytes, equal}
use Prim.Native.Nat.{bit_and}
use go_bde.Outcome.{
  Error, Outcome, ok, err, panic, ◌>>=◌, ◌>>◌, guard, eof, unexpected_eof, invalid_header,
}
use go_bde.Reader.{ReadResult, ReaderAt}
use go_bde.Types.{
  FveMetadataHeader, fve_metadata_header_size, decode_metadata_header, FveMetadataBlockHeaderV2,
  fve_metadata_block_header_size, decode_block_header, FveDatum, fve_datum_size, Structure,
  vmk_info,
}
use go_bde.Types.Const.{
  bitlocker_signature, role_property, role_description, type_unicode, role_volume_master_key_info,
  role_full_volume_encryption_key, type_aes_ccm_encrypted_key, type_volume_master_key_info,
  protector_clear, protector_external, protector_recovery_password, protector_passphrase,
}
use go_bde.Datum.Fields.{text}
use go_bde.Validation.{Validation}
use go_bde.Datum.{
  Datum, Datums, nil, cons, header, structure, properties, Parse, got, end_of_buffer, no_fuel,
  read_datum,
}

-- `io.ReadFull` over a section of the source: n bytes, or the error of the read. An `io.EOF` behind
-- some bytes becomes `io.ErrUnexpectedEOF`, also if the source breaks the contract of `io.ReaderAt`
-- and gives neither the bytes nor an error.
unfoldable pub short_read : Bytes → Option Error → Error
short_read [] none = eof
short_read [] (some e) = e
short_read (b ∷ bs) none = unexpected_eof
short_read (b ∷ bs) (some eof) = unexpected_eof
short_read (b ∷ bs) (some e) = e

unfoldable pub read_full_at : ReaderAt → ℕ → ℤ → Outcome Bytes
unfolding short_read
read_full_at r len off =
    let x = r len off in
    if length x.bytes == len then ok x.bytes else err (short_read x.bytes x.error)

-- `append`, in front of what the rest of the loop finds.
abbrev pub cons_datum : Datum → Parse (List Datum) → Parse (List Datum)
cons_datum d (got ds rest) = got (d ∷ ds) rest
cons_datum d end_of_buffer = end_of_buffer
cons_datum d no_fuel = no_fuel

-- After a datum of the loop of `readData`: the end of the buffer stops it, and so does a datum with a
-- size below 8, which is dropped.
unfoldable pub next_datum : Parse Datum → ℕ → (ℕ → Bytes → Parse (List Datum)) → Parse (List Datum)
next_datum (got d rest) remaining again = elim (ltb (header d).size fve_datum_size) [
  | true ↦ got [] rest
  | false ↦ cons_datum d (again (remaining - (header d).size) rest)
]
next_datum end_of_buffer remaining again = got [] []
next_datum no_fuel remaining again = no_fuel

unfoldable pub read_datums : ℕ → ℕ → Bytes → Parse (List Datum)
unfolding next_datum
read_datums zero remaining bytes = no_fuel
read_datums (suc fuel) remaining bytes = elim (ltb remaining fve_datum_size) [
  | true ↦ got [] bytes
  | false ↦ next_datum (read_datum bytes) remaining (λ n b. read_datums fuel n b)
]

-- `readData` of a buffer with the header size of the dataset.
unfoldable pub read_data : ℕ → Bytes → Outcome (List Datum)
unfolding read_datums
read_data start buf =
    guard (leb start (length buf)) invalid_header
    >> (elim (read_datums (suc (length buf)) (length buf - start) (drop start buf)) [
      | got ds rest ↦ ok ds
      | end_of_buffer ↦ err eof
      | no_fuel ↦ panic
    ])

pub record Dataset : Type 0 where
  pub header : FveMetadataHeader
  pub buf : Bytes
  pub datums : List Datum

-- `NewDataset`
unfoldable pub new_dataset : ReaderAt → ℤ → Outcome Dataset
unfolding read_full_at read_data
new_dataset r offset = read_full_at r fve_metadata_header_size offset >>= λ head.
    let h = decode_metadata_header head in
    guard (leb fve_metadata_header_size h.metadata_size && leb h.metadata_size (64 * 2 ^ 20))
      invalid_header
    >> (guard (leb fve_metadata_header_size h.header_size && leb h.header_size h.metadata_size)
          invalid_header
        >> (read_full_at r h.metadata_size offset >>= λ buf.
            read_data h.header_size buf >>= λ ds. ok record { header = h; buf = buf; datums = ds }))

-- `NewInformation` leaves `buf` and `validation` unset.
pub record Information : Type 0 where
  pub offset : ℤ
  pub block_header : FveMetadataBlockHeaderV2
  pub metadata_header : FveMetadataHeader
  pub dataset : Dataset
  pub buf : Option Bytes
  pub validation : Option Validation
  pub valid_checksum : Bool

-- `IsValid`
abbrev pub is_valid : Information → Bool
is_valid i = i.valid_checksum

-- `NewInformation`
unfoldable pub new_information : ReaderAt → ℤ → Outcome Information
unfolding read_full_at new_dataset
new_information r offset = read_full_at r fve_metadata_block_header_size offset >>= λ block.
    let b = decode_block_header block in
    guard (equal b.signature bitlocker_signature) invalid_header
    >> (read_full_at r fve_metadata_header_size (offset +ℤ pos 64) >>= λ head.
        let h = decode_metadata_header head in
        guard (leb 48 h.header_size && leb h.header_size 4096) invalid_header
        >> (guard (leb h.header_size h.metadata_size && leb h.metadata_size (64 * 2 ^ 10))
              invalid_header
            >> (new_dataset r (offset +ℤ pos 64) >>= λ ds. ok record {
              offset = offset;
              block_header = b;
              metadata_header = h;
              dataset = ds;
              buf = none;
              validation = none;
              valid_checksum = true;
            })))

-- `InformationOffsets`
unfoldable pub nonzero_offsets : List ℕ → List ℤ
nonzero_offsets [] = []
nonzero_offsets (off ∷ offs) =
    if off == 0 then nonzero_offsets offs else int64 off ∷ nonzero_offsets offs

unfoldable pub information_offsets : Information → List ℤ
unfolding nonzero_offsets
information_offsets i = nonzero_offsets (
    i.block_header.metadata_offset1 ∷ i.block_header.metadata_offset2
    ∷ i.block_header.metadata_offset3 ∷ [])

-- `FvekType`
unfoldable pub fvek_type : Dataset → ℕ
fvek_type ds = ds.header.encryption_method % 2 ^ 16

-- `Role`, `Type`
abbrev pub role : Datum → ℕ
role d = (header d).role

abbrev pub typ : Datum → ℕ
typ d = (header d).typ

-- The datums that a test keeps, in order: the loops of the queries.
unfoldable pub keep : (Datum → Bool) → List Datum → List Datum
keep test [] = []
keep test (d ∷ ds) = let rest = keep test ds in if test d then d ∷ rest else rest

-- `FindDatum`: 0 stands for any role, any type.
unfoldable pub matches : ℕ → ℕ → Datum → Bool
matches r t d = (r == 0 || role d == r) && (t == 0 || typ d == t)

unfoldable pub find_datum : ℕ → ℕ → Dataset → List Datum
unfolding keep matches
find_datum r t ds = keep (matches r t) ds.datums

abbrev pub first : List Datum → Option Datum
first [] = none
first (d ∷ ds) = some d

-- `FindFvek`
unfoldable pub find_fvek : Dataset → Option Datum
unfolding find_datum
find_fvek ds = first (find_datum role_full_volume_encryption_key type_aes_ccm_encrypted_key ds)

-- `FindDescription`
abbrev pub text_of : (List ℕ → Bytes) → Option Datum → Bytes
text_of decode none = []
text_of decode (some d) = text decode d

unfoldable pub find_description : (List ℕ → Bytes) → Dataset → Bytes
unfolding find_datum
find_description decode ds = text_of decode (first (find_datum role_description type_unicode ds))

-- `GetVmkInfo`, its field `ProtectorType`.
unfoldable pub protector_of : Structure → Option ℕ
protector_of (vmk_info guid date unknown protector) = some protector
protector_of s = none

unfoldable pub get_vmk_info : Datum → Option ℕ
unfolding protector_of
get_vmk_info d = if typ d == type_volume_master_key_info then protector_of (structure d) else none

-- The tests of the loop of `FindVmk`.
unfoldable pub accepts : ℕ → ℕ → ℕ → ℕ → Option ℕ → Bool
accepts protector min_priority max_priority mask none = false
accepts protector min_priority max_priority mask (some priority) =
    not (ltb priority min_priority || ltb max_priority priority)
    && (protector == 0 || bit_and priority mask == protector)

-- `FindVmk`
unfoldable pub find_vmk : ℕ → ℕ → ℕ → ℕ → Dataset → List Datum
unfolding find_datum accepts get_vmk_info
find_vmk protector min_priority max_priority mask ds =
    keep (λ d. accepts protector min_priority max_priority mask (get_vmk_info d))
      (find_datum role_volume_master_key_info type_volume_master_key_info ds)

unfoldable pub find_clear_vmk : Dataset → Option Datum
unfolding find_vmk
find_clear_vmk ds = first (find_vmk protector_clear 0 0xff 0 ds)

unfoldable pub find_external_vmk : Dataset → List Datum
unfolding find_vmk
find_external_vmk ds = find_vmk protector_external 0 0x7fff 0xff00 ds

unfoldable pub find_recovery_vmk : Dataset → List Datum
unfolding find_vmk
find_recovery_vmk ds = find_vmk protector_recovery_password 0 0x7fff 0xff00 ds

unfoldable pub find_passphrase_vmk : Dataset → List Datum
unfolding find_vmk
find_passphrase_vmk ds = find_vmk protector_passphrase 0 0x7fff 0xff00 ds

-- `FindProperty`
unfoldable pub find_property : ℕ → Datums → List Datum
find_property t nil = []
find_property t (cons d ds) =
    let rest = find_property t ds in
    if role d == role_property && (t == 0 || typ d == t) then d ∷ rest else rest
