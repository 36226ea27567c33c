-- ===== src/Dataset/Load.antt =====
-- `NewDataset` and `NewInformation` (information.go) over any source.
use go_bde.Base.{
  ℕ, zero, suc, ◌-◌, ◌*◌, ◌^◌, ◌≤◌, ◌<◌, ◌≡◌, refl, true, none, ◌&&◌, List, arith, length, leb, ltb,
  ◌==◌, drop, length-drop, inl, inr, Bool-cases, All, le_of_ltb, ==_iff,
}
use go_bde.Base.Int.{ℤ, pos, ◌+ℤ◌}
use go_bde.Base.Bytes.{Bytes, equal, equal_iff}
use go_bde.Outcome.{ok, err, panic, ◌>>=◌, eof, invalid_header}
use go_bde.Outcome.Yields.{Yields, Yields-bind, Yields-guard}
use go_bde.Reader.{ReaderAt}
use go_bde.Types.{
  fve_metadata_header_size, decode_metadata_header, FveMetadataHeader, FveMetadataBlockHeaderV2,
  fve_metadata_block_header_size, decode_block_header, fve_datum_size,
}
use go_bde.Types.Const.{bitlocker_signature}
use go_bde.Datum.{Datum, header, Parse, got, end_of_buffer, no_fuel, read_datum}
use go_bde.Datum.Total.{Takes, read_datum-Takes}
use go_bde.Dataset.{
  cons_datum, next_datum, read_datums, read_data, read_full_at, Dataset, new_dataset, Information,
  new_information,
}

-- A datum that holds its own header.
abbrev pub HasSize : Datum → Type 0
HasSize d = fve_datum_size ≤ (header d).size

-- The loop has ended, with datums that hold their headers.
abbrev Ends : Parse (List Datum) → Type 0
Ends (got ds rest) = All HasSize ds
Ends end_of_buffer = ⊥
Ends no_fuel = ⊥

cons_datum-Ends : (d : Datum) (m : Parse (List Datum)) → HasSize d → Ends m → Ends (cons_datum d m)
cons_datum-Ends d (got ds rest) h e = (h, e)
cons_datum-Ends d end_of_buffer h e = e
cons_datum-Ends d no_fuel h e = e

next_datum-Ends :
    (m : Parse Datum) (n remaining : ℕ) (again : ℕ → Bytes → Parse (List Datum))
    → Takes fve_datum_size n m
    → ((k : ℕ) (bytes : Bytes) → length bytes < n → Ends (again k bytes))
    → Ends (next_datum m remaining again)
unfolding next_datum
next_datum-Ends (got d rest) n remaining again t w =
    elim (Bool-cases (ltb (header d).size fve_datum_size)) [
      | inl e ↦ rw (e, next_datum) tt
      | inr e ↦
          rw (e, next_datum)
            (cons_datum-Ends d (again (remaining - (header d).size) rest) (le_of_ltb _ _ e)
              (w _ rest (omega arith)))
    ]
next_datum-Ends end_of_buffer n remaining again t w = tt
next_datum-Ends no_fuel n remaining again t w = t

read_datums-Ends :
    (fuel remaining : ℕ) (bytes : Bytes)
    → length bytes < fuel
    → Ends (read_datums fuel remaining bytes)
unfolding read_datums
read_datums-Ends zero remaining bytes lt = absurd (omega arith)
read_datums-Ends (suc fuel) remaining bytes lt = elim (Bool-cases (ltb remaining fve_datum_size)) [
  | inl e ↦ rw (e, read_datums) tt
  | inr e ↦
      rw (e, read_datums)
        (next_datum-Ends (read_datum bytes) (length bytes) remaining (read_datums fuel)
          (read_datum-Takes bytes).0 (λ k b l. read_datums-Ends fuel k b (omega arith)))
]

pub read_full_at-Yields :
    (r : ReaderAt) (len : ℕ) (off : ℤ) → Yields (λ b. length b ≡ len) (read_full_at r len off)
unfolding read_full_at
read_full_at-Yields r len off = elim (Bool-cases (length (r len off).bytes == len)) [
  | inl e ↦ rw e ((==_iff _ _).0 e)
  | inr e ↦ rw e tt
]

of_Ends :
    (m : Parse (List Datum))
    → Ends m
    → Yields
        (All HasSize)
        (elim m [ got ds rest ↦ ok ds | end_of_buffer ↦ err eof | no_fuel ↦ panic ])
of_Ends (got ds rest) h = h
of_Ends end_of_buffer h = tt
of_Ends no_fuel h = h

read_data-Yields : (start : ℕ) (buf : Bytes) → Yields (All HasSize) (read_data start buf)
unfolding read_data
read_data-Yields start buf = Yields-guard _ (leb start (length buf)) invalid_header _ λ le.
    of_Ends (read_datums (suc (length buf)) (length buf - start) (drop start buf)) (
      read_datums-Ends (suc (length buf)) (length buf - start) (drop start buf)
        (omega (arith, length-drop start buf)))

-- The sizes in the header of a dataset fit its buffer, and every datum holds its own header.
pub record IsWell (ds : Dataset) : Type 0 where
  pub header_size : fve_metadata_header_size ≤ ds.header.header_size
  pub metadata_size : ds.header.header_size ≤ ds.header.metadata_size
  pub bounded : ds.header.metadata_size ≤ 64 * 2 ^ 20
  pub buffer : length ds.buf ≡ ds.header.metadata_size
  pub datums : All HasSize ds.datums

within : (a b c d : ℕ) → (leb a b && leb c d) ≡ true → (a ≤ b) × (c ≤ d)
within a b c d e = ground arith

pub new_dataset-Yields : (r : ReaderAt) (offset : ℤ) → Yields IsWell (new_dataset r offset)
unfolding new_dataset
new_dataset-Yields r offset =
    Yields-bind _ IsWell (read_full_at r fve_metadata_header_size offset) _
      (read_full_at-Yields r fve_metadata_header_size offset)
      λ head _.
        let h : FveMetadataHeader = decode_metadata_header head in
        Yields-guard IsWell
          (leb fve_metadata_header_size h.metadata_size && leb h.metadata_size (64 * 2 ^ 20))
          invalid_header _
          λ e1.
            Yields-guard IsWell
              (leb fve_metadata_header_size h.header_size && leb h.header_size h.metadata_size)
              invalid_header _
              λ e2.
                Yields-bind (λ b. length b ≡ h.metadata_size) IsWell
                  (read_full_at r h.metadata_size offset)
                  (λ buf. read_data h.header_size buf >>= λ ds.
                    ok record { header = h; buf = buf; datums = ds })
                  (read_full_at-Yields r h.metadata_size offset)
                  λ buf len.
                    Yields-bind (All HasSize) IsWell (read_data h.header_size buf)
                      (λ ds. ok record { header = h; buf = buf; datums = ds })
                      (read_data-Yields h.header_size buf)
                      λ ds sizes. record {
                        header_size = (within _ _ _ _ e2).0;
                        metadata_size = (within _ _ _ _ e2).1;
                        bounded = (within _ _ _ _ e1).1;
                        buffer = len;
                        datums = sizes;
                      }

-- What is asked of an Information block: the block at the offset has the signature, and the dataset is well
-- formed.
pub record IsInformation (offset : ℤ) (i : Information) : Type 0 where
  pub placed : i.offset ≡ offset
  pub signed : i.block_header.signature ≡ bitlocker_signature
  pub header_size : (48 ≤ i.metadata_header.header_size) × (i.metadata_header.header_size ≤ 4096)
  pub metadata_size : i.metadata_header.metadata_size ≤ 64 * 2 ^ 10
  pub unchecked : (i.validation ≡ none) × (i.valid_checksum ≡ true)
  pub well : IsWell i.dataset

-- For any source, `NewInformation` ends with an error, or with an Information block that has the
-- signature, header sizes in bounds, and a dataset of 64 MiB at most whose buffer has the size its
-- header names and whose datums have sizes of 8 at least. It does not panic.
pub new_information-Yields :
    (r : ReaderAt) (offset : ℤ) → Yields (IsInformation offset) (new_information r offset)
unfolding new_information
new_information-Yields r offset =
    Yields-bind _ (IsInformation offset) (read_full_at r fve_metadata_block_header_size offset) _
      (read_full_at-Yields r fve_metadata_block_header_size offset)
      λ block _.
        let b : FveMetadataBlockHeaderV2 = decode_block_header block in
        Yields-guard (IsInformation offset) (equal b.signature bitlocker_signature) invalid_header _
          λ e1.
            Yields-bind _ (IsInformation offset)
              (read_full_at r fve_metadata_header_size (offset +ℤ pos 64)) _
              (read_full_at-Yields r fve_metadata_header_size (offset +ℤ pos 64))
              λ head _.
                let h : FveMetadataHeader = decode_metadata_header head in
                Yields-guard (IsInformation offset) (leb 48 h.header_size && leb h.header_size 4096)
                  invalid_header _
                  λ e2.
                    Yields-guard (IsInformation offset)
                      (leb h.header_size h.metadata_size && leb h.metadata_size (64 * 2 ^ 10))
                      invalid_header _
                      λ e3.
                        Yields-bind IsWell (IsInformation offset) (new_dataset r (offset +ℤ pos 64))
                          (λ ds. ok record {
                            offset = offset;
                            block_header = b;
                            metadata_header = h;
                            dataset = ds;
                            buf = none;
                            validation = none;
                            valid_checksum = true;
                          })
                          (new_dataset-Yields r (offset +ℤ pos 64))
                          λ ds w. record {
                            placed = refl;
                            signed = (equal_iff _ bitlocker_signature).0 e1;
                            header_size = within _ _ _ _ e2;
                            metadata_size = (within _ _ _ _ e3).1;
                            unchecked = (refl, refl);
                            well = w;
                          }
