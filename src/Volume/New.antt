-- ===== src/Volume/New.antt =====
-- `New` (bde.go): the volume from the boot sector, the offsets that the search finds, and the blocks
-- that can be read there.
pub mod Loaded
pub mod Tail
pub mod Session
use go_bde.Base.{
  ℕ, ◌+◌, ◌-◌, ◌*◌, Bool, not, ◌||◌, Option, none, some, List, [], ◌∷◌, leb, ltb, ◌==◌,
  if◌then◌else◌,
}
use go_bde.Base.Int.{ℤ, pos, negsuc}
use go_bde.Outcome.{Error, Outcome, ok, err, panic, ◌>>=◌, eof, invalid_header}
use go_bde.Reader.{ReadResult, ReaderAt}
use go_bde.Dataset.{Information, is_valid, new_information}
use go_bde.Eow.{EowInformation, new_eow_information}
use go_bde.Search.{is_empty}
use go_bde.Search.Boot.{BootSectorData, parse_boot_sector}
use go_bde.Detect.{probe_information_offsets, positive_or}
use go_bde.Volume.{Bde}

-- `io.NewSectionReader(r, start, size)`: a read that goes beyond its end is cut there, with `io.EOF`.
abbrev pub or_eof : Option Error → Option Error
or_eof none = some eof
or_eof (some e) = some e

abbrev pub cut_read : ReadResult → ReadResult
cut_read x = record { bytes = x.bytes; error = or_eof x.error }

unfoldable pub section_reader : ReaderAt → ℕ → ℕ → ReaderAt
section_reader r start size len (negsuc n) = record { bytes = []; error = some eof }
section_reader r start size len (pos off) =
    if leb size off
    then record { bytes = []; error = some eof }
    else if ltb (size - off) len
    then cut_read (r (size - off) (pos (start + off)))
    else r len (pos (start + off))

-- The size that is given, or else the one that the source tells; 0 if there is neither.
abbrev pub effective_size : ℤ → Option ℤ → ℕ
effective_size size none = positive_or 0 size
effective_size size (some n) = positive_or (positive_or 0 n) size

-- A round of `tryTail` over the last 8192 sectors, and the offsets that it keeps.
abbrev pub found_or : List ℤ → Outcome (List ℤ) → List ℤ
found_or offsets (ok []) = offsets
found_or offsets (ok (o ∷ os)) = o ∷ os
found_or offsets (err e) = offsets
found_or offsets panic = offsets

unfoldable pub try_tail : ReaderAt → ℕ → ℕ → List ℤ → List ℤ
unfolding section_reader probe_information_offsets
try_tail r size sector_size offsets =
    let start = size - sector_size * 8192 in
    if not (is_empty offsets) || sector_size == 0
    then offsets
    else found_or offsets
        (probe_information_offsets (section_reader r start (size - start)) sector_size 8192)

unfoldable pub tail_offsets : ReaderAt → ℕ → ℕ → List ℤ
unfolding try_tail
tail_offsets r size sector_size =
    try_tail r size 4096 (try_tail r size 512 (try_tail r size sector_size []))

unfoldable pub found_offsets : ReaderAt → BootSectorData → ℕ → List ℤ
unfolding tail_offsets
found_offsets r d size =
    if not (is_empty d.information_offsets) || size == 0
    then d.information_offsets
    else tail_offsets r size d.sector_size

-- The loops over the offsets: what cannot be read is left out.
abbrev pub load_next {ℓ} : {A : Type ℓ} → Outcome A → Outcome (List A) → Outcome (List A)
load_next (ok a) rest = rest >>= λ more. ok (a ∷ more)
load_next (err e) rest = rest
load_next panic rest = panic

abbrev pub load_all {ℓ} : {A : Type ℓ} → (ℤ → Outcome A) → List ℤ → Outcome (List A)
load_all load [] = ok []
load_all load (o ∷ os) = load_next (load o) (load_all load os)

abbrev pub valid_ones {ℓ} : {A : Type ℓ} → (A → Bool) → List A → List A
valid_ones test [] = []
valid_ones test (a ∷ more) = let rest = valid_ones test more in if test a then a ∷ rest else rest

-- The first valid block, or else the first one.
abbrev pub choose : List Information → List Information → Outcome Information
choose [] [] = err invalid_header
choose [] (i ∷ is) = ok i
choose (i ∷ is) available = ok i

abbrev pub first_of {ℓ} : {A : Type ℓ} → List A → Option A
first_of [] = none
first_of (a ∷ more) = some a

unfoldable pub new_with :
    ReaderAt → BootSectorData → List Information → Information → List EowInformation → Bde
new_with r d available information eows = record {
  r = r;
  sector_size = d.sector_size;
  cluster_size = d.cluster_size;
  information = information;
  eow_information = first_of (valid_ones (λ e. e.valid_checksum) eows);
  valid_information = valid_ones is_valid available;
  available_information = available;
  valid_eow_information = valid_ones (λ e. e.valid_checksum) eows;
  available_eow_information = eows;
  fvek = none;
  fvek_type = 0;
}

-- `New`, with what `readerSize` tells of the source.
unfoldable pub new : ReaderAt → ℤ → Option ℤ → Outcome Bde
unfolding parse_boot_sector new_information found_offsets new_eow_information new_with
new r size reader_size = parse_boot_sector r >>= λ d.
    load_all (new_information r) (found_offsets r d (effective_size size reader_size))
    >>= λ available. choose (valid_ones is_valid available) available >>= λ information.
        load_all (new_eow_information r) d.eow_offsets >>= λ eows.
        ok (new_with r d available information eows)
