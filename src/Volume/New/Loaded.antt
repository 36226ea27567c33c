-- ===== src/Volume/New/Loaded.antt =====
-- `New` (bde.go): the volume that it returns.
use go_bde.Base.{
  ℕ, ◌≤◌, ◌≡◌, refl, sym, ap, ◌∙◌, Bool, true, Option, none, List, [], ◌∷◌, All, if◌then◌else◌,
}
use go_bde.Base.Int.{ℤ, pos, ◌+ℤ◌}
use go_bde.Base.Bytes.{equal, le_value}
use go_bde.Types.Const.{bitlocker_signature}
use go_bde.Outcome.{Outcome, ok, err, panic, invalid_header}
use go_bde.Outcome.Yields.{Yields, Yields-bind, Yields-guard}
use go_bde.Reader.{ReaderAt}
use go_bde.Dataset.{Information, is_valid, new_information, read_full_at}
use go_bde.Dataset.Load.{IsInformation, new_information-Yields, read_full_at-Yields}
use go_bde.Eow.{EowInformation, new_eow_information, read_at_or_fail, total_size}
use go_bde.Search.Boot.{parse_boot_sector}
use go_bde.Search.Sizes.{HasSizes, IsSectorSize, parse_boot_sector-Yields, read_at_or_fail-Ends}
use go_bde.Volume.{Bde}
use go_bde.Volume.New.{
  load_next, load_all, valid_ones, choose, new_with, new, found_offsets, effective_size,
}

-- A block that was read at some offset.
pub record IsLoaded (i : Information) : Type 0 where
  pub offset : ℤ
  pub block : IsInformation offset i

-- What is asked of a new volume: usual sizes, blocks that can be read, the first of them in use, and no key.
pub record IsNew (r : ReaderAt) (b : Bde) : Type 0 where
  pub source : b.r ≡ r
  pub sector : IsSectorSize b.sector_size
  pub cluster : b.sector_size ≤ b.cluster_size
  pub loaded : All IsLoaded b.available_information
  pub valid : b.valid_information ≡ b.available_information
  pub first : (is : List Information) × (b.available_information ≡ b.information ∷ is)
  pub locked : b.fvek ≡ none

module _ {ℓ} {A : Type ℓ} (P : A → Type 0) where
  load_next-Yields :
      (m : Outcome A) (rest : Outcome (List A))
      → Yields P m
      → Yields (All P) rest
      → Yields (All P) (load_next m rest)
  load_next-Yields (ok a) rest h k = Yields-bind (All P) (All P) rest _ k (λ more all. (h, all))
  load_next-Yields (err e) rest h k = k
  load_next-Yields panic rest h k = h

  load_all-Yields :
      (load : ℤ → Outcome A) (os : List ℤ)
      → ((o : ℤ) → Yields P (load o))
      → Yields (All P) (load_all load os)
  load_all-Yields load [] h = tt
  load_all-Yields load (o ∷ os) h =
      load_next-Yields (load o) (load_all load os) (h o) (load_all-Yields load os h)

valid_ones-All : (is : List Information) → All IsLoaded is → valid_ones is_valid is ≡ is
valid_ones-All [] h = refl
valid_ones-All (i ∷ is) (h, hs) =
    keep (is_valid i) h.block.unchecked.1 _ _ ∙ ap (λ t. i ∷ t) (valid_ones-All is hs)
  where
    keep : (b : Bool) → b ≡ true → (x y : List Information) → (if b then x else y) ≡ x
    keep b e x y = rw e refl

new_information-IsLoaded : (r : ReaderAt) (o : ℤ) → Yields IsLoaded (new_information r o)
new_information-IsLoaded r o = weaken (new_information r o) (new_information-Yields r o)
  where
    weaken : (m : Outcome Information) → Yields (IsInformation o) m → Yields IsLoaded m
    weaken (ok i) h = record { offset = o; block = h }
    weaken (err e) h = tt
    weaken panic h = h

abbrev First : List Information → Information → Type 0
First available i = (is : List Information) × (available ≡ i ∷ is)

choose-First :
    (valid available : List Information)
    → valid ≡ available
    → Yields (First available) (choose valid available)
choose-First [] [] e = tt
choose-First [] (i ∷ is) e = (is, refl)
choose-First (i ∷ is) available e = (is, sym e)

new_eow_information-Ends :
    (r : ReaderAt) (o : ℤ) → Yields (λ e. e.valid_checksum ≡ true) (new_eow_information r o)
unfolding new_eow_information
new_eow_information-Ends r o =
    let P : EowInformation → Type 0 = (λ e. e.valid_checksum ≡ true) in
    Yields-bind _ P (read_full_at r 8 o) _ (read_full_at-Yields r 8 o) λ signature _.
      Yields-guard P (equal signature bitlocker_signature) invalid_header _ λ _.
        Yields-bind _ P (read_full_at r 2 (o +ℤ pos 8)) _ (read_full_at-Yields r 2 (o +ℤ pos 8))
          λ header_size _.
            Yields-bind _ P (read_full_at r 2 (o +ℤ pos 10)) _
              (read_full_at-Yields r 2 (o +ℤ pos 10))
              λ version _.
                let size : ℕ = total_size (le_value header_size) (le_value version) in
                Yields-bind _ P (read_at_or_fail r size o)
                  (λ header.
                    ok record { offset = o; size = size; header = header; valid_checksum = true })
                  (read_at_or_fail-Ends r size o) (λ header _. refl)

-- `New` of any source ends with an error, or with a volume of that source that holds no key, with a
-- sector size of 512, 1024, 2048 or 4096 and a cluster of one sector at least. All of its
-- Information blocks were read with the signature, sizes in bounds and a well-formed dataset, and
-- the first of them is the one in use: none is ever told apart as not valid. It does not panic.
pub new-Yields :
    (r : ReaderAt) (size : ℤ) (reader_size : Option ℤ) → Yields (IsNew r) (new r size reader_size)
unfolding new new_with
new-Yields r size reader_size =
    Yields-bind HasSizes (IsNew r) (parse_boot_sector r) _ (parse_boot_sector-Yields r) λ d sizes.
      Yields-bind (All IsLoaded) (IsNew r)
        (load_all (new_information r) (found_offsets r d (effective_size size reader_size))) _
        (load_all-Yields IsLoaded (new_information r) _ (new_information-IsLoaded r))
        λ available loaded.
          let valid : valid_ones is_valid available ≡ available = valid_ones-All available loaded in
          Yields-bind (First available) (IsNew r) (choose (valid_ones is_valid available) available)
            _ (choose-First (valid_ones is_valid available) available valid)
            λ information first.
              Yields-bind _ (IsNew r) (load_all (new_eow_information r) d.eow_offsets)
                (λ eows. ok (new_with r d available information eows))
                (load_all-Yields (λ e. e.valid_checksum ≡ true) (new_eow_information r)
                  d.eow_offsets (new_eow_information-Ends r))
                λ eows _. record {
                  source = refl;
                  sector = sizes.sector;
                  cluster = sizes.cluster;
                  loaded = loaded;
                  valid = valid;
                  first = first;
                  locked = refl;
                }
