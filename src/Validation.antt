-- ===== src/Validation.antt =====
-- `Validation` (information.go): the structure behind an Information block, read from a buffer.
use go_bde.Base.{ℕ, true, false, Option, none, some, leb}
use go_bde.Base.Bytes.{Bytes}
use go_bde.Types.{FveValidation, fve_validation_size, decode_validation}
use go_bde.Datum.{Datum, Parse, got, ◌>>=◌, read_full, read_datum}

-- `crc32` repeats the field of the structure.
pub record Validation : Type 0 where
  pub validation : FveValidation
  pub integrity_check : Option Datum
  pub crc32 : ℕ

-- `NewValidation`: from version 2 on, a datum follows.
unfoldable pub new_validation : Bytes → Parse Validation
unfolding read_full read_datum
new_validation bytes = read_full fve_validation_size bytes >>= λ head rest.
    let v = decode_validation head in
    elim (leb 2 v.version) [
      | true ↦ read_datum rest >>= λ d rest'.
          got record { validation = v; integrity_check = some d; crc32 = v.crc32 } rest'
      | false ↦ got record { validation = v; integrity_check = none; crc32 = v.crc32 } rest
    ]
