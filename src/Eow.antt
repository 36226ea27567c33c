-- ===== src/Eow.antt =====
-- `EowInformation` (eow.go): the metadata of encrypt-on-write.
use go_bde.Base.{ℕ, ◌*◌, Bool, true, none, some, leb, if◌then◌else◌}
use go_bde.Base.Int.{ℤ, pos, ◌+ℤ◌}
use go_bde.Base.Bytes.{Bytes, equal, le_value}
use go_bde.Outcome.{Outcome, ok, err, ◌>>=◌, ◌>>◌, guard, invalid_header}
use go_bde.Reader.{ReaderAt}
use go_bde.Types.Const.{bitlocker_signature}
use go_bde.Dataset.{read_full_at}

pub record EowInformation : Type 0 where
  pub offset : ℤ
  pub size : ℕ
  pub header : Bytes
  pub valid_checksum : Bool

-- From version 2 on, the size counts 16 bytes.
abbrev pub total_size : ℕ → ℕ → ℕ
total_size header_size version = if leb 2 version then header_size * 16 else header_size

-- `r.ReadAt(buf, off)` with `if err != nil { return err }`.
unfoldable pub read_at_or_fail : ReaderAt → ℕ → ℤ → Outcome Bytes
read_at_or_fail r len off = elim ((r len off).error) [
  | none ↦ ok (r len off).bytes
  | some e ↦ err e
]

-- `NewEowInformation`
unfoldable pub new_eow_information : ReaderAt → ℤ → Outcome EowInformation
unfolding read_full_at read_at_or_fail
new_eow_information r offset = read_full_at r 8 offset >>= λ signature.
    guard (equal signature bitlocker_signature) invalid_header
    >> (read_full_at r 2 (offset +ℤ pos 8) >>= λ header_size.
        read_full_at r 2 (offset +ℤ pos 10) >>= λ version.
        let size = total_size (le_value header_size) (le_value version) in
        read_at_or_fail r size offset >>= λ header.
        ok record { offset = offset; size = size; header = header; valid_checksum = true })
