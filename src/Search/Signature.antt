-- ===== src/Search/Signature.antt =====
-- Reads of 8 bytes that are compared with the signature (bde.go, detect.go).
use go_bde.Base.{ℕ, ◌≡◌, refl, sym, ◌∙◌, true, false, none, some, inl, inr, Option-cases}
use go_bde.Base.Int.{ℤ}
use go_bde.Base.Bytes.{Bytes, equal_iff}
use go_bde.Outcome.{Error, ok, err}
use go_bde.Outcome.Laws.{ok_inj}
use go_bde.Reader.{ReadResult, ReaderAt}
use go_bde.Types.Const.{bitlocker_signature}
use go_bde.Eow.{read_at_or_fail}
use go_bde.Search.Boot.{signed_result, has_signature}

-- A read of 8 bytes gives the signature, and no error.
pub record HasSignature (r : ReaderAt) (off : ℤ) : Type 0 where
  pub no_error : (r 8 off).error ≡ none
  pub signature : (r 8 off).bytes ≡ bitlocker_signature

pub false-ne-true : false ≡ true → ⊥
false-ne-true e = cc

pub signed_result-inv :
    (x : ReadResult) → signed_result x ≡ true → (x.error ≡ none) × (x.bytes ≡ bitlocker_signature)
unfolding signed_result
signed_result-inv x h = elim (Option-cases x.error) [
  | inl e ↦ (e, (equal_iff _ _).0 (sym (rw e refl) ∙ h))
  | inr (a, e) ↦ absurd (false-ne-true (sym (rw e refl) ∙ h))
]

pub read_at_or_fail-inv :
    (r : ReaderAt) (len : ℕ) (off : ℤ) {bytes : Bytes}
    → read_at_or_fail r len off ≡ ok bytes
    → ((r len off).error ≡ none) × ((r len off).bytes ≡ bytes)
unfolding read_at_or_fail
read_at_or_fail-inv r len off h = go (r len off) h
  where
    err-ne-ok : {e : Error} {bytes : Bytes} → err e ≡ ok bytes → ⊥
    err-ne-ok e = cc

    go :
        (x : ReadResult) {bytes : Bytes}
        → (elim (x.error) [ none ↦ ok x.bytes | some e ↦ err e ]) ≡ ok bytes
        → (x.error ≡ none) × (x.bytes ≡ bytes)
    go x h = elim (Option-cases x.error) [
      | inl e ↦ (e, ok_inj (sym (rw e refl) ∙ h))
      | inr (a, e) ↦ absurd (err-ne-ok (rw e at h))
    ]

pub has_signature-HasSignature :
    (r : ReaderAt) (off : ℤ) → has_signature r off ≡ true → HasSignature r off
unfolding has_signature
has_signature-HasSignature r off h =
    let (no_error, signature) = signed_result-inv (r 8 off) h in
    record { no_error = no_error; signature = signature }

pub HasSignature-has_signature :
    (r : ReaderAt) (off : ℤ) → HasSignature r off → has_signature r off ≡ true
unfolding has_signature signed_result
HasSignature-has_signature r off s =
    rw (s.no_error, s.signature, has_signature, signed_result) ((equal_iff _ _).1 refl)
