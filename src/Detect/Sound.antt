-- ===== src/Detect/Sound.antt =====
-- `IsBitLockerVolumeWithOptions` (detect.go): the signature behind its answer.
use mathlib.Core.List.{Memᴰ}
use go_bde.Base.{
  ◌≡◌, refl, sym, subst, ◌∙◌, ◌⊎◌, Bool, true, false, ◌&&◌, none, List, [], ◌∷◌, All, inl, inr,
  Bool-cases,
}
use go_bde.Base.Int.{ℤ, pos, ltb_ℤ}
use go_bde.Base.Bytes.{equal, equal_iff}
use go_bde.Outcome.{ok}
use go_bde.Outcome.Laws.{bind-inv, ok_inj}
use go_bde.Reader.{ReaderAt}
use go_bde.Types.Const.{bitlocker_signature}
use go_bde.Eow.{read_at_or_fail}
use go_bde.Search.Boot.{signed_result}
use go_bde.Search.Signature.{HasSignature, false-ne-true, signed_result-inv, read_at_or_fail-inv}
use go_bde.Detect.{
  ProbeOptions, derive_sector_size, positive_or, probe_information_offsets, check_offsets,
  is_bitlocker_volume_with_options,
}

-- One of the offsets is not negative and has the signature.
pub record SignedOffset (r : ReaderAt) (offs : List ℤ) : Type 0 where
  pub off : ℤ
  pub listed : Memᴰ off offs
  pub not_negative : ltb_ℤ off (pos 0) ≡ false
  pub signed : HasSignature r off

SignedOffset-cons :
    (r : ReaderAt) (off : ℤ) (offs : List ℤ) → SignedOffset r offs → SignedOffset r (off ∷ offs)
SignedOffset-cons r off offs s = record {
  off = s.off;
  listed = Memᴰ.tail s.listed;
  not_negative = s.not_negative;
  signed = s.signed;
}

check_offsets-inv :
    (r : ReaderAt) (offs : List ℤ) → check_offsets r offs ≡ ok true → SignedOffset r offs
unfolding check_offsets
check_offsets-inv r [] h = absurd (false-ne-true (ok_inj h))
check_offsets-inv r (off ∷ offs) h = elim (Bool-cases (ltb_ℤ off (pos 0))) [
  | inl n ↦ SignedOffset-cons r off offs (check_offsets-inv r offs (rw n at h))
  | inr n ↦
      let (sig, read, rest) = bind-inv (read_at_or_fail r 8 off) _ (rw n at h) in
      let (no_error, same) = read_at_or_fail-inv r 8 off read in
      elim (Bool-cases (equal sig bitlocker_signature)) [
        | inl e ↦ record {
          off = off;
          listed = Memᴰ.head refl;
          not_negative = n;
          signed = record { no_error = no_error; signature = same ∙ (equal_iff _ _).0 e };
        }
        | inr e ↦ SignedOffset-cons r off offs (check_offsets-inv r offs (rw e at rest))
      ]
]

-- A negative offset, or one where something else than the signature is read.
abbrev pub IsUnsigned : ReaderAt → ℤ → Type 0
IsUnsigned r off =
    (ltb_ℤ off (pos 0) ≡ true)
    ⊎ (((r 8 off).error ≡ none) × ¬ ((r 8 off).bytes ≡ bitlocker_signature))

check_offsets-IsUnsigned :
    (r : ReaderAt) (offs : List ℤ) → check_offsets r offs ≡ ok false → All (IsUnsigned r) offs
unfolding check_offsets
check_offsets-IsUnsigned r [] h = tt
check_offsets-IsUnsigned r (off ∷ offs) h = elim (Bool-cases (ltb_ℤ off (pos 0))) [
  | inl n ↦ (inl n, check_offsets-IsUnsigned r offs (rw n at h))
  | inr n ↦
      let (sig, read, rest) = bind-inv (read_at_or_fail r 8 off) _ (rw n at h) in
      let (no_error, same) = read_at_or_fail-inv r 8 off read in
      elim (Bool-cases (equal sig bitlocker_signature)) [
        | inl e ↦ absurd (false-ne-true (sym (ok_inj (rw e at rest))))
        | inr e ↦ (
          inr (no_error, λ is. false-ne-true (sym e ∙ (equal_iff _ _).1 (sym same ∙ is))),
          check_offsets-IsUnsigned r offs (rw e at rest),
        )
      ]
]

module _ (r : ReaderAt) (opts : ProbeOptions) where
  abbrev Probed : List ℤ → Type 0
  Probed offs =
      probe_information_offsets r (positive_or (derive_sector_size r) opts.sector_size)
        (positive_or 256 opts.max_sectors)
      ≡ ok offs

  abbrev AcceptsStart : Type 0
  AcceptsStart = (opts.accept_signature_at_offset_0 ≡ true) × HasSignature r (pos 0)

  -- What an answer stands for.
  pub Verdict : Bool → Type 0
  Verdict true = AcceptsStart ⊎ ((offs : List ℤ) × Probed offs × SignedOffset r offs)
  Verdict false = ¬ AcceptsStart × ((offs : List ℤ) × Probed offs × All (IsUnsigned r) offs)

  starts-AcceptsStart :
      (opts.accept_signature_at_offset_0 && signed_result (r 8 (pos 0))) ≡ true → AcceptsStart
  starts-AcceptsStart e =
      let (accepts, signed) = and-inv _ _ e in
      let (no_error, signature) = signed_result-inv (r 8 (pos 0)) signed in
      (accepts, record { no_error = no_error; signature = signature })
    where
      and-inv : (a b : Bool) → (a && b) ≡ true → (a ≡ true) × (b ≡ true)
      and-inv true b h = (refl, h)
      and-inv false b h = absurd (false-ne-true h)

  AcceptsStart-starts :
      AcceptsStart → (opts.accept_signature_at_offset_0 && signed_result (r 8 (pos 0))) ≡ true
  unfolding signed_result
  AcceptsStart-starts (accepts, s) =
      rw (accepts, s.no_error, s.signature, signed_result) ((equal_iff _ _).1 refl)

  decided :
      (answer : Bool) (offs : List ℤ)
      → (opts.accept_signature_at_offset_0 && signed_result (r 8 (pos 0))) ≡ false
      → Probed offs
      → check_offsets r offs ≡ ok answer
      → Verdict answer
  unfolding Verdict
  decided true offs start probed h = inr (offs, probed, check_offsets-inv r offs h)
  decided false offs start probed h = (
    λ a. false-ne-true (sym start ∙ AcceptsStart-starts a),
    (offs, probed, check_offsets-IsUnsigned r offs h),
  )

-- Where `IsBitLockerVolumeWithOptions` answers true, the source has the signature at offset 0, and
-- the options accept it there, or at an offset that is not negative and that the probe found. Where
-- it answers false, neither holds: at each offset that the probe found and that is not negative, 8
-- bytes can be read, and are not the signature.
pub is_bitlocker_volume_with_options-Verdict :
    (r : ReaderAt) (opts : ProbeOptions) (answer : Bool)
    → is_bitlocker_volume_with_options r opts ≡ ok answer
    → Verdict r opts answer
unfolding is_bitlocker_volume_with_options Verdict
is_bitlocker_volume_with_options-Verdict r opts answer h =
    elim (Bool-cases (opts.accept_signature_at_offset_0 && signed_result (r 8 (pos 0)))) [
      | inl e ↦
          let same : true ≡ answer = ok_inj (rw e at h) in
          subst (Verdict r opts) same (inl (starts-AcceptsStart r opts e))
      | inr e ↦
          let (offs, probed, checked) =
            bind-inv
              (probe_information_offsets r (positive_or (derive_sector_size r) opts.sector_size)
                (positive_or 256 opts.max_sectors))
              (λ offs. check_offsets r offs) (sym (rw e refl) ∙ h) in
          decided r opts answer offs e probed checked
    ]
