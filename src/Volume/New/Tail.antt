-- ===== src/Volume/New/Tail.antt =====
-- The search in the tail of a volume (bde.go) on a volume smaller than the tail.
use go_bde.Base.{
  ℕ, zero, suc, ◌+◌, ◌-◌, ◌*◌, ◌^◌, ◌≤◌, ◌<◌, ◌≡◌, refl, ap, ◌∙◌, inl, inr, false, arith,
  Bool-cases, leb, ltb, ◌==◌, Option, none, some, List, [],
}
use go_bde.Base.Int.{ℤ, pos, ◌*ℤ◌, *ℤ_pos}
use go_bde.Types.Const.{eow_information_offset_guid}
use go_bde.Outcome.{Error, Outcome, ok, err, panic}
use go_bde.Outcome.Laws.{bind-inv}
use go_bde.Reader.{ReaderAt}
use go_bde.Eow.{read_at_or_fail}
use go_bde.Search.{index}
use go_bde.Detect.{probe_sector, probe_from, probe_information_offsets}
use go_bde.Search.Signature.{read_at_or_fail-inv}
use go_bde.Volume.New.{section_reader, or_eof, found_or, try_tail, tail_offsets}

some-ne-none : {e : Error} → some e ≡ none → ⊥
some-ne-none e = cc

or_eof-some : (o : Option Error) → or_eof o ≡ none → ⊥
or_eof-some none e = some-ne-none e
or_eof-some (some x) e = some-ne-none e

-- A read of a section without an error is inside of it.
section_reader-inside :
    (r : ReaderAt) (start size len off : ℕ)
    → 0 < len
    → (section_reader r start size len (pos off)).error ≡ none
    → off + len ≤ size
unfolding section_reader
section_reader-inside r start size len off l h = elim (Bool-cases (leb size off)) [
  | inl e ↦ absurd (some-ne-none (rw e at h))
  | inr e ↦ elim (Bool-cases (ltb (size - off) len)) [
    | inl f ↦ absurd (or_eof-some (r (size - off) (pos (start + off))).error (rw (e, f) at h))
    | inr f ↦ fits size off len e f
  ]
]
  where
    fits :
        (size off len : ℕ) → leb size off ≡ false → ltb (size - off) len ≡ false → off + len ≤ size
    fits size off len e f = ground arith

-- The probe of more sectors than a section has does not end with offsets.
module _ (r : ReaderAt) (start size n : ℕ) (positive : 0 < n) where
  probe_from-section :
      (count sector : ℕ) {offsets : List ℤ}
      → size < (sector + count) * n
      → sector * n ≤ size
      → size < 2 ^ 62
      → probe_from (section_reader r start size) n count sector ≡ ok offsets
      → ⊥
  unfolding probe_from
  probe_from-section zero sector long short bound h = absurd (not_both sector long short)
    where
      not_both : (s : ℕ) → size < (s + 0) * n → s * n ≤ size → ⊥
      not_both s h k = let e : s + 0 ≡ s = omega arith in omega (arith, rw e at h)
  probe_from-section (suc count) sector long short bound h =
      let base : ℤ = pos sector *ℤ pos n in
      let at : base ≡ pos (sector * n) = *ℤ_pos sector n (omega arith) in
      let (sec, read, rest) = bind-inv (read_at_or_fail (section_reader r start size) n base) _ h in
      let (no_error, same) = read_at_or_fail-inv (section_reader r start size) n base read in
      let inside : sector * n + n ≤ size =
        section_reader-inside r start size n (sector * n) positive (rw at at no_error) in
      let (offs, probed, more) =
        bind-inv
          (probe_sector (section_reader r start size) n sec base
            (index eow_information_offset_guid sec))
          _ rest in
      let (others, found, end) =
        bind-inv (probe_from (section_reader r start size) n count (suc sector)) _ more in
      probe_from-section count (suc sector) (next long) (omega arith) bound found
    where
      next : size < (sector + suc count) * n → size < (suc sector + count) * n
      next h = let e : sector + suc count ≡ suc sector + count = omega arith in rw e at h

found_or-empty :
    (m : Outcome (List ℤ)) → ((offsets : List ℤ) → m ≡ ok offsets → ⊥) → found_or [] m ≡ []
found_or-empty (ok offsets) h = absurd (h offsets refl)
found_or-empty (err e) h = refl
found_or-empty panic h = refl

try_tail-short :
    (r : ReaderAt) (size n : ℕ) → 0 < n → n ≤ 4096 → size < n * 8192 → try_tail r size n [] ≡ []
unfolding try_tail probe_information_offsets
try_tail-short r size n positive le short = rw (not_zero n positive) (
    found_or-empty _ λ offsets h.
      probe_from-section r (size - n * 8192) (size - (size - n * 8192)) n positive 8192 0
        (omega arith) (omega arith) (omega arith) h)
  where
    not_zero : (n : ℕ) → 0 < n → (n == 0) ≡ false
    not_zero n h = ground arith

-- On a volume of less than 4 MiB, the search in the tail finds no offset, whatever the source
-- holds: each of its scans wants 8192 sectors, and reads beyond the end of the volume.
pub tail_offsets-short :
    (r : ReaderAt) (size sector_size : ℕ)
    → 512 ≤ sector_size
    → sector_size ≤ 4096
    → size < 512 * 8192
    → tail_offsets r size sector_size ≡ []
unfolding tail_offsets
tail_offsets-short r size sector_size lo hi short =
    ap (λ l. try_tail r size 4096 (try_tail r size 512 l))
      (try_tail-short r size sector_size (omega arith) hi (omega arith))
    ∙ ap (try_tail r size 4096) (try_tail-short r size 512 (omega arith) (omega arith) short)
    ∙ try_tail-short r size 4096 (omega arith) (omega arith) (omega arith)
