-- ===== src/Dataset/Find.antt =====
-- The queries over a dataset, `FindVmk` and those for the kinds of protector (information.go).
use mathlib.Core.Logic.Or
use mathlib.Core.List.{Mem, not-mem-nil, mem-cons}
use go_bde.Base.{
  ℕ, suc, ◌≤◌, ◌≡◌, refl, sym, ap, subst, ◌∙◌, ◌↔◌, Bool, true, false, Option, none, some, List, [],
  ◌∷◌, arith, inl, inr, ==_iff, Bool-cases, ◌⊎◌, if◌then◌else◌,
}
use Prim.Native.Nat.{bit_and}
use go_bde.Types.Const.{role_volume_master_key_info, type_volume_master_key_info}
use go_bde.Datum.{Datum, structure}
use go_bde.Dataset.{
  Dataset, role, typ, keep, matches, find_datum, get_vmk_info, protector_of, accepts, find_vmk,
  find_external_vmk, find_recovery_vmk, find_passphrase_vmk,
}

true-ne-false : true ≡ false → ⊥
true-ne-false e = cc

module _ (test : Datum → Bool) (d : Datum) where
  keep_sound : (ds : List Datum) → Mem d (keep test ds) → Mem d ds × (test d ≡ true)
  unfolding keep
  keep_sound [] h = absurd (not-mem-nil h)
  keep_sound (x ∷ xs) h = elim (Bool-cases (test x)) [
    | inl e ↦
        Or.«elim» (hlevel)
          (mem-cons.0 (subst (λ b. Mem d (if b then x ∷ keep test xs else keep test xs)) e h))
          (λ p. (mem-cons.1 ∣ inl p ∣₁, ap test p ∙ e))
          (λ m. (mem-cons.1 ∣ inr (keep_sound xs m).0 ∣₁, (keep_sound xs m).1))
    | inr e ↦
        let m =
          keep_sound xs (subst (λ b. Mem d (if b then x ∷ keep test xs else keep test xs)) e h) in
        (mem-cons.1 ∣ inr m.0 ∣₁, m.1)
  ]

  keep_complete : (ds : List Datum) → Mem d ds → test d ≡ true → Mem d (keep test ds)
  unfolding keep
  keep_complete [] h t = absurd (not-mem-nil h)
  keep_complete (x ∷ xs) h t = elim (Bool-cases (test x)) [
    | inl e ↦ rw e (
        mem-cons.1 (
          Or.«elim» (hlevel) (mem-cons.0 h) (λ p. ∣ inl p ∣₁)
            (λ m. ∣ inr (keep_complete xs m t) ∣₁)))
    | inr e ↦ rw e (
        Or.«elim» (hlevel) (mem-cons.0 h) (λ p. absurd (true-ne-false (sym t ∙ ap test p ∙ e)))
          (λ m. keep_complete xs m t))
  ]

  pub Mem-keep : (ds : List Datum) → Mem d (keep test ds) ↔ (Mem d ds × (test d ≡ true))
  Mem-keep ds = (keep_sound ds, λ (m, t). keep_complete ds m t)

-- A datum of the dataset that describes a volume master key, whose protector type is within bounds and
-- has the bits of a mask that a kind of protector asks for; 0 asks for none.
pub record IsVmk (kind min_priority max_priority mask : ℕ) (ds : Dataset) (d : Datum) : Type 0 where
  pub listed : Mem d ds.datums
  pub role_is : role d ≡ role_volume_master_key_info
  pub typ_is : typ d ≡ type_volume_master_key_info
  pub protector : ℕ
  pub protector_is : protector_of (structure d) ≡ some protector
  pub above : min_priority ≤ protector
  pub below : protector ≤ max_priority
  pub masked : (kind ≡ 0) ⊎ (bit_and protector mask ≡ kind)

matches-vmk :
    (d : Datum)
    → (matches role_volume_master_key_info type_volume_master_key_info d ≡ true)
      ↔ ((role d ≡ role_volume_master_key_info) × (typ d ≡ type_volume_master_key_info))
unfolding matches
matches-vmk d = ground arith

get_vmk_info-typ :
    (d : Datum) → typ d ≡ type_volume_master_key_info → get_vmk_info d ≡ protector_of (structure d)
unfolding get_vmk_info
get_vmk_info-typ d e = rw ((==_iff _ _).1 e) refl

module _ (kind lo hi mask : ℕ) where
  -- What the tests of the loop accept.
  accepts_sound :
      (o : Option ℕ)
      → accepts kind lo hi mask o ≡ true
      → (k : ℕ) × (o ≡ some k) × (lo ≤ k) × (k ≤ hi) × ((kind ≡ 0) ⊎ (bit_and k mask ≡ kind))
  unfolding accepts
  accepts_sound none e = absurd (true-ne-false (sym e))
  accepts_sound (some k) e = (k, refl, ground arith, ground arith, ground arith)

  accepts_complete :
      (k : ℕ)
      → lo ≤ k
      → k ≤ hi
      → (kind ≡ 0) ⊎ (bit_and k mask ≡ kind)
      → accepts kind lo hi mask (some k) ≡ true
  unfolding accepts
  accepts_complete k l h m = ground arith

  -- `FindVmk` finds the datums of the dataset that describe a volume master key whose protector
  -- type is within the bounds and is, under the mask, of the kind (any, if the kind is 0): all of
  -- them, and no others.
  pub find_vmk_iff :
      (ds : Dataset) (d : Datum) → Mem d (find_vmk kind lo hi mask ds) ↔ IsVmk kind lo hi mask ds d
  unfolding find_vmk find_datum
  find_vmk_iff ds d =
      let keeps = Mem-keep (λ d. accepts kind lo hi mask (get_vmk_info d)) d in
      let described =
        Mem-keep (matches role_volume_master_key_info type_volume_master_key_info) d ds.datums in
      (
        λ h.
            let outer =
              (keeps (find_datum role_volume_master_key_info type_volume_master_key_info ds)).0 h in
            let inner = described.0 outer.0 in
            let fields = (matches-vmk d).0 inner.1 in
            let found = accepts_sound (get_vmk_info d) outer.1 in
            record {
              listed = inner.0;
              role_is = fields.0;
              typ_is = fields.1;
              protector = found.0;
              protector_is = sym (get_vmk_info-typ d fields.1) ∙ found.1;
              above = found.2;
              below = found.3;
              masked = found.4;
            },
        λ v. (keeps (find_datum role_volume_master_key_info type_volume_master_key_info ds)).1 (
          described.1 (v.listed, (matches-vmk d).1 (v.role_is, v.typ_is)),
          ap (accepts kind lo hi mask) (get_vmk_info-typ d v.typ_is ∙ v.protector_is)
              ∙ accepts_complete v.protector v.above v.below v.masked,
        ),
      )

-- The two queries ask for different kinds of protector under one mask.
find_vmk-exclusive :
    (j k lo hi mask : ℕ) (ds : Dataset) (d : Datum)
    → (suc j ≡ suc k → ⊥)
    → Mem d (find_vmk (suc j) lo hi mask ds)
    → Mem d (find_vmk (suc k) lo hi mask ds)
    → ⊥
find_vmk-exclusive j k lo hi mask ds d ne h h' =
    let v = (find_vmk_iff (suc j) lo hi mask ds d).0 h in
    let w = (find_vmk_iff (suc k) lo hi mask ds d).0 h' in
    let e : v.protector ≡ w.protector = some_inj (sym v.protector_is ∙ w.protector_is) in
    ne (
      masked j v.protector v.masked
      ∙ (ap (λ p. bit_and p mask) e ∙ sym (masked k w.protector w.masked)))
  where
    some_inj : {a b : ℕ} → some a ≡ some b → a ≡ b
    some_inj e = cc

    masked : (i p : ℕ) → (suc i ≡ 0) ⊎ (bit_and p mask ≡ suc i) → suc i ≡ bit_and p mask
    masked i p (inl e) = absurd (omega arith)
    masked i p (inr e) = sym e

-- No datum is found as two of an external key, a recovery password and a passphrase.
pub protectors-exclusive :
    (ds : Dataset) (d : Datum)
    → ¬ (Mem d (find_external_vmk ds) × Mem d (find_recovery_vmk ds))
      × ¬ (Mem d (find_external_vmk ds) × Mem d (find_passphrase_vmk ds))
      × ¬ (Mem d (find_recovery_vmk ds) × Mem d (find_passphrase_vmk ds))
unfolding find_external_vmk find_recovery_vmk find_passphrase_vmk
protectors-exclusive ds d = (
  λ (h, k). find_vmk-exclusive 0x1ff 0x7ff 0 0x7fff 0xff00 ds d (λ e. omega arith) h k,
  λ (h, k). find_vmk-exclusive 0x1ff 0x1fff 0 0x7fff 0xff00 ds d (λ e. omega arith) h k,
  λ (h, k). find_vmk-exclusive 0x7ff 0x1fff 0 0x7fff 0xff00 ds d (λ e. omega arith) h k,
)
