-- ===== src/Outcome/Yields.antt =====
-- Outcomes with a property of their value, and the rules for the steps of a function.
use go_bde.Base.{◌≡◌, refl, Bool, true, false}
use go_bde.Outcome.{Error, Outcome, ok, err, panic, ◌>>=◌, ◌>>◌, guard}

-- The outcome is an error, or a value with a property; not a panic.
abbrev pub Yields {ℓ} : {A : Type ℓ} → (A → Type 0) → Outcome A → Type 0
Yields P (ok a) = P a
Yields P (err e) = Unit
Yields P panic = ⊥

pub Yields-bind {ℓ κ} :
    {A : Type ℓ} {B : Type κ} (Q : A → Type 0) (P : B → Type 0) (m : Outcome A) (f : A → Outcome B)
    → Yields Q m
    → ((a : A) → Q a → Yields P (f a))
    → Yields P (m >>= f)
Yields-bind Q P (ok a) f q next = next a q
Yields-bind Q P (err e) f q next = tt
Yields-bind Q P panic f q next = q

pub Yields-guard {ℓ} :
    {A : Type ℓ} (P : A → Type 0) (test : Bool) (e : Error) (m : Outcome A)
    → (test ≡ true → Yields P m)
    → Yields P (guard test e >> m)
Yields-guard P true e m next = next refl
Yields-guard P false e m next = tt
