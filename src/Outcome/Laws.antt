-- ===== src/Outcome/Laws.antt =====
-- The laws of sequencing outcomes.
use go_bde.Base.{◌≡◌, refl}
use go_bde.Outcome.{Outcome, ok, err, panic, ◌>>=◌}

pub bind-congr {ℓ κ} :
    {A : Type ℓ} {B : Type κ} (m : Outcome A) (f g : A → Outcome B)
    → ((a : A) → f a ≡ g a)
    → m >>= f ≡ m >>= g
bind-congr (ok a) f g h = h a
bind-congr (err e) f g h = refl
bind-congr panic f g h = refl

pub bind_assoc {ℓ κ ι} :
    {A : Type ℓ} {B : Type κ} {C : Type ι} (m : Outcome A) (f : A → Outcome B) (g : B → Outcome C)
    → (m >>= f) >>= g ≡ m >>= λ a. f a >>= g
bind_assoc (ok a) f g = refl
bind_assoc (err e) f g = refl
bind_assoc panic f g = refl

pub ok_inj {ℓ} : {A : Type ℓ} {a b : A} → ok a ≡ ok b → a ≡ b
ok_inj e = cc

-- A chain with a value has one at each step.
pub bind-inv {ℓ κ} :
    {A : Type ℓ} {B : Type κ} (m : Outcome A) (f : A → Outcome B) {b : B}
    → m >>= f ≡ ok b
    → (a : A) × (m ≡ ok a) × (f a ≡ ok b)
bind-inv (ok a) f h = (a, refl, h)
bind-inv (err e) f h = absurd cc
bind-inv panic f h = absurd cc
