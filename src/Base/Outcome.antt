-- ===== src/Base/Outcome.antt =====
-- Runs of code that can go wrong: a fault (a NULL pointer or an unmapped address is read or
-- written), or a loop whose fuel is used up, which the theorems rule out.
use sbunix_public.Base.Tests.{if◌then◌else◌}
use mathlib.Core.Bool.{Bool}
use mathlib.Core.Path.{◌≡◌, refl}
use mathlib.Core.Logic.{◌⊎◌, inl, inr}

pub data Run {ℓ} (A : Type ℓ) : Type ℓ where
  ok : A → Run A
  fault : Run A
  out_of_fuel : Run A

infixl 5 ◌>>=◌ ◌>>◌
abbrev pub ◌>>=◌ {ℓ κ} : {A : Type ℓ} {B : Type κ} → Run A → (A → Run B) → Run B
ok a >>= f = f a
fault >>= f = fault
out_of_fuel >>= f = out_of_fuel

abbrev pub ◌>>◌ {ℓ} : {B : Type ℓ} → Run (Unit {0}) → Run B → Run B
m >> k = m >>= λ _. k

-- Goes on unless the test says that the code faults here.
abbrev pub fault_if : Bool → Run (Unit {0})
fault_if b = if b then fault else ok tt

pub Run-cases {ℓ} :
    {A : Type ℓ} (r : Run A) → ((a : A) × (r ≡ ok a)) ⊎ ((r ≡ fault) ⊎ (r ≡ out_of_fuel))
Run-cases (ok a) = inl (a, refl)
Run-cases fault = inr (inl refl)
Run-cases out_of_fuel = inr (inr refl)

pub bind-ok {ℓ} : {A : Type ℓ} (r : Run A) → (r >>= λ a. ok a) ≡ r
bind-ok (ok a) = refl
bind-ok fault = refl
bind-ok out_of_fuel = refl

pub bind_assoc {ℓ κ μ} :
    {A : Type ℓ} {B : Type κ} {C : Type μ} (r : Run A) (f : A → Run B) (g : B → Run C)
    → (r >>= f >>= g) ≡ (r >>= λ a. f a >>= g)
bind_assoc (ok a) f g = refl
bind_assoc fault f g = refl
bind_assoc out_of_fuel f g = refl
