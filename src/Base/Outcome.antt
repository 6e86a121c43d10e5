-- ===== src/Base/Outcome.antt =====
-- A call that may throw: its value, or what it threw.
use mathlib.Core.Path.{◌≡◌, refl, ap}
use mathlib.Core.Bool.{Bool, true, false}

pub data Result {ℓ} (E : Type 0) (A : Type ℓ) : Type ℓ where
  -- what was returned
  ok : (value : A) → Result E A
  -- what was thrown
  err : (thrown : E) → Result E A

module _ {E : Type 0} where
  abbrev pub succeeds {ℓ} : {A : Type ℓ} → Result E A → Bool
  succeeds (err thrown) = false
  succeeds (ok value) = true

  -- `if (bad) throw e;`
  abbrev pub throw_if : Bool → E → Result E (Unit {0})
  throw_if false thrown = ok tt
  throw_if true thrown = err thrown

infixl 5 ◌>>=◌ ◌>>◌
-- A throw leaves out whatever would follow.
abbrev pub ◌>>=◌ {κ ℓ} :
    {E : Type 0} {B : Type ℓ} {A : Type κ} → Result E A → (A → Result E B) → Result E B
err thrown >>= next = err thrown
ok value >>= next = next value

abbrev pub ◌>>◌ {ℓ} : {E : Type 0} {B : Type ℓ} → Result E (Unit {0}) → Result E B → Result E B
first >> next = first >>= λ done. next

-- What returned has returned at every step.
pub bind_inv {κ ℓ} :
    {E : Type 0} {B : Type ℓ} {A : Type κ} {result : B} (next : A → Result E B) (first : Result E A)
    → first >>= next ≡ ok result
    → (value : A) × (next value ≡ ok result) × (first ≡ ok value)
bind_inv next (err thrown) returned = cc
bind_inv next (ok value) returned = (value, returned, refl)

pub ok_inj {ℓ} : {E : Type 0} {A : Type ℓ} {a b : A} → ◌≡◌ {A = Result E A} (ok a) (ok b) → a ≡ b
ok_inj {a} e = ap (λ r. elim r [ ok x ↦ x | err y ↦ a ]) e

pub err_inj {ℓ} : {E : Type 0} {A : Type ℓ} {d e : E} → ◌≡◌ {A = Result E A} (err d) (err e) → d ≡ e
err_inj {d} p = ap (λ r. elim r [ ok x ↦ d | err y ↦ y ]) p
