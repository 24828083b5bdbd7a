-- ===== src/Prelude/Outcome.antt =====
-- Calls that return a value or raise: the result as data, its binds and guards, and rules for
-- what a successful result satisfies.
use mathlib.Core.Path.{◌≡◌, refl, subst}
use mathlib.Core.Bool.{Bool, true, false}
use mathlib.Core.Option.{Option, none, some}
use mathlib.Core.Logic.{◌⊎◌, inl, inr}
use vaws_coordinator.Prelude.Tests.{if◌then◌else◌}

-- What a call returns, or the error that it raises.
pub data Outcome {ℓ κ} (E : Type ℓ) (A : Type κ) : Type (ℓ ⊔ κ) where
  err : E → Outcome E A
  ok : A → Outcome E A

infixl 6 ◌>>=◌ ◌>>◌
abbrev pub ◌>>=◌ {ℓ κ μ} :
    {E : Type ℓ} {A : Type κ} {B : Type μ} → Outcome E A → (A → Outcome E B) → Outcome E B
err raised >>= next = err raised
ok value >>= next = next value

-- `if not b: raise e`
abbrev pub guard {ℓ} : {E : Type ℓ} → Bool → E → Outcome E (Unit {0})
guard false raised = err raised
guard true _ = ok tt

abbrev pub ◌>>◌ {ℓ κ} : {E : Type ℓ} {B : Type κ} → Outcome E (Unit {0}) → Outcome E B → Outcome E B
checked >> next = checked >>= λ _. next

-- a row that must be there
abbrev pub require {ℓ κ} : {E : Type ℓ} {A : Type κ} → Option A → E → Outcome E A
require none e = err e
require (some a) e = ok a

-- `r` returns only values with `P`.
pub record Ensures {ε ℓ κ} {E : Type ε} {A : Type ℓ} (P : A → Type κ) (r : Outcome E A)
    : Type (ε ⊔ ℓ ⊔ κ) where
  pub at : (a : A) → r ≡ ok a → P a

module _ {ε ℓ κ} {E : Type ε} {A : Type ℓ} {P : A → Type κ} where
  pub Ensures-ok : (a : A) → P a → Ensures {E = E} P (ok a)
  Ensures-ok a p = record { at = λ b e. subst P (cc e) p }

  pub Ensures-err : (e : E) → Ensures P (err e)
  Ensures-err e = record { at = λ b h. absurd (cc h) }

  pub Ensures-if :
      (b : Bool) {x y : Outcome E A}
      → (b ≡ true → Ensures P x)
      → (b ≡ false → Ensures P y)
      → Ensures P (if b then x else y)
  Ensures-if true f g = f refl
  Ensures-if false f g = g refl

  pub Ensures-guard :
      (b : Bool) (e : E) {k : Outcome E A} → (b ≡ true → Ensures P k) → Ensures P (guard b e >> k)
  Ensures-guard true e f = f refl
  Ensures-guard false e f = Ensures-err e

  pub Ensures-bind {μ} :
      {B : Type μ} (r : Outcome E B) {f : B → Outcome E A}
      → ((b : B) → r ≡ ok b → Ensures P (f b))
      → Ensures P (r >>= f)
  Ensures-bind (ok b) h = h b refl
  Ensures-bind (err e) h = Ensures-err e

  pub Ensures-require {μ} :
      {B : Type μ} (o : Option B) (e : E) {f : B → Outcome E A}
      → ((b : B) → o ≡ some b → Ensures P (f b))
      → Ensures P (require o e >>= f)
  Ensures-require none e h = Ensures-err e
  Ensures-require (some b) e h = h b refl

pub Outcome-cases {ε ℓ} :
    {E : Type ε} {A : Type ℓ} (r : Outcome E A) → ((a : A) × (r ≡ ok a)) ⊎ ((e : E) × (r ≡ err e))
Outcome-cases (ok a) = inl (a, refl)
Outcome-cases (err e) = inr (e, refl)

pub require-ok {ε ℓ} :
    {E : Type ε} {A : Type ℓ} (o : Option A) (e : E) {a : A} → require o e ≡ ok a → o ≡ some a
require-ok none e h = absurd (cc h)
require-ok (some b) e h = cc h

pub then-ok {ε ℓ} :
    {E : Type ε} {A : Type ℓ} (r : Outcome E (Unit {0})) {s : Outcome E A} {a : A}
    → (r >> s) ≡ ok a
    → (r ≡ ok tt) × (s ≡ ok a)
then-ok (err e) h = absurd (cc h)
then-ok (ok tt) h = (refl, h)

pub guard-ok {ε} : {E : Type ε} (b : Bool) (e : E) → guard b e ≡ ok tt → b ≡ true
guard-ok true e h = refl
guard-ok false e h = absurd (cc h)
