-- ===== src/Prelude/Keys.antt =====
-- Equality tests by instances: one `==` for numbers, texts, integers and options.
use Prim.Native.Nat.{ℕ}
use Prim.Native.String.{String}
use mathlib.Core.Path.{◌≡◌, refl}
use mathlib.Core.Logic.{◌≢◌, ◌↔◌, ◌⊎◌, inl, inr}
use mathlib.Core.Bool.{Bool, true, false, ◌&&◌}
use mathlib.Core.Option.{Option, none, some}
use mathlib.Core.List.{List, [], ◌∷◌}
use native.Mathlib.Omega.{arith}
use text.Mathlib.Text.{◌==◌ as str_beq}
use text.Mathlib.TextEquality.{eq_iff}
use vaws_coordinator.Prelude.Tests.{nat_beq, nat_beq_iff, Bool-cases}

-- A Boolean test that agrees with equality.
pub record Comparable {ℓ} (K : Type ℓ) : Type ℓ where
  pub test : K → K → Bool
  pub agrees : (k j : K) → (test k j ≡ true) ↔ (k ≡ j)

instance abbrev pub string_eq : Comparable String
string_eq = record { agrees = eq_iff; test = str_beq }

instance abbrev pub nat_eq : Comparable ℕ
nat_eq = record { agrees = nat_beq_iff; test = nat_beq }

infix 50 ◌==◌
abbrev pub ◌==◌ {ℓ} : {K : Type ℓ} ⦃c : Comparable K⦄ → K → K → Bool
◌==◌ ⦃c⦄ k j = c.test k j

module _ {ℓ} {A : Type ℓ} ⦃e : Comparable A⦄ where
  pub ==-refl : (a : A) → (a == a) ≡ true
  ==-refl a = (e.agrees a a).1 refl

  pub ==→≡ : (a b : A) → (a == b) ≡ true → a ≡ b
  ==→≡ a b h = (e.agrees a b).0 h

  pub ==-comm : (a b : A) → (a == b) ≡ (b == a)
  ==-comm a b = ground (arith, e.agrees a b, e.agrees b a)

  pub ne_of_test : (a b : A) → (a == b) ≡ false → a ≡ b → ⊥
  ne_of_test a b h p = cc (h, (e.agrees a b).1 p)

  abbrev pub option_beq : Option A → Option A → Bool
  option_beq none none = true
  option_beq (some a) (some b) = a == b
  option_beq _ _ = false

  pub option_beq_iff : (a b : Option A) → (option_beq a b ≡ true) ↔ (a ≡ b)
  option_beq_iff none none = ground arith
  option_beq_iff none (some b) = ground arith
  option_beq_iff (some a) none = ground arith
  option_beq_iff (some a) (some b) = ground (arith, e.agrees a b)

  abbrev pub list_beq : List A → List A → Bool
  list_beq [] [] = true
  list_beq (a ∷ l) (b ∷ m) = a == b && list_beq l m
  list_beq _ _ = false

  pub list_beq_iff : (a b : List A) → (list_beq a b ≡ true) ↔ (a ≡ b)
  list_beq_iff [] [] = ground arith
  list_beq_iff [] (b ∷ m) = ground arith
  list_beq_iff (a ∷ l) [] = ground arith
  list_beq_iff (a ∷ l) (b ∷ m) = ground (arith, e.agrees a b, list_beq_iff l m)

instance abbrev pub option_eq {ℓ} : {A : Type ℓ} ⦃e : Comparable A⦄ → Comparable (Option A)
option_eq = record { test = option_beq; agrees = option_beq_iff }

instance abbrev pub list_eq {ℓ} : {A : Type ℓ} ⦃e : Comparable A⦄ → Comparable (List A)
list_eq = record { test = list_beq; agrees = list_beq_iff }

module _ {ℓ κ} {A : Type ℓ} {B : Type κ} ⦃c : Comparable A⦄ ⦃d : Comparable B⦄ where
  abbrev pub pair_beq : A × B → A × B → Bool
  pair_beq (a, b) (x, y) = a == x && b == y

  pub pair_beq_iff : (p q : A × B) → (pair_beq p q ≡ true) ↔ (p ≡ q)
  pair_beq_iff (a, b) (x, y) = grind (arith, c.agrees a x, d.agrees b y)

instance abbrev pub pair_eq {ℓ κ} :
    {A : Type ℓ} {B : Type κ} ⦃c : Comparable A⦄ ⦃d : Comparable B⦄ → Comparable (A × B)
pair_eq = record { test = pair_beq; agrees = pair_beq_iff }

abbrev pub bool_beq : Bool → Bool → Bool
bool_beq true true = true
bool_beq false false = true
bool_beq _ _ = false

pub bool_beq_iff : (a b : Bool) → (bool_beq a b ≡ true) ↔ (a ≡ b)
bool_beq_iff a b = ground arith

instance abbrev pub bool_eq : Comparable Bool
bool_eq = record { test = bool_beq; agrees = bool_beq_iff }

pub string_cases : (a b : String) → (a ≡ b) ⊎ (a ≢ b)
string_cases a b = elim (Bool-cases (a == b)) [
  | inl same ↦ inl (==→≡ a b same)
  | inr other ↦ inr (ne_of_test a b other)
]
