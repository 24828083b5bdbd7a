-- ===== src/Prelude/Lists.antt =====
-- Lists measured by native numbers, searched and filtered by Boolean tests.
use Prim.Native.Nat.{ℕ, zero, suc, ◌+◌, ◌≤◌}
use mathlib.Core.Path.{◌≡◌, refl, subst}
use mathlib.Core.Logic.{◌⊎◌, inl, inr}
use mathlib.Core.Bool.{Bool, true, false, ◌&&◌, ◌||◌}
use mathlib.Core.Option.{Option, none, some}
use mathlib.Core.List.{List, [], ◌∷◌, ◌++◌, map}
use native.Mathlib.Omega.{arith}
use vaws_coordinator.Prelude.Tests.{if◌then◌else◌, Bool-cases}

module _ {ℓ} {A : Type ℓ} where
  abbrev pub length : List A → ℕ
  length [] = 0
  length (x ∷ xs) = suc (length xs)

  abbrev pub take : ℕ → List A → List A
  take zero xs = []
  take (suc n) [] = []
  take (suc n) (x ∷ xs) = x ∷ take n xs

  abbrev pub get_or : List A → ℕ → A → A
  get_or [] i d = d
  get_or (x ∷ xs) zero d = x
  get_or (x ∷ xs) (suc i) d = get_or xs i d

  abbrev pub filter : (A → Bool) → List A → List A
  filter p [] = []
  filter p (x ∷ xs) = let rest = filter p xs in if p x then x ∷ rest else rest

  abbrev pub all_of : (A → Bool) → List A → Bool
  all_of p [] = true
  all_of p (x ∷ xs) = p x && all_of p xs

  abbrev pub any_of : (A → Bool) → List A → Bool
  any_of p [] = false
  any_of p (x ∷ xs) = p x || any_of p xs

  -- the first element that passes a test
  abbrev pub find : (A → Bool) → List A → Option A
  find p [] = none
  find p (x ∷ xs) = let rest = find p xs in if p x then some x else rest

  pub length-append : (xs ys : List A) → length (xs ++ ys) ≡ length xs + length ys
  length-append [] ys = omega arith
  length-append (x ∷ xs) ys = omega (arith, length-append xs ys)

  pub length-take-le : (n : ℕ) (xs : List A) → n ≤ length xs → length (take n xs) ≡ n
  length-take-le zero xs h = refl
  length-take-le (suc n) [] h = omega arith
  length-take-le (suc n) (x ∷ xs) h = omega (arith, length-take-le n xs)

abbrev pub concat_map {ℓ κ} : {A : Type ℓ} {B : Type κ} → (A → List B) → List A → List B
concat_map f [] = []
concat_map f (x ∷ xs) = f x ++ concat_map f xs

-- Membership in a list of rows, as data.
pub data In {ℓ} {A : Type ℓ} (a : A) : List A → Type ℓ where
  here : {xs : List A} → In a (a ∷ xs)
  there : {x : A} {xs : List A} → In a xs → In a (x ∷ xs)

module _ {ℓ} {A : Type ℓ} where
  pub In-append : {a : A} (xs ys : List A) → In a (xs ++ ys) → In a xs ⊎ In a ys
  In-append [] ys i = inr i
  In-append (x ∷ xs) ys here = inl here
  In-append (x ∷ xs) ys (there i) = elim (In-append xs ys i) [
    | inl j ↦ inl (there j)
    | inr j ↦ inr j
  ]

  pub In-append_left : {a : A} {xs : List A} (ys : List A) → In a xs → In a (xs ++ ys)
  In-append_left ys here = here
  In-append_left ys (there i) = there (In-append_left ys i)

  pub In-append_last : (a : A) (xs : List A) → In a (xs ++ a ∷ [])
  In-append_last a [] = here
  In-append_last a (x ∷ xs) = there (In-append_last a xs)

  pub In-map {κ} :
      {B : Type κ} (f : A → B) (xs : List A) {b : B}
      → In b (map f xs)
      → (a : A) × In a xs × (b ≡ f a)
  In-map f [] i = elim i [ ]
  In-map f (x ∷ xs) here = (x, here, refl)
  In-map f (x ∷ xs) (there i) = let (a, j, e) = In-map f xs i in (a, there j, e)

  In-filter_head :
      (p : A → Bool) {x a : A} (xs : List A)
      → p x ≡ true
      → (In a (filter p xs) → In a xs × (p a ≡ true))
      → In a (x ∷ filter p xs)
      → In a (x ∷ xs) × (p a ≡ true)
  In-filter_head p xs e rest here = (here, e)
  In-filter_head p xs e rest (there j) = let (k, h) = rest j in (there k, h)

  pub In-filter : (p : A → Bool) (xs : List A) {a : A} → In a (filter p xs) → In a xs × (p a ≡ true)
  In-filter p [] i = elim i [ ]
  In-filter p (x ∷ xs) {a} i = elim (Bool-cases (p x)) [
    | inl e ↦ In-filter_head p xs e (In-filter p xs) (rw e at i)
    | inr e ↦ let (k, h) = In-filter p xs (rw e at i) in (there k, h)
  ]

  pub In-filter_image :
      (p : A → Bool) (xs : List A) {a : A} → In a xs → p a ≡ true → In a (filter p xs)
  In-filter_image p [] i e = elim i [ ]
  In-filter_image p (x ∷ xs) here e = rw e here
  In-filter_image p (x ∷ xs) (there i) e = elim (Bool-cases (p x)) [
    | inl kept ↦ rw kept (there (In-filter_image p xs i e))
    | inr dropped ↦ rw dropped (In-filter_image p xs i e)
  ]

  pub find-In : (p : A → Bool) (xs : List A) {a : A} → find p xs ≡ some a → In a xs × (p a ≡ true)
  find-In p [] h = absurd (ground arith)
  find-In p (x ∷ xs) {a} h = elim (Bool-cases (p x)) [
    | inl e ↦ (subst (λ z. In z (x ∷ xs)) (ground arith) here, ground arith)
    | inr e ↦ let (i, q) = find-In p xs (rw e at h) in (there i, q)
  ]

-- A predicate on every element, as a tuple.
abbrev pub All {ℓ κ} : {A : Type ℓ} → (A → Type κ) → List A → Type κ
All P [] = Unit
All P (x ∷ xs) = P x × All P xs

module _ {ℓ κ} {A : Type ℓ} (P : A → Type κ) where
  pub All-In : {a : A} {xs : List A} → All P xs → In a xs → P a
  All-In h here = h.0
  All-In h (there i) = All-In h.1 i

  pub All-tabulate : (xs : List A) → ((a : A) → In a xs → P a) → All P xs
  All-tabulate [] f = tt
  All-tabulate (x ∷ xs) f = (f x here, All-tabulate xs (λ a i. f a (there i)))

module _ {ℓ κ} {A : Type ℓ} {B : Type κ} where
  pub In-map_image : (f : A → B) {a : A} {xs : List A} → In a xs → In (f a) (map f xs)
  In-map_image f here = here
  In-map_image f (there i) = there (In-map_image f i)

pub any_of-In {ℓ} :
    {A : Type ℓ} (p : A → Bool) (xs : List A) {a : A} → In a xs → p a ≡ true → any_of p xs ≡ true
any_of-In p [] i e = elim i [ ]
any_of-In p (x ∷ xs) here e = ground arith
any_of-In p (x ∷ xs) (there i) e = ground (arith, any_of-In p xs i e)
