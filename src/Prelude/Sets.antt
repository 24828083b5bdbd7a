-- ===== src/Prelude/Sets.antt =====
-- Python's sets of numbers and texts, as lists under a Boolean membership test.
use Prim.Native.Nat.{ℕ, zero, suc}
use mathlib.Core.Path.{◌≡◌, refl, subst}
use mathlib.Core.Bool.{Bool, true, false, ◌&&◌, ◌||◌, not}
use mathlib.Core.List.{List, [], ◌∷◌, ◌++◌}
use mathlib.Core.Logic.{inl, inr}
use native.Mathlib.Omega.{arith}
use vaws_coordinator.Prelude.Tests.{Bool-cases, and-true}
use vaws_coordinator.Prelude.Keys.{Comparable, ◌==◌, ==→≡, ==-refl}
use vaws_coordinator.Prelude.Lists.{filter, all_of, any_of, take, In, here, there}

module _ {ℓ} {A : Type ℓ} ⦃e : Comparable A⦄ where
  -- a in xs
  abbrev pub contains : A → List A → Bool
  contains a [] = false
  contains a (x ∷ xs) = x == a || contains a xs

  -- xs & ys
  abbrev pub intersect : List A → List A → List A
  intersect xs ys = filter (λ a. contains a ys) xs

  -- xs - ys
  abbrev pub minus : List A → List A → List A
  minus xs ys = filter (λ a. not (contains a ys)) xs

  -- xs.issubset(ys)
  abbrev pub subset : List A → List A → Bool
  subset xs ys = all_of (λ a. contains a ys) xs

  -- bool(xs & ys)
  abbrev pub meets : List A → List A → Bool
  meets xs ys = any_of (λ a. contains a ys) xs

  -- len(set(xs)) == len(xs)
  abbrev pub distinct : List A → Bool
  distinct [] = true
  distinct (x ∷ xs) = not (contains x xs) && distinct xs

  pub contains-append :
      (a : A) (xs ys : List A) → contains a (xs ++ ys) ≡ (contains a xs || contains a ys)
  contains-append a [] ys = refl
  contains-append a (x ∷ xs) ys = ground (arith, contains-append a xs ys)

  pub contains-subset :
      (a : A) (xs ys : List A) → subset xs ys ≡ true → contains a xs ≡ true → contains a ys ≡ true
  contains-subset a [] ys s m = absurd (ground arith)
  contains-subset a (x ∷ xs) ys s m = elim (Bool-cases (x == a)) [
    | inl same ↦ subst (λ z. contains z ys ≡ true) (==→≡ x a same) (and-true _ _ s).0
    | inr other ↦ contains-subset a xs ys (and-true _ _ s).1 (ground arith)
  ]

  pub contains-filter :
      (a : A) (p : A → Bool) (xs : List A)
      → contains a (filter p xs) ≡ true
      → (p a ≡ true) × (contains a xs ≡ true)
  contains-filter a p [] h = absurd (ground arith)
  contains-filter a p (x ∷ xs) h = elim (Bool-cases (p x)) [
    | inl kept ↦ elim (Bool-cases (x == a)) [
      | inl same ↦ (subst (λ z. p z ≡ true) (==→≡ x a same) kept, ground arith)
      | inr other ↦ let (q, m) = contains-filter a p xs (ground arith) in (q, ground arith)
    ]
    | inr dropped ↦ let (q, m) = contains-filter a p xs (rw dropped at h) in (q, ground arith)
  ]

  pub contains-take :
      (a : A) (n : ℕ) (xs : List A) → contains a (take n xs) ≡ true → contains a xs ≡ true
  contains-take a zero xs h = absurd (ground arith)
  contains-take a (suc n) [] h = h
  contains-take a (suc n) (x ∷ xs) h = ground (arith, contains-take a n xs)

  -- xs - ys is empty
  pub contains_of_minus :
      (a : A) (xs ys : List A) → minus xs ys ≡ [] → contains a xs ≡ true → contains a ys ≡ true
  contains_of_minus a [] ys e m = absurd (ground arith)
  contains_of_minus a (x ∷ xs) ys e m = elim (Bool-cases (contains x ys)) [
    | inl present ↦ elim (Bool-cases (x == a)) [
      | inl same ↦ subst (λ z. contains z ys ≡ true) (==→≡ x a same) present
      | inr other ↦ contains_of_minus a xs ys (rw present at e) (ground arith)
    ]
    | inr absent ↦ absurd (ground arith)
  ]

  pub contains-In : (a : A) (xs : List A) → contains a xs ≡ true → In a xs
  contains-In a [] m = absurd (ground arith)
  contains-In a (x ∷ xs) m = elim (Bool-cases (x == a)) [
    | inl same ↦ subst (λ z. In z (x ∷ xs)) (==→≡ x a same) here
    | inr other ↦ there (contains-In a xs (ground arith))
  ]

  pub contains_of-In : {a : A} {xs : List A} → In a xs → contains a xs ≡ true
  contains_of-In {a} here = ground (arith, ==-refl a)
  contains_of-In (there i) = ground (arith, contains_of-In i)
