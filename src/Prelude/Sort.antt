-- ===== src/Prelude/Sort.antt =====
-- Python's `sorted` on numbers, as insertion.
use Prim.Native.Nat.{ℕ, suc, ◌≤◌}
use mathlib.Core.Path.{◌≡◌, refl}
use mathlib.Core.Bool.{not, ◌&&◌, ◌||◌}
use mathlib.Core.Logic.{inl, inr}
use mathlib.Core.List.{List, [], ◌∷◌}
use native.Mathlib.Omega.{arith}
use vaws_coordinator.Prelude.Tests.{leb, if◌then◌else◌, Bool-cases}
use vaws_coordinator.Prelude.Keys.{◌==◌, nat_eq, ==-comm}
use vaws_coordinator.Prelude.Lists.{length, All}
use vaws_coordinator.Prelude.Sets.{contains, distinct}

pub insert : ℕ → List ℕ → List ℕ
insert n [] = n ∷ []
insert n (x ∷ xs) = let rest = insert n xs in if leb n x then n ∷ x ∷ xs else x ∷ rest

unfoldable pub sort : List ℕ → List ℕ
unfolding insert
sort [] = []
sort (x ∷ xs) = insert x (sort xs)

-- Every element is at most all that follow it.
abbrev pub IsSorted : List ℕ → Type 0
IsSorted [] = Unit
IsSorted (x ∷ xs) = All (λ y. x ≤ y) xs × IsSorted xs

contains-insert : (a n : ℕ) (xs : List ℕ) → contains a (insert n xs) ≡ (n == a || contains a xs)
unfolding insert
contains-insert a n [] = refl
contains-insert a n (x ∷ xs) = ground (arith, contains-insert a n xs)

pub contains-sort : (a : ℕ) (xs : List ℕ) → contains a (sort xs) ≡ contains a xs
unfolding sort
contains-sort a [] = refl
contains-sort a (x ∷ xs) = ground (arith, contains-insert a x (sort xs), contains-sort a xs)

All-insert : (P : ℕ → Type 0) (n : ℕ) (xs : List ℕ) → P n → All P xs → All P (insert n xs)
unfolding insert
All-insert P n [] p h = (p, tt)
All-insert P n (x ∷ xs) p h = elim (Bool-cases (leb n x)) [
  | inl e ↦ rw e (p, h)
  | inr e ↦ rw e (h.0, All-insert P n xs p h.1)
]

All-sort : (P : ℕ → Type 0) (xs : List ℕ) → All P xs → All P (sort xs)
unfolding sort
All-sort P [] h = tt
All-sort P (x ∷ xs) h = All-insert P x (sort xs) h.0 (All-sort P xs h.1)

All-le_trans : (n x : ℕ) (xs : List ℕ) → n ≤ x → All (λ y. x ≤ y) xs → All (λ y. n ≤ y) xs
All-le_trans n x [] l h = tt
All-le_trans n x (y ∷ xs) l h = (omega arith, All-le_trans n x xs l h.1)

insert-IsSorted : (n : ℕ) (xs : List ℕ) → IsSorted xs → IsSorted (insert n xs)
unfolding insert
insert-IsSorted n [] s = (tt, tt)
insert-IsSorted n (x ∷ xs) s = elim (Bool-cases (leb n x)) [
  | inl e ↦ rw e ((ground arith, All-le_trans n x xs (ground arith) s.0), s)
  | inr e ↦ rw e (All-insert (λ y. x ≤ y) n xs (ground arith) s.0, insert-IsSorted n xs s.1)
]

pub sort-IsSorted : (xs : List ℕ) → IsSorted (sort xs)
unfolding sort
sort-IsSorted [] = tt
sort-IsSorted (x ∷ xs) = insert-IsSorted x (sort xs) (sort-IsSorted xs)

length-insert : (n : ℕ) (xs : List ℕ) → length (insert n xs) ≡ suc (length xs)
unfolding insert
length-insert n [] = refl
length-insert n (x ∷ xs) = ground (arith, length-insert n xs)

pub length-sort : (xs : List ℕ) → length (sort xs) ≡ length xs
unfolding sort
length-sort [] = refl
length-sort (x ∷ xs) = ground (arith, length-insert x (sort xs), length-sort xs)

distinct-insert :
    (n : ℕ) (xs : List ℕ) → distinct (insert n xs) ≡ (not (contains n xs) && distinct xs)
unfolding insert
distinct-insert n [] = refl
distinct-insert n (x ∷ xs) =
    ground (arith, contains-insert x n xs, distinct-insert n xs, ==-comm n x)

pub distinct-sort : (xs : List ℕ) → distinct (sort xs) ≡ distinct xs
unfolding sort
distinct-sort [] = refl
distinct-sort (x ∷ xs) =
    ground (arith, distinct-insert x (sort xs), contains-sort x xs, distinct-sort xs)
