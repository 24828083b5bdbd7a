-- ===== src/Prelude/Tables.antt =====
-- Keyed tables: rows found by key, and INSERT OR REPLACE, which moves the row to the end.
use Prim.Native.String.{String}
use mathlib.Core.Path.{◌≡◌, refl, sym, ◌∙◌}
use mathlib.Core.Logic.{◌≢◌, ◌⊎◌, inl, inr}
use mathlib.Core.Bool.{not}
use mathlib.Core.Option.{Option, some}
use mathlib.Core.List.{List, [], ◌∷◌, ◌++◌}
use native.Mathlib.Omega.{arith}
use vaws_coordinator.Prelude.Tests.{Bool-cases}
use vaws_coordinator.Prelude.Keys.{◌==◌, string_eq, ==→≡, ne_of_test}
use vaws_coordinator.Prelude.Lists.{
  filter, find, In, here, there, In-append, In-append_left, In-append_last, In-filter,
  In-filter_image, find-In,
}

module _ {A : Type 0} (key : A → String) where
  -- SELECT ... WHERE id=?
  abbrev pub get_row : String → List A → Option A
  get_row id rows = find (λ r. key r == id) rows

  -- INSERT OR REPLACE
  abbrev pub put_row : A → List A → List A
  put_row row rows = filter (λ r. not (key r == key row)) rows ++ row ∷ []

  -- The primary key.
  pub record UniqueKeys (rows : List A) : Type 0 where
    pub same : (r s : A) → In r rows → In s rows → key r ≡ key s → r ≡ s

  pub get_row-In :
      (id : String) (rows : List A) {r : A} → get_row id rows ≡ some r → In r rows × (key r ≡ id)
  get_row-In id rows {r} e =
      let (i, same) = find-In (λ (x : A). key x == id) rows e in (i, ==→≡ (key r) id same)

  pub In-one : (r s : A) → In r (s ∷ []) → r ≡ s
  In-one r s here = refl
  In-one r s (there i) = elim i [ ]

  -- A row after a replacement: the new one, or an old one of another key.
  pub In-put_row :
      (row : A) (rows : List A) (r : A)
      → In r (put_row row rows)
      → (r ≡ row) ⊎ (In r rows × (key r ≢ key row))
  In-put_row row rows r i =
      elim (In-append (filter (λ x. not (key x == key row)) rows) (row ∷ []) i) [
        | inl old ↦
            let (j, other) = In-filter (λ x. not (key x == key row)) rows old in
            inr (j, ne_of_test (key r) (key row) (ground arith))
        | inr new ↦ inl (In-one r row new)
      ]

  pub In-put_row_self : (row : A) (rows : List A) → In row (put_row row rows)
  In-put_row_self row rows = In-append_last row (filter (λ x. not (key x == key row)) rows)

  pub In-put_row_ne :
      (row : A) (rows : List A) (r : A) → In r rows → key r ≢ key row → In r (put_row row rows)
  In-put_row_ne row rows r i other = In-append_left (row ∷ []) (
      In-filter_image (λ x. not (key x == key row)) rows i
        (elim (Bool-cases (key r == key row)) [
          | inl same ↦ absurd (other (==→≡ (key r) (key row) same))
          | inr e ↦ ground arith
        ]))

  pub put_row-UniqueKeys :
      (row : A) (rows : List A) → UniqueKeys rows → UniqueKeys (put_row row rows)
  put_row-UniqueKeys row rows h = record {
    same = λ r s i j e. elim (In-put_row row rows r i) [
      | inl a ↦ elim (In-put_row row rows s j) [
        | inl b ↦ a ∙ sym b
        | inr (k, other) ↦ absurd (other (cc (a, e)))
      ]
      | inr (l, other) ↦ elim (In-put_row row rows s j) [
        | inl b ↦ absurd (other (cc (b, e)))
        | inr (k, _) ↦ h.same r s l k e
      ]
    ];
  }
