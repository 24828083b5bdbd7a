-- ===== src/Pool/Registry/Overlap.antt =====
-- What it means that two work roots overlap (`posix_roots_overlap` of
-- vaws_coordinator/ready_runtime.py).
use vaws_coordinator.Prelude.{
  String, Bool, true, false, ◌≡◌, refl, sym, ◌∙◌, ap, subst, ◌⊎◌, inl, inr, ◌↔◌, List, [], ◌∷◌,
  ◌++◌, ◌==◌, ==→≡, ==-refl, string_eq, list_eq, pair_eq, arith, Bool-cases, contains, ◌||◌,
  contains-In, contains_of-In, In, here, there, In-map, In-map_image,
}
use vaws_coordinator.Pool.Values.{RootPath}
use vaws_coordinator.Pool.Registry.{proper_prefixes, parents, posix_roots_overlap}

-- The path is the root itself, or lies in it.
pub record Under (root path : RootPath) : Type 0 where
  pub rest : List String
  pub same : path ≡ (root.0, root.1 ++ rest)

append-nil : (xs : List String) → xs ++ [] ≡ xs
append-nil [] = refl
append-nil (x ∷ xs) = ap (λ l. x ∷ l) (append-nil xs)

abbrev Extends : List String → List String → Type 0
Extends ps qs = (rest : List String) × (qs ≡ ps ++ rest)

-- A proper prefix is listed.
proper_prefixes-append :
    (ps : List String) (c : String) (rest : List String) → In ps (proper_prefixes (ps ++ c ∷ rest))
unfolding proper_prefixes
proper_prefixes-append [] c rest = here
proper_prefixes-append (p ∷ ps) c rest =
    there (In-map_image (λ x. p ∷ x) (proper_prefixes-append ps c rest))

-- What is listed is a prefix.
proper_prefixes-Extends : (ps qs : List String) → In ps (proper_prefixes qs) → Extends ps qs
unfolding proper_prefixes
proper_prefixes-Extends ps [] i = elim i [ ]
proper_prefixes-Extends ps (q ∷ qs) here = (q ∷ qs, refl)
proper_prefixes-Extends ps (q ∷ qs) (there i) =
    let (tail, j, same) = In-map (λ x. q ∷ x) (proper_prefixes qs) i in
    let (rest, e) = proper_prefixes-Extends tail qs j in
    (rest, ap (λ l. q ∷ l) e ∙ ap (λ l. l ++ rest) (sym same))

parents-Under : (a b : RootPath) → In a (parents b) → Under a b
unfolding parents
parents-Under a (anchor, parts) i =
    let (p, j, same) = In-map (λ x. (anchor, x)) (proper_prefixes parts) i in
    let (rest, e) = proper_prefixes-Extends p parts j in record { rest = rest; same = cc (same, e) }

Under-refl : (a : RootPath) → Under a a
Under-refl (anchor, parts) = record {
  rest = [];
  same = ap (λ x. (anchor, x)) (sym (append-nil parts));
}

-- Two lists that begin one list: one of them begins the other.
prefixes-Extends :
    (ps qs rest rest' : List String) → ps ++ rest ≡ qs ++ rest' → Extends ps qs ⊎ Extends qs ps
prefixes-Extends [] qs rest rest' e = inl (qs, refl)
prefixes-Extends (p ∷ ps) [] rest rest' e = inr (p ∷ ps, refl)
prefixes-Extends (p ∷ ps) (q ∷ qs) rest rest' e = elim (prefixes-Extends ps qs rest rest' (cc e)) [
  | inl (more, f) ↦ inl (more, cc (e, f))
  | inr (more, f) ↦ inr (more, cc (e, f))
]

-- A root that begins another is it, or one of its parents.
Extends-listed :
    (anchor : String) (ps qs : List String)
    → Extends ps qs
    → ◌≡◌ {A = RootPath} (anchor, ps) (anchor, qs) ⊎ In (anchor, ps) (parents (anchor, qs))
unfolding parents
Extends-listed anchor ps qs ([], e) = inl (ap (λ x. (anchor, x)) (sym (append-nil ps) ∙ sym e))
Extends-listed anchor ps qs (c ∷ rest, e) = inr (
    In-map_image (λ x. (anchor, x))
      (subst (λ z. In ps (proper_prefixes z)) (sym e) (proper_prefixes-append ps c rest)))

third : (x y z : Bool) → (x || y || z) ≡ true → x ≡ false → y ≡ false → z ≡ true
third x y z e a b = ground arith

any_of_three : (x y z : Bool) → (x ≡ true) ⊎ (y ≡ true) ⊎ (z ≡ true) → (x || y || z) ≡ true
any_of_three x y z h = ground arith

overlap_of-Extends :
    (x : String) (ps qs : List String)
    → Extends ps qs ⊎ Extends qs ps
    → posix_roots_overlap (x, ps) (x, qs) ≡ true
unfolding posix_roots_overlap
overlap_of-Extends x ps qs (inl h) = any_of_three _ _ _ (elim (Extends-listed x ps qs h) [
  | inl same ↦ inl (subst (λ z. ((x, ps) == z) ≡ true) same (==-refl {A = RootPath} (x, ps)))
  | inr i ↦ inr (inl (contains_of-In i))
])
overlap_of-Extends x ps qs (inr h) = any_of_three _ _ _ (elim (Extends-listed x qs ps h) [
  | inl same ↦ inl (subst (λ z. (z == (x, qs)) ≡ true) same (==-refl {A = RootPath} (x, qs)))
  | inr i ↦ inr (inr (contains_of-In i))
])

overlap-Under : (a b p : RootPath) → Under a p → Under b p → posix_roots_overlap a b ≡ true
overlap-Under (x, ps) (y, qs) p u v =
    let anchors : x ≡ y = ap (λ t. t.0) (sym u.same ∙ v.same) in
    let parts : ps ++ u.rest ≡ qs ++ v.rest = ap (λ t. t.1) (sym u.same ∙ v.same) in
    subst (λ z. posix_roots_overlap (x, ps) (z, qs) ≡ true) anchors
      (overlap_of-Extends x ps qs (prefixes-Extends ps qs u.rest v.rest parts))

-- Two roots overlap exactly when some path lies under both of them.
pub posix_roots_overlap_iff :
    (a b : RootPath) → (posix_roots_overlap a b ≡ true) ↔ ((p : RootPath) × Under a p × Under b p)
unfolding posix_roots_overlap
posix_roots_overlap_iff a b = (shared, found)
  where
    shared : posix_roots_overlap a b ≡ true → (p : RootPath) × Under a p × Under b p
    shared e = elim (Bool-cases (a == b)) [
      | inl same ↦ (a, Under-refl a, subst (λ x. Under x a) (==→≡ a b same) (Under-refl a))
      | inr other ↦ elim (Bool-cases (contains a (parents b))) [
        | inl listed ↦ (b, parents-Under a b (contains-In a (parents b) listed), Under-refl b)
        | inr none_of ↦ (
          a,
          Under-refl a,
          parents-Under b a (contains-In b (parents a) (third _ _ _ e other none_of)),
        )
      ]
    ]

    found : (p : RootPath) × Under a p × Under b p → posix_roots_overlap a b ≡ true
    found (p, u, v) = overlap-Under a b p u v
