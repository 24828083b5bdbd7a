-- ===== src/Pool/System/Roots.antt =====
-- A registration keeps the work roots of one container apart (vaws_coordinator/ready_runtime.py).
use vaws_coordinator.Prelude.{
  String, Bool, true, false, Option, ◌≡◌, ◌≢◌, refl, sym, ◌∙◌, ap, subst, inl, inr, List, [], ◌∷◌,
  ◌==◌, ==→≡, ==-comm, string_eq, list_eq, pair_eq, arith, not-true, Bool-cases, In, here, there,
  In-put_row, not, put_row,
}
use vaws_coordinator.Prelude.Outcome.{ok, then-ok, guard-ok}
use vaws_coordinator.Pool.Values.{
  roots_overlap, RuntimeState, runtime_state_eq, Attestation, attestation_eq, endpoint_eq, RootPath,
}
use vaws_coordinator.Pool.State.{RuntimeRow, PoolDb}
use vaws_coordinator.Pool.Registry.{
  Spec, posix_roots_overlap, same_identity, check_row, check_rows, check_registration,
  registered_row,
}

-- What no transaction but a registration changes of a row.
abbrev place : RuntimeRow → String × String × String × String × RootPath
place r = (r.id, r.host_endpoint.host, r.user, r.container_name, r.root)

-- Two rows of one container.
abbrev pub Together : RuntimeRow → RuntimeRow → Type 0
Together r s =
    (r.host_endpoint.host ≡ s.host_endpoint.host)
    × (r.user ≡ s.user)
    × (r.container_name ≡ s.container_name)

abbrev pub RootsApart : List RuntimeRow → Type 0
RootsApart rows =
    (r s : RuntimeRow)
    → In r rows
    → In s rows
    → r.id ≢ s.id
    → Together r s
    → posix_roots_overlap r.root s.root ≡ false

posix_roots_overlap_comm : (a b : RootPath) → posix_roots_overlap a b ≡ posix_roots_overlap b a
unfolding posix_roots_overlap
posix_roots_overlap_comm a b = ground (arith, ==-comm a b)

-- A row is written over one in the same place.
pub moved-RootsApart :
    (row old : RuntimeRow) (rows : List RuntimeRow)
    → RootsApart rows
    → In old rows
    → place row ≡ place old
    → RootsApart (put_row (λ r. r.id) row rows)
moved-RootsApart row old rows h i e r s j k other together =
    elim (In-put_row (λ x. x.id) row rows r j) [
      | inl r_new ↦ elim (In-put_row (λ x. x.id) row rows s k) [
        | inl s_new ↦ absurd (other (ap (λ x. x.id) r_new ∙ sym (ap (λ x. x.id) s_new)))
        | inr (l, _) ↦
            let same = ap place r_new ∙ e in
            rw (ap (λ t. t.4) same) (
              h old s i l (λ x. other (ap (λ t. t.0) same ∙ x))
                (
                  sym (ap (λ t. t.1) same) ∙ together.0,
                  sym (ap (λ t. t.2) same) ∙ together.1,
                  sym (ap (λ t. t.3) same) ∙ together.2,
                ))
      ]
      | inr (l, _) ↦ elim (In-put_row (λ x. x.id) row rows s k) [
        | inl s_new ↦
            let same = ap place s_new ∙ e in
            rw (ap (λ t. t.4) same) (
              h r old l i (λ x. other (x ∙ sym (ap (λ t. t.0) same)))
                (
                  together.0 ∙ ap (λ t. t.1) same,
                  together.1 ∙ ap (λ t. t.2) same,
                  together.2 ∙ ap (λ t. t.3) same,
                ))
        | inr (l', _) ↦ h r s l l' other together
      ]
    ]

-- A row is written whose root lies apart from the others of its container.
new-RootsApart :
    (row : RuntimeRow) (rows : List RuntimeRow)
    → RootsApart rows
    → ((r : RuntimeRow)
        → In r rows
        → r.id ≢ row.id
        → Together r row
        → posix_roots_overlap r.root row.root ≡ false)
    → RootsApart (put_row (λ r. r.id) row rows)
new-RootsApart row rows h apart r s j k other together =
    elim (In-put_row (λ x. x.id) row rows r j) [
      | inl r_new ↦ elim (In-put_row (λ x. x.id) row rows s k) [
        | inl s_new ↦ absurd (other (ap (λ x. x.id) r_new ∙ sym (ap (λ x. x.id) s_new)))
        | inr (l, away) ↦ rw r_new (
            posix_roots_overlap_comm row.root s.root
            ∙ apart s l away
                (subst (Together s) r_new (sym together.0, sym together.1, sym together.2)))
      ]
      | inr (l, away) ↦ elim (In-put_row (λ x. x.id) row rows s k) [
        | inl s_new ↦ rw s_new (apart r l away (subst (Together r) s_new together))
        | inr (l', _) ↦ h r s l l' other together
      ]
    ]

check_row-apart :
    (id : String) (spec : Spec) (container : Option String) (r : RuntimeRow)
    → check_row id spec container r ≡ ok tt
    → r.id ≢ id
    → same_identity spec r ≡ true
    → posix_roots_overlap r.root spec.root ≡ false
unfolding check_row
check_row-apart id spec container r e other same =
    let away : (r.id == id) ≡ false = elim (Bool-cases (r.id == id)) [
      | inl found ↦ absurd (other (==→≡ r.id id found))
      | inr e ↦ e
    ] in
    let passed = rw (away, same) at e in
    let last = (then-ok _ (then-ok _ (then-ok _ passed).1).1).0 in
    let apart : not (posix_roots_overlap r.root spec.root) ≡ true =
      guard-ok (not (posix_roots_overlap r.root spec.root)) roots_overlap last in
    not-true apart

check_rows-apart :
    (id : String) (spec : Spec) (container : Option String) (rows : List RuntimeRow)
    → check_rows id spec container rows ≡ ok tt
    → (r : RuntimeRow) → In r rows
    → r.id ≢ id
    → same_identity spec r ≡ true
    → posix_roots_overlap r.root spec.root ≡ false
unfolding check_rows
check_rows-apart id spec container [] e r i = elim i [ ]
check_rows-apart id spec container (x ∷ xs) e r here =
    check_row-apart id spec container x (then-ok (check_row id spec container x) e).0
check_rows-apart id spec container (x ∷ xs) e r (there i) =
    check_rows-apart id spec container xs (then-ok (check_row id spec container x) e).1 r i

same_identity-Together :
    (spec : Spec) (r row : RuntimeRow)
    → row.host_endpoint ≡ spec.host_endpoint
    → row.user ≡ spec.user
    → row.container_name ≡ spec.container_name
    → Together r row
    → same_identity spec r ≡ true
unfolding same_identity
same_identity-Together spec r row a b c (host, user, name) = ground (
  arith,
  (string_eq.agrees r.host_endpoint.host spec.host_endpoint.host).1 (host ∙ ap (λ x. x.host) a),
  (string_eq.agrees r.user spec.user).1 (user ∙ b),
  (string_eq.agrees r.container_name spec.container_name).1 (name ∙ c),
)

pub registered-RootsApart :
    (id : String) (spec : Spec) (observed : Attestation) (is_prepared : Bool) (state : RuntimeState)
    (db : PoolDb)
    → RootsApart db.runtimes
    → check_registration db id spec observed.container_id ≡ ok tt
    → RootsApart
        (put_row (λ r. r.id) (registered_row id spec observed is_prepared state) db.runtimes)
unfolding check_registration registered_row
registered-RootsApart id spec observed is_prepared state db h e =
    let row = registered_row id spec observed is_prepared state in
    new-RootsApart row db.runtimes h (λ r i other together.
      check_rows-apart id spec observed.container_id db.runtimes e r i other
        (same_identity-Together spec r row refl refl refl together))
