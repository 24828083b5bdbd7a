-- ===== src/Pool/Exclusive/Bindings.antt =====
-- Registration, checkout, return and refresh keep the invariant of the pool's tables
-- (vaws_coordinator/ready_runtime.py).
use vaws_coordinator.Prelude.{
  ℕ, String, Bool, true, false, Option, none, some, ◌≡◌, ◌≢◌, refl, sym, ◌∙◌, subst, inl, inr, List,
  [], ◌∷◌, not, ◌&&◌, ◌==◌, ==→≡, ==-refl, ne_of_test, string_eq, arith, Bool-cases, In, here,
  there, get_row-In, get_row, and-true, any_of-In, In-put_row, In-put_row_self,
}
use vaws_coordinator.Prelude.Outcome.{
  Outcome, ok, err, Ensures, Ensures-ok, Ensures-guard, Ensures-bind, Ensures-require, require-ok,
  then-ok,
}
use vaws_coordinator.Pool.Values.{
  bound, ready, runtime_state_eq, RuntimeState, Attestation, attestation_eq,
}
use vaws_coordinator.Pool.State.{
  RuntimeRow, BindingRow, CheckoutIntent, RunRow, PoolDb, is_terminal,
}
use vaws_coordinator.Pool.Table.{
  owned_binding, owned_session, get_runtime, put_runtime, put_binding, record_event, has_unresolved,
  is_unresolved,
}
use vaws_coordinator.Pool.Registry.{
  Spec, Checkout, check_row, check_rows, check_registration, register_commit, registered_row,
  checkout_row, drain,
}
use vaws_coordinator.Pool.Checkout.{checkout_commit, return_runtime, refresh_begin, refresh_commit}
use vaws_coordinator.Pool.Exclusive.{
  PoolInv, Unheld, unbound-Unheld, put_runtime-PoolInv, put_bound-PoolInv, put_returned-PoolInv,
  PoolInv-tables,
}

pub owned_binding-In :
    (id owner : String) (db : PoolDb) {b : BindingRow}
    → owned_binding id owner db ≡ ok b
    → In b db.bindings × (b.id ≡ id) × (b.owner ≡ owner)
unfolding owned_binding
owned_binding-In id owner db {b} e =
    (Ensures-require {P = λ x. In x db.bindings × (x.id ≡ id) × (x.owner ≡ owner)}
        (get_row (λ x. x.id) id db.bindings) _
        (λ row found. Ensures-guard (row.owner == owner) _ (λ own.
          let (i, same) = get_row-In (λ (x : BindingRow). x.id) id db.bindings found in
          Ensures-ok row (i, same, ==→≡ row.owner owner own)))).at
      b e

pub get_runtime-In :
    (id : String) (db : PoolDb) {r : RuntimeRow}
    → get_runtime id db ≡ ok r
    → In r db.runtimes × (r.id ≡ id)
unfolding get_runtime
get_runtime-In id db {r} e =
    get_row-In (λ (x : RuntimeRow). x.id) id db.runtimes
      (require-ok (get_row (λ x. x.id) id db.runtimes) _ e)

check_row-unbound :
    (id : String) (spec : Spec) (container : Option String) (r : RuntimeRow)
    → check_row id spec container r ≡ ok tt
    → r.id ≡ id
    → r.state ≢ bound
unfolding check_row
check_row-unbound id spec container r e same is_bound =
    let named : (r.id == id) ≡ true = subst (λ x. (r.id == x) ≡ true) same (==-refl r.id) in
    let taken : (r.state == bound) ≡ true = subst (λ x. (x == bound) ≡ true) (sym is_bound) refl in
    absurd (ground (arith, named, taken))

-- A registration that passes its check names a runtime that no binding holds.
check_rows-unbound :
    (id : String) (spec : Spec) (container : Option String) (rows : List RuntimeRow)
    → check_rows id spec container rows ≡ ok tt
    → (r : RuntimeRow) → In r rows
    → r.id ≡ id
    → r.state ≢ bound
unfolding check_rows
check_rows-unbound id spec container [] e r i same = elim i [ ]
check_rows-unbound id spec container (x ∷ xs) e r here same =
    check_row-unbound id spec container x (then-ok (check_row id spec container x) e).0 same
check_rows-unbound id spec container (x ∷ xs) e r (there i) same =
    check_rows-unbound id spec container xs (then-ok (check_row id spec container x) e).1 r i same

check_registration-Unheld :
    (db : PoolDb) (id : String) (spec : Spec) (container : Option String)
    → PoolInv db
    → check_registration db id spec container ≡ ok tt
    → Unheld db id
unfolding check_registration
check_registration-Unheld db id spec container h e b i is_bound same =
    let (r, j, of_b, state) = h.held b i is_bound in
    check_rows-unbound id spec container db.runtimes e r j (of_b ∙ same) state

-- A binding is written together with its runtime, which was held by none.
pub bind-PoolInv :
    (row : RuntimeRow) (b : BindingRow) (db : PoolDb)
    → PoolInv db
    → Unheld db row.id
    → row.state ≡ bound
    → b.is_bound ≡ true
    → b.runtime_id ≡ row.id
    → PoolInv (put_binding b (put_runtime row db))
unfolding put_runtime
bind-PoolInv row b db h free state new same =
    put_bound-PoolInv b (put_runtime row db) (put_runtime-PoolInv row db h (inl state)) new
      (row, In-put_row_self (λ x. x.id) row db.runtimes, sym same, state)
      (λ (c, i, other, c_bound, shared). free c i c_bound (shared ∙ same))

pub register_commit-PoolInv :
    (c : Option Checkout) (id : String) (spec : Spec) (is_prepared : Bool) (observed : Attestation)
    (now : ℕ) (db : PoolDb)
    → PoolInv db
    → Ensures PoolInv (register_commit c id spec is_prepared observed now db)
unfolding register_commit registered_row checkout_row record_event put_runtime put_binding
register_commit-PoolInv none id spec is_prepared observed now db h =
    Ensures-bind (check_registration db id spec observed.container_id) (λ _ e. Ensures-ok _ (
      put_runtime-PoolInv (registered_row id spec observed is_prepared ready) db h
        (inr (check_registration-Unheld db id spec observed.container_id h e))))
register_commit-PoolInv (some c) id spec is_prepared observed now db h =
    Ensures-bind (check_registration db id spec observed.container_id) (λ _ e.
      Ensures-bind (owned_session c.session c.owner db) (λ _ _.
        let row = registered_row id spec observed is_prepared bound in
        let b = checkout_row c.owner c.session c.key row observed id in
        let free = check_registration-Unheld db id spec observed.container_id h e in
        let written = bind-PoolInv row b db h free refl refl refl in
        Ensures-ok _ (PoolInv-tables _ written refl refl refl)))

pub drain-PoolInv : (id : String) (db : PoolDb) → PoolInv db → Ensures PoolInv (drain id db)
unfolding drain
drain-PoolInv id db h = Ensures-bind (get_runtime id db) (λ r e.
    let (i, _) = get_runtime-In id db e in
    Ensures-ok _ (
      put_runtime-PoolInv _ db h (elim (Bool-cases (r.state == bound)) [
        | inl held ↦ inl (rw held (==→≡ r.state bound held))
        | inr other ↦ inr (unbound-Unheld db r h i (ne_of_test r.state bound other))
      ])))

ready_unbound : (s : RuntimeState) (same : Bool) → (s == ready && same) ≡ true → s ≢ bound
ready_unbound s same e is_bound = absurd (ground arith)

pub checkout_commit-PoolInv :
    (owner : String) (intent : CheckoutIntent) (key : String) (r : RuntimeRow)
    (probed : Outcome String Attestation) (now : ℕ) (db : PoolDb)
    → PoolInv db
    → Ensures
        (λ (x : Option BindingRow × PoolDb). PoolInv x.1)
        (checkout_commit owner intent key r probed now db)
unfolding checkout_commit checkout_row record_event put_runtime put_binding
checkout_commit-PoolInv owner intent key r (err text) now db h =
    Ensures-bind (get_runtime r.id db) (λ latest e.
      let (i, _) = get_runtime-In r.id db e in
      Ensures-ok _
        (elim (Bool-cases (latest.state == ready && latest.attestation == r.attestation)) [
          | inr changed ↦ rw changed h
          | inl same ↦ rw same (
              put_runtime-PoolInv _ db h
                (inr (unbound-Unheld db latest h i (ready_unbound latest.state _ same))))
        ]))
checkout_commit-PoolInv owner intent key r (ok observed) now db h =
    Ensures-bind (get_runtime r.id db) (λ latest e.
      let (i, named) = get_runtime-In r.id db e in
      elim (Bool-cases (latest.state == ready && latest.attestation == r.attestation)) [
        | inr changed ↦ rw changed (Ensures-ok _ h)
        | inl same ↦
            let free = unbound-Unheld db latest h i (ready_unbound latest.state _ same) in
            let row = checkout_row owner intent.session key r observed intent.runtime_id in
            let written =
              bind-PoolInv (record latest { state = bound }) row db h free refl refl (sym named) in
            rw same (Ensures-ok _ (PoolInv-tables _ written refl refl refl))
      ])

is_unresolved_of :
    (id : String) (r : RunRow)
    → is_terminal r.state ≡ false
    → r.binding_id ≡ id
    → is_unresolved id r ≡ true
unfolding is_unresolved
is_unresolved_of id r live same = ground (arith, (string_eq.agrees r.binding_id id).1 same)

-- No unresolved run uses a binding that has none.
pub has_unresolved-none :
    (id : String) (db : PoolDb)
    → has_unresolved id db ≡ false
    → (r : RunRow) → In r db.runs
    → is_terminal r.state ≡ false
    → r.binding_id ≢ id
unfolding has_unresolved
has_unresolved-none id db e r i live same =
    absurd
      (ground (arith, any_of-In (is_unresolved id) db.runs i (is_unresolved_of id r live same)))

pub return_runtime-PoolInv :
    (owner id : String) (now : ℕ) (db : PoolDb)
    → PoolInv db
    → Ensures PoolInv (return_runtime owner id now db)
unfolding return_runtime record_event put_runtime put_binding
return_runtime-PoolInv owner id now db h = Ensures-bind (owned_binding id owner db) (λ b found.
    Ensures-guard (not (has_unresolved id db)) _ (λ resolved.
      Ensures-bind (get_runtime b.runtime_id db) (λ r e.
        let (i, named, _) = owned_binding-In id owner db found in
        let (j, of_b) = get_runtime-In b.runtime_id db e in
        elim (Bool-cases b.is_bound) [
          | inr returned ↦ rw returned (Ensures-ok _ h)
          | inl is_bound ↦
              let old : BindingRow = record b { is_bound = false } in
              let unused = has_unresolved-none id db (ground arith) in
              let kept =
                put_returned-PoolInv old db h refl
                  (λ run k live same. unused run k live (same ∙ named)) in
              let free : Unheld (put_binding old db) r.id = (λ c k c_bound same.
                elim (In-put_row (λ x. x.id) old db.bindings c k) [
                  | inl new ↦ absurd (ground arith)
                  | inr (l, other) ↦
                      other (sym (h.exclusive b c i l is_bound c_bound (sym (same ∙ of_b))))
                ]) in
              rw is_bound (
                Ensures-ok _ (
                  PoolInv-tables _ (put_runtime-PoolInv _ (put_binding old db) kept (inr free)) refl
                    refl refl))
        ])))

pub refresh_begin-In :
    (owner id : String) (db : PoolDb)
    → Ensures
        (λ (x : BindingRow × RuntimeRow).
          In x.0 db.bindings
          × (x.0.is_bound ≡ true)
          × In x.1 db.runtimes
          × (x.1.id ≡ x.0.runtime_id))
        (refresh_begin owner id db)
unfolding refresh_begin
refresh_begin-In owner id db = Ensures-bind (owned_binding id owner db) (λ b found.
    Ensures-guard (b.is_bound && not (has_unresolved id db)) _ (λ fine.
      Ensures-bind (get_runtime b.runtime_id db) (λ r e.
        let (i, _, _) = owned_binding-In id owner db found in
        let (j, of_b) = get_runtime-In b.runtime_id db e in
        Ensures-ok (b, r) (i, (and-true _ _ fine).0, j, of_b))))

pub refresh_commit-PoolInv :
    (owner id : String) (stale : BindingRow) (observed : Attestation) (now : ℕ) (db : PoolDb)
    → PoolInv db
    → Ensures
        (λ (x : BindingRow × PoolDb). PoolInv x.1)
        (refresh_commit owner id stale observed now db)
unfolding refresh_commit record_event put_runtime put_binding
refresh_commit-PoolInv owner id stale observed now db h =
    Ensures-guard (observed.profile_key == stale.profile_key) _ (λ _.
      Ensures-bind (refresh_begin owner id db) (λ (b, r) e.
        let (i, is_bound, j, of_b) = (refresh_begin-In owner id db).at (b, r) e in
        let (s, k, of_b', state) = h.held b i is_bound in
        let one : s ≡ r = h.runtimes_unique.same s r k j (of_b' ∙ sym of_b) in
        let fresh : RuntimeRow = record r { attestation = observed } in
        let still : fresh.state ≡ bound = subst (λ x. x.state ≡ bound) one state in
        let kept = put_runtime-PoolInv fresh db h (inl still) in
        let row : BindingRow = record b {
          build_key = observed.build_key;
          launch_preamble = observed.launch_preamble;
        } in
        let written =
          put_bound-PoolInv row (put_runtime fresh db) kept is_bound
            (fresh, In-put_row_self (λ x. x.id) fresh db.runtimes, of_b, still)
            (λ (c, l, other, c_bound, shared).
              other (h.exclusive c b l i c_bound is_bound shared)) in
        Ensures-ok _ (PoolInv-tables _ written refl refl refl)))
