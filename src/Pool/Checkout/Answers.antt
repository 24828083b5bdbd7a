-- ===== src/Pool/Checkout/Answers.antt =====
-- What a checkout that succeeds returns (`checkout` of vaws_coordinator/ready_runtime.py).
use vaws_coordinator.Prelude.{
  ℕ, String, true, Option, some, ◌≡◌, refl, sym, ◌∙◌, subst, ◌⊎◌, inl, inr, List, ◌==◌, ==→≡,
  string_eq, Option-cases, get_row, get_row-In, eq_of_some, In, In-map, In-filter, UniqueKeys, map,
  filter,
}
use vaws_coordinator.Prelude.Outcome.{Outcome, ok, Ensures, Ensures-ok, Ensures-bind, Ensures-guard}
use vaws_coordinator.Pool.Values.{runtime_state_eq, Attestation, attestation_eq}
use vaws_coordinator.Pool.State.{RuntimeRow, BindingRow, CheckoutIntent, checkout_eq, PoolDb}
use vaws_coordinator.Pool.Table.{owned_session}
use vaws_coordinator.Pool.Checkout.{is_candidate, checkout_begin, checkout}
use vaws_coordinator.Pool.Checkout.Candidates.{Serves, Fits, try_candidates-Bound}

-- The first transaction returns the binding of the key, or the candidates.
module _ (probe : RuntimeRow → Outcome String Attestation) (owner : String)
    (intent : CheckoutIntent) (key : String) (db : PoolDb) where
  Begun : Option BindingRow × List String → Type 0
  Begun x =
      ((b : BindingRow) → x.0 ≡ some b → Fits intent key b db)
      × ((id : String)
          → In id x.1
          → (r : RuntimeRow) × In r db.runtimes
            × (r.id ≡ id)
            × (is_candidate owner intent r ≡ true))

  candidates_lem :
      (id : String)
      → In id (map (λ (r : RuntimeRow). r.id) (filter (is_candidate owner intent) db.runtimes))
      → (r : RuntimeRow) × In r db.runtimes × (r.id ≡ id) × (is_candidate owner intent r ≡ true)
  candidates_lem id i =
      let (r, j, same) =
        In-map (λ (r : RuntimeRow). r.id) (filter (is_candidate owner intent) db.runtimes) i in
      let (k, fits) = In-filter (is_candidate owner intent) db.runtimes j in (r, k, sym same, fits)

  begin-Begun : Ensures Begun (checkout_begin owner intent key db)
  unfolding checkout_begin Begun
  begin-Begun = Ensures-bind (owned_session intent.session owner db) (λ _ _.
      elim (Option-cases (get_row (λ b. b.id) key db.bindings)) [
        | inl nothing ↦ rw nothing (Ensures-ok _ (λ b e. absurd (cc e), candidates_lem))
        | inr (binding, found) ↦ rw found (
            Ensures-guard (binding.intent == intent) _ (λ same.
              Ensures-guard binding.is_bound _ (λ is_bound. Ensures-ok _ (
                λ b e.
                    let (i, named) = get_row-In (λ (x : BindingRow). x.id) key db.bindings found in
                    subst (λ x. Fits intent key x db) (eq_of_some e)
                      (named, ==→≡ binding.intent intent same, is_bound, i),
                λ id i. elim i [ ],
              ))))
      ])

-- A checkout that returns a binding returns a bound one with the request's key and exactly its
-- intent, and that binding is in the table afterwards. Where runtime ids are unique, it is either
-- the binding of an earlier request, with nothing written, or a new one whose runtime serves the
-- request: a registered row that was ready, is not kept for reuse only, belongs to the owner, has
-- the profile that was asked for, is the runtime that was asked for if one was, and showed to its
-- probe what its row records. No other call comes between the transactions here.
pub checkout_answers_request :
    (probe : RuntimeRow → Outcome String Attestation) (owner : String) (intent : CheckoutIntent)
    (key : String) (now : ℕ) (db db' : PoolDb) (b : BindingRow)
    → UniqueKeys (λ (r : RuntimeRow). r.id) db.runtimes
    → checkout probe owner intent key now db ≡ ok (some b, db')
    → Fits intent key b db' × ((db ≡ db') ⊎ Serves probe owner intent db.runtimes b.runtime_id)
unfolding checkout Begun
checkout_answers_request probe owner intent key now db db' b unique e =
    (Ensures-bind {P = Answered} (checkout_begin owner intent key db) (λ (before, candidates) begun.
        let (fits, each) = (begin-Begun probe owner intent key db).at (before, candidates) begun in
        elim (Option-cases before) [
          | inl nothing ↦ rw nothing (record {
            at = λ x made c same.
                let (bind, _) =
                  (try_candidates-Bound probe owner intent key db.runtimes unique candidates now db
                      each (λ r i _. i)).at
                    x made in
                let (fit, serves) = bind c same in (fit, inr serves);
          })
          | inr (row, found) ↦ rw found (Ensures-ok _ (λ c same. (fits c (found ∙ same), inl refl)))
        ])).at
      (some b, db') e b refl
  where
    Answered : Option BindingRow × PoolDb → Type 0
    Answered x =
        (c : BindingRow)
        → x.0 ≡ some c
        → Fits intent key c x.1 × ((db ≡ x.1) ⊎ Serves probe owner intent db.runtimes c.runtime_id)
