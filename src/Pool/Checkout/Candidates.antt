-- ===== src/Pool/Checkout/Candidates.antt =====
-- The candidates of a checkout, and the one that is bound (`checkout` of
-- vaws_coordinator/ready_runtime.py).
use vaws_coordinator.Prelude.{
  ℕ, String, Bool, true, false, Option, none, some, ◌≡◌, refl, sym, ◌∙◌, ap, subst, ◌⊎◌, inl, inr,
  List, [], ◌∷◌, ◌&&◌, ◌||◌, ◌==◌, ==→≡, string_eq, arith, Bool-cases, Option-cases, if◌then◌else◌,
  eq_of_some, In, here, there, In-put_row, In-put_row_self, UniqueKeys,
}
use vaws_coordinator.Prelude.Outcome.{Outcome, ok, err, Ensures, Ensures-ok, Ensures-bind}
use vaws_coordinator.Pool.Values.{
  ready, needs_repair, runtime_state_eq, Attestation, attestation_eq,
}
use vaws_coordinator.Pool.State.{RuntimeRow, BindingRow, CheckoutIntent, checkout_eq, PoolDb}
use vaws_coordinator.Pool.Table.{get_runtime, put_runtime, put_binding, record_event}
use vaws_coordinator.Pool.Registry.{checkout_row}
use vaws_coordinator.Pool.Exclusive.Bindings.{get_runtime-In}
use vaws_coordinator.Pool.Checkout.{
  is_candidate, read_candidate, probed_candidate, checkout_commit, try_candidates,
}

-- A registered runtime that the owner may have for the request: it was ready, is not kept for reuse
-- only, belongs to the owner, has the profile that was asked for, is the runtime that was asked for
-- if one was, and its probe showed what its row records.
pub record Serves (probe : RuntimeRow → Outcome String Attestation) (owner : String)
    (intent : CheckoutIntent) (rows : List RuntimeRow) (id : String) : Type 0 where
  pub runtime : RuntimeRow
  pub registered : In runtime rows
  pub named : runtime.id ≡ id
  pub is_ready : runtime.state ≡ ready
  pub given : runtime.reuse_only ≡ false
  pub owned : runtime.user ≡ owner
  pub same_profile : runtime.attestation.profile_key ≡ intent.profile_key
  pub as_asked : (intent.runtime_id ≡ "") ⊎ (runtime.id ≡ intent.runtime_id)
  pub confirmed : probe runtime ≡ ok runtime.attestation

-- A bound binding of the table with the request's key and intent.
abbrev pub Fits : CheckoutIntent → String → BindingRow → PoolDb → Type 0
Fits intent key b db = (b.id ≡ key) × (b.intent ≡ intent) × (b.is_bound ≡ true) × In b db.bindings

probed_same :
    (r : RuntimeRow) (probe : Outcome String Attestation) (observed : Attestation)
    → probed_candidate r probe ≡ ok observed
    → (probe ≡ ok r.attestation) × (observed ≡ r.attestation)
unfolding probed_candidate
probed_same r (err text) observed e = absurd (cc e)
probed_same r (ok seen) observed e = elim (Bool-cases (seen == r.attestation)) [
  | inl same ↦
      let answer : Outcome String Attestation = ok seen in
      let kept : answer ≡ ok observed = rw same at e in
      let recorded = ==→≡ seen r.attestation same in
      (ap (λ a. ok a) recorded, sym (cc kept) ∙ recorded)
  | inr other ↦
      let answer : Outcome String Attestation =
        err "prepared environment changed; re-register it" in
      let failed : answer ≡ ok observed = rw other at e in absurd (cc failed)
]

-- The rows are primary keys' rows of the first transaction; later ones only lose the state `ready`.
module _ (probe : RuntimeRow → Outcome String Attestation) (owner : String)
    (intent : CheckoutIntent) (key : String) (base : List RuntimeRow)
    (unique : UniqueKeys (λ (r : RuntimeRow). r.id) base) where
  -- The rows that are still ready are those of the first transaction.
  abbrev pub OldReady : PoolDb → Type 0
  OldReady db = (r : RuntimeRow) → In r db.runtimes → r.state ≡ ready → In r base

  -- The binding that a reply has, or that a candidate was passed over.
  abbrev pub Bound : Option BindingRow × PoolDb → Type 0
  Bound x =
      ((b : BindingRow)
        → x.0 ≡ some b
        → Fits intent key b x.1 × Serves probe owner intent base b.runtime_id)
      × (x.0 ≡ none → OldReady x.1)

  marked-OldReady :
      (row : RuntimeRow) (db : PoolDb)
      → row.state ≡ needs_repair
      → OldReady db
      → OldReady (put_runtime row db)
  unfolding put_runtime
  marked-OldReady row db e old r i is_ready = elim (In-put_row (λ x. x.id) row db.runtimes r i) [
    | inl same ↦
        let repaired : ready ≡ needs_repair = sym is_ready ∙ ap (λ x. x.state) same ∙ e in
        absurd (cc repaired)
    | inr (j, other) ↦ old r j is_ready
  ]

  intent_of :
      (profile : String)
      → profile ≡ intent.profile_key
      → ◌≡◌ {A = CheckoutIntent}
          (record {
            session = intent.session;
            profile_key = profile;
            runtime_id = intent.runtime_id;
          })
          intent
  intent_of profile e =
      ap (λ p. record { session = intent.session; profile_key = p; runtime_id = intent.runtime_id })
        e

  commit-Bound :
      (r : RuntimeRow) (probed : Outcome String Attestation) (now : ℕ) (db : PoolDb)
      → OldReady db
      → ((observed : Attestation)
          → probed ≡ ok observed
          → (observed.profile_key ≡ intent.profile_key) × Serves probe owner intent base r.id)
      → Ensures Bound (checkout_commit owner intent key r probed now db)
  unfolding checkout_commit checkout_row put_binding put_runtime record_event
  commit-Bound r (err text) now db old serves = Ensures-bind (get_runtime r.id db) (λ latest _.
      elim (Bool-cases (latest.state == ready && latest.attestation == r.attestation)) [
        | inr changed ↦ rw changed (Ensures-ok _ (λ b e. absurd (cc e), λ _. old))
        | inl unchanged ↦ rw unchanged (
            Ensures-ok _ (
              λ b e. absurd (cc e),
              λ _.
                  marked-OldReady (record latest { state = needs_repair; error = some text }) db
                    refl old,
            ))
      ])
  commit-Bound r (ok observed) now db old serves = Ensures-bind (get_runtime r.id db) (λ latest _.
      elim (Bool-cases (latest.state == ready && latest.attestation == r.attestation)) [
        | inr changed ↦ rw changed (Ensures-ok _ (λ b e. absurd (cc e), λ _. old))
        | inl unchanged ↦
            let (profile, served) = serves observed refl in
            let row = checkout_row owner intent.session key r observed intent.runtime_id in
            let same = intent_of observed.profile_key profile in
            let stored = In-put_row_self (λ (x : BindingRow). x.id) row db.bindings in
            rw unchanged (
              Ensures-ok _ (
                λ b e.
                    subst
                      (λ (x : BindingRow).
                        Fits intent key x (put_binding row db)
                        × Serves probe owner intent base x.runtime_id)
                      (eq_of_some e) ((refl, same, refl, stored), served),
                λ e. absurd (cc e),
              ))
      ])

  -- A candidate of the first transaction.
  abbrev pub Candidate : String → Type 0
  Candidate id = (r : RuntimeRow) × In r base × (r.id ≡ id) × (is_candidate owner intent r ≡ true)

  asked_for :
      (wanted id : String) → (wanted == "" || id == wanted) ≡ true → (wanted ≡ "") ⊎ (id ≡ wanted)
  asked_for wanted id e = elim (Bool-cases (wanted == "")) [
    | inl any ↦ inl (==→≡ wanted "" any)
    | inr one ↦ inr (==→≡ id wanted (ground arith))
  ]

  -- What a candidate that is still ready is like, once its probe answered.
  Candidate-Serves :
      (r : RuntimeRow) (observed : Attestation)
      → In r base
      → Candidate r.id
      → probed_candidate r (probe r) ≡ ok observed
      → (observed.profile_key ≡ intent.profile_key) × Serves probe owner intent base r.id
  unfolding is_candidate
  Candidate-Serves r observed i (c, j, same_id, is_one) answered =
      let (confirmed, same) = probed_same r (probe r) observed answered in
      let fits : is_candidate owner intent r ≡ true =
        subst (λ x. is_candidate owner intent x ≡ true) (unique.same c r j i same_id) is_one in
      let profile : r.attestation.profile_key ≡ intent.profile_key =
        ==→≡ r.attestation.profile_key intent.profile_key (ground arith) in
      (
        ap (λ a. a.profile_key) same ∙ profile,
        record {
          runtime = r;
          registered = i;
          named = refl;
          is_ready = ==→≡ r.state ready (ground arith);
          given = ground arith;
          owned = ==→≡ r.user owner (ground arith);
          same_profile = profile;
          as_asked = asked_for intent.runtime_id r.id (ground arith);
          confirmed = confirmed;
        },
      )

  some_if :
      (b : Bool) (r : RuntimeRow) {s : RuntimeRow}
      → (if b then some r else none) ≡ some s
      → (b ≡ true) × (r ≡ s)
  some_if true r e = (refl, eq_of_some e)
  some_if false r e = absurd (cc e)

  read_candidate-In :
      (candidate : String) (db : PoolDb)
      → OldReady db
      → Ensures
          (λ (o : Option RuntimeRow).
            (r : RuntimeRow) → o ≡ some r → In r base × (r.id ≡ candidate))
          (read_candidate owner intent candidate db)
  unfolding read_candidate
  read_candidate-In candidate db old = Ensures-bind (get_runtime candidate db) (λ runtime found.
      Ensures-ok _ (λ r e.
        let (fits, same) = some_if _ runtime e in
        let (i, named) = get_runtime-In candidate db found in
        subst (λ x. In x base × (x.id ≡ candidate)) same
          (old runtime i (==→≡ runtime.state ready (ground arith)), named)))

  pub try_candidates-Bound :
      (candidates : List String) (now : ℕ) (db : PoolDb)
      → ((id : String) → In id candidates → Candidate id)
      → OldReady db
      → Ensures Bound (try_candidates probe owner intent key candidates now db)
  unfolding try_candidates
  try_candidates-Bound [] now db each old = Ensures-ok _ (λ b e. absurd (cc e), λ _. old)
  try_candidates-Bound (candidate ∷ rest) now db each old =
      let more = λ (id : String) (i : In id rest). each id (there i) in
      Ensures-bind (read_candidate owner intent candidate db) (λ found seen.
        elim (Option-cases found) [
          | inl nothing ↦ rw nothing (try_candidates-Bound rest now db more old)
          | inr (r, e) ↦
              let (i, named) = (read_candidate-In candidate db old).at found seen r e in
              let one : Candidate r.id = subst Candidate (sym named) (each candidate here) in
              let probed = probed_candidate r (probe r) in
              rw e (
                Ensures-bind (checkout_commit owner intent key r probed now db)
                  (λ (made, db') committed.
                    let (fits, passed) =
                      (commit-Bound r probed now db old
                          (λ observed answered. Candidate-Serves r observed i one answered)).at
                        (made, db') committed in
                    elim (Option-cases made) [
                      | inl nothing ↦
                          rw nothing (try_candidates-Bound rest now db' more (passed nothing))
                      | inr (row, is_row) ↦ rw is_row (
                          Ensures-ok _
                            (λ b same. fits b (is_row ∙ same), λ missing. absurd (cc missing)))
                    ]))
        ])
