-- ===== src/Pool/System/Invariant.antt =====
-- The invariant of a pool with calls of `control` under way, and which transactions leave the runs
-- as they are (vaws_coordinator/ready_runtime.py).
use vaws_coordinator.Prelude.{
  ℕ, String, Bool, true, Option, none, some, ◌≡◌, ◌≢◌, refl, ◌∙◌, ap, ◌⊎◌, inl, inr, List, [], ◌∷◌,
  ◌==◌, ==→≡, string_eq, arith, Bool-cases, In, here, there, get_row, In-put_row_ne, not, ◌&&◌,
  is_some, ne_of_test,
}
use vaws_coordinator.Prelude.Outcome.{
  Outcome, ok, err, Ensures, Ensures-ok, Ensures-bind, Ensures-guard,
}
use vaws_coordinator.Pool.Values.{ready, runtime_state_eq, attestation_eq, Attestation}
use vaws_coordinator.Pool.State.{
  RunRow, JobRow, BindingRow, RuntimeRow, at, RunIntent, CheckoutIntent, Sources, PoolDb,
}
use vaws_coordinator.Pool.Table.{
  owned_binding, owned_session, get_runtime, put_session, put_runtime, put_binding, put_run,
  record_event, has_unresolved,
}
use vaws_coordinator.Pool.Calls.{Effect}
use vaws_coordinator.Pool.Registry.{Spec, Checkout, check_registration, register_commit, drain}
use vaws_coordinator.Pool.Checkout.{
  checkout_commit, return_runtime, refresh_begin, refresh_commit, session_commit,
}
use vaws_coordinator.Pool.Runs.{new_run, request_commit}
use vaws_coordinator.Host.State.{cancelled}
use vaws_coordinator.Pool.Reconcile.{Reconciliation, reconcile_commit, end_jobs}
use vaws_coordinator.Pool.Lawful.{Lawful}
use vaws_coordinator.Pool.Exclusive.{PoolInv}
use vaws_coordinator.Pool.Exclusive.Runs.{put_jobs-tables}
use vaws_coordinator.Pool.System.{System, Flights, set_flight, with_db}

-- The runs stay as they are.
abbrev pub SameRuns : PoolDb → PoolDb → Type 0
SameRuns db db' = db'.runs ≡ db.runs

pub register_commit-runs :
    (c : Option Checkout) (id : String) (spec : Spec) (is_prepared : Bool) (observed : Attestation)
    (now : ℕ) (db : PoolDb)
    → Ensures (SameRuns db) (register_commit c id spec is_prepared observed now db)
unfolding register_commit put_runtime put_binding record_event
register_commit-runs none id spec is_prepared observed now db =
    Ensures-bind (check_registration db id spec observed.container_id) (λ _ _. Ensures-ok _ refl)
register_commit-runs (some c) id spec is_prepared observed now db =
    Ensures-bind (check_registration db id spec observed.container_id)
      (λ _ _. Ensures-bind (owned_session c.session c.owner db) (λ _ _. Ensures-ok _ refl))

pub drain-runs : (id : String) (db : PoolDb) → Ensures (SameRuns db) (drain id db)
unfolding drain put_runtime
drain-runs id db = Ensures-bind (get_runtime id db) (λ _ _. Ensures-ok _ refl)

pub checkout_commit-runs :
    (owner : String) (intent : CheckoutIntent) (key : String) (r : RuntimeRow)
    (probed : Outcome String Attestation) (now : ℕ) (db : PoolDb)
    → Ensures
        (λ (x : Option BindingRow × PoolDb). SameRuns db x.1)
        (checkout_commit owner intent key r probed now db)
unfolding checkout_commit put_runtime put_binding record_event
checkout_commit-runs owner intent key r (err text) now db =
    Ensures-bind (get_runtime r.id db) (λ latest _.
      Ensures-ok _
        (elim (Bool-cases (latest.state == ready && latest.attestation == r.attestation)) [
          | inl same ↦ rw same refl
          | inr changed ↦ rw changed refl
        ]))
checkout_commit-runs owner intent key r (ok observed) now db =
    Ensures-bind (get_runtime r.id db) (λ latest _.
      elim (Bool-cases (latest.state == ready && latest.attestation == r.attestation)) [
        | inl same ↦ rw same (Ensures-ok _ refl)
        | inr changed ↦ rw changed (Ensures-ok _ refl)
      ])

pub return_runtime-runs :
    (owner id : String) (now : ℕ) (db : PoolDb)
    → Ensures (SameRuns db) (return_runtime owner id now db)
unfolding return_runtime put_runtime put_binding record_event
return_runtime-runs owner id now db = Ensures-bind (owned_binding id owner db) (λ b _.
    Ensures-guard (not (has_unresolved id db)) _ (λ _.
      Ensures-bind (get_runtime b.runtime_id db) (λ r _. elim (Bool-cases b.is_bound) [
        | inl held ↦ rw held (Ensures-ok _ refl)
        | inr free ↦ rw free (Ensures-ok _ refl)
      ])))

pub refresh_commit-runs :
    (owner id : String) (stale : BindingRow) (observed : Attestation) (now : ℕ) (db : PoolDb)
    → Ensures
        (λ (x : BindingRow × PoolDb). SameRuns db x.1)
        (refresh_commit owner id stale observed now db)
unfolding refresh_commit put_runtime put_binding record_event
refresh_commit-runs owner id stale observed now db =
    Ensures-guard (observed.profile_key == stale.profile_key) _
      (λ _. Ensures-bind (refresh_begin owner id db) (λ (b, r) _. Ensures-ok _ refl))

pub session_commit-tables :
    (owner session_id key : String) (sources : Sources) (db : PoolDb)
    → let db' = (session_commit owner session_id key sources db).1 in
      (db'.runtimes ≡ db.runtimes) × (db'.bindings ≡ db.bindings) × (db'.runs ≡ db.runs)
unfolding session_commit put_session
session_commit-tables owner session_id key sources db = ground arith

-- The invariant of the pool, with the calls of `control` under way.
pub record SystemInv (s : System) : Type 0 where
  pub pool : PoolInv s.db
  pub flying :
      (id : String) (run : RunRow) (effects : List Effect)
      → s.flights id ≡ some (run, effects)
      → (run.id ≡ id) × In run s.db.runs × Lawful run effects

-- A step that writes no run.
pub with_db-SystemInv :
    (s : System) (db : PoolDb)
    → SystemInv s
    → PoolInv db
    → db.runs ≡ s.db.runs
    → SystemInv (with_db s db)
unfolding with_db
with_db-SystemInv s db h pool same = record { pool = pool; flying = rw same h.flying }

get_row-none-ne :
    (id : String) (rows : List RunRow) (r : RunRow)
    → get_row (λ x. x.id) id rows ≡ none
    → In r rows
    → r.id ≢ id
get_row-none-ne id (x ∷ xs) r e here same =
    absurd (ground (arith, (string_eq.agrees x.id id).1 same))
get_row-none-ne id (x ∷ xs) r e (there i) same = elim (Bool-cases (x.id == id)) [
  | inl found ↦ absurd (ground arith)
  | inr other ↦ get_row-none-ne id xs r (rw other at e) i same
]
get_row-none-ne id [] r e i same = elim i [ ]

pub request_commit-keeps :
    (owner key binding_id : String) (intent : RunIntent) (task_id : String) (now : ℕ) (db : PoolDb)
    → get_row (λ x. x.id) key db.runs ≡ none
    → Ensures
        (λ (x : RunRow × PoolDb). (r : RunRow) → In r db.runs → In r x.1.runs)
        (request_commit owner key binding_id intent task_id now db)
unfolding request_commit put_run record_event new_run
request_commit-keeps owner key binding_id intent task_id now db free =
    Ensures-bind (owned_binding binding_id owner db) (λ b _.
      Ensures-guard (b.is_bound && intent.build_key == b.build_key) _ (λ _.
        Ensures-guard (not (has_unresolved binding_id db)) _ (λ _. Ensures-ok _ (λ r i.
          In-put_row_ne (λ x. x.id) (new_run key owner binding_id intent task_id now) db.runs r i
            (get_row-none-ne key db.runs r free i)))))

-- A step that leaves the rows of the runs under way.
pub wrote-SystemInv :
    (s : System) (db : PoolDb)
    → SystemInv s
    → PoolInv db
    → ((r : RunRow)
        → In r s.db.runs
        → (flight : Option (RunRow × List Effect)) → s.flights r.id ≡ flight
        → is_some flight ≡ true
        → In r db.runs)
    → SystemInv (with_db s db)
unfolding with_db
wrote-SystemInv s db h pool keeps = record {
  pool = pool;
  flying = λ id run effects e.
      let (named, i, lawful) = h.flying id run effects e in
      (named, keeps run i (some (run, effects)) (ap s.flights named ∙ e) refl, lawful);
}

pub put_run-In :
    (new : RunRow) (db : PoolDb) (r : RunRow)
    → In r db.runs
    → r.id ≢ new.id
    → In r (put_run new db).runs
unfolding put_run
put_run-In new db r i other = In-put_row_ne (λ x. x.id) new db.runs r i other

pub reconciled-keeps :
    (r : Reconciliation) (text : String) (run : RunRow) (jobs : List JobRow) (now : ℕ) (db : PoolDb)
    (row : RunRow)
    → In row db.runs
    → row.id ≢ run.id
    → In row (reconcile_commit r text run jobs now db).1.runs
unfolding reconcile_commit record_event
reconciled-keeps r text run jobs now db row i other =
    let ended : RunRow = record run { state = at cancelled; error = some text } in
    let (_, _, same) = put_jobs-tables (end_jobs text jobs) (put_run ended db) in
    rw same (put_run-In ended db row i other)

-- The flights after one of them is set.
pub set_flight-cases :
    (id : String) (flight : Option (RunRow × List Effect)) (flights : Flights) (k : String)
    → ((k ≡ id) × (set_flight id flight flights k ≡ flight))
      ⊎ ((k ≢ id) × (set_flight id flight flights k ≡ flights k))
set_flight-cases id flight flights k = elim (Bool-cases (k == id)) [
  | inl e ↦ inl (==→≡ k id e, rw e refl)
  | inr e ↦ inr (ne_of_test k id e, rw e refl)
]
