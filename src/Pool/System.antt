-- ===== src/Pool/System.antt =====
-- The pool as its callers run it at the same time (the transactions and entity locks of RuntimePool
-- in vaws_coordinator/ready_runtime.py).
-- Each transaction is one step. What a call has read before its last transaction, and what a probe
-- told it, is an argument of that step, so any other steps may come between. A run's lock is held
-- by at most one call of `control`, whose effects happen one by one.
pub mod Invariant
pub mod Safety
pub mod Persist
pub mod Roots
pub mod Apart
use vaws_coordinator.Prelude.{
  ℕ, String, Bool, true, false, Option, none, some, ◌≡◌, List, [], ◌∷◌, ◌==◌, string_eq,
  if◌then◌else◌, get_row,
}
use vaws_coordinator.Prelude.Outcome.{Outcome, ok}
use vaws_coordinator.Pool.Values.{PoolError, Attestation}
use vaws_coordinator.Pool.State.{
  RunRow, JobRow, BindingRow, SessionRow, RuntimeRow, RunIntent, CheckoutIntent, Sources,
  is_terminal, PoolDb,
}
use vaws_coordinator.Pool.Table.{put_job}
use vaws_coordinator.Pool.Calls.{Capabilities, ControlArgs, Answers, Effect, Reply}
use vaws_coordinator.Pool.Registry.{Spec, Checkout, register_commit, drain}
use vaws_coordinator.Pool.Checkout.{checkout_commit, return_runtime, refresh_commit, session_commit}
use vaws_coordinator.Pool.Runs.{
  request_commit, control_begin, controlled, apply_effect, last_written,
}
use vaws_coordinator.Pool.Reconcile.{
  Reconciliation, reconcile_begin, forced_release, release_confirmed, reconcile_commit,
}

-- For each run whose lock is held: the row that the database has, and the effects to come.
abbrev pub Flights : Type 0
Flights = String → Option (RunRow × List Effect)

abbrev pub set_flight : String → Option (RunRow × List Effect) → Flights → Flights
set_flight id flight flights = λ k. if k == id then flight else flights k

pub record System : Type 0 where
  pub db : PoolDb
  pub flights : Flights

unfoldable pub with_db : System → PoolDb → System
with_db s db = record s { db = db }

unfoldable pub with_flight : System → String → Option (RunRow × List Effect) → System
with_flight s id flight = record s { flights = set_flight id flight s.flights }

pub data Step : System → System → Type 0 where
  opened :
      {s : System} {reply : Outcome PoolError SessionRow} {db : PoolDb}
      (owner session_id key : String) (sources : Sources)
      → session_commit owner session_id key sources s.db ≡ (reply, db)
      → Step s (with_db s db)
  registered :
      {s : System} {db : PoolDb} (c : Option Checkout) (id : String) (spec : Spec)
      (is_prepared : Bool) (observed : Attestation) (now : ℕ)
      → register_commit c id spec is_prepared observed now s.db ≡ ok db
      → Step s (with_db s db)
  drained : {s : System} {db : PoolDb} (id : String) → drain id s.db ≡ ok db → Step s (with_db s db)
  checked_out :
      {s : System} {binding : Option BindingRow} {db : PoolDb} (owner : String)
      (intent : CheckoutIntent) (key : String) (read : RuntimeRow)
      (probed : Outcome String Attestation) (now : ℕ)
      → checkout_commit owner intent key read probed now s.db ≡ ok (binding, db)
      → Step s (with_db s db)
  returned :
      {s : System} {db : PoolDb} (owner id : String) (now : ℕ)
      → return_runtime owner id now s.db ≡ ok db
      → Step s (with_db s db)
  refreshed :
      {s : System} {binding : BindingRow} {db : PoolDb} (owner id : String) (read : BindingRow)
      (observed : Attestation) (now : ℕ)
      → refresh_commit owner id read observed now s.db ≡ ok (binding, db)
      → Step s (with_db s db)
  -- The binding's lock is held since `request_begin` found no run with the key.
  requested :
      {s : System} {run : RunRow} {db : PoolDb} (owner key binding_id : String) (intent : RunIntent)
      (task_id : String) (now : ℕ)
      → get_row (λ r. r.id) key s.db.runs ≡ none
      → request_commit owner key binding_id intent task_id now s.db ≡ ok (run, db)
      → Step s (with_db s db)
  begun :
      {s : System} {run : RunRow} (can : Capabilities) (owner id : String) (args : ControlArgs)
      (answers : Answers)
      → s.flights id ≡ none
      → control_begin owner id args s.db ≡ ok run
      → is_terminal run.state ≡ false
      → Step s (with_flight s id (some (run, (controlled can args answers run).1)))
  happened :
      {s : System} {run : RunRow} {effect : Effect} {rest : List Effect} (id owner : String)
      (now : ℕ)
      → s.flights id ≡ some (run, effect ∷ rest)
      → Step s (
          with_flight
            (with_db s (apply_effect now owner effect s.db))
            id
            (some (last_written run (effect ∷ []), rest)))
  ended :
      {s : System} {run : RunRow} (id : String)
      → s.flights id ≡ some (run, [])
      → Step s (with_flight s id none)
  -- The manager process stops: the calls are gone, the database stays.
  stopped : {s : System} → Step s (record s { flights = λ _. none })
  -- A job row is written by the managed executions (managed_execution.py), whose rows are any here.
  job_written : {s : System} (job : JobRow) → Step s (with_db s (put_job job s.db))
  reconciled :
      {s : System} {run : RunRow} {jobs : List JobRow} (id : String) (r : Reconciliation)
      (text : String) (reply : Outcome String Reply) (now : ℕ)
      → s.flights id ≡ none
      → reconcile_begin id r s.db ≡ ok (run, jobs)
      → release_confirmed (forced_release r run) reply ≡ ok tt
      → Step s (with_db s (reconcile_commit r text run jobs now s.db).1)

abbrev pub fresh_pool : System
fresh_pool = record {
  db = record { sessions = []; runtimes = []; bindings = []; runs = []; jobs = []; events = [] };
  flights = λ _. none;
}

-- The states that a pool comes to.
pub data Reachable : System → Type 0 where
  start : Reachable fresh_pool
  next : {s t : System} → Reachable s → Step s t → Reachable t
