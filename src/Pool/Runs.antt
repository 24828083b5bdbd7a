-- ===== src/Pool/Runs.antt =====
-- Runs from their request to their end (`_request_run`, `control` and `reconcile` of
-- vaws_coordinator/ready_runtime.py).
pub mod Retry
use vaws_coordinator.Prelude.{
  ℕ, ◌+◌, String, Bool, true, false, Option, none, some, List, [], ◌∷◌, ◌++◌, ◌&&◌, ◌||◌, not, ◌==◌,
  nat_eq, string_eq, option_eq, list_eq, pair_eq, bool_eq, int_eq, leb, if◌then◌else◌, length,
  any_of, all_of, contains, distinct,
}
use vaws_coordinator.Prelude.Outcome.{Outcome, ok, err, ◌>>=◌, ◌>>◌, guard}
use vaws_coordinator.Host.Ids.{codes}
use vaws_coordinator.Pool.Values.{
  PoolError, request_reused, unresolved_execution, build_mismatch, invalid_devices, invalid_window,
  invalid_sharing, invalid_snapshot, environment_changed, pending_execution, managed_lease,
  unsupported_action, backend_failed, Attestation, attestation_eq,
}
use vaws_coordinator.Pool.State.{
  RunIntent, intent_beq, RunRow, BindingRow, RuntimeRow, PoolDb, pending, run_state_eq, is_terminal,
  run_queued, run_state,
}
use vaws_coordinator.Pool.Table.{
  owned_binding, owned_run, get_runtime, put_run, record_event, is_unresolved, has_unresolved,
}
use vaws_coordinator.Pool.Calls.{
  poll, activate, cancel, action_eq, Capabilities, ControlArgs, Effect, asked, wrote, noted,
  Answers, Progress,
}
use vaws_coordinator.Pool.Control.{attempt, settled}

abbrev is_lower_hex : ℕ → Bool
is_lower_hex c = leb b'0' c && leb c b'9' || leb b'a' c && leb c b'f'

-- [0-9a-f]{40,64}
unfoldable pub is_commit : String → Bool
is_commit text =
    let cs = codes text in all_of is_lower_hex cs && leb 40 (length cs) && leb (length cs) 64

abbrev pub add_code : ℕ → List (List ℕ) → List (List ℕ)
add_code c [] = (c ∷ []) ∷ []
add_code c (part ∷ rest) = (c ∷ part) ∷ rest

-- The parts between slashes.
unfoldable pub split_path : List ℕ → List (List ℕ)
split_path [] = [] ∷ []
split_path (c ∷ cs) = let rest = split_path cs in if c == b'/' then [] ∷ rest else add_code c rest

abbrev pub starts_with_slash : List ℕ → Bool
starts_with_slash [] = false
starts_with_slash (c ∷ cs) = c == b'/'

-- A relative path without `..` and backslashes, or the path `.`.
unfoldable pub is_snapshot_path : String → Bool
unfolding split_path
is_snapshot_path name =
    let cs = codes name in
    not (name == "")
    && not (contains b'\\' cs)
    && (name == "."
        || not (starts_with_slash cs) && not (contains (b'.' ∷ b'.' ∷ []) (split_path cs)))

-- The checks of the arguments.
unfoldable pub checked_intent : RunIntent → Outcome PoolError (Unit {0})
unfolding is_commit is_snapshot_path
checked_intent intent = do
  guard (distinct intent.devices && (length intent.devices == 0 || intent.npu_count == 0))
      invalid_devices
  guard (leb 1 intent.queue_seconds && leb intent.queue_seconds 86400) invalid_window
  guard (not intent.allow_external_busy || length intent.devices == 1 && intent.npu_count == 0)
      invalid_sharing
  guard (all_of (λ (_, commit). is_commit commit) intent.snapshots) invalid_snapshot
  guard (all_of (λ (name, _). is_snapshot_path name) intent.snapshots) invalid_snapshot
  ok tt

-- The loop over the runs: the run of a retry, or an unresolved run of the binding.
unfoldable pub scan_runs :
    String → String → RunIntent → List RunRow → Outcome PoolError (Option RunRow)
unfolding is_unresolved
scan_runs key binding_id intent [] = ok none
scan_runs key binding_id intent (run ∷ rest) =
    let others = scan_runs key binding_id intent rest in
    if run.id == key
    then (if intent_beq run.intent intent then ok (some run) else err request_reused)
    else if is_unresolved binding_id run
    then err unresolved_execution
    else others

-- The first transaction: `inl` is the run of a retry.
unfoldable pub request_begin :
    String
    → String
    → String
    → RunIntent
    → PoolDb
    → Outcome PoolError (Option RunRow × BindingRow × RuntimeRow)
unfolding owned_binding get_runtime scan_runs
request_begin owner key binding_id intent db = do
  binding ← owned_binding binding_id owner db
  runtime ← get_runtime binding.runtime_id db
  found ← scan_runs key binding_id intent db.runs
  elim found [
    | some run ↦ ok (some run, binding, runtime)
    | none ↦ do
      guard (binding.is_bound && intent.build_key == binding.build_key) build_mismatch
      ok (none, binding, runtime)
  ]

-- A run before its first request to a host.
unfoldable pub new_run : String → String → String → RunIntent → String → ℕ → RunRow
new_run key owner binding_id intent task_id now = record {
  id = key;
  owner = owner;
  binding_id = binding_id;
  intent = intent;
  task_id = task_id;
  state = pending;
  epoch = none;
  deadline = now + intent.queue_seconds;
  last_poll = 0;
  submitted = false;
  task = none;
  visible_devices = none;
  service_port = none;
  preflight_error = none;
  error = none;
}

-- The probe of the runtime with the snapshots.
unfoldable pub checked_runtime :
    Bool → Outcome String Attestation → RuntimeRow → Outcome PoolError (Unit {0})
checked_runtime false probed runtime = ok tt
checked_runtime true (err text) runtime = err backend_failed
checked_runtime true (ok observed) runtime =
    guard (observed == runtime.attestation) environment_changed

-- The transaction after the probe: the intent is durable before the first host request.
unfoldable pub request_commit :
    String → String → String → RunIntent → String → ℕ → PoolDb → Outcome PoolError (RunRow × PoolDb)
unfolding owned_binding has_unresolved new_run put_run record_event
request_commit owner key binding_id intent task_id now db = do
  binding ← owned_binding binding_id owner db
  guard (binding.is_bound && intent.build_key == binding.build_key) build_mismatch
  guard (not (has_unresolved binding_id db)) unresolved_execution
  let run = new_run key owner binding_id intent task_id now
  ok (run, record_event now owner (run_queued key) (put_run run db))

-- The transaction that `control` begins with, and its checks.
unfoldable pub control_begin : String → String → ControlArgs → PoolDb → Outcome PoolError RunRow
unfolding owned_run owned_binding get_runtime
control_begin owner run_id args db = do
  guard (not args.completion_confirmed || args.is_managed) unsupported_action
  guard (not args.has_prepared_receipt || args.is_managed && args.action == activate)
      unsupported_action
  guard (not args.preflight_new || args.is_managed && args.action == poll) unsupported_action
  run ← owned_run run_id owner db
  binding ← owned_binding run.binding_id owner db
  _ ← get_runtime binding.runtime_id db
  guard (args.is_managed || args.action == poll || not (any_of (λ j. j.id == run_id) db.jobs))
      managed_lease
  guard
      (is_terminal run.state
        || not (run.state == pending)
        || args.action == poll
        || args.action == cancel)
      pending_execution
  ok run

-- The row that the database has after a part of the trace.
unfoldable pub last_written : RunRow → List Effect → RunRow
last_written run [] = run
last_written run (wrote row ∷ rest) = last_written row rest
last_written run (_ ∷ rest) = last_written run rest

unfoldable pub apply_effect : ℕ → String → Effect → PoolDb → PoolDb
unfolding put_run record_event
apply_effect now owner (asked call) db = db
apply_effect now owner (wrote run) db = put_run run db
apply_effect now owner (noted event) db = record_event now owner event db

unfoldable pub apply_effects : ℕ → String → List Effect → PoolDb → PoolDb
unfolding apply_effect
apply_effects now owner [] db = db
apply_effects now owner (effect ∷ rest) db =
    apply_effects now owner rest (apply_effect now owner effect db)

abbrev pub start_of : ControlArgs → RunRow → Progress
start_of args run = record {
  run = run;
  action = args.action;
  pending_status = none;
  admission_reply = none;
  fresh_preflight = false;
  trace = [];
}

-- The effects of a call on a run that is not terminal, and the run that it returns.
unfoldable pub controlled : Capabilities → ControlArgs → Answers → RunRow → RunRow × List Effect
unfolding attempt settled last_written
controlled can args answers run =
    let p = settled args (attempt can args answers (start_of args run)) in
    let final = record p.run { last_poll = answers.last_clock } in
    let previous = last_written run p.trace in
    let event = noted (run_state final.id final.state final.error) ∷ [] in
    let same = previous.state == final.state && previous.error == final.error in
    (final, p.trace ++ wrote final ∷ (if same then [] else event))

unfoldable pub control :
    Capabilities
    → String
    → String
    → ControlArgs
    → Answers
    → PoolDb
    → Outcome PoolError RunRow × PoolDb
unfolding control_begin controlled apply_effects
control can owner run_id args answers db = elim (control_begin owner run_id args db) [
  | err raised ↦ (err raised, db)
  | ok run ↦
      let (final, effects) = controlled can args answers run in
      if is_terminal run.state
      then (ok run, db)
      else (ok final, apply_effects answers.last_clock owner effects db)
]
