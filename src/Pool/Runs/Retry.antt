-- ===== src/Pool/Runs/Retry.antt =====
-- A repeated request of a run finds the run of the first one (`_request_run` of
-- vaws_coordinator/ready_runtime.py).
use vaws_coordinator.Prelude.{
  ℕ, String, true, false, some, ◌≡◌, refl, inl, inr, List, [], ◌∷◌, ◌++◌, not, ◌&&◌, ◌==◌, ==-refl,
  string_eq, nat_eq, list_eq, pair_eq, option_eq, bool_eq, int_eq, arith, Bool-cases, filter,
  any_of, or-false,
}
use vaws_coordinator.Prelude.Outcome.{ok, Ensures, Ensures-ok, Ensures-bind, Ensures-guard}
use vaws_coordinator.Pool.State.{RunRow, RunIntent, intent_beq, PoolDb, BindingRow, RuntimeRow}
use vaws_coordinator.Pool.Table.{
  owned_binding, get_runtime, put_run, record_event, is_unresolved, has_unresolved,
}
use vaws_coordinator.Pool.Runs.{scan_runs, new_run, request_begin, request_commit}

intent_beq_refl : (i : RunIntent) → intent_beq i i ≡ true
intent_beq_refl i = ground (
  arith,
  ==-refl i.snapshots,
  ==-refl i.build_key,
  ==-refl i.devices,
  ==-refl i.npu_count,
  ==-refl i.priority,
  ==-refl i.queue_seconds,
  ==-refl i.service_port,
  ==-refl i.allow_external_busy,
)

-- The loop passes over the rows that are neither the run nor unresolved, to the run at the end.
scan_runs-put :
    (binding_id : String) (run : RunRow) (rows : List RunRow)
    → any_of (is_unresolved binding_id) rows ≡ false
    → scan_runs run.id binding_id run.intent (filter (λ x. not (x.id == run.id)) rows ++ run ∷ [])
      ≡ ok (some run)
unfolding scan_runs
scan_runs-put binding_id run [] e = rw (==-refl run.id, intent_beq_refl run.intent) refl
scan_runs-put binding_id run (x ∷ rows) e =
    let (resolved, others) =
      or-false (is_unresolved binding_id x) (any_of (is_unresolved binding_id) rows) e in
    elim (Bool-cases (x.id == run.id)) [
      | inl same ↦ rw same (scan_runs-put binding_id run rows others)
      | inr other ↦ rw (other, other, resolved) (scan_runs-put binding_id run rows others)
    ]

retry_begins :
    (owner key binding_id : String) (intent : RunIntent) (db : PoolDb) (run : RunRow)
    (binding : BindingRow) (runtime : RuntimeRow)
    → owned_binding binding_id owner db ≡ ok binding
    → get_runtime binding.runtime_id db ≡ ok runtime
    → scan_runs key binding_id intent db.runs ≡ ok (some run)
    → request_begin owner key binding_id intent db ≡ ok (some run, binding, runtime)
unfolding request_begin
retry_begins owner key binding_id intent db run binding runtime owned there_is found =
    rw (owned, there_is, found) refl

-- A retry finds the run: after a request was committed, for a binding whose runtime is in the pool,
-- the first transaction of a request with the same owner, key, binding and intent returns exactly
-- the committed run with that binding and runtime. It raises nothing, although the binding now has
-- an unresolved run, and goes on to no second run.
pub request_retry :
    (owner key binding_id : String) (intent : RunIntent) (task_id : String) (now : ℕ)
    (db db' : PoolDb) (run : RunRow) (binding : BindingRow) (runtime : RuntimeRow)
    → request_commit owner key binding_id intent task_id now db ≡ ok (run, db')
    → owned_binding binding_id owner db ≡ ok binding
    → get_runtime binding.runtime_id db ≡ ok runtime
    → request_begin owner key binding_id intent db' ≡ ok (some run, binding, runtime)
unfolding request_commit put_run record_event new_run has_unresolved owned_binding get_runtime
request_retry owner key binding_id intent task_id now db db' run binding runtime e owned there_is =
    found.at (run, db') e
  where
    found :
        Ensures
          (λ (x : RunRow × PoolDb).
            request_begin owner key binding_id intent x.1 ≡ ok (some x.0, binding, runtime))
          (request_commit owner key binding_id intent task_id now db)
    found = Ensures-bind (owned_binding binding_id owner db) (λ b _.
        Ensures-guard (b.is_bound && intent.build_key == b.build_key) _ (λ _.
          Ensures-guard (not (has_unresolved binding_id db)) _ (λ free.
            let run = new_run key owner binding_id intent task_id now in
            Ensures-ok _ (
              retry_begins owner key binding_id intent _ run binding runtime owned there_is
                (scan_runs-put binding_id run db.runs (ground arith))))))
