-- ===== src/Pool/Reconcile.antt =====
-- The operator's end of a wedged run (`reconcile` of vaws_coordinator/ready_runtime.py). The locks
-- of the job and of the run keep the rows that are read first as they are until they are written.
-- The evidence is given as stripped; the strip and cut of the recorded texts is not modelled.
use vaws_coordinator.Prelude.{
  ℕ, String, Bool, true, false, Option, none, some, List, [], ◌∷◌, ◌&&◌, ◌||◌, not, ◌==◌, nat_eq,
  string_eq, leb, if◌then◌else◌, length, filter, all_of, any_of, is_some,
}
use vaws_coordinator.Prelude.Outcome.{Outcome, ok, err, ◌>>=◌, ◌>>◌, guard}
use vaws_coordinator.Host.State.{TaskState, released, state_eq}
use vaws_coordinator.Host.Ids.{codes}
use vaws_coordinator.Host.Messages.{is_space}
use vaws_coordinator.Pool.Values.{
  PoolError, invalid_reason, invalid_evidence, evidence_required, already_terminal,
  not_reconcilable, not_released,
}
use vaws_coordinator.Pool.State.{
  RunRow, JobRow, PoolDb, uncertain, at, run_state_eq, is_terminal, run_reconciled, is_done,
  JobState, stopping, inconclusive, Observed, FamilyState,
}
use vaws_coordinator.Pool.Table.{
  owned_binding, get_run, get_runtime, put_run, put_job, record_event,
}
use vaws_coordinator.Pool.Calls.{HostCall, act, release, Reply}
use vaws_coordinator.Pool.Control.{fence_of}

-- The operator's request, and whether the host's lease is to be released.
pub record Reconciliation : Type 0 where
  pub reason : String
  pub evidence : String
  pub force_release : Bool

abbrev pub text_length : String → ℕ
text_length text = length (codes text)

-- The checks of the arguments.
unfoldable pub checked_reconciliation : Reconciliation → Outcome PoolError (Unit {0})
checked_reconciliation r = do
  guard (not (all_of is_space (codes r.reason)) && leb (text_length r.reason) 1000) invalid_reason
  guard (leb (text_length r.evidence) 2000) invalid_evidence
  guard (not r.force_release || not (r.evidence == "")) evidence_required
  ok tt

abbrev is_stopping : JobState → Bool
is_stopping stopping = true
is_stopping _ = false

abbrev is_absent : Option Observed → Bool
is_absent none = false
is_absent (some o) = elim o.state [ FamilyState.absent ↦ true | _ ↦ false ]

-- A job that is stopping, whose process family had a receipt and is gone.
unfoldable pub has_vanished : JobRow → Bool
has_vanished j = is_stopping j.state && j.had_receipt && is_absent j.remote

-- The first transaction: the run, and its jobs that are not done.
unfoldable pub reconcile_begin :
    String → Reconciliation → PoolDb → Outcome PoolError (RunRow × List JobRow)
unfolding checked_reconciliation get_run owned_binding get_runtime has_vanished
reconcile_begin run_id r db = do
  checked_reconciliation r
  run ← get_run run_id db
  binding ← owned_binding run.binding_id run.owner db
  _ ← get_runtime binding.runtime_id db
  let jobs = filter (λ j. j.id == run_id && not (is_done j.state)) db.jobs
  guard (not (is_terminal run.state)) already_terminal
  guard (run.state == uncertain || not (r.evidence == "") && any_of has_vanished jobs)
      not_reconcilable
  ok (run, jobs)

-- The release that the host is asked for.
unfoldable pub forced_release : Reconciliation → RunRow → List HostCall
forced_release r run =
    if r.force_release && is_some run.epoch
    then act release run.task_id run.epoch (fence_of run.task) 0 true ∷ []
    else []

abbrev shows_released : Reply → Bool
shows_released reply = elim reply.task [ none ↦ false | some t ↦ t.state == released ]

-- What its answer must show; a failure comes before any change of the database.
unfoldable pub release_confirmed :
    List HostCall → Outcome String Reply → Outcome PoolError (Unit {0})
release_confirmed [] reply = ok tt
release_confirmed (call ∷ _) (err text) = err not_released
release_confirmed (call ∷ _) (ok reply) = guard (shows_released reply) not_released

unfoldable pub end_job : String → JobRow → JobRow
end_job text j = record j { state = inconclusive; error = some text }

unfoldable pub put_jobs : List JobRow → PoolDb → PoolDb
unfolding put_job
put_jobs [] db = db
put_jobs (j ∷ rest) db = put_jobs rest (put_job j db)

abbrev pub end_jobs : String → List JobRow → List JobRow
end_jobs text [] = []
end_jobs text (j ∷ rest) = end_job text j ∷ end_jobs text rest

-- The last transaction.
unfoldable pub reconcile_commit :
    Reconciliation → String → RunRow → List JobRow → ℕ → PoolDb → RunRow × PoolDb
unfolding put_run put_jobs record_event
reconcile_commit r text run jobs now db =
    let ended = record run { state = at TaskState.cancelled; error = some text } in
    let written = put_jobs (end_jobs text jobs) (put_run ended db) in
    (
      ended,
      record_event now run.owner
          (run_reconciled run.id r.reason run.state r.evidence r.force_release) written,
    )

-- `text` is the error `operator reconcile: <reason>`.
unfoldable pub reconcile :
    String
    → Reconciliation
    → String
    → Outcome String Reply
    → ℕ
    → PoolDb
    → Outcome PoolError RunRow × PoolDb
unfolding reconcile_begin forced_release release_confirmed reconcile_commit
reconcile run_id r text reply now db = elim (reconcile_begin run_id r db) [
  | err raised ↦ (err raised, db)
  | ok (run, jobs) ↦ elim (release_confirmed (forced_release r run) reply) [
    | err raised ↦ (err raised, db)
    | ok _ ↦ let (ended, db') = reconcile_commit r text run jobs now db in (ok ended, db')
  ]
]
