-- ===== src/Pool/Exclusive/Runs.antt =====
-- Requests, actions and reconciliations of runs keep the invariant of the pool's tables
-- (vaws_coordinator/ready_runtime.py).
use vaws_coordinator.Prelude.{
  ℕ, String, true, false, some, ◌≡◌, refl, sym, ◌∙◌, ◌⊎◌, inl, inr, List, [], ◌∷◌, not, ◌&&◌, ◌||◌,
  ◌==◌, string_eq, arith, Bool-cases, In, get_row-In, and-true, any_of, filter,
}
use vaws_coordinator.Prelude.Outcome.{Ensures, Ensures-ok, Ensures-guard, Ensures-bind, require-ok}
use vaws_coordinator.Pool.State.{
  RunRow, JobRow, RunIntent, RunState, PoolDb, pending, uncertain, at, run_state_eq, is_terminal,
  is_done,
}
use vaws_coordinator.Pool.Table.{
  owned_binding, owned_run, get_run, get_runtime, put_run, put_job, record_event, has_unresolved,
}
use vaws_coordinator.Pool.Calls.{
  Action, poll, activate, cancel, action_eq, ControlArgs, Effect, asked, wrote, noted,
}
use vaws_coordinator.Pool.Runs.{new_run, request_commit, control_begin, apply_effect}
use vaws_coordinator.Pool.Reconcile.{
  Reconciliation, checked_reconciliation, reconcile_begin, reconcile_commit, put_jobs, end_jobs,
  has_vanished,
}
use vaws_coordinator.Host.State.{cancelled}
use vaws_coordinator.Pool.Lawful.{Kept}
use vaws_coordinator.Pool.Lawful.Stages.{goes_on}
use vaws_coordinator.Pool.Exclusive.{PoolInv, put_run-PoolInv, PoolInv-tables}
use vaws_coordinator.Pool.Exclusive.Bindings.{owned_binding-In, has_unresolved-none}

pub request_commit-PoolInv :
    (owner key binding_id : String) (intent : RunIntent) (task_id : String) (now : ℕ) (db : PoolDb)
    → PoolInv db
    → Ensures
        (λ (x : RunRow × PoolDb). PoolInv x.1)
        (request_commit owner key binding_id intent task_id now db)
unfolding request_commit new_run record_event put_run
request_commit-PoolInv owner key binding_id intent task_id now db h =
    Ensures-bind (owned_binding binding_id owner db) (λ b found.
      Ensures-guard (b.is_bound && intent.build_key == b.build_key) _ (λ fits.
        Ensures-guard (not (has_unresolved binding_id db)) _ (λ resolved.
          let (i, named, _) = owned_binding-In binding_id owner db found in
          let run = new_run key owner binding_id intent task_id now in
          let free = has_unresolved-none binding_id db (ground arith) in
          Ensures-ok _ (
            PoolInv-tables _
              (put_run-PoolInv run db h
                (record { bare = λ _ _. refl; listed = λ _ is_at. absurd (ground arith) })
                (λ _. (b, i, named, (and-true _ _ fits).0))
                (λ r j _ live same. absurd (free r j live same)))
              refl refl refl))))

-- A row is written over the row of the same run.
pub rewrite-PoolInv :
    (run row : RunRow) (db : PoolDb)
    → PoolInv db
    → In run db.runs
    → Kept run row
    → PoolInv (put_run row db)
rewrite-PoolInv run row db h i k =
    put_run-PoolInv row db h k.shown
      (λ live.
        let (b, j, named, is_bound) = h.backed run i (was_live live) in
        (b, j, named ∙ sym k.same_binding, is_bound))
      (λ r j live r_live same.
        h.single r run j i r_live (was_live live) (same ∙ k.same_binding) ∙ sym k.same_id)
  where
    was_live : is_terminal row.state ≡ false → is_terminal run.state ≡ false
    was_live live = elim (Bool-cases (is_terminal run.state)) [
      | inl over ↦ absurd (ground (arith, k.ended over))
      | inr e ↦ e
    ]

pub apply_effect-PoolInv :
    (now : ℕ) (owner : String) (run : RunRow) (effect : Effect) (db : PoolDb)
    → PoolInv db
    → In run db.runs
    → ((row : RunRow) → effect ≡ wrote row → Kept run row)
    → PoolInv (apply_effect now owner effect db)
unfolding apply_effect record_event
apply_effect-PoolInv now owner run (asked call) db h i k = h
apply_effect-PoolInv now owner run (wrote row) db h i k =
    rewrite-PoolInv run row db h i (k row refl)
apply_effect-PoolInv now owner run (noted event) db h i k = PoolInv-tables _ h refl refl refl

-- The state that an action is let through on.
begun-goes :
    (state : RunState) (action : Action)
    → (is_terminal state || not (state == pending) || action == poll || action == cancel) ≡ true
    → is_terminal state ≡ false
    → (state ≡ uncertain) ⊎ (goes_on state action ≡ true)
begun-goes pending action e live = inr e
begun-goes uncertain action e live = inl refl
begun-goes (at s) action e live = inr refl

owned_run-In :
    (id owner : String) (db : PoolDb)
    → Ensures (λ (r : RunRow). In r db.runs × (r.id ≡ id)) (owned_run id owner db)
unfolding owned_run get_run
owned_run-In id owner db = Ensures-bind (get_run id db) (λ r found.
    Ensures-guard (r.owner == owner) _
      (λ _. Ensures-ok r (get_row-In (λ (x : RunRow). x.id) id db.runs (require-ok _ _ found))))

-- What a call of `control` begins with.
pub record Begun (run_id : String) (args : ControlArgs) (db : PoolDb) (run : RunRow) : Type 0 where
  pub stored : In run db.runs
  pub named : run.id ≡ run_id
  pub start :
      is_terminal run.state ≡ false
      → (run.state ≡ uncertain) ⊎ (goes_on run.state args.action ≡ true)

pub control_begin-Begun :
    (owner run_id : String) (args : ControlArgs) (db : PoolDb)
    → Ensures (Begun run_id args db) (control_begin owner run_id args db)
unfolding control_begin owned_run get_run
control_begin-Begun owner run_id args db =
    Ensures-guard (not args.completion_confirmed || args.is_managed) _ (λ _.
      Ensures-guard (not args.has_prepared_receipt || args.is_managed && args.action == activate) _
        (λ _.
          Ensures-guard (not args.preflight_new || args.is_managed && args.action == poll) _ (λ _.
            Ensures-bind (owned_run run_id owner db) (λ run found.
              Ensures-bind (owned_binding run.binding_id owner db) (λ binding _.
                Ensures-bind (get_runtime binding.runtime_id db) (λ _ _.
                  Ensures-guard
                    (args.is_managed
                      || args.action == poll
                      || not (any_of (λ j. j.id == run_id) db.jobs))
                    _
                    (λ _.
                      Ensures-guard
                        (is_terminal run.state
                          || not (run.state == pending)
                          || args.action == poll
                          || args.action == cancel)
                        _
                        (λ fits.
                          let (i, named) = (owned_run-In run_id owner db).at run found in
                          Ensures-ok run (record {
                            stored = i;
                            named = named;
                            start = λ live. begun-goes run.state args.action fits live;
                          })))))))))

-- What a reconciliation ends: a run that is not over, as the table has it.
pub reconcile_begin-In :
    (run_id : String) (r : Reconciliation) (db : PoolDb)
    → Ensures
        (λ (x : RunRow × List JobRow).
          In x.0 db.runs × (x.0.id ≡ run_id) × (is_terminal x.0.state ≡ false))
        (reconcile_begin run_id r db)
unfolding reconcile_begin get_run
reconcile_begin-In run_id r db = Ensures-bind (checked_reconciliation r) (λ _ _.
    Ensures-bind (get_run run_id db) (λ run found.
      Ensures-bind (owned_binding run.binding_id run.owner db) (λ binding _.
        Ensures-bind (get_runtime binding.runtime_id db) (λ _ _.
          Ensures-guard (not (is_terminal run.state)) _ (λ live.
            let jobs = filter (λ j. j.id == run_id && not (is_done j.state)) db.jobs in
            Ensures-guard
              (run.state == uncertain || not (r.evidence == "") && any_of has_vanished jobs) _
              (λ _.
                let (i, named) =
                  get_row-In (λ (x : RunRow). x.id) run_id db.runs (require-ok _ _ found) in
                Ensures-ok (run, jobs) (i, named, ground arith)))))))

pub put_jobs-tables :
    (jobs : List JobRow) (db : PoolDb)
    → ((put_jobs jobs db).runtimes ≡ db.runtimes)
      × ((put_jobs jobs db).bindings ≡ db.bindings)
      × ((put_jobs jobs db).runs ≡ db.runs)
unfolding put_jobs put_job
put_jobs-tables [] db = (refl, refl, refl)
put_jobs-tables (j ∷ rest) db = put_jobs-tables rest (put_job j db)

ended-Kept :
    (run : RunRow) (text : String)
    → Kept run (record run { state = at cancelled; error = some text })
ended-Kept run text = record {
  same_id = refl;
  same_owner = refl;
  same_binding = refl;
  same_intent = refl;
  same_task = refl;
  same_deadline = refl;
  same_epoch = λ _. refl;
  ended = λ _. refl;
  shown = record { bare = λ live. absurd (ground arith); listed = λ live. absurd (ground arith) };
}

pub reconcile_commit-PoolInv :
    (r : Reconciliation) (text : String) (run : RunRow) (jobs : List JobRow) (now : ℕ) (db : PoolDb)
    → PoolInv db
    → In run db.runs
    → PoolInv (reconcile_commit r text run jobs now db).1
unfolding reconcile_commit record_event
reconcile_commit-PoolInv r text run jobs now db h i =
    let ended : RunRow = record run { state = at cancelled; error = some text } in
    let kept = rewrite-PoolInv run ended db h i (ended-Kept run text) in
    let (a, b, c) = put_jobs-tables (end_jobs text jobs) (put_run ended db) in
    PoolInv-tables _ kept a b c
