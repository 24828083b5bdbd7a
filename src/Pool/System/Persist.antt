-- ===== src/Pool/System/Persist.antt =====
-- What becomes of a run while the pool's callers go on (vaws_coordinator/ready_runtime.py).
use vaws_coordinator.Prelude.{
  ℕ, String, true, some, ◌≡◌, refl, sym, ◌∙◌, ap, subst, inl, inr, List, ◌∷◌, ◌==◌, ==→≡, string_eq,
  ne_of_test, Bool-cases, In, In-put_row_self, is_some,
}
use vaws_coordinator.Host.State.{cancelled}
use vaws_coordinator.Pool.State.{RunRow, JobRow, at, is_terminal, PoolDb}
use vaws_coordinator.Pool.Table.{put_run, put_job, record_event}
use vaws_coordinator.Pool.Calls.{Effect, asked, wrote, noted}
use vaws_coordinator.Pool.Runs.{apply_effect}
use vaws_coordinator.Pool.Reconcile.{Reconciliation, reconcile_commit, end_jobs}
use vaws_coordinator.Pool.Lawful.{Kept, Lawful}
use vaws_coordinator.Pool.Exclusive.Runs.{reconcile_begin-In, put_jobs-tables}
use vaws_coordinator.Pool.System.{
  System, with_db, with_flight, Step, opened, registered, drained, checked_out, returned, refreshed,
  requested, begun, happened, ended, stopped, job_written, reconciled, Reachable, next,
}
use vaws_coordinator.Pool.System.Invariant.{
  SystemInv, register_commit-runs, drain-runs, checkout_commit-runs, return_runtime-runs,
  refresh_commit-runs, session_commit-tables, request_commit-keeps, reconciled-keeps,
}
use vaws_coordinator.Pool.System.Safety.{effect-Kept, effect-others, Reachable-SystemInv}

-- A later row of a run: its request and its task id are as they were, its epoch is once it is
-- known, and its end is final.
pub record Continues (r q : RunRow) : Type 0 where
  pub same_id : q.id ≡ r.id
  pub same_owner : q.owner ≡ r.owner
  pub same_binding : q.binding_id ≡ r.binding_id
  pub same_intent : q.intent ≡ r.intent
  pub same_task : q.task_id ≡ r.task_id
  pub same_deadline : q.deadline ≡ r.deadline
  pub same_epoch : is_some r.epoch ≡ true → q.epoch ≡ r.epoch
  pub final : is_terminal r.state ≡ true → is_terminal q.state ≡ true

Continues-refl : (r : RunRow) → Continues r r
Continues-refl r = record {
  same_id = refl;
  same_owner = refl;
  same_binding = refl;
  same_intent = refl;
  same_task = refl;
  same_deadline = refl;
  same_epoch = λ _. refl;
  final = λ over. over;
}

Continues-trans : (r q p : RunRow) → Continues r q → Continues q p → Continues r p
Continues-trans r q p a b = record {
  same_id = b.same_id ∙ a.same_id;
  same_owner = b.same_owner ∙ a.same_owner;
  same_binding = b.same_binding ∙ a.same_binding;
  same_intent = b.same_intent ∙ a.same_intent;
  same_task = b.same_task ∙ a.same_task;
  same_deadline = b.same_deadline ∙ a.same_deadline;
  same_epoch = λ known.
      b.same_epoch (subst (λ o. is_some o ≡ true) (sym (a.same_epoch known)) known)
      ∙ a.same_epoch known;
  final = λ over. b.final (a.final over);
}

Kept-Continues : (r q : RunRow) → Kept r q → Continues r q
Kept-Continues r q k = record {
  same_id = k.same_id;
  same_owner = k.same_owner;
  same_binding = k.same_binding;
  same_intent = k.same_intent;
  same_task = k.same_task;
  same_deadline = k.same_deadline;
  same_epoch = k.same_epoch;
  final = k.ended;
}

-- A table still has the run.
abbrev pub Persists : RunRow → List RunRow → Type 0
Persists r rows = (q : RunRow) × In q rows × Continues r q

In-Persists : (r : RunRow) (rows : List RunRow) → In r rows → Persists r rows
In-Persists r rows i = (r, i, Continues-refl r)

same-Persists :
    (r : RunRow) (rows rows' : List RunRow) → In r rows → rows' ≡ rows → Persists r rows'
same-Persists r rows rows' i same = (r, rw same i, Continues-refl r)

effect-Persists :
    (now : ℕ) (owner : String) (db : PoolDb) (run : RunRow) (effect : Effect)
    → In run db.runs
    → ((row : RunRow) → effect ≡ wrote row → Kept run row)
    → Persists run (apply_effect now owner effect db).runs
unfolding apply_effect put_run record_event
effect-Persists now owner db run (asked call) i keeps = In-Persists run db.runs i
effect-Persists now owner db run (wrote row) i keeps =
    (row, In-put_row_self (λ x. x.id) row db.runs, Kept-Continues run row (keeps row refl))
effect-Persists now owner db run (noted event) i keeps = (run, i, Continues-refl run)

happened-Persists :
    (s : System) (run : RunRow) (effect : Effect) (rest : List Effect) (owner : String) (now : ℕ)
    (r : RunRow)
    → SystemInv s
    → In run s.db.runs
    → Lawful run (effect ∷ rest)
    → In r s.db.runs
    → Persists r (apply_effect now owner effect s.db).runs
happened-Persists s run effect rest owner now r h j l i = elim (Bool-cases (r.id == run.id)) [
  | inl e ↦
      let same = h.pool.runs_unique.same r run i j (==→≡ r.id run.id e) in
      subst (λ x. Persists x (apply_effect now owner effect s.db).runs) (sym same)
        (effect-Persists now owner s.db run effect j (effect-Kept run effect rest l))
  | inr e ↦ (
    r,
    effect-others now owner s.db run effect rest l r i (ne_of_test r.id run.id e),
    Continues-refl r,
  )
]

cancelled-Persists :
    (r : Reconciliation) (text : String) (run : RunRow) (jobs : List JobRow) (now : ℕ) (db : PoolDb)
    → Persists run (reconcile_commit r text run jobs now db).1.runs
unfolding reconcile_commit record_event put_run
cancelled-Persists r text run jobs now db =
    let row : RunRow = record run { state = at cancelled; error = some text } in
    let (_, _, same) = put_jobs-tables (end_jobs text jobs) (put_run row db) in
    (
      row,
      rw same (In-put_row_self (λ x. x.id) row db.runs),
      record {
        same_id = refl;
        same_owner = refl;
        same_binding = refl;
        same_intent = refl;
        same_task = refl;
        same_deadline = refl;
        same_epoch = λ _. refl;
        final = λ _. refl;
      },
    )

reconciled-Persists :
    (s : System) (k : Reconciliation) (text : String) (run : RunRow) (jobs : List JobRow) (now : ℕ)
    (r : RunRow)
    → SystemInv s
    → In run s.db.runs
    → In r s.db.runs
    → Persists r (reconcile_commit k text run jobs now s.db).1.runs
reconciled-Persists s k text run jobs now r h j i = elim (Bool-cases (r.id == run.id)) [
  | inl e ↦
      let same = h.pool.runs_unique.same r run i j (==→≡ r.id run.id e) in
      subst (λ x. Persists x (reconcile_commit k text run jobs now s.db).1.runs) (sym same)
        (cancelled-Persists k text run jobs now s.db)
  | inr e ↦ (
    r,
    reconciled-keeps k text run jobs now s.db r i (ne_of_test r.id run.id e),
    Continues-refl r,
  )
]

Step-Persists :
    {s t : System} → SystemInv s → Step s t → (r : RunRow) → In r s.db.runs → Persists r t.db.runs
unfolding with_db with_flight put_job
Step-Persists {s} h (opened owner session_id key sources e) r i =
    let (_, _, c) = session_commit-tables owner session_id key sources s.db in
    same-Persists r s.db.runs _ i (ap (λ x. x.1.runs) (sym e) ∙ c)
Step-Persists {s} h (registered c id spec is_prepared observed now e) r i =
    same-Persists r s.db.runs _ i
      ((register_commit-runs c id spec is_prepared observed now s.db).at _ e)
Step-Persists {s} h (drained id e) r i = same-Persists r s.db.runs _ i ((drain-runs id s.db).at _ e)
Step-Persists {s} h (checked_out owner intent key read probed now e) r i =
    same-Persists r s.db.runs _ i
      ((checkout_commit-runs owner intent key read probed now s.db).at _ e)
Step-Persists {s} h (returned owner id now e) r i =
    same-Persists r s.db.runs _ i ((return_runtime-runs owner id now s.db).at _ e)
Step-Persists {s} h (refreshed owner id read observed now e) r i =
    same-Persists r s.db.runs _ i ((refresh_commit-runs owner id read observed now s.db).at _ e)
Step-Persists {s} h (requested owner key binding_id intent task_id now free e) r i =
    In-Persists r _
      ((request_commit-keeps owner key binding_id intent task_id now s.db free).at _ e r i)
Step-Persists {s} h (begun can owner id args answers free e live) r i = In-Persists r s.db.runs i
Step-Persists {s} h (happened {run = run} {effect = effect} {rest = rest} id owner now e) r i =
    let (_, j, l) = h.flying id run (effect ∷ rest) e in
    happened-Persists s run effect rest owner now r h j l i
Step-Persists {s} h (ended id e) r i = In-Persists r s.db.runs i
Step-Persists {s} h stopped r i = In-Persists r s.db.runs i
Step-Persists {s} h (job_written job) r i = (r, i, Continues-refl r)
Step-Persists {s} h (reconciled {run = run} {jobs = jobs} id k text reply now free e confirmed) r
      i =
    let (j, _, _) = (reconcile_begin-In id k s.db).at _ e in
    reconciled-Persists s k text run jobs now r h j i

-- The states that a state comes to.
pub data Later (s : System) : System → Type 0 where
  now_same : Later s s
  one_more : {t u : System} → Later s t → Step t u → Later s u

Later-Reachable : {s t : System} → Reachable s → Later s t → Reachable t
Later-Reachable reached now_same = reached
Later-Reachable reached (one_more l step) = next (Later-Reachable reached l) step

-- A run that the database has is never lost: in every later state, whatever the callers, the host
-- and the reconciliations do and wherever the manager stopped, the database has a row of the run
-- with the same owner, binding, intent, task id and deadline, with the same host epoch once that
-- was known, and over once the run was over.
pub runs_persist :
    (s t : System) → Reachable s → Later s t → (r : RunRow) → In r s.db.runs → Persists r t.db.runs
runs_persist s t reached now_same r i = In-Persists r s.db.runs i
runs_persist s t reached (one_more {t = u} l step) r i =
    let (q, j, a) = runs_persist s u reached l r i in
    let (p, k, b) = Step-Persists (Reachable-SystemInv (Later-Reachable reached l)) step q j in
    (p, k, Continues-trans r q p a b)
