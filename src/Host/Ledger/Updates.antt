-- ===== src/Host/Ledger/Updates.antt =====
-- The updates of `preflight`, `activate`, `heartbeat`, `release` and `cancel` keep the ledger.
use vaws_coordinator.Prelude.{
  ℕ, ◌+◌, String, true, false, ◌≡◌, refl, sym, subst, inl, inr, Option, some, List, [], ◌∷◌, arith,
  ◌==◌, nat_eq, string_eq, Option-cases, if◌then◌else◌, find, ltb, not, ◌||◌, is_some,
}
use vaws_coordinator.Host.State.{
  TaskState, queued, granted, starting, active, orphaned_busy, expired, is_reserving, state_eq,
  Guard, Task, Db, Observation, Change,
}
use vaws_coordinator.Host.Result.{
  ok, Ensures, Ensures-ok, Ensures-if, Ensures-bind, Ensures-guard, guard_required,
  retained_guard_required, deadline_elapsed,
}
use vaws_coordinator.Host.Table.{update_rows, task_row, update_task, check_token, token_matches}
use vaws_coordinator.Host.Guard.{Procfs}
use vaws_coordinator.Host.Housekeep.{housekeep, elapsed}
use vaws_coordinator.Host.Acquire.{probe_unusable}
use vaws_coordinator.Host.Preflight.{
  PreflightReply, preflight_conflicts, settle_preflight, preflight_body, conflict_row, start_row,
}
use vaws_coordinator.Host.Activate.{
  active_row, activate_body, heartbeat_row, heartbeat_body, retains,
}
use vaws_coordinator.Host.Ledger.Rows.{
  RowInv, RowStep, RowStep-of_Restates, Restates, Ledger, update-Ledger,
}
use vaws_coordinator.Host.Ledger.Sweeps.{housekeep-Ledger}
use vaws_coordinator.Host.Ledger.Acquire.{Sound, KeepsSound, with_row-Sound, task_row-In}

pub found_row :
    (id : String) (db : Db) (row : Task)
    → task_row id db ≡ ok row
    → find (λ (t : Task). t.task_id == id) db.tasks ≡ some row
unfolding task_row
found_row id db row e = elim (Option-cases (find (λ (t : Task). t.task_id == id) db.tasks)) [
  | inl missing ↦ absurd (ground arith)
  | inr (t, found) ↦ ground arith
]

module _ (id : String) (db : Db) (row : Task) (h : Sound db) (e : task_row id db ≡ ok row) where
  pub read-RowInv : RowInv db.next_fence row
  read-RowInv = h.rows row (task_row-In id db row e).0

  -- The rows after an update of the row that was read.
  pub updated-Ledger :
      (f : Task → Task)
      → RowStep db.next_fence row (f row)
      → Ledger db.next_fence (update_rows id f db.tasks)
  updated-Ledger f step = update-Ledger h id f row (found_row id db row e) step

conflict_row-RowStep :
    (fence now : ℕ) (next : TaskState) (row : Task)
    → is_reserving next ≡ false
    → row.state ≡ granted
    → RowInv fence row
    → RowStep fence row (conflict_row now next row)
unfolding conflict_row
conflict_row-RowStep fence now next row idle was h = record {
  same_id = refl;
  shrinks = λ d m. ground arith;
  token = λ n e. cc;
  inv = record {
    bare = λ q. refl;
    untoken = λ q. refl;
    issued = λ n e. cc;
    unguarded = λ q. h.unguarded (ground arith);
  };
}

-- A row that was read by some id is read by its own.
pub task_row_self :
    (id : String) (db : Db) (row : Task)
    → task_row id db ≡ ok row
    → task_row row.task_id db ≡ ok row
task_row_self id db row e = subst (λ k. task_row k db ≡ ok row) (sym (task_row-In id db row e).1) e

settle_preflight-Sound :
    (now ttl : ℕ) (row : Task) (changes : List Change) (conflicts : List ℕ) (db : Db)
    → Sound db
    → task_row row.task_id db ≡ ok row
    → row.state ≡ granted
    → Ensures (KeepsSound PreflightReply) (settle_preflight now ttl row changes conflicts db)
unfolding settle_preflight start_row
settle_preflight-Sound now ttl row changes [] db h e was =
    let inv = read-RowInv row.task_id db row h e in
    with_row-Sound row.task_id _ _ (
      updated-Ledger row.task_id db row h e (start_row now (now + ttl))
        (RowStep-of_Restates inv (ground arith)))
settle_preflight-Sound now ttl row changes (c ∷ cs) db h e was =
    let next = if ltb now row.latest_start then queued else expired in
    with_row-Sound row.task_id _ _ (
      updated-Ledger row.task_id db row h e (conflict_row now next) (
        conflict_row-RowStep db.next_fence now next row (ground arith) was
          (read-RowInv row.task_id db row h e)))

-- `preflight` keeps the ledger.
pub preflight_body-Sound :
    (now : ℕ) (proc : Procfs) (id : String) (token : ℕ) (observed : Option Observation) (ttl : ℕ)
    (db : Db)
    → Sound db
    → Ensures (KeepsSound PreflightReply) (preflight_body now proc id token observed ttl db)
unfolding preflight_body check_token
preflight_body-Sound now proc id token observed ttl db h =
    Ensures-bind (task_row id db) λ requested_row _.
      Ensures-if (probe_unusable requested_row observed) (λ _. Ensures-ok _ h)
        λ _.
          let (db', changes) = housekeep now proc observed db in
          Ensures-bind (task_row id db') λ row e.
            Ensures-guard (token_matches row.fence_token token) _ λ _.
              Ensures-guard (row.state == granted) _ λ is_granted.
                settle_preflight-Sound now ttl row changes
                  (preflight_conflicts now observed row db') db'
                  (housekeep-Ledger now proc observed db h) (task_row_self id db' row e)
                  (ground arith)

active_row-Restates :
    (now pid ttl : ℕ) (g : Option Guard) (row : Task)
    → row.state ≡ starting
    → Restates row (active_row now pid ttl g row)
unfolding active_row
active_row-Restates now pid ttl g row was = ground arith

heartbeat_row-Restates :
    (now ttl : ℕ) (row : Task)
    → (row.state == active || row.state == orphaned_busy) ≡ true
    → Restates row (heartbeat_row now ttl row)
unfolding heartbeat_row
heartbeat_row-Restates now ttl row was = ground arith

-- `activate` keeps the ledger.
pub activate_body-Sound :
    (now : ℕ) (id : String) (token pid : ℕ) (g : Option Guard) (ttl : ℕ) (db : Db)
    → Sound db
    → Ensures (KeepsSound Task) (activate_body now id token pid g ttl db)
unfolding activate_body check_token
activate_body-Sound now id token pid g ttl db h = Ensures-bind (task_row id db) λ row e.
    Ensures-guard (token_matches row.fence_token token) _ λ _.
      Ensures-guard (row.state == starting) _ λ is_starting.
        Ensures-guard (not (row.requested_count == 0) || is_some g) guard_required λ _.
          Ensures-guard (not row.allow_external_busy || retains g) retained_guard_required λ _.
            Ensures-guard (not (elapsed row.activation_deadline now)) deadline_elapsed λ _.
              with_row-Sound id _ _ (
                updated-Ledger id db row h e (active_row now pid ttl g) (
                  RowStep-of_Restates (read-RowInv id db row h e)
                    (active_row-Restates now pid ttl g row (ground arith))))

-- `heartbeat` keeps the ledger.
pub heartbeat_body-Sound :
    (now : ℕ) (id : String) (token ttl : ℕ) (db : Db)
    → Sound db
    → Ensures (KeepsSound Task) (heartbeat_body now id token ttl db)
unfolding heartbeat_body check_token update_task
heartbeat_body-Sound now id token ttl db h = Ensures-bind (task_row id db) λ row e.
    Ensures-guard (token_matches row.fence_token token) _ λ _.
      Ensures-guard (row.state == active || row.state == orphaned_busy) _ λ live.
        with_row-Sound id _ _ (
          updated-Ledger id db row h e (heartbeat_row now ttl) (
            RowStep-of_Restates (read-RowInv id db row h e)
              (heartbeat_row-Restates now ttl row live)))
