-- ===== src/Host/Housekeep.antt =====
-- `_housekeep` of vaws_coordinator/host/vaws_npu_coordination.py. Each `for row in SELECT` loop is
-- a sweep of the table: a verdict for each row, from the row as the sweep found it.
use vaws_coordinator.Prelude.{
  ℕ, String, Bool, true, false, Option, none, some, List, [], ◌∷◌, ◌++◌, map, ◌&&◌, ◌||◌, not, leb,
  ◌==◌, string_eq, option_eq, nat_eq, if◌then◌else◌, filter, concat_map, subset, meets,
}
use vaws_coordinator.Host.State.{
  queued, granted, starting, active, orphaned_busy, released, expired, state_eq, HoldState, Task,
  Hold, Port, service, kind_eq, Db, Event, EventKind, hold_expired, task_expired_in_queue,
  orphaned_task_released, task_overdue, activation_deadline_elapsed, heartbeat_expired, Observation,
  Change, hold_change, task_change, overdue,
}
use vaws_coordinator.Host.Table.{busy_set, visible_set, load_devices}
use vaws_coordinator.Host.Guard.{
  Procfs, process_guard_busy, unguarded_cpu_process, unguarded_shared_process,
}

-- The updated row, what is reported of it, and the event.
pub record Verdict : Type 0 where
  pub row : Task
  pub change : Change
  pub event : EventKind

abbrev pub Rule : Type 0
Rule = Task → Option Verdict

abbrev pub after : Rule → Task → Task
after rule t = elim (rule t) [ none ↦ t | some v ↦ v.row ]

abbrev pub reported : Rule → Task → List Change
reported rule t = elim (rule t) [ none ↦ [] | some v ↦ v.change ∷ [] ]

abbrev pub logged : ℕ → Rule → Task → List Event
logged now rule t = elim (rule t) [
  | none ↦ []
  | some v ↦ record { at = now; kind = v.event; task_id = some t.task_id } ∷ []
]

unfoldable pub sweep : ℕ → Rule → Db → Db
sweep now rule db = record db {
  tasks = map (after rule) db.tasks;
  events = db.events ++ concat_map (logged now rule) db.tasks;
}

-- `deadline IS NOT NULL AND deadline<=now`
abbrev pub elapsed : Option ℕ → ℕ → Bool
elapsed none now = false
elapsed (some deadline) now = leb deadline now

-- Some granted device is unknown, not visible, or busy though the task does not share it.
unfoldable pub hardware_unclear : Option (List ℕ) → Option (List ℕ) → Task → Bool
hardware_unclear none visible row = true
hardware_unclear (some busy) none row = true
hardware_unclear (some busy) (some visible) row =
    let devices = load_devices row.granted_devices in
    not (subset devices visible) || meets devices busy && not row.allow_external_busy

unfoldable pub expire_queued : ℕ → Rule
expire_queued now row =
    if row.state == queued && leb row.latest_start now
    then some (record {
      row = record row {
        state = expired;
        updated_at = now;
        message = some "latest_start elapsed before grant";
      };
      change = task_change row.task_id queued expired;
      event = task_expired_in_queue;
    })
    else none

module _ (now : ℕ) (proc : Procfs) (busy visible : Option (List ℕ)) where
  unfoldable pub deadline_still_busy : Task → Bool
  unfolding hardware_unclear process_guard_busy
  deadline_still_busy row =
      hardware_unclear busy visible row || process_guard_busy proc row.process_guard false

  unfoldable pub expire_deadline : Rule
  unfolding deadline_still_busy
  expire_deadline row =
      let next_state = if deadline_still_busy row then orphaned_busy else expired in
      if (row.state == granted || row.state == starting) && elapsed row.activation_deadline now
      then some (record {
        row = record row {
          state = next_state;
          updated_at = now;
          message = some (
              if deadline_still_busy row
              then "activation deadline elapsed; occupancy still busy or unknown"
              else "activation deadline elapsed before task became active");
        };
        change = task_change row.task_id row.state next_state;
        event = activation_deadline_elapsed next_state;
      })
      else none

  unfoldable pub heartbeat_still_busy : Task → Bool
  unfolding hardware_unclear unguarded_cpu_process unguarded_shared_process process_guard_busy
  heartbeat_still_busy row =
      hardware_unclear busy visible row
      || unguarded_cpu_process row
      || unguarded_shared_process row
      || process_guard_busy proc row.process_guard false

  unfoldable pub expire_heartbeat : Rule
  unfolding heartbeat_still_busy
  expire_heartbeat row =
      let next_state = if heartbeat_still_busy row then orphaned_busy else released in
      if row.state == active && elapsed row.heartbeat_deadline now
      then some (record {
        row = record row {
          state = next_state;
          process_guard = if heartbeat_still_busy row then row.process_guard else none;
          updated_at = now;
          message = some (
              if unguarded_cpu_process row
              then "CPU task has no process guard; process completion is unknown"
              else if heartbeat_still_busy row
              then "heartbeat expired while hardware remained busy or unknown"
              else "heartbeat expired and hardware was observed free");
        };
        change = task_change row.task_id active next_state;
        event = heartbeat_expired next_state;
      })
      else none

abbrev pub task_service_ports : List Port → String → List Port
task_service_ports ports id = filter (λ p. p.task_id == id && p.kind == service) ports

abbrev pub is_empty {ℓ} : {A : Type ℓ} → List A → Bool
is_empty [] = true
is_empty (x ∷ xs) = false

module _ (now : ℕ) (proc : Procfs) (busy visible : Option (List ℕ)) (ports : List Port) where
  unfoldable pub orphan_clear : Task → Bool
  unfolding heartbeat_still_busy
  orphan_clear row =
      is_empty (task_service_ports ports row.task_id)
      && not (heartbeat_still_busy now proc busy visible row)

  -- With `busy` or `visible` unknown the loop is not entered, and `orphan_clear` is false.
  unfoldable pub release_orphan : Rule
  unfolding orphan_clear
  release_orphan row =
      if row.state == orphaned_busy && orphan_clear row
      then some (record {
        row = record row {
          state = released;
          process_guard = none;
          updated_at = now;
          message = some (
              if row.allow_external_busy
              then "orphaned shared task has no pending owned process"
              else "orphaned task hardware is now free");
        };
        change = task_change row.task_id orphaned_busy released;
        event = orphaned_task_released;
      })
      else none

abbrev overdue_message : String
overdue_message = "estimated duration exceeded; lease remains protected"

unfoldable pub mark_overdue : ℕ → Rule
mark_overdue now row =
    if row.state == active
      && elapsed row.expected_end now
      && not (row.message == some overdue_message)
    then some (record {
      row = record row { updated_at = now; message = some overdue_message };
      change = overdue row.task_id;
      event = task_overdue;
    })
    else none

abbrev pub hold_is_active : HoldState → Bool
hold_is_active HoldState.active = true
hold_is_active _ = false

abbrev pub hold_elapsed : ℕ → Hold → Bool
hold_elapsed now h = hold_is_active h.state && leb h.end_at now

unfoldable pub expire_hold : ℕ → Hold → Hold
expire_hold now h =
    if hold_elapsed now h then record h { state = HoldState.expired; updated_at = now } else h

unfoldable pub expire_holds : ℕ → Db → Db
unfolding expire_hold
expire_holds now db = record db {
  holds = map (expire_hold now) db.holds;
  events =
      db.events
      ++ map (λ h. record { at = now; kind = hold_expired h.hold_id; task_id = none })
          (filter (hold_elapsed now) db.holds);
}

-- The loops over `tasks`, in order, each from the rows that the one before left.
unfoldable pub sweep_all : ℕ → List Rule → Db → Db
unfolding sweep
sweep_all now [] db = db
sweep_all now (rule ∷ rules) db = sweep_all now rules (sweep now rule db)

unfoldable pub sweep_changes : ℕ → List Rule → Db → List Change
unfolding sweep
sweep_changes now [] db = []
sweep_changes now (rule ∷ rules) db =
    concat_map (reported rule) db.tasks ++ sweep_changes now rules (sweep now rule db)

-- The port table does not change under the loops.
unfoldable pub task_rules : ℕ → Procfs → Option Observation → List Port → List Rule
unfolding expire_queued expire_deadline expire_heartbeat release_orphan mark_overdue busy_set
    visible_set
task_rules now proc observed ports =
    let busy = busy_set observed in
    let visible = visible_set observed in
    expire_queued now
    ∷ expire_deadline now proc busy visible
    ∷ expire_heartbeat now proc busy visible
    ∷ release_orphan now proc busy visible ports
    ∷ mark_overdue now
    ∷ []

-- The database and the changes.
unfoldable pub housekeep : ℕ → Procfs → Option Observation → Db → Db × List Change
unfolding expire_holds sweep_all sweep_changes task_rules
housekeep now proc observed db =
    let db₁ = expire_holds now db in
    let rules = task_rules now proc observed db.ports in
    (
      sweep_all now rules db₁,
      map (λ h. hold_change h.hold_id) (filter (hold_elapsed now) db.holds)
          ++ sweep_changes now rules db₁,
    )
