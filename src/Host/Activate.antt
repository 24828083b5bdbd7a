-- ===== src/Host/Activate.antt =====
-- `activate` and `heartbeat` of vaws_coordinator/host/vaws_npu_coordination.py.
-- `prepared_supervisor_host_pid` reads docker and /proc: its answer is an argument.
use vaws_coordinator.Prelude.{
  ℕ, ◌+◌, String, Bool, true, false, Option, none, some, ◌&&◌, ◌||◌, not, leb, ◌==◌, string_eq,
  nat_eq, if◌then◌else◌, is_some,
}
use vaws_coordinator.Host.State.{
  starting, active, orphaned_busy, state_eq, Guard, Task, Db, task_activated,
}
use vaws_coordinator.Host.Result.{
  Result, ok, err, invalid_ttl, invalid_guard, invalid_pid, wrong_state, supervisor_absent,
  guard_required, retained_guard_required, deadline_elapsed, guard, ◌>>=◌, ◌>>◌,
}
use vaws_coordinator.Host.Table.{
  transaction, validated, with_row, add_event, task_row, update_task, check_token,
}
use vaws_coordinator.Host.Ids.{require_safe_id, checked_ttl}
use vaws_coordinator.Host.Guard.{Procfs, is_marker, process_guard_busy}
use vaws_coordinator.Host.Housekeep.{elapsed}

-- The process that is activated: a PID of the request, or what the lookup of a prepared
-- supervisor gave (`none`: it raised).
pub data Supervisor : Type 0 where
  plain : Option ℕ → Supervisor
  prepared : Option ℕ → Supervisor

abbrev guard_is_valid : Option Guard → Bool
guard_is_valid none = true
guard_is_valid (some g) = is_marker g.marker

-- The PID to record. A managed guard without a prepared supervisor needs a live process family.
unfoldable pub supervisor_pid : Procfs → Option Guard → Supervisor → Result (Option ℕ)
unfolding process_guard_busy
supervisor_pid proc process_guard (prepared none) = err supervisor_absent
supervisor_pid proc process_guard (prepared (some pid)) = ok (some pid)
supervisor_pid proc process_guard (plain pid) =
    if is_some process_guard && not (process_guard_busy proc process_guard true)
    then err supervisor_absent
    else ok pid

abbrev pub positive_pid : Option ℕ → Result ℕ
positive_pid none = err invalid_pid
positive_pid (some pid) = if leb 1 pid then ok pid else err invalid_pid

abbrev pub retains : Option Guard → Bool
retains none = false
retains (some g) = g.retain_until_release

unfoldable pub active_row : ℕ → ℕ → ℕ → Option Guard → Task → Task
active_row now pid ttl process_guard t = record t {
  state = active;
  pid = some pid;
  started_at = some now;
  expected_end = some (now + t.estimated_duration_seconds);
  heartbeat_at = some now;
  heartbeat_deadline = some (now + ttl);
  process_guard = process_guard;
  activation_deadline = none;
  updated_at = now;
  message = some "task reported active";
}

unfoldable pub activate_body : ℕ → String → ℕ → ℕ → Option Guard → ℕ → Db → Result (Task × Db)
unfolding task_row check_token update_task add_event
activate_body now id token pid process_guard ttl db = do
  row ← task_row id db
  check_token row token
  guard (row.state == starting) (wrong_state id row.state)
  guard (not (row.requested_count == 0) || is_some process_guard) guard_required
  guard (not row.allow_external_busy || retains process_guard) retained_guard_required
  guard (not (elapsed row.activation_deadline now)) deadline_elapsed
  let db' =
      add_event now (task_activated pid) (some id)
        (update_task id (active_row now pid ttl process_guard) db)
  with_row id db' (λ row'. row')

unfoldable pub checked_activation :
    Procfs → String → Option Guard → Supervisor → ℕ → Result (String × ℕ)
unfolding require_safe_id is_marker supervisor_pid
checked_activation proc id process_guard supervisor ttl = do
  task_id ← require_safe_id id
  guard (leb 1 ttl) invalid_ttl
  guard (guard_is_valid process_guard) invalid_guard
  found ← supervisor_pid proc process_guard supervisor
  pid ← positive_pid found
  ok (task_id, pid)

unfoldable pub activate :
    Option String → ℕ → Procfs → String → ℕ → Option Guard → Supervisor → ℕ → Db → Result Task × Db
unfolding checked_activation transaction activate_body
activate epoch now proc id token process_guard supervisor ttl db =
    validated (checked_activation proc id process_guard supervisor ttl)
      (λ (task_id, pid). transaction epoch (activate_body now task_id token pid process_guard ttl))
      db

unfoldable pub heartbeat_row : ℕ → ℕ → Task → Task
heartbeat_row now ttl t = record t {
  state = active;
  heartbeat_at = some now;
  heartbeat_deadline = some (now + ttl);
  updated_at = now;
  message = some "heartbeat received";
}

unfoldable pub heartbeat_body : ℕ → String → ℕ → ℕ → Db → Result (Task × Db)
unfolding task_row check_token update_task
heartbeat_body now id token ttl db = do
  row ← task_row id db
  check_token row token
  guard (row.state == active || row.state == orphaned_busy) (wrong_state id row.state)
  let db' = update_task id (heartbeat_row now ttl) db
  with_row id db' (λ row'. row')

unfoldable pub heartbeat : Option String → ℕ → String → ℕ → ℕ → Db → Result Task × Db
unfolding checked_ttl transaction heartbeat_body
heartbeat epoch now id token ttl db =
    validated (checked_ttl id ttl)
      (λ task_id. transaction epoch (heartbeat_body now task_id token ttl)) db
