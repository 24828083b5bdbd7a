-- ===== src/Host/Preflight.antt =====
-- `preflight` of vaws_coordinator/host/vaws_npu_coordination.py.
use vaws_coordinator.Prelude.{
  ℕ, ◌+◌, String, true, Option, none, some, List, [], ◌∷◌, ◌||◌, not, ltb, ◌==◌, string_eq, nat_eq,
  if◌then◌else◌, filter, minus, sort, contains, value_or,
}
use vaws_coordinator.Host.State.{
  TaskState, queued, granted, starting, expired, state_eq, Task, Db, preflight_conflict,
  preflight_passed, Observation, Change,
}
use vaws_coordinator.Host.Result.{Result, ok, wrong_state, guard, ◌>>=◌, ◌>>◌}
use vaws_coordinator.Host.Table.{
  transaction, validated, with_row, add_event, task_row, update_task, check_token, busy_set,
  observed_devices, load_devices,
}
use vaws_coordinator.Host.Ids.{checked_ttl}
use vaws_coordinator.Host.Guard.{Procfs}
use vaws_coordinator.Host.Housekeep.{housekeep}
use vaws_coordinator.Host.Devices.{available_devices}
use vaws_coordinator.Host.Acquire.{probe_unusable}

pub data PreflightReply : Type 0 where
  probe_failed : PreflightReply
  conflict : TaskState → List ℕ → Task → List Change → PreflightReply
  started : Task → List ℕ → Option ℕ → List Change → PreflightReply

-- (devices & busy) | (devices - visible), without repetitions
abbrev pub busy_or_hidden : List ℕ → List ℕ → List ℕ → List ℕ
busy_or_hidden devices busy visible =
    filter (λ d. contains d busy || not (contains d visible)) devices

unfoldable pub preflight_conflicts : ℕ → Option Observation → Task → Db → List ℕ
unfolding busy_set available_devices sort
preflight_conflicts now observed row db =
    let devices = load_devices row.granted_devices in
    sort (
      if row.allow_external_busy
      then minus devices (
          available_devices db observed (some row.task_id) now
            (now + row.estimated_duration_seconds) true)
      else busy_or_hidden devices (value_or (busy_set observed) []) (observed_devices observed))

abbrev conflict_message : String
conflict_message = "preflight found externally busy devices"

unfoldable pub conflict_row : ℕ → TaskState → Task → Task
conflict_row now next_state t = record t {
  state = next_state;
  granted_devices = none;
  activation_deadline = none;
  fence_token = none;
  updated_at = now;
  message = some conflict_message;
}

unfoldable pub start_row : ℕ → ℕ → Task → Task
start_row now deadline t = record t {
  state = starting;
  activation_deadline = some deadline;
  updated_at = now;
  message = some "preflight passed; launch before activation deadline";
}

-- With conflicts the grant is taken back; without, the launch may start.
unfoldable pub settle_preflight :
    ℕ → ℕ → Task → List Change → List ℕ → Db → Result (PreflightReply × Db)
unfolding update_task add_event
settle_preflight now ttl row changes [] db =
    let devices = load_devices row.granted_devices in
    let db' =
      add_event now (preflight_passed devices) (some row.task_id)
        (update_task row.task_id (start_row now (now + ttl)) db) in
    with_row row.task_id db' (λ row'. started row' devices row'.granted_service_port changes)
settle_preflight now ttl row changes (c ∷ cs) db =
    let next_state = if ltb now row.latest_start then queued else expired in
    let db' =
      add_event now (preflight_conflict (c ∷ cs) next_state) (some row.task_id)
        (update_task row.task_id (conflict_row now next_state) db) in
    with_row row.task_id db' (λ row'. conflict next_state (c ∷ cs) row' changes)

unfoldable pub preflight_body :
    ℕ → Procfs → String → ℕ → Option Observation → ℕ → Db → Result (PreflightReply × Db)
unfolding task_row probe_unusable housekeep check_token preflight_conflicts settle_preflight
preflight_body now proc id token observed ttl db = do
  requested_row ← task_row id db
  if probe_unusable requested_row observed then ok (probe_failed, db) else do
    let (db', changes) = housekeep now proc observed db
    row ← task_row id db'
    check_token row token
    guard (row.state == granted) (wrong_state id row.state)
    settle_preflight now ttl row changes (preflight_conflicts now observed row db') db'

unfoldable pub preflight :
    Option String
    → ℕ
    → Procfs
    → String
    → ℕ
    → Option Observation
    → ℕ
    → Db
    → Result PreflightReply × Db
unfolding checked_ttl transaction preflight_body
preflight epoch now proc id token observed ttl db =
    validated (checked_ttl id ttl)
      (λ task_id. transaction epoch (preflight_body now proc task_id token observed ttl)) db
