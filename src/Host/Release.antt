-- ===== src/Host/Release.antt =====
-- `release` and `cancel` of vaws_coordinator/host/vaws_npu_coordination.py.
use vaws_coordinator.Prelude.{
  ℕ, String, Bool, true, false, Option, none, some, List, [], ◌&&◌, ◌||◌, not, string_eq, nat_eq,
  if◌then◌else◌, filter, sort, contains,
}
use vaws_coordinator.Host.State.{
  orphaned_busy, released, cancelled, is_finished, state_eq, Task, Db, release_deferred,
  task_released, task_cancelled, Observation, Listening,
}
use vaws_coordinator.Host.Result.{Result, ok, ◌>>=◌, ◌>>◌}
use vaws_coordinator.Host.Table.{
  transaction, validated, with_row, add_event, task_row, update_task, check_token, busy_set,
  visible_set, load_devices,
}
use vaws_coordinator.Host.Ids.{require_safe_id}
use vaws_coordinator.Host.Guard.{
  Procfs, process_guard_busy, unguarded_cpu_process, unguarded_shared_process,
  managed_shared_completion,
}
use vaws_coordinator.Host.Housekeep.{is_empty, hardware_unclear}
use vaws_coordinator.Host.Ports.{service_ports_busy, clear_service_ports}

pub data ReleaseReply : Type 0 where
  deferred : List ℕ → List ℕ → Task → ReleaseReply
  done : Task → ReleaseReply

-- (set() if shared else devices & busy) | (devices - visible), or all devices if unobserved
unfoldable pub release_conflicts : Option (List ℕ) → Option (List ℕ) → Task → List ℕ
unfolding sort
release_conflicts none visible row = sort (load_devices row.granted_devices)
release_conflicts (some busy) none row = sort (load_devices row.granted_devices)
release_conflicts (some busy) (some visible) row = sort (
    filter (λ d. not row.allow_external_busy && contains d busy || not (contains d visible))
      (load_devices row.granted_devices))

abbrev pub is_unknown : Option (List ℕ) → Option (List ℕ) → Bool
is_unknown (some busy) (some visible) = false
is_unknown _ _ = true

module _ (proc : Procfs) (observed : Option Observation) where
  -- Why a release is deferred.
  unfoldable pub release_blocked : Bool → Task → List ℕ → List ℕ → Bool
  unfolding busy_set visible_set unguarded_cpu_process unguarded_shared_process
      managed_shared_completion process_guard_busy
  release_blocked completion_confirmed row conflicts busy_ports =
      let unclear = is_unknown (busy_set observed) (visible_set observed) in
      not (is_empty (load_devices row.granted_devices))
        && not (managed_shared_completion row completion_confirmed)
        && (unclear || not (is_empty conflicts))
      || not (is_empty busy_ports)
      || unguarded_cpu_process row
      || unguarded_shared_process row
      || process_guard_busy proc row.process_guard completion_confirmed

  -- Why a cancellation leaves the task orphaned.
  unfoldable pub cancel_blocked : Task → List ℕ → Bool
  unfolding busy_set visible_set hardware_unclear unguarded_cpu_process unguarded_shared_process
      process_guard_busy
  cancel_blocked row busy_ports =
      not (is_empty (load_devices row.granted_devices))
        && hardware_unclear (busy_set observed) (visible_set observed) row
      || not (is_empty busy_ports)
      || unguarded_cpu_process row
      || unguarded_shared_process row
      || process_guard_busy proc row.process_guard false

unfoldable pub deferred_row : ℕ → Bool → Task → Task
deferred_row now cpu_unguarded t = record t {
  state = orphaned_busy;
  updated_at = now;
  message = some (
      if cpu_unguarded
      then "CPU task has no process guard; process completion is unknown"
      else "release requested but processes or hardware remained busy or unknown");
}

unfoldable pub released_row : ℕ → Bool → Task → Task
released_row now shared t = record t {
  state = released;
  process_guard = none;
  updated_at = now;
  message = some (
      if shared
      then "owned process and ports are clear; shared lease released"
      else "requested resources are free; cooperative lease released");
}

unfoldable pub defer_release : ℕ → Task → List ℕ → List ℕ → Db → Result (ReleaseReply × Db)
unfolding update_task add_event unguarded_cpu_process
defer_release now row conflicts busy_ports db =
    let db' =
      add_event now (release_deferred conflicts busy_ports) (some row.task_id)
        (update_task row.task_id (deferred_row now (unguarded_cpu_process row)) db) in
    with_row row.task_id db' (deferred conflicts busy_ports)

unfoldable pub complete_release : ℕ → Task → Db → Result (ReleaseReply × Db)
unfolding clear_service_ports update_task add_event
complete_release now row db =
    let db' = add_event now task_released (some row.task_id) (
      update_task row.task_id (released_row now row.allow_external_busy)
        (clear_service_ports row.task_id db)) in
    with_row row.task_id db' done

-- The decision, with the ports of the task that are live or unknown.
unfoldable pub settle_release :
    ℕ → Procfs → Option Observation → Bool → List ℕ → Task → Db → Result (ReleaseReply × Db)
unfolding release_blocked defer_release complete_release release_conflicts
settle_release now proc observed completion_confirmed busy_ports row db =
    let conflicts =
      if managed_shared_completion row completion_confirmed
      then []
      else release_conflicts (busy_set observed) (visible_set observed) row in
    if release_blocked proc observed completion_confirmed row conflicts busy_ports
    then defer_release now row conflicts busy_ports db
    else complete_release now row db

unfoldable pub release_body :
    ℕ
    → Procfs
    → String
    → ℕ
    → Option Observation
    → Bool
    → Option Listening
    → Db
    → Result (ReleaseReply × Db)
unfolding task_row check_token service_ports_busy settle_release
release_body now proc id token observed completion_confirmed listening db = do
  row ← task_row id db
  check_token row token
  settle_release now proc observed completion_confirmed (service_ports_busy db id listening) row db

unfoldable pub release :
    Option String
    → ℕ
    → Procfs
    → String
    → ℕ
    → Option Observation
    → Bool
    → Option Listening
    → Db
    → Result ReleaseReply × Db
unfolding require_safe_id transaction release_body
release epoch now proc id token observed completion_confirmed listening db =
    validated (require_safe_id id)
      (λ task_id.
        transaction epoch
          (release_body now proc task_id token observed completion_confirmed listening))
      db

unfoldable pub cancel_row : ℕ → Bool → Task → Task
cancel_row now blocked t = record t {
  state = if blocked then orphaned_busy else cancelled;
  process_guard = if blocked then t.process_guard else none;
  updated_at = now;
  message = some "cancel requested";
}

unfoldable pub settle_cancel : ℕ → Task → Bool → Db → Result (Task × Db)
unfolding clear_service_ports update_task add_event
settle_cancel now row blocked db =
    let cleared = if blocked then db else clear_service_ports row.task_id db in
    let next_state = if blocked then orphaned_busy else cancelled in
    let db' =
      add_event now (task_cancelled next_state) (some row.task_id)
        (update_task row.task_id (cancel_row now blocked) cleared) in
    with_row row.task_id db' (λ row'. row')

unfoldable pub cancel_body :
    ℕ → Procfs → String → Option Observation → Option Listening → Db → Result (Task × Db)
unfolding task_row cancel_blocked service_ports_busy settle_cancel
cancel_body now proc id observed listening db = do
  row ← task_row id db
  if is_finished row.state
      then ok (row, db)
      else settle_cancel now row
          (cancel_blocked proc observed row (service_ports_busy db id listening)) db

unfoldable pub cancel :
    Option String
    → ℕ
    → Procfs
    → String
    → Option Observation
    → Option Listening
    → Db
    → Result Task × Db
unfolding require_safe_id transaction cancel_body
cancel epoch now proc id observed listening db =
    validated (require_safe_id id)
      (λ task_id. transaction epoch (cancel_body now proc task_id observed listening)) db
