-- ===== src/Host/Probe.antt =====
-- The observation that a request needs: `_confirmed_free_probe`, `admission_probe`,
-- `probe_requirements` and `release_probe` of vaws_coordinator/host/vaws_npu_coordination.py.
-- What a probe gives is an argument: one observation for each time that it may be called.
pub mod Confirmed
use vaws_coordinator.Prelude.{
  ℕ, String, Bool, true, false, Option, none, some, List, [], ◌∷◌, ◌++◌, ◌&&◌, ◌||◌, not, leb, ◌==◌,
  nat_eq, string_eq, if◌then◌else◌, all_of, any_of, filter, contains, intersect, minus, sort,
  length, is_some, take,
}
use vaws_coordinator.Host.State.{
  granted, starting, active, orphaned_busy, state_eq, Task, Db, Observation,
}
use vaws_coordinator.Host.Result.{Result, ok, err, samples_required, busy_missing, ◌>>=◌, ◌>>◌}
use vaws_coordinator.Host.Table.{transaction, task_row, load_devices}
use vaws_coordinator.Host.Ids.{require_safe_id}
use vaws_coordinator.Host.Guard.{managed_shared_completion}
use vaws_coordinator.Host.Housekeep.{elapsed, is_empty, task_service_ports}

-- set(xs)
abbrev pub as_set : List ℕ → List ℕ
as_set [] = []
as_set (d ∷ ds) = let rest = as_set ds in if contains d ds then rest else d ∷ rest

-- The devices that every sample names.
unfoldable pub common_devices : List ℕ → List Observation → List ℕ
common_devices devices [] = devices
common_devices devices (item ∷ rest) = common_devices (intersect devices item.devices) rest

-- The devices that some sample found busy; a null `busy` raises.
unfoldable pub combined_busy : List ℕ → List Observation → Result (List ℕ)
combined_busy devices [] = ok devices
combined_busy devices (item ∷ rest) = elim item.busy [
  | none ↦ err busy_missing
  | some busy ↦ combined_busy (devices ++ minus busy devices) rest
]

abbrev pub is_ok_sample : Observation → Bool
is_ok_sample item = item.is_ok

unfoldable pub last_sample : Observation → List Observation → Observation
last_sample item [] = item
last_sample item (next ∷ rest) = last_sample next rest

-- The samples are those that the loop takes, one for each turn.
unfoldable pub confirmed_free_probe : List Observation → Result Observation
unfolding common_devices combined_busy last_sample sort
confirmed_free_probe [] = err samples_required
confirmed_free_probe (first ∷ rest) =
    if not (all_of is_ok_sample (first ∷ rest))
    then ok (record { is_ok = false; devices = (last_sample first rest).devices; busy = some [] })
    else (do
      busy ← combined_busy [] (first ∷ rest)
      ok (record {
        is_ok = true;
        devices = sort (common_devices (as_set first.devices) (first ∷ rest));
        busy = some busy;
      }))

-- A row whose lease the next housekeeping may end.
abbrev pub is_stale : ℕ → Task → Bool
is_stale now t =
    t.state == orphaned_busy
    || (t.state == granted || t.state == starting) && elapsed t.activation_deadline now
    || t.state == active && elapsed t.heartbeat_deadline now

unfoldable pub needs_reclaim : ℕ → ℕ → Db → Bool
needs_reclaim now device db =
    any_of (λ t. is_stale now t && contains device (load_devices t.granted_devices)) db.tasks

-- The device whose visibility is enough, where there is one.
unfoldable pub shared_device : ℕ → Db → Task → Option ℕ
unfolding needs_reclaim
shared_device now db row = elim (load_devices row.requested_devices) [
  | [] ↦ none
  | d ∷ ds ↦
      if row.allow_external_busy && is_empty ds && not (needs_reclaim now d db)
      then some d
      else none
]

unfoldable pub admission_body : ℕ → String → Db → Result (Option ℕ × Db)
unfolding require_safe_id task_row shared_device
admission_body now id db = do
  task_id ← require_safe_id id
  row ← task_row task_id db
  ok (shared_device now db row, db)

abbrev pub narrow_or_full : Observation → (ℕ → Observation) → Option ℕ → Observation
narrow_or_full probe device_probe none = probe
narrow_or_full probe device_probe (some device) =
    if (device_probe device).is_ok then device_probe device else probe

unfoldable pub admission_probe :
    Option String → ℕ → String → Observation → (ℕ → Observation) → Db → Result Observation
unfolding transaction admission_body
admission_probe epoch now id probe device_probe db = do
  device ← (transaction epoch (admission_body now id) db).0
  ok (narrow_or_full probe device_probe device)

unfoldable pub requirements_body : String → Db → Result ((Bool × Bool) × Db)
unfolding require_safe_id task_row
requirements_body id db = do
  task_id ← require_safe_id id
  row ← task_row task_id db
  ok (
    (
      not (row.requested_count == 0) || not (is_empty (load_devices row.granted_devices)),
      is_some row.requested_service_port || not (is_empty (task_service_ports db.ports task_id)),
    ),
    db,
  )

-- Whether devices and whether ports are to be observed.
unfoldable pub probe_requirements : Option String → String → Db → Result (Bool × Bool)
unfolding transaction requirements_body
probe_requirements epoch id db = (transaction epoch (requirements_body id) db).0

unfoldable pub release_probe_body : String → Bool → Db → Result ((Bool × Bool) × Db)
unfolding require_safe_id task_row managed_shared_completion
release_probe_body id completion_confirmed db = do
  task_id ← require_safe_id id
  row ← task_row task_id db
  ok ((row.allow_external_busy, managed_shared_completion row completion_confirmed), db)

abbrev pub confirmed : Observation → List Observation → Bool × Bool → Result (Option Observation)
confirmed probe samples (shared, true) = ok none
confirmed probe samples (true, false) = ok (some probe)
confirmed probe samples (false, false) = do
  observed ← confirmed_free_probe samples
  ok (some observed)

-- `samples` are the confirmation samples, `probe` the single one of a shared lease.
unfoldable pub release_probe :
    Option String
    → String
    → Observation
    → List Observation
    → Bool
    → Db
    → Result (Option Observation)
unfolding transaction release_probe_body confirmed_free_probe
release_probe epoch id probe samples completion_confirmed db = do
  policy ← (transaction epoch (release_probe_body id completion_confirmed) db).0
  confirmed probe samples policy
