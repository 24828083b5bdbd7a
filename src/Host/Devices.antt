-- ===== src/Host/Devices.antt =====
-- Device selection of vaws_coordinator/host/vaws_npu_coordination.py: `_reserved_devices`,
-- `_hold_conflicts`, `_available_devices` and `_select_granted_devices`.
use vaws_coordinator.Prelude.{
  ℕ, String, Bool, Option, none, some, List, [], ◌∷◌, ◌&&◌, ◌||◌, not, ltb, ◌==◌, string_eq,
  option_eq, nat_eq, if◌then◌else◌, filter, concat_map, any_of, contains, minus, sort, take, length,
  value_or,
}
use vaws_coordinator.Host.State.{is_reserving, Task, Hold, Db, Observation}
use vaws_coordinator.Host.Table.{busy_set, observed_devices, load_devices}
use vaws_coordinator.Host.Housekeep.{hold_is_active}

-- What a row keeps from others: its granted devices while it is in a reserving state.
abbrev pub leased : Task → List ℕ
leased t = if is_reserving t.state then load_devices t.granted_devices else []

abbrev pub leased_unless : Option String → Task → List ℕ
leased_unless exclude_task t = if some t.task_id == exclude_task then [] else leased t

-- `exclude_task` is `none` for no exclusion.
unfoldable pub reserved_devices : List Task → Option String → List ℕ
reserved_devices tasks exclude_task = concat_map (leased_unless exclude_task) tasks

abbrev pub hold_covers : ℕ → ℕ → ℕ → Hold → Bool
hold_covers device start_at end_at h =
    hold_is_active h.state
    && ltb h.not_before end_at
    && ltb start_at h.end_at
    && contains device h.devices

unfoldable pub hold_conflicts : List Hold → ℕ → ℕ → ℕ → Bool
hold_conflicts holds device start_at end_at = any_of (hold_covers device start_at end_at) holds

abbrev pub is_available : List ℕ → List ℕ → List Hold → ℕ → ℕ → Bool → ℕ → Bool
is_available busy reserved holds start_at end_at allow_external_busy device =
    not (contains device busy && not allow_external_busy || contains device reserved)
    && not (hold_conflicts holds device start_at end_at)

unfoldable pub available_devices : Db → Option Observation → Option String → ℕ → ℕ → Bool → List ℕ
unfolding busy_set reserved_devices hold_conflicts
available_devices db observed exclude_task start_at end_at allow_external_busy =
    filter
      (is_available (value_or (busy_set observed) []) (reserved_devices db.tasks exclude_task)
        db.holds start_at end_at allow_external_busy)
      (observed_devices observed)

abbrev pub all_present : List ℕ → List ℕ → Option (List ℕ) × List ℕ
all_present requested [] = (some requested, [])
all_present requested (m ∷ ms) = (none, sort (m ∷ ms))

-- The devices to grant, if they can be, and those requested that are missing.
unfoldable pub select_granted_devices : List ℕ → ℕ → List ℕ → Option (List ℕ) × List ℕ
unfolding sort
select_granted_devices [] count available =
    if ltb (length available) count then (none, []) else (some (take count (sort available)), [])
select_granted_devices (d ∷ ds) count available = all_present (d ∷ ds) (minus (d ∷ ds) available)
