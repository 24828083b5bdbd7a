-- ===== src/Host/Holds.antt =====
-- `add_hold` and `remove_hold` of vaws_coordinator/host/vaws_npu_coordination.py.
use vaws_coordinator.Prelude.{
  ℕ, zero, suc, ◌+◌, String, Bool, false, Option, none, some, List, [], ◌∷◌, ◌++◌, map, ◌&&◌, not,
  leb, ◌==◌, string_eq, list_eq, nat_eq, if◌then◌else◌, find, intersect, concat_map, sort, value_or,
}
use vaws_coordinator.Prelude.Int.{ℤ, pos, negsuc}
use vaws_coordinator.Host.State.{
  TaskState, is_reserving, Task, Hold, HoldState, Db, hold_added, hold_cancelled, Observation,
}
use vaws_coordinator.Host.Result.{
  Result, ok, err, invalid_window, not_found, already_exists, guard, require, ◌>>=◌, ◌>>◌,
}
use vaws_coordinator.Host.Table.{transaction, validated, add_event, busy_set, load_devices}
use vaws_coordinator.Host.Ids.{DeviceToken, require_safe_id, parse_devices}
use vaws_coordinator.Host.Housekeep.{is_empty}

-- `hold_id` is `none` also for an empty text.
pub record HoldRequest : Type 0 where
  pub hold_id : Option String
  pub owner : String
  pub devices : Option (List DeviceToken)
  pub not_before : Option ℕ
  pub end_at : Option ℕ
  pub duration_seconds : Option ℤ
  pub reason : Option String

pub data HoldConflict : Type 0 where
  lease_conflict : String → List ℕ → TaskState → HoldConflict
  external_busy : List ℕ → HoldConflict

pub data HoldReply : Type 0 where
  reused : Hold → HoldReply
  recorded : Hold → List HoldConflict → HoldReply

unfoldable pub hold_end : ℕ → Option ℕ → Option ℤ → Result ℕ
hold_end not_before (some end_at) duration = ok end_at
hold_end not_before none none = err invalid_window
hold_end not_before none (some (pos zero)) = err invalid_window
hold_end not_before none (some (pos (suc n))) = ok (not_before + suc n)
hold_end not_before none (some (negsuc n)) = err invalid_window

unfoldable pub checked_hold : HoldRequest → String → ℕ → Result Hold
unfolding require_safe_id parse_devices hold_end
checked_hold r fresh_id now = do
  hold_id ← require_safe_id (value_or r.hold_id fresh_id)
  owner ← require_safe_id r.owner
  devices ← parse_devices r.devices false
  let not_before = value_or r.not_before now
  end_at ← hold_end not_before r.end_at r.duration_seconds
  guard (not (leb end_at not_before)) invalid_window
  ok (record {
    hold_id = hold_id;
    owner = owner;
    devices = load_devices devices;
    not_before = not_before;
    end_at = end_at;
    reason = r.reason;
    state = HoldState.active;
    created_at = now;
    updated_at = now;
  })

abbrev same_hold : Hold → Hold → Bool
same_hold old new =
    old.owner == new.owner
    && old.devices == new.devices
    && old.not_before == new.not_before
    && old.end_at == new.end_at

lease_conflicts : List ℕ → Task → List HoldConflict
unfolding sort
lease_conflicts devices t =
    let overlap = sort (intersect devices (load_devices t.granted_devices)) in
    if is_reserving t.state && not (is_empty overlap)
    then lease_conflict t.task_id overlap t.state ∷ []
    else []

busy_conflicts : List ℕ → Option (List ℕ) → List HoldConflict
unfolding sort
busy_conflicts devices none = []
busy_conflicts devices (some busy) =
    let overlap = sort (intersect devices busy) in
    if is_empty overlap then [] else external_busy overlap ∷ []

unfoldable pub add_hold_body : ℕ → Hold → Option Observation → Db → Result (HoldReply × Db)
unfolding add_event lease_conflicts busy_conflicts busy_set
add_hold_body now hold observed db = elim (find (λ h. h.hold_id == hold.hold_id) db.holds) [
  | some existing ↦
      if same_hold existing hold
      then ok (reused existing, db)
      else err (already_exists hold.hold_id)
  | none ↦ ok (
    recorded hold (
        concat_map (lease_conflicts hold.devices) db.tasks
        ++ busy_conflicts hold.devices (busy_set observed)),
    add_event now (hold_added hold.hold_id hold.devices) none
        (record db { holds = db.holds ++ hold ∷ [] }),
  )
]

unfoldable pub add_hold :
    Option String → ℕ → String → HoldRequest → Option Observation → Db → Result HoldReply × Db
unfolding checked_hold transaction add_hold_body
add_hold epoch now fresh_id r observed db =
    validated (checked_hold r fresh_id now)
      (λ hold. transaction epoch (add_hold_body now hold observed)) db

abbrev cancel_hold : ℕ → String → Hold → Hold
cancel_hold now id h =
    if h.hold_id == id then record h { state = HoldState.cancelled; updated_at = now } else h

unfoldable pub remove_hold_body : ℕ → String → Db → Result (Hold × Db)
unfolding add_event
remove_hold_body now id db = do
  found ← require (find (λ h. h.hold_id == id) db.holds) (not_found id)
  let db' =
      add_event now (hold_cancelled id) none
        (record db { holds = map (cancel_hold now id) db.holds })
  row ← require (find (λ h. h.hold_id == id) db'.holds) (not_found id)
  ok (row, db')

unfoldable pub remove_hold : Option String → ℕ → String → Db → Result Hold × Db
unfolding require_safe_id transaction remove_hold_body
remove_hold epoch now id db =
    validated (require_safe_id id) (λ hold_id. transaction epoch (remove_hold_body now hold_id)) db
