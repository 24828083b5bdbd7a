-- ===== src/Host/Table.antt =====
-- Statements and transactions of vaws_coordinator/host/vaws_npu_coordination.py: `_transaction`,
-- `_event`, `_next_fence`, `_task_row`, `_check_token`, `_busy_set`, and the UPDATE of one row.
use vaws_coordinator.Prelude.{
  ℕ, String, Bool, true, false, Option, none, some, List, [], ◌∷◌, ◌++◌, map, ◌+◌, ◌==◌, nat_eq,
  string_eq, if◌then◌else◌, find,
}
use vaws_coordinator.Host.State.{Task, Db, EventKind, Observation}
use vaws_coordinator.Host.Result.{
  Result, ok, err, epoch_changed, not_found, stale_token, guard, require, ◌>>=◌, ◌>>◌,
}

-- The epoch that the caller expects, if it names one, is the database's.
abbrev epoch_matches : Option String → Db → Bool
epoch_matches none db = true
epoch_matches (some epoch) db = db.coordination_epoch == epoch

-- COMMIT after a normal return, ROLLBACK on an exception.
unfoldable pub finish {ℓ} : {A : Type ℓ} → Db → Result (A × Db) → Result A × Db
finish db (ok (a, db')) = (ok a, db')
finish db (err e) = (err e, db)

unfoldable pub transaction {ℓ} :
    {A : Type ℓ} → Option String → (Db → Result (A × Db)) → Db → Result A × Db
unfolding finish
transaction expected_epoch body db =
    finish db (do guard (epoch_matches expected_epoch db) epoch_changed; body db)

-- Checks that raise before the transaction begins leave the database alone.
abbrev pub validated {ℓ κ} :
    {A : Type ℓ} {B : Type κ} → Result A → (A → Db → Result B × Db) → Db → Result B × Db
validated (err e) call db = (err e, db)
validated (ok a) call db = call a db

unfoldable pub add_event : ℕ → EventKind → Option String → Db → Db
add_event now kind task_id db = record db {
  events = db.events ++ record { at = now; kind = kind; task_id = task_id } ∷ [];
}

-- SELECT * FROM tasks WHERE task_id=?
unfoldable pub task_row : String → Db → Result Task
task_row id db = require (find (λ t. t.task_id == id) db.tasks) (not_found id)

-- The row that a reply shows, read again at the end of a transaction.
unfoldable pub with_row {ℓ} : {A : Type ℓ} → String → Db → (Task → A) → Result (A × Db)
unfolding task_row
with_row id db reply = do row ← task_row id db; ok (reply row, db)

abbrev pub update_rows : String → (Task → Task) → List Task → List Task
update_rows id change = map (λ t. if t.task_id == id then change t else t)

-- UPDATE tasks SET ... WHERE task_id=?
unfoldable pub update_task : String → (Task → Task) → Db → Db
update_task id change db = record db { tasks = update_rows id change db.tasks }

-- The new fence, and the database that remembers it.
unfoldable pub advance_fence : Db → ℕ × Db
advance_fence db = (db.next_fence + 1, record db { next_fence = db.next_fence + 1 })

abbrev pub token_matches : Option ℕ → ℕ → Bool
token_matches none token = false
token_matches (some fence) token = fence == token

unfoldable pub check_token : Task → ℕ → Result (Unit {0})
check_token row token = guard (token_matches row.fence_token token) (stale_token row.task_id)

unfoldable pub busy_set : Option Observation → Option (List ℕ)
busy_set none = none
busy_set (some observed) = if observed.is_ok then observed.busy else none

-- `visible` of `_housekeep`, `release` and `cancel`
unfoldable pub visible_set : Option Observation → Option (List ℕ)
visible_set none = none
visible_set (some observed) = if observed.is_ok then some observed.devices else none

-- {int(device) for device in (observed or {}).get("devices", [])}, as `preflight` takes it
abbrev pub observed_devices : Option Observation → List ℕ
observed_devices none = []
observed_devices (some observed) = observed.devices

-- _load_devices
abbrev pub load_devices : Option (List ℕ) → List ℕ
load_devices none = []
load_devices (some devices) = devices
