-- ===== src/Host/Snapshot.antt =====
-- `snapshot` of vaws_coordinator/host/vaws_npu_coordination.py: housekeeping, then the rows.
-- ORDER BY clauses, the meta columns of the reply and the serialised times are left out.
use mathlib.Core.List.{reverse}
use vaws_coordinator.Prelude.{
  ℕ, String, Option, none, some, List, [], ◌∷◌, ◌==◌, string_eq, filter, take,
}
use vaws_coordinator.Host.State.{Task, Hold, Port, Event, Db, Observation, Change}
use vaws_coordinator.Host.Result.{Result, ok, ◌>>=◌}
use vaws_coordinator.Host.Table.{transaction, task_row}
use vaws_coordinator.Host.Ids.{require_safe_id}
use vaws_coordinator.Host.Guard.{Procfs}
use vaws_coordinator.Host.Housekeep.{housekeep}

pub record Snapshot : Type 0 where
  pub coordination_epoch : String
  pub tasks : List Task
  pub holds : List Hold
  pub ports : List Port
  pub events : List Event
  pub gc : List Change

unfoldable pub shown_tasks : Option String → Db → Result (List Task)
unfolding require_safe_id task_row
shown_tasks none db = ok db.tasks
shown_tasks (some id) db = do task_id ← require_safe_id id; row ← task_row task_id db; ok (row ∷ [])

unfoldable pub shown_ports : Option String → Db → List Port
shown_ports none db = db.ports
shown_ports (some id) db = filter (λ p. p.task_id == id) db.ports

unfoldable pub snapshot_body :
    ℕ → Procfs → Option Observation → Option String → ℕ → Db → Result (Snapshot × Db)
unfolding housekeep shown_tasks shown_ports
snapshot_body now proc observed task_id event_limit db = do
  let (db', changes) = housekeep now proc observed db
  tasks ← shown_tasks task_id db'
  ok (
    record {
      coordination_epoch = db'.coordination_epoch;
      tasks = tasks;
      holds = db'.holds;
      ports = shown_ports task_id db';
      events = take event_limit (reverse db'.events);
      gc = changes;
    },
    db',
  )

unfoldable pub snapshot :
    Option String → ℕ → Procfs → Option Observation → Option String → ℕ → Db → Result Snapshot × Db
unfolding transaction snapshot_body
snapshot epoch now proc observed task_id event_limit db =
    transaction epoch (snapshot_body now proc observed task_id event_limit) db
