-- ===== src/Pool/Table.antt =====
-- Reading and writing the pool's records (`get`, `put`, `owned`, `event` of RuntimePool in
-- vaws_coordinator/ready_runtime.py).
use vaws_coordinator.Prelude.{
  ℕ, String, Bool, [], ◌∷◌, ◌++◌, ◌&&◌, ◌==◌, not, string_eq, any_of, get_row, put_row,
}
use vaws_coordinator.Prelude.Outcome.{Outcome, ok, ◌>>=◌, ◌>>◌, guard, require}
use vaws_coordinator.Pool.Values.{
  PoolError, unknown_session, unknown_binding, unknown_runtime, unknown_run, foreign_resource,
}
use vaws_coordinator.Pool.State.{
  RuntimeRow, SessionRow, BindingRow, RunRow, JobRow, PoolEvent, PoolDb, is_terminal,
}

unfoldable pub owned_session : String → String → PoolDb → Outcome PoolError SessionRow
owned_session id owner db = do
  row ← require (get_row (λ s. s.id) id db.sessions) unknown_session
  guard (row.owner == owner) foreign_resource
  ok row

unfoldable pub owned_binding : String → String → PoolDb → Outcome PoolError BindingRow
owned_binding id owner db = do
  row ← require (get_row (λ b. b.id) id db.bindings) unknown_binding
  guard (row.owner == owner) foreign_resource
  ok row

unfoldable pub get_runtime : String → PoolDb → Outcome PoolError RuntimeRow
get_runtime id db = require (get_row (λ r. r.id) id db.runtimes) unknown_runtime

unfoldable pub get_run : String → PoolDb → Outcome PoolError RunRow
get_run id db = require (get_row (λ r. r.id) id db.runs) unknown_run

unfoldable pub owned_run : String → String → PoolDb → Outcome PoolError RunRow
unfolding get_run
owned_run id owner db = do row ← get_run id db; guard (row.owner == owner) foreign_resource; ok row

unfoldable pub put_session : SessionRow → PoolDb → PoolDb
put_session row db = record db { sessions = put_row (λ s. s.id) row db.sessions }

unfoldable pub put_runtime : RuntimeRow → PoolDb → PoolDb
put_runtime row db = record db { runtimes = put_row (λ r. r.id) row db.runtimes }

unfoldable pub put_binding : BindingRow → PoolDb → PoolDb
put_binding row db = record db { bindings = put_row (λ b. b.id) row db.bindings }

unfoldable pub put_run : RunRow → PoolDb → PoolDb
put_run row db = record db { runs = put_row (λ r. r.id) row db.runs }

unfoldable pub put_job : JobRow → PoolDb → PoolDb
put_job row db = record db { jobs = put_row (λ j. j.id) row db.jobs }

unfoldable pub record_event : ℕ → String → PoolEvent → PoolDb → PoolDb
record_event now owner kind db = record db {
  events = db.events ++ record { owner = owner; at = now; kind = kind } ∷ [];
}

-- run["binding_id"] == binding_id and run["state"] not in TERMINAL
unfoldable pub is_unresolved : String → RunRow → Bool
is_unresolved binding_id run = run.binding_id == binding_id && not (is_terminal run.state)

unfoldable pub has_unresolved : String → PoolDb → Bool
unfolding is_unresolved
has_unresolved binding_id db = any_of (is_unresolved binding_id) db.runs
