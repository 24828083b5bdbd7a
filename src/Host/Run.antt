-- ===== src/Host/Run.antt =====
-- A history of calls on one database, as `_handle_request` of
-- vaws_coordinator/host/vaws_npu_coordination.py makes them. What the calls read besides the
-- database (clock, /proc, probes, fresh ids) comes with each call.
use vaws_coordinator.Prelude.{ℕ, String, Bool, Option, List, [], ◌∷◌, ◌≡◌, false}
use vaws_coordinator.Host.State.{is_finished, Guard, Task, Db, Observation, Listening}
use vaws_coordinator.Host.Result.{ok}
use vaws_coordinator.Host.Table.{task_row, with_row}
use vaws_coordinator.Host.Guard.{Procfs}
use vaws_coordinator.Host.Submit
use vaws_coordinator.Host.Submit.{SubmitRequest}
use vaws_coordinator.Host.Acquire
use vaws_coordinator.Host.Preflight
use vaws_coordinator.Host.Activate
use vaws_coordinator.Host.Activate.{Supervisor}
use vaws_coordinator.Host.Release
use vaws_coordinator.Host.Holds
use vaws_coordinator.Host.Holds.{HoldRequest}
use vaws_coordinator.Host.Ports
use vaws_coordinator.Host.Snapshot

-- The clock, the reading of /proc, and the epoch that the caller expects.
pub record Call : Type 0 where
  pub now : ℕ
  pub proc : Procfs
  pub expected_epoch : Option String

pub data Op : Type 0 where
  submit : String → SubmitRequest → Op
  acquire : String → Option Observation → ℕ → Option Listening → Op
  preflight : String → ℕ → Option Observation → ℕ → Op
  activate : String → ℕ → Option Guard → Supervisor → ℕ → Op
  heartbeat : String → ℕ → ℕ → Op
  release : String → ℕ → Option Observation → Bool → Option Listening → Op
  cancel : String → Option Observation → Option Listening → Op
  add_hold : String → HoldRequest → Option Observation → Op
  remove_hold : String → Op
  reserve_container_ssh : String → String → ℕ → Option Listening → Op
  snapshot : Option Observation → Option String → ℕ → Op

-- A new database: `_initialize` with the epoch that it drew.
abbrev pub fresh_db : String → Db
fresh_db epoch = record {
  coordination_epoch = epoch;
  next_fence = 0;
  tasks = [];
  holds = [];
  ports = [];
  events = [];
  peers = [];
  messages = [];
}

module _ (text_lt : String → String → Bool) where
  -- The database that one call leaves, whether it returns or raises.
  unfoldable pub run : Call → Op → Db → Db
  unfolding Submit.submit Submit.submit_body Submit.queued_task Acquire.acquire
      Acquire.first_of_queue Acquire.reserve_service_port Acquire.grant_row Preflight.preflight
      Preflight.conflict_row Preflight.start_row Activate.activate Activate.active_row
      Activate.heartbeat Activate.heartbeat_row Release.release Release.deferred_row
      Release.released_row Release.cancel Release.cancel_row Holds.add_hold Holds.remove_hold
      Ports.reserve_container_ssh Snapshot.snapshot with_row
  run c (submit fresh_id r) db = (Submit.submit c.expected_epoch c.now fresh_id r db).1
  run c (acquire id observed ttl listening) db =
      (Acquire.acquire c.expected_epoch text_lt c.now c.proc id observed ttl listening db).1
  run c (preflight id token observed ttl) db =
      (Preflight.preflight c.expected_epoch c.now c.proc id token observed ttl db).1
  run c (activate id token guard supervisor ttl) db =
      (Activate.activate c.expected_epoch c.now c.proc id token guard supervisor ttl db).1
  run c (heartbeat id token ttl) db = (Activate.heartbeat c.expected_epoch c.now id token ttl db).1
  run c (release id token observed confirmed listening) db =
      (Release.release c.expected_epoch c.now c.proc id token observed confirmed listening db).1
  run c (cancel id observed listening) db =
      (Release.cancel c.expected_epoch c.now c.proc id observed listening db).1
  run c (add_hold fresh_id r observed) db =
      (Holds.add_hold c.expected_epoch c.now fresh_id r observed db).1
  run c (remove_hold id) db = (Holds.remove_hold c.expected_epoch c.now id db).1
  run c (reserve_container_ssh user name port listening) db =
      (Ports.reserve_container_ssh c.expected_epoch c.now user name port listening db).1
  run c (snapshot observed id limit) db =
      (Snapshot.snapshot c.expected_epoch c.now c.proc observed id limit db).1

  unfoldable pub run_all : List (Call × Op) → Db → Db
  unfolding run
  run_all [] db = db
  run_all ((c, op) ∷ rest) db = run_all rest (run c op db)

-- A `release` names a task whose lease has not ended; every other call is unrestricted.
abbrev pub IsTimely : Op → Db → Type 0
IsTimely (release id token observed confirmed listening) db =
    (row : Task) → task_row id db ≡ ok row → is_finished row.state ≡ false
IsTimely _ db = Unit

abbrev pub AllTimely : (String → String → Bool) → List (Call × Op) → Db → Type 0
AllTimely text_lt [] db = Unit
AllTimely text_lt ((c, op) ∷ rest) db =
    IsTimely op db × AllTimely text_lt rest (run text_lt c op db)
