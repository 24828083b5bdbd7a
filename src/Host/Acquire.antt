-- ===== src/Host/Acquire.antt =====
-- `acquire` of vaws_coordinator/host/vaws_npu_coordination.py.
use vaws_coordinator.Prelude.{
  ℕ, ◌+◌, String, Bool, false, Option, none, some, List, [], ◌∷◌, ◌&&◌, ◌||◌, not, ltb, leb, ◌==◌,
  string_eq, option_eq, nat_eq, if◌then◌else◌, filter, sort, is_none,
}
use vaws_coordinator.Prelude.Int.{ltb_ℤ}
use vaws_coordinator.Host.State.{
  queued, granted, state_eq, Task, Db, task_granted, Observation, Listening, Change,
}
use vaws_coordinator.Host.Result.{Error, Result, ok, err, ◌>>=◌}
use vaws_coordinator.Host.Table.{
  transaction, validated, with_row, add_event, task_row, update_task, advance_fence, busy_set,
  load_devices,
}
use vaws_coordinator.Host.Ids.{checked_ttl}
use vaws_coordinator.Host.Guard.{Procfs}
use vaws_coordinator.Host.Housekeep.{housekeep, is_empty}
use vaws_coordinator.Host.Devices.{available_devices, select_granted_devices}
use vaws_coordinator.Host.Ports.{select_service_port}

pub data Waiting : Type 0 where
  not_before : Waiting
  strict_fifo : Option String → Waiting
  requested_devices_unavailable : List ℕ → List ℕ → Waiting
  not_enough_devices : ℕ → List ℕ → Waiting
  service_port_unavailable : Error → Waiting

pub data AcquireReply : Type 0 where
  probe_failed : AcquireReply
  not_queued : Task → List Change → AcquireReply
  waiting : Waiting → Task → List Change → AcquireReply
  granted_now : Task → List ℕ → Option ℕ → List Change → AcquireReply

abbrev pub observed_ok : Option Observation → Bool
observed_ok none = false
observed_ok (some observed) = observed.is_ok

-- A task that wants devices needs a usable observation, with occupancy unless it shares.
unfoldable pub probe_unusable : Task → Option Observation → Bool
unfolding busy_set
probe_unusable row observed =
    not (row.requested_count == 0)
    && (not (observed_ok observed) || not row.allow_external_busy && is_none (busy_set observed))

-- state='queued' AND not_before<=now AND latest_start>now
abbrev pub is_eligible : ℕ → Task → Bool
is_eligible now t = t.state == queued && leb t.not_before now && ltb now t.latest_start

-- ORDER BY priority DESC, submitted_at ASC, task_id ASC; texts are compared by `text_lt`.
unfoldable pub precedes : (String → String → Bool) → Task → Task → Bool
precedes text_lt a b =
    ltb_ℤ b.priority a.priority
    || not (ltb_ℤ a.priority b.priority)
      && (ltb a.submitted_at b.submitted_at
          || a.submitted_at == b.submitted_at && text_lt a.task_id b.task_id)

-- LIMIT 1
unfoldable pub first_of_queue : (String → String → Bool) → List Task → Option Task
unfolding precedes
first_of_queue text_lt [] = none
first_of_queue text_lt (t ∷ ts) = elim (first_of_queue text_lt ts) [
  | none ↦ some t
  | some u ↦ if precedes text_lt u t then some u else some t
]

unfoldable pub queue_head : (String → String → Bool) → ℕ → Db → Option Task
queue_head text_lt now db = first_of_queue text_lt (filter (is_eligible now) db.tasks)

abbrev pub task_ids : Option Task → Option String
task_ids none = none
task_ids (some t) = some t.task_id

-- The row of a grant.
unfoldable pub grant_row : ℕ → ℕ → List ℕ → ℕ → Option ℕ → Task → Task
grant_row now deadline selected fence port t = record t {
  state = granted;
  granted_devices = some selected;
  activation_deadline = some deadline;
  fence_token = some fence;
  granted_service_port = port;
  updated_at = now;
  message = some "short-lived grant issued";
}

-- A service port, where one is requested.
unfoldable pub reserve_service_port : Task → ℕ → Option Listening → Db → Result (Option ℕ × Db)
reserve_service_port row now listening db = elim row.requested_service_port [
  | none ↦ ok (none, db)
  | some requested ↦ do
    (port, db') ←
        select_service_port row.service_port_choices requested row.task_id row.agent_id now
          listening db
    ok (some port, db')
]

-- From `_next_fence` to the end of the transaction.
unfoldable pub issue_grant :
    ℕ → ℕ → Task → List ℕ → List Change → Option ℕ → Db → Result (AcquireReply × Db)
unfolding advance_fence update_task add_event
issue_grant now ttl row selected changes port db =
    let (fence, db₁) = advance_fence db in
    let deadline = now + ttl in
    let db₂ = update_task row.task_id (grant_row now deadline selected fence port) db₁ in
    let db₃ = add_event now (task_granted selected fence deadline port) (some row.task_id) db₂ in
    with_row row.task_id db₃ (λ row'. granted_now row' selected port changes)

-- A failure to find a port leaves the task waiting; the transaction still commits.
unfoldable pub with_service_port :
    ℕ → ℕ → Task → List ℕ → List Change → Option Listening → Db → Result (AcquireReply × Db)
unfolding issue_grant
with_service_port now ttl row selected changes listening db =
    elim (reserve_service_port row now listening db) [
      | err e ↦ ok (waiting (service_port_unavailable e) row changes, db)
      | ok (port, db') ↦ issue_grant now ttl row selected changes port db'
    ]

unfoldable pub unavailable : Task → List ℕ → List ℕ → Waiting
unavailable row missing available =
    if is_empty (load_devices row.requested_devices)
    then not_enough_devices row.requested_count (sort available)
    else requested_devices_unavailable missing (sort available)

-- The devices that the queue's head can have.
unfoldable pub task_available : ℕ → Option Observation → Task → Db → List ℕ
unfolding available_devices
task_available now observed row db =
    if row.requested_count == 0
    then []
    else available_devices db observed (some row.task_id) now (now + row.estimated_duration_seconds)
        row.allow_external_busy

unfoldable pub settle_choice :
    ℕ
    → ℕ
    → Option Listening
    → Task
    → List Change
    → List ℕ
    → Db
    → Option (List ℕ) × List ℕ
    → Result (AcquireReply × Db)
unfolding unavailable with_service_port
settle_choice now ttl listening row changes available db (none, missing) =
    ok (waiting (unavailable row missing available) row changes, db)
settle_choice now ttl listening row changes available db (some selected, missing) =
    with_service_port now ttl row selected changes listening db

-- After housekeeping, with the row read again.
unfoldable pub try_grant :
    (String → String → Bool)
    → ℕ
    → ℕ
    → Option Observation
    → Option Listening
    → Task
    → List Change
    → Db
    → Result (AcquireReply × Db)
unfolding queue_head task_available select_granted_devices settle_choice
try_grant text_lt now ttl observed listening row changes db =
    let head = task_ids (queue_head text_lt now db) in
    let available = task_available now observed row db in
    let choice =
      select_granted_devices (load_devices row.requested_devices) row.requested_count available in
    if not (row.state == queued)
    then ok (not_queued row changes, db)
    else if ltb now row.not_before
    then ok (waiting not_before row changes, db)
    else if not (row.requested_count == 0) && not (head == some row.task_id)
    then ok (waiting (strict_fifo head) row changes, db)
    else settle_choice now ttl listening row changes available db choice

unfoldable pub acquire_body :
    (String → String → Bool)
    → ℕ
    → Procfs
    → String
    → Option Observation
    → ℕ
    → Option Listening
    → Db
    → Result (AcquireReply × Db)
unfolding task_row probe_unusable housekeep try_grant
acquire_body text_lt now proc id observed ttl listening db = do
  requested_row ← task_row id db
  if probe_unusable requested_row observed then ok (probe_failed, db) else do
    let (db', changes) = housekeep now proc observed db
    row ← task_row id db'
    try_grant text_lt now ttl observed listening row changes db'

unfoldable pub acquire :
    Option String
    → (String → String → Bool)
    → ℕ
    → Procfs
    → String
    → Option Observation
    → ℕ
    → Option Listening
    → Db
    → Result AcquireReply × Db
unfolding checked_ttl transaction acquire_body
acquire epoch text_lt now proc id observed ttl listening db =
    validated (checked_ttl id ttl)
      (λ task_id. transaction epoch (acquire_body text_lt now proc task_id observed ttl listening))
      db
