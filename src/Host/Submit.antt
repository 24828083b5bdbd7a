-- ===== src/Host/Submit.antt =====
-- `submit` of vaws_coordinator/host/vaws_npu_coordination.py. A request gives typed values: an
-- absent or null field is `none`, and an instant is what `parse_instant` made of it.
use vaws_coordinator.Prelude.{
  ℕ, zero, suc, ◌+◌, String, Bool, true, false, Option, none, some, List, [], ◌∷◌, ◌++◌, ◌&&◌, ◌||◌,
  not, ltb, ◌==◌, string_eq, option_eq, list_eq, nat_eq, if◌then◌else◌, find, contains, distinct,
  length, value_or,
}
use vaws_coordinator.Prelude.Int.{ℤ, pos, negsuc}
use vaws_coordinator.Host.State.{queued, Request, Task, Db, task_submitted}
use vaws_coordinator.Host.Result.{
  Result, ok, err, invalid_count, invalid_sharing, invalid_port, undeclared_service_port,
  invalid_window, already_exists, guard, ◌>>=◌, ◌>>◌,
}
use vaws_coordinator.Host.Table.{transaction, validated, add_event}
use vaws_coordinator.Host.Ids.{DeviceToken, require_safe_id, parse_devices}
use vaws_coordinator.Host.Ports.{is_tcp_port}

-- `task_id` is `none` also for an empty text.
pub record SubmitRequest : Type 0 where
  pub task_id : Option String
  pub agent_id : String
  pub agent_alias : Option String
  pub session_id : Option String
  pub container_name : Option String
  pub message : Option String
  pub devices : Option (List DeviceToken)
  pub npu_count : Option ℤ
  pub allow_external_busy : Bool
  pub service_port : Option ℤ
  pub service_ports : List ℤ
  pub estimated_duration_seconds : Option ℤ
  pub not_before : Option ℕ
  pub latest_start : Option ℕ
  pub queue_ttl_seconds : Option ℤ
  pub priority : Option ℤ
  pub preemptible : Bool

pub data SubmitReply : Type 0 where
  reused : Task → SubmitReply
  submitted : Task → SubmitReply

abbrev pub submitted_task : SubmitReply → Task
submitted_task (reused t) = t
submitted_task (submitted t) = t

unfoldable pub optional_id : Option String → Result (Option String)
unfolding require_safe_id
optional_id none = ok none
optional_id (some value) = do id ← require_safe_id value; ok (some id)

-- `int(value or default)`, refused below 1
unfoldable pub positive_or : Option ℤ → ℕ → Result ℕ
positive_or none default = ok default
positive_or (some (pos zero)) default = ok default
positive_or (some (pos (suc n))) default = ok (suc n)
positive_or (some (negsuc n)) default = err invalid_window

-- `devices` and `npu_count` together are refused; neither means none.
unfoldable pub requested_count : Option (List ℕ) → Option ℤ → Result ℕ
requested_count (some devices) (some count) = err invalid_count
requested_count (some devices) none = ok (length devices)
requested_count none none = ok 0
requested_count none (some (pos n)) = ok n
requested_count none (some (negsuc n)) = err invalid_count

abbrev has_one : Option (List ℕ) → Bool
has_one none = false
has_one (some devices) = length devices == 1

unfoldable pub natural_port : Option ℤ → Result (Option ℕ)
natural_port none = ok none
natural_port (some (pos n)) = ok (some n)
natural_port (some (negsuc n)) = err invalid_port

unfoldable pub declared_ports : List ℤ → Result (List ℕ)
declared_ports [] = ok []
declared_ports (negsuc n ∷ rest) = err invalid_port
declared_ports (pos n ∷ rest) = do
  guard (is_tcp_port n) invalid_port
  ports ← declared_ports rest
  ok (n ∷ ports)

-- A port that is asked for is 0 or declared.
abbrev is_declared : Option ℕ → List ℕ → Bool
is_declared none choices = true
is_declared (some port) choices = port == 0 || contains port choices

unfoldable pub latest_start_of : Option ℕ → Option ℤ → ℕ → Result ℕ
unfolding positive_or
latest_start_of (some latest) ttl now = ok latest
latest_start_of none ttl now = do seconds ← positive_or ttl 3600; ok (now + seconds)

-- The columns of the row that the request asks for; `fresh_id` is `uuid.uuid4()`.
unfoldable pub checked_request : SubmitRequest → String → ℕ → Result (String × Request)
unfolding require_safe_id optional_id parse_devices requested_count natural_port declared_ports
    positive_or latest_start_of
checked_request r fresh_id now = do
  task_id ← require_safe_id (value_or r.task_id fresh_id)
  agent_id ← require_safe_id r.agent_id
  agent_alias ← optional_id r.agent_alias
  session_id ← optional_id r.session_id
  devices ← parse_devices r.devices true
  count ← requested_count devices r.npu_count
  guard (not r.allow_external_busy || has_one devices) invalid_sharing
  service_port ← natural_port r.service_port
  choices ← declared_ports r.service_ports
  guard (distinct choices) invalid_port
  guard (is_declared service_port choices) undeclared_service_port
  duration ← positive_or r.estimated_duration_seconds 3600
  let not_before = value_or r.not_before now
  latest_start ← latest_start_of r.latest_start r.queue_ttl_seconds now
  guard (not (ltb latest_start not_before)) invalid_window
  ok (
    task_id,
    record {
      agent_id = agent_id;
      agent_alias = agent_alias;
      session_id = session_id;
      container_name = r.container_name;
      requested_count = count;
      requested_devices = devices;
      allow_external_busy = r.allow_external_busy;
      not_before = not_before;
      latest_start = latest_start;
      estimated_duration_seconds = duration;
      preemptible = r.preemptible;
      priority = value_or r.priority (pos 0);
      submitted_at = now;
      requested_service_port = service_port;
      service_port_choices = choices;
    },
  )

-- The columns that a second submission of the same id must repeat.
unfoldable pub same_request : Request → Request → Bool
same_request old new =
    old.agent_id == new.agent_id
    && old.agent_alias == new.agent_alias
    && old.session_id == new.session_id
    && old.container_name == new.container_name
    && old.requested_count == new.requested_count
    && old.requested_devices == new.requested_devices
    && (if new.allow_external_busy then old.allow_external_busy else not old.allow_external_busy)
    && old.requested_service_port == new.requested_service_port
    && old.service_port_choices == new.service_port_choices

unfoldable pub queued_task : String → Request → Option String → Task
queued_task task_id request message = record {
  task_id = task_id;
  request = request;
  state = queued;
  updated_at = request.submitted_at;
  granted_devices = none;
  activation_deadline = none;
  fence_token = none;
  started_at = none;
  expected_end = none;
  heartbeat_at = none;
  heartbeat_deadline = none;
  pid = none;
  message = message;
  granted_service_port = none;
  process_guard = none;
}

unfoldable pub insert_task : Task → Db → Db
insert_task t db = record db { tasks = db.tasks ++ t ∷ [] }

unfoldable pub submit_body : ℕ → String → Request → Option String → Db → Result (SubmitReply × Db)
unfolding insert_task add_event
submit_body now task_id request message db = elim (find (λ t. t.task_id == task_id) db.tasks) [
  | some existing ↦
      if same_request existing.request request
      then ok (reused existing, db)
      else err (already_exists task_id)
  | none ↦
      let t = queued_task task_id request message in
      ok (
        submitted t,
        add_event now (task_submitted request.requested_count request.allow_external_busy)
            (some task_id) (insert_task t db),
      )
]

unfoldable pub submit : Option String → ℕ → String → SubmitRequest → Db → Result SubmitReply × Db
unfolding checked_request transaction
submit epoch now fresh_id r db =
    validated (checked_request r fresh_id now)
      (λ (task_id, request). transaction epoch (submit_body now task_id request r.message)) db
