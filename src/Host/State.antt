-- ===== src/Host/State.antt =====
-- The rows of the coordinator's database (`_initialize` of
-- vaws_coordinator/host/vaws_npu_coordination.py) and what its probes report.
-- Times are counted in one unit; a nullable column is an `Option`; a JSON column is what it
-- decodes to; text identifiers are `String`s.
use vaws_coordinator.Prelude.{
  ℕ, ℤ, String, Bool, true, false, Option, List, Comparable, ◌≡◌, ◌↔◌, arith,
}

pub data TaskState : Type 0 where
  queued granted starting active orphaned_busy released expired cancelled : TaskState

-- RESERVING_TASK_STATES
abbrev pub is_reserving : TaskState → Bool
is_reserving granted = true
is_reserving starting = true
is_reserving active = true
is_reserving orphaned_busy = true
is_reserving _ = false

-- {"released", "expired", "cancelled"}, as `cancel` tests it
abbrev pub is_finished : TaskState → Bool
is_finished released = true
is_finished expired = true
is_finished cancelled = true
is_finished _ = false

abbrev pub state_beq : TaskState → TaskState → Bool
state_beq queued queued = true
state_beq granted granted = true
state_beq starting starting = true
state_beq active active = true
state_beq orphaned_busy orphaned_busy = true
state_beq released released = true
state_beq expired expired = true
state_beq cancelled cancelled = true
state_beq _ _ = false

pub state_beq_iff : (a b : TaskState) → (state_beq a b ≡ true) ↔ (a ≡ b)
state_beq_iff a b = ground arith

instance abbrev pub state_eq : Comparable TaskState
state_eq = record { test = state_beq; agrees = state_beq_iff }

-- A managed process guard. A missing `retain_until_release` is `false`: the code tests `is True`.
pub record Guard : Type 0 where
  pub marker : String
  pub boot_id : String
  pub retain_until_release : Bool

-- The columns that no statement updates after the INSERT of `submit`.
pub record Request : Type 0 where
  pub agent_id : String
  pub agent_alias : Option String
  pub session_id : Option String
  pub container_name : Option String
  pub requested_count : ℕ
  pub requested_devices : Option (List ℕ)
  pub allow_external_busy : Bool
  pub not_before : ℕ
  pub latest_start : ℕ
  pub estimated_duration_seconds : ℕ
  pub preemptible : Bool
  pub priority : ℤ
  pub submitted_at : ℕ
  pub requested_service_port : Option ℕ
  pub service_port_choices : List ℕ

pub record Task : Type 0 where
  pub task_id : String
  pub request : Request
  pub open request use *
  pub state : TaskState
  pub updated_at : ℕ
  pub granted_devices : Option (List ℕ)
  pub activation_deadline : Option ℕ
  pub fence_token : Option ℕ
  pub started_at : Option ℕ
  pub expected_end : Option ℕ
  pub heartbeat_at : Option ℕ
  pub heartbeat_deadline : Option ℕ
  pub pid : Option ℕ
  pub message : Option String
  pub granted_service_port : Option ℕ
  pub process_guard : Option Guard

pub data HoldState : Type 0 where
  active expired cancelled : HoldState

pub record Hold : Type 0 where
  pub hold_id : String
  pub owner : String
  pub devices : List ℕ
  pub not_before : ℕ
  pub end_at : ℕ
  pub reason : Option String
  pub state : HoldState
  pub created_at : ℕ
  pub updated_at : ℕ

pub data PortKind : Type 0 where
  container_ssh service : PortKind

abbrev pub kind_beq : PortKind → PortKind → Bool
kind_beq container_ssh container_ssh = true
kind_beq service service = true
kind_beq _ _ = false

pub kind_beq_iff : (a b : PortKind) → (kind_beq a b ≡ true) ↔ (a ≡ b)
kind_beq_iff a b = ground arith

instance abbrev pub kind_eq : Comparable PortKind
kind_eq = record { test = kind_beq; agrees = kind_beq_iff }

pub record Port : Type 0 where
  pub port : ℕ
  pub kind : PortKind
  pub task_id : String
  pub owner : String
  pub created_at : ℕ

-- The `kind` of an events row with its JSON `data`.
pub data EventKind : Type 0 where
  task_submitted : ℕ → Bool → EventKind
  hold_added : String → List ℕ → EventKind
  hold_cancelled hold_expired : String → EventKind
  task_expired_in_queue orphaned_task_released task_overdue task_released : EventKind
  activation_deadline_elapsed heartbeat_expired task_cancelled : TaskState → EventKind
  container_ssh_reserved : String → String → ℕ → Bool → EventKind
  task_granted : List ℕ → ℕ → ℕ → Option ℕ → EventKind
  preflight_conflict : List ℕ → TaskState → EventKind
  preflight_passed : List ℕ → EventKind
  task_activated : ℕ → EventKind
  release_deferred : List ℕ → List ℕ → EventKind

pub record Event : Type 0 where
  pub at : ℕ
  pub kind : EventKind
  pub task_id : Option String

-- One row of `messages`: the columns and the JSON `data` hold the same values.
pub record Message : Type 0 where
  pub cursor : ℕ
  pub message_id : String
  pub thread_id : String
  pub sender : String
  pub sender_session : String
  pub recipient : String
  pub recipient_session : String
  pub requested_recipient : Option String
  pub requested_session : Option String
  pub reply_to : Option String
  pub text : String
  pub at : ℕ

pub record Peer : Type 0 where
  pub user : String
  pub session_id : String
  pub seen_at : ℕ

-- The tables, and the `meta` rows `coordination_epoch` and `next_fence`.
pub record Db : Type 0 where
  pub coordination_epoch : String
  pub next_fence : ℕ
  pub tasks : List Task
  pub holds : List Hold
  pub ports : List Port
  pub events : List Event
  pub peers : List Peer
  pub messages : List Message

-- An occupancy observation. `busy` is `none` where the observation holds a null: unobserved.
pub record Observation : Type 0 where
  pub is_ok : Bool
  pub devices : List ℕ
  pub busy : Option (List ℕ)

-- A sample of the host's listening TCP ports.
pub record Listening : Type 0 where
  pub is_ok : Bool
  pub ports : List ℕ

-- What `_housekeep` reports of a row that it changed.
pub data Change : Type 0 where
  hold_change : String → Change
  task_change : String → TaskState → TaskState → Change
  overdue : String → Change
