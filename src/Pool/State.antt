-- ===== src/Pool/State.antt =====
-- The rows of the runtime pool's database (`RuntimePool` of vaws_coordinator/ready_runtime.py) and
-- of its jobs (`ManagedExecution` of vaws_coordinator/managed_execution.py).
-- A row is what its JSON document decodes to, less the columns that are only copied to the user.
-- A key that `digest` builds is a text that the caller gives. Times are counted in one unit.
use vaws_coordinator.Prelude.{
  ℕ, ℤ, String, Bool, true, false, Option, List, Comparable, ◌≡◌, ◌↔◌, arith, ◌==◌, ◌&&◌, nat_eq,
  string_eq, option_eq, list_eq, bool_eq, int_eq, pair_eq,
}
use vaws_coordinator.Host.State.{TaskState, is_finished, state_eq}
use vaws_coordinator.Pool.Values.{RuntimeState, Endpoint, Attestation, RootPath}

-- A work root in the caller's container. `root` is its endpoint's `root` and `cwd`.
pub record RuntimeRow : Type 0 where
  pub id : String
  pub user : String
  pub python : String
  pub container_name : String
  pub endpoint : Endpoint
  pub root : RootPath
  pub host_endpoint : Endpoint
  pub service_ports : List ℕ
  pub reuse_only : Bool
  pub state : RuntimeState
  pub attestation : Attestation
  pub draining : Bool
  pub prepared_native_view : Bool
  pub error : Option String

-- A task's source worktrees: a mapping of names to paths, in the order of its names.
abbrev pub Sources : Type 0
Sources = List (String × String)

pub record SessionRow : Type 0 where
  pub id : String
  pub owner : String
  pub session_id : String
  pub sources : Sources

pub record CheckoutIntent : Type 0 where
  pub session : String
  pub profile_key : String
  pub runtime_id : String

abbrev pub checkout_beq : CheckoutIntent → CheckoutIntent → Bool
checkout_beq a b =
    a.session == b.session && a.profile_key == b.profile_key && a.runtime_id == b.runtime_id

pub checkout_beq_iff : (a b : CheckoutIntent) → (checkout_beq a b ≡ true) ↔ (a ≡ b)
checkout_beq_iff a b = grind (
  arith,
  string_eq.agrees a.session b.session,
  string_eq.agrees a.profile_key b.profile_key,
  string_eq.agrees a.runtime_id b.runtime_id,
)

instance abbrev pub checkout_eq : Comparable CheckoutIntent
checkout_eq = record { test = checkout_beq; agrees = checkout_beq_iff }

pub record BindingRow : Type 0 where
  pub id : String
  pub owner : String
  pub intent : CheckoutIntent
  pub runtime_id : String
  -- "bound", or else "returned"
  pub is_bound : Bool
  pub profile_key : String
  pub build_key : String
  pub launch_preamble : String
  pub container_id : Option String
  pub service_ports : List ℕ

-- What a run asks for.
pub record RunIntent : Type 0 where
  pub snapshots : Sources
  pub build_key : String
  pub devices : List ℕ
  pub npu_count : ℕ
  pub priority : ℤ
  pub queue_seconds : ℕ
  pub service_port : Option ℕ
  pub allow_external_busy : Bool

abbrev pub intent_beq : RunIntent → RunIntent → Bool
intent_beq a b =
    a.snapshots == b.snapshots
    && a.build_key == b.build_key
    && a.devices == b.devices
    && a.npu_count == b.npu_count
    && a.priority == b.priority
    && a.queue_seconds == b.queue_seconds
    && a.service_port == b.service_port
    && a.allow_external_busy == b.allow_external_busy

-- A run's state: its own, or that of its task on the host.
pub data RunState : Type 0 where
  pending uncertain : RunState
  at : TaskState → RunState

abbrev pub run_state_beq : RunState → RunState → Bool
run_state_beq pending pending = true
run_state_beq uncertain uncertain = true
run_state_beq (at s) (at t) = s == t
run_state_beq _ _ = false

pub run_state_beq_iff : (a b : RunState) → (run_state_beq a b ≡ true) ↔ (a ≡ b)
run_state_beq_iff a b = ground arith

instance abbrev pub run_state_eq : Comparable RunState
run_state_eq = record { test = run_state_beq; agrees = run_state_beq_iff }

-- TERMINAL
abbrev pub is_terminal : RunState → Bool
is_terminal (at s) = is_finished s
is_terminal _ = false

-- The task of a run, as the host's replies show it; `control` makes one with a state only.
pub record HostTask : Type 0 where
  pub task_id : Option String
  pub state : TaskState
  pub fence_token : Option ℕ
  pub granted_devices : List ℕ
  pub granted_service_port : Option ℕ

pub record RunRow : Type 0 where
  pub id : String
  pub owner : String
  pub binding_id : String
  pub intent : RunIntent
  pub task_id : String
  pub state : RunState
  pub epoch : Option String
  pub deadline : ℕ
  pub last_poll : ℕ
  pub submitted : Bool
  pub task : Option HostTask
  -- environment["ASCEND_RT_VISIBLE_DEVICES"], as the list that it joins
  pub visible_devices : Option (List ℕ)
  pub service_port : Option ℕ
  pub preflight_error : Option String
  pub error : Option String

pub data JobState : Type 0 where
  pending waiting uncertain stopping running releasing : JobState
  queued granted starting active orphaned_busy released expired : JobState
  succeeded failed timeout cancelled inconclusive : JobState

-- JOB_TERMINAL
abbrev pub is_done : JobState → Bool
is_done succeeded = true
is_done failed = true
is_done timeout = true
is_done cancelled = true
is_done inconclusive = true
is_done _ = false

-- The `state` of an observation of the job's process family; `unresolved` is any other text.
pub data FamilyState : Type 0 where
  absent prepared running : FamilyState
  succeeded failed timeout cancelled inconclusive unresolved : FamilyState

-- What a job call of the backend reports. `has_receipt` tells whether a receipt came with it, and
-- `result_timeout` whether its result is a timeout.
pub record Observed : Type 0 where
  pub state : FamilyState
  pub quiet : Bool
  pub has_receipt : Bool
  pub result_timeout : Bool

pub record JobRow : Type 0 where
  pub id : String
  pub owner : String
  pub binding_id : String
  pub intent : RunIntent
  pub state : JobState
  pub last_poll : ℕ
  pub cancel_requested : Bool
  pub force : Bool
  pub hold_go : Bool
  pub had_receipt : Bool
  pub timed_out : Bool
  pub lease_state : Option RunState
  pub remote : Option Observed
  pub preflight_error : Option String
  pub error : Option String

-- The `kind` of an events row with its data.
pub data PoolEvent : Type 0 where
  runtime_bound : String → String → PoolEvent
  runtime_returned : String → PoolEvent
  runtime_refreshed : String → String → PoolEvent
  run_queued : String → PoolEvent
  run_state : String → RunState → Option String → PoolEvent
  run_reconciled : String → String → RunState → String → Bool → PoolEvent
  managed_job_created : String → PoolEvent
  coordination_message : String → String → String → PoolEvent
  coordination_reply : String → ℕ → String → PoolEvent

-- One row of `events`: its owner, and the data.
pub record EventRow : Type 0 where
  pub owner : String
  pub at : ℕ
  pub kind : PoolEvent

-- The records of each kind, in the order of their rowids, and the events.
pub record PoolDb : Type 0 where
  pub sessions : List SessionRow
  pub runtimes : List RuntimeRow
  pub bindings : List BindingRow
  pub runs : List RunRow
  pub jobs : List JobRow
  pub events : List EventRow
