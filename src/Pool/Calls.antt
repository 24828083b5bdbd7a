-- ===== src/Pool/Calls.antt =====
-- What `control` of vaws_coordinator/ready_runtime.py asks of the backend, what it is told, and
-- the trace of its effects.
use vaws_coordinator.Prelude.{
  ℕ, String, Bool, true, false, Option, List, [], ◌∷◌, ◌++◌, ◌≡◌, ◌↔◌, Comparable, arith,
}
use vaws_coordinator.Prelude.Outcome.{Outcome}
use vaws_coordinator.Host.State.{Guard}
use vaws_coordinator.Pool.State.{HostTask, RunRow, PoolEvent}

pub data Action : Type 0 where
  poll preflight activate heartbeat release cancel : Action

abbrev pub action_beq : Action → Action → Bool
action_beq poll poll = true
action_beq preflight preflight = true
action_beq activate activate = true
action_beq heartbeat heartbeat = true
action_beq release release = true
action_beq cancel cancel = true
action_beq _ _ = false

pub action_beq_iff : (a b : Action) → (action_beq a b ≡ true) ↔ (a ≡ b)
action_beq_iff a b = ground arith

instance abbrev pub action_eq : Comparable Action
action_eq = record { test = action_beq; agrees = action_beq_iff }

-- The optional methods of the backend, each looked up with `getattr(..., None)`. The call of
-- `activate` is one, whether `activate_prepared` is there or not.
pub record Capabilities : Type 0 where
  pub startup_context : Bool
  pub submit_and_preflight : Bool
  pub submit_and_acquire : Bool

-- The arguments of a call, less owner and run id.
pub record ControlArgs : Type 0 where
  pub action : Action
  pub pid : ℕ
  pub is_managed : Bool
  pub process_guard : Option Guard
  pub completion_confirmed : Bool
  pub has_prepared_receipt : Bool
  pub preflight_new : Bool

-- Which call submits a task: the plain one, or one that also acquires or preflights it.
pub data Submission : Type 0 where
  plain with_acquire with_preflight : Submission

-- A request to the backend. All but `status` and `startup` carry the task id; those that need a
-- known host carry its epoch.
pub data HostCall : Type 0 where
  -- status of the whole host, with no_probe, and the epoch that it must have
  status : Bool → Option String → HostCall
  startup : String → HostCall
  -- the check of the runtime's view before a preflight
  verify : HostCall
  submit : Submission → String → Option String → HostCall
  acquire : String → Option String → HostCall
  -- status of the one task
  observe : String → Option String → HostCall
  -- an action with its fence token, pid and completion_confirmed
  act : Action → String → Option String → Option ℕ → ℕ → Bool → HostCall

pub data Effect : Type 0 where
  asked : HostCall → Effect
  -- `put(db, "run", run)`
  wrote : RunRow → Effect
  noted : PoolEvent → Effect

-- The host's answer to `status`.
pub record HostStatus : Type 0 where
  pub coordination_epoch : String
  pub tasks : List HostTask

-- The answer to a request about a task; `has_granted_task` is the truth of its `granted_task`.
pub record Reply : Type 0 where
  pub task : Option HostTask
  pub error : Option String
  pub has_granted_task : Bool

-- The answers to the calls that a `control` may make, or the text of the exception in their place,
-- the readings of the clock, and the job's `cancel_requested`, or the text of the exception where
-- the job of the owner is not there.
pub record Answers : Type 0 where
  pub recovered : Outcome String HostStatus
  pub started : Outcome String HostStatus
  pub listed : Outcome String HostStatus
  pub verified : Outcome String (Unit {0})
  pub submitted : Outcome String Reply
  pub acquired : Outcome String Reply
  pub observed : Outcome String HostStatus
  pub acted : Outcome String Reply
  pub cancel_requested : Outcome String Bool
  pub first_clock : ℕ
  pub second_clock : ℕ
  pub last_clock : ℕ

-- The local variables of `control`, with the trace of its effects so far.
pub record Progress : Type 0 where
  pub run : RunRow
  pub action : Action
  pub pending_status : Option HostStatus
  pub admission_reply : Option Reply
  pub fresh_preflight : Bool
  pub trace : List Effect

-- A stage of the `try` block ends with its variables, or with an exception: they stay as they were
-- when it was raised.
abbrev pub Stage : Type 0
Stage = Outcome (Progress × String) Progress

unfoldable pub note : Effect → Progress → Progress
note effect p = record p { trace = p.trace ++ effect ∷ [] }

unfoldable pub with_run : RunRow → Progress → Progress
with_run run p = record p { run = run }
