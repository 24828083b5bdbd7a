-- ===== src/Tests/Samples.antt =====
-- Sample requests, observations and histories for the host coordinator.
use vaws_coordinator.Prelude.{ℕ, String, Bool, true, false, Option, none, some, List, [], ◌∷◌}
use vaws_coordinator.Prelude.Int.{pos}
use vaws_coordinator.Host.State.{Request, Observation, Listening}
use vaws_coordinator.Host.Guard.{Procfs}
use vaws_coordinator.Host.Submit.{SubmitRequest}
use vaws_coordinator.Host.Run.{Call, Op, submit, acquire, reserve_container_ssh}

abbrev pub marker : String
marker = "0123456789abcdef0123456789abcdef"

abbrev pub quiet : Procfs
quiet = record { boot_id = some "boot"; processes = [] }

abbrev pub at : ℕ → Call
at now = record { now = now; proc = quiet; expected_epoch = none }

abbrev pub want : ℕ → SubmitRequest
want count = record {
  task_id = none;
  agent_id = "agent-1";
  agent_alias = none;
  session_id = none;
  container_name = none;
  message = none;
  devices = none;
  npu_count = some (pos count);
  allow_external_busy = false;
  service_port = none;
  service_ports = [];
  estimated_duration_seconds = none;
  not_before = none;
  latest_start = none;
  queue_ttl_seconds = none;
  priority = none;
  preemptible = false;
}

abbrev pub free : List ℕ → Option Observation
free devices = some (record { is_ok = true; devices = devices; busy = some [] })

-- task-a takes device 0, then task-b takes device 1
abbrev pub two_grants : List (Call × Op)
two_grants =
    (at 100, submit "task-a" (want 1))
    ∷ (at 101, acquire "task-a" (free (0 ∷ 1 ∷ [])) 60 none)
    ∷ (at 102, submit "task-b" (want 1))
    ∷ (at 103, acquire "task-b" (free (0 ∷ 1 ∷ [])) 60 none)
    ∷ []

abbrev pub two_queued : List (Call × Op)
two_queued = (at 100, submit "task-a" (want 1)) ∷ (at 102, submit "task-b" (want 1)) ∷ []

-- task-a takes device 0 and lets its grant elapse; task-b takes device 0
abbrev pub elapsed_grant : List (Call × Op)
elapsed_grant =
    (at 100, submit "task-a" (want 1))
    ∷ (at 101, acquire "task-a" (free (0 ∷ [])) 60 none)
    ∷ (at 102, submit "task-b" (want 1))
    ∷ (at 200, acquire "task-b" (free (0 ∷ [])) 60 none)
    ∷ []

-- no tie on submission times occurs in the samples
abbrev pub text_lt : String → String → Bool
text_lt a b = false

abbrev pub blank : Request
blank = record {
  agent_id = "agent-1";
  agent_alias = none;
  session_id = none;
  container_name = none;
  requested_count = 1;
  requested_devices = none;
  allow_external_busy = false;
  not_before = 0;
  latest_start = 1000;
  estimated_duration_seconds = 60;
  preemptible = false;
  priority = pos 0;
  submitted_at = 0;
  requested_service_port = none;
  service_port_choices = [];
}

abbrev pub idle_ports : Option Listening
idle_ports = some (record { is_ok = true; ports = 30001 ∷ [] })

-- task-a is granted a service port from the ports it declares, then alice a container SSH port
abbrev pub two_ports : List (Call × Op)
two_ports =
    (
      at 100,
      submit "task-a" (record (want 1) {
        service_port = some (pos 0);
        service_ports = pos 30001 ∷ pos 30002 ∷ [];
      }),
    )
    ∷ (at 101, acquire "task-a" (free (0 ∷ [])) 60 idle_ports)
    ∷ (at 102, reserve_container_ssh "alice" "vaws-alice" 46001 idle_ports)
    ∷ []
