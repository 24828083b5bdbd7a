-- ===== src/Tests/PoolSamples.antt =====
-- A sample database of the runtime pool, with a bound runtime and a run, and the answers of a host.
use vaws_coordinator.Prelude.{false, none, some, refl, [], ◌∷◌, string_eq}
use vaws_coordinator.Prelude.Int.{pos}
use vaws_coordinator.Prelude.Outcome.{Outcome, ok, err}
use vaws_coordinator.Pool.Values.{Attestation, bound}
use vaws_coordinator.Pool.State.{BindingRow, RunRow, RunIntent, PoolDb}
use vaws_coordinator.Pool.Calls.{Capabilities, ControlArgs, Answers, HostStatus, Reply, poll}
use vaws_coordinator.Pool.Registry.{Spec, Checkout, register_commit, registered_row, checkout_row}
use vaws_coordinator.Pool.Checkout.{session_commit}
use vaws_coordinator.Pool.Runs.{request_commit, new_run}
use vaws_coordinator.Host.State.{queued}
use vaws_coordinator.Pool.System.{
  System, with_db, fresh_pool, Reachable, start, next, opened, registered, requested,
}

abbrev pub value_or_else : {A E : Type 0} → Outcome E A → A → A
value_or_else (ok a) d = a
value_or_else (err e) d = d

abbrev pub spec : Spec
spec = record {
  user = "alice";
  python = "/opt/python";
  container_name = "vaws-alice";
  endpoint = record { host = "node"; port = 46000; user = "root" };
  root = ("/", "work" ∷ "a" ∷ []);
  host_endpoint = record { host = "node"; port = 22; user = "root" };
  service_ports = 8000 ∷ [];
  reuse_only = false;
}

abbrev pub attestation : Attestation
attestation = record {
  profile_key = "profile";
  build_key = "build";
  launch_preamble = "";
  container_id = some "c1";
  rest = "";
}

abbrev pub intent : RunIntent
intent = record {
  snapshots = [];
  build_key = "build";
  devices = 0 ∷ [];
  npu_count = 0;
  priority = pos 0;
  queue_seconds = 600;
  service_port = none;
  allow_external_busy = false;
}

abbrev pub checkout_key : Checkout
checkout_key = record { owner = "alice"; session = "session"; key = "binding" }

abbrev pub with_session : PoolDb
with_session = (session_commit "alice" "task" "session" [] fresh_pool.db).1

abbrev pub with_runtime : PoolDb
with_runtime =
    value_or_else
      (register_commit (some checkout_key) "runtime" spec false attestation 10 with_session)
      with_session

abbrev pub run : RunRow
run = new_run "run" "alice" "binding" intent "pool-1" 20

abbrev pub with_run : PoolDb
with_run =
    (value_or_else (request_commit "alice" "run" "binding" intent "pool-1" 20 with_runtime)
      (run, with_runtime)).1

abbrev pub bound_runtime : System
bound_runtime = with_db (with_db fresh_pool with_session) with_runtime

abbrev pub requested_run : System
requested_run = with_db bound_runtime with_run

pub bound_runtime-Reachable : Reachable bound_runtime
unfolding with_db session_commit register_commit
bound_runtime-Reachable =
    next (next start (opened "alice" "task" "session" [] refl))
      (registered (some checkout_key) "runtime" spec false attestation 10 refl)

pub requested_run-Reachable : Reachable requested_run
unfolding with_db request_commit register_commit session_commit
requested_run-Reachable =
    next bound_runtime-Reachable (requested "alice" "run" "binding" intent "pool-1" 20 refl refl)

abbrev pub binding : BindingRow
binding =
    checkout_row "alice" "session" "binding" (registered_row "runtime" spec attestation false bound)
      attestation "runtime"

abbrev pub polled : ControlArgs
polled = record {
  action = poll;
  pid = 0;
  is_managed = false;
  process_guard = none;
  completion_confirmed = false;
  has_prepared_receipt = false;
  preflight_new = false;
}

abbrev pub plain_backend : Capabilities
plain_backend = record {
  startup_context = false;
  submit_and_preflight = false;
  submit_and_acquire = false;
}

abbrev pub host_status : HostStatus
host_status = record { coordination_epoch = "epoch"; tasks = [] }

abbrev pub queued_reply : Reply
queued_reply = record {
  task = some (record {
    task_id = some "pool-1";
    state = queued;
    fence_token = none;
    granted_devices = [];
    granted_service_port = none;
  });
  error = none;
  has_granted_task = false;
}

abbrev pub answers : Answers
answers = record {
  recovered = err "unreachable";
  started = ok host_status;
  listed = ok host_status;
  verified = ok tt;
  submitted = ok queued_reply;
  acquired = ok queued_reply;
  observed = ok host_status;
  acted = ok queued_reply;
  cancel_requested = ok false;
  first_clock = 30;
  second_clock = 31;
  last_clock = 32;
}
