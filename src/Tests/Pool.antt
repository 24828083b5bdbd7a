-- ===== src/Tests/Pool.antt =====
-- Runs of the runtime pool on a sample database, and witnesses of its theorems.
use vaws_coordinator.Prelude.{
  true, false, none, some, ◌≡◌, ◌↔◌, ◌⊎◌, sym, ◌∙◌, UniqueKeys, In-one, refl, [], ◌∷◌, In, here,
  there, ne_of_test, string_eq,
}
use vaws_coordinator.Prelude.Outcome.{ok, err}
use vaws_coordinator.Pool.Values.{RootPath, ready, bound, unresolved_execution, roots_overlap}
use vaws_coordinator.Pool.State.{
  RuntimeRow, BindingRow, CheckoutIntent, RunRow, PoolDb, at, uncertain,
}
use vaws_coordinator.Pool.Calls.{Answers, submit, acquire, plain, asked}
use vaws_coordinator.Pool.Registry.{
  posix_roots_overlap, Spec, register_commit, registered_row, checkout_row,
}
use vaws_coordinator.Pool.Checkout.{session_commit, return_runtime, checkout}
use vaws_coordinator.Pool.Table.{get_runtime}
use vaws_coordinator.Pool.Runs.{
  request_commit, control_begin, controlled, new_run, request_begin, apply_effect, last_written,
}
use vaws_coordinator.Host.State.{queued}
use vaws_coordinator.Pool.Lawful.{Addressed}
use vaws_coordinator.Pool.Exclusive.{Held}
use vaws_coordinator.Pool.System.{
  System, with_db, with_flight, Reachable, next, registered, begun, happened,
}
use vaws_coordinator.Pool.Registry.Overlap.{Under, posix_roots_overlap_iff}
use vaws_coordinator.Pool.Lawful.Observed.{Observes, uncertain_task_observed}
use vaws_coordinator.Pool.Checkout.Candidates.{Serves, Fits}
use vaws_coordinator.Pool.Checkout.Answers.{checkout_answers_request}
use vaws_coordinator.Pool.Runs.Retry.{request_retry}
use vaws_coordinator.Pool.System.Apart.{roots_apart}
use vaws_coordinator.Pool.System.Persist.{Persists, now_same, one_more, runs_persist}
use vaws_coordinator.Pool.System.Safety.{runs_exclusive, live_runs_bound, requests_durable}
use vaws_coordinator.Tests.PoolSamples.{
  value_or_else, spec, attestation, intent, with_session, with_runtime, run, with_run,
  bound_runtime, requested_run, bound_runtime-Reachable, requested_run-Reachable, binding, polled,
  plain_backend, host_status, queued_reply, answers,
}

runs_exclusive_example : run.id ≡ run.id
unfolding with_db request_commit register_commit session_commit
runs_exclusive_example =
    runs_exclusive requested_run requested_run-Reachable run run here here refl refl binding binding
      here here refl refl refl

live_runs_bound_example :
    (b : BindingRow) × In b requested_run.db.bindings
    × (b.id ≡ "binding")
    × (b.is_bound ≡ true)
    × Held requested_run.db.runtimes b
unfolding with_db request_commit register_commit session_commit
live_runs_bound_example = live_runs_bound requested_run requested_run-Reachable run here refl

-- The run cannot be left behind: its runtime is not returned before it is over.
return_refused : return_runtime "alice" "binding" 30 requested_run.db ≡ err unresolved_execution
unfolding with_db request_commit register_commit session_commit return_runtime
return_refused = refl

-- A second root of the same container.
abbrev second_spec : Spec
second_spec = record spec { root = ("/", "work" ∷ "b" ∷ []) }

abbrev with_second : PoolDb
with_second =
    value_or_else (register_commit none "second" second_spec false attestation 15 with_runtime)
      with_runtime

abbrev two_roots : System
two_roots = with_db bound_runtime with_second

-- A root inside the other one is refused.
overlap_refused :
    register_commit none "inner"
      (record spec { root = ("/", "work" ∷ "a" ∷ "b" ∷ []) })
      false
      attestation
      15
      with_runtime
    ≡ err roots_overlap
unfolding register_commit session_commit
overlap_refused = refl

two_roots-Reachable : Reachable two_roots
unfolding with_db register_commit session_commit
two_roots-Reachable =
    next bound_runtime-Reachable (registered none "second" second_spec false attestation 15 refl)

roots_apart_example : posix_roots_overlap ("/", "work" ∷ "a" ∷ []) ("/", "work" ∷ "b" ∷ []) ≡ false
unfolding with_db register_commit session_commit registered_row
roots_apart_example =
    roots_apart two_roots two_roots-Reachable
      (registered_row "runtime" spec attestation false bound)
      (registered_row "second" second_spec attestation false ready) here (there here)
      (λ e. ne_of_test "runtime" "second" refl e) (refl, refl, refl)

abbrev polling : System
polling =
    with_flight requested_run "run" (some (run, (controlled plain_backend polled answers run).1))

-- The epoch is written, the task is submitted, and then acquired.
polled_state : (controlled plain_backend polled answers run).0.state ≡ at queued
unfolding controlled new_run
polled_state = refl

polling-Reachable : Reachable polling
unfolding with_db request_commit register_commit session_commit with_flight control_begin
polling-Reachable =
    next requested_run-Reachable (begun plain_backend "alice" "run" polled answers refl refl refl)

-- The effects of the call that come after the epoch was asked for and written.
abbrev known_run : RunRow
known_run = record run { epoch = some "epoch" }

abbrev one_effect : System → System
one_effect s = elim (s.flights "run") [
  | some (row, effect ∷ rest) ↦
      with_flight (with_db s (apply_effect 31 "alice" effect s.db)) "run"
        (some (last_written row (effect ∷ []), rest))
  | _ ↦ s
]

abbrev submitting : System
submitting = one_effect (one_effect polling)

submitting-Reachable : Reachable submitting
unfolding with_db request_commit register_commit session_commit with_flight control_begin controlled
submitting-Reachable =
    next (next polling-Reachable (happened "run" "alice" 31 refl)) (happened "run" "alice" 31 refl)

-- The first request that may change the host is the submission, and it is about to be sent.
requests_durable_example :
    (known_run.id ≡ "run")
    × In known_run submitting.db.runs
    × Addressed known_run (submit plain "pool-1" (some "epoch"))
unfolding with_db request_commit register_commit session_commit with_flight controlled
requests_durable_example =
    requests_durable submitting submitting-Reachable "run" known_run
      (submit plain "pool-1" (some "epoch")) _ refl

-- The run after its call has begun, asked for the epoch and written it.
runs_persist_example : Persists run submitting.db.runs
unfolding with_db request_commit register_commit session_commit with_flight control_begin controlled
runs_persist_example =
    runs_persist requested_run submitting requested_run-Reachable
      (one_more
        (one_more
          (one_more now_same (begun plain_backend "alice" "run" polled answers refl refl refl))
          (happened "run" "alice" 31 refl))
        (happened "run" "alice" 31 refl))
      run here

posix_roots_overlap_iff_example :
    (posix_roots_overlap ("/", "work" ∷ []) ("/", "work" ∷ "a" ∷ []) ≡ true)
    ↔ ((p : RootPath) × Under ("/", "work" ∷ []) p × Under ("/", "work" ∷ "a" ∷ []) p)
posix_roots_overlap_iff_example =
    posix_roots_overlap_iff ("/", "work" ∷ []) ("/", "work" ∷ "a" ∷ [])

-- A run whose submission was answered, and whose next request was not.
abbrev doubtful : RunRow
doubtful = record run {
  state = uncertain;
  epoch = some "epoch";
  submitted = true;
  task = queued_reply.task;
}

-- The host shows the task queued, so its grant is asked for.
abbrev still_queued : Answers
still_queued = record answers {
  recovered = ok (record host_status {
    tasks =
        record {
          task_id = some "pool-1";
          state = queued;
          fence_token = none;
          granted_devices = [];
          granted_service_port = none;
        }
        ∷ [];
  });
}

uncertain_task_observed_example : Observes still_queued doubtful (acquire "pool-1" (some "epoch"))
unfolding controlled new_run
uncertain_task_observed_example =
    uncertain_task_observed plain_backend polled still_queued doubtful refl refl
      (acquire "pool-1" (some "epoch")) (there here)

-- A run whose submission was not answered, and which the host does not show, is submitted again in
-- the same call, with the same task id.
abbrev unanswered : RunRow
unanswered = record run { state = uncertain; epoch = some "epoch" }

unanswered_submitted_again :
    In
      (asked (submit plain "pool-1" (some "epoch")))
      (controlled plain_backend polled (record answers { recovered = ok host_status }) unanswered).1
unfolding controlled new_run
unanswered_submitted_again = there (there here)

request_retry_example :
    request_begin "alice" "run" "binding" intent with_run
    ≡ ok (some run, binding, registered_row "runtime" spec attestation false bound)
unfolding request_commit register_commit session_commit get_runtime
request_retry_example =
    request_retry "alice" "run" "binding" intent "pool-1" 20 with_runtime with_run run binding
      (registered_row "runtime" spec attestation false bound) refl refl refl

-- A second, unbound root serves a request for its profile.
abbrev wanted : CheckoutIntent
wanted = record { session = "session"; profile_key = "profile"; runtime_id = "runtime" }

abbrev with_ready : PoolDb
with_ready =
    value_or_else (register_commit none "runtime" spec false attestation 10 with_session)
      with_session

abbrev served : BindingRow
served =
    checkout_row "alice" "session" "second" (registered_row "runtime" spec attestation false ready)
      attestation "runtime"

abbrev after_checkout : PoolDb
after_checkout =
    (value_or_else (checkout (λ r. ok attestation) "alice" wanted "second" 12 with_ready)
      (none, with_ready)).1

one_unique : (x : RuntimeRow) → UniqueKeys (λ (r : RuntimeRow). r.id) (x ∷ [])
one_unique x = record {
  same = λ r t i j e. In-one (λ r. r.id) r x i ∙ sym (In-one (λ r. r.id) t x j);
}

checkout_answers_request_example :
    Fits wanted "second" served after_checkout
    × ((with_ready ≡ after_checkout)
        ⊎ Serves (λ r. ok attestation) "alice" wanted with_ready.runtimes "runtime")
unfolding checkout register_commit session_commit checkout_row
checkout_answers_request_example =
    checkout_answers_request (λ r. ok attestation) "alice" wanted "second" 12 with_ready
      after_checkout served (one_unique _) refl
