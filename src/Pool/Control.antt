-- ===== src/Pool/Control.antt =====
-- One action on a run (`control` and `_verify_run_preflight` of vaws_coordinator/ready_runtime.py).
-- The lock of the run keeps every other writer of its row away between the transactions, so the
-- row that is read first is the one that is written. The `run-operation` events are diagnostics.
use vaws_coordinator.Prelude.{
  ℕ, String, Bool, true, false, Option, none, some, List, [], ◌∷◌, ◌&&◌, ◌||◌, not, ◌==◌, nat_eq,
  string_eq, option_eq, leb, if◌then◌else◌, find, is_some,
}
use vaws_coordinator.Prelude.Outcome.{Outcome, ok, err, ◌>>=◌}
use vaws_coordinator.Host.State.{TaskState, queued, cancelled, expired}
use vaws_coordinator.Pool.State.{
  RunState, pending, uncertain, at, run_state_eq, is_terminal, HostTask, RunRow, run_state,
}
use vaws_coordinator.Pool.Calls.{
  Action, poll, preflight, release, cancel, action_eq, Capabilities, ControlArgs, Submission, plain,
  with_acquire, with_preflight, status, startup, verify, submit, acquire, observe, act, asked,
  wrote, noted, HostStatus, Reply, Answers, Progress, Stage, note, with_run,
}

-- The tasks of the run in the host's answer.
unfoldable pub task_of : RunRow → HostStatus → Option HostTask
task_of run s = find (λ t. t.task_id == some run.task_id) s.tasks

-- run["task"], run["state"] = task, task["state"]
unfoldable pub with_task : HostTask → RunRow → RunRow
with_task task run = record run { task = some task; state = at task.state }

-- The answer to a call that is noted in the trace, or its exception.
unfoldable pub ask {ℓ} : {A : Type ℓ} → Outcome String A → Progress → (A → Stage) → Stage
ask (err text) p next = err (p, text)
ask (ok a) p next = next a

-- The task that the host shows for an uncertain run, or that it shows none.
unfoldable pub recover_task : Option HostTask → Progress → Stage
unfolding with_task
recover_task (some task) p =
    ok (record p { run = record (with_task task p.run) { submitted = true }; action = poll })
recover_task none p =
    if p.run.submitted
    then err (p, "host task disappeared; ownership remains unresolved")
    else ok (record p { run = record p.run { state = pending }; action = poll })

-- The state `uncertain`: the exact task is observed, and never submitted anew.
unfoldable pub recover : Answers → Progress → Stage
unfolding task_of recover_task ask note
recover answers p =
    if not (p.run.state == uncertain)
    then ok p
    else let q = note (asked (status false none)) p in
      ask answers.recovered q (λ s.
        if not (some s.coordination_epoch == q.run.epoch)
        then err (q, "host epoch changed; ownership requires operator reconciliation")
        else recover_task (task_of q.run s) q)

-- The end of a run whose host has no task of it.
unfoldable pub local_end : Action → RunRow → RunRow
local_end action run = record run { state = if action == cancel then at cancelled else at expired }

-- No epoch yet: the run ends here, or the host is discovered and the epoch is written.
unfoldable pub discover : Capabilities → ControlArgs → Answers → Progress → Stage
unfolding local_end ask note with_run
discover can args answers p =
    if is_some p.run.epoch
    then ok p
    else if p.action == cancel || leb p.run.deadline answers.first_clock
    then ok (with_run (local_end p.action p.run) p)
    else let call =
        if args.preflight_new && can.startup_context
        then startup p.run.task_id
        else status true none in
      let q = note (asked call) p in
      ask answers.started q (λ s.
        let run = record q.run { epoch = some s.coordination_epoch } in
        ok (note (wrote run) (record q { run = run; pending_status = some s })))

-- The task that the host lists for a pending run, or that it lists none.
unfoldable pub place_task : Answers → Progress → Option HostTask → Stage
unfolding with_task with_run local_end
place_task answers p (some task) =
    ok (with_run (record (with_task task p.run) { submitted = true }) p)
place_task answers p none =
    if leb p.run.deadline answers.second_clock || p.action == cancel
    then ok (with_run (local_end p.action p.run) p)
    else ok p

-- The state `pending`: a task that the host knows is taken over, and a late run ends.
unfoldable pub place : Answers → Progress → Stage
unfolding place_task task_of ask note
place answers p = if not (p.run.state == pending) then ok p else elim p.pending_status [
  | some s ↦ place_task answers p (task_of p.run s)
  | none ↦
      let q = note (asked (status true p.run.epoch)) p in
      ask answers.listed q (λ s. place_task answers q (task_of q.run s))
]

-- A managed run keeps the text of the failure.
unfoldable pub verified_run : ControlArgs → Progress → Outcome String (Unit {0}) → Stage
unfolding with_run
verified_run args q (ok _) = ok q
verified_run args q (err text) =
    let failed = with_run (record q.run { preflight_error = some text }) q in
    err (if args.is_managed then failed else q, text)

-- `_verify_run_preflight`
unfoldable pub verify_run : ControlArgs → Answers → Progress → Stage
unfolding verified_run note
verify_run args answers p = verified_run args (note (asked verify) p) answers.verified

-- A cancellation may have arrived meanwhile, and no task has been submitted.
unfoldable pub after_verification : Answers → Progress → Stage
unfolding ask
after_verification answers q = ask answers.cancel_requested q (λ requested.
    if requested
    then ok (record q { run = record q.run { state = at cancelled } })
    else ok (record q { fresh_preflight = true }))

-- The first turn of a managed run: its view is verified before the task is submitted.
unfoldable pub admit_new : Capabilities → ControlArgs → Answers → Progress → Stage
unfolding verify_run after_verification
admit_new can args answers p =
    if p.run.state == pending && p.action == poll && args.preflight_new && can.submit_and_preflight
    then (do q ← verify_run args answers p; after_verification answers q)
    else ok p

unfoldable pub submission : Capabilities → Progress → Submission
submission can p =
    if p.fresh_preflight
    then with_preflight
    else if can.submit_and_acquire
    then with_acquire
    else plain

-- The event of a task that was granted in the same call.
unfoldable pub note_grant : Bool → String → Progress → Progress
unfolding note
note_grant true id p = note (noted (run_state id (at TaskState.granted) none)) p
note_grant false id p = p

-- The row and the events after a task was submitted.
unfoldable pub submitted_run : Submission → Reply → HostTask → Progress → Progress
unfolding with_task note note_grant
submitted_run plain reply task p =
    let run = record (with_task task p.run) { submitted = true } in
    note (wrote run) (record p { run = run })
submitted_run with_acquire reply task p =
    let run = record (with_task task p.run) { submitted = true; error = none } in
    let q = note (wrote run) (record p { run = run; admission_reply = some reply }) in
    note (noted (run_state run.id run.state none)) q
submitted_run with_preflight reply task p =
    let run = record (with_task task p.run) { submitted = true; error = none } in
    let q = note (wrote run) (record p { run = run; admission_reply = some reply }) in
    note (noted (run_state run.id run.state none)) (note_grant reply.has_granted_task run.id q)

unfoldable pub submit_reply : Submission → Reply → Option HostTask → Progress → Stage
unfolding submitted_run
submit_reply kind reply none q = err (q, "'task'")
submit_reply kind reply (some task) q = ok (submitted_run kind reply task q)

unfoldable pub submit_run : Capabilities → Answers → Progress → Stage
unfolding submission submit_reply ask note
submit_run can answers p =
    if not (p.run.state == pending && p.action == poll)
    then ok p
    else let kind = submission can p in
      let q = note (asked (submit kind p.run.task_id p.run.epoch)) p in
      ask answers.submitted q (λ reply. submit_reply kind reply reply.task q)

abbrev text_or : Option String → String → String
text_or none text = text
text_or (some text) _ = text

-- run.update(task, state, environment, service_port) from the reply
unfoldable pub settle_task : Option String → Progress → Option HostTask → Stage
unfolding with_task with_run
settle_task error p none = err (p, text_or error "host probe did not return a task")
settle_task error p (some task) =
    let run = record (with_task task p.run) {
      error = none;
      visible_devices = some task.granted_devices;
      service_port =
          if is_some task.granted_service_port
          then task.granted_service_port
          else p.run.service_port;
    } in
    ok (with_run run p)

unfoldable pub settle_reply : Reply → Progress → Stage
unfolding settle_task
settle_reply reply p = settle_task reply.error p reply.task

-- The task that stands for a run that ended without one.
unfoldable pub ended_task : TaskState → HostTask
ended_task state = record {
  task_id = none;
  state = state;
  fence_token = none;
  granted_devices = [];
  granted_service_port = none;
}

-- status["tasks"][0]
unfoldable pub observed_task : Progress → List HostTask → Stage
unfolding settle_task
observed_task p [] = err (p, "list index out of range")
observed_task p (task ∷ _) = settle_task none p (some task)

-- The action `poll`, where a submission may have answered it.
unfoldable pub poll_host : Answers → Progress → Option Reply → Stage
unfolding settle_reply observed_task ask note
poll_host answers p (some reply) = settle_reply reply p
poll_host answers p none =
    if p.run.state == at queued
    then (let q = note (asked (acquire p.run.task_id p.run.epoch)) p in
        ask answers.acquired q (λ reply. settle_reply reply q))
    else (let q = note (asked (observe p.run.task_id p.run.epoch)) p in
        ask answers.observed q (λ s. observed_task q s.tasks))

abbrev pub fence_of : Option HostTask → Option ℕ
fence_of none = none
fence_of (some task) = task.fence_token

-- Every other action.
unfoldable pub act_host : ControlArgs → Answers → Progress → Stage
unfolding verify_run settle_reply ask note
act_host args answers p = do
  q ← if p.action == preflight then verify_run args answers p else ok p
  let confirmed = q.action == release && args.completion_confirmed
  let call = act q.action q.run.task_id q.run.epoch (fence_of q.run.task) args.pid confirmed
  let r = note (asked call) q
  ask answers.acted r (λ reply. settle_reply reply r)

-- run.get("task", {"state": run["state"]})
unfoldable pub last_task : RunState → Option HostTask → Option HostTask
unfolding ended_task
last_task state (some task) = some task
last_task (at state) none = some (ended_task state)
last_task _ none = none

-- The reply to the action, and what it says of the run.
unfoldable pub answer : ControlArgs → Answers → Progress → Stage
unfolding poll_host act_host settle_task last_task
answer args answers p =
    if is_terminal p.run.state
    then settle_task none p (last_task p.run.state p.run.task)
    else if p.action == poll
    then poll_host answers p p.admission_reply
    else act_host args answers p

-- The `try` block.
unfoldable pub attempt : Capabilities → ControlArgs → Answers → Progress → Stage
unfolding recover discover place admit_new submit_run answer
attempt can args answers start =
    recover answers start
    >>= discover can args answers
    >>= place answers
    >>= admit_new can args answers
    >>= submit_run can answers
    >>= answer args answers

-- The `except` clause: with an epoch a request may have reached the host.
unfoldable pub failed_run : ControlArgs → Action → String → RunRow → RunRow
failed_run args action text run =
    let keeps =
      args.is_managed
      && (action == preflight || args.preflight_new)
      && is_some run.preflight_error in
    record run {
      state = if keeps then run.state else if is_some run.epoch then uncertain else pending;
      error = some text;
    }

unfoldable pub settled : ControlArgs → Stage → Progress
unfolding failed_run with_run
settled args (ok p) = p
settled args (err (p, text)) = with_run (failed_run args p.action text p.run) p
