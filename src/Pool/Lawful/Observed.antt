-- ===== src/Pool/Lawful/Observed.antt =====
-- What `control` of vaws_coordinator/ready_runtime.py asks of the host for a run in the state
-- `uncertain`, whose last request may or may not have reached the host.
use vaws_coordinator.Prelude.{
  String, Bool, true, false, Option, none, some, ◌≡◌, refl, sym, subst, inl, inr, List, [], ◌∷◌,
  ◌++◌, if◌then◌else◌, not, ◌==◌, string_eq, option_eq, is_some, In, In-append, here, there,
  find-In, ==→≡, Bool-cases,
}
use vaws_coordinator.Prelude.Outcome.{ok, err, ◌>>=◌, Outcome-cases}
use vaws_coordinator.Host.State.{queued, is_finished, state_eq}
use vaws_coordinator.Pool.State.{RunRow, uncertain, pending, at, run_state_eq, HostTask, PoolEvent}
use vaws_coordinator.Pool.Calls.{
  poll, action_eq, HostCall, status, acquire, observe, Effect, asked, wrote, noted, HostStatus,
  Capabilities, ControlArgs, Answers, Progress, Stage, note,
}
use vaws_coordinator.Pool.Control.{
  ask, recover, recover_task, with_task, task_of, discover, place, admit_new, submit_run, last_task,
  poll_host, answer, attempt, settled,
}
use vaws_coordinator.Pool.Runs.{controlled, start_of}
use vaws_coordinator.Pool.Lawful.Trace.{
  trace_of, settle_task-trace, poll_host-queued, poll_host-other, settled-trace,
}

-- The host answered the question after the run with the epoch of the run and with its task.
pub record Found (answers : Answers) (run : RunRow) (task : HostTask) : Type 0 where
  pub reply : HostStatus
  pub answered : answers.recovered ≡ ok reply
  pub same_host : some reply.coordination_epoch ≡ run.epoch
  pub listed : In task reply.tasks
  pub of_run : task.task_id ≡ some run.task_id

-- What may be asked for an uncertain run with a submitted task: the status of the host; the status
-- of the task, once it was found neither over nor queued; and the grant of the task, once it was
-- found queued. Nothing else.
abbrev pub Observes : Answers → RunRow → HostCall → Type 0
Observes answers run (status no_probe epoch) = (no_probe ≡ false) × (epoch ≡ none)
Observes answers run (observe task_id epoch) =
    (task_id ≡ run.task_id)
    × (epoch ≡ run.epoch)
    × ((task : HostTask) × Found answers run task
        × (is_finished task.state ≡ false)
        × (task.state == queued ≡ false))
Observes answers run (acquire task_id epoch) =
    (task_id ≡ run.task_id)
    × (epoch ≡ run.epoch)
    × ((task : HostTask) × Found answers run task × (task.state ≡ queued))
Observes answers run _ = ⊥

module _ (can : Capabilities) (args : ControlArgs) (answers : Answers) (run : RunRow) where
  Fine : List Effect → Type 0
  Fine effects = (call : HostCall) → In (asked call) effects → Observes answers run call

  looked : List Effect
  looked = asked (status false none) ∷ []

  -- The variables after the task was found.
  found : HostTask → Progress
  found task = record (start_of args run) {
    run = record run { task = some task; state = at task.state; submitted = true };
    action = poll;
    trace = looked;
  }

  looked-Fine : Fine looked
  unfolding Fine looked
  looked-Fine call here = (refl, refl)
  looked-Fine call (there i) = elim i [ ]

  last-Fine :
      (last call : HostCall)
      → Observes answers run last
      → In (asked call) (asked last ∷ [])
      → Observes answers run call
  last-Fine last call fine here = fine
  last-Fine last call fine (there i) = elim i [ ]

  more-Fine : (last : HostCall) → Observes answers run last → Fine (looked ++ asked last ∷ [])
  unfolding Fine looked
  more-Fine last fine call i = elim (In-append (asked (status false none) ∷ []) _ i) [
    | inl j ↦ looked-Fine call j
    | inr j ↦ last-Fine last call fine j
  ]

  -- The stages between do nothing to a run whose task was found.
  found-attempt :
      (task : HostTask)
      → is_some run.epoch ≡ true
      → (ok (found task)
          >>= discover can args answers
          >>= place answers
          >>= admit_new can args answers
          >>= submit_run can answers)
        ≡ ok (found task)
  unfolding found discover place admit_new submit_run
  found-attempt task known = rw known refl

  poll-Fine :
      (task : HostTask)
      → Found answers run task
      → is_finished task.state ≡ false
      → Fine (trace_of (poll_host answers (found task) none))
  unfolding found
  poll-Fine task h live = elim (Bool-cases (task.state == queued)) [
    | inl same ↦
        subst Fine (sym (poll_host-queued answers (found task) same))
          (more-Fine _ (refl, refl, (task, h, ==→≡ task.state queued same)))
    | inr other ↦
        subst Fine (sym (poll_host-other answers (found task) other))
          (more-Fine _ (refl, refl, (task, h, live, other)))
  ]

  answer-Fine :
      (task : HostTask)
      → Found answers run task
      → Fine (trace_of (answer args answers (found task)))
  unfolding answer found last_task
  answer-Fine task h = elim (Bool-cases (is_finished task.state)) [
    | inl over ↦
        rw over (subst Fine (sym (settle_task-trace none (found task) (some task))) looked-Fine)
    | inr live ↦ rw live (poll-Fine task h live)
  ]

  -- The variables after the question after the run.
  looking : Progress
  looking = record (start_of args run) { trace = looked }

  rest : Stage → Stage
  rest s =
      s
      >>= discover can args answers
      >>= place answers
      >>= admit_new can args answers
      >>= submit_run can answers
      >>= answer args answers

  -- Where the host shows the task or not.
  shown-Fine :
      (reply : HostStatus)
      → answers.recovered ≡ ok reply
      → some reply.coordination_epoch ≡ run.epoch
      → run.submitted ≡ true
      → (task : Option HostTask) → task_of run reply ≡ task
      → Fine (trace_of (rest (recover_task task looking)))
  unfolding recover_task with_task looking found rest task_of
  shown-Fine reply answered same submitted none hidden =
      subst
        (λ b. Fine (
          trace_of (
            rest (
              if b
              then err (looking, "host task disappeared; ownership remains unresolved")
              else ok (record looking { run = record run { state = pending }; action = poll })))))
        (sym submitted) looked-Fine
  shown-Fine reply answered same submitted (some task) shown =
      let (listed, of_run) =
        find-In (λ (t : HostTask). t.task_id == some run.task_id) reply.tasks shown in
      let h : Found answers run task = record {
        reply = reply;
        answered = answered;
        same_host = same;
        listed = listed;
        of_run = ==→≡ task.task_id (some run.task_id) of_run;
      } in
      let known : is_some run.epoch ≡ true = subst (λ o. is_some o ≡ true) same refl in
      subst (λ s. Fine (trace_of (s >>= answer args answers))) (sym (found-attempt task known))
        (answer-Fine task h)

  recover-raised :
      (text : String)
      → run.state ≡ uncertain
      → answers.recovered ≡ err text
      → recover answers (start_of args run) ≡ err (looking, text)
  unfolding recover note ask looking looked
  recover-raised text e raised = simp (e, raised)

  recover-answered :
      (reply : HostStatus)
      → run.state ≡ uncertain
      → answers.recovered ≡ ok reply
      → recover answers (start_of args run) ≡ (
          if not (some reply.coordination_epoch == run.epoch)
          then err (looking, "host epoch changed; ownership requires operator reconciliation")
          else recover_task (task_of run reply) looking)
  unfolding recover note ask looking looked
  recover-answered reply e answered = simp (e, answered)

  attempt-Fine :
      run.state ≡ uncertain
      → run.submitted ≡ true
      → Fine (trace_of (attempt can args answers (start_of args run)))
  unfolding attempt rest looking looked
  attempt-Fine e submitted = elim (Outcome-cases answers.recovered) [
    | inr (text, raised) ↦
        subst (λ s. Fine (trace_of (rest s))) (sym (recover-raised text e raised)) looked-Fine
    | inl (reply, answered) ↦
        subst (λ s. Fine (trace_of (rest s))) (sym (recover-answered reply e answered))
          (elim (Bool-cases (some reply.coordination_epoch == run.epoch)) [
            | inr changed ↦ rw changed looked-Fine
            | inl same ↦ rw same (
                shown-Fine reply answered (==→≡ (some reply.coordination_epoch) run.epoch same)
                  submitted (task_of run reply) refl)
          ])
  ]

-- What follows the trace is the last write and its event.
asked-last :
    (call : HostCall) (row : RunRow) (quiet : Bool) (event : PoolEvent)
    → In (asked call) (wrote row ∷ (if quiet then [] else noted event ∷ []))
    → ⊥
asked-last call row true event (there i) = elim i [ ]
asked-last call row false event (there (there i)) = elim i [ ]

-- For a run in the state `uncertain` whose task was submitted, whatever action is asked for and
-- whatever the host answers, `control` sends nothing in this call but: the status of the host; the
-- status of the run's task, after the host showed it, with the epoch of the run, neither over nor
-- queued; and the acquisition of the task, after the host showed it queued. So it sends no
-- submission and no preflight, activation, heartbeat, release or cancellation.
pub uncertain_task_observed :
    (can : Capabilities) (args : ControlArgs) (answers : Answers) (run : RunRow)
    → run.state ≡ uncertain
    → run.submitted ≡ true
    → (call : HostCall) → In (asked call) (controlled can args answers run).1
    → Observes answers run call
unfolding controlled Fine
uncertain_task_observed can args answers run e submitted call i =
    let s = attempt can args answers (start_of args run) in
    elim (In-append (settled args s).trace _ i) [
      | inl j ↦
          attempt-Fine can args answers run e submitted call
            (subst (In (asked call)) (settled-trace args s) j)
      | inr j ↦ absurd (asked-last call _ _ _ j)
    ]
