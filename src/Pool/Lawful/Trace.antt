-- ===== src/Pool/Lawful/Trace.antt =====
-- The trace that the last stages of `control` of vaws_coordinator/ready_runtime.py leave, whether
-- they end with their variables or with an exception.
use vaws_coordinator.Prelude.{
  String, true, false, Option, none, some, ◌≡◌, refl, List, [], ◌∷◌, ◌++◌, ◌==◌, string_eq,
  option_eq,
}
use vaws_coordinator.Prelude.Outcome.{Outcome, ok, err}
use vaws_coordinator.Host.State.{queued, state_eq}
use vaws_coordinator.Pool.State.{at, run_state_eq, HostTask}
use vaws_coordinator.Pool.Calls.{
  action_eq, acquire, observe, Effect, asked, ControlArgs, Answers, Progress, Stage, note,
}
use vaws_coordinator.Pool.Control.{
  ask, settle_task, settle_reply, observed_task, poll_host, settled,
}

abbrev pub trace_of : Stage → List Effect
trace_of (ok p) = p.trace
trace_of (err (p, text)) = p.trace

ask-trace :
    {A : Type 0} (reply : Outcome String A) (q : Progress) (next : A → Stage)
    → ((a : A) → trace_of (next a) ≡ q.trace)
    → trace_of (ask reply q next) ≡ q.trace
unfolding ask
ask-trace (ok a) q next f = f a
ask-trace (err text) q next f = refl

pub settle_task-trace :
    (error : Option String) (p : Progress) (task : Option HostTask)
    → trace_of (settle_task error p task) ≡ p.trace
unfolding settle_task
settle_task-trace error p none = refl
settle_task-trace error p (some task) = refl

observed_task-trace :
    (p : Progress) (tasks : List HostTask) → trace_of (observed_task p tasks) ≡ p.trace
unfolding observed_task
observed_task-trace p [] = refl
observed_task-trace p (task ∷ _) = settle_task-trace none p (some task)

-- The grant is asked for, or the task's status.
pub poll_host-queued :
    (answers : Answers) (q : Progress)
    → (q.run.state == at queued) ≡ true
    → trace_of (poll_host answers q none)
      ≡ q.trace ++ asked (acquire q.run.task_id q.run.epoch) ∷ []
unfolding poll_host settle_reply note
poll_host-queued answers q e = rw e (
    ask-trace answers.acquired (note (asked (acquire q.run.task_id q.run.epoch)) q) _
      (λ reply. settle_task-trace reply.error _ reply.task))

pub poll_host-other :
    (answers : Answers) (q : Progress)
    → (q.run.state == at queued) ≡ false
    → trace_of (poll_host answers q none)
      ≡ q.trace ++ asked (observe q.run.task_id q.run.epoch) ∷ []
unfolding poll_host note
poll_host-other answers q e = rw e (
    ask-trace answers.observed (note (asked (observe q.run.task_id q.run.epoch)) q) _
      (λ s. observed_task-trace _ s.tasks))

pub settled-trace : (args : ControlArgs) (s : Stage) → (settled args s).trace ≡ trace_of s
unfolding settled
settled-trace args (ok p) = refl
settled-trace args (err (p, text)) = refl
