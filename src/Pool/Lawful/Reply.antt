-- ===== src/Pool/Lawful/Reply.antt =====
-- The last stage of `control` of vaws_coordinator/ready_runtime.py: the answer to the action.
use vaws_coordinator.Prelude.{
  String, true, false, Option, none, some, ◌≡◌, refl, List, [], ◌∷◌, arith, ◌&&◌, ◌==◌, and-true,
}
use vaws_coordinator.Host.State.{queued, is_finished}
use vaws_coordinator.Pool.State.{
  RunRow, RunState, uncertain, pending, at, run_state_eq, is_terminal, HostTask,
}
use vaws_coordinator.Pool.Calls.{
  poll, preflight, release, action_eq, HostCall, verify, acquire, observe, act, asked, Reply,
  ControlArgs, Answers, Progress, note, with_run,
}
use vaws_coordinator.Pool.Control.{
  with_task, verify_run, settle_task, settle_reply, observed_task, poll_host, act_host, fence_of,
  last_task, ended_task, answer,
}
use vaws_coordinator.Pool.Lawful.{Sound, Sound-asked}
use vaws_coordinator.Pool.Lawful.Stages.{
  Goes, Goes-ok, Goes-err, Goes-if, Goes-ask, Goes-bind, Sound-moved, Sound-ended, Submitted,
  listed-Shown,
}
use vaws_coordinator.Pool.Lawful.Answer.{Named-current, verified_run-Goes}

-- The end of a call.
abbrev pub Anything : Progress → Type 0
Anything p = Unit

settle_task-Goes :
    (run : RunRow) (error : Option String) (q : Progress) (task : Option HostTask)
    → Sound run q
    → Submitted q
    → is_terminal q.run.state ≡ false
    → Goes run Anything (settle_task error q task)
unfolding settle_task with_task with_run
settle_task-Goes run error q none h d live = Goes-err run Anything q _ h live
settle_task-Goes run error q (some task) h d live =
    let listed = h.kept.shown.listed live (d.on live) in
    Goes-ok run Anything _
      (Sound-moved run q _ h refl refl live
        (listed-Shown _ task refl (and-true _ _ listed).0 (and-true _ _ listed).1))
      tt

asked-Submitted : (p : Progress) (call : HostCall) → Submitted p → Submitted (note (asked call) p)
unfolding note
asked-Submitted p call d = record { known = d.known; on = d.on; agrees = d.agrees }

observed_task-Goes :
    (run : RunRow) (q : Progress) (tasks : List HostTask)
    → Sound run q
    → Submitted q
    → is_terminal q.run.state ≡ false
    → Goes run Anything (observed_task q tasks)
unfolding observed_task
observed_task-Goes run q [] h d live = Goes-err run Anything q _ h live
observed_task-Goes run q (task ∷ _) h d live = settle_task-Goes run none q (some task) h d live

poll_host-Goes :
    (run : RunRow) (answers : Answers) (p : Progress) (reply : Option Reply)
    → Sound run p
    → Submitted p
    → is_terminal p.run.state ≡ false
    → Goes run Anything (poll_host answers p reply)
unfolding poll_host settle_reply note
poll_host-Goes run answers p (some reply) h d live =
    settle_task-Goes run reply.error p reply.task h d live
poll_host-Goes run answers p none h d live =
    let named = Named-current run p h (d.known live) in
    Goes-if run Anything (p.run.state == at queued)
      (λ _.
        let q = note (asked (acquire p.run.task_id p.run.epoch)) p in
        let sound = Sound-asked run p (acquire p.run.task_id p.run.epoch) h named in
        Goes-ask run Anything answers.acquired q _ sound live (λ reply.
          settle_task-Goes run reply.error q reply.task sound (asked-Submitted p _ d) live))
      (λ _.
        let q = note (asked (observe p.run.task_id p.run.epoch)) p in
        let sound = Sound-asked run p (observe p.run.task_id p.run.epoch) h named in
        Goes-ask run Anything answers.observed q _ sound live
          (λ s. observed_task-Goes run q s.tasks sound (asked-Submitted p _ d) live))

act_host-Goes :
    (run : RunRow) (args : ControlArgs) (answers : Answers) (p : Progress)
    → Sound run p
    → Submitted p
    → is_terminal p.run.state ≡ false
    → Goes run Anything (act_host args answers p)
unfolding act_host verify_run note settle_reply
act_host-Goes run args answers p h d live =
    Goes-bind run Anything (λ q. Submitted q × (is_terminal q.run.state ≡ false)) _ _
      (Goes-if run _ (p.action == preflight)
        (λ _.
          verified_run-Goes run _ args (note (asked verify) p) answers.verified
            (Sound-asked run p verify h (Named-current run p h (d.known live)).2)
            (asked-Submitted p verify d, live) live)
        (λ _. Goes-ok run _ p h (d, live)))
      (λ q sound (e, q_live).
        let confirmed = q.action == release && args.completion_confirmed in
        let call =
          act q.action q.run.task_id q.run.epoch (fence_of q.run.task) args.pid confirmed in
        let r = note (asked call) q in
        let r_sound = Sound-asked run q call sound (Named-current run q sound (e.known q_live)) in
        Goes-ask run Anything answers.acted r _ r_sound q_live (λ reply.
          settle_task-Goes run reply.error r reply.task r_sound (asked-Submitted q _ e) q_live))

-- A run that is over keeps the end that its task or its lack of one shows.
ended_task-Goes :
    (run : RunRow) (p : Progress) (state : RunState) (task : Option HostTask)
    → Sound run p
    → is_terminal state ≡ true
    → ((t : HostTask) → task ≡ some t → is_finished t.state ≡ true)
    → Goes run Anything (settle_task none p (last_task state task))
unfolding settle_task last_task with_task with_run ended_task
ended_task-Goes run p state (some t) h over agrees =
    Goes-ok run Anything _ (Sound-ended run p _ h refl refl (agrees t refl)) tt
ended_task-Goes run p (at s) none h over agrees =
    Goes-ok run Anything _ (Sound-ended run p _ h refl refl over) tt
ended_task-Goes run p pending none h over agrees = absurd (ground arith)
ended_task-Goes run p uncertain none h over agrees = absurd (ground arith)

pub answer-Goes :
    (run : RunRow) (args : ControlArgs) (answers : Answers) (p : Progress)
    → Sound run p
    → Submitted p
    → Goes run Anything (answer args answers p)
unfolding answer
answer-Goes run args answers p h d =
    Goes-if run Anything (is_terminal p.run.state)
      (λ over. ended_task-Goes run p p.run.state p.run.task h over (d.agrees over))
      (λ live.
        Goes-if run Anything (p.action == poll)
          (λ _. poll_host-Goes run answers p p.admission_reply h d live)
          (λ _. act_host-Goes run args answers p h d live))
