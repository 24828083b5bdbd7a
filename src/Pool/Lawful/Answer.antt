-- ===== src/Pool/Lawful/Answer.antt =====
-- The middle stages of `control` of vaws_coordinator/ready_runtime.py: a pending run is looked for,
-- verified and submitted.
use vaws_coordinator.Prelude.{
  String, Bool, true, false, Option, none, some, ◌≡◌, refl, sym, ◌∙◌, ap, subst, inl, inr,
  eq_of_some, is_some, arith, Bool-cases, not, ◌&&◌, ◌||◌, ◌==◌, leb, ==→≡,
}
use vaws_coordinator.Prelude.Outcome.{Outcome, ok, err}
use vaws_coordinator.Host.State.{is_finished}
use vaws_coordinator.Pool.State.{
  RunRow, RunState, uncertain, pending, at, run_state_eq, is_terminal, HostTask,
}
use vaws_coordinator.Pool.Calls.{
  poll, cancel, action_eq, status, verify, submit, asked, wrote, HostStatus, Reply, Submission,
  plain, with_acquire, with_preflight, Capabilities, ControlArgs, Answers, Progress, note, with_run,
}
use vaws_coordinator.Pool.Control.{
  ask, place, place_task, task_of, with_task, verify_run, verified_run, after_verification,
  admit_new, submission, submitted_run, note_grant, submit_reply, submit_run,
}
use vaws_coordinator.Pool.Lawful.{
  is_at, Named, current, Sound, Sound-asked, Sound-wrote, Sound-noted,
}
use vaws_coordinator.Pool.Lawful.Stages.{
  identity, Goes, Goes-ok, Goes-err, Goes-if, Goes-ask, Goes-bind, Sound-moved, Sound-same,
  Discovered, Placed, Submitted, goes_on, listed-Shown,
}
use vaws_coordinator.Pool.Lawful.Begin.{local_end-Shown, local_end-live, local_end-own, going-own}

pub place_task-Goes :
    (run : RunRow) (answers : Answers) (q : Progress) (task : Option HostTask)
    → Sound run q
    → Discovered q
    → q.run.state ≡ pending
    → Goes run Placed (place_task answers q task)
unfolding place_task with_task with_run
place_task-Goes run answers q (some task) h d e =
    let known = d.known (rw e refl) in
    Goes-ok run Placed _
      (Sound-moved run q _ h refl refl (rw e refl) (listed-Shown _ task refl refl known))
      (record {
        known = λ _. known;
        on = refl;
        polls = λ is_pending. absurd (ground arith);
        agrees = λ over t same. subst (λ x. is_finished x.state ≡ true) (eq_of_some same) over;
      })
place_task-Goes run answers q none h d e =
    let going : goes_on pending q.action ≡ true =
      subst (λ s. goes_on s q.action ≡ true) e (d.on (rw e refl)) in
    let bare : q.run.task ≡ none = h.kept.shown.bare (rw e refl) (rw e (ground arith)) in
    Goes-if run Placed (leb q.run.deadline answers.second_clock || q.action == cancel)
      (λ over.
        Goes-ok run Placed _
          (Sound-moved run q _ h refl refl (rw e refl) (local_end-Shown q.action q.run))
          (record {
            known = λ live. absurd (local_end-live q.action q.run live);
            on = (local_end-own q.action q.run).0;
            polls = λ e. absurd (ground (arith, (local_end-own q.action q.run).1));
            agrees = λ ended t same. absurd (ground arith);
          }))
      (λ going_on.
        Goes-ok run Placed q h (record {
          known = d.known;
          on = rw e refl;
          polls = λ _. ground arith;
          agrees = d.agrees;
        }))

pub place-Goes :
    (run : RunRow) (answers : Answers) (p : Progress)
    → Sound run p
    → Discovered p
    → Goes run Placed (place answers p)
unfolding place note
place-Goes run answers p h d =
    Goes-if run Placed (not (p.run.state == pending))
      (λ other. Goes-ok run Placed p h (record {
        known = d.known;
        on = going-own p.run.state p.action d.on;
        polls = λ e. absurd (ground arith);
        agrees = d.agrees;
      }))
      (λ same. let e = ==→≡ p.run.state pending (ground arith) in place_listed p.pending_status e)
  where
    place_listed :
        (s : Option HostStatus)
        → p.run.state ≡ pending
        → Goes run Placed (elim s [
          | some s ↦ place_task answers p (task_of p.run s)
          | none ↦
              let q = note (asked (status true p.run.epoch)) p in
              ask answers.listed q (λ s. place_task answers q (task_of q.run s))
        ])
    place_listed (some s) e = place_task-Goes run answers p (task_of p.run s) h d e
    place_listed none e =
        let q = note (asked (status true p.run.epoch)) p in
        let sound = Sound-asked run p (status true p.run.epoch) h h.epoch in
        Goes-ask run Placed answers.listed q _ sound (rw e refl) (λ s.
          place_task-Goes run answers q (task_of p.run s) sound
            (record { known = d.known; on = d.on; agrees = d.agrees }) e)

-- A request that names the run is addressed to the row that the database has.
pub Named-current :
    (run : RunRow) (p : Progress)
    → Sound run p
    → is_some p.run.epoch ≡ true
    → Named (current run p) p.run.task_id p.run.epoch
Named-current run p h known =
    (h.kept.same_task, h.epoch, subst (λ o. is_some o ≡ true) h.epoch known)

placed_at : (s : RunState) → (s == uncertain) ≡ false → (s == pending) ≡ false → is_at s ≡ true
placed_at s a b = ground arith

pub verified_run-Goes :
    (run : RunRow) (After : Progress → Type 0) (args : ControlArgs) (q : Progress)
    (verified : Outcome String (Unit {0}))
    → Sound run q
    → After q
    → is_terminal q.run.state ≡ false
    → Goes run After (verified_run args q verified)
unfolding verified_run with_run
verified_run-Goes run After args q (ok _) h d live = Goes-ok run After q h d
verified_run-Goes run After args q (err text) h d live =
    let failed : Progress = record q { run = record q.run { preflight_error = some text } } in
    let sound : Sound run failed =
      Sound-moved run q failed h refl refl live
        (record { bare = h.kept.shown.bare; listed = h.kept.shown.listed }) in
    elim (Bool-cases args.is_managed) [
      | inl managed ↦ rw managed (Goes-err run _ failed text sound live)
      | inr other ↦ rw other (Goes-err run _ q text h live)
    ]

verified-Goes :
    (run : RunRow) (answers : Answers) (r : Progress)
    → Sound run r
    → Placed r
    → r.run.state ≡ pending
    → Goes run Placed (after_verification answers r)
unfolding after_verification
verified-Goes run answers r h d e =
    let bare : r.run.task ≡ none = h.kept.shown.bare (rw e refl) (rw e (ground arith)) in
    Goes-ask run Placed answers.cancel_requested r _ h (rw e refl) (λ requested.
      Goes-if run Placed requested
        (λ _.
          Goes-ok run Placed _
            (Sound-moved run r _ h refl refl (rw e refl) (record {
              bare = λ live. absurd (ground arith);
              listed = λ live. absurd (ground arith);
            }))
            (record {
              known = λ live. absurd (ground arith);
              on = refl;
              polls = λ is_pending. absurd (ground arith);
              agrees = λ over t same. absurd (ground arith);
            }))
        (λ _.
          Goes-ok run Placed _ (Sound-same run r _ h refl refl)
            (record { known = d.known; on = d.on; polls = d.polls; agrees = d.agrees })))

pub admit_new-Goes :
    (run : RunRow) (can : Capabilities) (args : ControlArgs) (answers : Answers) (p : Progress)
    → Sound run p
    → Placed p
    → Goes run Placed (admit_new can args answers p)
unfolding admit_new verify_run note
admit_new-Goes run can args answers p h d =
    Goes-if run Placed _
      (λ test.
        let e = ==→≡ p.run.state pending (ground arith) in
        let live : is_terminal p.run.state ≡ false = rw e refl in
        let q = note (asked verify) p in
        let sound = Sound-asked run p verify h (Named-current run p h (d.known live)).2 in
        Goes-bind run Placed _ _ _
          (verified_run-Goes run (λ r. Placed r × (r.run.state ≡ pending)) args q answers.verified
            sound (record { known = d.known; on = d.on; polls = d.polls; agrees = d.agrees }, e)
            live)
          (λ r r_sound (placed, same). verified-Goes run answers r r_sound placed same))
      (λ _. Goes-ok run Placed p h d)

-- The row of a submitted task, once it is written.
submitted-Sound :
    (run : RunRow) (task : HostTask) (q r : Progress)
    → Sound run q
    → q.run.state ≡ pending
    → is_some q.run.epoch ≡ true
    → identity r.run ≡ identity q.run
    → r.run.state ≡ at task.state
    → r.run.submitted ≡ true
    → r.trace ≡ q.trace
    → Sound run (note (wrote r.run) r)
unfolding note
submitted-Sound run task q r h e known same state submitted trace =
    let shown =
      listed-Shown r.run task state submitted
        (subst (λ o. is_some o ≡ true) (sym (ap (λ t. t.6) same)) known) in
    let moved = Sound-moved run q r h trace same (rw e refl) shown in
    Sound-same run _ _ (Sound-wrote run r r.run moved moved.kept) refl refl

task-Submitted :
    (task : HostTask) (p : Progress)
    → is_some p.run.epoch ≡ true
    → p.run.state ≡ at task.state
    → p.run.task ≡ some task
    → Submitted p
task-Submitted task p known e same = record {
  known = λ _. known;
  on = λ _. rw e refl;
  agrees = λ over t shown.
      let ended : is_finished task.state ≡ true = subst (λ s. is_terminal s ≡ true) e over in
      subst (λ x. is_finished x.state ≡ true) (eq_of_some (sym same ∙ shown)) ended;
}

note_grant-Sound :
    (run : RunRow) (granted : Bool) (id : String) (p : Progress)
    → Sound run p
    → Sound run (note_grant granted id p)
unfolding note_grant
note_grant-Sound run true id p h = Sound-noted run p _ h
note_grant-Sound run false id p h = h

note_grant-run :
    (granted : Bool) (id : String) (p : Progress) → (note_grant granted id p).run ≡ p.run
unfolding note_grant note
note_grant-run true id p = refl
note_grant-run false id p = refl

submitted_run-Goes :
    (run : RunRow) (kind : Submission) (reply : Reply) (task : HostTask) (q : Progress)
    → Sound run q
    → q.run.state ≡ pending
    → is_some q.run.epoch ≡ true
    → Goes run Submitted (ok (submitted_run kind reply task q))
unfolding submitted_run with_task note
submitted_run-Goes run plain reply task q h e known =
    Goes-ok run Submitted _ (submitted-Sound run task q _ h e known refl refl refl refl)
      (task-Submitted task _ known refl refl)
submitted_run-Goes run with_acquire reply task q h e known =
    Goes-ok run Submitted _
      (Sound-noted run _ _ (submitted-Sound run task q _ h e known refl refl refl refl))
      (task-Submitted task _ known refl refl)
submitted_run-Goes run with_preflight reply task q h e known =
    Goes-ok run Submitted _
      (Sound-noted run _ _ (
        note_grant-Sound run reply.has_granted_task q.run.id _
          (submitted-Sound run task q _ h e known refl refl refl refl)))
      (task-Submitted task _ (rw (note_grant-run reply.has_granted_task q.run.id _) known)
        (rw (note_grant-run reply.has_granted_task q.run.id _) refl)
        (rw (note_grant-run reply.has_granted_task q.run.id _) refl))

submit_reply-Goes :
    (run : RunRow) (kind : Submission) (reply : Reply) (task : Option HostTask) (q : Progress)
    → Sound run q
    → q.run.state ≡ pending
    → is_some q.run.epoch ≡ true
    → Goes run Submitted (submit_reply kind reply task q)
unfolding submit_reply
submit_reply-Goes run kind reply none q h e known = Goes-err run Submitted q _ h (rw e refl)
submit_reply-Goes run kind reply (some task) q h e known =
    submitted_run-Goes run kind reply task q h e known

pub submit_run-Goes :
    (run : RunRow) (can : Capabilities) (answers : Answers) (p : Progress)
    → Sound run p
    → Placed p
    → Goes run Submitted (submit_run can answers p)
unfolding submit_run note
submit_run-Goes run can answers p h d =
    Goes-if run Submitted (not (p.run.state == pending && p.action == poll))
      (λ other. Goes-ok run Submitted p h (record {
        known = d.known;
        on = λ live. placed_at p.run.state d.on (ground (arith, d.polls));
        agrees = d.agrees;
      }))
      (λ going.
        let e = ==→≡ p.run.state pending (ground arith) in
        let live : is_terminal p.run.state ≡ false = rw e refl in
        let call = submit (submission can p) p.run.task_id p.run.epoch in
        let q = note (asked call) p in
        let sound = Sound-asked run p call h (Named-current run p h (d.known live)) in
        Goes-ask run Submitted answers.submitted q _ sound live (λ reply.
          submit_reply-Goes run (submission can p) reply reply.task q sound e (d.known live)))
