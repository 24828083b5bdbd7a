-- ===== src/Pool/Lawful/Begin.antt =====
-- The first two stages of `control` of vaws_coordinator/ready_runtime.py: an uncertain run is
-- observed, and the host of a new run is discovered.
use vaws_coordinator.Prelude.{
  String, Bool, true, false, Option, none, some, ◌≡◌, refl, sym, ◌∙◌, ap, subst, ◌⊎◌, inl, inr,
  eq_of_some, is_some, arith, Bool-cases, if◌then◌else◌, not, ◌&&◌, ◌||◌, ◌==◌, string_eq,
  option_eq, leb, ==→≡,
}
use vaws_coordinator.Host.State.{is_finished}
use vaws_coordinator.Pool.State.{
  RunRow, RunState, uncertain, pending, at, run_state_eq, is_terminal, HostTask,
}
use vaws_coordinator.Pool.Calls.{
  Action, cancel, action_eq, status, startup, asked, wrote, Capabilities, ControlArgs, Answers,
  Progress, note, with_run,
}
use vaws_coordinator.Pool.Control.{recover, discover, local_end, task_of, with_task, recover_task}
use vaws_coordinator.Pool.Lawful.{
  Kept, Shown, Addressed, current, Sound, current-asked, Sound-asked, Sound-wrote,
}
use vaws_coordinator.Pool.Lawful.Stages.{
  Sound-moved, Sound-same, Goes, Goes-ok, Goes-err, Goes-if, Goes-ask, goes_on, Recovered,
  Discovered, listed-Shown,
}

recover_task-Goes :
    (run : RunRow) (task : Option HostTask) (q : Progress)
    → Sound run q
    → q.run.state ≡ uncertain
    → is_some q.run.epoch ≡ true
    → Goes run Recovered (recover_task task q)
unfolding recover_task with_task
recover_task-Goes run (some task) q h e known =
    Goes-ok run Recovered _
      (Sound-moved run q _ h refl refl (rw e refl) (listed-Shown _ task refl refl known))
      (record {
        known = λ over. known;
        on = refl;
        agrees = λ over t same. subst (λ x. is_finished x.state ≡ true) (eq_of_some same) over;
      })
recover_task-Goes run none q h e known =
    Goes-if run Recovered q.run.submitted (λ submitted. Goes-err run Recovered q _ h (rw e refl))
      (λ fresh.
        let bare : q.run.task ≡ none = h.kept.shown.bare (rw e refl) (rw fresh refl) in
        Goes-ok run Recovered _
          (Sound-moved run q _ h refl refl (rw e refl)
            (record { bare = λ live hidden. bare; listed = λ live is_at. absurd (ground arith) }))
          (record {
            known = λ over. known;
            on = refl;
            agrees = λ over t same. absurd (ground arith);
          }))

-- The start of a call: the action is one that the checks let through.
pub recover-Goes :
    (run : RunRow) (answers : Answers) (p : Progress)
    → Sound run p
    → is_terminal p.run.state ≡ false
    → (p.run.state ≡ uncertain) ⊎ (goes_on p.run.state p.action ≡ true)
    → Goes run Recovered (recover answers p)
unfolding recover note
recover-Goes run answers p h live start =
    Goes-if run Recovered (not (p.run.state == uncertain))
      (λ other. Goes-ok run Recovered p h (record {
        known = λ over. absurd (ground arith);
        on = elim start [
          | inl lost ↦ absurd (ground (arith, ap (λ s. s == uncertain) lost))
          | inr fine ↦ fine
        ];
        agrees = λ over t same. absurd (ground arith);
      }))
      (λ same.
        let lost = ==→≡ p.run.state uncertain (ground arith) in
        let q = note (asked (status false none)) p in
        let sound = Sound-asked run p (status false none) h refl in
        Goes-ask run Recovered answers.recovered q _ sound live (λ s.
          Goes-if run Recovered (not (some s.coordination_epoch == p.run.epoch))
            (λ changed. Goes-err run Recovered q _ sound live)
            (λ known.
              recover_task-Goes run (task_of p.run s) q sound lost
                (rw⁻¹ (==→≡ (some s.coordination_epoch) p.run.epoch (ground arith)) refl))))

pub local_end-live :
    (action : Action) (r : RunRow) → is_terminal (local_end action r).state ≡ false → ⊥
unfolding local_end
local_end-live action r live = elim (Bool-cases (action == cancel)) [
  | inl e ↦ absurd (ground arith)
  | inr e ↦ absurd (ground arith)
]

startup-Addressed :
    (base : RunRow) (fresh : Bool) (task_id : String)
    → task_id ≡ base.task_id
    → base.epoch ≡ none
    → Addressed base (if fresh then startup task_id else status true none)
startup-Addressed base true task_id e unknown = (e, unknown)
startup-Addressed base false task_id e unknown = sym unknown

not_some : {epoch : Option String} → is_some epoch ≡ false → epoch ≡ none
not_some {epoch = none} e = refl
not_some {epoch = some x} e = absurd (ground arith)

-- The row with the first epoch.
first_epoch-Kept :
    (base run : RunRow) (epoch : String)
    → Kept base run
    → is_terminal run.state ≡ false
    → base.epoch ≡ run.epoch
    → is_some run.epoch ≡ false
    → Kept base (record run { epoch = some epoch })
first_epoch-Kept base run epoch k live same unknown = record {
  same_id = k.same_id;
  same_owner = k.same_owner;
  same_binding = k.same_binding;
  same_intent = k.same_intent;
  same_task = k.same_task;
  same_deadline = k.same_deadline;
  same_epoch = λ known. absurd (ground (arith, ap is_some same));
  ended = k.ended;
  shown = record {
    bare = λ _ hidden. k.shown.bare live (ground arith);
    listed = λ _ is_at. absurd (ground (arith, k.shown.listed live is_at));
  };
}

pub local_end-own :
    (action : Action) (r : RunRow)
    → ((local_end action r).state == uncertain ≡ false)
      × ((local_end action r).state == pending ≡ false)
unfolding local_end
local_end-own action r = elim (Bool-cases (action == cancel)) [
  | inl e ↦ ground arith
  | inr e ↦ ground arith
]

pub going-own :
    (s : RunState) (action : Action)
    → (is_terminal s ≡ false → goes_on s action ≡ true)
    → (s == uncertain) ≡ false
going-own pending action f = refl
going-own uncertain action f = absurd (ground (arith, f refl))
going-own (at s) action f = refl

-- A run that ends without a task.
pub local_end-Shown : (action : Action) (r : RunRow) → Shown (local_end action r)
unfolding local_end
local_end-Shown action r = record {
  bare = λ live hidden. absurd (local_end-live action r live);
  listed = λ live is_at. absurd (local_end-live action r live);
}

pub discover-Goes :
    (run : RunRow) (can : Capabilities) (args : ControlArgs) (answers : Answers) (p : Progress)
    → Sound run p
    → Recovered p
    → Goes run Discovered (discover can args answers p)
unfolding discover with_run local_end
discover-Goes run can args answers p h r =
    Goes-if run Discovered (is_some p.run.epoch)
      (λ known.
        Goes-ok run Discovered p h
          (record { known = λ live. known; on = λ live. r.on; agrees = r.agrees }))
      (λ unknown.
        let live : is_terminal p.run.state ≡ false = ground (arith, r.known) in
        let bare : p.run.task ≡ none = h.kept.shown.bare live (ground arith) in
        Goes-if run Discovered (p.action == cancel || leb p.run.deadline answers.first_clock)
          (λ over.
            Goes-ok run Discovered _
              (Sound-moved run p _ h refl refl live (local_end-Shown p.action p.run))
              (record {
                known = λ ended. absurd (local_end-live p.action p.run ended);
                on = λ ended. absurd (local_end-live p.action p.run ended);
                agrees = λ ended t same. absurd (ground arith);
              }))
          (λ going.
            let call =
              if args.preflight_new && can.startup_context
              then startup p.run.task_id
              else status true none in
            let q = note (asked call) p in
            let sound = Sound-asked run p call h (
              startup-Addressed (current run p) (args.preflight_new && can.startup_context)
                p.run.task_id h.kept.same_task (sym h.epoch ∙ not_some unknown)) in
            Goes-ask run Discovered answers.started q _ sound live (λ s.
              let row : RunRow = record p.run { epoch = some s.coordination_epoch } in
              let k : Kept (current run p) row =
                first_epoch-Kept (current run p) p.run _ h.kept live (sym h.epoch) unknown in
              Goes-ok run Discovered _
                (Sound-same run (note (wrote row) (record q { run = row })) _
                  (Sound-wrote run q row sound
                    (subst (λ x. Kept x row) (sym (current-asked run p call)) k))
                  refl refl)
                (record {
                  known = λ _. refl;
                  on = λ _. r.on;
                  agrees = λ over t same. absurd (ground arith);
                }))))
