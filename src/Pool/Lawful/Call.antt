-- ===== src/Pool/Lawful/Call.antt =====
-- A whole call of `control` of vaws_coordinator/ready_runtime.py has lawful effects.
use vaws_coordinator.Prelude.{
  ℕ, String, Bool, true, false, Option, some, ◌≡◌, refl, ◌⊎◌, inl, inr, [], ◌∷◌, is_some, arith,
  Bool-cases, if◌then◌else◌, option_eq, string_eq,
}
use vaws_coordinator.Prelude.Outcome.{ok, err}
use vaws_coordinator.Pool.State.{RunRow, uncertain, pending, run_state_eq, is_terminal, PoolEvent}
use vaws_coordinator.Pool.Calls.{
  Capabilities, ControlArgs, Answers, Progress, Stage, noted, with_run,
}
use vaws_coordinator.Pool.Control.{attempt, settled, failed_run}
use vaws_coordinator.Pool.Runs.{controlled, start_of, last_written}
use vaws_coordinator.Pool.Lawful.{
  Kept, Kept-refl, Shown, Lawful, Lawful-append, done, write_step, event_step, current, Sound,
}
use vaws_coordinator.Pool.Lawful.Stages.{
  Goes, Goes-bind, Recovered, Discovered, Placed, Submitted, goes_on, Sound-moved,
}
use vaws_coordinator.Pool.Lawful.Begin.{recover-Goes, discover-Goes}
use vaws_coordinator.Pool.Lawful.Answer.{place-Goes, admit_new-Goes, submit_run-Goes}
use vaws_coordinator.Pool.Lawful.Reply.{Anything, answer-Goes}

attempt-Goes :
    (run : RunRow) (can : Capabilities) (args : ControlArgs) (answers : Answers) (p : Progress)
    → Sound run p
    → is_terminal p.run.state ≡ false
    → (p.run.state ≡ uncertain) ⊎ (goes_on p.run.state p.action ≡ true)
    → Goes run Anything (attempt can args answers p)
unfolding attempt
attempt-Goes run can args answers p h live start =
    Goes-bind run Anything Submitted _ _
      (Goes-bind run Submitted Placed _ _
        (Goes-bind run Placed Placed _ _
          (Goes-bind run Placed Discovered _ _
            (Goes-bind run Discovered Recovered _ _ (recover-Goes run answers p h live start)
              (λ q sound r. discover-Goes run can args answers q sound r))
            (λ q sound d. place-Goes run answers q sound d))
          (λ q sound d. admit_new-Goes run can args answers q sound d))
        (λ q sound d. submit_run-Goes run can answers q sound d))
      (λ q sound d. answer-Goes run args answers q sound d)

failed-Shown :
    (keeps : Bool) (text : Option String) (r : RunRow)
    → Shown r
    → is_terminal r.state ≡ false
    → Shown (record r {
      state = if keeps then r.state else if is_some r.epoch then uncertain else pending;
      error = text;
    })
failed-Shown true text r h live = record { bare = h.bare; listed = h.listed }
failed-Shown false text r h live = record {
  bare = λ _ hidden. h.bare live (elim (Bool-cases (is_some r.epoch)) [
    | inl known ↦ ground arith
    | inr unknown ↦ ground arith
  ]);
  listed = λ _ is_at. elim (Bool-cases (is_some r.epoch)) [
    | inl known ↦ absurd (ground arith)
    | inr unknown ↦ absurd (ground arith)
  ];
}

settled-Sound :
    (run : RunRow) (args : ControlArgs) (s : Stage)
    → Goes run Anything s
    → Sound run (settled args s)
unfolding settled with_run failed_run
settled-Sound run args (ok p) g = (g.passed p refl).0
settled-Sound run args (err (p, text)) g =
    let (sound, live) = g.raised p text refl in
    Sound-moved run p _ sound refl refl live
      (failed-Shown _ (some text) p.run sound.kept.shown live)

polled-Kept : (base r : RunRow) (now : ℕ) → Kept base r → Kept base (record r { last_poll = now })
polled-Kept base r now k = record {
  same_id = k.same_id;
  same_owner = k.same_owner;
  same_binding = k.same_binding;
  same_intent = k.same_intent;
  same_task = k.same_task;
  same_deadline = k.same_deadline;
  same_epoch = k.same_epoch;
  ended = k.ended;
  shown = record { bare = k.shown.bare; listed = k.shown.listed };
}

noted-Lawful :
    (quiet : Bool) (run : RunRow) (event : PoolEvent)
    → Lawful run (if quiet then [] else noted event ∷ [])
noted-Lawful true run event = done
noted-Lawful false run event = event_step done

-- The effects of a call on a live run.
pub controlled-Lawful :
    (can : Capabilities) (args : ControlArgs) (answers : Answers) (run : RunRow)
    → Shown run
    → is_terminal run.state ≡ false
    → (run.state ≡ uncertain) ⊎ (goes_on run.state args.action ≡ true)
    → Lawful run (controlled can args answers run).1
unfolding controlled last_written
controlled-Lawful can args answers run shown live start =
    let begun : Sound run (start_of args run) = record {
      lawful = done;
      kept = Kept-refl run shown;
      epoch = refl;
    } in
    let sound = settled-Sound run args _ (attempt-Goes run can args answers _ begun live start) in
    let p = settled args (attempt can args answers (start_of args run)) in
    Lawful-append run p.trace _ sound.lawful (
      write_step (polled-Kept (current run p) p.run answers.last_clock sound.kept)
        (noted-Lawful _ _ _))
