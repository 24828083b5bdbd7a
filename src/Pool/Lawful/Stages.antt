-- ===== src/Pool/Lawful/Stages.antt =====
-- Rules for the stages of `control` of vaws_coordinator/ready_runtime.py: what each establishes, and
-- that its effects stay lawful.
use vaws_coordinator.Prelude.{
  ℕ, String, Bool, true, false, Option, some, ◌≡◌, refl, ◌∙◌, ap, subst, is_some, arith,
  if◌then◌else◌, ◌||◌, ◌==◌, string_eq, option_eq,
}
use vaws_coordinator.Prelude.Outcome.{Outcome, ok, err, ◌>>=◌}
use vaws_coordinator.Host.State.{is_finished}
use vaws_coordinator.Pool.State.{
  RunIntent, RunRow, RunState, uncertain, pending, at, run_state_eq, is_terminal, HostTask,
}
use vaws_coordinator.Pool.Calls.{Action, poll, cancel, action_eq, Progress, Stage}
use vaws_coordinator.Pool.Control.{ask}
use vaws_coordinator.Pool.Lawful.{Kept, Shown, is_at, current, Sound}

abbrev pub identity : RunRow → String × String × String × RunIntent × String × ℕ × Option String
identity r = (r.id, r.owner, r.binding_id, r.intent, r.task_id, r.deadline, r.epoch)

Kept-identity :
    (base run row : RunRow)
    → Kept base run
    → identity row ≡ identity run
    → (is_terminal base.state ≡ true → is_terminal row.state ≡ true)
    → Shown row
    → Kept base row
Kept-identity base run row k e ended shown = record {
  shown = shown;
  same_id = ap (λ t. t.0) e ∙ k.same_id;
  same_owner = ap (λ t. t.1) e ∙ k.same_owner;
  same_binding = ap (λ t. t.2) e ∙ k.same_binding;
  same_intent = ap (λ t. t.3) e ∙ k.same_intent;
  same_task = ap (λ t. t.4) e ∙ k.same_task;
  same_deadline = ap (λ t. t.5) e ∙ k.same_deadline;
  same_epoch = λ known. ap (λ t. t.6) e ∙ k.same_epoch known;
  ended = ended;
}

-- The row in memory may change while it is not terminal.
pub Sound-moved :
    (run : RunRow) (p q : Progress)
    → Sound run p
    → q.trace ≡ p.trace
    → identity q.run ≡ identity p.run
    → is_terminal p.run.state ≡ false
    → Shown q.run
    → Sound run q
Sound-moved run p q h same e live shown = record {
  lawful = rw same h.lawful;
  kept = rw same (
      Kept-identity (current run p) p.run q.run h.kept e
        (λ over. absurd (ground (arith, h.kept.ended over))) shown);
  epoch = rw same (ap (λ t. t.6) e ∙ h.epoch);
}

pub Sound-ended :
    (run : RunRow) (p q : Progress)
    → Sound run p
    → q.trace ≡ p.trace
    → identity q.run ≡ identity p.run
    → is_terminal q.run.state ≡ true
    → Sound run q
Sound-ended run p q h same e over = record {
  lawful = rw same h.lawful;
  kept = rw same (
      Kept-identity (current run p) p.run q.run h.kept e (λ _. over)
        (record { bare = λ live. absurd (ground arith); listed = λ live. absurd (ground arith) }));
  epoch = rw same (ap (λ t. t.6) e ∙ h.epoch);
}

pub Sound-same :
    (run : RunRow) (p q : Progress) → Sound run p → q.trace ≡ p.trace → q.run ≡ p.run → Sound run q
Sound-same run p q h same e = record {
  lawful = rw same h.lawful;
  kept = rw (same, e) h.kept;
  epoch = rw (same, e) h.epoch;
}

-- How a stage ends: with `After`, or with an exception while the run is not terminal.
pub record Goes (run : RunRow) (After : Progress → Type 0) (s : Stage) : Type 0 where
  pub passed : (q : Progress) → s ≡ ok q → Sound run q × After q
  pub raised :
      (q : Progress) (text : String)
      → s ≡ err (q, text)
      → Sound run q × (is_terminal q.run.state ≡ false)

module _ (run : RunRow) (After : Progress → Type 0) where
  pub Goes-ok : (q : Progress) → Sound run q → After q → Goes run After (ok q)
  Goes-ok q h a = record {
    passed = λ r e. subst (λ x. Sound run x × After x) (cc e) (h, a);
    raised = λ r text e. absurd (cc e);
  }

  pub Goes-err :
      (q : Progress) (text : String)
      → Sound run q
      → is_terminal q.run.state ≡ false
      → Goes run After (err (q, text))
  Goes-err q text h live = record {
    passed = λ r e. absurd (cc e);
    raised =
        λ r other e. subst (λ x. Sound run x × (is_terminal x.run.state ≡ false)) (cc e) (h, live);
  }

  pub Goes-if :
      (b : Bool) {x y : Stage}
      → (b ≡ true → Goes run After x)
      → (b ≡ false → Goes run After y)
      → Goes run After (if b then x else y)
  Goes-if true f g = f refl
  Goes-if false f g = g refl

  pub Goes-ask :
      {A : Type 0} (answer : Outcome String A) (q : Progress) (next : A → Stage)
      → Sound run q
      → is_terminal q.run.state ≡ false
      → ((a : A) → Goes run After (next a))
      → Goes run After (ask answer q next)
  unfolding ask
  Goes-ask (ok a) q next h live f = f a
  Goes-ask (err text) q next h live f = Goes-err q text h live

  pub Goes-bind :
      (Before : Progress → Type 0) (s : Stage) (next : Progress → Stage)
      → Goes run Before s
      → ((q : Progress) → Sound run q → Before q → Goes run After (next q))
      → Goes run After (s >>= next)
  Goes-bind Before (ok q) next h f = let (sound, b) = h.passed q refl in f q sound b
  Goes-bind Before (err (q, text)) next h f =
      let (sound, live) = h.raised q text refl in Goes-err q text sound live

-- What a row that was ended by its task's state shows.
abbrev pub Agrees : RunRow → Type 0
Agrees r =
    is_terminal r.state ≡ true → (t : HostTask) → r.task ≡ some t → is_finished t.state ≡ true

-- The state that an action may go on from.
abbrev pub goes_on : RunState → Action → Bool
goes_on pending action = action == poll || action == cancel
goes_on uncertain action = false
goes_on (at s) action = true

-- What the first stage, the second, the third and the fifth establish.
pub record Recovered (p : Progress) : Type 0 where
  pub known : is_terminal p.run.state ≡ true → is_some p.run.epoch ≡ true
  pub on : goes_on p.run.state p.action ≡ true
  pub agrees : Agrees p.run

pub record Discovered (p : Progress) : Type 0 where
  pub known : is_terminal p.run.state ≡ false → is_some p.run.epoch ≡ true
  pub on : is_terminal p.run.state ≡ false → goes_on p.run.state p.action ≡ true
  pub agrees : Agrees p.run

pub record Placed (p : Progress) : Type 0 where
  pub known : is_terminal p.run.state ≡ false → is_some p.run.epoch ≡ true
  pub on : p.run.state == uncertain ≡ false
  pub polls : p.run.state == pending ≡ true → p.action == poll ≡ true
  pub agrees : Agrees p.run

pub record Submitted (p : Progress) : Type 0 where
  pub known : is_terminal p.run.state ≡ false → is_some p.run.epoch ≡ true
  pub on : is_terminal p.run.state ≡ false → is_at p.run.state ≡ true
  pub agrees : Agrees p.run

-- A task that is shown for a known, submitted run.
pub listed-Shown :
    (r : RunRow) (t : HostTask)
    → r.state ≡ at t.state
    → r.submitted ≡ true
    → is_some r.epoch ≡ true
    → Shown r
listed-Shown r t e submitted known = record {
  bare = λ live bare. absurd (ground (arith, ap (λ s. s == pending) e));
  listed = λ live is_at. ground arith;
}
