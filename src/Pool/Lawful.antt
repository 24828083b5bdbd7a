-- ===== src/Pool/Lawful.antt =====
-- Which effects `control` of vaws_coordinator/ready_runtime.py may have, given the row that the
-- database holds when each of them happens.
pub mod Stages
pub mod Begin
pub mod Answer
pub mod Reply
pub mod Call
pub mod Trace
pub mod Observed
use vaws_coordinator.Prelude.{
  ℕ, String, Bool, true, false, Option, none, ◌≡◌, refl, sym, ◌∙◌, ap, subst, List, [], ◌∷◌, ◌++◌,
  is_some, arith, ◌&&◌, not, ◌==◌,
}
use vaws_coordinator.Prelude.Outcome.{Outcome, ok, err, ◌>>=◌}
use vaws_coordinator.Pool.State.{
  RunIntent, RunRow, RunState, pending, at, run_state_eq, is_terminal, PoolEvent,
}
use vaws_coordinator.Pool.Calls.{
  HostCall, status, startup, verify, submit, acquire, observe, act, Effect, asked, wrote, noted,
  Progress, Stage, note,
}
use vaws_coordinator.Pool.Runs.{last_written}

-- Whether a task may be known for a live run.
abbrev pub may_show : RunRow → Bool
may_show r = r.submitted && is_some r.epoch && not (r.state == pending)

abbrev pub is_at : RunState → Bool
is_at (at s) = true
is_at _ = false

-- A live run shows a task only when one was submitted to a known host, and its state is the task's
-- only then.
pub record Shown (r : RunRow) : Type 0 where
  pub bare : is_terminal r.state ≡ false → may_show r ≡ false → r.task ≡ none
  pub listed :
      is_terminal r.state ≡ false → is_at r.state ≡ true → (r.submitted && is_some r.epoch) ≡ true

-- What a write may not change of a row: who asked for what, the task's name on the host, the epoch
-- once it is known, and the end once it is reached.
pub record Kept (run row : RunRow) : Type 0 where
  pub same_id : row.id ≡ run.id
  pub same_owner : row.owner ≡ run.owner
  pub same_binding : row.binding_id ≡ run.binding_id
  pub same_intent : row.intent ≡ run.intent
  pub same_task : row.task_id ≡ run.task_id
  pub same_deadline : row.deadline ≡ run.deadline
  pub same_epoch : is_some run.epoch ≡ true → row.epoch ≡ run.epoch
  pub ended : is_terminal run.state ≡ true → is_terminal row.state ≡ true
  pub shown : Shown row

pub Kept-refl : (run : RunRow) → Shown run → Kept run run
Kept-refl run shown = record {
  shown = shown;
  same_id = refl;
  same_owner = refl;
  same_binding = refl;
  same_intent = refl;
  same_task = refl;
  same_deadline = refl;
  same_epoch = λ e. refl;
  ended = λ e. e;
}

-- A request names the run's task and the host's epoch, both as the database has them.
abbrev pub Named : RunRow → String → Option String → Type 0
Named run task_id epoch = (task_id ≡ run.task_id) × (epoch ≡ run.epoch) × (is_some run.epoch ≡ true)

-- What each request carries: every request about a task is `Named`, the status that looks for the
-- task has the epoch of the database, a startup comes before the first epoch and has the task id,
-- the runtime is verified only once the host is known, and the status that looks after an uncertain
-- run takes whatever epoch the host has, which `recover` then compares.
abbrev pub Addressed : RunRow → HostCall → Type 0
Addressed run (status true epoch) = epoch ≡ run.epoch
Addressed run (status false epoch) = epoch ≡ none
Addressed run (startup task_id) = (task_id ≡ run.task_id) × (run.epoch ≡ none)
Addressed run verify = is_some run.epoch ≡ true
Addressed run (submit kind task_id epoch) = Named run task_id epoch
Addressed run (acquire task_id epoch) = Named run task_id epoch
Addressed run (observe task_id epoch) = Named run task_id epoch
Addressed run (act action task_id epoch fence pid confirmed) = Named run task_id epoch

-- The effects in their order, from the row that the database holds.
pub data Lawful : RunRow → List Effect → Type 0 where
  done : {run : RunRow} → Lawful run []
  ask_step :
      {run : RunRow} {call : HostCall} {rest : List Effect}
      → Addressed run call
      → Lawful run rest
      → Lawful run (asked call ∷ rest)
  write_step :
      {run row : RunRow} {rest : List Effect}
      → Kept run row
      → Lawful row rest
      → Lawful run (wrote row ∷ rest)
  event_step :
      {run : RunRow} {event : PoolEvent} {rest : List Effect}
      → Lawful run rest
      → Lawful run (noted event ∷ rest)

pub Lawful-append :
    (run : RunRow) (before after : List Effect)
    → Lawful run before
    → Lawful (last_written run before) after
    → Lawful run (before ++ after)
unfolding last_written
Lawful-append run [] after done l = l
Lawful-append run (asked call ∷ rest) after (ask_step a h) l =
    ask_step a (Lawful-append run rest after h l)
Lawful-append run (wrote row ∷ rest) after (write_step {row = row'} k h) l =
    write_step k (Lawful-append row rest after h l)
Lawful-append run (noted event ∷ rest) after (event_step h) l =
    event_step (Lawful-append run rest after h l)

pub last_written-append :
    (run : RunRow) (before after : List Effect)
    → last_written run (before ++ after) ≡ last_written (last_written run before) after
unfolding last_written
last_written-append run [] after = refl
last_written-append run (asked call ∷ rest) after = last_written-append run rest after
last_written-append run (wrote row ∷ rest) after = last_written-append row rest after
last_written-append run (noted event ∷ rest) after = last_written-append run rest after

-- The row in the database, after the effects so far on the row of `run`.
abbrev pub current : RunRow → Progress → RunRow
current run p = last_written run p.trace

-- What holds between the stages: the effects are lawful, and the row in memory may be written.
pub record Sound (run : RunRow) (p : Progress) : Type 0 where
  pub lawful : Lawful run p.trace
  pub kept : Kept (current run p) p.run
  pub epoch : p.run.epoch ≡ (current run p).epoch

pub current-asked :
    (run : RunRow) (p : Progress) (call : HostCall)
    → current run (note (asked call) p) ≡ current run p
unfolding note last_written
current-asked run p call = last_written-append run p.trace (asked call ∷ [])

pub Sound-asked :
    (run : RunRow) (p : Progress) (call : HostCall)
    → Sound run p
    → Addressed (current run p) call
    → Sound run (note (asked call) p)
unfolding note last_written
Sound-asked run p call h a = record {
  lawful = Lawful-append run p.trace (asked call ∷ []) h.lawful (ask_step a done);
  kept = subst (λ x. Kept x p.run) (sym (last_written-append run p.trace (asked call ∷ []))) h.kept;
  epoch = h.epoch ∙ ap (λ x. x.epoch) (sym (last_written-append run p.trace (asked call ∷ [])));
}

pub Sound-wrote :
    (run : RunRow) (p : Progress) (row : RunRow)
    → Sound run p
    → Kept (current run p) row
    → Sound run (note (wrote row) (record p { run = row }))
unfolding note last_written
Sound-wrote run p row h k = record {
  lawful = Lawful-append run p.trace (wrote row ∷ []) h.lawful (write_step k done);
  kept =
      subst (λ x. Kept x row) (sym (last_written-append run p.trace (wrote row ∷ [])))
        (Kept-refl row k.shown);
  epoch = ap (λ x. x.epoch) (sym (last_written-append run p.trace (wrote row ∷ [])));
}

pub Sound-noted :
    (run : RunRow) (p : Progress) (event : PoolEvent)
    → Sound run p
    → Sound run (note (noted event) p)
unfolding note last_written
Sound-noted run p event h = record {
  lawful = Lawful-append run p.trace (noted event ∷ []) h.lawful (event_step done);
  kept =
      subst (λ x. Kept x p.run) (sym (last_written-append run p.trace (noted event ∷ []))) h.kept;
  epoch = h.epoch ∙ ap (λ x. x.epoch) (sym (last_written-append run p.trace (noted event ∷ [])));
}
