-- ===== src/Pool/System/Safety.antt =====
-- Whatever the callers of the pool do at the same time, a runtime is used by one run
-- (vaws_coordinator/ready_runtime.py).
use vaws_coordinator.Prelude.{
  ℕ, String, true, false, Option, none, some, ◌≡◌, ◌≢◌, refl, sym, ◌∙◌, ap, subst, inl, inr, List,
  [], ◌∷◌, string_eq, arith, eq_of_some, In, In-put_row_self, is_some, false≢true,
}
use vaws_coordinator.Pool.State.{RunRow, BindingRow, is_terminal, PoolDb}
use vaws_coordinator.Pool.Table.{put_run, put_job, record_event}
use vaws_coordinator.Pool.Calls.{Effect, asked, wrote, noted, HostCall}
use vaws_coordinator.Pool.Runs.{apply_effect, last_written}
use vaws_coordinator.Pool.Lawful.{Kept, Addressed, Lawful, ask_step, write_step, event_step}
use vaws_coordinator.Pool.Lawful.Call.{controlled-Lawful}
use vaws_coordinator.Pool.Exclusive.{Held, PoolInv-tables}
use vaws_coordinator.Pool.Exclusive.Bindings.{
  register_commit-PoolInv, drain-PoolInv, checkout_commit-PoolInv, return_runtime-PoolInv,
  refresh_commit-PoolInv,
}
use vaws_coordinator.Pool.Exclusive.Runs.{
  request_commit-PoolInv, apply_effect-PoolInv, control_begin-Begun, reconcile_begin-In,
  reconcile_commit-PoolInv,
}
use vaws_coordinator.Pool.System.{
  System, Flights, with_db, with_flight, Step, opened, registered, drained, checked_out, returned,
  refreshed, requested, begun, happened, ended, stopped, job_written, reconciled, Reachable, start,
  next,
}
use vaws_coordinator.Pool.System.Invariant.{
  SystemInv, register_commit-runs, drain-runs, checkout_commit-runs, return_runtime-runs,
  refresh_commit-runs, session_commit-tables, with_db-SystemInv, request_commit-keeps,
  wrote-SystemInv, reconciled-keeps, put_run-In, set_flight-cases,
}

-- The next effect of a call, and what is left of it.
abbrev Flying : PoolDb → RunRow → List Effect → Type 0
Flying db run effects = In run db.runs × Lawful run effects

effect-Flying :
    (now : ℕ) (owner : String) (db : PoolDb) (run : RunRow) (effect : Effect) (rest : List Effect)
    → In run db.runs
    → Lawful run (effect ∷ rest)
    → Flying (apply_effect now owner effect db) (last_written run (effect ∷ [])) rest
unfolding apply_effect last_written put_run record_event
effect-Flying now owner db run (asked call) rest i (ask_step a l) = (i, l)
effect-Flying now owner db run (wrote row) rest i (write_step k l) =
    (In-put_row_self (λ x. x.id) row db.runs, l)
effect-Flying now owner db run (noted event) rest i (event_step l) = (i, l)

pub effect-Kept :
    (run : RunRow) (effect : Effect) (rest : List Effect)
    → Lawful run (effect ∷ rest)
    → (row : RunRow) → effect ≡ wrote row
    → Kept run row
effect-Kept run (asked call) rest (ask_step a l) row e = absurd (cc e)
effect-Kept run (wrote row') rest (write_step k l) row e = subst (Kept run) (cc e) k
effect-Kept run (noted event) rest (event_step l) row e = absurd (cc e)

effect-id :
    (run : RunRow) (effect : Effect) (rest : List Effect)
    → Lawful run (effect ∷ rest)
    → (last_written run (effect ∷ [])).id ≡ run.id
unfolding last_written
effect-id run (asked call) rest (ask_step a l) = refl
effect-id run (wrote row) rest (write_step k l) = k.same_id
effect-id run (noted event) rest (event_step l) = refl

-- The rows of the other runs stay.
pub effect-others :
    (now : ℕ) (owner : String) (db : PoolDb) (run : RunRow) (effect : Effect) (rest : List Effect)
    → Lawful run (effect ∷ rest)
    → (r : RunRow) → In r db.runs
    → r.id ≢ run.id
    → In r (apply_effect now owner effect db).runs
unfolding apply_effect record_event
effect-others now owner db run (asked call) rest l r i other = i
effect-others now owner db run (wrote row) rest (write_step k l) r i other =
    put_run-In row db r i (λ same. other (same ∙ k.same_id))
effect-others now owner db run (noted event) rest l r i other = i

happened-SystemInv :
    (s : System) (run : RunRow) (effect : Effect) (rest : List Effect) (id owner : String) (now : ℕ)
    → SystemInv s
    → s.flights id ≡ some (run, effect ∷ rest)
    → SystemInv (
        with_flight
          (with_db s (apply_effect now owner effect s.db))
          id
          (some (last_written run (effect ∷ []), rest)))
unfolding with_flight with_db
happened-SystemInv s run effect rest id owner now h e =
    let (named, i, l) = h.flying id run (effect ∷ rest) e in
    record {
      pool =
          apply_effect-PoolInv now owner run effect s.db h.pool i (effect-Kept run effect rest l);
      flying = λ k r effects found.
          elim (set_flight-cases id (some (last_written run (effect ∷ []), rest)) s.flights k) [
            | inl (same, new) ↦
                let same_flight =
                  eq_of_some {a = (last_written run (effect ∷ []), rest)} {b = (r, effects)}
                    (sym new ∙ found) in
                let (j, left) = effect-Flying now owner s.db run effect rest i l in
                subst
                  (λ x.
                    (x.0.id ≡ k)
                    × In x.0 (apply_effect now owner effect s.db).runs
                    × Lawful x.0 x.1)
                  same_flight (effect-id run effect rest l ∙ named ∙ sym same, j, left)
            | inr (other, old) ↦
                let (r_named, j, r_lawful) = h.flying k r effects (sym old ∙ found) in
                (
                  r_named,
                  effect-others now owner s.db run effect rest l r j
                      (λ same. other (sym r_named ∙ same ∙ named)),
                  r_lawful,
                )
          ];
    }

begun-SystemInv :
    (s : System) (run : RunRow) (effects : List Effect) (id : String)
    → SystemInv s
    → run.id ≡ id
    → In run s.db.runs
    → Lawful run effects
    → SystemInv (with_flight s id (some (run, effects)))
unfolding with_flight
begun-SystemInv s run effects id h named i l = record {
  pool = h.pool;
  flying = λ k r others found. elim (set_flight-cases id (some (run, effects)) s.flights k) [
    | inr (other, old) ↦ h.flying k r others (sym old ∙ found)
    | inl (same, new) ↦
        let same_flight = eq_of_some {a = (run, effects)} {b = (r, others)} (sym new ∙ found) in
        subst (λ x. (x.0.id ≡ k) × In x.0 s.db.runs × Lawful x.0 x.1) same_flight
          (named ∙ sym same, i, l)
  ];
}

ended-SystemInv : (s : System) (id : String) → SystemInv s → SystemInv (with_flight s id none)
unfolding with_flight
ended-SystemInv s id h = record {
  pool = h.pool;
  flying = λ k r effects found. elim (set_flight-cases id none s.flights k) [
    | inr (other, old) ↦ h.flying k r effects (sym old ∙ found)
    | inl (same, new) ↦ absurd (ground (arith, sym new ∙ found))
  ];
}

unheld_lock :
    (flights : Flights) (k id : String) (flight : Option (RunRow × List Effect))
    → flights id ≡ none
    → k ≡ id
    → flights k ≡ flight
    → is_some flight ≡ true
    → ⊥
unheld_lock flights k id flight free same found held =
    false≢true (ap is_some (sym free ∙ ap flights (sym same) ∙ found) ∙ held)

Step-SystemInv : {s t : System} → SystemInv s → Step s t → SystemInv t
unfolding put_job
Step-SystemInv {s} h (opened owner session_id key sources e) =
    let (a, b, c) = session_commit-tables owner session_id key sources s.db in
    let same = ap (λ x. x.1) (sym e) in
    with_db-SystemInv s _ h
      (PoolInv-tables _ h.pool (ap (λ x. x.runtimes) same ∙ a) (ap (λ x. x.bindings) same ∙ b)
        (ap (λ x. x.runs) same ∙ c))
      (ap (λ x. x.runs) same ∙ c)
Step-SystemInv {s} h (registered c id spec is_prepared observed now e) =
    with_db-SystemInv s _ h
      ((register_commit-PoolInv c id spec is_prepared observed now s.db h.pool).at _ e)
      ((register_commit-runs c id spec is_prepared observed now s.db).at _ e)
Step-SystemInv {s} h (drained id e) =
    with_db-SystemInv s _ h ((drain-PoolInv id s.db h.pool).at _ e) ((drain-runs id s.db).at _ e)
Step-SystemInv {s} h (checked_out owner intent key read probed now e) =
    with_db-SystemInv s _ h
      ((checkout_commit-PoolInv owner intent key read probed now s.db h.pool).at _ e)
      ((checkout_commit-runs owner intent key read probed now s.db).at _ e)
Step-SystemInv {s} h (returned owner id now e) =
    with_db-SystemInv s _ h ((return_runtime-PoolInv owner id now s.db h.pool).at _ e)
      ((return_runtime-runs owner id now s.db).at _ e)
Step-SystemInv {s} h (refreshed owner id read observed now e) =
    with_db-SystemInv s _ h ((refresh_commit-PoolInv owner id read observed now s.db h.pool).at _ e)
      ((refresh_commit-runs owner id read observed now s.db).at _ e)
Step-SystemInv {s} h (requested owner key binding_id intent task_id now free e) =
    wrote-SystemInv s _ h
      ((request_commit-PoolInv owner key binding_id intent task_id now s.db h.pool).at _ e)
      (λ r i _ _ _.
        (request_commit-keeps owner key binding_id intent task_id now s.db free).at _ e r i)
Step-SystemInv {s} h (begun can owner id args answers free e live) =
    let b = (control_begin-Begun owner id args s.db).at _ e in
    begun-SystemInv s _ _ id h b.named b.stored
      (controlled-Lawful can args answers _ (h.pool.shown _ b.stored) live (b.start live))
Step-SystemInv {s} h (happened {run = run} {effect = effect} {rest = rest} id owner now e) =
    happened-SystemInv s run effect rest id owner now h e
Step-SystemInv {s} h (ended id e) = ended-SystemInv s id h
Step-SystemInv {s} h stopped = record {
  pool = h.pool;
  flying = λ k r effects found. absurd (cc found);
}
Step-SystemInv {s} h (job_written job) =
    with_db-SystemInv s _ h (PoolInv-tables _ h.pool refl refl refl) refl
Step-SystemInv {s} h (reconciled {run = run} {jobs = jobs} id r text reply now free e confirmed) =
    let (i, named, live) = (reconcile_begin-In id r s.db).at _ e in
    wrote-SystemInv s _ h (reconcile_commit-PoolInv r text run jobs now s.db h.pool i)
      (λ row j flight found held.
        reconciled-keeps r text run jobs now s.db row j
          (λ same. unheld_lock s.flights row.id id flight free (same ∙ named) found held))

pub Reachable-SystemInv : {s : System} → Reachable s → SystemInv s
Reachable-SystemInv start = record {
  pool = record {
    runtimes_unique = record { same = λ r t i. elim i [ ] };
    bindings_unique = record { same = λ r t i. elim i [ ] };
    runs_unique = record { same = λ r t i. elim i [ ] };
    held = λ b i. elim i [ ];
    exclusive = λ b c i. elim i [ ];
    backed = λ r i. elim i [ ];
    single = λ r t i. elim i [ ];
    shown = λ r i. elim i [ ];
  };
  flying = λ k r effects found. absurd (cc found);
}
Reachable-SystemInv (next r step) = Step-SystemInv (Reachable-SystemInv r) step

-- In every state that a pool comes to, whatever its callers and probes do and in whatever order
-- their transactions come, two different runs that are not over have no runtime in common: the
-- bindings of two unresolved runs name one runtime only where the two are one run.
pub runs_exclusive :
    (s : System)
    → Reachable s
    → (r t : RunRow) → In r s.db.runs
    → In t s.db.runs
    → is_terminal r.state ≡ false
    → is_terminal t.state ≡ false
    → (b c : BindingRow) → In b s.db.bindings
    → In c s.db.bindings
    → b.id ≡ r.binding_id
    → c.id ≡ t.binding_id
    → b.runtime_id ≡ c.runtime_id
    → r.id ≡ t.id
runs_exclusive s reached r t i j r_live t_live b c k l of_r of_t shared =
    let h = (Reachable-SystemInv reached).pool in
    let (b', k', e, b_bound) = h.backed r i r_live in
    let (c', l', f, c_bound) = h.backed t j t_live in
    let one = h.bindings_unique.same b' b k' k (e ∙ sym of_r) in
    let two = h.bindings_unique.same c' c l' l (f ∙ sym of_t) in
    let same =
      h.exclusive b c k l (subst (λ x. x.is_bound ≡ true) one b_bound)
        (subst (λ x. x.is_bound ≡ true) two c_bound) shared in
    h.single r t i j r_live t_live (sym of_r ∙ same ∙ of_t)

-- In every state that a pool comes to, a run that is not over has its binding, which is not
-- returned, and the binding has its runtime, in the state `bound`.
pub live_runs_bound :
    (s : System)
    → Reachable s
    → (r : RunRow) → In r s.db.runs
    → is_terminal r.state ≡ false
    → (b : BindingRow) × In b s.db.bindings
      × (b.id ≡ r.binding_id)
      × (b.is_bound ≡ true)
      × Held s.db.runtimes b
live_runs_bound s reached r i live =
    let h = (Reachable-SystemInv reached).pool in
    let (b, k, e, is_bound) = h.backed r i live in (b, k, e, is_bound, h.held b k is_bound)

-- In every state that a pool comes to, a request that a call of `control` is about to send is
-- for a run in the database. A submission, an acquisition, an action and the status of the task
-- carry the task id and the epoch that the database has for that run at this moment, and that epoch
-- is known; a startup carries the task id, and comes only before an epoch is known; the status
-- that looks for the task carries the epoch of the database, known or not; the verification of the
-- runtime comes only once an epoch is known; and the status after an uncertain run carries no epoch.
pub requests_durable :
    (s : System)
    → Reachable s
    → (id : String) (run : RunRow) (call : HostCall) (rest : List Effect)
    → s.flights id ≡ some (run, asked call ∷ rest)
    → (run.id ≡ id) × In run s.db.runs × Addressed run call
requests_durable s reached id run call rest e =
    let (named, i, l) = (Reachable-SystemInv reached).flying id run (asked call ∷ rest) e in
    (named, i, asked-Addressed run call rest l)
  where
    asked-Addressed :
        (run : RunRow) (call : HostCall) (rest : List Effect)
        → Lawful run (asked call ∷ rest)
        → Addressed run call
    asked-Addressed run call rest (ask_step a l) = a
