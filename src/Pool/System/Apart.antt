-- ===== src/Pool/System/Apart.antt =====
-- The work roots of one container stay apart in every state of the pool
-- (vaws_coordinator/ready_runtime.py).
use vaws_coordinator.Prelude.{
  ℕ, String, Bool, false, Option, none, some, ◌≡◌, ◌≢◌, refl, sym, ◌∙◌, ap, inl, inr, List, ◌==◌,
  string_eq, list_eq, pair_eq, Bool-cases, In, not, ◌&&◌,
}
use vaws_coordinator.Prelude.Outcome.{
  Outcome, ok, err, Ensures, Ensures-ok, Ensures-bind, Ensures-guard,
}
use vaws_coordinator.Pool.Values.{
  ready, bound, runtime_state_eq, Attestation, attestation_eq, endpoint_eq,
}
use vaws_coordinator.Pool.State.{
  RuntimeRow, BindingRow, RunRow, JobRow, RunIntent, CheckoutIntent, PoolDb, at,
}
use vaws_coordinator.Pool.Table.{
  owned_binding, owned_session, get_runtime, put_runtime, put_binding, put_run, put_job,
  record_event, has_unresolved,
}
use vaws_coordinator.Pool.Registry.{
  Spec, Checkout, posix_roots_overlap, check_registration, register_commit, drain,
}
use vaws_coordinator.Pool.Checkout.{checkout_commit, return_runtime, refresh_begin, refresh_commit}
use vaws_coordinator.Pool.Calls.{Effect, asked, wrote, noted}
use vaws_coordinator.Host.State.{cancelled}
use vaws_coordinator.Pool.Runs.{request_commit, apply_effect}
use vaws_coordinator.Pool.Reconcile.{Reconciliation, reconcile_commit, end_jobs}
use vaws_coordinator.Pool.Exclusive.Runs.{put_jobs-tables}
use vaws_coordinator.Pool.Exclusive.Bindings.{get_runtime-In, refresh_begin-In}
use vaws_coordinator.Pool.System.{
  System, with_db, with_flight, Step, opened, registered, drained, checked_out, returned, refreshed,
  requested, begun, happened, ended, stopped, job_written, reconciled, Reachable, start, next,
}
use vaws_coordinator.Pool.System.Invariant.{session_commit-tables}
use vaws_coordinator.Pool.System.Roots.{
  Together, RootsApart, moved-RootsApart, registered-RootsApart,
}

register_commit-RootsApart :
    (c : Option Checkout) (id : String) (spec : Spec) (is_prepared : Bool) (observed : Attestation)
    (now : ℕ) (db : PoolDb)
    → RootsApart db.runtimes
    → Ensures
        (λ db'. RootsApart db'.runtimes)
        (register_commit c id spec is_prepared observed now db)
unfolding register_commit put_runtime put_binding record_event
register_commit-RootsApart none id spec is_prepared observed now db h =
    Ensures-bind (check_registration db id spec observed.container_id)
      (λ _ e. Ensures-ok _ (registered-RootsApart id spec observed is_prepared ready db h e))
register_commit-RootsApart (some c) id spec is_prepared observed now db h =
    Ensures-bind (check_registration db id spec observed.container_id) (λ _ e.
      Ensures-bind (owned_session c.session c.owner db)
        (λ _ _. Ensures-ok _ (registered-RootsApart id spec observed is_prepared bound db h e)))

drain-RootsApart :
    (id : String) (db : PoolDb)
    → RootsApart db.runtimes
    → Ensures (λ db'. RootsApart db'.runtimes) (drain id db)
unfolding drain put_runtime
drain-RootsApart id db h =
    Ensures-bind (get_runtime id db)
      (λ r e. Ensures-ok _ (moved-RootsApart _ r db.runtimes h (get_runtime-In id db e).0 refl))

checkout_commit-RootsApart :
    (owner : String) (intent : CheckoutIntent) (key : String) (r : RuntimeRow)
    (probed : Outcome String Attestation) (now : ℕ) (db : PoolDb)
    → RootsApart db.runtimes
    → Ensures
        (λ (x : Option BindingRow × PoolDb). RootsApart x.1.runtimes)
        (checkout_commit owner intent key r probed now db)
unfolding checkout_commit put_runtime put_binding record_event
checkout_commit-RootsApart owner intent key r (err text) now db h =
    Ensures-bind (get_runtime r.id db) (λ latest e.
      Ensures-ok _
        (elim (Bool-cases (latest.state == ready && latest.attestation == r.attestation)) [
          | inl same ↦
              rw same (moved-RootsApart _ latest db.runtimes h (get_runtime-In r.id db e).0 refl)
          | inr changed ↦ rw changed h
        ]))
checkout_commit-RootsApart owner intent key r (ok observed) now db h =
    Ensures-bind (get_runtime r.id db) (λ latest e.
      elim (Bool-cases (latest.state == ready && latest.attestation == r.attestation)) [
        | inl same ↦ rw same (
            Ensures-ok _
              (moved-RootsApart _ latest db.runtimes h (get_runtime-In r.id db e).0 refl))
        | inr changed ↦ rw changed (Ensures-ok _ h)
      ])

return_runtime-RootsApart :
    (owner id : String) (now : ℕ) (db : PoolDb)
    → RootsApart db.runtimes
    → Ensures (λ db'. RootsApart db'.runtimes) (return_runtime owner id now db)
unfolding return_runtime put_runtime put_binding record_event
return_runtime-RootsApart owner id now db h = Ensures-bind (owned_binding id owner db) (λ b _.
    Ensures-guard (not (has_unresolved id db)) _ (λ _.
      Ensures-bind (get_runtime b.runtime_id db) (λ r e. elim (Bool-cases b.is_bound) [
        | inl held ↦ rw held (
            Ensures-ok _
              (moved-RootsApart _ r db.runtimes h (get_runtime-In b.runtime_id db e).0 refl))
        | inr free ↦ rw free (Ensures-ok _ h)
      ])))

refresh_commit-RootsApart :
    (owner id : String) (stale : BindingRow) (observed : Attestation) (now : ℕ) (db : PoolDb)
    → RootsApart db.runtimes
    → Ensures
        (λ (x : BindingRow × PoolDb). RootsApart x.1.runtimes)
        (refresh_commit owner id stale observed now db)
unfolding refresh_commit put_runtime put_binding record_event
refresh_commit-RootsApart owner id stale observed now db h =
    Ensures-guard (observed.profile_key == stale.profile_key) _ (λ _.
      Ensures-bind (refresh_begin owner id db) (λ (b, r) e.
        let (_, _, i, _) = (refresh_begin-In owner id db).at (b, r) e in
        Ensures-ok _ (moved-RootsApart _ r db.runtimes h i refl)))

request_commit-runtimes :
    (owner key binding_id : String) (intent : RunIntent) (task_id : String) (now : ℕ) (db : PoolDb)
    → Ensures
        (λ (x : RunRow × PoolDb). x.1.runtimes ≡ db.runtimes)
        (request_commit owner key binding_id intent task_id now db)
unfolding request_commit put_run record_event
request_commit-runtimes owner key binding_id intent task_id now db =
    Ensures-bind (owned_binding binding_id owner db) (λ b _.
      Ensures-guard (b.is_bound && intent.build_key == b.build_key) _
        (λ _. Ensures-guard (not (has_unresolved binding_id db)) _ (λ _. Ensures-ok _ refl)))

apply_effect-runtimes :
    (now : ℕ) (owner : String) (effect : Effect) (db : PoolDb)
    → (apply_effect now owner effect db).runtimes ≡ db.runtimes
unfolding apply_effect put_run record_event
apply_effect-runtimes now owner (asked call) db = refl
apply_effect-runtimes now owner (wrote run) db = refl
apply_effect-runtimes now owner (noted event) db = refl

reconcile_commit-runtimes :
    (r : Reconciliation) (text : String) (run : RunRow) (jobs : List JobRow) (now : ℕ) (db : PoolDb)
    → (reconcile_commit r text run jobs now db).1.runtimes ≡ db.runtimes
unfolding reconcile_commit record_event put_run
reconcile_commit-runtimes r text run jobs now db =
    let ended : RunRow = record run { state = at cancelled; error = some text } in
    (put_jobs-tables (end_jobs text jobs) (put_run ended db)).0

Step-RootsApart : {s t : System} → RootsApart s.db.runtimes → Step s t → RootsApart t.db.runtimes
unfolding with_db with_flight put_job
Step-RootsApart {s} h (opened owner session_id key sources e) =
    let (a, _, _) = session_commit-tables owner session_id key sources s.db in
    rw (ap (λ x. x.1.runtimes) (sym e) ∙ a) h
Step-RootsApart {s} h (registered c id spec is_prepared observed now e) =
    (register_commit-RootsApart c id spec is_prepared observed now s.db h).at _ e
Step-RootsApart {s} h (drained id e) = (drain-RootsApart id s.db h).at _ e
Step-RootsApart {s} h (checked_out owner intent key read probed now e) =
    (checkout_commit-RootsApart owner intent key read probed now s.db h).at _ e
Step-RootsApart {s} h (returned owner id now e) =
    (return_runtime-RootsApart owner id now s.db h).at _ e
Step-RootsApart {s} h (refreshed owner id read observed now e) =
    (refresh_commit-RootsApart owner id read observed now s.db h).at _ e
Step-RootsApart {s} h (requested owner key binding_id intent task_id now free e) =
    rw ((request_commit-runtimes owner key binding_id intent task_id now s.db).at _ e) h
Step-RootsApart {s} h (begun can owner id args answers free e live) = h
Step-RootsApart {s} h (happened {run = run} {effect = effect} {rest = rest} id owner now e) =
    rw (apply_effect-runtimes now owner effect s.db) h
Step-RootsApart {s} h (ended id e) = h
Step-RootsApart {s} h stopped = h
Step-RootsApart {s} h (job_written job) = h
Step-RootsApart {s} h (reconciled {run = run} {jobs = jobs} id r text reply now free e confirmed) =
    rw (reconcile_commit-runtimes r text run jobs now s.db) h

Reachable-RootsApart : {s : System} → Reachable s → RootsApart s.db.runtimes
Reachable-RootsApart start = λ r s i. elim i [ ]
Reachable-RootsApart (next reached step) = Step-RootsApart (Reachable-RootsApart reached) step

-- In every state that a pool comes to, two registered work roots of one user's container on one
-- host do not overlap: neither is the other one or lies in it, so that what is written in one
-- never overwrites the other.
pub roots_apart :
    (s : System)
    → Reachable s
    → (r t : RuntimeRow) → In r s.db.runtimes
    → In t s.db.runtimes
    → r.id ≢ t.id
    → Together r t
    → posix_roots_overlap r.root t.root ≡ false
roots_apart s reached = Reachable-RootsApart reached
