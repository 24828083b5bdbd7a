-- ===== src/Host/Evidence.antt =====
-- What `_housekeep` and `release` of vaws_coordinator/host/vaws_npu_coordination.py know when they
-- end a lease.
pub mod Done
pub mod Released
pub mod Guarded
use vaws_coordinator.Prelude.{
  ℕ, String, Bool, true, false, ◌≡◌, refl, sym, ◌∙◌, ◌⊎◌, inl, inr, Option, none, some, List, [],
  ◌∷◌, arith, ◌||◌, if◌then◌else◌, In, In-map_image, All, map, leb, ◌==◌, ◌&&◌, not,
}
use vaws_coordinator.Host.State.{
  TaskState, is_reserving, state_eq, Request, Guard, Task, Db, Port, Observation, released,
}
use vaws_coordinator.Host.Table.{busy_set, visible_set}
use vaws_coordinator.Host.Guard.{Procfs, process_guard_busy}
use vaws_coordinator.Host.Housekeep.{
  hardware_unclear, Rule, after, sweep, expire_holds, sweep_all, task_rules, housekeep, elapsed,
  expire_queued, expire_deadline, expire_heartbeat, release_orphan, mark_overdue,
}

module _ (proc : Procfs) (busy visible : Option (List ℕ)) where
  -- A device is unknown, not visible or busy, or the guarded process may be alive.
  unfoldable pub is_unclear : Task → Bool
  unfolding hardware_unclear
  is_unclear t = hardware_unclear busy visible t || process_guard_busy proc t.process_guard false

-- The lease of `t` goes on in `u`.
pub record Continues (t u : Task) : Type 0 where
  pub same_id : u.task_id ≡ t.task_id
  pub same_devices : u.granted_devices ≡ t.granted_devices
  pub same_request : u.request ≡ t.request
  pub same_guard : u.process_guard ≡ t.process_guard
  pub reserving : is_reserving u.state ≡ true

module _ (now : ℕ) (proc : Procfs) (busy visible : Option (List ℕ)) where
  abbrev Keeps : Rule → Type 0
  Keeps rule =
      (t : Task)
      → is_reserving t.state ≡ true
      → is_unclear proc busy visible t ≡ true
      → Continues t (after rule t)

  expire_queued-Keeps : Keeps (expire_queued now)
  unfolding expire_queued
  expire_queued-Keeps t r e = ground arith

  expire_deadline-Keeps : Keeps (expire_deadline now proc busy visible)
  unfolding expire_deadline is_unclear
  expire_deadline-Keeps t r e = ground arith

  expire_heartbeat-Keeps : Keeps (expire_heartbeat now proc busy visible)
  unfolding expire_heartbeat is_unclear
  expire_heartbeat-Keeps t r e = ground arith

  release_orphan-Keeps : (ports : List Port) → Keeps (release_orphan now proc busy visible ports)
  unfolding release_orphan is_unclear
  release_orphan-Keeps ports t r e = ground arith

  mark_overdue-Keeps : Keeps (mark_overdue now)
  unfolding mark_overdue
  mark_overdue-Keeps t r e = ground arith

hardware_still :
    (busy visible : Option (List ℕ)) (t u : Task)
    → u.granted_devices ≡ t.granted_devices
    → u.request ≡ t.request
    → hardware_unclear busy visible u ≡ hardware_unclear busy visible t
unfolding hardware_unclear
hardware_still none visible t u devices request = refl
hardware_still (some busy) none t u devices request = refl
hardware_still (some busy) (some visible) t u devices request = cc (devices, request)

module _ (now : ℕ) (proc : Procfs) (busy visible : Option (List ℕ)) where
  Continues-trans : {t u v : Task} → Continues t u → Continues u v → Continues t v
  Continues-trans a b = record {
    same_id = b.same_id ∙ a.same_id;
    same_devices = b.same_devices ∙ a.same_devices;
    same_request = b.same_request ∙ a.same_request;
    same_guard = b.same_guard ∙ a.same_guard;
    reserving = b.reserving;
  }

  unclear_still :
      {t u : Task}
      → Continues t u
      → is_unclear proc busy visible t ≡ true
      → is_unclear proc busy visible u ≡ true
  unfolding is_unclear
  unclear_still {t} {u} c e =
      cc (hardware_still busy visible t u c.same_devices c.same_request, c.same_guard, e)

  sweep_all-Continues :
      (rules : List Rule) (db : Db) (t : Task)
      → All (Keeps now proc busy visible) rules
      → In t db.tasks
      → is_reserving t.state ≡ true
      → is_unclear proc busy visible t ≡ true
      → (u : Task) × In u (sweep_all now rules db).tasks × Continues t u
  unfolding sweep_all
  sweep_all-Continues [] db t keeps i r e = (
    t,
    i,
    record {
      same_id = refl;
      same_devices = refl;
      same_request = refl;
      same_guard = refl;
      reserving = r;
    },
  )
  sweep_all-Continues (rule ∷ rules) db t keeps i r e =
      let c = keeps.0 t r e in
      let (u, j, d) =
        sweep_all-Continues rules (sweep now rule db) (after rule t) keeps.1
          (In-map_image (after rule) i) c.reserving (unclear_still c e) in
      (u, j, Continues-trans c d)

task_rules-Keeps :
    (now : ℕ) (proc : Procfs) (observed : Option Observation) (ports : List Port)
    → All
        (Keeps now proc (busy_set observed) (visible_set observed))
        (task_rules now proc observed ports)
unfolding task_rules
task_rules-Keeps now proc observed ports =
    let busy = busy_set observed in
    let visible = visible_set observed in
    (
      expire_queued-Keeps now proc busy visible,
      (
        expire_deadline-Keeps now proc busy visible,
        (
          expire_heartbeat-Keeps now proc busy visible,
          (
            release_orphan-Keeps now proc busy visible ports,
            (mark_overdue-Keeps now proc busy visible, tt),
          ),
        ),
      ),
    )

-- Housekeeping ends no lease without evidence: a task in a reserving state whose occupancy is
-- unknown, or one of whose devices is not visible or is busy outside of sharing, or whose guarded
-- process may be alive, is still in a reserving state afterwards, with its devices, its request
-- and its guard.
pub unclear_lease_kept :
    (now : ℕ) (proc : Procfs) (observed : Option Observation) (db : Db) (t : Task)
    → In t db.tasks
    → is_reserving t.state ≡ true
    → is_unclear proc (busy_set observed) (visible_set observed) t ≡ true
    → (u : Task) × In u (housekeep now proc observed db).0.tasks × Continues t u
unfolding housekeep expire_holds
unclear_lease_kept now proc observed db t i r e =
    sweep_all-Continues now proc (busy_set observed) (visible_set observed)
      (task_rules now proc observed db.ports) (expire_holds now db) t
      (task_rules-Keeps now proc observed db.ports) i r e
