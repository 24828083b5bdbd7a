-- ===== src/Host/Ledger/Sweeps.antt =====
-- Housekeeping keeps the ledger: no verdict of a sweep leases a device or brings in a token.
use vaws_coordinator.Prelude.{ℕ, Option, List, [], ◌∷◌, All, arith}
use vaws_coordinator.Host.State.{Task, Port, Db, Observation}
use vaws_coordinator.Host.Table.{busy_set, visible_set}
use vaws_coordinator.Host.Guard.{Procfs}
use vaws_coordinator.Host.Housekeep.{
  Rule, after, expire_queued, expire_deadline, expire_heartbeat, release_orphan, mark_overdue,
  expire_holds, sweep, sweep_all, task_rules, housekeep,
}
use vaws_coordinator.Host.Ledger.Rows.{RowInv, RowStep, RowStep-of_Restates, Ledger, map-Ledger}

-- A rule whose verdicts keep the ledger's rows.
abbrev KeepsRows : ℕ → Rule → Type 0
KeepsRows fence rule = (t : Task) → RowInv fence t → RowStep fence t (after rule t)

module _ (fence now : ℕ) where
  expire_queued-KeepsRows : KeepsRows fence (expire_queued now)
  unfolding expire_queued
  expire_queued-KeepsRows t h = RowStep-of_Restates h (ground arith)

  mark_overdue-KeepsRows : KeepsRows fence (mark_overdue now)
  unfolding mark_overdue
  mark_overdue-KeepsRows t h = RowStep-of_Restates h (ground arith)

module _ (fence now : ℕ) (proc : Procfs) (busy visible : Option (List ℕ)) where
  expire_deadline-KeepsRows : KeepsRows fence (expire_deadline now proc busy visible)
  unfolding expire_deadline
  expire_deadline-KeepsRows t h = RowStep-of_Restates h (ground arith)

  expire_heartbeat-KeepsRows : KeepsRows fence (expire_heartbeat now proc busy visible)
  unfolding expire_heartbeat
  expire_heartbeat-KeepsRows t h = RowStep-of_Restates h (ground arith)

  release_orphan-KeepsRows :
      (ports : List Port) → KeepsRows fence (release_orphan now proc busy visible ports)
  unfolding release_orphan
  release_orphan-KeepsRows ports t h = RowStep-of_Restates h (ground arith)

task_rules-KeepsRows :
    (fence now : ℕ) (proc : Procfs) (observed : Option Observation) (ports : List Port)
    → All (KeepsRows fence) (task_rules now proc observed ports)
unfolding task_rules
task_rules-KeepsRows fence now proc observed ports =
    let busy = busy_set observed in
    let visible = visible_set observed in
    (
      expire_queued-KeepsRows fence now,
      (
        expire_deadline-KeepsRows fence now proc busy visible,
        (
          expire_heartbeat-KeepsRows fence now proc busy visible,
          (
            release_orphan-KeepsRows fence now proc busy visible ports,
            (mark_overdue-KeepsRows fence now, tt),
          ),
        ),
      ),
    )

sweep_all-Ledger :
    (now : ℕ) (rules : List Rule) (db : Db)
    → All (KeepsRows db.next_fence) rules
    → Ledger db.next_fence db.tasks
    → Ledger (sweep_all now rules db).next_fence (sweep_all now rules db).tasks
unfolding sweep_all
sweep_all-Ledger now [] db keeps h = h
sweep_all-Ledger now (rule ∷ rules) db keeps h =
    sweep_all-Ledger now rules (sweep now rule db) keeps.1
      (map-Ledger h (after rule) (λ t i. keeps.0 t (h.rows t i)))

-- Housekeeping keeps the ledger, whatever was observed.
pub housekeep-Ledger :
    (now : ℕ) (proc : Procfs) (observed : Option Observation) (db : Db)
    → Ledger db.next_fence db.tasks
    → Ledger (housekeep now proc observed db).0.next_fence (housekeep now proc observed db).0.tasks
unfolding housekeep
housekeep-Ledger now proc observed db h =
    sweep_all-Ledger now (task_rules now proc observed db.ports) (expire_holds now db)
      (task_rules-KeepsRows db.next_fence now proc observed db.ports) h
