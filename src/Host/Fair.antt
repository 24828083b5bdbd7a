-- ===== src/Host/Fair.antt =====
-- What a grant of `acquire` of vaws_coordinator/host/vaws_npu_coordination.py gives, and to whom.
use vaws_coordinator.Prelude.{
  ℕ, String, Bool, true, false, ◌≡◌, inl, inr, Option, some, List, [], arith, ◌==◌, ◌&&◌, not, In,
  Bool-cases, nat_eq, string_eq, option_eq, ◌+◌, contains, value_or,
}
use vaws_coordinator.Host.State.{state_eq, Task, Db, Observation, Listening, Change}
use vaws_coordinator.Host.Result.{ok, Result-cases}
use vaws_coordinator.Host.Table.{task_row, with_row, busy_set, observed_devices}
use vaws_coordinator.Host.Guard.{Procfs}
use vaws_coordinator.Host.Housekeep.{housekeep}
use vaws_coordinator.Host.Devices.{hold_conflicts, reserved_devices}
use vaws_coordinator.Host.Acquire.{
  is_eligible, probe_unusable, try_grant, acquire_body, granted_now,
}
use vaws_coordinator.Host.Ledger.Acquire.{Sound, task_row-In}
use vaws_coordinator.Host.Ledger.Sweeps.{housekeep-Ledger}
use vaws_coordinator.Host.Queue.{outranks, grant-Outranks}

pub with_row-reply :
    {A : Type 0} (id : String) (db : Db) (reply : Task → A) (a : A) (db' : Db)
    → with_row id db reply ≡ ok (a, db')
    → (t : Task) × (a ≡ reply t)
unfolding with_row
with_row-reply id db reply a db' e = elim (Result-cases (task_row id db)) [
  | inl (t, found) ↦ (t, ground arith)
  | inr (f, missing) ↦ absurd (ground arith)
]

-- What an available device is, once the row and the database of the decision are fixed.
pub record IsFree (db : Db) (observed : Option Observation) (row : Task) (now device : ℕ)
    : Type 0 where
  pub seen : contains device (observed_devices observed) ≡ true
  pub idle :
      (contains device (value_or (busy_set observed) []) && not row.allow_external_busy) ≡ false
  pub unleased : contains device (reserved_devices db.tasks (some row.task_id)) ≡ false
  pub unheld : hold_conflicts db.holds device now (now + row.estimated_duration_seconds) ≡ false

module _ (text_lt : String → String → Bool) (now ttl : ℕ) (proc : Procfs) (id : String)
    (observed : Option Observation) (listening : Option Listening) (db : Db) (row : Task)
    {row' : Task} {selected : List ℕ} {port : Option ℕ} {changes : List Change} {db' : Db}
    (found : task_row id (housekeep now proc observed db).0 ≡ ok row)
    (e : acquire_body text_lt now proc id observed ttl listening db
      ≡ ok (granted_now row' selected port changes, db')) where
  tried :
      try_grant text_lt now ttl observed listening row
        (housekeep now proc observed db).1
        (housekeep now proc observed db).0
      ≡ ok (granted_now row' selected port changes, db')
  unfolding acquire_body
  tried = elim (Result-cases (task_row id db)) [
    | inr (f, missing) ↦ absurd (ground arith)
    | inl (r, first) ↦ elim (Bool-cases (probe_unusable r observed)) [
      | inl unusable ↦ absurd (ground arith)
      | inr usable ↦ ground arith
    ]
  ]

  -- `acquire` is fair: when it grants devices to a task, in a database that has the ledger's
  -- invariant, every task that could start at that moment, queued with its start time reached and
  -- its latest start ahead, has a lower priority than the granted one, or the same priority and
  -- was not submitted earlier.
  pub acquire_is_fair :
      Sound db
      → (row.requested_count == 0) ≡ false
      → (u : Task) → In u (housekeep now proc observed db).0.tasks
      → is_eligible now u ≡ true
      → outranks row u ≡ true
  acquire_is_fair sound wanted u i able =
      grant-Outranks text_lt now ttl observed listening row (housekeep now proc observed db).1
        (housekeep now proc observed db).0 (housekeep-Ledger now proc observed db sound).unique
        (task_row-In id _ row found).0 tried wanted u i able
