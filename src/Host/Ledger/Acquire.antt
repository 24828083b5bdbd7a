-- ===== src/Host/Ledger/Acquire.antt =====
-- `acquire` keeps the ledger.
use vaws_coordinator.Prelude.{
  ℕ, ◌+◌, String, Bool, true, false, ◌≡◌, refl, sym, subst, inl, inr, Option, none, some, List,
  arith, ◌==◌, nat_eq, string_eq, option_eq, Option-cases, contains, find, find-In, In, ltb, not,
  ◌&&◌, ==→≡,
}
use vaws_coordinator.Host.State.{queued, state_eq, Task, Db, Observation, Listening, Change}
use vaws_coordinator.Host.Result.{ok, Ensures, Ensures-ok, Ensures-if, Ensures-bind, Result-cases}
use vaws_coordinator.Host.Table.{with_row, task_row, load_devices}
use vaws_coordinator.Host.Guard.{Procfs}
use vaws_coordinator.Host.Housekeep.{housekeep}
use vaws_coordinator.Host.Devices.{reserved_devices, select_granted_devices}
use vaws_coordinator.Host.Acquire.{
  AcquireReply, queue_head, task_ids, task_available, reserve_service_port, issue_grant,
  with_service_port, settle_choice, try_grant, acquire_body, probe_unusable,
}
use vaws_coordinator.Host.Ledger.Rows.{Ledger, same_row}
use vaws_coordinator.Host.Ledger.Sweeps.{housekeep-Ledger}
use vaws_coordinator.Host.Ledger.Selection.{selected-free}
use vaws_coordinator.Host.Ledger.Grant.{grant-Ledger}
use vaws_coordinator.Host.Ledger.Ports.{reserve_service_port-SameLedger}

abbrev pub Sound : Db → Type 0
Sound db = Ledger db.next_fence db.tasks

abbrev pub KeepsSound {ℓ} : (A : Type ℓ) → A × Db → Type 0
KeepsSound A r = Sound r.1

-- A row that was read stands in the table under its id.
pub task_row-In :
    (id : String) (db : Db) (row : Task)
    → task_row id db ≡ ok row
    → In row db.tasks × (row.task_id ≡ id)
unfolding task_row
task_row-In id db row e = elim (Option-cases (find (λ (t : Task). t.task_id == id) db.tasks)) [
  | inl missing ↦ absurd (ground arith)
  | inr (t, found) ↦
      let (i, same) = find-In (λ (t : Task). t.task_id == id) db.tasks found in
      let er : t ≡ row = ground arith in
      (subst (λ x. In x db.tasks) er i, subst (λ x. x.task_id ≡ id) er (==→≡ t.task_id id same))
]

pub with_row-Sound :
    {A : Type 0} (id : String) (db : Db) (reply : Task → A)
    → Sound db
    → Ensures (KeepsSound A) (with_row id db reply)
unfolding with_row
with_row-Sound id db reply h = Ensures-bind (task_row id db) (λ row _. Ensures-ok (reply row, db) h)

Free : List ℕ → String → List Task → Type 0
Free selected id ts =
    (d : ℕ) → contains d selected ≡ true → contains d (reserved_devices ts (some id)) ≡ false

module _ (now ttl : ℕ) (row : Task) (selected : List ℕ) (changes : List Change)
    (is_queued : row.state ≡ queued) where
  issue_grant-Sound :
      (port : Option ℕ) (db : Db)
      → Sound db
      → In row db.tasks
      → Free selected row.task_id db.tasks
      → Ensures (KeepsSound AcquireReply) (issue_grant now ttl row selected changes port db)
  unfolding issue_grant Free
  issue_grant-Sound port db h i free = with_row-Sound row.task_id _ _ (
      grant-Ledger now (now + ttl) selected port row.task_id h free λ t j e.
        subst (λ x. x.process_guard ≡ none) (same_row row t db.tasks h.unique i j (sym e))
          ((h.rows row i).unguarded (ground arith)))

  with_service_port-Sound :
      (listening : Option Listening) (db : Db)
      → Sound db
      → In row db.tasks
      → Free selected row.task_id db.tasks
      → Ensures
          (KeepsSound AcquireReply)
          (with_service_port now ttl row selected changes listening db)
  unfolding with_service_port Free
  with_service_port-Sound listening db h i free =
      elim (Result-cases (reserve_service_port row now listening db)) [
        | inl ((port, db'), e) ↦
            let same = reserve_service_port-SameLedger row now listening db (port, db') e in
            rw (e, with_service_port)
              (issue_grant-Sound port db'
                (subst (λ n. Ledger n db'.tasks) (sym same.same_fence)
                  (subst (Ledger db.next_fence) (sym same.same_tasks) h))
                (subst (In row) (sym same.same_tasks) i)
                (subst (Free selected row.task_id) (sym same.same_tasks) free))
        | inr (f, e) ↦ rw (e, with_service_port) (Ensures-ok _ h)
      ]

module _ (now ttl : ℕ) (listening : Option Listening) (row : Task) (changes : List Change) where
  settle_choice-Sound :
      (available : List ℕ) (db : Db) (choice : Option (List ℕ) × List ℕ)
      → Sound db
      → In row db.tasks
      → row.state ≡ queued
      → ((selected : List ℕ) → choice.0 ≡ some selected → Free selected row.task_id db.tasks)
      → Ensures
          (KeepsSound AcquireReply)
          (settle_choice now ttl listening row changes available db choice)
  unfolding settle_choice
  settle_choice-Sound available db (none, missing) h i is_queued free = Ensures-ok _ h
  settle_choice-Sound available db (some selected, missing) h i is_queued free =
      with_service_port-Sound now ttl row selected changes is_queued listening db h i
        (free selected refl)

  pub try_grant-Sound :
      (text_lt : String → String → Bool) (observed : Option Observation) (db : Db)
      → Sound db
      → In row db.tasks
      → Ensures
          (KeepsSound AcquireReply)
          (try_grant text_lt now ttl observed listening row changes db)
  unfolding try_grant Free
  try_grant-Sound text_lt observed db h i =
      Ensures-if (not (row.state == queued)) (λ _. Ensures-ok _ h)
        λ is_queued.
          Ensures-if (ltb now row.not_before) (λ _. Ensures-ok _ h)
            λ _.
              Ensures-if
                (not (row.requested_count == 0)
                  && not (task_ids (queue_head text_lt now db) == some row.task_id))
                (λ _. Ensures-ok _ h)
                λ _.
                  settle_choice-Sound (task_available now observed row db) db
                    (select_granted_devices (load_devices row.requested_devices) row.requested_count
                      (task_available now observed row db))
                    h i (ground arith) λ selected e d m. selected-free d now observed row db e m

-- `acquire` keeps the ledger on every path that returns.
pub acquire_body-Sound :
    (text_lt : String → String → Bool) (now : ℕ) (proc : Procfs) (id : String)
    (observed : Option Observation) (ttl : ℕ) (listening : Option Listening) (db : Db)
    → Sound db
    → Ensures (KeepsSound AcquireReply) (acquire_body text_lt now proc id observed ttl listening db)
unfolding acquire_body
acquire_body-Sound text_lt now proc id observed ttl listening db h =
    Ensures-bind (task_row id db) λ requested_row _.
      Ensures-if (probe_unusable requested_row observed) (λ _. Ensures-ok _ h)
        λ _. Ensures-bind (task_row id (housekeep now proc observed db).0) λ row e.
          let (db', changes) = housekeep now proc observed db in
          try_grant-Sound now ttl listening row changes text_lt observed db'
            (housekeep-Ledger now proc observed db h) (task_row-In id db' row e).0
