-- ===== src/Host/Ledger/Stale.antt =====
-- `release` does not test the task's state: with the token of a lease that has ended, it leases
-- the old devices again.
use vaws_coordinator.Prelude.{
  ℕ, String, Bool, true, false, ◌≡◌, ◌≢◌, refl, sym, ap, ◌∙◌, subst, Option, none, some, List, [],
  arith, contains, nat_eq, In, if◌then◌else◌,
}
use vaws_coordinator.Host.State.{is_finished, release_deferred, Task, Db, Observation, Listening}
use vaws_coordinator.Host.Result.{ok, guard, stale_token, ◌>>=◌, ◌>>◌}
use vaws_coordinator.Host.Table.{
  transaction, validated, finish, task_row, with_row, busy_set, visible_set, load_devices,
  check_token, token_matches, update_task, add_event,
}
use vaws_coordinator.Host.Ids.{require_safe_id}
use vaws_coordinator.Host.Guard.{Procfs, managed_shared_completion, unguarded_cpu_process}
use vaws_coordinator.Host.Devices.{leased}
use vaws_coordinator.Host.Ports.{service_ports_busy}
use vaws_coordinator.Host.Release.{
  release, release_body, complete_release, release_conflicts, release_blocked, ReleaseReply,
  deferred, defer_release, deferred_row, settle_release,
}
use vaws_coordinator.Host.Ledger.Rows.{
  Exclusive, find-update_rows, In-update_rows_self, In-update_rows_ne,
}
use vaws_coordinator.Host.Ledger.Acquire.{task_row-In}
use vaws_coordinator.Host.Ledger.Updates.{found_row, task_row_self}

not_managed :
    (row : Task) (confirmed : Bool)
    → is_finished row.state ≡ true
    → managed_shared_completion row confirmed ≡ false
unfolding managed_shared_completion
not_managed row confirmed ended = ground arith

stale_blocked :
    (proc : Procfs) (observed : Option Observation) (confirmed : Bool) (row : Task)
    (conflicts busy_ports : List ℕ) (device : ℕ)
    → is_finished row.state ≡ true
    → busy_set observed ≡ none
    → contains device (load_devices row.granted_devices) ≡ true
    → release_blocked proc observed confirmed row conflicts busy_ports ≡ true
unfolding release_blocked
stale_blocked proc observed confirmed row conflicts busy_ports device ended unknown held =
    ground (arith, not_managed row confirmed ended)

-- The database of a deferred release.
deferred_db : ℕ → Task → List ℕ → List ℕ → Db → Db
unfolding deferred_row
deferred_db now row conflicts busy_ports db =
    add_event now (release_deferred conflicts busy_ports) (some row.task_id)
      (update_task row.task_id (deferred_row now (unguarded_cpu_process row)) db)

defer_release_lem :
    (now : ℕ) (row : Task) (conflicts busy_ports : List ℕ) (db : Db)
    → task_row row.task_id db ≡ ok row
    → defer_release now row conflicts busy_ports db
      ≡ ok (
        deferred conflicts busy_ports (deferred_row now (unguarded_cpu_process row) row),
        deferred_db now row conflicts busy_ports db,
      )
unfolding defer_release deferred_db with_row task_row deferred_row
defer_release_lem now row conflicts busy_ports db e =
    let f = deferred_row now (unguarded_cpu_process row) in
    rw (
      find-update_rows row.task_id f db.tasks row (λ t. refl)
        (found_row row.task_id db row (unfold task_row in e)))

module _ (now : ℕ) (proc : Procfs) (id : String) (token : ℕ) (observed : Option Observation)
    (confirmed : Bool) (listening : Option Listening) (db : Db) (row : Task) where
  stale_conflicts : List ℕ
  stale_conflicts =
      if managed_shared_completion row confirmed
      then []
      else release_conflicts (busy_set observed) (visible_set observed) row

  stale_db : Db
  stale_db = deferred_db now row stale_conflicts (service_ports_busy db id listening) db

  stale_body :
      task_row id db ≡ ok row
      → check_token row token ≡ ok tt
      → release_blocked proc observed confirmed row stale_conflicts
          (service_ports_busy db id listening)
        ≡ true
      → (reply : ReleaseReply) × (release_body now proc id token observed confirmed listening db
          ≡ ok (reply, stale_db))
  unfolding release_body stale_db stale_conflicts
  stale_body found holds_token blocked =
      let conflicts = stale_conflicts in
      let busy_ports = service_ports_busy db id listening in
      (
        _,
        ap
              (λ r. r >>= λ row.
                check_token row token
                >> settle_release now proc observed confirmed busy_ports row db)
              found
            ∙ ap (λ r. r >> settle_release now proc observed confirmed busy_ports row db)
                holds_token
            ∙ ap
                (λ b.
                  if b
                  then defer_release now row conflicts busy_ports db
                  else complete_release now row db)
                blocked
            ∙ defer_release_lem now row conflicts busy_ports db (task_row_self id db row found),
      )

  -- `release` with the token of a task whose lease has ended, and with occupancy unknown, leases
  -- the task's old devices to it again: if another task leases one of them, two tasks do.
  pub stale_release_leases_twice :
      require_safe_id id ≡ ok id
      → task_row id db ≡ ok row
      → token_matches row.fence_token token ≡ true
      → is_finished row.state ≡ true
      → busy_set observed ≡ none
      → (device : ℕ) → contains device (load_devices row.granted_devices) ≡ true
      → (u : Task) → In u db.tasks
      → u.task_id ≢ id
      → contains device (leased u) ≡ true
      → ¬ Exclusive (release none now proc id token observed confirmed listening db).1.tasks
  unfolding release stale_db deferred_db deferred_row update_task add_event
  stale_release_leases_twice safe found matches ended unknown device held u i other m exclusive =
      let checked : check_token row token ≡ ok tt =
        ap (λ b. guard b (stale_token row.task_id)) matches in
      let (reply, e) = stale_body found checked (
        stale_blocked proc observed confirmed row stale_conflicts
          (service_ports_busy db id listening) device ended unknown held) in
      let left : (release none now proc id token observed confirmed listening db).1 ≡ stale_db =
        ap
          (λ r.
            (validated r
              (λ task_id.
                transaction none (release_body now proc task_id token observed confirmed listening))
              db).1)
          safe
        ∙ ap (λ r. (finish db r).1) e in
      let f = deferred_row now (unguarded_cpu_process row) in
      let (i', same) = task_row-In id db row found in
      subst (λ (d : Db). Exclusive d.tasks) left exclusive (f row) u
        (In-update_rows_self row.task_id f db.tasks row i' refl)
        (In-update_rows_ne row.task_id f db.tasks u i (λ p. other (p ∙ same)))
        (λ p. other (sym p ∙ same)) device held m
