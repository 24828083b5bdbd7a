-- ===== src/Host/Ledger/Release.antt =====
-- `release` and `cancel` keep the ledger; `release` only where the lease has not ended before.
use vaws_coordinator.Prelude.{
  ℕ, String, Bool, true, false, ◌≡◌, refl, Option, none, List, [], arith, nat_eq, if◌then◌else◌,
  ◌==◌, string_eq,
}
use vaws_coordinator.Host.State.{orphaned_busy, is_finished, Task, Db, Observation, Listening}
use vaws_coordinator.Host.Result.{ok, Ensures, Ensures-ok, Ensures-if, Ensures-bind, Ensures-guard}
use vaws_coordinator.Host.Table.{
  task_row, update_rows, check_token, token_matches, busy_set, visible_set,
}
use vaws_coordinator.Host.Guard.{Procfs, unguarded_cpu_process, managed_shared_completion}
use vaws_coordinator.Host.Ports.{service_ports_busy, clear_service_ports}
use vaws_coordinator.Host.Release.{
  ReleaseReply, release_conflicts, release_blocked, cancel_blocked, deferred_row, released_row,
  cancel_row, defer_release, complete_release, release_body, settle_cancel, cancel_body,
}
use vaws_coordinator.Host.Ledger.Rows.{
  RowInv, RowStep, RowStep-refl, RowStep-of_Restates, Restates, Ledger, map-Ledger,
}
use vaws_coordinator.Host.Ledger.Acquire.{Sound, KeepsSound, with_row-Sound}
use vaws_coordinator.Host.Ledger.Updates.{read-RowInv, updated-Ledger, task_row_self}

-- An unfinished task that turns orphaned keeps what it leased.
orphaned-RowStep :
    (fence : ℕ) (t u : Task)
    → is_finished t.state ≡ false
    → RowInv fence t
    → u.task_id ≡ t.task_id
    → u.state ≡ orphaned_busy
    → u.granted_devices ≡ t.granted_devices
    → u.fence_token ≡ t.fence_token
    → RowStep fence t u
orphaned-RowStep fence t u open_lease h same is_orphaned devices token = record {
  same_id = same;
  shrinks = λ d m. ground arith;
  token = λ n e. ground arith;
  inv = record {
    bare = λ q. ground arith;
    untoken = λ q. ground arith;
    issued = λ n e. h.issued n (ground arith);
    unguarded = λ q. ground arith;
  };
}

-- An update of all rows of an id, by a change that suits any row.
update_any-Ledger :
    {fence : ℕ} {ts : List Task} (id : String) (f : Task → Task)
    → Ledger fence ts
    → ((t : Task) → RowInv fence t → Restates t (f t))
    → Ledger fence (update_rows id f ts)
update_any-Ledger {fence} {ts} id f h keeps =
    map-Ledger h _ λ t i. either t (t.task_id == id) (h.rows t i)
  where
    either : (t : Task) (b : Bool) → RowInv fence t → RowStep fence t (if b then f t else t)
    either t true r = RowStep-of_Restates r (keeps t r)
    either t false r = RowStep-refl r

clear_service_ports-Sound : (id : String) (db : Db) → Sound db → Sound (clear_service_ports id db)
unfolding clear_service_ports
clear_service_ports-Sound id db h =
    update_any-Ledger id (λ t. record t { granted_service_port = none }) h (λ t r. ground arith)

complete_release-Sound :
    (now : ℕ) (row : Task) (db : Db)
    → Sound db
    → Ensures (KeepsSound ReleaseReply) (complete_release now row db)
unfolding complete_release released_row
complete_release-Sound now row db h = with_row-Sound row.task_id _ _ (
    update_any-Ledger row.task_id (released_row now row.allow_external_busy)
      (clear_service_ports-Sound row.task_id db h) (λ t r. ground arith))

defer_release-Sound :
    (now : ℕ) (row : Task) (conflicts busy_ports : List ℕ) (db : Db)
    → Sound db
    → task_row row.task_id db ≡ ok row
    → is_finished row.state ≡ false
    → Ensures (KeepsSound ReleaseReply) (defer_release now row conflicts busy_ports db)
unfolding defer_release deferred_row
defer_release-Sound now row conflicts busy_ports db h e open_lease =
    let f = deferred_row now (unguarded_cpu_process row) in
    with_row-Sound row.task_id _ _ (
      updated-Ledger row.task_id db row h e f (
        orphaned-RowStep db.next_fence row (f row) open_lease (read-RowInv row.task_id db row h e)
          refl refl refl refl))

-- `release` of an unfinished task keeps the ledger.
pub release_body-Sound :
    (now : ℕ) (proc : Procfs) (id : String) (token : ℕ) (observed : Option Observation)
    (confirmed : Bool) (listening : Option Listening) (db : Db)
    → Sound db
    → ((row : Task) → task_row id db ≡ ok row → is_finished row.state ≡ false)
    → Ensures
        (KeepsSound ReleaseReply)
        (release_body now proc id token observed confirmed listening db)
unfolding release_body check_token
release_body-Sound now proc id token observed confirmed listening db h open_lease =
    Ensures-bind (task_row id db) λ row e.
      Ensures-guard (token_matches row.fence_token token) _ λ _.
        let conflicts =
          if managed_shared_completion row confirmed
          then []
          else release_conflicts (busy_set observed) (visible_set observed) row in
        let busy_ports = service_ports_busy db id listening in
        Ensures-if (release_blocked proc observed confirmed row conflicts busy_ports)
          (λ _.
            defer_release-Sound now row conflicts busy_ports db h (task_row_self id db row e)
              (open_lease row e))
          (λ _. complete_release-Sound now row db h)

settle_cancel-Sound :
    (now : ℕ) (row : Task) (blocked : Bool) (db : Db)
    → Sound db
    → task_row row.task_id db ≡ ok row
    → is_finished row.state ≡ false
    → Ensures (KeepsSound Task) (settle_cancel now row blocked db)
unfolding settle_cancel cancel_row
settle_cancel-Sound now row true db h e open_lease =
    let f = cancel_row now true in
    with_row-Sound row.task_id _ _ (
      updated-Ledger row.task_id db row h e f (
        orphaned-RowStep db.next_fence row (f row) open_lease (read-RowInv row.task_id db row h e)
          refl refl refl refl))
settle_cancel-Sound now row false db h e open_lease = with_row-Sound row.task_id _ _ (
    update_any-Ledger row.task_id (cancel_row now false)
      (clear_service_ports-Sound row.task_id db h) (λ t r. ground arith))

-- `cancel` keeps the ledger.
pub cancel_body-Sound :
    (now : ℕ) (proc : Procfs) (id : String) (observed : Option Observation)
    (listening : Option Listening) (db : Db)
    → Sound db
    → Ensures (KeepsSound Task) (cancel_body now proc id observed listening db)
unfolding cancel_body
cancel_body-Sound now proc id observed listening db h = Ensures-bind (task_row id db) λ row e.
    Ensures-if (is_finished row.state) (λ _. Ensures-ok _ h)
      (λ open_lease.
        settle_cancel-Sound now row
          (cancel_blocked proc observed row (service_ports_busy db id listening)) db h
          (task_row_self id db row e) open_lease)
