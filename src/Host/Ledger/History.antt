-- ===== src/Host/Ledger/History.antt =====
-- The ledger over every history of calls.
use vaws_coordinator.Prelude.{
  ℕ, String, Bool, true, false, ◌≡◌, ◌≢◌, refl, sym, subst, inl, inr, Option, some, List, [], ◌∷◌,
  arith, contains, nat_eq, In, ◌≤◌, Bool-cases, ◌==◌, string_eq, ==→≡, ne_of_test,
}
use vaws_coordinator.Host.State.{is_finished, Task, Db, Listening}
use vaws_coordinator.Host.Result.{ok, Ensures, guard}
use vaws_coordinator.Host.Table.{task_row}
use vaws_coordinator.Host.Submit.{submit_body}
use vaws_coordinator.Host.Acquire.{acquire_body}
use vaws_coordinator.Host.Preflight.{preflight_body}
use vaws_coordinator.Host.Activate.{activate_body, heartbeat_body}
use vaws_coordinator.Host.Release.{release_body, cancel_body}
use vaws_coordinator.Host.Holds.{add_hold_body, remove_hold_body}
use vaws_coordinator.Host.Ports.{SshReply, reserve_ssh_body}
use vaws_coordinator.Host.Snapshot.{snapshot_body}
use vaws_coordinator.Host.Ids.{require_safe_id}
use vaws_coordinator.Host.Devices.{leased}
use vaws_coordinator.Host.Run.{
  Call, Op, submit, acquire, preflight, activate, heartbeat, release, cancel, add_hold, remove_hold,
  reserve_container_ssh, snapshot, run, run_all, fresh_db, IsTimely, AllTimely,
}
use vaws_coordinator.Host.Keeps.{transaction-Keeps, validated-Keeps}
use vaws_coordinator.Host.Ledger.Rows.{Ledger, same_row}
use vaws_coordinator.Host.Ledger.Ports.{reserve_ssh_body-SameLedger}
use vaws_coordinator.Host.Ledger.Updates.{
  preflight_body-Sound, activate_body-Sound, heartbeat_body-Sound,
}
use vaws_coordinator.Host.Ledger.Release.{release_body-Sound, cancel_body-Sound}
use vaws_coordinator.Host.Ledger.Submit.{
  submit_body-Sound, add_hold_body-Sound, remove_hold_body-Sound, snapshot_body-Sound,
}
use vaws_coordinator.Host.Ledger.Acquire.{Sound, KeepsSound, acquire_body-Sound}

safe_id_self : (id a : String) → require_safe_id id ≡ ok a → id ≡ a
unfolding require_safe_id
safe_id_self id a e = ground arith

ssh-Sound :
    (user name id : String) (port now : ℕ) (listening : Option Listening) (db : Db)
    → Sound db
    → Ensures (KeepsSound SshReply) (reserve_ssh_body user name id port now listening db)
ssh-Sound user name id port now listening db h = record {
  at = λ r e.
      let same = reserve_ssh_body-SameLedger user name id port now listening db r e in
      subst (λ n. Ledger n r.1.tasks) (sym same.same_fence)
        (subst (Ledger db.next_fence) (sym same.same_tasks) h);
}

module _ (text_lt : String → String → Bool) where
  -- Every call keeps the ledger.
  pub run-Sound :
      (c : Call) (op : Op) (db : Db) → IsTimely op db → Sound db → Sound (run text_lt c op db)
  unfolding run
  run-Sound c (submit fresh_id r) db timely h =
      validated-Keeps Sound _ c.expected_epoch (λ a. submit_body c.now a.0 a.1 r.message) db h
        (λ a _. submit_body-Sound c.now a.0 a.1 r.message db h)
  run-Sound c (acquire id observed ttl listening) db timely h =
      validated-Keeps Sound _ c.expected_epoch
        (λ a. acquire_body text_lt c.now c.proc a observed ttl listening) db h
        (λ a _. acquire_body-Sound text_lt c.now c.proc a observed ttl listening db h)
  run-Sound c (preflight id token observed ttl) db timely h =
      validated-Keeps Sound _ c.expected_epoch
        (λ a. preflight_body c.now c.proc a token observed ttl) db h
        (λ a _. preflight_body-Sound c.now c.proc a token observed ttl db h)
  run-Sound c (activate id token guard supervisor ttl) db timely h =
      validated-Keeps Sound _ c.expected_epoch (λ a. activate_body c.now a.0 token a.1 guard ttl) db
        h (λ a _. activate_body-Sound c.now a.0 token a.1 guard ttl db h)
  run-Sound c (heartbeat id token ttl) db timely h =
      validated-Keeps Sound _ c.expected_epoch (λ a. heartbeat_body c.now a token ttl) db h
        (λ a _. heartbeat_body-Sound c.now a token ttl db h)
  run-Sound c (release id token observed confirmed listening) db timely h =
      validated-Keeps Sound _ c.expected_epoch
        (λ a. release_body c.now c.proc a token observed confirmed listening) db h
        (λ a e. release_body-Sound c.now c.proc a token observed confirmed listening db h (
          subst (λ k. (row : Task) → task_row k db ≡ ok row → is_finished row.state ≡ false)
            (safe_id_self id a e) timely))
  run-Sound c (cancel id observed listening) db timely h =
      validated-Keeps Sound _ c.expected_epoch (λ a. cancel_body c.now c.proc a observed listening)
        db h (λ a _. cancel_body-Sound c.now c.proc a observed listening db h)
  run-Sound c (add_hold fresh_id r observed) db timely h =
      validated-Keeps Sound _ c.expected_epoch (λ a. add_hold_body c.now a observed) db h
        (λ a _. add_hold_body-Sound c.now a observed db h)
  run-Sound c (remove_hold id) db timely h =
      validated-Keeps Sound _ c.expected_epoch (remove_hold_body c.now) db h
        (λ a _. remove_hold_body-Sound c.now a db h)
  run-Sound c (reserve_container_ssh user name port listening) db timely h =
      validated-Keeps Sound _ c.expected_epoch
        (λ a. reserve_ssh_body user name a port c.now listening) db h
        (λ a _. ssh-Sound user name a port c.now listening db h)
  run-Sound c (snapshot observed id limit) db timely h =
      transaction-Keeps Sound c.expected_epoch (snapshot_body c.now c.proc observed id limit) db h
        (snapshot_body-Sound c.now c.proc observed id limit db h)

  pub run_all-Sound :
      (history : List (Call × Op)) (db : Db)
      → AllTimely text_lt history db
      → Sound db
      → Sound (run_all text_lt history db)
  unfolding run_all
  run_all-Sound [] db timely h = h
  run_all-Sound ((c, op) ∷ rest) db timely h =
      run_all-Sound rest (run text_lt c op db) timely.1 (run-Sound c op db timely.0 h)

pub fresh_db-Sound : (epoch : String) → Sound (fresh_db epoch)
fresh_db-Sound epoch = record {
  unique = refl;
  exclusive = λ t u i. elim i [ ];
  fences = λ t u n i. elim i [ ];
  rows = λ t i. elim i [ ];
}

module _ (text_lt : String → String → Bool) (epoch : String) (history : List (Call × Op))
    (timely : AllTimely text_lt history (fresh_db epoch)) where
  -- After any history of calls on a new database in which no `release` names a task whose lease
  -- had already ended: a device that one task leases, in any of the states granted, starting,
  -- active and orphaned_busy, is leased to no other task.
  pub leases_exclusive :
      (t u : Task) (device : ℕ)
      → In t (run_all text_lt history (fresh_db epoch)).tasks
      → In u (run_all text_lt history (fresh_db epoch)).tasks
      → t.task_id ≢ u.task_id
      → contains device (leased t) ≡ true
      → contains device (leased u) ≡ false
  leases_exclusive t u device i j ne m = elim (Bool-cases (contains device (leased u))) [
    | inl both ↦ absurd (
        (run_all-Sound text_lt history (fresh_db epoch) timely (fresh_db-Sound epoch)).exclusive t u
          i j ne device m both)
    | inr alone ↦ alone
  ]

  -- After any history of calls on a new database in which no `release` names a task whose lease
  -- had already ended: a fencing token that a row holds is one that the counter has issued, and
  -- rows that hold the same token are the same row.
  pub fences_unique :
      (t u : Task) (token : ℕ)
      → In t (run_all text_lt history (fresh_db epoch)).tasks
      → In u (run_all text_lt history (fresh_db epoch)).tasks
      → t.fence_token ≡ some token
      → u.fence_token ≡ some token
      → (token ≤ (run_all text_lt history (fresh_db epoch)).next_fence) × (t ≡ u)
  fences_unique t u token i j e f =
      let sound = run_all-Sound text_lt history (fresh_db epoch) timely (fresh_db-Sound epoch) in
      (
        (sound.rows t i).issued token e,
        elim (Bool-cases (t.task_id == u.task_id)) [
          | inl same ↦ same_row t u _ sound.unique i j (==→≡ t.task_id u.task_id same)
          | inr other ↦
              absurd (sound.fences t u token i j (ne_of_test t.task_id u.task_id other) e f)
        ],
      )
