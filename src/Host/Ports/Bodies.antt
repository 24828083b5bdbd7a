-- ===== src/Host/Ports/Bodies.antt =====
-- Every transaction of the coordinator leaves each TCP port claimed at most once.
use vaws_coordinator.Prelude.{
  ℕ, String, Bool, true, false, ◌≡◌, refl, sym, subst, inl, inr, Option, none, some, List, [], ◌∷◌,
  arith, Option-cases, nat_eq, string_eq, option_eq, ◌&&◌, ◌||◌, ◌==◌, if◌then◌else◌, distinct, not,
  ltb, is_some,
}
use vaws_coordinator.Host.State.{
  Db, Request, Task, Hold, Guard, Observation, Listening, Change, queued, granted, starting, active,
  orphaned_busy, is_finished, state_eq,
}
use vaws_coordinator.Host.Result.{
  Result-cases, Ensures, Ensures-ok, Ensures-if, Ensures-guard, Ensures-bind, guard_required,
  retained_guard_required, deadline_elapsed,
}
use vaws_coordinator.Host.Table.{
  task_row, with_row, token_matches, check_token, busy_set, visible_set, load_devices,
}
use vaws_coordinator.Host.Guard.{Procfs, managed_shared_completion}
use vaws_coordinator.Host.Housekeep.{
  Rule, housekeep, sweep_all, sweep, expire_holds, task_rules, elapsed,
}
use vaws_coordinator.Host.Devices.{select_granted_devices}
use vaws_coordinator.Host.Submit.{submit_body, SubmitReply}
use vaws_coordinator.Host.Acquire.{
  AcquireReply, probe_unusable, queue_head, task_ids, task_available, reserve_service_port,
  issue_grant, with_service_port, settle_choice, try_grant, acquire_body,
}
use vaws_coordinator.Host.Activate.{activate_body, heartbeat_body, retains}
use vaws_coordinator.Host.Preflight.{
  PreflightReply, preflight_conflicts, preflight_body, settle_preflight,
}
use vaws_coordinator.Host.Release.{
  ReleaseReply, release_conflicts, release_blocked, cancel_blocked, defer_release, complete_release,
  settle_release, release_body, settle_cancel, cancel_body,
}
use vaws_coordinator.Host.Holds.{HoldReply, add_hold_body, remove_hold_body}
use vaws_coordinator.Host.Snapshot.{Snapshot, shown_tasks, snapshot_body}
use vaws_coordinator.Host.Ports.{select_service_port, service_ports_busy}
use vaws_coordinator.Host.Ports.Unique.{
  port_numbers, PortsUnique, select_service_port-PortsUnique, clear_service_ports-PortsUnique,
}

sweep_all-ports :
    (now : ℕ) (rules : List Rule) (db : Db) → (sweep_all now rules db).ports ≡ db.ports
unfolding sweep_all
sweep_all-ports now [] db = refl
sweep_all-ports now (rule ∷ rules) db = sweep_all-ports now rules (sweep now rule db)

housekeep-ports :
    (now : ℕ) (proc : Procfs) (observed : Option Observation) (db : Db)
    → (housekeep now proc observed db).0.ports ≡ db.ports
unfolding housekeep expire_holds
housekeep-ports now proc observed db =
    sweep_all-ports now (task_rules now proc observed db.ports) (expire_holds now db)

abbrev pub KeepsPorts : (A : Type 0) → A × Db → Type 0
KeepsPorts A r = PortsUnique r.1

with_row-ports :
    {A : Type 0} (id : String) (db : Db) (reply : Task → A)
    → PortsUnique db
    → Ensures (KeepsPorts A) (with_row id db reply)
unfolding with_row
with_row-ports id db reply h = Ensures-bind (task_row id db) λ t _. Ensures-ok (reply t, db) h

housekeep-PortsUnique :
    (now : ℕ) (proc : Procfs) (observed : Option Observation) (db : Db)
    → PortsUnique db
    → PortsUnique (housekeep now proc observed db).0
housekeep-PortsUnique now proc observed db h =
    subst (λ ps. distinct (port_numbers ps) ≡ true) (sym (housekeep-ports now proc observed db)) h

pub submit_body-ports :
    (now : ℕ) (id : String) (request : Request) (message : Option String) (db : Db)
    → PortsUnique db
    → Ensures (KeepsPorts SubmitReply) (submit_body now id request message db)
unfolding submit_body
submit_body-ports now id request message db h = record { at = λ r e. ground arith }

pub add_hold_body-ports :
    (now : ℕ) (hold : Hold) (observed : Option Observation) (db : Db)
    → PortsUnique db
    → Ensures (KeepsPorts HoldReply) (add_hold_body now hold observed db)
unfolding add_hold_body
add_hold_body-ports now hold observed db h = record { at = λ r e. ground arith }

pub remove_hold_body-ports :
    (now : ℕ) (id : String) (db : Db)
    → PortsUnique db
    → Ensures (KeepsPorts Hold) (remove_hold_body now id db)
unfolding remove_hold_body
remove_hold_body-ports now id db h = record { at = λ r e. ground arith }

pub snapshot_body-ports :
    (now : ℕ) (proc : Procfs) (observed : Option Observation) (id : Option String) (limit : ℕ)
    (db : Db)
    → PortsUnique db
    → Ensures (KeepsPorts Snapshot) (snapshot_body now proc observed id limit db)
unfolding snapshot_body
snapshot_body-ports now proc observed id limit db h =
    Ensures-bind (shown_tasks id (housekeep now proc observed db).0)
      (λ tasks _. Ensures-ok _ (housekeep-PortsUnique now proc observed db h))

settle_preflight-ports :
    (now ttl : ℕ) (row : Task) (changes : List Change) (conflicts : List ℕ) (db : Db)
    → PortsUnique db
    → Ensures (KeepsPorts PreflightReply) (settle_preflight now ttl row changes conflicts db)
unfolding settle_preflight
settle_preflight-ports now ttl row changes [] db h = with_row-ports row.task_id _ _ h
settle_preflight-ports now ttl row changes (c ∷ cs) db h = with_row-ports row.task_id _ _ h

pub preflight_body-ports :
    (now : ℕ) (proc : Procfs) (id : String) (token : ℕ) (observed : Option Observation) (ttl : ℕ)
    (db : Db)
    → PortsUnique db
    → Ensures (KeepsPorts PreflightReply) (preflight_body now proc id token observed ttl db)
unfolding preflight_body check_token
preflight_body-ports now proc id token observed ttl db h =
    Ensures-bind (task_row id db) λ requested_row _.
      Ensures-if (probe_unusable requested_row observed) (λ _. Ensures-ok _ h)
        λ _.
          let (db', changes) = housekeep now proc observed db in
          Ensures-bind (task_row id db') λ row e.
            Ensures-guard (token_matches row.fence_token token) _ λ _.
              Ensures-guard (row.state == granted) _ λ is_granted.
                settle_preflight-ports now ttl row changes
                  (preflight_conflicts now observed row db') db'
                  (housekeep-PortsUnique now proc observed db h)

pub activate_body-ports :
    (now : ℕ) (id : String) (token pid : ℕ) (g : Option Guard) (ttl : ℕ) (db : Db)
    → PortsUnique db
    → Ensures (KeepsPorts Task) (activate_body now id token pid g ttl db)
unfolding activate_body check_token
activate_body-ports now id token pid g ttl db h = Ensures-bind (task_row id db) λ row e.
    Ensures-guard (token_matches row.fence_token token) _ λ _.
      Ensures-guard (row.state == starting) _ λ _.
        Ensures-guard (not (row.requested_count == 0) || is_some g) guard_required λ _.
          Ensures-guard (not row.allow_external_busy || retains g) retained_guard_required λ _.
            Ensures-guard (not (elapsed row.activation_deadline now)) deadline_elapsed
              λ _. with_row-ports id _ _ h

pub heartbeat_body-ports :
    (now : ℕ) (id : String) (token ttl : ℕ) (db : Db)
    → PortsUnique db
    → Ensures (KeepsPorts Task) (heartbeat_body now id token ttl db)
unfolding heartbeat_body check_token
heartbeat_body-ports now id token ttl db h = Ensures-bind (task_row id db) λ row e.
    Ensures-guard (token_matches row.fence_token token) _ λ _.
      Ensures-guard (row.state == active || row.state == orphaned_busy) _
        λ live. with_row-ports id _ _ h

pub release_body-ports :
    (now : ℕ) (proc : Procfs) (id : String) (token : ℕ) (observed : Option Observation)
    (confirmed : Bool) (listening : Option Listening) (db : Db)
    → PortsUnique db
    → Ensures
        (KeepsPorts ReleaseReply)
        (release_body now proc id token observed confirmed listening db)
unfolding release_body check_token settle_release defer_release complete_release
release_body-ports now proc id token observed confirmed listening db h =
    Ensures-bind (task_row id db) λ row e.
      Ensures-guard (token_matches row.fence_token token) _ λ _.
        let conflicts =
          if managed_shared_completion row confirmed
          then []
          else release_conflicts (busy_set observed) (visible_set observed) row in
        let busy_ports = service_ports_busy db id listening in
        Ensures-if (release_blocked proc observed confirmed row conflicts busy_ports)
          (λ _. with_row-ports row.task_id _ _ h)
          (λ _. with_row-ports row.task_id _ _ (clear_service_ports-PortsUnique row.task_id db h))

settle_cancel-ports :
    (now : ℕ) (row : Task) (blocked : Bool) (db : Db)
    → PortsUnique db
    → Ensures (KeepsPorts Task) (settle_cancel now row blocked db)
unfolding settle_cancel
settle_cancel-ports now row true db h = with_row-ports row.task_id _ _ h
settle_cancel-ports now row false db h =
    with_row-ports row.task_id _ _ (clear_service_ports-PortsUnique row.task_id db h)

pub cancel_body-ports :
    (now : ℕ) (proc : Procfs) (id : String) (observed : Option Observation)
    (listening : Option Listening) (db : Db)
    → PortsUnique db
    → Ensures (KeepsPorts Task) (cancel_body now proc id observed listening db)
unfolding cancel_body
cancel_body-ports now proc id observed listening db h = Ensures-bind (task_row id db) λ row e.
    Ensures-if (is_finished row.state) (λ _. Ensures-ok _ h)
      (λ open_lease.
        settle_cancel-ports now row
          (cancel_blocked proc observed row (service_ports_busy db id listening)) db h)

module _ (now ttl : ℕ) (row : Task) (changes : List Change) (listening : Option Listening) where
  reserve_service_port-ports :
      (db : Db)
      → PortsUnique db
      → Ensures (KeepsPorts (Option ℕ)) (reserve_service_port row now listening db)
  unfolding reserve_service_port
  reserve_service_port-ports db h = elim (Option-cases row.requested_service_port) [
    | inl unasked ↦ rw (unasked, reserve_service_port) (Ensures-ok _ h)
    | inr (requested, asked) ↦
        rw (asked, reserve_service_port)
          (Ensures-bind
            (select_service_port row.service_port_choices requested row.task_id row.agent_id now
              listening db)
            λ r e. Ensures-ok _ (
              (select_service_port-PortsUnique row.service_port_choices requested row.task_id
                  row.agent_id now listening db h).at
                r e))
  ]

  with_service_port-ports :
      (selected : List ℕ) (db : Db)
      → PortsUnique db
      → Ensures
          (KeepsPorts AcquireReply)
          (with_service_port now ttl row selected changes listening db)
  unfolding with_service_port issue_grant
  with_service_port-ports selected db h =
      elim (Result-cases (reserve_service_port row now listening db)) [
        | inl ((port, db'), e) ↦
            rw (e, with_service_port)
              (with_row-ports row.task_id _ _ ((reserve_service_port-ports db h).at (port, db') e))
        | inr (f, e) ↦ rw (e, with_service_port) (Ensures-ok _ h)
      ]

  settle_choice-ports :
      (available : List ℕ) (db : Db) (choice : Option (List ℕ) × List ℕ)
      → PortsUnique db
      → Ensures
          (KeepsPorts AcquireReply)
          (settle_choice now ttl listening row changes available db choice)
  unfolding settle_choice
  settle_choice-ports available db (none, missing) h = Ensures-ok _ h
  settle_choice-ports available db (some selected, missing) h =
      with_service_port-ports selected db h

  try_grant-ports :
      (text_lt : String → String → Bool) (observed : Option Observation) (db : Db)
      → PortsUnique db
      → Ensures
          (KeepsPorts AcquireReply)
          (try_grant text_lt now ttl observed listening row changes db)
  unfolding try_grant
  try_grant-ports text_lt observed db h =
      Ensures-if (not (row.state == queued)) (λ _. Ensures-ok _ h)
        λ is_queued.
          Ensures-if (ltb now row.not_before) (λ _. Ensures-ok _ h)
            λ _.
              Ensures-if
                (not (row.requested_count == 0)
                  && not (task_ids (queue_head text_lt now db) == some row.task_id))
                (λ _. Ensures-ok _ h)
                λ _.
                  settle_choice-ports (task_available now observed row db) db
                    (select_granted_devices (load_devices row.requested_devices) row.requested_count
                      (task_available now observed row db))
                    h

pub acquire_body-ports :
    (text_lt : String → String → Bool) (now : ℕ) (proc : Procfs) (id : String)
    (observed : Option Observation) (ttl : ℕ) (listening : Option Listening) (db : Db)
    → PortsUnique db
    → Ensures (KeepsPorts AcquireReply) (acquire_body text_lt now proc id observed ttl listening db)
unfolding acquire_body
acquire_body-ports text_lt now proc id observed ttl listening db h =
    Ensures-bind (task_row id db) λ requested_row _.
      Ensures-if (probe_unusable requested_row observed) (λ _. Ensures-ok _ h)
        λ _. Ensures-bind (task_row id (housekeep now proc observed db).0) λ row e.
          try_grant-ports now ttl row (housekeep now proc observed db).1 listening text_lt observed
            (housekeep now proc observed db).0 (housekeep-PortsUnique now proc observed db h)
