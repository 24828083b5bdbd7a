-- ===== src/Tests/Leases.antt =====
-- The theorems on leases, grants and guards at concrete inputs.
use vaws_coordinator.Prelude.{
  ℕ, true, false, ◌≡◌, refl, none, some, Option, List, [], ◌∷◌, contains, nat_eq, here, there, In,
  get_or, ◌&&◌, not, ◌==◌, string_eq, option_eq, all_of, ◌||◌,
}
use vaws_coordinator.Host.State.{Task, Db, Observation, Listening, Guard, active, service}
use vaws_coordinator.Host.Guard.{Procfs, gone, seen, process_guard_busy, is_marker}
use vaws_coordinator.Host.Housekeep.{housekeep}
use vaws_coordinator.Host.Submit.{queued_task}
use vaws_coordinator.Host.Run.{run_all, fresh_db}
use vaws_coordinator.Host.Queue.{outranks}
use vaws_coordinator.Host.Acquire.{acquire_body}
use vaws_coordinator.Host.Release.{release_body}
use vaws_coordinator.Host.Fair.{acquire_is_fair}
use vaws_coordinator.Host.Evidence.{unclear_lease_kept, is_unclear, Continues}
use vaws_coordinator.Host.Evidence.Guarded.{guard_free_iff, is_quiet}
use vaws_coordinator.Host.Evidence.Done.{release_devices_clear, DeviceClear}
use vaws_coordinator.Host.Evidence.Released.{release_needs_evidence, Cleared}
use vaws_coordinator.Host.Ledger.Acquire.{Sound}
use vaws_coordinator.Host.Ledger.History.{run_all-Sound, fresh_db-Sound}
use vaws_coordinator.Host.Probe.{confirmed_free_probe}
use vaws_coordinator.Host.Probe.Confirmed.{confirmed_free, IdleIn}
use vaws_coordinator.Tests.Samples.{two_grants, two_queued, text_lt, blank, quiet, free, marker}

abbrev granted_db : Db
granted_db = run_all text_lt two_grants (fresh_db "epoch")

abbrev row_a : Task
row_a = get_or granted_db.tasks 0 (queued_task "" blank none)

-- With the occupancy unknown and the deadline past, the lease of task-a goes on.
unclear_lease_kept_example :
    (u : Task) × In u (housekeep 500 quiet none granted_db).0.tasks × Continues row_a u
unfolding run_all is_unclear
unclear_lease_kept_example = unclear_lease_kept 500 quiet none granted_db row_a here refl refl

-- An active task with a service port and a retained guard, whose marker two processes do not carry.
abbrev served_row : Task
served_row = record row_a {
  state = active;
  process_guard = some (record { marker = marker; boot_id = "boot"; retain_until_release = true });
  granted_service_port = some 30000;
}

abbrev served_db : Db
served_db = record granted_db {
  tasks = served_row ∷ [];
  ports =
      record {
        port = 30000;
        kind = service;
        task_id = "task-a";
        owner = "agent-1";
        created_at = 101;
      }
      ∷ [];
}

abbrev two_processes : Procfs
two_processes = record quiet { processes = gone ∷ seen false ("HOME=/root" ∷ []) ∷ [] }

abbrev other_ports : Option Listening
other_ports = some (record { is_ok = true; ports = 22 ∷ 30001 ∷ [] })

release_needs_evidence_example :
    Cleared two_processes true other_ports served_db served_row "task-a"
unfolding run_all release_body
release_needs_evidence_example =
    release_needs_evidence 110 two_processes "task-a" 1 (free (0 ∷ 1 ∷ [])) true other_ports
      served_db served_row _ _ refl refl

release_devices_clear_example : DeviceClear (free (0 ∷ 1 ∷ [])) row_a 0
unfolding run_all release_body
release_devices_clear_example =
    release_devices_clear 110 quiet "task-a" 1 (free (0 ∷ 1 ∷ [])) false none granted_db row_a _ _
      refl refl refl 0 refl

abbrev queued_db : Db
queued_db = run_all text_lt two_queued (fresh_db "epoch")

abbrev first_queued : Task
first_queued = get_or queued_db.tasks 0 (queued_task "" blank none)

abbrev second_queued : Task
second_queued = get_or queued_db.tasks 1 (queued_task "" blank none)

queued_db-Sound : Sound queued_db
queued_db-Sound =
    run_all-Sound text_lt two_queued (fresh_db "epoch") (tt, (tt, tt)) (fresh_db-Sound "epoch")

acquire_is_fair_example : outranks first_queued second_queued ≡ true
unfolding run_all acquire_body
acquire_is_fair_example =
    acquire_is_fair text_lt 110 60 quiet "task-a" (free (0 ∷ [])) none queued_db first_queued refl
      refl queued_db-Sound refl second_queued (there here) refl

abbrev sample : List ℕ → Observation
sample busy = record { is_ok = true; devices = 0 ∷ 1 ∷ []; busy = some busy }

confirmed_free_example :
    ((sample []).is_ok ≡ true) × (contains 0 (sample []).devices ≡ true) × IdleIn 0 (sample [])
unfolding confirmed_free_probe
confirmed_free_example =
    confirmed_free (sample [] ∷ sample (1 ∷ []) ∷ []) (sample (1 ∷ [])) 0 (1 ∷ []) refl refl refl
      refl refl (sample []) here

abbrev guarded : Guard
guarded = record { marker = marker; boot_id = "boot"; retain_until_release = true }

guard_free_iff_example :
    process_guard_busy quiet (some guarded) true
    ≡ not (
        is_marker guarded.marker
        && (quiet.boot_id == some guarded.boot_id)
        && all_of (is_quiet guarded.marker) quiet.processes
        && (not guarded.retain_until_release || true))
guard_free_iff_example = guard_free_iff quiet guarded true
