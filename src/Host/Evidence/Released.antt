-- ===== src/Host/Evidence/Released.antt =====
-- What `release` of vaws_coordinator/host/vaws_npu_coordination.py knows of a task's ports and
-- processes when it frees its lease.
use vaws_coordinator.Prelude.{
  ℕ, String, Bool, true, false, ◌≡◌, refl, sym, ◌∙◌, subst, inl, inr, Option, none, some, List, [],
  ◌∷◌, arith, ◌&&◌, ◌==◌, ==→≡, ==-refl, Bool-cases, nat_eq, string_eq, option_eq, contains,
  contains-sort, sort, filter, map, In, here, there, In-filter_image, all_of, and-true, is_some,
}
use vaws_coordinator.Host.State.{
  Task, Db, Port, Guard, service, kind_eq, active, orphaned_busy, state_eq, Observation, Listening,
}
use vaws_coordinator.Host.Result.{ok}
use vaws_coordinator.Host.Table.{task_row}
use vaws_coordinator.Host.Guard.{
  Procfs, Proc, is_marker, process_guard_busy, unguarded_cpu_process, unguarded_shared_process,
}
use vaws_coordinator.Host.Housekeep.{is_empty, task_service_ports}
use vaws_coordinator.Host.Ports.{service_ports_busy}
use vaws_coordinator.Host.Release.{done, release_blocked, release_body}
use vaws_coordinator.Host.Evidence.Guarded.{is_quiet, guard_free_iff}
use vaws_coordinator.Host.Evidence.Done.{unblocked, empty_contains, kept}

-- A usable sample of the listening ports was taken, and the port is not in it.
pub record Silent (listening : Option Listening) (port : ℕ) : Type 0 where
  pub sample : Listening
  pub taken : listening ≡ some sample
  pub usable : sample.is_ok ≡ true
  pub absent : contains port sample.ports ≡ false

-- The host still runs the boot of the guard, no process that could be read carries the marker but a
-- zombie, none was unreadable, and a retained guard has its completion confirmed.
pub record GuardGone (proc : Procfs) (g : Guard) (confirmed : Bool) : Type 0 where
  pub well_formed : is_marker g.marker ≡ true
  pub same_boot : proc.boot_id ≡ some g.boot_id
  pub quiet : (p : Proc) → In p proc.processes → is_quiet g.marker p ≡ true
  pub completed : g.retain_until_release ≡ true → confirmed ≡ true

-- What is known when a task is released.
pub record Cleared (proc : Procfs) (confirmed : Bool) (listening : Option Listening) (db : Db)
    (row : Task) (id : String) : Type 0 where
  pub ports_silent :
      (p : Port) → In p db.ports → p.task_id ≡ id → p.kind ≡ service → Silent listening p.port
  pub guard_gone : (g : Guard) → row.process_guard ≡ some g → GuardGone proc g confirmed
  pub active_guarded :
      row.state ≡ active
      → row.process_guard ≡ none
      → ((row.requested_count == 0) ≡ false) × (row.allow_external_busy ≡ false)
  pub orphan_guarded :
      row.state ≡ orphaned_busy
      → row.process_guard ≡ none
      → (is_some row.pid ≡ true → (row.requested_count == 0) ≡ false)
        × (is_some row.started_at ≡ true → row.allow_external_busy ≡ false)

contains-ports :
    (ports : List Port) (p : Port)
    → In p ports
    → contains p.port (map (λ (x : Port). x.port) ports) ≡ true
contains-ports [] p i = elim i [ ]
contains-ports (x ∷ xs) p here = ground (arith, ==-refl x.port)
contains-ports (x ∷ xs) p (there i) = ground (arith, contains-ports xs p i)

port_is_absent :
    (live ports : List ℕ) (port : ℕ)
    → contains port ports ≡ true
    → is_empty (filter (λ p. contains p live) ports) ≡ true
    → contains port live ≡ false
port_is_absent live ports port m e = elim (Bool-cases (contains port live)) [
  | inr absent ↦ absent
  | inl listens ↦ absurd (
      empty_contains (filter (λ p. contains p live) ports) port e
        (kept (λ p. contains p live) ports port m listens))
]

unheard :
    (listening : Option Listening) (db : Db) (id : String) (port : ℕ)
    → contains port (sort (map (λ (p : Port). p.port) (task_service_ports db.ports id))) ≡ true
    → is_empty (service_ports_busy db id listening) ≡ true
    → Silent listening port
unfolding service_ports_busy
unheard none db id port m e = absurd (empty_contains _ port e m)
unheard (some l) db id port m e = elim (Bool-cases l.is_ok) [
  | inr failed ↦ absurd (empty_contains _ port (rw failed at e) m)
  | inl usable ↦ record {
    sample = l;
    taken = refl;
    usable = usable;
    absent = port_is_absent l.ports _ port m (rw usable at e);
  }
]

claimed :
    (db : Db) (id : String) (p : Port)
    → In p db.ports
    → p.task_id ≡ id
    → p.kind ≡ service
    → contains p.port (sort (map (λ (x : Port). x.port) (task_service_ports db.ports id))) ≡ true
claimed db id p i of_task is_service =
    let test : (p.task_id == id && p.kind == service) ≡ true =
      rw (of_task, is_service, ==-refl id) refl in
    let j : In p (task_service_ports db.ports id) =
      In-filter_image (λ (x : Port). x.task_id == id && x.kind == service) db.ports i test in
    contains-sort p.port (map (λ (x : Port). x.port) (task_service_ports db.ports id))
    ∙ contains-ports (task_service_ports db.ports id) p j

all_of_member :
    (f : Proc → Bool) (ps : List Proc) (p : Proc) → all_of f ps ≡ true → In p ps → f p ≡ true
all_of_member f [] p e i = elim i [ ]
all_of_member f (x ∷ xs) p e here = (and-true _ _ e).0
all_of_member f (x ∷ xs) p e (there i) = all_of_member f xs p (and-true _ _ e).1 i

guard_is_gone :
    (proc : Procfs) (g : Guard) (confirmed : Bool)
    → process_guard_busy proc (some g) confirmed ≡ false
    → GuardGone proc g confirmed
guard_is_gone proc g confirmed e =
    let free = sym (guard_free_iff proc g confirmed) ∙ e in
    record {
      well_formed = ground arith;
      same_boot = ==→≡ proc.boot_id (some g.boot_id) (ground arith);
      quiet = λ p i. all_of_member (is_quiet g.marker) proc.processes p (ground arith) i;
      completed = λ retained. ground arith;
    }

-- `release` frees a lease only on evidence. If it answers that the task is released, then: for each
-- service port of the task a usable sample of the listening ports was given, and the port is not
-- in it; if the task has a process guard, its marker is well formed, the host still runs the
-- guard's boot, every process was read and is gone, a zombie or without the marker, and a retained
-- guard has its completion confirmed; and if the task has no guard and was active, it has devices
-- and does not share them, while an orphaned one has devices if a pid is recorded and does not
-- share them if a start is recorded.
pub release_needs_evidence :
    (now : ℕ) (proc : Procfs) (id : String) (token : ℕ) (observed : Option Observation)
    (confirmed : Bool) (listening : Option Listening) (db : Db) (row row' : Task) (db' : Db)
    → task_row id db ≡ ok row
    → release_body now proc id token observed confirmed listening db ≡ ok (done row', db')
    → Cleared proc confirmed listening db row id
unfolding release_blocked unguarded_cpu_process unguarded_shared_process
release_needs_evidence now proc id token observed confirmed listening db row row' db' found e =
    let u = unblocked now proc id token observed confirmed listening db row found e in
    let quiet_ports : is_empty (service_ports_busy db id listening) ≡ true = ground arith in
    let unguarded : process_guard_busy proc row.process_guard confirmed ≡ false = ground arith in
    let cpu : unguarded_cpu_process row ≡ false = ground arith in
    let shared : unguarded_shared_process row ≡ false = ground arith in
    record {
      ports_silent = λ p i of_task is_service.
          unheard listening db id p.port (claimed db id p i of_task is_service) quiet_ports;
      guard_gone = λ g has.
          guard_is_gone proc g confirmed
            (subst (λ o. process_guard_busy proc o confirmed ≡ false) has unguarded);
      active_guarded = λ is_active no_guard. (ground arith, ground arith);
      orphan_guarded = λ orphaned no_guard. (λ known. ground arith, λ started. ground arith);
    }
