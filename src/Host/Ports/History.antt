-- ===== src/Host/Ports/History.antt =====
-- The port table over every history of calls.
use vaws_coordinator.Prelude.{String, Bool, ◌≡◌, refl, List, [], ◌∷◌, distinct, nat_eq, true}
use vaws_coordinator.Host.State.{Db}
use vaws_coordinator.Host.Submit.{submit_body}
use vaws_coordinator.Host.Acquire.{acquire_body}
use vaws_coordinator.Host.Preflight.{preflight_body}
use vaws_coordinator.Host.Activate.{activate_body, heartbeat_body}
use vaws_coordinator.Host.Release.{release_body, cancel_body}
use vaws_coordinator.Host.Holds.{add_hold_body, remove_hold_body}
use vaws_coordinator.Host.Ports.{reserve_ssh_body}
use vaws_coordinator.Host.Snapshot.{snapshot_body}
use vaws_coordinator.Host.Run.{
  Call, Op, submit, acquire, preflight, activate, heartbeat, release, cancel, add_hold, remove_hold,
  reserve_container_ssh, snapshot, run, run_all, fresh_db,
}
use vaws_coordinator.Host.Keeps.{transaction-Keeps, validated-Keeps}
use vaws_coordinator.Host.Ports.Unique.{port_numbers, PortsUnique, reserve_ssh_body-PortsUnique}
use vaws_coordinator.Host.Ports.Bodies.{
  submit_body-ports, acquire_body-ports, preflight_body-ports, activate_body-ports,
  heartbeat_body-ports, release_body-ports, cancel_body-ports, add_hold_body-ports,
  remove_hold_body-ports, snapshot_body-ports,
}

module _ (text_lt : String → String → Bool) where
  run-PortsUnique :
      (c : Call) (op : Op) (db : Db) → PortsUnique db → PortsUnique (run text_lt c op db)
  unfolding run
  run-PortsUnique c (submit fresh_id r) db h =
      validated-Keeps PortsUnique _ c.expected_epoch (λ a. submit_body c.now a.0 a.1 r.message) db h
        (λ a _. submit_body-ports c.now a.0 a.1 r.message db h)
  run-PortsUnique c (acquire id observed ttl listening) db h =
      validated-Keeps PortsUnique _ c.expected_epoch
        (λ a. acquire_body text_lt c.now c.proc a observed ttl listening) db h
        (λ a _. acquire_body-ports text_lt c.now c.proc a observed ttl listening db h)
  run-PortsUnique c (preflight id token observed ttl) db h =
      validated-Keeps PortsUnique _ c.expected_epoch
        (λ a. preflight_body c.now c.proc a token observed ttl) db h
        (λ a _. preflight_body-ports c.now c.proc a token observed ttl db h)
  run-PortsUnique c (activate id token guard supervisor ttl) db h =
      validated-Keeps PortsUnique _ c.expected_epoch
        (λ a. activate_body c.now a.0 token a.1 guard ttl) db h
        (λ a _. activate_body-ports c.now a.0 token a.1 guard ttl db h)
  run-PortsUnique c (heartbeat id token ttl) db h =
      validated-Keeps PortsUnique _ c.expected_epoch (λ a. heartbeat_body c.now a token ttl) db h
        (λ a _. heartbeat_body-ports c.now a token ttl db h)
  run-PortsUnique c (release id token observed confirmed listening) db h =
      validated-Keeps PortsUnique _ c.expected_epoch
        (λ a. release_body c.now c.proc a token observed confirmed listening) db h
        (λ a _. release_body-ports c.now c.proc a token observed confirmed listening db h)
  run-PortsUnique c (cancel id observed listening) db h =
      validated-Keeps PortsUnique _ c.expected_epoch
        (λ a. cancel_body c.now c.proc a observed listening) db h
        (λ a _. cancel_body-ports c.now c.proc a observed listening db h)
  run-PortsUnique c (add_hold fresh_id r observed) db h =
      validated-Keeps PortsUnique _ c.expected_epoch (λ a. add_hold_body c.now a observed) db h
        (λ a _. add_hold_body-ports c.now a observed db h)
  run-PortsUnique c (remove_hold id) db h =
      validated-Keeps PortsUnique _ c.expected_epoch (remove_hold_body c.now) db h
        (λ a _. remove_hold_body-ports c.now a db h)
  run-PortsUnique c (reserve_container_ssh user name port listening) db h =
      validated-Keeps PortsUnique _ c.expected_epoch
        (λ a. reserve_ssh_body user name a port c.now listening) db h
        (λ a _. reserve_ssh_body-PortsUnique user name a port c.now listening db h)
  run-PortsUnique c (snapshot observed id limit) db h =
      transaction-Keeps PortsUnique c.expected_epoch (snapshot_body c.now c.proc observed id limit)
        db h (snapshot_body-ports c.now c.proc observed id limit db h)

  run_all-PortsUnique :
      (history : List (Call × Op)) (db : Db)
      → PortsUnique db
      → PortsUnique (run_all text_lt history db)
  unfolding run_all
  run_all-PortsUnique [] db h = h
  run_all-PortsUnique ((c, op) ∷ rest) db h =
      run_all-PortsUnique rest (run text_lt c op db) (run-PortsUnique c op db h)

  -- After any history of calls on a new database, no TCP port is claimed twice, be it by two
  -- tasks or containers or by one: no INSERT into the port table meets its primary key.
  pub ports_unique :
      (epoch : String) (history : List (Call × Op))
      → distinct (port_numbers (run_all text_lt history (fresh_db epoch)).ports) ≡ true
  ports_unique epoch history = run_all-PortsUnique history (fresh_db epoch) refl
