-- ===== src/Host/Ports.antt =====
-- The port table of vaws_coordinator/host/vaws_npu_coordination.py: `_allocated_ports`,
-- `_task_service_ports`, `_claim_port`, `_select_service_port`, `_service_ports_busy`,
-- `_clear_service_ports` and `reserve_container_ssh`.
pub mod Unique
pub mod Bodies
pub mod History
use vaws_coordinator.Prelude.{
  ℕ, zero, suc, String, Bool, true, false, Option, none, some, List, [], ◌∷◌, ◌++◌, map, ◌&&◌, ◌||◌,
  not, ltb, ◌==◌, string_eq, option_eq, nat_eq, if◌then◌else◌, filter, find, contains, sort,
}
use vaws_coordinator.Host.State.{
  Port, PortKind, container_ssh, service, kind_eq, Db, container_ssh_reserved, Listening,
}
use vaws_coordinator.Host.Result.{
  Result, ok, err, invalid_port, port_reserved, port_bound, listening_unavailable,
  ssh_port_mismatch, ssh_port_exhausted, no_service_port, undeclared_service_port,
  wrong_container_name, guard, require, ◌>>=◌, ◌>>◌,
}
use vaws_coordinator.Host.Table.{transaction, validated, add_event, update_task}
use vaws_coordinator.Host.Housekeep.{task_service_ports}
use vaws_coordinator.Host.Ids.{require_safe_id, user_container_name, container_ssh_task_id}

-- `exclude_task` is `none` for no exclusion.
unfoldable pub allocated_ports : List Port → Option String → List ℕ
allocated_ports ports exclude_task =
    map (λ p. p.port) (filter (λ p. not (some p.task_id == exclude_task)) ports)

-- The ports of a usable sample.
abbrev pub live_ports : Option Listening → Option (List ℕ)
live_ports none = none
live_ports (some listening) = if listening.is_ok then some listening.ports else none

unfoldable pub insert_port : ℕ → PortKind → String → String → ℕ → Db → Db
insert_port port kind task_id owner now db = record db {
  ports =
      db.ports
      ++ record { port = port; kind = kind; task_id = task_id; owner = owner; created_at = now }
        ∷ [];
}

abbrev pub is_tcp_port : ℕ → Bool
is_tcp_port port = ltb 0 port && ltb port 65536

-- The check against the live sample, skipped under `allow_listening`.
abbrev pub not_live : Bool → Option (List ℕ) → ℕ → Result (Unit {0})
not_live true live port = ok tt
not_live false none port = err listening_unavailable
not_live false (some live) port = guard (not (contains port live)) (port_bound port)

unfoldable pub claim_port :
    ℕ → PortKind → String → String → ℕ → Option Listening → Bool → Db → Result (ℕ × Db)
unfolding insert_port
claim_port port kind task_id owner now listening allow_listening db = do
  guard (is_tcp_port port) invalid_port
  let existing = find (λ p. p.port == port) db.ports
  let claimed = do
    not_live allow_listening (live_ports listening) port
    ok (port, insert_port port kind task_id owner now db)
  elim existing [
    | none ↦ claimed
    | some row ↦
        if row.task_id == task_id && row.kind == kind
        then ok (port, db)
        else err (port_reserved port)
  ]

-- The loop over the candidates; `fixed` is `preferred is not None`.
unfoldable pub claim_candidate : Bool → List ℕ → String → String → ℕ → Db → List ℕ → Result (ℕ × Db)
unfolding allocated_ports insert_port
claim_candidate fixed live task_id owner now db [] = err no_service_port
claim_candidate fixed live task_id owner now db (port ∷ rest) =
    let others = claim_candidate fixed live task_id owner now db rest in
    elim (find (λ p. p.port == port && p.task_id == task_id) db.ports) [
      | some row ↦
          if row.kind == service
          then ok (port, db)
          else if fixed
          then err (port_reserved port)
          else others
      | none ↦
          if contains port (allocated_ports db.ports (some task_id)) || contains port live
          then (if fixed then err (port_bound port) else others)
          else ok (port, insert_port port service task_id owner now db)
    ]

unfoldable pub ports_from : ℕ → ℕ → List ℕ
ports_from first zero = []
ports_from first (suc count) = first ∷ ports_from (suc first) count

-- DEFAULT_SERVING_PORT_RANGE, 30000:45999
unfoldable pub serving_ports : List ℕ
serving_ports = ports_from 30000 16000

-- DEFAULT_CONTAINER_SSH_PORT_RANGE, 46000:46999
unfoldable pub container_ssh_ports : List ℕ
container_ssh_ports = ports_from 46000 1000

-- Without declared ports only an automatic port can be asked for.
unfoldable pub service_port_pool : List ℕ → ℕ → Result (List ℕ)
service_port_pool [] requested =
    if requested == 0 then ok serving_ports else err undeclared_service_port
service_port_pool (c ∷ cs) requested = ok (c ∷ cs)

unfoldable pub select_service_port :
    List ℕ → ℕ → String → String → ℕ → Option Listening → Db → Result (ℕ × Db)
unfolding service_port_pool serving_ports
select_service_port choices requested task_id owner now listening db = do
  live ← require (live_ports listening) listening_unavailable
  pool ← service_port_pool choices requested
  if requested == 0 then claim_candidate false live task_id owner now db pool else (do
    guard (contains requested pool) undeclared_service_port
    claim_candidate true live task_id owner now db (requested ∷ []))

-- The service ports of a task that still listen, or all of them where no sample is usable.
unfoldable pub service_ports_busy : Db → String → Option Listening → List ℕ
service_ports_busy db task_id listening =
    let ports = sort (map (λ p. p.port) (task_service_ports db.ports task_id)) in
    elim (live_ports listening) [ none ↦ ports | some live ↦ filter (λ p. contains p live) ports ]

unfoldable pub clear_service_ports : String → Db → Db
unfolding update_task
clear_service_ports task_id db =
    update_task task_id (λ t. record t { granted_service_port = none })
      (record db { ports = filter (λ p. not (p.task_id == task_id && p.kind == service)) db.ports })

pub record SshReply : Type 0 where
  pub reused : Bool
  pub user : String
  pub container_name : String
  pub port : ℕ
  pub task_id : String
  pub coordination_epoch : String

-- The port to claim: the one that is asked for, or the first free one of the range.
unfoldable pub choose_ssh_port : ℕ → Option Listening → Db → Result ℕ
unfolding allocated_ports container_ssh_ports
choose_ssh_port (suc port) listening db = ok (suc port)
choose_ssh_port zero listening db = do
  live ← require (live_ports listening) listening_unavailable
  require
      (find (λ p. not (contains p live) && not (contains p (allocated_ports db.ports none)))
        container_ssh_ports)
      ssh_port_exhausted

-- The port, whether it was reserved before, and the database.
unfoldable pub reserve_ssh_port :
    String → String → ℕ → ℕ → Option Listening → Db → Result (ℕ × Bool × Db)
reserve_ssh_port user task_id port now listening db =
    elim (find (λ p. p.task_id == task_id && p.kind == container_ssh) db.ports) [
      | some row ↦
          if not (port == 0) && not (row.port == port) || not (row.owner == user)
          then err (ssh_port_mismatch row.port)
          else ok (row.port, true, db)
      | none ↦ do
        chosen ← choose_ssh_port port listening db
        claimed ← claim_port chosen container_ssh task_id user now listening (not (port == 0)) db
        ok (claimed.0, false, claimed.1)
    ]

unfoldable pub reserve_ssh_body :
    String → String → String → ℕ → ℕ → Option Listening → Db → Result (SshReply × Db)
unfolding reserve_ssh_port add_event
reserve_ssh_body user container_name task_id port now listening db = do
  (reserved, reused, db') ← reserve_ssh_port user task_id port now listening db
  ok (
    record {
      reused = reused;
      user = user;
      container_name = container_name;
      port = reserved;
      task_id = task_id;
      coordination_epoch = db'.coordination_epoch;
    },
    add_event now (container_ssh_reserved user container_name reserved reused) (some task_id) db',
  )

unfoldable pub checked_ssh : String → String → ℕ → Result String
unfolding require_safe_id user_container_name container_ssh_task_id
checked_ssh user container_name port = do
  safe_user ← require_safe_id user
  safe_name ← require_safe_id container_name
  expected ← user_container_name user
  guard (container_name == expected) wrong_container_name
  guard (ltb port 65536) invalid_port
  container_ssh_task_id user

unfoldable pub reserve_container_ssh :
    Option String → ℕ → String → String → ℕ → Option Listening → Db → Result SshReply × Db
unfolding checked_ssh transaction reserve_ssh_body
reserve_container_ssh epoch now user container_name port listening db =
    validated (checked_ssh user container_name port)
      (λ task_id.
        transaction epoch (reserve_ssh_body user container_name task_id port now listening))
      db
