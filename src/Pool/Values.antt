-- ===== src/Pool/Values.antt =====
-- The values in the runtime pool's records, with the tests of equality on them, and the errors that
-- `RuntimePool` of vaws_coordinator/ready_runtime.py raises.
use vaws_coordinator.Prelude.{
  ℕ, String, Bool, true, false, Option, List, Comparable, ◌≡◌, ◌↔◌, arith, ◌==◌, ◌&&◌, nat_eq,
  string_eq, option_eq,
}

-- The ValueError, PermissionError, ExecutionRequestError or RuntimeError of each check.
pub data PoolError : Type 0 where
  unknown_session unknown_binding unknown_runtime unknown_run foreign_resource : PoolError
  invalid_identifier relative_worktree sources_in_use : PoolError
  request_reused binding_returned : PoolError
  still_bound identity_changed endpoint_not_shared container_mismatch : PoolError
  roots_overlap changed_view endpoint_taken ports_overlap : PoolError
  unresolved_execution profile_changed build_mismatch environment_changed : PoolError
  invalid_devices invalid_window invalid_sharing invalid_snapshot : PoolError
  unsupported_action managed_lease pending_execution : PoolError
  invalid_reason invalid_evidence evidence_required : PoolError
  already_terminal not_reconcilable not_released : PoolError
  backend_failed : PoolError

pub data RuntimeState : Type 0 where
  ready bound draining needs_repair : RuntimeState

abbrev pub runtime_state_beq : RuntimeState → RuntimeState → Bool
runtime_state_beq ready ready = true
runtime_state_beq bound bound = true
runtime_state_beq draining draining = true
runtime_state_beq needs_repair needs_repair = true
runtime_state_beq _ _ = false

pub runtime_state_beq_iff : (a b : RuntimeState) → (runtime_state_beq a b ≡ true) ↔ (a ≡ b)
runtime_state_beq_iff a b = ground arith

instance abbrev pub runtime_state_eq : Comparable RuntimeState
runtime_state_eq = record { test = runtime_state_beq; agrees = runtime_state_beq_iff }

-- A PurePosixPath: its anchor, and the parts after it.
abbrev pub RootPath : Type 0
RootPath = String × List String

pub record Endpoint : Type 0 where
  pub host : String
  pub port : ℕ
  pub user : String

abbrev pub endpoint_beq : Endpoint → Endpoint → Bool
endpoint_beq a b = a.host == b.host && a.port == b.port && a.user == b.user

pub endpoint_beq_iff : (a b : Endpoint) → (endpoint_beq a b ≡ true) ↔ (a ≡ b)
endpoint_beq_iff a b = grind (
  arith,
  string_eq.agrees a.host b.host,
  nat_eq.agrees a.port b.port,
  string_eq.agrees a.user b.user,
)

instance abbrev pub endpoint_eq : Comparable Endpoint
endpoint_eq = record { test = endpoint_beq; agrees = endpoint_beq_iff }

-- What `inspect` reports of a prepared runtime; `rest` is the remainder of the document, which
-- the pool only compares.
pub record Attestation : Type 0 where
  pub profile_key : String
  pub build_key : String
  pub launch_preamble : String
  pub container_id : Option String
  pub rest : String

abbrev pub attestation_beq : Attestation → Attestation → Bool
attestation_beq a b =
    a.profile_key == b.profile_key
    && a.build_key == b.build_key
    && a.launch_preamble == b.launch_preamble
    && a.container_id == b.container_id
    && a.rest == b.rest

pub attestation_beq_iff : (a b : Attestation) → (attestation_beq a b ≡ true) ↔ (a ≡ b)
attestation_beq_iff a b = grind (
  arith,
  string_eq.agrees a.profile_key b.profile_key,
  string_eq.agrees a.build_key b.build_key,
  string_eq.agrees a.launch_preamble b.launch_preamble,
  (option_eq {A = String}).agrees a.container_id b.container_id,
  string_eq.agrees a.rest b.rest,
)

instance abbrev pub attestation_eq : Comparable Attestation
attestation_eq = record { test = attestation_beq; agrees = attestation_beq_iff }
