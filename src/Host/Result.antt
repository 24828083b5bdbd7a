-- ===== src/Host/Result.antt =====
-- `CoordinationError` of vaws_coordinator/host/vaws_npu_coordination.py as a value.
use vaws_coordinator.Prelude.{ℕ, String, ◌≡◌, ◌⊎◌}
use vaws_coordinator.Prelude.Outcome.{Outcome, Outcome-cases}
use vaws_coordinator.Host.State.{TaskState}
pub use vaws_coordinator.Prelude.Outcome.{
  err, ok, ◌>>=◌, guard, ◌>>◌, require, Ensures, Ensures-ok, Ensures-err, Ensures-if, Ensures-guard,
  Ensures-bind, Ensures-require,
}

-- One constructor for each message; `port` comes with the errors that carry one.
pub data Error : Type 0 where
  invalid_id invalid_devices invalid_count invalid_sharing invalid_port invalid_window : Error
  invalid_ttl invalid_guard invalid_pid invalid_port_range invalid_message : Error
  epoch_changed epoch_required : Error
  not_found : String → Error
  already_exists : String → Error
  stale_token : String → Error
  wrong_state : String → TaskState → Error
  supervisor_absent guard_required retained_guard_required deadline_elapsed : Error
  port_reserved ssh_port_mismatch port_bound : ℕ → Error
  listening_unavailable ssh_port_exhausted no_service_port undeclared_service_port : Error
  wrong_container_name message_reused foreign_reply unknown_recipient reply_to_required : Error
  samples_required busy_missing : Error

-- What a call returns, or the error that it raises.
abbrev pub Result {ℓ} : Type ℓ → Type ℓ
Result A = Outcome Error A

pub Result-cases {ℓ} :
    {A : Type ℓ} (r : Result A) → ((a : A) × (r ≡ ok a)) ⊎ ((e : Error) × (r ≡ err e))
Result-cases = Outcome-cases
