-- ===== src/Pool/Registry.antt =====
-- Registration of prepared work roots (`posix_roots_overlap`, `_check_registration`, `_register`,
-- `_checkout_row` and `drain` of vaws_coordinator/ready_runtime.py).
-- A registration is the transaction `register_begin`, a probe of the host, and the transaction
-- `register_commit`, which checks against the rows as they are then.
pub mod Overlap
use vaws_coordinator.Prelude.{
  ℕ, String, Bool, true, false, Option, none, some, List, [], ◌∷◌, map, ◌&&◌, ◌||◌, not, ◌==◌,
  nat_eq, string_eq, option_eq, list_eq, pair_eq, bool_eq, if◌then◌else◌, contains, get_row,
}
use vaws_coordinator.Prelude.Outcome.{Outcome, ok, ◌>>=◌, ◌>>◌, guard}
use vaws_coordinator.Pool.Values.{
  PoolError, still_bound, identity_changed, endpoint_not_shared, container_mismatch, roots_overlap,
  endpoint_taken, ports_overlap, request_reused, binding_returned, changed_view, RuntimeState,
  ready, bound, draining, runtime_state_eq, Endpoint, endpoint_eq, Attestation, attestation_eq,
  RootPath,
}
use vaws_coordinator.Pool.State.{RuntimeRow, BindingRow, PoolDb, runtime_bound}
use vaws_coordinator.Pool.Table.{owned_session, get_runtime, put_runtime, put_binding, record_event}

-- The prefixes of a list of parts, itself excepted.
unfoldable pub proper_prefixes : List String → List (List String)
proper_prefixes [] = []
proper_prefixes (part ∷ rest) = [] ∷ map (λ p. part ∷ p) (proper_prefixes rest)

-- PurePosixPath.parents
unfoldable pub parents : RootPath → List RootPath
unfolding proper_prefixes
parents (anchor, parts) = map (λ p. (anchor, p)) (proper_prefixes parts)

unfoldable pub posix_roots_overlap : RootPath → RootPath → Bool
unfolding parents
posix_roots_overlap a b = a == b || contains a (parents b) || contains b (parents a)

-- A specification after `_register` has checked and completed it.
pub record Spec : Type 0 where
  pub user : String
  pub python : String
  pub container_name : String
  pub endpoint : Endpoint
  pub root : RootPath
  pub host_endpoint : Endpoint
  pub service_ports : List ℕ
  pub reuse_only : Bool

-- The owner and session that a fresh root is bound to, and the digest of owner and request id.
pub record Checkout : Type 0 where
  pub owner : String
  pub session : String
  pub key : String

unfoldable pub same_identity : Spec → RuntimeRow → Bool
same_identity spec other =
    other.host_endpoint.host == spec.host_endpoint.host
    && other.user == spec.user
    && other.container_name == spec.container_name

-- `container_id` is given, and it is not the one that the other row was attested with.
unfoldable pub foreign_container : Option String → RuntimeRow → Bool
foreign_container none other = false
foreign_container (some id) other =
    not (id == "")
    && not (other.attestation.container_id == none || other.attestation.container_id == some id)

unfoldable pub check_row : String → Spec → Option String → RuntimeRow → Outcome PoolError (Unit {0})
unfolding same_identity foreign_container posix_roots_overlap
check_row runtime_id spec container_id other =
    if other.id == runtime_id
    then (do
      guard (not (other.state == bound)) still_bound
      guard (same_identity spec other && other.endpoint == spec.endpoint) identity_changed
      ok tt)
    else if same_identity spec other
    then (do
      guard (other.host_endpoint == spec.host_endpoint && other.endpoint == spec.endpoint)
          endpoint_not_shared
      guard (not (foreign_container container_id other)) container_mismatch
      guard (not (posix_roots_overlap other.root spec.root)) roots_overlap
      ok tt)
    else (do
      let same_host = other.host_endpoint.host == spec.host_endpoint.host
      guard (not (same_host && other.endpoint == spec.endpoint)) endpoint_taken
      guard
          (not (
            same_host
            && (contains other.endpoint.port spec.service_ports
                || other.endpoint.port == spec.endpoint.port
                || contains spec.endpoint.port other.service_ports)))
          ports_overlap
      ok tt)

unfoldable pub check_rows :
    String → Spec → Option String → List RuntimeRow → Outcome PoolError (Unit {0})
unfolding check_row
check_rows runtime_id spec container_id [] = ok tt
check_rows runtime_id spec container_id (other ∷ rest) = do
  check_row runtime_id spec container_id other
  check_rows runtime_id spec container_id rest

unfoldable pub check_registration :
    PoolDb → String → Spec → Option String → Outcome PoolError (Unit {0})
unfolding check_rows
check_registration db runtime_id spec container_id =
    check_rows runtime_id spec container_id db.runtimes

-- all(runtime.get(name) == value for name, value in spec.items())
unfoldable pub meets_spec : Spec → RuntimeRow → Bool
meets_spec spec r =
    r.user == spec.user
    && r.python == spec.python
    && r.container_name == spec.container_name
    && r.endpoint == spec.endpoint
    && r.root == spec.root
    && r.host_endpoint == spec.host_endpoint
    && r.service_ports == spec.service_ports
    && r.reuse_only == spec.reuse_only

-- A retry of a registration that bound its root: the same request gets the same binding.
unfoldable pub bound_already :
    Checkout
    → String
    → Spec
    → Option Attestation
    → PoolDb
    → BindingRow
    → Outcome PoolError (RuntimeRow × BindingRow)
unfolding meets_spec get_runtime
bound_already c runtime_id spec prepared db previous = do
  runtime ← get_runtime previous.runtime_id db
  guard
      (previous.intent.session == c.session
        && previous.runtime_id == runtime_id
        && meets_spec spec runtime)
      request_reused
  guard (previous.is_bound && runtime.state == bound) binding_returned
  guard (prepared == none || prepared == some runtime.attestation) changed_view
  ok (runtime, previous)

-- The first transaction: `some` is the answer to a retry.
unfoldable pub register_begin :
    Option Checkout
    → String
    → Spec
    → Option Attestation
    → PoolDb
    → Outcome PoolError (Option (RuntimeRow × BindingRow))
unfolding check_registration bound_already owned_session
register_begin none runtime_id spec prepared db = do
  check_registration db runtime_id spec none
  ok none
register_begin (some c) runtime_id spec prepared db = do
  owned_session c.session c.owner db >>= λ _. ok tt
  elim (get_row (λ b. b.id) c.key db.bindings) [
    | some previous ↦ do
      found ← bound_already c runtime_id spec prepared db previous
      ok (some found)
    | none ↦ do check_registration db runtime_id spec none; ok none
  ]

unfoldable pub registered_row : String → Spec → Attestation → Bool → RuntimeState → RuntimeRow
registered_row runtime_id spec observed is_prepared state = record {
  id = runtime_id;
  user = spec.user;
  python = spec.python;
  container_name = spec.container_name;
  endpoint = spec.endpoint;
  root = spec.root;
  host_endpoint = spec.host_endpoint;
  service_ports = spec.service_ports;
  reuse_only = spec.reuse_only;
  state = state;
  attestation = observed;
  draining = false;
  prepared_native_view = is_prepared;
  error = none;
}

unfoldable pub checkout_row :
    String → String → String → RuntimeRow → Attestation → String → BindingRow
checkout_row owner session key runtime observed requested_runtime = record {
  id = key;
  owner = owner;
  intent = record {
    session = session;
    profile_key = observed.profile_key;
    runtime_id = requested_runtime;
  };
  runtime_id = runtime.id;
  is_bound = true;
  profile_key = observed.profile_key;
  build_key = observed.build_key;
  launch_preamble = observed.launch_preamble;
  container_id = observed.container_id;
  service_ports = runtime.service_ports;
}

-- The second transaction, after the probe.
unfoldable pub register_commit :
    Option Checkout → String → Spec → Bool → Attestation → ℕ → PoolDb → Outcome PoolError PoolDb
unfolding check_registration owned_session put_runtime put_binding record_event checkout_row
    registered_row
register_commit none runtime_id spec is_prepared observed now db = do
  check_registration db runtime_id spec observed.container_id
  ok (put_runtime (registered_row runtime_id spec observed is_prepared ready) db)
register_commit (some c) runtime_id spec is_prepared observed now db = do
  check_registration db runtime_id spec observed.container_id
  _ ← owned_session c.session c.owner db
  let row = registered_row runtime_id spec observed is_prepared bound
  let binding = checkout_row c.owner c.session c.key row observed runtime_id
  ok (
      put_runtime row
        (record_event now c.owner (runtime_bound c.key runtime_id) (put_binding binding db)))

unfoldable pub drain : String → PoolDb → Outcome PoolError PoolDb
unfolding get_runtime put_runtime
drain runtime_id db = do
  runtime ← get_runtime runtime_id db
  let state = if runtime.state == bound then runtime.state else draining
  ok (put_runtime (record runtime { draining = true; state = state }) db)
