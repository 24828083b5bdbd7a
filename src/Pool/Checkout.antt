-- ===== src/Pool/Checkout.antt =====
-- Binding a ready runtime to a task, and giving it back (`session_open`, `checkout`,
-- `return_runtime`, `refresh`, `session_bindings` and `runtime_busy` of
-- vaws_coordinator/ready_runtime.py).
-- Each of `checkout` and `refresh` reads in one transaction, probes the host, and writes in another,
-- which takes what the first one read as an argument.
pub mod Candidates
pub mod Answers
use vaws_coordinator.Prelude.{
  ℕ, String, Bool, false, Option, none, some, List, [], ◌∷◌, map, ◌&&◌, ◌||◌, not, ◌==◌, nat_eq,
  string_eq, option_eq, list_eq, pair_eq, bool_eq, if◌then◌else◌, any_of, filter, length, get_row,
}
use vaws_coordinator.Prelude.Outcome.{Outcome, ok, err, ◌>>=◌, ◌>>◌, guard}
use vaws_coordinator.Pool.Values.{
  PoolError, request_reused, binding_returned, unresolved_execution, profile_changed,
  sources_in_use, ready, bound, draining, needs_repair, runtime_state_eq, Attestation,
  attestation_eq,
}
use vaws_coordinator.Pool.State.{
  RuntimeRow, BindingRow, SessionRow, Sources, CheckoutIntent, checkout_eq, PoolDb, runtime_bound,
  runtime_returned, runtime_refreshed, is_done,
}
use vaws_coordinator.Pool.Table.{
  owned_session, owned_binding, get_runtime, put_session, put_runtime, put_binding, record_event,
  has_unresolved,
}
use vaws_coordinator.Pool.Registry.{checkout_row}

-- A runtime that may serve the request.
unfoldable pub is_candidate : String → CheckoutIntent → RuntimeRow → Bool
is_candidate owner intent r =
    r.state == ready
    && not r.reuse_only
    && r.user == owner
    && r.attestation.profile_key == intent.profile_key
    && (intent.runtime_id == "" || r.id == intent.runtime_id)

-- The first transaction: the binding of a retry, or else the candidates.
unfoldable pub checkout_begin :
    String → CheckoutIntent → String → PoolDb → Outcome PoolError (Option BindingRow × List String)
unfolding owned_session is_candidate
checkout_begin owner intent key db = do
  _ ← owned_session intent.session owner db
  elim (get_row (λ b. b.id) key db.bindings) [
    | some binding ↦ do
      guard (binding.intent == intent) request_reused
      guard binding.is_bound binding_returned
      ok (some binding, [])
    | none ↦ ok (none, map (λ r. r.id) (filter (is_candidate owner intent) db.runtimes))
  ]

-- The transaction that reads a candidate before its probe: `none` passes it over.
unfoldable pub read_candidate :
    String → CheckoutIntent → String → PoolDb → Outcome PoolError (Option RuntimeRow)
unfolding get_runtime
read_candidate owner intent candidate db = do
  runtime ← get_runtime candidate db
  let fits =
      runtime.state == ready
      && runtime.user == owner
      && runtime.attestation.profile_key == intent.profile_key
  ok (if fits then some runtime else none)

-- What the probe of a candidate tells: its attestation, or the text of an exception. Any other
-- attestation than the recorded one is the exception `prepared environment changed`.
unfoldable pub probed_candidate :
    RuntimeRow → Outcome String Attestation → Outcome String Attestation
probed_candidate runtime (err text) = err text
probed_candidate runtime (ok observed) =
    if observed == runtime.attestation
    then ok observed
    else err "prepared environment changed; re-register it"

-- The last transaction for a candidate, with the row that was read before the probe. `some` is
-- the new binding; `none` goes on to the next candidate.
unfoldable pub checkout_commit :
    String
    → CheckoutIntent
    → String
    → RuntimeRow
    → Outcome String Attestation
    → ℕ
    → PoolDb
    → Outcome PoolError (Option BindingRow × PoolDb)
unfolding get_runtime put_runtime put_binding record_event checkout_row
checkout_commit owner intent key runtime (err text) now db = do
  latest ← get_runtime runtime.id db
  let unchanged = latest.state == ready && latest.attestation == runtime.attestation
  let marked = put_runtime (record latest { state = needs_repair; error = some text }) db
  ok (none, if unchanged then marked else db)
checkout_commit owner intent key runtime (ok observed) now db = do
  latest ← get_runtime runtime.id db
  let unchanged = latest.state == ready && latest.attestation == runtime.attestation
  let row = checkout_row owner intent.session key runtime observed intent.runtime_id
  let written =
      record_event now owner (runtime_bound key runtime.id)
        (put_binding row (put_runtime (record latest { state = bound }) db))
  ok (if unchanged then (some row, written) else (none, db))

-- The candidates in turn, where no other call comes between; `probe` is the backend's `inspect`.
unfoldable pub try_candidates :
    (RuntimeRow → Outcome String Attestation)
    → String
    → CheckoutIntent
    → String
    → List String
    → ℕ
    → PoolDb
    → Outcome PoolError (Option BindingRow × PoolDb)
unfolding read_candidate probed_candidate checkout_commit
try_candidates probe owner intent key [] now db = ok (none, db)
try_candidates probe owner intent key (candidate ∷ rest) now db = do
  found ← read_candidate owner intent candidate db
  elim found [
    | none ↦ try_candidates probe owner intent key rest now db
    | some runtime ↦ do
      (binding, db') ←
          checkout_commit owner intent key runtime (probed_candidate runtime (probe runtime)) now db
      elim binding [
        | some row ↦ ok (some row, db')
        | none ↦ try_candidates probe owner intent key rest now db'
      ]
  ]

-- `none` is the reply `cache_miss`.
unfoldable pub checkout :
    (RuntimeRow → Outcome String Attestation)
    → String
    → CheckoutIntent
    → String
    → ℕ
    → PoolDb
    → Outcome PoolError (Option BindingRow × PoolDb)
unfolding checkout_begin try_candidates
checkout probe owner intent key now db = do
  (bound_before, candidates) ← checkout_begin owner intent key db
  elim bound_before [
    | some binding ↦ ok (some binding, db)
    | none ↦ try_candidates probe owner intent key candidates now db
  ]

unfoldable pub return_runtime : String → String → ℕ → PoolDb → Outcome PoolError PoolDb
unfolding owned_binding has_unresolved get_runtime put_runtime put_binding record_event
return_runtime owner binding_id now db = do
  binding ← owned_binding binding_id owner db
  guard (not (has_unresolved binding_id db)) unresolved_execution
  runtime ← get_runtime binding.runtime_id db
  let state = if runtime.draining then draining else needs_repair
  let returned = record_event now owner (runtime_returned binding_id) (
      put_runtime (record runtime { state = state })
        (put_binding (record binding { is_bound = false }) db))
  ok (if binding.is_bound then returned else db)

-- The binding of a refresh, which no run may hold up, with its runtime.
unfoldable pub refresh_begin :
    String → String → PoolDb → Outcome PoolError (BindingRow × RuntimeRow)
unfolding owned_binding has_unresolved get_runtime
refresh_begin owner binding_id db = do
  binding ← owned_binding binding_id owner db
  guard (binding.is_bound && not (has_unresolved binding_id db)) unresolved_execution
  runtime ← get_runtime binding.runtime_id db
  ok (binding, runtime)

-- The transaction after the probe; `stale` is the binding that was read before it.
unfoldable pub refresh_commit :
    String
    → String
    → BindingRow
    → Attestation
    → ℕ
    → PoolDb
    → Outcome PoolError (BindingRow × PoolDb)
unfolding refresh_begin put_runtime put_binding record_event
refresh_commit owner binding_id stale observed now db = do
  guard (observed.profile_key == stale.profile_key) profile_changed
  (binding, runtime) ← refresh_begin owner binding_id db
  let fresh = record binding {
    build_key = observed.build_key;
    launch_preamble = observed.launch_preamble;
  }
  ok (
    fresh,
    record_event now owner (runtime_refreshed binding_id observed.build_key)
        (put_binding fresh (put_runtime (record runtime { attestation = observed }) db)),
  )

-- The bindings of a session that are not returned.
unfoldable pub held_bindings : String → PoolDb → List BindingRow
held_bindings session db = filter (λ b. b.intent.session == session && b.is_bound) db.bindings

-- The first transaction of `session_open`: the bindings that a change of sources returns.
unfoldable pub stale_bindings : String → Sources → PoolDb → List BindingRow
unfolding held_bindings
stale_bindings key sources db =
    let held = held_bindings key db in
    elim (get_row (λ s. s.id) key db.sessions) [
      | none ↦ []
      | some previous ↦ if previous.sources == sources then [] else held
    ]

-- Each of them is returned in a transaction of its own; an exception leaves the earlier ones so.
unfoldable pub return_all :
    String → List BindingRow → ℕ → PoolDb → Outcome PoolError (Unit {0}) × PoolDb
unfolding return_runtime
return_all owner [] now db = (ok tt, db)
return_all owner (b ∷ rest) now db = elim (return_runtime owner b.id now db) [
  | err raised ↦ (err raised, db)
  | ok db' ↦ return_all owner rest now db'
]

-- The last transaction of `session_open`.
unfoldable pub session_commit :
    String → String → String → Sources → PoolDb → Outcome PoolError SessionRow × PoolDb
unfolding put_session held_bindings
session_commit owner session_id key sources db = elim (get_row (λ s. s.id) key db.sessions) [
  | none ↦
      let row : SessionRow = record {
        id = key;
        owner = owner;
        session_id = session_id;
        sources = sources;
      } in
      (ok row, put_session row db)
  | some old ↦
      let changed : SessionRow = record old { sources = sources } in
      if old.sources == sources
      then (ok old, db)
      else if length (held_bindings key db) == 0
      then (ok changed, put_session changed db)
      else (err sources_in_use, db)
]

abbrev pub then_commit :
    Outcome PoolError (Unit {0}) × PoolDb
    → (PoolDb → Outcome PoolError SessionRow × PoolDb)
    → Outcome PoolError SessionRow × PoolDb
then_commit (err raised, db) next = (err raised, db)
then_commit (ok _, db) next = next db

unfoldable pub session_open :
    String → String → String → Sources → ℕ → PoolDb → Outcome PoolError SessionRow × PoolDb
unfolding stale_bindings return_all session_commit
session_open owner session_id key sources now db =
    then_commit (return_all owner (stale_bindings key sources db) now db)
      (session_commit owner session_id key sources)

unfoldable pub session_bindings : String → String → PoolDb → Outcome PoolError (List BindingRow)
unfolding owned_session held_bindings
session_bindings owner session db = do
  _ ← owned_session session owner db
  ok (filter (λ b. b.owner == owner) (held_bindings session db))

unfoldable pub runtime_busy : String → Option String → PoolDb → Bool
runtime_busy runtime_id except_job db =
    any_of
      (λ b.
        b.runtime_id == runtime_id
        && b.is_bound
        && any_of
            (λ j. j.binding_id == b.id && not (is_done j.state) && not (except_job == some j.id))
            db.jobs)
      db.bindings
