-- ===== src/Lib.antt =====
-- The coordination of NPU devices on one host, as vaws_coordinator does it.
--
-- The program lets many agents share the NPUs of a host. A client (task client and server, host
-- queue, service) sends one structured request to the host, where the self-contained script
-- vaws_coordinator/host/vaws_npu_coordination.py keeps a SQLite database of tasks, holds, ports,
-- events and messages. Every request is one write transaction on that database, with what it
-- observed before (device occupancy, listening ports) and what it reads meanwhile (/proc, the
-- clock). The coordinator is the only authority on devices and ports; all other parts of the
-- program ask it. This development models the coordinator, and of the client side the pool of
-- prepared roots and the choice of roots.
--
-- Files of Host and the code they model, all of vaws_coordinator/host/vaws_npu_coordination.py:
--
-- Host/State: the rows of the tables, the database, observations and port samples.
-- Host/Result, Host/Table: CoordinationError as a value, _transaction (COMMIT and ROLLBACK),
--   _event, _next_fence, _task_row, _check_token, _busy_set.
-- Host/Ids: require_safe_id, parse_devices (what it returns is in Host/Ids/Parsed),
--   parse_port_range and the container names.
-- Host/Guard: process_guard_busy, unguarded_cpu_process, unguarded_shared_process,
--   _managed_shared_completion.
-- Host/Housekeep: _housekeep, each loop over a SELECT as a sweep of the table by a rule.
-- Host/Devices: _reserved_devices, _hold_conflicts, _available_devices, _select_granted_devices.
-- Host/Ports: _claim_port, _select_service_port, _service_ports_busy, _clear_service_ports and
--   reserve_container_ssh.
-- Host/Submit, Host/Acquire, Host/Preflight, Host/Activate (with heartbeat), Host/Release (with
--   cancel), Host/Holds, Host/Snapshot: the requests, each the checks before the transaction, then
--   the transaction's body.
-- Host/Probe: _confirmed_free_probe, admission_probe, probe_requirements, release_probe.
-- Host/Messages: _message_actor, message, message_events.
-- Host/Run: one call, and a history of calls on one database. A call may come with any clock
--   reading, any /proc and any observation, so a history covers every interleaving of clients.
-- Host/Ledger: the invariant of leases and fencing tokens, operation by operation (Rows states it;
--   Sweeps, Selection, Grant, Ports, Acquire, Updates, Release, Submit keep it; History closes it
--   over histories; Stale is about a release that comes too late).
-- Host/Keeps: what a transaction keeps. Host/Ports/Unique, Bodies and History: the port table over
--   histories. Host/Queue, Host/Fair: whom acquire grants and what. Host/Evidence: what is known
--   when a lease ends. Prelude holds the shared lists, sets, sorting and integers; Tests the
--   concrete inputs.
--
-- Files of Pool and the code they model, all of vaws_coordinator/ready_runtime.py, whose
-- RuntimePool binds prepared work roots to tasks and keeps the runs on them in its own database:
--
-- Pool/Values, Pool/State, Pool/Table: the rows of its database, owned, get, put and event.
-- Pool/Registry: posix_roots_overlap, _check_registration, _register, _checkout_row, drain.
-- Pool/Checkout: session_open, checkout, return_runtime, refresh, session_bindings, runtime_busy.
-- Pool/Calls and Pool/Control: control, as stages that end with their variables or an exception,
--   and the trace of what it asks and writes. Pool/Runs: _request_run and the whole of control.
-- Pool/Reconcile: reconcile.
-- Pool/System: calls at the same time. A transaction is a step; what it was told before is an
--   argument, so that any steps come between; the effects of a control happen one by one under the
--   run's lock, and the manager may stop at any of them.
-- Pool/Exclusive: the invariant of the tables, and the transactions that keep it (Bindings, Runs).
-- Pool/Lawful: which effects a control may have (Stages, Begin, Answer, Reply and Call go through
--   its stages; Trace and Observed are about a run whose last request is in doubt).
-- Pool/Registry/Overlap: overlapping roots by another description. Pool/Runs/Retry: repeated
-- requests.
-- Pool/Checkout/Candidates and Answers: what a checkout binds and returns.
-- Pool/System/Invariant and Safety: the two together over every reachable state; Persist: what
--   becomes of a run; Roots and Apart: the work roots. The rows of managed jobs, which
--   managed_execution.py writes, are any.
--
-- Placement models a part of vaws_coordinator/placement.py: the choice of prepared roots for the
-- roles of a run (runtime_matches, distinct_hosts_required, select_runtimes).
--
-- What the definitions take as arguments, because it lies outside of the code: /proc as one
-- reading of each process per call (Procfs); the results of the occupancy, device and port probes;
-- the clock; fresh identifiers; the cursor that SQLite gives to a new message; and, as text_lt,
-- SQLite's order on texts. A call is given one reading of the clock, where the code may read it
-- again within a statement or two. Times are natural numbers of one unit where the code has
-- floating-point seconds. Request fields are typed, so that the isinstance checks on JSON values
-- have nothing left to reject; the checks on their values are kept. SQLite is a database of lists
-- of rows, with a transaction as a function from the database to a result and the next database:
-- BEGIN IMMEDIATE makes writers take turns.
--
-- The pool takes the answers of its backend (Answers, the probes' attestations) as arguments, each
-- a value or the text of an exception; digests and fresh task ids are arguments too. A call of
-- control takes one reading of the clock for its events.
--
-- No function of the model needs fuel: every loop of the code is over a finite list, a table, a
-- range of ports, the samples of a probe or the items of a request.
--
-- Not modelled: the parsers of npu-smi, ss and docker output, the schema migration of _initialize
-- and its trigger protect_managed_process_release, which stops old clients that do not know
-- process guards, the JSON of replies, startup_context (one docker inspect), the dispatch of
-- _handle_request with its combined submit-acquire request, and the ORDER BY of status replies;
-- and, of the repository, the rest of placement, of the pool the checks of a registration's
-- specification, tick, the exported records, the catalog and the messages, the client side, the
-- service, the runtime preparation, the parity tools and the provisioning.
pub mod Prelude
pub mod Host
pub mod Placement
pub mod Pool
mod Tests
