-- ===== src/Host/Ledger/Ports.antt =====
-- Port reservations touch neither the tasks nor the fence counter.
use vaws_coordinator.Prelude.{
  ℕ, String, Bool, true, false, ◌≡◌, Option, List, [], ◌∷◌, arith, inl, inr, Option-cases, contains,
  nat_eq, string_eq, ◌==◌, ◌&&◌, not, find,
}
use vaws_coordinator.Host.State.{Task, Db, Port, PortKind, container_ssh, kind_eq, Listening}
use vaws_coordinator.Host.Result.{
  ok, Ensures, Ensures-require, Ensures-bind, Ensures-if, Ensures-guard, Result-cases,
  listening_unavailable, undeclared_service_port,
}
use vaws_coordinator.Host.Ports.{
  claim_candidate, select_service_port, claim_port, choose_ssh_port, SshReply, reserve_ssh_body,
  live_ports, service_port_pool,
}
use vaws_coordinator.Host.Acquire.{reserve_service_port}

pub record SameLedger (db db' : Db) : Type 0 where
  pub same_tasks : db'.tasks ≡ db.tasks
  pub same_fence : db'.next_fence ≡ db.next_fence

abbrev KeepsTasks : Db → ℕ × Db → Type 0
KeepsTasks db r = SameLedger db r.1

claim_candidate-SameLedger :
    (fixed : Bool) (live : List ℕ) (id owner : String) (now : ℕ) (db : Db) (ports : List ℕ)
    (r : ℕ × Db)
    → claim_candidate fixed live id owner now db ports ≡ ok r
    → SameLedger db r.1
unfolding claim_candidate
claim_candidate-SameLedger fixed live id owner now db [] r e = absurd (cc e)
claim_candidate-SameLedger fixed live id owner now db (p ∷ ps) r e =
    ground (arith, claim_candidate-SameLedger fixed live id owner now db ps r)

claim_candidate-KeepsTasks :
    (fixed : Bool) (live : List ℕ) (id owner : String) (now : ℕ) (db : Db) (ports : List ℕ)
    → Ensures (KeepsTasks db) (claim_candidate fixed live id owner now db ports)
claim_candidate-KeepsTasks fixed live id owner now db ports = record {
  at = claim_candidate-SameLedger fixed live id owner now db ports;
}

select_service_port-KeepsTasks :
    (choices : List ℕ) (requested : ℕ) (id owner : String) (now : ℕ) (listening : Option Listening)
    (db : Db)
    → Ensures (KeepsTasks db) (select_service_port choices requested id owner now listening db)
unfolding select_service_port
select_service_port-KeepsTasks choices requested id owner now listening db =
    Ensures-require (live_ports listening) listening_unavailable λ live _.
      Ensures-bind (service_port_pool choices requested) λ pool _.
        Ensures-if (requested == 0)
          (λ _. claim_candidate-KeepsTasks false live id owner now db pool)
          (λ _.
            Ensures-guard (contains requested pool) undeclared_service_port
              λ _. claim_candidate-KeepsTasks true live id owner now db (requested ∷ []))

pub reserve_service_port-SameLedger :
    (row : Task) (now : ℕ) (listening : Option Listening) (db : Db) (r : Option ℕ × Db)
    → reserve_service_port row now listening db ≡ ok r
    → SameLedger db r.1
unfolding reserve_service_port
reserve_service_port-SameLedger row now listening db r e =
    elim (Option-cases row.requested_service_port) [
      | inl nothing ↦ ground arith
      | inr (n, wanted) ↦
          let h =
            select_service_port-KeepsTasks row.service_port_choices n row.task_id row.agent_id now
              listening db in
          elim (Result-cases (
            select_service_port row.service_port_choices n row.task_id row.agent_id now listening
              db)) [ inl (q, x) ↦ ground (arith, h.at q x) | inr (f, x) ↦ ground arith ]
    ]

claim_port-SameLedger :
    (port : ℕ) (kind : PortKind) (id owner : String) (now : ℕ) (listening : Option Listening)
    (allow : Bool) (db : Db) (r : ℕ × Db)
    → claim_port port kind id owner now listening allow db ≡ ok r
    → SameLedger db r.1
unfolding claim_port
claim_port-SameLedger port kind id owner now listening allow db r e = ground arith

pub reserve_ssh_body-SameLedger :
    (user name id : String) (port now : ℕ) (listening : Option Listening) (db : Db)
    (r : SshReply × Db)
    → reserve_ssh_body user name id port now listening db ≡ ok r
    → SameLedger db r.1
unfolding reserve_ssh_body
reserve_ssh_body-SameLedger user name id port now listening db r e =
    elim (Option-cases (find (λ (p : Port). p.task_id == id && p.kind == container_ssh) db.ports)) [
      | inl missing ↦ elim (Result-cases (choose_ssh_port port listening db)) [
        | inl (chosen, x) ↦
            elim (Result-cases
              (claim_port chosen container_ssh id user now listening (not (port == 0)) db)) [
                | inl (claimed, y) ↦ ground (
                  arith,
                  claim_port-SameLedger chosen container_ssh id user now listening (not (port == 0))
                      db claimed,
                )
                | inr (f, y) ↦ ground arith
              ]
        | inr (f, x) ↦ ground arith
      ]
      | inr (row, found) ↦ ground arith
    ]
