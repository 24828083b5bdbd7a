-- ===== src/Host/Ports/Unique.antt =====
-- Each TCP port is claimed at most once: the port table of
-- vaws_coordinator/host/vaws_npu_coordination.py never meets a duplicate primary key.
use vaws_coordinator.Prelude.{
  ℕ, String, Bool, true, false, ◌≡◌, refl, sym, subst, inl, inr, Option, none, some, List, [], ◌∷◌,
  ◌++◌, arith, map, distinct, contains, contains-append, filter, find, not, Bool-cases,
  Option-cases, nat_eq, string_eq, option_eq, ◌&&◌, ◌||◌, ◌==◌,
}
use vaws_coordinator.Host.State.{Port, PortKind, service, container_ssh, kind_eq, Db, Listening}
use vaws_coordinator.Host.Result.{
  Ensures, Ensures-ok, Ensures-err, Ensures-if, Ensures-guard, Ensures-bind, Ensures-require,
  no_service_port, listening_unavailable, undeclared_service_port, invalid_port, ssh_port_mismatch,
  port_reserved, port_bound,
}
use vaws_coordinator.Host.Table.{add_event, update_task}
use vaws_coordinator.Host.Ports.{
  service_port_pool, is_tcp_port, SshReply, reserve_ssh_port, choose_ssh_port, reserve_ssh_body,
  allocated_ports, live_ports, insert_port, claim_port, claim_candidate, select_service_port,
  not_live, clear_service_ports,
}

abbrev pub port_numbers : List Port → List ℕ
port_numbers = map (λ p. p.port)

abbrev pub PortsUnique : Db → Type 0
PortsUnique db = distinct (port_numbers db.ports) ≡ true

distinct-snoc :
    (xs : List ℕ) (d : ℕ)
    → distinct xs ≡ true
    → contains d xs ≡ false
    → distinct (xs ++ d ∷ []) ≡ true
distinct-snoc [] d e n = refl
distinct-snoc (x ∷ xs) d e n = ground (
  arith,
  distinct-snoc xs d (ground arith) (ground arith),
  contains-append x xs (d ∷ []),
  nat_eq.agrees x d,
  nat_eq.agrees d x,
)

numbers-append :
    (ps : List Port) (p : Port) → port_numbers (ps ++ p ∷ []) ≡ port_numbers ps ++ p.port ∷ []
numbers-append [] p = refl
numbers-append (q ∷ ps) p = cc (numbers-append ps p)

insert-PortsUnique :
    (port : ℕ) (kind : PortKind) (id owner : String) (now : ℕ) (db : Db)
    → PortsUnique db
    → contains port (port_numbers db.ports) ≡ false
    → PortsUnique (insert_port port kind id owner now db)
unfolding insert_port
insert-PortsUnique port kind id owner now db h n =
    subst (λ xs. distinct xs ≡ true) (sym (numbers-append db.ports _))
      (distinct-snoc (port_numbers db.ports) port h n)

absent_of_find :
    (port : ℕ) (ps : List Port)
    → find (λ (p : Port). p.port == port) ps ≡ none
    → contains port (port_numbers ps) ≡ false
absent_of_find port [] e = refl
absent_of_find port (p ∷ ps) e = elim (Bool-cases (p.port == port)) [
  | inl same ↦ absurd (ground arith)
  | inr other ↦ ground (arith, absent_of_find port ps (ground arith))
]

absent_of_others :
    (port : ℕ) (id : String) (ps : List Port)
    → find (λ (p : Port). p.port == port && p.task_id == id) ps ≡ none
    → contains port (allocated_ports ps (some id)) ≡ false
    → contains port (port_numbers ps) ≡ false
unfolding allocated_ports
absent_of_others port id [] e n = refl
absent_of_others port id (p ∷ ps) e n = elim (Bool-cases (p.task_id == id)) [
  | inl mine ↦ ground (arith, absent_of_others port id ps (ground arith) (ground arith))
  | inr theirs ↦ ground (arith, absent_of_others port id ps (ground arith) (ground arith))
]

claim_candidate-PortsUnique :
    (fixed : Bool) (live : List ℕ) (id owner : String) (now : ℕ) (db : Db) (pool : List ℕ)
    → PortsUnique db
    → Ensures (λ (r : ℕ × Db). PortsUnique r.1) (claim_candidate fixed live id owner now db pool)
unfolding claim_candidate
claim_candidate-PortsUnique fixed live id owner now db [] h = Ensures-err no_service_port
claim_candidate-PortsUnique fixed live id owner now db (port ∷ rest) h =
    let others = claim_candidate-PortsUnique fixed live id owner now db rest h in
    elim (Option-cases (find (λ (p : Port). p.port == port && p.task_id == id) db.ports)) [
      | inr (row, found) ↦
          rw (found, claim_candidate)
            (Ensures-if (row.kind == service) (λ _. Ensures-ok (port, db) h)
              (λ _. Ensures-if fixed (λ _. Ensures-err (port_reserved port)) (λ _. others)))
      | inl missing ↦
          rw (missing, claim_candidate)
            (Ensures-if (contains port (allocated_ports db.ports (some id)) || contains port live)
              (λ _. Ensures-if fixed (λ _. Ensures-err (port_bound port)) (λ _. others))
              (λ free.
                Ensures-ok (port, insert_port port service id owner now db)
                  (insert-PortsUnique port service id owner now db h
                    (absent_of_others port id db.ports missing (ground arith)))))
    ]

-- A service port that is selected leaves each port claimed at most once.
pub select_service_port-PortsUnique :
    (choices : List ℕ) (requested : ℕ) (id owner : String) (now : ℕ) (listening : Option Listening)
    (db : Db)
    → PortsUnique db
    → Ensures
        (λ (r : ℕ × Db). PortsUnique r.1)
        (select_service_port choices requested id owner now listening db)
unfolding select_service_port
select_service_port-PortsUnique choices requested id owner now listening db h =
    Ensures-require (live_ports listening) listening_unavailable λ live _.
      Ensures-bind (service_port_pool choices requested) λ pool _.
        Ensures-if (requested == 0)
          (λ _. claim_candidate-PortsUnique false live id owner now db pool h)
          (λ _.
            Ensures-guard (contains requested pool) undeclared_service_port
              λ _. claim_candidate-PortsUnique true live id owner now db (requested ∷ []) h)

claim_port-PortsUnique :
    (port : ℕ) (kind : PortKind) (id owner : String) (now : ℕ) (listening : Option Listening)
    (allow : Bool) (db : Db)
    → PortsUnique db
    → Ensures
        (λ (r : ℕ × Db). PortsUnique r.1)
        (claim_port port kind id owner now listening allow db)
unfolding claim_port
claim_port-PortsUnique port kind id owner now listening allow db h =
    Ensures-guard (is_tcp_port port) invalid_port λ _.
      elim (Option-cases (find (λ (p : Port). p.port == port) db.ports)) [
        | inr (row, found) ↦ rw found (
            Ensures-if (row.task_id == id && row.kind == kind) (λ _. Ensures-ok (port, db) h)
              (λ _. Ensures-err (port_reserved port)))
        | inl missing ↦ rw missing (
            Ensures-bind (not_live allow (live_ports listening) port) λ _ _.
              Ensures-ok (port, insert_port port kind id owner now db)
                (insert-PortsUnique port kind id owner now db h
                  (absent_of_find port db.ports missing)))
      ]

reserve_ssh_port-PortsUnique :
    (user id : String) (port now : ℕ) (listening : Option Listening) (db : Db)
    → PortsUnique db
    → Ensures
        (λ (r : ℕ × Bool × Db). PortsUnique r.2)
        (reserve_ssh_port user id port now listening db)
unfolding reserve_ssh_port
reserve_ssh_port-PortsUnique user id port now listening db h =
    elim (Option-cases (find (λ (p : Port). p.task_id == id && p.kind == container_ssh) db.ports)) [
      | inr (row, found) ↦
          rw (found, reserve_ssh_port)
            (Ensures-if (not (port == 0) && not (row.port == port) || not (row.owner == user))
              (λ _. Ensures-err (ssh_port_mismatch row.port))
              (λ _. Ensures-ok (row.port, true, db) h))
      | inl missing ↦
          rw (missing, reserve_ssh_port)
            (Ensures-bind (choose_ssh_port port listening db) λ chosen _.
              Ensures-bind
                (claim_port chosen container_ssh id user now listening (not (port == 0)) db)
                λ claimed e.
                  Ensures-ok (claimed.0, false, claimed.1)
                    ((claim_port-PortsUnique chosen container_ssh id user now listening
                        (not (port == 0)) db h).at
                      claimed e))
    ]

-- A container SSH port that is reserved leaves each port claimed at most once.
pub reserve_ssh_body-PortsUnique :
    (user name id : String) (port now : ℕ) (listening : Option Listening) (db : Db)
    → PortsUnique db
    → Ensures
        (λ (r : SshReply × Db). PortsUnique r.1)
        (reserve_ssh_body user name id port now listening db)
unfolding reserve_ssh_body reserve_ssh_port add_event
reserve_ssh_body-PortsUnique user name id port now listening db h =
    Ensures-bind (reserve_ssh_port user id port now listening db)
      λ r e. Ensures-ok _ ((reserve_ssh_port-PortsUnique user id port now listening db h).at r e)

absent-filter :
    (p : Port → Bool) (ps : List Port) (d : ℕ)
    → contains d (port_numbers ps) ≡ false
    → contains d (port_numbers (filter p ps)) ≡ false
absent-filter p [] d n = refl
absent-filter p (x ∷ xs) d n = elim (Bool-cases (p x)) [
  | inl kept ↦ ground (arith, absent-filter p xs d (ground arith))
  | inr dropped ↦ ground (arith, absent-filter p xs d (ground arith))
]

distinct-filter :
    (p : Port → Bool) (ps : List Port)
    → distinct (port_numbers ps) ≡ true
    → distinct (port_numbers (filter p ps)) ≡ true
distinct-filter p [] h = refl
distinct-filter p (x ∷ xs) h = elim (Bool-cases (p x)) [
  | inl kept ↦
      ground (arith, distinct-filter p xs (ground arith), absent-filter p xs x.port (ground arith))
  | inr dropped ↦ ground (arith, distinct-filter p xs (ground arith))
]

pub clear_service_ports-PortsUnique :
    (id : String) (db : Db) → PortsUnique db → PortsUnique (clear_service_ports id db)
unfolding clear_service_ports update_task
clear_service_ports-PortsUnique id db h = distinct-filter _ db.ports h
