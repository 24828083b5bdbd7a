-- ===== src/Host/Ledger/Submit.antt =====
-- `submit`, `reserve_container_ssh`, `add_hold`, `remove_hold` and `snapshot` keep the ledger.
use vaws_coordinator.Prelude.{
  ℕ, String, true, false, ◌≡◌, ◌≢◌, refl, sym, subst, inl, inr, ◌⊎◌, Option, none, some, List, [],
  ◌∷◌, ◌++◌, arith, contains, contains-append, distinct, string_eq, nat_eq, ◌==◌, find, In, here,
  there, In-append, Option-cases, ==-comm,
}
use vaws_coordinator.Host.State.{queued, Request, Task, Hold, Db, Observation}
use vaws_coordinator.Host.Result.{Ensures, Ensures-ok, Ensures-err, Ensures-if, Ensures-bind}
use vaws_coordinator.Host.Guard.{Procfs}
use vaws_coordinator.Host.Devices.{leased}
use vaws_coordinator.Host.Submit.{SubmitReply, same_request, queued_task, submit_body}
use vaws_coordinator.Host.Holds.{HoldReply, add_hold_body, remove_hold_body}
use vaws_coordinator.Host.Snapshot.{Snapshot, shown_tasks, snapshot_body}
use vaws_coordinator.Host.Housekeep.{housekeep}
use vaws_coordinator.Host.Ledger.Rows.{ids, Disjoint, RowInv, Ledger}
use vaws_coordinator.Host.Ledger.Sweeps.{housekeep-Ledger}
use vaws_coordinator.Host.Ledger.Acquire.{Sound, KeepsSound}

absent_id :
    (id : String) (ts : List Task)
    → find (λ (t : Task). t.task_id == id) ts ≡ none
    → contains id (ids ts) ≡ false
absent_id id [] e = refl
absent_id id (t ∷ ts) e = ground (arith, absent_id id ts)

distinct-append_last :
    (id : String) (l : List String)
    → distinct l ≡ true
    → contains id l ≡ false
    → distinct (l ++ id ∷ []) ≡ true
distinct-append_last id [] h e = refl
distinct-append_last id (k ∷ l) h e =
    ground (arith, distinct-append_last id l, contains-append k l (id ∷ []), ==-comm k id)

ids-append_last : (t : Task) (ts : List Task) → ids (ts ++ t ∷ []) ≡ ids ts ++ t.task_id ∷ []
ids-append_last t [] = refl
ids-append_last t (u ∷ ts) = rw (ids-append_last t ts)

In-last : (t u : Task) (ts : List Task) → In u (ts ++ t ∷ []) → In u ts ⊎ (u ≡ t)
In-last t u ts i = elim (In-append ts (t ∷ []) i) [ inl j ↦ inl j | inr j ↦ inr (only t u j) ]
  where
    only : (t u : Task) → In u (t ∷ []) → u ≡ t
    only t u here = refl
    only t u (there j) = elim j [ ]

module _ (t : Task) (ts : List Task) (P : Task → Task → Type 0) (left : (u : Task) → P t u)
    (right : (u : Task) → P u t)
    (kept : (u v : Task) → In u ts → In v ts → u.task_id ≢ v.task_id → P u v) where
  insert_cases :
      (u v : Task) → u.task_id ≢ v.task_id → In u ts ⊎ (u ≡ t) → In v ts ⊎ (v ≡ t) → P u v
  insert_cases u v ne (inl i) (inl j) = kept u v i j ne
  insert_cases u v ne (inl i) (inr q) = subst (P u) (sym q) (right u)
  insert_cases u v ne (inr p) (inl j) = subst (λ x. P x v) (sym p) (left v)
  insert_cases u v ne (inr p) (inr q) = absurd (ne (cc (p, q)))

  insert_pairs :
      (u v : Task) → In u (ts ++ t ∷ []) → In v (ts ++ t ∷ []) → u.task_id ≢ v.task_id → P u v
  insert_pairs u v i j ne = insert_cases u v ne (In-last t u ts i) (In-last t v ts j)

module _ {fence : ℕ} {ts : List Task} (h : Ledger fence ts) (t : Task)
    (absent : contains t.task_id (ids ts) ≡ false) (is_queued : t.state ≡ queued)
    (bare : t.granted_devices ≡ none) (untoken : t.fence_token ≡ none)
    (unguarded : t.process_guard ≡ none) where
  pub insert-Ledger : Ledger fence (ts ++ t ∷ [])
  insert-Ledger = record {
    unique = rw (ids-append_last t ts) (distinct-append_last t.task_id (ids ts) h.unique absent);
    exclusive =
        insert_pairs t ts (λ u v. Disjoint (leased u) (leased v)) (λ u d m k. ground arith)
          (λ u d m k. ground arith) h.exclusive;
    fences = λ u v n i j ne.
        insert_pairs t ts (λ a b. a.fence_token ≡ some n → b.fence_token ≡ some n → ⊥) (λ b p q. cc)
          (λ b p q. cc) (λ a b k l d. h.fences a b n k l d) u v i j ne;
    rows = λ u i. elim (In-last t u ts i) [
      | inl j ↦ h.rows u j
      | inr e ↦ subst (RowInv fence) (sym e) (record {
        bare = λ q. bare;
        untoken = λ q. untoken;
        issued = λ n q. cc;
        unguarded = λ q. unguarded;
      })
    ];
  }

-- `submit` keeps the ledger.
pub submit_body-Sound :
    (now : ℕ) (id : String) (request : Request) (message : Option String) (db : Db)
    → Sound db
    → Ensures (KeepsSound SubmitReply) (submit_body now id request message db)
unfolding submit_body queued_task
submit_body-Sound now id request message db h =
    elim (Option-cases (find (λ (t : Task). t.task_id == id) db.tasks)) [
      | inl missing ↦
          rw (missing, submit_body)
            (Ensures-ok _ (
              insert-Ledger h (queued_task id request message) (absent_id id db.tasks missing) refl
                refl refl refl))
      | inr (t, found) ↦
          rw (found, submit_body)
            (Ensures-if (same_request t.request request) (λ _. Ensures-ok _ h) (λ _. Ensures-err _))
    ]

-- `add_hold` keeps the ledger.
pub add_hold_body-Sound :
    (now : ℕ) (hold : Hold) (observed : Option Observation) (db : Db)
    → Sound db
    → Ensures (KeepsSound HoldReply) (add_hold_body now hold observed db)
unfolding add_hold_body
add_hold_body-Sound now hold observed db h = record { at = λ r e. ground arith }

-- `remove_hold` keeps the ledger.
pub remove_hold_body-Sound :
    (now : ℕ) (id : String) (db : Db)
    → Sound db
    → Ensures (KeepsSound Hold) (remove_hold_body now id db)
unfolding remove_hold_body
remove_hold_body-Sound now id db h = record { at = λ r e. ground arith }

-- `snapshot` keeps the ledger.
pub snapshot_body-Sound :
    (now : ℕ) (proc : Procfs) (observed : Option Observation) (id : Option String) (limit : ℕ)
    (db : Db)
    → Sound db
    → Ensures (KeepsSound Snapshot) (snapshot_body now proc observed id limit db)
unfolding snapshot_body
snapshot_body-Sound now proc observed id limit db h =
    Ensures-bind (shown_tasks id (housekeep now proc observed db).0)
      (λ tasks _. Ensures-ok _ (housekeep-Ledger now proc observed db h))
