-- ===== src/Host/Ledger/Grant.antt =====
-- A grant keeps the ledger: its devices are leased to nobody else, and its token is new.
use vaws_coordinator.Prelude.{
  ℕ, ◌+◌, String, true, false, ◌≡◌, refl, sym, subst, inl, inr, Option, none, some, List, arith,
  ◌==◌, nat_eq, string_eq, if◌then◌else◌, eq_of_some, contains, In,
}
use vaws_coordinator.Host.State.{Task}
use vaws_coordinator.Host.Table.{update_rows}
use vaws_coordinator.Host.Devices.{leased, reserved_devices}
use vaws_coordinator.Host.Acquire.{grant_row}
use vaws_coordinator.Host.Ledger.Rows.{
  ids-map, Disjoint, Exclusive, UniqueIds, UniqueFences, RowInv, Ledger, In-update_rows,
  update_pairs,
}
use vaws_coordinator.Host.Ledger.Selection.{contains-reserved_devices}

module _ (now deadline : ℕ) (selected : List ℕ) (port : Option ℕ) (id : String) {fence : ℕ}
    {ts : List Task} (ledger : Ledger fence ts)
    (free : (d : ℕ)
      → contains d selected ≡ true
      → contains d (reserved_devices ts (some id)) ≡ false)
    (early : (t : Task) → In t ts → t.task_id ≡ id → t.process_guard ≡ none) where
  abbrev change : Task → Task
  change = grant_row now deadline selected (fence + 1) port

  exclusive : Exclusive (update_rows id change ts)
  unfolding grant_row
  exclusive =
      update_pairs id change ts (λ t u. Disjoint (leased t) (leased u)) (λ t. refl)
        (λ t u j ne d m k. cc (contains-reserved_devices d id u ts j ne k, free d m))
        (λ t u i ne d m k. cc (contains-reserved_devices d id t ts i ne m, free d k))
        ledger.exclusive

  fences : UniqueFences (update_rows id change ts)
  unfolding grant_row
  fences t u n i j ne =
      update_pairs id change ts (λ t u. t.fence_token ≡ some n → u.fence_token ≡ some n → ⊥)
        (λ t. refl) (λ t u j ne p q. omega (arith, eq_of_some p, (ledger.rows u j).issued n q))
        (λ t u i ne p q. omega (arith, eq_of_some q, (ledger.rows t i).issued n p))
        (λ t u i j ne. ledger.fences t u n i j ne) t u i j ne

  row_inv : (t : Task) → In t (update_rows id change ts) → RowInv (fence + 1) t
  unfolding grant_row
  row_inv t i =
      let (t', i', e) = In-update_rows id change ts t i in
      elim e [
        | inl (same, p) ↦ subst (RowInv (fence + 1)) (sym p) (record {
          bare = λ q. absurd (cc q);
          untoken = λ q. absurd (cc q);
          issued = λ n q. omega (arith, eq_of_some q);
          unguarded = λ q. early t' i' same;
        })
        | inr (other, p) ↦
            let h = ledger.rows t' i' in
            subst (RowInv (fence + 1)) (sym p) (record {
              bare = h.bare;
              untoken = h.untoken;
              issued = λ n q. omega (arith, h.issued n q);
              unguarded = h.unguarded;
            })
      ]

  unique : UniqueIds (update_rows id change ts)
  unfolding grant_row
  unique =
      rw (ids-map (λ (t : Task). if t.task_id == id then change t else t) ts λ t i. ground arith)
        ledger.unique

  pub grant-Ledger : Ledger (fence + 1) (update_rows id change ts)
  grant-Ledger = record { unique = unique; exclusive = exclusive; fences = fences; rows = row_inv }
