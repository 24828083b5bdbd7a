-- ===== src/Host/Keeps.antt =====
-- What a transaction of vaws_coordinator/host/vaws_npu_coordination.py keeps: what its body keeps
-- where it returns, since an exception rolls back.
use vaws_coordinator.Prelude.{String, ◌≡◌, refl, inl, inr, Option, arith}
use vaws_coordinator.Host.State.{Db}
use vaws_coordinator.Host.Result.{Result, ok, err, Ensures, Result-cases}
use vaws_coordinator.Host.Table.{transaction, validated}

module _ (P : Db → Type 0) where
  pub transaction-Keeps :
      {A : Type 0} (epoch : Option String) (body : Db → Result (A × Db)) (db : Db)
      → P db
      → Ensures (λ (r : A × Db). P r.1) (body db)
      → P (transaction epoch body db).1
  unfolding transaction
  transaction-Keeps epoch body db h keeps = elim (Result-cases (body db)) [
    | inl (r, e) ↦ ground (arith, keeps.at r e)
    | inr (f, e) ↦ ground arith
  ]

  pub validated-Keeps :
      {A B : Type 0} (r : Result A) (epoch : Option String) (body : A → Db → Result (B × Db))
      (db : Db)
      → P db
      → ((a : A) → r ≡ ok a → Ensures (λ (r : B × Db). P r.1) (body a db))
      → P (validated r (λ a. transaction epoch (body a)) db).1
  validated-Keeps (ok a) epoch body db h keeps =
      transaction-Keeps epoch (body a) db h (keeps a refl)
  validated-Keeps (err e) epoch body db h keeps = h
