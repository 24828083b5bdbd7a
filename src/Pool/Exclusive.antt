-- ===== src/Pool/Exclusive.antt =====
-- The invariant of the pool's tables: who holds a runtime, and which runs may use it.
pub mod Bindings
pub mod Runs
use vaws_coordinator.Prelude.{
  String, Bool, true, false, ◌≡◌, ◌≢◌, refl, sym, ◌∙◌, ap, subst, ◌⊎◌, inl, inr, List, arith,
  string_cases, In, UniqueKeys, put_row-UniqueKeys, In-put_row, In-put_row_self, In-put_row_ne,
}
use vaws_coordinator.Pool.Values.{bound}
use vaws_coordinator.Pool.State.{RuntimeRow, BindingRow, RunRow, is_terminal, PoolDb}
use vaws_coordinator.Pool.Lawful.{Shown}
use vaws_coordinator.Pool.Table.{put_runtime, put_binding, put_run}

-- The runtime of a binding is there, and in the state `bound`.
abbrev pub Held : List RuntimeRow → BindingRow → Type 0
Held runtimes b = (r : RuntimeRow) × In r runtimes × (r.id ≡ b.runtime_id) × (r.state ≡ bound)

-- The binding of a run is there, and not returned.
abbrev pub Backed : List BindingRow → String → Type 0
Backed bindings id = (b : BindingRow) × In b bindings × (b.id ≡ id) × (b.is_bound ≡ true)

pub record PoolInv (db : PoolDb) : Type 0 where
  pub runtimes_unique : UniqueKeys (λ r. r.id) db.runtimes
  pub bindings_unique : UniqueKeys (λ b. b.id) db.bindings
  pub runs_unique : UniqueKeys (λ r. r.id) db.runs
  pub held : (b : BindingRow) → In b db.bindings → b.is_bound ≡ true → Held db.runtimes b
  pub exclusive :
      (b c : BindingRow)
      → In b db.bindings
      → In c db.bindings
      → b.is_bound ≡ true
      → c.is_bound ≡ true
      → b.runtime_id ≡ c.runtime_id
      → b.id ≡ c.id
  pub backed :
      (r : RunRow) → In r db.runs → is_terminal r.state ≡ false → Backed db.bindings r.binding_id
  pub single :
      (r s : RunRow)
      → In r db.runs
      → In s db.runs
      → is_terminal r.state ≡ false
      → is_terminal s.state ≡ false
      → r.binding_id ≡ s.binding_id
      → r.id ≡ s.id
  pub shown : (r : RunRow) → In r db.runs → Shown r

-- No binding holds the runtime.
abbrev pub Unheld : PoolDb → String → Type 0
Unheld db id = (b : BindingRow) → In b db.bindings → b.is_bound ≡ true → b.runtime_id ≡ id → ⊥

-- A runtime in another state than `bound` is held by no binding.
pub unbound-Unheld :
    (db : PoolDb) (r : RuntimeRow)
    → PoolInv db
    → In r db.runtimes
    → r.state ≢ bound
    → Unheld db r.id
unbound-Unheld db r h i other b j is_bound same =
    let (s, k, e, state) = h.held b j is_bound in
    let one : s ≡ r = h.runtimes_unique.same s r k i (e ∙ same) in
    other (subst (λ x. x.state ≡ bound) one state)

Held-put :
    (row : RuntimeRow) (db : PoolDb) (b : BindingRow)
    → (row.state ≡ bound) ⊎ Unheld db row.id
    → In b db.bindings
    → b.is_bound ≡ true
    → Held db.runtimes b
    → Held (put_runtime row db).runtimes b
unfolding put_runtime
Held-put row db b free i is_bound (r, j, e, state) = elim (string_cases r.id row.id) [
  | inr other ↦ (r, In-put_row_ne (λ x. x.id) row db.runtimes r j other, e, state)
  | inl same ↦ elim free [
    | inl fine ↦ (row, In-put_row_self (λ x. x.id) row db.runtimes, sym same ∙ e, fine)
    | inr unheld ↦ absurd (unheld b i is_bound (sym e ∙ same))
  ]
]

-- A runtime is written as bound, or held by no binding.
pub put_runtime-PoolInv :
    (row : RuntimeRow) (db : PoolDb)
    → PoolInv db
    → (row.state ≡ bound) ⊎ Unheld db row.id
    → PoolInv (put_runtime row db)
unfolding put_runtime
put_runtime-PoolInv row db h free = record {
  runtimes_unique = put_row-UniqueKeys (λ x. x.id) row db.runtimes h.runtimes_unique;
  bindings_unique = h.bindings_unique;
  runs_unique = h.runs_unique;
  held = λ b i is_bound. Held-put row db b free i is_bound (h.held b i is_bound);
  exclusive = h.exclusive;
  backed = h.backed;
  single = h.single;
  shown = h.shown;
}

Backed-put :
    (row : BindingRow) (db : PoolDb) (id : String)
    → (row.is_bound ≡ true) ⊎ (id ≢ row.id)
    → Backed db.bindings id
    → Backed (put_binding row db).bindings id
unfolding put_binding
Backed-put row db id fine (b, i, e, is_bound) = elim (string_cases b.id row.id) [
  | inr other ↦ (b, In-put_row_ne (λ x. x.id) row db.bindings b i other, e, is_bound)
  | inl same ↦ elim fine [
    | inl new ↦ (row, In-put_row_self (λ x. x.id) row db.bindings, sym same ∙ e, new)
    | inr other ↦ absurd (other (sym e ∙ same))
  ]
]

-- Another binding than `row` that holds the runtime of `row`.
abbrev pub OthersHold : PoolDb → BindingRow → Type 0
OthersHold db row =
    (b : BindingRow) × In b db.bindings
    × (b.id ≢ row.id)
    × (b.is_bound ≡ true)
    × (b.runtime_id ≡ row.runtime_id)

-- A binding is written as bound to a bound runtime that no other binding holds.
pub put_bound-PoolInv :
    (row : BindingRow) (db : PoolDb)
    → PoolInv db
    → row.is_bound ≡ true
    → Held db.runtimes row
    → (OthersHold db row → ⊥)
    → PoolInv (put_binding row db)
unfolding put_binding
put_bound-PoolInv row db h new holds alone = record {
  runtimes_unique = h.runtimes_unique;
  bindings_unique = put_row-UniqueKeys (λ x. x.id) row db.bindings h.bindings_unique;
  runs_unique = h.runs_unique;
  held = λ b i is_bound. elim (In-put_row (λ x. x.id) row db.bindings b i) [
    | inl same ↦ subst (Held db.runtimes) (sym same) holds
    | inr (j, _) ↦ h.held b j is_bound
  ];
  exclusive = λ b c i j b_bound c_bound same. elim (In-put_row (λ x. x.id) row db.bindings b i) [
    | inl b_new ↦ elim (In-put_row (λ x. x.id) row db.bindings c j) [
      | inl c_new ↦ cc
      | inr (l, other) ↦ absurd (alone (c, l, other, c_bound, cc))
    ]
    | inr (k, other) ↦ elim (In-put_row (λ x. x.id) row db.bindings c j) [
      | inl c_new ↦ absurd (alone (b, k, other, b_bound, cc))
      | inr (l, _) ↦ h.exclusive b c k l b_bound c_bound same
    ]
  ];
  backed = λ r i live. Backed-put row db r.binding_id (inl new) (h.backed r i live);
  single = h.single;
  shown = h.shown;
}

-- A binding that no unresolved run uses is written as returned.
pub put_returned-PoolInv :
    (row : BindingRow) (db : PoolDb)
    → PoolInv db
    → row.is_bound ≡ false
    → ((r : RunRow) → In r db.runs → is_terminal r.state ≡ false → r.binding_id ≢ row.id)
    → PoolInv (put_binding row db)
unfolding put_binding
put_returned-PoolInv row db h old unused = record {
  runtimes_unique = h.runtimes_unique;
  bindings_unique = put_row-UniqueKeys (λ x. x.id) row db.bindings h.bindings_unique;
  runs_unique = h.runs_unique;
  held = λ b i is_bound. elim (In-put_row (λ x. x.id) row db.bindings b i) [
    | inl same ↦ absurd (ground arith)
    | inr (j, _) ↦ h.held b j is_bound
  ];
  exclusive = λ b c i j b_bound c_bound same. elim (In-put_row (λ x. x.id) row db.bindings b i) [
    | inl b_new ↦ absurd (ground arith)
    | inr (k, _) ↦ elim (In-put_row (λ x. x.id) row db.bindings c j) [
      | inl c_new ↦ absurd (ground arith)
      | inr (l, _) ↦ h.exclusive b c k l b_bound c_bound same
    ]
  ];
  backed = λ r i live. Backed-put row db r.binding_id (inr (unused r i live)) (h.backed r i live);
  single = h.single;
  shown = h.shown;
}

-- A run is written as terminal, or as the one unresolved run of a binding that is not returned.
pub put_run-PoolInv :
    (row : RunRow) (db : PoolDb)
    → PoolInv db
    → Shown row
    → (is_terminal row.state ≡ false → Backed db.bindings row.binding_id)
    → ((r : RunRow)
        → In r db.runs
        → is_terminal row.state ≡ false
        → is_terminal r.state ≡ false
        → r.binding_id ≡ row.binding_id
        → r.id ≡ row.id)
    → PoolInv (put_run row db)
unfolding put_run
put_run-PoolInv row db h row_shown backs alone = record {
  shown = λ r i. elim (In-put_row (λ x. x.id) row db.runs r i) [
    | inl same ↦ subst Shown (sym same) row_shown
    | inr (j, _) ↦ h.shown r j
  ];
  runtimes_unique = h.runtimes_unique;
  bindings_unique = h.bindings_unique;
  runs_unique = put_row-UniqueKeys (λ x. x.id) row db.runs h.runs_unique;
  held = h.held;
  exclusive = h.exclusive;
  backed = λ r i live. elim (In-put_row (λ x. x.id) row db.runs r i) [
    | inl same ↦
        subst (λ x. Backed db.bindings x.binding_id) (sym same)
          (backs (subst (λ x. is_terminal x.state ≡ false) same live))
    | inr (j, _) ↦ h.backed r j live
  ];
  single = λ r s i j r_live s_live same. elim (In-put_row (λ x. x.id) row db.runs r i) [
    | inl r_new ↦ elim (In-put_row (λ x. x.id) row db.runs s j) [
      | inl s_new ↦ cc
      | inr (l, _) ↦
          let row_live = subst (λ x. is_terminal x.state ≡ false) r_new r_live in
          let e = alone s l row_live s_live (cc (same, r_new)) in cc (e, r_new)
    ]
    | inr (k, _) ↦ elim (In-put_row (λ x. x.id) row db.runs s j) [
      | inl s_new ↦
          let row_live = subst (λ x. is_terminal x.state ≡ false) s_new s_live in
          let e = alone r k row_live r_live (cc (same, s_new)) in cc (e, s_new)
      | inr (l, _) ↦ h.single r s k l r_live s_live same
    ]
  ];
}

-- The invariant reads three tables.
pub PoolInv-tables :
    {db : PoolDb} (db' : PoolDb)
    → PoolInv db
    → db'.runtimes ≡ db.runtimes
    → db'.bindings ≡ db.bindings
    → db'.runs ≡ db.runs
    → PoolInv db'
PoolInv-tables {db} db' h a b c = record {
  runtimes_unique = rw a h.runtimes_unique;
  bindings_unique = rw b h.bindings_unique;
  runs_unique = rw c h.runs_unique;
  held = rw (a, b) h.held;
  exclusive = rw b h.exclusive;
  backed = rw (b, c) h.backed;
  single = rw c h.single;
  shown = rw c h.shown;
}
