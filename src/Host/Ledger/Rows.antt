-- ===== src/Host/Ledger/Rows.antt =====
-- The ledger's invariant, and how the UPDATE and INSERT of rows keep it.
use vaws_coordinator.Prelude.{
  ℕ, ◌≤◌, String, Bool, true, false, ◌≡◌, ◌≢◌, refl, sym, ◌∙◌, subst, ◌⊎◌, inl, inr, none, some,
  List, [], ◌∷◌, map, arith, ◌==◌, string_eq, nat_eq, ==→≡, ==-refl, ne_of_test, if◌then◌else◌,
  Bool-cases, and-true, contains, distinct, find, find-In, In, here, there, In-map, In-map_image,
}
use vaws_coordinator.Host.State.{TaskState, queued, granted, starting, is_reserving, Task}
use vaws_coordinator.Host.Table.{update_rows}
use vaws_coordinator.Host.Devices.{leased}

abbrev pub ids : List Task → List String
ids = map (λ t. t.task_id)

-- The primary key.
abbrev pub UniqueIds : List Task → Type 0
UniqueIds ts = distinct (ids ts) ≡ true

abbrev pub Disjoint : List ℕ → List ℕ → Type 0
Disjoint xs ys = (d : ℕ) → contains d xs ≡ true → contains d ys ≡ true → ⊥

-- No device is leased to two tasks.
abbrev pub Exclusive : List Task → Type 0
Exclusive ts =
    (t u : Task) → In t ts → In u ts → t.task_id ≢ u.task_id → Disjoint (leased t) (leased u)

-- No fencing token belongs to two tasks.
abbrev pub UniqueFences : List Task → Type 0
UniqueFences ts =
    (t u : Task) (n : ℕ)
    → In t ts
    → In u ts
    → t.task_id ≢ u.task_id
    → t.fence_token ≡ some n
    → u.fence_token ≡ some n
    → ⊥

abbrev pub is_early : TaskState → Bool
is_early queued = true
is_early granted = true
is_early starting = true
is_early _ = false

-- What holds of each row, with `fence` the last token issued.
pub record RowInv (fence : ℕ) (t : Task) : Type 0 where
  pub bare : t.state ≡ queued → t.granted_devices ≡ none
  pub untoken : t.state ≡ queued → t.fence_token ≡ none
  pub issued : (n : ℕ) → t.fence_token ≡ some n → n ≤ fence
  pub unguarded : is_early t.state ≡ true → t.process_guard ≡ none

pub record Ledger (fence : ℕ) (ts : List Task) : Type 0 where
  pub unique : UniqueIds ts
  pub exclusive : Exclusive ts
  pub fences : UniqueFences ts
  pub rows : (t : Task) → In t ts → RowInv fence t

-- An update that neither leases a device nor brings in a token.
pub record RowStep (fence : ℕ) (t u : Task) : Type 0 where
  pub same_id : u.task_id ≡ t.task_id
  pub shrinks : (d : ℕ) → contains d (leased u) ≡ true → contains d (leased t) ≡ true
  pub token : (n : ℕ) → u.fence_token ≡ some n → t.fence_token ≡ some n
  pub inv : RowInv fence u

pub RowStep-refl : {fence : ℕ} {t : Task} → RowInv fence t → RowStep fence t t
RowStep-refl h = record { same_id = refl; shrinks = λ d m. m; token = λ n e. e; inv = h }

-- An update that changes the state only within the lease it holds, as most do.
pub record Restates (t u : Task) : Type 0 where
  pub same_id : u.task_id ≡ t.task_id
  pub same_devices : u.granted_devices ≡ t.granted_devices
  pub same_token : u.fence_token ≡ t.fence_token
  pub reserves : is_reserving u.state ≡ true → is_reserving t.state ≡ true
  pub queues : u.state ≡ queued → t.state ≡ queued
  pub guards : is_early u.state ≡ true → u.process_guard ≡ none

pub RowStep-of_Restates :
    {fence : ℕ} {t u : Task} → RowInv fence t → Restates t u → RowStep fence t u
RowStep-of_Restates {fence} {t} {u} h r = record {
  same_id = r.same_id;
  shrinks = λ d m. ground arith;
  token = λ n e. sym r.same_token ∙ e;
  inv = record {
    bare = λ q. r.same_devices ∙ h.bare (r.queues q);
    untoken = λ q. r.same_token ∙ h.untoken (r.queues q);
    issued = λ n e. h.issued n (sym r.same_token ∙ e);
    unguarded = r.guards;
  };
}

pub ids-map :
    (f : Task → Task) (ts : List Task)
    → ((t : Task) → In t ts → (f t).task_id ≡ t.task_id)
    → ids (map f ts) ≡ ids ts
ids-map f [] h = refl
ids-map f (t ∷ ts) h = cc (h t here, ids-map f ts (λ u i. h u (there i)))

contains-ids : (t : Task) (ts : List Task) → In t ts → contains t.task_id (ids ts) ≡ true
contains-ids t [] i = elim i [ ]
contains-ids t (u ∷ ts) here = ground (arith, ==-refl t.task_id)
contains-ids t (u ∷ ts) (there i) = ground (arith, contains-ids t ts i)

clash : (t u : Task) (ts : List Task) → UniqueIds (t ∷ ts) → In u ts → t.task_id ≡ u.task_id → ⊥
clash t u ts h i e =
    let m : contains t.task_id (ids ts) ≡ true =
      subst (λ k. contains k (ids ts) ≡ true) (sym e) (contains-ids u ts i) in
    ground arith

-- Rows of one id are one row.
pub same_row :
    (t u : Task) (ts : List Task) → UniqueIds ts → In t ts → In u ts → t.task_id ≡ u.task_id → t ≡ u
same_row t u [] h i j e = elim i [ ]
same_row t u (v ∷ ts) h here here e = refl
same_row t u (v ∷ ts) h here (there j) e = absurd (clash t u ts h j e)
same_row t u (v ∷ ts) h (there i) here e = absurd (clash u t ts h i (sym e))
same_row t u (v ∷ ts) h (there i) (there j) e = same_row t u ts (and-true _ _ h).1 i j e

module _ {fence : ℕ} {ts : List Task} (ledger : Ledger fence ts) where
  pub map-Ledger :
      (f : Task → Task) → ((t : Task) → In t ts → RowStep fence t (f t)) → Ledger fence (map f ts)
  map-Ledger f step = record {
    unique = rw (ids-map f ts (λ t i. (step t i).same_id)) ledger.unique;
    exclusive = λ t u i j ne d m k.
        let (t', i', et) = In-map f ts i in
        let (u', j', eu) = In-map f ts j in
        ledger.exclusive t' u' i' j'
          (λ e. ne (cc (et, eu, e, (step t' i').same_id, (step u' j').same_id))) d
          ((step t' i').shrinks d (subst (λ x. contains d (leased x) ≡ true) et m))
          ((step u' j').shrinks d (subst (λ x. contains d (leased x) ≡ true) eu k));
    fences = λ t u n i j ne p q.
        let (t', i', et) = In-map f ts i in
        let (u', j', eu) = In-map f ts j in
        ledger.fences t' u' n i' j'
          (λ e. ne (cc (et, eu, e, (step t' i').same_id, (step u' j').same_id)))
          ((step t' i').token n (subst (λ x. x.fence_token ≡ some n) et p))
          ((step u' j').token n (subst (λ x. x.fence_token ≡ some n) eu q));
    rows =
        λ t i. let (t', i', et) = In-map f ts i in subst (RowInv fence) (sym et) (step t' i').inv;
  }

  pub update-Ledger :
      (id : String) (f : Task → Task) (row : Task)
      → find (λ t. t.task_id == id) ts ≡ some row
      → RowStep fence row (f row)
      → Ledger fence (update_rows id f ts)
  update-Ledger id f row found step = map-Ledger _ λ t i. elim (Bool-cases (t.task_id == id)) [
    | inl e ↦
        let (j, same) = find-In (λ (u : Task). u.task_id == id) ts found in
        let er : t ≡ row =
          same_row t row ts ledger.unique i j
            (==→≡ t.task_id id e ∙ sym (==→≡ row.task_id id same)) in
        rw e (subst (λ x. RowStep fence x (f x)) (sym er) step)
    | inr e ↦ rw e (RowStep-refl (ledger.rows t i))
  ]

-- A row after an UPDATE: the changed row of that id, or another row as it was.
pub In-update_rows :
    (id : String) (f : Task → Task) (ts : List Task) (u : Task)
    → In u (update_rows id f ts)
    → (t : Task) × In t ts × (((t.task_id ≡ id) × (u ≡ f t)) ⊎ ((t.task_id ≢ id) × (u ≡ t)))
In-update_rows id f ts u i =
    let (t, j, e) = In-map (λ (x : Task). if x.task_id == id then f x else x) ts i in
    elim (Bool-cases (t.task_id == id)) [
      | inl same ↦ (t, j, inl (==→≡ t.task_id id same, ground arith))
      | inr other ↦ (t, j, inr (λ p. ne_of_test t.task_id id other p, ground arith))
    ]

abbrev Updated : String → (Task → Task) → Task → Task → Type 0
Updated id f t u = ((t.task_id ≡ id) × (u ≡ f t)) ⊎ ((t.task_id ≢ id) × (u ≡ t))

-- A relation between the rows of different ids after an UPDATE.
module _ (id : String) (f : Task → Task) (ts : List Task) (P : Task → Task → Type 0)
    (same_id : (t : Task) → (f t).task_id ≡ t.task_id)
    (left : (t u : Task) → In u ts → u.task_id ≢ id → P (f t) u)
    (right : (t u : Task) → In t ts → t.task_id ≢ id → P t (f u))
    (kept : (t u : Task) → In t ts → In u ts → t.task_id ≢ u.task_id → P t u) where
  update_cases :
      (t u t' u' : Task)
      → In t' ts
      → In u' ts
      → t.task_id ≢ u.task_id
      → Updated id f t' t
      → Updated id f u' u
      → P t u
  update_cases t u t' u' i j ne (inl (a, p)) (inl (b, q)) =
      absurd (ne (cc (a, b, p, q, same_id t', same_id u')))
  update_cases t u t' u' i j ne (inl (a, p)) (inr (b, q)) =
      subst (λ x. P x u) (sym p) (subst (P (f t')) (sym q) (left t' u' j b))
  update_cases t u t' u' i j ne (inr (a, p)) (inl (b, q)) =
      subst (λ x. P x u) (sym p) (subst (P t') (sym q) (right t' u' i a))
  update_cases t u t' u' i j ne (inr (a, p)) (inr (b, q)) =
      subst (λ x. P x u) (sym p) (subst (P t') (sym q) (kept t' u' i j (λ e. ne (cc (p, q, e)))))

  pub update_pairs :
      (t u : Task)
      → In t (update_rows id f ts)
      → In u (update_rows id f ts)
      → t.task_id ≢ u.task_id
      → P t u
  update_pairs t u i j ne =
      let (t', i', et) = In-update_rows id f ts t i in
      let (u', j', eu) = In-update_rows id f ts u j in update_cases t u t' u' i' j' ne et eu

module _ (id : String) (f : Task → Task) (ts : List Task) (t : Task) (i : In t ts) where
  pub In-update_rows_self : t.task_id ≡ id → In (f t) (update_rows id f ts)
  In-update_rows_self same =
      subst (λ x. In x (update_rows id f ts)) (ground (arith, (string_eq.agrees t.task_id id).1))
        (In-map_image (λ (x : Task). if x.task_id == id then f x else x) i)

  pub In-update_rows_ne : t.task_id ≢ id → In t (update_rows id f ts)
  In-update_rows_ne other = elim (Bool-cases (t.task_id == id)) [
    | inl same ↦ absurd (other (==→≡ t.task_id id same))
    | inr e ↦
        subst (λ x. In x (update_rows id f ts)) (ground arith)
          (In-map_image (λ (x : Task). if x.task_id == id then f x else x) i)
  ]

-- The row that is read after its update is the updated row.
pub find-update_rows :
    (id : String) (f : Task → Task) (ts : List Task) (row : Task)
    → ((t : Task) → (f t).task_id ≡ t.task_id)
    → find (λ (t : Task). t.task_id == id) ts ≡ some row
    → find (λ (t : Task). t.task_id == id) (update_rows id f ts) ≡ some (f row)
find-update_rows id f [] row keeps e = absurd (cc e)
find-update_rows id f (t ∷ ts) row keeps e = elim (Bool-cases (t.task_id == id)) [
  | inl same ↦
      let there_too : ((f t).task_id == id) ≡ true =
        subst (λ k. (k == id) ≡ true) (sym (keeps t)) same in
      ground arith
  | inr other ↦ ground (arith, find-update_rows id f ts row keeps)
]
