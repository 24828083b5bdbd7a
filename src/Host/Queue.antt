-- ===== src/Host/Queue.antt =====
-- The order of the queue: the head that `acquire` of
-- vaws_coordinator/host/vaws_npu_coordination.py takes.
use vaws_coordinator.Prelude.{
  ℕ, String, Bool, true, false, ◌≡◌, subst, inl, inr, Option, none, some, List, [], ◌∷◌, arith,
  ◌||◌, ◌==◌, ◌&&◌, not, In, here, there, In-filter, In-filter_image, filter, leb, Bool-cases,
  Option-cases, eq_of_some, nat_eq, string_eq, option_eq, ==→≡,
}
use vaws_coordinator.Prelude.Int.{ltb_ℤ}
use vaws_coordinator.Host.State.{state_eq, Task, Db, Observation, Listening, Change}
use vaws_coordinator.Host.Result.{ok}
use vaws_coordinator.Host.Ledger.Rows.{UniqueIds, same_row}
use vaws_coordinator.Host.Acquire.{
  is_eligible, precedes, first_of_queue, queue_head, task_ids, try_grant, granted_now,
}

-- `t` has the higher priority, or the same one and was not submitted later.
unfoldable pub outranks : Task → Task → Bool
outranks t u =
    ltb_ℤ u.priority t.priority
    || not (ltb_ℤ t.priority u.priority) && leb t.submitted_at u.submitted_at

abbrev pub Outranks : Task → Task → Type 0
Outranks t u = outranks t u ≡ true

Outranks-refl : (t : Task) → Outranks t t
unfolding outranks
Outranks-refl t = ground arith

Outranks-trans : (t u v : Task) → Outranks t u → Outranks u v → Outranks t v
unfolding outranks
Outranks-trans t u v a b = ground arith

module _ (text_lt : String → String → Bool) where
  precedes-Outranks : (a b : Task) → precedes text_lt a b ≡ true → Outranks a b
  unfolding precedes outranks
  precedes-Outranks a b e = ground arith

  follows-Outranks : (a b : Task) → precedes text_lt a b ≡ false → Outranks b a
  unfolding precedes outranks
  follows-Outranks a b e = ground arith

  -- The queue with a task in it has a first.
  never : (v : Task) (vs : List Task) → first_of_queue text_lt (v ∷ vs) ≡ none → ⊥
  unfolding first_of_queue
  never v vs e = elim (Option-cases (first_of_queue text_lt vs)) [
    | inl last ↦ cc (rw last at e)
    | inr (h, found) ↦ ground arith
  ]

  before :
      (t : Task) (ts : List Task) (h u : Task)
      → In u (t ∷ ts)
      → Outranks h t
      → (In u ts → Outranks h u)
      → Outranks h u
  before t ts h u here a f = a
  before t ts h u (there i) a f = f i

  alone :
      (t : Task) (ts : List Task) (h u : Task)
      → first_of_queue text_lt ts ≡ none
      → t ≡ h
      → In u (t ∷ ts)
      → Outranks h u
  alone t ts h u last same here = subst (λ x. Outranks x t) same (Outranks-refl t)
  alone t [] h u last same (there i) = elim i [ ]
  alone t (v ∷ vs) h u last same (there i) = absurd (never v vs last)

  first_of_queue-Outranks :
      (ts : List Task) (head u : Task)
      → first_of_queue text_lt ts ≡ some head
      → In u ts
      → Outranks head u
  unfolding first_of_queue
  first_of_queue-Outranks [] head u e i = elim i [ ]
  first_of_queue-Outranks (t ∷ ts) head u e i = elim (Option-cases (first_of_queue text_lt ts)) [
    | inl last ↦ let same : t ≡ head = eq_of_some (rw last at e) in alone t ts head u last same i
    | inr (h, found) ↦ elim (Bool-cases (precedes text_lt h t)) [
      | inl first ↦
          let same : h ≡ head = eq_of_some (rw (found, first) at e) in
          subst (λ x. Outranks x u) same
            (before t ts h u i (precedes-Outranks h t first)
              (λ j. first_of_queue-Outranks ts h u found j))
      | inr later ↦
          let same : t ≡ head = eq_of_some (rw (found, later) at e) in
          subst (λ x. Outranks x u) same
            (before t ts t u i (Outranks-refl t) (λ j.
              Outranks-trans t h u (follows-Outranks h t later)
                (first_of_queue-Outranks ts h u found j)))
    ]
  ]

first_of_queue-In :
    (text_lt : String → String → Bool) (ts : List Task) (head : Task)
    → first_of_queue text_lt ts ≡ some head
    → In head ts
unfolding first_of_queue
first_of_queue-In text_lt [] head e = absurd (cc e)
first_of_queue-In text_lt (t ∷ ts) head e = elim (Option-cases (first_of_queue text_lt ts)) [
  | inl last ↦
      let same : t ≡ head = eq_of_some (rw last at e) in subst (λ x. In x (t ∷ ts)) same here
  | inr (h, found) ↦ elim (Bool-cases (precedes text_lt h t)) [
    | inl first ↦
        let same : h ≡ head = eq_of_some (rw (found, first) at e) in
        subst (λ x. In x (t ∷ ts)) same (there (first_of_queue-In text_lt ts h found))
    | inr later ↦
        let same : t ≡ head = eq_of_some (rw (found, later) at e) in
        subst (λ x. In x (t ∷ ts)) same here
  ]
]

module _ (text_lt : String → String → Bool) (now : ℕ) (db : Db) where
  -- The head of the queue goes before every task that could start now.
  pub queue_head-Outranks :
      (head u : Task)
      → queue_head text_lt now db ≡ some head
      → In u db.tasks
      → is_eligible now u ≡ true
      → Outranks head u
  unfolding queue_head
  queue_head-Outranks head u e i able =
      first_of_queue-Outranks text_lt (filter (is_eligible now) db.tasks) head u e
        (In-filter_image (is_eligible now) db.tasks i able)

module _ (text_lt : String → String → Bool) (now ttl : ℕ) (observed : Option Observation)
    (listening : Option Listening) (row : Task) (changes : List Change) (db : Db) where
  head_In : (head : Task) → queue_head text_lt now db ≡ some head → In head db.tasks
  unfolding queue_head
  head_In head e =
      (In-filter (is_eligible now) db.tasks
        (first_of_queue-In text_lt (filter (is_eligible now) db.tasks) head e)).0

  granted_is_head :
      {row' : Task} {selected : List ℕ} {port : Option ℕ} {changes' : List Change} {db' : Db}
      → try_grant text_lt now ttl observed listening row changes db
        ≡ ok (granted_now row' selected port changes', db')
      → (row.requested_count == 0) ≡ false
      → (head : Task) × (queue_head text_lt now db ≡ some head) × (head.task_id ≡ row.task_id)
  unfolding try_grant
  granted_is_head e wanted =
      elim (Bool-cases (task_ids (queue_head text_lt now db) == some row.task_id)) [
        | inl same ↦ elim (Option-cases (queue_head text_lt now db)) [
          | inl missing ↦ absurd (ground arith)
          | inr (head, found) ↦ (head, found, ==→≡ head.task_id row.task_id (rw found at same))
        ]
        | inr other ↦ absurd (ground arith)
      ]

  -- A grant of devices is fair: the task that `acquire` grants is the first of the queue. Every
  -- task that could start now, queued with its start time reached and its latest start ahead, has
  -- a lower priority than the granted one, or the same and was not submitted earlier.
  pub grant-Outranks :
      {row' : Task} {selected : List ℕ} {port : Option ℕ} {changes' : List Change} {db' : Db}
      → UniqueIds db.tasks
      → In row db.tasks
      → try_grant text_lt now ttl observed listening row changes db
        ≡ ok (granted_now row' selected port changes', db')
      → (row.requested_count == 0) ≡ false
      → (u : Task) → In u db.tasks
      → is_eligible now u ≡ true
      → Outranks row u
  grant-Outranks unique i e wanted u j able =
      let (head, found, same) = granted_is_head e wanted in
      let here : In head db.tasks = head_In head found in
      subst (λ x. Outranks x u) (same_row head row db.tasks unique here i same)
        (queue_head-Outranks text_lt now db head u found j able)
