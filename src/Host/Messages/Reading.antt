-- ===== src/Host/Messages/Reading.antt =====
-- Reading a mailbox to its end with `message_events` of
-- vaws_coordinator/host/vaws_npu_coordination.py.
use vaws_coordinator.Prelude.{
  ℕ, zero, suc, String, Bool, true, ◌≡◌, ◌≢◌, refl, sym, subst, inl, inr, ◌⊎◌, List, [], ◌∷◌, arith,
  some, Bool-cases, In, here, there, filter, In-filter, In-filter_image, take, ltb, leb, ◌≤◌, ◌<◌,
  string_eq, nat_eq, option_eq, ==-refl, ◌&&◌, map, contains, distinct,
}
use vaws_coordinator.Host.State.{Message, Db}
use vaws_coordinator.Host.Result.{ok}
use vaws_coordinator.Host.Messages.{
  Inbox, is_for, last_cursor, insert_message, by_cursor, read_inbox, events_body,
}

-- Each cursor is above `after` and above those of the messages before it.
abbrev is_ascending : ℕ → List Message → Bool
is_ascending after [] = true
is_ascending after (m ∷ ms) = ltb after m.cursor && is_ascending m.cursor ms

insert-is_ascending :
    (after : ℕ) (m : Message) (ms : List Message)
    → is_ascending after ms ≡ true
    → after < m.cursor
    → ((x : Message) → In x ms → x.cursor ≢ m.cursor)
    → is_ascending after (insert_message m ms) ≡ true
insert-is_ascending after m [] e low other = ground arith
insert-is_ascending after m (n ∷ ns) e low other = elim (Bool-cases (leb m.cursor n.cursor)) [
  | inl first ↦
      let apart : n.cursor ≢ m.cursor = other n here in
      let below : m.cursor < n.cursor = ground arith in rw first (ground arith)
  | inr later ↦
      let rest =
        insert-is_ascending n.cursor m ns (ground arith) (ground arith)
          (λ x i. other x (there i)) in
      rw later (ground arith)
]

insert_self : (m : Message) (ms : List Message) → In m (insert_message m ms)
insert_self m [] = here
insert_self m (n ∷ ns) = elim (Bool-cases (leb m.cursor n.cursor)) [
  | inl first ↦ rw first here
  | inr later ↦ rw later (there (insert_self m ns))
]

insert_old : (m x : Message) (ms : List Message) → In x ms → In x (insert_message m ms)
insert_old m x [] i = elim i [ ]
insert_old m x (n ∷ ns) here = elim (Bool-cases (leb m.cursor n.cursor)) [
  | inl first ↦ rw first (there here)
  | inr later ↦ rw later here
]
insert_old m x (n ∷ ns) (there i) = elim (Bool-cases (leb m.cursor n.cursor)) [
  | inl first ↦ rw first (there (there i))
  | inr later ↦ rw later (there (insert_old m x ns i))
]

In-cons : (x m : Message) (ms : List Message) → In x (m ∷ ms) → (x ≡ m) ⊎ In x ms
In-cons x m ms here = inl refl
In-cons x m ms (there i) = inr i

insert-In : (m x : Message) (ms : List Message) → In x (insert_message m ms) → (x ≡ m) ⊎ In x ms
insert-In m x [] i = In-cons x m [] i
insert-In m x (n ∷ ns) i = elim (Bool-cases (leb m.cursor n.cursor)) [
  | inl first ↦ In-cons x m (n ∷ ns) (rw first at i)
  | inr later ↦ elim (In-cons x n (insert_message m ns) (rw later at i)) [
    | inl same ↦ inr (subst (λ y. In y (n ∷ ns)) (sym same) here)
    | inr j ↦ elim (insert-In m x ns j) [ inl same ↦ inl same | inr k ↦ inr (there k) ]
  ]
]

In-by_cursor : (x : Message) (ms : List Message) → In x ms → In x (by_cursor ms)
unfolding by_cursor
In-by_cursor x [] i = elim i [ ]
In-by_cursor x (m ∷ ms) here = insert_self m (by_cursor ms)
In-by_cursor x (m ∷ ms) (there i) = insert_old m x (by_cursor ms) (In-by_cursor x ms i)

by_cursor-In : (x : Message) (ms : List Message) → In x (by_cursor ms) → In x ms
unfolding by_cursor
by_cursor-In x [] i = i
by_cursor-In x (m ∷ ms) i = elim (insert-In m x (by_cursor ms) i) [
  | inl same ↦ subst (λ y. In y (m ∷ ms)) (sym same) here
  | inr j ↦ there (by_cursor-In x ms j)
]

contains-cursors :
    (ms : List Message) (x : Message)
    → In x ms
    → contains x.cursor (map (λ (m : Message). m.cursor) ms) ≡ true
contains-cursors [] x i = elim i [ ]
contains-cursors (m ∷ ms) x here = ground (arith, ==-refl x.cursor)
contains-cursors (m ∷ ms) x (there i) = ground (arith, contains-cursors ms x i)

inbox-is_ascending :
    (user session : String) (after : ℕ) (ms : List Message)
    → distinct (map (λ (m : Message). m.cursor) ms) ≡ true
    → is_ascending after (by_cursor (filter (is_for user session after) ms)) ≡ true
unfolding by_cursor
inbox-is_ascending user session after [] e = refl
inbox-is_ascending user session after (m ∷ ms) e =
    let rest = inbox-is_ascending user session after ms (ground arith) in
    elim (Bool-cases (is_for user session after m)) [
      | inr dropped ↦ rw dropped rest
      | inl mine ↦ rw mine (
          insert-is_ascending after m (by_cursor (filter (is_for user session after) ms)) rest
            (ground arith)
            (λ x i same.
              let (j, _) =
                In-filter (is_for user session after) ms
                  (by_cursor-In x (filter (is_for user session after) ms) i) in
              let found : contains m.cursor (map (λ (n : Message). n.cursor) ms) ≡ true =
                subst (λ c. contains c (map (λ (n : Message). n.cursor) ms) ≡ true) same
                  (contains-cursors ms x j) in
              absurd (ground arith)))
    ]

In-take :
    (limit after : ℕ) (ms : List Message) (m : Message)
    → is_ascending after ms ≡ true
    → In m ms
    → m.cursor ≤ last_cursor after (take limit ms)
    → In m (take limit ms)
unfolding last_cursor
In-take limit after [] m e i le = elim i [ ]
In-take zero after (x ∷ xs) m e i le = absurd (above after (x ∷ xs) m e i le)
  where
    above :
        (after : ℕ) (ms : List Message) (m : Message)
        → is_ascending after ms ≡ true
        → In m ms
        → m.cursor ≤ after
        → ⊥
    above after [] m e i le = elim i [ ]
    above after (x ∷ xs) m e here le = ground arith
    above after (x ∷ xs) m e (there i) le = above x.cursor xs m (ground arith) i (ground arith)
In-take (suc limit) after (x ∷ xs) m e here le = here
In-take (suc limit) after (x ∷ xs) m e (there i) le =
    there (In-take limit x.cursor xs m (ground arith) i le)

reply_rows :
    (now : ℕ) (user session : String) (after limit : ℕ) (include_peers : Bool) (db db' : Db)
    (inbox : Inbox)
    → events_body now user session after limit (some db.coordination_epoch) include_peers db
      ≡ ok (inbox, db')
    → (inbox.events ≡ read_inbox user session after limit db.messages)
      × (inbox.cursor ≡ last_cursor after (read_inbox user session after limit db.messages))
unfolding events_body
reply_rows now user session after limit include_peers db db' inbox e =
    let start = ==-refl (some db.coordination_epoch) in (ground arith, ground arith)

-- No message is skipped: in a table whose cursors are distinct, in whatever order its rows are, a
-- message to the reader that lies past the reader's cursor, and that the cursor of the reply does
-- not leave for later, is among the events of the reply.
pub no_message_skipped :
    (now : ℕ) (user session : String) (after limit : ℕ) (include_peers : Bool) (db db' : Db)
    (inbox : Inbox) (m : Message)
    → distinct (map (λ (x : Message). x.cursor) db.messages) ≡ true
    → events_body now user session after limit (some db.coordination_epoch) include_peers db
      ≡ ok (inbox, db')
    → In m db.messages
    → is_for user session after m ≡ true
    → m.cursor ≤ inbox.cursor
    → In m inbox.events
unfolding read_inbox
no_message_skipped now user session after limit include_peers db db' inbox m h e i mine le =
    let mine_only = filter (is_for user session after) db.messages in
    let matching = by_cursor mine_only in
    let (events, cursor) = reply_rows now user session after limit include_peers db db' inbox e in
    subst (λ xs. In m xs) (sym events)
      (In-take limit after matching m (inbox-is_ascending user session after db.messages h)
        (In-by_cursor m mine_only (In-filter_image (is_for user session after) db.messages i mine))
        (subst (λ c. m.cursor ≤ c) cursor le))
