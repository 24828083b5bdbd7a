-- ===== src/Host/Messages/Retry.antt =====
-- A repeated `message` of vaws_coordinator/host/vaws_npu_coordination.py.
use vaws_coordinator.Prelude.{
  ℕ, String, true, false, ◌≡◌, refl, sym, ◌∙◌, subst, inl, inr, none, some, List, [], ◌∷◌, ◌++◌,
  arith, Bool-cases, Option-cases, string_eq, option_eq, ==-refl, find, ◌==◌,
}
use vaws_coordinator.Host.State.{Message, Db}
use vaws_coordinator.Host.Result.{Error, ok, err, Result-cases, message_reused}
use vaws_coordinator.Host.Messages.{
  MessageRequest, same_message, route, new_message, add_message, message_body,
}

find-append_self :
    (id : String) (ms : List Message) (m : Message)
    → find (λ (x : Message). x.message_id == id) ms ≡ none
    → m.message_id ≡ id
    → find (λ (x : Message). x.message_id == id) (ms ++ m ∷ []) ≡ some m
find-append_self id [] m e same = ground (arith, (string_eq.agrees m.message_id id).1 same)
find-append_self id (x ∷ xs) m e same = elim (Bool-cases (x.message_id == id)) [
  | inl found ↦ absurd (cc (rw found at e))
  | inr other ↦ rw other (find-append_self id xs m (rw other at e) same)
]

same_message_new :
    (cursor now : ℕ) (r : MessageRequest) (target : String × String × String)
    → same_message r (new_message cursor now r target) ≡ true
unfolding same_message new_message
same_message_new cursor now r target = ground (
  arith,
  ==-refl r.user,
  ==-refl r.session_id,
  ==-refl r.text,
  ==-refl r.reply_to,
  ==-refl r.recipient,
  ==-refl r.recipient_session,
)

module _ (cursor now unused later : ℕ) (r : MessageRequest) (db : Db) where
  pub body_found :
      (rowid at : ℕ) (db : Db) (m : Message)
      → find (λ (x : Message). x.message_id == r.message_id) db.messages ≡ some m
      → same_message r m ≡ true
      → message_body rowid at r db ≡ ok (m, db)
  unfolding message_body
  body_found rowid at db m found same = ground arith

  pub body_new :
      (target : String × String × String)
      → find (λ (x : Message). x.message_id == r.message_id) db.messages ≡ none
      → route r db ≡ ok target
      → message_body cursor now r db
        ≡ ok (new_message cursor now r target, add_message (new_message cursor now r target) db)
  unfolding message_body
  body_new target missing to = ground arith

  pub body_reused :
      (m : Message)
      → find (λ (x : Message). x.message_id == r.message_id) db.messages ≡ some m
      → same_message r m ≡ false
      → message_body cursor now r db ≡ err message_reused
  unfolding message_body
  body_reused m found other = ground arith

  pub body_refused :
      (f : Error)
      → find (λ (x : Message). x.message_id == r.message_id) db.messages ≡ none
      → route r db ≡ err f
      → message_body cursor now r db ≡ err f
  unfolding message_body
  body_refused f missing refused = ground arith

  stored :
      (a m : Message) (b db' : Db)
      → message_body cursor now r db ≡ ok (a, b)
      → message_body unused later r b ≡ ok (a, b)
      → message_body cursor now r db ≡ ok (m, db')
      → message_body unused later r db' ≡ ok (m, db')
  stored a m b db' e again e' =
      let both : ok (a, b) ≡ ok (m, db') = sym e ∙ e' in
      let same : a ≡ m = cc both in
      let left : b ≡ db' = cc both in
      subst (λ x. message_body unused later r db' ≡ ok (x, db')) same
        (subst (λ x. message_body unused later r x ≡ ok (a, x)) left again)

  -- Sending a message again with the same identifier and content, at any later time
  -- and whatever row ids SQLite gives, returns the
  -- stored message and changes nothing.
  pub message_retry :
      (m : Message) (db' : Db)
      → message_body cursor now r db ≡ ok (m, db')
      → message_body unused later r db' ≡ ok (m, db')
  message_retry m db' e =
      elim (Option-cases (find (λ (x : Message). x.message_id == r.message_id) db.messages)) [
        | inr (previous, found) ↦ elim (Bool-cases (same_message r previous)) [
          | inl same ↦
              let first : message_body cursor now r db ≡ ok (previous, db) =
                body_found cursor now db previous found same in
              stored previous m db db' first (body_found unused later db previous found same) e
          | inr other ↦ absurd (cc (body_reused previous found other, e))
        ]
        | inl missing ↦ elim (Result-cases (route r db)) [
          | inl (target, to) ↦
              let n = new_message cursor now r target in
              let first : message_body cursor now r db ≡ ok (n, add_message n db) =
                body_new target missing to in
              stored n m (add_message n db) db' first
                (body_found unused later (add_message n db) n
                  (unfold add_message in
                    find-append_self r.message_id db.messages n missing
                      (unfold new_message in refl))
                  (same_message_new cursor now r target))
                e
          | inr (f, refused) ↦ absurd (cc (body_refused f missing refused, e))
        ]
      ]
