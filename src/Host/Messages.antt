-- ===== src/Host/Messages.antt =====
-- The mailbox: `_message_actor`, `message` and `message_events` of
-- vaws_coordinator/host/vaws_npu_coordination.py.
pub mod Retry
pub mod Reading
use vaws_coordinator.Prelude.{
  ℕ, String, Bool, true, false, Option, none, some, List, [], ◌∷◌, ◌++◌, ◌+◌, ◌&&◌, ◌||◌, not, leb,
  ltb, ◌==◌, nat_eq, string_eq, option_eq, if◌then◌else◌, all_of, any_of, filter, find, contains,
  length, take, map,
}
use vaws_coordinator.Host.State.{Message, Peer, Db}
use vaws_coordinator.Host.Result.{
  Result, ok, err, invalid_message, message_reused, foreign_reply, unknown_recipient, guard,
  require, ◌>>=◌, ◌>>◌,
}
use vaws_coordinator.Host.Table.{transaction, validated}
use vaws_coordinator.Host.Ids.{require_safe_id, codes, is_alphanumeric, is_id_code}

-- [A-Za-z0-9][A-Za-z0-9_.:-]{0,127}
unfoldable pub matches_user : List ℕ → Bool
matches_user [] = false
matches_user (c ∷ rest) = is_alphanumeric c && all_of is_id_code rest && leb (length rest) 127

unfoldable pub message_actor : String → String → Result (String × String)
unfolding matches_user require_safe_id
message_actor user session_id = do
  guard (matches_user (codes user)) invalid_message
  session ← require_safe_id session_id
  ok (user, session)

-- The characters that `str.strip` removes.
abbrev pub is_space : ℕ → Bool
is_space c =
    leb 9 c && leb c 13
    || leb 28 c && leb c 32
    || leb 8192 c && leb c 8202
    || contains c (133 ∷ 160 ∷ 5760 ∷ 8232 ∷ 8233 ∷ 8239 ∷ 8287 ∷ 12288 ∷ [])

unfoldable pub is_message_text : String → Bool
is_message_text text = not (all_of is_space (codes text)) && leb (length (codes text)) 4000

pub record MessageRequest : Type 0 where
  pub user : String
  pub session_id : String
  pub text : String
  pub message_id : String
  pub reply_to : Option String
  pub recipient : Option String
  pub recipient_session : Option String

-- `expected == original`
unfoldable pub same_message : MessageRequest → Message → Bool
same_message r m =
    r.user == m.sender
    && r.session_id == m.sender_session
    && r.text == m.text
    && r.reply_to == m.reply_to
    && r.recipient == m.requested_recipient
    && r.recipient_session == m.requested_session

-- `if reply_to`: neither absent nor empty
abbrev pub truthy : Option String → Option String
truthy none = none
truthy (some text) = if text == "" then none else some text

abbrev pub or_empty : Option String → String
or_empty none = ""
or_empty (some text) = text

abbrev pub is_peer : String → String → Peer → Bool
is_peer user session p = p.user == user && p.session_id == session

-- The recipient, its session and the thread. A recipient that is absent is no text, as an empty
-- one it is refused.
unfoldable pub route : MessageRequest → Db → Result (String × String × String)
unfolding message_actor
route r db = elim (truthy r.reply_to) [
  | some reply_to ↦ do
    original ← require (find (λ m. m.message_id == reply_to) db.messages) foreign_reply
    guard (original.recipient == r.user && original.recipient_session == r.session_id) foreign_reply
    ok (original.sender, original.sender_session, original.thread_id)
  | none ↦ do
    (recipient, session) ← message_actor (or_empty r.recipient) (or_empty r.recipient_session)
    guard (any_of (is_peer recipient session) db.peers) unknown_recipient
    ok (recipient, session, r.message_id)
]

-- `cursor` is the row id that SQLite gives to the inserted row.
unfoldable pub new_message : ℕ → ℕ → MessageRequest → String × String × String → Message
new_message cursor now r (recipient, session, thread_id) = record {
  cursor = cursor;
  message_id = r.message_id;
  thread_id = thread_id;
  sender = r.user;
  sender_session = r.session_id;
  recipient = recipient;
  recipient_session = session;
  requested_recipient = r.recipient;
  requested_session = r.recipient_session;
  reply_to = r.reply_to;
  text = r.text;
  at = now;
}

unfoldable pub add_message : Message → Db → Db
add_message m db = record db { messages = db.messages ++ m ∷ [] }

unfoldable pub message_body : ℕ → ℕ → MessageRequest → Db → Result (Message × Db)
unfolding same_message route new_message add_message
message_body cursor now r db = elim (find (λ m. m.message_id == r.message_id) db.messages) [
  | some previous ↦ do guard (same_message r previous) message_reused; ok (previous, db)
  | none ↦ do
    target ← route r db
    ok (new_message cursor now r target, add_message (new_message cursor now r target) db)
]

unfoldable pub checked_message : MessageRequest → Result MessageRequest
unfolding message_actor is_message_text require_safe_id
checked_message r = do
  actor ← message_actor r.user r.session_id
  guard (is_message_text r.text) invalid_message
  message_id ← require_safe_id r.message_id
  ok r

-- The stored message.
unfoldable pub message : Option String → ℕ → ℕ → MessageRequest → Db → Result Message × Db
unfolding checked_message transaction message_body
message epoch cursor now r db =
    validated (checked_message r) (λ r. transaction epoch (message_body cursor now r)) db

-- INSERT INTO message_peers ... ON CONFLICT DO UPDATE
unfoldable pub touch_peer : String → String → ℕ → List Peer → List Peer
touch_peer user session now peers =
    if any_of (is_peer user session) peers
    then map (λ p. if is_peer user session p then record p { seen_at = now } else p) peers
    else peers ++ record { user = user; session_id = session; seen_at = now } ∷ []

abbrev pub insert_peer : Peer → List Peer → List Peer
insert_peer p [] = p ∷ []
insert_peer p (q ∷ qs) =
    let rest = insert_peer p qs in if ltb q.seen_at p.seen_at then p ∷ q ∷ qs else q ∷ rest

-- ORDER BY seen_at DESC
unfoldable pub newest_first : List Peer → List Peer
newest_first [] = []
newest_first (p ∷ ps) = insert_peer p (newest_first ps)

abbrev pub is_for : String → String → ℕ → Message → Bool
is_for user session after m =
    m.recipient == user && m.recipient_session == session && ltb after m.cursor

pub record Inbox : Type 0 where
  pub mailbox_epoch : String
  pub cursor : ℕ
  pub events : List Message
  pub peers : List Peer

-- rows[-1]["cursor"] if rows else after
unfoldable pub last_cursor : ℕ → List Message → ℕ
last_cursor after [] = after
last_cursor after (m ∷ ms) = last_cursor m.cursor ms

abbrev pub insert_message : Message → List Message → List Message
insert_message m [] = m ∷ []
insert_message m (n ∷ ns) =
    let rest = insert_message m ns in if leb m.cursor n.cursor then m ∷ n ∷ ns else n ∷ rest

-- ORDER BY cursor
unfoldable pub by_cursor : List Message → List Message
by_cursor [] = []
by_cursor (m ∷ ms) = insert_message m (by_cursor ms)

unfoldable pub read_inbox : String → String → ℕ → ℕ → List Message → List Message
unfolding by_cursor
read_inbox user session after limit messages =
    take limit (by_cursor (filter (is_for user session after) messages))

unfoldable pub events_body :
    ℕ → String → String → ℕ → ℕ → Option String → Bool → Db → Result (Inbox × Db)
unfolding touch_peer read_inbox last_cursor newest_first
events_body now user session after limit mailbox_epoch include_peers db =
    let start = if mailbox_epoch == some db.coordination_epoch then after else 0 in
    let peers' = touch_peer user session now db.peers in
    let rows = read_inbox user session start limit db.messages in
    ok (
      record {
        mailbox_epoch = db.coordination_epoch;
        cursor = last_cursor start rows;
        events = rows;
        peers =
            if include_peers
            then take 5 (newest_first (filter (λ p. not (is_peer user session p)) peers'))
            else [];
      },
      record db { peers = peers' },
    )

unfoldable pub checked_reader : String → String → ℕ → Result (String × String)
unfolding message_actor
checked_reader user session_id limit = do
  actor ← message_actor user session_id
  guard (leb 1 limit && leb limit 20) invalid_message
  ok actor

unfoldable pub message_events :
    Option String → ℕ → String → String → ℕ → ℕ → Option String → Bool → Db → Result Inbox × Db
unfolding checked_reader transaction events_body
message_events epoch now user session_id after limit mailbox_epoch include_peers db =
    validated (checked_reader user session_id limit)
      (λ actor.
        transaction epoch (events_body now actor.0 actor.1 after limit mailbox_epoch include_peers))
      db
