-- ===== src/SessionStore.antt =====
-- hermes/internal/sessionstore/store.go: session lanes and their append-only messages. Both tables
-- are lists of rows in the order of their rowids. `created_at` is the text in the column, and an
-- empty `reply_to` is stored as NULL and read back as empty.
pub mod Sequence
pub mod Rounds
pub mod Duplicates
pub mod History
mod Tests
use hermes_forge_public.Prelude.{
  ℕ, zero, suc, String, Bool, true, false, ◌&&◌, ◌||◌, Option, none, some, List, [], ◌∷◌, ◌++◌,
  ◌==◌, eqb, ltb, leb, Result, ok, err, if◌then◌else◌,
}
use hermes_forge_public.Prelude.TextOrder.{text_le}
use hermes_forge_public.Sql.{select, find, order_by}

pub record Session : Type 0 where
  pub id : String
  pub created_at : String
  pub title : String
  pub project : String
  pub api_key : String
  pub status : String

pub record Message : Type 0 where
  pub id : String
  pub session_id : String
  pub from : String
  pub kind : String
  pub text : String
  pub reply_to : String
  pub created_at : String
  pub insert_order : ℕ

pub record Store : Type 0 where
  pub sessions : List Session
  pub messages : List Message

-- The driver calls of an operation; those of an attempt to insert carry its number.
pub data Point : Type 0 where
  exec lookup query scan since : Point
  begin next_order insert_row commit : ℕ → Point

pub data Error : Type 0 where
  not_found duplicate max_retries : Error
  driver : Point → Error

-- `fails p` says that the driver call p returns an error, and `conflicts i` that the commit of
-- attempt i reports a violated constraint.
pub record Call : Type 0 where
  pub fails : Point → Bool
  pub conflicts : ℕ → Bool

abbrev pub is_session : String → Session → Bool
is_session id s = s.id == id

unfoldable pub insert : Call → Session → Store → Result Error (Unit {0}) × Store
insert c sess s =
    if c.fails exec then (err (driver exec), s) else elim (find (is_session sess.id) s.sessions) [
      | some _ ↦ (err duplicate, s)
      | none ↦ (ok tt, record s { sessions = s.sessions ++ sess ∷ [] })
    ]

unfoldable pub get : Call → String → Store → Result Error Session
get c id s =
    if c.fails lookup
    then err (driver lookup)
    else elim (find (is_session id) s.sessions) [ some sess ↦ ok sess | none ↦ err not_found ]

abbrev pub reverse : {A : Type 0} → List A → List A
reverse [] = []
reverse (x ∷ l) = reverse l ++ x ∷ []

-- ORDER BY created_at DESC, rowid DESC
abbrev pub newest : List Session → List Session
newest rows = order_by (λ a b. text_le b.created_at a.created_at) (reverse rows)

unfoldable pub list : Call → String → Store → Result Error (List Session)
list c key s =
    let rows = if key == "" then s.sessions else select (λ sess. sess.api_key == key) s.sessions in
    if c.fails query
    then err (driver query)
    else if c.fails scan
    then err (driver scan)
    else ok (newest rows)

-- WHERE session_id = ?
abbrev pub in_session : String → Message → Bool
in_session id m = m.session_id == id

-- COALESCE(MAX(insert_order), 0)
abbrev pub max_order : List Message → ℕ
max_order [] = 0
max_order (m ∷ rows) =
    let rest = max_order rows in if ltb rest m.insert_order then m.insert_order else rest

unfoldable pub get_next_insert_order : String → Store → ℕ
get_next_insert_order id s = suc (max_order (select (in_session id) s.messages))

-- The PRIMARY KEY and the unique index on (session_id, insert_order).
abbrev pub violates : Message → Message → Bool
violates m row =
    row.id == m.id || row.session_id == m.session_id && eqb row.insert_order m.insert_order

-- The loop of `insertMessageWithRetry` from attempt i on, with n attempts left.
unfoldable pub insert_with_retry : Call → ℕ → ℕ → Message → Store → Result Error ℕ × Store
insert_with_retry c zero i msg s = (err max_retries, s)
insert_with_retry c (suc n) i msg s =
    let m = record msg { insert_order = get_next_insert_order msg.session_id s } in
    let again = insert_with_retry c n (suc i) msg s in
    if c.fails (begin i)
    then (err (driver (begin i)), s)
    else if c.fails (next_order i)
    then (err (driver (next_order i)), s)
    else if c.fails (insert_row i)
    then (err (driver (insert_row i)), s)
    else elim (find (violates m) s.messages) [
      | some _ ↦ again
      | none ↦
          if c.conflicts i
          then again
          else if c.fails (commit i)
          then (err (driver (commit i)), s)
          else (ok m.insert_order, record s { messages = s.messages ++ m ∷ [] })
    ]

abbrev pub max_attempts : ℕ
max_attempts = 5

-- `InsertMessage`, with the order that it writes back.
unfoldable pub insert_message : Call → Message → Store → Result Error ℕ × Store
insert_message c msg s = elim (get c msg.session_id s) [
  | err x ↦ (err x, s)
  | ok _ ↦ insert_with_retry c max_attempts 0 msg s
]

-- ORDER BY insert_order ASC
abbrev pub by_order : Message → Message → Bool
by_order a b = leb a.insert_order b.insert_order

abbrev pub read_messages : Call → (Message → Bool) → Store → Result Error (List Message)
read_messages c p s =
    if c.fails query
    then err (driver query)
    else if c.fails scan
    then err (driver scan)
    else ok (order_by by_order (select p s.messages))

unfoldable pub get_messages_after : Call → String → String → Store → Result Error (List Message)
get_messages_after c id since_id s =
    if c.fails since
    then err (driver since)
    else elim (find (λ m. m.id == since_id && m.session_id == id) s.messages) [
      | none ↦ ok []
      | some m ↦ read_messages c (λ x. in_session id x && ltb m.insert_order x.insert_order) s
    ]

-- No `since_id` is the empty one.
unfoldable pub get_messages : Call → String → String → Store → Result Error (List Message)
get_messages c id since_id s = elim (get c id s) [
  | err x ↦ err x
  | ok _ ↦
      if since_id == ""
      then read_messages c (in_session id) s
      else get_messages_after c id since_id s
]
