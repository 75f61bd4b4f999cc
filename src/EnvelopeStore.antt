-- ===== src/EnvelopeStore.antt =====
-- hermes/internal/envelopestore/sqlite.go. The table holds the rows in insertion order, each as a scan
-- reads it (Stored says what a scan makes of the columns that Insert writes): a column of
-- JSON text is the value that it encodes. Every operation takes a `Call`, which says which of its
-- driver calls fail, and returns the table that SQLite holds afterwards.
pub mod Update
pub mod Thread
pub mod Active
pub mod History
pub mod Outcomes
pub mod Keys
pub mod Claim
pub mod Queue
pub mod Transition
pub mod Proven
pub mod Polling
mod Tests
pub mod Pending
pub mod Evolves
pub mod Evolution
pub mod Settled
pub mod Columns
pub mod Stored
use hermes_forge_public.Prelude.{
  ℕ, zero, suc, String, Bool, true, false, not, ◌&&◌, ◌||◌, Option, none, some, List, [], ◌∷◌, ◌++◌,
  map, ◌==◌, eqb, ltb, length, Result, ok, err, if◌then◌else◌,
}
use hermes_forge_public.Prelude.Texts.{concat}
use hermes_forge_public.Prelude.TextOrder.{text_le, text_lt}
use hermes_forge_public.Sql.{select, first, find, update, affected, order_by}
use hermes_forge_public.Envelope.{
  Status, Delivery, Message, Time, Envelope, Proof, Error, not_found, duplicate, terminal_session,
  driver, is_terminal, validate, can_transition,
}

-- The rows of `envelopes`, oldest insert first.
abbrev pub Table : Type 0
Table = List Envelope

-- `fails n` says that the n-th driver call of the operation returns an error; `now` is the clock,
-- `rfc3339` is `time.Time.Format(time.RFC3339)`, and `utc_text` is the text as which the driver writes an
-- instant in UTC.
pub record Call : Type 0 where
  pub fails : ℕ → Bool
  pub now : ℕ
  pub rfc3339 : ℕ → String
  pub utc_text : ℕ → String

-- `time.Now().UTC()`
abbrev pub utc_now : Call → Time
utc_now c = record { instant = c.now; stored = c.utc_text c.now }

-- WHERE id = ?
abbrev pub has_id : String → Envelope → Bool
has_id id e = e.id == id

-- The PRIMARY KEY constraint refuses a second row with the id.
unfoldable pub insert : Call → Envelope → Table → Result Error (Unit {0}) × Table
insert c e t = elim (validate e) [
  | err x ↦ (err x, t)
  | ok _ ↦
      if c.fails 0
      then (err (driver 0), t)
      else elim (find (has_id e.id) t) [ some _ ↦ (err duplicate, t) | none ↦ (ok tt, t ++ e ∷ []) ]
]

-- `scanRow`: no row is ErrNotFound.
abbrev pub scan_row : Option Envelope → Result Error Envelope
scan_row none = err not_found
scan_row (some e) = ok e

-- SELECT … WHERE id = ?, as the n-th driver call
abbrev pub get_row : ℕ → Call → String → Table → Result Error Envelope
get_row n c id t = if c.fails n then err (driver n) else scan_row (find (has_id id) t)

pub get : Call → String → Table → Result Error Envelope
get c id t = get_row 0 c id t

-- ORDER BY created_at ASC, id ASC: the columns are compared as the texts that they hold.
unfoldable pub older : Envelope → Envelope → Bool
older a b =
    if a.created_at.stored == b.created_at.stored
    then text_le a.id b.id
    else text_lt a.created_at.stored b.created_at.stored

-- ORDER BY created_at DESC, id DESC
abbrev pub newer : Envelope → Envelope → Bool
newer a b = older b a

abbrev pub is_created : Envelope → Bool
is_created e = e.status == "created"

unfoldable pub next_created : Call → Table → Result Error Envelope
next_created c t =
    if c.fails 0 then err (driver 0) else scan_row (first (order_by older (select is_created t)))

-- `x IN (…)`
unfoldable pub is_in : List String → String → Bool
is_in [] x = false
is_in (y ∷ ys) x = if x == y then true else is_in ys x

pub list : Call → List Status → Table → Result Error (List Envelope)
list c [] t = if c.fails 0 then err (driver 0) else ok (order_by newer t)
list c statuses t =
    if c.fails 0
    then err (driver 0)
    else ok (order_by newer (select (λ e. is_in statuses e.status) t))

-- WHERE id = ? AND status = 'created'
abbrev pub is_deliverable : String → Envelope → Bool
is_deliverable id e = e.id == id && is_created e

abbrev pub deliver_row : String → ℕ → Envelope → Envelope
deliver_row session at e = record e {
  status = "delivered";
  delivery = record { delivered = true; delivered_at = some at; is_read = false; read_at = none };
  session_binding = some session;
}

-- The UPDATE has taken effect when `RowsAffected` is asked, so its error leaves the new table.
pub mark_delivered : Call → String → String → ℕ → Table → Result Error (Unit {0}) × Table
mark_delivered c id session at t =
    let p = is_deliverable id in
    if c.fails 0
    then (err (driver 0), t)
    else if c.fails 1
    then (err (driver 1), update p (deliver_row session at) t)
    else if eqb (affected p t) 0
    then (err not_found, update p (deliver_row session at) t)
    else (ok tt, update p (deliver_row session at) t)

-- WHERE id = ? AND status NOT IN ('done', 'failed', 'lost')
abbrev pub is_open : String → Envelope → Bool
is_open id e = e.id == id && not (is_in ("done" ∷ "failed" ∷ "lost" ∷ []) e.status)

-- Why no row was updated: the id is unknown, or its envelope is terminal.
abbrev pub no_open_row : Result Error Envelope → Error
no_open_row (ok e) = terminal_session
no_open_row (err x) = x

abbrev pub bind_session : String → Envelope → Envelope
bind_session session e = record e { executor_session_id = session }

pub set_executor_session_id : Call → String → String → Table → Result Error (Unit {0}) × Table
set_executor_session_id c id session t =
    let p = is_open id in
    if c.fails 0
    then (err (driver 0), t)
    else if c.fails 1
    then (err (driver 1), update p (bind_session session) t)
    else if eqb (affected p t) 0
    then (err (no_open_row (get_row 2 c id t)), update p (bind_session session) t)
    else (ok tt, update p (bind_session session) t)
