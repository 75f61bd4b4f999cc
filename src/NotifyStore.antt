-- ===== src/NotifyStore.antt =====
-- hermes/internal/notifystore/store.go: the queue of notifications in SQLite. A row's id is the
-- positive number that AUTOINCREMENT chose, so a requested id below zero is like any unknown one.
-- `created_at`, text with a resolution of a second, is that second.
pub mod Bulk
pub mod Chunks
pub mod States
pub mod Classify
pub mod Marking
pub mod Counting
pub mod Effect
pub mod Transaction
pub mod Acks
pub mod Queries
pub mod Summary
pub mod Machine
mod Tests
use hermes_forge_public.Prelude.{
  ℕ, zero, suc, ◌+◌, ◌-◌, ◌*◌, String, Bool, true, false, not, ◌&&◌, Option, none, some, List, [],
  ◌∷◌, ◌++◌, ◌==◌, eqb, ltb, leb, Result, ok, err, if◌then◌else◌,
}
use hermes_forge_public.Prelude.Int.{ℤ, pos, negsuc}
use hermes_forge_public.Sql.{select, update, affected, order_by}

pub record Notification : Type 0 where
  pub id : ℕ
  pub envelope_id : String
  pub status : String
  pub note : String
  pub proof_summary : String
  pub created_at : ℕ
  pub acknowledged : Bool
  pub api_key : String

-- The table, with the largest id that AUTOINCREMENT has ever given out.
pub record Queue : Type 0 where
  pub rows : List Notification
  pub sequence : ℕ

-- The driver calls of an operation; those of a bulk acknowledgement carry the number of the chunk.
pub data Point : Type 0 where
  query scan exec rows_affected begin commit : Point
  chunk_query chunk_scan chunk_exec chunk_rows_affected : ℕ → Point

pub data Error : Type 0 where
  not_found negative_days : Error
  driver : Point → Error

-- `fails p` says that the driver call p of the operation returns an error; `now` is the clock.
pub record Call : Type 0 where
  pub fails : Point → Bool
  pub now : ℕ

-- `Insert`, with the id that it writes back; columns not named have their default.
unfoldable pub insert : Call → Notification → Queue → Result Error ℕ × Queue
insert c n q = if c.fails exec then (err (driver exec), q) else (
  ok (suc q.sequence),
  record {
    rows =
        q.rows ++ record n { id = suc q.sequence; created_at = c.now; acknowledged = false } ∷ [];
    sequence = suc q.sequence;
  },
)

-- ORDER BY created_at ASC
abbrev pub earlier : Notification → Notification → Bool
earlier a b = leb a.created_at b.created_at

-- `listUnacknowledged`
abbrev pub list_where : Call → (Notification → Bool) → Queue → Result Error (List Notification)
list_where c p q =
    if c.fails query
    then err (driver query)
    else if c.fails scan
    then err (driver scan)
    else ok (order_by earlier (select p q.rows))

-- WHERE acknowledged = 0
abbrev pub is_pending : Notification → Bool
is_pending n = not n.acknowledged

unfoldable pub list_unacknowledged : Call → Queue → Result Error (List Notification)
list_unacknowledged c q = list_where c is_pending q

-- WHERE acknowledged = 0 AND api_key = ?
abbrev pub is_pending_for : String → Notification → Bool
is_pending_for key n = is_pending n && n.api_key == key

unfoldable pub list_unacknowledged_for_key :
    Call → String → Queue → Result Error (List Notification)
list_unacknowledged_for_key c key q = list_where c (is_pending_for key) q

-- SET acknowledged = 1
abbrev pub mark : Notification → Notification
mark n = record n { acknowledged = true }

abbrev pub mark_rows : (Notification → Bool) → Queue → Queue
mark_rows p q = record q { rows = update p mark q.rows }

-- The UPDATE has taken effect when `RowsAffected` is asked.
abbrev pub acknowledge_where :
    Call → (Notification → Bool) → Queue → Result Error (Unit {0}) × Queue
acknowledge_where c p q =
    if c.fails exec
    then (err (driver exec), q)
    else if c.fails rows_affected
    then (err (driver rows_affected), mark_rows p q)
    else if eqb (affected p q.rows) 0
    then (err not_found, mark_rows p q)
    else (ok tt, mark_rows p q)

-- WHERE id = ? AND acknowledged = 0
abbrev pub is_id : ℕ → Notification → Bool
is_id id n = eqb n.id id && is_pending n

unfoldable pub acknowledge : Call → ℕ → Queue → Result Error (Unit {0}) × Queue
acknowledge c id q = acknowledge_where c (is_id id) q

-- WHERE id = ? AND api_key = ? AND acknowledged = 0
abbrev pub is_id_for : ℕ → String → Notification → Bool
is_id_for id key n = eqb n.id id && n.api_key == key && is_pending n

unfoldable pub acknowledge_for_key : Call → ℕ → String → Queue → Result Error (Unit {0}) × Queue
acknowledge_for_key c id key q = acknowledge_where c (is_id_for id key) q

-- WHERE envelope_id = ? AND status = ? AND created_at > datetime('now', '-n minutes'), where n is
-- not negative
abbrev pub is_recent : ℕ → String → String → ℕ → Notification → Bool
is_recent now id status minutes n =
    n.envelope_id == id && n.status == status && ltb now (n.created_at + 60 * minutes)

unfoldable pub count_recent_by_status : Call → String → String → ℕ → Queue → Result Error ℕ
count_recent_by_status c id status minutes q =
    if c.fails query
    then err (driver query)
    else ok (affected (is_recent c.now id status minutes) q.rows)

-- WHERE acknowledged = 1 AND created_at < datetime('now', '-n days')
abbrev pub is_old : ℕ → ℕ → Notification → Bool
is_old now days n = n.acknowledged && ltb (n.created_at + 86400 * days) now

-- The error of `RowsAffected` is ignored here.
unfoldable pub purge_old : Call → ℤ → Queue → Result Error ℕ × Queue
purge_old c (negsuc n) q = (err negative_days, q)
purge_old c (pos days) q = if c.fails exec then (err (driver exec), q) else (
  ok (if c.fails rows_affected then 0 else affected (is_old c.now days) q.rows),
  record q { rows = select (λ n. not (is_old c.now days n)) q.rows },
)
