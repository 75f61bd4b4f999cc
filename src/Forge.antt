-- ===== src/Forge.antt =====
-- forge/internal/sessionstore/sqlite.go, the session register, and the registry of running processes
-- of forge/internal/httpapi/registry.go. A process is its PID.
pub mod Deliver
pub mod Replay
pub mod Rows
pub mod Reuse
pub mod Acked
pub mod Register
pub mod Others
pub mod Repeated
pub mod Later
pub mod Resume
pub mod Orphan
pub mod Runner
pub mod Command
pub mod Report
pub mod Notify
pub mod Links
pub mod Io
mod Tests
use hermes_forge_public.Prelude.{
  ℕ, zero, suc, ◌%◌, String, Bool, true, false, not, ◌&&◌, ◌||◌, Option, none, some, List, [], ◌∷◌,
  ◌++◌, ◌==◌, eqb, ltb, leb, Result, ok, err, if◌then◌else◌,
}
use hermes_forge_public.Sql.{select, first, find, update, affected, order_by}

pub record Session : Type 0 where
  pub session_id : String
  pub envelope_id : String
  pub executor : String
  pub working_dir : String
  pub state : String
  pub started_at : ℕ
  pub last_seen_at : ℕ

pub data Point : Type 0 where
  query exec rows_affected : Point

pub data Error : Type 0 where
  not_found duplicate : Error
  driver : Point → Error

-- `fails p` says that the driver call p of a request returns an error; `now` is the clock.
pub record Call : Type 0 where
  pub fails : Point → Bool
  pub now : ℕ

abbrev pub has_session_id : String → Session → Bool
has_session_id id s = s.session_id == id

unfoldable pub insert : Call → Session → List Session → Result Error (Unit {0}) × List Session
insert c s rows =
    if c.fails exec
    then (err (driver exec), rows)
    else elim (find (has_session_id s.session_id) rows) [
      | some _ ↦ (err duplicate, rows)
      | none ↦ (ok tt, rows ++ s ∷ [])
    ]

-- `scanRow`: no row is ErrNotFound.
abbrev pub scan_row : Option Session → Result Error Session
scan_row none = err not_found
scan_row (some s) = ok s

unfoldable pub get : Call → String → List Session → Result Error Session
get c id rows =
    if c.fails query then err (driver query) else scan_row (find (has_session_id id) rows)

-- ORDER BY started_at DESC; rows that started at one instant keep their order.
abbrev pub later_started : Session → Session → Bool
later_started a b = leb b.started_at a.started_at

abbrev pub has_envelope : String → Session → Bool
has_envelope id s = s.envelope_id == id

unfoldable pub get_by_envelope : Call → String → List Session → Result Error Session
get_by_envelope c id rows =
    if c.fails query
    then err (driver query)
    else scan_row (first (order_by later_started (select (has_envelope id) rows)))

unfoldable pub list : Call → List Session → Result Error (List Session)
list c rows = if c.fails query then err (driver query) else ok (order_by later_started rows)

-- The UPDATE would give one session id to two rows.
abbrev pub clashes : String → String → List Session → Bool
clashes id new rows =
    ltb 1 (affected (has_envelope id) rows)
    || not (eqb (affected (λ s. has_session_id new s && not (has_envelope id s)) rows) 0)
      && not (eqb (affected (has_envelope id) rows) 0)

abbrev pub rename : String → ℕ → Session → Session
rename new now s = record s { session_id = new; last_seen_at = now }

-- The UPDATE has taken effect when `RowsAffected` is asked.
unfoldable pub update_session_id :
    Call → String → String → List Session → Result Error (Unit {0}) × List Session
update_session_id c id new rows =
    if c.fails exec
    then (err (driver exec), rows)
    else if clashes id new rows
    then (err duplicate, rows)
    else if c.fails rows_affected
    then (err (driver rows_affected), update (has_envelope id) (rename new c.now) rows)
    else if eqb (affected (has_envelope id) rows) 0
    then (err not_found, update (has_envelope id) (rename new c.now) rows)
    else (ok tt, update (has_envelope id) (rename new c.now) rows)

-- `processes[id] = proc`, and the lookup
unfoldable pub put : {A : Type 0} → String → A → List (String × A) → List (String × A)
put id x [] = (id, x) ∷ []
put id x ((k, y) ∷ m) = if k == id then (id, x) ∷ m else (k, y) ∷ put id x m

unfoldable pub lookup : {A : Type 0} → String → List (String × A) → Option A
lookup id [] = none
lookup id ((k, y) ∷ m) = if k == id then some y else lookup id m

-- The goroutine of `Register` after the process has ended: only its own entry goes.
unfoldable pub unregister : String → ℕ → List (String × ℕ) → List (String × ℕ)
unregister id pid [] = []
unregister id pid ((k, p) ∷ m) =
    let rest = unregister id pid m in if k == id && eqb p pid then rest else (k, p) ∷ rest

-- `Running`: registered, and alive.
unfoldable pub running : (ℕ → Bool) → String → List (String × ℕ) → Bool
running alive id processes = elim (lookup id processes) [ some pid ↦ alive pid | none ↦ false ]
