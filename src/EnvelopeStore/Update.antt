-- ===== src/EnvelopeStore/Update.antt =====
-- UpdateStatus and AddHistory of hermes/internal/envelopestore/sqlite.go: a read, a check and one
-- UPDATE inside a transaction, which the deferred Rollback undoes on every error.
use hermes_forge_public.Prelude.{
  ℕ, String, Bool, true, Option, none, some, [], ◌∷◌, ◌++◌, ◌==◌, Result, ok, err, if◌then◌else◌,
}
use hermes_forge_public.Prelude.Texts.{concat}
use hermes_forge_public.Sql.{update}
use hermes_forge_public.Envelope.{
  Status, Delivery, Envelope, Proof, Error, driver, is_terminal, can_transition,
}
use hermes_forge_public.EnvelopeStore.{Table, Call, has_id, get_row}

-- `m[k] = v`
abbrev pub assign : String → String → Proof → Proof
assign k v [] = (k, v) ∷ []
assign k v ((j, w) ∷ m) = if j == k then (k, v) ∷ m else (j, w) ∷ assign k v m

-- The loop that merges the incoming proof, pair by pair.
unfoldable pub merge_proof : Proof → Proof → Proof
merge_proof m [] = m
merge_proof m ((k, v) ∷ new) = merge_proof (assign k v m) new

-- `[time] from → to: note`; the note is left out when empty.
unfoldable pub history_entry : Call → Status → Status → String → String
history_entry c from next note = concat (
    "["
    ∷ c.rfc3339 c.now
    ∷ "] "
    ∷ from
    ∷ " → "
    ∷ next
    ∷ (if note == "" then [] else ": " ∷ note ∷ []))

abbrev pub complete : Bool → ℕ → Option ℕ → Option ℕ
complete terminal now (some at) = some at
complete terminal now none = if terminal then some now else none

abbrev pub mark_read : ℕ → Delivery → Delivery
mark_read now d = if d.is_read then d else record d { is_read = true; read_at = some now }

unfoldable pub apply_transition_side_effects : Call → Envelope → Status → String → Envelope
apply_transition_side_effects c e next note = record e {
  status = next;
  metrics = record e.metrics {
    updated_at = some c.now;
    completed_at = complete (is_terminal next) c.now e.metrics.completed_at;
  };
  history =
      (if e.status == next
        then e.history
        else e.history ++ history_entry c e.status next note ∷ []);
  delivery = (if next == "read" then mark_read c.now e.delivery else e.delivery);
}

-- UPDATE envelopes SET status, proof, metrics, delivery, history
abbrev pub write_status : Envelope → Envelope → Envelope
write_status e row = record row {
  status = e.status;
  proof = e.proof;
  metrics = e.metrics;
  delivery = e.delivery;
  history = e.history;
}

-- The UPDATE and the commit, driver calls 2 and 3.
unfoldable pub commit_status : Call → String → Envelope → Table → Result Error Envelope × Table
commit_status c id e t =
    if c.fails 2
    then (err (driver 2), t)
    else if c.fails 3
    then (err (driver 3), t)
    else (ok e, update (has_id id) (write_status e) t)

unfoldable pub transition :
    Call → String → Status → Proof → String → Envelope → Table → Result Error Envelope × Table
transition c id next proof note row t =
    let e = record row { proof = merge_proof row.proof proof } in
    elim (can_transition e next) [
      | err x ↦ (err x, t)
      | ok _ ↦ commit_status c id (apply_transition_side_effects c e next note) t
    ]

unfoldable pub update_status :
    Call → String → Status → Proof → String → Table → Result Error Envelope × Table
update_status c id next proof note t =
    if c.fails 0 then (err (driver 0), t) else elim (get_row 1 c id t) [
      | err x ↦ (err x, t)
      | ok row ↦ transition c id next proof note row t
    ]

-- UPDATE envelopes SET history
abbrev pub write_history : Envelope → Envelope → Envelope
write_history e row = record row { history = e.history }

unfoldable pub commit_history : Call → String → Envelope → Table → Result Error Envelope × Table
commit_history c id e t =
    if c.fails 2
    then (err (driver 2), t)
    else if c.fails 3
    then (err (driver 3), t)
    else (ok e, update (has_id id) (write_history e) t)

unfoldable pub add_history : Call → String → String → Table → Result Error Envelope × Table
add_history c id entry t = if c.fails 0 then (err (driver 0), t) else elim (get_row 1 c id t) [
  | err x ↦ (err x, t)
  | ok row ↦ commit_history c id (record row { history = row.history ++ entry ∷ [] }) t
]
