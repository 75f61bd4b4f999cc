-- ===== src/EnvelopeStore/Thread.antt =====
-- AppendMessage and GetThread of hermes/internal/envelopestore/sqlite.go.
use hermes_forge_public.Prelude.{
  String, none, some, List, [], ◌∷◌, ◌++◌, ◌==◌, Result, ok, err, if◌then◌else◌,
}
use hermes_forge_public.Sql.{find, update}
use hermes_forge_public.Envelope.{Message, Envelope, Error, not_found, driver}
use hermes_forge_public.EnvelopeStore.{Table, Call, has_id, get}

-- UPDATE envelopes SET thread
abbrev pub write_thread : List Message → Envelope → Envelope
write_thread messages row = record row { thread = messages }

unfoldable pub append_message : Call → String → Message → Table → Result Error (Unit {0}) × Table
append_message c id msg t =
    if c.fails 0
    then (err (driver 0), t)
    else if c.fails 1
    then (err (driver 1), t)
    else elim (find (has_id id) t) [
      | none ↦ (err not_found, t)
      | some row ↦
          if c.fails 2
          then (err (driver 2), t)
          else if c.fails 3
          then (err (driver 3), t)
          else (ok tt, update (has_id id) (write_thread (row.thread ++ msg ∷ [])) t)
    ]

-- The loop of GetThread: what stands after the first message with the id, or nothing.
unfoldable pub after_id : String → List Message → List Message
after_id since [] = []
after_id since (m ∷ ms) = if m.id == since then ms else after_id since ms

unfoldable pub get_thread : Call → String → String → Table → Result Error (List Message)
get_thread c id since t = elim (get c id t) [
  | err x ↦ err x
  | ok e ↦ if since == "" then ok e.thread else ok (after_id since e.thread)
]
