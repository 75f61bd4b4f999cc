-- ===== src/SessionStore/History.antt =====
-- The session store as a machine: any sequence of its writing operations.
use mathlib.Core.Path.{subst⁻¹}
use hermes_forge_public.Prelude.{◌≡◌, refl, inl, inr, List, [], ◌∷◌, Bool-cases, Option-cases}
use hermes_forge_public.Sql.{select, find}
use hermes_forge_public.SessionStore
use hermes_forge_public.SessionStore.{Session, Message, Store, Call, exec, is_session, in_session}
use hermes_forge_public.SessionStore.Sequence.{
  IsIncreasing, IsSequenced, insert_message-IsSequenced,
}

pub data Op : Type 0 where
  insert : Session → Op
  insert_message : Message → Op

-- The store after one operation, whatever it returned.
abbrev pub step : Call → Op → Store → Store
step c (insert sess) s = (SessionStore.insert c sess s).1
step c (insert_message msg) s = (SessionStore.insert_message c msg s).1

abbrev pub run : List (Call × Op) → Store → Store
run [] s = s
run ((c, op) ∷ ops) s = run ops (step c op s)

abbrev pub empty : Store
empty = record { sessions = []; messages = [] }

messages-insert :
    (c : Call) (sess : Session) (s : Store) → (SessionStore.insert c sess s).1.messages ≡ s.messages
unfolding SessionStore.insert
messages-insert c sess s = elim (Bool-cases (c.fails exec)) [
  | inl e ↦ rw e refl
  | inr e ↦ elim (Option-cases (find (is_session sess.id) s.sessions)) [
    | inl f ↦ rw (e, f) refl
    | inr (other, f) ↦ rw (e, f) refl
  ]
]

run-IsSequenced_from :
    (ops : List (Call × Op)) (s : Store) → IsSequenced s → IsSequenced (run ops s)
run-IsSequenced_from [] s seq = seq
run-IsSequenced_from ((c, insert sess) ∷ ops) s seq =
    run-IsSequenced_from ops (step c (insert sess) s) (λ id.
      subst⁻¹ (λ l. IsIncreasing (select (in_session id) l)) (messages-insert c sess s) (seq id))
run-IsSequenced_from ((c, insert_message msg) ∷ ops) s seq =
    run-IsSequenced_from ops (step c (insert_message msg) s)
      (insert_message-IsSequenced c msg s seq)

-- After any sequence of session and message inserts into an empty store, with any driver failures,
-- the messages of every session are numbered upwards in the order in which they were stored.
pub run-IsSequenced : (ops : List (Call × Op)) → IsSequenced (run ops empty)
run-IsSequenced ops = run-IsSequenced_from ops empty (λ id. tt)
