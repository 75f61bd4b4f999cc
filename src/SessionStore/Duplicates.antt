-- ===== src/SessionStore/Duplicates.antt =====
-- What an InsertMessage does with an id that is taken.
use hermes_forge_public.Prelude.{
  ℕ, zero, suc, ◌≡◌, refl, inl, inr, false, some, List, [], ◌∷◌, arith, ◌==◌, Bool-cases, ok, err,
}
use hermes_forge_public.Sql.{find}
use hermes_forge_public.SessionStore
use hermes_forge_public.SessionStore.{
  Session, Message, Store, Call, Error, max_retries, begin, next_order, insert_row, violates,
  insert_with_retry, insert_message, max_attempts,
}
use hermes_forge_public.SessionStore.Sequence.{numbered}
use hermes_forge_public.SessionStore.Rounds.{Works}

taken-violates :
    (m : Message) (rows : List Message) {row : Message}
    → find (λ x. x.id == m.id) rows ≡ some row
    → (other : Message) × (find (violates m) rows ≡ some other)
taken-violates m [] h = cc
taken-violates m (x ∷ rows) h = elim (Bool-cases (violates m x)) [
  | inl e ↦ (x, rw e)
  | inr e ↦
      let differs : (x.id == m.id) ≡ false = ground arith in
      let (other, f) = taken-violates m rows (rw differs at h) in (other, rw e f)
]

retry_taken :
    (c : Call) (n i : ℕ) (msg : Message) (s : Store) {row : Message}
    → Works c
    → find (λ x. x.id == msg.id) s.messages ≡ some row
    → insert_with_retry c n i msg s ≡ (err max_retries, s)
unfolding insert_with_retry
retry_taken c zero i msg s w h = refl
retry_taken c (suc n) i msg s w h =
    let (other, f) = taken-violates (numbered msg s) s.messages h in
    rw (w (begin i), w (next_order i), w (insert_row i), f) (retry_taken c n (suc i) msg s w h)

-- An InsertMessage for a message whose id is taken, in a session that is there and with a working
-- driver, makes all its attempts in vain: it reports that the retries are exceeded, not a duplicate,
-- and stores nothing.
pub insert_message_taken :
    (c : Call) (msg : Message) (s : Store) (sess : Session) (row : Message)
    → Works c
    → SessionStore.get c msg.session_id s ≡ ok sess
    → find (λ x. x.id == msg.id) s.messages ≡ some row
    → insert_message c msg s ≡ (err max_retries, s)
unfolding insert_message
insert_message_taken c msg s sess row w e h =
    rw (e, insert_message) (retry_taken c max_attempts 0 msg s w h)
