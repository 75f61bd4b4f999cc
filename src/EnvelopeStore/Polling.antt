-- ===== src/EnvelopeStore/Polling.antt =====
-- Reading a thread by cursor.
use hermes_forge_public.Prelude.{
  String, ◌≡◌, ◌≢◌, ap, ◌∙◌, inl, inr, some, ◌∷◌, List, [], ◌++◌, ok, eq_refl, All, ==-false_of_ne,
}
use mathlib.Core.Option
use hermes_forge_public.Sql.{find, update}
use hermes_forge_public.Sql.Laws.{find-update_self}
use hermes_forge_public.Envelope.{Envelope, Message}
use hermes_forge_public.EnvelopeStore.{Table, Call, get, has_id}
use hermes_forge_public.EnvelopeStore.Claim.{Works}
use hermes_forge_public.EnvelopeStore.Outcomes.{append_message-cases}
use hermes_forge_public.EnvelopeStore.Thread.{after_id, get_thread, append_message, write_thread}

get_found :
    (c : Call) (id : String) (t : Table) {e : Envelope}
    → Works c
    → find (has_id id) t ≡ some e
    → get c id t ≡ ok e
unfolding get
get_found c id t w found = rw (w 0, found)

after_id-append :
    (m : Message) (before rest : List Message)
    → All (λ x. x.id ≢ m.id) before
    → after_id m.id (before ++ m ∷ rest) ≡ rest
unfolding after_id
after_id-append m [] rest h = rw (eq_refl m.id)
after_id-append m (x ∷ before) rest h =
    rw (==-false_of_ne x.id m.id h.0) (after_id-append m before rest h.1)

-- With a working driver, a reader that passes the id of the last message it saw gets exactly the
-- messages that stand after it, where no earlier message has that id.
pub get_thread_after :
    (c : Call) (id : String) (t : Table) (e : Envelope) (before : List Message) (m : Message)
    (rest : List Message)
    → Works c
    → find (has_id id) t ≡ some e
    → e.thread ≡ before ++ m ∷ rest
    → m.id ≢ ""
    → All (λ x. x.id ≢ m.id) before
    → get_thread c id m.id t ≡ ok rest
unfolding get_thread
get_thread_after c id t e before m rest w found shape named distinct =
    rw (get_found c id t w found, get_thread)
      (rw (==-false_of_ne m.id "" named)
        (rw shape (ap ok (after_id-append m before rest distinct))))

-- A message that AppendMessage stored is the last one that a full read of the thread returns, after
-- those that the read returned before.
pub get_thread-append_message :
    (c d : Call) (id : String) (msg : Message) (t : Table) {before : List Message}
    → Works d
    → get_thread d id "" t ≡ ok before
    → (append_message c id msg t).0 ≡ ok tt
    → get_thread d id "" (append_message c id msg t).1 ≡ ok (before ++ msg ∷ [])
unfolding get_thread
get_thread-append_message c d id msg t {before} w read h = elim (append_message-cases c id msg t) [
  | inl (x, r) ↦ let z = ap (λ o. o.0) r in cc
  | inr (row, found, r) ↦
      let after =
        find-update_self (has_id id) (write_thread (row.thread ++ msg ∷ [])) (λ x h. h) t in
      let z = rw (get_found d id t w found, get_thread) at read in
      rw r (
        rw
          (
            get_found d id (update (has_id id) (write_thread (row.thread ++ msg ∷ [])) t) w
                (after ∙ ap (Option.map (write_thread (row.thread ++ msg ∷ []))) found),
            get_thread,
          )
          (ap (λ l. ok (l ++ msg ∷ [])) (let y : row.thread ≡ before = cc in y)))
]
