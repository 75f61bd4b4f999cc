-- ===== src/EnvelopeStore/Evolution.antt =====
-- No sequence of operations forgets a row, or changes a terminal one.
use hermes_forge_public.Prelude.{
  ℕ, String, ◌≡◌, refl, inl, inr, true, false, List, [], ◌∷◌, ◌++◌, arith, Grows-refl, Bool-cases,
  ok, ◌==◌,
}
use hermes_forge_public.Envelope.{Status, Message, Envelope, Proof, is_terminal, can_transition}
use hermes_forge_public.Envelope.Status.{created-not-terminal, can_transition_iff}
use hermes_forge_public.EnvelopeStore.{
  is_in, is_deliverable, deliver_row, is_open, bind_session, Table, Call, insert, mark_delivered,
  set_executor_session_id,
}
use hermes_forge_public.EnvelopeStore.Outcomes.{
  with_proof, updated, noted, update_status-cases, add_history-cases, append_message-cases,
}
use hermes_forge_public.EnvelopeStore.Update.{
  history_entry, update_status, add_history, apply_transition_side_effects, write_status,
  write_history, complete,
}
use hermes_forge_public.EnvelopeStore.Thread.{append_message, write_thread}
use hermes_forge_public.EnvelopeStore.Keys.{HasUniqueIds, step-HasUniqueIds}
use hermes_forge_public.EnvelopeStore.History.{Op, step, run}
use hermes_forge_public.EnvelopeStore.Evolves.{
  Evolves, Extends, Extends-refl, Extends-trans, Extends-append, Extends-update, Extends-update_row,
}

insert-Extends : (c : Call) (e : Envelope) (t : Table) → Extends t (insert c e t).1
unfolding insert
insert-Extends c e t = ground (arith, Extends-refl t, Extends-append t (e ∷ []))

deliverable_open :
    (id : String) (x : Envelope) → is_deliverable id x ≡ true → is_terminal x.status ≡ true → ⊥
deliverable_open id x h e = ground (arith, created-not-terminal x.status)

pub open_not-terminal :
    (id : String) (x : Envelope) → is_open id x ≡ true → is_terminal x.status ≡ true → ⊥
unfolding is_terminal is_in
open_not-terminal id x h e = ground arith

deliver_row-Evolves :
    (id session : String) (at : ℕ) (x : Envelope)
    → is_deliverable id x ≡ true
    → Evolves x (deliver_row session at x)
deliver_row-Evolves id session at x h = record {
  fixed = refl;
  history = Grows-refl x.history;
  thread = Grows-refl x.thread;
  completed = λ at h. h;
  settled = λ e. absurd (deliverable_open id x h e);
}

mark_delivered-Extends :
    (c : Call) (id session : String) (at : ℕ) (t : Table)
    → Extends t (mark_delivered c id session at t).1
unfolding mark_delivered
mark_delivered-Extends c id session at t = ground (
  arith,
  Extends-refl t,
  Extends-update (is_deliverable id) (deliver_row session at) (deliver_row-Evolves id session at) t,
)

bind_session-Evolves :
    (id session : String) (x : Envelope) → is_open id x ≡ true → Evolves x (bind_session session x)
bind_session-Evolves id session x h = record {
  fixed = refl;
  history = Grows-refl x.history;
  thread = Grows-refl x.thread;
  completed = λ at h. h;
  settled = λ e. absurd (open_not-terminal id x h e);
}

set_executor_session_id-Extends :
    (c : Call) (id session : String) (t : Table)
    → Extends t (set_executor_session_id c id session t).1
unfolding set_executor_session_id
set_executor_session_id-Extends c id session t = ground (
  arith,
  Extends-refl t,
  Extends-update (is_open id) (bind_session session) (bind_session-Evolves id session) t,
)

write_status-Evolves :
    (c : Call) (row : Envelope) (next : Status) (proof : Proof) (note : String)
    → can_transition (with_proof row proof) next ≡ ok tt
    → Evolves row (write_status (updated c row next proof note) row)
unfolding apply_transition_side_effects
write_status-Evolves c row next proof note h = record {
  fixed = refl;
  history = elim (Bool-cases (row.status == next)) [
    | inl p ↦ rw p (Grows-refl row.history)
    | inr p ↦ rw p (history_entry c row.status next note ∷ [], refl)
  ];
  thread = Grows-refl row.thread;
  completed = λ at e. rw (e, complete) refl;
  settled = λ e.
      let (live, recognised, proven) = (can_transition_iff (with_proof row proof) next).0 h in
      absurd (let f : is_terminal row.status ≡ false = live in cc);
}

update_status-Extends :
    (c : Call) (id : String) (next : Status) (proof : Proof) (note : String) (t : Table)
    → HasUniqueIds t
    → Extends t (update_status c id next proof note t).1
update_status-Extends c id next proof note t u = elim (update_status-cases c id next proof note t) [
  | inl (x, r) ↦ rw r (Extends-refl t)
  | inr (row, found, permitted, r) ↦ rw r (
      Extends-update_row id (write_status (updated c row next proof note)) t u found
        (write_status-Evolves c row next proof note permitted))
]

add_history-Extends :
    (c : Call) (id entry : String) (t : Table)
    → HasUniqueIds t
    → Extends t (add_history c id entry t).1
add_history-Extends c id entry t u = elim (add_history-cases c id entry t) [
  | inl (x, r) ↦ rw r (Extends-refl t)
  | inr (row, found, r) ↦ rw r (
      Extends-update_row id (write_history (noted row entry)) t u found (record {
        fixed = refl;
        history = (entry ∷ [], refl);
        thread = Grows-refl row.thread;
        completed = λ at e. e;
        settled = λ e. refl;
      }))
]

append_message-Extends :
    (c : Call) (id : String) (msg : Message) (t : Table)
    → HasUniqueIds t
    → Extends t (append_message c id msg t).1
append_message-Extends c id msg t u = elim (append_message-cases c id msg t) [
  | inl (x, r) ↦ rw r (Extends-refl t)
  | inr (row, found, r) ↦ rw r (
      Extends-update_row id (write_thread (row.thread ++ msg ∷ [])) t u found (record {
        fixed = refl;
        history = Grows-refl row.history;
        thread = (msg ∷ [], refl);
        completed = λ at e. e;
        settled = λ e. refl;
      }))
]

pub step-Extends : (c : Call) (op : Op) (t : Table) → HasUniqueIds t → Extends t (step c op t)
step-Extends c (Op.insert e) t u = insert-Extends c e t
step-Extends c (Op.mark_delivered id session at) t u = mark_delivered-Extends c id session at t
step-Extends c (Op.set_executor_session_id id session) t u =
    set_executor_session_id-Extends c id session t
step-Extends c (Op.update_status id next proof note) t u =
    update_status-Extends c id next proof note t u
step-Extends c (Op.add_history id entry) t u = add_history-Extends c id entry t u
step-Extends c (Op.append_message id msg) t u = append_message-Extends c id msg t u

-- Whatever operations run, with whatever driver failures, on a table with unique ids, every row is
-- still there at its place, and there it has evolved: only its status, delivery, session binding,
-- executor session, thread, metrics, history and proof may differ, its history and thread begin
-- with the old ones, a completion time that was set is the same, and if the row was terminal then
-- nothing but history and thread differs.
pub run-Extends : (ops : List (Call × Op)) (t : Table) → HasUniqueIds t → Extends t (run ops t)
run-Extends [] t u = Extends-refl t
run-Extends ((c, op) ∷ ops) t u =
    Extends-trans t (step c op t) (run ops (step c op t)) (step-Extends c op t u)
      (run-Extends ops (step c op t) (step-HasUniqueIds c op t u))
