-- ===== src/EnvelopeStore/Proven.antt =====
-- No envelope is done without its required proof, unless it was inserted so.
use mathlib.Core.Path.{subst, subst⁻¹}
use hermes_forge_public.Prelude.{
  false, Bool-cases, Option-cases, Result-cases, ℕ, String, ◌≡◌, refl, inl, inr, true, none, some,
  ◌∷◌, List, [], ◌++◌, arith, ok, eq_iff, All, All-append,
}
use hermes_forge_public.Sql.{update, find}
use hermes_forge_public.Sql.Laws.{update-none, All-update}
use hermes_forge_public.Envelope.{
  known, Status, Envelope, Proof, can_transition, validate, missing_key,
}
use hermes_forge_public.Envelope.Proof.{IsProven, missing_key_of_keys}
use hermes_forge_public.Envelope.Status.{can_transition_iff}
use hermes_forge_public.EnvelopeStore.{
  Table, Call, has_id, is_deliverable, deliver_row, is_open, bind_session, insert, mark_delivered,
  set_executor_session_id,
}
use hermes_forge_public.EnvelopeStore.Update.{
  write_status, write_history, apply_transition_side_effects,
}
use hermes_forge_public.EnvelopeStore.Thread.{write_thread}
use hermes_forge_public.EnvelopeStore.Outcomes.{
  with_proof, updated, noted, update_status-cases, add_history-cases, append_message-cases,
}
use hermes_forge_public.EnvelopeStore.History.{Op, step, run}
use hermes_forge_public.EnvelopeStore.Keys.{HasUniqueIds, step-HasUniqueIds}

abbrev pub DoneIsProven : Envelope → Type 0
DoneIsProven e = e.status ≡ "done" → IsProven e.proof_required e.proof

-- An operation inserts no envelope that is done without its proof.
abbrev pub InsertsProven : Op → Type 0
InsertsProven (Op.insert e) = DoneIsProven e
InsertsProven _ = Unit

-- An update by key of a table with unique ids changes the one row that was read.
All-update_row :
    (P : Envelope → Type 0) (id : String) (f : Envelope → Envelope) (t : Table) {row : Envelope}
    → HasUniqueIds t
    → find (has_id id) t ≡ some row
    → (P row → P (f row))
    → All P t
    → All P (update (has_id id) f t)
All-update_row P id f [] u e keep h = tt
All-update_row P id f (x ∷ t) {row} u e keep h = elim (Bool-cases (has_id id x)) [
  | inl p ↦
      let same : some x ≡ some row = rw p at e in
      let gone : find (has_id id) t ≡ none =
        subst (λ k. find (has_id k) t ≡ none) ((eq_iff x.id id).0 p) u.0 in
      rw p (
        subst (λ r. P r → P (f r)) {x = row} {y = x} (cc) keep h.0,
        rw (update-none (has_id id) f t gone) h.1,
      )
  | inr p ↦ rw p (h.0, All-update_row P id f t u.1 (rw p at e) keep h.1)
]

insert-proven :
    (c : Call) (e : Envelope) (t : Table)
    → DoneIsProven e
    → All DoneIsProven t
    → All DoneIsProven (insert c e t).1
unfolding insert
insert-proven c e t new h = ground (arith, All-append DoneIsProven t (e ∷ []) h (new, tt))

deliver_row-proven :
    (id session : String) (at : ℕ) (x : Envelope)
    → is_deliverable id x ≡ true
    → DoneIsProven x
    → DoneIsProven (deliver_row session at x)
deliver_row-proven id session at x h p d = absurd (ground (arith, d, eq_iff "delivered" "done"))

write_status-proven :
    (c : Call) (row : Envelope) (next : Status) (proof : Proof) (note : String)
    → can_transition (with_proof row proof) next ≡ ok tt
    → DoneIsProven (write_status (updated c row next proof note) row)
unfolding apply_transition_side_effects
write_status-proven c row next proof note h d =
    let (live, recognised, proven) = (can_transition_iff (with_proof row proof) next).0 h in
    proven d

pub step-proven :
    (c : Call) (op : Op) (t : Table)
    → InsertsProven op
    → HasUniqueIds t
    → All DoneIsProven t
    → All DoneIsProven (step c op t)
unfolding mark_delivered set_executor_session_id
step-proven c (Op.insert e) t new u h = insert-proven c e t new h
step-proven c (Op.mark_delivered id session at) t new u h = ground (
  arith,
  All-update DoneIsProven (is_deliverable id) (deliver_row session at)
      (deliver_row-proven id session at) t h,
)
step-proven c (Op.set_executor_session_id id session) t new u h =
    ground (arith, All-update DoneIsProven (is_open id) (bind_session session) (λ x _ p. p) t h)
step-proven c (Op.update_status id next proof note) t new u h =
    elim (update_status-cases c id next proof note t) [
      | inl (x, r) ↦ subst⁻¹ (λ o. All DoneIsProven o.1) r h
      | inr (row, found, permitted, r) ↦
          subst⁻¹ (λ o. All DoneIsProven o.1) r
            (All-update_row DoneIsProven id (write_status (updated c row next proof note)) t u found
              (λ _. write_status-proven c row next proof note permitted) h)
    ]
step-proven c (Op.add_history id entry) t new u h = elim (add_history-cases c id entry t) [
  | inl (x, r) ↦ subst⁻¹ (λ o. All DoneIsProven o.1) r h
  | inr (row, found, r) ↦
      subst⁻¹ (λ o. All DoneIsProven o.1) r
        (All-update DoneIsProven (has_id id) (write_history (noted row entry)) (λ x _ p. p) t h)
]
step-proven c (Op.append_message id msg) t new u h = elim (append_message-cases c id msg t) [
  | inl (x, r) ↦ subst⁻¹ (λ o. All DoneIsProven o.1) r h
  | inr (row, found, r) ↦
      subst⁻¹ (λ o. All DoneIsProven o.1) r
        (All-update DoneIsProven (has_id id) (write_thread (row.thread ++ msg ∷ [])) (λ x _ p. p) t
          h)
]

-- If no operation inserts an envelope that is done without its proof, then from a table with
-- unique ids where every done row has its proof, no sequence of operations, failing or not, leads
-- to a done row without it.
pub run-proven :
    (ops : List (Call × Op)) (t : Table)
    → All (λ o. InsertsProven o.1) ops
    → HasUniqueIds t
    → All DoneIsProven t
    → All DoneIsProven (run ops t)
run-proven [] t new u h = h
run-proven ((c, op) ∷ ops) t new u h =
    run-proven ops (step c op t) new.1 (step-HasUniqueIds c op t u) (step-proven c op t new.0 u h)

All-last : (P : Envelope → Type 0) (t : Table) (e : Envelope) → All P (t ++ e ∷ []) → P e
All-last P [] e h = h.0
All-last P (x ∷ t) e h = All-last P t e h.1

-- Done already, and without any proof.
abbrev pub claimed_done : Envelope → Envelope
claimed_done e = record e { status = "done"; proof = [] }

validate-claimed_done : (e : Envelope) → validate e ≡ ok tt → validate (claimed_done e) ≡ ok tt
unfolding validate known
validate-claimed_done e h = ground arith

insert-accepts :
    (c : Call) (e : Envelope) (t : Table)
    → (insert c e t).0 ≡ ok tt
    → (validate e ≡ ok tt) × (c.fails 0 ≡ false) × (find (has_id e.id) t ≡ none)
unfolding insert
insert-accepts c e t h = elim (Result-cases (validate e)) [
  | inr (x, v) ↦ let z = rw (v, insert) at h in cc
  | inl (u, v) ↦ elim (Bool-cases (c.fails 0)) [
    | inl w ↦ let z = rw (v, insert) at h in let z2 = rw w at z in cc
    | inr w ↦ elim (Option-cases (find (has_id e.id) t)) [
      | inr (x, f) ↦ let z = rw (v, insert) at h in let z2 = rw (w, f) at z in cc
      | inl f ↦ (v, w, f)
    ]
  ]
]

-- Where Insert accepts an envelope, in whatever status, that requires a proof, it also accepts the same
-- envelope as done already and with no proof at all, and the table then has a done row without its
-- proof.
pub insert_unproven :
    (c : Call) (e : Envelope) (t : Table)
    → (insert c e t).0 ≡ ok tt
    → missing_key e.proof_required [] ≡ true
    → (insert c (claimed_done e) t ≡ (ok tt, t ++ claimed_done e ∷ []))
      × ¬ (All DoneIsProven (t ++ claimed_done e ∷ []))
unfolding insert
insert_unproven c e t accepted missing =
    let (v, w, fresh) = insert-accepts c e t accepted in
    let valid = validate-claimed_done e v in
    (
      rw (valid, insert) (rw (w, fresh) refl),
      λ h.
          let p = All-last DoneIsProven t (claimed_done e) h refl in
          let z = missing_key_of_keys e.proof_required [] p.0 in cc,
    )
