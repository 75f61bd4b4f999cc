-- ===== src/EnvelopeStore/Outcomes.antt =====
-- The outcomes of the operations that run in a transaction: an error and the old table, or the
-- whole update.
use hermes_forge_public.Prelude.{
  String, ◌≡◌, inl, inr, ◌⊎◌, some, ◌∷◌, [], ◌++◌, Bool-cases, Option-cases, Result-cases, ok, err,
  Result,
}
use hermes_forge_public.Sql.{update, find}
use hermes_forge_public.Envelope.{
  Status, Message, Envelope, Error, Proof, not_found, driver, can_transition,
}
use hermes_forge_public.EnvelopeStore.{Table, Call, has_id}
use hermes_forge_public.EnvelopeStore.Update.{
  merge_proof, apply_transition_side_effects, write_status, write_history, commit_status,
  transition, update_status, commit_history, add_history,
}
use hermes_forge_public.EnvelopeStore.Thread.{append_message, write_thread}

-- The row with the incoming proof merged in, before validation.
abbrev pub with_proof : Envelope → Proof → Envelope
with_proof row proof = record row { proof = merge_proof row.proof proof }

-- What a successful UpdateStatus returns.
abbrev pub updated : Call → Envelope → Status → Proof → String → Envelope
updated c row next proof note = apply_transition_side_effects c (with_proof row proof) next note

-- A step that fails at an injected fault leaves the table.
abbrev pub Refused : {A : Type 0} → Table → Result Error A × Table → Type 0
Refused t out = (x : Error) × (out ≡ (err x, t))

commit_status-cases :
    (c : Call) (id : String) (e : Envelope) (t : Table)
    → Refused t (commit_status c id e t)
      ⊎ (commit_status c id e t ≡ (ok e, update (has_id id) (write_status e) t))
unfolding commit_status
commit_status-cases c id e t = elim (Bool-cases (c.fails 2)) [
  | inl p ↦ inl (driver 2, rw p)
  | inr p ↦ elim (Bool-cases (c.fails 3)) [
    | inl q ↦ inl (driver 3, rw (p, q))
    | inr q ↦ inr (rw (p, q))
  ]
]

commit_history-cases :
    (c : Call) (id : String) (e : Envelope) (t : Table)
    → Refused t (commit_history c id e t)
      ⊎ (commit_history c id e t ≡ (ok e, update (has_id id) (write_history e) t))
unfolding commit_history
commit_history-cases c id e t = elim (Bool-cases (c.fails 2)) [
  | inl p ↦ inl (driver 2, rw p)
  | inr p ↦ elim (Bool-cases (c.fails 3)) [
    | inl q ↦ inl (driver 3, rw (p, q))
    | inr q ↦ inr (rw (p, q))
  ]
]

transition-cases :
    (c : Call) (id : String) (next : Status) (proof : Proof) (note : String) (row : Envelope)
    (t : Table)
    → Refused t (transition c id next proof note row t)
      ⊎ ((can_transition (with_proof row proof) next ≡ ok tt)
          × (transition c id next proof note row t ≡ (
            ok (updated c row next proof note),
            update (has_id id) (write_status (updated c row next proof note)) t,
          )))
unfolding transition
transition-cases c id next proof note row t =
    elim (Result-cases (can_transition (with_proof row proof) next)) [
      | inr (x, e) ↦ inl (x, rw (e, transition))
      | inl (u, e) ↦ elim (commit_status-cases c id (updated c row next proof note) t) [
        | inl (x, r) ↦ inl (x, rw (e, transition) r)
        | inr r ↦ inr (e, rw (e, transition) r)
      ]
    ]

-- UpdateStatus returns an error and changes nothing, or it found the row, the transition is
-- permitted, and it returns and stores the updated envelope.
pub update_status-cases :
    (c : Call) (id : String) (next : Status) (proof : Proof) (note : String) (t : Table)
    → Refused t (update_status c id next proof note t)
      ⊎ ((row : Envelope) × (find (has_id id) t ≡ some row)
          × (can_transition (with_proof row proof) next ≡ ok tt)
          × (update_status c id next proof note t ≡ (
            ok (updated c row next proof note),
            update (has_id id) (write_status (updated c row next proof note)) t,
          )))
unfolding update_status
update_status-cases c id next proof note t = elim (Bool-cases (c.fails 0)) [
  | inl p ↦ inl (driver 0, rw p)
  | inr p ↦ elim (Bool-cases (c.fails 1)) [
    | inl q ↦ inl (driver 1, rw (p, q))
    | inr q ↦ elim (Option-cases (find (has_id id) t)) [
      | inl e ↦ inl (not_found, rw (p, q, e))
      | inr (row, e) ↦ elim (transition-cases c id next proof note row t) [
        | inl (x, r) ↦ inl (x, rw (p, q, e) r)
        | inr r ↦ inr (row, e, r.0, rw (p, q, e) r.1)
      ]
    ]
  ]
]

-- A row with one more history entry.
abbrev pub noted : Envelope → String → Envelope
noted row entry = record row { history = row.history ++ entry ∷ [] }

pub add_history-cases :
    (c : Call) (id entry : String) (t : Table)
    → Refused t (add_history c id entry t)
      ⊎ ((row : Envelope) × (find (has_id id) t ≡ some row)
          × (add_history c id entry t
              ≡ (ok (noted row entry), update (has_id id) (write_history (noted row entry)) t)))
unfolding add_history
add_history-cases c id entry t = elim (Bool-cases (c.fails 0)) [
  | inl p ↦ inl (driver 0, rw p)
  | inr p ↦ elim (Bool-cases (c.fails 1)) [
    | inl q ↦ inl (driver 1, rw (p, q))
    | inr q ↦ elim (Option-cases (find (has_id id) t)) [
      | inl e ↦ inl (not_found, rw (p, q, e))
      | inr (row, e) ↦ elim (commit_history-cases c id (noted row entry) t) [
        | inl (x, r) ↦ inl (x, rw (p, q, e) r)
        | inr r ↦ inr (row, e, rw (p, q, e) r)
      ]
    ]
  ]
]

pub append_message-cases :
    (c : Call) (id : String) (msg : Message) (t : Table)
    → Refused t (append_message c id msg t)
      ⊎ ((row : Envelope) × (find (has_id id) t ≡ some row)
          × (append_message c id msg t
              ≡ (ok tt, update (has_id id) (write_thread (row.thread ++ msg ∷ [])) t)))
unfolding append_message
append_message-cases c id msg t = elim (Bool-cases (c.fails 0)) [
  | inl p ↦ inl (driver 0, rw p)
  | inr p ↦ elim (Bool-cases (c.fails 1)) [
    | inl q ↦ inl (driver 1, rw (p, q))
    | inr q ↦ elim (Option-cases (find (has_id id) t)) [
      | inl e ↦ inl (not_found, rw (p, q, e))
      | inr (row, e) ↦ elim (Bool-cases (c.fails 2)) [
        | inl u ↦ inl (driver 2, rw (p, q, e, u))
        | inr u ↦ elim (Bool-cases (c.fails 3)) [
          | inl v ↦ inl (driver 3, rw (p, q, e, u, v))
          | inr v ↦ inr (row, e, rw (p, q, e, u, v))
        ]
      ]
    ]
  ]
]
