-- ===== src/EnvelopeStore/Keys.antt =====
-- The primary key: one row to an id, kept by every operation.
use mathlib.Core.Path.{subst⁻¹}
use hermes_forge_public.Prelude.{
  String, ◌≡◌, refl, inl, inr, Bool, false, none, List, [], ◌∷◌, ◌++◌, arith, Bool-cases, eq_iff,
}
use hermes_forge_public.Sql.{update, find}
use hermes_forge_public.Sql.Laws.{find_cons_none}
use hermes_forge_public.Envelope.{Envelope}
use hermes_forge_public.EnvelopeStore.{
  Table, Call, has_id, is_deliverable, deliver_row, is_open, bind_session, insert, mark_delivered,
  set_executor_session_id,
}
use hermes_forge_public.EnvelopeStore.Outcomes.{
  updated, noted, update_status-cases, add_history-cases, append_message-cases,
}
use hermes_forge_public.EnvelopeStore.Update.{write_status, write_history}
use hermes_forge_public.EnvelopeStore.Thread.{write_thread}
use hermes_forge_public.EnvelopeStore.History.{Op, step, run}

abbrev pub HasUniqueIds : Table → Type 0
HasUniqueIds [] = Unit
HasUniqueIds (x ∷ t) = (find (has_id x.id) t ≡ none) × HasUniqueIds t

-- Two tests on the same id agree.
has_id-swap : (a b : Envelope) → has_id a.id b ≡ false → has_id b.id a ≡ false
has_id-swap a b h = ground (arith, eq_iff a.id b.id, eq_iff b.id a.id)

find-append_none :
    (k : String) (t : Table) (e : Envelope)
    → find (has_id k) t ≡ none
    → has_id k e ≡ false
    → find (has_id k) (t ++ e ∷ []) ≡ none
find-append_none k [] e h n = rw n
find-append_none k (x ∷ t) e h n = elim (Bool-cases (has_id k x)) [
  | inl p ↦ ground arith
  | inr p ↦ rw p (find-append_none k t e (rw p at h) n)
]

HasUniqueIds-append :
    (t : Table) (e : Envelope)
    → find (has_id e.id) t ≡ none
    → HasUniqueIds t
    → HasUniqueIds (t ++ e ∷ [])
HasUniqueIds-append [] e h u = (refl, tt)
HasUniqueIds-append (x ∷ t) e h u =
    let (n, r) = find_cons_none (has_id e.id) x t h in
    (find-append_none x.id t e u.0 (has_id-swap e x n), HasUniqueIds-append t e r u.1)

module _ (p : Envelope → Bool) (f : Envelope → Envelope)
    (keep : (x : Envelope) → (f x).id ≡ x.id) where
  find-update-none :
      (k : String) (t : Table) → find (has_id k) t ≡ none → find (has_id k) (update p f t) ≡ none
  find-update-none k [] h = refl
  find-update-none k (x ∷ t) h =
      let (n, r) = find_cons_none (has_id k) x t h in
      elim (Bool-cases (p x)) [
        | inl e ↦ rw e (rw (keep x) (rw n (find-update-none k t r)))
        | inr e ↦ rw e (rw n (find-update-none k t r))
      ]

  pub HasUniqueIds-update : (t : Table) → HasUniqueIds t → HasUniqueIds (update p f t)
  HasUniqueIds-update [] u = tt
  HasUniqueIds-update (x ∷ t) u = elim (Bool-cases (p x)) [
    | inl e ↦ rw e (rw (keep x) (find-update-none x.id t u.0), HasUniqueIds-update t u.1)
    | inr e ↦ rw e (find-update-none x.id t u.0, HasUniqueIds-update t u.1)
  ]

pub insert-HasUniqueIds :
    (c : Call) (e : Envelope) (t : Table) → HasUniqueIds t → HasUniqueIds (insert c e t).1
unfolding insert
insert-HasUniqueIds c e t u = ground (arith, HasUniqueIds-append t e)

pub step-HasUniqueIds :
    (c : Call) (op : Op) (t : Table) → HasUniqueIds t → HasUniqueIds (step c op t)
unfolding mark_delivered set_executor_session_id
step-HasUniqueIds c (Op.insert e) t u = insert-HasUniqueIds c e t u
step-HasUniqueIds c (Op.mark_delivered id session at) t u =
    ground (arith, HasUniqueIds-update (is_deliverable id) (deliver_row session at) (λ x. refl) t u)
step-HasUniqueIds c (Op.set_executor_session_id id session) t u =
    ground (arith, HasUniqueIds-update (is_open id) (bind_session session) (λ x. refl) t u)
step-HasUniqueIds c (Op.update_status id next proof note) t u =
    elim (update_status-cases c id next proof note t) [
      | inl (x, r) ↦ subst⁻¹ (λ o. HasUniqueIds o.1) r u
      | inr (row, found, permitted, r) ↦
          subst⁻¹ (λ o. HasUniqueIds o.1) r
            (HasUniqueIds-update (has_id id) (write_status (updated c row next proof note))
              (λ x. refl) t u)
    ]
step-HasUniqueIds c (Op.add_history id entry) t u = elim (add_history-cases c id entry t) [
  | inl (x, r) ↦ subst⁻¹ (λ o. HasUniqueIds o.1) r u
  | inr (row, found, r) ↦
      subst⁻¹ (λ o. HasUniqueIds o.1) r
        (HasUniqueIds-update (has_id id) (write_history (noted row entry)) (λ x. refl) t u)
]
step-HasUniqueIds c (Op.append_message id msg) t u = elim (append_message-cases c id msg t) [
  | inl (x, r) ↦ subst⁻¹ (λ o. HasUniqueIds o.1) r u
  | inr (row, found, r) ↦
      subst⁻¹ (λ o. HasUniqueIds o.1) r
        (HasUniqueIds-update (has_id id) (write_thread (row.thread ++ msg ∷ [])) (λ x. refl) t u)
]

pub run-HasUniqueIds :
    (ops : List (Call × Op)) (t : Table) → HasUniqueIds t → HasUniqueIds (run ops t)
run-HasUniqueIds [] t u = u
run-HasUniqueIds ((c, op) ∷ ops) t u =
    run-HasUniqueIds ops (step c op t) (step-HasUniqueIds c op t u)
