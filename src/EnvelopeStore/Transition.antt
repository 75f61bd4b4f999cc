-- ===== src/EnvelopeStore/Transition.antt =====
-- UpdateStatus as its callers see it.
use mathlib.Core.Path.{subst}
use hermes_forge_public.Prelude.{String, ◌≡◌, ap, sym, ◌∙◌, inl, inr, true, some, ok, err}
use hermes_forge_public.Sql.{find}
use hermes_forge_public.Sql.Laws.{find-update_self}
use hermes_forge_public.Envelope.{Status, Envelope, Proof, Error, terminal_transition, is_terminal}
use hermes_forge_public.Envelope.Proof.{IsProven}
use hermes_forge_public.Envelope.Status.{can_transition_iff, terminal-can_transition}
use hermes_forge_public.EnvelopeStore.{Table, Call, has_id, get}
use hermes_forge_public.EnvelopeStore.Claim.{Works}
use hermes_forge_public.EnvelopeStore.Update.{
  update_status, transition, write_status, apply_transition_side_effects,
}
use hermes_forge_public.EnvelopeStore.Outcomes.{with_proof, updated, update_status-cases}

module _ (c : Call) (id : String) (next : Status) (proof : Proof) (note : String) (t : Table) where
  -- An UpdateStatus that returns an error leaves the table as it was, at whichever step it failed.
  pub update_status_rollback :
      {x : Error}
      → (update_status c id next proof note t).0 ≡ err x
      → (update_status c id next proof note t).1 ≡ t
  update_status_rollback h = elim (update_status-cases c id next proof note t) [
    | inl (x, r) ↦ ap (λ o. o.1) r
    | inr (row, found, permitted, r) ↦ let z = ap (λ o. o.0) r in cc
  ]

  -- What a successful UpdateStatus returns is what a Get of the id with a working driver returns
  -- afterwards.
  pub get-update_status :
      (d : Call) {e : Envelope}
      → Works d
      → (update_status c id next proof note t).0 ≡ ok e
      → get d id (update_status c id next proof note t).1 ≡ ok e
  unfolding get apply_transition_side_effects
  get-update_status d w h = elim (update_status-cases c id next proof note t) [
    | inl (x, r) ↦ let z = ap (λ o. o.0) r in cc
    | inr (row, found, permitted, r) ↦
        let z = ap (λ o. o.0) r in
        rw (r, w 0)
          (rw
            (find-update_self (has_id id) (write_status (updated c row next proof note)) (λ x h. h)
              t)
            (rw found (sym z ∙ h)))
  ]

  -- An envelope that UpdateStatus returns with status done has every required key in its proof,
  -- and no empty value there.
  pub update_status-IsProven :
      {e : Envelope}
      → (update_status c id next proof note t).0 ≡ ok e
      → e.status ≡ "done"
      → IsProven e.proof_required e.proof
  unfolding apply_transition_side_effects
  update_status-IsProven {e} h d = elim (update_status-cases c id next proof note t) [
    | inl (x, r) ↦ let z = ap (λ o. o.0) r in cc
    | inr (row, found, permitted, r) ↦
        let u = updated c row next proof note in
        let z = ap (λ o. o.0) r in
        let same : u ≡ e = cc in
        let (live, recognised, proven) =
          (can_transition_iff (with_proof row proof) next).0 permitted in
        subst (λ v. v.status ≡ "done" → IsProven v.proof_required v.proof) same proven d
  ]

  -- With a working driver, UpdateStatus of a stored envelope that is terminal returns
  -- ErrTerminalTransition and changes nothing, whatever the new status.
  pub update_status_terminal :
      {row : Envelope}
      → Works c
      → find (has_id id) t ≡ some row
      → is_terminal row.status ≡ true
      → update_status c id next proof note t ≡ (err terminal_transition, t)
  unfolding update_status transition
  update_status_terminal {row} w found h =
      rw (w 0, w 1, found) (rw (terminal-can_transition (with_proof row proof) next h, transition))
