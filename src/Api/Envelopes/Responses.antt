-- ===== src/Api/Envelopes/Responses.antt =====
-- What the responses below /envelopes promise.
use mathlib.Core.Path.{subst⁻¹}
use hermes_forge_public.Prelude.{
  ℕ, String, ◌≡◌, refl, ap, sym, ◌∙◌, ◌⊎◌, inl, inr, true, some, arith, Bool-cases, Result-cases,
  ◌==◌, ok, if◌then◌else◌,
}
use hermes_forge_public.Envelope
use hermes_forge_public.Envelope.{Envelope, Proof, validate, is_terminal}
use hermes_forge_public.EnvelopeStore
use hermes_forge_public.EnvelopeStore.Update
use hermes_forge_public.EnvelopeStore.{Table, has_id, is_open, bind_session}
use hermes_forge_public.EnvelopeStore.Claim.{Works}
use hermes_forge_public.EnvelopeStore.Transition.{update_status_rollback, get-update_status}
use hermes_forge_public.ActivityHub
use hermes_forge_public.NotifyStore.Summary.{is_interesting}
use hermes_forge_public.Api.{
  failed, replied, Body, undecoded, decoded, Caller, notification_insert_key,
}
use hermes_forge_public.Api.Alerts.{Setup, State, Calls, maybe_notify, publish_activity, activity}
use hermes_forge_public.Api.Alerts.Loops
use hermes_forge_public.Api.Alerts.Loops.{queued, maybe_notify-queue}
use hermes_forge_public.Api.Envelopes.{
  Reply, envelope, UpdateStatusRequest, handle_update_status, set_status, status_failure,
  missing_id,
}
use hermes_forge_public.Api.Envelopes.Effects.{maybe_notify-Keeps, publish_activity-table}

module _ (o : Setup) (c : Calls) (caller : Caller) (id : String) where
  -- The state after a status change that the store accepted.
  abbrev noticed : UpdateStatusRequest → State → State
  noticed req s = maybe_notify o c caller id req.status req.note req.proof (record s {
    table = (Update.update_status c.store id req.status req.proof req.note s.table).1;
  })

  -- The store's answer to a status change, as the handler passes it on.
  set_status-cases :
      (req : UpdateStatusRequest) (s : State)
      → ((x : Envelope.Error) × (set_status o c caller id req s ≡ (status_failure x, s)))
        ⊎ ((e : Envelope) × ((Update.update_status c.store id req.status req.proof req.note
                s.table).0
              ≡ ok e)
            × (set_status o c caller id req s ≡ (
              replied 200 (envelope e),
              publish_activity o c id req.status req.note (noticed req s),
            )))
  unfolding set_status
  set_status-cases req s =
      let r = Update.update_status c.store id req.status req.proof req.note s.table in
      elim (Result-cases r.0) [
        | inr (x, e) ↦ inl (
          x,
          rw (e, set_status)
              (ap (λ t. (status_failure x, record s { table = t }))
                (update_status_rollback c.store id req.status req.proof req.note s.table e)),
        )
        | inl (v, e) ↦ inr (v, e, rw (e, set_status) refl)
      ]

  status_failure-ne-replied :
      (x : Envelope.Error) (n : ℕ) (r : Reply) → status_failure x ≡ replied n r → ⊥
  status_failure-ne-replied x n r h = ground arith

  set_status_refused :
      (req : UpdateStatusRequest) (s : State) (n : ℕ) (kind : String)
      → (set_status o c caller id req s).0 ≡ failed n kind
      → (set_status o c caller id req s).1 ≡ s
  set_status_refused req s n kind h = elim (set_status-cases req s) [
    | inl (x, r) ↦ ap (λ p. p.1) r
    | inr (e, q, r) ↦ let z = sym (ap (λ p. p.0) r) ∙ h in cc
  ]

  -- A status change that is answered with an error changes nothing: not the envelopes, not the
  -- notifications, not the hub, and no webhook is started.
  pub handle_update_status_refused :
      (body : Body UpdateStatusRequest) (s : State) (n : ℕ) (kind : String)
      → (handle_update_status o c caller id body s).0 ≡ failed n kind
      → (handle_update_status o c caller id body s).1 ≡ s
  unfolding handle_update_status
  handle_update_status_refused undecoded s n kind h = ground arith
  handle_update_status_refused (decoded req) s n kind h = elim (Bool-cases (id == "")) [
    | inl e ↦ rw e refl
    | inr e ↦ elim (Bool-cases (req.status == "")) [
      | inl d ↦ rw (e, d) refl
      | inr d ↦ rw (e, d) (set_status_refused req s n kind (rw (e, d) at h))
    ]
  ]

  -- The outcome of a status change that is answered with a value.
  abbrev pub IsServed :
      UpdateStatusRequest → ℕ → Reply → EnvelopeStore.Call → State → State → Type 0
  IsServed req n r d s s' =
      (e : Envelope) × (n ≡ 200)
      × (r ≡ envelope e)
      × (EnvelopeStore.get d id s'.table ≡ ok e)
      × (s'.hub ≡ (
          if o.has_hub
          then ActivityHub.publish c.now (activity o c.now id req.status req.note) s.hub
          else s.hub))

  publish_activity-hub :
      (status note : String) (s : State)
      → (publish_activity o c id status note s).hub ≡ (
          if o.has_hub
          then ActivityHub.publish c.now (activity o c.now id status note) s.hub
          else s.hub)
  unfolding publish_activity
  publish_activity-hub status note s = elim (Bool-cases o.has_hub) [
    | inl e ↦ rw e refl
    | inr e ↦ rw e refl
  ]

  publish_activity-queue :
      (status note : String) (s : State) → (publish_activity o c id status note s).queue ≡ s.queue
  unfolding publish_activity
  publish_activity-queue status note s = ground arith

  set_status-IsServed :
      (req : UpdateStatusRequest) (s : State) (n : ℕ) (r : Reply) (d : EnvelopeStore.Call)
      → Works d
      → (set_status o c caller id req s).0 ≡ replied n r
      → IsServed req n r d s (set_status o c caller id req s).1
  set_status-IsServed req s n r d w h = elim (set_status-cases req s) [
    | inl (x, q) ↦ absurd (status_failure-ne-replied x n r (sym (ap (λ p. p.0) q) ∙ h))
    | inr (e, found, q) ↦
        let z = sym (ap (λ p. p.0) q) ∙ h in
        let kept = maybe_notify-Keeps o c caller id req.status req.note req.proof (record s {
          table = (Update.update_status c.store id req.status req.proof req.note s.table).1;
        }) in
        let same = publish_activity-table o c id req.status req.note (noticed req s) ∙ kept.0 in
        subst⁻¹ (λ p. IsServed req n r d s p.1) q
          (
            e,
            cc,
            cc,
            ap (EnvelopeStore.get d id) same
                ∙ get-update_status c.store id req.status req.proof req.note s.table d w found,
            publish_activity-hub req.status req.note (noticed req s)
                ∙ ap
                    (λ x.
                      if o.has_hub
                      then ActivityHub.publish c.now (activity o c.now id req.status req.note) x
                      else x)
                    kept.1,
          )
  ]

  -- A status change that is answered with a value is answered with status 200 and the envelope that a
  -- later read returns, and if there is a hub it has published one event for all keys.
  pub handle_update_status-IsServed :
      (req : UpdateStatusRequest) (s : State) (n : ℕ) (r : Reply) (d : EnvelopeStore.Call)
      → Works d
      → (handle_update_status o c caller id (decoded req) s).0 ≡ replied n r
      → IsServed req n r d s (handle_update_status o c caller id (decoded req) s).1
  unfolding handle_update_status
  handle_update_status-IsServed req s n r d w h = elim (Bool-cases (id == "")) [
    | inl e ↦ let z : missing_id ≡ replied n r = rw e at h in cc
    | inr e ↦ elim (Bool-cases (req.status == "")) [
      | inl f ↦ let z : failed 422 "invalid_status" ≡ replied n r = rw (e, f) at h in cc
      | inr f ↦ rw (e, f) (set_status-IsServed req s n r d w (rw (e, f) at h))
    ]
  ]

  set_status-queue :
      (key : String) (req : UpdateStatusRequest) (s : State) (n : ℕ) (r : Reply)
      → (w : Loops.Works c) → o.notifies ≡ true
      → notification_insert_key o.has_keys caller ≡ some key
      → (set_status o c caller id req s).0 ≡ replied n r
      → (set_status o c caller id req s).1.queue ≡ (
          if is_interesting req.status
          then queued o c w key id req.status req.note req.proof s.queue
          else s.queue)
  set_status-queue key req s n r w on named h = elim (set_status-cases req s) [
    | inl (x, q) ↦ absurd (status_failure-ne-replied x n r (sym (ap (λ p. p.0) q) ∙ h))
    | inr (e, found, q) ↦
        ap (λ p. p.1.queue) q
        ∙ publish_activity-queue req.status req.note (noticed req s)
        ∙ maybe_notify-queue o c w caller key id req.status req.note req.proof _ on named
  ]

  -- Where notifications are on, the caller has a key and the drivers work, a status change that is
  -- answered with a value queues one notification under the caller's key if the status interests the
  -- operator, and a second one that flags a loop exactly if the status is blocked and at least three
  -- notifications said so of the envelope in the 30 minutes before; any other status queues nothing.
  pub handle_update_status-queue :
      (key : String) (req : UpdateStatusRequest) (s : State) (n : ℕ) (r : Reply)
      → (w : Loops.Works c) → o.notifies ≡ true
      → notification_insert_key o.has_keys caller ≡ some key
      → (handle_update_status o c caller id (decoded req) s).0 ≡ replied n r
      → (handle_update_status o c caller id (decoded req) s).1.queue ≡ (
          if is_interesting req.status
          then queued o c w key id req.status req.note req.proof s.queue
          else s.queue)
  unfolding handle_update_status
  handle_update_status-queue key req s n r w on named h = elim (Bool-cases (id == "")) [
    | inl e ↦ let z : missing_id ≡ replied n r = rw e at h in cc
    | inr e ↦ elim (Bool-cases (req.status == "")) [
      | inl f ↦ let z : failed 422 "invalid_status" ≡ replied n r = rw (e, f) at h in cc
      | inr f ↦ rw (e, f) (set_status-queue key req s n r w on named (rw (e, f) at h))
    ]
  ]
