-- ===== src/Forge/Acked.antt =====
-- What an acknowledged delivery stands for (W-F1, W-F6), and what comes of the next one.
use mathlib.Core.Path.{subst, subst⁻¹}
use hermes_forge_public.Prelude.{
  ℕ, String, ◌≡◌, refl, ap, sym, ◌∙◌, inl, inr, Bool, true, false, ◌&&◌, none, some, arith, ◌==◌,
  Bool-cases, Option-cases, Result, ok, err,
}
use hermes_forge_public.Forge.{Session, Call, lookup, query}
use hermes_forge_public.Forge.Deliver.{
  Request, Ack, Response, Os, State, refused, acked, deliver, deliver_new, acknowledge, validate,
  ensure_session, spawn_of, ack_of, remember,
}
use hermes_forge_public.Forge.Replay.{validate-cases, deliver_refused, deliver_hit, deliver_miss}
use hermes_forge_public.Forge.Rows.{HasOneRow}
use hermes_forge_public.Forge.Reuse.{
  IsHeld, IsHeldAfter, ensure_session-IsHeldAfter, ensure_session_held,
}

-- If a response is an ack, its session is held.
abbrev pub IsAckHeld : {W : Type 0} → String → Response × State W → Type 0
IsAckHeld envelope (refused status code, h) = Unit
IsAckHeld envelope (acked status a, h) = IsHeld envelope a.session_id h

abbrev status_of : Response → ℕ
status_of (refused status code) = status
status_of (acked status a) = status

module _ {W : Type 0} (os : Os W) (hermes : Bool) where
  pub spawn_of-keeps :
      (r : Request) (h : State W)
      → ((spawn_of os hermes r h).0.envelope ≡ r.envelope_id)
        × ((w : W) × ((spawn_of os hermes r h).1 ≡ record h { os = w }))
  spawn_of-keeps r h =
      elim (Bool-cases (r.executor_session_id == "" && r.target_executor == "claude")) [
        | inl e ↦ (rw e refl, ((os.new_uuid h.os).1, rw e refl))
        | inr e ↦ (rw e refl, (h.os, rw e refl))
      ]

  pub spawn_of-IsHeld :
      (r : Request) (session : String) (h : State W)
      → IsHeld r.envelope_id session h
      → IsHeld (spawn_of os hermes r h).0.envelope session (spawn_of os hermes r h).1
  spawn_of-IsHeld r session h held =
      let (envelope, (w, same)) = spawn_of-keeps r h in
      let moved : IsHeld r.envelope_id session (record h { os = w }) = record {
        row = held.row;
        only = held.only;
        named = held.named;
        pid = held.pid;
        registered = held.registered;
      } in
      subst⁻¹ (λ x. IsHeld x session (spawn_of os hermes r h).1) envelope
        (subst⁻¹ (IsHeld r.envelope_id session) same moved)

  acknowledge-IsAckHeld :
      (c : Call) (r : Request) (o : Result (ℕ × String) Session × State W) (envelope : String)
      → IsHeldAfter envelope o
      → IsAckHeld envelope (acknowledge os hermes c r o)
  acknowledge-IsAckHeld c r (err (status, code), h) envelope k = tt
  acknowledge-IsAckHeld c r (ok s, h) envelope k = record {
    row = k.row;
    only = k.only;
    named = k.named;
    pid = k.pid;
    registered = k.registered;
  }

  deliver_new-IsAckHeld :
      (c : Call) (r : Request) (h : State W)
      → HasOneRow h.sessions
      → IsAckHeld r.envelope_id (deliver_new os hermes c r h)
  deliver_new-IsAckHeld c r h one =
      let (p, h') = spawn_of os hermes r h in
      let (envelope, (w, same)) = spawn_of-keeps r h in
      acknowledge-IsAckHeld c r (ensure_session os hermes c p h') r.envelope_id (
        subst (λ x. IsHeldAfter x (ensure_session os hermes c p h')) envelope
          (ensure_session-IsHeldAfter os hermes c p h'
            (subst⁻¹ (λ x. HasOneRow x.sessions) same one)))

  -- A delivery that was acknowledged with status 201 has its session in the register, as the only row
  -- of the envelope, and a process under that session's id in the registry.
  pub deliver-IsHeld :
      (c : Call) (r : Request) (h h' : State W) (a : Ack)
      → HasOneRow h.sessions
      → deliver os hermes c (some r) h ≡ (acked 201 a, h')
      → IsHeld r.envelope_id a.session_id h'
  deliver-IsHeld c r h h' a one e = elim (validate-cases os hermes r) [
    | inr (st, code, v) ↦
        let z = ap (λ o. o.0) (sym (deliver_refused os hermes c r h (refused st code) v) ∙ e) in cc
    | inl v ↦ elim (Option-cases (lookup r.delivery_id h.deliveries)) [
      | inr (prior, l) ↦
          let z = ap (λ o. o.0) (sym (deliver_hit os hermes c r h prior v l) ∙ e) in
          let k = ap status_of z in absurd (omega arith)
      | inl l ↦
          subst (IsAckHeld r.envelope_id) (sym (deliver_miss os hermes c r h v l) ∙ e)
            (deliver_new-IsAckHeld c r h one)
    ]
  ]

  -- A delivery of an envelope whose session is held by a live process is acknowledged with that session.
  pub deliver_held :
      (d : Call) (next : Request) (session : String) (h : State W)
      → IsHeld next.envelope_id session h
      → validate os hermes next ≡ none
      → lookup next.delivery_id h.deliveries ≡ none
      → d.fails query ≡ false
      → ((pid : ℕ)
          → lookup session h.processes ≡ some pid
          → os.alive (spawn_of os hermes next h).1.os pid ≡ true)
      → (b : Ack) × (h' : State W) × (deliver os hermes d (some next) h ≡ (acked 201 b, h'))
        × (b.session_id ≡ session)
        × (h'.sessions ≡ h.sessions)
        × (h'.processes ≡ h.processes)
        × (h'.background ≡ h.background)
  deliver_held d next session h held v l w alive =
      let (p, h2) = spawn_of os hermes next h in
      let (envelope, (wo, same)) = spawn_of-keeps next h in
      let here = spawn_of-IsHeld next session h held in
      let lives =
        alive here.pid (ap (λ x. lookup session x.processes) (sym same) ∙ here.registered) in
      let found = ensure_session_held os hermes d p session h2 w here lives in
      let b = ack_of os hermes d next here.row in
      (
        b,
        record h2 { deliveries = remember os hermes b h2.deliveries },
        deliver_miss os hermes d next h v l ∙ ap (acknowledge os hermes d next) found,
        here.named,
        ap (λ x. x.sessions) same,
        ap (λ x. x.processes) same,
        ap (λ x. x.background) same,
      )
