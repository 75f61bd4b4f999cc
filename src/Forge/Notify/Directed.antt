-- ===== src/Forge/Notify/Directed.antt =====
-- Where a notification goes.
use mathlib.Core.Path.{subst⁻¹}
use hermes_forge_public.Prelude.{
  ℕ, String, ◌≡◌, refl, ◌⊎◌, inl, inr, Bool, true, false, none, some, Bool-cases, eq_iff, ◌==◌, ok,
  Result-cases,
}
use hermes_forge_public.Forge.{Session, Call, get_by_envelope, running}
use hermes_forge_public.Forge.Deliver.{Os, State}
use hermes_forge_public.Forge.Resume.{OpenCode}
use hermes_forge_public.Forge.Notify.{
  NotifyRequest, Response, failed, check_request, notify_session, inject_response, notify,
}

-- What the handler did: refused and changed nothing, or passed the message on to OpenCode for a live
-- session of the envelope.
abbrev pub IsDirected :
    {W : Type 0} → Os W → OpenCode W → Call → NotifyRequest → State W → Response × State W → Type 0
IsDirected {W} os code c req h out =
    ((status : ℕ) × (kind : String) × (out ≡ (failed status kind, h)))
    ⊎ ((sess : Session) × (get_by_envelope c req.envelope_id h.sessions ≡ ok sess)
        × (sess.executor ≡ "opencode")
        × (running (os.alive h.os) sess.session_id h.processes ≡ true)
        × (out ≡ (
          inject_response (code.inject req.executor_session_id req.message h.os).0,
          record h { os = (code.inject req.executor_session_id req.message h.os).1 },
        )))

check_request-cases :
    (req : NotifyRequest)
    → (check_request req ≡ none) ⊎ (check_request req ≡ some (failed 422 "invalid_request"))
unfolding check_request
check_request-cases req = elim (Bool-cases (req.envelope_id == "")) [
  | inl e ↦ inr (rw e refl)
  | inr e ↦ elim (Bool-cases (req.executor_session_id == "")) [
    | inl d ↦ inr (rw (e, d) refl)
    | inr d ↦ elim (Bool-cases (req.message == "")) [
      | inl f ↦ inr (rw (e, d, f) refl)
      | inr f ↦ inl (rw (e, d, f) refl)
    ]
  ]
]

module _ {W : Type 0} (os : Os W) (code : OpenCode W) (c : Call) (req : NotifyRequest)
    (h : State W) where
  notify_session-IsDirected :
      (sess : Session)
      → get_by_envelope c req.envelope_id h.sessions ≡ ok sess
      → IsDirected os code c req h (notify_session os code req sess h)
  unfolding notify_session
  notify_session-IsDirected sess found = elim (Bool-cases (sess.executor == "opencode")) [
    | inr e ↦ inl (422, "invalid_executor", rw e refl)
    | inl e ↦ elim (Bool-cases (running (os.alive h.os) sess.session_id h.processes)) [
      | inr d ↦ inl (409, "session_not_alive", rw (e, d) refl)
      | inl d ↦ inr (sess, found, (eq_iff sess.executor "opencode").0 e, d, rw (e, d) refl)
    ]
  ]

  -- A message reaches OpenCode only while the register's session of the envelope is one of OpenCode's
  -- and its process runs; the response then says whether OpenCode took it. In every other case the
  -- handler answers with an error and changes nothing.
  pub notify-IsDirected :
      (too_large : Bool) → IsDirected os code c req h (notify os code c too_large (some req) h)
  unfolding notify
  notify-IsDirected true = inl (422, "body_too_large", refl)
  notify-IsDirected false = elim (check_request-cases req) [
    | inr e ↦ inl (422, "invalid_request", rw (e, notify) refl)
    | inl e ↦ elim (Result-cases (get_by_envelope c req.envelope_id h.sessions)) [
      | inr (x, f) ↦ inl (409, "session_not_found", rw (e, f, notify) refl)
      | inl (sess, f) ↦
          let answered : notify os code c false (some req) h ≡ notify_session os code req sess h =
            rw (e, f, notify) refl in
          subst⁻¹ (IsDirected os code c req h) answered (notify_session-IsDirected sess f)
    ]
  ]
