-- ===== src/Forge/Notify.antt =====
-- POST /notify of forge/internal/httpapi/notify_handler.go: a message of Hermes for a live session.
pub mod Directed
mod Tests
use hermes_forge_public.Prelude.{
  ℕ, String, Bool, true, false, not, Option, none, some, ◌==◌, Result, ok, err, if◌then◌else◌,
}
use hermes_forge_public.Forge.{Session, Call, get_by_envelope, running}
use hermes_forge_public.Forge.Deliver.{Os, State}
use hermes_forge_public.Forge.Resume.{OpenCode}

pub record NotifyRequest : Type 0 where
  pub envelope_id : String
  pub executor_session_id : String
  pub message : String

pub data Response : Type 0 where
  failed : ℕ → String → Response
  notified : Response

-- The checks of `notify` on its body.
unfoldable pub check_request : NotifyRequest → Option Response
check_request req =
    if req.envelope_id == ""
    then some (failed 422 "invalid_request")
    else if req.executor_session_id == ""
    then some (failed 422 "invalid_request")
    else if req.message == ""
    then some (failed 422 "invalid_request")
    else none

abbrev pub inject_response : Bool → Response
inject_response true = notified
inject_response false = failed 500 "inject_failed"

module _ {W : Type 0} (os : Os W) (code : OpenCode W) where
  -- The response to a session that was found, and the injection into OpenCode.
  unfoldable pub notify_session : NotifyRequest → Session → State W → Response × State W
  notify_session req sess h =
      let (injected, w) = code.inject req.executor_session_id req.message h.os in
      if not (sess.executor == "opencode")
      then (failed 422 "invalid_executor", h)
      else if not (running (os.alive h.os) sess.session_id h.processes)
      then (failed 409 "session_not_alive", h)
      else (inject_response injected, record h { os = w })

  -- `too_large` says that Content-Length is above the limit; a body that does not decode is `none`.
  unfoldable pub notify : Call → Bool → Option NotifyRequest → State W → Response × State W
  notify c true body h = (failed 422 "body_too_large", h)
  notify c false none h = (failed 400 "invalid_json", h)
  notify c false (some req) h = elim (check_request req) [
    | some refusal ↦ (refusal, h)
    | none ↦ elim (get_by_envelope c req.envelope_id h.sessions) [
      | err _ ↦ (failed 409 "session_not_found", h)
      | ok sess ↦ notify_session req sess h
    ]
  ]
