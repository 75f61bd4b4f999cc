-- ===== src/Forge/Resume.antt =====
-- POST /sessions/{envelope_id}/resume of forge/internal/httpapi/resume_handler.go.
use hermes_forge_public.Prelude.{
  ℕ, String, Bool, false, Option, none, some, ◌==◌, eqb, Result, ok, err, if◌then◌else◌,
}
use hermes_forge_public.Forge.{
  Session, Call, Error, not_found, get_by_envelope, update_session_id, put, running,
}
use hermes_forge_public.Forge.Deliver.{Os, State, session_id_from_pid}

-- OpenCode's server: the search for the session with the envelope's title, and the injection of a
-- message, true if it succeeds.
pub record OpenCode (W : Type 0) : Type 0 where
  pub discover : String → String → W → Option String × W
  pub inject : String → String → W → Bool × W

-- No body, a body that does not decode, `true` if it ends too early, or the message in it.
pub data Body : Type 0 where
  no_body : Body
  undecoded : Bool → Body
  message : String → Body

pub data Response : Type 0 where
  failed : ℕ → String → Response
  resumed : String → Response

module _ {W : Type 0} (os : Os W) (code : OpenCode W) where
  unfoldable pub inject_and_respond : Session → String → State W → Response × State W
  inject_and_respond s text h =
      let (found, w) = code.discover s.envelope_id s.working_dir h.os in
      elim found [
        | none ↦ (failed 500 "session_discovery_failed", record h { os = w })
        | some id ↦
            let (injected, v) = code.inject id text w in
            if injected
            then (resumed id, record h { os = v })
            else (failed 500 "inject_failed", record h { os = v })
      ]

  -- What `respawnAndInjectLocked` does with the launched process: it is registered before its id is
  -- stored, and stays when that fails.
  unfoldable pub adopt : Call → Session → String → ℕ → State W → Response × State W
  adopt c s text pid h =
      let id = session_id_from_pid s.envelope_id pid in
      let (result, rows) = update_session_id c s.envelope_id id h.sessions in
      let h' = record h { sessions = rows; processes = put id pid h.processes } in
      let rest = inject_and_respond (record s { session_id = id }) text h' in
      if eqb pid 0
      then (failed 500 "launch_error", record h { os = os.stop pid h.os })
      else elim result [ err _ ↦ (failed 500 "store_error", h') | ok _ ↦ rest ]

  unfoldable pub respawn_and_inject : Call → Session → String → State W → Response × State W
  respawn_and_inject c s text h =
      let (result, w) = os.launch s.executor s.envelope_id s.working_dir "" false h.os in
      elim result [
        | err _ ↦ (failed 500 "launch_error", record h { os = w })
        | ok pid ↦ adopt c s text pid (record h { os = w })
      ]

  -- The second lookup, under the lock; its error keeps the session that the first one found.
  abbrev pub fresh_or : Session → Result Error Session → Session
  fresh_or s (ok t) = t
  fresh_or s (err x) = s

  -- `resume` of a message. `again` is the second lookup.
  unfoldable pub resume_session : Call → Call → String → String → State W → Response × State W
  resume_session c again envelope text h = elim (get_by_envelope c envelope h.sessions) [
    | err not_found ↦ (failed 404 "not_found", h)
    | err _ ↦ (failed 500 "store_error", h)
    | ok s ↦
        let t = fresh_or s (get_by_envelope again envelope h.sessions) in
        if running (os.alive h.os) t.session_id h.processes
        then inject_and_respond t text h
        else respawn_and_inject c t text h
  ]

  unfoldable pub resume : Call → Call → String → Body → State W → Response × State W
  resume c again envelope no_body h =
      if envelope == ""
      then (failed 400 "invalid_request", h)
      else (failed 422 "invalid_request", h)
  resume c again envelope (undecoded early) h =
      if envelope == ""
      then (failed 400 "invalid_request", h)
      else if early
      then (failed 422 "invalid_request", h)
      else (failed 400 "invalid_json", h)
  resume c again envelope (message text) h =
      if envelope == ""
      then (failed 400 "invalid_request", h)
      else if text == ""
      then (failed 422 "invalid_request", h)
      else resume_session c again envelope text h
