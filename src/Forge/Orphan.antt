-- ===== src/Forge/Orphan.antt =====
-- What a resume leaves behind when it cannot store the new session.
use mathlib.Core.Path.{subst⁻¹}
use hermes_forge_public.Prelude.{
  ℕ, String, ◌≡◌, refl, ap, ◌∙◌, Bool, true, false, some, List, [], ◌∷◌, ◌==◌, eqb, eq_refl, ok,
  err,
}
use hermes_forge_public.Sql.{select}
use hermes_forge_public.Forge.{
  Session, Call, update_session_id, put, lookup, running, has_envelope, query, exec, driver,
}
use hermes_forge_public.Forge.Deliver.{
  Spawn, Os, State, session_id_from_pid, ensure_session, spawn_and_register_session,
}
use hermes_forge_public.Forge.Replay.{lookup-put}
use hermes_forge_public.Forge.Rows.{get-found}
use hermes_forge_public.Forge.Resume.{
  OpenCode, failed, resume, message, resume_session, respawn_and_inject, adopt,
}

module _ {W : Type 0} (os : Os W) (hermes : Bool) (code : OpenCode W) where
  -- The state after the failed resume: a registered process, and the old register.
  abbrev pub orphaned : Session → ℕ → W → State W → State W
  orphaned s pid w h = record h {
    processes = put (session_id_from_pid s.envelope_id pid) pid h.processes;
    os = w;
  }

  update_failed :
      (c : Call) (id new : String) (rows : List Session)
      → c.fails exec ≡ true
      → update_session_id c id new rows ≡ (err (driver exec), rows)
  unfolding update_session_id
  update_failed c id new rows e = rw e refl

  adopt_unstored :
      (c : Call) (s : Session) (text : String) (pid : ℕ) (h : State W)
      → eqb pid 0 ≡ false
      → c.fails exec ≡ true
      → adopt os code c s text pid h ≡ (
        failed 500 "store_error",
        record h { processes = put (session_id_from_pid s.envelope_id pid) pid h.processes },
      )
  unfolding adopt
  adopt_unstored c s text pid h live e =
      let id = session_id_from_pid s.envelope_id pid in
      let failure = update_failed c s.envelope_id id h.sessions e in
      rw live (
        rw failure (
          ap
            (λ l. (
              failed 500 "store_error",
              record h { sessions = l; processes = put id pid h.processes },
            ))
            (ap (λ o. o.1) failure)))

  -- A resume of a dead session whose UPDATE of the register fails reports a store error with the new
  -- process running and registered, and the next delivery for the envelope, if the register still
  -- names the dead session, starts another process.
  pub resume_orphans :
      (c d : Call) (s : Session) (text : String) (pid : ℕ) (w : W) (h : State W) (p : Spawn)
      → (s.envelope_id == "") ≡ false
      → (text == "") ≡ false
      → c.fails query ≡ false
      → c.fails exec ≡ true
      → d.fails query ≡ false
      → select (has_envelope s.envelope_id) h.sessions ≡ s ∷ []
      → running (os.alive h.os) s.session_id h.processes ≡ false
      → os.launch s.executor s.envelope_id s.working_dir "" false h.os ≡ (ok pid, w)
      → eqb pid 0 ≡ false
      → running
          (os.alive w)
          s.session_id
          (put (session_id_from_pid s.envelope_id pid) pid h.processes)
        ≡ false
      → p.envelope ≡ s.envelope_id
      → (resume os code c c s.envelope_id (message text) h
          ≡ (failed 500 "store_error", orphaned s pid w h))
        × (lookup (session_id_from_pid s.envelope_id pid) (orphaned s pid w h).processes ≡ some pid)
        × (ensure_session os hermes d p (orphaned s pid w h)
            ≡ spawn_and_register_session os hermes d (some s) p (orphaned s pid w h))
  unfolding resume resume_session respawn_and_inject ensure_session
  resume_orphans c d s text pid w h p named given q x q' only dead launched live still_dead same =
      let found = get-found c s.envelope_id h.sessions s q only in
      let found_again =
        get-found d p.envelope h.sessions s q'
          (subst⁻¹ (λ x. select (has_envelope x) h.sessions ≡ s ∷ []) same only) in
      (
        rw (named, given)
            (rw (found, resume_session)
              (rw found (
                rw dead (
                  rw (launched, respawn_and_inject)
                    (ap (λ v. adopt os code c s text pid (record h { os = v }))
                        (ap (λ o. o.1) launched)
                      ∙ adopt_unstored c s text pid (record h { os = w }) live x))))),
        lookup-put (session_id_from_pid s.envelope_id pid) (session_id_from_pid s.envelope_id pid)
              pid h.processes
            ∙ rw (eq_refl (session_id_from_pid s.envelope_id pid)) refl,
        rw (found_again, ensure_session) (rw still_dead refl),
      )
