-- ===== src/Api/Envelopes/Sessions.antt =====
-- PATCH /envelopes/{id}/session of a terminal envelope.
use hermes_forge_public.Prelude.{String, ◌≡◌, refl, true, false, some, ◌==◌}
use hermes_forge_public.Sql.{find}
use hermes_forge_public.Envelope.{Envelope, is_terminal}
use hermes_forge_public.EnvelopeStore.{has_id}
use hermes_forge_public.EnvelopeStore.Claim.{Works}
use hermes_forge_public.EnvelopeStore.Settled.{set_executor_session_id-terminal}
use hermes_forge_public.EnvelopeStore.Keys.{HasUniqueIds}
use hermes_forge_public.Api.{failed, decoded}
use hermes_forge_public.Api.Alerts.{Setup, State, Calls}
use hermes_forge_public.Api.Envelopes.{handle_set_session}

-- Binding a session to a terminal envelope is answered with status 500 and store_error, as if the store
-- had failed, and changes nothing.
pub handle_set_session_terminal :
    (o : Setup) (c : Calls) (id session : String) (s : State) (e : Envelope)
    → (id == "") ≡ false
    → (session == "") ≡ false
    → Works c.store
    → HasUniqueIds s.table
    → find (has_id id) s.table ≡ some e
    → is_terminal e.status ≡ true
    → handle_set_session o c id (decoded session) s ≡ (failed 500 "store_error", s)
unfolding handle_set_session
handle_set_session_terminal o c id session s e named given w u found p =
    let r = set_executor_session_id-terminal c.store id session s.table e w u found p in
    rw (named, given) (rw r refl)
