-- ===== src/Api/Activity.antt =====
-- hermes/internal/httpapi/activity_handler.go: POST /activity, GET /activity, and the subscription of
-- GET /events.
use hermes_forge_public.Prelude.{ℕ, String, Option, none, some, List, ◌==◌, if◌then◌else◌}
use hermes_forge_public.KeyStore.{Key}
use hermes_forge_public.ActivityHub
use hermes_forge_public.ActivityHub.{Hub, Event}
use hermes_forge_public.Api.{
  Response, failed, replied, Body, undecoded, decoded, Caller, context_key,
}

-- The anonymous request of `post`.
pub record PostRequest : Type 0 where
  pub envelope_id : String
  pub kind : String
  pub summary : String

-- The key that a caller's view is scoped to: an admin sees all.
abbrev pub scope_of : Option Key → String
scope_of none = ""
scope_of (some k) = if k.role == "admin" then "" else k.key

unfoldable pub handle_post : ℕ → Caller → Body PostRequest → Hub → Response (Unit {0}) × Hub
handle_post now caller undecoded hub = (failed 400 "bad_json", hub)
handle_post now caller (decoded req) hub =
    let event : Event = record {
      api_key = context_key caller.identity;
      envelope_id = req.envelope_id;
      kind = req.kind;
      summary = req.summary;
      timestamp = some now;
    } in
    if req.kind == ""
    then (failed 422 "missing_kind", hub)
    else (replied 202 tt, ActivityHub.publish now event hub)

unfoldable pub handle_recent : Caller → Hub → Response (List Event)
handle_recent caller hub = replied 200 (ActivityHub.recent (scope_of caller.identity) 50 hub)

-- The start of `sse`; from then on it receives from the subscription until the request ends.
unfoldable pub start_sse : Caller → Hub → ℕ × Hub
start_sse caller hub = ActivityHub.subscribe (scope_of caller.identity) hub
