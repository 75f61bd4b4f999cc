-- ===== src/Worker/Client.antt =====
-- The clients of hermes/internal/worker: HTTPForgeClient.Deliver of worker.go, and the routing of
-- multitarget.go. The peer behind a base URL is a function.
use hermes_forge_public.Prelude.{
  ℕ, String, ◌||◌, Option, none, some, List, [], ◌∷◌, ◌==◌, eqb, Result, ok, err, if◌then◌else◌,
}
use hermes_forge_public.Envelope.{Envelope}
use hermes_forge_public.Worker.{
  ForgeClient, DeliverError, bad_request, transport, bad_status, bad_ack, missing_session,
  no_default,
}

-- What comes of a POST: no request could be built, no response came, or a status with the
-- `session_id` of the body, `none` if the body does not decode.
pub data Reply : Type 0 where
  no_request no_response : Reply
  response : ℕ → Option String → Reply

-- A peer that answers the deliver requests.
abbrev pub Peer : Type 0 → Type 0
Peer W = String → Envelope → String → W → Reply × W

unfoldable pub read_ack : Option String → Result DeliverError String
read_ack none = err bad_ack
read_ack (some session) = if session == "" then err missing_session else ok session

unfoldable pub read_reply : Reply → Result DeliverError String
read_reply no_request = err bad_request
read_reply no_response = err transport
read_reply (response status body) =
    if eqb status 201 || eqb status 200 then read_ack body else err (bad_status status)

module _ {W : Type 0} where
  unfoldable pub http_deliver : Peer W → ForgeClient W
  http_deliver post id e dir peer =
      let (reply, peer') = post id e dir peer in (read_reply reply, peer')

  -- `Targets[node]` that is there and not nil
  unfoldable pub target : String → List (String × Option (ForgeClient W)) → Option (ForgeClient W)
  target node [] = none
  target node ((name, client) ∷ targets) = if name == node then client else target node targets

  -- `Deliver` of the routing client; a nil default is `none`, and the worker passes no nil envelope.
  unfoldable pub multi_target :
      Option (ForgeClient W) → List (String × Option (ForgeClient W)) → ForgeClient W
  multi_target none targets id e dir peer = (err no_default, peer)
  multi_target (some def) targets id e dir peer = elim (target e.target_node targets) [
    | some client ↦ client id e dir peer
    | none ↦ def id e dir peer
  ]
