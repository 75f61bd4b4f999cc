-- ===== src/Worker/Acks.antt =====
-- Which responses count as an acknowledgement.
use hermes_forge_public.Prelude.{String, ◌≡◌, ◌≢◌, ◌↔◌, ◌⊎◌, none, some, arith, ok, eq_iff}
use hermes_forge_public.Worker.Client.{
  Reply, no_request, no_response, response, read_ack, read_reply,
}

-- A response that is an acknowledgement with the session.
abbrev pub Acknowledges : Reply → String → Type 0
Acknowledges (response status body) session =
    ((status ≡ 200) ⊎ (status ≡ 201)) × (body ≡ some session) × (session ≢ "")
Acknowledges _ session = ⊥

-- The client reports a session exactly for a response with status 200 or 201 whose body decodes to
-- that session, not empty.
pub read_reply_iff :
    (r : Reply) (session : String) → (read_reply r ≡ ok session) ↔ Acknowledges r session
unfolding read_reply read_ack
read_reply_iff no_request session = (λ h. cc, λ h. absurd h)
read_reply_iff no_response session = (λ h. cc, λ h. absurd h)
read_reply_iff (response status none) session = (λ h. ground arith, λ h. ground arith)
read_reply_iff (response status (some s)) session = (
  λ h. (ground arith, ground arith, ground (arith, eq_iff s "", eq_iff session "")),
  λ h. ground (arith, eq_iff s "", eq_iff session ""),
)
