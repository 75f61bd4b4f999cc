-- ===== src/Api/Agents.antt =====
-- hermes/internal/httpapi/agent_handler.go: the routes below /agents.
pub mod Numerals
use Prim.Native.Nat.{◌/◌}
use hermes_forge_public.Prelude.{
  ℕ, zero, suc, ◌+◌, ◌%◌, String, Bool, true, false, Option, none, some, List, [], ◌∷◌, ◌==◌, eqb,
  length, Result, ok, err, if◌then◌else◌,
}
use hermes_forge_public.Prelude.Texts.{concat, digit}
use hermes_forge_public.Sql.{affected}
use hermes_forge_public.KeyStore.{Key}
use hermes_forge_public.AgentStore
use hermes_forge_public.AgentStore.{Agent, Snapshot, Store}
use hermes_forge_public.ActivityHub
use hermes_forge_public.ActivityHub.{Hub}
use hermes_forge_public.Api.{Response, failed, replied, Body, undecoded, decoded, Caller, is_admin}

-- The requests that `register` routes.
pub data Request (F : Type 0) : Type 0 where
  snapshot : Body (Snapshot F) → Request F
  list : Request F
  get : String → Request F
  prune : Request F

pub data Reply (F : Type 0) : Type 0 where
  accepted : ℕ → String → Reply F
  agents : List (Agent F) → Reply F
  agent : Agent F → Reply F
  pruned : ℕ → ℕ → Reply F

-- The store and the hub, which is nil where it is `none`.
pub record State (F : Type 0) : Type 0 where
  pub store : Store F
  pub hub : Option Hub

-- The loop of `itoa`, which writes its digits in front of those in the buffer. Twenty bytes hold every
-- int; a number is at most as many digits long as it is large.
unfoldable pub itoa_loop : ℕ → ℕ → String → String
itoa_loop zero n buf = buf
itoa_loop (suc fuel) n buf =
    let rest = itoa_loop fuel (n / 10) (concat (digit (n % 10) ∷ buf ∷ [])) in
    if eqb n 0 then buf else rest

unfoldable pub itoa : ℕ → String
itoa n = if eqb n 0 then "0" else itoa_loop n n ""

-- How many agents are in the state.
abbrev pub count_state : {F : Type 0} → String → List (Agent F) → ℕ
count_state state l = affected (λ a. a.state == state) l

unfoldable pub format_snapshot_summary : {F : Type 0} → String → List (Agent F) → String
format_snapshot_summary host l = concat (
    host
    ∷ " snapshot: "
    ∷ itoa (length l)
    ∷ " agents ("
    ∷ itoa (count_state "active" l)
    ∷ " active, "
    ∷ itoa (count_state "idle" l)
    ∷ " idle, "
    ∷ itoa (count_state "exited" l)
    ∷ " exited)"
    ∷ [])

abbrev pub publish_snapshot : {F : Type 0} → ℕ → String → List (Agent F) → Option Hub → Option Hub
publish_snapshot now host l none = none
publish_snapshot now host l (some hub) = some (
    ActivityHub.publish now
      (record {
        api_key = "";
        envelope_id = "";
        kind = "agents_snapshot";
        summary = format_snapshot_summary host l;
        timestamp = some now;
      })
      hub)

module _ {F : Type 0} (now : ℕ) where
  unfoldable pub handle_snapshot : Body (Snapshot F) → State F → Response (Reply F) × State F
  handle_snapshot undecoded s = (failed 400 "invalid_json", s)
  handle_snapshot (decoded snap) s =
      let (applied, store) = AgentStore.apply now snap s.store in
      if snap.host == "" then (failed 422 "missing_host", s) else (
        replied 202 (accepted (length applied) snap.host),
        record { store = store; hub = publish_snapshot now snap.host applied s.hub },
      )

  unfoldable pub handle_get : String → State F → Response (Reply F)
  handle_get id s =
      if id == "" then failed 400 "missing_id" else elim (AgentStore.get now id s.store) [
        | err _ ↦ failed 404 "not_found"
        | ok a ↦ replied 200 (agent a)
      ]

  unfoldable pub handle_prune : Caller → State F → Response (Reply F) × State F
  handle_prune caller s =
      let (n, store) = AgentStore.prune now s.store in
      if is_admin caller.identity
      then (
        replied 200 (pruned n (length (AgentStore.recent now store))),
        record s { store = store },
      )
      else (failed 403 "admin_required", s)

  abbrev pub handle : Caller → Request F → State F → Response (Reply F) × State F
  handle caller (snapshot body) s = handle_snapshot body s
  handle caller list s = (replied 200 (agents (AgentStore.recent now s.store)), s)
  handle caller (get id) s = (handle_get id s, s)
  handle caller prune s = handle_prune caller s
