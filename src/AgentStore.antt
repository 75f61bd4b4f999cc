-- ===== src/AgentStore.antt =====
-- hermes/internal/agentstore/store.go: the agents that reporters last saw. The map is the list of its
-- agents, each id once, in the order of first insertion; Go walks it in any order. A time is its
-- instant, 0 the zero time. `F` is float64, which nothing here computes with. The lock makes each
-- operation one step.
pub mod Applied
pub mod Visible
mod Tests
use hermes_forge_public.Prelude.{
  ℕ, zero, suc, ◌+◌, String, Bool, true, false, not, ◌&&◌, ◌||◌, Option, none, some, List, [], ◌∷◌,
  ◌==◌, eqb, ltb, length, Result, ok, err, if◌then◌else◌,
}
use hermes_forge_public.Prelude.Int.{ℤ, pos, negsuc}
use hermes_forge_public.Prelude.TextOrder.{text_lt}
use hermes_forge_public.Sql.{select, find, order_by}

pub record Agent (F : Type 0) : Type 0 where
  pub id : String
  pub host : String
  pub executor : String
  pub pid : ℤ
  pub cwd : String
  pub project : String
  pub session_id : String
  pub title : String
  pub state : String
  pub parent_kind : String
  pub parent_id : String
  pub cpu_percent : F
  pub mem_percent : F
  pub started_at : ℕ
  pub last_seen_at : ℕ
  pub stale_at : ℕ
  pub reported_by : String

pub record Snapshot (F : Type 0) : Type 0 where
  pub host : String
  pub taken_at : ℕ
  pub agents : List (Agent F)

pub record Store (F : Type 0) : Type 0 where
  pub ttl : ℕ
  pub agents : List (Agent F)

pub data Error : Type 0 where
  not_found : Error

-- Five minutes in nanoseconds.
abbrev pub default_ttl : ℕ
default_ttl = 300000000000

unfoldable pub state_rank : String → ℕ
state_rank state =
    if state == "active"
    then 0
    else if state == "idle"
    then 1
    else if state == "exited"
    then 2
    else 3

module _ {F : Type 0} where
  -- `New`
  unfoldable pub new : ℤ → Store F
  new (pos (suc ttl)) = record { ttl = suc ttl; agents = [] }
  new ttl = record { ttl = default_ttl; agents = [] }

  abbrev pub has_id : String → Agent F → Bool
  has_id id a = a.id == id

  -- `s.agents[a.ID] = a`
  unfoldable pub put : Agent F → List (Agent F) → List (Agent F)
  put a [] = a ∷ []
  put a (b ∷ agents) = if has_id a.id b then a ∷ agents else b ∷ put a agents

  abbrev pub parent_of : Option (Agent F) → String
  parent_of none = ""
  parent_of (some a) = a.parent_id

  -- `prepareSnapshotAgent` of an agent with an id
  unfoldable pub prepare_snapshot_agent : Agent F → Snapshot F → List (Agent F) → Agent F
  prepare_snapshot_agent a snap agents = record a {
    last_seen_at = snap.taken_at;
    stale_at = 0;
    host = if a.host == "" then snap.host else a.host;
    reported_by = if a.reported_by == "" then snap.host else a.reported_by;
    parent_id = if a.parent_id == "" then parent_of (find (has_id a.id) agents) else a.parent_id;
  }

  -- The loop of `Apply` over the snapshot's agents: the agents applied, and the map.
  unfoldable pub apply_agents :
      Snapshot F → List (Agent F) → List (Agent F) → List (Agent F) × List (Agent F)
  apply_agents snap [] agents = ([], agents)
  apply_agents snap (a ∷ rest) agents =
      let b = prepare_snapshot_agent a snap agents in
      let skipped = apply_agents snap rest agents in
      let (applied, agents') = apply_agents snap rest (put b agents) in
      if a.id == "" then skipped else (b ∷ applied, agents')

  -- `snapIDs[id]`, of a snapshot's agents; an empty id is no member
  unfoldable pub in_snapshot : List (Agent F) → String → Bool
  in_snapshot [] id = false
  in_snapshot (a ∷ rest) id = if a.id == id && not (a.id == "") then true else in_snapshot rest id

  unfoldable pub should_mark_stale : Agent F → Snapshot F → Bool
  should_mark_stale a snap =
      if not (a.host == snap.host) || not (eqb a.stale_at 0)
      then false
      else if in_snapshot snap.agents a.id
      then false
      else not (ltb snap.taken_at a.last_seen_at)

  -- `markAbsentAgentsStale`
  unfoldable pub mark_absent_agents_stale : Snapshot F → List (Agent F) → List (Agent F)
  mark_absent_agents_stale snap [] = []
  mark_absent_agents_stale snap (a ∷ agents) =
      (if should_mark_stale a snap then record a { stale_at = snap.taken_at } else a)
      ∷ mark_absent_agents_stale snap agents

  -- `Apply` at the time `now`, with the agents that it returns.
  unfoldable pub apply : ℕ → Snapshot F → Store F → List (Agent F) × Store F
  apply now snap s =
      let snap' = record snap { taken_at = if eqb snap.taken_at 0 then now else snap.taken_at } in
      let (applied, agents) = apply_agents snap' snap.agents s.agents in
      (applied, record s { agents = mark_absent_agents_stale snap' agents })

  -- Neither stale nor past the TTL.
  unfoldable pub is_live : ℕ → ℕ → Agent F → Bool
  is_live now ttl a = eqb a.stale_at 0 && not (ltb (a.last_seen_at + ttl) now)

  -- The order of `Recent`: true unless the second one must stand before the first one.
  unfoldable pub precedes : Agent F → Agent F → Bool
  precedes a b =
      if not (a.host == b.host)
      then text_lt a.host b.host
      else if not (eqb (state_rank a.state) (state_rank b.state))
      then ltb (state_rank a.state) (state_rank b.state)
      else not (ltb a.started_at b.started_at)

  unfoldable pub recent : ℕ → Store F → List (Agent F)
  recent now s = order_by precedes (select (is_live now s.ttl) s.agents)

  unfoldable pub get : ℕ → String → Store F → Result Error (Agent F)
  get now id s = elim (find (has_id id) s.agents) [
    | none ↦ err not_found
    | some a ↦ if is_live now s.ttl a then ok a else err not_found
  ]

  -- `Prune`, with the number of agents dropped.
  unfoldable pub prune : ℕ → Store F → ℕ × Store F
  prune now s = (
    length (select (λ a. not (is_live now s.ttl a)) s.agents),
    record s { agents = select (is_live now s.ttl) s.agents },
  )
