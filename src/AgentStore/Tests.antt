-- ===== src/AgentStore/Tests.antt =====
-- Snapshots of two agents, and the theorems at concrete inputs.
use hermes_forge_public.Prelude.{ℕ, String, ◌≡◌, refl, some, [], ◌∷◌, arith, ok, err}
use hermes_forge_public.Prelude.Int.{pos}
use hermes_forge_public.Sql.{find}
use hermes_forge_public.AgentStore.{Agent, Snapshot, Store, not_found, has_id, apply, get}
use hermes_forge_public.AgentStore.Applied.{HasUniqueIds, expected, timed, seen_in, find-apply}
use hermes_forge_public.AgentStore.Visible.{get-apply_older}

abbrev agent : String → ℕ → ℕ → Agent ℕ
agent id seen stale = record {
  id = id;
  host = "mac";
  executor = "claude";
  pid = pos 7;
  cwd = "/src";
  project = "hermes";
  session_id = "s1";
  title = "";
  state = "active";
  parent_kind = "";
  parent_id = "";
  cpu_percent = 0;
  mem_percent = 0;
  started_at = 1;
  last_seen_at = seen;
  stale_at = stale;
  reported_by = "mac";
}

-- What is stored: a live agent, and one that the snapshot of time 60 did not name.
abbrev two : Store ℕ
two = record { ttl = 30; agents = agent "a1" 60 0 ∷ agent "a2" 50 60 ∷ [] }

-- A snapshot taken before that, and one taken later.
abbrev older : Snapshot ℕ
older = record { host = "mac"; taken_at = 55; agents = agent "a2" 0 0 ∷ [] }

abbrev later : Snapshot ℕ
later = record { host = "mac"; taken_at = 70; agents = agent "a2" 0 0 ∷ [] }

later-HasUniqueIds : HasUniqueIds later.agents
later-HasUniqueIds = (refl, refl, tt)

find-apply_example :
    find (has_id "a1") (apply 71 later two).1.agents
    ≡ expected (timed 71 later) (find (has_id "a1") later.agents) (find (has_id "a1") two.agents)
find-apply_example = find-apply 71 later two "a1" refl later-HasUniqueIds

get-apply_older_example :
    (get 80 "a2" two ≡ err not_found)
    × (get 80 "a2" (apply 80 older two).1
        ≡ ok (seen_in older (agent "a2" 0 0) (some (agent "a2" 50 60))))
get-apply_older_example =
    get-apply_older 80 older two "a2" (agent "a2" 0 0) (agent "a2" 50 60) refl (refl, refl, tt) refl
      refl (omega arith) (omega arith) (omega arith)
