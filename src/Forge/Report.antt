-- ===== src/Forge/Report.antt =====
-- forge/internal/agentreport/reporter.go: the snapshot of the host's executors, from the rows of `ps` on.
-- A text is the list of its bytes, and `F` is float64.
pub mod Projects
pub mod Parents
mod Tests
use hermes_forge_public.Prelude.{
  ℕ, zero, suc, Bool, true, false, not, ◌&&◌, ◌||◌, Option, none, some, List, [], ◌∷◌, ◌++◌, eqb,
  ltb, length, take, if◌then◌else◌,
}
use hermes_forge_public.Prelude.Texts.{decimal}
use hermes_forge_public.Prelude.Bytes.{
  codes, same, has_prefix, contains, after, trim_space, base_name,
}
use hermes_forge_public.Forge.Command.{
  classify_executor, parse_session_id, build_agent_id, derive_title,
}

-- `psRow`; ps prints no negative process id.
pub record Row (F : Type 0) : Type 0 where
  pub pid : ℕ
  pub ppid : ℕ
  pub cpu : F
  pub mem : F
  pub started : ℕ
  pub command : List ℕ

pub record Agent (F : Type 0) : Type 0 where
  pub id : List ℕ
  pub host : List ℕ
  pub executor : List ℕ
  pub pid : ℕ
  pub cwd : List ℕ
  pub project : List ℕ
  pub session_id : List ℕ
  pub title : List ℕ
  pub state : List ℕ
  pub parent_kind : List ℕ
  pub parent_id : List ℕ
  pub cpu_percent : F
  pub mem_percent : F
  pub started_at : ℕ

-- What the reporter is built with: the map of its projects in the order in which it is walked, the test
-- whether a load is at least 1, the answer of lsof for a process, and the link store, `none` if not set.
pub record Reporter (F : Type 0) : Type 0 where
  pub host : List ℕ
  pub forge_pid : ℕ
  pub project_map : List (List ℕ × List ℕ)
  pub is_busy : F → Bool
  pub read_cwd : ℕ → List ℕ
  pub parent_id_for_session : Option (List ℕ → List ℕ)

-- One step of the walk over the project map: the longest root so far, with its name.
abbrev pub better_project : List ℕ → List ℕ × List ℕ → ℕ × List ℕ → ℕ × List ℕ
better_project cwd (prefix, name) (best, best_name) =
    if same prefix [] || not (has_prefix prefix cwd)
    then (best, best_name)
    else if ltb best (length prefix)
    then (length prefix, name)
    else (best, best_name)

unfoldable pub best_project : List ℕ → List (List ℕ × List ℕ) → ℕ × List ℕ → ℕ × List ℕ
best_project cwd [] best = best
best_project cwd (entry ∷ projects) best = best_project cwd projects (better_project cwd entry best)

unfoldable pub match_project : List (List ℕ × List ℕ) → List ℕ → List ℕ
match_project projects cwd = if same cwd [] then [] else (best_project cwd projects (0, [])).1

module _ {F : Type 0} where
  -- `byPID[pid]`: of two rows with one id the map has the last.
  unfoldable pub row_of : ℕ → List (Row F) → Option (Row F)
  row_of pid [] = none
  row_of pid (row ∷ rows) = elim (row_of pid rows) [
    | some later ↦ some later
    | none ↦ if eqb row.pid pid then some row else none
  ]

  unfoldable pub is_language_server_child : Row F → List (Row F) → Bool
  is_language_server_child row rows = elim (row_of row.ppid rows) [
    | none ↦ false
    | some parent ↦
        same (classify_executor parent.command) (codes "claude")
        || same (classify_executor parent.command) (codes "opencode")
  ]

  unfoldable pub parent_kind_of : Reporter F → Row F → List ℕ
  parent_kind_of r row =
      if not (eqb r.forge_pid 0) && eqb row.pid r.forge_pid
      then codes "forge"
      else if contains (codes "osm-daemon.py") row.command
      then codes "osm-daemon"
      else if contains (codes "/cmux.app/") row.command || contains (codes "/cmux ") row.command
      then codes "cmux"
      else []

  -- The loop of `classifyParent`; the first argument is the number of levels left.
  unfoldable pub ancestor_kind : ℕ → Reporter F → List (Row F) → ℕ → Option (List ℕ)
  ancestor_kind zero r rows pid = none
  ancestor_kind (suc levels) r rows pid = if not (ltb 1 pid) then none else elim (row_of pid rows) [
    | none ↦ none
    | some row ↦
        let further = ancestor_kind levels r rows row.ppid in
        if same (parent_kind_of r row) [] then further else some (parent_kind_of r row)
  ]

  unfoldable pub classify_parent : Reporter F → List (Row F) → ℕ → List ℕ
  classify_parent r rows ppid = elim (ancestor_kind 6 r rows ppid) [
    | some kind ↦ kind
    | none ↦ if eqb ppid 1 then codes "init" else codes "user-tty"
  ]

  -- `maybeBuildAgent` of a row that is an executor.
  unfoldable pub build_agent : Reporter F → List (Row F) → Row F → List ℕ → Agent F
  build_agent r rows row exec =
      let session = parse_session_id exec row.command in
      let cwd = r.read_cwd row.pid in
      record {
        id = build_agent_id r.host exec session row.pid;
        host = r.host;
        executor = exec;
        pid = row.pid;
        cwd = cwd;
        project = match_project r.project_map cwd;
        session_id = session;
        title = derive_title row.command session;
        state = if r.is_busy row.cpu then codes "active" else codes "idle";
        parent_kind = classify_parent r rows row.ppid;
        parent_id = [];
        cpu_percent = row.cpu;
        mem_percent = row.mem;
        started_at = row.started;
      }

  unfoldable pub maybe_build_agent : Reporter F → List (Row F) → Row F → Option (Agent F)
  maybe_build_agent r rows row =
      let exec = classify_executor row.command in
      if same exec [] || is_language_server_child row rows
      then none
      else some (build_agent r rows row exec)

  abbrev pub and_more : Option (Agent F) → List (Agent F) → List (Agent F)
  and_more none agents = agents
  and_more (some a) agents = a ∷ agents

  -- The loop of `buildAgentsFromRows` over some of all rows.
  unfoldable pub build_agents : Reporter F → List (Row F) → List (Row F) → List (Agent F)
  build_agents r all [] = []
  build_agents r all (row ∷ rows) = and_more (maybe_build_agent r all row) (build_agents r all rows)

  -- `sessionToAgent[session]`: of two agents with one session the map has the last; an empty session is
  -- no key.
  unfoldable pub agent_of_session : List ℕ → List (Agent F) → Option (List ℕ)
  agent_of_session session [] = none
  agent_of_session session (a ∷ agents) = elim (agent_of_session session agents) [
    | some id ↦ some id
    | none ↦ if not (same a.session_id []) && same a.session_id session then some a.id else none
  ]

  abbrev pub with_parent : Option (List ℕ) → Agent F → Agent F
  with_parent none a = a
  with_parent (some id) a = record a { parent_id = id }

  -- One agent of `resolveParentAgents`.
  unfoldable pub resolve_parent : (List ℕ → List ℕ) → List (Agent F) → Agent F → Agent F
  resolve_parent links all a =
      if same a.session_id []
      then a
      else if same (links a.session_id) []
      then a
      else with_parent (agent_of_session (links a.session_id) all) a

  unfoldable pub resolve_parents :
      (List ℕ → List ℕ) → List (Agent F) → List (Agent F) → List (Agent F)
  resolve_parents links all [] = []
  resolve_parents links all (a ∷ agents) =
      resolve_parent links all a ∷ resolve_parents links all agents

  abbrev pub resolve_parent_agents : Reporter F → List (Agent F) → List (Agent F)
  resolve_parent_agents r agents = elim r.parent_id_for_session [
    | none ↦ agents
    | some links ↦ resolve_parents links agents agents
  ]

  -- `Scan` of the rows of ps, `none` if ps fails.
  unfoldable pub scan : Reporter F → Option (List (Row F)) → List (Agent F)
  scan r none = []
  scan r (some rows) = resolve_parent_agents r (build_agents r rows rows)

  -- The agents of the snapshot that `fire` posts, if it posts one.
  unfoldable pub fire : Reporter F → Option (List (Row F)) → Option (List (Agent F))
  fire r rows = elim (scan r rows) [ [] ↦ none | a ∷ agents ↦ some (a ∷ agents) ]
