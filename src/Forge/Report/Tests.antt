-- ===== src/Forge/Report/Tests.antt =====
-- A snapshot of three processes, and the theorems at concrete inputs.
use hermes_forge_public.Prelude.{ℕ, ◌≡◌, refl, some, List, [], ◌∷◌, map, All, ltb, if◌then◌else◌}
use hermes_forge_public.Prelude.Bytes.{
  codes, same, has_prefix, contains, after, base_name, trim_start, trim_end, strip_slashes,
  last_element,
}
use hermes_forge_public.Forge.Command.{
  first_token, classify_executor, extract_flag_value, parse_session_id, build_agent_id,
}
use hermes_forge_public.Forge.Report.{
  Row, Reporter, best_project, match_project, row_of, is_language_server_child, parent_kind_of,
  ancestor_kind, classify_parent, build_agent, maybe_build_agent, build_agents, agent_of_session,
  resolve_parent, resolve_parents, scan,
}
use hermes_forge_public.Forge.Report.Projects.{IsProject, match_project-IsProject}
use hermes_forge_public.Forge.Report.Parents.{IsRooted, scan-IsRooted}

abbrev row : ℕ → ℕ → List ℕ → Row ℕ
row pid ppid command = record {
  pid = pid;
  ppid = ppid;
  cpu = 0;
  mem = 0;
  started = 1;
  command = command;
}

abbrev rows : List (Row ℕ)
rows =
    row 50 1 (codes "/usr/local/bin/forge")
    ∷ row 60 50 (codes "/opt/claude --session-id abc -p x")
    ∷ row 70 2 (codes "opencode run --session=ses_1")
    ∷ row 80 70 (codes "opencode lsp")
    ∷ []

abbrev projects : List (List ℕ × List ℕ)
projects = (codes "/src", codes "all") ∷ (codes "/src/hermes", codes "hermes") ∷ []

abbrev reporter : Reporter ℕ
reporter = record {
  host = codes "mac";
  forge_pid = 50;
  project_map = projects;
  is_busy = λ cpu. ltb 0 cpu;
  read_cwd = λ pid. codes "/src/hermes/x";
  parent_id_for_session = some (λ s. if same s (codes "ses_1") then codes "abc" else []);
}

named :
    map (λ a. a.id) (scan reporter (some rows))
    ≡ codes "mac:forge:50" ∷ codes "mac:claude:abc" ∷ codes "mac:opencode:ses_1" ∷ []
unfolding scan build_agents maybe_build_agent build_agent classify_executor is_language_server_child
    row_of parse_session_id build_agent_id extract_flag_value first_token contains after base_name
    has_prefix same trim_start trim_end strip_slashes last_element resolve_parents resolve_parent
    agent_of_session
named = refl

parents : map (λ a. a.parent_id) (scan reporter (some rows)) ≡ [] ∷ [] ∷ codes "mac:claude:abc" ∷ []
unfolding scan build_agents maybe_build_agent build_agent classify_executor is_language_server_child
    row_of parse_session_id build_agent_id extract_flag_value first_token contains after base_name
    has_prefix same trim_start trim_end strip_slashes last_element resolve_parents resolve_parent
    agent_of_session
parents = refl

kinds :
    map (λ pid. classify_parent reporter rows pid) (50 ∷ 60 ∷ 1 ∷ 2 ∷ [])
    ≡ codes "forge" ∷ codes "forge" ∷ codes "init" ∷ codes "user-tty" ∷ []
unfolding classify_parent ancestor_kind parent_kind_of row_of contains has_prefix same
kinds = refl

longest_root : match_project projects (codes "/src/hermes/x") ≡ codes "hermes"
unfolding match_project best_project has_prefix same
longest_root = refl

match_project-IsProject_example :
    IsProject (codes "/src/hermes/x") projects (match_project projects (codes "/src/hermes/x"))
match_project-IsProject_example = match_project-IsProject projects (codes "/src/hermes/x")

scan-IsRooted_example : All (IsRooted (scan reporter (some rows))) (scan reporter (some rows))
scan-IsRooted_example = scan-IsRooted reporter (some rows)
