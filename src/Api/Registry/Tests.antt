-- ===== src/Api/Registry/Tests.antt =====
-- A registration and a listing, and the theorems at concrete inputs.
use hermes_forge_public.Prelude.{ℕ, String, ◌≡◌, refl, true, false, some, List, [], ◌∷◌, map}
use hermes_forge_public.Sql.{order_by}
use hermes_forge_public.Envelope.Samples.{envelope}
use hermes_forge_public.EnvelopeStore
use hermes_forge_public.EnvelopeStore.{Table, older, is_in}
use hermes_forge_public.EnvelopeStore.Active.{
  list_active_sessions_for_projects, clear_group, clear_groups, append_group, group_rows,
}
use hermes_forge_public.ProjectStore
use hermes_forge_public.ProjectStore.{Project, is_named, by_name}
use hermes_forge_public.Api.{replied, decoded}
use hermes_forge_public.Api.Registry.{
  FilePaths, Calls, EnrichedProject, enriched, stored, handle_list, handle_create, check_project,
  build_enriched_project,
}
use hermes_forge_public.Api.Registry.Enriched.{alone, handle_list-enriched}
use hermes_forge_public.Api.Registry.Creation.{registered}

abbrev envelopes_work : EnvelopeStore.Call
envelopes_work = record {
  fails = λ n. false;
  now = 100;
  rfc3339 = λ n. "2026-01-01T00:00:00Z";
  utc_text = λ n. "2026-01-01 00:00:00 +0000 UTC";
}

abbrev projects_work : ProjectStore.Call
projects_work = record { fails = λ p. false; now = "2026-01-01" }

abbrev calls : Calls
calls = record { first = projects_work; second = projects_work; active = envelopes_work }

abbrev plain_paths : FilePaths
plain_paths = record { is_abs = λ t. true; clean = λ t. t }

abbrev project : String → Project
project name = record {
  project = name;
  domain = "";
  target_node = "";
  target_executor = "";
  working_dir = "/src";
  created_at = "";
  icon_path = "";
}

abbrev forge : List Project
forge = project "forge" ∷ []

answered :
    (handle_create plain_paths calls (decoded (project "hermes")) forge).0
    ≡ replied 201 (stored (registered plain_paths calls (project "hermes")))
unfolding handle_create check_project ProjectStore.insert ProjectStore.get
answered = refl

abbrev both : List Project
both = project "hermes" ∷ project "forge" ∷ []

abbrev table : Table
table = envelope "a" 10 "delivered" ∷ envelope "b" 20 "in_progress" ∷ envelope "c" 30 "done" ∷ []

abbrev active : EnrichedProject
active = record {
  project = project "hermes";
  active_sessions =
      record {
        envelope_id = "b";
        title = "title";
        status = "in_progress";
        executor = "claude";
        started_at = 20;
      }
      ∷ record {
        envelope_id = "a";
        title = "title";
        status = "delivered";
        executor = "claude";
        started_at = 10;
      }
      ∷ [];
}

abbrev idle : EnrichedProject
idle = record { project = project "forge"; active_sessions = [] }

listing_answered : handle_list calls (some table) both ≡ replied 200 (enriched (idle ∷ active ∷ []))
unfolding handle_list ProjectStore.list build_enriched_project list_active_sessions_for_projects
    is_in older clear_group clear_groups append_group group_rows
listing_answered = refl

handle_list-enriched_example :
    (◌≡◌ {A = ℕ} 200 200)
    × (enriched (idle ∷ active ∷ [])
        ≡ enriched (map (alone envelopes_work table) (order_by by_name both)))
handle_list-enriched_example =
    handle_list-enriched calls envelopes_work table both 200 (enriched (idle ∷ active ∷ [])) refl
      listing_answered
