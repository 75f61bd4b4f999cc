-- ===== src/Api/Registry.antt =====
-- hermes/internal/httpapi/registry_handler.go: the routes below /registry/projects.
pub mod Enriched
pub mod Creation
mod Tests
use hermes_forge_public.Prelude.{
  ℕ, String, Bool, true, false, not, Option, none, some, List, [], ◌∷◌, map, ◌==◌, Result, ok, err,
  if◌then◌else◌,
}
use hermes_forge_public.Envelope.{Status}
use hermes_forge_public.EnvelopeStore
use hermes_forge_public.EnvelopeStore.{Table}
use hermes_forge_public.EnvelopeStore.Active
use hermes_forge_public.EnvelopeStore.Active.{Groups, list_active_sessions_for_projects, group_of}
use hermes_forge_public.ProjectStore
use hermes_forge_public.ProjectStore.{Project, Call, Error, not_found, duplicate, set_icon_path}
use hermes_forge_public.Api.{Response, failed, replied, Body, undecoded, decoded}

pub record ActiveSession : Type 0 where
  pub envelope_id : String
  pub title : String
  pub status : Status
  pub executor : String
  pub started_at : ℕ

pub record EnrichedProject : Type 0 where
  pub project : Project
  pub active_sessions : List ActiveSession

pub data Reply : Type 0 where
  projects : List Project → Reply
  enriched : List EnrichedProject → Reply
  stored : Project → Reply

-- `filepath.IsAbs` and `filepath.Clean`.
pub record FilePaths : Type 0 where
  pub is_abs : String → Bool
  pub clean : String → String

-- The drivers of the store calls of one request, in their order.
pub record Calls : Type 0 where
  pub first : Call
  pub second : Call
  pub active : EnvelopeStore.Call

abbrev pub or_default : Option ℕ → ℕ → ℕ
or_default none created = created
or_default (some at) created = at

abbrev pub active_session : Active.ActiveSession → ActiveSession
active_session s = record {
  envelope_id = s.envelope_id;
  title = s.title;
  status = s.status;
  executor = s.executor;
  started_at = or_default s.started_at s.created_at.instant;
}

unfoldable pub build_enriched_project : Project → List Active.ActiveSession → EnrichedProject
build_enriched_project p l = record { project = p; active_sessions = map active_session l }

-- `sessionsByProject[p]`; the map is nil for no projects.
abbrev pub sessions_in : Option Groups → String → List Active.ActiveSession
sessions_in none name = []
sessions_in (some groups) name = elim (group_of name groups) [ none ↦ [] | some l ↦ l ]

abbrev pub enrich : Option Groups → Project → EnrichedProject
enrich groups p = build_enriched_project p (sessions_in groups p.project)

abbrev pub name_of : Project → String
name_of p = p.project

-- `list`; without an envelope store the table is `none`.
unfoldable pub handle_list : Calls → Option Table → List Project → Response Reply
handle_list c envelopes t = elim (ProjectStore.list c.first t) [
  | err _ ↦ failed 500 "store_error"
  | ok l ↦ elim envelopes [
    | none ↦ replied 200 (projects l)
    | some table ↦ elim (list_active_sessions_for_projects c.active (map name_of l) table) [
      | err _ ↦ failed 500 "store_error"
      | ok groups ↦ replied 200 (enriched (map (enrich groups) l))
    ]
  ]
]

-- The checks of `create` on its body; the kind of a refusal.
unfoldable pub check_project : FilePaths → Project → Option String
check_project f p =
    if p.project == ""
    then some "invalid_project"
    else if p.working_dir == ""
    then some "invalid_working_dir"
    else if f.is_abs p.working_dir
    then none
    else some "invalid_working_dir"

-- The defaults that `create` sets.
abbrev pub with_defaults : FilePaths → Project → Project
with_defaults f p = record p {
  working_dir = f.clean p.working_dir;
  domain = if p.domain == "" then "default" else p.domain;
  target_node = if p.target_node == "" then "mac-forge" else p.target_node;
  target_executor = if p.target_executor == "" then "claude" else p.target_executor;
}

abbrev pub stored_response : ℕ → Result Error Project → Response Reply
stored_response status (ok p) = replied status (stored p)
stored_response status (err x) = failed 500 "store_error"

abbrev pub insert_response : Call → String → Result Error (Unit {0}) × List Project → Response Reply
insert_response c name (ok v, t) = stored_response 201 (ProjectStore.get c name t)
insert_response c name (err duplicate, t) = failed 409 "duplicate_project"
insert_response c name (err x, t) = failed 500 "store_error"

unfoldable pub handle_create :
    FilePaths → Calls → Body Project → List Project → Response Reply × List Project
handle_create f c undecoded t = (failed 400 "invalid_json", t)
handle_create f c (decoded p) t =
    let done = ProjectStore.insert c.first (with_defaults f p) t in
    elim (check_project f p) [
      | some kind ↦ (failed 422 kind, t)
      | none ↦ (insert_response c.second p.project done, done.1)
    ]

abbrev pub icon_response : Call → String → Result Error (Unit {0}) × List Project → Response Reply
icon_response c name (ok v, t) = stored_response 200 (ProjectStore.get c name t)
icon_response c name (err not_found, t) = failed 404 "project_not_found"
icon_response c name (err x, t) = failed 500 "store_error"

unfoldable pub handle_patch_icon :
    Calls → String → Body String → List Project → Response Reply × List Project
handle_patch_icon c name undecoded t =
    if name == "" then (failed 400 "missing_name", t) else (failed 400 "invalid_json", t)
handle_patch_icon c name (decoded icon) t =
    let done = set_icon_path c.first name icon t in
    if name == ""
    then (failed 400 "missing_name", t)
    else if icon == ""
    then (failed 422 "invalid_icon_path", t)
    else (icon_response c.second name done, done.1)
