-- ===== src/Forge/Links.antt =====
-- forge/internal/httpapi/agent_link_handler.go: which agent started which, until the next snapshot
-- takes it along. The lock makes each operation one step.
use hermes_forge_public.Prelude.{ℕ, String, ◌||◌, Option, none, some, List, ◌==◌, if◌then◌else◌}
use hermes_forge_public.Forge.{put, lookup}

abbrev pub link : String → String → List (String × String) → List (String × String)
link child parent links = put child parent links

-- An unknown child has the empty parent.
abbrev pub or_unknown : Option String → String
or_unknown none = ""
or_unknown (some parent) = parent

unfoldable pub parent_of : String → List (String × String) → String
parent_of child links = or_unknown (lookup child links)

pub record LinkRequest : Type 0 where
  pub agent_id : String
  pub parent_id : String

-- The status of the response with the code of an error, or `none` where it is 200.
pub data LinkResponse : Type 0 where
  refused : ℕ → String → LinkResponse
  linked : LinkResponse

-- `link` of a POST; a body that does not decode is `none`.
unfoldable pub handle_link :
    Option LinkRequest → List (String × String) → LinkResponse × List (String × String)
handle_link none links = (refused 400 "invalid_json", links)
handle_link (some req) links =
    if req.agent_id == "" || req.parent_id == ""
    then (refused 422 "missing_fields", links)
    else (linked, link req.agent_id req.parent_id links)
