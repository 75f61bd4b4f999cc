-- ===== src/EnvelopeStore/Active.antt =====
-- ListActiveSessions and ListActiveSessionsForProjects of hermes/internal/envelopestore/sqlite.go.
pub mod Batch
use hermes_forge_public.Prelude.{
  ℕ, String, Bool, ◌&&◌, Option, none, some, List, [], ◌∷◌, ◌++◌, map, ◌==◌, Result, ok, err,
  if◌then◌else◌,
}
use hermes_forge_public.Prelude.TextOrder.{text_lt}
use hermes_forge_public.Sql.{select, order_by}
use hermes_forge_public.Envelope.{Status, Time, Envelope, Error, driver}
use hermes_forge_public.EnvelopeStore.{Table, Call, newer, is_in}

pub record ActiveSession : Type 0 where
  pub envelope_id : String
  pub title : String
  pub status : Status
  pub executor : String
  pub started_at : Option ℕ
  pub created_at : Time

-- status IN ('delivered', 'in_progress')
abbrev pub is_active : Envelope → Bool
is_active e = is_in ("delivered" ∷ "in_progress" ∷ []) e.status

abbrev pub active_session : Envelope → ActiveSession
active_session e = record {
  envelope_id = e.id;
  title = e.title;
  status = e.status;
  executor = e.target_executor;
  started_at = e.metrics.started_at;
  created_at = e.created_at;
}

-- WHERE project = ? AND status IN (…)
abbrev pub is_active_in : String → Envelope → Bool
is_active_in project e = e.project == project && is_active e

unfoldable pub list_active_sessions : Call → String → Table → Result Error (List ActiveSession)
list_active_sessions c project t =
    if c.fails 0
    then err (driver 0)
    else ok (map active_session (order_by newer (select (is_active_in project) t)))

-- A `map[string][]ActiveSession`: each key once.
abbrev pub Groups : Type 0
Groups = List (String × List ActiveSession)

abbrev pub group_of : String → Groups → Option (List ActiveSession)
group_of p [] = none
group_of p ((q, l) ∷ g) = if q == p then some l else group_of p g

-- `result[p] = nil`
unfoldable pub clear_group : String → Groups → Groups
clear_group p [] = (p, []) ∷ []
clear_group p ((q, l) ∷ g) = if q == p then (q, []) ∷ g else (q, l) ∷ clear_group p g

unfoldable pub clear_groups : List String → Groups → Groups
clear_groups [] g = g
clear_groups (p ∷ ps) g = clear_groups ps (clear_group p g)

-- `result[p] = append(result[p], s)`
unfoldable pub append_group : String → ActiveSession → Groups → Groups
append_group p s [] = (p, s ∷ []) ∷ []
append_group p s ((q, l) ∷ g) = if q == p then (q, l ++ s ∷ []) ∷ g else (q, l) ∷ append_group p s g

-- The loop over the rows.
unfoldable pub group_rows : List Envelope → Groups → Groups
group_rows [] g = g
group_rows (e ∷ es) g = group_rows es (append_group e.project (active_session e) g)

-- ORDER BY project, created_at DESC, id DESC
abbrev pub by_project : Envelope → Envelope → Bool
by_project a b = if a.project == b.project then newer a b else text_lt a.project b.project

-- WHERE project IN (…) AND status IN (…)
abbrev pub is_active_among : List String → Envelope → Bool
is_active_among projects e = is_in projects e.project && is_active e

-- `none` is the nil map, which is returned for no projects.
unfoldable pub list_active_sessions_for_projects :
    Call → List String → Table → Result Error (Option Groups)
list_active_sessions_for_projects c [] t = ok none
list_active_sessions_for_projects c projects t =
    if c.fails 0
    then err (driver 0)
    else ok (
        some (
          group_rows (order_by by_project (select (is_active_among projects) t))
            (clear_groups projects [])))
