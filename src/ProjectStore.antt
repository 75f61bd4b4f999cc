-- ===== src/ProjectStore.antt =====
-- hermes/internal/projectstore/store.go: the registry of projects. Rows stand in the order of insertion;
-- a NULL icon path is read as the empty text, and is that here.
pub mod Names
use hermes_forge_public.Prelude.{
  ℕ, String, Bool, true, false, not, ◌||◌, Option, none, some, List, [], ◌∷◌, ◌++◌, ◌==◌, eqb,
  Result, ok, err, if◌then◌else◌,
}
use hermes_forge_public.Prelude.TextOrder.{text_le}
use hermes_forge_public.Sql.{find, update, affected, order_by}

pub record Project : Type 0 where
  pub project : String
  pub domain : String
  pub target_node : String
  pub target_executor : String
  pub working_dir : String
  pub created_at : String
  pub icon_path : String

pub data Point : Type 0 where
  exec query scan rows_affected : Point

pub data Error : Type 0 where
  not_found duplicate : Error
  driver : Point → Error

-- `fails p` says that the driver call p returns an error; `now` is SQLite's clock as text.
pub record Call : Type 0 where
  pub fails : Point → Bool
  pub now : String

-- WHERE project = ?
abbrev pub is_named : String → Project → Bool
is_named name p = p.project == name

-- The row that `Insert` writes.
abbrev pub new_row : Call → Project → Project
new_row c p = record p {
  target_node = if p.target_node == "" then "mac-forge" else p.target_node;
  target_executor = if p.target_executor == "" then "claude" else p.target_executor;
  created_at = c.now;
  icon_path = "";
}

unfoldable pub insert : Call → Project → List Project → Result Error (Unit {0}) × List Project
insert c p t = if c.fails exec then (err (driver exec), t) else elim (find (is_named p.project) t) [
  | some _ ↦ (err duplicate, t)
  | none ↦ (ok tt, t ++ new_row c p ∷ [])
]

-- ORDER BY project
abbrev pub by_name : Project → Project → Bool
by_name a b = text_le a.project b.project

unfoldable pub list : Call → List Project → Result Error (List Project)
list c t =
    if c.fails query
    then err (driver query)
    else if c.fails scan
    then err (driver scan)
    else ok (order_by by_name t)

unfoldable pub get : Call → String → List Project → Result Error Project
get c name t = if c.fails query then err (driver query) else elim (find (is_named name) t) [
  | none ↦ err not_found
  | some p ↦ if c.fails scan then err (driver scan) else ok p
]

abbrev pub with_icon : String → Project → Project
with_icon icon p = record p { icon_path = icon }

-- The error of `RowsAffected` is dropped, and leaves its count at 0.
unfoldable pub set_icon_path :
    Call → String → String → List Project → Result Error (Unit {0}) × List Project
set_icon_path c name icon t =
    let t' = update (is_named name) (with_icon icon) t in
    if c.fails exec
    then (err (driver exec), t)
    else if c.fails rows_affected || eqb (affected (is_named name) t) 0
    then (err not_found, t')
    else (ok tt, t')
