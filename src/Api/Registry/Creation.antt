-- ===== src/Api/Registry/Creation.antt =====
-- POST /registry/projects, and the project that it registers.
use hermes_forge_public.Prelude.{
  ℕ, String, ◌≡◌, refl, ap, sym, ◌∙◌, inl, inr, false, none, some, List, [], ◌∷◌, ◌++◌, arith,
  Option-cases, eq_refl, Result, err,
}
use hermes_forge_public.Sql.{find}
use hermes_forge_public.ProjectStore
use hermes_forge_public.ProjectStore.{Project, query, scan, is_named, new_row}
use hermes_forge_public.ProjectStore.Names.{insert-cases, get-appended}
use hermes_forge_public.Api.{failed, replied, decoded}
use hermes_forge_public.Api.Registry.{
  FilePaths, Calls, Reply, stored, with_defaults, check_project, stored_response, insert_response,
  handle_create,
}

-- The row of a registered project: the body with its defaults, a clean directory and the time of the
-- insert, and no icon.
abbrev pub registered : FilePaths → Calls → Project → Project
registered f c p = new_row c.first (with_defaults f p)

insert_response-ne-replied :
    (c : ProjectStore.Call) (name : String) (x : ProjectStore.Error) (t : List Project) (n : ℕ)
    (r : Reply)
    → insert_response c name (err x, t) ≡ replied n r
    → ⊥
insert_response-ne-replied c name x t n r h = ground arith

create-checked :
    (f : FilePaths) (c : Calls) (p : Project) (t : List Project)
    → check_project f p ≡ none
    → handle_create f c (decoded p) t ≡ (
      insert_response c.second p.project (ProjectStore.insert c.first (with_defaults f p) t),
      (ProjectStore.insert c.first (with_defaults f p) t).1,
    )
unfolding handle_create
create-checked f c p t e = rw (e, handle_create) refl

create-refused :
    (f : FilePaths) (c : Calls) (p : Project) (t : List Project) (kind : String) (n : ℕ) (r : Reply)
    → check_project f p ≡ some kind
    → (handle_create f c (decoded p) t).0 ≡ replied n r
    → ⊥
unfolding handle_create
create-refused f c p t kind n r e h =
    let z : failed 422 kind ≡ replied n r = rw (e, handle_create) at h in cc

-- A project that is answered to a POST was not registered before, and is now, at the end of the table,
-- with its defaults; with a working second driver the answer has status 201 and the registered row.
pub handle_create-registered :
    (f : FilePaths) (c : Calls) (p : Project) (t : List Project) (n : ℕ) (r : Reply)
    → c.second.fails query ≡ false
    → c.second.fails scan ≡ false
    → (handle_create f c (decoded p) t).0 ≡ replied n r
    → (find (is_named p.project) t ≡ none)
      × (handle_create f c (decoded p) t
          ≡ (replied 201 (stored (registered f c p)), t ++ registered f c p ∷ []))
handle_create-registered f c p t n r q s h = elim (Option-cases (check_project f p)) [
  | inr (kind, e) ↦ absurd (create-refused f c p t kind n r e h)
  | inl e ↦
      let checked = create-checked f c p t e in
      elim (insert-cases c.first (with_defaults f p) t) [
        | inl (x, i) ↦ absurd (
            insert_response-ne-replied c.second p.project x t n r
              (ap (insert_response c.second p.project) (sym i) ∙ sym (ap (λ k. k.0) checked) ∙ h))
        | inr (free, i) ↦
            let row = registered f c p in
            let read = get-appended c.second p.project t row q s (eq_refl p.project) free in
            (
              free,
              checked
                  ∙ ap
                      (λ (k : Result ProjectStore.Error (Unit {0}) × List Project).
                        (insert_response c.second p.project k, k.1))
                      i
                  ∙ ap (λ k. (stored_response 201 k, t ++ row ∷ [])) read,
            )
      ]
]
