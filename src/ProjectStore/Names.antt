-- ===== src/ProjectStore/Names.antt =====
-- What the registry of projects finds under a name.
use hermes_forge_public.Prelude.{
  String, ◌≡◌, refl, ◌⊎◌, inl, inr, true, false, none, some, List, [], ◌∷◌, ◌++◌, arith, Bool-cases,
  Option-cases, ◌==◌, ok, err,
}
use hermes_forge_public.Sql.{find}
use hermes_forge_public.ProjectStore.{
  Project, Call, Error, exec, query, scan, driver, duplicate, is_named, new_row, insert, get,
}

pub insert-cases :
    (c : Call) (p : Project) (t : List Project)
    → ((x : Error) × (insert c p t ≡ (err x, t)))
      ⊎ ((find (is_named p.project) t ≡ none) × (insert c p t ≡ (ok tt, t ++ new_row c p ∷ [])))
unfolding insert
insert-cases c p t = elim (Bool-cases (c.fails exec)) [
  | inl e ↦ inl (driver exec, rw e refl)
  | inr e ↦ elim (Option-cases (find (is_named p.project) t)) [
    | inr (x, f) ↦ inl (duplicate, rw (e, f) refl)
    | inl n ↦ inr (n, rw (e, n) refl)
  ]
]

find-append :
    (name : String) (t : List Project) (p : Project)
    → (p.project == name) ≡ true
    → find (is_named name) t ≡ none
    → find (is_named name) (t ++ p ∷ []) ≡ some p
find-append name [] p e h = rw e refl
find-append name (x ∷ t) p e h = elim (Bool-cases (x.project == name)) [
  | inl q ↦ ground arith
  | inr q ↦ rw q (find-append name t p e (rw q at h))
]

pub get-appended :
    (c : Call) (name : String) (t : List Project) (p : Project)
    → c.fails query ≡ false
    → c.fails scan ≡ false
    → (p.project == name) ≡ true
    → find (is_named name) t ≡ none
    → get c name (t ++ p ∷ []) ≡ ok p
unfolding get
get-appended c name t p q s e h = let f = find-append name t p e h in rw (q, f) (rw s refl)
