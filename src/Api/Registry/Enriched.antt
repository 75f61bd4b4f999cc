-- ===== src/Api/Registry/Enriched.antt =====
-- GET /registry/projects with its active sessions.
use hermes_forge_public.Prelude.{
  ℕ, String, ◌≡◌, refl, ap, ◌∙◌, ◌⊎◌, inl, inr, true, false, Option, none, some, List, [], ◌∷◌, map,
  Bool-cases, Result-cases, All, Result, ok, err,
}
use hermes_forge_public.Sql.{order_by}
use hermes_forge_public.Envelope
use hermes_forge_public.EnvelopeStore
use hermes_forge_public.EnvelopeStore.{Table, is_in}
use hermes_forge_public.EnvelopeStore.Active
use hermes_forge_public.EnvelopeStore.Active.{
  Groups, list_active_sessions, list_active_sessions_for_projects, group_of,
}
use hermes_forge_public.EnvelopeStore.Active.Batch.{
  group_of-list_active_sessions, is_in-head, is_in-tail, groups-some,
}
use hermes_forge_public.ProjectStore
use hermes_forge_public.ProjectStore.{Project, by_name, query, scan, driver}
use hermes_forge_public.Api.{failed, replied}
use hermes_forge_public.Api.Registry.{
  Calls, Reply, enriched, EnrichedProject, active_session, sessions_in, enrich, name_of,
  build_enriched_project, handle_list,
}

-- The list of one project, as ListActiveSessions returns it.
abbrev pub listed : Result Envelope.Error (List Active.ActiveSession) → List Active.ActiveSession
listed (ok l) = l
listed (err x) = []

-- A project with the sessions that the query for it alone finds.
abbrev pub alone : EnvelopeStore.Call → Table → Project → EnrichedProject
alone d table p = record {
  project = p;
  active_sessions = map active_session (listed (list_active_sessions d p.project table));
}

list_active_sessions-ok :
    (d : EnvelopeStore.Call) (name : String) (table : Table)
    → d.fails 0 ≡ false
    → list_active_sessions d name table ≡ ok (listed (list_active_sessions d name table))
unfolding list_active_sessions
list_active_sessions-ok d name table w = rw w refl

-- The names are among the requested ones.
AreNamed : List String → List Project → Type 0
AreNamed names l = All (λ p. is_in names p.project ≡ true) l

AreNamed-tail :
    (q : String) (names : List String) (l : List Project)
    → AreNamed names l
    → AreNamed (q ∷ names) l
unfolding AreNamed
AreNamed-tail q names [] h = tt
AreNamed-tail q names (p ∷ l) h = (is_in-tail q p.project names h.0, AreNamed-tail q names l h.1)

AreNamed-self : (l : List Project) → AreNamed (map name_of l) l
unfolding AreNamed
AreNamed-self [] = tt
AreNamed-self (p ∷ l) = (
  is_in-head p.project (map name_of l),
  AreNamed-tail p.project (map name_of l) l (AreNamed-self l),
)

module _ (c d : EnvelopeStore.Call) (names : List String) (table : Table) (groups : Groups)
    (w : d.fails 0 ≡ false)
    (found : list_active_sessions_for_projects c names table ≡ ok (some groups)) where
  enrich-alone :
      (p : Project) → is_in names p.project ≡ true → enrich (some groups) p ≡ alone d table p
  unfolding build_enriched_project
  enrich-alone p h =
      let e =
        group_of-list_active_sessions c d p.project names table h found
          (list_active_sessions-ok d p.project table w) in
      rw (e, sessions_in) refl

  map-enrich :
      (l : List Project) → AreNamed names l → map (enrich (some groups)) l ≡ map (alone d table) l
  unfolding AreNamed
  map-enrich [] h = refl
  map-enrich (p ∷ l) h =
      ap (λ x. x ∷ map (enrich (some groups)) l) (enrich-alone p h.0)
      ∙ ap (λ r. alone d table p ∷ r) (map-enrich l h.1)

map-enrich_all :
    (c d : EnvelopeStore.Call) (table : Table) (l : List Project) (groups : Option Groups)
    → d.fails 0 ≡ false
    → list_active_sessions_for_projects c (map name_of l) table ≡ ok groups
    → map (enrich groups) l ≡ map (alone d table) l
map-enrich_all c d table [] groups w found = refl
map-enrich_all c d table (p ∷ l) none w found =
    absurd (groups-some c p.project (map name_of l) table none found refl)
map-enrich_all c d table (p ∷ l) (some groups) w found =
    map-enrich c d (map name_of (p ∷ l)) table groups w found (p ∷ l) (AreNamed-self (p ∷ l))

list-cases :
    (c : ProjectStore.Call) (t : List Project)
    → ((x : ProjectStore.Error) × (ProjectStore.list c t ≡ err x))
      ⊎ (ProjectStore.list c t ≡ ok (order_by by_name t))
unfolding ProjectStore.list
list-cases c t = elim (Bool-cases (c.fails query)) [
  | inl e ↦ inl (driver query, rw e refl)
  | inr e ↦ elim (Bool-cases (c.fails scan)) [
    | inl d ↦ inl (driver scan, rw (e, d) refl)
    | inr d ↦ inr (rw (e, d) refl)
  ]
]

-- A listing of the projects that is answered with status 200 has every project, by name, with the
-- active sessions that the query for the project alone finds, in its order.
pub handle_list-enriched :
    (c : Calls) (d : EnvelopeStore.Call) (table : Table) (t : List Project) (n : ℕ) (r : Reply)
    → d.fails 0 ≡ false
    → handle_list c (some table) t ≡ replied n r
    → (n ≡ 200) × (r ≡ enriched (map (alone d table) (order_by by_name t)))
unfolding handle_list
handle_list-enriched c d table t n r w h = elim (list-cases c.first t) [
  | inl (x, e) ↦ let z : failed 500 "store_error" ≡ replied n r = rw (e, handle_list) at h in cc
  | inr e ↦
      let l = order_by by_name t in
      elim (Result-cases (list_active_sessions_for_projects c.active (map name_of l) table)) [
        | inr (x, f) ↦
            let z : failed 500 "store_error" ≡ replied n r = rw (e, f, handle_list) at h in cc
        | inl (groups, f) ↦
            let z : replied 200 (enriched (map (enrich groups) l)) ≡ replied n r =
              rw (e, f, handle_list) at h in
            let same = map-enrich_all c.active d table l groups w f in
            let is_r : r ≡ enriched (map (enrich groups) l) = cc in (cc, is_r ∙ ap enriched same)
      ]
]
