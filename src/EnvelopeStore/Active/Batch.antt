-- ===== src/EnvelopeStore/Active/Batch.antt =====
-- The batched query agrees with one query to a project.
use hermes_forge_public.Prelude.{
  String, Option, ◌≡◌, ◌≢◌, refl, ap, sym, ◌∙◌, inl, inr, Bool, true, false, none, some, ◌∷◌, List,
  [], ◌++◌, map, arith, ◌&&◌, Bool-cases, ok, ◌==◌, eq_iff, if◌then◌else◌, eq_refl,
}
use mathlib.Core.List.{append_assoc, append-nil}
use hermes_forge_public.Prelude.TextOrder.{text_lt_total, text_lt_trans, text_lt-ne}
use hermes_forge_public.Sql.{select, order_by}
use hermes_forge_public.Sql.Filter.{select_ext, select-select, select-order_by}
use hermes_forge_public.Envelope.{Envelope}
use hermes_forge_public.EnvelopeStore.{Table, Call, newer, is_in}
use hermes_forge_public.EnvelopeStore.Queue.{older_total, older_trans}
use hermes_forge_public.EnvelopeStore.Active.{
  ActiveSession, Groups, active_session, is_active_in, is_active_among, by_project, group_of,
  clear_group, clear_groups, append_group, group_rows, list_active_sessions,
  list_active_sessions_for_projects,
}

group_of-append_group :
    (p q : String) (s : ActiveSession) (g : Groups) (l : List ActiveSession)
    → group_of p g ≡ some l
    → group_of p (append_group q s g) ≡ some (if q == p then l ++ s ∷ [] else l)
unfolding append_group
group_of-append_group p q s [] l h = cc
group_of-append_group p q s ((r, m) ∷ g) l h =
    ground (arith, eq_iff r q, eq_iff r p, eq_iff q p, group_of-append_group p q s g l)

-- The rows of a project, in the order of the scan.
abbrev of_project : String → Envelope → Bool
of_project p e = e.project == p

group_of-group_rows :
    (p : String) (es : List Envelope) (g : Groups) (l : List ActiveSession)
    → group_of p g ≡ some l
    → group_of p (group_rows es g) ≡ some (l ++ map active_session (select (of_project p) es))
unfolding group_rows
group_of-group_rows p [] g l h = rw append-nil h
group_of-group_rows p (e ∷ es) g l h = elim (Bool-cases (e.project == p)) [
  | inl c ↦
      let a = group_of-append_group p e.project (active_session e) g l h in
      let r =
        group_of-group_rows p es (append_group e.project (active_session e) g)
          (l ++ active_session e ∷ []) (rw c at a) in
      rw c (
        r
        ∙ ap some (
            append_assoc l (active_session e ∷ []) (map active_session (select (of_project p) es))))
  | inr c ↦
      let a = group_of-append_group p e.project (active_session e) g l h in
      rw c (group_of-group_rows p es (append_group e.project (active_session e) g) l (rw c at a))
]

group_of-clear_group :
    (p q : String) (g : Groups)
    → group_of p (clear_group q g) ≡ (if q == p then some [] else group_of p g)
unfolding clear_group
group_of-clear_group p q [] = ground (arith, eq_iff q p)
group_of-clear_group p q ((r, m) ∷ g) =
    ground (arith, eq_iff r q, eq_iff r p, eq_iff q p, group_of-clear_group p q g)

group_of-clear_groups :
    (p : String) (ps : List String) (g : Groups)
    → group_of p (clear_groups ps g) ≡ (if is_in ps p then some [] else group_of p g)
unfolding clear_groups is_in
group_of-clear_groups p [] g = refl
group_of-clear_groups p (q ∷ ps) g = ground (
  arith,
  group_of-clear_groups p ps (clear_group q g),
  group_of-clear_group p q g,
  eq_iff p q,
  eq_iff q p,
)

by_project_total : (a b : Envelope) → by_project a b ≡ false → by_project b a ≡ true
by_project_total a b h = ground (
  arith,
  eq_iff a.project b.project,
  eq_iff b.project a.project,
  text_lt_total a.project b.project,
  older_total b a,
)

by_project_trans :
    (a b c : Envelope) → by_project a b ≡ true → by_project b c ≡ true → by_project a c ≡ true
by_project_trans a b c h k = ground (
  arith,
  eq_iff a.project b.project,
  eq_iff b.project c.project,
  eq_iff a.project c.project,
  text_lt_trans a.project b.project c.project,
  text_lt-ne a.project c.project,
  older_trans c b a,
)

by_project_agree :
    (p : String) (a b : Envelope)
    → of_project p a ≡ true
    → of_project p b ≡ true
    → by_project a b ≡ newer a b
by_project_agree p a b h k =
    ground (arith, eq_iff a.project p, eq_iff b.project p, eq_iff a.project b.project)

among_project :
    (p : String) (ps : List String) (e : Envelope)
    → is_in ps p ≡ true
    → (of_project p e && is_active_among ps e) ≡ is_active_in p e
among_project p ps e h = elim (Bool-cases (e.project == p)) [
  | inl c ↦ rw ((eq_iff e.project p).0 c) (rw (h, eq_refl p))
  | inr c ↦ rw c
]

rows_of_project :
    (p : String) (ps : List String) (t : Table)
    → is_in ps p ≡ true
    → select (of_project p) (order_by by_project (select (is_active_among ps) t))
      ≡ order_by newer (select (is_active_in p) t)
rows_of_project p ps t h =
    select-order_by (of_project p) by_project newer by_project_trans (by_project_agree p)
      by_project_total (select (is_active_among ps) t)
    ∙ ap (order_by newer) (
        select-select (of_project p) (is_active_among ps) t
        ∙ select_ext (λ e. of_project p e && is_active_among ps e) (is_active_in p)
            (λ e. among_project p ps e h) t)

-- Where both queries succeed, ListActiveSessionsForProjects gives each requested project the list,
-- in the order, that ListActiveSessions returns for it alone.
pub group_of-list_active_sessions :
    (c d : Call) (p : String) (ps : List String) (t : Table) {g : Groups} {l : List ActiveSession}
    → is_in ps p ≡ true
    → list_active_sessions_for_projects c ps t ≡ ok (some g)
    → list_active_sessions d p t ≡ ok l
    → group_of p g ≡ some l
unfolding list_active_sessions list_active_sessions_for_projects is_in
group_of-list_active_sessions c d p [] t i h k = cc
group_of-list_active_sessions c d p (q ∷ qs) t {g} {l} i h k =
    let ps = q ∷ qs in
    let start : group_of p (clear_groups ps []) ≡ some [] =
      group_of-clear_groups p ps [] ∙ ap (λ b. if b then some [] else none) i in
    let sorted = order_by by_project (select (is_active_among ps) t) in
    let rows = group_of-group_rows p sorted (clear_groups ps []) [] start in
    let same_g : group_rows sorted (clear_groups ps []) ≡ g = ground arith in
    let same_l : map active_session (order_by newer (select (is_active_in p) t)) ≡ l =
      ground arith in
    ap (group_of p) (sym same_g)
    ∙ rows
    ∙ ap (λ r. some (map active_session r)) (rows_of_project p ps t i)
    ∙ ap some same_l

pub is_in-head : (p : String) (ps : List String) → is_in (p ∷ ps) p ≡ true
unfolding is_in
is_in-head p ps = rw (eq_refl p) refl

pub is_in-tail : (q p : String) (ps : List String) → is_in ps p ≡ true → is_in (q ∷ ps) p ≡ true
unfolding is_in
is_in-tail q p ps h = ground arith

-- The map is made for one project and more.
pub groups-some :
    (c : Call) (q : String) (qs : List String) (t : Table) (o : Option Groups)
    → list_active_sessions_for_projects c (q ∷ qs) t ≡ ok o
    → o ≢ none
unfolding list_active_sessions_for_projects
groups-some c q qs t o h e = ground arith
