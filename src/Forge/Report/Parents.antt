-- ===== src/Forge/Report/Parents.antt =====
-- The parents that a snapshot names.
use hermes_forge_public.Prelude.{
  ℕ, ◌≡◌, refl, ap, ◌∙◌, ◌⊎◌, inl, inr, Bool, true, false, not, ◌&&◌, ◌||◌, Option, none, some,
  List, [], ◌∷◌, arith, Bool-cases, Option-cases, All,
}
use hermes_forge_public.Prelude.Bytes.{same}
use hermes_forge_public.Forge.Command.{classify_executor}
use hermes_forge_public.Forge.Report.{
  Row, Agent, Reporter, agent_of_session, resolve_parent, resolve_parents, resolve_parent_agents,
  scan, build_agents, maybe_build_agent, build_agent, is_language_server_child,
}

same_self : (s : List ℕ) → same s s ≡ true
unfolding same
same_self [] = refl
same_self (c ∷ s) = ground (arith, same_self s)

some-injective : {a b : List ℕ} → some a ≡ some b → a ≡ b
some-injective h = cc

module _ {F : Type 0} where
  abbrev pub has_agent : List ℕ → List (Agent F) → Bool
  has_agent id [] = false
  has_agent id (a ∷ agents) = same a.id id || has_agent id agents

  -- No parent, or an agent of the list.
  abbrev pub IsRooted : List (Agent F) → Agent F → Type 0
  IsRooted all a = (a.parent_id ≡ []) ⊎ (has_agent a.parent_id all ≡ true)

  agent_of_session-has_agent :
      (session : List ℕ) (agents : List (Agent F)) (id : List ℕ)
      → agent_of_session session agents ≡ some id
      → has_agent id agents ≡ true
  unfolding agent_of_session
  agent_of_session-has_agent session [] id h = cc
  agent_of_session-has_agent session (a ∷ agents) id h =
      elim (Option-cases (agent_of_session session agents)) [
        | inr (x, e) ↦
            let z : some x ≡ some id = rw e at h in
            let there = agent_of_session-has_agent session agents id (e ∙ z) in
            rw there (ground arith)
        | inl e ↦ elim (Bool-cases (not (same a.session_id []) && same a.session_id session)) [
          | inl d ↦
              let z : some a.id ≡ some id = rw (e, d) at h in
              ap (λ x. same x id || has_agent id agents) (some-injective z)
              ∙ ap (λ x. x || has_agent id agents) (same_self id)
          | inr d ↦ let z : none ≡ some id = rw (e, d) at h in cc
        ]
      ]

  resolve_parent-id :
      (links : List ℕ → List ℕ) (all : List (Agent F)) (a : Agent F)
      → (resolve_parent links all a).id ≡ a.id
  unfolding resolve_parent
  resolve_parent-id links all a = elim (Bool-cases (same a.session_id [])) [
    | inl e ↦ rw e refl
    | inr e ↦ elim (Bool-cases (same (links a.session_id) [])) [
      | inl d ↦ rw (e, d) refl
      | inr d ↦ elim (Option-cases (agent_of_session (links a.session_id) all)) [
        | inl f ↦ rw (e, d) (rw f refl)
        | inr (id, f) ↦ rw (e, d) (rw f refl)
      ]
    ]
  ]

  has_agent-resolve_parents :
      (links : List ℕ → List ℕ) (all agents : List (Agent F)) (id : List ℕ)
      → has_agent id (resolve_parents links all agents) ≡ has_agent id agents
  unfolding resolve_parents
  has_agent-resolve_parents links all [] id = refl
  has_agent-resolve_parents links all (a ∷ agents) id =
      ap (λ x. same x id || has_agent id (resolve_parents links all agents))
        (resolve_parent-id links all a)
      ∙ ap (λ x. same a.id id || x) (has_agent-resolve_parents links all agents id)

  resolve_parent-IsRooted :
      (links : List ℕ → List ℕ) (all : List (Agent F)) (a : Agent F)
      → a.parent_id ≡ []
      → IsRooted all (resolve_parent links all a)
  unfolding resolve_parent
  resolve_parent-IsRooted links all a h = elim (Bool-cases (same a.session_id [])) [
    | inl e ↦ rw e (inl h)
    | inr e ↦ elim (Bool-cases (same (links a.session_id) [])) [
      | inl d ↦ rw (e, d) (inl h)
      | inr d ↦ elim (Option-cases (agent_of_session (links a.session_id) all)) [
        | inl f ↦ rw (e, d) (rw f (inl h))
        | inr (id, f) ↦
            rw (e, d) (rw f (inr (agent_of_session-has_agent (links a.session_id) all id f)))
      ]
    ]
  ]

  -- No agent has a parent before the second pass.
  HasNoParents : List (Agent F) → Type 0
  HasNoParents agents = All (λ a. a.parent_id ≡ []) agents

  build_agents-HasNoParents :
      (r : Reporter F) (rows some_rows : List (Row F))
      → HasNoParents (build_agents r rows some_rows)
  unfolding HasNoParents build_agents maybe_build_agent build_agent
  build_agents-HasNoParents r rows [] = tt
  build_agents-HasNoParents r rows (row ∷ some_rows) =
      let rest = build_agents-HasNoParents r rows some_rows in
      elim (Bool-cases
        (same (classify_executor row.command) [] || is_language_server_child row rows)) [
          | inl e ↦ rw e rest
          | inr e ↦ rw e (refl, rest)
        ]

  resolve_parents-IsRooted :
      (links : List ℕ → List ℕ) (all agents : List (Agent F))
      → HasNoParents agents
      → All (IsRooted all) (resolve_parents links all agents)
  unfolding HasNoParents resolve_parents
  resolve_parents-IsRooted links all [] h = tt
  resolve_parents-IsRooted links all (a ∷ agents) (none_yet, rest) =
      (resolve_parent-IsRooted links all a none_yet, resolve_parents-IsRooted links all agents rest)

  IsRooted-resolved :
      (links : List ℕ → List ℕ) (all agents : List (Agent F))
      → All (IsRooted all) agents
      → All (IsRooted (resolve_parents links all all)) agents
  IsRooted-resolved links all [] h = tt
  IsRooted-resolved links all (a ∷ agents) (inl e, rest) =
      (inl e, IsRooted-resolved links all agents rest)
  IsRooted-resolved links all (a ∷ agents) (inr e, rest) = (
    inr (has_agent-resolve_parents links all all a.parent_id ∙ e),
    IsRooted-resolved links all agents rest,
  )

  unlinked-IsRooted :
      (all agents : List (Agent F)) → HasNoParents agents → All (IsRooted all) agents
  unfolding HasNoParents
  unlinked-IsRooted all [] h = tt
  unlinked-IsRooted all (a ∷ agents) (e, rest) = (inl e, unlinked-IsRooted all agents rest)

  resolve_parent_agents-IsRooted :
      (r : Reporter F) (agents : List (Agent F))
      → HasNoParents agents
      → All (IsRooted (resolve_parent_agents r agents)) (resolve_parent_agents r agents)
  resolve_parent_agents-IsRooted r agents h = elim (Option-cases r.parent_id_for_session) [
    | inl e ↦ rw e (unlinked-IsRooted agents agents h)
    | inr (links, e) ↦ rw e (
        IsRooted-resolved links agents (resolve_parents links agents agents)
          (resolve_parents-IsRooted links agents agents h))
  ]

  -- Whatever ps prints and the link store says, the parent of every agent in a snapshot is an agent of the
  -- same snapshot, if it names one.
  pub scan-IsRooted :
      (r : Reporter F) (rows : Option (List (Row F))) → All (IsRooted (scan r rows)) (scan r rows)
  unfolding scan
  scan-IsRooted r none = tt
  scan-IsRooted r (some rows) =
      resolve_parent_agents-IsRooted r (build_agents r rows rows)
        (build_agents-HasNoParents r rows rows)
