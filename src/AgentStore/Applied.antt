-- ===== src/AgentStore/Applied.antt =====
-- What the store holds after a snapshot was applied.
use mathlib.Core.Option
use mathlib.Core.Path.{subst}
use hermes_forge_public.Prelude.{
  ℕ, String, ◌≡◌, refl, ap, ◌∙◌, inl, inr, true, false, ◌&&◌, Option, none, some, List, [], ◌∷◌,
  arith, Bool-cases, Option-cases, eqb, leb, eq_iff, ◌==◌, if◌then◌else◌,
}
use hermes_forge_public.Sql.{find}
use hermes_forge_public.Sql.Laws.{find-true}
use hermes_forge_public.AgentStore.{
  Agent, Snapshot, Store, has_id, put, parent_of, prepare_snapshot_agent, apply_agents, in_snapshot,
  should_mark_stale, mark_absent_agents_stale, apply,
}

module _ {F : Type 0} where
  -- Each agent of a snapshot has an id, and no two the same.
  abbrev pub HasUniqueIds : List (Agent F) → Type 0
  HasUniqueIds [] = Unit
  HasUniqueIds (a ∷ rest) =
      ((a.id == "") ≡ false) × (find (has_id a.id) rest ≡ none) × HasUniqueIds rest

  find-put :
      (id : String) (a : Agent F) (agents : List (Agent F))
      → find (has_id id) (put a agents) ≡ (if a.id == id then some a else find (has_id id) agents)
  unfolding put
  find-put id a [] = ground arith
  find-put id a (b ∷ agents) =
      ground (arith, find-put id a agents, eq_iff a.id id, eq_iff b.id id, eq_iff b.id a.id)

  prepare-put :
      (a b : Agent F) (snap : Snapshot F) (agents : List (Agent F))
      → (b.id == a.id) ≡ false
      → prepare_snapshot_agent a snap (put b agents) ≡ prepare_snapshot_agent a snap agents
  unfolding prepare_snapshot_agent
  prepare-put a b snap agents h = rw (find-put a.id b agents) (rw h refl)

  -- The stored agent with the id after the loop over the snapshot's agents.
  abbrev reported :
      Snapshot F → Option (Agent F) → List (Agent F) → Option (Agent F) → Option (Agent F)
  reported snap (some a) agents old = some (prepare_snapshot_agent a snap agents)
  reported snap none agents old = old

  prepare-id :
      (a : Agent F) (snap : Snapshot F) (agents : List (Agent F))
      → (prepare_snapshot_agent a snap agents).id ≡ a.id
  unfolding prepare_snapshot_agent
  prepare-id a snap agents = refl

  find-put_self :
      (id : String) (a : Agent F) (agents : List (Agent F))
      → (a.id == id) ≡ true
      → find (has_id id) (put a agents) ≡ some a
  find-put_self id a agents e = rw (find-put id a agents) (rw e refl)

  -- A write under another id does not matter to the agents that are still to come.
  reported-put :
      (snap : Snapshot F) (id : String) (b : Agent F) (rest agents : List (Agent F))
      → (b.id == id) ≡ false
      → reported snap (find (has_id id) rest) (put b agents) (find (has_id id) (put b agents))
        ≡ reported snap (find (has_id id) rest) agents (find (has_id id) agents)
  reported-put snap id b rest agents e = elim (Option-cases (find (has_id id) rest)) [
    | inl n ↦ rw n (rw (find-put id b agents) (rw e refl))
    | inr (x, f) ↦
        let is_id : x.id ≡ id = (eq_iff x.id id).0 (find-true (has_id id) rest f) in
        rw f (ap some (prepare-put x b snap agents (ap (λ k. b.id == k) is_id ∙ e)))
  ]

  find-apply_agents :
      (snap : Snapshot F) (id : String) (l agents : List (Agent F))
      → HasUniqueIds l
      → find (has_id id) (apply_agents snap l agents).1
        ≡ reported snap (find (has_id id) l) agents (find (has_id id) agents)
  unfolding apply_agents
  find-apply_agents snap id [] agents u = refl
  find-apply_agents snap id (a ∷ rest) agents (named, fresh, u) =
      let b = prepare_snapshot_agent a snap agents in
      let ih = find-apply_agents snap id rest (put b agents) u in
      elim (Bool-cases (a.id == id)) [
        | inl e ↦
            let absent : find (has_id id) rest ≡ none =
              subst (λ k. find (has_id k) rest ≡ none) ((eq_iff a.id id).0 e) fresh in
            rw (named, e)
              (ih
                ∙ ap (λ x. reported snap x (put b agents) (find (has_id id) (put b agents))) absent
                ∙ find-put_self id b agents (ap (λ k. k == id) (prepare-id a snap agents) ∙ e))
        | inr e ↦
            rw (named, e)
              (ih
                ∙ reported-put snap id b rest agents
                    (ap (λ k. k == id) (prepare-id a snap agents) ∙ e))
      ]

  -- An agent after `markAbsentAgentsStale`.
  abbrev marked : Snapshot F → Agent F → Agent F
  marked snap a = if should_mark_stale a snap then record a { stale_at = snap.taken_at } else a

  find-mark :
      (snap : Snapshot F) (id : String) (agents : List (Agent F))
      → find (has_id id) (mark_absent_agents_stale snap agents)
        ≡ Option.map (marked snap) (find (has_id id) agents)
  unfolding mark_absent_agents_stale
  find-mark snap id [] = refl
  find-mark snap id (a ∷ agents) = ground (arith, find-mark snap id agents)

  in_snapshot-find :
      (l : List (Agent F)) (id : String)
      → (id == "") ≡ false
      → in_snapshot l id ≡ elim (find (has_id id) l) [ some a ↦ true | none ↦ false ]
  unfolding in_snapshot
  in_snapshot-find [] id h = refl
  in_snapshot-find (a ∷ l) id h =
      ground (arith, in_snapshot-find l id h, eq_iff a.id id, eq_iff a.id "", eq_iff id "")

  -- The snapshot with the time that `Apply` gives it if it has none.
  abbrev pub timed : ℕ → Snapshot F → Snapshot F
  timed now snap = record snap { taken_at = if eqb snap.taken_at 0 then now else snap.taken_at }

  -- A reported agent as it is stored, where `old` was stored under its id.
  abbrev pub seen_in : Snapshot F → Agent F → Option (Agent F) → Agent F
  seen_in snap a old = record a {
    last_seen_at = snap.taken_at;
    stale_at = 0;
    host = if a.host == "" then snap.host else a.host;
    reported_by = if a.reported_by == "" then snap.host else a.reported_by;
    parent_id = if a.parent_id == "" then parent_of old else a.parent_id;
  }

  -- A stored agent that the snapshot does not name.
  abbrev pub unseen_in : Snapshot F → Agent F → Agent F
  unseen_in snap b =
      if b.host == snap.host && eqb b.stale_at 0 && leb b.last_seen_at snap.taken_at
      then record b { stale_at = snap.taken_at }
      else b

  abbrev pub expected : Snapshot F → Option (Agent F) → Option (Agent F) → Option (Agent F)
  expected snap (some a) old = some (seen_in snap a old)
  expected snap none old = Option.map (unseen_in snap) old

  marked_named :
      (snap : Snapshot F) (a : Agent F) → in_snapshot snap.agents a.id ≡ true → marked snap a ≡ a
  unfolding should_mark_stale
  marked_named snap a h = ground arith

  marked_unnamed :
      (snap : Snapshot F) (a : Agent F)
      → in_snapshot snap.agents a.id ≡ false
      → marked snap a ≡ unseen_in snap a
  unfolding should_mark_stale
  marked_unnamed snap a h = ground arith

  prepare-seen :
      (a : Agent F) (snap : Snapshot F) (agents : List (Agent F))
      → prepare_snapshot_agent a snap agents ≡ seen_in snap a (find (has_id a.id) agents)
  unfolding prepare_snapshot_agent
  prepare-seen a snap agents = refl

  -- The agent with the id after `markAbsentAgentsStale`, whether or not the snapshot names it.
  marked-expected :
      (snap : Snapshot F) (id : String) (agents : List (Agent F))
      → (id == "") ≡ false
      → Option.map
          (marked snap)
          (reported snap (find (has_id id) snap.agents) agents (find (has_id id) agents))
        ≡ expected snap (find (has_id id) snap.agents) (find (has_id id) agents)
  marked-expected snap id agents h = elim (Option-cases (find (has_id id) snap.agents)) [
    | inr (a, f) ↦
        let is_id : a.id ≡ id = (eq_iff a.id id).0 (find-true (has_id id) snap.agents f) in
        let named : in_snapshot snap.agents (prepare_snapshot_agent a snap agents).id ≡ true =
          ap (in_snapshot snap.agents) (prepare-id a snap agents ∙ is_id)
          ∙ in_snapshot-find snap.agents id h
          ∙ rw f refl in
        rw f (
          ap some (
            marked_named snap (prepare_snapshot_agent a snap agents) named
            ∙ prepare-seen a snap agents
            ∙ ap (λ k. seen_in snap a (find (has_id k) agents)) is_id))
    | inl n ↦ elim (Option-cases (find (has_id id) agents)) [
      | inl m ↦ rw n (rw m refl)
      | inr (b, m) ↦
          let is_id : b.id ≡ id = (eq_iff b.id id).0 (find-true (has_id id) agents m) in
          let unnamed : in_snapshot snap.agents b.id ≡ false =
            ap (in_snapshot snap.agents) is_id ∙ in_snapshot-find snap.agents id h ∙ rw n refl in
          rw n (rw m (ap some (marked_unnamed snap b unnamed)))
    ]
  ]

  -- After a snapshot with distinct ids, an agent that it names is stored as reported, seen at the
  -- snapshot's time and not stale, its parent kept where the report has none. Any other agent is as it
  -- was, except that one of the snapshot's host that was not stale and not seen later is stale now.
  pub find-apply :
      (now : ℕ) (snap : Snapshot F) (s : Store F) (id : String)
      → (id == "") ≡ false
      → HasUniqueIds snap.agents
      → find (has_id id) (apply now snap s).1.agents
        ≡ expected (timed now snap) (find (has_id id) snap.agents) (find (has_id id) s.agents)
  unfolding apply
  find-apply now snap s id h u =
      let snap' = timed now snap in
      find-mark snap' id (apply_agents snap' snap.agents s.agents).1
      ∙ ap (Option.map (marked snap')) (find-apply_agents snap' id snap.agents s.agents u)
      ∙ marked-expected snap' id s.agents h
