-- ===== src/AgentStore/Visible.antt =====
-- What Recent and Get show, across Prune and across snapshots that arrive out of order.
use hermes_forge_public.Prelude.{
  ℕ, ◌+◌, ◌≤◌, ◌<◌, String, ◌≡◌, ◌≢◌, refl, ap, ◌∙◌, inl, inr, true, false, Option, some, List, [],
  ◌∷◌, arith, Bool-cases, eqb, ◌==◌, ok, err, if◌then◌else◌,
}
use hermes_forge_public.Sql.{select, find, order_by}
use hermes_forge_public.AgentStore.{
  Agent, Snapshot, Store, not_found, has_id, is_live, precedes, recent, get, prune, apply,
}
use hermes_forge_public.AgentStore.Applied.{HasUniqueIds, seen_in, timed, find-apply}

module _ {F : Type 0} where
  -- What is live later is live now.
  is_live-earlier :
      (now later ttl : ℕ) (a : Agent F)
      → now ≤ later
      → is_live later ttl a ≡ true
      → is_live now ttl a ≡ true
  unfolding is_live
  is_live-earlier now later ttl a p h = ground arith

  select-pruned :
      (now later ttl : ℕ) (agents : List (Agent F))
      → now ≤ later
      → select (is_live later ttl) (select (is_live now ttl) agents)
        ≡ select (is_live later ttl) agents
  select-pruned now later ttl [] p = refl
  select-pruned now later ttl (a ∷ agents) p = elim (Bool-cases (is_live now ttl a)) [
    | inl e ↦
        rw e (
          ap (λ l. if is_live later ttl a then a ∷ l else l) (select-pruned now later ttl agents p))
    | inr e ↦ elim (Bool-cases (is_live later ttl a)) [
      | inl d ↦ let z = is_live-earlier now later ttl a p d in cc
      | inr d ↦ rw e (rw d (select-pruned now later ttl agents p))
    ]
  ]

  -- Prune never changes what Recent lists, then or at any later time.
  pub recent-prune :
      (now later : ℕ) (s : Store F) → now ≤ later → recent later (prune now s).1 ≡ recent later s
  unfolding recent prune
  recent-prune now later s p = ap (order_by precedes) (select-pruned now later s.ttl s.agents p)

  get_live :
      (now : ℕ) (id : String) (s : Store F) (a : Agent F)
      → find (has_id id) s.agents ≡ some a
      → is_live now s.ttl a ≡ true
      → get now id s ≡ ok a
  unfolding get
  get_live now id s a f l = rw (f, get) (rw l refl)

  get_stale :
      (now : ℕ) (id : String) (s : Store F) (a : Agent F)
      → find (has_id id) s.agents ≡ some a
      → a.stale_at ≢ 0
      → get now id s ≡ err not_found
  unfolding get is_live
  get_stale now id s a f l =
      let z : eqb a.stale_at 0 ≡ false = ground arith in rw (f, get) (rw z refl)

  apply-ttl : (now : ℕ) (snap : Snapshot F) (s : Store F) → (apply now snap s).1.ttl ≡ s.ttl
  unfolding apply
  apply-ttl now snap s = refl

  timed_set : (now : ℕ) (snap : Snapshot F) → 0 < snap.taken_at → timed now snap ≡ snap
  timed_set now snap h =
      let set : eqb snap.taken_at 0 ≡ false = ground arith in
      ap (λ t. record snap { taken_at = t })
        {x = if eqb snap.taken_at 0 then now else snap.taken_at} {y = snap.taken_at} (rw set refl)

  is_live_seen :
      (now ttl : ℕ) (snap : Snapshot F) (a : Agent F) (old : Option (Agent F))
      → now ≤ snap.taken_at + ttl
      → is_live now ttl (seen_in snap a old) ≡ true
  unfolding is_live
  is_live_seen now ttl snap a old h = ground arith

  -- An agent that a snapshot marked stale is hidden from Get, and is shown again, seen at the earlier
  -- time, after an older snapshot that names it arrives within the TTL.
  pub get-apply_older :
      (now : ℕ) (snap : Snapshot F) (s : Store F) (id : String) (a b : Agent F)
      → (id == "") ≡ false
      → HasUniqueIds snap.agents
      → find (has_id id) snap.agents ≡ some a
      → find (has_id id) s.agents ≡ some b
      → 0 < snap.taken_at
      → snap.taken_at < b.stale_at
      → now ≤ snap.taken_at + s.ttl
      → (get now id s ≡ err not_found)
        × (get now id (apply now snap s).1 ≡ ok (seen_in snap a (some b)))
  get-apply_older now snap s id a b named u reports stored timed_at older within =
      let same : timed now snap ≡ snap = timed_set now snap timed_at in
      let found : find (has_id id) (apply now snap s).1.agents ≡ some (seen_in snap a (some b)) =
        find-apply now snap s id named u
        ∙ rw (reports, stored) (ap (λ k. some (seen_in k a (some b))) same) in
      (
        get_stale now id s b stored (λ e. absurd (omega (arith, e))),
        get_live now id (apply now snap s).1 (seen_in snap a (some b)) found (
            is_live_seen now (apply now snap s).1.ttl snap a (some b)
              (rw (apply-ttl now snap s) within)),
      )
