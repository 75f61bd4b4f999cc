-- ===== src/NotifyStore/Effect.antt =====
-- One chunk of a bulk acknowledgement: the rows it marks and what it counts.
use hermes_forge_public.Prelude.{
  ℕ, String, ◌≡◌, refl, ◌∙◌, inl, inr, Bool, true, false, not, ◌&&◌, ◌||◌, none, some, List, [],
  arith, ◌==◌, Bool-cases, All, eq_iff, if◌then◌else◌,
}
use hermes_forge_public.Sql.{update, affected}
use hermes_forge_public.NotifyStore.{Notification, mark}
use hermes_forge_public.NotifyStore.Bulk.{
  has_id, state_of, load_ack_states, map_keys, is_bulk, Progress, classify_bulk_ack, Classified,
}
use hermes_forge_public.NotifyStore.States.{HasUniqueIds, owned_row, state_of-load}
use hermes_forge_public.NotifyStore.Classify.{is_new, has_id-to_ack, has_id-seen_to_ack}
use hermes_forge_public.NotifyStore.Marking.{
  has_id-map_keys, update_ext, affected_ext, All-update_each, update-HasUniqueIds,
}
use hermes_forge_public.NotifyStore.Counting.{All-both, owned_row_self}

-- The rows have distinct ids, and a row whose id was collected is acknowledged.
abbrev pub IsSettled : String → List ℕ → List Notification → Type 0
IsSettled key seen rows =
    HasUniqueIds rows
    × All (λ n. n.api_key ≡ key → has_id seen n.id ≡ true → n.acknowledged ≡ true) rows

-- The classification of a chunk as `processAckChunk` starts it.
abbrev pub classified : String → List ℕ → Progress → Classified
classified key chunk p =
    classify_bulk_ack (load_ack_states key chunk p.rows) chunk
      (record { to_ack = []; seen_to_ack = p.seen; result = p.result })

module _ (key : String) (chunk : List ℕ) (p : Progress)
    (settled : IsSettled key p.seen p.rows) where
  state_of-row :
      (n : Notification)
      → owned_row key n.id p.rows ≡ some n
      → state_of n.id (load_ack_states key chunk p.rows)
        ≡ (if has_id chunk n.id then some n.acknowledged else none)
  state_of-row n f = state_of-load key chunk n.id p.rows settled.0 ∙ rw f

  is_new-row :
      (n : Notification)
      → owned_row key n.id p.rows ≡ some n
      → is_new (state_of n.id (load_ack_states key chunk p.rows))
        ≡ (has_id chunk n.id && not n.acknowledged)
  is_new-row n f = rw (state_of-row n f) (by_chunk (has_id chunk n.id) n.acknowledged)
    where
      by_chunk : (c a : Bool) → is_new (if c then some a else none) ≡ (c && not a)
      by_chunk true a = refl
      by_chunk false a = refl

  to_ack-row :
      (n : Notification)
      → owned_row key n.id p.rows ≡ some n
      → has_id (classified key chunk p).to_ack n.id
        ≡ (has_id chunk n.id && not n.acknowledged && not (has_id p.seen n.id))
  unfolding has_id
  to_ack-row n f =
      has_id-to_ack (load_ack_states key chunk p.rows) chunk
        (record { to_ack = []; seen_to_ack = p.seen; result = p.result }) n.id
      ∙ rw (is_new-row n f) (bools (has_id chunk n.id) (not n.acknowledged) (has_id p.seen n.id))
    where
      bools : (c a s : Bool) → (c && (c && a) && not s) ≡ (c && a && not s)
      bools c a s = ground arith

  seen-row :
      (n : Notification)
      → owned_row key n.id p.rows ≡ some n
      → has_id (classified key chunk p).seen_to_ack n.id
        ≡ (has_id p.seen n.id || has_id chunk n.id && not n.acknowledged)
  seen-row n f =
      has_id-seen_to_ack (load_ack_states key chunk p.rows) chunk
        (record { to_ack = []; seen_to_ack = p.seen; result = p.result }) n.id
      ∙ rw (is_new-row n f) (bools (has_id chunk n.id) (not n.acknowledged) (has_id p.seen n.id))
    where
      bools : (c a s : Bool) → (s || c && (c && a)) ≡ (s || c && a)
      bools c a s = ground arith

  agree :
      (n : Notification)
      → (n.api_key ≡ key → owned_row key n.id p.rows ≡ some n)
      → (n.api_key ≡ key → has_id p.seen n.id ≡ true → n.acknowledged ≡ true)
      → is_bulk key (map_keys (classified key chunk p).to_ack) n ≡ is_bulk key chunk n
  agree n self seen = elim (Bool-cases (n.api_key == key)) [
    | inr e ↦ rw e (ground arith)
    | inl e ↦
        let own : n.api_key ≡ key = ground (arith, eq_iff n.api_key key) in
        let old = seen own in
        rw (has_id-map_keys (classified key chunk p).to_ack n.id) (
          rw (to_ack-row n (self own), e)
            (bools (has_id chunk n.id) n.acknowledged (has_id p.seen n.id) old))
  ]
    where
      bools :
          (c a s : Bool)
          → (s ≡ true → a ≡ true)
          → (not a && true && (c && not a && not s)) ≡ (not a && true && c)
      bools c a s h = ground arith

  bulk-agree :
      All
        (λ n. is_bulk key (map_keys (classified key chunk p).to_ack) n ≡ is_bulk key chunk n)
        p.rows
  bulk-agree = All-both p.rows agree (owned_row_self key p.rows settled.0) settled.1

  settle :
      (n : Notification)
      → (n.api_key ≡ key → owned_row key n.id p.rows ≡ some n)
        × (n.api_key ≡ key → has_id p.seen n.id ≡ true → n.acknowledged ≡ true)
      → (let m = if is_bulk key chunk n then mark n else n in
          m.api_key ≡ key
          → has_id (classified key chunk p).seen_to_ack m.id ≡ true
          → m.acknowledged ≡ true)
  settle n (self, seen) = elim (Bool-cases (is_bulk key chunk n)) [
    | inl e ↦ rw e (λ own h. refl)
    | inr e ↦ rw e (λ own h.
        let old = seen own in
        let k = seen-row n (self own) in
        let f : (n.api_key == key) ≡ true = ground (arith, eq_iff n.api_key key) in ground arith)
  ]

  pub rows-chunk :
      update (is_bulk key (map_keys (classified key chunk p).to_ack)) mark p.rows
      ≡ update (is_bulk key chunk) mark p.rows
  rows-chunk = update_ext _ _ p.rows bulk-agree

  pub affected-chunk :
      affected (is_bulk key (map_keys (classified key chunk p).to_ack)) p.rows
      ≡ affected (is_bulk key chunk) p.rows
  affected-chunk = affected_ext _ _ p.rows bulk-agree

  pub chunk-IsSettled :
      IsSettled key (classified key chunk p).seen_to_ack (update (is_bulk key chunk) mark p.rows)
  chunk-IsSettled = (
    update-HasUniqueIds (is_bulk key chunk) p.rows settled.0,
    All-update_each _ _ (is_bulk key chunk) p.rows settle
        (All-both p.rows (λ n a b. (a, b)) (owned_row_self key p.rows settled.0) settled.1),
  )
