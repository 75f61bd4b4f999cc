-- ===== src/NotifyStore/Acks.antt =====
-- The whole bulk acknowledgement: its effect on the queue, and its counts.
use mathlib.Core.Path.{subst}
use hermes_forge_public.Prelude.{
  ℕ, suc, ◌+◌, String, ◌≡◌, refl, ap, sym, ◌∙◌, inl, inr, true, false, none, some, List, [], ◌∷◌,
  length, arith, eqb, Bool-cases, Option-cases, All,
}
use hermes_forge_public.Sql.{update, affected}
use hermes_forge_public.NotifyStore.{Notification, Queue, Call, Error, mark, begin, commit}
use hermes_forge_public.NotifyStore.Bulk.{
  has_id, is_bulk, Progress, process_chunks, started, finish, BulkAck, bulk_acknowledge,
  chunk_int64s, max_ids_per_query,
}
use hermes_forge_public.NotifyStore.Chunks.{chunk_int64s-flatten}
use hermes_forge_public.NotifyStore.States.{HasUniqueIds}
use hermes_forge_public.NotifyStore.Counting.{update_no_ids, affected-is_bulk}
use hermes_forge_public.NotifyStore.Transaction.{Done, process_chunks-Done}

none_collected :
    (key : String) (rows : List Notification)
    → All (λ n. n.api_key ≡ key → has_id [] n.id ≡ true → n.acknowledged ≡ true) rows
unfolding has_id
none_collected key [] = tt
none_collected key (n ∷ rows) = (λ own h. cc, none_collected key rows)

-- The chunks of the request, one after the other.
all-Done :
    (c : Call) (ids : List ℕ) (key : String) (q : Queue)
    → HasUniqueIds q.rows
    → (let p = process_chunks c 0 key (chunk_int64s ids max_ids_per_query) (started ids q) in
        p.error ≡ none → Done key ids (started ids q) p)
all-Done c ids key q u h =
    let chunks = chunk_int64s ids max_ids_per_query in
    subst (λ l. Done key l (started ids q) (process_chunks c 0 key chunks (started ids q)))
      (chunk_int64s-flatten ids max_ids_per_query (omega arith)).0
      (process_chunks-Done c 0 key chunks (started ids q) (u, none_collected key q.rows) h)

-- The outcome marks exactly the listed pending rows of the key and counts each id once.
abbrev pub IsExact : String → List ℕ → Queue → BulkAck → Type 0
IsExact key ids q b =
    (b.queue ≡ record q { rows = update (is_bulk key ids) mark q.rows })
    × (b.result.acknowledged ≡ affected (is_bulk key ids) q.rows)
    × (b.result.requested ≡ length ids)
    × (b.result.acknowledged + b.result.already_acknowledged + b.result.missing ≡ length ids)

finish-IsExact :
    (c : Call) (ids : List ℕ) (key : String) (q : Queue) (p : Progress)
    → (p.error ≡ none → Done key ids (started ids q) p)
    → (finish c q p).error ≡ none
    → IsExact key ids q (finish c q p)
finish-IsExact c ids key q p done h = elim (Option-cases p.error) [
  | inr (x, e) ↦ let z : some x ≡ none = rw e at h in cc
  | inl e ↦ elim (Bool-cases (c.fails commit)) [
    | inl d ↦ let z = rw (e, d) at h in cc
    | inr d ↦
        let r = done e in
        rw e (
          rw d (
            ap (λ l. record q { rows = l }) r.rows,
            r.acknowledged ∙ omega arith,
            r.requested,
            omega (arith, r.counted),
          ))
  ]
]

-- A bulk acknowledgement without an error has marked exactly the caller's pending rows with a listed
-- id and left every other row as it was, and each requested id is counted once: as acknowledged, one
-- for each row that changed, as acknowledged already, or as missing.
pub bulk_acknowledge-IsExact :
    (c : Call) (ids : List ℕ) (key : String) (q : Queue)
    → HasUniqueIds q.rows
    → (bulk_acknowledge c ids key q).error ≡ none
    → IsExact key ids q (bulk_acknowledge c ids key q)
unfolding bulk_acknowledge
bulk_acknowledge-IsExact c [] key q u h =
    let zero_marked : affected (is_bulk key []) q.rows ≡ 0 =
      omega (arith, affected-is_bulk key [] q.rows u) in
    (
      sym (ap (λ l. record q { rows = l }) (update_no_ids key q.rows)),
      sym zero_marked,
      refl,
      omega arith,
    )
bulk_acknowledge-IsExact c (x ∷ ids) key q u h =
    let nonempty : eqb (suc (length ids)) 0 ≡ false = ground arith in
    elim (Bool-cases (c.fails begin)) [
      | inl d ↦ let z = rw (nonempty, d) at h in cc
      | inr d ↦
          rw (nonempty, d)
            (finish-IsExact c (x ∷ ids) key q _ (all-Done c (x ∷ ids) key q u)
              (rw (nonempty, d) at h))
    ]

finish_rollback :
    (c : Call) (q : Queue) (p : Progress) (x : Error)
    → (finish c q p).error ≡ some x
    → (finish c q p).queue ≡ q
finish_rollback c q p x h = elim (Option-cases p.error) [
  | inr (y, e) ↦ rw e
  | inl e ↦ elim (Bool-cases (c.fails commit)) [
    | inl d ↦ rw e (rw d)
    | inr d ↦ let z : none ≡ some x = rw (e, d) at h in cc
  ]
]

-- A bulk acknowledgement that returns an error leaves the queue as it was.
pub bulk_acknowledge_rollback :
    (c : Call) (ids : List ℕ) (key : String) (q : Queue) (x : Error)
    → (bulk_acknowledge c ids key q).error ≡ some x
    → (bulk_acknowledge c ids key q).queue ≡ q
unfolding bulk_acknowledge
bulk_acknowledge_rollback c ids key q x h = elim (Bool-cases (eqb (length ids) 0)) [
  | inl e ↦ rw e
  | inr e ↦ elim (Bool-cases (c.fails begin)) [
    | inl d ↦ rw (e, d)
    | inr d ↦
        rw (e, d)
          (finish_rollback c q
            (process_chunks c 0 key (chunk_int64s ids max_ids_per_query) (started ids q)) x
            (rw (e, d) at h))
  ]
]
