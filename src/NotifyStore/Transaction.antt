-- ===== src/NotifyStore/Transaction.antt =====
-- What the transaction of a bulk acknowledgement has done after each chunk.
use mathlib.Core.Path.{subst⁻¹}
use hermes_forge_public.Prelude.{
  ℕ, suc, ◌+◌, String, ◌≡◌, refl, ap, sym, ◌∙◌, inl, inr, true, none, some, List, [], ◌∷◌, ◌++◌,
  length, length-append, arith, Bool-cases, Option-cases,
}
use hermes_forge_public.Sql.{update, affected}
use hermes_forge_public.NotifyStore.{
  Call, mark, chunk_query, chunk_scan, chunk_exec, chunk_rows_affected,
}
use hermes_forge_public.NotifyStore.Bulk.{
  has_id, map_keys, is_bulk, Progress, process_ack_chunk, process_chunks, mark_bulk_acknowledged,
  count_acks, load_ack_states,
}
use hermes_forge_public.NotifyStore.Chunks.{flatten}
use hermes_forge_public.NotifyStore.States.{HasUniqueIds}
use hermes_forge_public.NotifyStore.Classify.{classify_bulk_ack-IsCounted}
use hermes_forge_public.NotifyStore.Marking.{length-map_keys, update_twice}
use hermes_forge_public.NotifyStore.Counting.{update_no_ids, affected_twice, affected-is_bulk}
use hermes_forge_public.NotifyStore.Effect.{
  IsSettled, classified, rows-chunk, affected-chunk, chunk-IsSettled,
}

-- What the transaction has done after a list of ids.
pub record Done (key : String) (ids : List ℕ) (p p' : Progress) : Type 0 where
  pub rows : p'.rows ≡ update (is_bulk key ids) mark p.rows
  pub settled : IsSettled key p'.seen p'.rows
  pub requested : p'.result.requested ≡ p.result.requested
  pub acknowledged :
      p'.result.acknowledged ≡ p.result.acknowledged + affected (is_bulk key ids) p.rows
  pub counted :
      p'.result.acknowledged + p'.result.already_acknowledged + p'.result.missing
      ≡ p.result.acknowledged + p.result.already_acknowledged + p.result.missing + length ids

-- A marking without an error is the UPDATE and the counting of its rows.
no_failure :
    (c : Call) (n : ℕ) (key : String) (ids : List ℕ) (p : Progress)
    → HasUniqueIds p.rows
    → (mark_bulk_acknowledged c n key ids p).error ≡ none
    → mark_bulk_acknowledged c n key ids p ≡ record p {
      rows = update (is_bulk key ids) mark p.rows;
      result = count_acks (affected (is_bulk key ids) p.rows) (length ids) p.result;
    }
unfolding mark_bulk_acknowledged
no_failure c n key [] p u h =
    let zero_marked : affected (is_bulk key []) p.rows ≡ 0 =
      omega (arith, affected-is_bulk key [] p.rows u) in
    rw (update_no_ids key p.rows, zero_marked) refl
no_failure c n key (x ∷ ids) p u h = elim (Bool-cases (c.fails (chunk_exec n))) [
  | inl d ↦ let z = rw d at h in cc
  | inr d ↦ elim (Bool-cases (c.fails (chunk_rows_affected n))) [
    | inl g ↦ let z = rw (d, g) at h in cc
    | inr g ↦ rw (d, g) refl
  ]
]

-- The transaction after the chunk, when no call of it has failed.
abbrev after_chunk : String → List ℕ → Progress → Progress
after_chunk key chunk p =
    let s = classified key chunk p in
    record p {
      rows = update (is_bulk key (map_keys s.to_ack)) mark p.rows;
      seen = s.seen_to_ack;
      result =
          count_acks (affected (is_bulk key (map_keys s.to_ack)) p.rows)
            (length (map_keys s.to_ack)) s.result;
    }

process-after_chunk :
    (c : Call) (n : ℕ) (key : String) (chunk : List ℕ) (p : Progress)
    → HasUniqueIds p.rows
    → (process_ack_chunk c n key chunk p).error ≡ none
    → process_ack_chunk c n key chunk p ≡ after_chunk key chunk p
unfolding process_ack_chunk
process-after_chunk c n key chunk p u h = elim (Bool-cases (c.fails (chunk_query n))) [
  | inl d ↦ let z = rw d at h in cc
  | inr d ↦ elim (Bool-cases (c.fails (chunk_scan n))) [
    | inl g ↦ let z = rw (d, g) at h in cc
    | inr g ↦
        let s = classified key chunk p in
        rw (d, g)
          (no_failure c n key (map_keys s.to_ack)
            (record p { seen = s.seen_to_ack; result = s.result }) u (rw (d, g) at h))
  ]
]

none_seen : (seen : List ℕ) (i : ℕ) → has_id [] i ≡ true → has_id seen i ≡ true
unfolding has_id
none_seen seen i h = cc

after_chunk-Done :
    (key : String) (chunk : List ℕ) (p : Progress)
    → IsSettled key p.seen p.rows
    → Done key chunk p (after_chunk key chunk p)
after_chunk-Done key chunk p settled =
    let s = classified key chunk p in
    let (r, a, m, t) =
      classify_bulk_ack-IsCounted (load_ack_states key chunk p.rows) chunk
        (record { to_ack = []; seen_to_ack = p.seen; result = p.result }) (none_seen p.seen) in
    let as_many = length-map_keys s.to_ack in
    let no_more = affected-is_bulk key (map_keys s.to_ack) p.rows settled.0 in
    let same = affected-chunk key chunk p settled in
    record {
      rows = rows-chunk key chunk p settled;
      settled =
          subst⁻¹ (IsSettled key s.seen_to_ack) (rows-chunk key chunk p settled)
            (chunk-IsSettled key chunk p settled);
      requested = r;
      acknowledged = omega arith;
      counted = omega arith;
    }

process-Done :
    (c : Call) (n : ℕ) (key : String) (chunk : List ℕ) (p : Progress)
    → IsSettled key p.seen p.rows
    → (process_ack_chunk c n key chunk p).error ≡ none
    → Done key chunk p (process_ack_chunk c n key chunk p)
process-Done c n key chunk p settled h =
    subst⁻¹ (Done key chunk p) (process-after_chunk c n key chunk p settled.0 h)
      (after_chunk-Done key chunk p settled)

-- One list of ids after the other.
Done-trans :
    (key : String) (xs ys : List ℕ) (p q r : Progress)
    → Done key xs p q
    → Done key ys q r
    → Done key (xs ++ ys) p r
Done-trans key xs ys p q r d e = record {
  rows = e.rows ∙ ap (update (is_bulk key ys) mark) d.rows ∙ update_twice key xs ys p.rows;
  settled = e.settled;
  requested = e.requested ∙ d.requested;
  acknowledged =
      let k =
        subst⁻¹
          (λ l.
            affected (is_bulk key xs) p.rows + affected (is_bulk key ys) l
            ≡ affected (is_bulk key (xs ++ ys)) p.rows)
          d.rows (affected_twice key xs ys p.rows) in
      omega (arith, e.acknowledged, d.acknowledged);
  counted = let k = length-append xs ys in omega (arith, e.counted, d.counted);
}

Done-none : (key : String) (p : Progress) → IsSettled key p.seen p.rows → Done key [] p p
Done-none key p settled =
    let zero_marked : affected (is_bulk key []) p.rows ≡ 0 =
      omega (arith, affected-is_bulk key [] p.rows settled.0) in
    record {
      rows = sym (update_no_ids key p.rows);
      settled = settled;
      requested = refl;
      acknowledged = omega arith;
      counted = omega arith;
    }

pub process_chunks-Done :
    (c : Call) (n : ℕ) (key : String) (chunks : List (List ℕ)) (p : Progress)
    → IsSettled key p.seen p.rows
    → (process_chunks c n key chunks p).error ≡ none
    → Done key (flatten chunks) p (process_chunks c n key chunks p)
unfolding process_chunks
process_chunks-Done c n key [] p settled h = Done-none key p settled
process_chunks-Done c n key (chunk ∷ chunks) p settled h =
    let p' = process_ack_chunk c n key chunk p in
    elim (Option-cases p'.error) [
      | inr (x, e) ↦
          let next = process_chunks c (suc n) key chunks p' in
          let stop : process_chunks c n key (chunk ∷ chunks) p ≡ p' =
            ap (λ o. elim o [ some y ↦ p' | none ↦ next ]) e in
          let z = sym (ap (λ x. x.error) stop) ∙ h in cc
      | inl e ↦
          let d = process-Done c n key chunk p settled e in
          let next = process_chunks c (suc n) key chunks p' in
          let go : process_chunks c n key (chunk ∷ chunks) p ≡ next =
            ap (λ o. elim o [ some y ↦ p' | none ↦ next ]) e in
          subst⁻¹ (Done key (flatten (chunk ∷ chunks)) p) go (
            Done-trans key chunk (flatten chunks) p p' next d (
              process_chunks-Done c (suc n) key chunks p' d.settled
                (sym (ap (λ x. x.error) go) ∙ h)))
    ]
