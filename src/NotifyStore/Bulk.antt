-- ===== src/NotifyStore/Bulk.antt =====
-- BulkAcknowledge of hermes/internal/notifystore/store.go. The transaction reads and writes its own
-- snapshot. A Go set of ids is the list of its members, a map the list of its entries.
use hermes_forge_public.Prelude.{
  ℕ, zero, suc, ◌+◌, ◌-◌, String, Bool, true, false, ◌&&◌, ◌||◌, Option, none, some, List, [], ◌∷◌,
  ◌++◌, ◌==◌, eqb, ltb, leb, length, take, if◌then◌else◌,
}
use hermes_forge_public.Sql.{select, update, affected, order_by}
use hermes_forge_public.NotifyStore.{
  Notification, Queue, Call, Error, driver, begin, commit, chunk_query, chunk_scan, chunk_exec,
  chunk_rows_affected, is_pending, mark,
}

pub record BulkAckResult : Type 0 where
  pub requested : ℕ
  pub acknowledged : ℕ
  pub already_acknowledged : ℕ
  pub missing : ℕ

-- `maxBulkAckIDsPerQuery`
abbrev pub max_ids_per_query : ℕ
max_ids_per_query = 500

abbrev pub drop : {A : Type 0} → ℕ → List A → List A
drop zero l = l
drop (suc n) [] = []
drop (suc n) (x ∷ l) = drop n l

-- ids[start:end]
abbrev pub slice : {A : Type 0} → ℕ → ℕ → List A → List A
slice start end l = take (end - start) (drop start l)

-- The loop of `chunkInt64s` from `start` on; a size above 0 needs no more rounds than there are ids.
unfoldable pub chunks_from : ℕ → ℕ → List ℕ → ℕ → List (List ℕ)
chunks_from zero start ids size = []
chunks_from (suc fuel) start ids size =
    let end = if ltb (length ids) (start + size) then length ids else start + size in
    let rest = chunks_from fuel (start + size) ids size in
    if ltb start (length ids) then slice start end ids ∷ rest else []

abbrev pub chunk_int64s : List ℕ → ℕ → List (List ℕ)
chunk_int64s ids size = chunks_from (length ids) 0 ids size

unfoldable pub has_id : List ℕ → ℕ → Bool
has_id [] id = false
has_id (x ∷ ids) id = if eqb x id then true else has_id ids id

-- `ids[id] = struct{}{}`
abbrev pub add_id : List ℕ → ℕ → List ℕ
add_id ids id = if has_id ids id then ids else ids ++ id ∷ []

-- `mapKeys`
abbrev pub map_keys : List ℕ → List ℕ
map_keys ids = order_by leb ids

-- `states[id] = ack`, and the lookup
unfoldable pub put : ℕ → Bool → List (ℕ × Bool) → List (ℕ × Bool)
put id ack [] = (id, ack) ∷ []
put id ack ((x, b) ∷ states) = if eqb x id then (x, ack) ∷ states else (x, b) ∷ put id ack states

unfoldable pub state_of : ℕ → List (ℕ × Bool) → Option Bool
state_of id [] = none
state_of id ((x, b) ∷ states) = if eqb x id then some b else state_of id states

-- `scanAckStates`
unfoldable pub scan_ack_states : List Notification → List (ℕ × Bool) → List (ℕ × Bool)
scan_ack_states [] states = states
scan_ack_states (n ∷ rows) states = scan_ack_states rows (put n.id n.acknowledged states)

-- WHERE api_key = ? AND id IN (…)
abbrev pub is_owned : String → List ℕ → Notification → Bool
is_owned key ids n = n.api_key == key && has_id ids n.id

unfoldable pub load_ack_states : String → List ℕ → List Notification → List (ℕ × Bool)
load_ack_states key ids rows = scan_ack_states (select (is_owned key ids) rows) []

-- The ids to acknowledge, those seen so far, and the counts.
pub record Classified : Type 0 where
  pub to_ack : List ℕ
  pub seen_to_ack : List ℕ
  pub result : BulkAckResult

-- One round of the loop of `classifyBulkAck`.
unfoldable pub classify_id : List (ℕ × Bool) → ℕ → Classified → Classified
classify_id states id s = elim (state_of id states) [
  | none ↦ record s { result = record s.result { missing = s.result.missing + 1 } }
  | some ack ↦
      if ack || has_id s.seen_to_ack id
      then record s {
        result = record s.result { already_acknowledged = s.result.already_acknowledged + 1 };
      }
      else record s { to_ack = add_id s.to_ack id; seen_to_ack = add_id s.seen_to_ack id }
]

unfoldable pub classify_bulk_ack : List (ℕ × Bool) → List ℕ → Classified → Classified
classify_bulk_ack states [] s = s
classify_bulk_ack states (id ∷ ids) s = classify_bulk_ack states ids (classify_id states id s)

-- WHERE acknowledged = 0 AND api_key = ? AND id IN (…)
abbrev pub is_bulk : String → List ℕ → Notification → Bool
is_bulk key ids n = is_pending n && n.api_key == key && has_id ids n.id

-- The transaction after some chunks: an error ends it.
pub record Progress : Type 0 where
  pub error : Option Error
  pub rows : List Notification
  pub seen : List ℕ
  pub result : BulkAckResult

-- What `processAckChunk` adds for the n rows that the UPDATE changed.
abbrev pub count_acks : ℕ → ℕ → BulkAckResult → BulkAckResult
count_acks n wanted r = record r {
  acknowledged = r.acknowledged + n;
  already_acknowledged = r.already_acknowledged + (wanted - n);
}

-- `markBulkAcknowledged` of the n-th chunk, and the counting after it.
unfoldable pub mark_bulk_acknowledged : Call → ℕ → String → List ℕ → Progress → Progress
mark_bulk_acknowledged c n key [] p = record p { result = count_acks 0 0 p.result }
mark_bulk_acknowledged c n key ids p =
    if c.fails (chunk_exec n)
    then record p { error = some (driver (chunk_exec n)) }
    else if c.fails (chunk_rows_affected n)
    then record p {
      error = some (driver (chunk_rows_affected n));
      rows = update (is_bulk key ids) mark p.rows;
    }
    else record p {
      rows = update (is_bulk key ids) mark p.rows;
      result = count_acks (affected (is_bulk key ids) p.rows) (length ids) p.result;
    }

unfoldable pub process_ack_chunk : Call → ℕ → String → List ℕ → Progress → Progress
process_ack_chunk c n key chunk p =
    if c.fails (chunk_query n)
    then record p { error = some (driver (chunk_query n)) }
    else if c.fails (chunk_scan n)
    then record p { error = some (driver (chunk_scan n)) }
    else let s =
        classify_bulk_ack (load_ack_states key chunk p.rows) chunk
          (record { to_ack = []; seen_to_ack = p.seen; result = p.result }) in
      mark_bulk_acknowledged c n key (map_keys s.to_ack)
        (record p { seen = s.seen_to_ack; result = s.result })

-- The loop over the chunks from the n-th on.
unfoldable pub process_chunks : Call → ℕ → String → List (List ℕ) → Progress → Progress
process_chunks c n key [] p = p
process_chunks c n key (chunk ∷ chunks) p =
    let p' = process_ack_chunk c n key chunk p in
    let rest = process_chunks c (suc n) key chunks p' in elim p'.error [ some x ↦ p' | none ↦ rest ]

pub record BulkAck : Type 0 where
  pub result : BulkAckResult
  pub error : Option Error
  pub queue : Queue

-- What `BulkAcknowledge` returns after the loop: an error rolls the rows back.
abbrev pub finish : Call → Queue → Progress → BulkAck
finish c q p = elim p.error [
  | some x ↦ record { result = p.result; error = some x; queue = q }
  | none ↦
      if c.fails commit
      then record { result = p.result; error = some (driver commit); queue = q }
      else record { result = p.result; error = none; queue = record q { rows = p.rows } }
]

abbrev pub no_acks : List ℕ → BulkAckResult
no_acks ids = record {
  requested = length ids;
  acknowledged = 0;
  already_acknowledged = 0;
  missing = 0;
}

-- The transaction before the first chunk.
abbrev pub started : List ℕ → Queue → Progress
started ids q = record { error = none; rows = q.rows; seen = []; result = no_acks ids }

unfoldable pub bulk_acknowledge : Call → List ℕ → String → Queue → BulkAck
bulk_acknowledge c ids key q =
    if eqb (length ids) 0
    then record { result = no_acks ids; error = none; queue = q }
    else if c.fails begin
    then record { result = no_acks ids; error = some (driver begin); queue = q }
    else finish c q (process_chunks c 0 key (chunk_int64s ids max_ids_per_query) (started ids q))
