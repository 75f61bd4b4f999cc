-- ===== src/NotifyStore/Tests.antt =====
-- Runs of the notification queue, and the theorems at concrete inputs.
use hermes_forge_public.Prelude.{ℕ, String, ◌≡◌, refl, Bool, true, false, none, some, [], ◌∷◌}
use hermes_forge_public.NotifyStore.{Notification, Queue, Call, driver, chunk_exec, Point}
use hermes_forge_public.NotifyStore.Bulk
use hermes_forge_public.NotifyStore.Bulk.{bulk_acknowledge, chunk_int64s}
use hermes_forge_public.NotifyStore.Acks.{IsExact, bulk_acknowledge-IsExact}

abbrev working : Call
working = record { fails = λ p. false; now = 100 }

abbrev is_chunk_exec : Point → Bool
is_chunk_exec (chunk_exec n) = true
is_chunk_exec _ = false

abbrev locked : Call
locked = record { fails = is_chunk_exec; now = 100 }

abbrev note : ℕ → ℕ → Bool → String → Notification
note id at acknowledged key = record {
  id = id;
  envelope_id = "e1";
  status = "done";
  note = "";
  proof_summary = "";
  created_at = at;
  acknowledged = acknowledged;
  api_key = key;
}

abbrev three : Queue
three = record {
  rows = note 1 10 false "alice" ∷ note 2 20 true "alice" ∷ note 3 30 false "bob" ∷ [];
  sequence = 3;
}

all_found : (bulk_acknowledge working (3 ∷ 1 ∷ 2 ∷ 1 ∷ []) "alice" three).error ≡ none
unfolding bulk_acknowledge Bulk.process_chunks Bulk.process_ack_chunk Bulk.mark_bulk_acknowledged
    Bulk.classify_bulk_ack Bulk.classify_id Bulk.load_ack_states Bulk.scan_ack_states Bulk.put
    Bulk.state_of Bulk.has_id Bulk.chunks_from
all_found = refl

counted :
    (bulk_acknowledge working (3 ∷ 1 ∷ 2 ∷ 1 ∷ []) "alice" three).result
    ≡ record { requested = 4; acknowledged = 1; already_acknowledged = 2; missing = 1 }
unfolding bulk_acknowledge Bulk.process_chunks Bulk.process_ack_chunk Bulk.mark_bulk_acknowledged
    Bulk.classify_bulk_ack Bulk.classify_id Bulk.load_ack_states Bulk.scan_ack_states Bulk.put
    Bulk.state_of Bulk.has_id Bulk.chunks_from
counted = refl

cannot_write : (bulk_acknowledge locked (1 ∷ []) "alice" three).error ≡ some (driver (chunk_exec 0))
unfolding bulk_acknowledge Bulk.process_chunks Bulk.process_ack_chunk Bulk.mark_bulk_acknowledged
    Bulk.classify_bulk_ack Bulk.classify_id Bulk.load_ack_states Bulk.scan_ack_states Bulk.put
    Bulk.state_of Bulk.has_id Bulk.chunks_from
cannot_write = refl

bulk_acknowledge-IsExact_example :
    IsExact "alice"
      (3 ∷ 1 ∷ 2 ∷ 1 ∷ [])
      three
      (bulk_acknowledge working (3 ∷ 1 ∷ 2 ∷ 1 ∷ []) "alice" three)
unfolding bulk_acknowledge
bulk_acknowledge-IsExact_example =
    bulk_acknowledge-IsExact working (3 ∷ 1 ∷ 2 ∷ 1 ∷ []) "alice" three (refl, (refl, (refl, tt)))
      all_found
