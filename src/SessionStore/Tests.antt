-- ===== src/SessionStore/Tests.antt =====
-- Runs of the session store, and the theorems at concrete inputs.
use hermes_forge_public.Prelude.{ℕ, String, ◌≡◌, refl, false, List, [], ◌∷◌, ◌++◌, ok, err}
use hermes_forge_public.SessionStore
use hermes_forge_public.SessionStore.{
  Session, Message, Store, Call, max_retries, get_messages, get_messages_after, insert_message,
  insert_with_retry, get_next_insert_order,
}
use hermes_forge_public.SessionStore.Duplicates.{insert_message_taken}
use hermes_forge_public.SessionStore.History.{Op, run, empty, run-IsSequenced}
use hermes_forge_public.SessionStore.Sequence.{IsSequenced}

abbrev working : Call
working = record { fails = λ p. false; conflicts = λ i. false }

abbrev lane : String → Session
lane id = record {
  id = id;
  created_at = "2026-01-01";
  title = "";
  project = "hermes";
  api_key = "alice";
  status = "active";
}

abbrev message : String → String → ℕ → Message
message id session order = record {
  id = id;
  session_id = session;
  from = "claude";
  kind = "reply";
  text = "hello";
  reply_to = "";
  created_at = "2026-01-01";
  insert_order = order;
}

abbrev talk : List (Call × Op)
talk =
    (working, Op.insert (lane "s1"))
    ∷ (working, Op.insert_message (message "m1" "s1" 0))
    ∷ (working, Op.insert_message (message "m2" "s1" 0))
    ∷ []

abbrev talked : Store
talked = record {
  sessions = lane "s1" ∷ [];
  messages = message "m1" "s1" 1 ∷ message "m2" "s1" 2 ∷ [];
}

talk-talked : run talk empty ≡ talked
unfolding SessionStore.insert insert_message insert_with_retry get_next_insert_order
    SessionStore.get
talk-talked = refl

run-IsSequenced_example : IsSequenced (run talk empty)
run-IsSequenced_example = run-IsSequenced talk

lane_found : SessionStore.get working "s1" talked ≡ ok (lane "s1")
unfolding SessionStore.get
lane_found = refl

both_read :
    get_messages working "s1" "" talked ≡ ok (message "m1" "s1" 1 ∷ message "m2" "s1" 2 ∷ [])
unfolding get_messages SessionStore.get
both_read = refl

third_stored :
    insert_message working (message "m3" "s1" 0) talked
    ≡ (ok 3, record talked { messages = talked.messages ++ message "m3" "s1" 3 ∷ [] })
unfolding insert_message insert_with_retry get_next_insert_order SessionStore.get
third_stored = refl

insert_message_taken_example :
    insert_message working (message "m1" "s1" 0) talked ≡ (err max_retries, talked)
insert_message_taken_example =
    insert_message_taken working (message "m1" "s1" 0) talked (lane "s1") (message "m1" "s1" 1)
      (λ p. refl) lane_found refl
