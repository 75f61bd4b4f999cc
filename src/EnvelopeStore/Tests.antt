-- ===== src/EnvelopeStore/Tests.antt =====
-- Runs of the store, and the theorems at concrete inputs.
use hermes_forge_public.Prelude.Int.{pos}
use hermes_forge_public.EnvelopeStore.Columns.{Given, Equal, Json, Codec}
use hermes_forge_public.Prelude.{
  Option, zero, suc, String, ◌≡◌, refl, true, false, none, some, ◌∷◌, List, [], ◌++◌, arith, ok,
  err, eq_iff, All, map, ◌⊎◌,
}
use hermes_forge_public.Prelude.Int.{pos}
use hermes_forge_public.Envelope.{
  Delivery, Message, Metrics, Proof, Envelope, not_found, done_without_proof, validate, known,
  is_terminal, can_transition, has_key, lookup, missing_key, empty_value,
}
use hermes_forge_public.Envelope.Samples.{envelope}
use hermes_forge_public.EnvelopeStore.{Table, Call, insert, older, next_created, mark_delivered}
use hermes_forge_public.EnvelopeStore.Update.{
  update_status, merge_proof, history_entry, apply_transition_side_effects, transition,
  commit_status,
}
use hermes_forge_public.EnvelopeStore.History.{Op, run}
use hermes_forge_public.EnvelopeStore.Claim.{Works, mark_delivered_once}
use hermes_forge_public.EnvelopeStore.Queue.{IsOldest, waiting, next_created-total}
use hermes_forge_public.EnvelopeStore.Proven.{
  DoneIsProven, run-proven, claimed_done, insert_unproven,
}
use hermes_forge_public.EnvelopeStore.Evolves.{Extends}
use hermes_forge_public.EnvelopeStore.Evolution.{run-Extends}

-- A call whose driver works, and one whose commit fails.
abbrev working : Call
working = record {
  fails = λ n. false;
  now = 100;
  rfc3339 = λ n. "2026-01-01T00:00:00Z";
  utc_text = λ n. "2026-01-01 00:00:00 +0000 UTC";
}

abbrev failing_commit : Call
failing_commit = record {
  fails = λ n. elim n [ zero ↦ false | suc k ↦ elim k [ zero ↦ false | suc j ↦ true ] ];
  now = 100;
  rfc3339 = λ n. "2026-01-01T00:00:00Z";
  utc_text = λ n. "2026-01-01 00:00:00 +0000 UTC";
}

working-Works : Works working
working-Works n = refl

abbrev two : Table
two = envelope "b" 20 "created" ∷ envelope "a" 10 "created" ∷ []

abbrev proof : List (String × String)
proof = ("commit", "abc") ∷ []

next_is_a : next_created working two ≡ ok (envelope "a" 10 "created")
unfolding next_created older
next_is_a = refl

missing_proof_refused : (update_status working "a" "done" [] "" two).0 ≡ err done_without_proof
unfolding update_status transition can_transition is_terminal known missing_key has_key lookup
    merge_proof
missing_proof_refused = refl

history_of_done :
    map (λ e. e.history) (update_status working "a" "done" proof "ok" two).1
    ≡ [] ∷ ("[2026-01-01T00:00:00Z] created → done: ok" ∷ []) ∷ []
unfolding update_status transition commit_status apply_transition_side_effects history_entry
    can_transition is_terminal known missing_key empty_value has_key lookup merge_proof
history_of_done = refl

mark_delivered_once_example :
    mark_delivered working "a" "s2" 6 (mark_delivered working "a" "s1" 5 two).1
    ≡ (err not_found, (mark_delivered working "a" "s1" 5 two).1)
unfolding mark_delivered
mark_delivered_once_example =
    mark_delivered_once working working "a" "s1" "s2" 5 6 two working-Works working-Works refl

next_created-total_example :
    ((waiting two ≡ []) × (next_created working two ≡ err not_found))
    ⊎ ((e : Envelope) × (next_created working two ≡ ok e) × IsOldest e two)
next_created-total_example = next_created-total working two working-Works

abbrev done_a : Envelope
done_a = record (envelope "a" 10 "done") {
  metrics = record {
    started_at = none;
    updated_at = some 100;
    completed_at = some 100;
    retry_count = pos 0;
  };
  history = "[2026-01-01T00:00:00Z] created → done" ∷ [];
  proof = proof;
}

update_returns : (update_status working "a" "done" proof "" two).0 ≡ ok done_a
unfolding update_status transition commit_status apply_transition_side_effects history_entry
    can_transition is_terminal known missing_key empty_value has_key lookup merge_proof
update_returns = refl

abbrev script : List (Call × Op)
script =
    (working, Op.insert (envelope "c" 30 "created"))
    ∷ (failing_commit, Op.add_history "a" "note")
    ∷ (working, Op.update_status "a" "done" proof "")
    ∷ []

run-Extends_example : Extends two (run script two)
run-Extends_example = run-Extends script two (refl, (refl, tt))

run-proven_example : All DoneIsProven (run script two)
run-proven_example =
    run-proven script two (λ d. absurd (ground (arith, d, eq_iff "created" "done")), (tt, (tt, tt)))
      (refl, (refl, tt))
      (
        λ d. absurd (ground (arith, d, eq_iff "created" "done")),
        (λ d. absurd (ground (arith, d, eq_iff "created" "done")), tt),
      )

insert_unproven_example :
    (insert working (claimed_done (envelope "z" 1 "created")) two
      ≡ (ok tt, two ++ claimed_done (envelope "z" 1 "created") ∷ []))
    × ¬ (All DoneIsProven (two ++ claimed_done (envelope "z" 1 "created") ∷ []))
unfolding insert validate known missing_key has_key lookup
insert_unproven_example = insert_unproven working (envelope "z" 1 "created") two refl refl

-- A codec whose texts are the values themselves.
data Text : Type 0 where
  strings_text : List String → Text
  delivery_text : Delivery → Text
  messages_text : List Message → Text
  metrics_text : Metrics → Text
  proof_text : Proof → Text

abbrev strings_of : Text → Option (List String)
strings_of (strings_text l) = some l
strings_of t = none

abbrev delivery_of : Text → Option Delivery
delivery_of (delivery_text d) = some d
delivery_of t = none

abbrev messages_of : Text → Option (List Message)
messages_of (messages_text l) = some l
messages_of t = none

abbrev metrics_of : Text → Option Metrics
metrics_of (metrics_text m) = some m
metrics_of t = none

abbrev proof_of : Text → Option Proof
proof_of (proof_text m) = some m
proof_of t = none

abbrev exact :
    {A : Type 0} (wrap : A → Text) (unwrap : Text → Option A)
    → ((a : A) → unwrap (wrap a) ≡ some a)
    → Json Text A Equal
exact wrap unwrap h = record {
  marshal = wrap;
  decode = unwrap;
  is_empty = λ t. false;
  filled = λ a. refl;
  reads_back = λ a. (a, h a, refl);
}

abbrev codec : Codec Text
codec = record {
  strings = exact strings_text strings_of (λ l. refl);
  delivery = exact delivery_text delivery_of (λ d. refl);
  messages = exact messages_text messages_of (λ l. refl);
  metrics = exact metrics_text metrics_of (λ m. refl);
  proof = record {
    marshal = proof_text;
    decode = proof_of;
    is_empty = λ t. false;
    filled = λ m. refl;
    reads_back = λ m. (m, refl, λ k. refl);
  };
}

-- A body with steps and a proof, and nil for all else that may be nil.
abbrev given : Given
given = record {
  id = "g";
  created_at = record { instant = 7; stored = "2026-01-01 02:00:00 +0200 EET" };
  created_by = "kitt";
  title = "title";
  domain = "ops";
  project = "hermes";
  target_node = "mac";
  target_executor = "claude";
  task_title = "task";
  task_goal = "goal";
  task_steps = some ("one" ∷ "two" ∷ []);
  success_criteria = none;
  escalation_criteria = none;
  proof_required = none;
  status = "created";
  delivery = record { delivered = false; delivered_at = none; is_read = false; read_at = none };
  capability_hints = none;
  session_binding = none;
  executor_session_id = "";
  thread = none;
  metrics = record {
    started_at = none;
    updated_at = none;
    completed_at = none;
    retry_count = pos 0;
  };
  history = none;
  proof = some (("commit", "abc") ∷ []);
}

-- The later instant has the smaller text, and is handed out first.
abbrev elsewhere : Envelope
elsewhere = record (envelope "w" 30 "created") {
  created_at = record { instant = 30; stored = "2025-12-31 19:00:30 -0500 EST" };
}

next_is_elsewhere : next_created working (envelope "a" 10 "created" ∷ elsewhere ∷ []) ≡ ok elsewhere
unfolding next_created older
next_is_elsewhere = refl
