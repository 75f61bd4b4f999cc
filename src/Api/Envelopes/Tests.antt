-- ===== src/Api/Envelopes/Tests.antt =====
-- Requests below /envelopes, and the theorems at concrete inputs.
use hermes_forge_public.EnvelopeStore.{utc_now}
use hermes_forge_public.Prelude.{
  ℕ, ◌≡◌, refl, true, false, none, some, List, [], ◌∷◌, arith, if◌then◌else◌,
}
use hermes_forge_public.Envelope.{
  Envelope, validate, known, can_transition, is_terminal, missing_key, empty_value, has_key, lookup,
}
use hermes_forge_public.Envelope.Samples.{envelope}
use hermes_forge_public.EnvelopeStore
use hermes_forge_public.EnvelopeStore.{Table}
use hermes_forge_public.EnvelopeStore.Update.{
  update_status, merge_proof, history_entry, apply_transition_side_effects, transition,
  commit_status,
}
use hermes_forge_public.EnvelopeStore.Evolves.{Extends}
use hermes_forge_public.NotifyStore
use hermes_forge_public.NotifyStore.{Notification, Queue}
use hermes_forge_public.NotifyStore.Summary.{is_interesting}
use hermes_forge_public.ActivityHub
use hermes_forge_public.Api.{Caller, failed, replied, decoded, notification_insert_key}
use hermes_forge_public.Api.Alerts.{Setup, State, Calls}
use hermes_forge_public.Api.Alerts.Loops.{Works, queued}
use hermes_forge_public.Api.Envelopes
use hermes_forge_public.Api.Envelopes.{
  UpdateStatusRequest, Request, handle_create, handle_get, handle_update_status, handle_set_session,
  with_defaults, set_status, missing_id,
}
use hermes_forge_public.Api.Envelopes.Evolution.{run, serve_all-Extends}
use hermes_forge_public.Api.Envelopes.Responses.{
  IsServed, handle_update_status-IsServed, handle_update_status-queue,
}
use hermes_forge_public.Api.Envelopes.Sessions.{handle_set_session_terminal}

abbrev store_works : EnvelopeStore.Call
store_works = record {
  fails = λ n. false;
  now = 100;
  rfc3339 = λ n. "2026-01-01T00:00:00Z";
  utc_text = λ n. "2026-01-01 00:00:00 +0000 UTC";
}

abbrev queue_works : NotifyStore.Call
queue_works = record { fails = λ p. false; now = 100 }

abbrev calls : Calls
calls = record {
  store = store_works;
  insert = queue_works;
  title = store_works;
  count = queue_works;
  insert_loop = queue_works;
  loop_title = store_works;
  now = 100;
}

calls-Works : Works calls
calls-Works = record { inserts = refl; counts = refl; inserts_loop = refl; prompt = omega arith }

abbrev setup : Setup
setup = record { notifies = true; has_keys = false; has_hub = true; firer = none; quote = λ t. t }

abbrev ops : Caller
ops = record { identity = none; header = "ops" }

abbrev blocked : ℕ → Notification
blocked id = record {
  id = id;
  envelope_id = "a";
  status = "blocked";
  note = "";
  proof_summary = "";
  created_at = 50;
  acknowledged = false;
  api_key = "ops";
}

abbrev state : State
state = record {
  table = envelope "a" 10 "delivered" ∷ envelope "z" 5 "failed" ∷ [];
  queue = record { rows = blocked 1 ∷ blocked 2 ∷ blocked 3 ∷ []; sequence = 3 };
  hub = ActivityHub.new;
  jobs = [];
}

abbrev to_blocked : UpdateStatusRequest
to_blocked = record { status = "blocked"; proof = []; note = "stuck" }

abbrev to_unproven : UpdateStatusRequest
to_unproven = record { status = "done"; proof = []; note = "" }

abbrev blocked_a : Envelope
blocked_a = record (envelope "a" 10 "blocked") {
  metrics = record (envelope "a" 10 "blocked").metrics { updated_at = some 100 };
  history = "[2026-01-01T00:00:00Z] delivered → blocked: stuck" ∷ [];
}

block_answered :
    (handle_update_status setup calls ops "a" (decoded to_blocked) state).0
    ≡ replied 200 (Envelopes.envelope blocked_a)
unfolding handle_update_status set_status update_status transition commit_status
    apply_transition_side_effects history_entry can_transition is_terminal known missing_key
    empty_value has_key lookup merge_proof
block_answered = refl

done_refused :
    (handle_update_status setup calls ops "a" (decoded to_unproven) state).0
    ≡ failed 422 "invalid_transition"
unfolding handle_update_status set_status update_status transition commit_status
    apply_transition_side_effects history_entry can_transition is_terminal known missing_key
    empty_value has_key lookup merge_proof
done_refused = refl

key_of_ops : notification_insert_key false ops ≡ some "ops"
unfolding notification_insert_key
key_of_ops = refl

handle_update_status-queue_example :
    (handle_update_status setup calls ops "a" (decoded to_blocked) state).1.queue ≡ (
      if is_interesting "blocked"
      then queued setup calls calls-Works "ops" "a" "blocked" "stuck" [] state.queue
      else state.queue)
handle_update_status-queue_example =
    handle_update_status-queue setup calls ops "a" "ops" to_blocked state 200
      (Envelopes.envelope blocked_a) calls-Works refl key_of_ops block_answered

handle_update_status-IsServed_example :
    IsServed setup calls ops "a" to_blocked 200
      (Envelopes.envelope blocked_a)
      store_works
      state
      (handle_update_status setup calls ops "a" (decoded to_blocked) state).1
handle_update_status-IsServed_example =
    handle_update_status-IsServed setup calls ops "a" to_blocked state 200
      (Envelopes.envelope blocked_a) store_works (λ n. refl) block_answered

abbrev fresh : Envelope
fresh = record (envelope "b" 0 "") { proof_required = [] }

created :
    (handle_create setup calls (decoded fresh) state).0
    ≡ replied 201 (Envelopes.envelope (with_defaults (utc_now store_works) fresh))
unfolding handle_create validate known EnvelopeStore.insert
created = refl

handle_set_session_terminal_example :
    handle_set_session setup calls "z" (decoded "s1") state ≡ (failed 500 "store_error", state)
unfolding is_terminal
handle_set_session_terminal_example =
    handle_set_session_terminal setup calls "z" "s1" state (envelope "z" 5 "failed") refl refl
      (λ n. refl) (refl, (refl, tt)) refl refl

abbrev requests : List (Calls × Caller × Request)
requests =
    (calls, ops, Envelopes.update_status "a" (decoded to_blocked))
    ∷ (calls, ops, Envelopes.add_history "z" (decoded "looked at"))
    ∷ (calls, ops, Envelopes.create (decoded fresh))
    ∷ []

serve_all-Extends_example : Extends state.table (run setup requests state).table
serve_all-Extends_example = serve_all-Extends setup requests state (refl, (refl, tt))
