-- ===== src/Relay/Tests.antt =====
-- Runs of the relay, and the theorems at concrete inputs.
use hermes_forge_public.Prelude.{String, ◌≡◌, refl, true, false, none, some, List, [], ◌∷◌, ◌++◌}
use hermes_forge_public.Relay.{
  Payload, Setup, new, handle_webhook, route, send, add_to_buffer, format_message, auto_flush,
  flush, obey, set_busy, priority, format_batch, bullet_list, trim_newlines,
}
use hermes_forge_public.Relay.Stream.{Event, run, run_held, forget, within}
use hermes_forge_public.Relay.Held.{run-held}
use hermes_forge_public.Relay.Waiting.{loud_texts, run-sent_free}

abbrev plain : Setup
plain = record { has_telegram = true; summarize = none }

abbrev payload : String → String → Payload
payload id status = record {
  envelope_id = id;
  status = status;
  task_title = id;
  note = "";
  proof_summary = "ok";
  loop_detected = false;
}

abbrev script : List Event
script =
    Event.commanded "busy" 5
    ∷ Event.webhook (some (payload "a" "done"))
    ∷ Event.webhook (some (payload "b" "blocked"))
    ∷ Event.webhook (some (payload "c" "paused"))
    ∷ []

sent_in_order :
    (run plain (script ++ Event.tick 1800000000006 ∷ []) new).sent
    ≡ "🔕 Режим «зайнятий» увімкнено. Нотифікації буферизуються." ∷ "🚫 BLOCKED: b\n"
      ∷ "📋 Пропущені нотифікації (2):\n• ✅ a\nok\n• 📨 paused: c" ∷ []
unfolding obey set_busy handle_webhook route send add_to_buffer format_message auto_flush flush
    priority format_batch bullet_list trim_newlines
sent_in_order = refl

run-held_example :
    forget (run plain script new)
    ≡ within (run_held plain script (record { busy = false; since = 0; items = [] }))
run-held_example = run-held plain script

abbrev quiet : List Event
quiet =
    Event.webhook (some (payload "c" "paused"))
    ∷ Event.tick 7200000000009
    ∷ Event.webhook (some (payload "d" "blocked"))
    ∷ Event.tick 14400000000009
    ∷ []

run-sent_free_example :
    ((run plain quiet new).sent ≡ loud_texts quiet) × ((run plain quiet new).busy ≡ false)
run-sent_free_example = run-sent_free plain quiet new refl refl (tt, (tt, (tt, (tt, tt))))
