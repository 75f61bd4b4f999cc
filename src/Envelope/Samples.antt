-- ===== src/Envelope/Samples.antt =====
-- An envelope to run the code of other modules on.
use hermes_forge_public.Prelude.{ℕ, suc, String, false, none, [], ◌∷◌}
use hermes_forge_public.Prelude.Int.{pos}
use hermes_forge_public.Prelude.Texts.{concat, decimal}
use hermes_forge_public.Envelope.{Envelope, Status}

abbrev pub envelope : String → ℕ → Status → Envelope
envelope id at status = record {
  id = id;
  created_at = record {
    instant = at;
    stored = concat ("2026-01-01 00:00:" ∷ decimal (suc at) at ∷ " +0000 UTC" ∷ []);
  };
  created_by = "kitt";
  title = "title";
  domain = "";
  project = "hermes";
  target_node = "";
  target_executor = "claude";
  task_title = "task";
  task_goal = "";
  task_steps = [];
  success_criteria = [];
  escalation_criteria = [];
  proof_required = "commit" ∷ [];
  status = status;
  delivery = record { delivered = false; delivered_at = none; is_read = false; read_at = none };
  capability_hints = [];
  session_binding = none;
  executor_session_id = "";
  thread = [];
  metrics = record {
    started_at = none;
    updated_at = none;
    completed_at = none;
    retry_count = pos 0;
  };
  history = [];
  proof = [];
}
