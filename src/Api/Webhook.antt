-- ===== src/Api/Webhook.antt =====
-- hermes/internal/httpapi/webhook.go, with the texts that envelope_handler.go formats for it. The
-- network calls run in goroutines; a goroutine that was started is an entry of the list returned.
use hermes_forge_public.Prelude.{
  String, Bool, ◌||◌, Option, none, some, List, [], ◌∷◌, ◌++◌, ◌==◌, if◌then◌else◌,
}
use hermes_forge_public.Prelude.Texts.{concat}

pub record WebhookFirer : Type 0 where
  pub webhook_url : String
  pub webhook_secret : String
  pub tg_token : String
  pub tg_chat : String
  pub tg_thread : String

-- The arguments of `Fire`.
pub record Event : Type 0 where
  pub subject_id : String
  pub title : String
  pub status : String
  pub note : String
  pub proof_summary : String
  pub loop_detected : Bool

-- `telegramSend` with token, chat, thread and text, `openClawNotify` with URL, token and message, and
-- the POST of the payload.
pub data Job : Type 0 where
  telegram : String → String → String → String → Job
  openclaw : String → String → String → Job
  webhook : String → Event → Job

unfoldable pub format_telegram_message : Event → String
format_telegram_message e =
    if e.loop_detected || e.status == "loop_detected"
    then concat ("🔄 LOOP: " ∷ e.title ∷ "\n" ∷ e.note ∷ [])
    else if e.status == "done"
    then concat ("✅ " ∷ e.title ∷ "\n" ∷ e.proof_summary ∷ [])
    else if e.status == "blocked"
    then concat ("🚫 BLOCKED: " ∷ e.title ∷ "\n" ∷ e.note ∷ [])
    else if e.status == "failed"
    then concat ("❌ FAILED: " ∷ e.title ∷ "\n" ∷ e.note ∷ [])
    else if e.status == "awaiting_confirm"
    then concat ("❓ " ∷ e.title ∷ "\n" ∷ e.note ∷ [])
    else if e.status == "session_decision"
    then concat ("💡 " ∷ e.title ∷ "\n" ∷ e.note ∷ [])
    else if e.note == ""
    then concat ("📨 " ∷ e.status ∷ ": " ∷ e.title ∷ [])
    else concat ("📨 " ∷ e.status ∷ ": " ∷ e.title ∷ "\n" ∷ e.note ∷ [])

-- `quote` is the verb %q.
unfoldable pub format_webhook_goal : (String → String) → Event → String
format_webhook_goal quote e = concat (
    "Hermes notification: envelope "
    ∷ e.subject_id
    ∷ ", status="
    ∷ e.status
    ∷ (if e.title == "" then "" else concat (", task=" ∷ quote e.title ∷ []))
    ∷ (if e.loop_detected then ", LOOP DETECTED" else "")
    ∷ (if e.note == "" then "" else concat (". Note: " ∷ e.note ∷ []))
    ∷ (if e.proof_summary == "" then "" else concat (". Proof: " ∷ e.proof_summary ∷ []))
    ∷ [])

unfoldable pub dispatch_telegram : WebhookFirer → Event → List Job
dispatch_telegram f e =
    if f.tg_token == "" || f.tg_chat == ""
    then []
    else telegram f.tg_token f.tg_chat f.tg_thread (format_telegram_message e) ∷ []

unfoldable pub dispatch_webhook : (String → String) → WebhookFirer → Event → List Job
dispatch_webhook quote f e =
    if f.webhook_url == ""
    then []
    else if f.webhook_secret == ""
    then webhook f.webhook_url e ∷ []
    else openclaw f.webhook_url f.webhook_secret (format_webhook_goal quote e) ∷ []

-- `Fire`; no sink is configured where the firer is `none`.
unfoldable pub fire : (String → String) → Option WebhookFirer → Event → List Job
fire quote none e = []
fire quote (some f) e = dispatch_telegram f e ++ dispatch_webhook quote f e

-- `newWebhookFirer`, of the options of the server
unfoldable pub new_webhook_firer : WebhookFirer → Option WebhookFirer
new_webhook_firer o =
    if o.webhook_url == "" then (if o.tg_token == "" then none else some o) else some o
