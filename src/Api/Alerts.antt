-- ===== src/Api/Alerts.antt =====
-- What a status change sets off in hermes/internal/httpapi/envelope_handler.go: the notifications with
-- their loop detection, the webhooks and the event of the dashboard.
pub mod Loops
use hermes_forge_public.Prelude.{
  ℕ, suc, String, Bool, true, false, not, ◌||◌, Option, none, some, List, [], ◌∷◌, ◌++◌, ◌==◌, ltb,
  Result, ok, err, if◌then◌else◌,
}
use hermes_forge_public.Prelude.Texts.{concat, decimal}
use hermes_forge_public.Envelope
use hermes_forge_public.Envelope.{Envelope, Proof}
use hermes_forge_public.EnvelopeStore
use hermes_forge_public.EnvelopeStore.{Table}
use hermes_forge_public.NotifyStore
use hermes_forge_public.NotifyStore.{Notification, Queue, insert, count_recent_by_status}
use hermes_forge_public.NotifyStore.Summary.{is_interesting, proof_summary_from_map}
use hermes_forge_public.ActivityHub
use hermes_forge_public.ActivityHub.{Hub}
use hermes_forge_public.Api.{Caller, notification_insert_key}
use hermes_forge_public.Api.Webhook.{WebhookFirer, Event, Job, fire}

-- Which parts the handler has: `notifies`, `has_keys` and `has_hub` say that the pointer is not nil.
-- `quote` is the verb %q.
pub record Setup : Type 0 where
  pub notifies : Bool
  pub has_keys : Bool
  pub has_hub : Bool
  pub firer : Option WebhookFirer
  pub quote : String → String

-- The stores and the hub, and the goroutines started so far.
pub record State : Type 0 where
  pub table : Table
  pub queue : Queue
  pub hub : Hub
  pub jobs : List Job

-- The drivers of the store calls of one request, and the clock of the event.
pub record Calls : Type 0 where
  pub store : EnvelopeStore.Call
  pub insert : NotifyStore.Call
  pub title : EnvelopeStore.Call
  pub count : NotifyStore.Call
  pub insert_loop : NotifyStore.Call
  pub loop_title : EnvelopeStore.Call
  pub now : ℕ

-- The columns that Insert writes; the others have no value yet.
abbrev pub notification : String → String → String → String → String → Notification
notification key id status note summary = record {
  id = 0;
  envelope_id = id;
  status = status;
  note = note;
  proof_summary = summary;
  created_at = 0;
  acknowledged = false;
  api_key = key;
}

abbrev pub title_of : Result Envelope.Error Envelope → String
title_of (ok e) = e.task_title
title_of (err x) = ""

module _ (o : Setup) where
  unfoldable pub maybe_fire_webhook :
      EnvelopeStore.Call → String → String → String → String → Bool → State → State
  maybe_fire_webhook c id status note summary loop s =
      let event : Event = record {
        subject_id = id;
        title = title_of (EnvelopeStore.get c id s.table);
        status = status;
        note = note;
        proof_summary = summary;
        loop_detected = loop;
      } in
      record s { jobs = s.jobs ++ fire o.quote o.firer event }

  abbrev pub loop_note : String → ℕ → String
  loop_note id count = concat (
      "LOOP DETECTED: envelope "
      ∷ id
      ∷ " has been blocked "
      ∷ decimal (suc count) count
      ∷ " times in the last 30 minutes"
      ∷ [])

  -- The notification of a loop.
  unfoldable pub flag_loop : Calls → String → String → ℕ → State → State
  flag_loop c key id count s =
      let (result, q) =
        insert c.insert_loop (notification key id "loop_detected" (loop_note id count) "")
          s.queue in
      let s' = record s { queue = q } in
      elim result [
        | err _ ↦ s'
        | ok _ ↦ maybe_fire_webhook c.loop_title id "loop_detected" (loop_note id count) "" true s'
      ]

  unfoldable pub detect_loop : Calls → String → String → State → State
  detect_loop c key id s = elim (count_recent_by_status c.count id "blocked" 30 s.queue) [
    | err _ ↦ s
    | ok count ↦ if ltb 3 count then flag_loop c key id count s else s
  ]

  -- `maybeNotify` once the key of the notification is known.
  unfoldable pub notify : Calls → String → String → String → String → Proof → State → State
  notify c key id status note proof s =
      let summary = proof_summary_from_map proof in
      let (result, q) = insert c.insert (notification key id status note summary) s.queue in
      let s' = record s { queue = q } in
      let fired = maybe_fire_webhook c.title id status note summary false s' in
      elim result [
        | err _ ↦ s'
        | ok _ ↦ if status == "blocked" then detect_loop c key id fired else fired
      ]

  unfoldable pub maybe_notify : Calls → Caller → String → String → String → Proof → State → State
  maybe_notify c caller id status note proof s =
      if not o.notifies || not (is_interesting status)
      then s
      else elim (notification_insert_key o.has_keys caller) [
        | none ↦ s
        | some key ↦ notify c key id status note proof s
      ]

  abbrev pub activity : ℕ → String → String → String → ActivityHub.Event
  activity now id status note = record {
    api_key = "";
    envelope_id = id;
    kind = "status";
    summary = concat (id ∷ " → " ∷ status ∷ (if note == "" then [] else ": " ∷ note ∷ []));
    timestamp = some now;
  }

  unfoldable pub publish_activity : Calls → String → String → String → State → State
  publish_activity c id status note s =
      if o.has_hub
      then record s { hub = ActivityHub.publish c.now (activity c.now id status note) s.hub }
      else s
