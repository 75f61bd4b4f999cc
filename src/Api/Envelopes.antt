-- ===== src/Api/Envelopes.antt =====
-- hermes/internal/httpapi/envelope_handler.go: the routes below /envelopes.
pub mod Effects
pub mod Sessions
pub mod Responses
pub mod Evolution
mod Tests
use hermes_forge_public.EnvelopeStore.{utc_now}
use hermes_forge_public.Envelope.{Time}
use hermes_forge_public.Prelude.{
  ℕ, String, Bool, true, false, not, ◌||◌, Option, none, some, List, [], ◌∷◌, ◌==◌, eqb, Result, ok,
  err, if◌then◌else◌,
}
use hermes_forge_public.Prelude.Texts.{concat}
use hermes_forge_public.Envelope
use hermes_forge_public.Envelope.{
  Envelope, Message, Proof, Error, not_found, duplicate, terminal_transition, done_without_proof,
  unknown_status, validate,
}
use hermes_forge_public.EnvelopeStore
use hermes_forge_public.EnvelopeStore.Update
use hermes_forge_public.EnvelopeStore.Thread
use hermes_forge_public.Api.{Response, failed, replied, Body, undecoded, decoded, Caller}
use hermes_forge_public.Api.Alerts.{Setup, State, Calls, maybe_notify, publish_activity}
use hermes_forge_public.Api.StatusList.{parse_statuses}
use hermes_forge_public.Api.Uuid.{new_uuid}

pub record UpdateStatusRequest : Type 0 where
  pub status : String
  pub proof : Proof
  pub note : String

pub record AppendThreadRequest : Type 0 where
  pub from : String
  pub kind : String
  pub text : String
  pub reply_to : String

-- The requests that `register` routes: the query, the envelope's id, the body, and for a message what
-- `rand.Read` gives.
pub data Request : Type 0 where
  create : Body Envelope → Request
  list : String → Request
  get : String → Request
  update_status : String → Body UpdateStatusRequest → Request
  set_session : String → Body String → Request
  add_history : String → Body String → Request
  append_message : String → Option (List ℕ) → Body AppendThreadRequest → Request
  get_thread : String → String → Request

pub data Reply : Type 0 where
  envelope : Envelope → Reply
  envelopes : List Envelope → Reply
  message : Message → Reply
  messages : List Message → Reply
  done : Reply

-- The defaults that `create` sets.
abbrev pub with_defaults : Time → Envelope → Envelope
with_defaults now e = record e {
  status = if e.status == "" then "created" else e.status;
  created_at = if eqb e.created_at.instant 0 then now else e.created_at;
}

abbrev pub create_response : Envelope → Result Error (Unit {0}) → Response Reply
create_response e (ok _) = replied 201 (envelope e)
create_response e (err duplicate) = failed 409 "duplicate_envelope"
create_response e (err x) = failed 500 "store_error"

-- Of the errors of the store, `errors.Is` finds ErrNotFound.
abbrev pub store_failure : Error → Response Reply
store_failure not_found = failed 404 "not_found"
store_failure x = failed 500 "store_error"

abbrev pub answer : {A : Type 0} → Result Error A → (A → Response Reply) → Response Reply
answer (ok a) reply = reply a
answer (err x) reply = store_failure x

abbrev pub status_failure : Error → Response Reply
status_failure not_found = failed 404 "not_found"
status_failure terminal_transition = failed 422 "invalid_transition"
status_failure done_without_proof = failed 422 "invalid_transition"
status_failure unknown_status = failed 422 "invalid_transition"
status_failure x = failed 500 "store_error"

abbrev pub missing_id : Response Reply
missing_id = failed 400 "missing_id"

abbrev pub is_valid_kind : String → Bool
is_valid_kind kind = kind == "decision" || kind == "steer" || kind == "reply"

-- The checks of `appendMessage` on its body.
unfoldable pub check_message : AppendThreadRequest → Option (Response Reply)
check_message req =
    if req.from == ""
    then some (failed 422 "invalid_message")
    else if req.kind == ""
    then some (failed 422 "invalid_message")
    else if not (is_valid_kind req.kind)
    then some (failed 422 "invalid_kind")
    else if req.text == ""
    then some (failed 422 "invalid_message")
    else none

abbrev pub new_message : AppendThreadRequest → String → ℕ → Message
new_message req uuid now = record {
  id = uuid;
  from = req.from;
  kind = req.kind;
  text = req.text;
  reply_to = req.reply_to;
  at = now;
}

module _ (o : Setup) (c : Calls) where
  unfoldable pub handle_create : Body Envelope → State → Response Reply × State
  handle_create undecoded s = (failed 400 "invalid_json", s)
  handle_create (decoded body) s =
      let e = with_defaults (utc_now c.store) body in
      let (result, t) = EnvelopeStore.insert c.store e s.table in
      elim (validate e) [
        | err _ ↦ (failed 422 "invalid_envelope", s)
        | ok _ ↦ (create_response e result, record s { table = t })
      ]

  unfoldable pub handle_list : String → State → Response Reply
  handle_list q s = elim (parse_statuses q) [
    | none ↦ failed 400 "invalid_status"
    | some statuses ↦ elim (EnvelopeStore.list c.store statuses s.table) [
      | err _ ↦ failed 500 "store_error"
      | ok l ↦ replied 200 (envelopes l)
    ]
  ]

  unfoldable pub handle_get : String → State → Response Reply
  handle_get id s =
      if id == ""
      then missing_id
      else answer (EnvelopeStore.get c.store id s.table) (λ e. replied 200 (envelope e))

  -- `updateStatus` from the store call on.
  unfoldable pub set_status : Caller → String → UpdateStatusRequest → State → Response Reply × State
  set_status caller id req s =
      let (result, t) = Update.update_status c.store id req.status req.proof req.note s.table in
      let s' = record s { table = t } in
      let notified = maybe_notify o c caller id req.status req.note req.proof s' in
      elim result [
        | err x ↦ (status_failure x, s')
        | ok e ↦ (replied 200 (envelope e), publish_activity o c id req.status req.note notified)
      ]

  unfoldable pub handle_update_status :
      Caller → String → Body UpdateStatusRequest → State → Response Reply × State
  handle_update_status caller id undecoded s =
      if id == "" then (missing_id, s) else (failed 400 "invalid_json", s)
  handle_update_status caller id (decoded req) s =
      if id == ""
      then (missing_id, s)
      else if req.status == ""
      then (failed 422 "invalid_status", s)
      else set_status caller id req s

  abbrev pub stamped : String → String
  stamped entry = concat ("[" ∷ c.store.rfc3339 c.store.now ∷ "] " ∷ entry ∷ [])

  unfoldable pub handle_add_history : String → Body String → State → Response Reply × State
  handle_add_history id undecoded s =
      if id == "" then (missing_id, s) else (failed 400 "invalid_json", s)
  handle_add_history id (decoded entry) s =
      let (result, t) = Update.add_history c.store id (stamped entry) s.table in
      let s' = record s { table = t } in
      if id == ""
      then (missing_id, s)
      else if entry == ""
      then (failed 422 "invalid_entry", s)
      else (answer result (λ e. replied 200 (envelope e)), s')

  unfoldable pub handle_set_session : String → Body String → State → Response Reply × State
  handle_set_session id undecoded s =
      if id == "" then (missing_id, s) else (failed 400 "invalid_json", s)
  handle_set_session id (decoded session) s =
      let (result, t) = EnvelopeStore.set_executor_session_id c.store id session s.table in
      let s' = record s { table = t } in
      if id == ""
      then (missing_id, s)
      else if session == ""
      then (failed 422 "invalid_session", s)
      else (answer result (λ v. replied 200 done), s')

  -- `appendMessage` once the message has its id.
  unfoldable pub store_message :
      String → AppendThreadRequest → String → State → Response Reply × State
  store_message id req uuid s =
      let msg = new_message req uuid c.store.now in
      let (result, t) = Thread.append_message c.store id msg s.table in
      let s' = record s { table = t } in (answer result (λ v. replied 201 (message msg)), s')

  unfoldable pub handle_append_message :
      String → Option (List ℕ) → Body AppendThreadRequest → State → Response Reply × State
  handle_append_message id bytes undecoded s =
      if id == "" then (missing_id, s) else (failed 400 "invalid_json", s)
  handle_append_message id bytes (decoded req) s =
      if id == "" then (missing_id, s) else elim (check_message req) [
        | some refusal ↦ (refusal, s)
        | none ↦ elim (new_uuid bytes) [
          | none ↦ (failed 500 "internal_error", s)
          | some uuid ↦ store_message id req uuid s
        ]
      ]

  unfoldable pub handle_get_thread : String → String → State → Response Reply
  handle_get_thread id since s =
      if id == ""
      then missing_id
      else answer (Thread.get_thread c.store id since s.table) (λ l. replied 200 (messages l))

  abbrev pub handle : Caller → Request → State → Response Reply × State
  handle caller (create body) s = handle_create body s
  handle caller (list q) s = (handle_list q s, s)
  handle caller (get id) s = (handle_get id s, s)
  handle caller (update_status id body) s = handle_update_status caller id body s
  handle caller (set_session id body) s = handle_set_session id body s
  handle caller (add_history id body) s = handle_add_history id body s
  handle caller (append_message id bytes body) s = handle_append_message id bytes body s
  handle caller (get_thread id since) s = (handle_get_thread id since s, s)
