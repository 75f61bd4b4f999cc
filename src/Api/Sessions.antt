-- ===== src/Api/Sessions.antt =====
-- hermes/internal/httpapi/session_handler.go: the routes below /sessions.
pub mod Ownership
use hermes_forge_public.Prelude.{
  ℕ, zero, suc, String, Bool, true, false, not, ◌&&◌, ◌||◌, Option, none, some, List, [], ◌∷◌, ◌++◌,
  ◌==◌, ltb, Result, ok, err, if◌then◌else◌,
}
use hermes_forge_public.Prelude.Int.{ℤ, pos, negsuc}
use hermes_forge_public.Prelude.Texts.{concat}
use hermes_forge_public.KeyStore
use hermes_forge_public.KeyStore.{Key}
use hermes_forge_public.SessionStore
use hermes_forge_public.SessionStore.{
  Session, Message, Store, Call, Error, not_found, insert_message, get_messages,
}
use hermes_forge_public.NotifyStore
use hermes_forge_public.NotifyStore.{Queue}
use hermes_forge_public.Api.{
  Response, failed, replied, Body, undecoded, decoded, Caller, context_key,
}
use hermes_forge_public.Api.Auth.{passed, refused, auth_middleware}
use hermes_forge_public.Api.Webhook.{WebhookFirer, Event, Job, fire}
use hermes_forge_public.Api.Alerts.{notification}
use hermes_forge_public.Api.Uuid.{new_uuid}

pub record CreateSessionRequest : Type 0 where
  pub title : String
  pub project : String

pub record AddMessageRequest : Type 0 where
  pub from : String
  pub kind : String
  pub text : String
  pub reply_to : String

-- The requests that `register` routes: what `rand.Read` gives, the session's id, the body, the query.
-- A number in the query is what `strconv.Atoi` gives, `none` if it is missing or no number.
pub data Request : Type 0 where
  create : Option (List ℕ) → Body CreateSessionRequest → Request
  list : Request
  get : String → Request
  raw_tail : String → Option ℤ → Option ℤ → Request
  add_message : String → Option (List ℕ) → Body AddMessageRequest → Request
  get_messages_since : String → String → Request

pub data Reply : Type 0 where
  session : Session → Reply
  sessions : List Session → Reply
  tail : ℕ → ℕ → Reply
  message : Message → Reply
  messages : List Message → Reply

-- `sessionHandler`; `notifies` and `has_keys` say that the pointer is not nil.
pub record Setup : Type 0 where
  pub notifies : Bool
  pub has_keys : Bool
  pub firer : Option WebhookFirer
  pub quote : String → String

pub record State : Type 0 where
  pub store : Store
  pub queue : Queue
  pub jobs : List Job

-- The drivers of the ownership check, of the operation and of the notification, and the time of the
-- request as RFC 3339 text.
pub record Calls : Type 0 where
  pub owner : Call
  pub op : Call
  pub notify : NotifyStore.Call
  pub now : String

abbrev pub store_failure : Error → Response Reply
store_failure not_found = failed 404 "not_found"
store_failure x = failed 500 "store_error"

abbrev pub missing_id : Response Reply
missing_id = failed 400 "missing_id"

-- A look-up that succeeded, as `checkSessionOwnership` judges it: the session, or the response 404.
unfoldable pub judge : Bool → String → Session → Result (Response Reply) Session
judge has_keys key sess =
    if key == ""
    then (if has_keys && not (sess.api_key == "") then err (failed 404 "not_found") else ok sess)
    else if sess.api_key == key
    then ok sess
    else err (failed 404 "not_found")

unfoldable pub check_session_ownership :
    Bool → Call → Caller → String → Store → Result (Response Reply) Session
check_session_ownership has_keys c caller id s = elim (SessionStore.get c id s) [
  | err x ↦ err (store_failure x)
  | ok sess ↦ judge has_keys (context_key caller.identity) sess
]

-- `boundedQueryInt`
unfoldable pub bounded_query_int : Option ℤ → ℕ → ℕ → ℕ
bounded_query_int none fallback limit = if ltb limit fallback then limit else fallback
bounded_query_int (some (negsuc n)) fallback limit = if ltb limit fallback then limit else fallback
bounded_query_int (some (pos zero)) fallback limit = if ltb limit fallback then limit else fallback
bounded_query_int (some (pos (suc n))) fallback limit = if ltb limit (suc n) then limit else suc n

abbrev pub is_valid_kind : String → Bool
is_valid_kind kind = kind == "decision" || kind == "steer" || kind == "reply"

unfoldable pub check_message : AddMessageRequest → Option (Response Reply)
check_message req =
    if req.from == ""
    then some (failed 422 "invalid_message")
    else if req.kind == ""
    then some (failed 422 "invalid_message")
    else if not (is_valid_kind req.kind)
    then some (failed 422 "invalid_kind")
    else if req.text == ""
    then some (failed 422 "invalid_message")
    else none

module _ (o : Setup) (c : Calls) where
  unfoldable pub handle_create :
      Caller → Option (List ℕ) → Body CreateSessionRequest → State → Response Reply × State
  handle_create caller bytes undecoded s = (failed 400 "invalid_json", s)
  handle_create caller bytes (decoded req) s = elim (new_uuid bytes) [
    | none ↦ (failed 500 "internal_error", s)
    | some id ↦
        let sess : Session = record {
          id = id;
          created_at = c.now;
          title = req.title;
          project = req.project;
          api_key = context_key caller.identity;
          status = "active";
        } in
        let (result, store) = SessionStore.insert c.op sess s.store in
        let s' = record s { store = store } in
        elim result [
          | err _ ↦ (failed 500 "store_error", s')
          | ok _ ↦ (replied 201 (session sess), s')
        ]
  ]

  unfoldable pub handle_list : Caller → State → Response Reply
  handle_list caller s = elim (SessionStore.list c.op (context_key caller.identity) s.store) [
    | err _ ↦ failed 500 "store_error"
    | ok l ↦ replied 200 (sessions l)
  ]

  -- What a handler below /sessions/{id} does first.
  unfoldable pub with_session :
      Caller → String → State → (Session → Response Reply × State) → Response Reply × State
  with_session caller id s next =
      if id == ""
      then (missing_id, s)
      else elim (check_session_ownership o.has_keys c.owner caller id s.store) [
        | err response ↦ (response, s)
        | ok sess ↦ next sess
      ]

  unfoldable pub maybe_notify_message : String → String → String → String → State → State
  maybe_notify_message id key from kind s =
      let note = concat ("message from " ∷ from ∷ " (" ∷ kind ∷ ")" ∷ []) in
      if not o.notifies || (key == "" && o.has_keys) then s else record s {
        queue =
            (NotifyStore.insert c.notify (notification key id "session_message" note "") s.queue).1;
      }

  unfoldable pub maybe_fire_decision : Session → String → String → String → State → State
  maybe_fire_decision sess from kind text s =
      let event : Event = record {
        subject_id = sess.id;
        title = if sess.title == "" then sess.id else sess.title;
        status = "session_decision";
        note = concat (from ∷ ": " ∷ text ∷ []);
        proof_summary = "";
        loop_detected = false;
      } in
      if not (kind == "decision") || from == "" || from == "kitt"
      then s
      else record s { jobs = s.jobs ++ fire o.quote o.firer event }

  -- `addMessage` once the message has its id; the order is written back by InsertMessage.
  unfoldable pub store_message :
      Session → String → AddMessageRequest → String → State → Response Reply × State
  store_message sess id req uuid s =
      let msg : Message = record {
        id = uuid;
        session_id = id;
        from = req.from;
        kind = req.kind;
        text = req.text;
        reply_to = req.reply_to;
        created_at = c.now;
        insert_order = 0;
      } in
      let (result, store) = insert_message c.op msg s.store in
      let s' = record s { store = store } in
      let notified = maybe_notify_message id sess.api_key req.from req.kind s' in
      elim result [
        | err x ↦ (store_failure x, s')
        | ok order ↦ (
          replied 201 (message (record msg { insert_order = order })),
          maybe_fire_decision sess req.from req.kind req.text notified,
        )
      ]

  unfoldable pub post_message :
      String → Option (List ℕ) → Body AddMessageRequest → State → Session → Response Reply × State
  post_message id bytes undecoded s sess = (failed 400 "invalid_json", s)
  post_message id bytes (decoded req) s sess = elim (check_message req) [
    | some refusal ↦ (refusal, s)
    | none ↦ elim (new_uuid bytes) [
      | none ↦ (failed 500 "internal_error", s)
      | some uuid ↦ store_message sess id req uuid s
    ]
  ]

  unfoldable pub read_messages : String → String → State → Session → Response Reply × State
  read_messages id since s sess = elim (get_messages c.op id since s.store) [
    | err x ↦ (store_failure x, s)
    | ok l ↦ (replied 200 (messages l), s)
  ]

  abbrev pub handle : Caller → Request → State → Response Reply × State
  handle caller (create bytes body) s = handle_create caller bytes body s
  handle caller list s = (handle_list caller s, s)
  handle caller (get id) s = with_session caller id s (λ sess. (replied 200 (session sess), s))
  handle caller (raw_tail id max_bytes max_lines) s = with_session caller id s (λ sess. (
    replied 200
        (tail (bounded_query_int max_bytes 8192 65536) (bounded_query_int max_lines 80 200)),
    s,
  ))
  handle caller (add_message id bytes body) s =
      with_session caller id s (post_message id bytes body s)
  handle caller (get_messages_since id since) s =
      with_session caller id s (read_messages id since s)

  -- The handlers behind the middleware, with a keystore.
  unfoldable pub serve :
      KeyStore.Call → List ℕ → String → Request → List Key → State → Response Reply × State
  serve auth path raw req t s = elim (auth_middleware auth path raw (some t)) [
    | refused status kind ↦ (failed status kind, s)
    | passed who ↦ handle (record { identity = who; header = raw }) req s
  ]
