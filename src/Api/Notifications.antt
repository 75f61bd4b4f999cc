-- ===== src/Api/Notifications.antt =====
-- hermes/internal/httpapi/notification_handler.go: the notifications of the caller.
pub mod Scope
use hermes_forge_public.Prelude.{
  ℕ, String, Bool, true, false, Option, none, some, List, [], ◌∷◌, map, Result, ok, err,
}
use hermes_forge_public.Prelude.Int.{ℤ, pos, negsuc}
use hermes_forge_public.KeyStore
use hermes_forge_public.KeyStore.{Key}
use hermes_forge_public.NotifyStore
use hermes_forge_public.NotifyStore.{Notification, Queue, Call, Error, not_found}
use hermes_forge_public.NotifyStore.Bulk.{BulkAck, BulkAckResult, bulk_acknowledge}
use hermes_forge_public.Api.{
  Response, failed, replied, Body, undecoded, decoded, Caller, notification_insert_key,
}
use hermes_forge_public.Api.Auth.{Verdict, passed, refused, auth_middleware}

-- The requests that `register` routes. `ack` has what `strconv.ParseInt` gives, `bulk_ack` the ids of a
-- body within `maxBulkAckBodyBytes` that decodes.
pub data Request : Type 0 where
  listing : Request
  ack : Option ℤ → Request
  bulk_ack : Body (List ℤ) → Request

pub data Reply : Type 0 where
  notifications : List Notification → Reply
  acknowledged : Reply
  bulk : BulkAckResult → Reply

-- AUTOINCREMENT gives out positive ids, so that one below zero finds the same as 0: no row.
abbrev pub row_id : ℤ → ℕ
row_id (pos n) = n
row_id (negsuc n) = 0

unfoldable pub list : Call → Bool → Caller → Queue → Response Reply
list c configured caller q = elim (notification_insert_key configured caller) [
  | none ↦ failed 401 "auth_required"
  | some key ↦ elim (NotifyStore.list_unacknowledged_for_key c key q) [
    | ok l ↦ replied 200 (notifications l)
    | err _ ↦ failed 500 "store_error"
  ]
]

abbrev pub ack_response : Result Error (Unit {0}) → Response Reply
ack_response (ok _) = replied 200 acknowledged
ack_response (err not_found) = failed 404 "not_found"
ack_response (err x) = failed 500 "store_error"

abbrev pub ack_id : Call → ℕ → String → Queue → Response Reply × Queue
ack_id c id key q =
    let (result, q') = NotifyStore.acknowledge_for_key c id key q in (ack_response result, q')

unfoldable pub ack_one : Call → Bool → Caller → Option ℤ → Queue → Response Reply × Queue
ack_one c configured caller none q = (failed 400 "invalid_id", q)
ack_one c configured caller (some id) q = elim (notification_insert_key configured caller) [
  | none ↦ (failed 401 "auth_required", q)
  | some key ↦ ack_id c (row_id id) key q
]

abbrev pub bulk_response : BulkAck → Response Reply × Queue
bulk_response b = (
  elim b.error [ some x ↦ failed 500 "store_error" | none ↦ replied 200 (bulk b.result) ],
  b.queue,
)

abbrev pub ack_ids : Call → Body (List ℤ) → String → Queue → Response Reply × Queue
ack_ids c undecoded key q = (failed 400 "invalid_json", q)
ack_ids c (decoded []) key q = (failed 422 "missing_ids", q)
ack_ids c (decoded (id ∷ ids)) key q =
    bulk_response (bulk_acknowledge c (map row_id (id ∷ ids)) key q)

unfoldable pub bulk_ack_all : Call → Bool → Caller → Body (List ℤ) → Queue → Response Reply × Queue
bulk_ack_all c configured caller body q = elim (notification_insert_key configured caller) [
  | none ↦ (failed 401 "auth_required", q)
  | some key ↦ ack_ids c body key q
]

abbrev pub handle : Call → Bool → Caller → Request → Queue → Response Reply × Queue
handle c configured caller listing q = (list c configured caller q, q)
handle c configured caller (ack id) q = ack_one c configured caller id q
handle c configured caller (bulk_ack body) q = bulk_ack_all c configured caller body q

-- The handlers behind the middleware, with a keystore.
unfoldable pub serve :
    KeyStore.Call → Call → List ℕ → String → Request → List Key → Queue → Response Reply × Queue
serve auth c path raw req t q = elim (auth_middleware auth path raw (some t)) [
  | refused status kind ↦ (failed status kind, q)
  | passed who ↦ handle c true (record { identity = who; header = raw }) req q
]
