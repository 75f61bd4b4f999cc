-- ===== src/Api/Notifications/Scope.antt =====
-- A caller reads and acknowledges its own notifications only.
use mathlib.Core.Path.{subst, subst⁻¹}
use hermes_forge_public.Prelude.{
  ℕ, String, ◌≡◌, refl, inl, inr, true, false, Option, none, some, List, [], ◌∷◌, map, arith,
  Bool-cases, All, eq_iff, Result, ok, err, Option-cases,
}
use hermes_forge_public.Prelude.Int.{ℤ}
use hermes_forge_public.Sql.{select}
use hermes_forge_public.KeyStore
use hermes_forge_public.KeyStore.{Key}
use hermes_forge_public.NotifyStore
use hermes_forge_public.NotifyStore.{
  Notification, Queue, Call, list_unacknowledged_for_key, is_pending, is_pending_for, query, scan,
  earlier,
}
use hermes_forge_public.NotifyStore.States.{HasUniqueIds}
use hermes_forge_public.NotifyStore.Bulk.{BulkAck, bulk_acknowledge}
use hermes_forge_public.NotifyStore.Machine
use hermes_forge_public.NotifyStore.Machine.{of_others, step-of_others}
use hermes_forge_public.Sql.Order.{All-order_by}
use hermes_forge_public.Api.{
  Response, failed, replied, Body, undecoded, decoded, Caller, notification_insert_key,
}
use hermes_forge_public.Api.Auth.{passed, refused, auth_middleware}
use hermes_forge_public.Api.Auth.Gate.{Verdict-cases, is_exempt, IsKeyOf, passed-IsKeyOf}
use hermes_forge_public.Api.Notifications.{
  Request, listing, ack, bulk_ack, Reply, notifications, row_id, ack_response, bulk_response, list,
  ack_one, bulk_ack_all, handle, serve,
}

-- What a caller is shown: pending notifications with its key.
abbrev pub ShowsOwn : String → Response Reply → Type 0
ShowsOwn key (replied status (notifications l)) =
    All (λ n. (n.api_key ≡ key) × (n.acknowledged ≡ false)) l
ShowsOwn key _ = Unit

-- A response with the queue that it leaves.
abbrev pub IsScoped : String → Queue → Response Reply × Queue → Type 0
IsScoped key q (response, q') = ShowsOwn key response × (of_others key q' ≡ of_others key q)

own_pending :
    (key : String) (rows : List Notification)
    → All (λ n. (n.api_key ≡ key) × (n.acknowledged ≡ false)) (select (is_pending_for key) rows)
own_pending key [] = tt
own_pending key (n ∷ rows) = elim (Bool-cases (is_pending_for key n)) [
  | inl e ↦ rw e (ground (arith, eq_iff n.api_key key), own_pending key rows)
  | inr e ↦ rw e (own_pending key rows)
]

-- The caller that the middleware leaves in a request it lets through.
abbrev as_key : Key → String → Caller
as_key k raw = record { identity = some k; header = raw }

list-ShowsOwn :
    (c : Call) (k : Key) (raw : String) (q : Queue) → ShowsOwn k.key (list c true (as_key k raw) q)
unfolding list notification_insert_key list_unacknowledged_for_key
list-ShowsOwn c k raw q = elim (Bool-cases (c.fails query)) [
  | inl e ↦ rw (e, ShowsOwn) tt
  | inr e ↦ elim (Bool-cases (c.fails scan)) [
    | inl d ↦ rw (e, d, ShowsOwn) tt
    | inr d ↦
        rw (e, d, ShowsOwn)
          (All-order_by earlier (λ n. (n.api_key ≡ k.key) × (n.acknowledged ≡ false))
            (select (is_pending_for k.key) q.rows) (own_pending k.key q.rows))
  ]
]

ack_response-ShowsOwn :
    (key : String) (r : Result NotifyStore.Error (Unit {0})) → ShowsOwn key (ack_response r)
ack_response-ShowsOwn key (ok v) = tt
ack_response-ShowsOwn key (err NotifyStore.not_found) = tt
ack_response-ShowsOwn key (err NotifyStore.negative_days) = tt
ack_response-ShowsOwn key (err (NotifyStore.driver p)) = tt

ack_one-IsScoped :
    (c : Call) (k : Key) (raw : String) (id : Option ℤ) (q : Queue)
    → HasUniqueIds q.rows
    → IsScoped k.key q (ack_one c true (as_key k raw) id q)
unfolding ack_one notification_insert_key
ack_one-IsScoped c k raw none q u = (tt, refl)
ack_one-IsScoped c k raw (some id) q u = (
  ack_response-ShowsOwn k.key (NotifyStore.acknowledge_for_key c (row_id id) k.key q).0,
  step-of_others c (Machine.acknowledge_for_key (row_id id) k.key) k.key q refl u,
)

bulk_response-ShowsOwn : (key : String) (b : BulkAck) → ShowsOwn key (bulk_response b).0
bulk_response-ShowsOwn key b = elim (Option-cases b.error) [
  | inl e ↦ rw (e, ShowsOwn) tt
  | inr (x, e) ↦ rw (e, ShowsOwn) tt
]

bulk_ack_all-IsScoped :
    (c : Call) (k : Key) (raw : String) (body : Body (List ℤ)) (q : Queue)
    → HasUniqueIds q.rows
    → IsScoped k.key q (bulk_ack_all c true (as_key k raw) body q)
unfolding bulk_ack_all notification_insert_key
bulk_ack_all-IsScoped c k raw undecoded q u = (tt, refl)
bulk_ack_all-IsScoped c k raw (decoded []) q u = (tt, refl)
bulk_ack_all-IsScoped c k raw (decoded (id ∷ ids)) q u = (
  bulk_response-ShowsOwn k.key (bulk_acknowledge c (map row_id (id ∷ ids)) k.key q),
  step-of_others c (Machine.bulk_acknowledge (map row_id (id ∷ ids)) k.key) k.key q refl u,
)

handle-IsScoped :
    (c : Call) (k : Key) (raw : String) (req : Request) (q : Queue)
    → HasUniqueIds q.rows
    → IsScoped k.key q (handle c true (as_key k raw) req q)
handle-IsScoped c k raw listing q u = (list-ShowsOwn c k raw q, refl)
handle-IsScoped c k raw (ack id) q u = ack_one-IsScoped c k raw id q u
handle-IsScoped c k raw (bulk_ack body) q u = bulk_ack_all-IsScoped c k raw body q u

key-IsScoped :
    (c : Call) (raw : String) (t : List Key) (who : Option Key) (req : Request) (q : Queue)
    → HasUniqueIds q.rows
    → IsKeyOf raw t who
    → IsScoped raw q (handle c true (record { identity = who; header = raw }) req q)
key-IsScoped c raw t none req q u h = absurd h
key-IsScoped c raw t (some k) req q u h =
    subst (λ key. IsScoped key q (handle c true (as_key k raw) req q)) h.0
      (handle-IsScoped c k raw req q u)

module _ (auth : KeyStore.Call) (c : Call) (path : List ℕ) (raw : String) (req : Request)
    (t : List Key) (q : Queue) where
  serve_refused :
      (status : ℕ) (kind : String)
      → auth_middleware auth path raw (some t) ≡ refused status kind
      → serve auth c path raw req t q ≡ (failed status kind, q)
  unfolding serve
  serve_refused status kind e = rw (e, serve) refl

  serve_passed :
      (who : Option Key)
      → auth_middleware auth path raw (some t) ≡ passed who
      → serve auth c path raw req t q
        ≡ handle c true (record { identity = who; header = raw }) req q
  unfolding serve
  serve_passed who e = rw (e, serve) refl

-- With a keystore, a request to a notification route is shown only pending notifications whose key is
-- the one in its header, and leaves the rows of every other key as they were, whatever ids it names.
pub serve-IsScoped :
    (auth : KeyStore.Call) (c : Call) (path : List ℕ) (raw : String) (req : Request) (t : List Key)
    (q : Queue)
    → is_exempt path ≡ false
    → HasUniqueIds q.rows
    → IsScoped raw q (serve auth c path raw req t q)
serve-IsScoped auth c path raw req t q closed u =
    elim (Verdict-cases (auth_middleware auth path raw (some t))) [
      | inl (status, kind, e) ↦
          subst⁻¹ (IsScoped raw q) (serve_refused auth c path raw req t q status kind e) (tt, refl)
      | inr (who, e) ↦
          subst⁻¹ (IsScoped raw q) (serve_passed auth c path raw req t q who e)
            (key-IsScoped c raw t who req q u (passed-IsKeyOf auth path raw t who closed e))
    ]
