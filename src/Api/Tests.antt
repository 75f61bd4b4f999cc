-- ===== src/Api/Tests.antt =====
-- Requests to the routes, and the theorems at concrete inputs.
use hermes_forge_public.Prelude.{
  ℕ, String, ◌≡◌, ◌⊎◌, refl, true, false, ◌&&◌, ◌||◌, if◌then◌else◌, none, some, List, [], ◌∷◌, ok,
}
use hermes_forge_public.Prelude.Int.{pos}
use hermes_forge_public.Prelude.Texts.{encode}
use hermes_forge_public.KeyStore
use hermes_forge_public.KeyStore.{Key}
use hermes_forge_public.NotifyStore
use hermes_forge_public.NotifyStore.{Notification, Queue}
use hermes_forge_public.SessionStore
use hermes_forge_public.Api.{failed, decoded}
use hermes_forge_public.Api.Auth.{
  codes, passed, refused, auth_middleware, check_key, is_public_path, is_rooted, elements, clean,
  same, has_prefix, split, resolve, resolve_all, unwind, join,
}
use hermes_forge_public.Api.Auth.Paths.{is_served, auth_middleware-keyless}
use hermes_forge_public.Api.Auth.Gate.{is_exempt, IsKeyOf, passed-IsKeyOf}
use hermes_forge_public.Api.Keys
use hermes_forge_public.Api.Keys.Admin.{HoldsAdmin, serve-admin}
use hermes_forge_public.Api.Notifications
use hermes_forge_public.Api.Notifications.Scope.{IsScoped, serve-IsScoped}
use hermes_forge_public.Api.Sessions
use hermes_forge_public.Api.Sessions.Ownership.{serve-foreign}

abbrev working : KeyStore.Call
working = record { fails = λ p. false; now = 100 }

abbrev key : String → String → String → Key
key text label role = record { key = text; label = label; role = role; created_at = 1 }

abbrev keys : List Key
keys = key "hk_a" "ops" "admin" ∷ key "hk_b" "ci" "user" ∷ []

keys_closed : is_exempt (codes "/keys") ≡ false
unfolding is_public_path clean split resolve resolve_all unwind join elements same has_prefix
keys_closed = refl

dotted_open : is_exempt (codes "/keys/../dashboard/x") ≡ true
unfolding is_public_path clean split resolve resolve_all unwind join elements same has_prefix
dotted_open = refl

auth_middleware-keyless_example :
    auth_middleware working (codes "/keys/..//icons/a.png") "" (some keys) ≡ (
      if same (codes "/keys/..//icons/a.png") (codes "/healthz")
        || is_rooted (codes "/keys/..//icons/a.png")
          && is_served (elements (codes "/keys/..//icons/a.png"))
      then passed none
      else refused 401 "auth_required")
auth_middleware-keyless_example =
    auth_middleware-keyless working (codes "/keys/..//icons/a.png") keys

user_passes :
    auth_middleware working (codes "/keys") "hk_b" (some keys)
    ≡ passed (some (key "hk_b" "ci" "user"))
unfolding auth_middleware check_key KeyStore.get is_public_path clean split resolve resolve_all
    unwind join elements same has_prefix
user_passes = refl

passed-IsKeyOf_example : IsKeyOf "hk_b" keys (some (key "hk_b" "ci" "user"))
passed-IsKeyOf_example =
    passed-IsKeyOf working (codes "/keys") "hk_b" keys (some (key "hk_b" "ci" "user")) keys_closed
      user_passes

abbrev new_key : Key
new_key = record { key = "hk_0a"; label = "new"; role = "user"; created_at = 100 }

made : KeyStore.create working (some (10 ∷ [])) "new" "" [] ≡ (ok new_key, new_key ∷ [])
unfolding KeyStore.create KeyStore.insert_key KeyStore.get encode
made = refl

gone : KeyStore.delete working "hk_b" keys ≡ (ok tt, key "hk_a" "ops" "admin" ∷ [])
unfolding KeyStore.delete
gone = refl

serve-admin_example :
    HoldsAdmin "hk_b" keys
    ⊎ ((status : ℕ) × (kind : String) × (Keys.serve working working
            (codes "/keys")
            "hk_b"
            (Keys.deletion "hk_a")
            keys
          ≡ (failed status kind, keys)))
serve-admin_example =
    serve-admin working working (codes "/keys") "hk_b" (Keys.deletion "hk_a") keys keys_closed

abbrev note : ℕ → String → Notification
note id owner = record {
  id = id;
  envelope_id = "e1";
  status = "done";
  note = "";
  proof_summary = "";
  created_at = 10;
  acknowledged = false;
  api_key = owner;
}

abbrev queue : Queue
queue = record { rows = note 1 "hk_a" ∷ note 2 "hk_b" ∷ []; sequence = 2 }

abbrev queue_works : NotifyStore.Call
queue_works = record { fails = λ p. false; now = 100 }

serve-IsScoped_example : IsScoped "hk_b" queue (
    Notifications.serve working queue_works
      (codes "/keys")
      "hk_b"
      (Notifications.bulk_ack (decoded (pos 1 ∷ pos 2 ∷ [])))
      keys
      queue)
serve-IsScoped_example =
    serve-IsScoped working queue_works (codes "/keys") "hk_b"
      (Notifications.bulk_ack (decoded (pos 1 ∷ pos 2 ∷ []))) keys queue keys_closed
      (refl, (refl, tt))

abbrev sessions_work : SessionStore.Call
sessions_work = record { fails = λ p. false; conflicts = λ i. false }

abbrev calls : Sessions.Calls
calls = record {
  owner = sessions_work;
  op = sessions_work;
  notify = queue_works;
  now = "2026-01-01T00:00:00Z";
}

abbrev setup : Sessions.Setup
setup = record { notifies = true; has_keys = true; firer = none; quote = λ t. t }

abbrev lanes : Sessions.State
lanes = record {
  store = record {
    sessions =
        record {
          id = "s1";
          created_at = "2026-01-01";
          title = "";
          project = "hermes";
          api_key = "hk_a";
          status = "active";
        }
        ∷ [];
    messages = [];
  };
  queue = queue;
  jobs = [];
}

serve-foreign_example :
    Sessions.serve setup calls working
      (codes "/keys")
      "hk_b"
      (Sessions.get_messages_since "s1" "")
      keys
      lanes
    ≡ (failed 404 "not_found", lanes)
serve-foreign_example =
    serve-foreign setup calls working (codes "/keys") "hk_b" (Sessions.get_messages_since "s1" "")
      keys lanes "s1" (some (key "hk_b" "ci" "user")) keys_closed user_passes refl refl refl refl
