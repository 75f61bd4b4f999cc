-- ===== src/Api.antt =====
-- What the HTTP handlers of hermes/internal/httpapi share: the response (server.go), the decoded
-- body, and the caller as the middleware of auth.go leaves it in the request.
pub mod Auth
pub mod Keys
pub mod Notifications
pub mod Webhook
pub mod Alerts
pub mod Uuid
pub mod StatusList
pub mod Envelopes
pub mod Sessions
pub mod Registry
pub mod Agents
pub mod Activity
mod Tests
use hermes_forge_public.Prelude.{ℕ, String, Bool, true, false, Option, none, some, ◌==◌}
use hermes_forge_public.KeyStore.{Key}

-- `writeError` with its status and its kind, or `writeJSON` with its status and its value.
pub data Response {ℓ} (A : Type ℓ) : Type ℓ where
  failed : ℕ → String → Response A
  replied : ℕ → A → Response A

-- A request body that the JSON decoder refuses, or what it decodes to.
pub data Body {ℓ} (A : Type ℓ) : Type ℓ where
  undecoded : Body A
  decoded : A → Body A

-- `identity` is `KeyFromContext`, `header` the X-Hermes-Key header, empty if it is missing.
pub record Caller : Type 0 where
  pub identity : Option Key
  pub header : String

-- The key in the context, or the empty text.
abbrev pub context_key : Option Key → String
context_key none = ""
context_key (some k) = k.key

-- `k != nil && k.Role == "admin"`
abbrev pub is_admin : Option Key → Bool
is_admin none = false
is_admin (some k) = k.role == "admin"

-- `notificationInsertKey`; `none` is a refusal.
unfoldable pub notification_insert_key : Bool → Caller → Option String
notification_insert_key configured caller = elim caller.identity [
  | some k ↦ some k.key
  | none ↦ elim configured [ true ↦ none | false ↦ some caller.header ]
]
