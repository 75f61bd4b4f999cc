-- ===== src/Api/Keys.antt =====
-- hermes/internal/httpapi/key_handler.go: the administration of API keys.
pub mod Admin
use hermes_forge_public.Prelude.{
  ℕ, String, Bool, true, false, not, ◌&&◌, ◌||◌, Option, none, some, List, [], ◌∷◌, ◌==◌, Result,
  ok, err, if◌then◌else◌,
}
use hermes_forge_public.KeyStore
use hermes_forge_public.KeyStore.{Key, Call, Error, not_found, duplicate}
use hermes_forge_public.Api.{Response, failed, replied, Body, undecoded, decoded, is_admin}
use hermes_forge_public.Api.Auth.{Verdict, passed, refused, auth_middleware}

-- The anonymous request of `create`.
pub record CreateRequest : Type 0 where
  pub label : String
  pub role : String

-- The requests that `register` routes; a creation carries what `rand.Read` gives.
pub data Request : Type 0 where
  listing : Request
  creation : Option (List ℕ) → Body CreateRequest → Request
  deletion : String → Request

pub data Reply : Type 0 where
  keys : List Key → Reply
  made : Key → Reply
  deleted : Reply

unfoldable pub list : Call → List Key → Response Reply
list c t = elim (KeyStore.list c t) [
  | ok l ↦ replied 200 (keys l)
  | err _ ↦ failed 500 "store_error"
]

abbrev pub create_response : Result Error Key → Response Reply
create_response (ok k) = replied 201 (made k)
create_response (err duplicate) = failed 409 "duplicate_label"
create_response (err x) = failed 500 "store_error"

unfoldable pub create :
    Call → Option (List ℕ) → Body CreateRequest → List Key → Response Reply × List Key
create c bytes undecoded t = (failed 400 "bad_json", t)
create c bytes (decoded req) t =
    let (result, t') = KeyStore.create c bytes req.label req.role t in
    if req.label == ""
    then (failed 422 "missing_label", t)
    else if not (req.role == "") && not (req.role == "user") && not (req.role == "admin")
    then (failed 422 "invalid_role", t)
    else (create_response result, t')

abbrev pub delete_response : Result Error (Unit {0}) → Response Reply
delete_response (ok _) = replied 200 deleted
delete_response (err not_found) = failed 404 "not_found"
delete_response (err x) = failed 500 "store_error"

unfoldable pub delete : Call → String → List Key → Response Reply × List Key
delete c key t = let (result, t') = KeyStore.delete c key t in (delete_response result, t')

abbrev pub admitted : Call → Request → List Key → Response Reply × List Key
admitted c listing t = (list c t, t)
admitted c (creation bytes body) t = create c bytes body t
admitted c (deletion key) t = delete c key t

-- `requireAdmin` before each handler.
unfoldable pub handle : Call → Option Key → Request → List Key → Response Reply × List Key
handle c who req t = if is_admin who then admitted c req t else (failed 403 "admin_required", t)

-- The handlers behind the middleware, which `NewServer` puts in front of all routes; `auth` is the
-- driver of its look-up.
unfoldable pub serve :
    Call → Call → List ℕ → String → Request → List Key → Response Reply × List Key
serve auth c path raw req t = elim (auth_middleware auth path raw (some t)) [
  | refused status kind ↦ (failed status kind, t)
  | passed who ↦ handle c who req t
]
