-- ===== src/Api/Auth/Gate.antt =====
-- Whom the middleware of hermes/internal/httpapi/auth.go lets through.
use mathlib.Core.Path.{subst}
use hermes_forge_public.Prelude.{
  ℕ, String, ◌≡◌, ◌≢◌, refl, sym, ◌∙◌, ◌⊎◌, inl, inr, Bool, false, ◌||◌, Option, none, some, List,
  arith, Bool-cases, eq_iff, ◌==◌, ok, err, Result-cases,
}
use hermes_forge_public.Sql.{find}
use hermes_forge_public.Sql.Laws.{find-true}
use hermes_forge_public.KeyStore
use hermes_forge_public.KeyStore.Lookup.{get-found, create-IsStored, delete-none}
use hermes_forge_public.KeyStore.{Key, Call, query, has_key, create, delete, not_found, insert_key}
use hermes_forge_public.Api.Auth.{
  Verdict, passed, refused, same, codes, is_public_path, check_key, auth_middleware, key_refusal,
}

pub Verdict-cases :
    (v : Verdict)
    → ((status : ℕ) × (kind : String) × (v ≡ refused status kind))
      ⊎ ((who : Option Key) × (v ≡ passed who))
Verdict-cases (passed who) = inr (who, refl)
Verdict-cases (refused status kind) = inl (status, kind, refl)

-- The paths that need no key.
abbrev pub is_exempt : List ℕ → Bool
is_exempt path = same path (codes "/healthz") || is_public_path path

-- Which of the table's keys a request on a path that needs one is served for.
abbrev pub IsKeyOf : String → List Key → Option Key → Type 0
IsKeyOf raw t none = ⊥
IsKeyOf raw t (some k) = (k.key ≡ raw) × (find (has_key raw) t ≡ some k)

check_key-of_ok :
    (c : Call) (raw : String) (t : List Key) (k : Key)
    → KeyStore.get c raw t ≡ ok k
    → check_key c raw t ≡ passed (some k)
unfolding check_key
check_key-of_ok c raw t k e = rw (e, check_key) refl

key_refusal-ne-passed : (x : KeyStore.Error) (who : Option Key) → key_refusal x ≢ passed who
key_refusal-ne-passed x who h = ground arith

check_key-of_err :
    (c : Call) (raw : String) (t : List Key) (x : KeyStore.Error) (who : Option Key)
    → KeyStore.get c raw t ≡ err x
    → check_key c raw t ≢ passed who
unfolding check_key
check_key-of_err c raw t x who e h = key_refusal-ne-passed x who (rw (e, check_key) at h)

get-of_found :
    (c : Call) (key : String) (t : List Key) (k : Key)
    → c.fails query ≡ false
    → find (has_key key) t ≡ some k
    → KeyStore.get c key t ≡ ok k
unfolding KeyStore.get
get-of_found c key t k w f = rw (w, f) refl

check_key-of_none :
    (c : Call) (key : String) (t : List Key)
    → c.fails query ≡ false
    → find (has_key key) t ≡ none
    → check_key c key t ≡ refused 401 "invalid_key"
unfolding check_key KeyStore.get
check_key-of_none c key t w n =
    let missing : KeyStore.get c key t ≡ err not_found = rw (w, n) refl in
    rw (missing, check_key) refl

passed-injective : {a b : Option Key} → passed a ≡ passed b → a ≡ b
passed-injective h = cc

check_key-found :
    (c : Call) (raw : String) (t : List Key) (who : Option Key)
    → check_key c raw t ≡ passed who
    → IsKeyOf raw t who
check_key-found c raw t who h = elim (Result-cases (KeyStore.get c raw t)) [
  | inl (k, e) ↦
      let z : passed (some k) ≡ passed who = sym (check_key-of_ok c raw t k e) ∙ h in
      subst (IsKeyOf raw t) (passed-injective z) (
        (eq_iff k.key raw).0 (find-true (has_key raw) t (get-found c raw t e)),
        get-found c raw t e,
      )
  | inr (x, e) ↦ absurd (check_key-of_err c raw t x who e h)
]

-- With a keystore, a request on any other path than the public ones goes on only as a stored key that
-- it sent in its header.
pub passed-IsKeyOf :
    (c : Call) (path : List ℕ) (raw : String) (t : List Key) (who : Option Key)
    → is_exempt path ≡ false
    → auth_middleware c path raw (some t) ≡ passed who
    → IsKeyOf raw t who
unfolding auth_middleware
passed-IsKeyOf c path raw t who closed h = elim (Bool-cases (raw == "")) [
  | inl e ↦ let z : refused 401 "auth_required" ≡ passed who = rw (closed, e) at h in cc
  | inr e ↦ check_key-found c raw t who (rw (closed, e) at h)
]

-- A new key opens every route: where Create returned it and the look-up does not fail, a request that
-- sends it goes on as that key.
pub created_key_passes :
    (c d : Call) (bytes : Option (List ℕ)) (label role : String) (t t' : List Key) (k : Key)
    (path : List ℕ)
    → create c bytes label role t ≡ (ok k, t')
    → d.fails query ≡ false
    → is_exempt path ≡ false
    → auth_middleware d path k.key (some t') ≡ passed (some k)
unfolding auth_middleware
created_key_passes c d bytes label role t t' k path made works closed =
    let (found, named) = create-IsStored c bytes label role t t' k made in
    rw (closed, named) (check_key-of_ok d k.key t' k (get-of_found d k.key t' k works found))

-- A deleted key opens none: once Delete has succeeded, a request that sends the key is refused with
-- status 401 on every path that needs one.
pub deleted_key_refused :
    (c d : Call) (key : String) (t t' : List Key) (path : List ℕ)
    → delete c key t ≡ (ok tt, t')
    → d.fails query ≡ false
    → is_exempt path ≡ false
    → (kind : String) × (auth_middleware d path key (some t') ≡ refused 401 kind)
unfolding auth_middleware
deleted_key_refused c d key t t' path gone works closed = elim (Bool-cases (key == "")) [
  | inl e ↦ ("auth_required", rw (closed, e) refl)
  | inr e ↦ (
    "invalid_key",
    rw (closed, e) (check_key-of_none d key t' works (delete-none c key t t' gone)),
  )
]

-- The header of a request that goes on with a keystore is not empty.
pub passed-named :
    (c : Call) (path : List ℕ) (raw : String) (t : List Key) (who : Option Key)
    → is_exempt path ≡ false
    → auth_middleware c path raw (some t) ≡ passed who
    → (raw == "") ≡ false
unfolding auth_middleware
passed-named c path raw t who closed h = elim (Bool-cases (raw == "")) [
  | inl e ↦ let z : refused 401 "auth_required" ≡ passed who = rw (closed, e) at h in cc
  | inr e ↦ e
]
