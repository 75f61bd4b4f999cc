-- ===== src/Api/Sessions/Ownership.antt =====
-- A caller reaches its own sessions only.
use mathlib.Core.Path.{subst⁻¹}
use hermes_forge_public.Prelude.{
  ℕ, String, ◌≡◌, refl, ap, ◌∙◌, inl, inr, Bool, false, Option, none, some, List, Option-cases,
  ◌==◌, ok, err,
}
use hermes_forge_public.Sql.{find}
use hermes_forge_public.KeyStore
use hermes_forge_public.KeyStore.{Key}
use hermes_forge_public.SessionStore
use hermes_forge_public.SessionStore.{
  Session, Store, Call, lookup, query, scan, is_session, not_found,
}
use hermes_forge_public.Api.{Response, failed, Caller, context_key}
use hermes_forge_public.Api.Auth.{passed, auth_middleware}
use hermes_forge_public.Api.Auth.Gate.{is_exempt, passed-IsKeyOf, passed-named}
use hermes_forge_public.Api.Sessions.{
  Setup, State, Calls, Request, create, list, get, raw_tail, add_message, get_messages_since, Reply,
  judge, check_session_ownership, with_session, handle, serve,
}

-- The session that a request is about.
abbrev pub target : Request → Option String
target (create bytes body) = none
target list = none
target (get id) = some id
target (raw_tail id max_bytes max_lines) = some id
target (add_message id bytes body) = some id
target (get_messages_since id since) = some id

-- No session with the id, or one of another key.
abbrev pub IsForeign : String → Option Session → Type 0
IsForeign key none = Unit
IsForeign key (some sess) = (sess.api_key == key) ≡ false

get-none :
    (c : Call) (id : String) (s : Store)
    → c.fails lookup ≡ false
    → find (is_session id) s.sessions ≡ none
    → SessionStore.get c id s ≡ err not_found
unfolding SessionStore.get
get-none c id s w e = rw (w, e) refl

get-some :
    (c : Call) (id : String) (s : Store) {sess : Session}
    → c.fails lookup ≡ false
    → find (is_session id) s.sessions ≡ some sess
    → SessionStore.get c id s ≡ ok sess
unfolding SessionStore.get
get-some c id s w e = rw (w, e) refl

check-foreign :
    (has_keys : Bool) (c : Call) (caller : Caller) (id : String) (s : Store)
    → c.fails lookup ≡ false
    → (context_key caller.identity == "") ≡ false
    → IsForeign (context_key caller.identity) (find (is_session id) s.sessions)
    → check_session_ownership has_keys c caller id s ≡ err (failed 404 "not_found")
unfolding check_session_ownership judge
check-foreign has_keys c caller id s w named h =
    elim (Option-cases (find (is_session id) s.sessions)) [
      | inl e ↦ rw (get-none c id s w e, check_session_ownership) refl
      | inr (sess, e) ↦
          let foreign : (sess.api_key == context_key caller.identity) ≡ false = rw e at h in
          rw (get-some c id s w e, check_session_ownership) (rw (named, foreign) refl)
    ]

module _ (o : Setup) (c : Calls) where
  with_session-foreign :
      (caller : Caller) (id : String) (s : State) (next : Session → Response Reply × State)
      → (id == "") ≡ false
      → c.owner.fails lookup ≡ false
      → (context_key caller.identity == "") ≡ false
      → IsForeign (context_key caller.identity) (find (is_session id) s.store.sessions)
      → with_session o c caller id s next ≡ (failed 404 "not_found", s)
  unfolding with_session
  with_session-foreign caller id s next given w named h =
      rw given
        (rw (check-foreign o.has_keys c.owner caller id s.store w named h, with_session) refl)

  with_session-target :
      (caller : Caller) (x id : String) (s : State) (next : Session → Response Reply × State)
      → some x ≡ some id
      → (id == "") ≡ false
      → c.owner.fails lookup ≡ false
      → (context_key caller.identity == "") ≡ false
      → IsForeign (context_key caller.identity) (find (is_session id) s.store.sessions)
      → with_session o c caller x s next ≡ (failed 404 "not_found", s)
  with_session-target caller x id s next same given w named h =
      let e : x ≡ id = cc in
      subst⁻¹ (λ y. with_session o c caller y s next ≡ (failed 404 "not_found", s)) e
        (with_session-foreign caller id s next given w named h)

  handle-foreign :
      (caller : Caller) (req : Request) (id : String) (s : State)
      → target req ≡ some id
      → (id == "") ≡ false
      → c.owner.fails lookup ≡ false
      → (context_key caller.identity == "") ≡ false
      → IsForeign (context_key caller.identity) (find (is_session id) s.store.sessions)
      → handle o c caller req s ≡ (failed 404 "not_found", s)
  handle-foreign caller (create bytes body) id s at given w named h = cc
  handle-foreign caller list id s at given w named h = cc
  handle-foreign caller (get x) id s at given w named h =
      with_session-target caller x id s _ at given w named h
  handle-foreign caller (raw_tail x b l) id s at given w named h =
      with_session-target caller x id s _ at given w named h
  handle-foreign caller (add_message x bytes body) id s at given w named h =
      with_session-target caller x id s _ at given w named h
  handle-foreign caller (get_messages_since x since) id s at given w named h =
      with_session-target caller x id s _ at given w named h

  -- With a keystore, a request about a session that does not exist, or that another key created, is
  -- answered alike: with status 404 and not_found, and nothing changes.
  pub serve-foreign :
      (auth : KeyStore.Call) (path : List ℕ) (raw : String) (req : Request) (t : List Key)
      (s : State) (id : String) (who : Option Key)
      → is_exempt path ≡ false
      → auth_middleware auth path raw (some t) ≡ passed who
      → target req ≡ some id
      → (id == "") ≡ false
      → c.owner.fails lookup ≡ false
      → IsForeign raw (find (is_session id) s.store.sessions)
      → serve o c auth path raw req t s ≡ (failed 404 "not_found", s)
  unfolding serve
  serve-foreign auth path raw req t s id none closed let_in at given w h =
      absurd (passed-IsKeyOf auth path raw t none closed let_in)
  serve-foreign auth path raw req t s id (some k) closed let_in at given w h =
      let is_raw : k.key ≡ raw = (passed-IsKeyOf auth path raw t (some k) closed let_in).0 in
      let named : (k.key == "") ≡ false =
        ap (λ x. x == "") is_raw ∙ passed-named auth path raw t (some k) closed let_in in
      rw (let_in, serve)
        (handle-foreign (record { identity = some k; header = raw }) req id s at given w named
          (subst⁻¹ (λ x. IsForeign x (find (is_session id) s.store.sessions)) is_raw h))
