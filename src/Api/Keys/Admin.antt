-- ===== src/Api/Keys/Admin.antt =====
-- Who can change the keys.
use hermes_forge_public.Prelude.{
  ℕ, String, ◌≡◌, refl, ◌⊎◌, inl, inr, true, false, Option, none, some, List, Bool-cases, eq_iff,
}
use hermes_forge_public.Sql.{find}
use hermes_forge_public.KeyStore.{Key, Call, has_key}
use hermes_forge_public.Api.{failed, is_admin}
use hermes_forge_public.Api.Auth.{auth_middleware}
use hermes_forge_public.Api.Auth.Gate.{Verdict-cases, is_exempt, IsKeyOf, passed-IsKeyOf}
use hermes_forge_public.Api.Keys.{Request, handle, serve}

-- A caller who is not served as an admin gets 403 and changes nothing.
handle_other :
    (c : Call) (who : Option Key) (req : Request) (t : List Key)
    → is_admin who ≡ false
    → handle c who req t ≡ (failed 403 "admin_required", t)
unfolding handle
handle_other c who req t h = rw h refl

abbrev pub HoldsAdmin : String → List Key → Type 0
HoldsAdmin raw t = (k : Key) × (find (has_key raw) t ≡ some k) × (k.role ≡ "admin")

admin-of_key :
    (raw : String) (t : List Key) (who : Option Key)
    → IsKeyOf raw t who
    → is_admin who ≡ true
    → HoldsAdmin raw t
admin-of_key raw t none h a = cc
admin-of_key raw t (some k) h a = (k, h.1, (eq_iff k.role "admin").0 a)

-- A request to a key route either carries in its header a stored key whose role is admin, or leaves
-- the keys as they were and is answered with an error.
pub serve-admin :
    (auth c : Call) (path : List ℕ) (raw : String) (req : Request) (t : List Key)
    → is_exempt path ≡ false
    → HoldsAdmin raw t
      ⊎ ((status : ℕ) × (kind : String) × (serve auth c path raw req t ≡ (failed status kind, t)))
unfolding serve
serve-admin auth c path raw req t closed =
    elim (Verdict-cases (auth_middleware auth path raw (some t))) [
      | inl (status, kind, e) ↦ inr (status, kind, rw (e, serve) refl)
      | inr (who, e) ↦ elim (Bool-cases (is_admin who)) [
        | inl a ↦ inl (admin-of_key raw t who (passed-IsKeyOf auth path raw t who closed e) a)
        | inr a ↦ inr (403, "admin_required", rw (e, serve) (handle_other c who req t a))
      ]
    ]
