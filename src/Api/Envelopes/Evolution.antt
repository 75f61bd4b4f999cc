-- ===== src/Api/Envelopes/Evolution.antt =====
-- Any sequence of requests below /envelopes.
use mathlib.Core.Path.{subst⁻¹}
use hermes_forge_public.Prelude.{inl, inr, List, [], ◌∷◌}
use hermes_forge_public.EnvelopeStore.{Table}
use hermes_forge_public.EnvelopeStore
use hermes_forge_public.EnvelopeStore.Keys.{HasUniqueIds, step-HasUniqueIds}
use hermes_forge_public.EnvelopeStore.Evolves.{Extends, Extends-refl, Extends-trans}
use hermes_forge_public.EnvelopeStore.Evolution.{step-Extends}
use hermes_forge_public.Api.{Caller}
use hermes_forge_public.Api.Alerts.{Setup, State, Calls}
use hermes_forge_public.Api.Envelopes.{Request, handle}
use hermes_forge_public.Api.Envelopes.Effects.{IsStep, handle-IsStep}

abbrev pub run : Setup → List (Calls × Caller × Request) → State → State
run o [] s = s
run o ((c, caller, req) ∷ reqs) s = run o reqs (handle o c caller req s).1

IsStep-keeps :
    (c : EnvelopeStore.Call) (t t' : Table)
    → IsStep c t t'
    → HasUniqueIds t
    → HasUniqueIds t' × Extends t t'
IsStep-keeps c t t' (inl e) u = (subst⁻¹ HasUniqueIds e u, subst⁻¹ (Extends t) e (Extends-refl t))
IsStep-keeps c t t' (inr (op, e)) u = (
  subst⁻¹ HasUniqueIds e (step-HasUniqueIds c op t u),
  subst⁻¹ (Extends t) e (step-Extends c op t u),
)

-- Whatever requests are served, by whichever callers and with whatever driver failures, on a table
-- with unique ids, every envelope is still there and has evolved: what its creator wrote is the same,
-- its history and thread begin with the old ones, a completion time that was set is the same, and of
-- a terminal envelope only history and thread differ.
pub serve_all-Extends :
    (o : Setup) (reqs : List (Calls × Caller × Request)) (s : State)
    → HasUniqueIds s.table
    → Extends s.table (run o reqs s).table
serve_all-Extends o [] s u = Extends-refl s.table
serve_all-Extends o ((c, caller, req) ∷ reqs) s u =
    let s' = (handle o c caller req s).1 in
    let (u', x) = IsStep-keeps c.store s.table s'.table (handle-IsStep o c caller req s) u in
    Extends-trans s.table s'.table (run o reqs s').table x (serve_all-Extends o reqs s' u')
