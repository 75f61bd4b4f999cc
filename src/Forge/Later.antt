-- ===== src/Forge/Later.antt =====
-- Deliveries after an acknowledged one: forge/internal/httpapi/deliver.go (W-F1).
use hermes_forge_public.Prelude.{ℕ, String, ◌≡◌, Bool, true, none, some, List, [], ◌∷◌}
use hermes_forge_public.Forge.{lookup}
use hermes_forge_public.Forge.Deliver.{Request, Os, State, spawn_of}
use hermes_forge_public.Forge.Register.{Event, request, outside, step}

module _ {W : Type 0} (os : Os W) (hermes : Bool) where
  -- The process that is registered under the id when the handler looks is alive.
  abbrev pub FindsAlive : String → Request → State W → Type 0
  FindsAlive session r h =
      (pid : ℕ)
      → lookup session h.processes ≡ some pid
      → os.alive (spawn_of os hermes r h).1.os pid ≡ true

  -- So it is at every request of a sequence.
  abbrev pub StaysAlive : String → List (Event W) → State W → Type 0
  StaysAlive session [] h = Unit
  StaysAlive session (request c none ∷ events) h =
      StaysAlive session events (step os hermes (request c none) h)
  StaysAlive session (request c (some r) ∷ events) h =
      FindsAlive session r h × StaysAlive session events (step os hermes (request c (some r)) h)
  StaysAlive session (outside f ∷ events) h =
      StaysAlive session events (step os hermes (outside f) h)
