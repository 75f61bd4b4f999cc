-- ===== src/Envelope/Tests.antt =====
-- Tests of the envelope package.
use hermes_forge_public.Prelude.{◌≡◌, refl, true}
use hermes_forge_public.Envelope.{known}

known_read : known "read" ≡ true
unfolding known
known_read = refl
