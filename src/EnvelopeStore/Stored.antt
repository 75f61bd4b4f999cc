-- ===== src/EnvelopeStore/Stored.antt =====
-- A row that Insert of hermes/internal/envelopestore/sqlite.go has written, as a scan reads it.
use hermes_forge_public.Envelope.{Envelope}
