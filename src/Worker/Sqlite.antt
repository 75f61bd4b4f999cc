-- ===== src/Worker/Sqlite.antt =====
-- The envelope store as the worker's `Store`, and the worker's guarantees over it.
use hermes_forge_public.Prelude.{
  ℕ, ◌+◌, String, ◌≡◌, refl, false, Option, some, ok, List, [], ◌∷◌, arith, length,
}
use hermes_forge_public.Envelope.{Envelope}
use hermes_forge_public.EnvelopeStore
use hermes_forge_public.EnvelopeStore.{Table}
use hermes_forge_public.EnvelopeStore.Claim.{Works}
use hermes_forge_public.EnvelopeStore.Queue.{waiting}
use hermes_forge_public.EnvelopeStore.Pending.{
  pending, mark_delivered-lowers, next_created_markable, next_created_exhausted,
}
use hermes_forge_public.Worker.{Store, Worker, Round, Drained, ForgeClient, drain_once}
use hermes_forge_public.Worker.Ticks.{StoreLaws}
use hermes_forge_public.Worker.Drain.{drain_once_returns, drain_once_serves}

abbrev pub sqlite : Store Table
sqlite = record {
  next_created = EnvelopeStore.next_created;
  mark_delivered = EnvelopeStore.mark_delivered;
}

abbrev pub sqlite-laws : StoreLaws sqlite
sqlite-laws = record {
  pending = pending;
  lowers = mark_delivered-lowers;
  markable = next_created_markable;
  exhausted = next_created_exhausted;
}

abbrev pub worker_on :
    {W : Type 0} → ForgeClient W → Option (String → Option String) → Worker Table W
worker_on client projects = record { store = sqlite; client = client; projects = projects }

none_waiting : (l : List Envelope) → length l ≡ 0 → l ≡ []
none_waiting [] h = refl
none_waiting (e ∷ l) h = absurd (omega arith)

module _ {W : Type 0} (client : ForgeClient W) (projects : Option (String → Option String))
    (rounds : ℕ → Round) where
  -- Over the envelope store, one round more than there are created rows is enough for the draining
  -- loop to return, whatever the client answers, whichever calls fail and whenever the context is
  -- cancelled.
  pub drain_once_terminates :
      (n consecutive : ℕ) (t : Table) (peer : W)
      → (d : Drained Table W) × (drain_once
            (worker_on client projects)
            rounds
            (pending t + 1)
            n
            consecutive
            t
            peer
          ≡ some d)
  drain_once_terminates n consecutive t peer =
      drain_once_returns (worker_on client projects) sqlite-laws rounds (pending t + 1) n
        consecutive t peer (omega arith)

  -- Over the envelope store, with a working driver in every round, a client that acknowledges every
  -- delivery and a context that stays alive, the loop returns with no error counted and leaves no
  -- created row.
  pub drain_once_delivers_all :
      ((n : ℕ) → Works (rounds n).next)
      → ((n : ℕ) → Works (rounds n).mark)
      → ((n : ℕ) → ((rounds n).cancelled ≡ false) × ((rounds n).stopped ≡ false))
      → ((id : String) (e : Envelope) (dir : String) (peer : W)
          → (session : String) × ((client id e dir peer).0 ≡ ok session))
      → (n consecutive : ℕ) (t : Table) (peer : W)
      → (d : Drained Table W) × (drain_once
            (worker_on client projects)
            rounds
            (pending t + 1)
            n
            consecutive
            t
            peer
          ≡ some d)
        × (d.consecutive ≡ 0)
        × (waiting d.store ≡ [])
  drain_once_delivers_all next_works mark_works alive acks n consecutive t peer =
      let (d, e, zeroed, served) =
        drain_once_serves (worker_on client projects) sqlite-laws rounds next_works mark_works alive
          (λ p e. acks _ e _ p) (pending t + 1) n consecutive t peer (omega arith) in
      (d, e, zeroed, none_waiting (waiting d.store) served)
