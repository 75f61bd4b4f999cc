-- ===== src/Worker/Drain.antt =====
-- The draining loop: it ends, and serves every waiting envelope when nothing fails.
use mathlib.Core.Path.{subst⁻¹}
use hermes_forge_public.Prelude.{
  ◌∙◌, ℕ, zero, suc, ◌+◌, ◌<◌, String, ◌≡◌, refl, inl, inr, ◌⊎◌, Bool, true, false, Option, none,
  some, arith, ok, Bool-cases, Option-cases, ◌||◌,
}
use hermes_forge_public.Envelope.{Envelope}
use hermes_forge_public.EnvelopeStore.Claim.{Works}
use hermes_forge_public.Worker.{
  Worker, Round, Outcome, Drained, tick_once, after_round, drain_once, error_backoff,
}
use hermes_forge_public.Worker.Ticks.{StoreLaws, delivery, tick_once-lowers, tick_once-serves}

only_done : {a b : Bool} → b ≡ false → (a || b) ≡ true → a ≡ true
only_done h k = ground arith

module _ {S W : Type 0} (out : Outcome S W) (stopped : Bool) (consecutive : ℕ)
    (rest : Option (Drained S W)) where
  -- A round ends the loop, or it had no error, was not done and was not stopped.
  after_round-cases :
      ((d : Drained S W) × (after_round out stopped consecutive rest ≡ some d)
        × (d.store ≡ out.store)
        × (out.error ≡ none → (out.done || stopped ≡ true) × (d.consecutive ≡ 0) × (d.backoff ≡ 0)))
      ⊎ ((after_round out stopped consecutive rest ≡ rest)
          × (out.error ≡ none)
          × (out.done ≡ false))
  unfolding after_round
  after_round-cases = elim (Option-cases out.error) [
    | inr (x, e) ↦ inl (
      record {
        consecutive = consecutive + 1;
        backoff = error_backoff (consecutive + 1);
        store = out.store;
        peer = out.peer;
      },
      rw (e, after_round),
      refl,
      λ f. cc,
    )
    | inl e ↦ elim (Bool-cases (out.done || stopped)) [
      | inl d ↦ inl (
        record { consecutive = 0; backoff = 0; store = out.store; peer = out.peer },
        rw (e, after_round) (rw d),
        refl,
        λ f. (d, refl, refl),
      )
      | inr d ↦ inr (rw (e, after_round) (rw d), e, ground arith)
    ]
  ]

module _ {S W : Type 0} (w : Worker S W) (laws : StoreLaws w.store) (rounds : ℕ → Round) where
  -- One more round than there are pending envelopes is enough for the loop to return, whatever the
  -- client answers, whichever calls fail and whenever the context is cancelled.
  pub drain_once_returns :
      (fuel n consecutive : ℕ) (s : S) (peer : W)
      → laws.pending s < fuel
      → (d : Drained S W) × (drain_once w rounds fuel n consecutive s peer ≡ some d)
  unfolding drain_once
  drain_once_returns zero n consecutive s peer h = elim h [ ]
  drain_once_returns (suc fuel) n consecutive s peer h =
      let out = tick_once w (rounds n) s peer in
      let rest = drain_once w rounds fuel (suc n) 0 out.store out.peer in
      elim (after_round-cases out (rounds n).stopped consecutive rest) [
        | inl (d, e, same, quiet) ↦ (d, e)
        | inr (e, quiet, live) ↦
            let less = tick_once-lowers w (rounds n) s peer laws live in
            let (d, f) = drain_once_returns fuel (suc n) 0 out.store out.peer (omega arith) in
            (d, e ∙ f)
      ]

  -- With a working driver in every round, a client that acknowledges every delivery and a context
  -- that stays alive, the loop returns with no error counted and nothing pending.
  pub drain_once_serves :
      ((n : ℕ) → Works (rounds n).next)
      → ((n : ℕ) → Works (rounds n).mark)
      → ((n : ℕ) → ((rounds n).cancelled ≡ false) × ((rounds n).stopped ≡ false))
      → ((peer : W) (e : Envelope) → (session : String) × ((delivery w peer e).0 ≡ ok session))
      → (fuel n consecutive : ℕ) (s : S) (peer : W) → laws.pending s < fuel
      → (d : Drained S W) × (drain_once w rounds fuel n consecutive s peer ≡ some d)
        × (d.consecutive ≡ 0)
        × (laws.pending d.store ≡ 0)
  unfolding drain_once
  drain_once_serves next_works mark_works alive acks zero n consecutive s peer h = elim h [ ]
  drain_once_serves next_works mark_works alive acks (suc fuel) n consecutive s peer h =
      let out = tick_once w (rounds n) s peer in
      let rest = drain_once w rounds fuel (suc n) 0 out.store out.peer in
      let (clean, empty) =
        tick_once-serves w (rounds n) s peer laws (next_works n) (mark_works n) (acks peer)
          (alive n).0 in
      elim (after_round-cases out (rounds n).stopped consecutive rest) [
        | inl (d, e, same, quiet) ↦
            let (over, zeroed, waited) = quiet clean in
            (
              d,
              e,
              zeroed,
              subst⁻¹ (λ (x : S). laws.pending x ≡ 0) same (empty (only_done (alive n).1 over)),
            )
        | inr (e, quiet, live) ↦
            let less = tick_once-lowers w (rounds n) s peer laws live in
            let (d, f, zeroed, served) =
              drain_once_serves next_works mark_works alive acks fuel (suc n) 0 out.store out.peer
                (omega arith) in
            (d, e ∙ f, zeroed, served)
      ]
