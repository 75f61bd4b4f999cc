-- ===== src/Worker/Refused.antt =====
-- What a client that refuses an envelope does to the worker.
use hermes_forge_public.Prelude.{
  ℕ, zero, suc, ◌+◌, ◌≡◌, refl, ap, ◌∙◌, true, Option, none, some, arith, ok, err,
}
use hermes_forge_public.Envelope.{Envelope}
use hermes_forge_public.Worker.{
  Worker, Round, Drained, DeliverError, deliver_failed, tick_once, after_deliver, after_round,
  drain_once, run, error_backoff,
}
use hermes_forge_public.Worker.Ticks.{delivery}

module _ {S W : Type 0} (w : Worker S W) (s : S) where
  -- A refused delivery leaves the store, with an error after which the loop backs off.
  pub tick_once_refused :
      (r : Round) (peer : W) (e : Envelope) (x : DeliverError)
      → w.store.next_created r.next s ≡ ok e
      → (delivery w peer e).0 ≡ err x
      → tick_once w r s peer ≡ record {
        done = true;
        error = some (deliver_failed x);
        store = s;
        peer = (delivery w peer e).1;
      }
  unfolding tick_once
  tick_once_refused r peer e x next refused = rw next (rw (refused, after_deliver) refl)

  drain_once_refused :
      (rounds : ℕ → Round) (fuel consecutive : ℕ) (peer : W) (e : Envelope) (x : DeliverError)
      → w.store.next_created (rounds 0).next s ≡ ok e
      → (delivery w peer e).0 ≡ err x
      → drain_once w rounds (suc fuel) 0 consecutive s peer
        ≡ some (record {
          consecutive = consecutive + 1;
          backoff = error_backoff (consecutive + 1);
          store = s;
          peer = (delivery w peer e).1;
        })
  unfolding drain_once after_round
  drain_once_refused rounds fuel consecutive peer e x next refused =
      rw (tick_once_refused (rounds 0) peer e x next refused) refl

-- An envelope that the store keeps handing out and whose delivery the client refuses in every state
-- blocks the worker: after any number of ticks the store is as it was, and the errors in a row are
-- as many as the ticks.
pub run_refused :
    {S W : Type 0} (w : Worker S W) (rounds : ℕ → ℕ → Round) (fuel : ℕ) (s : S) (e : Envelope)
    → ((i : ℕ) → w.store.next_created (rounds i 0).next s ≡ ok e)
    → ((peer : W) → (x : DeliverError) × ((delivery w peer e).0 ≡ err x))
    → (k i consecutive : ℕ) (peer : W)
    → (d : Drained S W) × (run w rounds (suc fuel) k i consecutive s peer ≡ some d)
      × (d.store ≡ s)
      × (d.consecutive ≡ consecutive + k)
unfolding run
run_refused w rounds fuel s e next refuses zero i consecutive peer = (
  record { consecutive = consecutive; backoff = 0; store = s; peer = peer },
  refl,
  refl,
  omega arith,
)
run_refused {S = S} {W = W} w rounds fuel s e next refuses (suc k) i consecutive peer =
    let (x, refused) = refuses peer in
    let (d, f, same, count) =
      run_refused w rounds fuel s e next refuses k (suc i) (consecutive + 1)
        (delivery w peer e).1 in
    let go =
      ap {B = Option (Drained S W)}
        (λ (o : Option (Drained S W)). elim o [
          | none ↦ none
          | some d ↦ run w rounds (suc fuel) k (suc i) d.consecutive d.store d.peer
        ])
        (drain_once_refused w s (rounds i) fuel consecutive peer e x (next i) refused) in
    (d, go ∙ f, same, omega arith)
