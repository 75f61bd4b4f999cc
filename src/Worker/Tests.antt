-- ===== src/Worker/Tests.antt =====
-- Runs of the worker, and the theorems at concrete inputs.
use hermes_forge_public.Prelude.{
  ℕ, ◌+◌, String, ◌≡◌, ◌⊎◌, refl, Bool, true, false, none, some, ◌∷◌, [], ok, err,
}
use hermes_forge_public.Envelope.{Envelope}
use hermes_forge_public.Envelope.Samples.{envelope}
use hermes_forge_public.EnvelopeStore.{Table, Call, older, next_created, mark_delivered}
use hermes_forge_public.EnvelopeStore.Queue.{waiting}
use hermes_forge_public.EnvelopeStore.Pending.{pending}
use hermes_forge_public.Worker.{
  ForgeClient, transport, Round, Drained, tick_once, after_round, drain_once, run, error_backoff,
  delivery_id, working_dir,
}
use hermes_forge_public.Worker.Sqlite.{worker_on, drain_once_terminates, drain_once_delivers_all}
use hermes_forge_public.Worker.Refused.{run_refused}
use hermes_forge_public.Worker.Ticks.{tick_once_acknowledged}

abbrev working : Call
working = record {
  fails = λ n. false;
  now = 100;
  rfc3339 = λ n. "2026-01-01T00:00:00Z";
  utc_text = λ n. "2026-01-01 00:00:00 +0000 UTC";
}

abbrev calm : ℕ → Round
calm n = record { next = working; mark = working; cancelled = false; stopped = false }

-- A peer that counts its deliveries and always acknowledges, and one that is down.
abbrev willing : ForgeClient ℕ
willing id e dir n = (ok "s1", n + 1)

abbrev down : ForgeClient ℕ
down id e dir n = (err transport, n + 1)

abbrev two : Table
two = envelope "b" 20 "created" ∷ envelope "a" 10 "created" ∷ []

down_backs_off :
    drain_once (worker_on down none) calm 3 0 4 two 7
    ≡ some (record { consecutive = 5; backoff = 16; store = two; peer = 8 })
unfolding drain_once tick_once after_round next_created older error_backoff
down_backs_off = refl

tick_once_acknowledged_example :
    ((tick_once (worker_on willing none) (calm 0) two 7).store ≡ two)
      × ((tick_once (worker_on willing none) (calm 0) two 7).done ≡ true)
    ⊎ ((e : Envelope) × (session : String) × (next_created working two ≡ ok e)
        × ((willing (delivery_id e) e (working_dir none e.project) 7).0 ≡ ok session)
        × (◌≡◌ {A = Bool} false false)
        × ((tick_once (worker_on willing none) (calm 0) two 7).store
            ≡ (mark_delivered working e.id session 100 two).1))
tick_once_acknowledged_example = tick_once_acknowledged (worker_on willing none) (calm 0) two 7

drain_once_terminates_example :
    (d : Drained Table ℕ) × (drain_once (worker_on down none) calm (pending two + 1) 0 4 two 7
      ≡ some d)
drain_once_terminates_example = drain_once_terminates down none calm 0 4 two 7

drain_once_delivers_all_example :
    (d : Drained Table ℕ) × (drain_once (worker_on willing none) calm (pending two + 1) 0 4 two 7
      ≡ some d)
    × (d.consecutive ≡ 0)
    × (waiting d.store ≡ [])
drain_once_delivers_all_example =
    drain_once_delivers_all willing none calm (λ n k. refl) (λ n k. refl) (λ n. (refl, refl))
      (λ id e dir peer. ("s1", refl)) 0 4 two 7

hands_out_oldest : (i : ℕ) → next_created working two ≡ ok (envelope "a" 10 "created")
unfolding next_created older
hands_out_oldest i = refl

run_refused_example :
    (d : Drained Table ℕ) × (run (worker_on down none) (λ i. calm) 3 5 0 0 two 7 ≡ some d)
    × (d.store ≡ two)
    × (d.consecutive ≡ 0 + 5)
run_refused_example =
    run_refused (worker_on down none) (λ i. calm) 2 two (envelope "a" 10 "created") hands_out_oldest
      (λ peer. (transport, refl)) 5 0 0 7
