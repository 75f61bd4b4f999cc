-- ===== src/Worker.antt =====
-- hermes/internal/worker/worker.go: the loop that ships created envelopes to Forge.
-- `S` is the store's state and `W` that of the peer, which a delivery may change. Logging and the
-- waiting itself leave no trace in the model.
pub mod Client
pub mod Ticks
pub mod Drain
pub mod Sqlite
pub mod Backoff
pub mod Acks
pub mod Refused
mod Tests
use hermes_forge_public.Prelude.{
  ℕ, zero, suc, ◌+◌, ◌-◌, ◌^◌, String, Bool, true, false, ◌||◌, Option, none, some, List, [], ◌∷◌,
  ◌==◌, ltb, Result, ok, err, if◌then◌else◌,
}
use hermes_forge_public.Prelude.Texts.{concat}
use Prim.Native.Nat.{min}
use hermes_forge_public.Envelope.{Envelope, Error, not_found}
use hermes_forge_public.EnvelopeStore.{Call}

-- Why a delivery failed.
pub data DeliverError : Type 0 where
  bad_request transport bad_ack missing_session no_default : DeliverError
  bad_status : ℕ → DeliverError

-- `ForgeClient.Deliver`: delivery id, envelope and working directory.
abbrev pub ForgeClient : Type 0 → Type 0
ForgeClient W = String → Envelope → String → W → Result DeliverError String × W

-- The interface `Store`: what the worker needs of the envelope store.
pub record Store (S : Type 0) : Type 0 where
  pub next_created : Call → S → Result Error Envelope
  pub mark_delivered : Call → String → String → ℕ → S → Result Error (Unit {0}) × S

-- `projects` maps a registered project to its working directory; `none` is the nil lookup.
pub record Worker (S W : Type 0) : Type 0 where
  pub store : Store S
  pub client : ForgeClient W
  pub projects : Option (String → Option String)

-- What the outside does during one round: the two store calls, and whether the context is found
-- cancelled after the delivery and at the end of the round.
pub record Round : Type 0 where
  pub next : Call
  pub mark : Call
  pub cancelled : Bool
  pub stopped : Bool

pub data TickError : Type 0 where
  next_failed : Error → TickError
  deliver_failed : DeliverError → TickError
  context_cancelled : TickError
  mark_failed : Error → TickError

-- The two results of `TickOnce`, and the states after it.
pub record Outcome (S W : Type 0) : Type 0 where
  pub done : Bool
  pub error : Option TickError
  pub store : S
  pub peer : W

abbrev pub delivery_id : Envelope → String
delivery_id e = concat ("d-" ∷ e.id ∷ [])

abbrev pub or_empty : Option String → String
or_empty none = ""
or_empty (some dir) = dir

-- The project's working directory, or the empty one.
pub working_dir : Option (String → Option String) → String → String
working_dir none project = ""
working_dir (some get) project = if project == "" then "" else or_empty (get project)

module _ {S W : Type 0} where
  abbrev pub after_mark : W → Result Error (Unit {0}) × S → Outcome S W
  after_mark peer (ok _, s) = record { done = false; error = none; store = s; peer = peer }
  after_mark peer (err x, s) = record {
    done = true;
    error = some (mark_failed x);
    store = s;
    peer = peer;
  }

  abbrev pub after_deliver :
      Worker S W → Round → Envelope → S → Result DeliverError String × W → Outcome S W
  after_deliver w r e s (err x, peer) = record {
    done = true;
    error = some (deliver_failed x);
    store = s;
    peer = peer;
  }
  after_deliver w r e s (ok session, peer) =
      if r.cancelled
      then record { done = true; error = some context_cancelled; store = s; peer = peer }
      else after_mark peer (w.store.mark_delivered r.mark e.id session r.mark.now s)

  abbrev pub after_next : Worker S W → Round → S → W → Result Error Envelope → Outcome S W
  after_next w r s peer (err not_found) = record {
    done = true;
    error = none;
    store = s;
    peer = peer;
  }
  after_next w r s peer (err x) = record {
    done = true;
    error = some (next_failed x);
    store = s;
    peer = peer;
  }
  after_next w r s peer (ok e) =
      after_deliver w r e s (w.client (delivery_id e) e (working_dir w.projects e.project) peer)

  pub tick_once : Worker S W → Round → S → W → Outcome S W
  tick_once w r s peer = after_next w r s peer (w.store.next_created r.next s)

-- `errorBackoff` in seconds. It is called with one error or more.
unfoldable pub error_backoff : ℕ → ℕ
error_backoff consecutive = let d = 2 ^ min (consecutive - 1) 5 in if ltb 30 d then 30 else d

-- What `drainOnce` returns, with the backoff that it waited, 0 for none.
pub record Drained (S W : Type 0) : Type 0 where
  pub consecutive : ℕ
  pub backoff : ℕ
  pub store : S
  pub peer : W

module _ {S W : Type 0} where
  -- An error ends the loop after the backoff, an idle round or a stopped context ends it, and
  -- otherwise `rest`, the next round, follows.
  pub after_round : Outcome S W → Bool → ℕ → Option (Drained S W) → Option (Drained S W)
  after_round out stopped consecutive rest = elim out.error [
    | some x ↦ some (record {
      consecutive = consecutive + 1;
      backoff = error_backoff (consecutive + 1);
      store = out.store;
      peer = out.peer;
    })
    | none ↦
        if out.done || stopped
        then some (record { consecutive = 0; backoff = 0; store = out.store; peer = out.peer })
        else rest
  ]

  -- The loop of `drainOnce` from round `n` on; `none` means that the fuel ran out.
  pub drain_once : Worker S W → (ℕ → Round) → ℕ → ℕ → ℕ → S → W → Option (Drained S W)
  drain_once w rounds zero n consecutive s peer = none
  drain_once w rounds (suc fuel) n consecutive s peer =
      let out = tick_once w (rounds n) s peer in
      let rest = drain_once w rounds fuel (suc n) 0 out.store out.peer in
      after_round out (rounds n).stopped consecutive rest

  -- The first k rounds of the loop of `Run` from tick i on, each a drain with its own rounds. Only a
  -- cancelled context ends the loop of the source.
  pub run : Worker S W → (ℕ → ℕ → Round) → ℕ → ℕ → ℕ → ℕ → S → W → Option (Drained S W)
  run w rounds fuel zero i consecutive s peer =
      some (record { consecutive = consecutive; backoff = 0; store = s; peer = peer })
  run w rounds fuel (suc k) i consecutive s peer =
      elim (drain_once w (rounds i) fuel 0 consecutive s peer) [
        | none ↦ none
        | some d ↦ run w rounds fuel k (suc i) d.consecutive d.store d.peer
      ]
