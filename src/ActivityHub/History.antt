-- ===== src/ActivityHub/History.antt =====
-- The hub as a machine: any sequence of its operations, and what it then holds.
use mathlib.Core.Option
use mathlib.Core.Path.{subst⁻¹}
use hermes_forge_public.Prelude.{
  ℕ, String, ◌≡◌, refl, ◌∙◌, inl, inr, not, Option, none, some, List, [], ◌∷◌, take, arith,
  Option-cases, List-cases, ap, sym, ◌⊎◌, map,
}
use hermes_forge_public.Sql.{select, find, update}
use hermes_forge_public.ActivityHub
use hermes_forge_public.ActivityHub.{
  Event, Subscriber, Hub, stamp, store, recent, new, at_address, take_first, rest_of,
}
use hermes_forge_public.ActivityHub.Ring.{
  visible, Refines, store-Refines, subs-Refines, recent-Refines,
}

pub data Op : Type 0 where
  publish : ℕ → Event → Op
  subscribe : String → Op
  close receive : ℕ → Op

abbrev pub hub_or : {A : Type 0} → (A → Hub) → Hub → Option A → Hub
hub_or f h none = h
hub_or f h (some x) = f x

-- A second close of a channel panics when the set has been left already, so the hub stays.
abbrev pub step : Op → Hub → Hub
step (publish now e) h = ActivityHub.publish now e h
step (subscribe key) h = (ActivityHub.subscribe key h).1
step (close a) h = hub_or (λ x. x) h (ActivityHub.close a h)
step (receive a) h = hub_or (λ x. x.1) h (ActivityHub.receive a h)

abbrev pub run : List Op → Hub → Hub
run [] h = h
run (op ∷ ops) h = run ops (step op h)

-- The events published so far, newest first.
abbrev pub published : List Op → List Event → List Event
published [] l = l
published (Op.publish now e ∷ ops) l = published ops (stamp now e ∷ l)
published (op ∷ ops) l = published ops l

-- A close panics for an address that is not in the set, and else takes its subscriber out.
pub close-cases :
    (a : ℕ) (h : Hub)
    → ((find (at_address a) h.subs ≡ none) × (step (close a) h ≡ h))
      ⊎ (step (close a) h ≡ record h { subs = select (λ sub. not (at_address a sub)) h.subs })
unfolding ActivityHub.close
close-cases a h = elim (Option-cases (find (at_address a) h.subs)) [
  | inl e ↦ inl (e, rw (e, ActivityHub.close))
  | inr (sub, e) ↦ inr (rw (e, ActivityHub.close))
]

-- A receive does nothing to a subscriber that is not there or has an empty channel.
pub receive-cases :
    (a : ℕ) (h : Hub)
    → ((Option.map take_first (find (at_address a) h.subs) ≡ find (at_address a) h.subs)
        × (step (receive a) h ≡ h))
      ⊎ (step (receive a) h ≡ record h { subs = update (at_address a) take_first h.subs })
unfolding ActivityHub.receive
receive-cases a h = elim (Option-cases (find (at_address a) h.subs)) [
  | inl e ↦ inl (rw e, rw (e, ActivityHub.receive))
  | inr (sub, e) ↦ elim (List-cases sub.channel) [
    | inl f ↦ inl (rw e (ap some (take_first-empty sub f)), rw (e, ActivityHub.receive) (rw f))
    | inr (x, rest, f) ↦ inr (rw (e, ActivityHub.receive) (rw f))
  ]
]
  where
    take_first-empty : (sub : Subscriber) → sub.channel ≡ [] → take_first sub ≡ sub
    take_first-empty sub f =
        ap (λ l. record sub { channel = rest_of l }) f
        ∙ ap (λ l. record sub { channel = l }) (sym f)

step-Refines :
    (op : Op) (h : Hub) (l : List Event) → Refines h l → Refines (step op h) (published (op ∷ []) l)
unfolding ActivityHub.publish ActivityHub.subscribe
step-Refines (publish now e) h l r =
    let e' = stamp now e in
    subs-Refines (store e' h) (map (ActivityHub.offer e') h.subs) h.fresh (e' ∷ l)
      (store-Refines e' h l r)
step-Refines (subscribe key) h l r = subs-Refines h _ _ l r
step-Refines (close a) h l r = elim (close-cases a h) [
  | inl (e, same) ↦ subst⁻¹ (λ x. Refines x l) same r
  | inr e ↦ subst⁻¹ (λ x. Refines x l) e (subs-Refines h _ _ l r)
]
step-Refines (receive a) h l r = elim (receive-cases a h) [
  | inl (e, same) ↦ subst⁻¹ (λ x. Refines x l) same r
  | inr e ↦ subst⁻¹ (λ x. Refines x l) e (subs-Refines h _ _ l r)
]

run-Refines :
    (ops : List Op) (h : Hub) (l : List Event) → Refines h l → Refines (run ops h) (published ops l)
run-Refines [] h l r = r
run-Refines (publish now e ∷ ops) h l r =
    run-Refines ops (ActivityHub.publish now e h) (stamp now e ∷ l)
      (step-Refines (publish now e) h l r)
run-Refines (subscribe key ∷ ops) h l r =
    run-Refines ops (step (subscribe key) h) l (step-Refines (subscribe key) h l r)
run-Refines (close a ∷ ops) h l r =
    run-Refines ops (step (close a) h) l (step-Refines (close a) h l r)
run-Refines (receive a ∷ ops) h l r =
    run-Refines ops (step (receive a) h) l (step-Refines (receive a) h l r)

-- After any sequence of publications, subscriptions, closings and receives on a new hub, Recent
-- returns the newest n of those events that the key may see, newest first, among the last 1024
-- published.
pub recent-run :
    (ops : List Op) (key : String) (n : ℕ)
    → recent key n (run ops new) ≡ take n (select (visible key) (take 1024 (published ops [])))
recent-run ops key n = recent-Refines (run ops new) (published ops []) key n (
    run-Refines ops new []
      (record { head_in = omega arith; len_in = omega arith; full = refl; held = refl }))
