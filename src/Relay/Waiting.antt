-- ===== src/Relay/Waiting.antt =====
-- Notifications of low priority while the operator is not busy: hermes/cmd/hermes-notify/router.go.
use mathlib.Core.List.{append_assoc, append-nil}
use hermes_forge_public.Prelude.{
  ◌≡◌, refl, ap, sym, ◌∙◌, inl, inr, Bool, true, false, ◌||◌, Bool-cases, none, some, String, List,
  [], ◌∷◌, ◌++◌, ◌==◌, All, if◌then◌else◌,
}
use hermes_forge_public.Relay.{
  Payload, Router, Setup, add_to_buffer, normalise, send, route, handle_webhook, format_message,
  auto_flush, priority,
}
use hermes_forge_public.Relay.Stream.{Event, webhook, commanded, tick, run}

-- A webhook or a tick.
abbrev pub IsUncommanded : Event → Type 0
IsUncommanded (webhook body) = Unit
IsUncommanded (commanded cmd now) = ⊥
IsUncommanded (tick now) = Unit

abbrev pub is_loud : Payload → Bool
is_loud p = priority p.status == "urgent" || priority p.status == "normal"

-- The texts of the urgent and of the normal notifications, in the order of arrival.
abbrev pub loud_texts : List Event → List String
loud_texts [] = []
loud_texts (webhook (some p) ∷ events) =
    if is_loud (normalise p)
    then format_message (normalise p) ∷ loud_texts events
    else loud_texts events
loud_texts (e ∷ events) = loud_texts events

send-eq :
    (o : Setup) (text : String) (r : Router)
    → o.has_telegram ≡ true
    → send o text r ≡ record r { sent = r.sent ++ text ∷ [] }
unfolding send
send-eq o text r h = rw h refl

route-free :
    (o : Setup) (p : Payload) (r : Router)
    → r.busy ≡ false
    → route o p r ≡ (if is_loud p then send o (format_message p) r else add_to_buffer p r)
unfolding route
route-free o p r h = elim (Bool-cases (priority p.status == "urgent")) [
  | inl e ↦ rw e refl
  | inr e ↦ elim (Bool-cases (priority p.status == "normal")) [
    | inl d ↦ rw (e, d, h) refl
    | inr d ↦ rw (e, d) refl
  ]
]

-- One webhook while the operator is not busy.
route-sent :
    (o : Setup) (p : Payload) (r : Router)
    → o.has_telegram ≡ true
    → r.busy ≡ false
    → ((route o p r).sent ≡ r.sent ++ (if is_loud p then format_message p ∷ [] else []))
      × ((route o p r).busy ≡ false)
unfolding add_to_buffer
route-sent o p r t h = rw (route-free o p r h) (elim (Bool-cases (is_loud p)) [
  | inl e ↦ rw e (rw (send-eq o (format_message p) r t) (refl, h))
  | inr e ↦ rw e (sym (append-nil r.sent), h)
])

loud_texts-webhook :
    (p : Payload) (events : List Event)
    → (if is_loud (normalise p) then format_message (normalise p) ∷ [] else []) ++ loud_texts events
      ≡ loud_texts (webhook (some p) ∷ events)
loud_texts-webhook p events = elim (Bool-cases (is_loud (normalise p))) [
  | inl e ↦ rw e refl
  | inr e ↦ rw e refl
]

-- With Telegram and while the operator is not busy, over any webhooks and ticks with no command among
-- them, exactly the urgent and the normal notifications are sent, each at once and in the order of
-- arrival: no notification of low priority is, such as the pause of an envelope, whether it waited before
-- or comes now. The operator stays not busy.
pub run-sent_free :
    (o : Setup) (events : List Event) (r : Router)
    → o.has_telegram ≡ true
    → r.busy ≡ false
    → All IsUncommanded events
    → ((run o events r).sent ≡ r.sent ++ loud_texts events) × ((run o events r).busy ≡ false)
unfolding handle_webhook auto_flush
run-sent_free o [] r t h u = (sym (append-nil r.sent), h)
run-sent_free o (webhook none ∷ events) r t h u = run-sent_free o events r t h u.1
run-sent_free o (webhook (some p) ∷ events) r t h u =
    let (now, free) = route-sent o (normalise p) r t h in
    let (later, end) = run-sent_free o events (route o (normalise p) r) t free u.1 in
    (
      later
          ∙ ap (λ l. l ++ loud_texts events) now
          ∙ append_assoc r.sent _ (loud_texts events)
          ∙ ap (λ l. r.sent ++ l) (loud_texts-webhook p events),
      end,
    )
run-sent_free o (commanded cmd now ∷ events) r t h u = absurd u.0
run-sent_free o (tick now ∷ events) r t h u =
    let still : auto_flush o now r ≡ r = rw h refl in
    let (later, end) = run-sent_free o events r t h u.1 in
    (ap (λ x. (run o events x).sent) still ∙ later, ap (λ x. (run o events x).busy) still ∙ end)
