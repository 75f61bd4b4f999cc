-- ===== src/Relay/Held.antt =====
-- What waits in the relay, over any sequence of webhooks, commands and ticks.
use hermes_forge_public.Prelude.{
  ℕ, suc, ◌-◌, ◌≡◌, refl, ap, ◌∙◌, inl, inr, String, Bool, true, false, not, ◌&&◌, none, some, List,
  [], ◌∷◌, ◌++◌, arith, Bool-cases, ltb, eqb, length, ◌==◌, if◌then◌else◌, List-cases,
}
use hermes_forge_public.Relay.{
  Payload, Router, new, Setup, add_to_buffer, set_busy, normalise, send, route, handle_webhook,
  format_message, format_batch, send_items, flush, set_free, auto_flush, obey, priority,
}
use hermes_forge_public.Relay.Stream.{
  Event, webhook, commanded, tick, step, run, Held, is_held, advance, run_held, capped, forget,
  within,
}
use hermes_forge_public.Relay.Capped.{within-advance}

nonempty : (l : List Payload) → eqb (suc (length l)) 0 ≡ false
nonempty l = ground arith

forget_if :
    (b : Bool) (r x : Router) (h : Held)
    → forget x ≡ h
    → forget (if not b then r else x) ≡ (if not b then forget r else h)
forget_if false r x h e = refl
forget_if true r x h e = e

module _ (o : Setup) where
  forget-send : (text : String) (r : Router) → forget (send o text r) ≡ forget r
  unfolding send
  forget-send text r = elim (Bool-cases o.has_telegram) [ inl e ↦ rw e refl | inr e ↦ rw e refl ]

  forget-send_items : (items : List Payload) (r : Router) → forget (send_items o items r) ≡ forget r
  forget-send_items [] r = refl
  forget-send_items (p ∷ []) r = forget-send (format_message p) r
  forget-send_items (p ∷ q ∷ items) r = forget-send (format_batch o (p ∷ q ∷ items)) r

  forget-flush : (r : Router) → forget (flush o r) ≡ record (forget r) { items = [] }
  unfolding flush
  forget-flush r = forget-send_items r.buffer (record r { buffer = [] })

  forget-set_free :
      (r : Router) → forget (set_free o r) ≡ record (forget r) { busy = false; items = [] }
  unfolding set_free
  forget-set_free r = forget-flush (record r { busy = false })

  forget-route :
      (p : Payload) (r : Router)
      → forget (route o p r)
        ≡ (if is_held r.busy p then record (forget r) { items = capped r.buffer p } else forget r)
  unfolding route add_to_buffer
  forget-route p r = elim (Bool-cases (priority p.status == "urgent")) [
    | inl e ↦ rw e (forget-send (format_message p) r)
    | inr e ↦ elim (Bool-cases (priority p.status == "normal" && not r.busy)) [
      | inl d ↦ rw (e, d) (forget-send (format_message p) r)
      | inr d ↦ rw (e, d) refl
    ]
  ]

  forget-obey :
      (cmd : String) (now : ℕ) (r : Router)
      → forget (obey o cmd now r) ≡ (
          if cmd == "busy"
          then record (forget r) { busy = true; since = now }
          else if cmd == "free"
          then record (forget r) { busy = false; items = [] }
          else forget r)
  unfolding obey set_busy
  forget-obey cmd now r = elim (Bool-cases (cmd == "busy")) [
    | inl d ↦ rw d (forget-send _ (record r { busy = true; busy_since = now }))
    | inr d ↦ elim (Bool-cases (cmd == "free")) [
      | inl f ↦
          rw (d, f)
            (forget-set_free _
              ∙ ap (λ (h : Held). record h { busy = false; items = [] }) (forget-send _ r))
      | inr f ↦ elim (Bool-cases (cmd == "status")) [
        | inl g ↦ rw (d, f, g) (forget-send _ r)
        | inr g ↦ rw (d, f, g) refl
      ]
    ]
  ]

  forget-flush_if :
      (b : Bool) (r : Router)
      → forget (if not (eqb (length r.buffer) 0) && b then flush o r else r)
        ≡ (if b then record (forget r) { items = [] } else forget r)
  forget-flush_if false r = elim (Bool-cases (eqb (length r.buffer) 0)) [
    | inl e ↦ rw e refl
    | inr e ↦ rw e refl
  ]
  forget-flush_if true r = elim (List-cases r.buffer) [
    | inl e ↦
        let none_waits : eqb (length r.buffer) 0 ≡ true = ap (λ l. eqb (length l) 0) e in
        rw none_waits (ap (λ l. record (forget r) { items = l }) e)
    | inr (p, rest, e) ↦
        let some_wait : eqb (length r.buffer) 0 ≡ false =
          ap (λ l. eqb (length l) 0) e ∙ nonempty rest in
        rw some_wait (forget-flush r)
  ]

  forget-tick :
      (busy long enough : Bool) (r : Router)
      → forget (
          if not busy
          then r
          else if long
          then set_free o r
          else if not (eqb (length r.buffer) 0) && enough
          then flush o r
          else r)
        ≡ (if not busy
            then forget r
            else if long
            then record (forget r) { busy = false; items = [] }
            else if enough
            then record (forget r) { items = [] }
            else forget r)
  forget-tick false long enough r = refl
  forget-tick true true enough r = forget-set_free r
  forget-tick true false enough r = forget-flush_if enough r

  forget-step : (e : Event) (r : Router) → forget (step o e r) ≡ advance capped o e (forget r)
  unfolding auto_flush handle_webhook
  forget-step (webhook none) r = refl
  forget-step (webhook (some p)) r = forget-route (normalise p) r
  forget-step (commanded cmd now) r =
      forget_if o.has_telegram r (obey o cmd now r) _ (forget-obey cmd now r)
  forget-step (tick now) r =
      forget-tick r.busy (ltb 7200000000000 (now - r.busy_since))
        (ltb 1800000000000 (now - r.busy_since)) r

  forget-run :
      (events : List Event) (r : Router) (h : Held)
      → forget r ≡ within h
      → forget (run o events r) ≡ within (run_held o events h)
  forget-run [] r h e = e
  forget-run (x ∷ events) r h e =
      forget-run events (step o x r) (advance (λ l p. l ++ p ∷ []) o x h)
        (forget-step x r ∙ ap (advance capped o x) e ∙ within-advance o x h)

-- After any sequence of webhooks, commands and ticks on a new relay, it is in the mode of the relay
-- without a limit, and what waits in its buffer are the newest 100 of the notifications that the other
-- one holds back since it last let all of them go, in the order of arrival.
pub run-held :
    (o : Setup) (events : List Event)
    → forget (run o events new)
      ≡ within (run_held o events (record { busy = false; since = 0; items = [] }))
run-held o events = forget-run o events new (record { busy = false; since = 0; items = [] }) refl
