-- ===== src/Relay/Capped.antt =====
-- `addToBuffer` of hermes/cmd/hermes-notify/router.go beside a buffer without a limit.
use hermes_forge_public.Prelude.{
  ℕ, ◌-◌, ◌≡◌, refl, ap, sym, Bool, true, false, not, none, some, [], ◌∷◌, ◌++◌, arith, ltb, ◌==◌,
  if◌then◌else◌,
}
use hermes_forge_public.Relay.{Payload, Setup, buffer_cap, normalise}
use hermes_forge_public.Relay.Newest.{newest, newest-append}
use hermes_forge_public.Relay.Stream.{
  Event, webhook, commanded, tick, Held, is_held, advance, capped, within,
}

within_if :
    (b : Bool) (p : Payload) (h : Held)
    → (if b then record (within h) { items = capped (newest buffer_cap h.items) p } else within h)
      ≡ within (if b then record h { items = h.items ++ p ∷ [] } else h)
within_if false p h = refl
within_if true p h =
    ap (λ l. record h { items = l }) (sym (newest-append buffer_cap h.items p (omega arith)))

within_command :
    (telegram busy free : Bool) (now : ℕ) (h : Held)
    → (if not telegram
        then within h
        else if busy
        then record (within h) { busy = true; since = now }
        else if free
        then record (within h) { busy = false; items = [] }
        else within h)
      ≡ within (
          if not telegram
          then h
          else if busy
          then record h { busy = true; since = now }
          else if free
          then record h { busy = false; items = [] }
          else h)
within_command false busy free now h = refl
within_command true true free now h = refl
within_command true false true now h = refl
within_command true false false now h = refl

within_tick :
    (busy long enough : Bool) (h : Held)
    → (if not busy
        then within h
        else if long
        then record (within h) { busy = false; items = [] }
        else if enough
        then record (within h) { items = [] }
        else within h)
      ≡ within (
          if not busy
          then h
          else if long
          then record h { busy = false; items = [] }
          else if enough
          then record h { items = [] }
          else h)
within_tick false long enough h = refl
within_tick true true enough h = refl
within_tick true false true h = refl
within_tick true false false h = refl

-- The buffer of an unlimited relay, cut to its newest 100, changes as the real one does.
pub within-advance :
    (o : Setup) (e : Event) (h : Held)
    → advance capped o e (within h) ≡ within (advance (λ l p. l ++ p ∷ []) o e h)
within-advance o (webhook none) h = refl
within-advance o (webhook (some p)) h = within_if (is_held h.busy (normalise p)) (normalise p) h
within-advance o (commanded cmd now) h =
    within_command o.has_telegram (cmd == "busy") (cmd == "free") now h
within-advance o (tick now) h =
    within_tick h.busy (ltb 7200000000000 (now - h.since)) (ltb 1800000000000 (now - h.since)) h
