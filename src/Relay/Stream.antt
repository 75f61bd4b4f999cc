-- ===== src/Relay/Stream.antt =====
-- Sequences of webhooks, commands and ticks of hermes/cmd/hermes-notify/router.go, and the relay that
-- has no limit and sends nothing, to which it is compared.
use hermes_forge_public.Prelude.{
  ℕ, ◌-◌, String, Bool, true, false, not, ◌&&◌, Option, none, some, List, [], ◌∷◌, ◌++◌, ltb, leb,
  length, ◌==◌, if◌then◌else◌,
}
use hermes_forge_public.Relay.{
  Payload, Router, Setup, buffer_cap, drop_oldest, normalise, handle_webhook, auto_flush, command,
  priority,
}
use hermes_forge_public.Relay.Newest.{newest}

pub data Event : Type 0 where
  webhook : Option Payload → Event
  commanded : String → ℕ → Event
  tick : ℕ → Event

abbrev pub step : Setup → Event → Router → Router
step o (webhook body) r = handle_webhook o body r
step o (commanded cmd now) r = command o cmd now r
step o (tick now) r = auto_flush o now r

abbrev pub run : Setup → List Event → Router → Router
run o [] r = r
run o (e ∷ events) r = run o events (step o e r)

-- A relay without a limit and without messages: the mode, and the notifications held back.
pub record Held : Type 0 where
  pub busy : Bool
  pub since : ℕ
  pub items : List Payload

-- Which notifications are held back: low ones, and while the operator is busy the normal ones too.
abbrev pub is_held : Bool → Payload → Bool
is_held busy p =
    not (priority p.status == "urgent") && not (priority p.status == "normal" && not busy)

-- How an event changes what is held, with the way an item is put to the others.
abbrev pub advance : (List Payload → Payload → List Payload) → Setup → Event → Held → Held
advance push o (webhook none) h = h
advance push o (webhook (some p)) h =
    if is_held h.busy (normalise p) then record h { items = push h.items (normalise p) } else h
advance push o (commanded cmd now) h =
    if not o.has_telegram
    then h
    else if cmd == "busy"
    then record h { busy = true; since = now }
    else if cmd == "free"
    then record h { busy = false; items = [] }
    else h
advance push o (tick now) h =
    if not h.busy
    then h
    else if ltb 7200000000000 (now - h.since)
    then record h { busy = false; items = [] }
    else if ltb 1800000000000 (now - h.since)
    then record h { items = [] }
    else h

abbrev pub run_held : Setup → List Event → Held → Held
run_held o [] h = h
run_held o (e ∷ events) h = run_held o events (advance (λ l p. l ++ p ∷ []) o e h)

-- The buffer as `addToBuffer` changes it.
abbrev pub capped : List Payload → Payload → List Payload
capped l p = (if leb buffer_cap (length l) then drop_oldest l else l) ++ p ∷ []

-- A router without its messages.
abbrev pub forget : Router → Held
forget r = record { busy = r.busy; since = r.busy_since; items = r.buffer }

abbrev pub within : Held → Held
within h = record h { items = newest buffer_cap h.items }
