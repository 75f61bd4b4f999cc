-- ===== src/Relay.antt =====
-- hermes/cmd/hermes-notify/router.go: the relay of notifications to Telegram. A message handed to
-- Telegram is an entry of `sent`, whether or not the network takes it. Each operation is one step; a
-- time is its instant in nanoseconds.
pub mod Held
pub mod Newest
pub mod Stream
pub mod Capped
pub mod Waiting
mod Tests
use Prim.Native.Char.{code}
use Prim.Native.String
use hermes_forge_public.Prelude.{
  ℕ, suc, ◌-◌, String, Bool, true, false, not, ◌&&◌, ◌||◌, Option, none, some, List, [], ◌∷◌, ◌++◌,
  ◌==◌, eqb, ltb, leb, length, if◌then◌else◌,
}
use hermes_forge_public.Prelude.Texts.{concat, decimal}

pub record Payload : Type 0 where
  pub envelope_id : String
  pub status : String
  pub task_title : String
  pub note : String
  pub proof_summary : String
  pub loop_detected : Bool

-- `priorityMap`, and the default of `priority`
unfoldable pub priority : String → String
priority status =
    if status == "blocked"
    then "urgent"
    else if status == "failed"
    then "urgent"
    else if status == "loop_detected"
    then "urgent"
    else if status == "done"
    then "normal"
    else if status == "awaiting_confirm"
    then "normal"
    else "low"

abbrev pub buffer_cap : ℕ
buffer_cap = 100

-- `busy_since` is 0 for the zero time.
pub record Router : Type 0 where
  pub busy : Bool
  pub busy_since : ℕ
  pub buffer : List Payload
  pub sent : List String

abbrev pub new : Router
new = record { busy = false; busy_since = 0; buffer = []; sent = [] }

unfoldable pub format_message : Payload → String
format_message p =
    if p.loop_detected || p.status == "loop_detected"
    then concat ("🔄 LOOP: " ∷ p.task_title ∷ "\n" ∷ p.note ∷ [])
    else if p.status == "done"
    then concat ("✅ " ∷ p.task_title ∷ "\n" ∷ p.proof_summary ∷ [])
    else if p.status == "blocked"
    then concat ("🚫 BLOCKED: " ∷ p.task_title ∷ "\n" ∷ p.note ∷ [])
    else if p.status == "failed"
    then concat ("❌ FAILED: " ∷ p.task_title ∷ "\n" ∷ p.note ∷ [])
    else if p.status == "awaiting_confirm"
    then concat ("❓ " ∷ p.task_title ∷ "\n" ∷ p.note ∷ [])
    else concat ("📨 " ∷ p.status ∷ ": " ∷ p.task_title ∷ [])

-- `strings.TrimRight(s, "\n")`
unfoldable pub trim_newlines : String → String
trim_newlines String.[] = ""
trim_newlines (String.◌∷◌ c s) =
    let rest = trim_newlines s in if rest == "" && eqb (code c) b'\n' then "" else String.◌∷◌ c rest

abbrev pub bullets : List Payload → List String
bullets [] = []
bullets (p ∷ items) = "• " ∷ format_message p ∷ "\n" ∷ bullets items

unfoldable pub bullet_list : List Payload → String
bullet_list items = trim_newlines (
    concat (
      "📋 Пропущені нотифікації ("
      ∷ decimal (suc (length items)) (length items)
      ∷ "):\n"
      ∷ bullets items))

-- What a relay is built with: whether Telegram is there, and the language model, `none` if it is not
-- configured. Its answer is `none` where the call fails.
pub record Setup : Type 0 where
  pub has_telegram : Bool
  pub summarize : Option (List Payload → Option String)

-- `rt.buffer[1:]`
abbrev pub drop_oldest : List Payload → List Payload
drop_oldest [] = []
drop_oldest (p ∷ buffer) = buffer

unfoldable pub add_to_buffer : Payload → Router → Router
add_to_buffer p r = record r {
  buffer = (if leb buffer_cap (length r.buffer) then drop_oldest r.buffer else r.buffer) ++ p ∷ [];
}

unfoldable pub set_busy : ℕ → Router → Router
set_busy now r = record r { busy = true; busy_since = now }

-- `p.Status` with the flag of a loop put into it.
abbrev pub normalise : Payload → Payload
normalise p =
    if p.loop_detected && not (p.status == "loop_detected")
    then record p { status = "loop_detected" }
    else p

module _ (o : Setup) where
  unfoldable pub send : String → Router → Router
  send text r = if o.has_telegram then record r { sent = r.sent ++ text ∷ [] } else r

  unfoldable pub route : Payload → Router → Router
  route p r =
      let pri = priority p.status in
      if pri == "urgent"
      then send (format_message p) r
      else if pri == "normal" && not r.busy
      then send (format_message p) r
      else add_to_buffer p r

  -- The body as it decodes, `none` if it does not. The response has status 200 in any case.
  unfoldable pub handle_webhook : Option Payload → Router → Router
  handle_webhook none r = r
  handle_webhook (some p) r = route (normalise p) r

  unfoldable pub format_batch : List Payload → String
  format_batch items = elim o.summarize [
    | none ↦ bullet_list items
    | some model ↦ elim (model items) [ some summary ↦ summary | none ↦ bullet_list items ]
  ]

  -- `Flush` with the items taken out of the buffer
  abbrev pub send_items : List Payload → Router → Router
  send_items [] r = r
  send_items (p ∷ []) r = send (format_message p) r
  send_items (p ∷ q ∷ items) r = send (format_batch (p ∷ q ∷ items)) r

  unfoldable pub flush : Router → Router
  flush r = send_items r.buffer (record r { buffer = [] })

  unfoldable pub set_free : Router → Router
  set_free r = flush (record r { busy = false })

  -- One tick of `autoFlush`.
  unfoldable pub auto_flush : ℕ → Router → Router
  auto_flush now r =
      let elapsed = now - r.busy_since in
      let has_items = not (eqb (length r.buffer) 0) in
      if not r.busy
      then r
      else if ltb 7200000000000 elapsed
      then set_free r
      else if has_items && ltb 1800000000000 elapsed
      then flush r
      else r

  abbrev pub mode : Router → String
  mode r = if r.busy then "busy" else "free"

  -- The command that `pollCommands` gets.
  unfoldable pub obey : String → ℕ → Router → Router
  obey cmd now r =
      if cmd == "busy"
      then send "🔕 Режим «зайнятий» увімкнено. Нотифікації буферизуються." (set_busy now r)
      else if cmd == "free"
      then set_free (send "🔔 Режим «вільний». Відправляю пропущені нотифікації..." r)
      else if cmd == "status"
      then send
          (concat (
            "ℹ\u{fe0f} Статус: "
            ∷ mode r
            ∷ " | Буфер: "
            ∷ decimal (suc (length r.buffer)) (length r.buffer)
            ∷ []))
          r
      else r

  -- `pollCommands` runs only with Telegram.
  abbrev pub command : String → ℕ → Router → Router
  command cmd now r = if not o.has_telegram then r else obey cmd now r
