-- ===== src/EnvelopeStore/History.antt =====
-- The store as a machine: any sequence of its writing operations, each with its own `Call`.
use hermes_forge_public.Prelude.{ℕ, String, List, [], ◌∷◌}
use hermes_forge_public.Envelope.{Status, Message, Envelope, Proof}
use hermes_forge_public.EnvelopeStore
use hermes_forge_public.EnvelopeStore.{Table, Call}
use hermes_forge_public.EnvelopeStore.Update
use hermes_forge_public.EnvelopeStore.Thread

pub data Op : Type 0 where
  insert : Envelope → Op
  mark_delivered : String → String → ℕ → Op
  set_executor_session_id : String → String → Op
  update_status : String → Status → Proof → String → Op
  add_history : String → String → Op
  append_message : String → Message → Op

-- The table after one operation, whatever it returned.
abbrev pub step : Call → Op → Table → Table
step c (insert e) t = (EnvelopeStore.insert c e t).1
step c (mark_delivered id session at) t = (EnvelopeStore.mark_delivered c id session at t).1
step c (set_executor_session_id id session) t =
    (EnvelopeStore.set_executor_session_id c id session t).1
step c (update_status id next proof note) t = (Update.update_status c id next proof note t).1
step c (add_history id entry) t = (Update.add_history c id entry t).1
step c (append_message id msg) t = (Thread.append_message c id msg t).1

abbrev pub run : List (Call × Op) → Table → Table
run [] t = t
run ((c, op) ∷ ops) t = run ops (step c op t)
