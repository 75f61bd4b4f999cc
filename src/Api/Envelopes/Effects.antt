-- ===== src/Api/Envelopes/Effects.antt =====
-- What the requests below /envelopes do to the table of envelopes.
use hermes_forge_public.EnvelopeStore.{utc_now}
use hermes_forge_public.Prelude.{
  ℕ, String, ◌≡◌, refl, ◌∙◌, ◌⊎◌, inl, inr, not, ◌||◌, Option, List, arith, Bool-cases, ltb,
  Option-cases, Result-cases, ◌==◌,
}
use hermes_forge_public.Envelope.{Envelope, Proof, validate}
use hermes_forge_public.EnvelopeStore
use hermes_forge_public.EnvelopeStore.Update
use hermes_forge_public.EnvelopeStore.{Table}
use hermes_forge_public.EnvelopeStore.History.{Op, step}
use hermes_forge_public.NotifyStore
use hermes_forge_public.NotifyStore.{Queue, count_recent_by_status}
use hermes_forge_public.NotifyStore.Summary.{is_interesting, proof_summary_from_map}
use hermes_forge_public.Api.{Body, undecoded, decoded, Caller, notification_insert_key}
use hermes_forge_public.Api.Alerts.{
  Setup, State, Calls, maybe_notify, publish_activity, notify, detect_loop, flag_loop,
  maybe_fire_webhook, notification, loop_note,
}
use hermes_forge_public.Api.Uuid.{new_uuid}
use hermes_forge_public.Api.Envelopes.{
  Request, UpdateStatusRequest, AppendThreadRequest, handle, handle_create, handle_update_status,
  set_status, handle_add_history, handle_set_session, handle_append_message, store_message,
  check_message, with_defaults, stamped, new_message, create, list, get, update_status, set_session,
  add_history, append_message, get_thread,
}

-- What a change of status sets off leaves the table and the hub alone.
abbrev pub Keeps : State → State → Type 0
Keeps s s' = (s'.table ≡ s.table) × (s'.hub ≡ s.hub)

module _ (o : Setup) (c : Calls) where
  flag_loop-Keeps : (key id : String) (n : ℕ) (s : State) → Keeps s (flag_loop o c key id n s)
  unfolding flag_loop maybe_fire_webhook
  flag_loop-Keeps key id n s =
      elim (Result-cases
        (NotifyStore.insert c.insert_loop
          (notification key id "loop_detected" (loop_note o id n) "") s.queue).0) [
            | inl (x, e) ↦ rw (e, flag_loop) (refl, refl)
            | inr (x, e) ↦ rw (e, flag_loop) (refl, refl)
          ]

  detect_loop-Keeps : (key id : String) (s : State) → Keeps s (detect_loop o c key id s)
  unfolding detect_loop
  detect_loop-Keeps key id s =
      elim (Result-cases (count_recent_by_status c.count id "blocked" 30 s.queue)) [
        | inr (x, e) ↦ rw (e, detect_loop) (refl, refl)
        | inl (n, e) ↦ elim (Bool-cases (ltb 3 n)) [
          | inl d ↦ rw (e, detect_loop) (rw d (flag_loop-Keeps key id n s))
          | inr d ↦ rw (e, detect_loop) (rw d (refl, refl))
        ]
      ]

  notify-Keeps :
      (key id status note : String) (proof : Proof) (s : State)
      → Keeps s (notify o c key id status note proof s)
  unfolding notify maybe_fire_webhook
  notify-Keeps key id status note proof s =
      elim (Result-cases
        (NotifyStore.insert c.insert
          (notification key id status note (proof_summary_from_map proof)) s.queue).0) [
            | inr (x, e) ↦ rw (e, notify) (refl, refl)
            | inl (x, e) ↦ elim (Bool-cases (status == "blocked")) [
              | inl d ↦ rw (e, notify) (rw d (detect_loop-Keeps key id _))
              | inr d ↦ rw (e, notify) (rw d (refl, refl))
            ]
          ]

  pub maybe_notify-Keeps :
      (caller : Caller) (id status note : String) (proof : Proof) (s : State)
      → Keeps s (maybe_notify o c caller id status note proof s)
  unfolding maybe_notify
  maybe_notify-Keeps caller id status note proof s =
      elim (Bool-cases (not o.notifies || not (is_interesting status))) [
        | inl e ↦ rw e (refl, refl)
        | inr e ↦ elim (Option-cases (notification_insert_key o.has_keys caller)) [
          | inl d ↦ rw e (rw (d, maybe_notify) (refl, refl))
          | inr (key, d) ↦ rw e (rw (d, maybe_notify) (notify-Keeps key id status note proof s))
        ]
      ]

  pub publish_activity-table :
      (id status note : String) (s : State)
      → (publish_activity o c id status note s).table ≡ s.table
  unfolding publish_activity
  publish_activity-table id status note s = ground arith

-- The table is as it was, or as one store operation with this driver leaves it.
abbrev pub IsStep : EnvelopeStore.Call → Table → Table → Type 0
IsStep c t t' = (t' ≡ t) ⊎ ((op : Op) × (t' ≡ step c op t))

module _ (o : Setup) (c : Calls) where
  create-IsStep :
      (body : Body Envelope) (s : State) → IsStep c.store s.table (handle_create o c body s).1.table
  unfolding handle_create
  create-IsStep undecoded s = inl refl
  create-IsStep (decoded body) s =
      elim (Result-cases (validate (with_defaults (utc_now c.store) body))) [
        | inr (x, e) ↦ inl (rw (e, handle_create) refl)
        | inl (x, e) ↦
            inr (Op.insert (with_defaults (utc_now c.store) body), rw (e, handle_create) refl)
      ]

  set_status-IsStep :
      (caller : Caller) (id : String) (req : UpdateStatusRequest) (s : State)
      → IsStep c.store s.table (set_status o c caller id req s).1.table
  unfolding set_status
  set_status-IsStep caller id req s =
      elim (Result-cases
        (Update.update_status c.store id req.status req.proof req.note s.table).0) [
          | inr (x, e) ↦
              inr (Op.update_status id req.status req.proof req.note, rw (e, set_status) refl)
          | inl (x, e) ↦ inr (
            Op.update_status id req.status req.proof req.note,
            rw (e, set_status)
                (publish_activity-table o c id req.status req.note _
                  ∙ (maybe_notify-Keeps o c caller id req.status req.note req.proof _).0),
          )
        ]

  update_status-IsStep :
      (caller : Caller) (id : String) (body : Body UpdateStatusRequest) (s : State)
      → IsStep c.store s.table (handle_update_status o c caller id body s).1.table
  unfolding handle_update_status
  update_status-IsStep caller id undecoded s = inl (ground arith)
  update_status-IsStep caller id (decoded req) s = elim (Bool-cases (id == "")) [
    | inl e ↦ inl (rw e refl)
    | inr e ↦ elim (Bool-cases (req.status == "")) [
      | inl d ↦ inl (rw e (rw d refl))
      | inr d ↦ rw (e, d) (set_status-IsStep caller id req s)
    ]
  ]

  add_history-IsStep :
      (id : String) (body : Body String) (s : State)
      → IsStep c.store s.table (handle_add_history o c id body s).1.table
  unfolding handle_add_history
  add_history-IsStep id undecoded s = inl (ground arith)
  add_history-IsStep id (decoded entry) s = elim (Bool-cases (id == "" || entry == "")) [
    | inl e ↦ inl (ground arith)
    | inr e ↦ inr (Op.add_history id (stamped o c entry), ground arith)
  ]

  set_session-IsStep :
      (id : String) (body : Body String) (s : State)
      → IsStep c.store s.table (handle_set_session o c id body s).1.table
  unfolding handle_set_session
  set_session-IsStep id undecoded s = inl (ground arith)
  set_session-IsStep id (decoded session) s = elim (Bool-cases (id == "" || session == "")) [
    | inl e ↦ inl (ground arith)
    | inr e ↦ inr (Op.set_executor_session_id id session, ground arith)
  ]

  append_message-IsStep :
      (id : String) (bytes : Option (List ℕ)) (body : Body AppendThreadRequest) (s : State)
      → IsStep c.store s.table (handle_append_message o c id bytes body s).1.table
  unfolding handle_append_message store_message
  append_message-IsStep id bytes undecoded s = inl (ground arith)
  append_message-IsStep id bytes (decoded req) s = elim (Bool-cases (id == "")) [
    | inl e ↦ inl (rw e refl)
    | inr e ↦ elim (Option-cases (check_message req)) [
      | inr (refusal, d) ↦ inl (rw (e, d) refl)
      | inl d ↦ elim (Option-cases (new_uuid bytes)) [
        | inl f ↦ inl (rw (e, d, f) refl)
        | inr (uuid, f) ↦
            inr (Op.append_message id (new_message req uuid c.store.now), rw (e, d, f) refl)
      ]
    ]
  ]

  -- Every request leaves the table, or does one operation of the store to it.
  pub handle-IsStep :
      (caller : Caller) (req : Request) (s : State)
      → IsStep c.store s.table (handle o c caller req s).1.table
  handle-IsStep caller (create body) s = create-IsStep body s
  handle-IsStep caller (list q) s = inl refl
  handle-IsStep caller (get id) s = inl refl
  handle-IsStep caller (update_status id body) s = update_status-IsStep caller id body s
  handle-IsStep caller (set_session id body) s = set_session-IsStep id body s
  handle-IsStep caller (add_history id body) s = add_history-IsStep id body s
  handle-IsStep caller (append_message id bytes body) s = append_message-IsStep id bytes body s
  handle-IsStep caller (get_thread id since) s = inl refl
