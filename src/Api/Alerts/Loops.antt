-- ===== src/Api/Alerts/Loops.antt =====
-- Which notifications a status change queues, and when it is taken for a loop.
use mathlib.Core.Path.{subst}
use hermes_forge_public.Prelude.{
  ℕ, suc, ◌+◌, ◌<◌, String, ◌≡◌, refl, ap, sym, ◌∙◌, inl, inr, true, false, ◌&&◌, some, [], ◌∷◌,
  ◌++◌, arith, Bool-cases, ltb, leb, length, length-append, ◌==◌, eq_iff, eq_refl, Result, ok,
  if◌then◌else◌,
}
use hermes_forge_public.Sql.{select, affected}
use hermes_forge_public.Sql.Laws.{select-append}
use hermes_forge_public.Envelope.{Proof}
use hermes_forge_public.NotifyStore
use hermes_forge_public.NotifyStore.{
  Notification, Queue, insert, exec, query, is_recent, count_recent_by_status,
}
use hermes_forge_public.NotifyStore.Summary.{is_interesting, proof_summary_from_map}
use hermes_forge_public.Api.{Caller, notification_insert_key}
use hermes_forge_public.Api.Alerts.{
  Setup, State, Calls, maybe_notify, notify, detect_loop, flag_loop, maybe_fire_webhook,
  notification, loop_note,
}

-- The row that Insert writes, and the queue after it.
abbrev pub stored : NotifyStore.Call → ℕ → Notification → Notification
stored c id n = record n { id = id; created_at = c.now; acknowledged = false }

abbrev pub added : NotifyStore.Call → Notification → Queue → Queue
added c n q = record {
  rows = q.rows ++ stored c (suc q.sequence) n ∷ [];
  sequence = suc q.sequence;
}

insert-added :
    (c : NotifyStore.Call) (n : Notification) (q : Queue)
    → c.fails exec ≡ false
    → insert c n q ≡ (ok (suc q.sequence), added c n q)
unfolding insert
insert-added c n q w = rw w refl

-- How many rows say that the envelope was blocked in the last 30 minutes.
abbrev pub blocked_before : Calls → String → Queue → ℕ
blocked_before c id q = affected (is_recent c.count.now id "blocked" 30) q.rows

-- The drivers work, and the count is made within 30 minutes of the insert.
pub record Works (c : Calls) : Type 0 where
  pub inserts : c.insert.fails exec ≡ false
  pub counts : c.count.fails query ≡ false
  pub inserts_loop : c.insert_loop.fails exec ≡ false
  pub prompt : c.count.now < c.insert.now + 1800

is_recent-new :
    (now at : ℕ) (id : String) → now < at + 1800 → (id == id && true && ltb now (at + 1800)) ≡ true
is_recent-new now at id h = rw (eq_refl id) (ground arith)

count-added :
    (c : Calls) (key id note summary : String) (q : Queue)
    → Works c
    → blocked_before c id (added c.insert (notification key id "blocked" note summary) q)
      ≡ blocked_before c id q + 1
count-added c key id note summary q w =
    let p = is_recent c.count.now id "blocked" 30 in
    let row = stored c.insert (suc q.sequence) (notification key id "blocked" note summary) in
    let recent : p row ≡ true = is_recent-new c.count.now c.insert.now id w.prompt in
    ap length (select-append p q.rows (row ∷ []))
    ∙ rw recent (length-append (select p q.rows) (row ∷ []))

module _ (o : Setup) (c : Calls) (w : Works c) where
  flag_loop-queue :
      (key id : String) (n : ℕ) (s : State)
      → (flag_loop o c key id n s).queue
        ≡ added c.insert_loop (notification key id "loop_detected" (loop_note o id n) "") s.queue
  unfolding flag_loop maybe_fire_webhook
  flag_loop-queue key id n s =
      let e =
        insert-added c.insert_loop (notification key id "loop_detected" (loop_note o id n) "")
          s.queue w.inserts_loop in
      rw (ap (λ (r : Result NotifyStore.Error ℕ × Queue). r.0) e, flag_loop) (ap (λ r. r.1) e)

  count-blocked :
      (key id note summary : String) (q : Queue) (s : State)
      → s.queue ≡ added c.insert (notification key id "blocked" note summary) q
      → count_recent_by_status c.count id "blocked" 30 s.queue ≡ ok (blocked_before c id q + 1)
  unfolding count_recent_by_status
  count-blocked key id note summary q s e =
      rw w.counts
        (ap (λ x. ok (blocked_before c id x)) e ∙ ap ok (count-added c key id note summary q w))

  -- The notification of a loop is queued when at least three rows were there before the new one.
  detect_loop-queue :
      (key id note summary : String) (q : Queue) (s : State)
      → s.queue ≡ added c.insert (notification key id "blocked" note summary) q
      → (detect_loop o c key id s).queue ≡ (
          if leb 3 (blocked_before c id q)
          then added c.insert_loop
              (notification key id "loop_detected" (loop_note o id (blocked_before c id q + 1)) "")
              s.queue
          else s.queue)
  unfolding detect_loop
  detect_loop-queue key id note summary q s e =
      let n = blocked_before c id q in
      let counted = count-blocked key id note summary q s e in
      let shifted : ltb 3 (n + 1) ≡ leb 3 n = ground arith in
      elim (Bool-cases (leb 3 n)) [
        | inl d ↦
            rw d (rw (counted, detect_loop) (rw (shifted ∙ d) (flag_loop-queue key id (n + 1) s)))
        | inr d ↦ rw d (rw (counted, detect_loop) (rw (shifted ∙ d) refl))
      ]

  -- The rows that a status queues for the key: its notification, and a second one when the envelope
  -- had been blocked three times in the last 30 minutes.
  abbrev pub queued : String → String → String → String → Proof → Queue → Queue
  queued key id status note proof q =
      let q' = added c.insert (notification key id status note (proof_summary_from_map proof)) q in
      let n = blocked_before c id q in
      if status == "blocked" && leb 3 n
      then added c.insert_loop (notification key id "loop_detected" (loop_note o id (n + 1)) "") q'
      else q'

  notify_blocked-queue :
      (key id note : String) (proof : Proof) (s : State)
      → (notify o c key id "blocked" note proof s).queue
        ≡ queued key id "blocked" note proof s.queue
  unfolding notify maybe_fire_webhook
  notify_blocked-queue key id note proof s =
      let summary = proof_summary_from_map proof in
      let e =
        insert-added c.insert (notification key id "blocked" note summary) s.queue w.inserts in
      let e' = ap (λ (r : Result NotifyStore.Error ℕ × Queue). r.1) e in
      rw (ap (λ (r : Result NotifyStore.Error ℕ × Queue). r.0) e, notify)
        (detect_loop-queue key id note summary s.queue _ e'
          ∙ ap
              (λ x.
                if leb 3 (blocked_before c id s.queue)
                then added c.insert_loop
                    (notification key id "loop_detected"
                      (loop_note o id (blocked_before c id s.queue + 1)) "")
                    x
                else x)
              e')

  notify-queue :
      (key id status note : String) (proof : Proof) (s : State)
      → (notify o c key id status note proof s).queue ≡ queued key id status note proof s.queue
  unfolding notify maybe_fire_webhook
  notify-queue key id status note proof s =
      let summary = proof_summary_from_map proof in
      let e = insert-added c.insert (notification key id status note summary) s.queue w.inserts in
      elim (Bool-cases (status == "blocked")) [
        | inl d ↦
            subst
              (λ x. (notify o c key id x note proof s).queue ≡ queued key id x note proof s.queue)
              (sym ((eq_iff status "blocked").0 d)) (notify_blocked-queue key id note proof s)
        | inr d ↦
            rw (ap (λ (r : Result NotifyStore.Error ℕ × Queue). r.0) e, notify)
              (rw d (ap (λ (r : Result NotifyStore.Error ℕ × Queue). r.1) e))
      ]

  -- Where notifications are on, the caller has a key and the drivers work, a status that interests the
  -- operator queues one notification under the caller's key, and a second one that flags a loop
  -- exactly if the status is blocked and at least three notifications said so of the envelope in the
  -- 30 minutes before. Any other status queues nothing.
  pub maybe_notify-queue :
      (caller : Caller) (key id status note : String) (proof : Proof) (s : State)
      → o.notifies ≡ true
      → notification_insert_key o.has_keys caller ≡ some key
      → (maybe_notify o c caller id status note proof s).queue
        ≡ (if is_interesting status then queued key id status note proof s.queue else s.queue)
  unfolding maybe_notify
  maybe_notify-queue caller key id status note proof s on named =
      elim (Bool-cases (is_interesting status)) [
        | inl e ↦ rw (on, e) (rw (named, maybe_notify) (notify-queue key id status note proof s))
        | inr e ↦ rw (on, e) refl
      ]
