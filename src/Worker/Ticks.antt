-- ===== src/Worker/Ticks.antt =====
-- One round of the worker.
use mathlib.Core.Path.{subst⁻¹}
use hermes_forge_public.Prelude.{
  sym, ℕ, ◌<◌, String, ◌≡◌, refl, ap, ◌∙◌, Result, inl, inr, ◌⊎◌, true, false, none, ok, err,
  Bool-cases, Result-cases,
}
use hermes_forge_public.Envelope.{Envelope, Error, not_found}
use hermes_forge_public.EnvelopeStore.{Call}
use hermes_forge_public.EnvelopeStore.Claim.{Works}
use hermes_forge_public.Worker.{
  Store, Worker, Round, tick_once, working_dir, delivery_id, after_next, after_deliver, after_mark,
  DeliverError,
}

-- What the worker relies on: a measure of the waiting envelopes that a successful mark lowers, that
-- an envelope handed out can be marked, and that a working driver hands one out unless none waits.
pub record StoreLaws {S : Type 0} (store : Store S) : Type 0 where
  pub pending : S → ℕ
  pub lowers :
      (c : Call) (id session : String) (at : ℕ) (s : S)
      → (store.mark_delivered c id session at s).0 ≡ ok tt
      → pending (store.mark_delivered c id session at s).1 < pending s
  pub markable :
      (c d : Call) (session : String) (at : ℕ) (s : S) (e : Envelope)
      → Works d
      → store.next_created c s ≡ ok e
      → (store.mark_delivered d e.id session at s).0 ≡ ok tt
  pub exhausted :
      (c : Call) (s : S) (x : Error)
      → Works c
      → store.next_created c s ≡ err x
      → (x ≡ not_found) × (pending s ≡ 0)

-- The delivery that a round makes of an envelope.
abbrev pub delivery : {S W : Type 0} → Worker S W → W → Envelope → Result DeliverError String × W
delivery w peer e = w.client (delivery_id e) e (working_dir w.projects e.project) peer

module _ {S W : Type 0} (w : Worker S W) (r : Round) (s : S) (peer : W) where
  after_next-err :
      (x : Error)
      → ((after_next w r s peer (err x)).store ≡ s) × ((after_next w r s peer (err x)).done ≡ true)
  after_next-err not_found = (refl, refl)
  after_next-err _ = (refl, refl)

  after_next-err_ne : (x : Error) → (after_next w r s peer (err x)).error ≡ none → x ≡ not_found
  after_next-err_ne not_found h = refl
  after_next-err_ne _ h = cc

module _ {S W : Type 0} (w : Worker S W) (r : Round) (s : S) where
  store-after_mark : (peer : W) (o : Result Error (Unit {0}) × S) → (after_mark peer o).store ≡ o.1
  store-after_mark peer (ok u, s') = refl
  store-after_mark peer (err x, s') = refl

  after_deliver-cases :
      (e : Envelope) (o : Result DeliverError String × W)
      → ((after_deliver w r e s o).store ≡ s) × ((after_deliver w r e s o).done ≡ true)
        ⊎ ((session : String) × (o.0 ≡ ok session)
            × (r.cancelled ≡ false)
            × (after_deliver w r e s o
                ≡ after_mark o.1 (w.store.mark_delivered r.mark e.id session r.mark.now s)))
  after_deliver-cases e (err x, peer') = inl (refl, refl)
  after_deliver-cases e (ok session, peer') = elim (Bool-cases r.cancelled) [
    | inl c ↦ inl (rw (c, after_deliver), rw (c, after_deliver))
    | inr c ↦ inr (session, refl, c, rw (c, after_deliver))
  ]

module _ {S W : Type 0} (w : Worker S W) (r : Round) (s : S) (peer : W) where
  -- A round stops before the mark and leaves the store, or is what comes of the mark.
  tick_once-cases :
      ((tick_once w r s peer).store ≡ s) × ((tick_once w r s peer).done ≡ true)
      ⊎ ((e : Envelope) × (session : String) × (w.store.next_created r.next s ≡ ok e)
          × ((delivery w peer e).0 ≡ ok session)
          × (r.cancelled ≡ false)
          × (tick_once w r s peer
              ≡ after_mark
                  (delivery w peer e).1
                  (w.store.mark_delivered r.mark e.id session r.mark.now s)))
  unfolding tick_once
  tick_once-cases = elim (Result-cases (w.store.next_created r.next s)) [
    | inr (x, e) ↦ inl (rw e (after_next-err w r s peer x))
    | inl (e, f) ↦ elim (after_deliver-cases w r s e (delivery w peer e)) [
      | inl h ↦ inl (rw f h)
      | inr (session, ack, live, h) ↦ inr (e, session, f, ack, live, rw f h)
    ]
  ]

  -- A round leaves the store as it was and is done, or the store handed out an envelope, the client
  -- acknowledged it under the delivery id made of its id, the context was not cancelled, and the
  -- new store is that of MarkDelivered with the acknowledged session.
  pub tick_once_acknowledged :
      ((tick_once w r s peer).store ≡ s) × ((tick_once w r s peer).done ≡ true)
      ⊎ ((e : Envelope) × (session : String) × (w.store.next_created r.next s ≡ ok e)
          × ((w.client (delivery_id e) e (working_dir w.projects e.project) peer).0 ≡ ok session)
          × (r.cancelled ≡ false)
          × ((tick_once w r s peer).store
              ≡ (w.store.mark_delivered r.mark e.id session r.mark.now s).1))
  tick_once_acknowledged = elim tick_once-cases [
    | inl h ↦ inl h
    | inr (e, session, f, ack, live, h) ↦ inr (
      e,
      session,
      f,
      ack,
      live,
      ap (λ o. o.store) h
          ∙ store-after_mark w r s (delivery w peer e).1
              (w.store.mark_delivered r.mark e.id session r.mark.now s),
    )
  ]

  done-after_mark :
      (p : W) (o : Result Error (Unit {0}) × S) → (after_mark p o).done ≡ false → o.0 ≡ ok tt
  done-after_mark p (ok u, s') h = refl
  done-after_mark p (err x, s') h = cc

  -- A round after which the loop goes on has lowered the measure.
  pub tick_once-lowers :
      (laws : StoreLaws w.store)
      → (tick_once w r s peer).done ≡ false
      → laws.pending (tick_once w r s peer).store < laws.pending s
  tick_once-lowers laws h = elim tick_once-cases [
    | inl (same, d) ↦ cc
    | inr (e, session, f, ack, live, t) ↦
        let o = w.store.mark_delivered r.mark e.id session r.mark.now s in
        let marked = done-after_mark (delivery w peer e).1 o (sym (ap (λ o. o.done) t) ∙ h) in
        subst⁻¹ (λ (x : S). laws.pending x < laws.pending s)
          (ap (λ o. o.store) t ∙ store-after_mark w r s (delivery w peer e).1 o)
          (laws.lowers r.mark e.id session r.mark.now s marked)
  ]

  -- With a working driver, a client that acknowledges and no cancellation, a round has no error,
  -- and it is done only when nothing is pending.
  pub tick_once-serves :
      (laws : StoreLaws w.store)
      → Works r.next
      → Works r.mark
      → ((e : Envelope) → (session : String) × ((delivery w peer e).0 ≡ ok session))
      → r.cancelled ≡ false
      → ((tick_once w r s peer).error ≡ none)
        × ((tick_once w r s peer).done ≡ true → laws.pending (tick_once w r s peer).store ≡ 0)
  unfolding tick_once
  tick_once-serves laws next_works mark_works acks live =
      elim (Result-cases (w.store.next_created r.next s)) [
        | inr (x, e) ↦
            let (nf, none_pending) = laws.exhausted r.next s x next_works e in
            rw e (rw nf (refl, λ d. none_pending))
        | inl (e, f) ↦
            let (session, ack) = acks e in
            let marked = laws.markable r.next r.mark session r.mark.now s e mark_works f in
            rw f (
              rw (ack, after_deliver)
                (rw (live, after_deliver) (rw (marked, after_mark) (refl, λ d. cc))))
      ]
