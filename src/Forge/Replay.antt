-- ===== src/Forge/Replay.antt =====
-- Deliveries that are repeated (W-H16).
use hermes_forge_public.Prelude.{
  ℕ, String, ◌≡◌, ◌⊎◌, refl, ap, sym, ◌∙◌, inl, inr, Bool, not, ◌&&◌, ◌||◌, none, some, List, [],
  ◌∷◌, arith, ◌==◌, eq_iff, eq_refl, Bool-cases, Option-cases, Result, ok, err, if◌then◌else◌,
}
use hermes_forge_public.Forge.{Session, Call, put, lookup}
use hermes_forge_public.Forge.Deliver.{
  Request, Ack, Response, Os, State, refused, acked, deliver, deliver_new, acknowledge, validate,
  ensure_session, spawn_of, ack_of,
}

pub lookup-put :
    {A : Type 0} (i k : String) (x : A) (m : List (String × A))
    → lookup i (put k x m) ≡ (if k == i then some x else lookup i m)
unfolding lookup put
lookup-put i k x [] = refl
lookup-put i k x ((j, y) ∷ m) =
    ground (arith, eq_iff j k, eq_iff j i, eq_iff k i, lookup-put i k x m)

module _ {W : Type 0} (os : Os W) (hermes : Bool) where
  -- What a delivery that gets past the cache returns: an error with a status above 201, or a fresh
  -- ack that is in the cache.
  acknowledge-cases :
      (c : Call) (r : Request) (o : Result (ℕ × String) Session × State W)
      → ((status : ℕ) × (code : String) × ((acknowledge os hermes c r o).0 ≡ refused status code))
        ⊎ ((a : Ack) × ((acknowledge os hermes c r o).0 ≡ acked 201 a)
            × (lookup r.delivery_id (acknowledge os hermes c r o).1.deliveries ≡ some a))
  acknowledge-cases c r (err (status, code), h) = inl (status, code, refl)
  acknowledge-cases c r (ok s, h) = inr (
    ack_of os hermes c r s,
    refl,
    lookup-put r.delivery_id r.delivery_id _ _ ∙ rw (eq_refl r.delivery_id) refl,
  )

  pub validate-cases :
      (r : Request)
      → (validate os hermes r ≡ none)
        ⊎ ((status : ℕ) × (code : String) × (validate os hermes r ≡ some (refused status code)))
  validate-cases r =
      elim (Bool-cases (r.delivery_id == "" || r.envelope_id == "" || r.target_executor == "")) [
        | inl e ↦ inr (422, "invalid_delivery", rw e refl)
        | inr e ↦ elim (Bool-cases (not (r.working_dir == "") && not (os.is_abs r.working_dir))) [
          | inl d ↦ inr (422, "invalid_working_dir", rw (e, d) refl)
          | inr d ↦ inl (rw (e, d) refl)
        ]
      ]

  pub deliver_refused :
      (c : Call) (r : Request) (h : State W) (x : Response)
      → validate os hermes r ≡ some x
      → deliver os hermes c (some r) h ≡ (x, h)
  unfolding deliver
  deliver_refused c r h x v = rw (v, deliver) refl

  pub deliver_hit :
      (c : Call) (r : Request) (h : State W) (a : Ack)
      → validate os hermes r ≡ none
      → lookup r.delivery_id h.deliveries ≡ some a
      → deliver os hermes c (some r) h ≡ (acked 200 a, h)
  unfolding deliver
  deliver_hit c r h a v l = rw (v, deliver) (rw l refl)

  pub deliver_miss :
      (c : Call) (r : Request) (h : State W)
      → validate os hermes r ≡ none
      → lookup r.delivery_id h.deliveries ≡ none
      → deliver os hermes c (some r) h ≡ deliver_new os hermes c r h
  unfolding deliver
  deliver_miss c r h v l = rw (v, deliver) (rw l refl)

  acked_inj : {s t : ℕ} {a b : Ack} → acked s a ≡ acked t b → a ≡ b
  acked_inj e = cc

  -- An acknowledged request is valid, and its ack is in the cache.
  pub acked-cached :
      (c : Call) (r : Request) (h h' : State W) (status : ℕ) (a : Ack)
      → deliver os hermes c (some r) h ≡ (acked status a, h')
      → (validate os hermes r ≡ none) × (lookup r.delivery_id h'.deliveries ≡ some a)
  acked-cached c r h h' status a e = elim (validate-cases r) [
    | inr (st, code, v) ↦
        let z = ap (λ o. o.0) (sym (deliver_refused c r h (refused st code) v) ∙ e) in cc
    | inl v ↦ elim (Option-cases (lookup r.delivery_id h.deliveries)) [
      | inr (prior, l) ↦
          let k = sym (deliver_hit c r h prior v l) ∙ e in
          (
            v,
            ap (λ x. lookup r.delivery_id x.1.deliveries) (sym k)
                ∙ l
                ∙ ap some (acked_inj (ap (λ o. o.0) k)),
          )
      | inl l ↦
          let k = sym (deliver_miss c r h v l) ∙ e in
          let (p, w) = spawn_of os hermes r h in
          elim (acknowledge-cases c r (ensure_session os hermes c p w)) [
            | inl (st, code, f) ↦ let z = sym f ∙ ap (λ o. o.0) k in cc
            | inr (b, f, g) ↦ (
              v,
              ap (λ x. lookup r.delivery_id x.1.deliveries) (sym k)
                  ∙ g
                  ∙ ap some (acked_inj (sym f ∙ ap (λ o. o.0) k)),
            )
          ]
    ]
  ]
