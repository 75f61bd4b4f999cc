-- ===== src/Forge/Repeated.antt =====
-- A request that is repeated after others: the cache of forge/internal/httpapi/deliver.go (W-H16).
use mathlib.Core.Path.{subst⁻¹}
use hermes_forge_public.Prelude.{
  ℕ, suc, ◌+◌, ◌≤◌, String, ◌≡◌, ap, sym, ◌∙◌, inl, inr, Bool, false, Option, none, some, List, [],
  ◌∷◌, arith, length, leb, ◌==◌, eq_iff, Bool-cases, Option-cases, Result, ok, err,
}
use hermes_forge_public.Forge.{Session, Call, put, lookup}
use hermes_forge_public.Forge.Deliver.{
  Request, Ack, Os, State, refused, acked, deliver, deliver_new, acknowledge, ensure_session,
  spawn_of, remember, max_cached_deliveries,
}
use hermes_forge_public.Forge.Replay.{
  lookup-put, validate-cases, deliver_refused, deliver_hit, deliver_miss, acked-cached,
}
use hermes_forge_public.Forge.Acked.{spawn_of-keeps}
use hermes_forge_public.Forge.Others.{ensure_session-Keeps}
use hermes_forge_public.Forge.Register.{Event, request, outside, step, run}

-- How many requests a sequence of events has.
abbrev pub requests : {W : Type 0} → List (Event W) → ℕ
requests [] = 0
requests (request c r ∷ events) = suc (requests events)
requests (outside f ∷ events) = requests events

-- A cache that has the ack of the id, with at most n others put beside those that were there.
record IsKept (id : String) (a : Ack) (n : ℕ) (m : List (String × Ack)) : Type 0 where
  here : lookup id m ≡ some a
  few : length m ≤ n

put-length :
    {A : Type 0} (k : String) (x : A) (m : List (String × A)) → length (put k x m) ≤ suc (length m)
unfolding put
put-length k x [] = omega arith
put-length k x ((j, y) ∷ m) = ground (arith, put-length k x m)

module _ {W : Type 0} (os : Os W) (hermes : Bool) where
  remember-IsKept :
      (id : String) (a b : Ack) (n : ℕ) (m : List (String × Ack))
      → suc n ≤ 1000
      → lookup b.delivery_id m ≡ none
      → IsKept id a n m
      → IsKept id a (suc n) (remember os hermes b m)
  remember-IsKept id a b n m fits fresh k =
      let few = k.few in
      let full : leb (max_cached_deliveries os hermes) (length m) ≡ false = ground arith in
      let other : (b.delivery_id == id) ≡ false = elim (Bool-cases (b.delivery_id == id)) [
        | inr d ↦ d
        | inl d ↦
            let same : b.delivery_id ≡ id = ground (arith, eq_iff b.delivery_id id) in
            let z = sym fresh ∙ ap (λ x. lookup x m) same ∙ k.here in cc
      ] in
      rw full (record {
        here = lookup-put id b.delivery_id b m ∙ rw other k.here;
        few = omega (arith, put-length b.delivery_id b m, few);
      })

  acknowledge-IsKept :
      (c : Call) (r : Request) (o : Result (ℕ × String) Session × State W) (id : String) (a : Ack)
      (n : ℕ)
      → suc n ≤ 1000
      → lookup r.delivery_id o.1.deliveries ≡ none
      → IsKept id a n o.1.deliveries
      → IsKept id a (suc n) (acknowledge os hermes c r o).1.deliveries
  acknowledge-IsKept c r (err (status, code), h) id a n fits fresh k =
      let few = k.few in record { here = k.here; few = omega arith }
  acknowledge-IsKept c r (ok s, h) id a n fits fresh k =
      remember-IsKept id a _ n h.deliveries fits fresh k

  deliver_new-IsKept :
      (c : Call) (r : Request) (h : State W) (id : String) (a : Ack) (n : ℕ)
      → suc n ≤ 1000
      → lookup r.delivery_id h.deliveries ≡ none
      → IsKept id a n h.deliveries
      → IsKept id a (suc n) (deliver_new os hermes c r h).1.deliveries
  deliver_new-IsKept c r h id a n fits fresh k =
      let (p, h') = spawn_of os hermes r h in
      let (envelope, (w, same)) = spawn_of-keeps os hermes r h in
      let cache =
        (ensure_session-Keeps os hermes c p h').deliveries ∙ ap (λ x. x.deliveries) same in
      acknowledge-IsKept c r (ensure_session os hermes c p h') id a n fits
        (ap (lookup r.delivery_id) cache ∙ fresh) (subst⁻¹ (IsKept id a n) cache k)

  deliver-IsKept :
      (c : Call) (r : Option Request) (h : State W) (id : String) (a : Ack) (n : ℕ)
      → suc n ≤ 1000
      → IsKept id a n h.deliveries
      → IsKept id a (suc n) (deliver os hermes c r h).1.deliveries
  unfolding deliver
  deliver-IsKept c none h id a n fits k =
      let few = k.few in record { here = k.here; few = omega arith }
  deliver-IsKept c (some r) h id a n fits k =
      let few = k.few in
      let same : IsKept id a (suc n) h.deliveries = record { here = k.here; few = omega arith } in
      elim (validate-cases os hermes r) [
        | inr (status, code, v) ↦
            subst⁻¹ (λ o. IsKept id a (suc n) o.1.deliveries)
              (deliver_refused os hermes c r h (refused status code) v) same
        | inl v ↦ elim (Option-cases (lookup r.delivery_id h.deliveries)) [
          | inr (prior, l) ↦
              subst⁻¹ (λ o. IsKept id a (suc n) o.1.deliveries)
                (deliver_hit os hermes c r h prior v l) same
          | inl l ↦
              subst⁻¹ (λ o. IsKept id a (suc n) o.1.deliveries) (deliver_miss os hermes c r h v l)
                (deliver_new-IsKept c r h id a n fits l k)
        ]
      ]

  run-kept :
      (events : List (Event W)) (h : State W) (id : String) (a : Ack) (n : ℕ)
      → n + requests events ≤ 1000
      → IsKept id a n h.deliveries
      → lookup id (run os hermes events h).deliveries ≡ some a
  run-kept [] h id a n fits k = k.here
  run-kept (request c r ∷ events) h id a n fits k =
      run-kept events (step os hermes (request c r) h) id a (suc n) (omega (arith, fits))
        (deliver-IsKept c r h id a n (omega (arith, fits)) k)
  run-kept (outside f ∷ events) h id a n fits k =
      run-kept events (step os hermes (outside f) h) id a n fits k

  -- A request that was acknowledged, freshly or from the cache, and is sent again after any others gets
  -- the same ack with status 200 and changes nothing, as long as the acks in the cache and the requests
  -- since then are not more than 1000 together: the cache, which is emptied when it has 1000 acks and
  -- another one comes, is not emptied before. In between, processes may come and go.
  pub deliver_repeated :
      (c d : Call) (r : Request) (events : List (Event W)) (h h' : State W) (status : ℕ) (a : Ack)
      → deliver os hermes c (some r) h ≡ (acked status a, h')
      → length h'.deliveries + requests events ≤ 1000
      → deliver os hermes d (some r) (run os hermes events h')
        ≡ (acked 200 a, run os hermes events h')
  deliver_repeated c d r events h h' status a e fits =
      let (v, l) = acked-cached os hermes c r h h' status a e in
      deliver_hit os hermes d r (run os hermes events h') a v (
        run-kept events h' r.delivery_id a (length h'.deliveries) fits
          (record { here = l; few = omega arith }))
