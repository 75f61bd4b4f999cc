-- ===== src/ActivityHub/Fanout.antt =====
-- What each subscriber gets, whatever the others do.
use mathlib.Core.Option
use mathlib.Core.Path.{subst, subst⁻¹}
use hermes_forge_public.Prelude.{
  ℕ, ◌≤◌, ◌<◌, ◌≡◌, ◌≢◌, refl, ap, sym, ◌∙◌, inl, inr, true, false, not, Option, none, List, [],
  ◌∷◌, ◌&&◌, length, length-append, arith, Bool-cases, eqb, ltb, map, All, All-append,
  if◌then◌else◌,
}
use hermes_forge_public.Sql.{select, first, find, update}
use hermes_forge_public.Sql.Laws.{find-update_self, select-update_ne, All-update}
use hermes_forge_public.Sql.Filter.{select-select, select_ext, All-select}
use hermes_forge_public.ActivityHub
use hermes_forge_public.ActivityHub.{
  Event, Subscriber, Hub, stamp, store, offer, is_hidden, at_address, take_first, rest_of, new,
}
use hermes_forge_public.ActivityHub.Ring.{visible}
use hermes_forge_public.ActivityHub.History.{Op, step, run, close-cases, receive-cases}

-- A subscriber alone: what one operation makes of it.
abbrev pub serve : ℕ → Op → Option Subscriber → Option Subscriber
serve a (Op.publish now e) s = Option.map (offer (stamp now e)) s
serve a (Op.subscribe key) s = s
serve a (Op.close b) s = if eqb b a then none else s
serve a (Op.receive b) s = if eqb b a then Option.map take_first s else s

abbrev pub follow : ℕ → List Op → Option Subscriber → Option Subscriber
follow a [] s = s
follow a (op ∷ ops) s = follow a ops (serve a op s)

address-offer : (e : Event) (s : Subscriber) → (offer e s).address ≡ s.address
unfolding offer
address-offer e s = ground arith

find-map-offer :
    (a : ℕ) (e : Event) (l : List Subscriber)
    → find (at_address a) (map (offer e) l) ≡ Option.map (offer e) (find (at_address a) l)
find-map-offer a e [] = refl
find-map-offer a e (s ∷ l) = elim (Bool-cases (at_address a s)) [
  | inl c ↦ rw c (rw (address-offer e s) (rw c))
  | inr c ↦ rw c (rw (address-offer e s) (rw c (find-map-offer a e l)))
]

at_address-apart :
    (a b : ℕ) → a ≢ b → (s : Subscriber) → at_address b s ≡ true → at_address a s ≡ false
at_address-apart a b n s h = ground arith

find-select_other :
    (a b : ℕ) (l : List Subscriber)
    → a ≢ b
    → find (at_address a) (select (λ s. not (at_address b s)) l) ≡ find (at_address a) l
find-select_other a b l n = ap first (
    select-select (at_address a) (λ s. not (at_address b s)) l
    ∙ select_ext (λ s. at_address a s && not (at_address b s)) (at_address a) (λ s. ground arith) l)

find-select_self :
    (a : ℕ) (l : List Subscriber)
    → find (at_address a) (select (λ s. not (at_address a s)) l) ≡ none
find-select_self a [] = refl
find-select_self a (s ∷ l) = elim (Bool-cases (at_address a s)) [
  | inl c ↦ rw c (find-select_self a l)
  | inr c ↦ rw c (rw c (find-select_self a l))
]

find-step :
    (a : ℕ) (op : Op) (h : Hub)
    → a < h.fresh
    → find (at_address a) (step op h).subs ≡ serve a op (find (at_address a) h.subs)
unfolding ActivityHub.publish ActivityHub.subscribe
find-step a (Op.publish now e) h old = find-map-offer a (stamp now e) h.subs
find-step a (Op.subscribe key) h old = let other : eqb h.fresh a ≡ false = ground arith in rw other
find-step a (Op.close b) h old = elim (Bool-cases (eqb b a)) [
  | inl c ↦
      let same : b ≡ a = ground arith in
      rw c (elim (close-cases b h) [
        | inl (e, k) ↦
            ap (λ x. find (at_address a) x.subs) k
            ∙ subst (λ x. find (at_address x) h.subs ≡ none) same e
        | inr k ↦
            ap (λ x. find (at_address a) x.subs) k
            ∙ subst (λ x. find (at_address a) (select (λ s. not (at_address x s)) h.subs) ≡ none)
                (sym same) (find-select_self a h.subs)
      ])
  | inr c ↦ rw c (elim (close-cases b h) [
    | inl (e, k) ↦ ap (λ x. find (at_address a) x.subs) k
    | inr k ↦ ap (λ x. find (at_address a) x.subs) k ∙ find-select_other a b h.subs (ground arith)
  ])
]
find-step a (Op.receive b) h old = elim (Bool-cases (eqb b a)) [
  | inl c ↦
      let same : b ≡ a = ground arith in
      rw c (elim (receive-cases b h) [
        | inl (e, k) ↦
            ap (λ x. find (at_address a) x.subs) k
            ∙ subst
                (λ x.
                  find (at_address x) h.subs ≡ Option.map take_first (find (at_address x) h.subs))
                same (sym e)
        | inr k ↦
            ap (λ x. find (at_address a) x.subs) k
            ∙ subst
                (λ x.
                  find (at_address a) (update (at_address x) take_first h.subs)
                  ≡ Option.map take_first (find (at_address a) h.subs))
                (sym same) (find-update_self (at_address a) take_first (λ s p. p) h.subs)
      ])
  | inr c ↦ rw c (elim (receive-cases b h) [
    | inl (e, k) ↦ ap (λ x. find (at_address a) x.subs) k
    | inr k ↦
        ap (λ x. find (at_address a) x.subs) k
        ∙ ap first (
            select-update_ne (at_address b) (at_address a) take_first
              (λ s p.
                (at_address-apart a b (ground arith) s p, at_address-apart a b (ground arith) s p))
              h.subs)
  ])
]

fresh-step : (op : Op) (h : Hub) → h.fresh ≤ (step op h).fresh
unfolding ActivityHub.publish ActivityHub.subscribe
fresh-step (Op.publish now e) h = omega arith
fresh-step (Op.subscribe key) h = omega arith
fresh-step (Op.close a) h = elim (close-cases a h) [
  | inl (e, k) ↦ subst⁻¹ (λ x. h.fresh ≤ x.fresh) k (omega arith)
  | inr k ↦ subst⁻¹ (λ x. h.fresh ≤ x.fresh) k (omega arith)
]
fresh-step (Op.receive a) h = elim (receive-cases a h) [
  | inl (e, k) ↦ subst⁻¹ (λ x. h.fresh ≤ x.fresh) k (omega arith)
  | inr k ↦ subst⁻¹ (λ x. h.fresh ≤ x.fresh) k (omega arith)
]

-- A subscription that exists gets from any sequence of operations what it would get alone: each
-- published event is offered to it once and in order, its own receives and its own close apply to
-- it, and what is done to other subscriptions does not.
pub find-run :
    (a : ℕ) (ops : List Op) (h : Hub)
    → a < h.fresh
    → find (at_address a) (run ops h).subs ≡ follow a ops (find (at_address a) h.subs)
find-run a [] h old = refl
find-run a (op ∷ ops) h old =
    find-run a ops (step op h) (omega (arith, fresh-step op h))
    ∙ ap (follow a ops) (find-step a op h old)

-- The events waiting for a subscriber are ones its key may see, and not more than 64.
abbrev pub IsScoped : Subscriber → Type 0
IsScoped s = All (λ e. visible s.key e ≡ true) s.channel × (length s.channel ≤ 64)

offer-IsScoped : (e : Event) (s : Subscriber) → IsScoped s → IsScoped (offer e s)
unfolding offer
offer-IsScoped e s (seen, small) = elim (Bool-cases (is_hidden s.key e)) [
  | inl c ↦ rw c (seen, small)
  | inr c ↦ elim (Bool-cases (ltb (length s.channel) 64)) [
    | inr d ↦ rw c (rw d (seen, small))
    | inl d ↦
        let room : length s.channel < 64 = ground arith in
        rw c (
          rw d (
            All-append (λ x. visible s.key x ≡ true) s.channel (e ∷ []) seen (ap not c, tt),
            omega (arith, room, length-append s.channel (e ∷ [])),
          ))
  ]
]

take_first-IsScoped : (s : Subscriber) → IsScoped s → IsScoped (take_first s)
take_first-IsScoped s (seen, small) =
    (rest-All (λ e. visible s.key e ≡ true) s.channel seen, rest-small s.channel small)
  where
    rest-All : (P : Event → Type 0) (l : List Event) → All P l → All P (rest_of l)
    rest-All P [] p = p
    rest-All P (e ∷ l) p = p.1

    rest-small : (l : List Event) → length l ≤ 64 → length (rest_of l) ≤ 64
    rest-small [] b = b
    rest-small (e ∷ l) b = omega arith

All-map-offer : (e : Event) (l : List Subscriber) → All IsScoped l → All IsScoped (map (offer e) l)
All-map-offer e [] p = p
All-map-offer e (s ∷ l) p = (offer-IsScoped e s p.0, All-map-offer e l p.1)

step-IsScoped : (op : Op) (h : Hub) → All IsScoped h.subs → All IsScoped (step op h).subs
unfolding ActivityHub.publish ActivityHub.subscribe
step-IsScoped (Op.publish now e) h p = All-map-offer (stamp now e) h.subs p
step-IsScoped (Op.subscribe key) h p = ((tt, omega arith), p)
step-IsScoped (Op.close a) h p = elim (close-cases a h) [
  | inl (e, k) ↦ subst⁻¹ (λ x. All IsScoped x.subs) k p
  | inr k ↦
      subst⁻¹ (λ x. All IsScoped x.subs) k
        (All-select IsScoped (λ s. not (at_address a s)) h.subs p)
]
step-IsScoped (Op.receive a) h p = elim (receive-cases a h) [
  | inl (e, k) ↦ subst⁻¹ (λ x. All IsScoped x.subs) k p
  | inr k ↦
      subst⁻¹ (λ x. All IsScoped x.subs) k
        (All-update IsScoped (at_address a) take_first (λ s c. take_first-IsScoped s) h.subs p)
]

run-All-IsScoped : (ops : List Op) (h : Hub) → All IsScoped h.subs → All IsScoped (run ops h).subs
run-All-IsScoped [] h p = p
run-All-IsScoped (op ∷ ops) h p = run-All-IsScoped ops (step op h) (step-IsScoped op h p)

-- After any sequence of operations on a new hub, the events that wait in a subscriber's channel are
-- all ones its key may see, and they are never more than 64.
pub run-IsScoped : (ops : List Op) → All IsScoped (run ops new).subs
run-IsScoped ops = run-All-IsScoped ops new tt
