-- ===== src/EnvelopeStore/Claim.antt =====
-- MarkDelivered: the conditional UPDATE flips one created row, once.
use hermes_forge_public.Prelude.{
  ℕ, String, ◌≡◌, ◌≢◌, refl, ap, inl, inr, Bool, true, false, none, some, ◌∷◌, List, [], arith,
  Bool-cases, Option-cases, ok, err, eq_iff, eqb, ◌<◌,
}
use hermes_forge_public.Sql.{update, find, affected}
use hermes_forge_public.Sql.Laws.{select-update_ne, affected-find, affected-none, update-none}
use hermes_forge_public.Envelope.{Envelope, not_found}
use hermes_forge_public.EnvelopeStore.{
  Table, Call, has_id, is_deliverable, deliver_row, mark_delivered, get,
}

-- No driver call fails.
abbrev pub Works : Call → Type 0
Works c = (n : ℕ) → c.fails n ≡ false

find-update_gone :
    {A : Type 0} (p : A → Bool) (f : A → A)
    → ((x : A) → p x ≡ true → p (f x) ≡ false)
    → (t : List A) → find p (update p f t) ≡ none
find-update_gone p f moved [] = refl
find-update_gone p f moved (x ∷ t) = elim (Bool-cases (p x)) [
  | inl e ↦ rw e (rw (moved x e) (find-update_gone p f moved t))
  | inr e ↦ rw e (rw e (find-update_gone p f moved t))
]

eqb_pos : (n : ℕ) → 0 < n → eqb n 0 ≡ false
eqb_pos n h = ground arith

module _ (c : Call) (id session : String) (at : ℕ) (t : Table) (w : Works c) where
  pub mark_delivered-none :
      find (is_deliverable id) t ≡ none → mark_delivered c id session at t ≡ (err not_found, t)
  unfolding mark_delivered
  mark_delivered-none e =
      rw (w 0, w 1, affected-none (is_deliverable id) t e)
        (rw (update-none (is_deliverable id) (deliver_row session at) t e))

  pub mark_delivered-some :
      {x : Envelope}
      → find (is_deliverable id) t ≡ some x
      → mark_delivered c id session at t
        ≡ (ok tt, update (is_deliverable id) (deliver_row session at) t)
  unfolding mark_delivered
  mark_delivered-some e =
      rw
        (w 0, w 1, eqb_pos (affected (is_deliverable id) t) (affected-find (is_deliverable id) t e))

other_row :
    (id j session : String) (at : ℕ)
    → id ≢ j
    → (x : Envelope) → is_deliverable id x ≡ true
    → (has_id j x ≡ false) × (has_id j (deliver_row session at x) ≡ false)
other_row id j session at apart x h = ground (arith, eq_iff x.id id, eq_iff x.id j, apart)

deliver_row_gone :
    (id session : String) (at : ℕ) (x : Envelope)
    → is_deliverable id x ≡ true
    → is_deliverable id (deliver_row session at x) ≡ false
deliver_row_gone id session at x h = ground arith

-- After a MarkDelivered that succeeded, no row has the id and the status created, so another one
-- for the id returns ErrNotFound and changes nothing.
pub mark_delivered_once :
    (c d : Call) (id session session' : String) (at at' : ℕ) (t : Table)
    → Works c
    → Works d
    → (mark_delivered c id session at t).0 ≡ ok tt
    → mark_delivered d id session' at' (mark_delivered c id session at t).1
      ≡ (err not_found, (mark_delivered c id session at t).1)
mark_delivered_once c d id session session' at at' t w v h =
    elim (Option-cases (find (is_deliverable id) t)) [
      | inl e ↦ let z = ap (λ o. o.0) (mark_delivered-none c id session at t w e) in cc
      | inr (x, e) ↦ rw (mark_delivered-some c id session at t w e) (
          mark_delivered-none d id session' at'
            (update (is_deliverable id) (deliver_row session at) t) v
            (find-update_gone (is_deliverable id) (deliver_row session at)
              (deliver_row_gone id session at) t))
    ]

-- MarkDelivered leaves what Get returns for every other id, whatever its outcome.
pub get-mark_delivered_ne :
    (c d : Call) (id j session : String) (at : ℕ) (t : Table)
    → id ≢ j
    → get d j (mark_delivered c id session at t).1 ≡ get d j t
unfolding mark_delivered get
get-mark_delivered_ne c d id j session at t apart = ground (
  arith,
  select-update_ne (is_deliverable id) (has_id j) (deliver_row session at)
      (other_row id j session at apart) t,
)
