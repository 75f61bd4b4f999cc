-- ===== src/EnvelopeStore/Pending.antt =====
-- How many envelopes wait, and that the one that NextCreated hands out can be claimed.
use mathlib.Core.List.{Mem, mem-cons, not-mem-nil}
use mathlib.Core.Logic.Or
use mathlib.Core.HLevel.{⊥_prop}
use hermes_forge_public.Prelude.{
  ℕ, ◌<◌, String, ◌≡◌, refl, ap, inl, inr, true, false, none, arith, ok, err, [], ◌∷◌, Bool-cases,
  Option-cases, eq_iff,
}
use hermes_forge_public.Sql.{affected, find}
use hermes_forge_public.Sql.Laws.{affected-update, find_cons_none}
use hermes_forge_public.Envelope.{Envelope, Error, not_found}
use hermes_forge_public.EnvelopeStore.{
  Table, Call, mark_delivered, is_created, is_deliverable, deliver_row, next_created,
}
use hermes_forge_public.EnvelopeStore.Claim.{Works, mark_delivered-some}
use hermes_forge_public.EnvelopeStore.Queue.{waiting, next_created-IsOldest, next_created-total}

abbrev pub pending : Table → ℕ
pending t = affected is_created t

deliver_row_leaves :
    (id session : String) (at : ℕ) (x : Envelope)
    → is_deliverable id x ≡ true
    → (is_created x ≡ true) × (is_created (deliver_row session at x) ≡ false)
deliver_row_leaves id session at x h = (ground arith, refl)

pub mark_delivered-lowers :
    (c : Call) (id session : String) (at : ℕ) (t : Table)
    → (mark_delivered c id session at t).0 ≡ ok tt
    → pending (mark_delivered c id session at t).1 < pending t
unfolding mark_delivered
mark_delivered-lowers c id session at t h = ground (
  arith,
  affected-update (is_deliverable id) is_created (deliver_row session at)
      (deliver_row_leaves id session at) t,
)

-- A created row can be found by its id.
find-waiting :
    (t : Table) (e : Envelope) → find (is_deliverable e.id) t ≡ none → Mem e (waiting t) → ⊥
find-waiting [] e h m = not-mem-nil m
find-waiting (x ∷ t) e h m =
    let (n, r) = find_cons_none (is_deliverable e.id) x t h in
    elim (Bool-cases (is_created x)) [
      | inl c ↦
          Or.elim ⊥_prop (mem-cons.0 (rw c at m))
            (λ same. absurd (ground (arith, ap (λ (y : Envelope). y.id) same, eq_iff x.id e.id)))
            (find-waiting t e r)
      | inr c ↦ find-waiting t e r (rw c at m)
    ]

pub next_created_markable :
    (c d : Call) (session : String) (at : ℕ) (t : Table) (e : Envelope)
    → Works d
    → next_created c t ≡ ok e
    → (mark_delivered d e.id session at t).0 ≡ ok tt
next_created_markable c d session at t e w h = elim (Option-cases (find (is_deliverable e.id) t)) [
  | inl n ↦ absurd (find-waiting t e n (next_created-IsOldest c t e h).is_waiting)
  | inr (x, f) ↦ ap (λ o. o.0) (mark_delivered-some d e.id session at t w f)
]

pub next_created_exhausted :
    (c : Call) (t : Table) (x : Error)
    → Works c
    → next_created c t ≡ err x
    → (x ≡ not_found) × (pending t ≡ 0)
next_created_exhausted c t x w h = elim (next_created-total c t w) [
  | inl (none_waiting, e) ↦ (cc, rw none_waiting)
  | inr (e, f, o) ↦ cc
]
