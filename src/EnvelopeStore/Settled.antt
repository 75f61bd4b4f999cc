-- ===== src/EnvelopeStore/Settled.antt =====
-- SetExecutorSessionID of hermes/internal/envelopestore/sqlite.go on a terminal envelope.
use mathlib.Core.Path.{subst}
use hermes_forge_public.Prelude.{
  String, ◌≡◌, refl, ap, ◌∙◌, inl, inr, true, false, none, some, [], ◌∷◌, arith, Bool-cases, eq_iff,
  ◌==◌, ok, err,
}
use hermes_forge_public.Sql.{find}
use hermes_forge_public.Sql.Laws.{affected-none, update-none}
use hermes_forge_public.Envelope.{Envelope, terminal_session, is_terminal}
use hermes_forge_public.EnvelopeStore.{
  Table, Call, has_id, is_open, bind_session, set_executor_session_id, get_row, no_open_row,
}
use hermes_forge_public.EnvelopeStore.Claim.{Works}
use hermes_forge_public.EnvelopeStore.Keys.{HasUniqueIds}
use hermes_forge_public.EnvelopeStore.Evolution.{open_not-terminal}

terminal-not-open :
    (id : String) (e : Envelope) → is_terminal e.status ≡ true → is_open id e ≡ false
terminal-not-open id e h = elim (Bool-cases (is_open id e)) [
  | inl p ↦ absurd (open_not-terminal id e p h)
  | inr p ↦ p
]

open-none : (id : String) (t : Table) → find (has_id id) t ≡ none → find (is_open id) t ≡ none
open-none id [] h = refl
open-none id (x ∷ t) h = elim (Bool-cases (x.id == id)) [
  | inl e ↦ ground arith
  | inr e ↦ rw e (open-none id t (rw e at h))
]

-- With unique ids a terminal envelope is no open one.
find-open_none :
    (id : String) (t : Table) (e : Envelope)
    → HasUniqueIds t
    → find (has_id id) t ≡ some e
    → is_terminal e.status ≡ true
    → find (is_open id) t ≡ none
find-open_none id [] e u h p = refl
find-open_none id (x ∷ t) e u h p = elim (Bool-cases (x.id == id)) [
  | inl q ↦
      let same : some x ≡ some e = rw q at h in
      let x_is_e : x ≡ e = cc in
      let closed = terminal-not-open id x (ap (λ y. is_terminal y.status) x_is_e ∙ p) in
      rw closed (open-none id t (subst (λ k. find (has_id k) t ≡ none) ((eq_iff x.id id).0 q) u.0))
  | inr q ↦ rw q (find-open_none id t e u.1 (rw q at h) p)
]

-- The error that names the terminal state, with the table as it was.
pub set_executor_session_id-terminal :
    (c : Call) (id session : String) (t : Table) (e : Envelope)
    → Works c
    → HasUniqueIds t
    → find (has_id id) t ≡ some e
    → is_terminal e.status ≡ true
    → set_executor_session_id c id session t ≡ (err terminal_session, t)
unfolding set_executor_session_id
set_executor_session_id-terminal c id session t e w u found p =
    let n = find-open_none id t e u found p in
    let count = affected-none (is_open id) t n in
    let kept = update-none (is_open id) (bind_session session) t n in
    let read : get_row 2 c id t ≡ ok e = rw (w 2, found) refl in
    rw (w 0, w 1)
      (rw count (
        ap (λ l. (err (no_open_row (get_row 2 c id t)), l)) kept
        ∙ ap (λ r. (err (no_open_row r), t)) read))
