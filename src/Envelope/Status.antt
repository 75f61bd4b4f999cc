-- ===== src/Envelope/Status.antt =====
-- Status values and the transitions that CanTransition permits.
use hermes_forge_public.Prelude.{
  ◌≡◌, ◌↔◌, true, false, arith, eq_iff, ◌==◌, ok, err, inl, inr, Bool-cases,
}
use hermes_forge_public.Envelope.{
  Status, Envelope, is_terminal, known, can_transition, terminal_transition,
}
use hermes_forge_public.Envelope.Proof.{
  IsProven, keys_of_missing_key, missing_key_of_keys, values_of_empty_value, empty_value_of_values,
}

-- A terminal status is a recognised one.
pub known_of_terminal : (s : Status) → is_terminal s ≡ true → known s ≡ true
unfolding is_terminal known
known_of_terminal s h = ground arith

pub terminal-can_transition :
    (e : Envelope) (next : Status)
    → is_terminal e.status ≡ true
    → can_transition e next ≡ err terminal_transition
unfolding can_transition
terminal-can_transition e next h = ground arith

abbrev pub IsAllowed : Envelope → Status → Type 0
IsAllowed e next =
    (is_terminal e.status ≡ false)
    × (known next ≡ true)
    × (next ≡ "done" → IsProven e.proof_required e.proof)

IsAllowed-of_ok : (e : Envelope) (next : Status) → can_transition e next ≡ ok tt → IsAllowed e next
unfolding can_transition
IsAllowed-of_ok e next h = (
  ground arith,
  ground arith,
  λ d. (
    keys_of_missing_key e.proof_required e.proof (ground (arith, eq_iff next "done")),
    values_of_empty_value e.proof (ground (arith, eq_iff next "done")),
  ),
)

ok_of_IsAllowed : (e : Envelope) (next : Status) → IsAllowed e next → can_transition e next ≡ ok tt
unfolding can_transition
ok_of_IsAllowed e next h = elim (Bool-cases (next == "done")) [
  | inl d ↦
      let p = h.2 ((eq_iff next "done").0 d) in
      rw (
        h.0,
        h.1,
        d,
        missing_key_of_keys e.proof_required e.proof p.0,
        empty_value_of_values e.proof p.1,
      )
  | inr n ↦ rw (h.0, h.1, n)
]

-- CanTransition succeeds exactly from a status that is not terminal to a recognised one, and to
-- `done` only with every required key present and no empty value.
pub can_transition_iff :
    (e : Envelope) (next : Status) → (can_transition e next ≡ ok tt) ↔ IsAllowed e next
can_transition_iff e next = (IsAllowed-of_ok e next, ok_of_IsAllowed e next)

pub created-not-terminal : (s : Status) → (s == "created") ≡ true → is_terminal s ≡ false
unfolding is_terminal
created-not-terminal s h = rw ((eq_iff s "created").0 h)
