-- ===== src/Forge/Rows.antt =====
-- What the operations of the session register leave for an envelope.
use hermes_forge_public.Prelude.{
  ℕ, ◌≤◌, String, ◌≡◌, refl, ap, sym, ◌∙◌, inl, inr, false, some, List, [], ◌∷◌, ◌++◌, arith,
  length, eqb, Bool-cases, Option-cases, List-cases, map, ok, err,
}
use hermes_forge_public.Sql.{select, first, find, update, affected, order_by}
use hermes_forge_public.Sql.Order.{first-order_by}
use hermes_forge_public.Forge.{
  Session, Call, not_found, get_by_envelope, insert, update_session_id, has_envelope,
  has_session_id, later_started, rename, query, exec, rows_affected, clashes,
}

-- No envelope has two rows.
abbrev pub HasOneRow : List Session → Type 0
HasOneRow rows = (id : String) → affected (has_envelope id) rows ≤ 1

only_row :
    (l : List Session) (s : Session)
    → length l ≤ 1
    → first (order_by later_started l) ≡ some s
    → l ≡ s ∷ []
only_row [] s b h = cc
only_row (x ∷ []) s b h = let z : x ≡ s = cc in ap (λ y. y ∷ []) z
only_row (x ∷ y ∷ l) s b h = absurd (omega arith)

-- What the lookup by envelope says of the rows.
pub get-row :
    (c : Call) (id : String) (rows : List Session) (s : Session)
    → HasOneRow rows
    → get_by_envelope c id rows ≡ ok s
    → select (has_envelope id) rows ≡ s ∷ []
unfolding get_by_envelope
get-row c id rows s one h = elim (Bool-cases (c.fails query)) [
  | inl e ↦ let z = rw e at h in cc
  | inr e ↦ elim (Option-cases (first (order_by later_started (select (has_envelope id) rows)))) [
    | inl f ↦ let z = rw (e, f) at h in cc
    | inr (x, f) ↦
        let z = rw (e, f) at h in
        let same : x ≡ s = cc in
        only_row (select (has_envelope id) rows) s (one id) (f ∙ ap some same)
  ]
]

pub get-none :
    (c : Call) (id : String) (rows : List Session)
    → get_by_envelope c id rows ≡ err not_found
    → select (has_envelope id) rows ≡ []
unfolding get_by_envelope
get-none c id rows h = elim (Bool-cases (c.fails query)) [
  | inl e ↦ let z = rw e at h in cc
  | inr e ↦ elim (List-cases (select (has_envelope id) rows)) [
    | inl f ↦ f
    | inr (x, rest, f) ↦
        let (y, g) = first-order_by later_started x rest in
        let k : get_by_envelope c id rows ≡ ok y = rw (e, f) (rw g refl) in let z = sym k ∙ h in cc
  ]
]

pub get-found :
    (d : Call) (id : String) (rows : List Session) (s : Session)
    → d.fails query ≡ false
    → select (has_envelope id) rows ≡ s ∷ []
    → get_by_envelope d id rows ≡ ok s
unfolding get_by_envelope
get-found d id rows s w h = rw (w, h) refl

pub insert-ok :
    (c : Call) (s : Session) (rows rows' : List Session)
    → insert c s rows ≡ (ok tt, rows')
    → rows' ≡ rows ++ s ∷ []
unfolding insert
insert-ok c s rows rows' h = elim (Bool-cases (c.fails exec)) [
  | inl e ↦ let z = ap (λ o. o.0) (rw e at h) in cc
  | inr e ↦ elim (Option-cases (find (has_session_id s.session_id) rows)) [
    | inr (x, f) ↦ let z = ap (λ o. o.0) (rw (e, f) at h) in cc
    | inl f ↦ sym (ap (λ o. o.1) (rw (e, f) at h))
  ]
]

pub update-ok :
    (c : Call) (id new : String) (rows rows' : List Session)
    → update_session_id c id new rows ≡ (ok tt, rows')
    → rows' ≡ update (has_envelope id) (rename new c.now) rows
unfolding update_session_id
update-ok c id new rows rows' h = elim (Bool-cases (c.fails exec)) [
  | inl e ↦ let z = ap (λ o. o.0) (rw e at h) in cc
  | inr e ↦ elim (Bool-cases (clashes id new rows)) [
    | inl f ↦ let z = ap (λ o. o.0) (rw (e, f) at h) in cc
    | inr f ↦ elim (Bool-cases (c.fails rows_affected)) [
      | inl g ↦ let z = ap (λ o. o.0) (rw (e, f, g) at h) in cc
      | inr g ↦ elim (Bool-cases (eqb (affected (has_envelope id) rows) 0)) [
        | inl k ↦ let z = ap (λ o. o.0) (rw (e, f, g, k) at h) in cc
        | inr k ↦ sym (ap (λ o. o.1) (rw (e, f, g, k) at h))
      ]
    ]
  ]
]

pub select-rename :
    (id new : String) (now : ℕ) (rows : List Session)
    → select (has_envelope id) (update (has_envelope id) (rename new now) rows)
      ≡ map (rename new now) (select (has_envelope id) rows)
select-rename id new now [] = refl
select-rename id new now (s ∷ rows) = elim (Bool-cases (has_envelope id s)) [
  | inl e ↦ rw e (rw e (ap (λ l. rename new now s ∷ l) (select-rename id new now rows)))
  | inr e ↦ rw e (rw e (select-rename id new now rows))
]
