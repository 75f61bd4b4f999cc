-- ===== src/NotifyStore/States.antt =====
-- What the lookup of a chunk says of an id.
use mathlib.Core.Option
use mathlib.Core.Path.{subst}
use hermes_forge_public.Prelude.{
  ℕ, String, ◌≡◌, refl, ap, ◌∙◌, inl, inr, Bool, true, false, ◌&&◌, Option, none, some, List, [],
  ◌∷◌, arith, eqb, ◌==◌, Bool-cases, if◌then◌else◌,
}
use hermes_forge_public.Sql.{select, first, find}
use hermes_forge_public.Sql.Filter.{select-select, select_ext}
use hermes_forge_public.NotifyStore.{Notification}
use hermes_forge_public.NotifyStore.Bulk.{
  put, state_of, scan_ack_states, load_ack_states, has_id, is_owned,
}

abbrev pub at_id : ℕ → Notification → Bool
at_id id n = eqb n.id id

-- The PRIMARY KEY constraint.
abbrev pub HasUniqueIds : List Notification → Type 0
HasUniqueIds [] = Unit
HasUniqueIds (n ∷ rows) = (find (at_id n.id) rows ≡ none) × HasUniqueIds rows

-- The owner's row with the id.
abbrev pub owned_row : String → ℕ → List Notification → Option Notification
owned_row key id rows = find (λ n. eqb n.id id && n.api_key == key) rows

state_of-put :
    (i id : ℕ) (ack : Bool) (s : List (ℕ × Bool))
    → state_of i (put id ack s) ≡ (if eqb id i then some ack else state_of i s)
unfolding state_of put
state_of-put i id ack [] = refl
state_of-put i id ack ((x, b) ∷ s) = ground (arith, state_of-put i id ack s)

abbrev state_or : Option Bool → Option Notification → Option Bool
state_or o none = o
state_or o (some n) = some n.acknowledged

find-at_id :
    (i : ℕ) (n : Notification) (rows : List Notification)
    → n.id ≡ i
    → find (at_id n.id) rows ≡ none
    → find (at_id i) rows ≡ none
find-at_id i n rows e h = subst (λ x. find (at_id x) rows ≡ none) e h

state_of-scan :
    (i : ℕ) (rows : List Notification) (s : List (ℕ × Bool))
    → HasUniqueIds rows
    → state_of i (scan_ack_states rows s) ≡ state_or (state_of i s) (find (at_id i) rows)
unfolding scan_ack_states
state_of-scan i [] s u = refl
state_of-scan i (n ∷ rows) s u = elim (Bool-cases (eqb n.id i)) [
  | inl e ↦
      let same : n.id ≡ i = ground arith in
      rw e (
        state_of-scan i rows (put n.id n.acknowledged s) u.1
        ∙ rw (find-at_id i n rows same u.0) (rw (state_of-put i n.id n.acknowledged s) (rw e)))
  | inr e ↦ rw e (
      state_of-scan i rows (put n.id n.acknowledged s) u.1
      ∙ ap (λ o. state_or o (find (at_id i) rows))
          (rw (state_of-put i n.id n.acknowledged s) (rw e)))
]

find-select-none :
    (p q : Notification → Bool) (rows : List Notification)
    → find p rows ≡ none
    → find p (select q rows) ≡ none
find-select-none p q [] h = refl
find-select-none p q (n ∷ rows) h = elim (Bool-cases (p n)) [
  | inl e ↦ ground arith
  | inr e ↦ elim (Bool-cases (q n)) [
    | inl d ↦ rw d (rw e (find-select-none p q rows (rw e at h)))
    | inr d ↦ rw d (find-select-none p q rows (rw e at h))
  ]
]

pub select-HasUniqueIds :
    (q : Notification → Bool) (rows : List Notification)
    → HasUniqueIds rows
    → HasUniqueIds (select q rows)
select-HasUniqueIds q [] u = u
select-HasUniqueIds q (n ∷ rows) u = elim (Bool-cases (q n)) [
  | inl d ↦ rw d (find-select-none (at_id n.id) q rows u.0, select-HasUniqueIds q rows u.1)
  | inr d ↦ rw d (select-HasUniqueIds q rows u.1)
]

select_none : (rows : List Notification) → select (λ n. false) rows ≡ []
select_none [] = refl
select_none (n ∷ rows) = select_none rows

has_id_at :
    (ids : List ℕ) (i : ℕ) (n : Notification) → eqb n.id i ≡ true → has_id ids n.id ≡ has_id ids i
has_id_at ids i n e = let same : n.id ≡ i = ground arith in rw same

-- A row of the chunk's ids and the key is found just for an id of the chunk.
find-owned :
    (key : String) (ids : List ℕ) (i : ℕ) (rows : List Notification)
    → find (at_id i) (select (is_owned key ids) rows)
      ≡ (if has_id ids i then owned_row key i rows else none)
find-owned key ids i rows = elim (Bool-cases (has_id ids i)) [
  | inl e ↦ rw e (
      ap first (
        select-select (at_id i) (is_owned key ids) rows
        ∙ select_ext (λ n. at_id i n && is_owned key ids n) (λ n. eqb n.id i && n.api_key == key)
            (λ n. ground (arith, e, has_id_at ids i n)) rows))
  | inr e ↦ rw e (
      ap first (
        select-select (at_id i) (is_owned key ids) rows
        ∙ select_ext (λ n. at_id i n && is_owned key ids n) (λ n. false)
            (λ n. ground (arith, e, has_id_at ids i n)) rows
        ∙ select_none rows))
]

-- The lookup knows just the requested ids whose row has the key, with what the row says.
pub state_of-load :
    (key : String) (ids : List ℕ) (i : ℕ) (rows : List Notification)
    → HasUniqueIds rows
    → state_of i (load_ack_states key ids rows)
      ≡ (if has_id ids i then Option.map (λ n. n.acknowledged) (owned_row key i rows) else none)
unfolding load_ack_states state_of
state_of-load key ids i rows u =
    state_of-scan i (select (is_owned key ids) rows) []
      (select-HasUniqueIds (is_owned key ids) rows u)
    ∙ ap (state_or none) (find-owned key ids i rows)
    ∙ state_or-if (has_id ids i) (owned_row key i rows)
  where
    state_or-if :
        (b : Bool) (o : Option Notification)
        → state_or none (if b then o else none)
          ≡ (if b then Option.map (λ n. n.acknowledged) o else none)
    state_or-if false o = refl
    state_or-if true none = refl
    state_or-if true (some n) = refl
