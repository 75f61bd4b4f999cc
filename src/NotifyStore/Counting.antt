-- ===== src/NotifyStore/Counting.antt =====
-- How many rows an acknowledgement marks, and the rows of an owner.
use mathlib.Core.Path.{subst}
use hermes_forge_public.Prelude.{
  ℕ, ◌+◌, ◌≤◌, String, ◌≡◌, refl, ap, inl, inr, Bool, true, false, ◌&&◌, ◌||◌, none, some, List, [],
  ◌∷◌, ◌++◌, length, arith, eqb, ◌==◌, Bool-cases, All, eq_iff,
}
use hermes_forge_public.Sql.{find, update, affected}
use hermes_forge_public.NotifyStore.{Notification, mark}
use hermes_forge_public.NotifyStore.Bulk.{has_id, is_bulk}
use hermes_forge_public.NotifyStore.States.{at_id, HasUniqueIds, owned_row}
use hermes_forge_public.NotifyStore.Classify.{has_id-append}

find-none-All :
    (p : Notification → Bool) (rows : List Notification)
    → find p rows ≡ none
    → All (λ n. p n ≡ false) rows
find-none-All p [] h = tt
find-none-All p (n ∷ rows) h = elim (Bool-cases (p n)) [
  | inl e ↦ ground arith
  | inr e ↦ (e, find-none-All p rows (rw e at h))
]

pub All-both :
    {P Q R : Notification → Type 0} (rows : List Notification)
    → ((n : Notification) → P n → Q n → R n)
    → All P rows
    → All Q rows
    → All R rows
All-both [] f p q = tt
All-both (n ∷ rows) f p q = (f n p.0 q.0, All-both rows f p.1 q.1)

affected_none :
    (p : Notification → Bool) (rows : List Notification)
    → All (λ n. p n ≡ false) rows
    → affected p rows ≡ 0
affected_none p [] h = refl
affected_none p (n ∷ rows) h = rw h.0 (affected_none p rows h.1)

affected_or :
    (p q r : Notification → Bool) (rows : List Notification)
    → ((n : Notification) → p n ≡ true → (q n || r n) ≡ true)
    → affected p rows ≤ affected q rows + affected r rows
affected_or p q r [] f = omega arith
affected_or p q r (n ∷ rows) f =
    let k = f n in
    let more = affected_or p q r rows f in
    elim (Bool-cases (p n)) [
      | inl e ↦ elim (Bool-cases (q n)) [
        | inl d ↦ elim (Bool-cases (r n)) [
          | inl c ↦ rw (e, d, c) (omega arith)
          | inr c ↦ rw (e, d, c) (omega arith)
        ]
        | inr d ↦ let c : r n ≡ true = ground arith in rw (e, d, c) (omega arith)
      ]
      | inr e ↦ elim (Bool-cases (q n)) [
        | inl d ↦ elim (Bool-cases (r n)) [
          | inl c ↦ rw (e, d, c) (omega arith)
          | inr c ↦ rw (e, d, c) (omega arith)
        ]
        | inr d ↦ elim (Bool-cases (r n)) [
          | inl c ↦ rw (e, d, c) (omega arith)
          | inr c ↦ rw (e, d, c) (omega arith)
        ]
      ]
    ]

affected_one : (i : ℕ) (rows : List Notification) → HasUniqueIds rows → affected (at_id i) rows ≤ 1
affected_one i [] u = omega arith
affected_one i (n ∷ rows) u = elim (Bool-cases (eqb n.id i)) [
  | inl e ↦
      let same : n.id ≡ i = ground arith in
      let zero_more =
        affected_none (at_id i) rows
          (find-none-All (at_id i) rows (subst (λ x. find (at_id x) rows ≡ none) same u.0)) in
      rw e (omega arith)
  | inr e ↦ rw e (affected_one i rows u.1)
]

-- Of rows with distinct ids, no more are marked than ids are listed.
pub affected-is_bulk :
    (key : String) (ids : List ℕ) (rows : List Notification)
    → HasUniqueIds rows
    → affected (is_bulk key ids) rows ≤ length ids
unfolding has_id
affected-is_bulk key [] rows u = omega (
  arith,
  affected_or (is_bulk key []) (λ n. false) (λ n. false) rows (λ n h. ground arith),
  affected_none (λ n. false) rows (all_false rows),
)
  where
    all_false : (rows : List Notification) → All (λ n. ◌≡◌ {A = Bool} false false) rows
    all_false [] = tt
    all_false (n ∷ rows) = (refl, all_false rows)
affected-is_bulk key (i ∷ ids) rows u = omega (
  arith,
  affected_or (is_bulk key (i ∷ ids)) (at_id i) (is_bulk key ids) rows (λ n h. ground arith),
  affected_one i rows u,
  affected-is_bulk key ids rows u,
)

-- The owner's row with a row's id is the row.
pub owned_row_self :
    (key : String) (rows : List Notification)
    → HasUniqueIds rows
    → All (λ n. n.api_key ≡ key → owned_row key n.id rows ≡ some n) rows
owned_row_self key [] u = tt
owned_row_self key (n ∷ rows) u = (
  λ own.
      let a : (eqb n.id n.id && n.api_key == key) ≡ true = ground (arith, eq_iff n.api_key key) in
      rw a,
  All-both rows
      (λ m apart self own.
        let a : (eqb n.id m.id && n.api_key == key) ≡ false = ground arith in rw a (self own))
      (find-none-All (at_id n.id) rows u.0) (owned_row_self key rows u.1),
)

pub update_no_ids :
    (key : String) (rows : List Notification) → update (is_bulk key []) mark rows ≡ rows
unfolding has_id
update_no_ids key [] = refl
update_no_ids key (n ∷ rows) =
    let none_listed : is_bulk key [] n ≡ false = ground arith in
    rw none_listed (ap (λ l. n ∷ l) (update_no_ids key rows))

-- The rows that two UPDATEs mark are those that the one for both lists marks.
pub affected_twice :
    (key : String) (xs ys : List ℕ) (rows : List Notification)
    → affected (is_bulk key xs) rows + affected (is_bulk key ys) (update (is_bulk key xs) mark rows)
      ≡ affected (is_bulk key (xs ++ ys)) rows
affected_twice key xs ys [] = refl
affected_twice key xs ys (n ∷ rows) = elim (Bool-cases (is_bulk key xs n)) [
  | inl e ↦
      let both : is_bulk key (xs ++ ys) n ≡ true = ground (arith, has_id-append xs ys n.id) in
      rw (e, both) (omega (arith, affected_twice key xs ys rows))
  | inr e ↦
      let same : is_bulk key (xs ++ ys) n ≡ is_bulk key ys n =
        ground (arith, has_id-append xs ys n.id) in
      elim (Bool-cases (is_bulk key ys n)) [
        | inl d ↦ rw (e, same, d) (omega (arith, affected_twice key xs ys rows))
        | inr d ↦ rw (e, same, d) (affected_twice key xs ys rows)
      ]
]
