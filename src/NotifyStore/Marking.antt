-- ===== src/NotifyStore/Marking.antt =====
-- Laws of the UPDATE that acknowledges a list of ids.
use hermes_forge_public.Prelude.{
  ℕ, suc, String, ◌≡◌, refl, ap, ◌∙◌, inl, inr, Bool, true, none, List, [], ◌∷◌, ◌++◌, length,
  arith, leb, eqb, Bool-cases, All, if◌then◌else◌,
}
use hermes_forge_public.Sql.{find, update, affected, insert_by}
use hermes_forge_public.NotifyStore.{Notification, mark}
use hermes_forge_public.NotifyStore.Bulk.{has_id, map_keys, is_bulk}
use hermes_forge_public.NotifyStore.States.{at_id, HasUniqueIds}
use hermes_forge_public.NotifyStore.Classify.{has_id-append}

-- Sorting the ids changes neither which they are nor how many.
has_id-insert_by :
    (x : ℕ) (ids : List ℕ) (i : ℕ) → has_id (insert_by leb x ids) i ≡ has_id (x ∷ ids) i
unfolding has_id
has_id-insert_by x [] i = refl
has_id-insert_by x (y ∷ ids) i = elim (Bool-cases (leb x y)) [
  | inl e ↦ rw e
  | inr e ↦ rw e (ground (arith, has_id-insert_by x ids i))
]

pub has_id-map_keys : (ids : List ℕ) (i : ℕ) → has_id (map_keys ids) i ≡ has_id ids i
unfolding has_id
has_id-map_keys [] i = refl
has_id-map_keys (x ∷ ids) i =
    has_id-insert_by x (map_keys ids) i ∙ ground (arith, has_id-map_keys ids i)

length-insert_by : (x : ℕ) (ids : List ℕ) → length (insert_by leb x ids) ≡ suc (length ids)
length-insert_by x [] = refl
length-insert_by x (y ∷ ids) = elim (Bool-cases (leb x y)) [
  | inl e ↦ rw e
  | inr e ↦ rw e (rw (length-insert_by x ids))
]

pub length-map_keys : (ids : List ℕ) → length (map_keys ids) ≡ length ids
length-map_keys [] = refl
length-map_keys (x ∷ ids) = length-insert_by x (map_keys ids) ∙ ap suc (length-map_keys ids)

-- Two UPDATEs whose WHERE clauses agree on the rows of the table.
pub update_ext :
    (p q : Notification → Bool) (rows : List Notification)
    → All (λ n. p n ≡ q n) rows
    → update p mark rows ≡ update q mark rows
update_ext p q [] h = refl
update_ext p q (n ∷ rows) h = rw (h.0, update_ext p q rows h.1)

pub affected_ext :
    (p q : Notification → Bool) (rows : List Notification)
    → All (λ n. p n ≡ q n) rows
    → affected p rows ≡ affected q rows
affected_ext p q [] h = refl
affected_ext p q (n ∷ rows) h = elim (Bool-cases (q n)) [
  | inl e ↦ rw h.0 (rw e (ap suc (affected_ext p q rows h.1)))
  | inr e ↦ rw h.0 (rw e (affected_ext p q rows h.1))
]

-- Two UPDATEs one after the other are one.
pub update_twice :
    (key : String) (xs ys : List ℕ) (rows : List Notification)
    → update (is_bulk key ys) mark (update (is_bulk key xs) mark rows)
      ≡ update (is_bulk key (xs ++ ys)) mark rows
update_twice key xs ys [] = refl
update_twice key xs ys (n ∷ rows) =
    rw (update_twice key xs ys rows)
      (ap (λ x. x ∷ update (is_bulk key (xs ++ ys)) mark rows) (mark_twice key xs ys n))
  where
    mark_twice :
        (key : String) (xs ys : List ℕ) (n : Notification)
        → (let m = if is_bulk key xs n then mark n else n in if is_bulk key ys m then mark m else m)
          ≡ (if is_bulk key (xs ++ ys) n then mark n else n)
    mark_twice key xs ys n = elim (Bool-cases (is_bulk key xs n)) [
      | inl e ↦
          let both : is_bulk key (xs ++ ys) n ≡ true = ground (arith, has_id-append xs ys n.id) in
          rw (e, both)
      | inr e ↦
          let same : is_bulk key (xs ++ ys) n ≡ is_bulk key ys n =
            ground (arith, has_id-append xs ys n.id) in
          rw (e, same)
    ]

pub All-update_each :
    (P Q : Notification → Type 0) (p : Notification → Bool) (rows : List Notification)
    → ((n : Notification) → P n → Q (if p n then mark n else n))
    → All P rows
    → All Q (update p mark rows)
All-update_each P Q p [] f h = h
All-update_each P Q p (n ∷ rows) f h = (f n h.0, All-update_each P Q p rows f h.1)

find-update_id :
    (i : ℕ) (p : Notification → Bool) (rows : List Notification)
    → find (at_id i) rows ≡ none
    → find (at_id i) (update p mark rows) ≡ none
find-update_id i p [] h = refl
find-update_id i p (n ∷ rows) h = elim (Bool-cases (eqb n.id i)) [
  | inl e ↦ ground arith
  | inr e ↦ elim (Bool-cases (p n)) [
    | inl d ↦ rw d (rw e (find-update_id i p rows (rw e at h)))
    | inr d ↦ rw d (rw e (find-update_id i p rows (rw e at h)))
  ]
]

pub update-HasUniqueIds :
    (p : Notification → Bool) (rows : List Notification)
    → HasUniqueIds rows
    → HasUniqueIds (update p mark rows)
update-HasUniqueIds p [] u = u
update-HasUniqueIds p (n ∷ rows) u = elim (Bool-cases (p n)) [
  | inl d ↦ rw d (find-update_id n.id p rows u.0, update-HasUniqueIds p rows u.1)
  | inr d ↦ rw d (find-update_id n.id p rows u.0, update-HasUniqueIds p rows u.1)
]
