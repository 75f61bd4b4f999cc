-- ===== src/Sql/Order.antt =====
-- ORDER BY returns the same rows, each at or after its predecessor.
use mathlib.Core.List.{Perm}
use mathlib.Core.List.Perm
use hermes_forge_public.Prelude.{
  refl, some, ◌≡◌, inl, inr, Bool, true, false, List, [], ◌∷◌, Bool-cases, All,
}
use hermes_forge_public.Sql.{first, insert_by, order_by}

-- Every row of the list comes at or before each later one.
abbrev pub IsOrdered : {A : Type 0} → (A → A → Bool) → List A → Type 0
IsOrdered le [] = Unit
IsOrdered le (x ∷ t) = All (λ y. le x y ≡ true) t × IsOrdered le t

module _ {A : Type 0} (le : A → A → Bool) where
  pub first-order_by : (x : A) (t : List A) → (y : A) × (first (order_by le (x ∷ t)) ≡ some y)
  first-order_by x t = first-insert_by (order_by le t)
    where
      first-insert_by : (s : List A) → (y : A) × (first (insert_by le x s) ≡ some y)
      first-insert_by [] = (x, refl)
      first-insert_by (y ∷ s) = elim (Bool-cases (le x y)) [ inl e ↦ (x, rw e) | inr e ↦ (y, rw e) ]

  insert_by-perm : (x : A) (t : List A) → Perm (insert_by le x t) (x ∷ t)
  insert_by-perm x [] = Perm.refl (x ∷ [])
  insert_by-perm x (y ∷ t) = elim (Bool-cases (le x y)) [
    | inl e ↦ rw e (Perm.refl (x ∷ y ∷ t))
    | inr e ↦ rw e (Perm.trans (Perm.cons y (insert_by-perm x t)) (Perm.swap x y t))
  ]

  pub order_by-perm : (t : List A) → Perm (order_by le t) t
  order_by-perm [] = Perm.refl []
  order_by-perm (x ∷ t) =
      Perm.trans (insert_by-perm x (order_by le t)) (Perm.cons x (order_by-perm t))

  All-insert_by : (P : A → Type 0) (x : A) (t : List A) → P x → All P t → All P (insert_by le x t)
  All-insert_by P x [] h ht = (h, tt)
  All-insert_by P x (y ∷ t) h ht = elim (Bool-cases (le x y)) [
    | inl e ↦ rw e (h, (ht.0, ht.1))
    | inr e ↦ rw e (ht.0, All-insert_by P x t h ht.1)
  ]

  pub All-order_by : (P : A → Type 0) (t : List A) → All P t → All P (order_by le t)
  All-order_by P [] h = h
  All-order_by P (x ∷ t) h = All-insert_by P x (order_by le t) h.0 (All-order_by P t h.1)

  All-of-insert_by :
      (P : A → Type 0) (x : A) (t : List A) → All P (insert_by le x t) → P x × All P t
  All-of-insert_by P x [] h = h
  All-of-insert_by P x (y ∷ t) h = elim (Bool-cases (le x y)) [
    | inl e ↦ rw e at h
    | inr e ↦
        let k : All P (y ∷ insert_by le x t) = rw e at h in
        let r = All-of-insert_by P x t k.1 in (r.0, (k.0, r.1))
  ]

  pub All-of-order_by : (P : A → Type 0) (t : List A) → All P (order_by le t) → All P t
  All-of-order_by P [] h = h
  All-of-order_by P (x ∷ t) h =
      let r = All-of-insert_by P x (order_by le t) h in (r.0, All-of-order_by P t r.1)

  module _ (total : (x y : A) → le x y ≡ false → le y x ≡ true)
      (trans : (x y z : A) → le x y ≡ true → le y z ≡ true → le x z ≡ true) where
    All-le :
        (x y : A) (t : List A)
        → le x y ≡ true
        → All (λ z. le y z ≡ true) t
        → All (λ z. le x z ≡ true) t
    All-le x y [] e h = tt
    All-le x y (z ∷ t) e h = (trans x y z e h.0, All-le x y t e h.1)

    insert_by-IsOrdered : (x : A) (t : List A) → IsOrdered le t → IsOrdered le (insert_by le x t)
    insert_by-IsOrdered x [] h = (tt, tt)
    insert_by-IsOrdered x (y ∷ t) h = elim (Bool-cases (le x y)) [
      | inl e ↦ rw e ((e, All-le x y t e h.0), h)
      | inr e ↦
          rw e
            (All-insert_by (λ z. le y z ≡ true) x t (total x y e) h.0, insert_by-IsOrdered x t h.1)
    ]

    pub order_by-IsOrdered : (t : List A) → IsOrdered le (order_by le t)
    order_by-IsOrdered [] = tt
    order_by-IsOrdered (x ∷ t) = insert_by-IsOrdered x (order_by le t) (order_by-IsOrdered t)
