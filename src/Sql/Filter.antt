-- ===== src/Sql/Filter.antt =====
-- WHERE and ORDER BY exchange: the chosen rows of a sorted table are the chosen rows, sorted.
use hermes_forge_public.Prelude.{
  ◌≡◌, refl, ap, inl, inr, Bool, true, false, List, [], ◌∷◌, ◌&&◌, Bool-cases, All, sym, ◌∙◌,
}
use hermes_forge_public.Sql.{insert_by, order_by, select}
use hermes_forge_public.Sql.Order.{IsOrdered, order_by-IsOrdered}

module _ {A : Type 0} where
  pub select_ext : (p q : A → Bool) → ((x : A) → p x ≡ q x) → (t : List A) → select p t ≡ select q t
  select_ext p q e [] = refl
  select_ext p q e (x ∷ t) = rw (e x) (rw (select_ext p q e t))

  pub select-select :
      (p q : A → Bool) (t : List A) → select p (select q t) ≡ select (λ x. p x && q x) t
  select-select p q [] = refl
  select-select p q (x ∷ t) = elim (Bool-cases (q x)) [
    | inl e ↦ elim (Bool-cases (p x)) [
      | inl f ↦ rw (e, f) (rw (select-select p q t))
      | inr f ↦ rw (e, f) (select-select p q t)
    ]
    | inr e ↦ elim (Bool-cases (p x)) [
      | inl f ↦ rw (e, f) (select-select p q t)
      | inr f ↦ rw (e, f) (select-select p q t)
    ]
  ]

  pub All-select : (P : A → Type 0) (q : A → Bool) (t : List A) → All P t → All P (select q t)
  All-select P q [] h = tt
  All-select P q (x ∷ t) h = elim (Bool-cases (q x)) [
    | inl e ↦ rw e (h.0, All-select P q t h.1)
    | inr e ↦ rw e (All-select P q t h.1)
  ]

module _ {A : Type 0} (q : A → Bool) (le le' : A → A → Bool)
    (trans : (x y z : A) → le x y ≡ true → le y z ≡ true → le x z ≡ true)
    (agree : (x y : A) → q x ≡ true → q y ≡ true → le x y ≡ le' x y) where
  -- A row that comes before all others is put first.
  insert_first :
      (x : A) (t : List A)
      → q x ≡ true
      → All (λ y. le x y ≡ true) t
      → insert_by le' x (select q t) ≡ x ∷ select q t
  insert_first x [] c h = refl
  insert_first x (y ∷ t) c h = elim (Bool-cases (q y)) [
    | inl e ↦ rw e (rw (← agree x y c e) (rw h.0))
    | inr e ↦ rw e (insert_first x t c h.1)
  ]

  All-later :
      (x y : A) (t : List A)
      → le x y ≡ true
      → All (λ z. le y z ≡ true) t
      → All (λ z. le x z ≡ true) t
  All-later x y [] e h = tt
  All-later x y (z ∷ t) e h = (trans x y z e h.0, All-later x y t e h.1)

  select-insert_by :
      (x : A) (t : List A)
      → q x ≡ true
      → IsOrdered le t
      → select q (insert_by le x t) ≡ insert_by le' x (select q t)
  select-insert_by x [] c h = rw c
  select-insert_by x (y ∷ t) c h = elim (Bool-cases (le x y)) [
    | inl e ↦ rw e (rw c (sym (insert_first x (y ∷ t) c (e, All-later x y t e h.0))))
    | inr e ↦ elim (Bool-cases (q y)) [
      | inl d ↦ rw e (rw d (rw (← agree x y c d) (rw e (rw (select-insert_by x t c h.1)))))
      | inr d ↦ rw e (rw d (select-insert_by x t c h.1))
    ]
  ]

  select-insert_by_other :
      (x : A) (t : List A) → q x ≡ false → select q (insert_by le x t) ≡ select q t
  select-insert_by_other x [] c = rw c
  select-insert_by_other x (y ∷ t) c = elim (Bool-cases (le x y)) [
    | inl e ↦ rw e (rw c)
    | inr e ↦ rw e (rw (select-insert_by_other x t c))
  ]

  pub select-order_by :
      (total : (x y : A) → le x y ≡ false → le y x ≡ true) (t : List A)
      → select q (order_by le t) ≡ order_by le' (select q t)
  select-order_by total [] = refl
  select-order_by total (x ∷ t) = elim (Bool-cases (q x)) [
    | inl e ↦ rw e (
        select-insert_by x (order_by le t) e (order_by-IsOrdered le total trans t)
        ∙ ap (insert_by le' x) (select-order_by total t))
    | inr e ↦ rw e (select-insert_by_other x (order_by le t) e ∙ select-order_by total t)
  ]
