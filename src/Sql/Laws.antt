-- ===== src/Sql/Laws.antt =====
-- Laws of the table operations.
use mathlib.Core.Option
use mathlib.Core.Path.{subst}
use hermes_forge_public.Prelude.{
  ◌+◌, ◌<◌, ◌≡◌, refl, inl, inr, Bool, true, false, none, some, List, [], ◌∷◌, ◌++◌, arith,
  Bool-cases, All,
}
use hermes_forge_public.Sql.{select, first, find, update, affected}

module _ {ℓ} {A : Type ℓ} where
  pub find-true : (p : A → Bool) (t : List A) {x : A} → find p t ≡ some x → p x ≡ true
  find-true p [] h = cc
  find-true p (y ∷ t) h = elim (Bool-cases (p y)) [
    | inl e ↦ ground arith
    | inr e ↦ find-true p t (rw e at h)
  ]

  -- No row of a list is found just when none is at its head and none in its tail.
  pub find_cons_none :
      (p : A → Bool) (y : A) (t : List A)
      → find p (y ∷ t) ≡ none
      → (p y ≡ false) × (find p t ≡ none)
  find_cons_none p y t h = elim (Bool-cases (p y)) [ inl e ↦ ground arith | inr e ↦ (e, rw e at h) ]

  pub affected-find : (p : A → Bool) (t : List A) {x : A} → find p t ≡ some x → 0 < affected p t
  affected-find p [] h = cc
  affected-find p (y ∷ t) h = elim (Bool-cases (p y)) [
    | inl e ↦ rw e (omega arith)
    | inr e ↦ rw e (affected-find p t (rw e at h))
  ]

  pub affected-none : (p : A → Bool) (t : List A) → find p t ≡ none → affected p t ≡ 0
  affected-none p [] h = refl
  affected-none p (y ∷ t) h = elim (Bool-cases (p y)) [
    | inl e ↦ ground arith
    | inr e ↦ rw e (affected-none p t (rw e at h))
  ]

  pub update-none : (p : A → Bool) (f : A → A) (t : List A) → find p t ≡ none → update p f t ≡ t
  update-none p f [] h = refl
  update-none p f (y ∷ t) h = elim (Bool-cases (p y)) [
    | inl e ↦ ground arith
    | inr e ↦ rw e (rw (update-none p f t (rw e at h)))
  ]

  -- The rows that an UPDATE writes are those that its WHERE clause chose.
  pub find-update_self :
      (p : A → Bool) (f : A → A)
      → ((x : A) → p x ≡ true → p (f x) ≡ true)
      → (t : List A) → find p (update p f t) ≡ Option.map f (find p t)
  find-update_self p f keep [] = refl
  find-update_self p f keep (y ∷ t) = elim (Bool-cases (p y)) [
    | inl e ↦ rw e (rw (keep y e))
    | inr e ↦ rw e (rw e (find-update_self p f keep t))
  ]

  pub select-update_ne :
      (p q : A → Bool) (f : A → A)
      → ((x : A) → p x ≡ true → (q x ≡ false) × (q (f x) ≡ false))
      → (t : List A) → select q (update p f t) ≡ select q t
  select-update_ne p q f apart [] = refl
  select-update_ne p q f apart (y ∷ t) = elim (Bool-cases (p y)) [
    | inl e ↦ rw e (rw ((apart y e).1, (apart y e).0) (select-update_ne p q f apart t))
    | inr e ↦ rw e (rw (select-update_ne p q f apart t))
  ]

  -- An UPDATE that moves its rows out of a wider set makes that set smaller by as many rows.
  pub affected-update :
      (p q : A → Bool) (f : A → A)
      → ((x : A) → p x ≡ true → (q x ≡ true) × (q (f x) ≡ false))
      → (t : List A) → affected q (update p f t) + affected p t ≡ affected q t
  affected-update p q f leaves [] = refl
  affected-update p q f leaves (y ∷ t) = elim (Bool-cases (p y)) [
    | inl e ↦
        rw e (rw ((leaves y e).1, (leaves y e).0) (omega (arith, affected-update p q f leaves t)))
    | inr e ↦ elim (Bool-cases (q y)) [
      | inl d ↦ rw e (rw d (omega (arith, affected-update p q f leaves t)))
      | inr d ↦ rw e (rw d (affected-update p q f leaves t))
    ]
  ]

  pub select-append : (p : A → Bool) (s t : List A) → select p (s ++ t) ≡ select p s ++ select p t
  select-append p [] t = refl
  select-append p (x ∷ s) t = elim (Bool-cases (p x)) [
    | inl e ↦ rw e (rw (select-append p s t))
    | inr e ↦ rw e (select-append p s t)
  ]

  pub first-append : (s t : List A) {x : A} → first s ≡ some x → first (s ++ t) ≡ some x
  first-append [] t h = cc
  first-append (y ∷ s) t h = h

module _ {ℓ κ} {A : Type ℓ} where
  pub All-update :
      (P : A → Type κ) (p : A → Bool) (f : A → A)
      → ((x : A) → p x ≡ true → P x → P (f x))
      → (t : List A) → All P t
      → All P (update p f t)
  All-update P p f keep [] h = h
  All-update P p f keep (x ∷ t) h = elim (Bool-cases (p x)) [
    | inl e ↦ rw e (keep x e h.0, All-update P p f keep t h.1)
    | inr e ↦ rw e (h.0, All-update P p f keep t h.1)
  ]

  pub All-find :
      (P : A → Type κ) (p : A → Bool) (t : List A) {x : A} → All P t → find p t ≡ some x → P x
  All-find P p [] {x} h e = cc
  All-find P p (y ∷ t) {x} h e = elim (Bool-cases (p y)) [
    | inl q ↦ let z : some y ≡ some x = rw q at e in subst P {x = y} {y = x} (cc) h.0
    | inr q ↦ All-find P p t h.1 (rw q at e)
  ]
