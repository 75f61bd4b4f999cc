-- ===== src/NotifyStore/Chunks.antt =====
-- The chunks of a bulk acknowledgement.
use mathlib.Core.List.{append-nil}
use hermes_forge_public.Prelude.{
  ℕ, zero, suc, ◌+◌, ◌-◌, ◌≤◌, ◌<◌, ◌≡◌, refl, ap, sym, ◌∙◌, inl, inr, List, [], ◌∷◌, ◌++◌, length,
  take, arith, ltb, Bool-cases, All, if◌then◌else◌,
}
use hermes_forge_public.NotifyStore.Bulk.{drop, slice, chunks_from, chunk_int64s}

abbrev pub flatten : {A : Type 0} → List (List A) → List A
flatten [] = []
flatten (x ∷ l) = x ++ flatten l

module _ {A : Type 0} where
  length-take : (k : ℕ) (l : List A) → length (take k l) ≤ k
  length-take zero l = omega arith
  length-take (suc k) [] = omega arith
  length-take (suc k) (x ∷ l) = omega (arith, length-take k l)

  take-append-drop : (k : ℕ) (l : List A) → take k l ++ drop k l ≡ l
  take-append-drop zero l = refl
  take-append-drop (suc k) [] = refl
  take-append-drop (suc k) (x ∷ l) = rw (take-append-drop k l)

  drop-nil : (k : ℕ) → drop {A = A} k [] ≡ []
  drop-nil zero = refl
  drop-nil (suc k) = refl

  drop-drop : (j k : ℕ) (l : List A) → drop j (drop k l) ≡ drop (k + j) l
  drop-drop j zero l = ap (λ n. drop n l) (omega arith)
  drop-drop j (suc k) [] = drop-nil j ∙ sym (drop-nil (suc k + j))
  drop-drop j (suc k) (x ∷ l) =
      let exact : suc (k + j) ≡ suc k + j = omega arith in
      drop-drop j k l ∙ ap (λ n. drop n (x ∷ l)) exact

  length-drop : (k : ℕ) (l : List A) → length (drop k l) ≡ length l - k
  length-drop zero l = omega arith
  length-drop (suc k) [] = omega arith
  length-drop (suc k) (x ∷ l) = omega (arith, length-drop k l)

  drop_all : (k : ℕ) (l : List A) → length l ≤ k → drop k l ≡ []
  drop_all zero [] b = refl
  drop_all zero (x ∷ l) b = absurd (omega arith)
  drop_all (suc k) [] b = refl
  drop_all (suc k) (x ∷ l) b = drop_all k l (omega arith)

  take_all : (k : ℕ) (l : List A) → length l ≤ k → take k l ≡ l
  take_all zero [] b = refl
  take_all zero (x ∷ l) b = absurd (omega arith)
  take_all (suc k) [] b = refl
  take_all (suc k) (x ∷ l) b = rw (take_all k l (omega arith))

  -- One chunk and what comes after it.
  slice-append-drop :
      (start size : ℕ) (l : List A)
      → slice start (if ltb (length l) (start + size) then length l else start + size) l
          ++ drop (start + size) l
        ≡ drop start l
  slice-append-drop start size l = elim (Bool-cases (ltb (length l) (start + size))) [
    | inl e ↦
        let short : length l ≤ start + size = ground arith in
        rw e (
          rw (drop_all (start + size) l short) (
            append-nil (take (length l - start) (drop start l))
            ∙ take_all (length l - start) (drop start l) (omega (arith, length-drop start l))))
    | inr e ↦
        let exact : start + size - start ≡ size = omega arith in
        rw e (
          rw exact (
            ap (λ x. take size (drop start l) ++ x) (sym (drop-drop size start l))
            ∙ take-append-drop size (drop start l)))
  ]

  length-slice :
      (start size : ℕ) (l : List A)
      → length (slice start (if ltb (length l) (start + size) then length l else start + size) l)
        ≤ size
  length-slice start size l = elim (Bool-cases (ltb (length l) (start + size))) [
    | inl e ↦
        let short : length l ≤ start + size = ground arith in
        rw e (omega (arith, length-take (length l - start) (drop start l)))
    | inr e ↦ rw e (omega (arith, length-take (start + size - start) (drop start l)))
  ]

module _ (ids : List ℕ) (size : ℕ) (large : 0 < size) where
  chunks_from-flatten :
      (fuel start : ℕ)
      → length ids ≤ fuel + start
      → (flatten (chunks_from fuel start ids size) ≡ drop start ids)
        × All (λ c. length c ≤ size) (chunks_from fuel start ids size)
  unfolding chunks_from
  chunks_from-flatten zero start b = (sym (drop_all start ids (omega arith)), tt)
  chunks_from-flatten (suc fuel) start b = elim (Bool-cases (ltb start (length ids))) [
    | inl e ↦
        let (whole, small) = chunks_from-flatten fuel (start + size) (omega arith) in
        rw e (rw whole (slice-append-drop start size ids), (length-slice start size ids, small))
    | inr e ↦ rw e (sym (drop_all start ids (ground arith)), tt)
  ]

  -- The chunks put together are the ids in their order, and none is longer than the size.
  pub chunk_int64s-flatten :
      (flatten (chunk_int64s ids size) ≡ ids) × All (λ c. length c ≤ size) (chunk_int64s ids size)
  chunk_int64s-flatten = chunks_from-flatten (length ids) 0 (omega arith)
