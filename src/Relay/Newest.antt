-- ===== src/Relay/Newest.antt =====
-- The newest entries of a list, as the buffer of the relay keeps them.
use hermes_forge_public.Prelude.{
  ℕ, zero, suc, ◌-◌, ◌≤◌, ◌<◌, ◌≡◌, refl, ap, sym, ◌∙◌, inl, inr, List, [], ◌∷◌, ◌++◌, arith,
  Bool-cases, leb, length, length-append, if◌then◌else◌,
}
use hermes_forge_public.Relay.{Payload, drop_oldest}

abbrev pub skip : ℕ → List Payload → List Payload
skip zero l = l
skip (suc n) l = skip n (drop_oldest l)

-- The last n entries.
abbrev pub newest : ℕ → List Payload → List Payload
newest n l = skip (length l - n) l

skip-nil : (n : ℕ) → skip n [] ≡ []
skip-nil zero = refl
skip-nil (suc n) = skip-nil n

length-skip : (n : ℕ) (l : List Payload) → length (skip n l) ≡ length l - n
length-skip zero l = omega arith
length-skip (suc n) [] = omega (arith, ap length (skip-nil n))
length-skip (suc n) (p ∷ l) = omega (arith, length-skip n l)

skip-append :
    (n : ℕ) (l : List Payload) (p : Payload)
    → n ≤ length l
    → skip n (l ++ p ∷ []) ≡ skip n l ++ p ∷ []
skip-append zero l p h = refl
skip-append (suc n) [] p h = absurd (omega (arith, h))
skip-append (suc n) (q ∷ l) p h = skip-append n l p (omega (arith, h))

drop_oldest-skip : (n : ℕ) (l : List Payload) → drop_oldest (skip n l) ≡ skip (suc n) l
drop_oldest-skip zero l = refl
drop_oldest-skip (suc n) l = drop_oldest-skip n (drop_oldest l)

pub length-newest : (n : ℕ) (l : List Payload) → length (newest n l) ≤ n
length-newest n l = omega (arith, length-skip (length l - n) l)

-- A new entry at the end pushes out the oldest one where there are n.
pub newest-append :
    (n : ℕ) (l : List Payload) (p : Payload)
    → 0 < n
    → newest n (l ++ p ∷ [])
      ≡ (if leb n (length (newest n l)) then drop_oldest (newest n l) else newest n l) ++ p ∷ []
newest-append n l p h =
    let longer = length-append l (p ∷ []) in
    let kept = length-skip (length l - n) l in
    elim (Bool-cases (leb n (length (newest n l)))) [
      | inl e ↦
          let full : n ≤ length l = ground (arith, kept) in
          let count : length (l ++ p ∷ []) - n ≡ suc (length l - n) = omega (arith, longer, full) in
          rw e (
            ap (λ k. skip k (l ++ p ∷ [])) count
            ∙ skip-append (suc (length l - n)) l p (omega (arith, full, h))
            ∙ ap (λ r. r ++ p ∷ []) (sym (drop_oldest-skip (length l - n) l)))
      | inr e ↦
          let short : length l < n = ground (arith, kept) in
          let count : length (l ++ p ∷ []) - n ≡ length l - n = omega (arith, longer, short) in
          rw e (
            ap (λ k. skip k (l ++ p ∷ [])) count
            ∙ skip-append (length l - n) l p (omega (arith, short)))
    ]
