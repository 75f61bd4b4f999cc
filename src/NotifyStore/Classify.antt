-- ===== src/NotifyStore/Classify.antt =====
-- What the classification of a chunk collects and counts.
use hermes_forge_public.Prelude.{
  ℕ, ◌+◌, ◌≡◌, ◌⊎◌, refl, ap, ◌∙◌, inl, inr, Bool, true, false, not, ◌&&◌, ◌||◌, Option, none, some,
  List, [], ◌∷◌, ◌++◌, length, length-append, arith, eqb, Bool-cases, Option-cases, if◌then◌else◌,
}
use hermes_forge_public.Sql.{select}
use hermes_forge_public.NotifyStore.Bulk.{
  state_of, has_id, add_id, Classified, classify_id, classify_bulk_ack,
}

pub has_id-append : (xs ys : List ℕ) (i : ℕ) → has_id (xs ++ ys) i ≡ (has_id xs i || has_id ys i)
unfolding has_id
has_id-append [] ys i = refl
has_id-append (x ∷ xs) ys i = ground (arith, has_id-append xs ys i)

has_id_at_seen : (seen : List ℕ) (x i : ℕ) → eqb x i ≡ true → has_id seen x ≡ has_id seen i
has_id_at_seen seen x i e = let same : x ≡ i = ground arith in rw same

has_id-add_id : (ids : List ℕ) (id i : ℕ) → has_id (add_id ids id) i ≡ (has_id ids i || eqb id i)
unfolding has_id
has_id-add_id ids id i = elim (Bool-cases (has_id ids id)) [
  | inl e ↦ elim (Bool-cases (eqb id i)) [
    | inl d ↦ rw e (rw d (ground (arith, has_id_at_seen ids id i d)))
    | inr d ↦ rw e (rw d (ground arith))
  ]
  | inr e ↦ rw e (has_id-append ids (id ∷ []) i ∙ ground arith)
]

-- A row that is there and not acknowledged.
abbrev pub is_new : Option Bool → Bool
is_new none = false
is_new (some ack) = not ack

abbrev pub is_missing : Option Bool → Bool
is_missing none = true
is_missing (some ack) = false

module _ (states : List (ℕ × Bool)) where
  classify_id-cases :
      (x : ℕ) (s : Classified)
      → ((is_new (state_of x states) ≡ true)
          × (has_id s.seen_to_ack x ≡ false)
          × (classify_id states x s
              ≡ record s { to_ack = add_id s.to_ack x; seen_to_ack = add_id s.seen_to_ack x }))
        ⊎ (((is_new (state_of x states) && not (has_id s.seen_to_ack x)) ≡ false)
            × ((classify_id states x s).to_ack ≡ s.to_ack)
            × ((classify_id states x s).seen_to_ack ≡ s.seen_to_ack))
  unfolding classify_id
  classify_id-cases x s = elim (Option-cases (state_of x states)) [
    | inl e ↦ inr (rw e, rw (e, classify_id), rw (e, classify_id))
    | inr (true, e) ↦ inr (rw e, rw (e, classify_id), rw (e, classify_id))
    | inr (false, e) ↦ elim (Bool-cases (has_id s.seen_to_ack x)) [
      | inl d ↦ inr (rw (e, d), rw (e, classify_id) (rw d), rw (e, classify_id) (rw d))
      | inr d ↦ inl (rw e, d, rw (e, classify_id) (rw d))
    ]
  ]

  new_at : (x i : ℕ) → eqb x i ≡ true → is_new (state_of x states) ≡ is_new (state_of i states)
  new_at x i e = let same : x ≡ i = ground arith in rw same

  step-to_ack :
      (x : ℕ) (s : Classified) (i : ℕ)
      → has_id (classify_id states x s).to_ack i ≡ (
          has_id s.to_ack i
          || eqb x i && is_new (state_of i states) && not (has_id s.seen_to_ack i))
  step-to_ack x s i = elim (classify_id-cases x s) [
    | inl (new, unseen, e) ↦
        ap (λ c. has_id c.to_ack i) e ∙ has_id-add_id s.to_ack x i ∙ elim (Bool-cases (eqb x i)) [
          | inl d ↦ rw (d, ← new_at x i d, new, ← has_id_at_seen s.seen_to_ack x i d, unseen) refl
          | inr d ↦ rw d
        ]
    | inr (old, t, u) ↦ ap (λ l. has_id l i) t ∙ elim (Bool-cases (eqb x i)) [
      | inl d ↦ rw (d, ← new_at x i d, ← has_id_at_seen s.seen_to_ack x i d) (rw old (ground arith))
      | inr d ↦ rw d (ground arith)
    ]
  ]

  step-seen_to_ack :
      (x : ℕ) (s : Classified) (i : ℕ)
      → has_id (classify_id states x s).seen_to_ack i
        ≡ (has_id s.seen_to_ack i || eqb x i && is_new (state_of i states))
  step-seen_to_ack x s i = elim (classify_id-cases x s) [
    | inl (new, unseen, e) ↦
        ap (λ c. has_id c.seen_to_ack i) e
        ∙ has_id-add_id s.seen_to_ack x i
        ∙ elim (Bool-cases (eqb x i)) [ inl d ↦ rw (d, ← new_at x i d, new) refl | inr d ↦ rw d ]
    | inr (old, t, u) ↦ ap (λ l. has_id l i) u ∙ elim (Bool-cases (eqb x i)) [
      | inl d ↦
          let n = new_at x i d in let k = has_id_at_seen s.seen_to_ack x i d in rw d (ground arith)
      | inr d ↦ rw d (ground arith)
    ]
  ]

  -- An id is collected when its row is new and it was not seen before.
  pub has_id-to_ack :
      (ids : List ℕ) (s : Classified) (i : ℕ)
      → has_id (classify_bulk_ack states ids s).to_ack i ≡ (
          has_id s.to_ack i
          || has_id ids i && is_new (state_of i states) && not (has_id s.seen_to_ack i))
  unfolding classify_bulk_ack has_id
  has_id-to_ack [] s i = ground arith
  has_id-to_ack (x ∷ ids) s i =
      has_id-to_ack ids (classify_id states x s) i
      ∙ rw (step-to_ack x s i, step-seen_to_ack x s i)
          (bools (has_id s.to_ack i) (eqb x i) (is_new (state_of i states)) (has_id s.seen_to_ack i)
            (has_id ids i))
    where
      bools :
          (t e n k r : Bool)
          → ((t || e && n && not k) || r && n && not (k || e && n))
            ≡ (t || (if e then true else r) && n && not k)
      bools t e n k r = ground arith

  -- The ids seen are those and the new ones of the chunk.
  pub has_id-seen_to_ack :
      (ids : List ℕ) (s : Classified) (i : ℕ)
      → has_id (classify_bulk_ack states ids s).seen_to_ack i
        ≡ (has_id s.seen_to_ack i || has_id ids i && is_new (state_of i states))
  unfolding classify_bulk_ack has_id
  has_id-seen_to_ack [] s i = ground arith
  has_id-seen_to_ack (x ∷ ids) s i =
      has_id-seen_to_ack ids (classify_id states x s) i
      ∙ rw (step-seen_to_ack x s i)
          (bools (eqb x i) (is_new (state_of i states)) (has_id s.seen_to_ack i) (has_id ids i))
    where
      bools : (e n k r : Bool) → ((k || e && n) || r && n) ≡ (k || (if e then true else r) && n)
      bools e n k r = ground arith

  -- Every id of the chunk is collected, counted as acknowledged already or counted as missing.
  abbrev pub IsCounted : List ℕ → Classified → Classified → Type 0
  IsCounted ids s s' =
      (s'.result.requested ≡ s.result.requested)
      × (s'.result.acknowledged ≡ s.result.acknowledged)
      × (s'.result.missing
          ≡ s.result.missing + length (select (λ i. is_missing (state_of i states)) ids))
      × (length s'.to_ack + s'.result.already_acknowledged + s'.result.missing
          ≡ length s.to_ack + s.result.already_acknowledged + s.result.missing + length ids)

  -- Collected ids are seen ones.
  abbrev pub IsSeen : Classified → Type 0
  IsSeen s = (i : ℕ) → has_id s.to_ack i ≡ true → has_id s.seen_to_ack i ≡ true

  step-IsSeen : (x : ℕ) (s : Classified) → IsSeen s → IsSeen (classify_id states x s)
  step-IsSeen x s seen i h =
      let a = step-to_ack x s i in let b = step-seen_to_ack x s i in let c = seen i in ground arith

  length-add_id :
      (ids : List ℕ) (x : ℕ) → has_id ids x ≡ false → length (add_id ids x) ≡ length ids + 1
  length-add_id ids x e = rw e (length-append ids (x ∷ []))

  unseen-to_ack :
      (s : Classified) (x : ℕ)
      → IsSeen s
      → has_id s.seen_to_ack x ≡ false
      → has_id s.to_ack x ≡ false
  unseen-to_ack s x seen e = elim (Bool-cases (has_id s.to_ack x)) [
    | inl d ↦ let f = seen x d in cc
    | inr d ↦ d
  ]

  step-IsCounted :
      (x : ℕ) (s : Classified) → IsSeen s → IsCounted (x ∷ []) s (classify_id states x s)
  unfolding classify_id
  step-IsCounted x s seen = elim (Option-cases (state_of x states)) [
    | inl e ↦ rw (e, classify_id) (refl, refl, omega arith, omega arith)
    | inr (true, e) ↦ rw (e, classify_id) (refl, refl, omega arith, omega arith)
    | inr (false, e) ↦ elim (Bool-cases (has_id s.seen_to_ack x)) [
      | inl d ↦ rw (e, classify_id) (rw d (refl, refl, omega arith, omega arith))
      | inr d ↦
          let longer = length-add_id s.to_ack x (unseen-to_ack s x seen d) in
          rw (e, classify_id) (rw d (refl, refl, omega arith, omega arith))
    ]
  ]

  pub classify_bulk_ack-IsCounted :
      (ids : List ℕ) (s : Classified) → IsSeen s → IsCounted ids s (classify_bulk_ack states ids s)
  unfolding classify_bulk_ack
  classify_bulk_ack-IsCounted [] s seen = (refl, refl, omega arith, omega arith)
  classify_bulk_ack-IsCounted (x ∷ ids) s seen =
      let s' = classify_id states x s in
      let (r, a, m, t) = step-IsCounted x s seen in
      let (r', a', m', t') = classify_bulk_ack-IsCounted ids s' (step-IsSeen x s seen) in
      (r' ∙ r, a' ∙ a, m' ∙ missing-cons s'.result.missing s.result.missing m, omega arith)
    where
      missing-cons :
          (a b : ℕ)
          → a ≡ b + length (select (λ i. is_missing (state_of i states)) (x ∷ []))
          → a + length (select (λ i. is_missing (state_of i states)) ids)
            ≡ b + length (select (λ i. is_missing (state_of i states)) (x ∷ ids))
      missing-cons a b m = elim (Bool-cases (is_missing (state_of x states))) [
        | inl e ↦ let k : a ≡ b + 1 = rw e at m in rw e (omega arith)
        | inr e ↦ let k : a ≡ b + 0 = rw e at m in rw e (omega arith)
      ]
