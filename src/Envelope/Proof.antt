-- ===== src/Envelope/Proof.antt =====
-- What the two loops over the proof map decide.
use hermes_forge_public.Prelude.{
  String, ◌≡◌, ◌≢◌, refl, inl, inr, false, some, List, [], ◌∷◌, All, arith, eq_iff, Option-cases,
}
use hermes_forge_public.Envelope.{Proof, lookup, has_key, missing_key, empty_value}

-- Every required key has a value, and no value is empty.
abbrev pub IsProven : List String → Proof → Type 0
IsProven ks m = All (λ k. (v : String) × (lookup k m ≡ some v)) ks × All (λ p. p.1 ≢ "") m

pub keys_of_missing_key :
    (ks : List String) (m : Proof)
    → missing_key ks m ≡ false
    → All (λ k. (v : String) × (lookup k m ≡ some v)) ks
unfolding missing_key has_key
keys_of_missing_key [] m h = tt
keys_of_missing_key (k ∷ ks) m h = elim (Option-cases (lookup k m)) [
  | inl e ↦ ground arith
  | inr (v, e) ↦ ((v, e), keys_of_missing_key ks m (ground arith))
]

pub missing_key_of_keys :
    (ks : List String) (m : Proof)
    → All (λ k. (v : String) × (lookup k m ≡ some v)) ks
    → missing_key ks m ≡ false
unfolding missing_key has_key
missing_key_of_keys [] m h = refl
missing_key_of_keys (k ∷ ks) m h = ground (arith, missing_key_of_keys ks m h.1, h.0.1)

pub values_of_empty_value : (m : Proof) → empty_value m ≡ false → All (λ p. p.1 ≢ "") m
unfolding empty_value
values_of_empty_value [] h = tt
values_of_empty_value ((k, v) ∷ m) h =
    (ground (arith, eq_iff v ""), values_of_empty_value m (ground arith))

pub empty_value_of_values : (m : Proof) → All (λ p. p.1 ≢ "") m → empty_value m ≡ false
unfolding empty_value
empty_value_of_values [] h = refl
empty_value_of_values ((k, v) ∷ m) h = ground (arith, eq_iff v "", empty_value_of_values m h.1, h.0)
