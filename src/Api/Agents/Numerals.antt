-- ===== src/Api/Agents/Numerals.antt =====
-- `itoa` against the verb %d.
use Prim.Native.Nat.{◌/◌}
use Prim.Native.String
use text.Mathlib.TextLemmas.{append-nil, append_assoc}
use hermes_forge_public.Prelude.{
  ℕ, zero, suc, ◌%◌, ◌≤◌, ◌<◌, String, ◌≡◌, refl, ap, sym, ◌∙◌, inl, inr, true, false, [], ◌∷◌,
  arith, Bool-cases, eqb, ltb,
}
use hermes_forge_public.Prelude.Texts.{concat, digit, decimal}
use hermes_forge_public.Api.Agents.{itoa, itoa_loop}

regroup :
    (a b c : String) → String.◌++◌ a (concat (b ∷ c ∷ [])) ≡ String.◌++◌ (concat (a ∷ b ∷ [])) c
regroup a b c = rw (append-nil c, append-nil b) (sym (append_assoc a b c))

ltb→lt : (a b : ℕ) → ltb a b ≡ true → a < b
ltb→lt a b h = ground arith

not-ltb→le : (a b : ℕ) → ltb a b ≡ false → b ≤ a
not-ltb→le a b h = ground arith

itoa_loop-zero : (fuel : ℕ) (buf : String) → itoa_loop fuel 0 buf ≡ buf
unfolding itoa_loop
itoa_loop-zero zero buf = refl
itoa_loop-zero (suc fuel) buf = refl

itoa_loop-eq-decimal :
    (fuel n : ℕ) (buf : String)
    → 0 < n
    → n ≤ fuel
    → itoa_loop fuel n buf ≡ String.◌++◌ (decimal (suc fuel) n) buf
unfolding itoa_loop
itoa_loop-eq-decimal zero n buf p q = absurd (omega arith)
itoa_loop-eq-decimal (suc fuel) n buf p q =
    let positive : eqb n 0 ≡ false = ground arith in
    elim (Bool-cases (ltb n 10)) [
      | inl e ↦
          let h = ltb→lt n 10 e in
          let high : n / 10 ≡ 0 = omega arith in
          let low : n % 10 ≡ n = omega arith in
          rw (positive, e)
            (ap (λ k. itoa_loop fuel k (concat (digit (n % 10) ∷ buf ∷ []))) high
              ∙ itoa_loop-zero fuel (concat (digit (n % 10) ∷ buf ∷ []))
              ∙ ap (λ k. concat (digit k ∷ buf ∷ [])) low
              ∙ ap (λ k. String.◌++◌ (digit n) k) (append-nil buf))
      | inr e ↦
          let h = not-ltb→le n 10 e in
          rw (positive, e)
            (itoa_loop-eq-decimal fuel (n / 10) (concat (digit (n % 10) ∷ buf ∷ [])) (omega arith)
                (omega arith)
              ∙ regroup (decimal (suc fuel) (n / 10)) (digit (n % 10)) buf)
    ]

-- The digits that `itoa` writes are those of the verb %d.
pub itoa-eq-decimal : (n : ℕ) → itoa n ≡ decimal (suc n) n
unfolding itoa
itoa-eq-decimal n = elim (Bool-cases (eqb n 0)) [
  | inl e ↦ let z : n ≡ 0 = ground arith in rw z refl
  | inr e ↦
      let h : 0 < n = ground arith in
      rw e (itoa_loop-eq-decimal n n "" h (omega arith) ∙ append-nil (decimal (suc n) n))
]
