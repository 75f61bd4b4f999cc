-- ===== src/Forge/Runner/Tail.antt =====
-- What GET /sessions/{id}/output?tail=n shows of a process.
use mathlib.Core.Path.{subst}
use mathlib.Core.List.{append_assoc}
use hermes_forge_public.Prelude.{
  ℕ, ◌+◌, ◌≤◌, ◌<◌, ◌≡◌, refl, ap, sym, ◌∙◌, ◌⊎◌, inl, inr, true, false, List, [], ◌∷◌, ◌++◌, arith,
  Bool-cases, ltb, eqb, length, if◌then◌else◌, ◌||◌,
}
use hermes_forge_public.Sql.{affected}
use hermes_forge_public.Forge.Runner.{Process, tail_loop, reverse_onto, read_output_tail}

-- How many newlines there are.
abbrev pub newlines : List ℕ → ℕ
newlines l = affected (λ b. eqb b b'\n') l

-- The bytes after the last newline but n, or nothing if there are not so many.
abbrev pub IsTail : ℕ → List ℕ → List ℕ → Type 0
IsTail n all out =
    ((newlines all ≤ n) × (out ≡ []))
    ⊎ ((before : List ℕ) × (all ≡ before ++ b'\n' ∷ out) × (newlines out ≡ n))

newlines-newline : (b : ℕ) (l : List ℕ) → eqb b b'\n' ≡ true → newlines (b ∷ l) ≡ newlines l + 1
newlines-newline b l h = ground arith

newlines-other : (b : ℕ) (l : List ℕ) → eqb b b'\n' ≡ false → newlines (b ∷ l) ≡ newlines l
newlines-other b l h = ground arith

reverse_onto-append : (l acc : List ℕ) → reverse_onto l acc ≡ reverse_onto l [] ++ acc
unfolding reverse_onto
reverse_onto-append [] acc = refl
reverse_onto-append (b ∷ l) acc =
    reverse_onto-append l (b ∷ acc)
    ∙ sym (append_assoc (reverse_onto l []) (b ∷ []) acc)
    ∙ ap (λ r. r ++ acc) (sym (reverse_onto-append l (b ∷ [])))

reverse_onto_twice : (l acc : List ℕ) → reverse_onto (reverse_onto l acc) [] ≡ reverse_onto acc l
unfolding reverse_onto
reverse_onto_twice [] acc = refl
reverse_onto_twice (b ∷ l) acc = reverse_onto_twice l (b ∷ acc)

tail_loop-IsTail :
    (n count : ℕ) (seen before : List ℕ)
    → newlines seen ≡ count
    → count ≤ n
    → IsTail n (reverse_onto before seen) (tail_loop n count seen before)
unfolding tail_loop reverse_onto
tail_loop-IsTail n count seen [] c h = inl (omega (arith, c, h), refl)
tail_loop-IsTail n count seen (b ∷ before) c h = elim (Bool-cases (eqb b b'\n')) [
  | inr e ↦ rw e (tail_loop-IsTail n count (b ∷ seen) before (newlines-other b seen e ∙ c) h)
  | inl e ↦ elim (Bool-cases (ltb n (count + 1))) [
    | inr d ↦
        let within : count + 1 ≤ n = ground arith in
        rw (e, d)
          (tail_loop-IsTail n (count + 1) (b ∷ seen) before
            (newlines-newline b seen e ∙ ap (λ k. k + 1) c) within)
    | inl d ↦
        let is_newline : b ≡ b'\n' = ground arith in
        let full : newlines seen ≡ n = ground arith in
        rw (e, d)
          (inr (
            reverse_onto before [],
            reverse_onto-append before (b ∷ seen)
                ∙ ap (λ x. reverse_onto before [] ++ x ∷ seen) is_newline,
            full,
          ))
  ]
]

shown-IsTail :
    (n : ℕ) (l : List ℕ)
    → 0 < n
    → IsTail n l (if eqb (length l) 0 || eqb n 0 then [] else tail_loop n 0 [] (reverse_onto l []))
unfolding reverse_onto
shown-IsTail n [] h = inl (omega (arith, h), refl)
shown-IsTail n (b ∷ l) h =
    let some_bytes : (eqb (length (b ∷ l)) 0 || eqb n 0) ≡ false = ground arith in
    rw some_bytes (
      subst (λ all. IsTail n all (tail_loop n 0 [] (reverse_onto (b ∷ l) [])))
        (reverse_onto_twice (b ∷ l) [])
        (tail_loop-IsTail n 0 [] (reverse_onto (b ∷ l) []) refl (omega (arith, h))))

-- ReadOutputTail of n lines, for n above 0, returns what stands after the last newline but n, so the last
-- n lines of an output that ends in a newline. It returns nothing at all if the output has n newlines or
-- less, though such an output is within the n lines.
pub read_output_tail-IsTail :
    (n : ℕ) (p : Process) → 0 < n → IsTail n p.out_buf (read_output_tail n p)
unfolding read_output_tail
read_output_tail-IsTail n p h = shown-IsTail n p.out_buf h
