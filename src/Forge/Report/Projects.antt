-- ===== src/Forge/Report/Projects.antt =====
-- Which project a working directory is taken for.
use mathlib.Core.Path.{subst}
use hermes_forge_public.Prelude.{
  ℕ, ◌≤◌, ◌<◌, ◌≡◌, refl, ap, ◌∙◌, ◌⊎◌, inl, inr, Bool, true, false, not, ◌&&◌, List, [], ◌∷◌, ◌++◌,
  arith, Bool-cases, ltb, length, All,
}
use hermes_forge_public.Prelude.Bytes.{same, has_prefix}
use hermes_forge_public.Forge.Report.{better_project, best_project, match_project}

-- A root that is not empty and begins the directory.
abbrev pub matches : List ℕ → List ℕ × List ℕ → Bool
matches cwd entry = not (same entry.0 []) && has_prefix entry.0 cwd

-- No match is longer.
abbrev pub IsWithin : List ℕ → ℕ → List ℕ × List ℕ → Type 0
IsWithin cwd n entry = matches cwd entry ≡ true → length entry.0 ≤ n

-- A matching entry of the map.
abbrev pub IsMatch : List ℕ → List (List ℕ × List ℕ) → List ℕ × List ℕ → Type 0
IsMatch cwd projects entry =
    (matches cwd entry ≡ true)
    × (before : List (List ℕ × List ℕ)) × (rest : List (List ℕ × List ℕ)) × (projects
        ≡ before ++ entry ∷ rest)

better_project-cases :
    (cwd : List ℕ) (entry : List ℕ × List ℕ) (b : ℕ × List ℕ)
    → ((better_project cwd entry b ≡ b) × IsWithin cwd b.0 entry)
      ⊎ ((better_project cwd entry b ≡ (length entry.0, entry.1))
          × (matches cwd entry ≡ true)
          × (b.0 < length entry.0))
better_project-cases cwd (prefix, name) (best, best_name) = elim (Bool-cases (same prefix [])) [
  | inl e ↦ inl (rw e refl, λ m. absurd (ground (arith, m)))
  | inr e ↦ elim (Bool-cases (has_prefix prefix cwd)) [
    | inr d ↦ inl (rw (e, d) refl, λ m. absurd (ground (arith, m)))
    | inl d ↦ elim (Bool-cases (ltb best (length prefix))) [
      | inl f ↦ inr (rw (e, d, f) refl, rw (e, d) refl, ground arith)
      | inr f ↦ inl (rw (e, d, f) refl, λ m. ground arith)
    ]
  ]
]

-- The best of all entries and an earlier one.
abbrev IsBest : List ℕ → List (List ℕ × List ℕ) → ℕ × List ℕ → ℕ × List ℕ → Type 0
IsBest cwd projects b out =
    All (IsWithin cwd out.0) projects
    × (b.0 ≤ out.0)
    × ((out ≡ b)
        ⊎ ((entry : List ℕ × List ℕ) × IsMatch cwd projects entry
            × (out ≡ (length entry.0, entry.1))))

IsMatch-later :
    (cwd : List ℕ) (e entry : List ℕ × List ℕ) (projects : List (List ℕ × List ℕ))
    → IsMatch cwd projects entry
    → IsMatch cwd (e ∷ projects) entry
IsMatch-later cwd e entry projects (m, before, rest, p) = (m, e ∷ before, rest, ap (λ l. e ∷ l) p)

best_project-IsBest :
    (cwd : List ℕ) (projects : List (List ℕ × List ℕ)) (b : ℕ × List ℕ)
    → IsBest cwd projects b (best_project cwd projects b)
unfolding best_project
best_project-IsBest cwd [] b = (tt, omega arith, inl refl)
best_project-IsBest cwd (e ∷ projects) b =
    let b' = better_project cwd e b in
    let (within, above, found) = best_project-IsBest cwd projects b' in
    elim (better_project-cases cwd e b) [
      | inl (same_b, w) ↦
          let count = ap (λ (x : ℕ × List ℕ). x.0) same_b in
          (
            ((λ m. omega (arith, w m, above, count)), within),
            omega (arith, above, count),
            elim found [
              | inl q ↦ inl (q ∙ same_b)
              | inr (entry, m, q) ↦ inr (entry, IsMatch-later cwd e entry projects m, q)
            ],
          )
      | inr (new, m, less) ↦
          let count = ap (λ (x : ℕ × List ℕ). x.0) new in
          (
            ((λ k. omega (arith, above, count)), within),
            omega (arith, above, count, less),
            elim found [
              | inl q ↦ inr (e, (m, [], projects, refl), q ∙ new)
              | inr (entry, k, q) ↦ inr (entry, IsMatch-later cwd e entry projects k, q)
            ],
          )
    ]

-- The name of a longest matching root, or nothing where none matches.
abbrev pub IsProject : List ℕ → List (List ℕ × List ℕ) → List ℕ → Type 0
IsProject cwd projects out =
    (All (λ entry. matches cwd entry ≡ false) projects × (out ≡ []))
    ⊎ ((entry : List ℕ × List ℕ) × IsMatch cwd projects entry
        × (out ≡ entry.1)
        × All (IsWithin cwd (length entry.0)) projects)

matches-nonempty :
    (cwd : List ℕ) (entry : List ℕ × List ℕ) → matches cwd entry ≡ true → 0 < length entry.0
unfolding same
matches-nonempty cwd ([], name) m = cc
matches-nonempty cwd (c ∷ prefix, name) m = omega arith

none_matches :
    (cwd : List ℕ) (projects : List (List ℕ × List ℕ))
    → All (IsWithin cwd 0) projects
    → All (λ entry. matches cwd entry ≡ false) projects
none_matches cwd [] h = tt
none_matches cwd (e ∷ projects) (w, rest) = elim (Bool-cases (matches cwd e)) [
  | inl m ↦ absurd (omega (arith, w m, matches-nonempty cwd e m))
  | inr m ↦ (m, none_matches cwd projects rest)
]

nothing-matches : (entry : List ℕ × List ℕ) → matches [] entry ≡ false
unfolding same has_prefix
nothing-matches ([], name) = refl
nothing-matches (c ∷ prefix, name) = refl

unmatched-All :
    (projects : List (List ℕ × List ℕ)) → All (λ entry. matches [] entry ≡ false) projects
unmatched-All [] = tt
unmatched-All (e ∷ projects) = (nothing-matches e, unmatched-All projects)

-- A working directory is taken for the project whose root is the longest one that it begins with, in
-- whatever order the map is walked, and for none where no root that is not empty begins it.
pub match_project-IsProject :
    (projects : List (List ℕ × List ℕ)) (cwd : List ℕ)
    → IsProject cwd projects (match_project projects cwd)
unfolding match_project same
match_project-IsProject projects [] = inl (unmatched-All projects, refl)
match_project-IsProject projects (c ∷ cwd) =
    let (within, above, found) = best_project-IsBest (c ∷ cwd) projects (0, []) in
    elim found [
      | inl q ↦ inl (
        none_matches (c ∷ cwd) projects (
            subst (λ n. All (IsWithin (c ∷ cwd) n) projects) (ap (λ (x : ℕ × List ℕ). x.0) q)
              within),
        ap (λ (x : ℕ × List ℕ). x.1) q,
      )
      | inr (entry, m, q) ↦ inr (
        entry,
        m,
        ap (λ (x : ℕ × List ℕ). x.1) q,
        subst (λ n. All (IsWithin (c ∷ cwd) n) projects) (ap (λ (x : ℕ × List ℕ). x.0) q) within,
      )
    ]
