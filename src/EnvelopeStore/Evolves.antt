-- ===== src/EnvelopeStore/Evolves.antt =====
-- Later states of a row and of a table.
use hermes_forge_public.Prelude.{
  eq_iff, ℕ, String, ◌≡◌, refl, ap, inl, inr, Bool, true, none, some, [], ◌∷◌, ◌++◌, Grows,
  Grows-refl, Grows-trans, Bool-cases, ◌∙◌,
}
use hermes_forge_public.Sql.{update, find}
use hermes_forge_public.Sql.Laws.{update-none}
use hermes_forge_public.Envelope.{Envelope, is_terminal}
use hermes_forge_public.EnvelopeStore.{has_id, Table}
use hermes_forge_public.EnvelopeStore.Keys.{HasUniqueIds}
use mathlib.Core.Path.{subst}

-- A later state of one row: what the client wrote at creation stays, the history and the thread
-- only grow, a completion time is set once, and a terminal row keeps all but history and thread.
pub record Evolves (a b : Envelope) : Type 0 where
  pub fixed : b ≡ record a {
    status = b.status;
    delivery = b.delivery;
    session_binding = b.session_binding;
    executor_session_id = b.executor_session_id;
    thread = b.thread;
    metrics = b.metrics;
    history = b.history;
    proof = b.proof;
  }
  pub history : Grows a.history b.history
  pub thread : Grows a.thread b.thread
  pub completed : (at : ℕ) → a.metrics.completed_at ≡ some at → b.metrics.completed_at ≡ some at
  pub settled :
      is_terminal a.status ≡ true → b ≡ record a { history = b.history; thread = b.thread }

-- Each row of the first table has a later state at its place in the second one.
abbrev pub Extends : Table → Table → Type 0
Extends [] t = Unit
Extends (a ∷ s) [] = ⊥
Extends (a ∷ s) (b ∷ t) = Evolves a b × Extends s t

pub Evolves-refl : (a : Envelope) → Evolves a a
Evolves-refl a = record {
  fixed = refl;
  history = Grows-refl a.history;
  thread = Grows-refl a.thread;
  completed = λ at h. h;
  settled = λ h. refl;
}

Evolves-trans : (a b c : Envelope) → Evolves a b → Evolves b c → Evolves a c
Evolves-trans a b c p q = record {
  fixed =
      q.fixed
      ∙ ap
          (λ (e : Envelope). record e {
            status = c.status;
            delivery = c.delivery;
            session_binding = c.session_binding;
            executor_session_id = c.executor_session_id;
            thread = c.thread;
            metrics = c.metrics;
            history = c.history;
            proof = c.proof;
          })
          p.fixed;
  history = Grows-trans a.history b.history c.history p.history q.history;
  thread = Grows-trans a.thread b.thread c.thread p.thread q.thread;
  completed = λ at h. q.completed at (p.completed at h);
  settled = λ h.
      q.settled (ap (λ (e : Envelope). is_terminal e.status) (p.settled h) ∙ h)
      ∙ ap (λ (e : Envelope). record e { history = c.history; thread = c.thread }) (p.settled h);
}

pub Extends-refl : (t : Table) → Extends t t
Extends-refl [] = tt
Extends-refl (a ∷ t) = (Evolves-refl a, Extends-refl t)

pub Extends-trans : (r s t : Table) → Extends r s → Extends s t → Extends r t
Extends-trans [] s t p q = tt
Extends-trans (a ∷ r) (b ∷ s) (c ∷ t) p q =
    (Evolves-trans a b c p.0 q.0, Extends-trans r s t p.1 q.1)
Extends-trans (a ∷ r) (b ∷ s) [] p q = absurd q
Extends-trans (a ∷ r) [] t p q = absurd p

pub Extends-append : (s t : Table) → Extends s (s ++ t)
Extends-append [] t = tt
Extends-append (a ∷ s) t = (Evolves-refl a, Extends-append s t)

pub Extends-update :
    (p : Envelope → Bool) (f : Envelope → Envelope)
    → ((x : Envelope) → p x ≡ true → Evolves x (f x))
    → (t : Table) → Extends t (update p f t)
Extends-update p f later [] = tt
Extends-update p f later (x ∷ t) = elim (Bool-cases (p x)) [
  | inl e ↦ rw e (later x e, Extends-update p f later t)
  | inr e ↦ rw e (Evolves-refl x, Extends-update p f later t)
]

-- An update by key of a table with unique ids writes the one row that was read.
pub Extends-update_row :
    (id : String) (f : Envelope → Envelope) (t : Table) {row : Envelope}
    → HasUniqueIds t
    → find (has_id id) t ≡ some row
    → Evolves row (f row)
    → Extends t (update (has_id id) f t)
Extends-update_row id f [] u e later = cc
Extends-update_row id f (x ∷ t) {row} u e later = elim (Bool-cases (has_id id x)) [
  | inl p ↦
      let same : some x ≡ some row = rw p at e in
      let at_x : Evolves x (f x) = subst (λ r. Evolves r (f r)) {x = row} {y = x} (cc) later in
      let gone : find (has_id id) t ≡ none =
        subst (λ k. find (has_id k) t ≡ none) ((eq_iff x.id id).0 p) u.0 in
      rw p (at_x, rw (update-none (has_id id) f t gone) (Extends-refl t))
  | inr p ↦ rw p (Evolves-refl x, Extends-update_row id f t u.1 (rw p at e) later)
]
