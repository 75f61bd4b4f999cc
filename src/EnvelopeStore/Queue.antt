-- ===== src/EnvelopeStore/Queue.antt =====
-- NextCreated of hermes/internal/envelopestore/sqlite.go: the first created row by the text of
-- created_at and then by id.
use mathlib.Core.List.{Mem, mem-cons_self, Perm}
use mathlib.Core.Path.{subst}
use mathlib.Core.List.Perm
use hermes_forge_public.Prelude.{
  ◌≡◌, inl, inr, true, false, some, ◌∷◌, List, [], arith, eq_iff, Bool-cases, ok, err, All,
  List-cases, ◌⊎◌,
}
use hermes_forge_public.Prelude.TextOrder.{
  text_le_total, text_le_trans, text_lt_total, text_lt_trans, text_lt_asym,
}
use hermes_forge_public.Sql.{select, first, order_by}
use hermes_forge_public.Sql.Order.{
  first-order_by, order_by-perm, order_by-IsOrdered, All-of-order_by, IsOrdered,
}
use hermes_forge_public.Envelope.{Envelope, not_found}
use hermes_forge_public.EnvelopeStore.{Table, Call, is_created, older, next_created}
use hermes_forge_public.EnvelopeStore.Claim.{Works}

pub older_total : (a b : Envelope) → older a b ≡ false → older b a ≡ true
unfolding older
older_total a b h =
    let s = a.created_at.stored in
    let t = b.created_at.stored in
    ground (arith, text_le_total a.id b.id, text_lt_total s t, eq_iff s t, eq_iff t s)

pub older_trans : (a b c : Envelope) → older a b ≡ true → older b c ≡ true → older a c ≡ true
unfolding older
older_trans a b c h k =
    let s = a.created_at.stored in
    let t = b.created_at.stored in
    let u = c.created_at.stored in
    ground (
      arith,
      text_le_trans a.id b.id c.id,
      text_lt_trans s t u,
      eq_iff s t,
      eq_iff t u,
      eq_iff s u,
      text_lt_asym s t,
    )

-- The rows that are waiting for delivery.
abbrev pub waiting : Table → List Envelope
waiting t = select is_created t

older_refl : (a : Envelope) → older a a ≡ true
older_refl a = elim (Bool-cases (older a a)) [ inl e ↦ e | inr e ↦ older_total a a e ]

-- A created row of the table, at or before every created one in the order of ORDER BY.
pub record IsOldest (e : Envelope) (t : Table) : Type 0 where
  pub is_waiting : Mem e (waiting t)
  pub least : All (λ x. older e x ≡ true) (waiting t)

first-IsOldest :
    (t : Table) (s : List Envelope) (e : Envelope)
    → Perm s (waiting t)
    → IsOrdered older s
    → ((P : Envelope → Type 0) → All P s → All P (waiting t))
    → first s ≡ some e
    → IsOldest e t
first-IsOldest t [] e p o back h = cc
first-IsOldest t (x ∷ s) e p o back h =
    subst (λ y. IsOldest y t) {x = x} {y = e} (cc)
      (record {
        is_waiting = (Perm.mem_iff p).0 mem-cons_self;
        least = back (λ y. older x y ≡ true) (older_refl x, o.0);
      })

pub next_created-IsOldest :
    (c : Call) (t : Table) (e : Envelope) → next_created c t ≡ ok e → IsOldest e t
unfolding next_created
next_created-IsOldest c t e h =
    first-IsOldest t (order_by older (waiting t)) e (order_by-perm older (waiting t))
      (order_by-IsOrdered older older_total older_trans (waiting t))
      (λ P. All-of-order_by older P (waiting t)) (ground arith)

next_created_empty :
    (c : Call) (t : Table) → Works c → waiting t ≡ [] → next_created c t ≡ err not_found
unfolding next_created
next_created_empty c t w e = rw (w 0, e)

next_created_some :
    (c : Call) (t : Table) (x : Envelope) (rest : List Envelope)
    → Works c
    → waiting t ≡ x ∷ rest
    → (e : Envelope) × (next_created c t ≡ ok e)
unfolding next_created
next_created_some c t x rest w e =
    let (y, f) = first-order_by older x rest in (y, rw (w 0, e) (rw f))

-- With a working driver, NextCreated reports ErrNotFound when no row is created, and otherwise
-- returns a created row at or before every created row in the order of the texts that the column
-- created_at holds, and of the ids where these are equal. This is the order of the instants only among
-- times whose texts are ordered like them.
pub next_created-total :
    (c : Call) (t : Table)
    → Works c
    → ((waiting t ≡ []) × (next_created c t ≡ err not_found))
      ⊎ ((e : Envelope) × (next_created c t ≡ ok e) × IsOldest e t)
next_created-total c t w = elim (List-cases (waiting t)) [
  | inl e ↦ inl (e, next_created_empty c t w e)
  | inr (x, rest, e) ↦
      let (y, f) = next_created_some c t x rest w e in inr (y, f, next_created-IsOldest c t y f)
]
