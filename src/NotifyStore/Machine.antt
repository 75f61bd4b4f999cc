-- ===== src/NotifyStore/Machine.antt =====
-- The queue as a machine: any sequence of its writing operations, each with its own `Call`.
use mathlib.Core.Path.{subst⁻¹}
use hermes_forge_public.Prelude.{
  ℕ, suc, ◌≤◌, String, ◌≡◌, refl, ap, ◌∙◌, ◌⊎◌, inl, inr, Bool, true, false, not, none, List, [],
  ◌∷◌, ◌++◌, arith, eqb, ◌==◌, eq_iff, Bool-cases, Option-cases, All, All-append,
}
use hermes_forge_public.Prelude.Int.{ℤ, pos, negsuc}
use hermes_forge_public.Sql.{select, find, affected}
use hermes_forge_public.Sql.Laws.{All-update, select-update_ne}
use hermes_forge_public.Sql.Filter.{All-select}
use hermes_forge_public.NotifyStore
use hermes_forge_public.NotifyStore.{
  Notification, Queue, Call, Error, exec, rows_affected, mark, mark_rows, is_id, is_id_for, is_old,
  acknowledge_where,
}
use hermes_forge_public.NotifyStore.Bulk
use hermes_forge_public.NotifyStore.Bulk.{is_bulk}
use hermes_forge_public.NotifyStore.States.{at_id, HasUniqueIds, select-HasUniqueIds}
use hermes_forge_public.NotifyStore.Marking.{update-HasUniqueIds}
use hermes_forge_public.NotifyStore.Acks.{bulk_acknowledge-IsExact, bulk_acknowledge_rollback}

pub data Op : Type 0 where
  insert : Notification → Op
  acknowledge : ℕ → Op
  acknowledge_for_key : ℕ → String → Op
  bulk_acknowledge : List ℕ → String → Op
  purge_old : ℤ → Op

-- The queue after one operation, whatever it returned.
abbrev pub step : Call → Op → Queue → Queue
step c (insert n) q = (NotifyStore.insert c n q).1
step c (acknowledge id) q = (NotifyStore.acknowledge c id q).1
step c (acknowledge_for_key id key) q = (NotifyStore.acknowledge_for_key c id key q).1
step c (bulk_acknowledge ids key) q = (Bulk.bulk_acknowledge c ids key q).queue
step c (purge_old days) q = (NotifyStore.purge_old c days q).1

abbrev pub run : List (Call × Op) → Queue → Queue
run [] q = q
run ((c, op) ∷ ops) q = run ops (step c op q)

abbrev pub empty : Queue
empty = record { rows = []; sequence = 0 }

-- The ids are distinct and none is above the sequence.
abbrev pub IsSound : Queue → Type 0
IsSound q = HasUniqueIds q.rows × All (λ n. n.id ≤ q.sequence) q.rows

fresh_id :
    (rows : List Notification) (s : ℕ) → All (λ n. n.id ≤ s) rows → find (at_id (suc s)) rows ≡ none
fresh_id [] s h = refl
fresh_id (n ∷ rows) s h =
    let k = h.0 in
    let other : eqb n.id (suc s) ≡ false = ground arith in rw other (fresh_id rows s h.1)

find-append_none :
    (i : ℕ) (rows : List Notification) (x : Notification)
    → find (at_id i) rows ≡ none
    → eqb x.id i ≡ false
    → find (at_id i) (rows ++ x ∷ []) ≡ none
find-append_none i [] x h e = rw e
find-append_none i (n ∷ rows) x h e = elim (Bool-cases (eqb n.id i)) [
  | inl d ↦ ground arith
  | inr d ↦ rw d (find-append_none i rows x (rw d at h) e)
]

append-HasUniqueIds :
    (rows : List Notification) (s : ℕ) (x : Notification)
    → HasUniqueIds rows
    → All (λ n. n.id ≤ s) rows
    → x.id ≡ suc s
    → HasUniqueIds (rows ++ x ∷ [])
append-HasUniqueIds [] s x u h e = (refl, tt)
append-HasUniqueIds (n ∷ rows) s x u h e =
    let k = h.0 in
    (find-append_none n.id rows x u.0 (ground arith), append-HasUniqueIds rows s x u.1 h.1 e)

All-suc :
    (rows : List Notification) (s : ℕ) → All (λ n. n.id ≤ s) rows → All (λ n. n.id ≤ suc s) rows
All-suc [] s h = tt
All-suc (n ∷ rows) s h = let k = h.0 in (omega arith, All-suc rows s h.1)

mark_rows-IsSound : (p : Notification → Bool) (q : Queue) → IsSound q → IsSound (mark_rows p q)
mark_rows-IsSound p q (u, h) = (
  update-HasUniqueIds p q.rows u,
  All-update (λ n. n.id ≤ q.sequence) p mark (λ n e k. k) q.rows h,
)

-- A single acknowledgement leaves the queue or marks its rows.
acknowledge_where-cases :
    (c : Call) (p : Notification → Bool) (q : Queue)
    → ((acknowledge_where c p q).1 ≡ q) ⊎ ((acknowledge_where c p q).1 ≡ mark_rows p q)
acknowledge_where-cases c p q = elim (Bool-cases (c.fails exec)) [
  | inl d ↦ inl (rw d)
  | inr d ↦ elim (Bool-cases (c.fails rows_affected)) [
    | inl e ↦ inr (rw (d, e))
    | inr e ↦ elim (Bool-cases (eqb (affected p q.rows) 0)) [
      | inl f ↦ inr (rw (d, e, f))
      | inr f ↦ inr (rw (d, e, f))
    ]
  ]
]

-- A bulk acknowledgement leaves the queue or marks the listed rows of the key.
bulk_acknowledge-cases :
    (c : Call) (ids : List ℕ) (key : String) (q : Queue)
    → HasUniqueIds q.rows
    → ((Bulk.bulk_acknowledge c ids key q).queue ≡ q)
      ⊎ ((Bulk.bulk_acknowledge c ids key q).queue ≡ mark_rows (is_bulk key ids) q)
bulk_acknowledge-cases c ids key q u =
    elim (Option-cases (Bulk.bulk_acknowledge c ids key q).error) [
      | inr (x, e) ↦ inl (bulk_acknowledge_rollback c ids key q x e)
      | inl e ↦ inr (bulk_acknowledge-IsExact c ids key q u e).0
    ]

insert-IsSound :
    (c : Call) (n : Notification) (q : Queue) → IsSound q → IsSound (NotifyStore.insert c n q).1
unfolding NotifyStore.insert
insert-IsSound c n q (u, h) = elim (Bool-cases (c.fails exec)) [
  | inl e ↦ rw e (u, h)
  | inr e ↦ rw e (
    append-HasUniqueIds q.rows q.sequence _ u h refl,
    All-append (λ n. n.id ≤ suc q.sequence) q.rows _ (All-suc q.rows q.sequence h)
        (omega arith, tt),
  )
]

purge_old-IsSound :
    (c : Call) (days : ℤ) (q : Queue) → IsSound q → IsSound (NotifyStore.purge_old c days q).1
unfolding NotifyStore.purge_old
purge_old-IsSound c (negsuc n) q sound = sound
purge_old-IsSound c (pos days) q (u, h) = elim (Bool-cases (c.fails exec)) [
  | inl e ↦ rw e (u, h)
  | inr e ↦
      let keep = λ (n : Notification). not (is_old c.now days n) in
      rw e (select-HasUniqueIds keep q.rows u, All-select (λ n. n.id ≤ q.sequence) keep q.rows h)
]

step-IsSound : (c : Call) (op : Op) (q : Queue) → IsSound q → IsSound (step c op q)
unfolding NotifyStore.acknowledge NotifyStore.acknowledge_for_key
step-IsSound c (insert n) q sound = insert-IsSound c n q sound
step-IsSound c (acknowledge id) q sound = elim (acknowledge_where-cases c (is_id id) q) [
  | inl e ↦ subst⁻¹ IsSound e sound
  | inr e ↦ subst⁻¹ IsSound e (mark_rows-IsSound (is_id id) q sound)
]
step-IsSound c (acknowledge_for_key id key) q sound =
    elim (acknowledge_where-cases c (is_id_for id key) q) [
      | inl e ↦ subst⁻¹ IsSound e sound
      | inr e ↦ subst⁻¹ IsSound e (mark_rows-IsSound (is_id_for id key) q sound)
    ]
step-IsSound c (bulk_acknowledge ids key) q sound =
    elim (bulk_acknowledge-cases c ids key q sound.0) [
      | inl e ↦ subst⁻¹ IsSound e sound
      | inr e ↦ subst⁻¹ IsSound e (mark_rows-IsSound (is_bulk key ids) q sound)
    ]
step-IsSound c (purge_old days) q sound = purge_old-IsSound c days q sound

run-IsSound_from : (ops : List (Call × Op)) (q : Queue) → IsSound q → IsSound (run ops q)
run-IsSound_from [] q sound = sound
run-IsSound_from ((c, op) ∷ ops) q sound =
    run-IsSound_from ops (step c op q) (step-IsSound c op q sound)

-- Any sequence of inserts, acknowledgements, bulk acknowledgements and purges of an empty queue, with
-- any driver failures, leaves rows with distinct ids, none above the largest id given out.
pub run-IsSound : (ops : List (Call × Op)) → IsSound (run ops empty)
run-IsSound ops = run-IsSound_from ops empty (tt, tt)

-- The operations of a caller with the key, and the rows of all other keys.
abbrev pub IsScoped : String → Op → Type 0
IsScoped key (acknowledge_for_key id k) = k ≡ key
IsScoped key (bulk_acknowledge ids k) = k ≡ key
IsScoped key _ = ⊥

abbrev pub of_others : String → Queue → List Notification
of_others key q = select (λ n. not (n.api_key == key)) q.rows

mark_rows-of_others :
    (p : Notification → Bool) (key : String) (q : Queue)
    → ((n : Notification) → p n ≡ true → (n.api_key == key) ≡ true)
    → of_others key (mark_rows p q) ≡ of_others key q
mark_rows-of_others p key q own =
    select-update_ne p (λ n. not (n.api_key == key)) mark
      (λ n e. let k = own n e in (ground arith, ground arith)) q.rows

-- A caller's acknowledgements, single and bulk, leave the rows of every other key as they were,
-- whichever ids it names.
pub step-of_others :
    (c : Call) (op : Op) (key : String) (q : Queue)
    → IsScoped key op
    → HasUniqueIds q.rows
    → of_others key (step c op q) ≡ of_others key q
unfolding NotifyStore.acknowledge_for_key
step-of_others c (insert n) key q s u = absurd s
step-of_others c (acknowledge id) key q s u = absurd s
step-of_others c (purge_old days) key q s u = absurd s
step-of_others c (acknowledge_for_key id k) key q s u =
    elim (acknowledge_where-cases c (is_id_for id k) q) [
      | inl e ↦ ap (of_others key) e
      | inr e ↦
          ap (of_others key) e
          ∙ mark_rows-of_others (is_id_for id k) key q
              (λ n h. ground (arith, eq_iff n.api_key k, eq_iff n.api_key key))
    ]
step-of_others c (bulk_acknowledge ids k) key q s u = elim (bulk_acknowledge-cases c ids k q u) [
  | inl e ↦ ap (of_others key) e
  | inr e ↦
      ap (of_others key) e
      ∙ mark_rows-of_others (is_bulk k ids) key q
          (λ n h. ground (arith, eq_iff n.api_key k, eq_iff n.api_key key))
]
