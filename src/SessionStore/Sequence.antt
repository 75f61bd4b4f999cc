-- ===== src/SessionStore/Sequence.antt =====
-- The messages of a session are numbered upwards in the order in which they were stored.
use mathlib.Core.Path.{subst⁻¹}
use mathlib.Core.List.{append-nil}
use hermes_forge_public.Prelude.{
  ℕ, zero, suc, ◌≤◌, ◌<◌, String, ◌≡◌, ◌⊎◌, refl, inl, inr, List, [], ◌∷◌, ◌++◌, arith, ◌==◌,
  eq_iff, Bool-cases, Option-cases, Result-cases, All, All-append, Result, ok, err,
}
use hermes_forge_public.Sql.{select, find}
use hermes_forge_public.Sql.Laws.{select-append}
use hermes_forge_public.SessionStore
use hermes_forge_public.SessionStore.{
  Session, Message, Store, Call, Error, driver, max_retries, begin, next_order, insert_row, commit,
  in_session, max_order, get_next_insert_order, violates, insert_with_retry, insert_message,
  by_order, max_attempts,
}

-- Each order is below every later one.
abbrev pub IsIncreasing : List Message → Type 0
IsIncreasing [] = Unit
IsIncreasing (m ∷ rows) = All (λ x. m.insert_order < x.insert_order) rows × IsIncreasing rows

-- In every session the orders increase in the order of storing.
abbrev pub IsSequenced : Store → Type 0
IsSequenced s = (id : String) → IsIncreasing (select (in_session id) s.messages)

weaken :
    (rows : List Message) (j k : ℕ)
    → j ≤ k
    → All (λ m. m.insert_order ≤ j) rows
    → All (λ m. m.insert_order ≤ k) rows
weaken [] j k b h = tt
weaken (x ∷ rows) j k b h = let a = h.0 in (omega arith, weaken rows j k b h.1)

max_order-bounds : (rows : List Message) → All (λ m. m.insert_order ≤ max_order rows) rows
max_order-bounds [] = tt
max_order-bounds (m ∷ rows) = (
  ground arith,
  weaken rows (max_order rows) (max_order (m ∷ rows)) (ground arith) (max_order-bounds rows),
)

append-IsIncreasing :
    (rows : List Message) (m : Message)
    → IsIncreasing rows
    → All (λ x. x.insert_order < m.insert_order) rows
    → IsIncreasing (rows ++ m ∷ [])
append-IsIncreasing [] m h k = (tt, tt)
append-IsIncreasing (x ∷ rows) m h k = (
  All-append (λ y. x.insert_order < y.insert_order) rows (m ∷ []) h.0 (k.0, tt),
  append-IsIncreasing rows m h.1 k.1,
)

below_next :
    (rows : List Message) (k : ℕ)
    → All (λ m. m.insert_order ≤ k) rows
    → All (λ m. m.insert_order < suc k) rows
below_next [] k h = tt
below_next (m ∷ rows) k h = let a = h.0 in (omega arith, below_next rows k h.1)

-- The message as it is stored, and the store with it.
abbrev pub numbered : Message → Store → Message
numbered msg s = record msg { insert_order = get_next_insert_order msg.session_id s }

abbrev pub stored : Message → Store → Result Error ℕ × Store
stored msg s = (
  ok (get_next_insert_order msg.session_id s),
  record s { messages = s.messages ++ numbered msg s ∷ [] },
)

-- An insert fails and leaves the store, or stores the message with the next order of its session.
abbrev pub IsInserted : Message → Store → Result Error ℕ × Store → Type 0
IsInserted msg s o = ((o.1 ≡ s) × ((x : Error) × (o.0 ≡ err x))) ⊎ (o ≡ stored msg s)

retry-IsInserted :
    (c : Call) (n i : ℕ) (msg : Message) (s : Store)
    → IsInserted msg s (insert_with_retry c n i msg s)
unfolding insert_with_retry
retry-IsInserted c zero i msg s = inl (refl, (max_retries, refl))
retry-IsInserted c (suc n) i msg s = elim (Bool-cases (c.fails (begin i))) [
  | inl e ↦ inl (rw e refl, (driver (begin i), rw e refl))
  | inr e ↦ elim (Bool-cases (c.fails (next_order i))) [
    | inl d ↦ inl (rw (e, d) refl, (driver (next_order i), rw (e, d) refl))
    | inr d ↦ elim (Bool-cases (c.fails (insert_row i))) [
      | inl g ↦ inl (rw (e, d, g) refl, (driver (insert_row i), rw (e, d, g) refl))
      | inr g ↦ elim (Option-cases (find (violates (numbered msg s)) s.messages)) [
        | inr (row, f) ↦ rw (e, d, g, f) (retry-IsInserted c n (suc i) msg s)
        | inl f ↦ elim (Bool-cases (c.conflicts i)) [
          | inl k ↦ rw (e, d, g, f, k) (retry-IsInserted c n (suc i) msg s)
          | inr k ↦ elim (Bool-cases (c.fails (commit i))) [
            | inl l ↦
                inl (rw (e, d, g, f, k, l) refl, (driver (commit i), rw (e, d, g, f, k, l) refl))
            | inr l ↦ inr (rw (e, d, g, f, k, l) refl)
          ]
        ]
      ]
    ]
  ]
]

pub insert_message-IsInserted :
    (c : Call) (msg : Message) (s : Store) → IsInserted msg s (insert_message c msg s)
unfolding insert_message
insert_message-IsInserted c msg s = elim (Result-cases (SessionStore.get c msg.session_id s)) [
  | inr (x, e) ↦ inl (rw (e, insert_message) refl, (x, rw (e, insert_message) refl))
  | inl (sess, e) ↦ rw (e, insert_message) (retry-IsInserted c max_attempts 0 msg s)
]

-- The next order is above every one of the session.
pub stored-IsSequenced : (msg : Message) (s : Store) → IsSequenced s → IsSequenced (stored msg s).1
unfolding get_next_insert_order
stored-IsSequenced msg s seq id = elim (Bool-cases (msg.session_id == id)) [
  | inl e ↦
      let same : msg.session_id ≡ id = ground (arith, eq_iff msg.session_id id) in
      let rows = select (in_session id) s.messages in
      rw (select-append (in_session id) s.messages (numbered msg s ∷ [])) (
        rw e (
          append-IsIncreasing rows (numbered msg s) (seq id) (
            subst⁻¹
              (λ k.
                All (λ x. x.insert_order < suc (max_order (select (in_session k) s.messages))) rows)
              same (below_next rows (max_order rows) (max_order-bounds rows)))))
  | inr e ↦
      rw (select-append (in_session id) s.messages (numbered msg s ∷ []))
        (rw e (rw append-nil (seq id)))
]

-- An InsertMessage, whatever it returns and whatever fails, keeps the messages of every session
-- numbered upwards in the order in which they were stored.
pub insert_message-IsSequenced :
    (c : Call) (msg : Message) (s : Store) → IsSequenced s → IsSequenced (insert_message c msg s).1
insert_message-IsSequenced c msg s seq = elim (insert_message-IsInserted c msg s) [
  | inl (same, failed) ↦ subst⁻¹ IsSequenced same seq
  | inr e ↦ subst⁻¹ (λ o. IsSequenced o.1) e (stored-IsSequenced msg s seq)
]
