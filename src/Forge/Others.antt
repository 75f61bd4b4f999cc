-- ===== src/Forge/Others.antt =====
-- What the delivery of one envelope leaves of the others: forge/internal/httpapi/deliver.go.
use hermes_forge_public.Prelude.{
  ℕ, String, ◌≡◌, refl, ap, ◌∙◌, inl, inr, Bool, false, Option, none, some, List, [], ◌∷◌, arith,
  eqb, ◌==◌, eq_iff, Bool-cases, Option-cases, Result-cases,
}
use mathlib.Core.List.{append-nil}
use hermes_forge_public.Sql.{select, find, update, affected}
use hermes_forge_public.Sql.Laws.{select-append}
use hermes_forge_public.Forge.{
  Session, Call, not_found, duplicate, driver, exec, rows_affected, clashes, get_by_envelope,
  insert, update_session_id, has_envelope, has_session_id, rename, running, put, lookup,
}
use hermes_forge_public.Forge.Deliver.{
  Spawn, Os, State, unknown_executor, launch_failed, ensure_session, spawn_and_register_session,
  register_spawned, new_session, store_session,
}
use hermes_forge_public.Forge.Replay.{lookup-put}

-- The state after a step for one envelope: the cache is as it was, so are the rows of every other
-- envelope, and an id that had a process has one.
pub record Keeps {W : Type 0} (envelope : String) (h h' : State W) : Type 0 where
  pub deliveries : h'.deliveries ≡ h.deliveries
  pub others :
      (id : String)
      → (envelope == id) ≡ false
      → select (has_envelope id) h'.sessions ≡ select (has_envelope id) h.sessions
  pub registered :
      (id : String) (pid : ℕ)
      → lookup id h.processes ≡ some pid
      → (now : ℕ) × (lookup id h'.processes ≡ some now)

select-other :
    (id envelope new : String) (now : ℕ) (rows : List Session)
    → (envelope == id) ≡ false
    → select (has_envelope id) (update (has_envelope envelope) (rename new now) rows)
      ≡ select (has_envelope id) rows
select-other id envelope new now [] d = refl
select-other id envelope new now (s ∷ rows) d =
    let rest = select-other id envelope new now rows d in
    elim (Bool-cases (has_envelope envelope s)) [
      | inl e ↦
          let f : has_envelope id s ≡ false =
            ground
              (arith, eq_iff s.envelope_id envelope, eq_iff s.envelope_id id, eq_iff envelope id) in
          rw e (rw f rest)
      | inr e ↦ elim (Bool-cases (has_envelope id s)) [
        | inl f ↦ rw e (rw f (ap (λ l. s ∷ l) rest))
        | inr f ↦ rw e (rw f rest)
      ]
    ]

insert-other :
    (c : Call) (s : Session) (rows : List Session) (id : String)
    → (s.envelope_id == id) ≡ false
    → select (has_envelope id) (insert c s rows).1 ≡ select (has_envelope id) rows
unfolding insert
insert-other c s rows id d = elim (Bool-cases (c.fails exec)) [
  | inl e ↦ rw e refl
  | inr e ↦ elim (Option-cases (find (has_session_id s.session_id) rows)) [
    | inr (x, f) ↦ rw (e, f) refl
    | inl f ↦
        rw (e, f)
          (select-append (has_envelope id) rows (s ∷ [])
            ∙ rw d (append-nil (select (has_envelope id) rows)))
  ]
]

update-other :
    (c : Call) (envelope new : String) (rows : List Session) (id : String)
    → (envelope == id) ≡ false
    → select (has_envelope id) (update_session_id c envelope new rows).1
      ≡ select (has_envelope id) rows
unfolding update_session_id
update-other c envelope new rows id d =
    let renamed = select-other id envelope new c.now rows d in
    elim (Bool-cases (c.fails exec)) [
      | inl e ↦ rw e refl
      | inr e ↦ elim (Bool-cases (clashes envelope new rows)) [
        | inl f ↦ rw (e, f) refl
        | inr f ↦ elim (Bool-cases (c.fails rows_affected)) [
          | inl g ↦ rw (e, f, g) renamed
          | inr g ↦ elim (Bool-cases (eqb (affected (has_envelope envelope) rows) 0)) [
            | inl k ↦ rw (e, f, g, k) renamed
            | inr k ↦ rw (e, f, g, k) renamed
          ]
        ]
      ]
    ]

store_session-other :
    (c : Call) (old : Option Session) (s : Session) (rows : List Session) (id : String)
    → (s.envelope_id == id) ≡ false
    → select (has_envelope id) (store_session c old s rows).1 ≡ select (has_envelope id) rows
store_session-other c none s rows id d = insert-other c s rows id d
store_session-other c (some x) s rows id d = update-other c s.envelope_id s.session_id rows id d

put-registered :
    (k id : String) (x pid : ℕ) (m : List (String × ℕ))
    → lookup id m ≡ some pid
    → (now : ℕ) × (lookup id (put k x m) ≡ some now)
put-registered k id x pid m l = elim (Bool-cases (k == id)) [
  | inl e ↦ (x, lookup-put id k x m ∙ rw e refl)
  | inr e ↦ (pid, lookup-put id k x m ∙ rw e l)
]

module _ {W : Type 0} where
  moved : (envelope : String) (h : State W) (w : W) → Keeps envelope h (record h { os = w })
  moved envelope h w = record {
    deliveries = refl;
    others = λ id d. refl;
    registered = λ id pid l. (pid, l);
  }

  pub unmoved : (envelope : String) (h : State W) → Keeps envelope h h
  unmoved envelope h = moved envelope h h.os

module _ {W : Type 0} (os : Os W) (hermes : Bool) where
  register_spawned-Keeps :
      (c : Call) (old : Option Session) (p : Spawn) (pid : ℕ) (h : State W)
      → Keeps p.envelope h (register_spawned os hermes c old p pid h).1
  register_spawned-Keeps c old p pid h =
      let n = new_session p pid c.now in
      let stored = store_session-other c old n h.sessions in
      elim (Bool-cases (eqb pid 0)) [
        | inl z ↦ rw z (moved p.envelope h (os.stop pid h.os))
        | inr z ↦ elim (Result-cases (store_session c old n h.sessions).0) [
          | inr (x, g) ↦ rw z (
              rw g
                (record { deliveries = refl; others = stored; registered = λ id now l. (now, l) }))
          | inl (u, g) ↦ rw z (
              rw g (record {
                deliveries = refl;
                others = stored;
                registered = λ id now l. put-registered n.session_id id pid now h.processes l;
              }))
        ]
      ]

  spawn-Keeps :
      (c : Call) (old : Option Session) (p : Spawn) (h : State W)
      → Keeps p.envelope h (spawn_and_register_session os hermes c old p h).1
  unfolding spawn_and_register_session
  spawn-Keeps c old p h =
      let o = os.launch p.executor p.envelope p.dir p.session p.resume h.os in
      elim (Result-cases o.0) [
        | inr (unknown_executor, e) ↦ rw (e, spawn_and_register_session) (moved p.envelope h o.1)
        | inr (launch_failed, e) ↦ rw (e, spawn_and_register_session) (moved p.envelope h o.1)
        | inl (pid, e) ↦
            let k = register_spawned-Keeps c old p pid (record h { os = o.1 }) in
            rw (e, spawn_and_register_session)
              (record { deliveries = k.deliveries; others = k.others; registered = k.registered })
      ]

  pub ensure_session-Keeps :
      (c : Call) (p : Spawn) (h : State W) → Keeps p.envelope h (ensure_session os hermes c p h).1
  unfolding ensure_session
  ensure_session-Keeps c p h = elim (Result-cases (get_by_envelope c p.envelope h.sessions)) [
    | inr (not_found, e) ↦ rw (e, ensure_session) (spawn-Keeps c none p h)
    | inr (duplicate, e) ↦ rw (e, ensure_session) (unmoved p.envelope h)
    | inr (driver x, e) ↦ rw (e, ensure_session) (unmoved p.envelope h)
    | inl (s, e) ↦ elim (Bool-cases (running (os.alive h.os) s.session_id h.processes)) [
      | inl r ↦ rw (e, ensure_session) (rw r (unmoved p.envelope h))
      | inr r ↦ rw (e, ensure_session) (rw r (spawn-Keeps c (some s) p h))
    ]
  ]
