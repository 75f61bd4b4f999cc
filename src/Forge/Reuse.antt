-- ===== src/Forge/Reuse.antt =====
-- One session to an envelope: later deliveries find the running process.
use hermes_forge_public.Prelude.{
  ℕ, String, ◌≡◌, refl, ap, sym, ◌∙◌, inl, inr, Bool, true, false, Option, none, some, List, [],
  ◌∷◌, eqb, eq_refl, Bool-cases, Option-cases, Result-cases, map, Result, ok, err,
}
use hermes_forge_public.Sql.{select}
use hermes_forge_public.Sql.Laws.{select-append}
use hermes_forge_public.Forge.{
  Session, Call, not_found, get_by_envelope, insert, update_session_id, lookup, running,
  has_envelope, rename, query, duplicate, driver,
}
use hermes_forge_public.Forge.Deliver.{
  unknown_executor, launch_failed, Spawn, Os, State, ensure_session, spawn_and_register_session,
  register_spawned, new_session, store_session,
}
use hermes_forge_public.Forge.Replay.{lookup-put}
use hermes_forge_public.Forge.Rows.{
  HasOneRow, get-row, get-none, get-found, insert-ok, update-ok, select-rename,
}

-- The register has a session with the id as the envelope's only row, and the registry has a process
-- under that id.
pub record IsHeld {W : Type 0} (envelope session : String) (h : State W) : Type 0 where
  pub row : Session
  pub only : select (has_envelope envelope) h.sessions ≡ row ∷ []
  pub named : row.session_id ≡ session
  pub pid : ℕ
  pub registered : lookup session h.processes ≡ some pid

running-lookup :
    (alive : ℕ → Bool) (id : String) (m : List (String × ℕ))
    → running alive id m ≡ true
    → (pid : ℕ) × (lookup id m ≡ some pid)
unfolding running
running-lookup alive id m h = elim (Option-cases (lookup id m)) [
  | inl e ↦ let k : running alive id m ≡ false = rw (e, running) refl in let z = sym k ∙ h in cc
  | inr (pid, e) ↦ (pid, e)
]

running_of_alive :
    (alive : ℕ → Bool) (id : String) (m : List (String × ℕ)) (pid : ℕ)
    → lookup id m ≡ some pid
    → alive pid ≡ true
    → running alive id m ≡ true
unfolding running
running_of_alive alive id m pid e a = rw (e, running) a

-- A store that succeeds leaves the session as the envelope's only row.
insert-only :
    (c : Call) (s : Session) (rows rows' : List Session)
    → select (has_envelope s.envelope_id) rows ≡ []
    → insert c s rows ≡ (ok tt, rows')
    → select (has_envelope s.envelope_id) rows' ≡ s ∷ []
insert-only c s rows rows' f h =
    ap (select (has_envelope s.envelope_id)) (insert-ok c s rows rows' h)
    ∙ select-append (has_envelope s.envelope_id) rows (s ∷ [])
    ∙ rw f (rw (eq_refl s.envelope_id) refl)

update-only :
    (c : Call) (id new : String) (rows rows' : List Session) (x : Session)
    → select (has_envelope id) rows ≡ x ∷ []
    → update_session_id c id new rows ≡ (ok tt, rows')
    → select (has_envelope id) rows' ≡ rename new c.now x ∷ []
update-only c id new rows rows' x f h =
    ap (select (has_envelope id)) (update-ok c id new rows rows' h)
    ∙ select-rename id new c.now rows
    ∙ ap (map (rename new c.now)) f

-- The rows that an earlier lookup of the envelope has found.
abbrev pub IsFound : String → Option Session → List Session → Type 0
IsFound id none rows = select (has_envelope id) rows ≡ []
IsFound id (some x) rows = select (has_envelope id) rows ≡ x ∷ []

store_session-only :
    (c : Call) (old : Option Session) (s : Session) (rows rows' : List Session)
    → IsFound s.envelope_id old rows
    → store_session c old s rows ≡ (ok tt, rows')
    → (row : Session) × (select (has_envelope s.envelope_id) rows' ≡ row ∷ [])
      × (row.session_id ≡ s.session_id)
store_session-only c none s rows rows' f h = (s, insert-only c s rows rows' f h, refl)
store_session-only c (some x) s rows rows' f h =
    (rename s.session_id c.now x, update-only c s.envelope_id s.session_id rows rows' x f h, refl)

-- If there is a session, it is held.
abbrev pub IsHeldAfter : {W : Type 0} → String → Result (ℕ × String) Session × State W → Type 0
IsHeldAfter envelope (err x, h) = Unit
IsHeldAfter envelope (ok s, h) = IsHeld envelope s.session_id h

module _ {W : Type 0} (os : Os W) (hermes : Bool) where
  register_spawned-IsHeldAfter :
      (c : Call) (old : Option Session) (p : Spawn) (pid : ℕ) (h : State W)
      → IsFound p.envelope old h.sessions
      → IsHeldAfter p.envelope (register_spawned os hermes c old p pid h)
  register_spawned-IsHeldAfter c old p pid h f = elim (Bool-cases (eqb pid 0)) [
    | inl z ↦ rw z tt
    | inr z ↦
        let n = new_session p pid c.now in
        let o = store_session c old n h.sessions in
        elim (Result-cases o.0) [
          | inr (x, g) ↦ rw z (rw g tt)
          | inl (u, g) ↦
              let (row, only, named) =
                store_session-only c old n h.sessions o.1 f (ap (λ x. (x, o.1)) g) in
              rw z (
                rw g (record {
                  row = row;
                  only = only;
                  named = named;
                  pid = pid;
                  registered =
                      lookup-put n.session_id n.session_id pid h.processes
                      ∙ rw (eq_refl n.session_id) refl;
                }))
        ]
  ]

  spawn-IsHeldAfter :
      (c : Call) (old : Option Session) (p : Spawn) (h : State W)
      → IsFound p.envelope old h.sessions
      → IsHeldAfter p.envelope (spawn_and_register_session os hermes c old p h)
  unfolding spawn_and_register_session
  spawn-IsHeldAfter c old p h f =
      let o = os.launch p.executor p.envelope p.dir p.session p.resume h.os in
      elim (Result-cases o.0) [
        | inr (unknown_executor, e) ↦ rw (e, spawn_and_register_session) tt
        | inr (launch_failed, e) ↦ rw (e, spawn_and_register_session) tt
        | inl (pid, e) ↦
            rw (e, spawn_and_register_session)
              (register_spawned-IsHeldAfter c old p pid (record h { os = o.1 }) f)
      ]

  -- An ensured session is held.
  pub ensure_session-IsHeldAfter :
      (c : Call) (p : Spawn) (h : State W)
      → HasOneRow h.sessions
      → IsHeldAfter p.envelope (ensure_session os hermes c p h)
  unfolding ensure_session
  ensure_session-IsHeldAfter c p h one =
      elim (Result-cases (get_by_envelope c p.envelope h.sessions)) [
        | inr (not_found, e) ↦
            rw (e, ensure_session)
              (spawn-IsHeldAfter c none p h (get-none c p.envelope h.sessions e))
        | inr (duplicate, e) ↦ rw (e, ensure_session) tt
        | inr (driver x, e) ↦ rw (e, ensure_session) tt
        | inl (s, e) ↦
            let only = get-row c p.envelope h.sessions s one e in
            elim (Bool-cases (running (os.alive h.os) s.session_id h.processes)) [
              | inl r ↦
                  let (pid, l) = running-lookup (os.alive h.os) s.session_id h.processes r in
                  rw (e, ensure_session)
                    (rw r
                      (record { row = s; only = only; named = refl; pid = pid; registered = l }))
              | inr r ↦ rw (e, ensure_session) (rw r (spawn-IsHeldAfter c (some s) p h only))
            ]
      ]

  -- A held session whose process is alive is found again, and nothing changes.
  pub ensure_session_held :
      (d : Call) (p : Spawn) (id : String) (h : State W)
      → d.fails query ≡ false
      → (held : IsHeld p.envelope id h) → os.alive h.os held.pid ≡ true
      → ensure_session os hermes d p h ≡ (ok held.row, h)
  unfolding ensure_session
  ensure_session_held d p id h w held a =
      let e = get-found d p.envelope h.sessions held.row w held.only in
      let r =
        running_of_alive (os.alive h.os) held.row.session_id h.processes held.pid
          (ap (λ x. lookup x h.processes) held.named ∙ held.registered) a in
      rw (e, ensure_session) (rw r refl)
