-- ===== src/Forge/Register.antt =====
-- No sequence of deliveries gives an envelope a second row in the session register.
use mathlib.Core.Path.{subst, subst⁻¹}
use hermes_forge_public.Prelude.{
  ℕ, suc, String, ◌≡◌, refl, ap, inl, inr, Bool, Option, none, some, List, [], ◌∷◌, ◌++◌, arith,
  length-append, eqb, eq_iff, Bool-cases, Option-cases, Result-cases, Result, ok, err,
}
use hermes_forge_public.Sql.{select, find, update, affected}
use hermes_forge_public.Sql.Laws.{select-append}
use hermes_forge_public.Forge.{
  Session, Call, not_found, duplicate, driver, exec, rows_affected, clashes, get_by_envelope,
  insert, update_session_id, has_envelope, has_session_id, rename, running, lookup,
}
use hermes_forge_public.Forge.Deliver.{
  Request, Spawn, Os, State, unknown_executor, launch_failed, deliver, deliver_new, acknowledge,
  validate, ensure_session, spawn_and_register_session, register_spawned, new_session,
  store_session, spawn_of,
}
use hermes_forge_public.Forge.Replay.{deliver_refused, deliver_hit, deliver_miss}
use hermes_forge_public.Forge.Rows.{HasOneRow, get-row, get-none}
use hermes_forge_public.Forge.Reuse.{IsFound}
use hermes_forge_public.Forge.Acked.{spawn_of-keeps}

affected-rename :
    (id env new : String) (now : ℕ) (rows : List Session)
    → affected (has_envelope id) (update (has_envelope env) (rename new now) rows)
      ≡ affected (has_envelope id) rows
affected-rename id env new now [] = refl
affected-rename id env new now (s ∷ rows) = elim (Bool-cases (has_envelope env s)) [
  | inl e ↦ elim (Bool-cases (has_envelope id s)) [
    | inl d ↦ rw e (rw d (ap suc (affected-rename id env new now rows)))
    | inr d ↦ rw e (rw d (affected-rename id env new now rows))
  ]
  | inr e ↦ elim (Bool-cases (has_envelope id s)) [
    | inl d ↦ rw e (rw d (ap suc (affected-rename id env new now rows)))
    | inr d ↦ rw e (rw d (affected-rename id env new now rows))
  ]
]

rename-HasOneRow :
    (env new : String) (now : ℕ) (rows : List Session)
    → HasOneRow rows
    → HasOneRow (update (has_envelope env) (rename new now) rows)
rename-HasOneRow env new now rows one id =
    let k = one id in omega (arith, affected-rename id env new now rows)

append-HasOneRow :
    (s : Session) (rows : List Session)
    → select (has_envelope s.envelope_id) rows ≡ []
    → HasOneRow rows
    → HasOneRow (rows ++ s ∷ [])
append-HasOneRow s rows f one id =
    let k = one id in
    rw (select-append (has_envelope id) rows (s ∷ [])) (elim (Bool-cases (has_envelope id s)) [
      | inl e ↦
          let same : s.envelope_id ≡ id = ground (arith, eq_iff s.envelope_id id) in
          let g = subst (λ x. select (has_envelope x) rows ≡ []) same f in rw (g, e) (omega arith)
      | inr e ↦ rw e (omega (arith, k, length-append (select (has_envelope id) rows) []))
    ])

insert-HasOneRow :
    (c : Call) (s : Session) (rows : List Session)
    → select (has_envelope s.envelope_id) rows ≡ []
    → HasOneRow rows
    → HasOneRow (insert c s rows).1
unfolding insert
insert-HasOneRow c s rows f one = elim (Bool-cases (c.fails exec)) [
  | inl e ↦ rw e one
  | inr e ↦ elim (Option-cases (find (has_session_id s.session_id) rows)) [
    | inr (x, g) ↦ rw (e, g) one
    | inl g ↦ rw (e, g) (append-HasOneRow s rows f one)
  ]
]

update-HasOneRow :
    (c : Call) (env new : String) (rows : List Session)
    → HasOneRow rows
    → HasOneRow (update_session_id c env new rows).1
unfolding update_session_id
update-HasOneRow c env new rows one =
    let renamed = rename-HasOneRow env new c.now rows one in
    elim (Bool-cases (c.fails exec)) [
      | inl e ↦ subst⁻¹ HasOneRow (rw e refl) one
      | inr e ↦ elim (Bool-cases (clashes env new rows)) [
        | inl f ↦ subst⁻¹ HasOneRow (rw (e, f) refl) one
        | inr f ↦ elim (Bool-cases (c.fails rows_affected)) [
          | inl g ↦ subst⁻¹ HasOneRow (rw (e, f, g) refl) renamed
          | inr g ↦ elim (Bool-cases (eqb (affected (has_envelope env) rows) 0)) [
            | inl k ↦ subst⁻¹ HasOneRow (rw (e, f, g, k) refl) renamed
            | inr k ↦ subst⁻¹ HasOneRow (rw (e, f, g, k) refl) renamed
          ]
        ]
      ]
    ]

store_session-HasOneRow :
    (c : Call) (old : Option Session) (s : Session) (rows : List Session)
    → IsFound s.envelope_id old rows
    → HasOneRow rows
    → HasOneRow (store_session c old s rows).1
store_session-HasOneRow c none s rows f one = insert-HasOneRow c s rows f one
store_session-HasOneRow c (some x) s rows f one =
    update-HasOneRow c s.envelope_id s.session_id rows one

-- Between two requests the outside may change the processes; a request comes with its `Call`.
pub data Event (W : Type 0) : Type 0 where
  request : Call → Option Request → Event W
  outside : (W → W) → Event W

module _ {W : Type 0} (os : Os W) (hermes : Bool) where
  -- The state after one event, whatever the response is.
  abbrev pub step : Event W → State W → State W
  step (request c r) h = (deliver os hermes c r h).1
  step (outside f) h = record h { os = f h.os }

  abbrev pub run : List (Event W) → State W → State W
  run [] h = h
  run (e ∷ events) h = run events (step e h)

  register_spawned-HasOneRow :
      (c : Call) (old : Option Session) (p : Spawn) (pid : ℕ) (h : State W)
      → IsFound p.envelope old h.sessions
      → HasOneRow h.sessions
      → HasOneRow (register_spawned os hermes c old p pid h).1.sessions
  register_spawned-HasOneRow c old p pid h f one =
      let n = new_session p pid c.now in
      let stored = store_session-HasOneRow c old n h.sessions f one in
      elim (Bool-cases (eqb pid 0)) [
        | inl z ↦ rw z one
        | inr z ↦ elim (Result-cases (store_session c old n h.sessions).0) [
          | inr (x, g) ↦ rw z (rw g stored)
          | inl (u, g) ↦ rw z (rw g stored)
        ]
      ]

  spawn-HasOneRow :
      (c : Call) (old : Option Session) (p : Spawn) (h : State W)
      → IsFound p.envelope old h.sessions
      → HasOneRow h.sessions
      → HasOneRow (spawn_and_register_session os hermes c old p h).1.sessions
  unfolding spawn_and_register_session
  spawn-HasOneRow c old p h f one =
      let o = os.launch p.executor p.envelope p.dir p.session p.resume h.os in
      elim (Result-cases o.0) [
        | inr (unknown_executor, e) ↦ rw (e, spawn_and_register_session) one
        | inr (launch_failed, e) ↦ rw (e, spawn_and_register_session) one
        | inl (pid, e) ↦
            rw (e, spawn_and_register_session)
              (register_spawned-HasOneRow c old p pid (record h { os = o.1 }) f one)
      ]

  ensure_session-HasOneRow :
      (c : Call) (p : Spawn) (h : State W)
      → HasOneRow h.sessions
      → HasOneRow (ensure_session os hermes c p h).1.sessions
  unfolding ensure_session
  ensure_session-HasOneRow c p h one =
      elim (Result-cases (get_by_envelope c p.envelope h.sessions)) [
        | inr (not_found, e) ↦
            rw (e, ensure_session)
              (spawn-HasOneRow c none p h (get-none c p.envelope h.sessions e) one)
        | inr (duplicate, e) ↦ rw (e, ensure_session) one
        | inr (driver x, e) ↦ rw (e, ensure_session) one
        | inl (s, e) ↦ elim (Bool-cases (running (os.alive h.os) s.session_id h.processes)) [
          | inl r ↦ rw (e, ensure_session) (rw r one)
          | inr r ↦
              rw (e, ensure_session)
                (rw r
                  (spawn-HasOneRow c (some s) p h (get-row c p.envelope h.sessions s one e) one))
        ]
      ]

  sessions-acknowledge :
      (c : Call) (r : Request) (o : Result (ℕ × String) Session × State W)
      → (acknowledge os hermes c r o).1.sessions ≡ o.1.sessions
  sessions-acknowledge c r (err (status, code), h) = refl
  sessions-acknowledge c r (ok s, h) = refl

  deliver_new-HasOneRow :
      (c : Call) (r : Request) (h : State W)
      → HasOneRow h.sessions
      → HasOneRow (deliver_new os hermes c r h).1.sessions
  deliver_new-HasOneRow c r h one =
      let (p, h') = spawn_of os hermes r h in
      let (envelope, (w, same)) = spawn_of-keeps os hermes r h in
      subst⁻¹ HasOneRow (sessions-acknowledge c r (ensure_session os hermes c p h'))
        (ensure_session-HasOneRow c p h' (subst⁻¹ (λ x. HasOneRow x.sessions) same one))

  deliver-HasOneRow :
      (c : Call) (r : Option Request) (h : State W)
      → HasOneRow h.sessions
      → HasOneRow (deliver os hermes c r h).1.sessions
  unfolding deliver
  deliver-HasOneRow c none h one = one
  deliver-HasOneRow c (some r) h one = elim (Option-cases (validate os hermes r)) [
    | inr (x, v) ↦ subst⁻¹ (λ o. HasOneRow o.1.sessions) (deliver_refused os hermes c r h x v) one
    | inl v ↦ elim (Option-cases (lookup r.delivery_id h.deliveries)) [
      | inr (prior, l) ↦
          subst⁻¹ (λ o. HasOneRow o.1.sessions) (deliver_hit os hermes c r h prior v l) one
      | inl l ↦
          subst⁻¹ (λ o. HasOneRow o.1.sessions) (deliver_miss os hermes c r h v l)
            (deliver_new-HasOneRow c r h one)
    ]
  ]

  -- Any sequence of deliveries, whatever the launcher and the driver answer and whichever processes
  -- end in between, keeps at most one row to an envelope.
  pub run-HasOneRow :
      (events : List (Event W)) (h : State W)
      → HasOneRow h.sessions
      → HasOneRow (run events h).sessions
  run-HasOneRow [] h one = one
  run-HasOneRow (request c r ∷ events) h one =
      run-HasOneRow events (step (request c r) h) (deliver-HasOneRow c r h one)
  run-HasOneRow (outside f ∷ events) h one = run-HasOneRow events (step (outside f) h) one
