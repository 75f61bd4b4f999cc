-- ===== src/Forge/Tests.antt =====
-- Runs of Forge's delivery handler, and the theorems at concrete inputs.
use hermes_forge_public.Prelude.{
  ℕ, suc, Bool, true, false, ◌+◌, String, ◌≡◌, refl, some, List, [], ◌∷◌, ok, err, arith, ◌==◌,
  if◌then◌else◌,
}
use hermes_forge_public.Forge
use hermes_forge_public.Forge.{Session, Call, Point, exec}
use hermes_forge_public.Forge.Deliver.{
  Request, Ack, acked, unknown_executor, Spawn, Os, State, deliver, ensure_session,
  spawn_and_register_session, session_id_from_pid,
}
use hermes_forge_public.Forge.Repeated.{deliver_repeated}
use hermes_forge_public.Forge.Rows.{HasOneRow}
use hermes_forge_public.Forge.Reuse.{IsHeld}
use hermes_forge_public.Forge.Acked.{deliver-IsHeld}
use hermes_forge_public.Forge.Orphan.{orphaned, resume_orphans}
use hermes_forge_public.Forge.Resume.{OpenCode, failed, resume, message}
use hermes_forge_public.Forge.Register.{Event, request, outside, run, run-HasOneRow}

abbrev call : ℕ → Call
call now = record { fails = λ p. false; now = now }

-- Processes are numbered upwards and never end; only "kitt" is unknown.
abbrev machine : Os ℕ
machine = record {
  launch = λ executor envelope dir session resume n.
      if executor == "kitt" then (err unknown_executor, n) else (ok (suc n), suc n);
  alive = λ n pid. true;
  stop = λ pid n. n;
  new_uuid = λ n. ("uuid", n);
  is_abs = λ dir. true;
  clean = λ dir. dir;
}

abbrev ask : String → Request
ask id = record {
  delivery_id = id;
  envelope_id = "e1";
  target_executor = "opencode";
  executor_session_id = "";
  working_dir = "";
}

abbrev idle : State ℕ
idle = record { sessions = []; processes = []; deliveries = []; background = []; os = 41 }

abbrev first_ack : Ack
first_ack = record {
  delivery_id = "d1";
  envelope_id = "e1";
  session_id = "session-e1-pid-42";
  acked_at = 7;
}

abbrev busy : State ℕ
busy = record {
  sessions =
      record {
        session_id = "session-e1-pid-42";
        envelope_id = "e1";
        executor = "opencode";
        working_dir = "";
        state = "starting";
        started_at = 7;
        last_seen_at = 7;
      }
      ∷ [];
  processes = ("session-e1-pid-42", 42) ∷ [];
  deliveries = ("d1", first_ack) ∷ [];
  background = [];
  os = 42;
}

first_delivery : deliver machine false (call 7) (some (ask "d1")) idle ≡ (acked 201 first_ack, busy)
unfolding deliver ensure_session spawn_and_register_session session_id_from_pid Forge.insert
    Forge.put Forge.lookup Forge.get_by_envelope
first_delivery = refl

-- Another envelope is delivered, and a process elsewhere takes a number.
abbrev other : Request
other = record (ask "d3") { envelope_id = "e2" }

abbrev between : List (Event ℕ)
between = request (call 8) (some other) ∷ outside (λ n. n + 1) ∷ []

deliver_repeated_example :
    deliver machine false (call 9) (some (ask "d1")) (run machine false between busy)
    ≡ (acked 200 first_ack, run machine false between busy)
deliver_repeated_example =
    deliver_repeated machine false (call 7) (call 9) (ask "d1") between idle busy 201 first_ack
      first_delivery (omega arith)

nothing_yet : HasOneRow []
nothing_yet id = omega arith

deliver-IsHeld_example : IsHeld "e1" "session-e1-pid-42" busy
deliver-IsHeld_example =
    deliver-IsHeld machine false (call 7) (ask "d1") idle busy first_ack nothing_yet first_delivery

run-HasOneRow_example :
    HasOneRow
      (run machine false
        (request (call 7) (some (ask "d1")) ∷ outside (λ n. n + 1) ∷ [])
        idle).sessions
run-HasOneRow_example =
    run-HasOneRow machine false (request (call 7) (some (ask "d1")) ∷ outside (λ n. n + 1) ∷ [])
      idle nothing_yet

-- A server that finds every session, a register that cannot be written, and a session that is dead.
abbrev server : OpenCode ℕ
server = record { discover = λ envelope dir n. (some "oc1", n); inject = λ id text n. (true, n) }

abbrev is_exec : Point → Bool
is_exec exec = true
is_exec _ = false

abbrev locked : Call
locked = record { fails = is_exec; now = 9 }

abbrev dead_session : Session
dead_session = record {
  session_id = "session-e1-pid-42";
  envelope_id = "e1";
  executor = "opencode";
  working_dir = "";
  state = "starting";
  started_at = 7;
  last_seen_at = 7;
}

abbrev dead : State ℕ
dead = record busy { processes = [] }

abbrev start : Spawn
start = record { envelope = "e1"; executor = "opencode"; dir = ""; session = ""; resume = false }

not_running : Forge.running (machine.alive 42) "session-e1-pid-42" [] ≡ false
unfolding Forge.running Forge.lookup
not_running = refl

still_not_running :
    Forge.running
      (machine.alive 43)
      "session-e1-pid-42"
      (Forge.put (session_id_from_pid "e1" 43) 43 [])
    ≡ false
unfolding Forge.running Forge.lookup Forge.put session_id_from_pid
still_not_running = refl

resume_orphans_example :
    (resume machine server locked locked "e1" (message "go on") dead
      ≡ (failed 500 "store_error", orphaned machine false server dead_session 43 43 dead))
    × (Forge.lookup
          (session_id_from_pid "e1" 43)
          (orphaned machine false server dead_session 43 43 dead).processes
        ≡ some 43)
    × (ensure_session machine false
          (call 9)
          start
          (orphaned machine false server dead_session 43 43 dead)
        ≡ spawn_and_register_session machine false
            (call 9)
            (some dead_session)
            start
            (orphaned machine false server dead_session 43 43 dead))
resume_orphans_example =
    resume_orphans machine false server locked (call 9) dead_session "go on" 43 43 dead start refl
      refl refl refl refl refl not_running refl refl still_not_running refl
