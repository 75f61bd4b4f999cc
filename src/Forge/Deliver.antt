-- ===== src/Forge/Deliver.antt =====
-- forge/internal/httpapi/deliver.go: POST /deliver. `W` is the state of the operating system.
use hermes_forge_public.Prelude.{
  ℕ, suc, String, Bool, false, not, ◌&&◌, ◌||◌, Option, none, some, List, [], ◌∷◌, ◌++◌, ◌==◌, eqb,
  leb, length, Result, ok, err, if◌then◌else◌,
}
use hermes_forge_public.Prelude.Texts.{concat, decimal}
use hermes_forge_public.Forge.{
  Session, Call, Error, not_found, get_by_envelope, insert, update_session_id, put, lookup, running,
}

-- The body of a request; a key of the envelope that is missing or no text is empty.
pub record Request : Type 0 where
  pub delivery_id : String
  pub envelope_id : String
  pub target_executor : String
  pub executor_session_id : String
  pub working_dir : String

-- `acked_at` is the instant that the text in the response names.
pub record Ack : Type 0 where
  pub delivery_id : String
  pub envelope_id : String
  pub session_id : String
  pub acked_at : ℕ

-- The status of the response, with the error's code or the body.
pub data Response : Type 0 where
  refused : ℕ → String → Response
  acked : ℕ → Ack → Response

pub data LaunchError : Type 0 where
  unknown_executor launch_failed : LaunchError

-- What the handler uses of its surroundings: the launcher, the processes, random session ids, and
-- filepath.IsAbs and filepath.Clean. Arguments of `launch`: executor, envelope, working directory,
-- session and resume; a PID of 0 stands for every one that is not positive.
pub record Os (W : Type 0) : Type 0 where
  pub launch : String → String → String → String → Bool → W → Result LaunchError ℕ × W
  pub alive : W → ℕ → Bool
  pub stop : ℕ → W → W
  pub new_uuid : W → String × W
  pub is_abs : String → Bool
  pub clean : String → String

-- What a spawn leaves running in the background: the search for OpenCode's session id, or the push of
-- Claude's to Hermes.
pub data Background : Type 0 where
  discover_session : String → String → Background
  push_session : String → String → Background

pub record State (W : Type 0) : Type 0 where
  pub sessions : List Session
  pub processes : List (String × ℕ)
  pub deliveries : List (String × Ack)
  pub background : List Background
  pub os : W

unfoldable pub session_id_from_pid : String → ℕ → String
session_id_from_pid envelope pid =
    concat ("session-" ∷ envelope ∷ "-pid-" ∷ decimal (suc pid) pid ∷ [])

-- The session that a request starts in an executor, and whether it continues one.
pub record Spawn : Type 0 where
  pub envelope : String
  pub executor : String
  pub dir : String
  pub session : String
  pub resume : Bool

abbrev pub new_session : Spawn → ℕ → ℕ → Session
new_session p pid now = record {
  session_id = session_id_from_pid p.envelope pid;
  envelope_id = p.envelope;
  executor = p.executor;
  working_dir = p.dir;
  state = "starting";
  started_at = now;
  last_seen_at = now;
}

-- The row of an earlier session is updated, and otherwise one is inserted.
abbrev pub store_session :
    Call → Option Session → Session → List Session → Result Error (Unit {0}) × List Session
store_session c none s rows = insert c s rows
store_session c (some old) s rows = update_session_id c s.envelope_id s.session_id rows

-- `h.hermes` is there or nil.
abbrev pub start_background : Bool → Spawn → List Background
start_background hermes p =
    if hermes && p.executor == "opencode"
    then discover_session p.envelope p.dir ∷ []
    else if hermes && p.executor == "claude" && not p.resume && not (p.session == "")
    then push_session p.envelope p.session ∷ []
    else []

module _ {W : Type 0} (os : Os W) (hermes : Bool) where
  -- `spawnAndRegisterSession` from the launched process on
  abbrev pub register_spawned :
      Call → Option Session → Spawn → ℕ → State W → Result (ℕ × String) Session × State W
  register_spawned c old p pid h =
      let s = new_session p pid c.now in
      let (result, rows) = store_session c old s h.sessions in
      if eqb pid 0
      then (err (500, "launch_error"), record h { os = os.stop pid h.os })
      else elim result [
        | err x ↦ (err (500, "store_error"), record h { sessions = rows; os = os.stop pid h.os })
        | ok _ ↦ (
          ok s,
          record h {
            sessions = rows;
            processes = put s.session_id pid h.processes;
            background = h.background ++ start_background hermes p;
          },
        )
      ]

  unfoldable pub spawn_and_register_session :
      Call → Option Session → Spawn → State W → Result (ℕ × String) Session × State W
  spawn_and_register_session c old p h =
      let (result, w) = os.launch p.executor p.envelope p.dir p.session p.resume h.os in
      elim result [
        | err unknown_executor ↦ (err (422, "unknown_executor"), record h { os = w })
        | err launch_failed ↦ (err (500, "launch_error"), record h { os = w })
        | ok pid ↦ register_spawned c old p pid (record h { os = w })
      ]

  -- `ensureSession`, under the lock of the envelope
  unfoldable pub ensure_session : Call → Spawn → State W → Result (ℕ × String) Session × State W
  ensure_session c p h = elim (get_by_envelope c p.envelope h.sessions) [
    | err not_found ↦ spawn_and_register_session c none p h
    | err _ ↦ (err (500, "store_error"), h)
    | ok s ↦
        if running (os.alive h.os) s.session_id h.processes
        then (ok s, h)
        else spawn_and_register_session c (some s) p h
  ]

  -- `maxCachedDeliveries`: a full cache is emptied before the ack goes in.
  abbrev pub max_cached_deliveries : ℕ
  max_cached_deliveries = 1000

  abbrev pub remember : Ack → List (String × Ack) → List (String × Ack)
  remember ack m = put ack.delivery_id ack (if leb max_cached_deliveries (length m) then [] else m)

  abbrev pub ack_of : Call → Request → Session → Ack
  ack_of c r s = record {
    delivery_id = r.delivery_id;
    envelope_id = r.envelope_id;
    session_id = s.session_id;
    acked_at = c.now;
  }

  -- The part of `deliver` after the session is there
  abbrev pub acknowledge :
      Call → Request → Result (ℕ × String) Session × State W → Response × State W
  acknowledge c r (err (status, code), h) = (refused status code, h)
  acknowledge c r (ok s, h) =
      (acked 201 (ack_of c r s), record h { deliveries = remember (ack_of c r s) h.deliveries })

  -- Claude's session id is chosen up front when the envelope brings none.
  abbrev pub spawn_of : Request → State W → Spawn × State W
  spawn_of r h =
      let (uuid, w) = os.new_uuid h.os in
      let dir = if r.working_dir == "" then "" else os.clean r.working_dir in
      let fresh = r.executor_session_id == "" in
      if fresh && r.target_executor == "claude"
      then (
        record {
          envelope = r.envelope_id;
          executor = r.target_executor;
          dir = dir;
          session = uuid;
          resume = false;
        },
        record h { os = w },
      )
      else (
        record {
          envelope = r.envelope_id;
          executor = r.target_executor;
          dir = dir;
          session = r.executor_session_id;
          resume = not fresh;
        },
        h,
      )

  -- The checks that come before the cache.
  abbrev pub validate : Request → Option Response
  validate r =
      if r.delivery_id == "" || r.envelope_id == "" || r.target_executor == ""
      then some (refused 422 "invalid_delivery")
      else if not (r.working_dir == "") && not (os.is_abs r.working_dir)
      then some (refused 422 "invalid_working_dir")
      else none

  abbrev pub deliver_new : Call → Request → State W → Response × State W
  deliver_new c r h = let (p, h') = spawn_of r h in acknowledge c r (ensure_session c p h')

  -- `deliver`; a body that does not decode is `none`.
  unfoldable pub deliver : Call → Option Request → State W → Response × State W
  deliver c none h = (refused 400 "invalid_json", h)
  deliver c (some r) h = elim (validate r) [
    | some response ↦ (response, h)
    | none ↦ elim (lookup r.delivery_id h.deliveries) [
      | some prior ↦ (acked 200 prior, h)
      | none ↦ deliver_new c r h
    ]
  ]
