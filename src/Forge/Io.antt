-- ===== src/Forge/Io.antt =====
-- forge/internal/httpapi/session_handler.go: reading the register, and input and output of a running
-- session. A process pointer is its PID, and `process` says what it points to.
use hermes_forge_public.Prelude.{
  ℕ, String, Option, none, some, List, ◌==◌, eqb, Result, ok, err, if◌then◌else◌,
}
use hermes_forge_public.Prelude.Int.{ℤ, pos, negsuc}
use hermes_forge_public.Forge.{Session, Call, Error, not_found, lookup}
use hermes_forge_public.Forge
use hermes_forge_public.Forge.Runner
use hermes_forge_public.Forge.Runner.{Process}

pub record Register : Type 0 where
  pub sessions : List Session
  pub processes : List (String × ℕ)
  pub process : ℕ → Process

pub data Response : Type 0 where
  failed : ℕ → String → Response
  sessions : List Session → Response
  session : Session → Response
  output : String → List ℕ → Response
  written : String → ℕ → Response

unfoldable pub handle_list : Call → Register → Response
handle_list c r = elim (Forge.list c r.sessions) [
  | ok l ↦ sessions l
  | err _ ↦ failed 500 "store_error"
]

abbrev pub get_response : Result Error Session → Response
get_response (ok s) = session s
get_response (err not_found) = failed 404 "not_found"
get_response (err x) = failed 500 "store_error"

unfoldable pub handle_get : Call → String → Register → Response
handle_get c id r = get_response (Forge.get c id r.sessions)

-- The number of lines of a query that has the parameter `tail`: what Sscanf gives, `none` its error.
unfoldable pub tail_lines : Option ℤ → ℕ
tail_lines none = 20
tail_lines (some (negsuc n)) = 20
tail_lines (some (pos n)) = if eqb n 0 then 20 else n

abbrev pub set_process : ℕ → Process → (ℕ → Process) → ℕ → Process
set_process pid p process q = if eqb q pid then p else process q

-- The output of a process, taken out of its buffer.
abbrev pub read_all : String → ℕ → Register → Response × Register
read_all id pid r =
    let (out, p) = Runner.read_output (r.process pid) in
    (output id out, record r { process = set_process pid p r.process })

-- `tail` is the query parameter, `none` if it is missing or empty.
unfoldable pub read_output : String → Option (Option ℤ) → Register → Response × Register
read_output id tail r = elim (lookup id r.processes) [
  | none ↦ (failed 404 "not_found", r)
  | some pid ↦ elim tail [
    | some lines ↦ (output id (Runner.read_output_tail (tail_lines lines) (r.process pid)), r)
    | none ↦ read_all id pid r
  ]
]

-- What ends the wait for the write to stdin: the client has gone, or the pipe answers.
pub data Wait : Type 0 where
  canceled : Wait
  answered : Result Runner.Error ℕ → Wait

abbrev pub write_response : String → Result Runner.Error ℕ → Response
write_response id (ok n) = written id n
write_response id (err x) = failed 500 "write_error"

abbrev pub wait_response : String → Wait → Process → Response
wait_response id canceled p = failed 408 "request_canceled"
wait_response id (answered a) p = write_response id (Runner.write a p)

-- A body above 1 MiB or one that does not decode is `none`.
unfoldable pub write_input : String → Option String → Wait → Register → Response
write_input id body wait r = elim (lookup id r.processes) [
  | none ↦ failed 404 "not_found"
  | some pid ↦ elim body [
    | none ↦ failed 400 "invalid_json"
    | some input ↦
        if input == "" then failed 422 "invalid_input" else wait_response id wait (r.process pid)
  ]
]
