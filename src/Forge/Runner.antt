-- ===== src/Forge/Runner.antt =====
-- forge/internal/runner/runner.go: one executor process with its captured output. A process is what the
-- struct holds; the operating system's answers are arguments. The goroutine of `startDrain` is one step
-- for each read, and that of `startWait` one step after the last read.
pub mod Output
pub mod Tail
mod Tests
use hermes_forge_public.Prelude.{
  ℕ, suc, ◌+◌, String, Bool, true, false, not, ◌||◌, Option, none, some, List, [], ◌∷◌, ◌++◌, eqb,
  ltb, length, Result, ok, err, if◌then◌else◌,
}

pub data Error : Type 0 where
  not_running already_run pipe_failed start_failed write_failed : Error

-- `finished` says that the channel `done` is closed; `stdin_open` that stdin was not closed by us.
pub record Process : Type 0 where
  pub started : Bool
  pub finished : Bool
  pub stdin_open : Bool
  pub pid : ℕ
  pub out_buf : List ℕ

-- `New`
abbrev pub new : Process
new = record { started = false; finished = false; stdin_open = true; pid = 0; out_buf = [] }

-- The argument is what opening the pipes and starting the command give.
unfoldable pub start : Result Error ℕ → Process → Result Error (Unit {0}) × Process
start answer p = if p.started then (err already_run, p) else elim answer [
  | err x ↦ (err x, p)
  | ok pid ↦ (ok tt, record p { started = true; pid = pid })
]

abbrev pub max_out_buf : ℕ
max_out_buf = 104857600

-- The size of a read in `startDrain`.
abbrev pub read_size : ℕ
read_size = 4096

-- `startDrain` after a read of these bytes
unfoldable pub drain : List ℕ → Process → Process
drain chunk p =
    if ltb (length p.out_buf) max_out_buf then record p { out_buf = p.out_buf ++ chunk } else p

-- `startWait` after the command has ended and its output is drained
unfoldable pub finish : Process → Process
finish p = record p { finished = true }

-- The error of closing a closed stdin is dropped by every caller.
unfoldable pub close_stdin : Process → Process
close_stdin p = if p.started then record p { stdin_open = false } else p

-- The first argument is what the write to the pipe gives.
unfoldable pub write : Result Error ℕ → Process → Result Error ℕ
write answer p = if not p.started || p.finished then err not_running else answer

unfoldable pub read_output : Process → List ℕ × Process
read_output p = (p.out_buf, record p { out_buf = [] })

-- The loop of `ReadOutputTail` over the bytes from the last one on: `count` newlines have been seen, and
-- `seen` are the bytes after the current one. At the first byte the loop ends without a start.
unfoldable pub tail_loop : ℕ → ℕ → List ℕ → List ℕ → List ℕ
tail_loop n count seen [] = []
tail_loop n count seen (b ∷ before) =
    let rest = tail_loop n count (b ∷ seen) before in
    let counted = tail_loop n (count + 1) (b ∷ seen) before in
    if eqb b b'\n' then (if ltb n (count + 1) then seen else counted) else rest

-- A list before `acc`, from its last entry on.
unfoldable pub reverse_onto : List ℕ → List ℕ → List ℕ
reverse_onto [] acc = acc
reverse_onto (b ∷ bytes) acc = reverse_onto bytes (b ∷ acc)

-- A negative n is like 0.
unfoldable pub read_output_tail : ℕ → Process → List ℕ
read_output_tail n p =
    if eqb (length p.out_buf) 0 || eqb n 0 then [] else tail_loop n 0 [] (reverse_onto p.out_buf [])

-- `PID`; `none` is -1
unfoldable pub pid_of : Process → Option ℕ
pid_of p = if p.started then some p.pid else none

unfoldable pub is_running : Process → Bool
is_running p = if p.finished then false else p.started

-- `Stop`, which returns after the process has finished, killed if need be.
unfoldable pub stop : Process → Result Error (Unit {0}) × Process
stop p = if p.started then (ok tt, finish (close_stdin p)) else (err not_running, p)
