-- ===== src/Forge/Runner/Output.antt =====
-- What the readers of a process get, over any sequence of events.
use mathlib.Core.List.{append_assoc, append-nil}
use hermes_forge_public.Prelude.{
  ℕ, ◌+◌, ◌≤◌, ◌<◌, ◌≡◌, refl, ap, sym, ◌∙◌, inl, inr, true, List, [], ◌∷◌, ◌++◌, arith, Bool-cases,
  ltb, length, length-append, All, Result,
}
use hermes_forge_public.Forge.Runner.{
  Process, Error, start, drain, finish, close_stdin, read_output, stop, max_out_buf, read_size,
}

-- What happens to a process: a call with the answer of the operating system, a read of `startDrain`, or
-- the end.
pub data Event : Type 0 where
  starting : Result Error ℕ → Event
  printing : List ℕ → Event
  writing : Result Error ℕ → Event
  reading : Event
  tailing : ℕ → Event
  closing stopping finishing : Event

-- The bytes that ReadOutput returns to its caller, and the process.
abbrev pub step : Event → Process → List ℕ × Process
step (starting answer) p = ([], (start answer p).1)
step (printing chunk) p = ([], drain chunk p)
step (writing answer) p = ([], p)
step reading p = read_output p
step (tailing n) p = ([], p)
step closing p = ([], close_stdin p)
step stopping p = ([], (stop p).1)
step finishing p = ([], finish p)

-- All that ReadOutput has returned, in order, and the process at the end.
abbrev pub run : List Event → Process → List ℕ × Process
run [] p = ([], p)
run (e ∷ events) p =
    let (out, p') = step e p in let (outs, p'') = run events p' in (out ++ outs, p'')

-- What one event prints, and all of them in order.
abbrev pub printed_by : Event → List ℕ
printed_by (printing chunk) = chunk
printed_by e = []

abbrev pub printed : List Event → List ℕ
printed [] = []
printed (e ∷ events) = printed_by e ++ printed events

start-out_buf : (answer : Result Error ℕ) (p : Process) → (start answer p).1.out_buf ≡ p.out_buf
unfolding start
start-out_buf answer p = ground arith

close_stdin-out_buf : (p : Process) → (close_stdin p).out_buf ≡ p.out_buf
unfolding close_stdin
close_stdin-out_buf p = ground arith

stop-out_buf : (p : Process) → (stop p).1.out_buf ≡ p.out_buf
unfolding stop finish close_stdin
stop-out_buf p = ground arith

drain-fits :
    (chunk : List ℕ) (p : Process)
    → length p.out_buf + length chunk ≤ max_out_buf
    → (drain chunk p).out_buf ≡ p.out_buf ++ chunk
unfolding drain
drain-fits [] p h = elim (Bool-cases (ltb (length p.out_buf) max_out_buf)) [
  | inl e ↦ rw e refl
  | inr e ↦ rw e (sym (append-nil p.out_buf))
]
drain-fits (c ∷ chunk) p h =
    let e : ltb (length p.out_buf) max_out_buf ≡ true = ground arith in rw e refl

drain-length :
    (chunk : List ℕ) (p : Process)
    → length chunk ≤ read_size
    → length p.out_buf < max_out_buf + read_size
    → length (drain chunk p).out_buf < max_out_buf + read_size
unfolding drain
drain-length chunk p h b = elim (Bool-cases (ltb (length p.out_buf) max_out_buf)) [
  | inl e ↦ rw e (ground (arith, length-append p.out_buf chunk))
  | inr e ↦ rw e b
]

-- No read of `startDrain` is longer than its buffer.
abbrev pub IsRead : Event → Type 0
IsRead (printing chunk) = length chunk ≤ read_size
IsRead e = Unit

step-length :
    (e : Event) (p : Process)
    → IsRead e
    → length p.out_buf < max_out_buf + read_size
    → length (step e p).1.out_buf < max_out_buf + read_size
unfolding read_output finish
step-length (starting answer) p h b = rw (start-out_buf answer p) b
step-length (printing chunk) p h b = drain-length chunk p h b
step-length (writing answer) p h b = b
step-length reading p h b = omega arith
step-length (tailing n) p h b = b
step-length closing p h b = rw (close_stdin-out_buf p) b
step-length stopping p h b = rw (stop-out_buf p) b
step-length finishing p h b = b

-- Whatever happens to a process that starts with less, its captured output stays below 100 MiB and one
-- read: the last read that is taken begins below 100 MiB.
pub run-length :
    (events : List Event) (p : Process)
    → All IsRead events
    → length p.out_buf < max_out_buf + read_size
    → length (run events p).1.out_buf < max_out_buf + read_size
run-length [] p h b = b
run-length (e ∷ events) p (read, reads) b =
    run-length events (step e p).1 reads (step-length e p read b)

-- One event: what was in the buffer and what is printed is read, or is in the buffer.
step-conserves :
    (e : Event) (p : Process)
    → length p.out_buf + length (printed_by e) ≤ max_out_buf
    → (step e p).0 ++ (step e p).1.out_buf ≡ p.out_buf ++ printed_by e
unfolding read_output finish
step-conserves (starting answer) p b = start-out_buf answer p ∙ sym (append-nil p.out_buf)
step-conserves (printing chunk) p b = drain-fits chunk p b
step-conserves (writing answer) p b = sym (append-nil p.out_buf)
step-conserves reading p b = refl
step-conserves (tailing n) p b = sym (append-nil p.out_buf)
step-conserves closing p b = close_stdin-out_buf p ∙ sym (append-nil p.out_buf)
step-conserves stopping p b = stop-out_buf p ∙ sym (append-nil p.out_buf)
step-conserves finishing p b = sym (append-nil p.out_buf)

-- While what was captured at first and all that is printed are no more than 100 MiB together, every
-- byte is read once and in order: what ReadOutput has returned, followed by what is still captured, is
-- what was captured at first, followed by what the process printed.
pub run-conserves :
    (events : List Event) (p : Process)
    → length (p.out_buf ++ printed events) ≤ max_out_buf
    → (run events p).0 ++ (run events p).1.out_buf ≡ p.out_buf ++ printed events
run-conserves [] p b = sym (append-nil p.out_buf)
run-conserves (e ∷ events) p b =
    let p' = (step e p).1 in
    let total = length-append p.out_buf (printed_by e ++ printed events) in
    let kept =
      step-conserves e p (omega (arith, total, b, length-append (printed_by e) (printed events))) in
    let rest : length (p'.out_buf ++ printed events) ≤ max_out_buf = omega (
      arith,
      b,
      total,
      ap length kept,
      length-append (step e p).0 p'.out_buf,
      length-append p.out_buf (printed_by e),
      length-append (printed_by e) (printed events),
      length-append p'.out_buf (printed events),
    ) in
    append_assoc (step e p).0 (run events p').0 (run events p').1.out_buf
    ∙ ap (λ l. (step e p).0 ++ l) (run-conserves events p' rest)
    ∙ sym (append_assoc (step e p).0 p'.out_buf (printed events))
    ∙ ap (λ l. l ++ printed events) kept
    ∙ append_assoc p.out_buf (printed_by e) (printed events)
